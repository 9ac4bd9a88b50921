-- ===== src/Client/Reading.antt =====
-- `PacketReading` and `DataCopy` of the client. `READ`, `WRITE` and `READ_MORE` are `recv`, `send` and
-- `recv_more` of the server's operations; a block has 4096 bytes here.
pub mod Agreement
use cpp_iocp_server.Prelude.{
  ℕ, zero, suc, ◌+◌, ◌-◌, ◌*◌, ◌/◌, ◌%◌, ◌^◌, Bool, true, false, ◌&&◌, ◌||◌, Option, none, some,
  List, [], ◌∷◌, ◌++◌, take, drop, length, ltb, leb, min, replicate, if◌then◌else◌, ◌==◌, nat_eq,
}
use cpp_iocp_server.Text.{Text}
use cpp_iocp_server.Outcome.{Outcome, returns, undefined, M, pure, fault, ◌>>=◌, ◌>>◌, modify}
use cpp_iocp_server.Common.{buf_size}
use cpp_iocp_server.Server.Reading.{
  recv, send, recv_more, PerIo, slice, write_at, byte_at, read16, read32, Remain, remain, more,
  rest_or_more, text_before_zero,
}

-- A copy into a block.
abbrev pub into_client_block : ℕ → Text → Text → M PerIo Text
into_client_block i bytes block io =
    if ltb buf_size (i + length bytes) then undefined else returns (write_at i bytes block) io

-- A length that is not negative, and at most 4096 bytes behind it.
unfoldable pub client_read_packet : ℕ → M PerIo Remain
client_read_packet bytes_trans io =
    (if ltb io.body_size bytes_trans && leb (bytes_trans - io.body_size) buf_size
        then (do
          filled ← into_client_block 0 (take io.body_size io.buffer) io.block
          modify (λ io. record io {
            recv_buffer = filled;
            buffer = write_at 0 (slice io.body_size bytes_trans io.buffer) io.buffer;
          })
          pure (remain (bytes_trans - io.body_size)))
        else if io.body_size == bytes_trans
        then (do
          filled ← into_client_block 0 (take io.body_size io.buffer) io.block
          modify (λ io. record io { recv_buffer = filled })
          pure (remain 0))
        else if ltb bytes_trans io.body_size
        then (do
          filled ← into_client_block 0 (take bytes_trans io.buffer) io.block
          modify (λ io. record io { recv_buffer = filled; recv_byte = bytes_trans })
          pure more)
        else (do modify (λ io. record io { recv_buffer = io.block }); pure (remain 0)))
      io

-- A length with its sign bit set is negative: the copy is undefined if at most 4096 bytes are left
-- by its measure, and is passed over otherwise.
abbrev pub negative_length : ℕ → ℕ → M PerIo Remain
negative_length bytes_trans body io =
    if leb (bytes_trans + 2 ^ 16 - body) buf_size
    then undefined
    else returns (remain 0) (record io { body_size = body; recv_buffer = io.block })

unfoldable pub client_read_first : ℕ → M PerIo Remain
unfolding client_read_packet
client_read_first bytes_trans io =
    if leb 2 bytes_trans
    then (if leb (2 ^ 15) (read16 io.buffer)
        then negative_length bytes_trans (read16 io.buffer) io
        else client_read_packet bytes_trans (record io { body_size = read16 io.buffer }))
    else if bytes_trans == 1
    then returns more (record io {
      body_size = byte_at 0 io.buffer + 256 * (io.body_size / 256);
      recv_byte = 1;
      tot_byte = 0;
    })
    else returns (remain 0) io

-- The length was split.
unfoldable pub client_read_after_header : ℕ → M PerIo Remain
client_read_after_header bytes_trans io0 =
    let body =
      read16
        (take io0.recv_byte (io0.body_size % 256 ∷ []) ++ take (2 - io0.recv_byte) io0.buffer) in
    let io : PerIo = record io0 { body_size = body } in
    (if leb (2 ^ 15) body || ltb body io.recv_byte then fault else do
      filled ←
          into_client_block 2 (slice (2 - io.recv_byte) (body + 2 - io.recv_byte) io.buffer)
            io.block
      modify (λ io. record io { recv_buffer = filled })
      if ltb body bytes_trans
          then (do
            modify (λ io. record io {
              buffer = write_at 0 (slice (body - io.recv_byte) bytes_trans io.buffer) io.buffer;
            })
            pure (remain (bytes_trans - (body - io.recv_byte))))
          else pure (remain 0))
      io

-- The body was split.
unfoldable pub client_read_rest : ℕ → M PerIo Remain
client_read_rest bytes_trans io =
    let body = io.body_size in
    let missing = body - io.recv_byte in
    (if ltb body io.recv_byte then fault else do
      filled ← into_client_block io.recv_byte (take missing io.buffer) io.recv_buffer
      modify (λ io. record io { recv_buffer = filled })
      if ltb body bytes_trans
          then (do
            modify (λ io. record io {
              buffer = write_at 0 (slice missing bytes_trans io.buffer) io.buffer;
            })
            pure (remain (bytes_trans - missing)))
          else if body == bytes_trans
          then pure (remain 0)
          else if ltb bytes_trans 2
          then fault
          else (do
            modify (λ io. record io {
              buffer = write_at 0 (slice 2 bytes_trans io.buffer) io.buffer;
              recv_byte = bytes_trans;
            })
            pure (rest_or_more bytes_trans (body - bytes_trans))))
      io

unfoldable pub client_packet_reading : ℕ → M PerIo Remain
unfolding client_read_first client_read_after_header client_read_rest
client_packet_reading bytes_trans io = elim io.server_mode [
  | recv ↦ client_read_first bytes_trans io
  | _ ↦
      (λ (io : PerIo).
          if ltb io.recv_byte 2
          then client_read_after_header bytes_trans io
          else client_read_rest bytes_trans io)
        (record io { server_mode = recv })
]

-- A status and a message, as `DataCopy` returns them.
pub record Received : Type 0 where
  pub status : ℕ
  pub msg : Text

abbrev string_of : Option Text → M PerIo Text
string_of none = fault
string_of (some t) = pure t

-- `DataCopy`. The message is read up to its terminator when it is printed.
unfoldable pub client_data_copy : M PerIo Received
client_data_copy = do
  io ← λ io. returns io io
  let copied = min io.body_size buf_size
  if ltb buf_size (10 + copied) then fault else (do
    filled ← into_client_block 0 (slice 10 (10 + copied) io.recv_buffer) io.block
    msg ← string_of (text_before_zero filled)
    pure (record { status = read32 (drop 2 io.recv_buffer); msg = msg }))

-- `Recv` and `RecvMore`: how the next receive begins. `Recv` leaves the length as it was.
abbrev pub client_recv : PerIo → PerIo
client_recv io = record io { server_mode = recv; recv_byte = 0; tot_byte = 0 }

abbrev pub client_recv_more : PerIo → PerIo
client_recv_more io = record io { server_mode = recv_more; buffer = replicate buf_size 0 }
