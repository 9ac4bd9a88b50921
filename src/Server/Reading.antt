-- ===== src/Server/Reading.antt =====
-- `PacketReading`, `DataCopy` and the loop of `RecvThread` over one completed receive.
pub mod Framing
pub mod Batch
pub mod Split
pub mod Empty
pub mod Progress
pub mod Termination
use cpp_iocp_server.Prelude.{
  ℕ, zero, suc, ◌+◌, ◌-◌, ◌*◌, ◌/◌, ◌%◌, ◌^◌, ◌≤◌, ◌<◌, Bool, true, false, ◌||◌, Option, none, some,
  List, [], ◌∷◌, ◌++◌, take, drop, replicate, length, ltb, leb, min, if◌then◌else◌, ◌==◌, nat_eq,
}
use cpp_iocp_server.Text.{Text}
use cpp_iocp_server.Outcome.{
  Outcome, returns, undefined, hangs, M, pure, fault, ◌>>=◌, ◌>>◌, modify,
}
use cpp_iocp_server.Common.{Socket, JobData, buf_size}
use cpp_iocp_server.Iocp.{block_size}

-- `IocpService::Operation`
pub data Operation : Type 0 where
  recv send recv_more : Operation

-- The fields of `PER_IO_DATA` that reading uses. `block` is what the next block of `CharPool` holds:
-- `Free` clears four bytes of a block, so it is whatever was there.
pub record PerIo : Type 0 where
  pub buffer : Text
  pub server_mode : Operation
  pub recv_byte : ℕ
  pub tot_byte : ℕ
  pub body_size : ℕ
  pub recv_buffer : Text
  pub block : Text

-- Bytes of an array; those from `from` up to `to`, and a write of some at a place.
abbrev pub slice : ℕ → ℕ → Text → Text
slice from to s = take (to - from) (drop from s)

abbrev pub write_at : ℕ → Text → Text → Text
write_at i bytes s = take i s ++ bytes ++ drop (i + length bytes) s

abbrev pub byte_at : ℕ → Text → ℕ
byte_at i [] = 0
byte_at zero (b ∷ s) = b
byte_at (suc i) (b ∷ s) = byte_at i s

-- A number of two, or of four, bytes, the low byte first.
abbrev pub read16 : Text → ℕ
read16 s = byte_at 0 s + 256 * byte_at 1 s

abbrev pub read32 : Text → ℕ
read32 s = byte_at 0 s + 256 * byte_at 1 s + 65536 * byte_at 2 s + 16777216 * byte_at 3 s

-- What `PacketReading` returns: a number of bytes that are left, or a negative number.
pub data Remain : Type 0 where
  remain : ℕ → Remain
  more : Remain

-- A copy of `bytes` into a block, at a place: past its end it would write over what stands there.
abbrev pub into_block : ℕ → Text → Text → M PerIo Text
into_block i bytes block io =
    if ltb block_size (i + length bytes) then undefined else returns (write_at i bytes block) io

-- The branches of a packet that begins in the buffer, once its length is known.
unfoldable pub read_packet : ℕ → M PerIo Remain
read_packet bytes_trans io =
    (if ltb io.body_size bytes_trans
        then (do
          filled ← into_block 0 (take io.body_size io.buffer) io.block
          modify (λ io. record io {
            recv_buffer = filled;
            buffer = write_at 0 (slice io.body_size bytes_trans io.buffer) io.buffer;
          })
          pure (remain (bytes_trans - io.body_size)))
        else if io.body_size == bytes_trans
        then (do
          filled ← into_block 0 (take io.body_size io.buffer) io.block
          modify (λ io. record io { recv_buffer = filled })
          pure (remain 0))
        else (do
          filled ← into_block 0 (take bytes_trans io.buffer) io.block
          modify (λ io. record io { recv_buffer = filled; recv_byte = bytes_trans })
          pure more))
      io

-- The first receive of a packet. A length with its sign bit set is a negative number: the copy that
-- follows is undefined.
unfoldable pub read_first : ℕ → M PerIo Remain
unfolding read_packet
read_first bytes_trans io =
    if leb 2 bytes_trans
    then (if leb (2 ^ 15) (read16 io.buffer)
        then undefined
        else read_packet bytes_trans (record io { body_size = read16 io.buffer }))
    else if bytes_trans == 1
    then returns more (record io {
      body_size = byte_at 0 io.buffer + 256 * (io.body_size / 256);
      recv_byte = 1;
      tot_byte = 0;
    })
    else returns (remain 0) io

-- The length was split: its second byte has come.
unfoldable pub read_after_header : ℕ → M PerIo Remain
read_after_header bytes_trans io0 =
    let body =
      read16
        (take io0.recv_byte (io0.body_size % 256 ∷ []) ++ take (2 - io0.recv_byte) io0.buffer) in
    let io : PerIo = record io0 { body_size = body } in
    (if leb (2 ^ 15) body || ltb body io.recv_byte then fault else do
      filled ← into_block 2 (slice (2 - io.recv_byte) (body + 2 - io.recv_byte) io.buffer) io.block
      modify (λ io. record io { recv_buffer = filled })
      if ltb body bytes_trans
          then (do
            modify (λ io. record io {
              buffer = write_at 0 (slice (body - io.recv_byte) bytes_trans io.buffer) io.buffer;
            })
            pure (remain (bytes_trans - (body - io.recv_byte))))
          else pure (remain 0))
      io

-- `bytesTrans - missing`, as a number of bytes that are left or a negative one.
abbrev pub rest_or_more : ℕ → ℕ → Remain
rest_or_more bytes_trans missing =
    if leb missing bytes_trans then remain (bytes_trans - missing) else more

-- The body was split: the rest, or a part of it, has come. In the last branch `recvByte` is set
-- before the result is computed from it.
unfoldable pub read_rest : ℕ → M PerIo Remain
read_rest bytes_trans io =
    let body = io.body_size in
    let missing = body - io.recv_byte in
    (if ltb body io.recv_byte then fault else do
      filled ← into_block io.recv_byte (take missing io.buffer) io.recv_buffer
      modify (λ io. record io { recv_buffer = filled })
      if ltb body bytes_trans
          then (do
            modify (λ io. record io {
              buffer = write_at 0 (slice missing bytes_trans io.buffer) io.buffer;
            })
            pure (remain (bytes_trans - missing)))
          else if body == bytes_trans
          then pure (remain 0)
          else if ltb bytes_trans 2
          then fault
          else (do
            modify (λ io. record io {
              buffer = write_at 0 (slice 2 bytes_trans io.buffer) io.buffer;
              recv_byte = bytes_trans;
            })
            pure (rest_or_more bytes_trans (body - bytes_trans))))
      io

unfoldable pub packet_reading : ℕ → M PerIo Remain
unfolding read_first read_after_header read_rest
packet_reading bytes_trans io = elim io.server_mode [
  | recv ↦ read_first bytes_trans io
  | _ ↦
      (λ (io : PerIo).
          if ltb io.recv_byte 2 then read_after_header bytes_trans io else read_rest bytes_trans io)
        (record io { server_mode = recv })
]

abbrev pub text_before_zero : Text → Option Text
text_before_zero [] = none
text_before_zero (zero ∷ s) = some []
text_before_zero (suc b ∷ s) = elim (text_before_zero s) [ none ↦ none | some t ↦ some (suc b ∷ t) ]

abbrev pub string_of : Option Text → M PerIo Text
string_of none = fault
string_of (some t) = pure t

-- `DataCopy`: the fields of the packet in `recvBuffer`. `min` is of unsigned numbers. The bytes go
-- through a block of their own, where the terminator is looked for.
unfoldable pub data_copy : Socket → M PerIo JobData
data_copy sock = do
  io ← λ io. returns io io
  let copied = min io.body_size buf_size
  if ltb block_size (10 + copied) then fault else (do
    filled ← into_block 0 (slice 10 (10 + copied) io.recv_buffer) io.block
    msg ← string_of (text_before_zero filled)
    pure (record {
      socket = sock;
      direction = read32 (drop 6 io.recv_buffer);
      now_status = read32 (drop 2 io.recv_buffer);
      msg = msg;
    }))

-- What the loop over one receive leaves: the requests, and whether more is to be received for the
-- last packet.
pub record Received : Type 0 where
  pub jobs : List JobData
  pub recv_more : Bool

abbrev pub add_job : JobData → Received → Received
add_job job r = record r { jobs = job ∷ r.jobs }

abbrev pub after_read : Socket → (ℕ → M PerIo Received) → Remain → M PerIo Received
after_read sock again more = pure (record { jobs = []; recv_more = true })
after_read sock again (remain zero) = do
  job ← data_copy sock
  pure (record { jobs = job ∷ []; recv_more = false })
after_read sock again (remain (suc n)) = do
  job ← data_copy sock
  rest ← again (suc n)
  pure (add_job job rest)

-- The `while (true)` of `RecvThread`; `hangs` when the fuel is used up.
unfoldable pub recv_loop : ℕ → Socket → ℕ → M PerIo Received
unfolding packet_reading data_copy
recv_loop zero sock remain_byte = λ io. hangs
recv_loop (suc fuel) sock remain_byte =
    packet_reading remain_byte >>= after_read sock (recv_loop fuel sock)

-- `IocpService::Recv` and `RecvMore`: how the next receive begins. `RecvMore` clears the buffer.
abbrev pub begin_recv : PerIo → PerIo
begin_recv io = record io { server_mode = recv; recv_byte = 0; tot_byte = 0; body_size = 0 }

abbrev pub begin_recv_more : PerIo → PerIo
begin_recv_more io = record io { server_mode = recv_more; buffer = replicate buf_size 0 }
