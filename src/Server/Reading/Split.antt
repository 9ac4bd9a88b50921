-- ===== src/Server/Reading/Split.antt =====
-- `PacketReading` on the second part of a body that comes in two receives.
use cpp_iocp_server.Prelude.{
  ℕ, ◌+◌, ◌-◌, ◌≤◌, ◌≡◌, refl, false, arith, take, length, length-take-le, ltb, nat_beq, nat_eq,
  ◌∙◌, ap, if◌then◌else◌,
}
use cpp_iocp_server.Outcome.{returns}
use cpp_iocp_server.Iocp.{block_size}
use cpp_iocp_server.Server.Reading.{
  recv, recv_more, PerIo, slice, write_at, remain, more, rest_or_more, read_rest, packet_reading,
}

module _ (n r : ℕ) (io : PerIo) (announced : io.body_size ≡ r + n) (came : io.recv_byte ≡ r)
    (header : 2 ≤ r) (two : 2 ≤ n) (fits : r + n ≤ 1024) where
  -- What the second part leaves behind.
  abbrev pub joined : PerIo
  joined = record io {
    recv_buffer = write_at r (take n io.buffer) io.recv_buffer;
    buffer = write_at 0 (slice 2 n io.buffer) io.buffer;
    recv_byte = n;
  }

  read_rest_lem : read_rest n io ≡ returns (rest_or_more n r) joined
  unfolding read_rest
  read_rest_lem =
      let not_less : ltb (r + n) r ≡ false = ground arith in
      let missing : r + n - r ≡ n = omega arith in
      let back : r + n - n ≡ r = omega arith in
      let room : ltb block_size (r + length (take n io.buffer)) ≡ false =
        ground (arith, length-take-le n io.buffer) in
      let not_more : ltb (r + n) n ≡ false = ground arith in
      let not_all : nat_beq (r + n) n ≡ false = ground arith in
      let long : ltb n 2 ≡ false = ground arith in
      rw (announced, came, not_less, missing, room, not_more, not_all, long, back) refl

by_length : (n r : ℕ) → rest_or_more n r ≡ (if ltb n r then more else remain (n - r))
by_length n r = ground arith

-- When a body that comes in two receives, of `r` and of `n` bytes, is read on, all of it is
-- there; but PacketReading asks for more if the second part is the shorter one, and otherwise
-- says that `n - r` bytes are left, which are none only if the parts are equally long. Each
-- part must have two bytes at least, and both together must fit a block.
pub packet_reading-recv_more :
    (n r : ℕ) (io : PerIo)
    → io.server_mode ≡ recv_more
    → io.body_size ≡ r + n
    → io.recv_byte ≡ r
    → 2 ≤ r
    → 2 ≤ n
    → r + n ≤ 1024
    → (io' : PerIo) × (packet_reading n io ≡ returns (if ltb n r then more else remain (n - r)) io')
unfolding packet_reading
packet_reading-recv_more n r io again announced came header two fits =
    let body : ltb io.recv_byte 2 ≡ false = ground arith in
    (
      joined n r (record io { server_mode = recv }) announced came header two fits,
      rw (again, body)
            (read_rest_lem n r (record io { server_mode = recv }) announced came header two fits)
          ∙ ap
              (λ o.
                returns o
                  (joined n r (record io { server_mode = recv }) announced came header two fits))
              (by_length n r),
    )
