-- ===== src/Server/Reading/Empty.antt =====
-- A packet that announces a body of no bytes, in the loop of `RecvThread`.
use cpp_iocp_server.Prelude.{
  ℕ, zero, suc, ◌+◌, ◌-◌, ◌≡◌, refl, ◌∙◌, true, some, ◌∷◌, ◌++◌, arith, take, drop, length, ltb,
  leb,
}
use cpp_iocp_server.Text.{Text}
use cpp_iocp_server.Outcome.{returns, hangs}
use cpp_iocp_server.Common.{Socket, JobData}
use cpp_iocp_server.Server.Reading.{
  recv, PerIo, slice, write_at, remain, read16, read32, read_packet, read_first, packet_reading,
  text_before_zero, data_copy, recv_loop,
}
use cpp_iocp_server.Server.Reading.Framing.{packet_reading-recv}

module _ (k : ℕ) (io : PerIo) (rest msg : Text) (first : io.server_mode ≡ recv)
    (there : io.buffer ≡ 0 ∷ 0 ∷ rest) (ended : text_before_zero io.block ≡ some msg) where
  -- The packet is taken off, and nothing with it.
  abbrev moved : PerIo
  moved = record io {
    body_size = 0;
    recv_buffer = io.block;
    buffer = write_at 0 (slice 0 (suc (suc k)) io.buffer) io.buffer;
  }

  first_taken_off : read_first (suc (suc k)) io ≡ returns (remain (suc (suc k))) moved
  unfolding read_first read_packet
  first_taken_off =
      let enough : leb 2 (suc (suc k)) ≡ true = ground arith in
      let longer : ltb 0 (suc (suc k)) ≡ true = ground arith in
      let none_taken : suc (suc k) - 0 ≡ suc (suc k) = omega arith in
      let none_read : read16 io.buffer ≡ 0 = rw there refl in
      rw (enough, none_read, longer, none_taken) refl

  taken_off : packet_reading (suc (suc k)) io ≡ returns (remain (suc (suc k))) moved
  taken_off = packet_reading-recv (suc (suc k)) io first ∙ first_taken_off

  -- A request is made of what the block happened to hold.
  unfoldable copy_of : Socket → JobData
  copy_of sock = record {
    socket = sock;
    direction = read32 (drop 6 io.block);
    now_status = read32 (drop 2 io.block);
    msg = msg;
  }

  copied : (sock : Socket) → data_copy sock moved ≡ returns (copy_of sock) moved
  unfolding data_copy copy_of
  copied sock = rw ended refl

  unfoldable behind : Text
  behind = take k rest ++ drop (0 + length (take (suc (suc k)) (0 ∷ 0 ∷ rest))) (0 ∷ 0 ∷ rest)

  begins : moved.buffer ≡ 0 ∷ 0 ∷ behind
  unfolding behind
  begins =
      let none_taken : suc (suc k) - 0 ≡ suc (suc k) = omega arith in rw (there, none_taken) refl

-- On a receive of two bytes or more that begins with a packet of length zero, the loop does not
-- end: no fuel is enough. The next block must hold a terminator.
pub recv_loop-empty :
    (fuel k : ℕ) (sock : Socket) (io : PerIo) (rest msg : Text)
    → io.server_mode ≡ recv
    → io.buffer ≡ 0 ∷ 0 ∷ rest
    → text_before_zero io.block ≡ some msg
    → recv_loop fuel sock (suc (suc k)) io ≡ hangs
unfolding recv_loop
recv_loop-empty zero k sock io rest msg first there ended = refl
recv_loop-empty (suc fuel) k sock io rest msg first there ended =
    rw
      (
        taken_off k io rest msg first there ended,
        copied k io rest msg first there ended sock,
        recv_loop-empty fuel k sock (moved k io rest msg first there ended)
            (behind k io rest msg first there ended) msg first
            (begins k io rest msg first there ended) ended,
      )
      refl
