-- ===== src/Server/Reading/Framing.antt =====
-- Packets that arrive whole: what a client writes is what the work threads get.
use cpp_iocp_server.Prelude.{
  ℕ, zero, suc, ◌+◌, ◌-◌, ◌^◌, ◌≤◌, ◌<◌, ◌≡◌, refl, ◌∙◌, min, true, false, some, [], ◌∷◌, ◌++◌,
  arith, contains, take, drop, length, ltb, leb, nat_eq, nat_beq, length-append, take-append_of,
  take-append_past, drop-append_of, length-take-le, append_assoc,
}
use cpp_iocp_server.Text.{Text}
use cpp_iocp_server.Outcome.{returns}
use cpp_iocp_server.Common.{Socket, JobData, buf_size}
use cpp_iocp_server.Iocp.{block_size}
use cpp_iocp_server.Iocp.Packet.{le16, le32}
use cpp_iocp_server.Server.Reading.{
  recv, PerIo, slice, read16, read32, remain, packet_reading, read_packet, read_first,
  text_before_zero, data_copy,
}

-- A request as a client writes it, and the bytes of its packet.
pub record Request : Type 0 where
  pub status : ℕ
  pub direction : ℕ
  pub msg : Text

abbrev pub size : Request → ℕ
size r = 11 + length r.msg

unfoldable pub request_packet : Request → Text
unfolding le16 le32
request_packet r = le16 (size r) ++ le32 r.status ++ le32 r.direction ++ r.msg ++ 0 ∷ []

-- The packet fits a block of `CharPool` behind its header, and the message has no byte zero.
pub record IsRequest (r : Request) : Type 0 where
  pub fits : length r.msg ≤ 1003
  pub no_zero : contains r.msg 0 ≡ false
  pub status : r.status < 2 ^ 32
  pub direction : r.direction < 2 ^ 32

abbrev pub job : Socket → Request → JobData
job sock r = record { socket = sock; direction = r.direction; now_status = r.status; msg = r.msg }

pub length-request_packet : (r : Request) → length (request_packet r) ≡ size r
unfolding request_packet
length-request_packet r = omega (arith, length-append r.msg (0 ∷ []))

read16-request_packet :
    (r : Request) (tail : Text) → IsRequest r → read16 (request_packet r ++ tail) ≡ size r
unfolding request_packet
read16-request_packet r tail h = omega (arith, h.fits)

text_before_zero-append :
    (s tail : Text) → contains s 0 ≡ false → text_before_zero (s ++ 0 ∷ tail) ≡ some s
unfolding contains
text_before_zero-append [] tail h = refl
text_before_zero-append (zero ∷ s) tail h = absurd (ground arith)
text_before_zero-append (suc b ∷ s) tail h = rw (text_before_zero-append s tail (ground arith))

pub packet_reading-recv :
    (n : ℕ) (io : PerIo) → io.server_mode ≡ recv → packet_reading n io ≡ read_first n io
unfolding packet_reading
packet_reading-recv n io h = rw h refl

read32-le32 : (n : ℕ) (s : Text) → n < 2 ^ 32 → read32 (le32 n ++ s) ≡ n
unfolding le32
read32-le32 n s h = omega arith

-- A whole packet that stands first in the buffer goes to the receive buffer.
module _ (r : Request) (io : PerIo) (rest stale : Text) (h : IsRequest r)
    (first : io.server_mode ≡ recv) (there : io.buffer ≡ request_packet r ++ (rest ++ stale)) where
  taken : take (size r) io.buffer ≡ request_packet r
  taken =
      rw there
        (take-append_of (size r) (request_packet r) (rest ++ stale) (length-request_packet r))

  sliced : (k : ℕ) → length rest ≡ k → slice (size r) (size r + k) io.buffer ≡ rest
  sliced k e =
      rw
        (
          there,
          drop-append_of (size r) (request_packet r) (rest ++ stale) (length-request_packet r),
        )
        (take-append_of (size r + k - size r) rest stale (omega arith))

  announced : read16 io.buffer ≡ size r
  announced = rw there (read16-request_packet r (rest ++ stale) h)

  unfoldable pub after_packet : Text → PerIo
  after_packet left = record io {
    body_size = size r;
    recv_buffer = request_packet r ++ drop (size r) io.block;
    buffer = left;
  }

  fits_block : ltb block_size (0 + length (request_packet r)) ≡ false
  fits_block = ground (arith, length-request_packet r, h.fits)

  read_packet_more :
      (k : ℕ)
      → length rest ≡ suc k
      → read_packet (size r + suc k) (record io { body_size = size r })
        ≡ returns (remain (suc k)) (after_packet (rest ++ drop (suc k) io.buffer))
  unfolding read_packet after_packet
  read_packet_more k e =
      let longer : ltb (size r) (size r + suc k) ≡ true = ground arith in
      let whole : 0 + length (request_packet r) ≡ size r = omega (arith, length-request_packet r) in
      let left : 0 + length rest ≡ suc k = omega arith in
      let back : size r + suc k - size r ≡ suc k = omega arith in
      rw (longer, taken, fits_block, whole, sliced (suc k) e, left, back)

  read_packet_all :
      read_packet (size r) (record io { body_size = size r })
      ≡ returns (remain 0) (after_packet io.buffer)
  unfolding read_packet after_packet
  read_packet_all =
      let not_longer : ltb (size r) (size r) ≡ false = ground arith in
      let same : nat_beq (size r) (size r) ≡ true = ground arith in
      let whole : 0 + length (request_packet r) ≡ size r = omega (arith, length-request_packet r) in
      rw (not_longer, same, taken, fits_block, whole)

  read_first_more :
      (k : ℕ)
      → length rest ≡ suc k
      → read_first (size r + suc k) io
        ≡ returns (remain (suc k)) (after_packet (rest ++ drop (suc k) io.buffer))
  unfolding read_first
  read_first_more k e =
      let two : leb 2 (size r + suc k) ≡ true = ground arith in
      let positive : leb (2 ^ 15) (size r) ≡ false = ground (arith, h.fits) in
      rw (two, announced, positive) (read_packet_more k e)

  read_first_all : read_first (size r) io ≡ returns (remain 0) (after_packet io.buffer)
  unfolding read_first
  read_first_all =
      let two : leb 2 (size r) ≡ true = ground arith in
      let positive : leb (2 ^ 15) (size r) ≡ false = ground (arith, h.fits) in
      rw (two, announced, positive) read_packet_all

  pub read_more :
      (k : ℕ)
      → length rest ≡ suc k
      → packet_reading (size r + suc k) io
        ≡ returns (remain (suc k)) (after_packet (rest ++ drop (suc k) io.buffer))
  read_more k e = packet_reading-recv (size r + suc k) io first ∙ read_first_more k e

  pub read_all : packet_reading (size r) io ≡ returns (remain 0) (after_packet io.buffer)
  read_all = packet_reading-recv (size r) io first ∙ read_first_all

  -- What `DataCopy` copies begins with the message and its end.
  pub copied : (d : Text) → slice 10 (10 + size r) (request_packet r ++ d) ≡ r.msg ++ 0 ∷ take 10 d
  unfolding request_packet
  copied d =
      let at_end : (r.msg ++ 0 ∷ []) ++ d ≡ r.msg ++ 0 ∷ d = append_assoc r.msg (0 ∷ []) d in
      rw at_end (take-append_past (10 + size r - 10) 11 r.msg (0 ∷ d) (omega arith))

  pub small : min (size r) buf_size ≡ size r
  small = omega (arith, h.fits)

  fits_copy : ltb block_size (10 + size r) ≡ false
  fits_copy = ground (arith, h.fits)

  fits_string : (d : Text) → ltb block_size (0 + length (r.msg ++ 0 ∷ take 10 d)) ≡ false
  fits_string d = ground (arith, length-append r.msg (0 ∷ take 10 d), length-take-le 10 d, h.fits)

  pub terminated :
      (d after : Text) → text_before_zero ((r.msg ++ 0 ∷ take 10 d) ++ after) ≡ some r.msg
  terminated d after =
      rw (append_assoc r.msg (0 ∷ take 10 d) after)
        (text_before_zero-append r.msg (take 10 d ++ after) h.no_zero)

  pub status_read : (d : Text) → read32 (drop 2 (request_packet r ++ d)) ≡ r.status
  unfolding request_packet
  status_read d = omega (arith, h.status)

  direction_read : (d : Text) → read32 (drop 6 (request_packet r ++ d)) ≡ r.direction
  unfolding request_packet
  direction_read d = omega (arith, h.direction)

  -- The request is read back out of the receive buffer.
  pub data_copy_lem :
      (sock : Socket) (left : Text)
      → data_copy sock (after_packet left) ≡ returns (job sock r) (after_packet left)
  unfolding data_copy after_packet
  data_copy_lem sock left =
      let d = drop (size r) io.block in
      rw
        (
          small,
          fits_copy,
          copied d,
          fits_string d,
          terminated d (drop (0 + length (r.msg ++ 0 ∷ take 10 d)) io.block),
          status_read d,
          direction_read d,
        )
        refl
