-- ===== src/Client/Reading/Agreement.antt =====
-- The two copies of `PacketReading`, the server's and the client's.
use cpp_iocp_server.Prelude.{
  ℕ, ◌+◌, ◌-◌, ◌^◌, ◌≤◌, ◌≡◌, ◌⊎◌, inl, inr, refl, ap, sym, Bool, true, false, Bool-cases, ◌||◌,
  arith, [], ◌∷◌, ◌++◌, ◌%◌, nat_beq, ltb, leb, length, nat_eq, if◌then◌else◌, take,
}
use cpp_iocp_server.Text.{Text}
use cpp_iocp_server.Outcome.{Outcome, returns, exits, undefined, hangs, M, continue}
use cpp_iocp_server.Common.{buf_size}
use cpp_iocp_server.Iocp.{block_size}
use cpp_iocp_server.Server.Reading.{
  Operation, recv, send, recv_more, PerIo, into_block, read_packet, read_first, read_after_header,
  read_rest, packet_reading, read16, slice,
}
use cpp_iocp_server.Client.Reading.{
  into_client_block, client_read_packet, client_read_first, client_read_after_header,
  client_read_rest, client_packet_reading,
}

-- The first is undefined, or both do the same.
abbrev pub Below : {A : Type 0} → Outcome PerIo A → Outcome PerIo A → Type 0
Below m n = (m ≡ undefined) ⊎ (m ≡ n)

Below-continue :
    {A B : Type 0} (m n : Outcome PerIo A) (f g : A → M PerIo B)
    → Below m n
    → ((a : A) (io : PerIo) → Below (f a io) (g a io))
    → Below (continue m f) (continue n g)
Below-continue m n f g (inl e) k = inl (ap (λ m. continue m f) e)
Below-continue (returns a io) n f g (inr e) k = rw (← e) (k a io)
Below-continue exits n f g (inr e) k = inr (rw (← e) refl)
Below-continue undefined n f g (inr e) k = inl refl
Below-continue hangs n f g (inr e) k = inr (rw (← e) refl)

Below-test :
    {A : Type 0} (b : Bool) (f g f' g' : M PerIo A) (io : PerIo)
    → (b ≡ true → Below (f io) (f' io))
    → (b ≡ false → Below (g io) (g' io))
    → Below ((if b then f else g) io) ((if b then f' else g') io)
Below-test true f g f' g' io h k = h refl
Below-test false f g f' g' io h k = k refl

into_block_lem :
    (i : ℕ) (bytes block : Text) (io : PerIo)
    → Below (into_block i bytes block io) (into_client_block i bytes block io)
into_block_lem i bytes block io = elim (Bool-cases (ltb block_size (i + length bytes))) [
  | inl e ↦ inl (rw e refl)
  | inr e ↦
      let fits : ltb buf_size (i + length bytes) ≡ false = ground (arith, e) in
      inr (rw (e, fits) refl)
]

read_rest_lem : (n : ℕ) (io : PerIo) → Below (read_rest n io) (client_read_rest n io)
unfolding read_rest client_read_rest
read_rest_lem n io =
    Below-test (ltb io.body_size io.recv_byte) _ _ _ _ io (λ _. inl refl)
      λ _.
        Below-continue _ _ _ _ (into_block_lem io.recv_byte _ io.recv_buffer io)
          λ filled io'. inr refl

-- The length that the second byte completes.
abbrev header : ℕ → PerIo → ℕ
header n io =
    read16 (take io.recv_byte (io.body_size % 256 ∷ []) ++ take (2 - io.recv_byte) io.buffer)

read_after_header_lem :
    (n : ℕ) (io : PerIo) → Below (read_after_header n io) (client_read_after_header n io)
unfolding read_after_header client_read_after_header
read_after_header_lem n io =
    Below-test (leb (2 ^ 15) (header n io) || ltb (header n io) io.recv_byte) _ _ _ _
      (record io { body_size = header n io }) (λ _. inl refl)
      λ _.
        Below-continue _ _ _ _
          (into_block_lem 2 (slice (2 - io.recv_byte) (header n io + 2 - io.recv_byte) io.buffer)
            io.block (record io { body_size = header n io }))
          λ filled io'. inr refl

read_packet_lem :
    (n : ℕ) (io : PerIo) → n ≤ buf_size → Below (read_packet n io) (client_read_packet n io)
unfolding read_packet client_read_packet
read_packet_lem n io small = elim (Bool-cases (ltb io.body_size n)) [
  | inl e ↦
      let left : leb (n - io.body_size) buf_size ≡ true = ground arith in
      rw (e, left)
        (Below-continue _ _ _ _ (into_block_lem 0 (take io.body_size io.buffer) io.block io)
          λ filled io'. inr refl)
  | inr e ↦ elim (Bool-cases (nat_beq io.body_size n)) [
    | inl f ↦
        rw (e, f)
          (Below-continue _ _ _ _ (into_block_lem 0 (take io.body_size io.buffer) io.block io)
            λ filled io'. inr refl)
    | inr f ↦
        let less : ltb n io.body_size ≡ true = ground (arith, e, f) in
        rw (e, f, less)
          (Below-continue _ _ _ _ (into_block_lem 0 (take n io.buffer) io.block io)
            λ filled io'. inr refl)
  ]
]

read_first_lem :
    (n : ℕ) (io : PerIo) → n ≤ buf_size → Below (read_first n io) (client_read_first n io)
unfolding read_first client_read_first
read_first_lem n io small = elim (Bool-cases (leb 2 n)) [
  | inr e ↦ rw e (inr refl)
  | inl e ↦ elim (Bool-cases (leb (2 ^ 15) (read16 io.buffer))) [
    | inl f ↦ rw (e, f) (inl refl)
    | inr f ↦ rw (e, f) (read_packet_lem n (record io { body_size = read16 io.buffer }) small)
  ]
]

split_lem :
    (n : ℕ) (io : PerIo)
    → Below
        (if ltb io.recv_byte 2 then read_after_header n io else read_rest n io)
        (if ltb io.recv_byte 2 then client_read_after_header n io else client_read_rest n io)
split_lem n io = elim (Bool-cases (ltb io.recv_byte 2)) [
  | inl e ↦ rw e (read_after_header_lem n io)
  | inr e ↦ rw e (read_rest_lem n io)
]

by_mode :
    (n : ℕ) (io : PerIo) (mode : Operation)
    → n ≤ buf_size
    → Below
        (packet_reading n (record io { server_mode = mode }))
        (client_packet_reading n (record io { server_mode = mode }))
unfolding packet_reading client_packet_reading
by_mode n io recv small = read_first_lem n (record io { server_mode = recv }) small
by_mode n io send small = split_lem n (record io { server_mode = recv })
by_mode n io recv_more small = split_lem n (record io { server_mode = recv })

-- The client's PacketReading, whose blocks have 4096 bytes, does what the server's does, on
-- every receive of at most 4096 bytes on which the server's, whose blocks have 1024, is
-- defined.
pub client_packet_reading-Below :
    (n : ℕ) (io : PerIo)
    → n ≤ buf_size
    → (packet_reading n io ≡ undefined) ⊎ (client_packet_reading n io ≡ packet_reading n io)
client_packet_reading-Below n io small = elim (by_mode n io io.server_mode small) [
  | inl e ↦ inl e
  | inr e ↦ inr (sym e)
]
