-- ===== src/Server/Reading/Progress.antt =====
-- How many bytes `PacketReading` leaves of those that came.
use cpp_iocp_server.Prelude.{
  ℕ, ◌+◌, ◌-◌, ◌^◌, ◌%◌, ◌≤◌, ◌<◌, ◌≡◌, ◌≢◌, ◌⊎◌, inl, inr, refl, Bool, true, false, Bool-cases,
  ◌||◌, [], ◌∷◌, ◌++◌, arith, take, length, ltb, leb, nat_eq, ◌==◌, if◌then◌else◌,
}
use cpp_iocp_server.Text.{Text}
use cpp_iocp_server.Outcome.{M, continue, Ends}
use cpp_iocp_server.Iocp.{block_size}
use cpp_iocp_server.Server.Reading.Framing.{packet_reading-recv}
use cpp_iocp_server.Server.Reading.{
  Operation, recv, send, recv_more, PerIo, slice, write_at, read16, Remain, remain, more,
  into_block, read_packet, read_first, read_after_header, read_rest, rest_or_more, packet_reading,
}

Ends-test :
    {S A : Type 0} (Q : A → S → Type 0) (b : Bool) (f g : M S A) (s : S)
    → (b ≡ true → Ends Q (f s))
    → (b ≡ false → Ends Q (g s))
    → Ends Q ((if b then f else g) s)
Ends-test Q true f g s h k = h refl
Ends-test Q false f g s h k = k refl

-- A packet is read from its start next.
abbrev Starts : {A : Type 0} → A → PerIo → Type 0
Starts _ io = io.server_mode ≡ recv

-- A copy into a block, and what follows it.
after_copy :
    {A : Type 0} (Q : A → PerIo → Type 0) (i : ℕ) (bytes block : Text) (f : Text → M PerIo A)
    (io : PerIo)
    → io.server_mode ≡ recv
    → ((filled : Text) (io' : PerIo) → io'.server_mode ≡ recv → Ends Q (f filled io'))
    → Ends Q (continue (into_block i bytes block io) f)
after_copy Q i bytes block f io h k = elim (Bool-cases (ltb block_size (i + length bytes))) [
  | inl e ↦ rw e tt
  | inr e ↦ rw e (k (write_at i bytes block) io h)
]

-- No more bytes are left than came, and the next packet is read from its start.
abbrev pub AtMost : ℕ → Remain → PerIo → Type 0
AtMost n (remain m) io = (m ≤ n) × (io.server_mode ≡ recv)
AtMost n more io = Unit

-- Fewer bytes are left than came, or none.
abbrev pub Fewer : ℕ → Remain → PerIo → Type 0
Fewer n (remain m) io = ((m < n) ⊎ (m ≡ 0)) × (io.server_mode ≡ recv)
Fewer n more io = Unit

module _ (n : ℕ) (io : PerIo) (first : io.server_mode ≡ recv) where
  read_packet-Fewer : io.body_size ≢ 0 → Ends (Fewer n) (read_packet n io)
  unfolding read_packet
  read_packet-Fewer some_bytes =
      Ends-test (Fewer n) (ltb io.body_size n) _ _ io
        (λ e.
          after_copy (Fewer n) 0 (take io.body_size io.buffer) io.block _ io first
            λ filled io' next. (inl (ground (arith, e, some_bytes)), next))
        λ e.
          Ends-test (Fewer n) (io.body_size == n) _ _ io
            (λ f.
              after_copy (Fewer n) 0 (take io.body_size io.buffer) io.block _ io first
                λ filled io' next. (inr refl, next))
            λ f. after_copy (Fewer n) 0 (take n io.buffer) io.block _ io first λ filled io' next. tt

  read_packet-AtMost : Ends (AtMost n) (read_packet n io)
  unfolding read_packet
  read_packet-AtMost =
      Ends-test (AtMost n) (ltb io.body_size n) _ _ io
        (λ e.
          after_copy (AtMost n) 0 (take io.body_size io.buffer) io.block _ io first
            λ filled io' next. (omega arith, next))
        λ e.
          Ends-test (AtMost n) (io.body_size == n) _ _ io
            (λ f.
              after_copy (AtMost n) 0 (take io.body_size io.buffer) io.block _ io first
                λ filled io' next. (omega arith, next))
            λ f.
              after_copy (AtMost n) 0 (take n io.buffer) io.block _ io first λ filled io' next. tt

module _ (Q : Remain → PerIo → Type 0) (n : ℕ) (io : PerIo) (first : io.server_mode ≡ recv) where
  -- `read_first` from `read_packet`.
  read_first-Ends :
      Ends Q (read_packet n (record io { body_size = read16 io.buffer }))
      → ((io' : PerIo) → Q more io')
      → Q (remain 0) io
      → Ends Q (read_first n io)
  unfolding read_first
  read_first-Ends whole split nothing = elim (Bool-cases (leb 2 n)) [
    | inl e ↦ elim (Bool-cases (leb (2 ^ 15) (read16 io.buffer))) [
      | inl f ↦ rw (e, f) tt
      | inr f ↦ rw (e, f) whole
    ]
    | inr e ↦ elim (Bool-cases (n == 1)) [ inl f ↦ rw (e, f) (split _) | inr f ↦ rw (e, f) nothing ]
  ]

module _ (n : ℕ) (io : PerIo) (first : io.server_mode ≡ recv) where
  read_after_header-AtMost : Ends (AtMost n) (read_after_header n io)
  unfolding read_after_header
  read_after_header-AtMost =
      let body =
        read16 (take io.recv_byte (io.body_size % 256 ∷ []) ++ take (2 - io.recv_byte) io.buffer) in
      let bytes = slice (2 - io.recv_byte) (body + 2 - io.recv_byte) io.buffer in
      elim (Bool-cases (leb (2 ^ 15) body || ltb body io.recv_byte)) [
        | inl e ↦ rw e tt
        | inr e ↦ elim (Bool-cases (ltb block_size (2 + length bytes))) [
          | inl b ↦ rw (e, b) tt
          | inr b ↦ elim (Bool-cases (ltb body n)) [
            | inl f ↦ rw (e, b, f) (omega arith, first)
            | inr f ↦ rw (e, b, f) (omega arith, first)
          ]
        ]
      ]

  rest_or_more-AtMost :
      (missing : ℕ) (io' : PerIo) → io'.server_mode ≡ recv → AtMost n (rest_or_more n missing) io'
  rest_or_more-AtMost missing io' next = elim (Bool-cases (leb missing n)) [
    | inl e ↦ rw e (omega arith, next)
    | inr e ↦ rw e tt
  ]

  read_rest-AtMost : Ends (AtMost n) (read_rest n io)
  unfolding read_rest
  read_rest-AtMost =
      let bytes = take (io.body_size - io.recv_byte) io.buffer in
      elim (Bool-cases (ltb io.body_size io.recv_byte)) [
        | inl e ↦ rw e tt
        | inr e ↦ elim (Bool-cases (ltb block_size (io.recv_byte + length bytes))) [
          | inl b ↦ rw (e, b) tt
          | inr b ↦ elim (Bool-cases (ltb io.body_size n)) [
            | inl f ↦ rw (e, b, f) (omega arith, first)
            | inr f ↦ elim (Bool-cases (io.body_size == n)) [
              | inl g ↦ rw (e, b, f, g) (omega arith, first)
              | inr g ↦ elim (Bool-cases (ltb n 2)) [
                | inl k ↦ rw (e, b, f, g, k) tt
                | inr k ↦ rw (e, b, f, g, k) (rest_or_more-AtMost (io.body_size - n) _ first)
              ]
            ]
          ]
        ]
      ]

-- A reading of any number of bytes in any mode ends, and where it is defined and asks for no
-- more, it leaves at most as many bytes as came, and the next reading is at the start of a
-- packet.
pub packet_reading-AtMost : (n : ℕ) (io : PerIo) → Ends (AtMost n) (packet_reading n io)
unfolding packet_reading
packet_reading-AtMost n io = by_mode io.server_mode refl
  where
    split :
        (io : PerIo)
        → io.server_mode ≡ recv
        → Ends (AtMost n) (if ltb io.recv_byte 2 then read_after_header n io else read_rest n io)
    split io first = elim (Bool-cases (ltb io.recv_byte 2)) [
      | inl e ↦ rw e (read_after_header-AtMost n io first)
      | inr e ↦ rw e (read_rest-AtMost n io first)
    ]

    by_mode : (mode : Operation) → io.server_mode ≡ mode → Ends (AtMost n) (packet_reading n io)
    by_mode recv e = rw (packet_reading-recv n io e) (
        read_first-Ends (AtMost n) n io e
          (read_packet-AtMost n (record io { body_size = read16 io.buffer }) e) (λ io'. tt)
          (omega arith, e))
    by_mode send e = rw e (split (record io { server_mode = recv }) refl)
    by_mode recv_more e = rw e (split (record io { server_mode = recv }) refl)

pub packet_reading-Fewer :
    (n : ℕ) (io : PerIo)
    → io.server_mode ≡ recv
    → read16 io.buffer ≢ 0
    → Ends (Fewer n) (packet_reading n io)
packet_reading-Fewer n io first some_bytes = rw (packet_reading-recv n io first) (
    read_first-Ends (Fewer n) n io first
      (read_packet-Fewer n (record io { body_size = read16 io.buffer }) first some_bytes)
      (λ io'. tt) (inr refl, first))
