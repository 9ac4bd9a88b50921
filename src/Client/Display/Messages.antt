-- ===== src/Client/Display/Messages.antt =====
-- Messages of the server that reach the client whole are shown on its console.
use cpp_iocp_server.Prelude.{
  ℕ, zero, suc, ◌+◌, ◌-◌, subst, ◌≤◌, ◌<◌, ◌≡◌, refl, ap, ◌∙◌, inl, inr, true, false, Option, none,
  some, List, [], ◌∷◌, ◌++◌, All, arith, map, take, drop, length, ltb, nat_beq, min, append_assoc,
  length-append, length-take-le, if_not-true,
}
use cpp_iocp_server.Text.{Text}
use cpp_iocp_server.Outcome.{Outcome, returns, exits, undefined, hangs, continue, pure}
use cpp_iocp_server.Common.{buf_size}
use cpp_iocp_server.Server.Reading.{
  Operation, recv, send, recv_more, PerIo, Remain, remain, packet_reading,
}
use cpp_iocp_server.Server.Reading.Framing.{
  Request, size, request_packet, IsRequest, after_packet, read_more, read_all, copied, small,
  terminated, status_read,
}
use cpp_iocp_server.Server.Reading.Batch.{packets_of, length-packets_of}
use cpp_iocp_server.Client.Reading.{client_packet_reading, Received, client_data_copy}
use cpp_iocp_server.Client.Reading.Agreement.{client_packet_reading-Below}
use cpp_iocp_server.Client.Display.{
  Batch, client_loop, show_all, shown_all, client_completed, recv_msg_round,
}
use cpp_iocp_server.Client.{Client}

-- What the client takes from a packet.
abbrev pub message : Request → Received
message r = record { status = r.status; msg = r.msg }

agreed :
    (n : ℕ) (io io' : PerIo) (left : Remain)
    → n ≤ buf_size
    → packet_reading n io ≡ returns left io'
    → client_packet_reading n io ≡ returns left io'
agreed n io io' left small_n e = elim (client_packet_reading-Below n io small_n) [
  | inl bad ↦ absurd (grind arith)
  | inr same ↦ same ∙ e
]

module _ (r : Request) (io : PerIo) (rest stale : Text) (h : IsRequest r)
    (first : io.server_mode ≡ recv) (there : io.buffer ≡ request_packet r ++ (rest ++ stale)) where
  fits_copy : ltb buf_size (10 + size r) ≡ false
  fits_copy = ground (arith, h.fits)

  fits_string : (d : Text) → ltb buf_size (0 + length (r.msg ++ 0 ∷ take 10 d)) ≡ false
  fits_string d = ground (arith, length-append r.msg (0 ∷ take 10 d), length-take-le 10 d, h.fits)

  client_data_copy_lem :
      (left : Text)
      → client_data_copy (after_packet r io rest stale h first there left)
        ≡ returns (message r) (after_packet r io rest stale h first there left)
  unfolding client_data_copy after_packet
  client_data_copy_lem left =
      let d = drop (size r) io.block in
      rw
        (
          small r io rest stale h first there,
          fits_copy,
          copied r io rest stale h first there d,
          fits_string d,
          terminated r io rest stale h first there d
              (drop (0 + length (r.msg ++ 0 ∷ take 10 d)) io.block),
          status_read r io rest stale h first there d,
        )
        refl

-- What the loop shows.
abbrev pub batch : Outcome PerIo Batch → Option Batch
batch (returns b io) = some b
batch _ = none

abbrev then_show : Received → Batch → Batch
then_show m b = record b { messages = m ∷ b.messages }

batch-continue :
    (m : Received) (next : Batch) (o : Outcome PerIo Batch)
    → batch o ≡ some next
    → batch (continue o (λ rest. pure (record rest { messages = m ∷ rest.messages })))
      ≡ some (record next { messages = m ∷ next.messages })
batch-continue m next (returns b io) h =
    ap (λ o. elim o [ none ↦ none | some n ↦ some (then_show m n) ]) h
batch-continue m next exits h = absurd (grind arith)
batch-continue m next undefined h = absurd (grind arith)
batch-continue m next hangs h = absurd (grind arith)

one :
    (r : Request) (fuel : ℕ) (io : PerIo) (stale : Text)
    → IsRequest r
    → io.server_mode ≡ recv
    → io.buffer ≡ request_packet r ++ ([] ++ stale)
    → batch (client_loop (suc fuel) (size r) io)
      ≡ some (record { messages = message r ∷ []; recv_more = false })
unfolding client_loop
one r fuel io stale h first there =
    let whole : size r ≤ buf_size = omega (arith, h.fits) in
    rw
      (
        agreed (size r) io _ (remain 0) whole (read_all r io [] stale h first there),
        client_data_copy_lem r io [] stale h first there io.buffer,
      )
      refl

-- The first of several messages is shown, and the loop reads on after it.
several :
    (r : Request) (fuel k : ℕ) (io : PerIo) (rest stale : Text)
    → IsRequest r
    → io.server_mode ≡ recv
    → io.buffer ≡ request_packet r ++ (rest ++ stale)
    → length rest ≡ suc k
    → size r + suc k ≤ buf_size
    → (next : Batch)
    → ((io' : PerIo) (stale' : Text)
        → io'.server_mode ≡ recv
        → io'.buffer ≡ rest ++ stale'
        → batch (client_loop fuel (suc k) io') ≡ some next)
    → batch (client_loop (suc fuel) (size r + suc k) io)
      ≡ some (record next { messages = message r ∷ next.messages })
unfolding client_loop after_packet
several r fuel k io rest stale h first there e whole next step =
    let left = rest ++ drop (suc k) io.buffer in
    let then_next =
      step (after_packet r io rest stale h first there left) (drop (suc k) io.buffer) first refl in
    rw
      (
        agreed (size r + suc k) io _ (remain (suc k)) whole
            (read_more r io rest stale h first there k e),
        client_data_copy_lem r io rest stale h first there left,
      )
      (batch-continue (message r) next
        (client_loop fuel (suc k) (after_packet r io rest stale h first there left)) then_next)

pub client_loop-packets_of :
    (r : Request) (rs : List Request) (fuel : ℕ) (io : PerIo) (stale : Text)
    → IsRequest r
    → All IsRequest rs
    → length (packets_of (r ∷ rs)) ≤ buf_size
    → length rs < fuel
    → io.server_mode ≡ recv
    → io.buffer ≡ packets_of (r ∷ rs) ++ stale
    → batch (client_loop fuel (length (packets_of (r ∷ rs))) io)
      ≡ some (record { messages = map message (r ∷ rs); recv_more = false })
unfolding packets_of
client_loop-packets_of r rs zero io stale h hs whole enough first there = absurd (omega arith)
client_loop-packets_of r [] (suc fuel) io stale h hs whole enough first there =
    let long : length (request_packet r ++ []) ≡ size r = omega (arith, length-packets_of r []) in
    rw long (one r fuel io stale h first (there ∙ append_assoc (request_packet r) [] stale))
client_loop-packets_of r (r1 ∷ rs) (suc fuel) io stale h hs whole enough first there =
    let rest = packets_of (r1 ∷ rs) in
    let k = length rest - 1 in
    let long : length rest ≡ suc k = omega (arith, length-packets_of r1 rs) in
    let all : length (packets_of (r ∷ r1 ∷ rs)) ≡ size r + suc k =
      length-packets_of r (r1 ∷ rs) ∙ ap (λ n. size r + n) long in
    rw all (
      several r fuel k io rest stale h first (there ∙ append_assoc (request_packet r) rest stale)
        long (subst (λ n. n ≤ buf_size) all whole)
        (record { messages = map message (r1 ∷ rs); recv_more = false })
        (λ io1 stale1 first1 there1.
          subst
            (λ n.
              batch (client_loop fuel n io1)
              ≡ some (record { messages = map message (r1 ∷ rs); recv_more = false }))
            long
            (client_loop-packets_of r1 rs fuel io1 stale1 (hs.0) (hs.1) (omega arith) (omega arith)
              first1 there1)))

-- The client as a round leaves it, when it goes on.
abbrev pub goes_on : Outcome Client (Option PerIo) → Option Client
goes_on (returns p c) = some c
goes_on _ = none

abbrev shown : Client → Batch → Client
shown c b = show_all b.messages c

goes_on-shown_all :
    (o : Outcome PerIo Batch) (b : Batch) (c : Client)
    → batch o ≡ some b
    → goes_on (shown_all o c) ≡ some (show_all b.messages c)
goes_on-shown_all (returns b' io) b c h =
    ap (λ o. elim o [ none ↦ none | some n ↦ some (shown c n) ]) h
goes_on-shown_all exits b c h = absurd (grind arith)
goes_on-shown_all undefined b c h = absurd (grind arith)
goes_on-shown_all hangs b c h = absurd (grind arith)

pub packets_of-length : (rs : List Request) → length rs ≤ length (packets_of rs)
unfolding packets_of
packets_of-length [] = omega arith
packets_of-length (r ∷ rs) = omega (arith, length-packets_of r rs, packets_of-length rs)

client_completed-recv :
    (o : Operation) (m : Outcome PerIo Batch) (c : Client)
    → o ≡ recv
    → client_completed o (shown_all m) c ≡ shown_all m c
client_completed-recv recv m c h = refl
client_completed-recv send m c h = absurd (grind arith)
client_completed-recv recv_more m c h = refl

-- Messages that are received whole, in at most 4096 bytes, are all shown, in their order. Each must
-- fit a block of the server with its header and have no byte zero, and nothing stand behind
-- `bytesTrans`.
pub recv_msg_round-packets_of :
    (r : Request) (rs : List Request) (io : PerIo) (stale : Text) (c : Client)
    → IsRequest r
    → All IsRequest rs
    → length (packets_of (r ∷ rs)) ≤ buf_size
    → io.server_mode ≡ recv
    → io.buffer ≡ packets_of (r ∷ rs) ++ stale
    → c.is_padded ≡ true
    → goes_on (recv_msg_round true (length (packets_of (r ∷ rs))) io c)
      ≡ some (show_all (map message (r ∷ rs)) c)
unfolding recv_msg_round
recv_msg_round-packets_of r rs io stale c h hs whole first there padded =
    let n = length (packets_of (r ∷ rs)) in
    let all : min n buf_size ≡ n = omega arith in
    let enough : length rs < 2 + n = omega (arith, packets_of-length rs, length-packets_of r rs) in
    let some_bytes : nat_beq n 0 ≡ false = ground (arith, length-packets_of r rs) in
    rw (some_bytes, all, client_completed-recv io.server_mode (client_loop (2 + n) n io) c first)
      (ap goes_on (if_not-true c.is_padded undefined _ padded)
        ∙ goes_on-shown_all (client_loop (2 + n) n io) _ c
            (client_loop-packets_of r rs (2 + n) io stale h hs whole enough first there))
