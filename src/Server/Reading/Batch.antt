-- ===== src/Server/Reading/Batch.antt =====
-- One receive that holds several whole packets: the loop of `RecvThread` over them.
use cpp_iocp_server.Prelude.{
  ℕ, zero, suc, ◌+◌, ◌-◌, subst, ◌<◌, ◌≡◌, refl, ap, ◌∙◌, false, Option, none, some, List, [], ◌∷◌,
  ◌++◌, All, arith, map, drop, length, length-append, append_assoc,
}
use cpp_iocp_server.Text.{Text}
use cpp_iocp_server.Outcome.{Outcome, returns, exits, undefined, hangs, continue, pure}
use cpp_iocp_server.Common.{Socket, JobData}
use cpp_iocp_server.Server.Reading.{recv, PerIo, Received, recv_loop, add_job}
use cpp_iocp_server.Server.Reading.Framing.{
  Request, size, request_packet, IsRequest, job, length-request_packet, after_packet, read_more,
  read_all, data_copy_lem,
}

-- The packets of several requests, one after the other.
unfoldable pub packets_of : List Request → Text
packets_of [] = []
packets_of (r ∷ rs) = request_packet r ++ packets_of rs

-- What the loop hands to the work threads.
abbrev pub received : Outcome PerIo Received → Option Received
received (returns r io) = some r
received _ = none

pub length-packets_of :
    (r : Request) (rs : List Request)
    → length (packets_of (r ∷ rs)) ≡ size r + length (packets_of rs)
unfolding packets_of
length-packets_of r rs =
    length-append (request_packet r) (packets_of rs)
    ∙ ap (λ n. n + length (packets_of rs)) (length-request_packet r)

received-add_job :
    (j : JobData) (next : Received) (m : Outcome PerIo Received)
    → received m ≡ some next
    → received (continue m (λ rest. pure (add_job j rest)))
      ≡ some (record next { jobs = j ∷ next.jobs })
received-add_job j next (returns r io) h =
    ap (λ o. elim o [ none ↦ none | some n ↦ some (add_job j n) ]) h
received-add_job j next exits h = absurd (grind arith)
received-add_job j next undefined h = absurd (grind arith)
received-add_job j next hangs h = absurd (grind arith)

module _ (sock : Socket) where
  one :
      (r : Request) (fuel : ℕ) (io : PerIo) (stale : Text)
      → IsRequest r
      → io.server_mode ≡ recv
      → io.buffer ≡ request_packet r ++ ([] ++ stale)
      → received (recv_loop (suc fuel) sock (size r) io)
        ≡ some (record { jobs = job sock r ∷ []; recv_more = false })
  unfolding recv_loop
  one r fuel io stale h first there =
      rw
        (
          read_all r io [] stale h first there,
          data_copy_lem r io [] stale h first there sock io.buffer,
        )
        refl

  -- The first of several packets: its request comes first, and the loop reads on after it.
  several :
      (r : Request) (fuel k : ℕ) (io : PerIo) (rest stale : Text)
      → IsRequest r
      → io.server_mode ≡ recv
      → io.buffer ≡ request_packet r ++ (rest ++ stale)
      → length rest ≡ suc k
      → (next : Received)
      → ((io' : PerIo) (stale' : Text)
          → io'.server_mode ≡ recv
          → io'.buffer ≡ rest ++ stale'
          → received (recv_loop fuel sock (suc k) io') ≡ some next)
      → received (recv_loop (suc fuel) sock (size r + suc k) io)
        ≡ some (record next { jobs = job sock r ∷ next.jobs })
  unfolding recv_loop after_packet
  several r fuel k io rest stale h first there e next step =
      let left = rest ++ drop (suc k) io.buffer in
      let then_next =
        step (after_packet r io rest stale h first there left) (drop (suc k) io.buffer) first
          refl in
      rw
        (
          read_more r io rest stale h first there k e,
          data_copy_lem r io rest stale h first there sock left,
        )
        (received-add_job (job sock r) next
          (recv_loop fuel sock (suc k) (after_packet r io rest stale h first there left)) then_next)

  -- Packets that stand whole in the buffer of a receive, as clients write them, are read into
  -- the requests they were written from, in their order, and the loop ends with no byte left
  -- over. Every request must fit a block with its header and have no byte zero in its message,
  -- and the fuel must be more than the number of packets after the first.
  pub recv_loop-packets_of :
      (r : Request) (rs : List Request) (fuel : ℕ) (io : PerIo) (stale : Text)
      → IsRequest r
      → All IsRequest rs
      → length rs < fuel
      → io.server_mode ≡ recv
      → io.buffer ≡ packets_of (r ∷ rs) ++ stale
      → received (recv_loop fuel sock (length (packets_of (r ∷ rs))) io)
        ≡ some (record { jobs = map (job sock) (r ∷ rs); recv_more = false })
  unfolding packets_of
  recv_loop-packets_of r rs zero io stale h hs enough first there = absurd (omega arith)
  recv_loop-packets_of r [] (suc fuel) io stale h hs enough first there =
      let long : length (request_packet r ++ []) ≡ size r = omega (arith, length-packets_of r []) in
      rw long (one r fuel io stale h first (there ∙ append_assoc (request_packet r) [] stale))
  recv_loop-packets_of r (r1 ∷ rs) (suc fuel) io stale h hs enough first there =
      let rest = packets_of (r1 ∷ rs) in
      let k = length rest - 1 in
      let long : length rest ≡ suc k = omega (arith, length-packets_of r1 rs) in
      let all : length (packets_of (r ∷ r1 ∷ rs)) ≡ size r + suc k =
        length-packets_of r (r1 ∷ rs) ∙ ap (λ n. size r + n) long in
      rw all (
        several r fuel k io rest stale h first (there ∙ append_assoc (request_packet r) rest stale)
          long (record { jobs = map (job sock) (r1 ∷ rs); recv_more = false })
          (λ io1 stale1 first1 there1.
            subst
              (λ n.
                received (recv_loop fuel sock n io1)
                ≡ some (record { jobs = map (job sock) (r1 ∷ rs); recv_more = false }))
              long
              (recv_loop-packets_of r1 rs fuel io1 stale1 (hs.0) (hs.1) (omega arith) first1
                there1)))
