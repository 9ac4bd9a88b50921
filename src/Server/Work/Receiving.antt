-- ===== src/Server/Work/Receiving.antt =====
-- A turn of `RecvThread` on whole packets, as far as the queue of the work threads.
use cpp_iocp_server.Prelude.{
  ℕ, zero, suc, ◌+◌, ◌<◌, ◌≤◌, ◌%◌, ◌^◌, ◌≡◌, refl, ap, subst, Bool, true, false, Option, none,
  some, List, [], ◌∷◌, ◌++◌, All, arith, map, length, length-map, min,
}
use cpp_iocp_server.Text.{Text}
use cpp_iocp_server.Outcome.{Outcome, returns, exits, undefined, hangs}
use cpp_iocp_server.Common.{Socket, buf_size}
use cpp_iocp_server.Server.Reading.{recv, PerIo, Received, recv_loop}
use cpp_iocp_server.Server.Reading.Framing.{Request, IsRequest, job}
use cpp_iocp_server.Server.Reading.Batch.{
  packets_of, received, length-packets_of, recv_loop-packets_of,
}
use cpp_iocp_server.Server.Work.{Program, receive_all, push_jobs, recv_thread}

-- The program after a turn that returns.
abbrev pub after : {A : Type 0} → Outcome Program A → Option Program
after (returns a p) = some p
after _ = none

receive_all-received :
    (m : Outcome PerIo Received) (r : Received) (p : Program)
    → received m ≡ some r
    → after (receive_all m p) ≡ after (push_jobs r.jobs p)
unfolding push_jobs
receive_all-received (returns r1 io) r p h =
    ap (λ o. elim o [ none ↦ none | some x ↦ after (push_jobs x.jobs p) ]) h
receive_all-received exits r p h = absurd (grind arith)
receive_all-received undefined r p h = absurd (grind arith)
receive_all-received hangs r p h = absurd (grind arith)

packets_of-long : (rs : List Request) → length rs ≤ length (packets_of rs)
unfolding packets_of
packets_of-long [] = omega arith
packets_of-long (r ∷ rs) = omega (arith, packets_of-long rs, length-packets_of r rs)

recv_thread-recv :
    (sock : Socket) (n : ℕ) (io : PerIo) (is_closed : Bool) (p : Program)
    → 0 < n
    → n ≤ buf_size
    → io.server_mode ≡ recv
    → recv_thread true sock n (some io) is_closed p ≡ receive_all (recv_loop (2 + n) sock n io) p
unfolding recv_thread
recv_thread-recv sock zero io is_closed p some_came fits first = absurd (omega arith)
recv_thread-recv sock (suc n) io is_closed p some_came fits first =
    let all : min (suc n) buf_size ≡ suc n = omega arith in rw (first, all) refl

-- A completed receive that brings whole packets of at most 4096 bytes together puts their
-- requests behind those that wait for the work threads, in their order, and counts them modulo
-- 2^32; nothing else changes. Every request must fit a block with its header and have no byte
-- zero in its message.
pub recv_thread-packets_of :
    (sock : Socket) (is_closed : Bool) (r : Request) (rs : List Request) (io : PerIo) (stale : Text)
    → (p : Program) → IsRequest r
    → All IsRequest rs
    → length (packets_of (r ∷ rs)) ≤ buf_size
    → io.server_mode ≡ recv
    → io.buffer ≡ packets_of (r ∷ rs) ++ stale
    → after (recv_thread true sock (length (packets_of (r ∷ rs))) (some io) is_closed p)
      ≡ some (record p {
        packet_cnt = (p.packet_cnt + length (r ∷ rs)) % 2 ^ 32;
        job_queue = p.job_queue ++ map (job sock) (r ∷ rs);
      })
unfolding push_jobs
recv_thread-packets_of sock is_closed r rs io stale p h hs fits first there =
    let n = length (packets_of (r ∷ rs)) in
    let some_came : 0 < n = omega (arith, length-packets_of r rs) in
    let enough : length rs < 2 + n = omega (arith, length-packets_of r rs, packets_of-long rs) in
    rw (recv_thread-recv sock n io is_closed p some_came fits first) (
      subst
        (λ k.
          after (receive_all (recv_loop (2 + n) sock n io) p)
          ≡ some (record p {
            packet_cnt = (p.packet_cnt + suc k) % 2 ^ 32;
            job_queue = p.job_queue ++ map (job sock) (r ∷ rs);
          }))
        (length-map (job sock) rs)
        (receive_all-received (recv_loop (2 + n) sock n io)
          (record { jobs = map (job sock) (r ∷ rs); recv_more = false }) p
          (recv_loop-packets_of sock r rs (2 + n) io stale h hs enough first there)))
