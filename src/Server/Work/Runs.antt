-- ===== src/Server/Work/Runs.antt =====
-- Runs of the threads of Server.cpp, as steps on the program they share: each takes a turn when it
-- can, in any order.
use cpp_iocp_server.Prelude.{
  ℕ, zero, suc, ◌+◌, ◌≡◌, refl, subst, ◌∙◌, Bool, true, false, Option, none, List, [], ◌∷◌,
  if◌then◌else◌, arith, ◌==◌, nat_eq, min, some,
}
use cpp_iocp_server.Text.{Text}
use cpp_iocp_server.Outcome.{Outcome, returns, exits, undefined, hangs, M, continue, pure}
use cpp_iocp_server.Common.{Socket, JobData, buf_size, status_logout}
use cpp_iocp_server.Common.Directions
use cpp_iocp_server.State.{State}
use cpp_iocp_server.Iocp.{send_to_one_msg}
use cpp_iocp_server.Business.Leave.{client_exit}
use cpp_iocp_server.Server.Reading.{
  Operation, recv, send, recv_more, PerIo, Received, recv_loop, begin_recv,
}
use cpp_iocp_server.Server.Work.{
  SendJob, Program, with_state, service, is_socket_dead, insert_live_socket, accept_client,
  greeting, work_one, work_all, work_thread, send_thread, recv_thread, receive_all, completed,
  push_jobs,
}

-- One turn: a client is accepted, a receive completes or fails, a work thread or the send thread
-- works off its queue. `EnqueueSend` and `Sendwork` have no caller, so no turn runs them.
pub data Turn (p p' : Program) : Type 0 where
  accepts :
      (sock : Socket) (address : Text) (io next : PerIo)
      → accept_client sock address io p ≡ returns next p'
      → Turn p p'
  receives :
      (success : Bool) (sock : Socket) (n : ℕ) (io : Option PerIo) (is_closed : Bool)
      (next : Option PerIo)
      → recv_thread success sock n io is_closed p ≡ returns next p'
      → Turn p p'
  works : work_thread p ≡ returns tt p' → Turn p p'
  sends : send_thread p ≡ returns tt p' → Turn p p'

pub data Run : Program → Program → Type 0 where
  stop : (p : Program) → Run p p
  step : (p q r : Program) → Turn p q → Run q r → Run p r

-- If the code returns, the send thread's queue is `jobs`.
abbrev Keeps : {A : Type 0} → List SendJob → Outcome Program A → Type 0
Keeps jobs (returns a p) = p.send_jobs ≡ jobs
Keeps jobs _ = Unit

Keeps-result :
    {A : Type 0} (jobs : List SendJob) (m : Outcome Program A) (a : A) (p : Program)
    → Keeps jobs m
    → m ≡ returns a p
    → p.send_jobs ≡ jobs
Keeps-result jobs m a p h e = subst (λ m. Keeps jobs m) e h

Keeps-service :
    {A : Type 0} (p : Program) (m : Outcome State A) → Keeps p.send_jobs (with_state p m)
Keeps-service p (returns a s) = refl
Keeps-service p exits = tt
Keeps-service p undefined = tt
Keeps-service p hangs = tt

Keeps-continue :
    {A B : Type 0} (jobs : List SendJob) (m : Outcome Program A) (f : A → M Program B)
    → Keeps jobs m
    → ((a : A) (p : Program) → p.send_jobs ≡ jobs → Keeps jobs (f a p))
    → Keeps jobs (continue m f)
Keeps-continue jobs (returns a p) f h k = k a p h
Keeps-continue jobs exits f h k = tt
Keeps-continue jobs undefined f h k = tt
Keeps-continue jobs hangs f h k = tt

Keeps-test :
    {A : Type 0} (jobs : List SendJob) (b : Bool) (x y : Outcome Program A)
    → Keeps jobs x
    → Keeps jobs y
    → Keeps jobs (if b then x else y)
Keeps-test jobs true x y h k = h
Keeps-test jobs false x y h k = k

work_one-Keeps : (job : JobData) (p : Program) → Keeps p.send_jobs (work_one job p)
unfolding work_one
work_one-Keeps job p = Keeps-test p.send_jobs (is_socket_dead job.socket p.state) _ _ refl (
    Keeps-test p.send_jobs (job.direction == Directions.callcount) _ _
      (Keeps-service (record p { packet_cnt = 0 }) _)
      (Keeps-test p.send_jobs (job.direction == Directions.ban) _ _ (Keeps-service p _)
        (Keeps-service p _)))

work_all-Keeps : (jobs : List JobData) (p : Program) → Keeps p.send_jobs (work_all jobs p)
unfolding work_all
work_all-Keeps [] p = refl
work_all-Keeps (job ∷ jobs) p =
    Keeps-continue p.send_jobs (work_one job p) (λ _. work_all jobs) (work_one-Keeps job p)
      λ _ q e. subst (λ queue. Keeps queue (work_all jobs q)) e (work_all-Keeps jobs q)

work_thread-Keeps : (p : Program) → Keeps p.send_jobs (work_thread p)
unfolding work_thread
work_thread-Keeps p = by_queue p.job_queue
  where
    by_queue :
        (queue : List JobData)
        → Keeps p.send_jobs (elim queue [
          | [] ↦ hangs
          | job ∷ jobs ↦ work_all (job ∷ jobs) (record p { job_queue = [] })
        ])
    by_queue [] = tt
    by_queue (job ∷ jobs) = work_all-Keeps (job ∷ jobs) (record p { job_queue = [] })

receive_all-Keeps : (m : Outcome PerIo Received) (p : Program) → Keeps p.send_jobs (receive_all m p)
unfolding push_jobs
receive_all-Keeps (returns r io) p = refl
receive_all-Keeps exits p = tt
receive_all-Keeps undefined p = tt
receive_all-Keeps hangs p = tt

completed-Keeps :
    (mode : Operation) (m : Outcome PerIo Received) (p : Program)
    → Keeps p.send_jobs (completed mode (receive_all m) p)
completed-Keeps recv m p = receive_all-Keeps m p
completed-Keeps send m p = refl
completed-Keeps recv_more m p = receive_all-Keeps m p

exit-Keeps :
    (sock : Socket) (is_closed : Bool) (p : Program)
    → Keeps p.send_jobs
        (continue (service (client_exit sock is_closed) p) (λ _. pure {A = Option PerIo} none))
exit-Keeps sock is_closed p =
    Keeps-continue p.send_jobs (service (client_exit sock is_closed) p) (λ _. pure none)
      (Keeps-service p (client_exit sock is_closed p.state)) λ _ q e. e

recv_thread-Keeps :
    (success : Bool) (sock : Socket) (n : ℕ) (io : Option PerIo) (is_closed : Bool) (p : Program)
    → Keeps p.send_jobs (recv_thread success sock n io is_closed p)
unfolding recv_thread
recv_thread-Keeps false sock n none is_closed p = refl
recv_thread-Keeps false sock n (some io) is_closed p = exit-Keeps sock is_closed p
recv_thread-Keeps true sock zero io is_closed p = exit-Keeps sock is_closed p
recv_thread-Keeps true sock (suc n) none is_closed p = tt
recv_thread-Keeps true sock (suc n) (some io) is_closed p =
    completed-Keeps io.server_mode
      (recv_loop (2 + min (suc n) buf_size) sock (min (suc n) buf_size) io) p

send_thread-none : (p : Program) → p.send_jobs ≡ [] → send_thread p ≡ hangs
unfolding send_thread
send_thread-none p none_yet = rw none_yet refl

accept_client-Keeps :
    (sock : Socket) (address : Text) (io : PerIo) (p : Program)
    → Keeps p.send_jobs (accept_client sock address io p)
unfolding accept_client
accept_client-Keeps sock address io p =
    Keeps-continue p.send_jobs (service (insert_live_socket sock address) p)
      (λ _ q.
        continue (service (send_to_one_msg greeting sock status_logout) q)
          (λ _. pure (begin_recv io)))
      (Keeps-service p (insert_live_socket sock address p.state))
      λ _ q e.
        Keeps-continue p.send_jobs (service (send_to_one_msg greeting sock status_logout) q)
          (λ _. pure (begin_recv io))
          (subst (λ jobs. Keeps jobs (service (send_to_one_msg greeting sock status_logout) q)) e
            (Keeps-service q (send_to_one_msg greeting sock status_logout q.state)))
          λ _ r same. same

Turn-keeps_none : (p q : Program) → Turn p q → p.send_jobs ≡ [] → q.send_jobs ≡ []
Turn-keeps_none p q (accepts sock address io next e) none_yet =
    Keeps-result p.send_jobs (accept_client sock address io p) next q
      (accept_client-Keeps sock address io p) e
    ∙ none_yet
Turn-keeps_none p q (receives success sock n io is_closed next e) none_yet =
    Keeps-result p.send_jobs (recv_thread success sock n io is_closed p) next q
      (recv_thread-Keeps success sock n io is_closed p) e
    ∙ none_yet
Turn-keeps_none p q (works e) none_yet =
    Keeps-result p.send_jobs (work_thread p) tt q (work_thread-Keeps p) e ∙ none_yet
Turn-keeps_none p q (sends e) none_yet =
    let waits = send_thread-none p none_yet in absurd (grind arith)

-- From a program in which the send thread's queue is empty, as it is at the start, no run of
-- turns of the server's threads lets the send thread take a turn: it waits for an entry for
-- ever.
pub send_thread-Run : (p q : Program) → Run p q → p.send_jobs ≡ [] → send_thread q ≡ hangs
send_thread-Run p q (stop _) none_yet = send_thread-none q none_yet
send_thread-Run p q (step _ r _ turn rest) none_yet =
    send_thread-Run r q rest (Turn-keeps_none p r turn none_yet)
