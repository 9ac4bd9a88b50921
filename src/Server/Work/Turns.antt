-- ===== src/Server/Work/Turns.antt =====
-- Turns of the threads of Server.cpp: what one turn does to the program.
use cpp_iocp_server.Prelude.{
  ℕ, ◌≡◌, ◌≢◌, refl, Bool, true, false, List, [], ◌∷◌, All, nat_eq, nat_beq_iff, ◌==◌, take,
  if◌then◌else◌,
}
use cpp_iocp_server.Outcome.{Outcome, returns, exits, undefined, hangs, Post, Post-continue}
use cpp_iocp_server.Common.{ClientStatus, status_logout, status_waiting, status_chatting, JobData}
use cpp_iocp_server.Common.Directions
use cpp_iocp_server.State.{State}
use cpp_iocp_server.Business.Account.{get_status}
use cpp_iocp_server.Business.Safety.Rules.{IsSafe, Safe}
use cpp_iocp_server.Business.Safety.Requests.{
  CanLogIn, CanWait, CanChat, IsAdmissible, call_func_pointer-Safe,
}
use cpp_iocp_server.Business.Safety.Leaving.{ban_user-Safe}
use cpp_iocp_server.Server.Work.{Program, with_state, work_one, work_all, is_socket_dead}

-- A request that keeps to the limits of every status, and is not a count of calls.
pub record IsTame (job : JobData) : Type 0 where
  pub at_logout : CanLogIn job.direction job.msg
  pub waits : CanWait job.direction job.msg
  pub chats : CanChat job.direction job.msg
  pub not_count : job.direction ≢ Directions.callcount

tame-IsAdmissible :
    (job : JobData)
    → IsTame job
    → (status : ClientStatus) → IsAdmissible status job.direction job.msg
tame-IsAdmissible job h status_logout = h.at_logout
tame-IsAdmissible job h status_waiting = h.waits
tame-IsAdmissible job h status_chatting = h.chats
tame-IsAdmissible job h _ = tt

Post-test :
    (b : Bool) (x y : Outcome Program Unit)
    → (b ≡ true → Post (λ _ p. IsSafe p.state) x)
    → (b ≡ false → Post (λ _ p. IsSafe p.state) y)
    → Post (λ _ p. IsSafe p.state) (if b then x else y)
Post-test true x y h k = h refl
Post-test false x y h k = k refl

service-Safe :
    (p : Program) (r : Outcome State Unit) → Safe r → Post (λ _ p. IsSafe p.state) (with_state p r)
service-Safe p (returns a s) h = h
service-Safe p exits h = tt
service-Safe p undefined h = h
service-Safe p hangs h = tt

direction_is : (m n : ℕ) → m == n ≡ true → m ≡ n
direction_is m n h = (nat_beq_iff m n).0 h

work_one-Safe :
    (job : JobData) (p : Program)
    → IsTame job
    → IsSafe p.state
    → Post (λ _ p. IsSafe p.state) (work_one job p)
unfolding work_one
work_one-Safe job p tame h =
    Post-test (is_socket_dead job.socket p.state) _ _ (λ _. h)
      λ _.
        Post-test (job.direction == Directions.callcount) _ _
          (λ counts.
            absurd (tame.not_count (direction_is job.direction Directions.callcount counts)))
          λ _.
            Post-test (job.direction == Directions.ban) _ _
              (λ _. service-Safe p _ (ban_user-Safe (take job.now_status job.msg) p.state h))
              λ _. service-Safe p _ (
                call_func_pointer-Safe job.socket job.direction job.msg p.state h
                  (tame-IsAdmissible job tame (get_status job.socket p.state)))

-- A work thread that works off a queue of requests, from a state where sessions and rooms
-- agree, the driver answers and the machine lets ten bytes be read behind each message that is
-- sent, does not run into undefined behaviour, and where it returns the state is such a state
-- again. Each request must keep to the limits of every status and be no count of calls.
pub work_all-Safe :
    (jobs : List JobData) (p : Program)
    → All IsTame jobs
    → IsSafe p.state
    → Post (λ _ p. IsSafe p.state) (work_all jobs p)
unfolding work_all
work_all-Safe [] p tame h = h
work_all-Safe (job ∷ jobs) p tame h =
    Post-continue (λ _ p. IsSafe p.state) (λ _ p. IsSafe p.state) (work_one job p)
      (λ _. work_all jobs) (work_one-Safe job p (tame.0) h) λ _ p'. work_all-Safe jobs p' (tame.1)
