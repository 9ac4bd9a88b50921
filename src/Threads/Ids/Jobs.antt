-- ===== src/Threads/Ids/Jobs.antt =====
-- Threads with jobs that give no id up: an id is logged in once.
use cpp_iocp_server.Prelude.{
  ℕ, ◌<◌, ◌≤◌, ◌≡◌, arith, false, List, [], ◌∷◌, ◌==◌, nat_eq, map, length, All, text_eq,
}
use cpp_iocp_server.Text.{Text}
use cpp_iocp_server.Outcome.{Whenever, Spec-mono}
use cpp_iocp_server.Common.{Socket, JobData}
use cpp_iocp_server.Common.Directions
use cpp_iocp_server.Common.Directions.{Direction}
use cpp_iocp_server.State.{State}
use cpp_iocp_server.Threads.{interleave}
use cpp_iocp_server.Threads.Jobs.{request_cut, job_cut, jobs_cut}
use cpp_iocp_server.Threads.Ids.{sessions_of, claims, IsHonest, interleave-sessions_of}
use cpp_iocp_server.Threads.Ids.Keeps.{gets-Keeps}
use cpp_iocp_server.Threads.Ids.Keeps.Changes.{call_cnt-Keeps}
use cpp_iocp_server.Threads.Ids.Neutral.{IsNeutral, neutral, done-IsNeutral, and_then-IsNeutral}
use cpp_iocp_server.Threads.Ids.Requests.{call_func_pointer-IsNeutral, kept_from-IsNeutral}

-- The job is neither `BAN` nor `LOG_OUT`.
abbrev pub GivesNoneUp : ℕ × JobData → Type 0
GivesNoneUp (cnt, job) =
    ((job.direction == Directions.ban) ≡ false) × ((job.direction == Directions.log_out) ≡ false)

request-IsNeutral :
    (x : Text) (sock : Socket) (direction : Direction) (message : Text)
    → length x < 20
    → (direction == Directions.log_out) ≡ false
    → IsNeutral x (request_cut sock direction message)
unfolding request_cut
request-IsNeutral x sock direction message short stays =
    search (neutral, gets-Keeps, call_func_pointer-IsNeutral) depth 20

job-IsNeutral :
    (x : Text) (cnt : ℕ) (job : JobData)
    → length x < 20
    → GivesNoneUp (cnt, job)
    → IsNeutral x (job_cut cnt job)
unfolding job_cut
job-IsNeutral x cnt job short (no_ban, no_log_out) =
    search (neutral, gets-Keeps, call_cnt-Keeps, kept_from-IsNeutral, request-IsNeutral) depth 20

jobs-IsNeutral :
    (x : Text) (jobs : List (ℕ × JobData))
    → length x < 20
    → All GivesNoneUp jobs
    → IsNeutral x (jobs_cut jobs)
unfolding jobs_cut
jobs-IsNeutral x [] short h = done-IsNeutral x
jobs-IsNeutral x ((cnt, job) ∷ jobs) short h =
    and_then-IsNeutral x (job_cut cnt job) (jobs_cut jobs) (job-IsNeutral x cnt job short h.0)
      (jobs-IsNeutral x jobs short h.1)

threads-IsHonest :
    (x : Text) (jobss : List (List (ℕ × JobData)))
    → length x < 20
    → All (All GivesNoneUp) jobss
    → All (IsHonest x 0) (map jobs_cut jobss)
threads-IsHonest x [] short h = tt
threads-IsHonest x (jobs ∷ jobss) short h =
    ((jobs-IsNeutral x jobs short h.0).at 0, threads-IsHonest x jobss short h.1)

claims-AtMostOne : (x : Text) (s : State) → claims x s ≤ 1
claims-AtMostOne x s = ground arith

-- However many work threads take turns, and in whatever order, cut at the locks that their
-- handlers take: where the turns return, an id of less than 20 bytes, taken as a text, has one
-- session at most, and none unless it is in idSet. It must be so at the start, no job be a BAN
-- or a LOG_OUT, and no connection end meanwhile. Nothing is said of two ids that agree in their
-- first bytes, which are two texts and, from ten bytes on, one account.
pub jobs_cut-sessions_of :
    (x : Text) (schedule : List ℕ) (jobss : List (List (ℕ × JobData))) (s : State)
    → length x < 20
    → All (All GivesNoneUp) jobss
    → sessions_of x s ≤ claims x s
    → Whenever
        (λ _ s'. (sessions_of x s' ≤ claims x s') × (sessions_of x s' ≤ 1))
        (interleave schedule (map jobs_cut jobss) s)
jobs_cut-sessions_of x schedule jobss s short h k =
    Spec-mono Unit Unit Unit (λ _ s'. sessions_of x s' ≤ claims x s') _
      (interleave schedule (map jobs_cut jobss) s)
      (interleave-sessions_of x schedule (map jobs_cut jobss) s (threads-IsHonest x jobss short h)
        k)
      (λ _ s' p. (p, omega (arith, p, claims-AtMostOne x s')))
