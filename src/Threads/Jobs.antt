-- ===== src/Threads/Jobs.antt =====
-- What a work thread does with its jobs, cut at the locks.
use cpp_iocp_server.Prelude.{ℕ, List, [], ◌∷◌, ◌==◌, nat_eq, take, if◌then◌else◌}
use cpp_iocp_server.Text.{Text}
use cpp_iocp_server.Outcome.{gets}
use cpp_iocp_server.Common.{Socket, JobData}
use cpp_iocp_server.Common.Directions
use cpp_iocp_server.Common.Directions.{Direction}
use cpp_iocp_server.Business.Account.{get_status, call_cnt}
use cpp_iocp_server.Server.Work.{is_socket_dead}
use cpp_iocp_server.Threads.{Work, done, and_then, ◌>>=◌, last}
use cpp_iocp_server.Threads.Dispatch.{call_func_pointer_cut, ban_user_cut}

-- A request: the status is read under `userCs`, before the handler begins.
unfoldable pub request_cut : Socket → Direction → Text → Work
unfolding get_status call_func_pointer_cut
request_cut sock direction message = do
  status ← gets (get_status sock)
  call_func_pointer_cut sock status direction message

-- A job of `WorkThread`, where `packetCnt.exchange(0)` gives `cnt` if the job asks for it.
unfoldable pub job_cut : ℕ → JobData → Work
unfolding is_socket_dead call_cnt ban_user_cut request_cut
job_cut cnt job = do
  is_dead ← gets (is_socket_dead job.socket)
  if is_dead
      then done
      else if job.direction == Directions.callcount
      then last (call_cnt job.socket cnt)
      else if job.direction == Directions.ban
      then ban_user_cut (take job.now_status job.msg)
      else request_cut job.socket job.direction job.msg

-- The jobs that a thread has taken, each with the count that it is given.
unfoldable pub jobs_cut : List (ℕ × JobData) → Work
unfolding job_cut and_then
jobs_cut [] = done
jobs_cut ((cnt, job) ∷ jobs) = and_then (job_cut cnt job) (jobs_cut jobs)
