-- ===== src/Server/Work.antt =====
-- The threads of Server.cpp and the queues between them. A thread's loop is one turn here: it takes
-- its queue whole and works it off; it hangs where the thread would wait for an entry.
pub mod Turns
pub mod Runs
pub mod Receiving
use cpp_iocp_server.Prelude.{
  ℕ, zero, suc, ◌+◌, ◌%◌, ◌^◌, Bool, true, false, Option, none, some, List, [], ◌∷◌, ◌++◌, lookup,
  insert, nat_eq, ◌==◌, take, length, min, if◌then◌else◌,
}
use cpp_iocp_server.Text.{Text, utf8}
use cpp_iocp_server.Outcome.{
  Outcome, returns, exits, undefined, hangs, M, pure, fault, modify, ◌>>=◌, ◌>>◌,
}
use cpp_iocp_server.Common.{
  Socket, ClientStatus, status_logout, JobData, buf_size, login_before_message,
}
use cpp_iocp_server.Common.Directions
use cpp_iocp_server.State.{State}
use cpp_iocp_server.Iocp.{send_to_one_msg}
use cpp_iocp_server.Business.Account.{get_status, call_cnt}
use cpp_iocp_server.Business.Leave.{client_exit, ban_user}
use cpp_iocp_server.Business.Dispatch.{call_func_pointer}
use cpp_iocp_server.Server.Reading.{
  Operation, recv, send, recv_more, PerIo, Received, recv_loop, begin_recv, begin_recv_more,
}

-- `SEND_JOB`
pub record SendJob : Type 0 where
  pub socket : Socket
  pub msg : Text
  pub status : ClientStatus

-- The globals of Server.cpp beside the services. `packet_cnt` is a 32-bit pattern.
pub record Program : Type 0 where
  pub state : State
  pub job_queue : List JobData
  pub packet_cnt : ℕ
  pub send_jobs : List SendJob

-- A step of the services in the program.
abbrev pub with_state : {A : Type 0} → Program → Outcome State A → Outcome Program A
with_state p (returns a s) = returns a (record p { state = s })
with_state p exits = exits
with_state p undefined = undefined
with_state p hangs = hangs

abbrev pub service : {A : Type 0} → M State A → M Program A
service m p = with_state p (m p.state)

-- `InsertLiveSocket`, with the address as `inet_ntoa` writes it: a socket that is there stays.
abbrev keep_live : Socket → Text → State → Option Text → State
keep_live sock address s (some _) = s
keep_live sock address s none = record s { live_socket = insert sock address s.live_socket }

unfoldable pub insert_live_socket : Socket → Text → M State Unit
insert_live_socket sock address = modify (λ s. keep_live sock address s (lookup sock s.live_socket))

abbrev is_none : Option Text → Bool
is_none none = true
is_none (some _) = false

unfoldable pub is_socket_dead : Socket → State → Bool
is_socket_dead sock s = is_none (lookup sock s.live_socket)

-- `EnqueueSend`
unfoldable pub enqueue_send : SendJob → M Program Unit
enqueue_send job = modify (λ p. record p { send_jobs = p.send_jobs ++ job ∷ [] })

unfoldable pub send_jobs_all : List SendJob → M Program Unit
unfolding is_socket_dead send_to_one_msg
send_jobs_all [] = pure tt
send_jobs_all (job ∷ jobs) = do
  λ p.
      if is_socket_dead job.socket p.state
      then returns tt p
      else service (send_to_one_msg job.msg job.socket job.status) p
  send_jobs_all jobs

-- A turn of `SendThread`.
unfoldable pub send_thread : M Program Unit
unfolding send_jobs_all
send_thread p = elim p.send_jobs [
  | [] ↦ hangs
  | job ∷ jobs ↦ send_jobs_all (job ∷ jobs) (record p { send_jobs = [] })
]

-- `packetCnt.exchange(0)`, then `CallCnt`
abbrev pub answer_count : Socket → M Program Unit
answer_count sock p = service (call_cnt sock p.packet_cnt) (record p { packet_cnt = 0 })

-- A job of `WorkThread`. `substr` with a negative length takes all of the message, as it does with
-- that length's pattern.
unfoldable pub work_one : JobData → M Program Unit
unfolding is_socket_dead call_cnt ban_user get_status call_func_pointer
work_one job p =
    if is_socket_dead job.socket p.state
    then returns tt p
    else if job.direction == Directions.callcount
    then answer_count job.socket p
    else if job.direction == Directions.ban
    then service (ban_user (take job.now_status job.msg)) p
    else service
        (λ s. call_func_pointer job.socket (get_status job.socket s) job.direction job.msg s) p

unfoldable pub work_all : List JobData → M Program Unit
unfolding work_one
work_all [] = pure tt
work_all (job ∷ jobs) = do work_one job; work_all jobs

-- A turn of `WorkThread`.
unfoldable pub work_thread : M Program Unit
unfolding work_all
work_thread p = elim p.job_queue [
  | [] ↦ hangs
  | job ∷ jobs ↦ work_all (job ∷ jobs) (record p { job_queue = [] })
]

-- The requests of one receive are counted and queued.
unfoldable pub push_jobs : List JobData → M Program Unit
push_jobs jobs = modify (λ p. record p {
  packet_cnt = (p.packet_cnt + length jobs) % 2 ^ 32;
  job_queue = p.job_queue ++ jobs;
})

-- How the next receive on the socket begins: on the same buffer, or on a new one.
abbrev next_receive : PerIo → Bool → PerIo
next_receive io true = begin_recv_more io
next_receive io false = begin_recv io

abbrev pub receive_all : Outcome PerIo Received → M Program (Option PerIo)
receive_all (returns r io) = do push_jobs r.jobs; pure (some (next_receive io r.recv_more))
receive_all exits = λ p. exits
receive_all undefined = λ p. undefined
receive_all hangs = λ p. hangs

-- By `serverMode`: a completed `SEND` only frees its blocks.
abbrev pub completed : Operation → M Program (Option PerIo) → M Program (Option PerIo)
completed recv m = m
completed send m = pure none
completed recv_more m = m

-- The inner loop reads through `ioInfo`, which a completed operation of some bytes must have.
abbrev pub received : Socket → ℕ → Option PerIo → M Program (Option PerIo)
received sock n none = fault
received sock n (some io) =
    completed io.server_mode (receive_all (recv_loop (2 + min n buf_size) sock (min n buf_size) io))

-- A turn of `RecvThread`: a completed operation on a socket, or a failed one, with the number of
-- bytes that came and `ioInfo`, if it is not null. The result is what the next receive reads into, if
-- there is one. Where the wait itself failed, nothing is done. Each turn of the inner loop but the
-- first takes a byte at least, unless a packet announces a body of none.
unfoldable pub recv_thread : Bool → Socket → ℕ → Option PerIo → Bool → M Program (Option PerIo)
unfolding client_exit recv_loop push_jobs
recv_thread false sock bytes_trans none is_closed = pure none
recv_thread false sock bytes_trans (some io) is_closed = do
  service (client_exit sock is_closed)
  pure none
recv_thread true sock zero io_info is_closed = do service (client_exit sock is_closed); pure none
recv_thread true sock (suc n) io_info is_closed = received sock (suc n) io_info

unfoldable pub greeting : Text
unfolding utf8 login_before_message
greeting = utf8 "접속을 환영합니다!\n" ++ login_before_message

-- What `main` does with a connection that it accepts: the socket is live, its first receive begins, on
-- a block that is taken for it, and the greeting is sent.
unfoldable pub accept_client : Socket → Text → PerIo → M Program PerIo
unfolding insert_live_socket send_to_one_msg greeting
accept_client sock address io = do
  service (insert_live_socket sock address)
  service (send_to_one_msg greeting sock status_logout)
  pure (begin_recv io)
