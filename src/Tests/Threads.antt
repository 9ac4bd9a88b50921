-- ===== src/Tests/Threads.antt =====
-- Threads that take turns on the small server.
use cpp_iocp_server.Prelude.{
  ℕ, ◌≤◌, ◌≡◌, ◌≢◌, refl, false, some, [], ◌∷◌, map, arith, inr, ◌==◌, lookup, insert, nat_eq,
  text_eq, text_beq, contains,
}
use cpp_iocp_server.Outcome.{undefined, Returns, Whenever}
use cpp_iocp_server.Common.{JobData}
use cpp_iocp_server.Common.Directions
use cpp_iocp_server.Odbc.{Database, success}
use cpp_iocp_server.State.{State}
use cpp_iocp_server.Business.Consistency.{IsSound}
use cpp_iocp_server.Business.Account.{session_at_login}
use cpp_iocp_server.Threads.{interleave}
use cpp_iocp_server.Threads.Handlers.{room_enter_cut, chat_out_cut, log_out_cut, enter_once_cut}
use cpp_iocp_server.Threads.Jobs.{jobs_cut}
use cpp_iocp_server.Threads.Ids.{sessions_of, claims, count}
use cpp_iocp_server.Threads.Ids.Jobs.{jobs_cut-sessions_of}
use cpp_iocp_server.Threads.Races.{room_enter-race, log_out-race}
use cpp_iocp_server.Tests.Scene.{
  kim, kim_in_room, kim-IsSound, lobby, kim_waits, two, lee_waits, kims_room, server,
}

kim_in_room-IsSound : IsSound kim_in_room
kim_in_room-IsSound = record {
  name = omega arith;
  id = omega arith;
  room = omega arith;
  status = inr refl;
}

kim_there : lookup 7 two.user_map ≡ some kim_in_room
unfolding lookup insert
kim_there = refl

-- Kim leaves her room, and Lee enters it.
seven_is_not_eight : ◌≢◌ {A = ℕ} 7 8
seven_is_not_eight e = absurd (omega (arith, e))

seven_is_not_nine : ◌≢◌ {A = ℕ} 7 9
seven_is_not_nine e = absurd (omega (arith, e))

room_enter-race_example :
    interleave
      (0 ∷ 0 ∷ 0 ∷ 1 ∷ 1 ∷ 1 ∷ 1 ∷ 1 ∷ 1 ∷ 0 ∷ 0 ∷ [])
      (room_enter_cut 8 kim_in_room.room_name ∷ chat_out_cut 7 kim_in_room.user_name ∷ [])
      (server two)
    ≡ undefined
room_enter-race_example =
    room_enter-race 7 8 kim_in_room kim (server two) kim_there lee_waits kim_in_room-IsSound
      kim-IsSound seven_is_not_eight kims_room

log_out-race_example :
    Returns
      (λ _ s'.
        (lookup 7 s'.user_map ≡ some kim)
        × (lookup 9 s'.user_map ≡ some (session_at_login kim.user_id (75 ∷ [])))
        × ((session_at_login kim.user_id (75 ∷ [])).user_id ≡ kim.user_id))
      (interleave
        (0 ∷ 1 ∷ 1 ∷ [])
        (log_out_cut 7 ∷ enter_once_cut 9 kim.user_id (75 ∷ []) ∷ [])
        (server lobby))
log_out-race_example =
    log_out-race 7 9 kim (75 ∷ []) (server lobby) kim_waits kim-IsSound seven_is_not_nine

-- A log-in on socket 8 and one on socket 9, with the id and the password of one account.
abbrev accounts : Database
accounts = record {
  executed = [];
  answer = λ past st. record {
    code = success;
    rows = record { first = 108 ∷ []; second = 112 ∷ []; third = 76 ∷ [] } ∷ [];
  };
}

abbrev open_server : State
open_server = record (server lobby) {
  database = accounts;
  live_socket = (8, 49 ∷ []) ∷ (9, 49 ∷ []) ∷ [];
}

abbrev log_in_on : ℕ → JobData
log_in_on sock = record {
  socket = sock;
  direction = Directions.user_enter;
  now_status = 1;
  msg = 108 ∷ 92 ∷ 112 ∷ [];
}

no_ban : (Directions.user_enter == Directions.ban) ≡ false
no_ban = refl

no_log_out : (Directions.user_enter == Directions.log_out) ≡ false
no_log_out = refl

none_of_lee : sessions_of (108 ∷ []) open_server ≤ claims (108 ∷ []) open_server
unfolding count insert contains text_beq
none_of_lee = omega arith

jobs_cut-sessions_of_example :
    Whenever
      (λ _ s'. (sessions_of (108 ∷ []) s' ≤ claims (108 ∷ []) s') × (sessions_of (108 ∷ []) s' ≤ 1))
      (interleave
        (0 ∷ 1 ∷ 0 ∷ 1 ∷ 0 ∷ 1 ∷ 0 ∷ 1 ∷ 0 ∷ 1 ∷ 0 ∷ 1 ∷ 0 ∷ 1 ∷ [])
        (map jobs_cut (((0, log_in_on 8) ∷ []) ∷ ((0, log_in_on 9) ∷ []) ∷ []))
        open_server)
jobs_cut-sessions_of_example =
    jobs_cut-sessions_of (108 ∷ []) (0 ∷ 1 ∷ 0 ∷ 1 ∷ 0 ∷ 1 ∷ 0 ∷ 1 ∷ 0 ∷ 1 ∷ 0 ∷ 1 ∷ 0 ∷ 1 ∷ [])
      (((0, log_in_on 8) ∷ []) ∷ ((0, log_in_on 9) ∷ []) ∷ []) open_server (omega arith)
      (((no_ban, no_log_out), tt), (((no_ban, no_log_out), tt), tt)) none_of_lee

-- Lee is logged in once, and on one of the sockets.
one_session :
    Returns
      (λ _ s'. sessions_of (108 ∷ []) s' ≡ 1)
      (interleave
        (0 ∷ 1 ∷ 0 ∷ 1 ∷ 0 ∷ 1 ∷ 0 ∷ 1 ∷ 0 ∷ 1 ∷ 0 ∷ 1 ∷ 0 ∷ 1 ∷ 0 ∷ 1 ∷ 0 ∷ 1 ∷ [])
        (map jobs_cut (((0, log_in_on 8) ∷ []) ∷ ((0, log_in_on 9) ∷ []) ∷ []))
        open_server)
unfolding contains insert lookup text_beq count jobs_cut interleave
one_session = refl
