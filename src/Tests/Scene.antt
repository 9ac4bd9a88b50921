-- ===== src/Tests/Scene.antt =====
-- A server with one client, Kim, on socket 7, first in the lobby and then in the room AB.
use cpp_iocp_server.Prelude.{
  ◌≡◌, refl, true, false, none, some, [], ◌∷◌, arith, lookup, insert, insert_sorted, nat_eq,
  text_eq, text_beq, inl, ◌+◌, length,
}
use cpp_iocp_server.Text.{Text}
use cpp_iocp_server.Common.{status_waiting}
use cpp_iocp_server.Iocp.Sending.{HasTail}
use cpp_iocp_server.Odbc.{Database, success, IsServing}
use cpp_iocp_server.State.{Session, Tables, Host, State}
use cpp_iocp_server.Business.Room.{in_room}
use cpp_iocp_server.Business.Visits.{made}
use cpp_iocp_server.Business.Consistency.{
  IsSound, IsConsistent, empty_tables, set_user, set_user-IsConsistent, empty-IsConsistent,
  add_room-IsConsistent,
}
use cpp_iocp_server.Business.Safety.Rules.{IsSafe}

abbrev pub kim : Session
kim = record {
  user_name = 75 ∷ 105 ∷ 109 ∷ [];
  room_name = [];
  user_id = 107 ∷ [];
  status = status_waiting;
}

pub kim-IsSound : IsSound kim
kim-IsSound = record {
  name = omega arith;
  id = omega arith;
  room = omega arith;
  status = inl (refl, refl);
}

abbrev pub room : Text
room = 65 ∷ 66 ∷ []

abbrev pub kim_in_room : Session
kim_in_room = in_room room kim

abbrev pub lobby : Tables
lobby = set_user 7 kim empty_tables

pub kim_waits : lookup 7 lobby.user_map ≡ some kim
unfolding lookup insert
kim_waits = refl

no_session : lookup 7 empty_tables.user_map ≡ none
unfolding lookup
no_session = refl

pub lobby-IsConsistent : IsConsistent lobby
lobby-IsConsistent =
    set_user-IsConsistent 7 empty_tables kim empty-IsConsistent no_session kim-IsSound refl

pub room_is_fresh : lookup room lobby.room_map ≡ none
unfolding lookup
room_is_fresh = refl

abbrev pub chat : Tables
chat = made 7 room kim lobby

pub chat-IsConsistent : IsConsistent chat
chat-IsConsistent =
    add_room-IsConsistent 7 room kim lobby lobby-IsConsistent kim_waits refl (omega arith)
      room_is_fresh

pub kim_chats : lookup 7 chat.user_map ≡ some kim_in_room
unfolding lookup insert
kim_chats = refl

pub room_is_there : lookup kim_in_room.room_name chat.room_map ≡ some (7 ∷ [])
unfolding lookup insert_sorted text_beq
room_is_there = refl

abbrev pub database : Database
database = record { executed = []; answer = λ past st. record { code = success; rows = [] } }

pub database-IsServing : IsServing database
database-IsServing = record { serves = λ past st e. cc }

abbrev pub host : Host
host = record {
  files = [];
  is_writable = λ path. true;
  inbox = [];
  is_reachable = λ ip. true;
  readable = λ msg. length msg + 11;
  datagrams = [];
}

abbrev pub server : Tables → State
server t = record {
  tables = t;
  send_queue = [];
  send_stop = false;
  live_socket = (7, 49 ∷ []) ∷ [];
  wire = [];
  database = database;
  host = host;
}

pub host-HasTail : HasTail host
host-HasTail msg = omega arith

pub server-IsSafe : (t : Tables) → IsConsistent t → IsSafe (server t)
server-IsSafe t h = record { consistent = h; serving = database-IsServing; around = host-HasTail }

-- Lee, on socket 8, waits beside Kim's room.
abbrev pub two : Tables
two = set_user 8 kim chat

pub lee_waits : lookup 8 two.user_map ≡ some kim
unfolding lookup insert
lee_waits = refl

pub kims_room : lookup room two.room_map ≡ some (7 ∷ [])
unfolding lookup insert_sorted text_beq
kims_room = refl
