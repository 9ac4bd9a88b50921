-- ===== src/Tests/Sessions.antt =====
-- The requests of BusinessService.cpp on the small server.
use cpp_iocp_server.Prelude.{
  contains, ◌≡◌, refl, true, none, some, [], ◌∷◌, ◌++◌, arith, lookup, insert, remove, nat_eq,
  text_eq, text_beq, All,
}
use cpp_iocp_server.Text.{Text}
use cpp_iocp_server.Text.Tokens.{tokens, tokens_from, end_field}
use cpp_iocp_server.Outcome.{returns, undefined, Post, ◌>>◌}
use cpp_iocp_server.Common.{Socket, status_waiting, status_chatting, send_me, send_room, SendData}
use cpp_iocp_server.State.{Tables, State}
use cpp_iocp_server.Business.Account.{get_status, user_enter}
use cpp_iocp_server.Business.Room.{in_lobby, room_make, drop_if_empty}
use cpp_iocp_server.Business.Basics.{set_room}
use cpp_iocp_server.Business.Leave.{leave_room, client_exit, ban_user}
use cpp_iocp_server.Business.Dispatch.{chat_out, call_func_pointer}
use cpp_iocp_server.Business.SendQueue.{sendwork}
use cpp_iocp_server.Business.Delivery.{IsMessage, deliveries, sendwork-deliveries}
use cpp_iocp_server.Business.Consistency.Leaving.{leave-IsConsistent}
use cpp_iocp_server.Business.Consistency.{IsConsistent, set_user}
use cpp_iocp_server.Business.Logins.{user_enter-logged_in}
use cpp_iocp_server.Business.Visits.{room_make-chat_out, room_make-chat_out-long}
use cpp_iocp_server.Business.Safety.Rules.{IsSafe, Safe}
use cpp_iocp_server.Business.Safety.Leaving.{leave_room-Post, client_exit-Safe, ban_user-Safe}
use cpp_iocp_server.Business.Safety.Requests.{IsAdmissible, call_func_pointer-Safe}
use cpp_iocp_server.Tests.Scene.{
  kim, kim_in_room, kim-IsSound, room, lobby, kim_waits, room_is_fresh, chat, chat-IsConsistent,
  kim_chats, room_is_there, host-HasTail, server, server-IsSafe, database-IsServing,
}

-- `\out`
abbrev out : Text
out = 92 ∷ 111 ∷ 117 ∷ 116 ∷ []

out_allowed : IsAdmissible (get_status 7 (server chat)) 0 out
unfolding get_status lookup insert
out_allowed = record { short = omega arith; not_file_send = λ e. omega arith }

call_func_pointer-Safe_example :
    Safe (call_func_pointer 7 (get_status 7 (server chat)) 0 out (server chat))
call_func_pointer-Safe_example =
    call_func_pointer-Safe 7 0 out (server chat) (server-IsSafe chat chat-IsConsistent) out_allowed

client_exit-Safe_example : Safe (client_exit 7 true (server chat))
client_exit-Safe_example =
    client_exit-Safe 7 true (server chat) (server-IsSafe chat chat-IsConsistent)

ban_user-Safe_example : Safe (ban_user kim.user_name (server chat))
ban_user-Safe_example =
    ban_user-Safe kim.user_name (server chat) (server-IsSafe chat chat-IsConsistent)

leave_room-Post_example :
    Post
      (λ _ s. IsSafe s × (lookup 7 s.user_map ≡ some (in_lobby kim_in_room)))
      (leave_room 7 kim_in_room.user_name (server chat))
leave_room-Post_example =
    leave_room-Post 7 (server chat) kim_in_room (7 ∷ []) (server-IsSafe chat chat-IsConsistent)
      kim_chats refl room_is_there

room_make-chat_out_example :
    (s' : State) × (((room_make 7 room >> chat_out 7 kim.user_name) (server lobby) ≡ returns tt s')
      × (((r : Text) → lookup r s'.room_map ≡ lookup r lobby.room_map)
          × ((j : Socket) → lookup j s'.user_map ≡ lookup j lobby.user_map)))
room_make-chat_out_example =
    room_make-chat_out 7 room kim (server lobby) kim-IsSound kim_waits room_is_fresh host-HasTail
      refl refl (omega arith)

-- A name of 20 bytes.
abbrev long_room : Text
long_room =
    65 ∷ 65 ∷ 65 ∷ 65 ∷ 65 ∷ 65 ∷ 65 ∷ 65 ∷ 65 ∷ 65 ∷ 65 ∷ 65 ∷ 65 ∷ 65 ∷ 65 ∷ 65 ∷ 65 ∷ 65 ∷ 65
    ∷ 65 ∷ []

long_is_fresh : lookup long_room lobby.room_map ≡ none
unfolding lookup
long_is_fresh = refl

room_make-chat_out-long_example :
    (room_make 7 long_room >> chat_out 7 kim.user_name) (server lobby) ≡ undefined
room_make-chat_out-long_example =
    room_make-chat_out-long 7 long_room kim (server lobby) kim-IsSound kim_waits long_is_fresh
      (omega arith)

-- The tables themselves.
leave-IsConsistent_example : IsConsistent (
    drop_if_empty kim_in_room.room_name
      (lookup kim_in_room.room_name
        (set_user 7
          (in_lobby kim_in_room)
          (set_room kim_in_room.room_name (remove (7 ∷ []) 7) chat)).room_map)
      (set_user 7 (in_lobby kim_in_room) (set_room kim_in_room.room_name (remove (7 ∷ []) 7) chat)))
leave-IsConsistent_example =
    leave-IsConsistent 7 (7 ∷ []) kim_in_room chat chat-IsConsistent kim_chats refl room_is_there

-- A request before the log-in, of two fields.
abbrev id_and_password : Text
id_and_password = 107 ∷ 92 ∷ 112 ∷ []

-- The send queue holds a reply to Kim and a message for the room.
abbrev to_kim : SendData
to_kim = record {
  msg = 72 ∷ 105 ∷ [];
  my_socket = some 7;
  room_name = [];
  direction = send_me;
  status = status_waiting;
}

abbrev to_room : SendData
to_room = record {
  msg = 72 ∷ [];
  my_socket = none;
  room_name = room;
  direction = send_room;
  status = status_chatting;
}

messages : All IsMessage (to_kim ∷ to_room ∷ [])
messages = (
  record { fits = omega arith; no_file = λ e. cc; has_socket = λ e f. cc },
  (record { fits = omega arith; no_file = λ e. cc; has_socket = λ e f. cc }, tt),
)

abbrev busy : State
busy = record (server chat) { send_queue = to_kim ∷ to_room ∷ [] }

sendwork-deliveries_example :
    sendwork busy
    ≡ returns tt
        (record busy { wire = [] ++ deliveries chat (to_kim ∷ to_room ∷ []); send_queue = [] })
sendwork-deliveries_example =
    sendwork-deliveries to_kim (to_room ∷ []) busy host-HasTail messages refl

-- The id is logged in already.
abbrev known : Tables
known = record lobby { id_set = (107 ∷ []) ∷ [] }

fields_are : tokens id_and_password ≡ (107 ∷ []) ∷ (112 ∷ []) ∷ []
unfolding tokens tokens_from end_field
fields_are = refl

is_known : contains known.id_set (107 ∷ []) ≡ true
unfolding contains text_beq
is_known = refl

user_enter-logged_in_example :
    Post (λ _ s. s.tables ≡ known) (user_enter 9 id_and_password (server known))
user_enter-logged_in_example =
    user_enter-logged_in 9 id_and_password (107 ∷ []) (112 ∷ []) (server known) database-IsServing
      (omega arith) fields_are is_known
