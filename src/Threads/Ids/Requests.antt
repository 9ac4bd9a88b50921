-- ===== src/Threads/Ids/Requests.antt =====
-- Requests that give no id up, each with no claim of its own.
use cpp_iocp_server.Prelude.{
  ◌<◌, ◌≡◌, Bool, false, Option, none, some, List, [], ◌∷◌, ◌==◌, nat_eq, text_eq, length,
  if◌then◌else◌,
}
use cpp_iocp_server.Text.{Text}
use cpp_iocp_server.Common.{
  Socket, ClientStatus, status_logout, status_waiting, status_chatting, status_init, status_whisper,
  status_file_send, status_max,
}
use cpp_iocp_server.Common.Directions
use cpp_iocp_server.Common.Directions.{Direction}
use cpp_iocp_server.Vo.{RelationVo}
use cpp_iocp_server.State.{Session}
use cpp_iocp_server.Threads.{Work}
use cpp_iocp_server.Threads.Handlers.{room_make_cut, enter_found_cut, room_enter_cut, chat_out_cut}
use cpp_iocp_server.Threads.Requests.{
  room_info_cut, room_user_info_cut, whisper_to_cut, whisper_fields_cut, whisper_cut,
  friend_list_cut, friend_info_cut, friend_add_cut, go_to_room_cut, go_to_cut, friend_go_cut,
  friend_delete_cut, status_logout_cut, wait_request_cut, status_wait_cut,
}
use cpp_iocp_server.Threads.Dispatch.{
  chat_file_cut, tell_room_cut, chat_message_cut, status_chat_cut, call_func_pointer_cut,
}
use cpp_iocp_server.Threads.Ids.Keeps.{
  gets-Keeps, fault-Keeps, exit_process-Keeps, own_name-Keeps, own_id-Keeps, room_of-Keeps,
  copied_name-Keeps, list_lock-Keeps, own_room-Keeps, user_lines-Keeps, friend_lines-Keeps,
}
use cpp_iocp_server.Threads.Ids.Keeps.Changes.{
  insert_send_queue-Keeps, push_member-Keeps, say_goodbye-Keeps, drop_empty_room-Keeps,
  open_room-Keeps, in_room-Keeps, in_lobby-Keeps, enter_named-Keeps, recv_file-Keeps,
}
use cpp_iocp_server.Threads.Ids.Neutral.{
  IsNeutral, neutral, done-IsNeutral, last-IsNeutral, and_then-IsNeutral,
}
use cpp_iocp_server.Threads.Ids.Accounts.{user_make-IsNeutral, user_enter-IsNeutral}

-- What the sections of a room, a chat or a query keep.
ruleset room_rules = (
  neutral, gets-Keeps, own_name-Keeps, own_id-Keeps, room_of-Keeps, list_lock-Keeps,
  insert_send_queue-Keeps, push_member-Keeps, say_goodbye-Keeps, drop_empty_room-Keeps,
  open_room-Keeps, in_room-Keeps, in_lobby-Keeps,
)

room_make-IsNeutral : (x : Text) (sock : Socket) (msg : Text) → IsNeutral x (room_make_cut sock msg)
unfolding room_make_cut
room_make-IsNeutral x sock msg = search room_rules depth 30

enter_found-IsNeutral :
    (x : Text) (sock : Socket) (name msg : Text) (found : Option (List Socket))
    → IsNeutral x (enter_found_cut sock name msg found)
enter_found-IsNeutral x sock name msg none = search room_rules depth 30
enter_found-IsNeutral x sock name msg (some socks) = search room_rules depth 30

room_enter-IsNeutral :
    (x : Text) (sock : Socket) (msg : Text) → IsNeutral x (room_enter_cut sock msg)
unfolding room_enter_cut
room_enter-IsNeutral x sock msg = search (room_rules, enter_found-IsNeutral) depth 30

chat_out-IsNeutral : (x : Text) (sock : Socket) (name : Text) → IsNeutral x (chat_out_cut sock name)
unfolding chat_out_cut
chat_out-IsNeutral x sock name = search room_rules depth 30

room_info-IsNeutral : (x : Text) (sock : Socket) → IsNeutral x (room_info_cut sock)
unfolding room_info_cut
room_info-IsNeutral x sock = search room_rules depth 30

room_user_info-IsNeutral : (x : Text) (sock : Socket) → IsNeutral x (room_user_info_cut sock)
unfolding room_user_info_cut
room_user_info-IsNeutral x sock = search (room_rules, user_lines-Keeps) depth 30

whisper_to-IsNeutral :
    (x : Text) (sock : Socket) (name msg : Text) (users : List (Socket × Session))
    (found : Option (Socket × Session))
    → IsNeutral x (whisper_to_cut sock name msg users found)
whisper_to-IsNeutral x sock name msg users none = search room_rules depth 30
whisper_to-IsNeutral x sock name msg users (some (other, u)) =
    search (room_rules, copied_name-Keeps) depth 30

whisper_fields-IsNeutral :
    (x : Text) (sock : Socket) (fields : List Text) → IsNeutral x (whisper_fields_cut sock fields)
whisper_fields-IsNeutral x sock [] = done-IsNeutral x
whisper_fields-IsNeutral x sock (a ∷ []) = done-IsNeutral x
whisper_fields-IsNeutral x sock (name ∷ msg ∷ rest) =
    search (room_rules, whisper_to-IsNeutral) depth 30

whisper-IsNeutral :
    (x : Text) (sock : Socket) (message : Text) → IsNeutral x (whisper_cut sock message)
unfolding whisper_cut
whisper-IsNeutral x sock message = search (room_rules, whisper_fields-IsNeutral) depth 30

friend_list-IsNeutral :
    (x : Text) (sock : Socket) (vec : List RelationVo) → IsNeutral x (friend_list_cut sock vec)
friend_list-IsNeutral x sock [] = search room_rules depth 30
friend_list-IsNeutral x sock (vo ∷ vec) = search (room_rules, friend_lines-Keeps) depth 30

friend_info-IsNeutral : (x : Text) (sock : Socket) → IsNeutral x (friend_info_cut sock)
unfolding friend_info_cut
friend_info-IsNeutral x sock = search (room_rules, friend_list-IsNeutral) depth 30

friend_add-IsNeutral :
    (x : Text) (sock : Socket) (msg : Text) → IsNeutral x (friend_add_cut sock msg)
unfolding friend_add_cut
friend_add-IsNeutral x sock msg = search room_rules depth 30

go_to_room-IsNeutral :
    (x : Text) (sock : Socket) (msg room : Text) (found : Option (List Socket))
    → IsNeutral x (go_to_room_cut sock msg room found)
go_to_room-IsNeutral x sock msg room none = done-IsNeutral x
go_to_room-IsNeutral x sock msg room (some socks) = search (room_rules, enter_named-Keeps) depth 30

go_to-IsNeutral :
    (x : Text) (sock : Socket) (msg : Text) (found : Option (Socket × Session))
    → IsNeutral x (go_to_cut sock msg found)
go_to-IsNeutral x sock msg none = search room_rules depth 30
go_to-IsNeutral x sock msg (some (other, u)) = search (room_rules, go_to_room-IsNeutral) depth 30

friend_go-IsNeutral : (x : Text) (sock : Socket) (msg : Text) → IsNeutral x (friend_go_cut sock msg)
unfolding friend_go_cut
friend_go-IsNeutral x sock msg = search (room_rules, go_to-IsNeutral) depth 30

friend_delete-IsNeutral :
    (x : Text) (sock : Socket) (msg : Text) → IsNeutral x (friend_delete_cut sock msg)
unfolding friend_delete_cut
friend_delete-IsNeutral x sock msg = search room_rules depth 30

status_logout-IsNeutral :
    (x : Text) (sock : Socket) (direction : Direction) (message : Text)
    → length x < 20
    → IsNeutral x (status_logout_cut sock direction message)
unfolding status_logout_cut
status_logout-IsNeutral x sock direction message short =
    search (neutral, exit_process-Keeps, user_make-IsNeutral, user_enter-IsNeutral) depth 30

-- What is not asked for does not count.
pub kept_from-IsNeutral :
    (x : Text) (b : Bool) (v w : Work)
    → b ≡ false
    → IsNeutral x w
    → IsNeutral x (if b then v else w)
kept_from-IsNeutral x b v w e h = rw e h

ruleset wait_rules = (
  neutral, room_make-IsNeutral, room_enter-IsNeutral, room_info-IsNeutral, room_user_info-IsNeutral,
  whisper-IsNeutral, friend_info-IsNeutral, friend_add-IsNeutral, friend_go-IsNeutral,
  friend_delete-IsNeutral,
)

wait_request-IsNeutral :
    (x : Text) (sock : Socket) (direction : Direction) (message : Text)
    → (direction == Directions.log_out) ≡ false
    → IsNeutral x (wait_request_cut sock direction message)
unfolding wait_request_cut
wait_request-IsNeutral x sock direction message stays =
    search (wait_rules, kept_from-IsNeutral) depth 30

status_wait-IsNeutral :
    (x : Text) (sock : Socket) (status : ClientStatus) (direction : Direction) (message : Text)
    → (direction == Directions.log_out) ≡ false
    → IsNeutral x (status_wait_cut sock status direction message)
unfolding status_wait_cut
status_wait-IsNeutral x sock status direction message stays =
    search (room_rules, and_then-IsNeutral, wait_request-IsNeutral) depth 30

chat_file-IsNeutral : (x : Text) (sock : Socket) → IsNeutral x (chat_file_cut sock)
unfolding chat_file_cut
chat_file-IsNeutral x sock = search (room_rules, recv_file-Keeps) depth 30

tell_room-IsNeutral :
    (x : Text) (sock : Socket) (msg : Text) (found : Option (List Socket))
    → IsNeutral x (tell_room_cut sock msg found)
tell_room-IsNeutral x sock msg none = done-IsNeutral x
tell_room-IsNeutral x sock msg (some socks) = search room_rules depth 30

chat_message-IsNeutral :
    (x : Text) (sock : Socket) (name msg : Text) → IsNeutral x (chat_message_cut sock name msg)
unfolding chat_message_cut
chat_message-IsNeutral x sock name msg =
    search (room_rules, own_room-Keeps, and_then-IsNeutral, tell_room-IsNeutral) depth 30

status_chat-IsNeutral :
    (x : Text) (sock : Socket) (direction : Direction) (msg : Text)
    → IsNeutral x (status_chat_cut sock direction msg)
unfolding status_chat_cut
status_chat-IsNeutral x sock direction msg =
    search (room_rules, chat_out-IsNeutral, chat_file-IsNeutral, chat_message-IsNeutral) depth 30

pub call_func_pointer-IsNeutral :
    (x : Text) (sock : Socket) (status : ClientStatus) (direction : Direction) (message : Text)
    → length x < 20
    → (direction == Directions.log_out) ≡ false
    → IsNeutral x (call_func_pointer_cut sock status direction message)
unfolding call_func_pointer_cut
call_func_pointer-IsNeutral x sock status_logout direction message short stays =
    status_logout-IsNeutral x sock direction message short
call_func_pointer-IsNeutral x sock status_waiting direction message short stays =
    status_wait-IsNeutral x sock status_waiting direction message stays
call_func_pointer-IsNeutral x sock status_chatting direction message short stays =
    status_chat-IsNeutral x sock direction message
call_func_pointer-IsNeutral x sock status_init direction message short stays =
    last-IsNeutral x _ (fault-Keeps Unit)
call_func_pointer-IsNeutral x sock status_whisper direction message short stays =
    last-IsNeutral x _ (fault-Keeps Unit)
call_func_pointer-IsNeutral x sock status_file_send direction message short stays =
    last-IsNeutral x _ (fault-Keeps Unit)
call_func_pointer-IsNeutral x sock status_max direction message short stays =
    last-IsNeutral x _ (fault-Keeps Unit)
