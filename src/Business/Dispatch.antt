-- ===== src/Business/Dispatch.antt =====
-- `callFuncPointer` and the handlers for each status: which request is carried out when.
use cpp_iocp_server.Prelude.{
  Option, none, some, List, [], ◌∷◌, ◌++◌, lookup, ◌==◌, nat_eq, text_eq, if◌then◌else◌,
}
use cpp_iocp_server.Text.{Text, utf8, has_text}
use cpp_iocp_server.Outcome.{exits, M, pure, fault, ◌>>=◌, ◌>>◌}
use cpp_iocp_server.Common.{
  Socket, ClientStatus, status_logout, status_waiting, status_chatting, status_file_send,
  status_number, send_room, send_file, error_message, login_before_message, wait_room_message,
}
use cpp_iocp_server.Common.Directions
use cpp_iocp_server.Common.Directions.{Direction}
use cpp_iocp_server.Vo.{
  new_log_vo, new_vo, set_nick_name, set_msg, set_room_name, set_status, set_direction,
}
use cpp_iocp_server.Dao.{insert_direction, insert_chatting}
use cpp_iocp_server.FileService.{recv_file}
use cpp_iocp_server.State.{State, dao}
use cpp_iocp_server.Business.Basics.{
  name_of, id_of, room_of, set_session, change, erase_id, erase_session, insert_send_queue, reply,
}
use cpp_iocp_server.Business.Account.{user_make, user_enter}
use cpp_iocp_server.Business.Room.{in_lobby, room_make, room_enter, say_goodbye, drop_empty_room}
use cpp_iocp_server.Business.Info.{whisper, room_info, room_user_info}
use cpp_iocp_server.Business.Friend.{friend_info, friend_add, friend_go, friend_delete}

abbrev pub exit_process : M State Unit
exit_process s = exits

-- `StatusLogout`: before the login.
unfoldable pub status_logout_work : Socket → Direction → Text → M State Unit
unfolding user_make user_enter error_message login_before_message reply
status_logout_work sock direction message =
    if direction == Directions.user_make
    then user_make sock message
    else if direction == Directions.user_enter
    then user_enter sock message
    else if direction == Directions.exit
    then exit_process
    else reply sock (error_message ++ login_before_message) status_logout

-- `LOG_OUT`: the id and the session go.
unfoldable pub log_out : Socket → M State Unit
unfolding id_of login_before_message reply
log_out sock = do
  id ← id_of sock
  change (erase_id id)
  change (erase_session sock)
  reply sock login_before_message status_logout

-- The requests of the lobby, by their direction.
unfoldable pub wait_request : Socket → Direction → Text → M State Unit
unfolding room_make room_enter whisper room_info room_user_info friend_info friend_add friend_go
    friend_delete log_out error_message wait_room_message reply
wait_request sock direction message =
    if direction == Directions.room_make
    then room_make sock message
    else if direction == Directions.room_enter
    then room_enter sock message
    else if direction == Directions.whisper
    then whisper sock message
    else if direction == Directions.room_info
    then room_info sock
    else if direction == Directions.room_user_info
    then room_user_info sock
    else if direction == Directions.friend_info
    then friend_info sock
    else if direction == Directions.friend_add
    then friend_add sock message
    else if direction == Directions.friend_go
    then friend_go sock message
    else if direction == Directions.friend_delete
    then friend_delete sock message
    else if direction == Directions.log_out
    then log_out sock
    else if direction == Directions.user_good_info
    then pure tt
    else reply sock (error_message ++ wait_room_message) status_waiting

-- `InsertDirection` at the end of `StatusWait`.
unfoldable pub record_direction : Text → ClientStatus → Direction → Text → M State Unit
unfolding insert_direction
record_direction name status direction message = dao (
    insert_direction (
      set_status (status_number status) (
        set_direction direction
          (record (set_msg message new_log_vo) { vo = set_nick_name name new_vo }))))

-- `StatusWait`: in the lobby. Every request but -1 is recorded.
unfoldable pub status_wait_work : Socket → ClientStatus → Direction → Text → M State Unit
unfolding name_of wait_request record_direction
status_wait_work sock status direction message = do
  name ← name_of sock
  if direction == Directions.minus_one
      then pure tt
      else (do wait_request sock direction message; record_direction name status direction message)

-- `\out`: the room is left for the lobby.
unfoldable pub chat_out : Socket → Text → M State Unit
unfolding room_of say_goodbye set_session drop_empty_room wait_room_message reply
chat_out sock name = do
  room ← room_of sock
  say_goodbye sock name room
  reply sock wait_room_message status_waiting
  set_session sock in_lobby
  drop_empty_room room

unfoldable pub chat_file : Socket → Text → M State Unit
unfolding recv_file room_of insert_send_queue
chat_file sock name = do
  path ← recv_file sock name
  room ← room_of sock
  insert_send_queue send_room [] room 0 status_file_send
  insert_send_queue send_file path room 0 status_file_send

-- A message for the room, if the room is there.
abbrev pub tell_room : Text → Text → Option (List Socket) → M State Unit
tell_room room msg none = pure tt
tell_room room msg (some socks) = insert_send_queue send_room msg room 0 status_chatting

unfoldable pub chat_message : Socket → Text → Text → M State Unit
unfolding room_of insert_send_queue insert_chatting
chat_message sock name msg = do
  room ← room_of sock
  λ s. tell_room room (name ++ b':' ∷ msg) (lookup room s.room_map) s
  dao (
      insert_chatting
        (record (set_room_name room (set_msg msg new_log_vo)) { vo = set_nick_name name new_vo }))

-- `StatusChat`: in a room. `\add` does nothing.
unfoldable pub status_chat_work : Socket → Direction → Text → M State Unit
unfolding name_of chat_out chat_file chat_message utf8 has_text
status_chat_work sock direction msg = do
  name ← name_of sock
  if msg == utf8 "\\out"
      then chat_out sock name
      else if has_text (utf8 "\\add") msg
      then pure tt
      else if direction == Directions.user_good
      then pure tt
      else if direction == Directions.file_send
      then chat_file sock name
      else chat_message sock name msg

-- `callFuncPointer`: `func` has entries for three states; the others are not set.
unfoldable pub call_func_pointer : Socket → ClientStatus → Direction → Text → M State Unit
unfolding status_logout_work status_wait_work status_chat_work
call_func_pointer sock status_logout direction message = status_logout_work sock direction message
call_func_pointer sock status_waiting direction message =
    status_wait_work sock status_waiting direction message
call_func_pointer sock status_chatting direction message = status_chat_work sock direction message
call_func_pointer sock _ direction message = fault
