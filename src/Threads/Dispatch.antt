-- ===== src/Threads/Dispatch.antt =====
-- `StatusChat`, `callFuncPointer`, `ClientExit` and `BanUser`, cut at the locks. A file is received
-- in one section.
use cpp_iocp_server.Prelude.{
  Bool, true, false, Option, none, some, List, [], ◌∷◌, ◌++◌, lookup, erase, nat_eq, text_eq, ◌==◌,
  if◌then◌else◌,
}
use cpp_iocp_server.Text.{Text, utf8, has_text}
use cpp_iocp_server.Outcome.{M, fault, c_str, gets, modify, continue, returns}
use cpp_iocp_server.Common.{
  Socket, ClientStatus, status_logout, status_waiting, status_chatting, status_file_send,
  is_chatting, send_room, send_file, name_size,
}
use cpp_iocp_server.Common.Directions
use cpp_iocp_server.Common.Directions.{Direction}
use cpp_iocp_server.Vo.{new_log_vo, new_vo, set_nick_name, set_msg, set_room_name}
use cpp_iocp_server.Dao.{insert_chatting}
use cpp_iocp_server.FileService.{recv_file}
use cpp_iocp_server.State.{Session, State, dao}
use cpp_iocp_server.Business.Basics.{
  session, room_of, set_session, change, erase_id, erase_session, insert_send_queue, reply,
}
use cpp_iocp_server.Business.Room.{in_lobby, say_goodbye, drop_empty_room}
use cpp_iocp_server.Business.Info.{find_named}
use cpp_iocp_server.Threads.{Work, done, and_then, ◌>>=◌, ◌>>◌, last}
use cpp_iocp_server.Threads.Handlers.{own_name, own_id, list_lock, chat_out_cut}
use cpp_iocp_server.Threads.Requests.{status_logout_cut, status_wait_cut}

-- `FILE_SEND`
unfoldable pub chat_file_cut : Socket → Work
unfolding own_name recv_file room_of insert_send_queue
chat_file_cut sock = do
  name ← own_name sock
  path ← recv_file sock name
  room ← room_of sock
  insert_send_queue send_room [] room 0 status_file_send
  room ← room_of sock
  last (insert_send_queue send_file path room 0 status_file_send)

-- Under `userCs`: the name of the room, and the room if it is there.
unfoldable pub own_room : Socket → M State (Text × Option (List Socket))
unfolding room_of
own_room sock s = continue (room_of sock s) (λ room s'. returns (room, lookup room s'.room_map) s')

abbrev pub tell_room_cut : Socket → Text → Option (List Socket) → Work
tell_room_cut sock msg none = done
tell_room_cut sock msg (some socks) = do
  room ← room_of sock
  last (insert_send_queue send_room msg room 0 status_chatting)

-- A line for the room.
unfoldable pub chat_message_cut : Socket → Text → Text → Work
unfolding own_room insert_chatting room_of insert_send_queue and_then
chat_message_cut sock name msg = do
  found ← own_room sock
  and_then (tell_room_cut sock (name ++ b':' ∷ msg) found.1) (
      last (
        dao (
          insert_chatting (record (set_room_name found.0 (set_msg msg new_log_vo)) {
            vo = set_nick_name name new_vo;
          }))))

-- `StatusChat`
unfoldable pub status_chat_cut : Socket → Direction → Text → Work
unfolding own_name own_id chat_out_cut chat_file_cut chat_message_cut utf8 has_text
status_chat_cut sock direction msg = do
  name ← own_name sock
  own_id sock
  if msg == utf8 "\\out"
      then chat_out_cut sock name
      else if has_text (utf8 "\\add") msg
      then done
      else if direction == Directions.user_good
      then done
      else if direction == Directions.file_send
      then chat_file_cut sock
      else chat_message_cut sock name msg

-- `callFuncPointer`
unfoldable pub call_func_pointer_cut : Socket → ClientStatus → Direction → Text → Work
unfolding status_logout_cut status_wait_cut status_chat_cut
call_func_pointer_cut sock status_logout direction message =
    status_logout_cut sock direction message
call_func_pointer_cut sock status_waiting direction message =
    status_wait_cut sock status_waiting direction message
call_func_pointer_cut sock status_chatting direction message =
    status_chat_cut sock direction message
call_func_pointer_cut sock _ direction message = last fault

unfoldable pub leave_room_cut : Socket → Text → Work
unfolding room_of list_lock say_goodbye set_session drop_empty_room
leave_room_cut sock name = do
  room ← room_of sock
  list_lock room
  say_goodbye sock name room
  set_session sock in_lobby
  last (drop_empty_room room)

-- The session's arrays are copied before the locks are taken, its status is read after `idCs`.
unfoldable pub give_up_session_cut : Socket → Work
unfolding session leave_room_cut
give_up_session_cut sock = do
  u ← session sock
  id ← c_str name_size u.user_id
  change (erase_id id)
  now ← session sock
  if is_chatting now.status
      then (do name ← c_str name_size u.user_name; leave_room_cut sock name)
      else done

abbrev pub end_session_cut : Socket → Option Session → Work
end_session_cut sock none = done
end_session_cut sock (some u) =
    and_then (give_up_session_cut sock) (last (change (erase_session sock)))

-- `ClientExit`
unfoldable pub client_exit_cut : Socket → Bool → Work
unfolding give_up_session_cut and_then
client_exit_cut sock false = done
client_exit_cut sock true = do
  modify (λ s. record s { live_socket = erase sock s.live_socket })
  found ← gets (λ s. lookup sock s.user_map)
  end_session_cut sock found

abbrev pub ban_found_cut : Option (Socket × Session) → Work
ban_found_cut none = done
ban_found_cut (some (sock, _)) =
    and_then (give_up_session_cut sock)
      (do reply sock (utf8 "당신은 관리자에의해 강퇴되었습니다") status_logout; last (change (erase_session sock)))

-- `BanUser`
unfoldable pub ban_user_cut : Text → Work
unfolding find_named give_up_session_cut and_then utf8 reply
ban_user_cut nick_name = do found ← gets (λ s. find_named nick_name s.user_map); ban_found_cut found
