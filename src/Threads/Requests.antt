-- ===== src/Threads/Requests.antt =====
-- The requests of the lobby in BusinessService.cpp, and those before the log-in, cut at the locks.
-- The sizes of the rooms are read with the copy of the map.
use cpp_iocp_server.Prelude.{
  Bool, true, false, Option, none, some, List, [], ◌∷◌, ◌++◌, lookup, nat_eq, text_eq, ◌==◌,
  if◌then◌else◌,
}
use cpp_iocp_server.Text.{Text, utf8}
use cpp_iocp_server.Outcome.{M, c_str, deref, gets, continue}
use cpp_iocp_server.Common.{
  Socket, ClientStatus, status_logout, status_waiting, status_chatting, status_whisper, send_room,
  name_size, error_message, login_before_message, wait_room_message, chat_room_message,
}
use cpp_iocp_server.Common.Directions
use cpp_iocp_server.Common.Directions.{Direction}
use cpp_iocp_server.Odbc.{is_not_error}
use cpp_iocp_server.Vo.{
  RelationVo, new_relation_vo, set_relationto, set_relationcode, set_user_id, set_nick_name, new_vo,
}
use cpp_iocp_server.Dao.{
  select_friends, find_user_id, insert_relation, select_one_friend, delete_relation,
}
use cpp_iocp_server.State.{Session, State, dao}
use cpp_iocp_server.Business.Basics.{name_of, set_session, insert_send_queue, reply}
use cpp_iocp_server.Business.Account.{fields_of}
use cpp_iocp_server.Business.Room.{in_room, push_member}
use cpp_iocp_server.Business.Info.{room_lines, user_lines, find_named}
use cpp_iocp_server.Business.Friend.{friend_lines}
use cpp_iocp_server.Business.Dispatch.{exit_process, record_direction}
use cpp_iocp_server.Threads.{Work, done, and_then, ◌>>=◌, ◌>>◌, last}
use cpp_iocp_server.Threads.Handlers.{
  own_name, own_id, list_lock, user_make_cut, user_enter_cut, room_make_cut, room_enter_cut,
  log_out_cut,
}

abbrev pub has_no_room : List (Text × List Socket) → Bool
has_no_room [] = true
has_no_room (room ∷ rooms) = false

-- `RoomInfo`
unfoldable pub room_info_cut : Socket → Work
unfolding own_name own_id room_lines utf8 reply
room_info_cut sock = do
  own_name sock
  own_id sock
  no_room ← gets (λ s. has_no_room s.room_map)
  if no_room then last (reply sock (utf8 "만들어진 방이 없습니다") status_waiting) else (do
    rooms ← gets (λ s. s.room_map)
    last (reply sock (utf8 "방 정보 리스트" ++ room_lines rooms) status_waiting))

-- `RoomUserInfo`
unfoldable pub room_user_info_cut : Socket → Work
unfolding own_name own_id user_lines utf8 reply
room_user_info_cut sock = do
  own_name sock
  own_id sock
  users ← gets (λ s. s.user_map)
  str ← user_lines (utf8 "유저 정보 리스트") users
  last (reply sock str status_waiting)

-- `userCopyMap.find(sock)->second.userName`
unfoldable pub copied_name : Socket → List (Socket × Session) → M State Text
copied_name sock users s = continue (deref (lookup sock users) s) (λ u. c_str name_size u.user_name)

abbrev pub whisper_to_cut :
    Socket → Text → Text → List (Socket × Session) → Option (Socket × Session) → Work
whisper_to_cut sock name msg users none =
    last (reply sock (name ++ utf8 " 님을 찾을 수 없습니다") status_waiting)
whisper_to_cut sock name msg users (some (other, u)) = do
  own ← copied_name sock users
  last (reply other (own ++ utf8 " 님에게 온 귓속말 : " ++ msg) status_whisper)

abbrev pub whisper_fields_cut : Socket → List Text → Work
whisper_fields_cut sock (name ∷ msg ∷ rest) = do
  own ← own_name sock
  if name == own
      then last (reply sock (utf8 "자신에게 쪽지를 보낼수 없습니다\n" ++ wait_room_message) status_waiting)
      else (do
        users ← gets (λ s. s.user_map)
        whisper_to_cut sock name msg users (find_named name users))
whisper_fields_cut sock _ = done

-- `Whisper`
unfoldable pub whisper_cut : Socket → Text → Work
unfolding own_name own_id copied_name fields_of find_named utf8 wait_room_message reply
whisper_cut sock message = do
  own_name sock
  own_id sock
  fields ← fields_of 2 message
  whisper_fields_cut sock fields

abbrev pub friend_list_cut : Socket → List RelationVo → Work
friend_list_cut sock [] =
    last (reply sock (utf8 "친구 정보 리스트" ++ utf8 "\n등록된 친구가 없습니다") status_waiting)
friend_list_cut sock (vo ∷ vec) = do
  users ← gets (λ s. s.user_map)
  lines ← friend_lines users (vo ∷ vec)
  last (reply sock (utf8 "친구 정보 리스트" ++ lines) status_waiting)

-- `FriendInfo`
unfoldable pub friend_info_cut : Socket → Work
unfolding own_name own_id select_friends friend_lines utf8 reply
friend_info_cut sock = do
  own_name sock
  id ← own_id sock
  vec ← dao (select_friends (record new_relation_vo { vo = set_user_id id new_vo }))
  friend_list_cut sock vec

-- `FriendAdd`
unfoldable pub friend_add_cut : Socket → Text → Work
unfolding own_name own_id find_user_id insert_relation utf8 reply
friend_add_cut sock msg = do
  own_name sock
  id ← own_id sock
  vo2 ← dao (find_user_id (record new_relation_vo { vo = set_nick_name msg new_vo }))
  if vo2.relationto == [] then last (reply sock (utf8 "아이디 없음 친추 불가능") status_waiting) else (do
    res ← dao (insert_relation (set_relationcode 1 (record vo2 { vo = set_user_id id vo2.vo })))
    if is_not_error res
        then last (reply sock (msg ++ utf8 "님이 친구추가 되었습니다") status_waiting)
        else last (reply sock (msg ++ utf8 "님이 친구추가 실패") status_waiting))

-- Under `userCs`: the session goes to the room, and its name is read.
unfoldable pub enter_named : Socket → Text → M State Text
unfolding set_session name_of
enter_named sock room s = continue (set_session sock (in_room room) s) (λ _. name_of sock)

abbrev pub go_to_room_cut : Socket → Text → Text → Option (List Socket) → Work
go_to_room_cut sock msg room none = done
go_to_room_cut sock msg room (some socks) = do
  nick ← enter_named sock room
  list_lock msg
  push_member room sock
  last (
      insert_send_queue send_room (nick ++ utf8 " 님이 입장하셨습니다. " ++ chat_room_message) room 0
        status_chatting)

abbrev pub go_to_cut : Socket → Text → Option (Socket × Session) → Work
go_to_cut sock msg none = last (reply sock (msg ++ utf8 " 님은 접속중이 아닙니다") status_waiting)
go_to_cut sock msg (some (other, u)) = do
  room ← c_str name_size u.room_name
  if room == []
      then last (reply sock (msg ++ utf8 " 님은 대기실에 있습니다") status_waiting)
      else (do found ← gets (λ s. lookup room s.room_map); go_to_room_cut sock msg room found)

-- `FriendGo`
unfoldable pub friend_go_cut : Socket → Text → Work
unfolding own_name own_id enter_named list_lock push_member select_one_friend find_named utf8
    wait_room_message chat_room_message insert_send_queue reply
friend_go_cut sock msg = do
  own_name sock
  id ← own_id sock
  vo2 ← dao (
      select_one_friend
        (record (set_relationto msg new_relation_vo) { vo = set_user_id id new_vo }))
  nick_name ← c_str 20 vo2.nick_name
  if nick_name == []
      then last (reply sock (utf8 "친구정보를 찾을 수 없습니다\n" ++ wait_room_message) status_waiting)
      else (do found ← gets (λ s. find_named nick_name s.user_map); go_to_cut sock msg found)

-- `FriendDelete`
unfoldable pub friend_delete_cut : Socket → Text → Work
unfolding own_name own_id delete_relation utf8 wait_room_message reply
friend_delete_cut sock msg = do
  own_name sock
  id ← own_id sock
  res ← dao (
      delete_relation (
        set_relationcode 1
          (record new_relation_vo { vo = set_nick_name msg (set_user_id id new_vo) })))
  if is_not_error res
      then last (reply sock (msg ++ utf8 " 님을 친구 삭제했습니다") status_waiting)
      else last (reply sock (utf8 "친구 삭제실패\n" ++ wait_room_message) status_waiting)

-- `StatusLogout`
unfoldable pub status_logout_cut : Socket → Direction → Text → Work
unfolding user_make_cut user_enter_cut error_message login_before_message reply
status_logout_cut sock direction message =
    if direction == Directions.user_make
    then user_make_cut sock message
    else if direction == Directions.user_enter
    then user_enter_cut sock message
    else if direction == Directions.exit
    then last exit_process
    else last (reply sock (error_message ++ login_before_message) status_logout)

unfoldable pub wait_request_cut : Socket → Direction → Text → Work
unfolding room_make_cut room_enter_cut whisper_cut room_info_cut room_user_info_cut friend_info_cut
    friend_add_cut friend_go_cut friend_delete_cut log_out_cut error_message wait_room_message reply
wait_request_cut sock direction message =
    if direction == Directions.room_make
    then room_make_cut sock message
    else if direction == Directions.room_enter
    then room_enter_cut sock message
    else if direction == Directions.whisper
    then whisper_cut sock message
    else if direction == Directions.room_info
    then room_info_cut sock
    else if direction == Directions.room_user_info
    then room_user_info_cut sock
    else if direction == Directions.friend_info
    then friend_info_cut sock
    else if direction == Directions.friend_add
    then friend_add_cut sock message
    else if direction == Directions.friend_go
    then friend_go_cut sock message
    else if direction == Directions.friend_delete
    then friend_delete_cut sock message
    else if direction == Directions.log_out
    then log_out_cut sock
    else if direction == Directions.user_good_info
    then done
    else last (reply sock (error_message ++ wait_room_message) status_waiting)

-- `StatusWait`
unfoldable pub status_wait_cut : Socket → ClientStatus → Direction → Text → Work
unfolding own_name own_id wait_request_cut record_direction and_then
status_wait_cut sock status direction message = do
  name ← own_name sock
  own_id sock
  if direction == Directions.minus_one
      then done
      else and_then (wait_request_cut sock direction message)
          (last (record_direction name status direction message))
