-- ===== src/Business/Friend.antt =====
-- Friends: `FriendInfo`, `FriendAdd`, `FriendGo` and `FriendDelete`.
pub mod Going
use cpp_iocp_server.Prelude.{
  Option, none, some, List, [], ◌∷◌, ◌++◌, lookup, ◌==◌, nat_eq, text_eq, if◌then◌else◌,
}
use cpp_iocp_server.Text.{Text, utf8}
use cpp_iocp_server.Outcome.{M, pure, deref, gets, c_str, ◌>>=◌, ◌>>◌}
use cpp_iocp_server.Common.{
  Socket, status_waiting, status_chatting, send_room, name_size, wait_room_message,
  chat_room_message,
}
use cpp_iocp_server.Odbc.{is_not_error}
use cpp_iocp_server.Vo.{
  RelationVo, new_relation_vo, set_relationto, set_relationcode, set_user_id, set_nick_name, new_vo,
}
use cpp_iocp_server.Dao.{
  select_friends, find_user_id, insert_relation, select_one_friend, delete_relation,
}
use cpp_iocp_server.State.{Session, State, dao}
use cpp_iocp_server.Business.Basics.{name_of, id_of, set_session, insert_send_queue, reply}
use cpp_iocp_server.Business.Room.{in_room, push_member}
use cpp_iocp_server.Business.Info.{find_named}

-- Where a friend is: an empty room name is the lobby.
abbrev pub friend_place : Option (Socket × Session) → M State Text
friend_place none = pure (utf8 "접속안함")
friend_place (some (other, u)) = do
  room ← c_str name_size u.room_name
  pure (if room == [] then utf8 "대기실" else room)

unfoldable pub friend_lines : List (Socket × Session) → List RelationVo → M State Text
unfolding find_named utf8
friend_lines users [] = pure []
friend_lines users (vo ∷ vec) = do
  nick_name ← c_str 20 vo.nick_name
  place ← friend_place (find_named nick_name users)
  rest ← friend_lines users vec
  pure (utf8 "\n" ++ nick_name ++ utf8 ":" ++ place ++ rest)

abbrev pub friend_list : List (Socket × Session) → List RelationVo → M State Text
friend_list users [] = pure (utf8 "\n등록된 친구가 없습니다")
friend_list users (vo ∷ vec) = friend_lines users (vo ∷ vec)

unfoldable pub friend_info : Socket → M State Unit
unfolding id_of select_friends friend_lines utf8 reply
friend_info sock = do
  id ← id_of sock
  vec ← dao (select_friends (record new_relation_vo { vo = set_user_id id new_vo }))
  users ← gets (λ s. s.user_map)
  lines ← friend_list users vec
  reply sock (utf8 "친구 정보 리스트" ++ lines) status_waiting

unfoldable pub friend_add : Socket → Text → M State Unit
unfolding id_of find_user_id insert_relation utf8 reply
friend_add sock msg = do
  id ← id_of sock
  vo2 ← dao (find_user_id (record new_relation_vo { vo = set_nick_name msg new_vo }))
  if vo2.relationto == [] then reply sock (utf8 "아이디 없음 친추 불가능") status_waiting else (do
    res ← dao (insert_relation (set_relationcode 1 (record vo2 { vo = set_user_id id vo2.vo })))
    if is_not_error res
        then reply sock (msg ++ utf8 "님이 친구추가 되었습니다") status_waiting
        else reply sock (msg ++ utf8 "님이 친구추가 실패") status_waiting)

-- The friend's room is entered if it is alive. The lock is taken of the room named `msg`, which is
-- the friend's nickname: an end iterator is read if there is no such room.
abbrev pub go_to_room : Socket → Text → Text → Option (List Socket) → M State Unit
go_to_room sock msg room none = pure tt
go_to_room sock msg room (some socks) = do
  set_session sock (in_room room)
  nick ← name_of sock
  lock_of ← gets (λ s. lookup msg s.room_map)
  deref lock_of
  push_member room sock
  insert_send_queue send_room (nick ++ utf8 " 님이 입장하셨습니다. " ++ chat_room_message) room 0
      status_chatting

abbrev pub go_to : Socket → Text → Option (Socket × Session) → M State Unit
go_to sock msg none = reply sock (msg ++ utf8 " 님은 접속중이 아닙니다") status_waiting
go_to sock msg (some (other, u)) = do
  room ← c_str name_size u.room_name
  if room == []
      then reply sock (msg ++ utf8 " 님은 대기실에 있습니다") status_waiting
      else (λ s. go_to_room sock msg room (lookup room s.room_map) s)

unfoldable pub friend_go : Socket → Text → M State Unit
unfolding name_of id_of set_session push_member select_one_friend find_named utf8 wait_room_message
    chat_room_message insert_send_queue reply
friend_go sock msg = do
  id ← id_of sock
  vo2 ← dao (
      select_one_friend
        (record (set_relationto msg new_relation_vo) { vo = set_user_id id new_vo }))
  nick_name ← c_str 20 vo2.nick_name
  if nick_name == []
      then reply sock (utf8 "친구정보를 찾을 수 없습니다\n" ++ wait_room_message) status_waiting
      else (λ s. go_to sock msg (find_named nick_name s.user_map) s)

unfoldable pub friend_delete : Socket → Text → M State Unit
unfolding id_of delete_relation utf8 wait_room_message reply
friend_delete sock msg = do
  id ← id_of sock
  res ← dao (
      delete_relation (
        set_relationcode 1
          (record new_relation_vo { vo = set_nick_name msg (set_user_id id new_vo) })))
  if is_not_error res
      then reply sock (msg ++ utf8 " 님을 친구 삭제했습니다") status_waiting
      else reply sock (utf8 "친구 삭제실패\n" ++ wait_room_message) status_waiting
