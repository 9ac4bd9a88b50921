-- ===== src/Threads/Handlers.antt =====
-- Accounts and rooms in BusinessService.cpp, cut at the locks `idCs`, `userCs`, `roomCs`, `listCs`,
-- `sendCs` and that of Dao, each of which is held for one section only.
use cpp_iocp_server.Prelude.{
  Bool, true, false, Option, none, some, List, [], ◌∷◌, ◌++◌, lookup, insert, contains, nat_eq,
  text_eq, ◌==◌, if◌then◌else◌,
}
use cpp_iocp_server.Text.{Text, utf8, strncpy}
use cpp_iocp_server.Outcome.{returns, M, continue, c_str, deref, gets}
use cpp_iocp_server.Common.{
  Socket, status_logout, status_waiting, status_chatting, send_room, name_size,
  login_before_message, wait_room_message, chat_room_message,
}
use cpp_iocp_server.Vo.{
  new_user_vo, copy_user_vo, set_user_id, set_nick_name, set_password, new_vo, new_log_vo,
}
use cpp_iocp_server.Dao.{select_user, insert_user, update_user, insert_login}
use cpp_iocp_server.State.{State, dao}
use cpp_iocp_server.Business.Basics.{
  session, room_of, id_of, set_session, change, insert_id, erase_id, erase_session,
  insert_send_queue, reply,
}
use cpp_iocp_server.Business.Account.{fields_of, session_at_login, with_vo_id}
use cpp_iocp_server.Business.Room.{
  in_room, in_lobby, add_room, push_member, say_goodbye, drop_empty_room,
}
use cpp_iocp_server.Threads.{Work, done, ◌>>=◌, ◌>>◌, last}

-- `string name = userMap.find(sock)->second.userName`, outside the lock
unfoldable pub own_name : Socket → M State Text
unfolding session
own_name sock s = continue (session sock s) (λ u. c_str name_size u.user_name)

-- `string id = userMap.find(sock)->second.userId`
unfoldable pub own_id : Socket → M State Text
unfolding session
own_id sock s = continue (session sock s) (λ u. c_str name_size u.user_id)

-- `userMap[sock] = userInfo`, under `userCs`
unfoldable pub put_session : Text → Socket → Text → M State Unit
put_session id sock nick_name =
    change (λ t. record t { user_map = insert sock (session_at_login id nick_name) t.user_map })

unfoldable pub greet_cut : Text → Socket → Text → Work
unfolding update_user insert_login utf8 wait_room_message reply
greet_cut id sock nick_name = do
  user_id ← c_str name_size (strncpy name_size id)
  user_name ← c_str name_size (strncpy name_size nick_name)
  let vo = record new_log_vo { vo = set_nick_name user_name (set_user_id user_id new_vo) }
  dao (update_user vo)
  dao (insert_login vo)
  last (reply sock (nick_name ++ utf8 "님 입장을 환영합니다!\n" ++ wait_room_message) status_waiting)

-- `InitUser`
unfoldable pub init_user_cut : Text → Socket → Text → Work
unfolding put_session greet_cut
init_user_cut id sock nick_name = do put_session id sock nick_name; greet_cut id sock nick_name

unfoldable pub make_account_cut : Socket → List Text → Work
unfolding select_user insert_user utf8 login_before_message reply
make_account_cut sock (id ∷ password ∷ nick_name ∷ rest) = do
  vo ← dao (select_user (with_vo_id id new_user_vo))
  if (copy_user_vo vo).user_id == []
      then (do
        dao (
            insert_user (record (set_password password (copy_user_vo vo)) {
              vo = set_nick_name nick_name (set_user_id id (copy_user_vo vo).vo);
            }))
        last (reply sock (id ++ utf8 "계정 생성 완료!\n" ++ login_before_message) status_logout))
      else last (reply sock (utf8 "중복된 아이디가 있습니다!\n" ++ login_before_message) status_logout)
make_account_cut sock _ = done

-- `UserMake`
unfoldable pub user_make_cut : Socket → Text → Work
unfolding fields_of make_account_cut
user_make_cut sock message = do fields ← fields_of 3 message; make_account_cut sock fields

-- Under `idCs`: whether the id is in `idSet`; if it is not, it is put there.
unfoldable pub claim_id : Text → M State Bool
claim_id id s =
    if contains s.id_set id
    then returns true s
    else returns false (record s { tables = insert_id id s.tables })

unfoldable pub enter_once_cut : Socket → Text → Text → Work
unfolding claim_id init_user_cut utf8 login_before_message reply
enter_once_cut sock id nick_name = do
  is_logged_in ← claim_id id
  if is_logged_in
      then last (reply sock (utf8 "중복 로그인은 안됩니다!\n" ++ login_before_message) status_logout)
      else init_user_cut id sock nick_name

unfoldable pub log_in_cut : Socket → List Text → Work
unfolding select_user enter_once_cut utf8 login_before_message reply
log_in_cut sock (id ∷ password ∷ rest) = do
  found ← dao (select_user (with_vo_id id new_user_vo))
  let vo = copy_user_vo found
  stored ← c_str 10 vo.password
  nick_name ← c_str 20 vo.nick_name
  if vo.user_id == []
      then last (reply sock (utf8 "없는 계정입니다 아이디를 확인하세요!\n" ++ login_before_message) status_logout)
      else if stored == password
      then enter_once_cut sock id nick_name
      else last (reply sock (utf8 "비밀번호 틀림!\n" ++ login_before_message) status_logout)
log_in_cut sock _ = done

-- `UserEnter`
unfoldable pub user_enter_cut : Socket → Text → Work
unfolding fields_of log_in_cut
user_enter_cut sock message = do fields ← fields_of 2 message; log_in_cut sock fields

-- Under `roomCs`: whether the name is taken; if it is not, the room is opened.
abbrev pub open_if_new : Text → Socket → Option (List Socket) → M State Bool
open_if_new room sock (some socks) s = returns true s
open_if_new room sock none s = returns false (record s { tables = add_room room sock s.tables })

unfoldable pub open_room : Text → Socket → M State Bool
open_room room sock s = open_if_new room sock (lookup room s.room_map) s

-- `RoomMake`
unfoldable pub room_make_cut : Socket → Text → Work
unfolding own_name own_id open_room set_session utf8 wait_room_message chat_room_message reply
room_make_cut sock msg = do
  own_name sock
  own_id sock
  is_taken ← open_room msg sock
  if is_taken
      then last (reply sock (msg ++ utf8 "이미 있는 방 이름입니다!\n" ++ wait_room_message) status_waiting)
      else (do
        set_session sock (in_room msg)
        last (reply sock (msg ++ utf8 " 방이 개설되었습니다." ++ chat_room_message) status_chatting))

-- `roomMap.find(room)->second->listCs`, outside the locks of the map
unfoldable pub list_lock : Text → M State (List Socket)
list_lock room s = deref (lookup room s.room_map) s

abbrev pub enter_found_cut : Socket → Text → Text → Option (List Socket) → Work
enter_found_cut sock name msg none =
    last (reply sock (msg ++ utf8 "없는 방 입니다!\n" ++ wait_room_message) status_waiting)
enter_found_cut sock name msg (some socks) = do
  set_session sock (in_room msg)
  list_lock msg
  push_member msg sock
  last (
      insert_send_queue send_room (name ++ utf8 " 님이 입장하셨습니다. " ++ chat_room_message) msg 0
        status_chatting)

-- `RoomEnter`
unfoldable pub room_enter_cut : Socket → Text → Work
unfolding own_name own_id set_session list_lock push_member utf8 wait_room_message chat_room_message
    reply insert_send_queue
room_enter_cut sock msg = do
  name ← own_name sock
  own_id sock
  found ← gets (λ s. lookup msg s.room_map)
  enter_found_cut sock name msg found

-- `\out` in `StatusChat`
unfoldable pub chat_out_cut : Socket → Text → Work
unfolding room_of list_lock say_goodbye set_session drop_empty_room wait_room_message reply
chat_out_cut sock name = do
  room ← room_of sock
  list_lock room
  say_goodbye sock name room
  reply sock wait_room_message status_waiting
  set_session sock in_lobby
  last (drop_empty_room room)

-- Under `idCs`: the session's id is taken off `idSet`.
unfoldable pub give_up_id : Socket → M State Unit
unfolding id_of
give_up_id sock s = continue (id_of sock s) (λ id. change (erase_id id))

-- `LOG_OUT` in `StatusWait`
unfoldable pub log_out_cut : Socket → Work
unfolding give_up_id login_before_message reply
log_out_cut sock = do
  give_up_id sock
  change (erase_session sock)
  last (reply sock login_before_message status_logout)
