-- ===== src/Business/Account.antt =====
-- Accounts and sessions: `UserMake`, `UserEnter`, `InitUser`, `GetStatus`, `CallCnt`.
use cpp_iocp_server.Prelude.{
  ℕ, ◌-◌, ◌^◌, Option, none, some, List, [], ◌∷◌, ◌++◌, lookup, insert, contains, ltb, leb, length,
  nat_eq, text_eq, ◌==◌, if◌then◌else◌,
}
use cpp_iocp_server.Text.{Text, utf8, strncpy}
use cpp_iocp_server.Text.Tokens.{tokens}
use cpp_iocp_server.Text.Decimal.{decimal}
use cpp_iocp_server.Outcome.{M, pure, fault, c_str, gets, ◌>>=◌, ◌>>◌}
use cpp_iocp_server.Common.{
  Socket, ClientStatus, status_init, status_logout, status_waiting, buf_size, name_size,
  login_before_message, wait_room_message,
}
use cpp_iocp_server.Vo.{
  new_user_vo, UserVo, copy_user_vo, set_user_id, set_nick_name, set_password, new_vo, new_log_vo,
}
use cpp_iocp_server.Dao.{select_user, insert_user, update_user, insert_login}
use cpp_iocp_server.State.{Session, State, dao}
use cpp_iocp_server.Business.Basics.{change, insert_id, reply}

-- The fields of a request, cut by `strtok` out of a copy in `char message2[BUF_SIZE]`. They go to an
-- array of `n` pointers; one field more is written past its end.
unfoldable pub fields_of : ℕ → Text → M State (List Text)
unfolding tokens
fields_of n message = do
  message2 ← c_str buf_size (strncpy buf_size message)
  let fields = tokens message2
  if leb (length fields) n then pure fields else fault

-- `GetStatus`: no session means that the client has not logged in.
abbrev pub status_in : Option Session → ClientStatus
status_in none = status_logout
status_in (some u) = u.status

unfoldable pub get_status : Socket → State → ClientStatus
get_status sock s = status_in (lookup sock s.user_map)

abbrev pub session_at_login : Text → Text → Session
session_at_login id nick_name = record {
  user_name = strncpy name_size nick_name;
  room_name = [];
  user_id = strncpy name_size id;
  status = status_waiting;
}

unfoldable pub init_user : Text → Socket → Text → M State Unit
unfolding update_user insert_login utf8 wait_room_message reply
init_user id sock nick_name = do
  change (λ t. record t { user_map = insert sock (session_at_login id nick_name) t.user_map })
  user_id ← c_str name_size (strncpy name_size id)
  user_name ← c_str name_size (strncpy name_size nick_name)
  let vo = record new_log_vo { vo = set_nick_name user_name (set_user_id user_id new_vo) }
  dao (update_user vo)
  dao (insert_login vo)
  reply sock (nick_name ++ utf8 "님 입장을 환영합니다!\n" ++ wait_room_message) status_waiting

abbrev pub with_vo_id : Text → UserVo → UserVo
with_vo_id id v = record v { vo = set_user_id id v.vo }

-- A new account, unless the id is taken. Fewer than three fields: nothing happens.
unfoldable pub make_account : Socket → List Text → M State Unit
unfolding select_user insert_user utf8 login_before_message reply
make_account sock (id ∷ password ∷ nick_name ∷ rest) = do
  vo ← dao (select_user (with_vo_id id new_user_vo))
  if (copy_user_vo vo).user_id == []
      then (do
        dao (
            insert_user (record (set_password password (copy_user_vo vo)) {
              vo = set_nick_name nick_name (set_user_id id (copy_user_vo vo).vo);
            }))
        reply sock (id ++ utf8 "계정 생성 완료!\n" ++ login_before_message) status_logout)
      else reply sock (utf8 "중복된 아이디가 있습니다!\n" ++ login_before_message) status_logout
make_account sock _ = pure tt

unfoldable pub user_make : Socket → Text → M State Unit
unfolding fields_of make_account
user_make sock message = do fields ← fields_of 3 message; make_account sock fields

-- The id is put into `idSet` as the client wrote it, unless it is there.
unfoldable pub enter_once : Socket → Text → Text → M State Unit
unfolding init_user utf8 login_before_message reply
enter_once sock id nick_name = do
  is_logged_in ← gets (λ s. contains s.id_set id)
  if is_logged_in
      then reply sock (utf8 "중복 로그인은 안됩니다!\n" ++ login_before_message) status_logout
      else (do change (insert_id id); init_user id sock nick_name)

unfoldable pub log_in : Socket → List Text → M State Unit
unfolding select_user enter_once utf8 login_before_message reply
log_in sock (id ∷ password ∷ rest) = do
  found ← dao (select_user (with_vo_id id new_user_vo))
  let vo = copy_user_vo found
  stored ← c_str 10 vo.password
  nick_name ← c_str 20 vo.nick_name
  if vo.user_id == []
      then reply sock (utf8 "없는 계정입니다 아이디를 확인하세요!\n" ++ login_before_message) status_logout
      else if stored == password
      then enter_once sock id nick_name
      else reply sock (utf8 "비밀번호 틀림!\n" ++ login_before_message) status_logout
log_in sock _ = pure tt

unfoldable pub user_enter : Socket → Text → M State Unit
unfolding fields_of log_in
user_enter sock message = do fields ← fields_of 2 message; log_in sock fields

-- `%d` of a 32-bit pattern
abbrev signed_decimal : ℕ → Text
signed_decimal n = if ltb n (2 ^ 31) then decimal n else b'-' ∷ decimal (2 ^ 32 - n)

-- `sprintf` into `char msg[30]`
unfoldable pub call_cnt : Socket → ℕ → M State Unit
unfolding utf8 decimal reply
call_cnt sock cnt = do
  size ← gets (λ s. length s.user_map)
  msg ←
      c_str 30 (
        utf8 "{\"packet\":" ++ signed_decimal cnt ++ utf8 " , \"cnt\":" ++ decimal size ++ utf8 "}")
  reply sock msg status_init
