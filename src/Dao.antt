-- ===== src/Dao.antt =====
-- Dao.cpp: the queries of the server. The mutex serialises them, so each runs alone.
pub mod Answers
use cpp_iocp_server.Prelude.{Option, none, some, List, [], ◌∷◌, map}
use cpp_iocp_server.Outcome.{M, pure, ◌>>=◌, ◌>>◌, c_str}
use cpp_iocp_server.Odbc.{text, integer, Row, SqlReturn, Database, execute, fetch, fetch_all, bound}
use cpp_iocp_server.Vo.{
  new_vo, set_user_id, set_nick_name, UserVo, set_password, LogVo, RelationVo, new_relation_vo,
  set_relationto, copy_relation_vo,
}

-- The account that a row describes, or the object with an empty id if there is no such account.
abbrev pub found_user : UserVo → Option Row → UserVo
found_user v none = record v { vo = set_user_id [] v.vo }
found_user v (some row) = record (set_password (bound 10 row.second) v) {
  vo = set_nick_name (bound 20 row.third) v.vo;
}

unfoldable pub select_user : UserVo → M Database UserVo
unfolding execute fetch
select_user v = do
  id ← c_str 20 v.user_id
  reply ← execute (record {
    query = "select userid,password,nickname from cso_id with (nolock) where userid = ? ";
    parameters = text id ∷ [];
  })
  row ← fetch reply
  pure (found_user v row)

unfoldable pub update_user : LogVo → M Database Unit
unfolding execute
update_user v = do
  id ← c_str 20 v.user_id
  execute (record {
    query = "update cso_id set lastlogdate = getdate()  where userid = ? ";
    parameters = text id ∷ [];
  })
  pure tt

unfoldable pub insert_user : UserVo → M Database Unit
unfolding execute
insert_user v = do
  id ← c_str 20 v.user_id
  password ← c_str 10 v.password
  nick_name ← c_str 20 v.nick_name
  execute (record {
    query =
        "insert into cso_id(userid, password , nickname , regdate) values(? ,? ,? ,getdate() ) ";
    parameters = text id ∷ text password ∷ text nick_name ∷ [];
  })
  pure tt

unfoldable pub insert_login : LogVo → M Database Unit
unfolding execute
insert_login v = do
  id ← c_str 20 v.user_id
  nick_name ← c_str 20 v.nick_name
  execute (record {
    query = "insert into cso_login(userid, logindate , nickname) values(? ,getdate() ,? ) ";
    parameters = text id ∷ text nick_name ∷ [];
  })
  pure tt

unfoldable pub insert_direction : LogVo → M Database Unit
unfolding execute
insert_direction v = do
  nick_name ← c_str 20 v.nick_name
  msg ← c_str 512 v.msg
  execute (record {
    query =
        "insert into cso_direction(nickname, logdate, status, direction , message) values(? ,getdate() ,? ,? ,? ) ";
    parameters = text nick_name ∷ integer v.status ∷ integer v.direction ∷ text msg ∷ [];
  })
  pure tt

unfoldable pub insert_chatting : LogVo → M Database Unit
unfolding execute
insert_chatting v = do
  nick_name ← c_str 20 v.nick_name
  room_name ← c_str 20 v.room_name
  msg ← c_str 512 v.msg
  execute (record {
    query =
        "insert into cso_chatting(nickname,logdate,roomname,message)  values(? ,getdate() , ? , ?)";
    parameters = text nick_name ∷ text room_name ∷ text msg ∷ [];
  })
  pure tt

unfoldable pub insert_relation : RelationVo → M Database SqlReturn
unfolding execute
insert_relation v = do
  id ← c_str 20 v.user_id
  relationto ← c_str 20 v.relationto
  reply ← execute (record {
    query = "insert into cso_relation  values(? , ? , ? ,getdate())";
    parameters = text id ∷ text relationto ∷ integer v.relationcode ∷ [];
  })
  pure reply.code

-- The account of a nickname; `relationto` is empty if there is none. The id is read into `char[10]`.
abbrev pub found_account : Option Row → RelationVo
found_account none = set_relationto [] new_relation_vo
found_account (some row) = record (set_relationto (bound 10 row.first) new_relation_vo) {
  vo = set_nick_name (bound 20 row.second) new_vo;
}

unfoldable pub find_user_id : RelationVo → M Database RelationVo
unfolding execute fetch
find_user_id v = do
  nick_name ← c_str 20 v.nick_name
  reply ← execute (record {
    query = "select userid, nickname from cso_id  with (nolock) where nickname = ? ";
    parameters = text nick_name ∷ [];
  })
  row ← fetch reply
  pure (found_account row)

abbrev pub friend_of_row : Row → RelationVo
friend_of_row row =
    copy_relation_vo (record (set_relationto (bound 10 row.second) new_relation_vo) {
      vo = set_nick_name (bound 20 row.third) (set_user_id (bound 10 row.first) new_vo);
    })

unfoldable pub select_friends : RelationVo → M Database (List RelationVo)
unfolding execute fetch_all
select_friends v = do
  id ← c_str 20 v.user_id
  reply ← execute (record {
    query =
        "select T1.relationfrom, T1.relationto, T2.nickname from cso_relation T1 with (nolock), cso_id T2 with (nolock)\twhere T1.relationto = T2.userid\tand T1.relationfrom = ? and T1.relationcode = 1";
    parameters = text id ∷ [];
  })
  rows ← fetch_all reply
  pure (map friend_of_row rows)

abbrev pub one_friend : Option Row → RelationVo
one_friend none = new_relation_vo
one_friend (some row) = record (set_relationto (bound 20 row.second) new_relation_vo) {
  vo = set_nick_name (bound 20 row.third) (set_user_id (bound 20 row.first) new_vo);
}

unfoldable pub select_one_friend : RelationVo → M Database RelationVo
unfolding execute fetch
select_one_friend v = do
  id ← c_str 20 v.user_id
  relationto ← c_str 20 v.relationto
  reply ← execute (record {
    query =
        "select T1.relationfrom, T1.relationto, T2.nickname from cso_relation T1 with (nolock) , cso_id T2\twith (nolock) where T1.relationto = T2.userid\tand T1.relationfrom = ? and T2.nickname = ? and T1.relationcode = 1";
    parameters = text id ∷ text relationto ∷ [];
  })
  row ← fetch reply
  pure (one_friend row)

unfoldable pub delete_relation : RelationVo → M Database SqlReturn
unfolding execute
delete_relation v = do
  id ← c_str 20 v.user_id
  nick_name ← c_str 20 v.nick_name
  reply ← execute (record {
    query =
        "delete from cso_relation where relationfrom = ? and relationcode = ? and relationto = (select userid from cso_id where nickname = ?)";
    parameters = text id ∷ integer v.relationcode ∷ text nick_name ∷ [];
  })
  pure reply.code

-- `int relation = vo.getBytes()`, whose value is the file's size.
unfoldable pub insert_files : LogVo → M Database SqlReturn
unfolding execute
insert_files v = do
  nick_name ← c_str 20 v.nick_name
  filename ← c_str 100 v.filename
  reply ← execute (record {
    query = "insert into cso_filerecv  values(? , ? , getdate() , ?)";
    parameters = text nick_name ∷ text filename ∷ integer v.bytes ∷ [];
  })
  pure reply.code
