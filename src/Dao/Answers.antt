-- ===== src/Dao/Answers.antt =====
-- With a driver that answers, the queries come back, and what they give fits the arrays it is put in.
use cpp_iocp_server.Prelude.{
  ℕ, ◌<◌, ◌≡◌, ◌≢◌, Option, none, some, List, [], ◌∷◌, arith, All, map, length, length-take-le,
  take, length-take, ◌-◌,
}
use cpp_iocp_server.Text.{Text}
use cpp_iocp_server.Outcome.{M, continue, returns, Post, c_str_ok}
use cpp_iocp_server.Odbc.{
  error, Row, Reply, Database, Statement, fetch, fetch_all, IsServing, bound, first_row,
}
use cpp_iocp_server.Vo.{UserVo, LogVo, RelationVo}
use cpp_iocp_server.Dao.{
  found_user, select_user, update_user, insert_user, insert_login, insert_direction,
  insert_chatting, insert_relation, find_user_id, select_friends, found_account, friend_of_row,
  delete_relation,
}

-- A query does not change how the driver answers.
pub executed-IsServing :
    (db : Database) (past : List Statement)
    → IsServing db
    → IsServing (record db { executed = past })
executed-IsServing db past h = record { serves = h.serves }

pub fetch_lem :
    (r : Reply) (db : Database) → r.code ≢ error → fetch r db ≡ returns (first_row r.rows) db
unfolding fetch
fetch_lem r db h = ground arith

fetch_all_lem : (r : Reply) (db : Database) → r.code ≢ error → fetch_all r db ≡ returns r.rows db
unfolding fetch_all
fetch_all_lem r db h = ground arith

-- What follows a fetch runs on from its row.
after_fetch :
    {B : Type 0} (Q : B → Database → Type 0) (r : Reply) (db : Database)
    (f : Option Row → M Database B)
    → r.code ≢ error
    → ((row : Option Row) → Post Q (f row db))
    → Post Q (continue (fetch r db) f)
after_fetch Q r db f h k = rw (fetch_lem r db h) (k (first_row r.rows))

after_fetch_all :
    {B : Type 0} (Q : B → Database → Type 0) (r : Reply) (db : Database)
    (f : List Row → M Database B)
    → r.code ≢ error
    → ((rows : List Row) → Post Q (f rows db))
    → Post Q (continue (fetch_all r db) f)
after_fetch_all Q r db f h k = rw (fetch_all_lem r db h) (k r.rows)

-- A column that is bound to `n` bytes leaves room for the terminator wherever it is copied.
bound_lt : (n m : ℕ) (t : Text) → 0 < n → length (take m (bound n t)) < n
bound_lt n m t h = omega (arith, length-take m (bound n t), length-take-le (n - 1) t)

abbrev pub Serving : {A : Type 0} → A → Database → Type 0
Serving _ db = IsServing db

-- The arrays of an object for an account have terminators.
pub record IsUser (v : UserVo) : Type 0 where
  pub id : length v.user_id < 20
  pub password : length v.password < 10
  pub nick_name : length v.nick_name < 20

pub found_user-IsUser : (v : UserVo) (row : Option Row) → IsUser v → IsUser (found_user v row)
found_user-IsUser v none h = record {
  id = omega arith;
  password = h.password;
  nick_name = h.nick_name;
}
found_user-IsUser v (some row) h = record {
  id = h.id;
  password = bound_lt 10 10 row.second (omega arith);
  nick_name = bound_lt 20 20 row.third (omega arith);
}

pub select_user-Post :
    (v : UserVo) (db : Database)
    → IsUser v
    → IsServing db
    → Post (λ w db'. IsUser w × IsServing db') (select_user v db)
unfolding select_user
select_user-Post v db h serving = rw (c_str_ok 20 v.user_id db h.id) (
    after_fetch (λ w db'. IsUser w × IsServing db') _ _ _ (serving.serves _ _)
      λ row. (found_user-IsUser v row h, executed-IsServing db _ serving))

pub insert_user-Post :
    (v : UserVo) (db : Database) → IsUser v → IsServing db → Post Serving (insert_user v db)
unfolding insert_user
insert_user-Post v db h serving =
    rw
      (
        c_str_ok 20 v.user_id db h.id,
        c_str_ok 10 v.password db h.password,
        c_str_ok 20 v.nick_name db h.nick_name,
      )
      (executed-IsServing db _ serving)

module _ (v : LogVo) (db : Database) (serving : IsServing db)
    (named : length v.nick_name < 20) where
  pub update_user-Post : length v.user_id < 20 → Post Serving (update_user v db)
  unfolding update_user
  update_user-Post h = rw (c_str_ok 20 v.user_id db h) (executed-IsServing db _ serving)

  pub insert_login-Post : length v.user_id < 20 → Post Serving (insert_login v db)
  unfolding insert_login
  insert_login-Post h =
      rw (c_str_ok 20 v.user_id db h, c_str_ok 20 v.nick_name db named)
        (executed-IsServing db _ serving)

  pub insert_direction-Post : length v.msg < 512 → Post Serving (insert_direction v db)
  unfolding insert_direction
  insert_direction-Post h =
      rw (c_str_ok 20 v.nick_name db named, c_str_ok 512 v.msg db h)
        (executed-IsServing db _ serving)

  pub insert_chatting-Post :
      length v.room_name < 20 → length v.msg < 512 → Post Serving (insert_chatting v db)
  unfolding insert_chatting
  insert_chatting-Post room h =
      rw
        (c_str_ok 20 v.nick_name db named, c_str_ok 20 v.room_name db room, c_str_ok 512 v.msg db h)
        (executed-IsServing db _ serving)

-- The arrays of an object for a relation have terminators.
pub record IsRelation (v : RelationVo) : Type 0 where
  pub id : length v.user_id < 20
  pub nick_name : length v.nick_name < 20
  pub relationto : length v.relationto < 20

found_account-IsRelation : (row : Option Row) → IsRelation (found_account row)
found_account-IsRelation none = omega arith
found_account-IsRelation (some row) = record {
  id = omega arith;
  nick_name = bound_lt 20 20 row.second (omega arith);
  relationto = omega (arith, bound_lt 10 20 row.first);
}

friend_of_row-IsRelation : (row : Row) → IsRelation (friend_of_row row)
friend_of_row-IsRelation row = record {
  id = omega (
    arith,
    length-take-le 20 (take 10 (bound 10 row.first)),
    length-take 20 (take 10 (bound 10 row.first)),
    bound_lt 10 10 row.first,
  );
  nick_name =
      omega (arith, length-take 20 (take 20 (bound 20 row.third)), bound_lt 20 20 row.third);
  relationto =
      omega (arith, length-take 20 (take 20 (bound 10 row.second)), bound_lt 10 20 row.second);
}

friends-IsRelation : (rows : List Row) → All IsRelation (map friend_of_row rows)
friends-IsRelation [] = tt
friends-IsRelation (row ∷ rows) = (friend_of_row-IsRelation row, friends-IsRelation rows)

module _ (v : RelationVo) (db : Database) (serving : IsServing db) (h : IsRelation v) where
  pub insert_relation-Post : Post Serving (insert_relation v db)
  unfolding insert_relation
  insert_relation-Post =
      rw (c_str_ok 20 v.user_id db h.id, c_str_ok 20 v.relationto db h.relationto)
        (executed-IsServing db _ serving)

  pub delete_relation-Post : Post Serving (delete_relation v db)
  unfolding delete_relation
  delete_relation-Post =
      rw (c_str_ok 20 v.user_id db h.id, c_str_ok 20 v.nick_name db h.nick_name)
        (executed-IsServing db _ serving)

  pub find_user_id-Post : Post (λ w db'. IsRelation w × IsServing db') (find_user_id v db)
  unfolding find_user_id
  find_user_id-Post = rw (c_str_ok 20 v.nick_name db h.nick_name) (
      after_fetch (λ w db'. IsRelation w × IsServing db') _ _ _ (serving.serves _ _)
        λ row. (found_account-IsRelation row, executed-IsServing db _ serving))

  pub select_friends-Post :
      Post (λ vec db'. All IsRelation vec × IsServing db') (select_friends v db)
  unfolding select_friends
  select_friends-Post = rw (c_str_ok 20 v.user_id db h.id) (
      after_fetch_all (λ vec db'. All IsRelation vec × IsServing db') _ _ _ (serving.serves _ _)
        λ rows. (friends-IsRelation rows, executed-IsServing db _ serving))
