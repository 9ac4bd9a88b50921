-- ===== src/Business/Safety/Accounts.antt =====
-- `UserMake`, `UserEnter` and `InitUser`.
use cpp_iocp_server.Prelude.{
  ℕ, ◌≤◌, ◌<◌, ◌≡◌, refl, inl, inr, Bool-cases, none, List, [], ◌∷◌, arith, lookup, contains,
  nat_eq, text_eq, ◌==◌, length, length-take, take_all,
}
use cpp_iocp_server.Text.{Text, strncpy}
use cpp_iocp_server.Text.Tokens.{tokens}
use cpp_iocp_server.Outcome.{returns, c_str_ok}
use cpp_iocp_server.Common.{Socket}
use cpp_iocp_server.Odbc.{Database, IsServing}
use cpp_iocp_server.Vo.{
  UserVo, new_user_vo, copy_user_vo, LogVo, new_log_vo, new_vo, set_password, set_user_id,
  set_nick_name,
}
use cpp_iocp_server.Dao.{select_user, insert_user, update_user, insert_login}
use cpp_iocp_server.Dao.Answers.{
  IsUser, Serving, select_user-Post, insert_user-Post, update_user-Post, insert_login-Post,
}
use cpp_iocp_server.State.{Host, State}
use cpp_iocp_server.Business.Account.{
  fields_of, session_at_login, init_user, with_vo_id, make_account, user_make, enter_once, log_in,
  user_enter,
}
use cpp_iocp_server.Business.Basics.{insert_id}
use cpp_iocp_server.Business.Consistency.{
  IsSound, set_user, set_user-IsConsistent, id_set-IsConsistent,
}
use cpp_iocp_server.Business.Safety.Rules.{IsSafeOn, SafeOn, SafeOn-dao, SafeOn-if, queue-IsSafe}

pub database-IsSafe :
    {E : Host → Type 0} (s : State) (db : Database)
    → IsSafeOn E s
    → IsServing db
    → IsSafeOn E (record s { database = db })
database-IsSafe s db h serving = record {
  consistent = h.consistent;
  serving = serving;
  around = h.around;
}

-- A request of at most `n` fields is cut into them.
pub fields_of_lem :
    (n : ℕ) (message : Text) (s : State)
    → length message < 4096
    → length (tokens message) ≤ n
    → fields_of n message s ≡ returns (tokens message) s
unfolding fields_of
fields_of_lem n message s short few =
    rw (take_all 4096 message (omega arith), c_str_ok 4096 message s short) (ground arith)

session_at_login-IsSound :
    (id nick_name : Text)
    → length id < 20
    → length nick_name < 20
    → IsSound (session_at_login id nick_name)
session_at_login-IsSound id nick_name h k = record {
  name = omega (arith, length-take 20 nick_name);
  id = omega (arith, length-take 20 id);
  room = omega arith;
  status = inl (refl, refl);
}

-- The record of a log-in.
abbrev login_vo : Text → Text → LogVo
login_vo id nick_name = record new_log_vo {
  vo = set_nick_name (strncpy 20 nick_name) (set_user_id (strncpy 20 id) new_vo);
}

login_vo-name :
    (id nick_name : Text) → length nick_name < 20 → length (login_vo id nick_name).nick_name < 20
login_vo-name id nick_name h =
    omega (arith, length-take 20 (strncpy 20 nick_name), length-take 20 nick_name)

login_vo-id : (id nick_name : Text) → length (login_vo id nick_name).user_id < 20
login_vo-id id nick_name = omega (arith, length-take 10 (strncpy 20 id))

pub init_user-Safe :
    {E : Host → Type 0} (id : Text) (sock : Socket) (nick_name : Text) (s : State)
    → IsSafeOn E s
    → lookup sock s.user_map ≡ none
    → length id < 20
    → length nick_name < 20
    → SafeOn E (init_user id sock nick_name s)
unfolding init_user
init_user-Safe id sock nick_name s h no_session id_fits name_fits =
    let s1 : State = record s { tables = set_user sock (session_at_login id nick_name) s.tables } in
    rw
      (
        c_str_ok 20 (strncpy 20 id) s1 (omega (arith, length-take 20 id)),
        c_str_ok 20 (strncpy 20 nick_name) s1 (omega (arith, length-take 20 nick_name)),
      )
      (SafeOn-dao _ Serving (update_user (login_vo id nick_name)) _ s1
        (update_user-Post (login_vo id nick_name) s.database h.serving
          (login_vo-name id nick_name name_fits) (login_vo-id id nick_name))
        λ _ db serving.
          SafeOn-dao _ Serving (insert_login (login_vo id nick_name)) _
            (record s1 { database = db })
            (insert_login-Post (login_vo id nick_name) db serving
              (login_vo-name id nick_name name_fits) (login_vo-id id nick_name))
            λ _ db' serving'. (record {
              consistent =
                  set_user-IsConsistent sock s.tables (session_at_login id nick_name) h.consistent
                    no_session (session_at_login-IsSound id nick_name id_fits name_fits) refl;
              serving = serving';
              around = h.around;
            }))

-- An id that nobody is logged in with gets a session.
enter_once-Safe :
    {E : Host → Type 0} (sock : Socket) (id nick_name : Text) (s : State)
    → IsSafeOn E s
    → lookup sock s.user_map ≡ none
    → length id < 20
    → length nick_name < 20
    → SafeOn E (enter_once sock id nick_name s)
unfolding enter_once
enter_once-Safe sock id nick_name s h no_session id_fits name_fits =
    elim (Bool-cases (contains s.id_set id)) [
      | inl there ↦ rw there (queue-IsSafe s _ h)
      | inr fresh ↦ rw fresh (
          init_user-Safe id sock nick_name (record s { tables = insert_id id s.tables })
            (record {
              consistent = id_set-IsConsistent s.tables _ h.consistent;
              serving = h.serving;
              around = h.around;
            })
            no_session id_fits name_fits)
    ]

pub with_vo_id-IsUser : (id : Text) → IsUser (with_vo_id id new_user_vo)
with_vo_id-IsUser id = record {
  id = omega (arith, length-take 10 id);
  password = omega arith;
  nick_name = omega arith;
}

pub copy_user_vo-IsUser : (v : UserVo) → IsUser v → IsUser (copy_user_vo v)
copy_user_vo-IsUser v h = record {
  id = omega (arith, length-take 20 v.user_id, h.id);
  password = omega (arith, length-take 10 v.password, h.password);
  nick_name = omega (arith, length-take 20 v.nick_name, h.nick_name);
}

-- The fields of a log-in fit if the id does; those of a new account if password and nickname do.
abbrev pub CanEnter : List Text → Type 0
CanEnter [] = Unit
CanEnter (id ∷ fields) = length id < 20

abbrev pub CanMake : List Text → Type 0
CanMake (id ∷ password ∷ nick_name ∷ fields) = (length password < 10) × (length nick_name < 20)
CanMake _ = Unit

log_in-Safe :
    {E : Host → Type 0} (sock : Socket) (fields : List Text) (s : State)
    → IsSafeOn E s
    → lookup sock s.user_map ≡ none
    → CanEnter fields
    → SafeOn E (log_in sock fields s)
unfolding log_in
log_in-Safe sock [] s h no_session fits = h
log_in-Safe sock (id ∷ []) s h no_session fits = h
log_in-Safe sock (id ∷ password ∷ rest) s h no_session fits =
    SafeOn-dao _ (λ w db'. IsUser w × IsServing db') (select_user (with_vo_id id new_user_vo)) _ s
      (select_user-Post (with_vo_id id new_user_vo) s.database (with_vo_id-IsUser id) h.serving)
      λ found db p.
        let s1 : State = record s { database = db } in
        let h1 = database-IsSafe s db h p.1 in
        let fits_copy = copy_user_vo-IsUser found p.0 in
        rw
          (
            c_str_ok 10 (copy_user_vo found).password s1 fits_copy.password,
            c_str_ok 20 (copy_user_vo found).nick_name s1 fits_copy.nick_name,
          )
          (SafeOn-if _ ((copy_user_vo found).user_id == []) _ _ s1 (queue-IsSafe s1 _ h1) (
            SafeOn-if _ ((copy_user_vo found).password == password) _ _ s1
              (enter_once-Safe sock id (copy_user_vo found).nick_name s1 h1 no_session fits
                fits_copy.nick_name)
              (queue-IsSafe s1 _ h1)))

-- The object of a new account.
abbrev pub new_account : Text → Text → Text → UserVo → UserVo
new_account id password nick_name v = record (set_password password (copy_user_vo v)) {
  vo = set_nick_name nick_name (set_user_id id (copy_user_vo v).vo);
}

new_account-IsUser :
    (id password nick_name : Text) (v : UserVo)
    → length password < 10
    → length nick_name < 20
    → IsUser (new_account id password nick_name v)
new_account-IsUser id password nick_name v h k = record {
  id = omega (arith, length-take 10 id);
  password = omega (arith, length-take 10 password);
  nick_name = omega (arith, length-take 20 nick_name);
}

make_account-Safe :
    {E : Host → Type 0} (sock : Socket) (fields : List Text) (s : State)
    → IsSafeOn E s
    → CanMake fields
    → SafeOn E (make_account sock fields s)
unfolding make_account
make_account-Safe sock (id ∷ password ∷ nick_name ∷ rest) s h fits =
    SafeOn-dao _ (λ w db'. IsUser w × IsServing db') (select_user (with_vo_id id new_user_vo)) _ s
      (select_user-Post (with_vo_id id new_user_vo) s.database (with_vo_id-IsUser id) h.serving)
      λ found db p.
        let s1 : State = record s { database = db } in
        SafeOn-if _ ((copy_user_vo found).user_id == []) _ _ s1
          (SafeOn-dao _ Serving (insert_user (new_account id password nick_name found)) _ s1
            (insert_user-Post (new_account id password nick_name found) db
              (new_account-IsUser id password nick_name found fits.0 fits.1) p.1)
            λ _ db' serving.
              queue-IsSafe (record s1 { database = db' }) _ (database-IsSafe s db' h serving))
          (queue-IsSafe s1 _ (database-IsSafe s db h p.1))
make_account-Safe sock _ s h fits = h

-- The making of an account, by a message of less than 4096 bytes with at most three fields, a
-- password of less than 10 bytes and a nickname of less than 20, does not run into undefined
-- behaviour from a state where sessions and rooms agree and the driver answers, whatever it
-- answers; where it returns, the state is such a state again.
pub user_make-Safe :
    {E : Host → Type 0} (sock : Socket) (message : Text) (s : State)
    → IsSafeOn E s
    → length message < 4096
    → length (tokens message) ≤ 3
    → CanMake (tokens message)
    → SafeOn E (user_make sock message s)
unfolding user_make
user_make-Safe sock message s h short few fits =
    rw (fields_of_lem 3 message s short few) (make_account-Safe sock (tokens message) s h fits)

-- A log-in on a socket without a session, by a message of less than 4096 bytes with at most two
-- fields and an id of less than 20 bytes, does not run into undefined behaviour from a state
-- where sessions and rooms agree and the driver answers, whatever it answers; where it returns,
-- the state is such a state again.
pub user_enter-Safe :
    {E : Host → Type 0} (sock : Socket) (message : Text) (s : State)
    → IsSafeOn E s
    → lookup sock s.user_map ≡ none
    → length message < 4096
    → length (tokens message) ≤ 2
    → CanEnter (tokens message)
    → SafeOn E (user_enter sock message s)
unfolding user_enter
user_enter-Safe sock message s h no_session short few fits =
    rw (fields_of_lem 2 message s short few) (log_in-Safe sock (tokens message) s h no_session fits)
