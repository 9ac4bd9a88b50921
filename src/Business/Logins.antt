-- ===== src/Business/Logins.antt =====
-- A second log-in under an id that is in `idSet`.
use cpp_iocp_server.Prelude.{
  ◌<◌, ◌≤◌, ◌≡◌, refl, sym, subst, arith, Bool, true, false, [], ◌∷◌, ◌==◌, text_eq, contains,
  if◌then◌else◌, length,
}
use cpp_iocp_server.Text.{Text}
use cpp_iocp_server.Text.Tokens.{tokens}
use cpp_iocp_server.Outcome.{
  Outcome, returns, exits, undefined, hangs, M, Post, continue, c_str_ok, ◌>>=◌,
}
use cpp_iocp_server.Common.{Socket}
use cpp_iocp_server.Odbc.{Database, IsServing}
use cpp_iocp_server.Vo.{new_user_vo, copy_user_vo}
use cpp_iocp_server.Dao.{select_user}
use cpp_iocp_server.Dao.Answers.{IsUser, select_user-Post}
use cpp_iocp_server.State.{State, Tables, dao, with_database}
use cpp_iocp_server.Business.Account.{with_vo_id, user_enter, log_in, enter_once}
use cpp_iocp_server.Business.Safety.Accounts.{fields_of_lem, with_vo_id-IsUser, copy_user_vo-IsUser}

-- The maps after a handler, if it returns.
abbrev Leaves : Tables → Outcome State Unit → Type 0
Leaves t = Post (λ _ s. s.tables ≡ t)

Leaves-dao :
    {A : Type 0} (t : Tables) (P : A → Database → Type 0) (m : M Database A) (f : A → M State Unit)
    → (s : State) → Post P (m s.database)
    → ((a : A) (db : Database) → P a db → Leaves t (f a (record s { database = db })))
    → Leaves t ((dao m >>= f) s)
Leaves-dao {A} t P m f s h k = by_result (m s.database) h
  where
    by_result : (r : Outcome Database A) → Post P r → Leaves t (continue (with_database s r) f)
    by_result (returns a db) p = k a db p
    by_result exits p = tt
    by_result undefined p = p
    by_result hangs p = tt

Leaves-if :
    (t : Tables) (b : Bool) (m n : M State Unit) (s : State)
    → Leaves t (m s)
    → Leaves t (n s)
    → Leaves t ((if b then m else n) s)
Leaves-if t true m n s h k = h
Leaves-if t false m n s h k = k

enter_once-Leaves :
    (sock : Socket) (id nick_name : Text) (s : State)
    → contains s.id_set id ≡ true
    → Leaves s.tables (enter_once sock id nick_name s)
unfolding enter_once
enter_once-Leaves sock id nick_name s there = rw there refl

log_in-Leaves :
    (sock : Socket) (id password : Text) (s : State)
    → IsServing s.database
    → contains s.id_set id ≡ true
    → Leaves s.tables (log_in sock (id ∷ password ∷ []) s)
unfolding log_in
log_in-Leaves sock id password s serving there =
    Leaves-dao s.tables (λ w db'. IsUser w × IsServing db')
      (select_user (with_vo_id id new_user_vo)) _ s
      (select_user-Post (with_vo_id id new_user_vo) s.database (with_vo_id-IsUser id) serving)
      λ found db p.
        let s1 : State = record s { database = db } in
        let fits = copy_user_vo-IsUser found p.0 in
        rw
          (
            c_str_ok 10 (copy_user_vo found).password s1 fits.password,
            c_str_ok 20 (copy_user_vo found).nick_name s1 fits.nick_name,
          )
          (Leaves-if s.tables ((copy_user_vo found).user_id == []) _ _ s1 refl (
            Leaves-if s.tables ((copy_user_vo found).password == password) _ _ s1
              (enter_once-Leaves sock id (copy_user_vo found).nick_name s1 there) refl))

-- A log-in by a message of less than 4096 bytes with two fields, whose id is logged in already,
-- changes no session, room or id where it returns, and does not run into undefined behaviour,
-- whatever the database holds, as long as the driver answers.
pub user_enter-logged_in :
    (sock : Socket) (message id password : Text) (s : State)
    → IsServing s.database
    → length message < 4096
    → tokens message ≡ id ∷ password ∷ []
    → contains s.id_set id ≡ true
    → Post (λ _ s'. s'.tables ≡ s.tables) (user_enter sock message s)
unfolding user_enter
user_enter-logged_in sock message id password s serving short fields there =
    let few : length (tokens message) ≤ 2 = subst (λ f. length f ≤ 2) (sym fields) (omega arith) in
    rw (fields_of_lem 2 message s short few, fields)
      (log_in-Leaves sock id password s serving there)
