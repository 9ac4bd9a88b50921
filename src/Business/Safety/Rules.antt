-- ===== src/Business/Safety/Rules.antt =====
-- The safety of a handler from that of its parts.
use cpp_iocp_server.Prelude.{
  Bool, true, false, if◌then◌else◌, ◌≡◌, refl, some, List, [], ◌∷◌, ◌++◌, lookup, nat_eq,
}
use cpp_iocp_server.Text.{Text}
use cpp_iocp_server.Outcome.{
  Outcome, returns, exits, undefined, hangs, M, Post, continue, Post-continue, c_str_ok, ◌>>=◌,
}
use cpp_iocp_server.Common.{Socket, ClientStatus, send_me, SendData}
use cpp_iocp_server.Odbc.{Database, IsServing}
use cpp_iocp_server.Iocp.Sending.{HasTail}
use cpp_iocp_server.State.{Session, Host, State, dao, with_database}
use cpp_iocp_server.Business.Basics.{name_of, id_of, room_of, set_session, send_data, reply}
use cpp_iocp_server.Business.Consistency.{IsSound, IsConsistent, set_user}

-- The maps agree, the database answers, and the machine is as `E` says.
pub record IsSafeOn (E : Host → Type 0) (s : State) : Type 0 where
  pub consistent : IsConsistent s.tables
  pub serving : IsServing s.database
  pub around : E s.host

-- The same of a machine on which the copy of a message that is sent can read on.
abbrev pub IsSafe : State → Type 0
IsSafe = IsSafeOn HasTail

-- The code does not run into undefined behaviour, and where it returns, the state is such a state
-- again.
abbrev pub SafeOn : (Host → Type 0) → {A : Type 0} → Outcome State A → Type 0
SafeOn E = Post (λ _ s. IsSafeOn E s)

-- The code does not run into undefined behaviour, and where it returns, the state is safe.
abbrev pub Safe : {A : Type 0} → Outcome State A → Type 0
Safe = Post (λ _ s. IsSafe s)

pub Safe-continue :
    {A B : Type 0} (m : Outcome State A) (f : A → M State B)
    → Safe m
    → ((a : A) (s : State) → IsSafe s → Safe (f a s))
    → Safe (continue m f)
Safe-continue m f = Post-continue (λ _ s. IsSafe s) (λ _ s. IsSafe s) m f

-- A query, and what follows it.
pub SafeOn-dao :
    (E : Host → Type 0) {A B : Type 0} (P : A → Database → Type 0) (m : M Database A)
    (f : A → M State B) (s : State)
    → Post P (m s.database)
    → ((a : A) (db : Database) → P a db → SafeOn E (f a (record s { database = db })))
    → SafeOn E ((dao m >>= f) s)
SafeOn-dao E {A} P m f s h k = by_result (m s.database) h
  where
    by_result : (r : Outcome Database A) → Post P r → SafeOn E (continue (with_database s r) f)
    by_result (returns a db) p = k a db p
    by_result exits p = tt
    by_result undefined p = p
    by_result hangs p = tt

pub Safe-dao :
    {A B : Type 0} (P : A → Database → Type 0) (m : M Database A) (f : A → M State B) (s : State)
    → Post P (m s.database)
    → ((a : A) (db : Database) → P a db → Safe (f a (record s { database = db })))
    → Safe ((dao m >>= f) s)
Safe-dao = SafeOn-dao HasTail

module _ (sock : Socket) (s : State) (u : Session) (is_session : lookup sock s.user_map ≡ some u)
    (is_sound : IsSound u) where
  pub name_of_lem : name_of sock s ≡ returns u.user_name s
  unfolding name_of
  name_of_lem =
      rw (is_session, c_str_ok 20 u.user_name s is_sound.name, c_str_ok 20 u.user_id s is_sound.id)

  pub id_of_lem : id_of sock s ≡ returns u.user_id s
  unfolding id_of
  id_of_lem =
      rw (is_session, c_str_ok 20 u.user_name s is_sound.name, c_str_ok 20 u.user_id s is_sound.id)

  pub room_of_lem : room_of sock s ≡ returns u.room_name s
  unfolding room_of
  room_of_lem = rw (is_session, c_str_ok 20 u.room_name s is_sound.room)

  pub set_session_lem :
      (f : Session → Session)
      → set_session sock f s ≡ returns tt (record s { tables = set_user sock (f u) s.tables })
  unfolding set_session
  set_session_lem f = rw is_session

pub reply_lem :
    (sock : Socket) (msg : Text) (status : ClientStatus) (s : State)
    → reply sock msg status s
      ≡ returns tt
          (record s { send_queue = s.send_queue ++ send_data send_me msg [] sock status ∷ [] })
unfolding reply
reply_lem sock msg status s = refl

-- The send queue is no part of what has to be consistent.
pub queue-IsSafe :
    {E : Host → Type 0} (s : State) (queue : List SendData)
    → IsSafeOn E s
    → IsSafeOn E (record s { send_queue = queue })
queue-IsSafe s queue h = record {
  consistent = h.consistent;
  serving = h.serving;
  around = h.around;
}

-- Both branches of a test.
pub SafeOn-if :
    (E : Host → Type 0) {A : Type 0} (b : Bool) (m n : M State A) (s : State)
    → SafeOn E (m s)
    → SafeOn E (n s)
    → SafeOn E ((if b then m else n) s)
SafeOn-if E true m n s h k = h
SafeOn-if E false m n s h k = k

pub Safe-if :
    {A : Type 0} (b : Bool) (m n : M State A) (s : State)
    → Safe (m s)
    → Safe (n s)
    → Safe ((if b then m else n) s)
Safe-if = SafeOn-if HasTail

pub reply-Safe :
    (sock : Socket) (msg : Text) (status : ClientStatus) (s : State)
    → IsSafe s
    → Safe (reply sock msg status s)
unfolding reply
reply-Safe sock msg status s h = queue-IsSafe s _ h

-- Both branches of a test, each with what the test says.
pub Safe-test :
    {A : Type 0} (b : Bool) (m n : M State A) (s : State)
    → (b ≡ true → Safe (m s))
    → (b ≡ false → Safe (n s))
    → Safe ((if b then m else n) s)
Safe-test true m n s h k = h refl
Safe-test false m n s h k = k refl

-- A query that ends a handler.
pub Safe-last_dao :
    {A : Type 0} (m : M Database A) (s : State)
    → IsSafe s
    → Post (λ _ db. IsServing db) (m s.database)
    → Safe (dao m s)
Safe-last_dao {A} m s h p = by_result (m s.database) p
  where
    by_result : (r : Outcome Database A) → Post (λ _ db. IsServing db) r → Safe (with_database s r)
    by_result (returns a db) serving = record {
      consistent = h.consistent;
      serving = serving;
      around = h.around;
    }
    by_result exits q = tt
    by_result undefined q = q
    by_result hangs q = tt
