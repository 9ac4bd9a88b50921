-- ===== src/Client/Console/Accounts.antt =====
-- A new account, from the prompts of the client to the server's `UserMake`.
use cpp_iocp_server.Prelude.{
  ◌≤◌, ◌<◌, ◌≡◌, ◌≢◌, refl, ap, Bool, true, false, not, ◌&&◌, none, List, [], ◌∷◌, ◌++◌, All, arith,
  contains, length, ◌==◌, nat_eq, text_eq, text_beq, text_beq_iff, length-append, take, length-take,
  append_assoc,
}
use cpp_iocp_server.Text.{Text}
use cpp_iocp_server.Text.Tokens.{delimiter, tokens, IsField, join, tokens-join}
use cpp_iocp_server.Outcome.{returns, undefined, c_str_ok}
use cpp_iocp_server.Common.{Socket, status_logout, status_number}
use cpp_iocp_server.Common.Directions
use cpp_iocp_server.State.{Host, State}
use cpp_iocp_server.Odbc.{text, Statement, Database, IsServing}
use cpp_iocp_server.Business.Account.{user_make, make_account, with_vo_id}
use cpp_iocp_server.Vo.{UserVo, new_user_vo}
use cpp_iocp_server.Dao.{select_user, insert_user, found_user}
use cpp_iocp_server.Dao.Answers.{fetch_lem}
use cpp_iocp_server.Business.Safety.Rules.{IsSafeOn, SafeOn}
use cpp_iocp_server.Business.Safety.Accounts.{fields_of_lem, new_account, user_make-Safe}
use cpp_iocp_server.Client.Console.{
  is_alpha_number_char, all_alpha_number, is_alpha_number, is_account, is_password, is_nickname,
  ask, sends, ask_account,
}

-- Lines that a prompt refuses.
abbrev pub Refused : (Text → Bool) → List Text → Type 0
Refused test = All (λ l. test l ≡ false)

ask_lem :
    (test : Text → Bool) (before : List Text) (l : Text) (rest : List Text)
    → Refused test before
    → test l ≡ true
    → ask test (before ++ l ∷ rest) ≡ returns l rest
unfolding ask
ask_lem test [] l rest h k = rw k refl
ask_lem test (b ∷ before) l rest h k = rw (h.0) (ask_lem test before l rest (h.1) k)

abbrev pub repeats : Text → Text → Bool
repeats password l = not (l == []) && password == l

repeats_lem : (password : Text) → is_password password ≡ true → repeats password password ≡ true
unfolding is_password text_beq
repeats_lem [] h = absurd (ground arith)
repeats_lem (c ∷ s) h = (text_beq_iff (c ∷ s) (c ∷ s)).1 refl

-- What the client sends for a new account.
abbrev pub account_message : Text → Text → Text → Text
account_message account password nickname = join (account ∷ password ∷ nickname ∷ [])

-- The prompts for a new account take the first line each that passes its test, whatever lines
-- they refuse before it, and the request is made of these, joined by the delimiter.
pub ask_account_lem :
    (account password nickname : Text) (first second third fourth rest : List Text)
    → is_account account ≡ true
    → is_password password ≡ true
    → is_nickname nickname ≡ true
    → Refused is_account first
    → Refused is_password second
    → Refused (repeats password) third
    → Refused is_nickname fourth
    → ask_account (
        first ++ account ∷ (second ++ password ∷ (third ++ password ∷ (fourth ++ nickname ∷ rest))))
      ≡ returns
          (sends
            (account_message account password nickname)
            (status_number status_logout)
            Directions.user_make)
          rest
unfolding ask_account join
ask_account_lem account password nickname first second third fourth rest is_a is_p is_n h1 h2 h3
      h4 =
    rw
      (
        ask_lem is_account first account _ h1 is_a,
        ask_lem is_password second password _ h2 is_p,
        ask_lem (repeats password) third password _ h3 (repeats_lem password is_p),
        ask_lem is_nickname fourth nickname rest h4 is_n,
      )
      (ap (λ m. returns (sends m (status_number status_logout) Directions.user_make) rest)
        (append_assoc account (delimiter ∷ password) (delimiter ∷ nickname)))

-- The delimiter is not of the class.
no_delimiter : (s : Text) → all_alpha_number s ≡ true → contains s delimiter ≡ false
unfolding all_alpha_number is_alpha_number_char contains
no_delimiter [] h = refl
no_delimiter (c ∷ s) h = ground (arith, no_delimiter s)

is_alpha_number-IsField : (s : Text) → is_alpha_number s ≡ true → IsField s
unfolding is_alpha_number text_beq
is_alpha_number-IsField [] h = absurd (ground arith)
is_alpha_number-IsField (c ∷ s) h = record {
  not_empty = λ e. cc;
  no_delimiter = no_delimiter (c ∷ s) (ground arith);
}

-- The fields of an account that the client accepts. A nickname may have the delimiter in it; the
-- server would cut it there.
pub record IsAccepted (account password nickname : Text) : Type 0 where
  pub good_account : is_account account ≡ true
  pub good_password : is_password password ≡ true
  pub good_nickname : is_nickname nickname ≡ true
  pub plain : contains nickname delimiter ≡ false

-- A driver that answers, and holds no account.
pub record HasNone (db : Database) : Type 0 where
  pub serving : IsServing db
  pub none_such : (past : List Statement) (st : Statement) → (db.answer past st).rows ≡ []

-- The query for an account.
abbrev account_query : Text → Statement
account_query id = record {
  query = "select userid,password,nickname from cso_id with (nolock) where userid = ? ";
  parameters = text id ∷ [];
}

abbrev asked : Text → Database → Database
asked id db = record db { executed = account_query id ∷ db.executed }

select_user-none :
    (v : UserVo) (db : Database)
    → HasNone db
    → length v.user_id < 20
    → select_user v db ≡ returns (found_user v none) (asked v.user_id db)
unfolding select_user
select_user-none v db h fits =
    let reply = db.answer db.executed (account_query v.user_id) in
    rw
      (
        c_str_ok 20 v.user_id db fits,
        fetch_lem reply (asked v.user_id db)
            (h.serving.serves db.executed (account_query v.user_id)),
        h.none_such db.executed (account_query v.user_id),
      )
      refl

insert_user-undefined :
    (v : UserVo) (db : Database)
    → length v.user_id < 20
    → length v.password ≡ 10
    → insert_user v db ≡ undefined
unfolding insert_user
insert_user-undefined v db fits too_long = rw (c_str_ok 20 v.user_id db fits, too_long) refl

module _ (account password nickname : Text) (h : IsAccepted account password nickname) where
  account-IsField : IsField account
  unfolding is_account
  account-IsField = is_alpha_number-IsField account (ground (arith, h.good_account))

  password-IsField : IsField password
  unfolding is_password
  password-IsField = is_alpha_number-IsField password (ground (arith, h.good_password))

  nickname_some : (n : Text) → is_nickname n ≡ true → n ≢ []
  unfolding is_nickname text_beq
  nickname_some [] k e = ground arith
  nickname_some (c ∷ n) k e = cc

  nickname-IsField : IsField nickname
  nickname-IsField = record {
    not_empty = nickname_some nickname h.good_nickname;
    no_delimiter = h.plain;
  }

  pub account_message-tokens :
      tokens (account_message account password nickname) ≡ account ∷ password ∷ nickname ∷ []
  account_message-tokens =
      tokens-join (account ∷ password ∷ nickname ∷ [])
        (account-IsField, (password-IsField, (nickname-IsField, tt)))

  pub account_message-length : length (account_message account password nickname) < 4096
  unfolding join is_account is_password is_nickname
  account_message-length =
      let a : length account ≤ 10 = ground (arith, h.good_account) in
      let p : length password ≤ 10 = ground (arith, h.good_password) in
      let n : length nickname ≤ 20 = ground (arith, h.good_nickname) in
      omega (
        arith,
        length-append account (delimiter ∷ (password ++ delimiter ∷ nickname)),
        length-append password (delimiter ∷ nickname),
      )

  module _ (sock : Socket) (s : State) where
    -- The request for a new account that the client makes of lines that pass its tests is
    -- handled by the server without undefined behaviour, from a state where sessions and rooms
    -- agree and the driver answers, on any machine; where it returns, the state is such a state
    -- again. The nickname must have no delimiter in it and less than 20 bytes, the password
    -- less than 10.
    pub user_make-account_message :
        {E : Host → Type 0}
        → IsSafeOn E s
        → length password < 10
        → length nickname < 20
        → SafeOn E (user_make sock (account_message account password nickname) s)
    user_make-account_message safe fits_password fits_nickname =
        user_make-Safe sock (account_message account password nickname) s safe
          account_message-length (rw account_message-tokens (omega arith))
          (rw account_message-tokens (fits_password, fits_nickname))

    -- A password of ten bytes passes the client's test, and its request is undefined on the
    -- server if the driver answers and no query has a row, as before the first account is made:
    -- the copy of the password has no terminator. The nickname must have no delimiter in it.
    pub user_make-undefined :
        length password ≡ 10
        → HasNone s.database
        → user_make sock (account_message account password nickname) s ≡ undefined
    unfolding user_make make_account text_beq
    user_make-undefined too_long no_account =
        rw
          (
            fields_of_lem 3 (account_message account password nickname) s account_message-length
                (rw account_message-tokens (omega arith)),
            account_message-tokens,
          )
          (rw
            (
              select_user-none (with_vo_id account new_user_vo) s.database no_account
                  (omega (arith, length-take 10 account)),
              insert_user-undefined
                  (new_account account password nickname
                    (found_user (with_vo_id account new_user_vo) none))
                  (asked (take 10 account) s.database) (omega (arith, length-take 10 account))
                  (omega (arith, length-take 10 password)),
            )
            refl)
