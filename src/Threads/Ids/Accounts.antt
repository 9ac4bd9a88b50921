-- ===== src/Threads/Ids/Accounts.antt =====
-- Log-ins, each with the id that it claims.
use cpp_iocp_server.Prelude.{
  ℕ, suc, ◌≤◌, ◌<◌, ◌≡◌, refl, sym, ap, ◌∙◌, arith, Bool, true, false, List, [], ◌∷◌, ◌++◌, ◌==◌,
  insert, contains, nat_eq, text_eq, text_beq_iff, if◌then◌else◌, Bool-cases, inl, inr, length,
  length-take, take_all,
}
use cpp_iocp_server.Text.{Text, strncpy, utf8}
use cpp_iocp_server.Outcome.{Whenever, Spec-mono}
use cpp_iocp_server.Common.{Socket, status_logout, login_before_message}
use cpp_iocp_server.State.{Session, State}
use cpp_iocp_server.Business.Basics.{reply}
use cpp_iocp_server.Business.Account.{session_at_login}
use cpp_iocp_server.Threads.{last}
use cpp_iocp_server.Threads.Handlers.{
  greet_cut, put_session, init_user_cut, make_account_cut, user_make_cut, claim_id, enter_once_cut,
  log_in_cut, user_enter_cut,
}
use cpp_iocp_server.Threads.Ids.{user_ids, count, IsFair, IsHonest, section-IsHonest}
use cpp_iocp_server.Threads.Ids.Neutral.{IsNeutral, done-IsNeutral, last-IsNeutral, neutral}
use cpp_iocp_server.Threads.Ids.Keeps.Changes.{reply-Keeps}

make_account-IsNeutral :
    (x : Text) (sock : Socket) (fields : List Text) → IsNeutral x (make_account_cut sock fields)
unfolding make_account_cut
make_account-IsNeutral x sock [] = done-IsNeutral x
make_account-IsNeutral x sock (a ∷ []) = done-IsNeutral x
make_account-IsNeutral x sock (a ∷ b ∷ []) = done-IsNeutral x
make_account-IsNeutral x sock (id ∷ password ∷ nick_name ∷ rest) = search neutral depth 20

pub user_make-IsNeutral :
    (x : Text) (sock : Socket) (message : Text) → IsNeutral x (user_make_cut sock message)
unfolding user_make_cut
user_make-IsNeutral x sock message = search (neutral, make_account-IsNeutral) depth 20

-- A session is put in the place of one that the socket has, or behind the others.
count-insert :
    (x : Text) (sock : Socket) (u : Session) (users : List (Socket × Session))
    → count x (user_ids (insert sock u users)) ≤ suc (count x (user_ids users))
unfolding count insert
count-insert x sock u [] = ground arith
count-insert x sock u ((j, v) ∷ users) = ground (arith, count-insert x sock u users)

count-insert_other :
    (x : Text) (sock : Socket) (u : Session) (users : List (Socket × Session))
    → (u.user_id == x) ≡ false
    → count x (user_ids (insert sock u users)) ≤ count x (user_ids users)
unfolding count insert
count-insert_other x sock u [] other = ground arith
count-insert_other x sock u ((j, v) ∷ users) other =
    ground (arith, count-insert_other x sock u users other)

-- A short id is the first twenty bytes of no other.
eq_of_strncpy : (x id : Text) → length x < 20 → strncpy 20 id ≡ x → id ≡ x
eq_of_strncpy x id short e =
    let few : length id ≤ 20 = omega (arith, length-take 20 id, ap length e) in
    sym (take_all 20 id few) ∙ e

strncpy_other : (x id : Text) → length x < 20 → (id == x) ≡ false → (strncpy 20 id == x) ≡ false
strncpy_other x id short other = elim (Bool-cases (strncpy 20 id == x)) [
  | inl e ↦
      let same : (id == x) ≡ true =
        (text_beq_iff id x).1 (eq_of_strncpy x id short ((text_beq_iff (strncpy 20 id) x).0 e)) in
      cc
  | inr e ↦ e
]

greet-IsNeutral :
    (x id : Text) (sock : Socket) (nick_name : Text) → IsNeutral x (greet_cut id sock nick_name)
unfolding greet_cut
greet-IsNeutral x id sock nick_name = search neutral depth 20

-- The session takes the claim.
init_user-IsHonest :
    (x id : Text) (sock : Socket) (nick_name : Text) (t : ℕ)
    → IsHonest x (suc t) (init_user_cut id sock nick_name)
unfolding init_user_cut
init_user-IsHonest x id sock nick_name t =
    section-IsHonest x (suc t) (λ _. t) (put_session id sock nick_name)
      (λ _. greet_cut id sock nick_name)
      λ s. (
        omega (arith, count-insert x sock (session_at_login id nick_name) s.user_map),
        (greet-IsNeutral x id sock nick_name).at t,
      )

init_user_other-IsHonest :
    (x id : Text) (sock : Socket) (nick_name : Text) (t : ℕ)
    → length x < 20
    → (id == x) ≡ false
    → IsHonest x t (init_user_cut id sock nick_name)
unfolding init_user_cut
init_user_other-IsHonest x id sock nick_name t short other =
    section-IsHonest x t (λ _. t) (put_session id sock nick_name) (λ _. greet_cut id sock nick_name)
      λ s. (
        omega (
          arith,
          count-insert_other x sock (session_at_login id nick_name) s.user_map
              (strncpy_other x id short other),
        ),
        (greet-IsNeutral x id sock nick_name).at t,
      )

-- The claim under `idCs`.
abbrev claimed : Text → Text → ℕ → Bool → ℕ
claimed x id t is_taken = if is_taken then t else if id == x then suc t else t

contains_self : (id x : Text) (ids : List Text) → (id == x) ≡ true → contains (id ∷ ids) x ≡ true
unfolding contains
contains_self id x ids e = rw e refl

contains_other :
    (id x : Text) (ids : List Text) → (id == x) ≡ false → contains (id ∷ ids) x ≡ contains ids x
unfolding contains
contains_other id x ids e = rw e refl

claim-IsFair :
    (x id : Text) (t : ℕ) (s : State)
    → Whenever (λ b s'. IsFair x t (claimed x id t b) s s') (claim_id id s)
unfolding claim_id
claim-IsFair x id t s = elim (Bool-cases (contains s.id_set id)) [
  | inl taken ↦ rw taken (omega arith)
  | inr free ↦ rw free (elim (Bool-cases (id == x)) [
    | inl own ↦
        (let still_free : contains s.id_set x ≡ false =
            ap (contains s.id_set) (sym ((text_beq_iff id x).0 own)) ∙ free in
          rw (own, contains_self id x s.id_set own, still_free) (omega arith))
    | inr other ↦ rw (other, contains_other id x s.id_set other) (omega arith)
  ])
]

enter_once-IsHonest :
    (x id : Text) (sock : Socket) (nick_name : Text) (t : ℕ)
    → length x < 20
    → IsHonest x t (enter_once_cut sock id nick_name)
unfolding enter_once_cut
enter_once-IsHonest x id sock nick_name t short =
    section-IsHonest x t (claimed x id t) (claim_id id) _ λ s.
      Spec-mono Unit Unit Unit (λ b s'. IsFair x t (claimed x id t b) s s') _ (claim_id id s)
        (claim-IsFair x id t s) (λ b s' fair. (fair, next b))
  where
    next :
        (b : Bool)
        → IsHonest x (claimed x id t b) (
            if b
            then last (reply sock (utf8 "중복 로그인은 안됩니다!\n" ++ login_before_message) status_logout)
            else init_user_cut id sock nick_name)
    next true =
        (last-IsNeutral x _
            (reply-Keeps sock (utf8 "중복 로그인은 안됩니다!\n" ++ login_before_message) status_logout)).at
          t
    next false = elim (Bool-cases (id == x)) [
      | inl own ↦ rw own (init_user-IsHonest x id sock nick_name t)
      | inr other ↦ rw other (init_user_other-IsHonest x id sock nick_name t short other)
    ]

enter_once-IsNeutral :
    (x id : Text) (sock : Socket) (nick_name : Text)
    → length x < 20
    → IsNeutral x (enter_once_cut sock id nick_name)
enter_once-IsNeutral x id sock nick_name short = record {
  at = λ t. enter_once-IsHonest x id sock nick_name t short;
}

log_in-IsNeutral :
    (x : Text) (sock : Socket) (fields : List Text)
    → length x < 20
    → IsNeutral x (log_in_cut sock fields)
unfolding log_in_cut
log_in-IsNeutral x sock [] short = done-IsNeutral x
log_in-IsNeutral x sock (a ∷ []) short = done-IsNeutral x
log_in-IsNeutral x sock (id ∷ password ∷ rest) short =
    search (neutral, enter_once-IsNeutral) depth 20

pub user_enter-IsNeutral :
    (x : Text) (sock : Socket) (message : Text)
    → length x < 20
    → IsNeutral x (user_enter_cut sock message)
unfolding user_enter_cut
user_enter-IsNeutral x sock message short = search (neutral, log_in-IsNeutral) depth 20
