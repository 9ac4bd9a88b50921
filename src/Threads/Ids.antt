-- ===== src/Threads/Ids.antt =====
-- How many sessions an id has, while threads take turns.
pub mod Neutral
pub mod Keeps
pub mod Accounts
pub mod Requests
pub mod Jobs
use cpp_iocp_server.Prelude.{
  ℕ, zero, suc, ◌+◌, ◌≤◌, ◌<◌, ◌≡◌, refl, ap, arith, Bool, true, false, some, List, [], ◌∷◌, ◌==◌,
  map, lookup, insert, contains, nat_eq, text_eq, if◌then◌else◌, Bool-cases, inl, inr, All,
}
use cpp_iocp_server.Text.{Text}
use cpp_iocp_server.Outcome.{
  Outcome, returns, exits, undefined, hangs, M, Whenever, continue, Spec-continue, Spec-mono,
}
use cpp_iocp_server.Common.{Socket}
use cpp_iocp_server.State.{Session, State}
use cpp_iocp_server.Threads.{
  Work, done, section, After, goes_on, ends_process, goes_wrong, waits, after, and_then, after_then,
  advance, rest, turn, interleave, ◌>>=◌, last,
}

-- The ids of the sessions.
abbrev pub user_ids : List (Socket × Session) → List Text
user_ids [] = []
user_ids ((sock, u) ∷ users) = u.user_id ∷ user_ids users

unfoldable pub count : Text → List Text → ℕ
count x [] = 0
count x (y ∷ ys) = if y == x then suc (count x ys) else count x ys

-- The sessions that an id has.
abbrev pub sessions_of : Text → State → ℕ
sessions_of x s = count x (user_ids s.user_map)

-- One if the id is in `idSet`.
abbrev pub claims : Text → State → ℕ
claims x s = if contains s.id_set x then 1 else 0

-- A thread that has put the id into `idSet`, and has not made its session yet, holds a claim. A step
-- from `t` claims to `t'` makes no session but by a claim, and no claim but by the id in `idSet`.
abbrev pub IsFair : Text → ℕ → ℕ → State → State → Type 0
IsFair x t t' s s' = t' + sessions_of x s' + claims x s ≤ t + sessions_of x s + claims x s'

-- All that a thread may still do is fair, from `t` claims.
unfoldable mutual
  pub IsHonest : Text → ℕ → Work → Type 0
  IsHonest x t done = Unit
  IsHonest x t (section f) = (s : State) → IsHonestAfter x t s (f s)

  pub IsHonestAfter : Text → ℕ → State → After → Type 0
  IsHonestAfter x t s (goes_on w s') = (t' : ℕ) × IsHonest x t' w × IsFair x t t' s s'
  IsHonestAfter x t s ends_process = Unit
  IsHonestAfter x t s goes_wrong = Unit
  IsHonestAfter x t s waits = Unit

-- The threads, each with its claims.
abbrev AllHonest : Text → List ℕ → List Work → Type 0
AllHonest x [] [] = Unit
AllHonest x (t ∷ ts) (w ∷ ws) = IsHonest x t w × AllHonest x ts ws
AllHonest x _ _ = ⊥

abbrev total : List ℕ → ℕ
total [] = 0
total (t ∷ ts) = t + total ts

record IsAccounted (x : Text) (ts : List ℕ) (s : State) (ws' : List Work) (s' : State)
    : Type 0 where
  claims_after : List ℕ
  honest : AllHonest x claims_after ws'
  fair : IsFair x (total ts) (total claims_after) s s'

-- Nothing is accounted twice.
IsAccounted-trans :
    (x : Text) (ts : List ℕ) (s s1 s' : State) (ws1 ws' : List Work) (p : IsAccounted x ts s ws1 s1)
    → IsAccounted x p.claims_after s1 ws' s'
    → IsAccounted x ts s ws' s'
IsAccounted-trans x ts s s1 s' ws1 ws' p q = record {
  claims_after = q.claims_after;
  honest = q.honest;
  fair = omega (arith, p.fair, q.fair);
}

-- A turn of a thread.
turn-IsAccounted :
    (x : Text) (i : ℕ) (ts : List ℕ) (ws : List Work) (s : State)
    → AllHonest x ts ws
    → Whenever (IsAccounted x ts s) (turn i ws s)
unfolding turn IsHonest
turn-IsAccounted x zero [] [] s h = record { claims_after = []; honest = tt; fair = omega arith }
turn-IsAccounted x (suc i) [] [] s h = record { claims_after = []; honest = tt; fair = omega arith }
turn-IsAccounted x zero [] (w ∷ ws) s h = elim h [ ]
turn-IsAccounted x zero (t ∷ ts) [] s h = elim h [ ]
turn-IsAccounted x (suc i) [] (w ∷ ws) s h = elim h [ ]
turn-IsAccounted x (suc i) (t ∷ ts) [] s h = elim h [ ]
turn-IsAccounted x zero (t ∷ ts) (done ∷ ws) s h = record {
  claims_after = t ∷ ts;
  honest = h;
  fair = omega arith;
}
turn-IsAccounted x zero (t ∷ ts) (section f ∷ ws) s h = by_result (f s) (h.0 s)
  where
    by_result :
        (r : After)
        → IsHonestAfter x t s r
        → Whenever (IsAccounted x (t ∷ ts) s) (continue (rest r) (λ w' s'. returns (w' ∷ ws) s'))
    by_result (goes_on w s') p = record {
      claims_after = p.0 ∷ ts;
      honest = (p.1, h.1);
      fair = omega (arith, p.2);
    }
    by_result ends_process p = tt
    by_result goes_wrong p = tt
    by_result waits p = tt
turn-IsAccounted x (suc i) (t ∷ ts) (w ∷ ws) s h =
    Spec-continue Unit Unit Unit (IsAccounted x ts s) (IsAccounted x (t ∷ ts) s) (turn i ws s) _
      (turn-IsAccounted x i ts ws s h.1)
      (λ ws' s' p. record {
        claims_after = t ∷ p.claims_after;
        honest = (h.0, p.honest);
        fair = omega (arith, p.fair);
      })

interleave-IsAccounted :
    (x : Text) (is : List ℕ) (ts : List ℕ) (ws : List Work) (s : State)
    → AllHonest x ts ws
    → Whenever (IsAccounted x ts s) (interleave is ws s)
unfolding interleave
interleave-IsAccounted x [] ts ws s h = record { claims_after = ts; honest = h; fair = omega arith }
interleave-IsAccounted x (i ∷ is) ts ws s h =
    Spec-continue Unit Unit Unit (IsAccounted x ts s) (IsAccounted x ts s) (turn i ws s)
      (interleave is) (turn-IsAccounted x i ts ws s h)
      (λ ws1 s1 p.
        Spec-mono Unit Unit Unit (IsAccounted x p.claims_after s1) (IsAccounted x ts s)
          (interleave is ws1 s1) (interleave-IsAccounted x is p.claims_after ws1 s1 p.honest)
          (λ ws' s' q. IsAccounted-trans x ts s s1 s' ws1 ws' p q))

no_claims : List Work → List ℕ
no_claims [] = []
no_claims (w ∷ ws) = 0 ∷ no_claims ws

total-no_claims : (ws : List Work) → total (no_claims ws) ≡ 0
unfolding no_claims
total-no_claims [] = refl
total-no_claims (w ∷ ws) = omega (arith, total-no_claims ws)

-- Threads that are honest without a claim never make more sessions than the id's one, and none while
-- the id is not in `idSet`.
pub interleave-sessions_of :
    (x : Text) (is : List ℕ) (ws : List Work) (s : State)
    → All (IsHonest x 0) ws
    → sessions_of x s ≤ claims x s
    → Whenever (λ _ s'. sessions_of x s' ≤ claims x s') (interleave is ws s)
unfolding no_claims
interleave-sessions_of x is ws s h k =
    Spec-mono Unit Unit Unit (IsAccounted x (no_claims ws) s) _ (interleave is ws s)
      (interleave-IsAccounted x is (no_claims ws) ws s (at_start ws h))
      (λ ws' s' p. omega (arith, p.fair, total-no_claims ws))
  where
    at_start : (vs : List Work) → All (IsHonest x 0) vs → AllHonest x (no_claims vs) vs
    at_start [] g = tt
    at_start (v ∷ vs) g = (g.0, at_start vs g.1)

-- A section, by what it leaves and the claims after each result.
pub section-IsHonest :
    {A : Type 0} (x : Text) (t : ℕ) (t' : A → ℕ) (m : M State A) (k : A → Work)
    → ((s : State) → Whenever (λ a s'. IsFair x t (t' a) s s' × IsHonest x (t' a) (k a)) (m s))
    → IsHonest x t (m >>= k)
unfolding IsHonest
section-IsHonest {A} x t t' m k h s = by_result (m s) (h s)
  where
    by_result :
        (r : Outcome State A)
        → Whenever (λ a s'. IsFair x t (t' a) s s' × IsHonest x (t' a) (k a)) r
        → IsHonestAfter x t s (after r k)
    by_result (returns a s') p = (t' a, p.1, p.0)
    by_result exits p = tt
    by_result undefined p = tt
    by_result hangs p = tt

pub done-IsHonest : (x : Text) (t : ℕ) → IsHonest x t done
unfolding IsHonest
done-IsHonest x t = tt

mutual
  unfolding IsHonest and_then

  pub and_then_at-IsHonest :
      (x : Text) (t : ℕ) (w v : Work)
      → IsHonest x t w
      → ((t' : ℕ) → IsHonest x t' v)
      → IsHonest x t (and_then w v)
  and_then_at-IsHonest x t done v h k = k t
  and_then_at-IsHonest x t (section f) v h k = λ s. after_then-IsHonest x t s (f s) v (h s) k

  after_then-IsHonest :
      (x : Text) (t : ℕ) (s : State) (r : After) (v : Work)
      → IsHonestAfter x t s r
      → ((t' : ℕ) → IsHonest x t' v)
      → IsHonestAfter x t s (after_then r v)
  after_then-IsHonest x t s (goes_on w s') v h k = (h.0, and_then_at-IsHonest x h.0 w v h.1 k, h.2)
  after_then-IsHonest x t s ends_process v h k = tt
  after_then-IsHonest x t s goes_wrong v h k = tt
  after_then-IsHonest x t s waits v h k = tt
