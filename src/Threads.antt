-- ===== src/Threads.antt =====
-- Threads that run at the same time: what a handler does is cut at its locks. Between two sections
-- any other thread may take its turn. A section is what the source does under one lock, or one access
-- outside the locks.
pub mod Handlers
pub mod Requests
pub mod Dispatch
pub mod Jobs
pub mod Ids
pub mod Races
use cpp_iocp_server.Prelude.{ℕ, zero, suc, List, [], ◌∷◌}
use cpp_iocp_server.Outcome.{Outcome, returns, exits, undefined, hangs, M, continue}
use cpp_iocp_server.State.{State}

-- What a thread has still to do.
mutual
  pub data Work : Type 0 where
    done : Work
    section : (State → After) → Work

  -- What a section leaves: the rest, or the end of all by `exit`, undefined behaviour or a wait for
  -- ever.
  pub data After : Type 0 where
    goes_on : Work → State → After
    ends_process : After
    goes_wrong : After
    waits : After

abbrev pub after : {A : Type 0} → Outcome State A → (A → Work) → After
after (returns a s) k = goes_on (k a) s
after exits k = ends_process
after undefined k = goes_wrong
after hangs k = waits

-- A section, and what follows it.
infixl 5 ◌>>=◌ ◌>>◌
abbrev pub ◌>>=◌ : {A : Type 0} → M State A → (A → Work) → Work
m >>= k = section (λ s. after (m s) k)

abbrev pub ◌>>◌ : {A : Type 0} → M State A → Work → Work
m >> k = m >>= λ _. k

-- The last section.
abbrev pub last : M State Unit → Work
last m = m >> done

-- One work and then another, by the same thread.
unfoldable mutual
  pub and_then : Work → Work → Work
  and_then done v = v
  and_then (section f) v = section (λ s. after_then (f s) v)

  pub after_then : After → Work → After
  after_then (goes_on w s) v = goes_on (and_then w v) s
  after_then ends_process v = ends_process
  after_then goes_wrong v = goes_wrong
  after_then waits v = waits

-- The next section of a thread. One that is done stays so.
abbrev pub rest : After → Outcome State Work
rest (goes_on w s) = returns w s
rest ends_process = exits
rest goes_wrong = undefined
rest waits = hangs

abbrev pub advance : Work → M State Work
advance done s = returns done s
advance (section f) s = rest (f s)

-- The turn of the thread at a place.
unfoldable pub turn : ℕ → List Work → M State (List Work)
turn i [] s = returns [] s
turn zero (w ∷ ws) s = continue (advance w s) (λ w' s'. returns (w' ∷ ws) s')
turn (suc i) (w ∷ ws) s = continue (turn i ws s) (λ ws' s'. returns (w ∷ ws') s')

-- The turns that a schedule gives.
unfoldable pub interleave : List ℕ → List Work → M State (List Work)
unfolding turn
interleave [] ws s = returns ws s
interleave (i ∷ is) ws s = continue (turn i ws s) (interleave is)
