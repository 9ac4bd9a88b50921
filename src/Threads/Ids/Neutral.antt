-- ===== src/Threads/Ids/Neutral.antt =====
-- Work that keeps the claims of its thread as they are.
use cpp_iocp_server.Prelude.{
  ℕ, zero, ap, arith, Bool, true, false, contains, nat_eq, text_eq, if◌then◌else◌,
}
use cpp_iocp_server.Text.{Text}
use cpp_iocp_server.Outcome.{M, Spec-mono}
use cpp_iocp_server.State.{State}
use cpp_iocp_server.Threads.{Work, done, and_then, ◌>>=◌, last}
use cpp_iocp_server.Threads.Ids.{
  count, IsFair, IsHonest, section-IsHonest, done-IsHonest, and_then_at-IsHonest,
}
use cpp_iocp_server.Threads.Ids.Keeps.{Same, Keeps, c_str-Keeps, dao-Keeps, fields_of-Keeps}
use cpp_iocp_server.Threads.Ids.Keeps.Changes.{reply-Keeps}

-- Honest with any claims, which it leaves as they are but for its own.
pub record IsNeutral (x : Text) (w : Work) : Type 0 where
  pub at : (t : ℕ) → IsHonest x t w

Same-IsFair : (x : Text) (t : ℕ) (s s' : State) → Same s s' → IsFair x t t s s'
Same-IsFair x t s s' p =
    omega (arith, ap (count x) p.1, ap (λ ids. if contains ids x then ℕ.suc zero else 0) p.0)

pub section-IsNeutral :
    {A : Type 0} (x : Text) (m : M State A) (k : A → Work)
    → Keeps m
    → ((a : A) → IsNeutral x (k a))
    → IsNeutral x (m >>= k)
section-IsNeutral x m k h g = record {
  at = λ t.
      section-IsHonest x t (λ _. t) m k
        λ s.
          Spec-mono Unit Unit Unit (λ _ s'. Same s s') _ (m s) (h.at s)
            (λ a s' p. (Same-IsFair x t s s' p, (g a).at t));
}

pub done-IsNeutral : (x : Text) → IsNeutral x done
done-IsNeutral x = record { at = done-IsHonest x }

pub last-IsNeutral : (x : Text) (m : M State Unit) → Keeps m → IsNeutral x (last m)
last-IsNeutral x m h = section-IsNeutral x m (λ _. done) h (λ _. done-IsNeutral x)

pub if-IsNeutral :
    (x : Text) (b : Bool) (v w : Work)
    → IsNeutral x v
    → IsNeutral x w
    → IsNeutral x (if b then v else w)
if-IsNeutral x true v w h k = h
if-IsNeutral x false v w h k = k

pub and_then-IsNeutral :
    (x : Text) (w v : Work) → IsNeutral x w → IsNeutral x v → IsNeutral x (and_then w v)
and_then-IsNeutral x w v h k = record { at = λ t. and_then_at-IsHonest x t w v (h.at t) k.at }

pub ruleset neutral = (
  section-IsNeutral, last-IsNeutral, if-IsNeutral, done-IsNeutral, c_str-Keeps, dao-Keeps,
  reply-Keeps, fields_of-Keeps,
)
