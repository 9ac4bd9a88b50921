-- ===== src/Outcome.antt =====
-- Code that changes a state `S` and may end the process, hang, or leave what C++ defines.
use cpp_iocp_server.Prelude.{ℕ, ◌<◌, ◌≡◌, Option, none, some, arith, ltb, length, if◌then◌else◌}
use cpp_iocp_server.Text.{Text}

pub data Outcome (S A : Type 0) : Type 0 where
  returns : A → S → Outcome S A
  -- `exit` was called.
  exits : Outcome S A
  -- Undefined behaviour: an end iterator is read, or an array outside its bounds.
  undefined : Outcome S A
  -- A call that waits for input which does not come.
  hangs : Outcome S A

abbrev pub M : Type 0 → Type 0 → Type 0
M S A = S → Outcome S A

abbrev pub pure : {S A : Type 0} → A → M S A
pure a s = returns a s

abbrev pub fault : {S A : Type 0} → M S A
fault s = undefined

abbrev pub continue : {S A B : Type 0} → Outcome S A → (A → M S B) → Outcome S B
continue (returns a s) f = f a s
continue exits f = exits
continue undefined f = undefined
continue hangs f = hangs

infixl 5 ◌>>=◌ ◌>>◌
abbrev pub ◌>>=◌ : {S A B : Type 0} → M S A → (A → M S B) → M S B
◌>>=◌ m f s = continue (m s) f

abbrev pub ◌>>◌ : {S A B : Type 0} → M S A → M S B → M S B
m >> k = m >>= λ _. k

abbrev pub modify : {S : Type 0} → (S → S) → M S Unit
modify f s = returns tt (f s)

abbrev pub gets : {S A : Type 0} → (S → A) → M S A
gets f s = returns (f s) s

-- `it->second`, where `it` may be the end iterator.
abbrev pub deref : {S A : Type 0} → Option A → M S A
deref none s = undefined
deref (some a) s = returns a s

-- A `char` array of `n` bytes is read as a C string: without a terminator the read runs past it.
abbrev pub c_str : {S : Type 0} → ℕ → Text → M S Text
c_str n buf s = if ltb (length buf) n then returns buf s else undefined

-- What the code returns, and the state after it, meet `Q`; and `E`, `U` or `H` holds where it ends the
-- process, runs into undefined behaviour, or waits for ever.
abbrev pub Spec :
    {S A : Type 0} → Type 0 → Type 0 → Type 0 → (A → S → Type 0) → Outcome S A → Type 0
Spec E U H Q (returns a s) = Q a s
Spec E U H Q exits = E
Spec E U H Q undefined = U
Spec E U H Q hangs = H

pub Spec-continue :
    {S A B : Type 0} (E U H : Type 0) (P : A → S → Type 0) (Q : B → S → Type 0) (m : Outcome S A)
    (f : A → M S B)
    → Spec E U H P m
    → ((a : A) (s : S) → P a s → Spec E U H Q (f a s))
    → Spec E U H Q (continue m f)
Spec-continue E U H P Q (returns a s) f h k = k a s h
Spec-continue E U H P Q exits f h k = h
Spec-continue E U H P Q undefined f h k = h
Spec-continue E U H P Q hangs f h k = h

-- The code does return, or ends the process, or waits for input: it never runs into undefined
-- behaviour.
abbrev pub Post : {S A : Type 0} → (A → S → Type 0) → Outcome S A → Type 0
Post = Spec Unit ⊥ Unit

pub Post-continue :
    {S A B : Type 0} (P : A → S → Type 0) (Q : B → S → Type 0) (m : Outcome S A) (f : A → M S B)
    → Post P m
    → ((a : A) (s : S) → P a s → Post Q (f a s))
    → Post Q (continue m f)
Post-continue = Spec-continue Unit ⊥ Unit

-- Where it is defined, the code returns.
abbrev pub Ends : {S A : Type 0} → (A → S → Type 0) → Outcome S A → Type 0
Ends = Spec ⊥ Unit ⊥

-- The code returns.
abbrev pub Returns : {S A : Type 0} → (A → S → Type 0) → Outcome S A → Type 0
Returns = Spec ⊥ ⊥ ⊥

-- Nothing is said of code that does not return.
abbrev pub Whenever : {S A : Type 0} → (A → S → Type 0) → Outcome S A → Type 0
Whenever = Spec Unit Unit Unit

pub Spec-mono :
    {S A : Type 0} (E U H : Type 0) (P Q : A → S → Type 0) (m : Outcome S A)
    → Spec E U H P m
    → ((a : A) (s : S) → P a s → Q a s)
    → Spec E U H Q m
Spec-mono E U H P Q (returns a s) h k = k a s h
Spec-mono E U H P Q exits h k = h
Spec-mono E U H P Q undefined h k = h
Spec-mono E U H P Q hangs h k = h

pub Post-mono :
    {S A : Type 0} (P Q : A → S → Type 0) (m : Outcome S A)
    → Post P m
    → ((a : A) (s : S) → P a s → Q a s)
    → Post Q m
Post-mono = Spec-mono Unit ⊥ Unit

pub c_str_ok :
    {S : Type 0} (n : ℕ) (buf : Text) (s : S) → length buf < n → c_str n buf s ≡ returns buf s
c_str_ok n buf s h = ground arith
