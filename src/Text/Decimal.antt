-- ===== src/Text/Decimal.antt =====
-- `to_string` and `%d`: numbers in decimal.
use cpp_iocp_server.Prelude.{
  ℕ, zero, suc, ◌+◌, ◌-◌, ◌*◌, ◌/◌, ◌%◌, ◌<◌, ◌≡◌, refl, List, [], ◌∷◌, ◌++◌, arith, ltb,
  if◌then◌else◌,
}

-- The digits of `n`, most significant first. `fuel` bounds their number.
unfoldable pub digits : ℕ → ℕ → List ℕ
digits zero n = []
digits (suc fuel) n =
    let rest = digits fuel (n / 10) ++ (b'0' + n % 10) ∷ [] in
    if ltb n 10 then (b'0' + n) ∷ [] else rest

unfoldable pub decimal : ℕ → List ℕ
unfolding digits
decimal n = digits (suc n) n

-- The number that a row of digits stands for, read from the left.
abbrev pub read_from : ℕ → List ℕ → ℕ
read_from acc [] = acc
read_from acc (c ∷ s) = read_from (10 * acc + (c - b'0')) s

pub read_from-append :
    (acc : ℕ) (s t : List ℕ) → read_from acc (s ++ t) ≡ read_from (read_from acc s) t
read_from-append acc [] t = refl
read_from-append acc (c ∷ s) t = read_from-append (10 * acc + (c - b'0')) s t

read-digits : (fuel n : ℕ) → n < fuel → read_from 0 (digits fuel n) ≡ n
unfolding digits
read-digits zero n h = absurd (omega arith)
read-digits (suc fuel) n h = ground (
  arith,
  read-digits fuel (n / 10),
  read_from-append 0 (digits fuel (n / 10)) ((b'0' + n % 10) ∷ []),
)

-- Reading what `decimal` prints gives the number back, for every number.
pub read-decimal : (n : ℕ) → read_from 0 (decimal n) ≡ n
unfolding decimal
read-decimal n = read-digits (suc n) n (omega arith)
