-- ===== src/Prelude/Maps.antt =====
-- `std::map` and `std::unordered_map` as lists of pairs, in the order of iteration.
use mathlib.Core.Bool.{Bool}
use mathlib.Core.List.{List, [], ◌∷◌}
use mathlib.Core.Option.{Option, none, some}
use mathlib.Core.Path.{◌≡◌, refl}
use native.Mathlib.Omega.{arith}
use cpp_iocp_server.Prelude.Tests.{Eq, ◌==◌, if◌then◌else◌}

module _ {ℓ κ} {K : Type ℓ} {V : Type κ} ⦃e : Eq K⦄ where
  unfoldable pub lookup : K → List (K × V) → Option V
  lookup k [] = none
  lookup k ((j, value) ∷ entries) = if j == k then some value else lookup k entries

  -- `m[k] = v` of an unordered map. The place of a new key is not specified in C++; here it is last.
  unfoldable pub insert : K → V → List (K × V) → List (K × V)
  insert k value [] = (k, value) ∷ []
  insert k value ((j, old) ∷ entries) =
      if j == k then (k, value) ∷ entries else (j, old) ∷ insert k value entries

  -- `m[k] = v` of an ordered map, whose keys rise by `less`.
  unfoldable pub insert_sorted : (K → K → Bool) → K → V → List (K × V) → List (K × V)
  insert_sorted less k value [] = (k, value) ∷ []
  insert_sorted less k value ((j, old) ∷ entries) =
      if j == k
      then (k, value) ∷ entries
      else if less k j
      then (k, value) ∷ (j, old) ∷ entries
      else (j, old) ∷ insert_sorted less k value entries

  -- `m.erase(k)`
  unfoldable pub erase : K → List (K × V) → List (K × V)
  erase k [] = []
  erase k ((j, old) ∷ entries) = if j == k then erase k entries else (j, old) ∷ erase k entries

  pub lookup-insert :
      (k j : K) (value : V) (entries : List (K × V))
      → lookup j (insert k value entries) ≡ (if k == j then some value else lookup j entries)
  unfolding lookup insert
  lookup-insert k j value [] = refl
  lookup-insert k j value ((i, old) ∷ entries) =
      ground (arith, e.agrees k j, e.agrees i k, e.agrees i j, lookup-insert k j value entries)

  pub lookup-insert_sorted :
      (less : K → K → Bool) (k j : K) (value : V) (entries : List (K × V))
      → lookup j (insert_sorted less k value entries)
        ≡ (if k == j then some value else lookup j entries)
  unfolding lookup insert_sorted
  lookup-insert_sorted less k j value [] = refl
  lookup-insert_sorted less k j value ((i, old) ∷ entries) =
      ground (
        arith,
        e.agrees k j,
        e.agrees i k,
        e.agrees i j,
        lookup-insert_sorted less k j value entries,
      )

  pub lookup-erase :
      (k j : K) (entries : List (K × V))
      → lookup j (erase k entries) ≡ (if k == j then none else lookup j entries)
  unfolding lookup erase
  lookup-erase k j [] = ground arith
  lookup-erase k j ((i, old) ∷ entries) =
      ground (arith, e.agrees k j, e.agrees i k, e.agrees i j, lookup-erase k j entries)
