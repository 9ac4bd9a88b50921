-- ===== src/MemoryPool/Scan.antt =====
-- `ArrayPool::Malloc` looks for a free entry below `cnt`, which counts the free ones.
use cpp_iocp_server.Prelude.{
  ℕ, zero, suc, ◌+◌, ◌-◌, ◌*◌, ◌%◌, ◌^◌, ◌≤◌, ◌<◌, ◌≡◌, refl, ap, ◌∙◌, inl, inr, Bool-cases, Bool,
  true, false, Option, none, some, List, [], ◌∷◌, ◌++◌, arith, replicate, if◌then◌else◌, ◌==◌,
  nat_beq, nat_eq, leb,
}
use cpp_iocp_server.Outcome.{returns, undefined, hangs, M, pure, ◌>>=◌}
use cpp_iocp_server.MemoryPool.{
  ArrayPool, array_pool, entry, set_entry, assign, array_grow, scan, hand_out, array_malloc,
  io_bytes, write_link, list_links, list_pool,
}

-- `n` calls of `Malloc`, and the blocks that they return.
unfoldable pub mallocs : ℕ → ℕ → ℕ → M ArrayPool (List ℕ)
unfolding array_malloc
mallocs size fuel zero = pure []
mallocs size fuel (suc n) = do
  blocks ← mallocs size fuel n
  block ← array_malloc size fuel
  pure (blocks ++ block ∷ [])

-- The first `n` blocks.
unfoldable pub first_blocks : ℕ → ℕ → List ℕ
first_blocks size zero = []
first_blocks size (suc n) = first_blocks size n ++ n * size ∷ []

abbrev next : ArrayPool → ArrayPool
next p = record p { idx = if (p.idx + 1) % 2 ^ 32 == p.cnt then 0 else (p.idx + 1) % 2 ^ 32 }

-- The array when `n` entries are taken and `m` are free.
abbrev taken : ℕ → ℕ → List (Option Bool)
taken n m = replicate n (some true) ++ replicate m (some false)

entry-free : (n m : ℕ) → entry n (taken n (suc m)) ≡ some false
entry-free zero m = refl
entry-free (suc n) m = entry-free n m

entry-taken : (i n m : ℕ) → i < n → entry i (taken n m) ≡ some true
entry-taken i zero m h = absurd (omega arith)
entry-taken zero (suc n) m h = refl
entry-taken (suc i) (suc n) m h = entry-taken i n m (omega arith)

set_entry_lem : (n m : ℕ) → set_entry n true (taken n (suc m)) ≡ some (taken (suc n) m)
set_entry_lem zero m = refl
set_entry_lem (suc n) m = rw (set_entry_lem n m) refl

array_grow-some : (p : ArrayPool) → nat_beq p.cnt 0 ≡ false → array_grow p ≡ p
unfolding array_grow
array_grow-some p h = rw h refl

scan-free :
    (fuel : ℕ) (p : ArrayPool) → entry p.idx p.arr ≡ some false → scan (suc fuel) p ≡ returns tt p
unfolding scan
scan-free fuel p h =
    ap
      (λ e. elim e [
        | none ↦ undefined
        | some true ↦ scan fuel (next p)
        | some false ↦ returns tt p
      ])
      h

scan-taken :
    (fuel : ℕ) (p : ArrayPool)
    → entry p.idx p.arr ≡ some true
    → scan (suc fuel) p ≡ scan fuel (next p)
unfolding scan
scan-taken fuel p h =
    ap
      (λ e. elim e [
        | none ↦ undefined
        | some true ↦ scan fuel (next p)
        | some false ↦ returns tt p
      ])
      h

abbrev with_arr : ArrayPool → List (Option Bool) → ArrayPool
with_arr p arr = record p { arr = arr }

-- The pool when `n` entries are taken and `m` are free.
abbrev pool : ℕ → ℕ → ℕ → ℕ → ArrayPool
pool n m idx len = record { arr = taken n m; cnt = m; idx = idx; len = len; content = λ i. none }

assign-pool :
    (n m idx len : ℕ)
    → assign n true (pool n (suc m) idx len)
      ≡ returns tt (record (pool n (suc m) idx len) { arr = taken (suc n) m })
unfolding assign
assign-pool n m idx len =
    ap
      (λ e. elim e [
        | none ↦ undefined
        | some arr ↦ returns tt (with_arr (pool n (suc m) idx len) arr)
      ])
      (set_entry_lem n m)

hand_out-pool :
    (size n m len : ℕ)
    → suc n < 2 ^ 32
    → hand_out size (pool n (suc m) n len)
      ≡ returns (n * size) (pool (suc n) m (if suc n == m then 0 else suc n) len)
unfolding hand_out
hand_out-pool size n m len small =
    let next_idx : (n + 1) % 2 ^ 32 ≡ suc n = omega arith in
    let fewer : suc m - 1 ≡ m = omega arith in
    rw (assign-pool n m n len, next_idx, fewer)
      (elim (Bool-cases (suc n == m)) [
        | inl e ↦ let same : m - 1 ≡ n = ground (arith, e) in rw (e, same) refl
        | inr e ↦ let same : suc n - 1 ≡ n = omega arith in rw (e, same) refl
      ])

array_malloc-pool :
    (size fuel n m len : ℕ)
    → suc n < 2 ^ 32
    → array_malloc size (suc fuel) (pool n (suc m) n len)
      ≡ returns (n * size) (pool (suc n) m (if suc n == m then 0 else suc n) len)
unfolding array_malloc
array_malloc-pool size fuel n m len small =
    rw
      (
        array_grow-some (pool n (suc m) n len) (ground arith),
        scan-free fuel (pool n (suc m) n len) (entry-free n m),
        hand_out-pool size n m len small,
      )
      refl

-- With as many entries taken as are free, only taken ones are looked at.
scan-taken_only : (fuel n idx len : ℕ) → idx < n → n < 2 ^ 32 → scan fuel (pool n n idx len) ≡ hangs
unfolding scan
scan-taken_only zero n idx len h small = refl
scan-taken_only (suc fuel) n idx len h small =
    scan-taken fuel (pool n n idx len) (entry-taken idx n n h)
    ∙ scan-taken_only fuel n (if (idx + 1) % 2 ^ 32 == n then 0 else (idx + 1) % 2 ^ 32) len
        (ground arith) small

array_malloc-hangs :
    (size fuel k len : ℕ) → 0 < k → k < 2 ^ 32 → array_malloc size fuel (pool k k 0 len) ≡ hangs
unfolding array_malloc
array_malloc-hangs size fuel k len some_blocks small =
    rw
      (
        array_grow-some (pool k k 0 len) (ground arith),
        scan-taken_only fuel k 0 len some_blocks small,
      )
      refl

module _ (size fuel k : ℕ) (small : 2 * k < 2 ^ 32) where
  -- The pool after `n` calls.
  abbrev pub handed : ℕ → ArrayPool
  handed n = pool n (2 * k - n) (if n == k then 0 else n) (2 * k)

  mallocs-handed :
      (n : ℕ)
      → n ≤ k
      → 0 < k
      → mallocs size (suc fuel) n (array_pool (2 * k)) ≡ returns (first_blocks size n) (handed n)
  unfolding mallocs array_pool first_blocks
  mallocs-handed zero h some_blocks =
      let all : 2 * k - 0 ≡ 2 * k = omega arith in
      let none_yet : nat_beq 0 k ≡ false = ground arith in rw (all, none_yet) refl
  mallocs-handed (suc n) h some_blocks =
      let m = 2 * k - n - 1 in
      let free : 2 * k - n ≡ suc m = omega arith in
      let less : 2 * k - suc n ≡ m = omega arith in
      let not_yet : nat_beq n k ≡ false = ground arith in
      let same : nat_beq (suc n) m ≡ nat_beq (suc n) k = ground arith in
      rw (mallocs-handed n (omega arith) some_blocks)
        (rw (not_yet, free, less, array_malloc-pool size fuel n m (2 * k) (omega arith), same) refl)

  -- Of a new ArrayPool of twice `k` blocks the first `k` calls of Malloc return the first `k`
  -- blocks, and the next one does not return, with any fuel. `k` must be positive and twice `k`
  -- less than 2^32.
  pub array_malloc-half :
      0 < k
      → (mallocs size (suc fuel) k (array_pool (2 * k)) ≡ returns (first_blocks size k) (handed k))
        × (mallocs size (suc fuel) (suc k) (array_pool (2 * k)) ≡ hangs)
  unfolding mallocs
  array_malloc-half some_blocks =
      let all = mallocs-handed k (omega arith) some_blocks in
      let half : 2 * k - k ≡ k = omega arith in
      let done : nat_beq k k ≡ true = ground arith in
      (
        all,
        rw all (
            rw (half, done, array_malloc-hangs size (suc fuel) k (2 * k) some_blocks (omega arith))
              refl),
      )

-- The last address is written behind the last block.
list_links-undefined :
    (bytes n pointer : ℕ) (links : List (ℕ × Option ℕ))
    → bytes ≡ pointer + io_bytes * n
    → list_links bytes pointer n links ≡ undefined
unfolding list_links write_link
list_links-undefined bytes zero pointer links h = rw past refl
  where
    past : leb (pointer + 8) bytes ≡ false
    past = ground (arith, h)
list_links-undefined bytes (suc n) pointer links h =
    rw inside (list_links-undefined bytes n (pointer + io_bytes) _ (omega (arith, h)))
  where
    inside : leb (pointer + 8) bytes ≡ true
    inside = ground (arith, h)

-- The constructor of `ListPool` is undefined for every number of blocks: it writes past its memory.
pub list_pool-undefined : (block : ℕ) → list_pool block [] ≡ undefined
unfolding list_pool
list_pool-undefined block = list_links-undefined (io_bytes * block) block 0 [] (omega arith)
