-- ===== src/Pool/Runs.antt =====
-- Runs of `Malloc` and `Free` on a pool, in any order, and where its blocks are in memory.
use cpp_iocp_server.Prelude.{ℕ, suc, ◌+◌, ◌*◌, ◌≤◌, ◌<◌, ◌≡◌, ◌≢◌, ◌⊎◌, true, some, arith, contains}
use native.Mathlib.Nat.{mul-suc, mul-le-mul_left}
use cpp_iocp_server.Pool.{
  Block, block_beq_iff, block_eq, Kind, Pool, new_pool, Allocated, malloc, free_block,
}
use cpp_iocp_server.Pool.Blocks.{
  chunk_size, IsPool, HandsOut, new_pool-IsPool, malloc-IsPool, free_block-IsPool,
}

-- The pools that calls of `Malloc` and `Free` lead to, one after the other, where what `top` refers to
-- is still there. Only a block that is handed out is freed.
pub data Reached (k : Kind) : Pool → Type 0 where
  starts : Reached k (new_pool k)
  mallocs : {p : Pool} (a : Allocated) → Reached k p → malloc k true p ≡ some a → Reached k a.pool
  frees :
      {p : Pool} (b : Block) → Reached k p → contains p.used b ≡ true → Reached k (free_block k b p)

Reached-IsPool : {k : Kind} {p : Pool} → 0 < k.added → Reached k p → IsPool k p
Reached-IsPool {k} added starts = new_pool-IsPool k
Reached-IsPool {k} added (mallocs {p} a r m) =
    let out = malloc-IsPool k p added (Reached-IsPool added r) in
    let same : out.0 ≡ a = ground (arith, out.1.0) in rw (← same) (out.1.1.0)
Reached-IsPool {k} added (frees {p} b r out) = free_block-IsPool k b p (Reached-IsPool added r) out

-- Malloc succeeds after every run of Malloc and Free that frees only what is handed out, on any
-- of the pools, when the calls come one after the other and what the local variable of `top`
-- held is still there when its reference is read: it hands out a block that is in no one's
-- hands, and the blocks that are handed out are then this one and those from before. At least
-- one block must be added when none is left.
pub Reached-malloc :
    (k : Kind) (p : Pool) → 0 < k.added → Reached k p → HandsOut k p.used (malloc k true p)
Reached-malloc k p added r = malloc-IsPool k p added (Reached-IsPool added r)

-- Where a block begins; `base` is what `malloc` and `new` returned for each allocation.
abbrev pub address : Kind → (ℕ → ℕ) → Block → ℕ
address k base b = base b.chunk + k.size * b.index

-- The bytes from `a` up to `a + m` and those from `b` up to `b + n` have none in common.
abbrev pub Apart : ℕ → ℕ → ℕ → ℕ → Type 0
Apart a m b n = (a + m ≤ b) ⊎ (b + n ≤ a)

rows : (s i n : ℕ) → i < n → s * i + s ≤ s * n
rows s i n h = omega (arith, mul-suc s i, mul-le-mul_left {m = suc i} {n = n} s (omega arith))

-- Two different blocks that are handed out after a run of Malloc and Free, one after the other,
-- each with the local variable of `top` still there when it is read, have no byte in common, if
-- no two allocations of the pool have, if only what is handed out is freed, and if at least one
-- block is added when none is left.
pub Reached-Apart :
    (k : Kind) (base : ℕ → ℕ) (p : Pool) (a b : Block)
    → 0 < k.added
    → ((i j : ℕ)
        → i ≢ j
        → Apart (base i) (k.size * chunk_size k i) (base j) (k.size * chunk_size k j))
    → Reached k p
    → contains p.used a ≡ true
    → contains p.used b ≡ true
    → a ≢ b
    → Apart (address k base a) k.size (address k base b) k.size
Reached-Apart k base p a b added disjoint r out_a out_b differ =
    let h = Reached-IsPool added r in
    let in_a : (a.index < chunk_size k a.chunk) = ground (arith, h.all a) in
    let in_b : (b.index < chunk_size k b.chunk) = ground (arith, h.all b) in
    ground (
      arith,
      rows k.size a.index b.index,
      rows k.size b.index a.index,
      rows k.size a.index (chunk_size k a.chunk) in_a,
      rows k.size b.index (chunk_size k b.chunk) in_b,
      disjoint a.chunk b.chunk,
      block_beq_iff a b,
    )
