-- ===== src/Pool/Blocks.antt =====
-- Which blocks a pool has: in the queue or handed out, and none twice.
use cpp_iocp_server.Prelude.{
  ℕ, zero, suc, ◌+◌, ◌<◌, ◌≡◌, refl, ap, sym, ◌∙◌, subst, inl, inr, Bool, true, false, ◌&&◌, ◌||◌,
  Bool-cases, Option, some, List, [], ◌∷◌, ◌++◌, arith, contains, contains-append, contains-remove,
  remove, ltb, leb,
}
use cpp_iocp_server.Pool.{
  Block, block_beq_iff, block_eq, Kind, Pool, blocks_of, new_pool, grow, Allocated, malloc,
  take_front, grow_if_empty, free_block,
}

-- No element stands twice in a list.
abbrev pub Distinct : List Block → Type 0
Distinct [] = Unit
Distinct (b ∷ bs) = (contains bs b ≡ false) × Distinct bs

-- The number of blocks of an allocation.
abbrev pub chunk_size : Kind → ℕ → ℕ
chunk_size k zero = k.first
chunk_size k (suc n) = k.added

abbrev pub is_block : Kind → Pool → Block → Bool
is_block k p b = ltb b.chunk p.chunks && ltb b.index (chunk_size k b.chunk)

-- Every block of the allocations is in the queue or handed out, never both, and never twice.
pub record IsPool (k : Kind) (p : Pool) : Type 0 where
  pub free_distinct : Distinct p.free
  pub used_distinct : Distinct p.used
  pub apart : (b : Block) → contains p.free b ≡ true → contains p.used b ≡ false
  pub all : (b : Block) → (contains p.free b || contains p.used b) ≡ is_block k p b
  pub some_chunk : 0 < p.chunks

contains-blocks_of :
    (c from n : ℕ) (b : Block)
    → contains (blocks_of c from n) b ≡ (
        block_eq.equals record { chunk = c; index = b.index } b
        && (leb from b.index && ltb b.index (from + n)))
unfolding blocks_of contains
contains-blocks_of c from zero b = ground arith
contains-blocks_of c from (suc n) b = ground (arith, contains-blocks_of c (suc from) n b)

blocks_of-Distinct : (c from n : ℕ) → Distinct (blocks_of c from n)
unfolding blocks_of
blocks_of-Distinct c from zero = tt
blocks_of-Distinct c from (suc n) = (
  ground (arith, contains-blocks_of c (suc from) n record { chunk = c; index = from }),
  blocks_of-Distinct c (suc from) n,
)

Distinct-append :
    (xs ys : List Block)
    → Distinct xs
    → Distinct ys
    → ((b : Block) → contains xs b ≡ true → contains ys b ≡ false)
    → Distinct (xs ++ ys)
unfolding contains
Distinct-append [] ys h k apart = k
Distinct-append (x ∷ xs) ys h k apart = (
  ground (arith, contains-append xs ys x, apart x, block_beq_iff x x, h.0),
  Distinct-append xs ys h.1 k (λ b e. apart b (ground arith)),
)

Distinct-remove : (xs : List Block) (a : Block) → Distinct xs → Distinct (remove xs a)
unfolding remove
Distinct-remove [] a h = tt
Distinct-remove (x ∷ xs) a h = elim (Bool-cases (block_eq.equals x a)) [
  | inl e ↦ rw e (Distinct-remove xs a h.1)
  | inr e ↦ rw e (ground (arith, contains-remove xs a x, h.0), Distinct-remove xs a h.1)
]

-- A pool begins with all its blocks in the queue.
pub new_pool-IsPool : (k : Kind) → IsPool k (new_pool k)
unfolding new_pool contains
new_pool-IsPool k = record {
  free_distinct = blocks_of-Distinct 0 0 k.first;
  used_distinct = tt;
  apart = λ b e. refl;
  all = λ b. ground (arith, contains-blocks_of 0 0 k.first b);
  some_chunk = omega arith;
}

chunk_size-pos : (k : Kind) (n : ℕ) → 0 < n → chunk_size k n ≡ k.added
chunk_size-pos k zero h = absurd (omega arith)
chunk_size-pos k (suc n) h = refl

-- A new allocation adds blocks that were not there.
grow-IsPool : (k : Kind) (p : Pool) → IsPool k p → IsPool k (grow k p)
unfolding grow
grow-IsPool k p h = record {
  free_distinct =
      Distinct-append p.free (blocks_of p.chunks 0 k.added) h.free_distinct
        (blocks_of-Distinct p.chunks 0 k.added)
        (λ b e. ground (arith, contains-blocks_of p.chunks 0 k.added b, h.all b));
  used_distinct = h.used_distinct;
  apart = λ b e. ground (
    arith,
    contains-append p.free (blocks_of p.chunks 0 k.added) b,
    contains-blocks_of p.chunks 0 k.added b,
    h.all b,
    h.apart b,
  );
  all = λ b. ground (
    arith,
    contains-append p.free (blocks_of p.chunks 0 k.added) b,
    contains-blocks_of p.chunks 0 k.added b,
    h.all b,
    h.some_chunk,
    chunk_size-pos k b.chunk,
  );
  some_chunk = omega arith;
}

take_front-IsPool :
    (k : Kind) (p : Pool) (b : Block) (rest : List Block)
    → IsPool k p
    → p.free ≡ b ∷ rest
    → IsPool k (record p { free = rest; used = b ∷ p.used })
unfolding contains
take_front-IsPool k p b rest h e =
    let distinct : Distinct (b ∷ rest) = subst Distinct e h.free_distinct in
    let in_free : (c : Block) → contains p.free c ≡ contains (b ∷ rest) c =
      λ c. ap (λ l. contains l c) e in
    record {
      free_distinct = distinct.1;
      used_distinct = (ground (arith, h.apart b, in_free b, block_beq_iff b b), h.used_distinct);
      apart = λ c f. ground (arith, h.apart c, in_free c, distinct.0, block_beq_iff b c);
      all = λ c. ground (arith, h.all c, in_free c);
      some_chunk = h.some_chunk;
    }

-- A block that is handed out and given back is free again, and every block is in one place still.
pub free_block-IsPool :
    (k : Kind) (b : Block) (p : Pool)
    → IsPool k p
    → contains p.used b ≡ true
    → IsPool k (free_block k b p)
unfolding free_block contains
free_block-IsPool k b p h out = record {
  free_distinct =
      Distinct-append p.free (b ∷ []) h.free_distinct (refl, tt)
        (λ c e. ground (arith, h.apart c, block_beq_iff b c));
  used_distinct = Distinct-remove p.used b h.used_distinct;
  apart = λ c e.
      ground (arith, contains-append p.free (b ∷ []) c, contains-remove p.used b c, h.apart c);
  all = λ c. ground (
    arith,
    contains-append p.free (b ∷ []) c,
    contains-remove p.used b c,
    h.all c,
    block_beq_iff b c,
  );
  some_chunk = h.some_chunk;
}

-- What a block that is handed out must be, and the pool behind it.
abbrev pub HandsOut : Kind → List Block → Option Allocated → Type 0
HandsOut k used o =
    (a : Allocated) × ((o ≡ some a)
      × (IsPool k a.pool × ((contains used a.block ≡ false) × (a.pool.used ≡ a.block ∷ used))))

take_front-HandsOut :
    (k : Kind) (p : Pool) (b : Block) (rest : List Block)
    → IsPool k p
    → p.free ≡ b ∷ rest
    → HandsOut k p.used (take_front p p.free)
unfolding contains
take_front-HandsOut k p b rest h e =
    let in_free : contains p.free b ≡ contains (b ∷ rest) b = ap (λ l. contains l b) e in
    (
      record { block = b; pool = record p { free = rest; used = b ∷ p.used } },
      (
        ap (take_front p) e,
        (
          take_front-IsPool k p b rest h e,
          (ground (arith, h.apart b, in_free, block_beq_iff b b), refl),
        ),
      ),
    )

blocks_of-pos :
    (c from n : ℕ)
    → 0 < n
    → (rest : List Block) × (blocks_of c from n ≡ record { chunk = c; index = from } ∷ rest)
unfolding blocks_of
blocks_of-pos c from zero h = absurd (omega arith)
blocks_of-pos c from (suc n) h = (blocks_of c (suc from) n, refl)

-- A block is handed out that was not, and every block is in one place still, if a block at least is
-- added when none is left.
pub malloc-IsPool :
    (k : Kind) (p : Pool) → 0 < k.added → IsPool k p → HandsOut k p.used (malloc k true p)
unfolding malloc
malloc-IsPool k p added h = by_free p.free refl
  where
    by_free : (free : List Block) → p.free ≡ free → HandsOut k p.used (malloc k true p)
    by_free [] e =
        let new = blocks_of-pos p.chunks 0 k.added added in
        let q : Pool = grow k p in
        let there : q.free ≡ record { chunk = p.chunks; index = 0 } ∷ new.0 =
          ap (λ l. l ++ blocks_of p.chunks 0 k.added) e ∙ new.1 in
        subst (λ l. HandsOut k p.used (take_front (grow_if_empty k p l) (grow_if_empty k p l).free))
          (sym e) (take_front-HandsOut k q _ new.0 (grow-IsPool k p h) there)
    by_free (b ∷ rest) e =
        subst (λ l. HandsOut k p.used (take_front (grow_if_empty k p l) (grow_if_empty k p l).free))
          (sym e) (take_front-HandsOut k p b rest h e)
