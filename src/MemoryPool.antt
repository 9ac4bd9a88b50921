-- ===== src/MemoryPool.antt =====
-- MemoryPool.cpp: the pools that were tried before the server's. A block is the number of bytes from
-- the start of the pool's memory; where `realloc` moves that memory, older pointers are lost.
pub mod Scan
use cpp_iocp_server.Prelude.{
  ℕ, zero, suc, ◌+◌, ◌-◌, ◌*◌, ◌/◌, ◌%◌, ◌^◌, Bool, true, false, Option, none, some, List, [], ◌∷◌,
  ◌++◌, take, drop, length, ltb, leb, replicate, if◌then◌else◌, ◌==◌, nat_eq,
}
use cpp_iocp_server.Text.{Text}
use cpp_iocp_server.Outcome.{
  Outcome, returns, undefined, hangs, M, pure, fault, modify, ◌>>=◌, ◌>>◌,
}

-- `BUF_SIZE` and `BLOCK_SIZE` of this file: `sizeof(PER_IO_DATA)`, and the bytes of a text.
abbrev pub io_bytes : ℕ
io_bytes = 100

abbrev pub char_bytes : ℕ
char_bytes = 256

-- `StackPool`: the numbers of the free blocks, the top first.
unfoldable pub stack_pool_from : ℕ → ℕ → List ℕ
stack_pool_from i zero = []
stack_pool_from i (suc n) = i ∷ stack_pool_from (suc i) n

unfoldable pub stack_pool : ℕ → List ℕ
unfolding stack_pool_from
stack_pool blocks = stack_pool_from 0 blocks

unfoldable pub stack_malloc : M (List ℕ) (Option ℕ)
stack_malloc [] = returns none []
stack_malloc (idx ∷ st) = returns (some (idx * io_bytes)) st

unfoldable pub stack_free : ℕ → M (List ℕ) Unit
stack_free free_point = modify (λ st. free_point / io_bytes ∷ st)

-- `QueuePool`: the free blocks, the front first.
unfoldable pub queue_pool_from : ℕ → ℕ → List ℕ
queue_pool_from i zero = []
queue_pool_from i (suc n) = io_bytes * i ∷ queue_pool_from (suc i) n

unfoldable pub queue_pool : ℕ → List ℕ
unfolding queue_pool_from
queue_pool blocks = queue_pool_from 0 blocks

-- The front of an empty queue is undefined.
unfoldable pub queue_malloc : M (List ℕ) ℕ
queue_malloc [] = undefined
queue_malloc (p ∷ rest) = returns p rest

unfoldable pub queue_free : ℕ → M (List ℕ) Unit
queue_free p = modify (λ free. free ++ p ∷ [])

-- `ListPool`: each block begins with the address of the next, by the block it stands in. The loop
-- of the constructor writes the addresses, and then a `0` at the one behind the last block.
-- An address has eight bytes.
unfoldable pub write_link : ℕ → ℕ → Option ℕ → M (List (ℕ × Option ℕ)) Unit
write_link bytes at next links =
    if leb (at + 8) bytes then returns tt ((at, next) ∷ links) else undefined

unfoldable pub list_links : ℕ → ℕ → ℕ → M (List (ℕ × Option ℕ)) Unit
unfolding write_link
list_links bytes pointer zero = write_link bytes pointer none
list_links bytes pointer (suc n) = do
  write_link bytes pointer (some (pointer + io_bytes))
  list_links bytes (pointer + io_bytes) n

unfoldable pub list_pool : ℕ → M (List (ℕ × Option ℕ)) Unit
unfolding list_links
list_pool block = list_links (io_bytes * block) 0 block

-- `ArrayPool`, and `CharPool` with blocks of another size. An entry of `arr` that was never written
-- is `none`, and so are the bytes of a block; `cnt`, `idx` and `len` are a `DWORD` each.
pub record ArrayPool : Type 0 where
  pub arr : List (Option Bool)
  pub cnt : ℕ
  pub idx : ℕ
  pub len : ℕ
  pub content : ℕ → Option Text

unfoldable pub array_pool : ℕ → ArrayPool
array_pool size = record {
  arr = replicate size (some false);
  cnt = size;
  idx = 0;
  len = size;
  content = λ i. none;
}

-- An entry of the array; one that is out of range or was never written is `none`.
abbrev pub entry : ℕ → List (Option Bool) → Option Bool
entry i [] = none
entry zero (b ∷ arr) = b
entry (suc i) (b ∷ arr) = entry i arr

-- An assignment to an entry, which must be there.
abbrev pub set_entry : ℕ → Bool → List (Option Bool) → Option (List (Option Bool))
set_entry i b [] = none
set_entry zero b (a ∷ arr) = some (some b ∷ arr)
set_entry (suc i) b (a ∷ arr) = elim (set_entry i b arr) [
  | none ↦ none
  | some rest ↦ some (a ∷ rest)
]

unfoldable pub assign : ℕ → Bool → M ArrayPool Unit
assign i b p = elim (set_entry i b p.arr) [
  | none ↦ undefined
  | some arr ↦ returns tt (record p { arr = arr })
]

-- `if (cnt == 0)`: further memory, of which nothing is written but the entries 1 to 5.
unfoldable pub array_grow : ArrayPool → ArrayPool
array_grow p =
    let len = (p.len + 5) % 2 ^ 32 in
    let arr = take (len + 5) (p.arr ++ replicate (len + 5) none) in
    if p.cnt == 0
    then record p {
      len = len;
      cnt = (p.cnt + len) % 2 ^ 32;
      arr = take 1 arr ++ replicate 5 (some false) ++ drop 6 arr;
    }
    else p

-- The `while (arr[idx])`; `hangs` when the fuel is used up.
unfoldable pub scan : ℕ → M ArrayPool Unit
scan zero p = hangs
scan (suc fuel) p = elim (entry p.idx p.arr) [
  | none ↦ undefined
  | some true ↦
      scan fuel
        (record p { idx = if (p.idx + 1) % 2 ^ 32 == p.cnt then 0 else (p.idx + 1) % 2 ^ 32 })
  | some false ↦ returns tt p
]

-- What follows it.
unfoldable pub hand_out : ℕ → M ArrayPool ℕ
unfolding assign
hand_out size p =
    (do
      assign p.idx true
      modify (λ (p : ArrayPool). record p { idx = (p.idx + 1) % 2 ^ 32; cnt = p.cnt - 1 })
      λ (p : ArrayPool).
          if p.idx == p.cnt
          then returns ((p.cnt - 1) * size) (record p { idx = 0 })
          else returns ((p.idx - 1) * size) p)
      p

-- `Malloc`
unfoldable pub array_malloc : ℕ → ℕ → M ArrayPool ℕ
unfolding array_grow scan hand_out
array_malloc size fuel = do modify array_grow; scan fuel; hand_out size

-- `Free`
unfoldable pub array_free : ℕ → ℕ → M ArrayPool Unit
unfolding assign
array_free size free_point = do
  modify (λ (p : ArrayPool). record p {
    content = λ i. if i == free_point / size then some (replicate size 0) else p.content i;
    cnt = (p.cnt + 1) % 2 ^ 32;
    idx = free_point / size;
  })
  assign (free_point / size) false

-- `CharPool` of this file.
unfoldable pub char_malloc : ℕ → M ArrayPool ℕ
unfolding array_malloc
char_malloc fuel = array_malloc char_bytes fuel

unfoldable pub char_free : ℕ → M ArrayPool Unit
unfolding array_free
char_free free_point = array_free char_bytes free_point
