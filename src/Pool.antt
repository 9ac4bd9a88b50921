-- ===== src/Pool.antt =====
-- The pools of `CharPool` and `MPool`, of the server and of the clients: blocks of one size in a
-- queue, from which `Malloc` takes and to which `Free` gives back.
pub mod Blocks
pub mod Runs
use cpp_iocp_server.Prelude.{
  ℕ, zero, suc, ◌+◌, ◌*◌, ◌≡◌, refl, ◌↔◌, Bool, true, ◌&&◌, Option, none, some, nat_eq, List, [],
  ◌∷◌, ◌++◌, arith, Eq, ◌==◌, nat_beq, nat_beq_iff, replicate, drop, remove, if◌then◌else◌,
}
use cpp_iocp_server.Text.{Text}
use cpp_iocp_server.Iocp.{block_size}

-- The block that begins `index` blocks behind the start of the `chunk`-th allocation; the first
-- allocation, of number 0, is the constructor's.
pub record Block : Type 0 where
  pub chunk : ℕ
  pub index : ℕ

abbrev pub block_beq : Block → Block → Bool
block_beq a b = nat_beq a.chunk b.chunk && nat_beq a.index b.index

pub block_beq_iff : (a b : Block) → (block_beq a b ≡ true) ↔ (a ≡ b)
block_beq_iff a b = ground arith

instance abbrev pub block_eq : Eq Block
block_eq = record { equals = block_beq; agrees = block_beq_iff }

-- What differs between the pools: the bytes of a block, the blocks of the constructor, those that
-- are added when the queue is empty, and the bytes that `Free` clears.
pub record Kind : Type 0 where
  pub size : ℕ
  pub first : ℕ
  pub added : ℕ
  pub cleared : ℕ

-- `sizeof(BLOCK_SIZE)` is the size of an `int`.
abbrev pub server_chars : Kind
server_chars = record { size = block_size; first = 50_000; added = 2000; cleared = 4 }

abbrev pub client_chars : Kind
client_chars = record { size = 4096; first = 30_000; added = 2000; cleared = 4 }

-- `io_size` is `sizeof(PER_IO_DATA)`, which depends on the headers of Windows.
abbrev pub server_ios : ℕ → Kind
server_ios io_size = record { size = io_size; first = 50_000; added = 2000; cleared = io_size }

abbrev pub client_ios : ℕ → Kind
client_ios io_size = record { size = io_size; first = 30_000; added = 2000; cleared = io_size }

-- The queue, with its front first, and what the blocks hold. `used` has the blocks that are handed
-- out, which the program does not record, and `chunks` counts the allocations.
pub record Pool : Type 0 where
  pub free : List Block
  pub used : List Block
  pub chunks : ℕ
  pub content : Block → Text

-- The `for` loops that fill the queue from an allocation.
unfoldable pub blocks_of : ℕ → ℕ → ℕ → List Block
blocks_of chunk from zero = []
blocks_of chunk from (suc n) = record { chunk = chunk; index = from } ∷ blocks_of chunk (suc from) n

-- The constructor.
unfoldable pub new_pool : Kind → Pool
unfolding blocks_of
new_pool k = record {
  free = blocks_of 0 0 k.first;
  used = [];
  chunks = 1;
  content = λ b. replicate k.size 0;
}

-- A further allocation, cleared.
unfoldable pub grow : Kind → Pool → Pool
unfolding blocks_of
grow k p = record p {
  free = p.free ++ blocks_of p.chunks 0 k.added;
  chunks = suc p.chunks;
  content = λ b. if b.chunk == p.chunks then replicate k.size 0 else p.content b;
}

pub record Allocated : Type 0 where
  pub block : Block
  pub pool : Pool

-- `top` takes the front of the queue, which must not be empty, into a local variable, and returns a
-- reference to it. The variable is gone when `Malloc` reads it: `is_left` says whether its bytes still
-- stand there then, which is up to the compiler, and reading anything else is undefined.
abbrev pub take_front : Pool → List Block → Option Allocated
take_front p [] = none
take_front p (b ∷ rest) =
    some (record { block = b; pool = record p { free = rest; used = b ∷ p.used } })

unfoldable pub top : Bool → Pool → Option Allocated
top is_left p = if is_left then take_front p p.free else none

-- `empty`, under a lock of its own, and the blocks that are added then.
abbrev pub grow_if_empty : Kind → Pool → List Block → Pool
grow_if_empty k p [] = grow k p
grow_if_empty k p (b ∷ rest) = p

unfoldable pub check_empty : Kind → Pool → Pool
unfolding grow
check_empty k p = grow_if_empty k p p.free

-- `Malloc`, when no other thread takes a block between its two halves.
unfoldable pub malloc : Kind → Bool → Pool → Option Allocated
unfolding check_empty top
malloc k is_left p = top is_left (check_empty k p)

-- The block with its first bytes cleared, by `memset`.
abbrev pub clear : ℕ → Text → Text
clear n bytes = replicate n 0 ++ drop n bytes

-- `Free`
unfoldable pub free_block : Kind → Block → Pool → Pool
free_block k b p = record p {
  free = p.free ++ b ∷ [];
  used = remove p.used b;
  content = λ c. if c == b then clear k.cleared (p.content b) else p.content c;
}
