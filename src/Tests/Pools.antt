-- ===== src/Tests/Pools.antt =====
-- Small pools, and a bot.
use cpp_iocp_server.Prelude.{
  ℕ, ◌*◌, ◌≡◌, ◌≢◌, inl, refl, ap, true, none, some, [], ◌∷◌, ◌++◌, arith, lookup, insert, nat_eq,
  contains, ◌+◌, length,
}
use cpp_iocp_server.Outcome.{Returns, returns, hangs}
use cpp_iocp_server.Pool.{Block, block_eq, Kind, Pool, new_pool, blocks_of, malloc}
use cpp_iocp_server.Pool.Blocks.{HandsOut, chunk_size}
use cpp_iocp_server.Pool.Runs.{
  Reached, starts, mallocs, Reached-malloc, address, Apart, Reached-Apart,
}
use cpp_iocp_server.MemoryPool.{array_pool}
use cpp_iocp_server.MemoryPool.Scan
use cpp_iocp_server.MemoryPool.Scan.{first_blocks, handed, array_malloc-half}
use cpp_iocp_server.Client.Bots.{
  InfoClient, Bots, new_bots, new_clients, map_of, bot_id, bot_make_turn, pop_make_queue,
  make_request, make_logged_out, rand_below, push_send_queue, password,
}
use cpp_iocp_server.Client.Bots.Runs.{BotRun-all_times, step, makes, stop, all_times}
use cpp_iocp_server.Client.Bots.Names.{bot_id-IsName}
use cpp_iocp_server.Client.Bots.Tame.{TameRequest, bot_make_turn-Tame}

-- Two blocks of four bytes, and one more whenever they are used up.
abbrev small : Kind
small = record { size = 4; first = 2; added = 1; cleared = 4 }

Reached-malloc_example : HandsOut small (new_pool small).used (malloc small true (new_pool small))
Reached-malloc_example = Reached-malloc small (new_pool small) (omega arith) starts

abbrev block0 : Block
block0 = record { chunk = 0; index = 0 }

abbrev block1 : Block
block1 = record { chunk = 0; index = 1 }

abbrev one_out : Pool
one_out = record (new_pool small) { free = block1 ∷ []; used = block0 ∷ [] }

abbrev two_out : Pool
two_out = record (new_pool small) { free = []; used = block1 ∷ block0 ∷ [] }

first_malloc : malloc small true (new_pool small) ≡ some (record { block = block0; pool = one_out })
unfolding malloc new_pool blocks_of
first_malloc = refl

second_malloc : malloc small true one_out ≡ some (record { block = block1; pool = two_out })
unfolding malloc
second_malloc = refl

two_reached : Reached small two_out
two_reached =
    mallocs (record { block = block1; pool = two_out })
      (mallocs (record { block = block0; pool = one_out }) starts first_malloc) second_malloc

-- The allocations begin 100 bytes apart.
apart :
    (i j : ℕ) → i ≢ j → Apart (100 * i) (4 * chunk_size small i) (100 * j) (4 * chunk_size small j)
apart i j h = ground (arith, h)

block0_out : contains two_out.used block0 ≡ true
unfolding contains
block0_out = refl

block1_out : contains two_out.used block1 ≡ true
unfolding contains
block1_out = refl

Reached-Apart_example :
    Apart (address small (λ i. 100 * i) block0) 4 (address small (λ i. 100 * i) block1) 4
Reached-Apart_example =
    Reached-Apart small (λ i. 100 * i) two_out block0 block1 (omega arith) apart two_reached
      block0_out block1_out (λ e. omega (arith, ap (λ (b : Block). b.index) e))

-- Four blocks: the third call does not return.
array_malloc-half_example :
    (Scan.mallocs 100 8 2 (array_pool 4)
      ≡ returns (first_blocks 100 2) (handed 100 7 2 (omega arith) 2))
    × (Scan.mallocs 100 8 3 (array_pool 4) ≡ hangs)
array_malloc-half_example = array_malloc-half 100 7 2 (omega arith) (omega arith)

abbrev bots : Bots
bots = new_bots (5 ∷ []) (λ i. 1) [] (λ msg. length msg + 11) true

abbrev bot : InfoClient
bot = record { sock = 5; client_status = 1; direction = none; id = bot_id 0; message = [] }

bot_waits : bots.make_queue ≡ bot ∷ []
unfolding new_bots new_clients
bot_waits = refl

bot_known : lookup 5 bots.client_map ≡ some bot
unfolding new_bots new_clients map_of lookup insert
bot_known = refl

bot_make_turn-Tame_example :
    Returns
      (λ _ b.
        (made : InfoClient) × (TameRequest made
          × ((b.make_queue ≡ []) × (b.send_queue ≡ bots.send_queue ++ made ∷ []))))
      (bot_make_turn bots)
bot_make_turn-Tame_example =
    bot_make_turn-Tame bots bot bot [] bot_waits bot_known (bot_id-IsName 0 (omega arith))
      (inl refl)

-- The bot makes up a request for an account.
abbrev asked : Bots
asked = record bots {
  make_queue = [];
  send_queue =
      record bot {
        direction = some 1;
        message = bot_id 0 ++ (b'\\' ∷ password ++ b'\\' ∷ bot_id 0);
      }
      ∷ [];
  drawn = 3;
}

bot_asks : bot_make_turn bots ≡ returns tt asked
unfolding bot_make_turn pop_make_queue make_request make_logged_out rand_below push_send_queue
    new_bots new_clients map_of lookup insert
bot_asks = refl

BotRun-all_times_example : all_times 5 asked ≡ all_times 5 bots
BotRun-all_times_example = BotRun-all_times 5 (step (makes bot_asks) stop)
