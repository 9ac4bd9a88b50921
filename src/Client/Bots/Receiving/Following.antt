-- ===== src/Client/Bots/Receiving/Following.antt =====
-- A bot's status is the one that the server told it last.
use cpp_iocp_server.Prelude.{
  ℕ, zero, suc, ◌+◌, ◌≤◌, ◌<◌, ◌≡◌, refl, ap, ◌∙◌, Bool, true, false, ◌||◌, Option, none, some,
  List, [], ◌∷◌, ◌++◌, All, arith, map, length, min, nat_beq, lookup, insert, lookup-insert,
  if◌then◌else◌, ◌==◌, nat_eq, Bool-cases, inl, inr, nat_beq_iff, if_not-true,
}
use cpp_iocp_server.Text.{Text}
use cpp_iocp_server.Outcome.{Outcome, returns, exits, undefined, hangs, M, continue, pure}
use cpp_iocp_server.Common.{
  Socket, buf_size, status_logout, status_waiting, status_chatting, status_number,
}
use cpp_iocp_server.Server.Reading.{Operation, recv, send, recv_more, PerIo, Remain, remain, more}
use cpp_iocp_server.Client.Reading.{client_packet_reading, Received, client_data_copy}
use cpp_iocp_server.Server.Reading.Framing.{Request, IsRequest}
use cpp_iocp_server.Server.Reading.Batch.{packets_of, length-packets_of}
use cpp_iocp_server.Client.Display.Messages.{
  batch, client_loop-packets_of, packets_of-length, message,
}
use cpp_iocp_server.Client.Display.{after_read, Batch, client_loop}
use cpp_iocp_server.Client.Bots.{InfoClient, Bots, follow_status}
use cpp_iocp_server.Client.Bots.Receiving.{
  bot_data_copy, after_status, Statuses, bot_loop, follow_all, followed_all, bot_completed,
  bot_round,
}

-- The status that is known after a message.
abbrev pub is_told : ℕ → Bool
is_told status =
    status == status_number status_logout
    || status == status_number status_waiting
    || status == status_number status_chatting

abbrev pub latest : ℕ → List ℕ → ℕ
latest known [] = known
latest known (status ∷ rest) = latest (if is_told status then status else known) rest

-- What is known of a user.
abbrev pub known_of : Socket → Outcome Bots Unit → Option InfoClient
known_of sock (returns _ b) = lookup sock b.client_map
known_of sock _ = none

follow_all-latest :
    (sock : Socket) (told : List ℕ) (info : InfoClient) (b : Bots)
    → lookup sock b.client_map ≡ some info
    → known_of sock (follow_all sock told b)
      ≡ some (record info { client_status = latest info.client_status told })
unfolding follow_all follow_status
follow_all-latest sock [] info b e = e
follow_all-latest sock (status ∷ rest) info b e = elim (Bool-cases (is_told status)) [
  | inl t ↦
      rw (t, e)
        (follow_all-latest sock rest (record info { client_status = status })
          (record b {
            client_map = insert sock (record info { client_status = status }) b.client_map;
          })
          (lookup-insert sock sock (record info { client_status = status }) b.client_map
            ∙ rw ((nat_beq_iff sock sock).1 refl) refl))
  | inr f ↦ rw f (follow_all-latest sock rest info b e)
]

-- Where the console client's outcome is a result, the bot's is its status, at the same state.
abbrev Below : {A B : Type 0} → (A → B) → Outcome PerIo A → Outcome PerIo B → Type 0
Below f (returns a io) o = o ≡ returns (f a) io
Below f exits o = Unit
Below f undefined o = Unit
Below f hangs o = Unit

Below-continue :
    {A B C D : Type 0} (f : A → B) (g : C → D) (o : Outcome PerIo A) (o' : Outcome PerIo B)
    (k : A → M PerIo C) (k' : B → M PerIo D)
    → Below f o o'
    → ((a : A) (io : PerIo) → Below g (k a io) (k' (f a) io))
    → Below g (continue o k) (continue o' k')
Below-continue f g (returns a io) o' k k' h step = rw h (step a io)
Below-continue f g exits o' k k' h step = tt
Below-continue f g undefined o' k k' h step = tt
Below-continue f g hangs o' k k' h step = tt

Below-self : {A : Type 0} (o : Outcome PerIo A) → Below (λ a. a) o o
Below-self (returns a io) = refl
Below-self exits = tt
Below-self undefined = tt
Below-self hangs = tt

data_copy-Below :
    (io : PerIo) → Below (λ (r : Received). r.status) (client_data_copy io) (bot_data_copy io)
unfolding client_data_copy bot_data_copy
data_copy-Below io = ground arith

abbrev told_of : Batch → Statuses
told_of b = record { told = map (λ r. r.status) b.messages; recv_more = b.recv_more }

-- What the console client reads of a receive, the bot reads.
loop-Below : (fuel n : ℕ) (io : PerIo) → Below told_of (client_loop fuel n io) (bot_loop fuel n io)
unfolding client_loop bot_loop
loop-Below zero n io = tt
loop-Below (suc fuel) n io =
    Below-continue (λ left. left) told_of (client_packet_reading n io) (client_packet_reading n io)
      _ _ (Below-self (client_packet_reading n io)) (after (loop-Below fuel))
  where
    after :
        ((m : ℕ) (io2 : PerIo) → Below told_of (client_loop fuel m io2) (bot_loop fuel m io2))
        → (left : Remain) (io1 : PerIo)
        → Below told_of
            (after_read (client_loop fuel) left io1)
            (after_status (bot_loop fuel) left io1)
    after again more io1 = refl
    after again (remain zero) io1 =
        Below-continue (λ r. r.status) told_of _ _ _ _ (data_copy-Below io1) (λ r io2. refl)
    after again (remain (suc m)) io1 =
        Below-continue (λ r. r.status) told_of _ _ _ _ (data_copy-Below io1)
          λ r io2. Below-continue told_of told_of _ _ _ _ (again (suc m) io2) (λ b io3. refl)

-- What is known of a user after a round that goes on.
abbrev pub known_after : Socket → Outcome Bots (Option PerIo) → Option InfoClient
known_after sock (returns _ b) = lookup sock b.client_map
known_after sock _ = none

known-pure :
    (sock : Socket) (o : Outcome Bots Unit) (p : Option PerIo)
    → known_after sock (continue o (λ _. pure p)) ≡ known_of sock o
known-pure sock (returns u b) p = refl
known-pure sock exits p = refl
known-pure sock undefined p = refl
known-pure sock hangs p = refl

abbrev statuses : List Received → List ℕ
statuses = map (λ r. r.status)

statuses-message : (rs : List Request) → statuses (map message rs) ≡ map (λ q. q.status) rs
statuses-message [] = refl
statuses-message (r ∷ rs) = ap (◌∷◌ r.status) (statuses-message rs)

bot_completed-recv :
    (o : Operation) (m : M Bots (Option PerIo)) (b : Bots) → o ≡ recv → bot_completed o m b ≡ m b
bot_completed-recv recv m b h = refl
bot_completed-recv send m b h = absurd (grind arith)
bot_completed-recv recv_more m b h = refl

abbrev with_latest : InfoClient → List ℕ → InfoClient
with_latest info told = record info { client_status = latest info.client_status told }

followed-known :
    (sock : Socket) (o : Outcome PerIo Batch) (o' : Outcome PerIo Statuses) (t : Batch)
    (info : InfoClient) (b : Bots)
    → batch o ≡ some t
    → Below told_of o o'
    → lookup sock b.client_map ≡ some info
    → known_after sock (followed_all sock o' b)
      ≡ some (record info {
        client_status = latest info.client_status (map (λ r. r.status) t.messages);
      })
followed-known sock (returns t' io) o' t info b e h there =
    rw h (known-pure sock (follow_all sock (statuses t'.messages) b) _)
    ∙ follow_all-latest sock (statuses t'.messages) info b there
    ∙ ap (λ x. elim x [ none ↦ none | some n ↦ some (with_latest info (statuses n.messages)) ]) e
followed-known sock exits o' t info b e h there = absurd (grind arith)
followed-known sock undefined o' t info b e h there = absurd (grind arith)
followed-known sock hangs o' t info b e h there = absurd (grind arith)

-- Packets that are received whole, in at most 4096 bytes, leave the bot with the last status that
-- they tell. Each must fit a block of the server with its header and have no byte zero, and nothing
-- stand behind `bytesTrans`.
pub bot_round-packets_of :
    (sock : Socket) (r : Request) (rs : List Request) (io : PerIo) (stale : Text)
    (info : InfoClient) (b : Bots)
    → IsRequest r
    → All IsRequest rs
    → length (packets_of (r ∷ rs)) ≤ buf_size
    → io.server_mode ≡ recv
    → io.buffer ≡ packets_of (r ∷ rs) ++ stale
    → lookup sock b.client_map ≡ some info
    → b.is_padded ≡ true
    → known_after sock (bot_round true (length (packets_of (r ∷ rs))) sock io b)
      ≡ some
          (record info { client_status = latest info.client_status (map (λ q. q.status) (r ∷ rs)) })
unfolding bot_round
bot_round-packets_of sock r rs io stale info b h hs whole first there known padded =
    let n = length (packets_of (r ∷ rs)) in
    let all : min n buf_size ≡ n = omega arith in
    let enough : length rs < 2 + n = omega (arith, packets_of-length rs, length-packets_of r rs) in
    let some_bytes : nat_beq n 0 ≡ false = ground (arith, length-packets_of r rs) in
    rw
      (
        some_bytes,
        all,
        bot_completed-recv io.server_mode (followed_all sock (bot_loop (2 + n) n io)) b first,
      )
      (ap (known_after sock) (if_not-true b.is_padded undefined _ padded)
        ∙ followed-known sock (client_loop (2 + n) n io) (bot_loop (2 + n) n io) _ info b
            (client_loop-packets_of r rs (2 + n) io stale h hs whole enough first there)
            (loop-Below (2 + n) n io) known
        ∙ ap (λ told. some (with_latest info told)) (statuses-message (r ∷ rs)))
