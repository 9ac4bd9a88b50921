-- ===== src/Client/Bots/Runs.antt =====
-- Runs of turns of the bots' threads.
use cpp_iocp_server.Prelude.{
  ℕ, suc, ◌+◌, ◌%◌, ◌≡◌, refl, ap, ◌∙◌, inl, inr, Bool-cases, Option-cases, ◌||◌, some, List, [],
  ◌∷◌, ◌++◌, arith, lookup, subst, leb, ltb, nat_eq, ◌==◌, if◌then◌else◌,
}
use cpp_iocp_server.Text.{Text}
use cpp_iocp_server.Outcome.{Outcome, returns, Spec-continue, Whenever}
use cpp_iocp_server.Common.{Socket, buf_size}
use cpp_iocp_server.Iocp.Packet.{packet_length}
use cpp_iocp_server.Client.Bots.{
  InfoClient, Bots, rand_below, rooms, msgs, element, make_logged_out, make_room_request, make_line,
  make_logged_in, make_request, pop_make_queue, push_send_queue, bot_make_turn, pop_send_queue,
  push_make_queue, bot_send, bot_send_turn, follow_status,
}

-- The queues are as they were.
abbrev Frame : {A : Type 0} → Bots → A → Bots → Type 0
Frame b a b' = (b'.make_queue ≡ b.make_queue) × (b'.send_queue ≡ b.send_queue)

make_logged_out-Frame : (id : Text) (b : Bots) → Whenever (Frame b) (make_logged_out id b)
unfolding make_logged_out rand_below
make_logged_out-Frame id b = elim (Bool-cases (b.random b.drawn % 2 == 1)) [
  | inl e ↦ rw e (refl, refl)
  | inr e ↦ rw e (refl, refl)
]

make_room_request-Frame : (b : Bots) → Whenever (Frame b) (make_room_request b)
unfolding make_room_request rand_below
make_room_request-Frame b = elim (Option-cases (element (b.random (suc b.drawn) % 16) rooms)) [
  | inl e ↦ rw e tt
  | inr (t, e) ↦ rw e (elim (Bool-cases (leb (b.random b.drawn % 10) 6)) [
    | inl f ↦ rw f (refl, refl)
    | inr f ↦ rw f (refl, refl)
  ])
]

make_line-Frame : (b : Bots) → Whenever (Frame b) (make_line b)
unfolding make_line rand_below
make_line-Frame b = elim (Option-cases (element (b.random b.drawn % 70 % 10) msgs)) [
  | inl e ↦ rw e tt
  | inr (t, e) ↦ rw e (refl, refl)
]

make_logged_in-Frame : (b : Bots) → Whenever (Frame b) (make_logged_in b)
unfolding make_logged_in rand_below
make_logged_in-Frame b = elim (Bool-cases (b.random b.drawn % 4 == 0)) [
  | inl e ↦ rw e (make_room_request-Frame (record b { drawn = suc b.drawn }))
  | inr e ↦ rw e (make_line-Frame (record b { drawn = suc b.drawn }))
]

-- A bot stays itself.
abbrev Same : InfoClient → Bots → InfoClient → Bots → Type 0
Same info b made b' =
    (made.sock ≡ info.sock) × ((b'.make_queue ≡ b.make_queue) × (b'.send_queue ≡ b.send_queue))

make_request-Same :
    (status : ℕ) (id : Text) (info : InfoClient) (b : Bots)
    → Whenever (Same info b) (make_request status id info b)
unfolding make_request
make_request-Same status id info b = elim (Bool-cases (status == 1)) [
  | inl e ↦ rw e (
      Spec-continue Unit Unit Unit (Frame b) _ (make_logged_out id b) _ (make_logged_out-Frame id b)
        λ m b' f. (refl, f))
  | inr e ↦ elim (Bool-cases (status == 2 || status == 3)) [
    | inl f ↦
        rw (e, f)
          (Spec-continue Unit Unit Unit (Frame b) _ (make_logged_in b) _ (make_logged_in-Frame b)
            λ m b' f. (refl, f))
    | inr f ↦ rw (e, f) (refl, (refl, refl))
  ]
]

-- How often a socket is in a queue.
unfoldable pub times : Socket → List InfoClient → ℕ
times sock [] = 0
times sock (info ∷ rest) = if info.sock == sock then 1 + times sock rest else times sock rest

times-append :
    (sock : Socket) (xs ys : List InfoClient)
    → times sock (xs ++ ys) ≡ times sock xs + times sock ys
unfolding times
times-append sock [] ys = omega arith
times-append sock (x ∷ xs) ys = ground (arith, times-append sock xs ys)

abbrev pub all_times : Socket → Bots → ℕ
all_times sock b = times sock b.make_queue + times sock b.send_queue

-- A turn of a thread that returns.
pub data BotTurn : Bots → Bots → Type 0 where
  makes : {b b' : Bots} → bot_make_turn b ≡ returns tt b' → BotTurn b b'
  sends : {b b' : Bots} → bot_send_turn b ≡ returns tt b' → BotTurn b b'
  follows :
      {b b' : Bots} (sock : Socket) (status : ℕ)
      → follow_status sock status b ≡ returns tt b'
      → BotTurn b b'

pub data BotRun : Bots → Bots → Type 0 where
  stop : {b : Bots} → BotRun b b
  step : {b b1 b2 : Bots} → BotTurn b b1 → BotRun b1 b2 → BotRun b b2

abbrev Conserves : {A : Type 0} → Bots → A → Bots → Type 0
Conserves b a b' = (sock : Socket) → all_times sock b' ≡ all_times sock b

-- A bot goes from the front of one queue to the end of the other.
moved :
    (rest to : List InfoClient) (info made : InfoClient) (sock : Socket)
    → made.sock ≡ info.sock
    → times sock rest + times sock (to ++ made ∷ []) ≡ times sock (info ∷ rest) + times sock to
unfolding times
moved rest to info made sock same = rw same (ground (arith, times-append sock to (made ∷ []), same))

bot_make_turn-Conserves : (b : Bots) → Whenever (Conserves b) (bot_make_turn b)
unfolding bot_make_turn pop_make_queue push_send_queue
bot_make_turn-Conserves b = by_queue b.make_queue refl
  where
    by_queue :
        (queue : List InfoClient) → b.make_queue ≡ queue → Whenever (Conserves b) (bot_make_turn b)
    by_queue [] e = rw e tt
    by_queue (info ∷ rest) e = elim (Option-cases (lookup info.sock b.client_map)) [
      | inl f ↦ rw (e, f) tt
      | inr (known, f) ↦
          rw (e, f)
            (Spec-continue Unit Unit Unit (Same info (record b { make_queue = rest }))
              (Conserves (record b { make_queue = info ∷ rest }))
              (make_request known.client_status known.id info (record b { make_queue = rest })) _
              (make_request-Same known.client_status known.id info (record b { make_queue = rest }))
              λ made b' same sock. omega (
                arith,
                ap (times sock) (same.1.0),
                ap (λ q. times sock (q ++ made ∷ [])) (same.1.1),
                moved rest b.send_queue info made sock (same.0),
              ))
    ]

bot_send_turn-Conserves : (b : Bots) → Whenever (Conserves b) (bot_send_turn b)
unfolding bot_send_turn pop_send_queue push_make_queue bot_send
bot_send_turn-Conserves b = by_queue b.send_queue refl
  where
    by_queue :
        (queue : List InfoClient) → b.send_queue ≡ queue → Whenever (Conserves b) (bot_send_turn b)
    by_queue [] e = rw e tt
    by_queue (info ∷ rest) e = elim (Option-cases info.direction) [
      | inl f ↦ rw (e, f) tt
      | inr (direction, f) ↦
          elim (Bool-cases (
            ltb (b.readable info.message) (packet_length info.message)
            || ltb buf_size (10 + packet_length info.message))) [
              | inl g ↦ rw (e, f, g) tt
              | inr g ↦
                  rw (e, f, g)
                    (λ sock. omega (
                      arith,
                      moved rest b.make_queue (record info { direction = some direction })
                          (record info { direction = some direction }) sock refl,
                    ))
            ]
    ]

follow_status-Conserves :
    (sock : Socket) (status : ℕ) (b : Bots) → Whenever (Conserves b) (follow_status sock status b)
unfolding follow_status
follow_status-Conserves sock status b =
    elim (Bool-cases (status == 1 || status == 2 || status == 3)) [
      | inl e ↦ elim (Option-cases (lookup sock b.client_map)) [
        | inl f ↦ rw (e, f) tt
        | inr (known, f) ↦ rw (e, f) (λ sock. refl)
      ]
      | inr e ↦ rw e (λ sock. refl)
    ]

at_return :
    {A : Type 0} (b : Bots) (o : Outcome Bots A) (a : A) (b' : Bots) (sock : Socket)
    → Whenever (Conserves b) o
    → o ≡ returns a b'
    → all_times sock b' ≡ all_times sock b
at_return {A} b o a b' sock h e = subst (Whenever (Conserves b)) e h sock

BotTurn-all_times :
    {b b' : Bots} (sock : Socket) → BotTurn b b' → all_times sock b' ≡ all_times sock b
BotTurn-all_times {b} {b'} sock (makes e) =
    at_return b (bot_make_turn b) tt b' sock (bot_make_turn-Conserves b) e
BotTurn-all_times {b} {b'} sock (sends e) =
    at_return b (bot_send_turn b) tt b' sock (bot_send_turn-Conserves b) e
BotTurn-all_times {b} {b'} sock (follows i status e) =
    at_return b (follow_status i status b) tt b' sock (follow_status-Conserves i status b) e

-- No bot is lost or doubled: whatever turns the threads take, each socket is in the two queues
-- together as often as at the start of the run. A turn here is one that returns: one that takes
-- a user from one queue to the other, or one that follows a status.
pub BotRun-all_times :
    {b b' : Bots} (sock : Socket) → BotRun b b' → all_times sock b' ≡ all_times sock b
BotRun-all_times sock stop = refl
BotRun-all_times sock (step turn run) = BotRun-all_times sock run ∙ BotTurn-all_times sock turn
