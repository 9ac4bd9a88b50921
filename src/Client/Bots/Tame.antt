-- ===== src/Client/Bots/Tame.antt =====
-- The requests of the bots keep to the limits of the server.
use cpp_iocp_server.Prelude.{
  ℕ, zero, suc, ◌%◌, ◌<◌, ◌≡◌, ◌⊎◌, refl, ap, inl, inr, Bool-cases, some, List, [], ◌∷◌, ◌++◌, All,
  arith, contains, length, lookup, leb, nat_eq, ◌==◌, length-append,
}
use cpp_iocp_server.Text.{Text, utf8}
use cpp_iocp_server.Text.Tokens.{tokens, IsField, join, tokens-join}
use cpp_iocp_server.Outcome.{pure, Spec-continue, Returns}
use cpp_iocp_server.Common.{Socket, JobData}
use cpp_iocp_server.Common.Directions
use cpp_iocp_server.Server.Work.Turns.{IsTame}
use cpp_iocp_server.Client.Bots.Names.{IsName}
use cpp_iocp_server.Client.Bots.{
  InfoClient, Bots, rand_below, password, msgs, rooms, element, Made, make_logged_out,
  make_room_request, make_line, make_logged_in, make_request, pop_make_queue, push_send_queue,
  bot_make_turn,
}

-- A request as it reaches the server; the status in the packet is whatever the block held.
abbrev pub bot_job : Socket → ℕ → Made → JobData
bot_job sock now_status m = record {
  socket = sock;
  direction = m.direction;
  now_status = now_status;
  msg = m.message;
}

abbrev pub IsTameMade : Made → Type 0
IsTameMade m = (sock : Socket) (now_status : ℕ) → IsTame (bot_job sock now_status m)

-- A short message that is for no account.
short_name-IsTame :
    (direction : ℕ) (message : Text)
    → length message < 20
    → (direction ≡ Directions.room_enter)
      ⊎ ((direction ≡ Directions.room_make) ⊎ (direction ≡ Directions.minus_one))
    → IsTameMade (record { direction = direction; message = message })
short_name-IsTame direction message short which sock now_status = record {
  at_logout = record {
    short = omega arith;
    few_to_make = λ e. absurd (ground (arith, e));
    fits_to_make = λ e. absurd (ground (arith, e));
    few_to_enter = λ e. absurd (ground (arith, e));
    fits_to_enter = λ e. absurd (ground (arith, e));
  };
  waits = record {
    short = omega arith;
    name_fits = λ e. short;
    few = λ e. absurd (ground (arith, e));
    not_friend_go = λ e. ground (arith, e);
  };
  chats = record { short = omega arith; not_file_send = λ e. ground (arith, e) };
  not_count = λ e. ground (arith, e);
}

-- A request within the limits was made up, and the queues are as they were.
abbrev Tamely : Bots → Made → Bots → Type 0
Tamely b m b' = IsTameMade m × ((b'.make_queue ≡ b.make_queue) × (b'.send_queue ≡ b.send_queue))

IsShort : Text → Type 0
IsShort t = length t < 20

rooms-IsShort : All IsShort rooms
unfolding IsShort utf8
rooms-IsShort = omega arith

msgs-IsShort : All IsShort msgs
unfolding IsShort utf8
msgs-IsShort = omega arith

element-IsShort :
    (texts : List Text) (i : ℕ)
    → All IsShort texts
    → i < length texts
    → (t : Text) × ((element i texts ≡ some t) × IsShort t)
element-IsShort [] i h k = absurd (omega arith)
element-IsShort (t ∷ texts) zero h k = (t, (refl, h.0))
element-IsShort (t ∷ texts) (suc i) h k = element-IsShort texts i (h.1) (omega arith)

make_room_request-Tame : (b : Bots) → Returns (Tamely b) (make_room_request b)
unfolding make_room_request rand_below IsShort
make_room_request-Tame b =
    let found = element-IsShort rooms (b.random (suc b.drawn) % 16) rooms-IsShort (omega arith) in
    rw (found.1.0) (elim (Bool-cases (leb (b.random b.drawn % 10) 6)) [
      | inl e ↦
          rw e
            (short_name-IsTame Directions.room_enter (found.0) (found.1.1) (inl refl), (refl, refl))
      | inr e ↦ rw e (
        short_name-IsTame Directions.room_make (found.0) (found.1.1) (inr (inl refl)),
        (refl, refl),
      )
    ])

make_line-Tame : (b : Bots) → Returns (Tamely b) (make_line b)
unfolding make_line rand_below IsShort utf8
make_line-Tame b =
    let n = b.random b.drawn % 70 in
    let found = element-IsShort msgs (n % 10) msgs-IsShort (omega arith) in
    rw (found.1.0) (elim (Bool-cases (n == 1)) [
      | inl e ↦ rw e (
        short_name-IsTame Directions.minus_one (utf8 "\\out") (omega arith) (inr (inr refl)),
        (refl, refl),
      )
      | inr e ↦ rw e (
        short_name-IsTame Directions.minus_one (found.0) (found.1.1) (inr (inr refl)),
        (refl, refl),
      )
    ])

make_logged_in-Tame : (b : Bots) → Returns (Tamely b) (make_logged_in b)
unfolding make_logged_in rand_below
make_logged_in-Tame b = elim (Bool-cases (b.random b.drawn % 4 == 0)) [
  | inl e ↦ rw e (make_room_request-Tame (record b { drawn = suc b.drawn }))
  | inr e ↦ rw e (make_line-Tame (record b { drawn = suc b.drawn }))
]

password-IsField : IsField password
unfolding utf8 contains
password-IsField = record { not_empty = λ e. cc; no_delimiter = refl }

-- The statuses that the bots know.
abbrev pub IsKnown : ℕ → Type 0
IsKnown status = (status ≡ 1) ⊎ ((status ≡ 2) ⊎ (status ≡ 3))

-- A bot's request is there, and within the limits.
abbrev pub TameRequest : InfoClient → Type 0
TameRequest info =
    (direction : ℕ) × ((info.direction ≡ some direction)
      × IsTameMade (record { direction = direction; message = info.message }))

module _ (id : Text) (h : IsName id) where
  to_make : tokens (id ++ (b'\\' ∷ password ++ b'\\' ∷ id)) ≡ id ∷ password ∷ id ∷ []
  unfolding join
  to_make = tokens-join (id ∷ password ∷ id ∷ []) (h.field, (password-IsField, (h.field, tt)))

  to_enter : tokens (id ++ b'\\' ∷ password) ≡ id ∷ password ∷ []
  unfolding join
  to_enter = tokens-join (id ∷ password ∷ []) (h.field, (password-IsField, tt))

  to_make-length : length (id ++ (b'\\' ∷ password ++ b'\\' ∷ id)) < 512
  unfolding utf8
  to_make-length = omega (
    arith,
    h.short,
    length-append id (b'\\' ∷ password ++ b'\\' ∷ id),
    length-append (b'\\' ∷ password) (b'\\' ∷ id),
  )

  to_enter-length : length (id ++ b'\\' ∷ password) < 512
  unfolding utf8
  to_enter-length = omega (arith, h.short, length-append id (b'\\' ∷ password))

  password_fits : length password < 10
  unfolding utf8
  password_fits = omega arith

  to_make-IsTame : IsTameMade (record {
    direction = Directions.user_make;
    message = id ++ (b'\\' ∷ password ++ b'\\' ∷ id);
  })
  to_make-IsTame sock now_status = record {
    at_logout = record {
      short = omega (arith, to_make-length);
      few_to_make = λ e. rw to_make (omega arith);
      fits_to_make = λ e. rw to_make (password_fits, h.short);
      few_to_enter = λ e. absurd (ground (arith, e));
      fits_to_enter = λ e. absurd (ground (arith, e));
    };
    waits = record {
      short = to_make-length;
      name_fits = λ e. absurd (ground (arith, e));
      few = λ e. absurd (ground (arith, e));
      not_friend_go = λ e. ground (arith, e);
    };
    chats = record { short = to_make-length; not_file_send = λ e. ground (arith, e) };
    not_count = λ e. ground (arith, e);
  }

  to_enter-IsTame :
      IsTameMade (record { direction = Directions.user_enter; message = id ++ b'\\' ∷ password })
  to_enter-IsTame sock now_status = record {
    at_logout = record {
      short = omega (arith, to_enter-length);
      few_to_make = λ e. absurd (ground (arith, e));
      fits_to_make = λ e. absurd (ground (arith, e));
      few_to_enter = λ e. rw to_enter (omega arith);
      fits_to_enter = λ e. rw to_enter h.short;
    };
    waits = record {
      short = to_enter-length;
      name_fits = λ e. absurd (ground (arith, e));
      few = λ e. absurd (ground (arith, e));
      not_friend_go = λ e. ground (arith, e);
    };
    chats = record { short = to_enter-length; not_file_send = λ e. ground (arith, e) };
    not_count = λ e. ground (arith, e);
  }

  make_logged_out-Tame : (b : Bots) → Returns (Tamely b) (make_logged_out id b)
  unfolding make_logged_out rand_below
  make_logged_out-Tame b = elim (Bool-cases (b.random b.drawn % 2 == 1)) [
    | inl e ↦ rw e (to_make-IsTame, (refl, refl))
    | inr e ↦ rw e (to_enter-IsTame, (refl, refl))
  ]

  kept :
      (info : InfoClient) (b : Bots) (m : Made) (b' : Bots)
      → Tamely b m b'
      → Returns
          (λ info' b'.
            TameRequest info' × ((b'.make_queue ≡ b.make_queue) × (b'.send_queue ≡ b.send_queue)))
          (pure (record info { direction = some m.direction; message = m.message }) b')
  kept info b m b' t = ((m.direction, (refl, t.0)), t.1)

  make_request-Tame :
      (status : ℕ) (info : InfoClient) (b : Bots)
      → IsKnown status
      → Returns
          (λ info' b'.
            TameRequest info' × ((b'.make_queue ≡ b.make_queue) × (b'.send_queue ≡ b.send_queue)))
          (make_request status id info b)
  unfolding make_request
  make_request-Tame status info b (inl e) = rw e (
      Spec-continue ⊥ ⊥ ⊥ (Tamely b) _ (make_logged_out id b) _ (make_logged_out-Tame b)
        (kept info b))
  make_request-Tame status info b (inr (inl e)) =
      rw e (
        Spec-continue ⊥ ⊥ ⊥ (Tamely b) _ (make_logged_in b) _ (make_logged_in-Tame b) (kept info b))
  make_request-Tame status info b (inr (inr e)) =
      rw e (
        Spec-continue ⊥ ⊥ ⊥ (Tamely b) _ (make_logged_in b) _ (make_logged_in-Tame b) (kept info b))

-- A turn of the bots' MakeMsgThread returns, whatever the random numbers are: the bot that
-- waited longest goes to the end of the send queue with a request that keeps to the limits of
-- the server in every status. It must be in the map of clients, its name there have a byte,
-- less than 20 and no delimiter, and its status there be that of the log-in, the lobby or a
-- room.
pub bot_make_turn-Tame :
    (b : Bots) (info known : InfoClient) (rest : List InfoClient)
    → b.make_queue ≡ info ∷ rest
    → lookup info.sock b.client_map ≡ some known
    → IsName known.id
    → IsKnown known.client_status
    → Returns
        (λ _ b'.
          (made : InfoClient) × (TameRequest made
            × ((b'.make_queue ≡ rest) × (b'.send_queue ≡ b.send_queue ++ made ∷ []))))
        (bot_make_turn b)
unfolding bot_make_turn pop_make_queue push_send_queue
bot_make_turn-Tame b info known rest waiting is_known h status =
    rw (waiting, is_known)
      (Spec-continue ⊥ ⊥ ⊥ _ _
        (make_request known.client_status known.id info (record b { make_queue = rest })) _
        (make_request-Tame known.id h known.client_status info (record b { make_queue = rest })
          status)
        λ made b' t. (made, (t.0, (t.1.0, ap (λ q. q ++ made ∷ []) (t.1.1)))))
