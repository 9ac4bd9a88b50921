-- ===== src/Business/Safety/Leaving.antt =====
-- Leaving a room, and the end of a session.
use cpp_iocp_server.Prelude.{
  ◌+◌, ◌≤◌, ◌<◌, ◌≡◌, refl, ◌≢◌, inl, inr, Bool, true, false, Option-cases, Option, none, some,
  List, [], ◌∷◌, ◌++◌, arith, lookup, nat_eq, text_eq, length, length-append, remove, erase,
  lookup-insert, nat_beq_iff,
}
use cpp_iocp_server.Text.{Text, utf8}
use cpp_iocp_server.Outcome.{returns, Post, Post-mono, Post-continue, c_str_ok}
use cpp_iocp_server.Common.{Socket, status_waiting, status_chatting, send_me, wait_room_message}
use cpp_iocp_server.State.{Session, State}
use cpp_iocp_server.Iocp.Sending.{room_packets, send_to_room_msg_lem}
use cpp_iocp_server.Business.Room.{in_lobby, say_goodbye, drop_if_empty}
use cpp_iocp_server.Business.Leave.{leave_room, give_up_session, client_exit, ban_user}
use cpp_iocp_server.Business.Info.{find_named}
use cpp_iocp_server.Business.Dispatch.{chat_out, log_out}
use cpp_iocp_server.Business.Basics.{set_room, send_data, erase_id, erase_session}
use cpp_iocp_server.Business.Consistency.Leaving.{leave-IsConsistent}
use cpp_iocp_server.Business.Consistency.{
  IsSound, set_user, user_map-drop_if_empty, id_set-IsConsistent, erase_session-IsConsistent,
}
use cpp_iocp_server.Business.Safety.Rules.{
  IsSafe, Safe, queue-IsSafe, id_of_lem, room_of_lem, set_session_lem,
}

goodbye_length : length (utf8 " 님이 나갔습니다!") ≤ 100
unfolding utf8
goodbye_length = omega arith

abbrev pub goodbye : Text → Text
goodbye name = name ++ utf8 " 님이 나갔습니다!"

pub goodbye_fits : (name : Text) → length name < 20 → length (goodbye name) ≤ 1003
goodbye_fits name short = omega (arith, length-append name (utf8 " 님이 나갔습니다!"), goodbye_length)

-- When a member with a name of less than 20 bytes leaves a room that is there, and ten bytes can
-- be read behind the farewell, everybody on the
-- room's list is sent the departure at once, the leaving one with them, and the list is then
-- without the socket; nothing else changes.
pub say_goodbye_lem :
    (sock : Socket) (name room : Text) (socks : List Socket) (s : State)
    → length (goodbye name) + 11 ≤ s.host.readable (goodbye name)
    → length name < 20
    → lookup room s.room_map ≡ some socks
    → say_goodbye sock name room s
      ≡ returns tt (record s {
        wire = s.wire ++ room_packets (goodbye name) status_chatting socks;
        tables = set_room room (remove socks sock) s.tables;
      })
unfolding say_goodbye
say_goodbye_lem sock name room socks s tail short there = rw (
  there,
  send_to_room_msg_lem (goodbye name) socks status_chatting s tail (goodbye_fits name short),
)

module _ (sock : Socket) (s : State) (u : Session) (socks : List Socket) (h : IsSafe s)
    (is_session : lookup sock s.user_map ≡ some u) (chats : u.status ≡ status_chatting)
    (there : lookup u.room_name s.room_map ≡ some socks) where
  is_sound : IsSound u
  is_sound = h.consistent.sound sock u is_session

  -- Where the session of the socket is after `leave_room`.
  abbrev pub left_state : State
  left_state = record s {
    wire = s.wire ++ room_packets (goodbye u.user_name) status_chatting socks;
    tables = set_room u.room_name (remove socks sock) s.tables;
  }

  in_lobby_after :
      (o : Option (List Socket))
      → lookup sock
          (drop_if_empty u.room_name o (set_user sock (in_lobby u) left_state.tables)).user_map
        ≡ some (in_lobby u)
  in_lobby_after o = rw (
    user_map-drop_if_empty u.room_name o (set_user sock (in_lobby u) left_state.tables),
    lookup-insert sock sock (in_lobby u) s.user_map,
    (nat_beq_iff sock sock).1 refl,
  )

  -- Leaving a room, for a session that chats in a room that is there, does not run into
  -- undefined behaviour from a state where sessions and rooms agree, the driver answers and the
  -- machine lets ten bytes be read behind each message that is sent; where it returns, the
  -- state is such a state again and the session waits in the lobby.
  pub leave_room-Post :
      Post
        (λ _ s'. IsSafe s' × (lookup sock s'.user_map ≡ some (in_lobby u)))
        (leave_room sock u.user_name s)
  unfolding leave_room
  leave_room-Post =
      rw
        (
          room_of_lem sock s u is_session is_sound,
          say_goodbye_lem sock u.user_name u.room_name socks s (h.around (goodbye u.user_name))
              is_sound.name there,
          set_session_lem sock left_state u is_session is_sound in_lobby,
        )
        (
          record {
            consistent =
                leave-IsConsistent sock socks u s.tables h.consistent is_session chats there;
            serving = h.serving;
            around = h.around;
          },
          in_lobby_after _,
        )

  -- `\out`: the same, with an entry for the client.
  pub chat_out-Safe : Safe (chat_out sock u.user_name s)
  unfolding chat_out
  chat_out-Safe =
      rw
        (
          room_of_lem sock s u is_session is_sound,
          say_goodbye_lem sock u.user_name u.room_name socks s (h.around (goodbye u.user_name))
              is_sound.name there,
          set_session_lem sock
              (record left_state {
                send_queue =
                    s.send_queue ++ send_data send_me wait_room_message [] sock status_waiting ∷ [];
              })
              u is_session is_sound in_lobby,
        )
        (record {
          consistent = leave-IsConsistent sock socks u s.tables h.consistent is_session chats there;
          serving = h.serving;
          around = h.around;
        })

-- The list of the room that a session chats in.
pub room_there :
    (sock : Socket) (s : State) (u : Session)
    → IsSafe s
    → lookup sock s.user_map ≡ some u
    → u.status ≡ status_chatting
    → (socks : List Socket) × (lookup u.room_name s.room_map ≡ some socks)
room_there sock s u h is_session chats = elim (Option-cases (lookup u.room_name s.room_map)) [
  | inl e ↦ absurd (h.consistent.has_room sock u is_session chats e)
  | inr found ↦ found
]

-- The session of a socket waits in the lobby.
abbrev pub Waits : Socket → State → Type 0
Waits sock s = (v : Session) × (lookup sock s.user_map ≡ some v) × (v.status ≡ status_waiting)

abbrev SafeInLobby : Socket → State → Type 0
SafeInLobby sock s = IsSafe s × Waits sock s

-- The state once the id of the session is logged out.
abbrev logged_out : Session → State → State
logged_out u s = record s { tables = erase_id u.user_id s.tables }

logged_out-IsSafe : (u : Session) (s : State) → IsSafe s → IsSafe (logged_out u s)
logged_out-IsSafe u s h = record {
  consistent = id_set-IsConsistent s.tables (remove s.id_set u.user_id) h.consistent;
  serving = h.serving;
  around = h.around;
}

leave_logged_out :
    (sock : Socket) (s : State) (u : Session)
    → IsSafe s
    → lookup sock s.user_map ≡ some u
    → u.status ≡ status_chatting
    → Post (λ _ s'. SafeInLobby sock s') (leave_room sock u.user_name (logged_out u s))
leave_logged_out sock s u h is_session chats =
    let (socks, there) = room_there sock s u h is_session chats in
    Post-mono (λ _ s'. IsSafe s' × (lookup sock s'.user_map ≡ some (in_lobby u)))
      (λ _ s'. SafeInLobby sock s') (leave_room sock u.user_name (logged_out u s))
      (leave_room-Post sock (logged_out u s) u socks (logged_out-IsSafe u s h) is_session chats
        there)
      (λ _ s' p. (p.0, (in_lobby u, p.1, refl)))

-- A session is given up from the lobby and from a room alike: it is in the lobby then.
pub give_up_session-Post :
    (sock : Socket) (s : State) (u : Session)
    → IsSafe s
    → lookup sock s.user_map ≡ some u
    → Post (λ _ s'. SafeInLobby sock s') (give_up_session sock u s)
unfolding give_up_session
give_up_session-Post sock s u h is_session =
    rw (c_str_ok 20 u.user_id s (h.consistent.sound sock u is_session).id)
      (elim (h.consistent.sound sock u is_session).status [
        | inl waits ↦ rw (waits.0) (logged_out-IsSafe u s h, (u, is_session, waits.0))
        | inr chats ↦
            rw
              (
                chats,
                c_str_ok 20 u.user_name (logged_out u s)
                    (h.consistent.sound sock u is_session).name,
              )
              (leave_logged_out sock s u h is_session chats)
      ])

-- The session is erased from the lobby.
erase_after :
    (sock : Socket) (s : State)
    → SafeInLobby sock s
    → IsSafe (record s { tables = erase_session sock s.tables })
erase_after sock s (h, (v, is_session, waits)) = record {
  consistent = erase_session-IsConsistent sock s.tables v h.consistent is_session waits;
  serving = h.serving;
  around = h.around;
}

-- The end of a connection, whether the socket closes and whether it has a session, does not run
-- into undefined behaviour from a state where sessions and rooms agree, the driver answers and
-- the machine lets ten bytes be read behind each message that is sent; where it returns, the
-- state is such a state again.
pub client_exit-Safe :
    (sock : Socket) (is_closed : Bool) (s : State) → IsSafe s → Safe (client_exit sock is_closed s)
unfolding client_exit
client_exit-Safe sock false s h = h
client_exit-Safe sock true s h = elim (Option-cases (lookup sock s.user_map)) [
  | inl e ↦ rw e (record { consistent = h.consistent; serving = h.serving; around = h.around })
  | inr (u, e) ↦ rw e (
      Post-continue (λ _ s'. SafeInLobby sock s') (λ _ s'. IsSafe s') _ _
        (give_up_session-Post sock (record s { live_socket = erase sock s.live_socket }) u
          (record { consistent = h.consistent; serving = h.serving; around = h.around }) e)
        (λ _ s' p. erase_after sock s' p))
]

-- A log-out from the lobby.
pub log_out-Safe :
    (sock : Socket) (s : State) (u : Session)
    → IsSafe s
    → lookup sock s.user_map ≡ some u
    → u.status ≡ status_waiting
    → Safe (log_out sock s)
unfolding log_out
log_out-Safe sock s u h is_session waits =
    rw (id_of_lem sock s u is_session (h.consistent.sound sock u is_session)) (
      queue-IsSafe _ _
        (erase_after sock (logged_out u s) (logged_out-IsSafe u s h, (u, is_session, waits))))

-- A socket that is found by a name has a session.
find_named-lookup :
    (name : Text) (users : List (Socket × Session)) (sock : Socket) (u : Session)
    → find_named name users ≡ some (sock, u)
    → lookup sock users ≢ none
unfolding find_named lookup
find_named-lookup name [] sock u e = cc
find_named-lookup name ((j, v) ∷ users) sock u e =
    ground (arith, find_named-lookup name users sock u, nat_beq_iff j sock)

-- A ban, of a nickname that has a session or of one that has none, does not run into undefined
-- behaviour from a state where sessions and rooms agree, the driver answers and the machine
-- lets ten bytes be read behind each message that is sent; where it returns, the state is such
-- a state again.
pub ban_user-Safe : (nick_name : Text) (s : State) → IsSafe s → Safe (ban_user nick_name s)
unfolding ban_user
ban_user-Safe nick_name s h = elim (Option-cases (find_named nick_name s.user_map)) [
  | inl e ↦ rw e h
  | inr ((sock, w), e) ↦ rw e (elim (Option-cases (lookup sock s.user_map)) [
    | inl gone ↦ absurd (find_named-lookup nick_name s.user_map sock w e gone)
    | inr (u, there) ↦ rw there (
        Post-continue (λ _ s'. SafeInLobby sock s') (λ _ s'. IsSafe s') _ _
          (give_up_session-Post sock s u h there)
          (λ _ s' p. erase_after sock (record s' { send_queue = _ }) (queue-IsSafe s' _ p.0, p.1)))
  ])
]
