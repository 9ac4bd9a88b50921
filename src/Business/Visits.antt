-- ===== src/Business/Visits.antt =====
-- Visits to a room: making one and leaving it, and what a name of 20 bytes or more does.
use cpp_iocp_server.Prelude.{
  ◌≤◌, ◌<◌, ◌≡◌, refl, sym, subst, inr, false, none, some, List, [], ◌∷◌, ◌++◌, arith, lookup,
  remove, lookup-insert, lookup-insert_sorted, lookup-erase, nat_eq, nat_beq_iff, text_eq,
  text_beq_iff, ltb, length, length-take, take_all,
}
use cpp_iocp_server.Text.{Text, utf8, strncpy, text_ltb}
use cpp_iocp_server.Outcome.{returns, undefined, ◌>>◌}
use cpp_iocp_server.Common.{
  Socket, status_waiting, status_chatting, send_me, wait_room_message, chat_room_message, name_size,
  SendData,
}
use cpp_iocp_server.State.{Session, Tables, State}
use cpp_iocp_server.Iocp.Sending.{HasTail, room_packets}
use cpp_iocp_server.Business.Basics.{set_room, erase_room, send_data}
use cpp_iocp_server.Business.Room.{in_room, in_lobby, room_make, add_room}
use cpp_iocp_server.Business.Dispatch.{chat_out}
use cpp_iocp_server.Business.Consistency.{IsSound, set_user}
use cpp_iocp_server.Business.Safety.Rules.{name_of_lem, room_of_lem, set_session_lem}
use cpp_iocp_server.Business.Safety.Leaving.{goodbye, say_goodbye_lem}

-- The tables once `sock` has made a room.
abbrev pub made : Socket → Text → Session → Tables → Tables
made sock room u t = set_user sock (in_room room u) (add_room room sock t)

-- The send queue once it has been told so.
abbrev pub told_made : Socket → Text → State → List SendData
told_made sock room s =
    s.send_queue
    ++ send_data send_me (room ++ utf8 " 방이 개설되었습니다." ++ chat_room_message) [] sock status_chatting
      ∷ []

module _ (sock : Socket) (room : Text) (u : Session) (s : State) (is_sound : IsSound u)
    (is_session : lookup sock s.user_map ≡ some u) (fresh : lookup room s.room_map ≡ none) where
  abbrev pub made_state : State
  made_state = record s { tables = made sock room u s.tables; send_queue = told_made sock room s }

  -- A sound session that makes a room under a name that is not taken is in it, alone, and only
  -- its client is told, by an entry of the send queue; nothing else changes.
  pub room_make_lem : room_make sock room s ≡ returns tt made_state
  unfolding room_make
  room_make_lem =
      rw
        (
          name_of_lem sock s u is_session is_sound,
          fresh,
          set_session_lem sock (record s { tables = add_room room sock s.tables }) u is_session
              is_sound (in_room room),
        )
        refl

  in_room_after : lookup sock made_state.user_map ≡ some (in_room room u)
  in_room_after = ground (arith, lookup-insert sock sock (in_room room u) s.user_map)

  -- The session's copy of a long name fills its array.
  full : 20 ≤ length room → ltb (length (strncpy name_size room)) name_size ≡ false
  full long = ground (arith, length-take 20 room)

  -- A room whose name has 20 bytes or more, and is not taken, can be made but not be left: the
  -- session's copy of the name has no terminator then, and the request to leave reads past the
  -- array. The session must have been sound before.
  pub room_make-chat_out-long :
      20 ≤ length room → (room_make sock room >> chat_out sock u.user_name) s ≡ undefined
  unfolding chat_out
  room_make-chat_out-long long = rw (room_make_lem, in_room_after, full long)

  module _ (tail : HasTail s.host) (waits : u.status ≡ status_waiting) (nowhere : u.room_name ≡ [])
      (short : length room < 20) where
    named : strncpy name_size room ≡ room
    named = take_all 20 room (omega arith)

    in_room-IsSound : IsSound (in_room room u)
    in_room-IsSound = record {
      name = is_sound.name;
      id = is_sound.id;
      room = rw named short;
      status = inr refl;
    }

    unfoldable copy : Text
    copy = strncpy name_size room

    room_after : lookup copy made_state.room_map ≡ some (sock ∷ [])
    unfolding copy
    room_after =
        subst (λ r. lookup r made_state.room_map ≡ some (sock ∷ [])) (sym named)
          (ground (
            arith,
            lookup-insert_sorted text_ltb room room (sock ∷ []) s.room_map,
            text_beq_iff room room,
          ))

    alone : remove (sock ∷ []) sock ≡ []
    unfolding remove
    alone = ground (arith, nat_beq_iff sock sock)

    -- What is left when the maker has gone again.
    abbrev gone : Tables
    gone = set_user sock (in_lobby (in_room room u)) (set_room copy [] made_state.tables)

    emptied : lookup copy gone.room_map ≡ some []
    emptied = ground (arith, lookup-insert copy copy [] made_state.room_map, text_beq_iff copy copy)

    abbrev gone_state : State
    gone_state = record s {
      tables = erase_room copy gone;
      send_queue =
          told_made sock room s ++ send_data send_me wait_room_message [] sock status_waiting ∷ [];
      wire = s.wire ++ room_packets (goodbye u.user_name) status_chatting (sock ∷ []);
    }

    abbrev farewell_state : State
    farewell_state = record gone_state { tables = set_room copy [] made_state.tables }

    chat_out_lem : chat_out sock u.user_name made_state ≡ returns tt gone_state
    unfolding chat_out copy
    chat_out_lem =
        rw
          (
            room_of_lem sock made_state (in_room room u) in_room_after in_room-IsSound,
            say_goodbye_lem sock u.user_name copy (sock ∷ []) made_state
                (tail (goodbye u.user_name)) is_sound.name room_after,
            alone,
            set_session_lem sock farewell_state (in_room room u) in_room_after in_room-IsSound
                in_lobby,
            emptied,
          )
          refl

    -- Being in a room and then in the lobby changes nothing of a session that waits there.
    restored : in_lobby (in_room room u) ≡ u
    restored =
        subst (λ status. record u { room_name = []; status = status } ≡ u) waits
          (subst (λ n. record u { room_name = n } ≡ u) nowhere refl)

    rooms_restored : (r : Text) → lookup r gone_state.room_map ≡ lookup r s.room_map
    unfolding copy
    rooms_restored r = ground (
      arith,
      named,
      fresh,
      lookup-erase copy r gone.room_map,
      lookup-insert copy r [] made_state.room_map,
      lookup-insert_sorted text_ltb room r (sock ∷ []) s.room_map,
      text_beq_iff room r,
    )

    users_restored : (j : Socket) → lookup j gone_state.user_map ≡ lookup j s.user_map
    users_restored j = ground (
      arith,
      restored,
      is_session,
      lookup-insert sock j (in_lobby (in_room room u)) made_state.user_map,
      lookup-insert sock j (in_room room u) s.user_map,
      nat_beq_iff sock j,
    )

    -- A session that waits makes a room, under a name of less than 20 bytes that is not taken,
    -- and leaves it: both requests return, and every socket has the session, every name the
    -- room, that it had before. The machine must let ten bytes be read behind each message that
    -- is sent, and the session be sound and in no room.
    pub room_make-chat_out :
        (s' : State) × (((room_make sock room >> chat_out sock u.user_name) s ≡ returns tt s')
          × (((r : Text) → lookup r s'.room_map ≡ lookup r s.room_map)
              × ((j : Socket) → lookup j s'.user_map ≡ lookup j s.user_map)))
    room_make-chat_out =
        (gone_state, (rw (room_make_lem) chat_out_lem, (rooms_restored, users_restored)))
