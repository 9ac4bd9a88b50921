-- ===== src/Threads/Races.antt =====
-- Turns that two handlers should not take, and can.
use cpp_iocp_server.Prelude.{
  ℕ, ◌≡◌, ◌≢◌, refl, ◌∙◌, arith, false, none, some, List, [], ◌∷◌, ◌++◌, lookup, remove, contains,
  contains-remove, nat_eq, text_eq, lookup-insert, lookup-erase, nat_beq_iff, text_beq_iff,
  take_all, ◌+◌, ◌≤◌, ◌<◌, ◌⊎◌, length, inl, inr, Bool-cases, ltb,
}
use cpp_iocp_server.Text.{Text}
use cpp_iocp_server.Outcome.{Returns, c_str_ok, returns, undefined}
use cpp_iocp_server.Common.{Socket, status_waiting, status_chatting, send_me, wait_room_message}
use cpp_iocp_server.State.{Session, State}
use cpp_iocp_server.Iocp.Sending.{send_to_room_msg-undefined, room_packets}
use cpp_iocp_server.Business.Basics.{erase_id, insert_id, session, set_room, erase_room, send_data}
use cpp_iocp_server.Business.Account.{session_at_login}
use cpp_iocp_server.Business.Room.{in_room, in_lobby, say_goodbye}
use cpp_iocp_server.Business.Consistency.{IsSound, set_user}
use cpp_iocp_server.Business.Safety.Rules.{room_of_lem, id_of_lem, set_session_lem}
use cpp_iocp_server.Business.Safety.Leaving.{goodbye, goodbye_fits, say_goodbye_lem}
use cpp_iocp_server.Threads.{Work, done, interleave}
use cpp_iocp_server.Threads.Handlers.{
  own_name, own_id, list_lock, enter_found_cut, room_enter_cut, chat_out_cut, log_out_cut,
  enter_once_cut,
}

copies_or_not :
    (name : Text) (s : State)
    → (length (goodbye name) + 11 ≤ s.host.readable (goodbye name))
      ⊎ (s.host.readable (goodbye name) < length (goodbye name) + 11)
copies_or_not name s =
    elim (Bool-cases (ltb (s.host.readable (goodbye name)) (length (goodbye name) + 11))) [
      | inl e ↦ inr (ground arith)
      | inr e ↦ inl (ground arith)
    ]

module _ (a b : Socket) (u v : Session) (s : State) (leaver : lookup a s.user_map ≡ some u)
    (visitor : lookup b s.user_map ≡ some v) (u-IsSound : IsSound u) (v-IsSound : IsSound v)
    (apart : a ≢ b) (alone_there : lookup u.room_name s.room_map ≡ some (a ∷ [])) where
  abbrev room : Text
  room = u.room_name

  abbrev left_state : State
  left_state = record s {
    wire = s.wire ++ room_packets (goodbye u.user_name) status_chatting (a ∷ []);
    tables = set_room room [] s.tables;
  }

  abbrev told_state : State
  told_state = record left_state {
    send_queue = s.send_queue ++ send_data send_me wait_room_message [] a status_waiting ∷ [];
  }

  abbrev freed_state : State
  freed_state = record told_state { tables = set_user a (in_lobby u) told_state.tables }

  abbrev dropped_state : State
  dropped_state = record freed_state { tables = erase_room room freed_state.tables }

  abbrev entered_state : State
  entered_state = record dropped_state { tables = set_user b (in_room room v) dropped_state.tables }

  -- The farewell can be copied, ten bytes past its terminator.
  abbrev CanCopy : Type 0
  CanCopy = length (goodbye u.user_name) + 11 ≤ s.host.readable (goodbye u.user_name)

  left : CanCopy → say_goodbye a u.user_name room s ≡ returns tt left_state
  unfolding remove
  left copies =
      rw
        (
          say_goodbye_lem a u.user_name room (a ∷ []) s copies u-IsSound.name alone_there,
          (nat_beq_iff a a).1 refl,
        )
        refl

  emptied : lookup room freed_state.room_map ≡ some []
  emptied = ground (arith, lookup-insert room room [] s.room_map, text_beq_iff room room)

  visitor_after : lookup b dropped_state.user_map ≡ some v
  visitor_after = ground (arith, lookup-insert a b (in_lobby u) s.user_map, nat_beq_iff a b)

  no_room_after : list_lock room entered_state ≡ undefined
  unfolding list_lock
  no_room_after =
      let gone : lookup room dropped_state.room_map ≡ none =
        ground (arith, lookup-erase room room freed_state.room_map, text_beq_iff room room) in
      rw gone refl

  reads_name : own_name b s ≡ returns v.user_name s
  unfolding own_name session
  reads_name = rw (visitor, c_str_ok 20 v.user_name s v-IsSound.name)

  reads_id : own_id b s ≡ returns v.user_id s
  unfolding own_id session
  reads_id = rw (visitor, c_str_ok 20 v.user_id s v-IsSound.id)

  lock_found : list_lock room s ≡ returns (a ∷ []) s
  unfolding list_lock
  lock_found = rw alone_there

  -- The visitor reads its session and finds the room.
  finds :
      (is : List ℕ) (ws : List Work)
      → interleave (0 ∷ 0 ∷ 0 ∷ is) (room_enter_cut b room ∷ ws) s
        ≡ interleave is (enter_found_cut b v.user_name room (some (a ∷ [])) ∷ ws) s
  unfolding interleave room_enter_cut
  finds is ws = rw (reads_name, reads_id, alone_there)

  -- The last member leaves.
  leaves :
      CanCopy
      → (is : List ℕ) (w : Work)
      → interleave (1 ∷ 1 ∷ 1 ∷ 1 ∷ 1 ∷ 1 ∷ is) (w ∷ chat_out_cut a u.user_name ∷ []) s
        ≡ interleave is (w ∷ done ∷ []) dropped_state
  unfolding interleave chat_out_cut
  leaves copies is w = rw (
    room_of_lem a s u leaver u-IsSound,
    lock_found,
    left copies,
    set_session_lem a told_state u leaver u-IsSound in_lobby,
    emptied,
  )

  cannot_leave :
      s.host.readable (goodbye u.user_name) < length (goodbye u.user_name) + 11
      → (is : List ℕ) (w : Work)
      → interleave (1 ∷ 1 ∷ 1 ∷ 1 ∷ 1 ∷ 1 ∷ is) (w ∷ chat_out_cut a u.user_name ∷ []) s ≡ undefined
  unfolding interleave chat_out_cut say_goodbye
  cannot_leave ends is w = rw (
    room_of_lem a s u leaver u-IsSound,
    lock_found,
    alone_there,
    send_to_room_msg-undefined (goodbye u.user_name) a [] status_chatting s
        (goodbye_fits u.user_name u-IsSound.name) ends,
  )

  -- The visitor takes the place that it has found.
  enters :
      (ws : List Work)
      → interleave
          (0 ∷ 0 ∷ [])
          (enter_found_cut b v.user_name room (some (a ∷ [])) ∷ ws)
          dropped_state
        ≡ undefined
  unfolding interleave
  enters ws =
      rw (set_session_lem b dropped_state v visitor_after v-IsSound (in_room room), no_room_after)

  -- The last member of a room leaves it by its \out after another client's RoomEnter has found
  -- the room and before that client is on the room's list: these turns run into undefined
  -- behaviour, as the room is looked up again when it is gone. Both sessions must be sound and
  -- their sockets not the same. Where the ten bytes behind the farewell cannot be read, the
  -- member's leaving is undefined by itself.
  pub room_enter-race :
      interleave
        (0 ∷ 0 ∷ 0 ∷ 1 ∷ 1 ∷ 1 ∷ 1 ∷ 1 ∷ 1 ∷ 0 ∷ 0 ∷ [])
        (room_enter_cut b room ∷ chat_out_cut a u.user_name ∷ [])
        s
      ≡ undefined
  room_enter-race = elim (copies_or_not u.user_name s) [
    | inl copies ↦ finds _ _ ∙ leaves copies _ _ ∙ enters _
    | inr ends ↦ finds _ _ ∙ cannot_leave ends _ _
  ]

module _ (a b : Socket) (u : Session) (nick_name : Text) (s : State)
    (leaver : lookup a s.user_map ≡ some u) (u-IsSound : IsSound u) (apart : a ≢ b) where
  abbrev id : Text
  id = u.user_id

  abbrev given_up_state : State
  given_up_state = record s { tables = erase_id id s.tables }

  abbrev claimed_state : State
  claimed_state = record given_up_state { tables = insert_id id given_up_state.tables }

  abbrev doubled_state : State
  doubled_state = record claimed_state {
    tables = set_user b (session_at_login id nick_name) claimed_state.tables;
  }

  free : contains given_up_state.id_set id ≡ false
  free = ground (arith, contains-remove s.id_set id id, text_beq_iff id id)

  first_stays : lookup a doubled_state.user_map ≡ some u
  first_stays =
      ground (arith, lookup-insert b a (session_at_login id nick_name) s.user_map, nat_beq_iff b a)

  second_is_there : lookup b doubled_state.user_map ≡ some (session_at_login id nick_name)
  second_is_there =
      ground (arith, lookup-insert b b (session_at_login id nick_name) s.user_map, nat_beq_iff b b)

  -- A session logs out, and between its sections a log-in under its id, which has passed the
  -- password, takes two turns: they return, and both sockets have a session with the id. The
  -- session that logs out must be sound and the sockets not the same.
  pub log_out-race :
      Returns
        (λ _ s'.
          (lookup a s'.user_map ≡ some u)
          × (lookup b s'.user_map ≡ some (session_at_login id nick_name))
          × ((session_at_login id nick_name).user_id ≡ id))
        (interleave (0 ∷ 1 ∷ 1 ∷ []) (log_out_cut a ∷ enter_once_cut b id nick_name ∷ []) s)
  unfolding interleave log_out_cut enter_once_cut
  log_out-race =
      rw (id_of_lem a s u leaver u-IsSound, free)
        (first_stays, second_is_there, take_all 20 id (omega (arith, u-IsSound.id)))
