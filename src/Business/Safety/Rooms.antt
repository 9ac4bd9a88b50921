-- ===== src/Business/Safety/Rooms.antt =====
-- `RoomMake` and `RoomEnter`.
use cpp_iocp_server.Prelude.{
  ◌<◌, ◌≡◌, inl, inr, Option-cases, some, lookup, nat_eq, text_eq, length,
}
use cpp_iocp_server.Text.{Text}
use cpp_iocp_server.Common.{Socket, status_waiting}
use cpp_iocp_server.State.{Session, State}
use cpp_iocp_server.Business.Room.{in_room, room_make, room_enter, push_member, add_room}
use cpp_iocp_server.Business.Consistency.{IsSound, add_room-IsConsistent, enter-IsConsistent}
use cpp_iocp_server.Business.Safety.Rules.{IsSafe, Safe, name_of_lem, set_session_lem}

module _ (sock : Socket) (msg : Text) (s : State) (u : Session) (h : IsSafe s)
    (is_session : lookup sock s.user_map ≡ some u) (waits : u.status ≡ status_waiting)
    (short : length msg < 20) where
  is_sound : IsSound u
  is_sound = h.consistent.sound sock u is_session

  -- RoomMake by a session that waits, with a name of less than 20 bytes, new or taken, does not
  -- run into undefined behaviour from a safe state; where it returns, the state is such a state again.
  pub room_make-Safe : Safe (room_make sock msg s)
  unfolding room_make
  room_make-Safe =
      rw (name_of_lem sock s u is_session is_sound) (elim (Option-cases (lookup msg s.room_map)) [
        | inl fresh ↦
            rw
              (
                fresh,
                set_session_lem sock (record s { tables = add_room msg sock s.tables }) u is_session
                    is_sound (in_room msg),
              )
              (record {
                consistent =
                    add_room-IsConsistent sock msg u s.tables h.consistent is_session waits short
                      fresh;
                serving = h.serving;
                around = h.around;
              })
        | inr (socks, there) ↦
            rw there (record { consistent = h.consistent; serving = h.serving; around = h.around })
      ])

  -- RoomEnter by a session that waits, with a name of less than 20 bytes, of a room or of none,
  -- does not run into undefined behaviour from a safe state; where it returns, the state is such a
  -- state again.
  pub room_enter-Safe : Safe (room_enter sock msg s)
  unfolding room_enter
  room_enter-Safe =
      rw (name_of_lem sock s u is_session is_sound) (elim (Option-cases (lookup msg s.room_map)) [
        | inl fresh ↦
            rw fresh (record { consistent = h.consistent; serving = h.serving; around = h.around })
        | inr (socks, there) ↦
            rw
              (
                there,
                set_session_lem sock s u is_session is_sound (in_room msg),
                push_member,
                there,
              )
              (record {
                consistent =
                    enter-IsConsistent sock msg u s.tables h.consistent is_session waits short socks
                      there;
                serving = h.serving;
                around = h.around;
              })
      ])
