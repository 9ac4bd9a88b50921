-- ===== src/Business/Consistency/Leaving.antt =====
-- A member leaves its room: the steps that `\out`, `ClientExit` and `BanUser` share, on the maps.
use cpp_iocp_server.Prelude.{
  ◌≡◌, refl, ◌≢◌, inl, none, some, List, [], ◌∷◌, arith, lookup, contains, remove, nat_eq, text_eq,
  lookup-insert, lookup-erase, contains-remove, nat_beq_iff, text_beq_iff,
}
use cpp_iocp_server.Text.{Text}
use cpp_iocp_server.Common.{Socket, status_chatting}
use cpp_iocp_server.State.{Session, Tables}
use cpp_iocp_server.Business.Basics.{set_room, erase_room}
use cpp_iocp_server.Business.Room.{in_lobby, drop_if_empty}
use cpp_iocp_server.Business.Consistency.{AllSound-insert, is_in, IsSound, IsConsistent, set_user}

-- A session that chats leaves its room.
module _ (sock : Socket) (socks : List Socket) (u : Session) (t : Tables) (k : IsConsistent t)
    (is_session : lookup sock t.user_map ≡ some u) (chats : u.status ≡ status_chatting)
    (there : lookup u.room_name t.room_map ≡ some socks) where
  in_lobby-IsSound : IsSound (in_lobby u)
  in_lobby-IsSound = record {
    name = (k.sound sock u is_session).name;
    id = (k.sound sock u is_session).id;
    room = omega arith;
    status = inl (refl, refl);
  }

  abbrev left : Tables
  left = set_user sock (in_lobby u) (set_room u.room_name (remove socks sock) t)

  left-IsSound : (j : Socket) (v : Session) → lookup j left.user_map ≡ some v → IsSound v
  left-IsSound j v e =
      ground (arith, lookup-insert sock j (in_lobby u) t.user_map, in_lobby-IsSound, k.sound j v)

  left-members :
      (r : Text) (others : List Socket) (j : Socket)
      → lookup r left.room_map ≡ some others
      → contains others j ≡ is_in r (lookup j left.user_map)
  left-members r others j e = ground (
    arith,
    lookup-insert sock j (in_lobby u) t.user_map,
    lookup-insert u.room_name r (remove socks sock) t.room_map,
    contains-remove socks sock j,
    k.members r others j,
    k.members r socks j,
    text_beq_iff u.room_name r,
    nat_beq_iff sock j,
  )

  left-has_room :
      (j : Socket) (v : Session)
      → lookup j left.user_map ≡ some v
      → v.status ≡ status_chatting
      → lookup v.room_name left.room_map ≢ none
  left-has_room j v e c = ground (
    arith,
    lookup-insert sock j (in_lobby u) t.user_map,
    lookup-insert u.room_name v.room_name (remove socks sock) t.room_map,
    k.has_room j v,
  )

  -- Others remain: the room stays.
  left-IsConsistent :
      (m : Socket) (ms : List Socket) → remove socks sock ≡ m ∷ ms → IsConsistent left
  left-IsConsistent m ms some_left = record {
    all_sound = AllSound-insert sock (in_lobby u) t.user_map in_lobby-IsSound k.all_sound;
    sound = left-IsSound;
    members = left-members;
    has_room = left-has_room;
    not_empty = λ r e.
        ground (arith, lookup-insert u.room_name r (remove socks sock) t.room_map, k.not_empty r);
  }

  -- The last one has left: the room goes.
  closed-IsConsistent : remove socks sock ≡ [] → IsConsistent (erase_room u.room_name left)
  unfolding contains
  closed-IsConsistent none_left = record {
    all_sound = AllSound-insert sock (in_lobby u) t.user_map in_lobby-IsSound k.all_sound;
    sound = left-IsSound;
    members = λ r others j e.
        ground (arith, lookup-erase u.room_name r left.room_map, left-members r others j);
    has_room = λ j v e c. ground (
      arith,
      lookup-erase u.room_name v.room_name left.room_map,
      lookup-insert u.room_name v.room_name (remove socks sock) t.room_map,
      left-has_room j v,
      left-members v.room_name [] j,
      text_beq_iff u.room_name v.room_name,
      text_beq_iff v.room_name v.room_name,
    );
    not_empty = λ r e. ground (
      arith,
      lookup-erase u.room_name r left.room_map,
      lookup-insert u.room_name r (remove socks sock) t.room_map,
      k.not_empty r,
    );
  }

  -- When a session that chats is taken off the list of its room and put in the lobby, and the
  -- room is deleted if nobody is left, sessions and rooms still agree.
  pub leave-IsConsistent :
      IsConsistent (drop_if_empty u.room_name (lookup u.room_name left.room_map) left)
  leave-IsConsistent =
      rw
        (
          lookup-insert u.room_name u.room_name (remove socks sock) t.room_map,
          (text_beq_iff u.room_name u.room_name).1 refl,
        )
        (by_rest (remove socks sock) refl)
    where
      by_rest :
          (rest : List Socket)
          → remove socks sock ≡ rest
          → IsConsistent (drop_if_empty u.room_name (some rest) left)
      by_rest [] e = closed-IsConsistent e
      by_rest (m ∷ ms) e = left-IsConsistent m ms e
