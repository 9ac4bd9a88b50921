-- ===== src/Business/Consistency.antt =====
-- Sessions and rooms agree: the invariant of the maps, and the changes that keep it.
pub mod Leaving
use cpp_iocp_server.Prelude.{
  ◌<◌, ◌≡◌, refl, ◌≢◌, ◌⊎◌, inl, inr, Bool, false, ◌&&◌, Option, none, some, List, [], ◌∷◌, ◌++◌,
  arith, lookup, insert, erase, contains, remove, length, ◌==◌, nat_eq, text_eq, lookup-insert,
  lookup-insert_sorted, lookup-erase, contains-append, contains-remove, take_all, nat_beq_iff,
  text_beq_iff, Option-cases, Bool-cases,
}
use cpp_iocp_server.Text.{Text, text_ltb}
use cpp_iocp_server.Common.{Socket, status_waiting, status_chatting, is_chatting}
use cpp_iocp_server.State.{Session, Tables}
use cpp_iocp_server.Business.Basics.{set_room, erase_room, erase_session}
use cpp_iocp_server.Business.Room.{in_room, in_lobby, add_room, drop_if_empty}

-- Whether a session, if there is one, is in a room.
abbrev pub is_in : Text → Option Session → Bool
is_in room none = false
is_in room (some u) = is_chatting u.status && u.room_name == room

-- A session's arrays have terminators, and it waits in the lobby or chats.
pub record IsSound (u : Session) : Type 0 where
  pub name : length u.user_name < 20
  pub id : length u.user_id < 20
  pub room : length u.room_name < 20
  pub status : ((u.status ≡ status_waiting) × (u.room_name ≡ [])) ⊎ (u.status ≡ status_chatting)

-- Every entry of the map is sound.
abbrev pub AllSound : List (Socket × Session) → Type 0
AllSound [] = Unit
AllSound ((sock, u) ∷ users) = IsSound u × AllSound users

pub AllSound-insert :
    (sock : Socket) (u : Session) (users : List (Socket × Session))
    → IsSound u
    → AllSound users
    → AllSound (insert sock u users)
unfolding insert
AllSound-insert sock u [] h k = (h, tt)
AllSound-insert sock u ((j, v) ∷ users) h k = elim (Bool-cases (j == sock)) [
  | inl e ↦ rw e (h, k.1)
  | inr e ↦ rw e (k.0, AllSound-insert sock u users h k.1)
]

AllSound-erase :
    (sock : Socket) (users : List (Socket × Session)) → AllSound users → AllSound (erase sock users)
unfolding erase
AllSound-erase sock [] k = tt
AllSound-erase sock ((j, v) ∷ users) k = elim (Bool-cases (j == sock)) [
  | inl e ↦ rw e (AllSound-erase sock users k.1)
  | inr e ↦ rw e (k.0, AllSound-erase sock users k.1)
]

pub record IsConsistent (t : Tables) : Type 0 where
  pub all_sound : AllSound t.user_map
  pub sound : (sock : Socket) (u : Session) → lookup sock t.user_map ≡ some u → IsSound u
  -- The list of a room holds the sockets of those sessions that are in it, and no other.
  pub members :
      (room : Text) (socks : List Socket) (sock : Socket)
      → lookup room t.room_map ≡ some socks
      → contains socks sock ≡ is_in room (lookup sock t.user_map)
  -- The room of a session that chats is there.
  pub has_room :
      (sock : Socket) (u : Session)
      → lookup sock t.user_map ≡ some u
      → u.status ≡ status_chatting
      → lookup u.room_name t.room_map ≢ none
  -- A room has a member.
  pub not_empty : (room : Text) → lookup room t.room_map ≢ some []

abbrev pub empty_tables : Tables
empty_tables = record { id_set = []; user_map = []; room_map = [] }

abbrev pub set_user : Socket → Session → Tables → Tables
set_user sock u t = record t { user_map = insert sock u t.user_map }

append-ne-nil : (socks : List Socket) (sock : Socket) → socks ++ sock ∷ [] ≢ []
append-ne-nil [] sock e = cc
append-ne-nil (x ∷ socks) sock e = cc

-- Nobody is in a room that is not there.
nobody_in :
    (t : Tables) (room : Text) (j : Socket)
    → IsConsistent t
    → lookup room t.room_map ≡ none
    → is_in room (lookup j t.user_map) ≡ false
nobody_in t room j k none_such = elim (Option-cases (lookup j t.user_map)) [
  | inl e ↦ rw e
  | inr (v, e) ↦ rw e (ground (arith, k.has_room j v e, text_beq_iff v.room_name room))
]

module _ (sock : Socket) (room : Text) (u : Session) (t : Tables) (k : IsConsistent t)
    (is_session : lookup sock t.user_map ≡ some u) (waits : u.status ≡ status_waiting)
    (short : length room < 20) where
  -- The session's new room name is the room's, since it fits.
  in_room-name : (in_room room u).room_name ≡ room
  in_room-name = take_all 20 room (omega arith)

  in_room-IsSound : IsSound (in_room room u)
  in_room-IsSound = record {
    name = (k.sound sock u is_session).name;
    id = (k.sound sock u is_session).id;
    room = rw in_room-name short;
    status = inr refl;
  }

  -- When a session that waits opens a room under a name of less than 20 bytes that is not
  -- taken, sessions and rooms still agree.
  pub add_room-IsConsistent :
      lookup room t.room_map ≡ none
      → IsConsistent (set_user sock (in_room room u) (add_room room sock t))
  unfolding contains
  add_room-IsConsistent fresh = record {
    all_sound = AllSound-insert sock (in_room room u) t.user_map in_room-IsSound k.all_sound;
    sound = λ j v e.
        ground
          (arith, lookup-insert sock j (in_room room u) t.user_map, in_room-IsSound, k.sound j v);
    members = λ r socks j e. ground (
      arith,
      lookup-insert sock j (in_room room u) t.user_map,
      lookup-insert_sorted text_ltb room r (sock ∷ []) t.room_map,
      in_room-name,
      k.members r socks j,
      nobody_in t room j k fresh,
      text_beq_iff room r,
      nat_beq_iff sock j,
    );
    has_room = λ j v e c. ground (
      arith,
      lookup-insert sock j (in_room room u) t.user_map,
      lookup-insert_sorted text_ltb room v.room_name (sock ∷ []) t.room_map,
      in_room-name,
      k.has_room j v,
      text_beq_iff room v.room_name,
    );
    not_empty = λ r e.
        ground (arith, lookup-insert_sorted text_ltb room r (sock ∷ []) t.room_map, k.not_empty r);
  }

  -- When a session that waits enters a room that is there, under its name of less than 20
  -- bytes, sessions and rooms still agree.
  pub enter-IsConsistent :
      (socks : List Socket)
      → lookup room t.room_map ≡ some socks
      → IsConsistent (set_room room (socks ++ sock ∷ []) (set_user sock (in_room room u) t))
  unfolding contains
  enter-IsConsistent socks there = record {
    all_sound = AllSound-insert sock (in_room room u) t.user_map in_room-IsSound k.all_sound;
    sound = λ j v e.
        ground
          (arith, lookup-insert sock j (in_room room u) t.user_map, in_room-IsSound, k.sound j v);
    members = λ r others j e. ground (
      arith,
      lookup-insert sock j (in_room room u) t.user_map,
      lookup-insert room r (socks ++ sock ∷ []) t.room_map,
      contains-append socks (sock ∷ []) j,
      in_room-name,
      k.members r others j,
      k.members r socks j,
      text_beq_iff room r,
      nat_beq_iff sock j,
    );
    has_room = λ j v e c. ground (
      arith,
      lookup-insert sock j (in_room room u) t.user_map,
      lookup-insert room v.room_name (socks ++ sock ∷ []) t.room_map,
      in_room-name,
      k.has_room j v,
      text_beq_iff room v.room_name,
    );
    not_empty = λ r e. ground (
      arith,
      lookup-insert room r (socks ++ sock ∷ []) t.room_map,
      append-ne-nil socks sock,
      k.not_empty r,
    );
  }

-- Deleting a room leaves the sessions as they are.
pub user_map-drop_if_empty :
    (room : Text) (o : Option (List Socket)) (t : Tables)
    → (drop_if_empty room o t).user_map ≡ t.user_map
user_map-drop_if_empty room none t = refl
user_map-drop_if_empty room (some []) t = refl
user_map-drop_if_empty room (some (sock ∷ socks)) t = refl

-- The invariant is not about the ids.
pub id_set-IsConsistent :
    (t : Tables) (ids : List Text) → IsConsistent t → IsConsistent (record t { id_set = ids })
id_set-IsConsistent t ids k = record {
  all_sound = k.all_sound;
  sound = k.sound;
  members = k.members;
  has_room = k.has_room;
  not_empty = k.not_empty;
}

-- When a session that waits is erased, sessions and rooms still agree.
pub erase_session-IsConsistent :
    (sock : Socket) (t : Tables) (u : Session)
    → IsConsistent t
    → lookup sock t.user_map ≡ some u
    → u.status ≡ status_waiting
    → IsConsistent (erase_session sock t)
erase_session-IsConsistent sock t u k is_session waits = record {
  all_sound = AllSound-erase sock t.user_map k.all_sound;
  sound = λ j v e. ground (arith, lookup-erase sock j t.user_map, k.sound j v);
  members = λ r socks j e.
      ground (arith, lookup-erase sock j t.user_map, k.members r socks j, nat_beq_iff sock j);
  has_room = λ j v e c. ground (arith, lookup-erase sock j t.user_map, k.has_room j v);
  not_empty = k.not_empty;
}

-- A session in the lobby begins.
pub set_user-IsConsistent :
    (sock : Socket) (t : Tables) (u : Session)
    → IsConsistent t
    → lookup sock t.user_map ≡ none
    → IsSound u
    → u.status ≡ status_waiting
    → IsConsistent (set_user sock u t)
set_user-IsConsistent sock t u k no_session is_sound waits = record {
  all_sound = AllSound-insert sock u t.user_map is_sound k.all_sound;
  sound = λ j v e. ground (arith, lookup-insert sock j u t.user_map, k.sound j v);
  members = λ r socks j e.
      ground (arith, lookup-insert sock j u t.user_map, k.members r socks j, nat_beq_iff sock j);
  has_room = λ j v e c. ground (arith, lookup-insert sock j u t.user_map, k.has_room j v);
  not_empty = k.not_empty;
}

pub empty-IsConsistent : IsConsistent empty_tables
unfolding lookup
empty-IsConsistent = record {
  all_sound = tt;
  sound = λ j v e. cc;
  members = λ r socks j e. cc;
  has_room = λ j v e c. cc;
  not_empty = λ r e. cc;
}
