-- ===== src/Business/Basics.antt =====
-- What every handler uses: the session of a socket, and the send queue's entry point.
use cpp_iocp_server.Prelude.{
  none, some, List, [], ◌∷◌, ◌++◌, lookup, insert, erase, nat_eq, text_eq, remove, contains,
  if◌then◌else◌,
}
use cpp_iocp_server.Text.{Text}
use cpp_iocp_server.Outcome.{M, pure, modify, deref, c_str, ◌>>=◌, ◌>>◌}
use cpp_iocp_server.Common.{Socket, ClientStatus, SendTo, send_me, SendData, name_size}
use cpp_iocp_server.State.{Session, Tables, State}

-- `userMap.find(sock)->second`
unfoldable pub session : Socket → M State Session
session sock s = deref (lookup sock s.user_map) s

-- `string name = …userName; string id = …userId;`, with which the handlers begin
unfoldable pub name_of : Socket → M State Text
unfolding session
name_of sock = do
  u ← session sock
  name ← c_str name_size u.user_name
  c_str name_size u.user_id
  pure name

unfoldable pub id_of : Socket → M State Text
unfolding session
id_of sock = do u ← session sock; c_str name_size u.user_name; c_str name_size u.user_id

-- `roomName = userMap.find(sock)->second.roomName`
unfoldable pub room_of : Socket → M State Text
unfolding session
room_of sock = do u ← session sock; c_str name_size u.room_name

-- An assignment to fields of the session of `sock`.
unfoldable pub set_session : Socket → (Session → Session) → M State Unit
unfolding session
set_session sock f = do
  u ← session sock
  modify (λ s. record s { tables = record s.tables { user_map = insert sock (f u) s.user_map } })

-- `userMap.erase(sock)`
abbrev pub erase_session : Socket → Tables → Tables
erase_session sock t = record t { user_map = erase sock t.user_map }

-- `idSet.erase(id)`
abbrev pub erase_id : Text → Tables → Tables
erase_id id t = record t { id_set = remove t.id_set id }

-- `idSet.insert(id)`
abbrev pub insert_id : Text → Tables → Tables
insert_id id t = record t { id_set = if contains t.id_set id then t.id_set else id ∷ t.id_set }

-- `roomMap.find(room)->second->userList = socks`, where the room is there
abbrev pub set_room : Text → List Socket → Tables → Tables
set_room room socks t = record t { room_map = insert room socks t.room_map }

abbrev pub erase_room : Text → Tables → Tables
erase_room room t = record t { room_map = erase room t.room_map }

abbrev pub change : (Tables → Tables) → M State Unit
change f = modify (λ s. record s { tables = f s.tables })

-- `InsertSendQueue`: the socket is set for one client only, the room for the others only.
abbrev pub send_data : SendTo → Text → Text → Socket → ClientStatus → SendData
send_data send_me msg room sock status = record {
  msg = msg;
  my_socket = some sock;
  room_name = [];
  direction = send_me;
  status = status;
}
send_data direction msg room sock status = record {
  msg = msg;
  my_socket = none;
  room_name = room;
  direction = direction;
  status = status;
}

unfoldable pub insert_send_queue : SendTo → Text → Text → Socket → ClientStatus → M State Unit
insert_send_queue direction msg room sock status =
    modify
      (λ s. record s { send_queue = s.send_queue ++ send_data direction msg room sock status ∷ [] })

-- The entry for one client, which most handlers end with.
unfoldable pub reply : Socket → Text → ClientStatus → M State Unit
unfolding insert_send_queue
reply sock msg status = insert_send_queue send_me msg [] sock status
