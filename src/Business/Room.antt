-- ===== src/Business/Room.antt =====
-- Rooms: `RoomMake`, `RoomEnter`, and the steps by which a member leaves.
use cpp_iocp_server.Prelude.{
  Option, none, some, List, [], ◌∷◌, ◌++◌, lookup, insert_sorted, remove, nat_eq, text_eq,
}
use cpp_iocp_server.Text.{Text, utf8, strncpy, text_ltb}
use cpp_iocp_server.Outcome.{M, deref, ◌>>=◌, ◌>>◌}
use cpp_iocp_server.Common.{
  Socket, status_waiting, status_chatting, send_room, name_size, wait_room_message,
  chat_room_message,
}
use cpp_iocp_server.Iocp.{send_to_room_msg}
use cpp_iocp_server.State.{Session, Tables, State}
use cpp_iocp_server.Business.Basics.{
  name_of, set_session, change, set_room, erase_room, insert_send_queue, reply,
}

abbrev pub in_room : Text → Session → Session
in_room room u = record u { room_name = strncpy name_size room; status = status_chatting }

abbrev pub in_lobby : Session → Session
in_lobby u = record u { room_name = []; status = status_waiting }

-- A room under a new name, with its maker as the one member.
abbrev pub add_room : Text → Socket → Tables → Tables
add_room room sock t = record t { room_map = insert_sorted text_ltb room (sock ∷ []) t.room_map }

abbrev make_new : Socket → Text → Option (List Socket) → M State Unit
make_new sock msg (some socks) =
    reply sock (msg ++ utf8 "이미 있는 방 이름입니다!\n" ++ wait_room_message) status_waiting
make_new sock msg none = do
  change (add_room msg sock)
  set_session sock (in_room msg)
  reply sock (msg ++ utf8 " 방이 개설되었습니다." ++ chat_room_message) status_chatting

unfoldable pub room_make : Socket → Text → M State Unit
unfolding name_of set_session utf8 wait_room_message chat_room_message reply
room_make sock msg = do name_of sock; λ s. make_new sock msg (lookup msg s.room_map) s

-- `roomMap.find(room)->second->userList.push_back(sock)`
unfoldable pub push_member : Text → Socket → M State Unit
push_member room sock s =
    (do socks ← deref (lookup room s.room_map); change (set_room room (socks ++ sock ∷ []))) s

abbrev pub enter_found : Socket → Text → Text → Option (List Socket) → M State Unit
enter_found sock name msg none =
    reply sock (msg ++ utf8 "없는 방 입니다!\n" ++ wait_room_message) status_waiting
enter_found sock name msg (some socks) = do
  set_session sock (in_room msg)
  push_member msg sock
  insert_send_queue send_room (name ++ utf8 " 님이 입장하셨습니다. " ++ chat_room_message) msg 0
      status_chatting

unfoldable pub room_enter : Socket → Text → M State Unit
unfolding name_of set_session push_member utf8 wait_room_message chat_room_message reply
    insert_send_queue
room_enter sock msg = do
  name ← name_of sock
  λ s. enter_found sock name msg (lookup msg s.room_map) s

-- The others of the room, and the one who leaves, are told at once; then the socket is off the list.
unfoldable pub say_goodbye : Socket → Text → Text → M State Unit
unfolding send_to_room_msg utf8
say_goodbye sock name room s =
    (do
      socks ← deref (lookup room s.room_map)
      send_to_room_msg (name ++ utf8 " 님이 나갔습니다!") socks status_chatting
      change (set_room room (remove socks sock)))
      s

-- A room is deleted with its last member.
abbrev pub drop_if_empty : Text → Option (List Socket) → Tables → Tables
drop_if_empty room (some []) t = erase_room room t
drop_if_empty room _ t = t

unfoldable pub drop_empty_room : Text → M State Unit
drop_empty_room room = change (λ t. drop_if_empty room (lookup room t.room_map) t)
