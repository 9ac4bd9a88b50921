-- ===== src/Business/Leave.antt =====
-- The ends of a session: `ClientExit` and `BanUser`.
use cpp_iocp_server.Prelude.{
  Bool, true, false, Option, none, some, lookup, erase, nat_eq, if◌then◌else◌,
}
use cpp_iocp_server.Text.{Text, utf8}
use cpp_iocp_server.Outcome.{M, returns, pure, c_str, ◌>>=◌, ◌>>◌}
use cpp_iocp_server.Common.{Socket, status_logout, is_chatting, name_size}
use cpp_iocp_server.State.{Session, State}
use cpp_iocp_server.Business.Basics.{
  session, room_of, set_session, change, erase_id, erase_session, reply,
}
use cpp_iocp_server.Business.Room.{in_lobby, say_goodbye, drop_empty_room}
use cpp_iocp_server.Business.Info.{find_named}

-- A member of a room leaves it.
unfoldable pub leave_room : Socket → Text → M State Unit
unfolding room_of say_goodbye set_session drop_empty_room
leave_room sock name = do
  room ← room_of sock
  say_goodbye sock name room
  set_session sock in_lobby
  drop_empty_room room

-- The id is logged out and the room left. The copies of the session's arrays are read as C strings.
unfoldable pub give_up_session : Socket → Session → M State Unit
unfolding leave_room
give_up_session sock u = do
  id ← c_str name_size u.user_id
  change (erase_id id)
  if is_chatting u.status
      then (do name ← c_str name_size u.user_name; leave_room sock name)
      else pure tt

abbrev pub end_session : Socket → Option Session → M State Unit
end_session sock none = pure tt
end_session sock (some u) = do give_up_session sock u; change (erase_session sock)

-- `is_closed` is whether `closesocket` succeeds.
unfoldable pub client_exit : Socket → Bool → M State Unit
unfolding give_up_session
client_exit sock false s = returns tt s
client_exit sock true s =
    end_session sock (lookup sock s.user_map) (record s { live_socket = erase sock s.live_socket })

abbrev pub ban_found : Option (Socket × Session) → M State Unit
ban_found none = pure tt
ban_found (some (sock, _)) = do
  u ← session sock
  give_up_session sock u
  reply sock (utf8 "당신은 관리자에의해 강퇴되었습니다") status_logout
  change (erase_session sock)

-- The first session with the nickname is ended, if there is one.
unfoldable pub ban_user : Text → M State Unit
unfolding session find_named give_up_session utf8 reply
ban_user nick_name s = ban_found (find_named nick_name s.user_map) s
