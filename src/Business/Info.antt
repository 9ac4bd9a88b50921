-- ===== src/Business/Info.antt =====
-- `RoomInfo`, `RoomUserInfo` and `Whisper`: what a client asks about the others.
use cpp_iocp_server.Prelude.{
  Bool, true, false, Option, none, some, List, [], ◌∷◌, ◌++◌, length, leb, ◌==◌, nat_eq, text_eq,
  if◌then◌else◌,
}
use cpp_iocp_server.Text.{Text, utf8}
use cpp_iocp_server.Text.Decimal.{decimal}
use cpp_iocp_server.Outcome.{M, pure, gets, c_str, ◌>>=◌, ◌>>◌}
use cpp_iocp_server.Common.{
  Socket, ClientStatus, status_waiting, status_whisper, name_size, wait_room_message,
}
use cpp_iocp_server.State.{Session, State}
use cpp_iocp_server.Business.Basics.{name_of, reply}
use cpp_iocp_server.Business.Account.{fields_of}

unfoldable pub room_lines : List (Text × List Socket) → Text
unfolding decimal utf8
room_lines [] = []
room_lines ((room, socks) ∷ rooms) =
    utf8 "\n" ++ room ++ utf8 ":" ++ decimal (length socks) ++ utf8 "명" ++ room_lines rooms

abbrev pub room_list : List (Text × List Socket) → Text
room_list [] = utf8 "만들어진 방이 없습니다"
room_list (room ∷ rooms) = utf8 "방 정보 리스트" ++ room_lines (room ∷ rooms)

unfoldable pub room_info : Socket → M State Unit
unfolding name_of room_lines reply
room_info sock = do
  name_of sock
  rooms ← gets (λ s. s.room_map)
  reply sock (room_list rooms) status_waiting

abbrev pub is_waiting : ClientStatus → Bool
is_waiting status_waiting = true
is_waiting _ = false

abbrev pub place_of : Session → M State Text
place_of u = if is_waiting u.status then pure (utf8 "대기실") else c_str name_size u.room_name

-- One line for each session, until there are 4000 bytes.
unfoldable pub user_lines : Text → List (Socket × Session) → M State Text
unfolding utf8
user_lines str [] = pure str
user_lines str ((sock, u) ∷ users) = if leb 4000 (length str) then pure str else (do
  name ← c_str name_size u.user_name
  place ← place_of u
  user_lines (str ++ utf8 "\n" ++ name ++ utf8 ":" ++ place) users)

unfoldable pub room_user_info : Socket → M State Unit
unfolding name_of user_lines utf8 reply
room_user_info sock = do
  name_of sock
  users ← gets (λ s. s.user_map)
  str ← user_lines (utf8 "유저 정보 리스트") users
  reply sock str status_waiting

-- The first session with a name, in the order of iteration.
unfoldable pub find_named : Text → List (Socket × Session) → Option (Socket × Session)
find_named name [] = none
find_named name ((sock, u) ∷ users) =
    if u.user_name == name then some (sock, u) else find_named name users

abbrev pub whisper_to : Socket → Text → Text → Text → Option (Socket × Session) → M State Unit
whisper_to sock own name msg none = reply sock (name ++ utf8 " 님을 찾을 수 없습니다") status_waiting
whisper_to sock own name msg (some (other, u)) =
    reply other (own ++ utf8 " 님에게 온 귓속말 : " ++ msg) status_whisper

abbrev pub whisper_fields : Socket → Text → List Text → M State Unit
whisper_fields sock own (name ∷ msg ∷ rest) =
    if name == own
    then reply sock (utf8 "자신에게 쪽지를 보낼수 없습니다\n" ++ wait_room_message) status_waiting
    else (do users ← gets (λ s. s.user_map); whisper_to sock own name msg (find_named name users))
whisper_fields sock own _ = pure tt

unfoldable pub whisper : Socket → Text → M State Unit
unfolding name_of fields_of find_named utf8 wait_room_message reply
whisper sock message = do
  own ← name_of sock
  fields ← fields_of 2 message
  whisper_fields sock own fields
