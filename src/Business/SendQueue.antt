-- ===== src/Business/SendQueue.antt =====
-- `Sendwork`: the send queue is emptied into the network.
use cpp_iocp_server.Prelude.{
  true, Option, none, some, List, [], ◌∷◌, lookup, text_eq, if◌then◌else◌,
}
use cpp_iocp_server.Text.{Text, file_name}
use cpp_iocp_server.Outcome.{M, returns, hangs, pure, deref, modify, ◌>>=◌, ◌>>◌}
use cpp_iocp_server.Common.{Socket, send_me, send_room, send_file, send_max, SendData}
use cpp_iocp_server.State.{State}
use cpp_iocp_server.Iocp.{send_to_one_msg, send_to_room_msg}
use cpp_iocp_server.FileService.{send_to_room_file}

abbrev send_to_room : SendData → Option (List Socket) → M State Unit
send_to_room d none = pure tt
send_to_room d (some socks) = send_to_room_msg d.msg socks d.status

abbrev send_file_to : SendData → Text → Option (List Socket) → M State Unit
send_file_to d content none = pure tt
send_file_to d content (some socks) = send_to_room_file content (file_name d.msg) socks

-- A file that cannot be opened is passed over.
abbrev send_opened : SendData → Option Text → M State Unit
send_opened d none s = returns tt s
send_opened d (some content) s = send_file_to d content (lookup d.room_name s.room_map) s

unfoldable pub send_one : SendData → M State Unit
unfolding send_to_one_msg send_to_room_msg send_to_room_file
send_one d s = elim d.direction [
  | send_me ↦ (do sock ← deref d.my_socket; send_to_one_msg d.msg sock d.status) s
  | send_room ↦ send_to_room d (lookup d.room_name s.room_map) s
  | send_file ↦ send_opened d (lookup d.msg s.host.files) s
  | send_max ↦ returns tt s
]

unfoldable pub send_all : List SendData → M State Unit
unfolding send_one
send_all [] = pure tt
send_all (d ∷ queue) = do send_one d; send_all queue

-- The queue is taken whole, then worked off. With an empty queue the thread waits, or ends if the
-- worker was stopped.
unfoldable pub sendwork : M State Unit
unfolding send_all
sendwork s = elim s.send_queue [
  | [] ↦ if s.send_stop then returns tt s else hangs
  | d ∷ queue ↦ send_all (d ∷ queue) (record s { send_queue = [] })
]

unfoldable pub stop_send_worker : M State Unit
stop_send_worker = modify (λ s. record s { send_stop = true })
