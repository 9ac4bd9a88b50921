-- ===== src/Iocp.antt =====
-- IocpService.cpp: how a message becomes a packet, and to whom it is sent.
pub mod Packet
pub mod Sending
use cpp_iocp_server.Prelude.{ℕ, ◌+◌, List, [], ◌∷◌, ◌++◌, ◌||◌, ltb, length, if◌then◌else◌}
use cpp_iocp_server.Text.{Text}
use cpp_iocp_server.Outcome.{M, pure, fault, modify, ◌>>=◌, ◌>>◌}
use cpp_iocp_server.Common.{Socket, ClientStatus}
use cpp_iocp_server.State.{State}
use Packet.{packet, packet_length}

-- A block of `CharPool` has 1024 bytes.
abbrev pub block_size : ℕ
block_size = 1024

-- `packet` and `WSASend`. The copy of `msg` takes `len` bytes to `packet + 10`, ten more than are
-- sent and than the message has with its terminator: they must be there to be read, behind the
-- message, and past the end of the block it writes over what stands there.
unfoldable pub send_to_one_msg : Text → Socket → ClientStatus → M State Unit
send_to_one_msg msg sock status s =
    if ltb (s.host.readable msg) (packet_length msg) || ltb block_size (10 + packet_length msg)
    then fault s
    else modify
        (λ s. record s { wire = s.wire ++ record { to = sock; bytes = packet msg status } ∷ [] }) s

-- One packet for each socket of a room, in the order of its list.
unfoldable pub send_to_room_msg : Text → List Socket → ClientStatus → M State Unit
unfolding send_to_one_msg
send_to_room_msg msg [] status = pure tt
send_to_room_msg msg (sock ∷ socks) status = do
  send_to_one_msg msg sock status
  send_to_room_msg msg socks status
