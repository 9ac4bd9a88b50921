-- ===== src/Iocp/Sending.antt =====
-- Sending a message that fits a block, and can be read on, only adds to what is on the wire.
use cpp_iocp_server.Prelude.{
  ℕ, ◌+◌, ◌||◌, ◌≤◌, ◌≡◌, List, [], ◌∷◌, ◌++◌, arith, map, length, ltb, append-nil, append_assoc,
  refl, false, true, ◌<◌,
}
use cpp_iocp_server.Text.{Text}
use cpp_iocp_server.Outcome.{returns, undefined}
use cpp_iocp_server.Common.{Socket, ClientStatus}
use cpp_iocp_server.State.{Sent, Host, State}
use cpp_iocp_server.Iocp.{block_size, send_to_one_msg, send_to_room_msg}
use cpp_iocp_server.Iocp.Packet.{packet, packet_length}

-- What a room is sent: one packet for each socket.
abbrev pub room_packets : Text → ClientStatus → List Socket → List Sent
room_packets msg status = map (λ sock. record { to = sock; bytes = packet msg status })

-- The ten bytes behind the terminator of each message can be read.
abbrev pub Tail : (Text → ℕ) → Type 0
Tail readable = (msg : Text) → length msg + 11 ≤ readable msg

abbrev pub HasTail : Host → Type 0
HasTail host = Tail host.readable

pub send_to_one_msg_lem :
    (msg : Text) (sock : Socket) (status : ClientStatus) (s : State)
    → length msg + 11 ≤ s.host.readable msg
    → length msg ≤ 1003
    → send_to_one_msg msg sock status s
      ≡ returns tt (record s { wire = s.wire ++ room_packets msg status (sock ∷ []) })
unfolding send_to_one_msg
send_to_one_msg_lem msg sock status s tail h = rw fits
  where
    fits :
        (ltb (s.host.readable msg) (packet_length msg) || ltb block_size (10 + packet_length msg))
        ≡ false
    fits = ground arith

-- A message of at most 1003 bytes, behind which ten more can be read, is sent to each socket of a
-- list, in its order, and nothing else changes.
pub send_to_room_msg_lem :
    (msg : Text) (socks : List Socket) (status : ClientStatus) (s : State)
    → length msg + 11 ≤ s.host.readable msg
    → length msg ≤ 1003
    → send_to_room_msg msg socks status s
      ≡ returns tt (record s { wire = s.wire ++ room_packets msg status socks })
unfolding send_to_room_msg
send_to_room_msg_lem msg [] status s tail h = rw append-nil
send_to_room_msg_lem msg (sock ∷ socks) status s tail h =
    rw (send_to_one_msg_lem msg sock status s tail h) (
      rw
        (send_to_room_msg_lem msg socks status
          (record s { wire = s.wire ++ room_packets msg status (sock ∷ []) }) tail h)
        (rw append_assoc))

-- Where the ten bytes behind the terminator of a message cannot be read, it cannot be sent.
pub send_to_one_msg-undefined :
    (msg : Text) (sock : Socket) (status : ClientStatus) (s : State)
    → length msg ≤ 1003
    → s.host.readable msg < length msg + 11
    → send_to_one_msg msg sock status s ≡ undefined
unfolding send_to_one_msg
send_to_one_msg-undefined msg sock status s short ends = rw beyond refl
  where
    beyond : ltb (s.host.readable msg) (packet_length msg) ≡ true
    beyond = ground arith

-- Nor to a room in which somebody is.
pub send_to_room_msg-undefined :
    (msg : Text) (sock : Socket) (socks : List Socket) (status : ClientStatus) (s : State)
    → length msg ≤ 1003
    → s.host.readable msg < length msg + 11
    → send_to_room_msg msg (sock ∷ socks) status s ≡ undefined
unfolding send_to_room_msg
send_to_room_msg-undefined msg sock socks status s short ends =
    rw (send_to_one_msg-undefined msg sock status s short ends) refl
