-- ===== src/Business/Delivery.antt =====
-- What `Sendwork` puts on the network for the entries of the send queue.
use cpp_iocp_server.Prelude.{
  ◌≤◌, ◌≡◌, ◌≢◌, refl, Option, none, some, List, [], ◌∷◌, ◌++◌, All, lookup, length, append-nil,
  append_assoc, text_eq, Option-cases, inl, inr,
}
use cpp_iocp_server.Outcome.{returns}
use cpp_iocp_server.Common.{Socket, SendTo, send_me, send_room, send_file, send_max, SendData}
use cpp_iocp_server.State.{Sent, Tables, State}
use cpp_iocp_server.Iocp.Sending.{HasTail, room_packets, send_to_one_msg_lem, send_to_room_msg_lem}
use cpp_iocp_server.Business.SendQueue.{send_one, send_all, sendwork}

-- Entries that `insert_send_queue` makes, other than files: a message that fits a block.
pub record IsMessage (d : SendData) : Type 0 where
  pub fits : length d.msg ≤ 1003
  pub no_file : d.direction ≢ send_file
  pub has_socket : d.direction ≡ send_me → d.my_socket ≢ none

-- Whom an entry is for, when it is worked off.
abbrev pub one : Option Socket → List Socket
one none = []
one (some sock) = sock ∷ []

abbrev pub members : Option (List Socket) → List Socket
members none = []
members (some socks) = socks

abbrev pub receivers : Tables → SendData → List Socket
receivers t d = elim d.direction [
  | send_me ↦ one d.my_socket
  | send_room ↦ members (lookup d.room_name t.room_map)
  | send_file ↦ []
  | send_max ↦ []
]

unfoldable pub deliveries : Tables → List SendData → List Sent
deliveries t [] = []
deliveries t (d ∷ queue) = room_packets d.msg d.status (receivers t d) ++ deliveries t queue

send_one_lem :
    (d : SendData) (s : State)
    → HasTail s.host
    → IsMessage d
    → send_one d s
      ≡ returns tt
          (record s { wire = s.wire ++ room_packets d.msg d.status (receivers s.tables d) })
unfolding send_one
send_one_lem d s tail h = by_direction d.direction refl
  where
    by_direction :
        (direction : SendTo)
        → d.direction ≡ direction
        → send_one d s
          ≡ returns tt
              (record s { wire = s.wire ++ room_packets d.msg d.status (receivers s.tables d) })
    by_direction send_me e = elim (Option-cases d.my_socket) [
      | inl f ↦ absurd (h.has_socket e f)
      | inr (sock, f) ↦ rw (e, f) (send_to_one_msg_lem d.msg sock d.status s (tail d.msg) h.fits)
    ]
    by_direction send_room e = elim (Option-cases (lookup d.room_name s.room_map)) [
      | inl f ↦ rw (e, f, append-nil) refl
      | inr (socks, f) ↦ rw (e, f) (send_to_room_msg_lem d.msg socks d.status s (tail d.msg) h.fits)
    ]
    by_direction send_file e = absurd (h.no_file e)
    by_direction send_max e = rw (e, append-nil) refl

-- Messages of the send queue are sent in their order, each to its client or to those who are in
-- its room when it is worked off, and only the wire changes. Each must have at most 1003 bytes,
-- be no file, and have its socket if it is for one client, and ten bytes be readable behind it.
pub send_all-deliveries :
    (queue : List SendData) (s : State)
    → HasTail s.host
    → All IsMessage queue
    → send_all queue s ≡ returns tt (record s { wire = s.wire ++ deliveries s.tables queue })
unfolding send_all deliveries
send_all-deliveries [] s tail h = rw append-nil
send_all-deliveries (d ∷ queue) s tail h =
    let sent = room_packets d.msg d.status (receivers s.tables d) in
    rw (send_one_lem d s tail (h.0)) (
      rw (send_all-deliveries queue (record s { wire = s.wire ++ sent }) tail (h.1))
        (rw append_assoc))

-- A turn of Sendwork on a queue of one message or more sends them all in their order, each to
-- its client or to those who are in its room, and leaves the queue empty; nothing else changes.
-- The machine must let ten bytes be read behind each message that is sent; each message must
-- have at most 1003 bytes, be no file, and have its socket if it is for one client.
pub sendwork-deliveries :
    (d : SendData) (queue : List SendData) (s : State)
    → HasTail s.host
    → All IsMessage (d ∷ queue)
    → s.send_queue ≡ d ∷ queue
    → sendwork s
      ≡ returns tt (record s { wire = s.wire ++ deliveries s.tables (d ∷ queue); send_queue = [] })
unfolding sendwork
sendwork-deliveries d queue s tail h e =
    rw e (send_all-deliveries (d ∷ queue) (record s { send_queue = [] }) tail h)
