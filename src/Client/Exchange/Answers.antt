-- ===== src/Client/Exchange/Answers.antt =====
-- From the send queue of the server to the consoles of its clients.
use cpp_iocp_server.Prelude.{
  ◌≤◌, ◌≡◌, ◌≢◌, refl, ap, sym, subst, ◌∙◌, inl, inr, Bool-cases, true, false, some, List, [], ◌∷◌,
  ◌++◌, All, arith, contains, map, length, append_assoc, ◌==◌, nat_eq, if◌then◌else◌,
}
use cpp_iocp_server.Text.{Text}
use cpp_iocp_server.Outcome.{Outcome, returns}
use cpp_iocp_server.Common.{
  Socket, ClientStatus, status_init, status_logout, status_waiting, status_chatting, status_whisper,
  status_file_send, status_max, status_number, buf_size, SendData,
}
use cpp_iocp_server.State.{Sent, Tables, State}
use cpp_iocp_server.Iocp.Sending.{HasTail, room_packets}
use cpp_iocp_server.Business.SendQueue.{sendwork}
use cpp_iocp_server.Business.Delivery.{IsMessage, receivers, deliveries, sendwork-deliveries}
use cpp_iocp_server.Server.Reading.{recv, PerIo}
use cpp_iocp_server.Server.Reading.Framing.{Request, request_packet, IsRequest}
use cpp_iocp_server.Server.Reading.Batch.{packets_of}
use cpp_iocp_server.Client.{Client}
use cpp_iocp_server.Client.Display.{show_all, recv_msg_round}
use cpp_iocp_server.Client.Display.Messages.{message, goes_on, recv_msg_round-packets_of}
use cpp_iocp_server.Client.Exchange.{Answer, as_request, packet-request_packet}

abbrev pub answer : SendData → Answer
answer d = record { status = d.status; text = d.msg }

-- What the client of a socket is sent of one entry: a copy for each time it is on the list.
unfoldable pub copies : Socket → SendData → List Socket → List Request
copies sock d [] = []
copies sock d (x ∷ xs) =
    if x == sock then as_request (answer d) ∷ copies sock d xs else copies sock d xs

unfoldable pub heard : Socket → Tables → List SendData → List Request
heard sock t [] = []
heard sock t (d ∷ queue) = copies sock d (receivers t d) ++ heard sock t queue

-- The bytes on the wire that are for a socket.
unfoldable pub bytes_to : Socket → List Sent → Text
bytes_to sock [] = []
bytes_to sock (x ∷ xs) = if x.to == sock then x.bytes ++ bytes_to sock xs else bytes_to sock xs

pub bytes_to-append :
    (sock : Socket) (xs ys : List Sent)
    → bytes_to sock (xs ++ ys) ≡ bytes_to sock xs ++ bytes_to sock ys
unfolding bytes_to
bytes_to-append sock [] ys = refl
bytes_to-append sock (x ∷ xs) ys = elim (Bool-cases (x.to == sock)) [
  | inl e ↦
      rw (e, bytes_to-append sock xs ys)
        (sym (append_assoc x.bytes (bytes_to sock xs) (bytes_to sock ys)))
  | inr e ↦ rw (e, bytes_to-append sock xs ys) refl
]

packets_of-append : (rs qs : List Request) → packets_of (rs ++ qs) ≡ packets_of rs ++ packets_of qs
unfolding packets_of
packets_of-append [] qs = refl
packets_of-append (r ∷ rs) qs =
    rw (packets_of-append rs qs)
      (sym (append_assoc (request_packet r) (packets_of rs) (packets_of qs)))

pub bytes_to-room_packets :
    (sock : Socket) (d : SendData) (socks : List Socket)
    → length d.msg ≤ 1003
    → bytes_to sock (room_packets d.msg d.status socks) ≡ packets_of (copies sock d socks)
unfolding bytes_to copies packets_of
bytes_to-room_packets sock d [] h = refl
bytes_to-room_packets sock d (x ∷ socks) h = elim (Bool-cases (x == sock)) [
  | inl e ↦ rw (e, packet-request_packet (answer d) h, bytes_to-room_packets sock d socks h) refl
  | inr e ↦ rw (e, bytes_to-room_packets sock d socks h) refl
]

bytes_to-deliveries :
    (sock : Socket) (t : Tables) (queue : List SendData)
    → All IsMessage queue
    → bytes_to sock (deliveries t queue) ≡ packets_of (heard sock t queue)
unfolding deliveries heard bytes_to packets_of
bytes_to-deliveries sock t [] h = refl
bytes_to-deliveries sock t (d ∷ queue) h =
    rw
      (
        bytes_to-append sock (room_packets d.msg d.status (receivers t d)) (deliveries t queue),
        bytes_to-room_packets sock d (receivers t d) (h.0.fits),
        bytes_to-deliveries sock t queue (h.1),
        packets_of-append (copies sock d (receivers t d)) (heard sock t queue),
      )
      refl

-- An entry whose message can be read back.
abbrev pub IsText : SendData → Type 0
IsText d = contains d.msg 0 ≡ false

status_number-small : (status : ClientStatus) → status_number status ≤ 6
status_number-small status_init = omega arith
status_number-small status_logout = omega arith
status_number-small status_waiting = omega arith
status_number-small status_chatting = omega arith
status_number-small status_whisper = omega arith
status_number-small status_file_send = omega arith
status_number-small status_max = omega arith

pub answer-IsRequest :
    (d : SendData) → length d.msg ≤ 1003 → IsText d → IsRequest (as_request (answer d))
answer-IsRequest d h k = record {
  fits = h;
  no_zero = k;
  status = omega (arith, status_number-small d.status);
  direction = omega arith;
}

All-append : {A : Type 0} (P : A → Type 0) (xs ys : List A) → All P xs → All P ys → All P (xs ++ ys)
All-append P [] ys h k = k
All-append P (x ∷ xs) ys h k = (h.0, All-append P xs ys (h.1) k)

copies-IsRequest :
    (sock : Socket) (d : SendData) (socks : List Socket)
    → length d.msg ≤ 1003
    → IsText d
    → All IsRequest (copies sock d socks)
unfolding copies
copies-IsRequest sock d [] h k = tt
copies-IsRequest sock d (x ∷ socks) h k = elim (Bool-cases (x == sock)) [
  | inl e ↦ rw e (answer-IsRequest d h k, copies-IsRequest sock d socks h k)
  | inr e ↦ rw e (copies-IsRequest sock d socks h k)
]

pub heard-IsRequest :
    (sock : Socket) (t : Tables) (queue : List SendData)
    → All IsMessage queue
    → All IsText queue
    → All IsRequest (heard sock t queue)
unfolding heard
heard-IsRequest sock t [] h k = tt
heard-IsRequest sock t (d ∷ queue) h k =
    All-append IsRequest (copies sock d (receivers t d)) (heard sock t queue)
      (copies-IsRequest sock d (receivers t d) (h.0.fits) (k.0))
      (heard-IsRequest sock t queue (h.1) (k.1))

-- The bytes for a socket that are on the wire after a step of the server.
abbrev pub bytes_after : {A : Type 0} → Socket → Outcome State A → Text
bytes_after sock (returns a s) = bytes_to sock s.wire
bytes_after sock _ = []

-- The client reads what is on its way to it, if anything is.
shown_of :
    (rs : List Request) (io : PerIo) (stale : Text) (c : Client)
    → rs ≢ []
    → All IsRequest rs
    → length (packets_of rs) ≤ buf_size
    → io.server_mode ≡ recv
    → io.buffer ≡ packets_of rs ++ stale
    → c.is_padded ≡ true
    → goes_on (recv_msg_round true (length (packets_of rs)) io c)
      ≡ some (show_all (map message rs) c)
shown_of [] io stale c some_message h whole first there padded = absurd (some_message refl)
shown_of (r ∷ rs) io stale c some_message h whole first there padded =
    recv_msg_round-packets_of r rs io stale c (h.0) (h.1) whole first there padded

-- The bytes on the way to a client after a turn of Sendwork.
pub bytes_after-sendwork :
    (sock : Socket) (d : SendData) (queue : List SendData) (s : State)
    → HasTail s.host
    → All IsMessage (d ∷ queue)
    → s.send_queue ≡ d ∷ queue
    → bytes_to sock s.wire ≡ []
    → bytes_after sock (sendwork s) ≡ packets_of (heard sock s.tables (d ∷ queue))
bytes_after-sendwork sock d queue s tail h queued none_before =
    ap (bytes_after sock) (sendwork-deliveries d queue s tail h queued)
    ∙ bytes_to-append sock s.wire (deliveries s.tables (d ∷ queue))
    ∙ ap (λ b. b ++ bytes_to sock (deliveries s.tables (d ∷ queue))) none_before
    ∙ bytes_to-deliveries sock s.tables (d ∷ queue) h

-- A client whose socket has messages in the send queue shows those that are for it, all and in
-- their order, when it receives what a turn of Sendwork sends it. The machines must let ten
-- bytes be read behind each message that the server sends, and two be written behind the
-- client's bytesTrans. Each message must have at most 1003 bytes, be no file, have its socket
-- if it is for one client, and have no byte zero; its receive must begin at the start of a
-- packet, nothing else be on the way to the client, and what is sent fit one receive of 4096
-- bytes.
pub recv_msg_round-sendwork :
    (sock : Socket) (d : SendData) (queue : List SendData) (s : State) (io : PerIo) (stale : Text)
    (c : Client)
    → All IsMessage (d ∷ queue)
    → All IsText (d ∷ queue)
    → s.send_queue ≡ d ∷ queue
    → bytes_to sock s.wire ≡ []
    → heard sock s.tables (d ∷ queue) ≢ []
    → length (bytes_after sock (sendwork s)) ≤ buf_size
    → io.server_mode ≡ recv
    → io.buffer ≡ bytes_after sock (sendwork s) ++ stale
    → HasTail s.host
    → c.is_padded ≡ true
    → goes_on (recv_msg_round true (length (bytes_after sock (sendwork s))) io c)
      ≡ some (show_all (map message (heard sock s.tables (d ∷ queue))) c)
recv_msg_round-sendwork sock d queue s io stale c h texts queued none_before some_message whole
      first there tail padded =
    let bytes = bytes_after-sendwork sock d queue s tail h queued none_before in
    rw bytes (
      shown_of (heard sock s.tables (d ∷ queue)) io stale c some_message
        (heard-IsRequest sock s.tables (d ∷ queue) h texts)
        (subst (λ b. length b ≤ buf_size) bytes whole) first (there ∙ ap (λ b. b ++ stale) bytes)
        padded)
