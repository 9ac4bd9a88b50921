-- ===== src/Client/Exchange/Greeting.antt =====
-- From the `accept` of the server to the console of the client.
use cpp_iocp_server.Prelude.{
  ◌≤◌, ◌≡◌, refl, ap, ◌∙◌, arith, true, some, List, [], ◌∷◌, ◌++◌, length, lookup, nat_eq,
  nat_beq_iff, text_eq, contains, Option-cases, inl, inr, insert,
}
use cpp_iocp_server.Text.{Text}
use cpp_iocp_server.Outcome.{Outcome, returns}
use cpp_iocp_server.Common.{
  Socket, buf_size, SendData, send_me, status_logout, login_before_message,
}
use cpp_iocp_server.State.{Sent}
use cpp_iocp_server.Iocp.Sending.{HasTail, send_to_one_msg_lem, room_packets}
use cpp_iocp_server.Server.Reading.{recv, PerIo}
use cpp_iocp_server.Server.Reading.Framing.{Request, IsRequest}
use cpp_iocp_server.Server.Reading.Batch.{packets_of, length-packets_of}
use cpp_iocp_server.Server.Work.{Program, insert_live_socket, accept_client, greeting}
use cpp_iocp_server.Client.{Client}
use cpp_iocp_server.Client.Display.{show_all, show, recv_msg_round}
use cpp_iocp_server.Client.Display.Messages.{message, goes_on, recv_msg_round-packets_of}
use cpp_iocp_server.Client.Exchange.{as_request}
use cpp_iocp_server.Client.Exchange.Answers.{
  answer, copies, bytes_to, bytes_to-append, bytes_to-room_packets, answer-IsRequest,
}

abbrev greets : Socket → SendData
greets sock = record {
  msg = greeting;
  my_socket = some sock;
  room_name = [];
  direction = send_me;
  status = status_logout;
}

abbrev pub greeting_request : Request
greeting_request = as_request (answer (greets 0))

greeting_fits : length greeting ≤ 1003
unfolding greeting login_before_message
greeting_fits = omega arith

greeting-IsRequest : IsRequest greeting_request
unfolding greeting login_before_message contains
greeting-IsRequest = answer-IsRequest (greets 0) greeting_fits refl

-- The bytes on the way to a socket after a step of the program.
abbrev pub bytes_sent : {A : Type 0} → Socket → Outcome Program A → Text
bytes_sent sock (returns a p) = bytes_to sock p.state.wire
bytes_sent sock _ = []

sent :
    (sock : Socket) (wire : List Sent)
    → bytes_to sock wire ≡ []
    → bytes_to sock (wire ++ room_packets greeting status_logout (sock ∷ []))
      ≡ packets_of (greeting_request ∷ [])
unfolding copies
sent sock wire none_before =
    bytes_to-append sock wire (room_packets greeting status_logout (sock ∷ []))
    ∙ ap (λ b. b ++ bytes_to sock (room_packets greeting status_logout (sock ∷ []))) none_before
    ∙ bytes_to-room_packets sock (greets 0) (sock ∷ []) greeting_fits
    ∙ rw ((nat_beq_iff sock sock).1 refl) refl

greeting_arrives : length (packets_of (greeting_request ∷ [])) ≤ buf_size
unfolding packets_of
greeting_arrives = omega (arith, length-packets_of greeting_request [], greeting_fits)

bytes_sent-accept_client :
    (sock : Socket) (address : Text) (block : PerIo) (p : Program)
    → HasTail p.state.host
    → bytes_to sock p.state.wire ≡ []
    → bytes_sent sock (accept_client sock address block p) ≡ packets_of (greeting_request ∷ [])
unfolding accept_client insert_live_socket
bytes_sent-accept_client sock address block p tail none_before =
    elim (Option-cases (lookup sock p.state.live_socket)) [
      | inl e ↦
          rw
            (
              e,
              send_to_one_msg_lem greeting sock status_logout
                  (record p.state { live_socket = insert sock address p.state.live_socket })
                  (tail greeting) greeting_fits,
            )
            (sent sock p.state.wire none_before)
      | inr (known, e) ↦
          rw
            (
              e,
              send_to_one_msg_lem greeting sock status_logout p.state (tail greeting) greeting_fits,
            )
            (sent sock p.state.wire none_before)
    ]

-- A client whose connection the server accepts sees the greeting, with the status of one that
-- is not logged in, when it receives what it is sent then. The machines must let ten bytes be
-- read behind each message that the server sends, and two be written behind the client's
-- bytesTrans. Nothing else must be on the way to it and its receive begin at the start of a
-- packet.
pub recv_msg_round-accept_client :
    (sock : Socket) (address : Text) (block : PerIo) (p : Program) (io : PerIo) (stale : Text)
    (c : Client)
    → HasTail p.state.host
    → c.is_padded ≡ true
    → bytes_to sock p.state.wire ≡ []
    → io.server_mode ≡ recv
    → io.buffer ≡ bytes_sent sock (accept_client sock address block p) ++ stale
    → goes_on
        (recv_msg_round true (length (bytes_sent sock (accept_client sock address block p))) io c)
      ≡ some (show (message greeting_request) c)
unfolding show_all
recv_msg_round-accept_client sock address block p io stale c tail padded none_before first there =
    let bytes = bytes_sent-accept_client sock address block p tail none_before in
    rw bytes (
      recv_msg_round-packets_of greeting_request [] io stale c greeting-IsRequest tt
        greeting_arrives first (there ∙ ap (λ b. b ++ stale) bytes) padded)
