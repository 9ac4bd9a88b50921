-- ===== src/Client/Exchange.antt =====
-- The client and the server over one connection: what the one writes the other reads.
pub mod Answers
pub mod Bots
pub mod Greeting
pub mod Files
pub mod Chat
use cpp_iocp_server.Prelude.{
  ℕ, ◌||◌, ◌+◌, ◌-◌, ◌%◌, ◌^◌, ◌≤◌, ◌<◌, ◌≡◌, refl, ap, sym, ◌∙◌, min, true, false, Option, none,
  some, List, [], ◌∷◌, ◌++◌, All, arith, contains, map, take, length, ltb, length-append,
  append-nil, append_assoc, take_all, subst, Bool,
}
use cpp_iocp_server.Text.{Text}
use cpp_iocp_server.Outcome.{Outcome, returns, exits, undefined, hangs, M, pure, ◌>>=◌, ◌>>◌}
use cpp_iocp_server.Common.{
  Socket, JobData, ClientStatus, status_init, status_logout, status_waiting, status_chatting,
  status_whisper, status_file_send, status_max, status_number, buf_size,
}
use cpp_iocp_server.Iocp.Sending.{Tail}
use cpp_iocp_server.Iocp.Packet.{le16, le32, packet_length, packet}
use cpp_iocp_server.Server.Reading.{recv, PerIo, recv_loop}
use cpp_iocp_server.Server.Reading.Framing.{Request, size, request_packet, IsRequest, job}
use cpp_iocp_server.Server.Reading.Batch.{packets_of, recv_loop-packets_of}
use cpp_iocp_server.Server.Work.{Program, recv_thread}
use cpp_iocp_server.Server.Work.Receiving.{after, recv_thread-packets_of}
use cpp_iocp_server.Client.{Client}
use cpp_iocp_server.Client.Packets.{client_packet, client_send}
use cpp_iocp_server.Client.Reading.{Received}
use cpp_iocp_server.Client.Display.{show_all, recv_msg_round}
use cpp_iocp_server.Client.Display.Messages.{message, goes_on, recv_msg_round-packets_of}

packet_length-small : (msg : Text) → length msg ≤ 1003 → packet_length msg ≡ 11 + length msg
packet_length-small msg h = omega arith

-- The bytes of a packet whose message fits, before they are cut off.
whole :
    (r : Request)
    → length r.msg ≤ 1003
    → take
        (packet_length r.msg)
        (le16 (packet_length r.msg) ++ (le32 r.status ++ (le32 r.direction ++ (r.msg ++ 0 ∷ []))))
      ≡ request_packet r
unfolding request_packet le16 le32
whole r h =
    let n = packet_length-small r.msg h in
    rw n (take_all (11 + length r.msg) _ (omega (arith, length-append r.msg (0 ∷ []))))

client_packet-request_packet :
    (r : Request)
    → length r.msg ≤ 1003
    → client_packet r.msg r.status r.direction ≡ request_packet r
unfolding client_packet
client_packet-request_packet r h = whole r h

-- A message of the server with its status.
pub record Answer : Type 0 where
  pub status : ClientStatus
  pub text : Text

abbrev pub as_request : Answer → Request
as_request a = record { status = status_number a.status; direction = 0; msg = a.text }

packet-request_packet :
    (a : Answer) → length a.text ≤ 1003 → packet a.text a.status ≡ request_packet (as_request a)
unfolding packet
packet-request_packet a h = whole (as_request a) h

-- A client that makes several requests, one after the other.
unfoldable pub client_sends : List Request → M Client Unit
unfolding client_send
client_sends [] = pure tt
client_sends (r ∷ rs) = do client_send r.msg r.status r.direction; client_sends rs

-- The bytes of packets that arrive together.
abbrev pub joined : List Text → Text
joined [] = []
joined (p ∷ ps) = p ++ joined ps

abbrev pub bytes_written : Outcome Client Unit → Text
bytes_written (returns u c) = joined c.written
bytes_written _ = []

client_send_lem :
    (r : Request) (c : Client)
    → Tail c.readable
    → length r.msg ≤ 1003
    → client_send r.msg r.status r.direction c
      ≡ returns tt (record c { written = c.written ++ request_packet r ∷ [] })
unfolding client_send
client_send_lem r c tail h =
    let fits : (ltb (c.readable r.msg) (packet_length r.msg)
          || ltb buf_size (10 + packet_length r.msg))
        ≡ false =
      ground (arith, packet_length-small r.msg h, tail r.msg) in
    rw (fits, client_packet-request_packet r h) refl

joined-append : (ps qs : List Text) → joined (ps ++ qs) ≡ joined ps ++ joined qs
joined-append [] qs = refl
joined-append (p ∷ ps) qs = rw (joined-append ps qs) (sym (append_assoc p (joined ps) (joined qs)))

client_sends_lem :
    (rs : List Request) (c : Client)
    → Tail c.readable
    → All IsRequest rs
    → bytes_written (client_sends rs c) ≡ joined c.written ++ packets_of rs
unfolding client_sends packets_of
client_sends_lem [] c tail h = sym (append-nil (joined c.written))
client_sends_lem (r ∷ rs) c tail h = rw (client_send_lem r c tail (h.0.fits)) (
    rw
      (
        client_sends_lem rs (record c { written = c.written ++ request_packet r ∷ [] }) tail (h.1),
        joined-append c.written (request_packet r ∷ []),
        append-nil (request_packet r),
      )
      (append_assoc (joined c.written) (request_packet r) (packets_of rs)))

-- What a client asks the server gets: the packets of its requests, received together, put these
-- requests behind those that wait for the work threads, in their order, and count them modulo
-- 2^32; nothing else changes. The client's machine must let ten bytes be read behind each
-- message that it sends. Every message must have at most 1003 bytes and no byte zero, status
-- and direction fit 32 bits, all packets together have at most 4096 bytes and be the first that
-- the client writes, and the receive begin at the start of a packet.
pub recv_thread-client_sends :
    (sock : Socket) (is_closed : Bool) (r : Request) (rs : List Request) (c : Client) (io : PerIo)
    (stale : Text) (p : Program)
    → Tail c.readable
    → IsRequest r
    → All IsRequest rs
    → c.written ≡ []
    → length (bytes_written (client_sends (r ∷ rs) c)) ≤ buf_size
    → io.server_mode ≡ recv
    → io.buffer ≡ bytes_written (client_sends (r ∷ rs) c) ++ stale
    → after (
        recv_thread true sock
          (length (bytes_written (client_sends (r ∷ rs) c)))
          (some io)
          is_closed
          p)
      ≡ some (record p {
        packet_cnt = (p.packet_cnt + length (r ∷ rs)) % 2 ^ 32;
        job_queue = p.job_queue ++ map (job sock) (r ∷ rs);
      })
recv_thread-client_sends sock is_closed r rs c io stale p tail h hs none_yet small first there =
    let bytes : bytes_written (client_sends (r ∷ rs) c) ≡ packets_of (r ∷ rs) =
      client_sends_lem (r ∷ rs) c tail (h, hs)
      ∙ ap (λ ps. joined ps ++ packets_of (r ∷ rs)) none_yet in
    rw bytes (
      recv_thread-packets_of sock is_closed r rs io stale p h hs
        (subst (λ s. length s ≤ buf_size) bytes small) first (there ∙ ap (λ s. s ++ stale) bytes))
