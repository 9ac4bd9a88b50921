-- ===== src/Client/Exchange/Bots.antt =====
-- From the send queue of the server to the bots.
use cpp_iocp_server.Prelude.{
  ◌≤◌, ◌≡◌, ◌≢◌, refl, ap, subst, ◌∙◌, some, List, [], ◌∷◌, ◌++◌, All, map, length, lookup, nat_eq,
  true,
}
use cpp_iocp_server.Text.{Text}
use cpp_iocp_server.Common.{Socket, buf_size, SendData}
use cpp_iocp_server.State.{State}
use cpp_iocp_server.Business.SendQueue.{sendwork}
use cpp_iocp_server.Business.Delivery.{IsMessage}
use cpp_iocp_server.Server.Reading.{recv, PerIo}
use cpp_iocp_server.Server.Reading.Framing.{Request, IsRequest}
use cpp_iocp_server.Server.Reading.Batch.{packets_of}
use cpp_iocp_server.Iocp.Sending.{HasTail}
use cpp_iocp_server.Client.Bots.{InfoClient, Bots}
use cpp_iocp_server.Client.Bots.Receiving.{bot_round}
use cpp_iocp_server.Client.Bots.Receiving.Following.{latest, known_after, bot_round-packets_of}
use cpp_iocp_server.Client.Exchange.Answers.{
  heard, heard-IsRequest, bytes_to, bytes_after, bytes_after-sendwork, IsText,
}

follows :
    (sock : Socket) (rs : List Request) (io : PerIo) (stale : Text) (info : InfoClient) (b : Bots)
    → rs ≢ []
    → All IsRequest rs
    → length (packets_of rs) ≤ buf_size
    → io.server_mode ≡ recv
    → io.buffer ≡ packets_of rs ++ stale
    → lookup sock b.client_map ≡ some info
    → b.is_padded ≡ true
    → known_after sock (bot_round true (length (packets_of rs)) sock io b)
      ≡ some (record info { client_status = latest info.client_status (map (λ r. r.status) rs) })
follows sock [] io stale info b some_message h whole first there known padded =
    absurd (some_message refl)
follows sock (r ∷ rs) io stale info b some_message h whole first there known padded =
    bot_round-packets_of sock r rs io stale info b h.0 h.1 whole first there known padded

-- A bot whose socket has messages in the send queue knows, when it receives what a turn of
-- Sendwork sends it, the last of the statuses log-out, waiting and chatting that they tell, or
-- what it knew before if they tell none; all else that is known of the user stays. The machines
-- must let ten bytes be read behind each message that the server sends, and two be written
-- behind the bots' bytesTrans. Each message must have at most 1003 bytes, be no file, have its
-- socket if it is for one client, and have no byte zero; its receive must begin at the start of
-- a packet, nothing else be on the way to the bot, what is sent fit one receive of 4096 bytes,
-- and the bot be in the map.
pub bot_round-sendwork :
    (sock : Socket) (d : SendData) (queue : List SendData) (s : State) (io : PerIo) (stale : Text)
    (info : InfoClient) (b : Bots)
    → All IsMessage (d ∷ queue)
    → All IsText (d ∷ queue)
    → s.send_queue ≡ d ∷ queue
    → bytes_to sock s.wire ≡ []
    → heard sock s.tables (d ∷ queue) ≢ []
    → length (bytes_after sock (sendwork s)) ≤ buf_size
    → io.server_mode ≡ recv
    → io.buffer ≡ bytes_after sock (sendwork s) ++ stale
    → lookup sock b.client_map ≡ some info
    → HasTail s.host
    → b.is_padded ≡ true
    → known_after sock (bot_round true (length (bytes_after sock (sendwork s))) sock io b)
      ≡ some (record info {
        client_status =
            latest info.client_status (map (λ r. r.status) (heard sock s.tables (d ∷ queue)));
      })
bot_round-sendwork sock d queue s io stale info b h texts queued none_before some_message whole
      first there known tail padded =
    let bytes = bytes_after-sendwork sock d queue s tail h queued none_before in
    rw bytes (
      follows sock (heard sock s.tables (d ∷ queue)) io stale info b some_message
        (heard-IsRequest sock s.tables (d ∷ queue) h texts)
        (subst (λ t. length t ≤ buf_size) bytes whole) first (there ∙ ap (λ t. t ++ stale) bytes)
        known padded)
