-- ===== src/Tests/Clients.antt =====
-- Clients of the small server, their accounts and files, and small pools.
use cpp_iocp_server.Prelude.{
  none, ℕ, ◌+◌, ◌%◌, ◌^◌, ◌≤◌, ◌≡◌, ◌≢◌, ◌⊎◌, refl, true, false, some, [], ◌∷◌, ◌++◌, map, arith,
  length, lookup, insert, insert_sorted, nat_eq, contains, text_beq,
}
use cpp_iocp_server.Text.{Text}
use cpp_iocp_server.Outcome.{undefined, hangs, ◌>>◌}
use cpp_iocp_server.Common.{buf_size, send_me, SendData, status_waiting}
use cpp_iocp_server.Iocp.Packet.{le16, le32, packet}
use cpp_iocp_server.Iocp.Sending.{Tail}
use cpp_iocp_server.Iocp.{send_to_one_msg, send_to_room_msg}
use cpp_iocp_server.State.{State}
use cpp_iocp_server.Business.SendQueue.{sendwork, send_all, send_one}
use cpp_iocp_server.Business.Delivery.{IsMessage}
use cpp_iocp_server.Business.Basics.{session, room_of, insert_send_queue}
use cpp_iocp_server.Dao.{insert_chatting}
use cpp_iocp_server.Odbc.{execute}
use cpp_iocp_server.Business.Dispatch.{chat_message}
use cpp_iocp_server.Server.Reading.{
  recv, recv_more, PerIo, packet_reading, read_first, read_packet, recv_loop,
}
use cpp_iocp_server.Server.Reading.Termination.{MeetsEmpty, here, later, recv_loop-ends}
use cpp_iocp_server.Server.Reading.Framing.{Request, IsRequest, job}
use cpp_iocp_server.Server.Work.{Program, recv_thread, accept_client}
use cpp_iocp_server.Server.Work.Receiving.{after}
use cpp_iocp_server.Client.{Client, line}
use cpp_iocp_server.Client.Reading.{client_packet_reading}
use cpp_iocp_server.Client.Reading.Agreement.{client_packet_reading-Below}
use cpp_iocp_server.Client.Display.{recv_msg_round, show_all, show}
use cpp_iocp_server.Client.Display.Messages.{message, goes_on}
use cpp_iocp_server.Client.Bots.{InfoClient, Bots, new_bots, new_clients, map_of, bot_id}
use cpp_iocp_server.Client.Bots.Receiving.{bot_round}
use cpp_iocp_server.Client.Bots.Receiving.Following.{latest, known_after}
use cpp_iocp_server.Client.Exchange.Bots.{bot_round-sendwork}
use cpp_iocp_server.Client.Exchange.Greeting.{
  greeting_request, bytes_sent, recv_msg_round-accept_client,
}
use cpp_iocp_server.Client.Packets.{client_send, client_packet}
use cpp_iocp_server.Client.Exchange.{client_sends, bytes_written, recv_thread-client_sends}
use cpp_iocp_server.Client.Exchange.Answers.{
  heard, copies, bytes_to, bytes_after, IsText, recv_msg_round-sendwork,
}
use cpp_iocp_server.Client.Exchange.Chat.{last_line, recv_msg_round-chat_message}
use cpp_iocp_server.Tests.Scene.{
  host-HasTail, kim_in_room, kim_chats, room_is_there, chat, chat-IsConsistent, server,
}

abbrev hi : Request
hi = record { status = 3; direction = 0; msg = 72 ∷ 105 ∷ [] }

hi-IsRequest : IsRequest hi
unfolding contains
hi-IsRequest = record {
  fits = omega arith;
  no_zero = refl;
  status = omega arith;
  direction = omega arith;
}

abbrev empty_io : PerIo
empty_io = record {
  buffer = [];
  server_mode = recv;
  recv_byte = 0;
  tot_byte = 0;
  body_size = 0;
  recv_buffer = [];
  block = [];
}

-- The second byte of a length of four, and two more, of which one begins the next packet.
abbrev split : PerIo
split = record empty_io {
  server_mode = recv_more;
  recv_byte = 1;
  body_size = 4;
  buffer = 0 ∷ 1 ∷ 2 ∷ 3 ∷ 4 ∷ [];
}

client_packet_reading-Below_example :
    (packet_reading 5 split ≡ undefined) ⊎ (client_packet_reading 5 split ≡ packet_reading 5 split)
client_packet_reading-Below_example = client_packet_reading-Below 5 split (omega arith)

-- A packet of two bytes, its length.
abbrev bare : PerIo
bare = record empty_io { buffer = 2 ∷ 0 ∷ [] }

bare_never : MeetsEmpty 2 bare → ⊥
unfolding packet_reading read_first read_packet
bare_never (here first zero) = omega (arith, zero)
bare_never (later e m) = absurd (grind (arith, e))

recv_loop-ends_example : recv_loop 4 7 2 bare ≢ hangs
recv_loop-ends_example = recv_loop-ends 7 4 2 bare bare_never (omega arith)

abbrev client : Client
client = record {
  status = 3;
  input = [];
  written = [];
  files = [];
  datagrams = [];
  inbox = [];
  screen = [];
  readable = λ msg. length msg + 11;
  is_padded = true;
}

abbrev program : Program
program = record { state = server chat; job_queue = []; packet_cnt = 0; send_jobs = [] }

abbrev hi_io : PerIo
hi_io = record empty_io { buffer = bytes_written (client_sends (hi ∷ []) client) ++ [] }

client-Tail : Tail client.readable
client-Tail msg = omega arith

hi_fits : length (bytes_written (client_sends (hi ∷ []) client)) ≤ buf_size
unfolding client_sends client_send client_packet le16 le32
hi_fits = omega arith

recv_thread-client_sends_example :
    after (
      recv_thread true 7
        (length (bytes_written (client_sends (hi ∷ []) client)))
        (some hi_io)
        true
        program)
    ≡ some
        (record program { packet_cnt = (0 + 1) % 2 ^ 32; job_queue = [] ++ map (job 7) (hi ∷ []) })
recv_thread-client_sends_example =
    recv_thread-client_sends 7 true hi [] client hi_io [] program client-Tail hi-IsRequest tt refl
      hi_fits refl refl

-- A message for Kim.
abbrev told : SendData
told = record {
  msg = 104 ∷ [];
  my_socket = some 7;
  room_name = [];
  direction = send_me;
  status = status_waiting;
}

abbrev telling : State
telling = record (server chat) { send_queue = told ∷ [] }

told-IsMessage : IsMessage told
told-IsMessage = record { fits = omega arith; no_file = λ e. cc; has_socket = λ e f. cc }

told-IsText : IsText told
unfolding contains
told-IsText = refl

heard-told : heard 7 telling.tables (told ∷ []) ≢ []
unfolding heard copies
heard-told e = cc

told_fits : length (bytes_after 7 (sendwork telling)) ≤ buf_size
unfolding sendwork send_all send_one send_to_one_msg packet le16 le32 bytes_to
told_fits = omega arith

nothing_yet : bytes_to 7 [] ≡ []
unfolding bytes_to
nothing_yet = refl

abbrev told_io : PerIo
told_io = record empty_io { buffer = bytes_after 7 (sendwork telling) ++ 0 ∷ [] }

recv_msg_round-sendwork_example :
    goes_on (recv_msg_round true (length (bytes_after 7 (sendwork telling))) told_io client)
    ≡ some (show_all (map message (heard 7 telling.tables (told ∷ []))) client)
recv_msg_round-sendwork_example =
    recv_msg_round-sendwork 7 told [] telling told_io (0 ∷ []) client (told-IsMessage, tt)
      (told-IsText, tt) refl nothing_yet heard-told told_fits refl refl host-HasTail refl

-- The same message for a bot that is not logged in yet.
abbrev bots : Bots
bots = new_bots (7 ∷ []) (λ i. 1) [] (λ msg. length msg + 11) true

abbrev bot : InfoClient
bot = record { sock = 7; client_status = 1; direction = none; id = bot_id 0; message = [] }

bot_known : lookup 7 bots.client_map ≡ some bot
unfolding new_bots new_clients map_of lookup insert
bot_known = refl

bot_round-sendwork_example :
    known_after 7 (bot_round true (length (bytes_after 7 (sendwork telling))) 7 told_io bots)
    ≡ some (record bot {
      client_status = latest 1 (map (λ r. r.status) (heard 7 telling.tables (told ∷ [])));
    })
unfolding new_bots
bot_round-sendwork_example =
    bot_round-sendwork 7 told [] telling told_io (0 ∷ []) bot bots (told-IsMessage, tt)
      (told-IsText, tt) refl nothing_yet heard-told told_fits refl refl bot_known host-HasTail refl

-- Kim says h, alone in the room.
abbrev said : Text
said = bytes_after 7 ((chat_message 7 kim_in_room.user_name (104 ∷ []) >> sendwork) (server chat))

said_fits : length said ≤ buf_size
unfolding chat_message room_of session insert_send_queue insert_chatting execute sendwork send_all
    send_one send_to_room_msg send_to_one_msg packet le16 le32 bytes_to lookup insert insert_sorted
    text_beq
said_fits = omega arith

abbrev said_io : PerIo
said_io = record empty_io { buffer = said ++ [] }

kim_in : contains {A = ℕ} (7 ∷ []) 7 ≡ true
unfolding contains
kim_in = refl

plain_kim : contains kim_in_room.user_name 0 ≡ false
unfolding contains
plain_kim = refl

plain_h : contains {A = ℕ} (104 ∷ []) 0 ≡ false
unfolding contains
plain_h = refl

recv_msg_round-chat_message_example :
    last_line (goes_on (recv_msg_round true (length said) said_io client))
    ≡ some (line (kim_in_room.user_name ++ b':' ∷ 104 ∷ []))
recv_msg_round-chat_message_example =
    recv_msg_round-chat_message 7 kim_in_room (104 ∷ []) (server chat) (7 ∷ []) kim_chats
      (chat-IsConsistent.sound 7 kim_in_room kim_chats) room_is_there (omega arith) 7 client said_io
      [] host-HasTail refl kim_in refl nothing_yet plain_kim plain_h said_fits refl refl

-- A client that connects.
nothing_to_nine : bytes_to 9 [] ≡ []
unfolding bytes_to
nothing_to_nine = refl

abbrev greeted_io : PerIo
greeted_io = record empty_io {
  buffer = bytes_sent 9 (accept_client 9 (49 ∷ []) empty_io program) ++ 0 ∷ [];
}

recv_msg_round-accept_client_example :
    goes_on (
      recv_msg_round true
        (length (bytes_sent 9 (accept_client 9 (49 ∷ []) empty_io program)))
        greeted_io
        client)
    ≡ some (show (message greeting_request) client)
recv_msg_round-accept_client_example =
    recv_msg_round-accept_client 9 (49 ∷ []) empty_io program greeted_io (0 ∷ []) client
      host-HasTail refl nothing_to_nine refl refl

-- A machine on which a string is followed by nothing that can be read.
abbrev bare_program : Program
bare_program = record program {
  state = record program.state {
    host = record program.state.host { readable = λ msg. length msg + 1 };
  };
}
