-- ===== src/Tests/Files.antt =====
-- A file of one byte for the two clients in a room of the small server.
use cpp_iocp_server.Prelude.{
  ◌≤◌, ◌≡◌, refl, false, some, [], ◌∷◌, ◌++◌, lookup, insert, insert_sorted, nat_eq, text_eq,
  text_beq, contains, length, arith, ◌==◌, none, ◌+◌, true,
}
use cpp_iocp_server.Text.{Text, file_name, file_name_from}
use cpp_iocp_server.Common.{status_chatting, send_file, SendData}
use cpp_iocp_server.State.{State}
use cpp_iocp_server.Business.Basics.{set_room}
use cpp_iocp_server.Business.SendQueue.{sendwork}
use cpp_iocp_server.Client.{Client}
use cpp_iocp_server.Client.Files.{recv_file_round}
use cpp_iocp_server.Client.Files.Delivery.{download}
use cpp_iocp_server.Client.Files.Relay.{
  datagrams_for, datagrams_after, kept, recv_file_round-sendwork,
}
use cpp_iocp_server.Outcome.{◌>>◌}
use cpp_iocp_server.Business.Dispatch.{chat_file}
use cpp_iocp_server.Client.Files.{replace_file_dir, file_send}
use cpp_iocp_server.Client.Files.Delivery.{sent_by}
use cpp_iocp_server.Client.Exchange.Files.{recv_file_round-chat_file}
use cpp_iocp_server.Tests.Scene.{
  host-HasTail, kim_in_room, kim_chats, chat-IsConsistent, room, chat, server, host,
}

abbrev path : Text
path = 97 ∷ 47 ∷ 102 ∷ []

abbrev file : SendData
file = record {
  msg = path;
  my_socket = none;
  room_name = room;
  direction = send_file;
  status = status_chatting;
}

abbrev two_live : State
two_live = record (server (set_room room (7 ∷ 8 ∷ []) chat)) {
  live_socket = (7, 49 ∷ []) ∷ (8, 50 ∷ []) ∷ [];
  send_queue = file ∷ [];
  host = record host { files = (path, 1 ∷ []) ∷ [] };
}

file_there : lookup file.msg two_live.host.files ≡ some (1 ∷ [])
unfolding lookup text_beq
file_there = refl

both_there : lookup room two_live.room_map ≡ some (7 ∷ 8 ∷ [])
unfolding lookup insert_sorted insert text_beq
both_there = refl

live_seven : lookup 7 two_live.live_socket ≡ some (49 ∷ [])
unfolding lookup
live_seven = refl

live_eight : lookup 8 two_live.live_socket ≡ some (50 ∷ [])
unfolding lookup
live_eight = refl

path_fits : length (file_name path) ≤ 4000
unfolding file_name file_name_from
path_fits = omega arith

path_plain : contains (file_name path) 0 ≡ false
unfolding file_name file_name_from contains
path_plain = refl

abbrev first_ip : Text
first_ip = 49 ∷ []

abbrev second_ip : Text
second_ip = 50 ∷ []

apart : (first_ip == second_ip) ≡ false
unfolding text_beq
apart = refl

abbrev client_of : Text → Client
client_of ip = record {
  status = 3;
  input = [];
  screen = [];
  readable = λ msg. length msg + 11;
  is_padded = true;
  written = [];
  datagrams = [];
  files = [];
  inbox = datagrams_for ip (datagrams_after (sendwork two_live)) ++ [];
}

recv_file_round-sendwork_example :
    (kept (download path) (recv_file_round (client_of first_ip)) ≡ some (1 ∷ []))
    × (kept (download path) (recv_file_round (client_of second_ip)) ≡ some [])
recv_file_round-sendwork_example =
    recv_file_round-sendwork file (1 ∷ []) first_ip second_ip 7 8 two_live refl refl file_there
      both_there live_seven live_eight refl refl refl path_fits apart path_plain
      (client_of first_ip) (client_of second_ip) [] [] refl refl

-- Kim, the first in the room, sends the file herself.
abbrev sender : Client
sender = record {
  status = 3;
  input = [];
  screen = [];
  readable = λ msg. length msg + 11;
  is_padded = true;
  written = [];
  datagrams = [];
  files = [];
  inbox = [];
}

abbrev filing : State
filing = record (server (set_room room (7 ∷ 8 ∷ []) chat)) {
  live_socket = (7, 49 ∷ []) ∷ (8, 50 ∷ []) ∷ [];
  host = record host { inbox = sent_by (file_send (replace_file_dir path) (1 ∷ []) sender) ++ [] };
}

abbrev client_on : Text → Client
client_on ip = record sender {
  inbox =
      datagrams_for ip (datagrams_after ((chat_file 7 kim_in_room.user_name >> sendwork) filing))
      ++ [];
}

recv_file_round-chat_file_example :
    (kept (download path) (recv_file_round (client_on first_ip)) ≡ some (1 ∷ []))
    × (kept (download path) (recv_file_round (client_on second_ip)) ≡ some [])
recv_file_round-chat_file_example =
    recv_file_round-chat_file 7 7 8 path (1 ∷ []) first_ip second_ip kim_in_room filing sender []
      host-HasTail kim_chats (chat-IsConsistent.sound 7 kim_in_room kim_chats) both_there live_seven
      live_eight refl refl refl refl path_fits path_plain refl refl refl (client_on first_ip)
      (client_on second_ip) [] [] apart refl refl
