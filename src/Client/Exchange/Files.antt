-- ===== src/Client/Exchange/Files.antt =====
-- A file from a client in a room to the clients in the room, by way of the server.
use cpp_iocp_server.Prelude.{
  ◌≤◌, ◌≡◌, refl, ap, ◌∙◌, true, false, some, List, [], ◌∷◌, ◌++◌, arith, contains, length, lookup,
  lookup-insert, nat_eq, text_eq, text_beq_iff, ◌==◌, if◌then◌else◌, ltb,
}
use cpp_iocp_server.Text.{Text, utf8, file_name, file_name_from}
use cpp_iocp_server.Outcome.{returns, continue, ◌>>◌}
use cpp_iocp_server.Common.{Socket, status_file_send}
use cpp_iocp_server.Odbc.{Database}
use cpp_iocp_server.State.{Session, State}
use cpp_iocp_server.Iocp.Sending.{HasTail, send_to_one_msg_lem, room_packets}
use cpp_iocp_server.FileService.{recv_file}
use cpp_iocp_server.FileService.Transfer.{datagrams_to, send_to_room_file-two}
use cpp_iocp_server.Business.Basics.{insert_send_queue}
use cpp_iocp_server.Business.Dispatch.{chat_file}
use cpp_iocp_server.Business.SendQueue.{sendwork, send_all, send_one}
use cpp_iocp_server.Business.Consistency.{IsSound}
use cpp_iocp_server.Business.Safety.Rules.{room_of_lem}
use cpp_iocp_server.Client.{Client}
use cpp_iocp_server.Client.Files.{replace_file_dir, file_send, recv_file_round}
use cpp_iocp_server.Client.Files.Names.{file_name-file_name}
use cpp_iocp_server.Client.Files.Delivery.{sent_by, download, filed, recv_file_lem}
use cpp_iocp_server.Client.Files.Relay.{datagrams_for, datagrams_after, kept, both_receive}

file_name-download : (path : Text) → file_name (download path) ≡ file_name path
unfolding file_name file_name_from utf8
file_name-download path = file_name-file_name path

module _ (sock first second : Socket) (path content ip1 ip2 : Text) (u : Session) (s : State)
    (c : Client) (rest : List Text) (tail : HasTail s.host)
    (speaker : lookup sock s.user_map ≡ some u) (u-IsSound : IsSound u)
    (members : lookup u.room_name s.room_map ≡ some (first ∷ second ∷ []))
    (live1 : lookup first s.live_socket ≡ some ip1) (live2 : lookup second s.live_socket ≡ some ip2)
    (reach1 : s.host.is_reachable ip1 ≡ true) (reach2 : s.host.is_reachable ip2 ≡ true)
    (nothing_queued : s.send_queue ≡ []) (none_before : s.host.datagrams ≡ [])
    (short : length (file_name path) ≤ 4000) (plain : contains (file_name path) 0 ≡ false)
    (none_yet : c.datagrams ≡ []) (writable : s.host.is_writable (download path) ≡ true)
    (came : s.host.inbox ≡ sent_by (file_send (replace_file_dir path) content c) ++ rest) where
  abbrev filed_state : Database → State
  filed_state = filed sock u.user_name path content c s rest

  abbrev emptied : Database → State
  emptied db = record (filed_state db) { send_queue = [] }

  abbrev told : Database → State
  told db = record (emptied db) {
    wire =
        (s.wire ++ room_packets [] status_file_send (first ∷ []))
        ++ room_packets [] status_file_send (second ∷ []);
  }

  on_server : (db : Database) → lookup (download path) (told db).host.files ≡ some content
  on_server db =
      lookup-insert (download path) (download path) content s.host.files
      ∙ ap (λ b. if b then some content else lookup (download path) s.host.files)
          ((text_beq_iff (download path) (download path)).1 refl)

  -- The two entries are queued, and sent in their order.
  datagrams_after-filed :
      (db : Database)
      → recv_file sock u.user_name s ≡ returns (download path) (filed_state db)
      → datagrams_after ((chat_file sock u.user_name >> sendwork) s)
        ≡ datagrams_to (file_name path) content ip1 ++ (ip2, file_name path) ∷ (ip2, []) ∷ []
  unfolding chat_file insert_send_queue sendwork send_all send_one
  datagrams_after-filed db received =
      let can_copy : ltb (s.host.readable []) 11 ≡ false = ground (arith, tail []) in
      rw
        (
          received,
          room_of_lem sock (filed_state db) u speaker u-IsSound,
          nothing_queued,
          members,
          can_copy,
          send_to_one_msg_lem [] second status_file_send
              (record (emptied db) {
                wire = s.wire ++ room_packets [] status_file_send (first ∷ []);
              })
              (tail []) (omega arith),
          on_server db,
          members,
        )
        (ap (λ o. datagrams_after (continue o (λ _. returns tt)))
            (send_to_room_file-two content (file_name (download path)) first second ip1 ip2
              (told db) (omega (arith, short, ap length (file_name-download path))) live1 live2
              reach1 reach2)
          ∙ ap
              (λ ds.
                (ds ++ datagrams_to (file_name (download path)) content ip1)
                ++ (ip2, file_name (download path)) ∷ (ip2, []) ∷ [])
              none_before
          ∙ ap (λ n. datagrams_to n content ip1 ++ (ip2, n) ∷ (ip2, []) ∷ [])
              (file_name-download path))

  datagrams_after-chat_file :
      datagrams_after ((chat_file sock u.user_name >> sendwork) s)
      ≡ datagrams_to (file_name path) content ip1 ++ (ip2, file_name path) ∷ (ip2, []) ∷ []
  datagrams_after-chat_file =
      let (db, received) =
        recv_file_lem sock u.user_name path content c s rest short u-IsSound.name plain none_yet
          writable came in
      datagrams_after-filed db received

  -- A file that a client in a room of two sends reaches the room: when the server has handled
  -- FILE_SEND and Sendwork has taken its turn, the client of the first member on the list has
  -- the file with its contents, under the directory of downloads and the name behind the last
  -- slash or backslash of the sender's path, and the client of the second has an empty file
  -- there. The conditions: the machine lets ten bytes be read behind each message that the
  -- server sends; the sender has a sound session in the room and has sent no file before; the
  -- addresses of both members are known, within reach and not the same; the send queue is empty
  -- and the server has sent no datagram before; the datagrams the server receives begin with
  -- the sender's, and those each client receives begin with the ones for its address, in their
  -- order; the name has at most 4000 bytes and no byte zero; and the path on the server is
  -- writable.
  pub recv_file_round-chat_file :
      (c1 c2 : Client) (rest1 rest2 : List Text)
      → (ip1 == ip2) ≡ false
      → c1.inbox
        ≡ datagrams_for ip1 (datagrams_after ((chat_file sock u.user_name >> sendwork) s)) ++ rest1
      → c2.inbox
        ≡ datagrams_for ip2 (datagrams_after ((chat_file sock u.user_name >> sendwork) s)) ++ rest2
      → (kept (download path) (recv_file_round c1) ≡ some content)
        × (kept (download path) (recv_file_round c2) ≡ some [])
  recv_file_round-chat_file c1 c2 rest1 rest2 apart came1 came2 =
      both_receive path content ip1 ip2 _ datagrams_after-chat_file apart c1 c2 rest1 rest2 short
        plain came1 came2
