-- ===== src/Client/Files/Relay.antt =====
-- A file from the server to the clients in a room.
use cpp_iocp_server.Prelude.{
  suc, ◌≤◌, ◌≡◌, refl, ap, ◌∙◌, true, false, Option, none, some, List, [], ◌∷◌, ◌++◌, arith,
  contains, lookup, lookup-insert, length, length-append, map, nat_eq, text_eq, text_beq_iff, ◌==◌,
  if◌then◌else◌, append-nil,
}
use cpp_iocp_server.Text.{Text, utf8, file_name}
use cpp_iocp_server.Outcome.{Outcome, returns, c_str_ok}
use cpp_iocp_server.Common.{Socket, SendData, send_file}
use cpp_iocp_server.State.{State}
use cpp_iocp_server.FileService.{blocks, receive}
use cpp_iocp_server.FileService.Transfer.{receive-blocks, datagrams_to, send_to_room_file-two}
use cpp_iocp_server.Business.SendQueue.{sendwork, send_all, send_one}
use cpp_iocp_server.Client.{Client}
use cpp_iocp_server.Client.Files.{recv_file_round}
use cpp_iocp_server.Client.Files.Delivery.{download, bytes_before_zero_all}

-- The datagrams for an address.
unfoldable pub datagrams_for : Text → List (Text × Text) → List Text
datagrams_for ip [] = []
datagrams_for ip ((to, d) ∷ rest) =
    if to == ip then d ∷ datagrams_for ip rest else datagrams_for ip rest

datagrams_for-append :
    (ip : Text) (ds es : List (Text × Text))
    → datagrams_for ip (ds ++ es) ≡ datagrams_for ip ds ++ datagrams_for ip es
unfolding datagrams_for
datagrams_for-append ip [] es = refl
datagrams_for-append ip ((to, d) ∷ ds) es = ground (arith, datagrams_for-append ip ds es)

datagrams_for_own : (ip : Text) (ps : List Text) → datagrams_for ip (map (λ p. (ip, p)) ps) ≡ ps
unfolding datagrams_for
datagrams_for_own ip [] = refl
datagrams_for_own ip (p ∷ ps) =
    rw ((text_beq_iff ip ip).1 refl) (ap (◌∷◌ p) (datagrams_for_own ip ps))

datagrams_for_other :
    (ip other : Text) (ps : List Text)
    → (other == ip) ≡ false
    → datagrams_for ip (map (λ p. (other, p)) ps) ≡ []
unfolding datagrams_for
datagrams_for_other ip other [] apart = refl
datagrams_for_other ip other (p ∷ ps) apart = rw apart (datagrams_for_other ip other ps apart)

-- A file of a client, after a round that returns.
abbrev pub kept : Text → Outcome Client Unit → Option Text
kept path (returns u c) = lookup path c.files
kept path _ = none

recv_file_round-blocks :
    (path content : Text) (rest : List Text) (c : Client)
    → length (file_name path) ≤ 4000
    → contains (file_name path) 0 ≡ false
    → c.inbox ≡ file_name path ∷ (blocks (suc (length content)) content ++ rest)
    → kept (download path) (recv_file_round c) ≡ some content
unfolding recv_file_round
recv_file_round-blocks path content rest c short plain came =
    let packets = blocks (suc (length content)) content ++ rest in
    let received : receive [] packets ≡ returns content rest =
      receive-blocks (suc (length content)) [] content rest (omega arith) in
    rw
      (
        came,
        bytes_before_zero_all (file_name path) plain,
        c_str_ok 4096 (file_name path) (record c { inbox = packets }) (omega arith),
      )
      (rw
        (c_str_ok 4096 (download path) (record c { inbox = packets })
          (omega (arith, length-append (utf8 "Downloads/") (file_name path))))
        (rw (received, kept)
          (lookup-insert (download path) (download path) content c.files
            ∙ ap (λ b. if b then some content else lookup (download path) c.files)
                ((text_beq_iff (download path) (download path)).1 refl))))

-- The datagrams that the server has sent, after a step that returns.
abbrev pub datagrams_after : Outcome State Unit → List (Text × Text)
datagrams_after (returns u s) = s.host.datagrams
datagrams_after _ = []

-- Both clients, when the server has sent the file to the first and an empty one to the second.
module _ (path content ip1 ip2 : Text) (sent : List (Text × Text))
    (e : sent ≡ datagrams_to (file_name path) content ip1 ++ (ip2, file_name path) ∷ (ip2, []) ∷ [])
    (apart : (ip1 == ip2) ≡ false) where
  other_way : (ip2 == ip1) ≡ false
  other_way = ground (arith, text_beq_iff ip1 ip2, text_beq_iff ip2 ip1)

  first_gets : datagrams_for ip1 sent ≡ file_name path ∷ blocks (suc (length content)) content
  first_gets =
      ap (datagrams_for ip1) e
      ∙ datagrams_for-append ip1 (datagrams_to (file_name path) content ip1) _
      ∙ rw
          (
            datagrams_for_own ip1 (file_name path ∷ blocks (suc (length content)) content),
            datagrams_for_other ip1 ip2 (file_name path ∷ [] ∷ []) other_way,
          )
          (append-nil _)

  second_gets : datagrams_for ip2 sent ≡ file_name path ∷ blocks 1 []
  unfolding blocks
  second_gets =
      ap (datagrams_for ip2) e
      ∙ datagrams_for-append ip2 (datagrams_to (file_name path) content ip1) _
      ∙ rw
          (
            datagrams_for_other ip2 ip1 (file_name path ∷ blocks (suc (length content)) content)
                apart,
            datagrams_for_own ip2 (file_name path ∷ [] ∷ []),
          )
          refl

  pub both_receive :
      (c1 c2 : Client) (rest1 rest2 : List Text)
      → length (file_name path) ≤ 4000
      → contains (file_name path) 0 ≡ false
      → c1.inbox ≡ datagrams_for ip1 sent ++ rest1
      → c2.inbox ≡ datagrams_for ip2 sent ++ rest2
      → (kept (download path) (recv_file_round c1) ≡ some content)
        × (kept (download path) (recv_file_round c2) ≡ some [])
  both_receive c1 c2 rest1 rest2 short plain came1 came2 = (
    recv_file_round-blocks path content rest1 c1 short plain
        (came1 ∙ ap (λ ds. ds ++ rest1) first_gets),
    recv_file_round-blocks path [] rest2 c2 short plain
        (came2 ∙ ap (λ ds. ds ++ rest2) second_gets),
  )

module _ (d : SendData) (content ip1 ip2 : Text) (first second : Socket) (s : State)
    (queued : s.send_queue ≡ d ∷ []) (is_file : d.direction ≡ send_file)
    (on_server : lookup d.msg s.host.files ≡ some content)
    (members : lookup d.room_name s.room_map ≡ some (first ∷ second ∷ []))
    (live1 : lookup first s.live_socket ≡ some ip1) (live2 : lookup second s.live_socket ≡ some ip2)
    (reach1 : s.host.is_reachable ip1 ≡ true) (reach2 : s.host.is_reachable ip2 ≡ true)
    (none_before : s.host.datagrams ≡ []) (short : length (file_name d.msg) ≤ 4000) where
  datagrams_after-sendwork :
      datagrams_after (sendwork s)
      ≡ datagrams_to (file_name d.msg) content ip1 ++ (ip2, file_name d.msg) ∷ (ip2, []) ∷ []
  unfolding sendwork send_all send_one
  datagrams_after-sendwork =
      rw
        (
          queued,
          is_file,
          on_server,
          members,
          send_to_room_file-two content (file_name d.msg) first second ip1 ip2
              (record s { send_queue = [] }) (omega arith) live1 live2 reach1 reach2,
          none_before,
        )
        refl

  module _ (apart : (ip1 == ip2) ≡ false) (plain : contains (file_name d.msg) 0 ≡ false)
      (c1 c2 : Client) (rest1 rest2 : List Text) where
    -- When a turn of Sendwork sends a file to a room of two, the client of the first member on
    -- the list has the file afterwards, with its contents, under the directory of downloads and
    -- the name behind the last slash or backslash of the server's path, and the client of the
    -- second has an empty file there. The queue must hold this entry only, the file be on the
    -- server, both addresses be known, not the same and within reach, no datagram have been
    -- sent before, and the name have at most 4000 bytes and no byte zero.
    pub recv_file_round-sendwork :
        c1.inbox ≡ datagrams_for ip1 (datagrams_after (sendwork s)) ++ rest1
        → c2.inbox ≡ datagrams_for ip2 (datagrams_after (sendwork s)) ++ rest2
        → (kept (download d.msg) (recv_file_round c1) ≡ some content)
          × (kept (download d.msg) (recv_file_round c2) ≡ some [])
    recv_file_round-sendwork =
        both_receive d.msg content ip1 ip2 (datagrams_after (sendwork s)) datagrams_after-sendwork
          apart c1 c2 rest1 rest2 short plain
