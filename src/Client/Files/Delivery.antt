-- ===== src/Client/Files/Delivery.antt =====
-- A file from a client to the server.
use cpp_iocp_server.Prelude.{
  zero, suc, ◌≤◌, ◌<◌, ◌≡◌, refl, ap, ◌∙◌, true, false, Option, none, some, List, [], ◌∷◌, ◌++◌,
  arith, contains, insert, lookup, lookup-insert, length, length-append, take_all, length-take,
  nat_eq, text_eq, text_beq_iff, if◌then◌else◌,
}
use cpp_iocp_server.Text.{Text, utf8, file_name}
use cpp_iocp_server.Outcome.{Outcome, returns, exits, undefined, hangs, Returns, c_str_ok}
use cpp_iocp_server.Common.{Socket}
use cpp_iocp_server.State.{State}
use cpp_iocp_server.Vo.{LogVo}
use cpp_iocp_server.Odbc.{Database, SqlReturn, execute}
use cpp_iocp_server.Dao.{insert_files}
use cpp_iocp_server.FileService.{blocks, receive, bytes_before_zero, file_vo, save_file, recv_file}
use cpp_iocp_server.FileService.Transfer.{receive-blocks}
use cpp_iocp_server.Client.{Client}
use cpp_iocp_server.Client.Files.{replace_file_dir, file_send}
use cpp_iocp_server.Client.Files.Names.{strip_dirs-file_name}

-- The datagrams of a client that were sent.
abbrev pub sent_by : Outcome Client Unit → List Text
sent_by (returns u c) = c.datagrams
sent_by _ = []

-- A file of the server, after a step that returns.
abbrev pub stored : {A : Type 0} → Text → Outcome State A → Option Text
stored path (returns a s) = lookup path s.host.files
stored path _ = none

file_send_lem :
    (path content : Text) (c : Client)
    → length (file_name path) < 4096
    → c.datagrams ≡ []
    → sent_by (file_send (replace_file_dir path) content c)
      ≡ file_name path ∷ blocks (suc (length content)) content
unfolding file_send
file_send_lem path content c short none_yet =
    rw
      (
        strip_dirs-file_name path,
        take_all 4096 (file_name path) (omega arith),
        c_str_ok 4096 (file_name path) c short,
        none_yet,
      )
      refl

pub bytes_before_zero_all : (s : Text) → contains s 0 ≡ false → bytes_before_zero s ≡ s
unfolding contains
bytes_before_zero_all [] h = refl
bytes_before_zero_all (zero ∷ s) h = absurd (ground arith)
bytes_before_zero_all (suc c ∷ s) h = ap (◌∷◌ (suc c)) (bytes_before_zero_all s (ground arith))

abbrev pub download : Text → Text
download path = utf8 "Downloads/" ++ file_name path

returned :
    {A S : Type 0} (o : Outcome S A)
    → Returns (λ _ _. Unit) o
    → (a : A) × ((s : S) × (o ≡ returns a s))
returned (returns a s) h = (a, (s, refl))
returned exits h = elim h [ ]
returned undefined h = elim h [ ]
returned hangs h = elim h [ ]

insert_files-Returns :
    (vo : LogVo) (db : Database)
    → length vo.nick_name < 20
    → length vo.filename < 100
    → Returns (λ _ _. Unit) (insert_files vo db)
unfolding insert_files execute
insert_files-Returns vo db nick name =
    rw (c_str_ok 20 vo.nick_name db nick, c_str_ok 100 vo.filename db name) tt

module _ (sock : Socket) (user path content : Text) (c : Client) (s : State)
    (rest : List Text) where
  -- What the server has then, for some database.
  abbrev pub filed : Database → State
  filed db = record s {
    host = record s.host { inbox = rest; files = insert (download path) content s.host.files };
    database = db;
  }

  abbrev pub sent_vo : LogVo
  sent_vo = file_vo user (file_name path) (length content)

  sent_vo-Returns : length user < 20 → Returns (λ _ _. Unit) (insert_files sent_vo s.database)
  sent_vo-Returns user_fits =
      insert_files-Returns sent_vo s.database (omega (arith, length-take 20 user))
        (omega (arith, length-take 20 (file_name path)))

  recv_file-filed :
      (code : SqlReturn) (db : Database)
      → insert_files sent_vo s.database ≡ returns code db
      → length (file_name path) ≤ 4000
      → contains (file_name path) 0 ≡ false
      → s.host.is_writable (download path) ≡ true
      → s.host.inbox ≡ file_name path ∷ (blocks (suc (length content)) content ++ rest)
      → recv_file sock user s ≡ returns (download path) (filed db)
  unfolding recv_file save_file
  recv_file-filed code db inserted short plain writable arrived =
      let packets = blocks (suc (length content)) content ++ rest in
      let came : State = record s { host = record s.host { inbox = packets } } in
      let received : receive [] packets ≡ returns content rest =
        receive-blocks (suc (length content)) [] content rest (omega arith) in
      rw
        (
          arrived,
          bytes_before_zero_all (file_name path) plain,
          c_str_ok 4096 (file_name path) came (omega arith),
        )
        (rw
          (
            c_str_ok 4096 (download path) came
                (omega (arith, length-append (utf8 "Downloads/") (file_name path))),
            writable,
          )
          (rw (received, inserted) refl))

  pub recv_file_lem :
      length (file_name path) ≤ 4000
      → length user < 20
      → contains (file_name path) 0 ≡ false
      → c.datagrams ≡ []
      → s.host.is_writable (download path) ≡ true
      → s.host.inbox ≡ sent_by (file_send (replace_file_dir path) content c) ++ rest
      → (db : Database) × (recv_file sock user s ≡ returns (download path) (filed db))
  recv_file_lem short user_fits plain none_yet writable came =
      let (code, (db, inserted)) =
        returned (insert_files sent_vo s.database) (sent_vo-Returns user_fits) in
      let arrived =
        came ∙ ap (λ d. d ++ rest) (file_send_lem path content c (omega arith) none_yet) in
      (db, recv_file-filed code db inserted short plain writable arrived)

  -- A file that a client sends is on the server afterwards, under the directory of downloads
  -- and the name behind the last slash or backslash of the client's path, with the client's
  -- contents, when RecvFile reads what FileSend has sent. The name must have at most 4000 bytes
  -- and no byte zero, the user's name less than 20, the path on the server be writable, and
  -- nothing else have been sent before.
  pub recv_file-file_send :
      length (file_name path) ≤ 4000
      → length user < 20
      → contains (file_name path) 0 ≡ false
      → c.datagrams ≡ []
      → s.host.is_writable (download path) ≡ true
      → s.host.inbox ≡ sent_by (file_send (replace_file_dir path) content c) ++ rest
      → stored (download path) (recv_file sock user s) ≡ some content
  recv_file-file_send short user_fits plain none_yet writable came =
      let (db, e) = recv_file_lem short user_fits plain none_yet writable came in
      rw (e, stored)
        (lookup-insert (download path) (download path) content s.host.files
          ∙ ap (λ b. if b then some content else lookup (download path) s.host.files)
              ((text_beq_iff (download path) (download path)).1 refl))
