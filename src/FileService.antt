-- ===== src/FileService.antt =====
-- FileService.cpp: files over UDP.
pub mod Transfer
use cpp_iocp_server.Prelude.{
  ℕ, zero, suc, true, false, ◌||◌, List, [], ◌∷◌, ◌++◌, map, lookup, insert, take, drop, length,
  ltb, if◌then◌else◌, ◌==◌, nat_eq, text_eq,
}
use cpp_iocp_server.Text.{Text, utf8, strncpy}
use cpp_iocp_server.Outcome.{
  Outcome, returns, exits, undefined, hangs, M, pure, fault, ◌>>=◌, ◌>>◌, deref, c_str, gets,
  modify,
}
use cpp_iocp_server.Common.{Socket, buf_size, file_buf_size}
use cpp_iocp_server.Vo.{LogVo, set_nick_name, new_vo, new_log_vo, set_filename, set_bytes}
use cpp_iocp_server.Dao.{insert_files}
use cpp_iocp_server.State.{State, dao}

-- A call of `fread`: the next bytes of a file, and what is left of it.
unfoldable pub next_block : Text → Text
next_block content = take file_buf_size content

unfoldable pub behind_block : Text → Text
behind_block content = drop file_buf_size content

-- The blocks that `fread` gives from here to the end of a file, the empty one at the end included.
unfoldable pub blocks : ℕ → Text → List Text
blocks zero content = []
blocks (suc fuel) [] = [] ∷ []
blocks (suc fuel) (c ∷ content) =
    next_block (c ∷ content) ∷ blocks fuel (behind_block (c ∷ content))

abbrev send_datagrams : Text → List Text → State → State
send_datagrams ip packets s = record s {
  host = record s.host { datagrams = s.host.datagrams ++ map (λ p. (ip, p)) packets };
}

-- The name and what is left of the file to each socket of the room. The position in the file is
-- carried from one to the next. A socket that is not connected is passed over.
unfoldable pub send_to_room_file : Text → Text → List Socket → M State Unit
unfolding blocks
send_to_room_file content dir [] = pure tt
send_to_room_file content dir (sock ∷ socks) = do
  ip ← λ s. deref (lookup sock s.live_socket) s
  connected ← gets (λ s. s.host.is_reachable ip)
  elim connected [
    | false ↦ send_to_room_file content dir socks
    | true ↦ do
      name ← c_str buf_size (strncpy buf_size dir)
      modify (send_datagrams ip (name ∷ blocks (suc (length content)) content))
      send_to_room_file [] dir socks
  ]

-- What `recvfrom` has put into a file when an empty datagram, or one that is too long, ends it; and
-- the datagrams behind that one.
unfoldable pub receive : Text → List Text → Outcome (List Text) Text
receive content [] = hangs
receive content (d ∷ rest) =
    let more = receive (content ++ d) rest in
    if length d == 0 || ltb file_buf_size (length d) then returns content rest else more

-- The datagrams that are left behind.
abbrev pub received : {A : Type 0} → State → Outcome (List Text) A → Outcome State A
received s (returns a rest) = returns a (record s { host = record s.host { inbox = rest } })
received s exits = exits
received s undefined = undefined
received s hangs = hangs

abbrev pub with_inbox : {A : Type 0} → M (List Text) A → M State A
with_inbox m s = received s (m s.host.inbox)

abbrev pub next_datagram : M (List Text) Text
next_datagram [] = hangs
next_datagram (d ∷ rest) = returns d rest

abbrev pub bytes_before_zero : Text → Text
bytes_before_zero [] = []
bytes_before_zero (zero ∷ s) = []
bytes_before_zero (suc c ∷ s) = suc c ∷ bytes_before_zero s

-- `fopen(fileDir, "wb")`; the calls on a null `FILE*` that follow a failure are undefined.
abbrev pub open_for_writing : Text → M State Unit
open_for_writing path s = if s.host.is_writable path then returns tt s else fault s

abbrev pub write_file : Text → Text → State → State
write_file path content s = record s {
  host = record s.host { files = insert path content s.host.files };
}

abbrev pub file_vo : Text → Text → ℕ → LogVo
file_vo username name size =
    set_bytes size (record (set_filename name new_log_vo) { vo = set_nick_name username new_vo })

-- The contents, up to the empty datagram, into the file at a path, with a record of it.
unfoldable pub save_file : Text → Text → Text → M State Text
unfolding receive
save_file username name path = do
  content ← with_inbox (receive [])
  modify (write_file path content)
  dao (insert_files (file_vo username name (length content)))
  pure path

-- The file name, then the contents, from the UDP socket. The path is the result.
unfoldable pub recv_file : Socket → Text → M State Text
unfolding save_file utf8
recv_file sock username = do
  datagram ← with_inbox next_datagram
  let name = bytes_before_zero datagram
  c_str buf_size datagram
  path ← c_str buf_size (utf8 "Downloads/" ++ name)
  open_for_writing path
  save_file username name path
