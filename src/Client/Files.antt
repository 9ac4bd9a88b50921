-- ===== src/Client/Files.antt =====
-- `replaceFileDir`, `FileSend` and `RecvFileThread`: files by UDP.
pub mod Names
pub mod Delivery
pub mod Relay
use cpp_iocp_server.Prelude.{
  ℕ, zero, suc, Bool, true, false, Option, none, some, List, [], ◌∷◌, ◌++◌, map, length, insert,
  text_eq, ◌==◌, nat_eq, if◌then◌else◌,
}
use cpp_iocp_server.Text.{Text, utf8, strncpy}
use cpp_iocp_server.Outcome.{
  Outcome, returns, exits, undefined, hangs, M, pure, c_str, modify, ◌>>=◌, ◌>>◌,
}
use cpp_iocp_server.Common.{buf_size}
use cpp_iocp_server.FileService.{blocks, receive, bytes_before_zero}
use cpp_iocp_server.Client.{Client}

-- Every `\` becomes a `/`.
unfoldable pub replace_file_dir : Text → Text
replace_file_dir path = map (λ c. if c == b'\\' then b'/' else c) path

-- What stands behind the first `/`, if there is one: `find` and `erase`.
unfoldable pub behind_slash : Text → Option Text
behind_slash [] = none
behind_slash (c ∷ s) = elim (c == b'/') [ true ↦ some s | false ↦ behind_slash s ]

-- The `while` over them. Every round takes a byte at least, so the bytes of the path are fuel enough.
unfoldable pub strip_dirs : ℕ → Text → Text
unfolding behind_slash
strip_dirs zero path = path
strip_dirs (suc fuel) path = elim (behind_slash path) [
  | none ↦ path
  | some rest ↦ strip_dirs fuel rest
]

-- `FileSend`: the name, and the blocks of the file with the empty one that ends it.
unfoldable pub file_send : Text → Text → M Client Unit
unfolding strip_dirs blocks
file_send path content = do
  name ← c_str buf_size (strncpy buf_size (strip_dirs (length path) path))
  modify (λ c. record c { datagrams = c.datagrams ++ name ∷ blocks (suc (length content)) content })

abbrev with_inbox : {A : Type 0} → M (List Text) A → M Client A
with_inbox m c = elim (m c.inbox) [
  | returns a rest ↦ returns a (record c { inbox = rest })
  | exits ↦ exits
  | undefined ↦ undefined
  | hangs ↦ hangs
]

abbrev next_datagram : M (List Text) Text
next_datagram [] = hangs
next_datagram (d ∷ rest) = returns d rest

-- A round of `RecvFileThread`: a name, then the contents. The file is opened without a test.
unfoldable pub recv_file_round : M Client Unit
unfolding receive utf8
recv_file_round = do
  datagram ← with_inbox next_datagram
  let name = bytes_before_zero datagram
  c_str buf_size datagram
  path ← c_str buf_size (utf8 "Downloads/" ++ name)
  content ← with_inbox (receive [])
  modify (λ c. record c { files = insert path content c.files })
