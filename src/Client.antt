-- ===== src/Client.antt =====
-- Client.cpp: the console client. One thread reads lines and writes packets and files, one shows what
-- the server sends, one receives files.
pub mod Packets
pub mod Console
pub mod Files
pub mod Reading
pub mod Display
pub mod Exchange
pub mod Bots
use cpp_iocp_server.Prelude.{ℕ, Bool, List}
use cpp_iocp_server.Text.{Text}

-- What is on the console: a message of the server, or the end of what stood there before.
pub data Shown : Type 0 where
  line : Text → Shown
  cleared : Shown

-- `clientStatus`, an `int` that begins as 0; the lines still to come from `cin`; the packets handed
-- to `WSASend` and the datagrams sent to the server, the oldest first; the files of the machine by
-- their paths, and the datagrams still to come. Prompts are left out. Two things are not ours to say:
-- how many bytes can be read from a string that is sent on (`readable`), and whether the two bytes behind
-- `bytesTrans` of RecvMsgThread, a `short`, belong to no variable (`is_padded`).
pub record Client : Type 0 where
  pub status : ℕ
  pub input : List Text
  pub written : List Text
  pub files : List (Text × Text)
  pub datagrams : List Text
  pub inbox : List Text
  pub screen : List Shown
  pub readable : Text → ℕ
  pub is_padded : Bool
