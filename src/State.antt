-- ===== src/State.antt =====
-- The state of the server that the services share: the maps of BusinessService.h, the database, and
-- the machine around them, whose files and networks are parameters of the model.
use cpp_iocp_server.Prelude.{ℕ, Bool, List, nat_eq}
use cpp_iocp_server.Text.{Text}
use cpp_iocp_server.Outcome.{Outcome, returns, exits, undefined, hangs, M}
use cpp_iocp_server.Common.{Socket, ClientStatus, SendData}
use cpp_iocp_server.Odbc.{Database}

-- `PER_HANDLE_DATA`: the session of a socket. Its arrays are `char[20]`.
pub record Session : Type 0 where
  pub user_name : Text
  pub room_name : Text
  pub user_id : Text
  pub status : ClientStatus

-- `idSet`, `userMap` and `roomMap`. A room is the list of its sockets, as `ROOM_DATA` holds it.
pub record Tables : Type 0 where
  pub id_set : List Text
  pub user_map : List (Socket × Session)
  pub room_map : List (Text × List Socket)

-- What is handed to `WSASend`.
pub record Sent : Type 0 where
  pub to : Socket
  pub bytes : Text

-- The files by path, the datagrams that are still to come, and those that were sent, with the
-- address of each. Which paths can be written and which addresses be reached is not ours to say.
-- Nor is `readable`: how many bytes can be read from the `c_str()` of a `std::string` on. The string
-- itself has its bytes and a terminator; what stands behind them is up to its library.
pub record Host : Type 0 where
  pub files : List (Text × Text)
  pub is_writable : Text → Bool
  pub inbox : List Text
  pub is_reachable : Text → Bool
  pub datagrams : List (Text × Text)
  pub readable : Text → ℕ

pub record State : Type 0 where
  pub tables : Tables
  pub open tables use *
  pub send_queue : List SendData
  pub send_stop : Bool
  pub live_socket : List (Socket × Text)
  pub wire : List Sent  -- the oldest first
  pub database : Database
  pub host : Host

-- An access to the database as a step of the server.
abbrev pub with_database : {A : Type 0} → State → Outcome Database A → Outcome State A
with_database s (returns a db) = returns a (record s { database = db })
with_database s exits = exits
with_database s undefined = undefined
with_database s hangs = hangs

abbrev pub dao : {A : Type 0} → M Database A → M State A
dao m s = with_database s (m s.database)
