-- ===== src/Lib.antt =====
-- The chat server of this repository, Chat/Server, and its clients, Chat/Client, as definitions
-- that run and theorems about them.
--
-- The program. A receive thread (Server.cpp) reads packets from sockets and queues requests; work
-- threads hand each to BusinessService, which keeps three maps (sessions by socket, rooms by name,
-- ids that are logged in) and calls Dao for the database, IocpService for messages and FileService
-- for files. Replies go through a send queue. The console client (Client.cpp) writes requests, shows
-- what the server sends and passes files by UDP; the bots (BClient.cpp) play many users. All take their
-- blocks from the pools CharPool and MPool.
--
-- The files.
--   Prelude, Text, Outcome: the names that all share; C strings, strtok and decimals over bytes; code
--     that changes a state and may return, end the process, wait for ever or leave what C++ defines.
--   Common, Vo, State: common.h, Vo.h with Vo.cpp, and the members of BusinessService.h.
--   Odbc, Dao: the driver as a parameter, and one function for each query of Dao.cpp.
--   Iocp, FileService: SendToOneMsg, SendToRoomMsg, the layout of a packet; SendToRoomFile, RecvFile.
--   Business: BusinessService.cpp. Basics has the accesses to a session and InsertSendQueue; Account
--     UserMake, UserEnter, InitUser, GetStatus, CallCnt; Room RoomMake, RoomEnter and the steps of
--     leaving; Info RoomInfo, RoomUserInfo, Whisper; Friend the four requests on friends; Leave
--     ClientExit and BanUser; Dispatch StatusLogout, StatusWait, StatusChat and callFuncPointer;
--     SendQueue Sendwork. Consistency, Safety, Delivery, Visits and Logins hold what is
--     proved of them.
--   Server: Reading has PacketReading, DataCopy and the inner loop of RecvThread; Work the three
--     threads, their queues and the accepting of connections. Below Reading, Framing and Batch are about whole packets, Split and
--     Empty about a split body and an empty one, Progress and Termination about the end of
--     the loop; below Work, Receiving, Turns and Runs about the threads.
--   Threads: the handlers of BusinessService.cpp and the jobs of WorkThread once more, cut at their
--     locks, and threads that take turns by a schedule: Handlers has accounts, rooms and log-out,
--     Requests the rest of the lobby, Dispatch the chat, callFuncPointer, ClientExit and BanUser, Jobs
--     WorkThread. Ids is about the sessions of an id while threads take turns, Races about turns that go
--     wrong. `room_enter` cut is `room_enter_cut`.
--   Pool: CharPool, MPool and ConcurrentQueue of the server and of the client, as one pool by the sizes
--     in which they differ. MemoryPool: the pools of Chat/MemoryPool/MemoryPool.cpp.
--   Client: Client.cpp. Packets has SendMsg; Console SendMsgThread with its prompts; Files FileSend,
--     replaceFileDir and RecvFileThread; Reading PacketReading and DataCopy; Display RecvMsgThread.
--     Bots is BClient.cpp, with Receiving for its RecvMsgThread. Exchange is about the client or a bot
--     and the server over one connection, from its accept on.
--   Tests: a small server, clients and pools on which the theorems are applied.
-- A function has the name of the C++ function in lower case with underscores: `RoomMake` is
-- `room_make`.
--
-- Choices. A `char` array is its bytes before the first zero, so an array that is full has no
-- terminator and reading it is undefined. Reading an end iterator or leaving an array is undefined
-- too, but for what is a parameter below. Numbers are natural numbers; where the source has 16 or 32
-- bits, the remainder is written out. The lengths of texts in the source's own arithmetic stay below 2^31. An unordered map is a
-- list of pairs in the order of iteration, a new key last. In Business and Server a
-- handler runs from its beginning to its end. In Threads other threads may take turns between two of
-- its sections, and a section is what it does under one lock, or one access outside the locks; no
-- handler holds two of the locks of the maps and lists at a time. A broadcast to a room, a file that
-- is received and a copy of the room map with the sizes of the rooms are one section each. Two
-- accesses at the very same time, which C++ leaves undefined outside the locks, are not modelled.
--
-- Parameters. The database is a function from the past statements and a new one to its answer. What
-- the theorems rely on is that it answers without an error (`IsServing`). Which paths can be
-- written, which addresses be reached and which datagrams come are fields of `Host`. Three more things
-- that the source does and C++ leaves open depend on the machine, each with a parameter and with
-- undefined behaviour where the machine does not bear it. SendToOneMsg, SendToRoomMsg and the two
-- SendMsg copy ten bytes from behind the terminator of a message: `readable` of Host, Client and Bots
-- says how many bytes can be read from a `c_str()` on, and `Tail` that those ten are among them.
-- RecvMsgThread has four bytes written to a `short`: `is_padded` says whether the two behind it are no
-- variable's. `top` of ConcurrentQueue returns a reference to a local variable: `is_left`, an argument of
-- `malloc`, says whether its bytes are still there when they are read. A theorem that needs one of
-- these says so.
--
-- Fuel. The loop of RecvThread runs on fuel, two more than the bytes of a receive: each turn takes a
-- byte at least, but for the second part of a split header and a packet that announces no body, on
-- which the source's loop takes none either. `blocks` and `digits` have one more than the bytes of
-- the file and than the number. The loops of RecvMsgThread, of client and bots, have the fuel of
-- RecvThread. The directories of a path are erased on as much fuel as it has bytes. The search of
-- ArrayPool has no bound in the source.
--
-- Blocks. The model of the server and of the client has the content of a block where it is read (`block`
-- of PerIo); which block it is, and that no two users have the same one, is the matter of Pool.
-- Addresses of allocations are a parameter there. Its Malloc is one step; its halves, between which
-- another thread may come, are `check_empty` and `top`.
--
-- Not modelled. The listening socket, the `main` functions but for what the server's does with a
-- connection and for the users that the bots begin with,
-- what calls Sendwork (nothing in the repository does),
-- Redis and RankVo, which no handler uses, the prompts on the console, ListPool behind its constructor,
-- and the destructors.
pub mod Prelude
pub mod Text
pub mod Outcome
pub mod Common
pub mod Odbc
pub mod Vo
pub mod Dao
pub mod State
pub mod Iocp
pub mod FileService
pub mod Business
pub mod Pool
pub mod MemoryPool
pub mod Client
pub mod Server
pub mod Threads
pub mod Tests
