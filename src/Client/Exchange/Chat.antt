-- ===== src/Client/Exchange/Chat.antt =====
-- A line of a chat, from the server's handler to the consoles of the room.
use cpp_iocp_server.Prelude.{
  ◌≤◌, ◌<◌, ◌≡◌, ◌≢◌, refl, ap, sym, subst, ◌∙◌, inl, inr, Bool-cases, true, false, ◌||◌, Option,
  none, some, List, [], ◌∷◌, ◌++◌, All, arith, contains, lookup, map, length, append-nil,
  contains-append, ◌==◌, nat_eq, text_eq, if◌then◌else◌, length-append, length-take,
}
use cpp_iocp_server.Text.{Text}
use cpp_iocp_server.Outcome.{Outcome, returns, continue, ◌>>◌, c_str_ok}
use cpp_iocp_server.Common.{Socket, send_room, status_chatting, buf_size, SendData}
use cpp_iocp_server.State.{Session, State, with_database}
use cpp_iocp_server.Business.Basics.{send_data, insert_send_queue}
use cpp_iocp_server.Business.Safety.Rules.{room_of_lem}
use cpp_iocp_server.Business.Consistency.{IsSound}
use cpp_iocp_server.Odbc.{Database}
use cpp_iocp_server.Dao.{insert_chatting}
use cpp_iocp_server.Vo.{LogVo, new_log_vo, new_vo, set_room_name, set_msg, set_nick_name}
use cpp_iocp_server.Business.SendQueue.{sendwork}
use cpp_iocp_server.Business.Delivery.{IsMessage}
use cpp_iocp_server.Business.Dispatch.{chat_message}
use cpp_iocp_server.Server.Reading.{recv, PerIo}
use cpp_iocp_server.Server.Reading.Framing.{Request}
use cpp_iocp_server.Iocp.Sending.{HasTail}
use cpp_iocp_server.Client.{Client, Shown, line, cleared}
use cpp_iocp_server.Client.Display.{show, show_all, recv_msg_round}
use cpp_iocp_server.Client.Display.Messages.{message, goes_on}
use cpp_iocp_server.Client.Exchange.{as_request}
use cpp_iocp_server.Client.Exchange.Answers.{
  answer, copies, heard, bytes_to, bytes_after, IsText, recv_msg_round-sendwork,
}

-- The entry that a line of a chat leaves in the send queue.
abbrev pub chat_line : Text → Text → Text → SendData
chat_line name msg room = send_data send_room (name ++ b':' ∷ msg) room 0 status_chatting

-- What stands last on a console.
abbrev pub last_shown : List Shown → Option Shown
last_shown [] = none
last_shown (x ∷ []) = some x
last_shown (x ∷ y ∷ xs) = last_shown (y ∷ xs)

abbrev pub last_line : Option Client → Option Shown
last_line none = none
last_line (some c) = last_shown c.screen

last_shown-append : (xs : List Shown) (x : Shown) → last_shown (xs ++ x ∷ []) ≡ some x
last_shown-append [] x = refl
last_shown-append (a ∷ []) x = refl
last_shown-append (a ∷ b ∷ xs) x = last_shown-append (b ∷ xs) x

not_nil : {A : Type 0} {x : A} {xs : List A} → x ∷ xs ≢ []
not_nil e = cc

copies-member :
    (sock : Socket) (d : SendData) (socks : List Socket)
    → contains socks sock ≡ true
    → copies sock d socks ≢ []
unfolding copies contains
copies-member sock d [] h e = absurd (ground arith)
copies-member sock d (x ∷ socks) h e =
    let answered = as_request (answer d) in
    elim (Bool-cases (x == sock)) [
      | inl f ↦ not_nil (
          subst (λ b. (if b then answered ∷ copies sock d socks else copies sock d socks) ≡ []) f e)
      | inr f ↦ copies-member sock d socks (subst (λ b. b || contains socks sock ≡ true) f h) (
          subst (λ b. (if b then answered ∷ copies sock d socks else copies sock d socks) ≡ []) f e)
    ]

-- A message that is shown leaves its line last on the console.
abbrev IsLine : Text → Request → Type 0
IsLine text r = (c : Client) → last_shown (show (message r) c).screen ≡ some (line text)

last_shown-show_all :
    (text : Text) (r : Request) (rs : List Request) (c : Client)
    → IsLine text r
    → All (IsLine text) rs
    → last_shown (show_all (map message (r ∷ rs)) c).screen ≡ some (line text)
unfolding show_all
last_shown-show_all text r [] c h hs = h c
last_shown-show_all text r (r1 ∷ rs) c h hs =
    last_shown-show_all text r1 rs (show (message r) c) (hs.0) (hs.1)

last_line-show_all :
    (text : Text) (rs : List Request) (c : Client)
    → rs ≢ []
    → All (IsLine text) rs
    → last_shown (show_all (map message rs) c).screen ≡ some (line text)
last_line-show_all text [] c some_message hs = absurd (some_message refl)
last_line-show_all text (r ∷ rs) c some_message hs = last_shown-show_all text r rs c (hs.0) (hs.1)

chat_line-IsLine :
    (name msg room : Text)
    → IsLine (name ++ b':' ∷ msg) (as_request (answer (chat_line name msg room)))
unfolding show
chat_line-IsLine name msg room c =
    last_shown-append (c.screen ++ (if c.status == 3 then [] else cleared ∷ []))
      (line (name ++ b':' ∷ msg))

copies-IsLine :
    (sock : Socket) (name msg room : Text) (socks : List Socket)
    → All (IsLine (name ++ b':' ∷ msg)) (copies sock (chat_line name msg room) socks)
unfolding copies
copies-IsLine sock name msg room [] = tt
copies-IsLine sock name msg room (x ∷ socks) = elim (Bool-cases (x == sock)) [
  | inl e ↦ rw e (chat_line-IsLine name msg room, copies-IsLine sock name msg room socks)
  | inr e ↦ rw e (copies-IsLine sock name msg room socks)
]

-- The database behind an access that returns.
abbrev database_of : Database → Outcome Database Unit → Database
database_of db (returns u db') = db'
database_of db _ = db

insert_chatting_lem :
    (v : LogVo) (db : Database)
    → length v.nick_name < 20
    → length v.room_name < 20
    → length v.msg < 512
    → insert_chatting v db ≡ returns tt (database_of db (insert_chatting v db))
unfolding insert_chatting
insert_chatting_lem v db name room msg =
    rw (c_str_ok 20 v.nick_name db name, c_str_ok 20 v.room_name db room, c_str_ok 512 v.msg db msg)
      refl

module _ (sock : Socket) (u : Session) (msg : Text) (s : State) (socks : List Socket)
    (is_session : lookup sock s.user_map ≡ some u) (is_sound : IsSound u)
    (room : lookup u.room_name s.room_map ≡ some socks) (short : length msg < 512) where
  abbrev logged : LogVo
  logged = record (set_room_name u.room_name (set_msg msg new_log_vo)) {
    vo = set_nick_name u.user_name new_vo;
  }

  abbrev told : State
  told = record s {
    send_queue = s.send_queue ++ chat_line u.user_name msg u.room_name ∷ [];
    database = database_of s.database (insert_chatting logged s.database);
  }

  chat_message_lem : chat_message sock u.user_name msg s ≡ returns tt told
  unfolding chat_message insert_send_queue
  chat_message_lem =
      rw (room_of_lem sock s u is_session is_sound, room)
        (ap
          (with_database
            (record s { send_queue = s.send_queue ++ chat_line u.user_name msg u.room_name ∷ [] }))
          (insert_chatting_lem logged s.database
            (omega (arith, length-take 20 u.user_name, is_sound.name))
            (omega (arith, length-take 20 u.room_name, is_sound.room))
            (omega (arith, length-take 512 msg))))

  heard_lem :
      (to : Socket)
      → heard to s.tables (chat_line u.user_name msg u.room_name ∷ [])
        ≡ copies to (chat_line u.user_name msg u.room_name) socks
  unfolding heard
  heard_lem to = rw (room, append-nil) refl

  line-IsMessage : IsMessage (chat_line u.user_name msg u.room_name)
  line-IsMessage = record {
    fits = omega (arith, length-append u.user_name (b':' ∷ msg), is_sound.name, short);
    no_file = λ e. cc;
    has_socket = λ e. cc;
  }

  line-IsText :
      contains u.user_name 0 ≡ false
      → contains msg 0 ≡ false
      → IsText (chat_line u.user_name msg u.room_name)
  unfolding contains
  line-IsText plain_name plain_msg = ground (arith, contains-append u.user_name (b':' ∷ msg) 0)

  module _ (to : Socket) (c : Client) (io : PerIo) (stale : Text) where
    -- A line that a member of a room says reaches every member, if Sendwork is called: when the
    -- server has handled it and Sendwork has taken its turn, the client that receives what was
    -- sent to its socket has the name, a colon and the line last on its console. The machines
    -- must let ten bytes be read behind each message that the server sends, and two be written
    -- behind the client's bytesTrans. The speaker must have a sound session in a room that is
    -- there, the receiver be on the room's list and its receive begin at the start of a packet,
    -- the send queue be empty before and nothing be on the way to the receiver, name and line
    -- have no byte zero and the line less than 512 bytes, and what is sent fit one receive.
    pub recv_msg_round-chat_message :
        HasTail s.host
        → c.is_padded ≡ true
        → contains socks to ≡ true
        → s.send_queue ≡ []
        → bytes_to to s.wire ≡ []
        → contains u.user_name 0 ≡ false
        → contains msg 0 ≡ false
        → length (bytes_after to ((chat_message sock u.user_name msg >> sendwork) s)) ≤ buf_size
        → io.server_mode ≡ recv
        → io.buffer ≡ bytes_after to ((chat_message sock u.user_name msg >> sendwork) s) ++ stale
        → last_line (
            goes_on (
              recv_msg_round true
                (length (bytes_after to ((chat_message sock u.user_name msg >> sendwork) s)))
                io
                c))
          ≡ some (line (u.user_name ++ b':' ∷ msg))
    recv_msg_round-chat_message tail padded is_member none_queued none_before plain_name plain_msg
          whole first there =
        let told_bytes : bytes_after to ((chat_message sock u.user_name msg >> sendwork) s)
            ≡ bytes_after to (sendwork told) =
          ap (λ o. bytes_after to (continue o (λ _. sendwork))) chat_message_lem in
        let alone : told.send_queue ≡ chat_line u.user_name msg u.room_name ∷ [] =
          ap (λ q. q ++ chat_line u.user_name msg u.room_name ∷ []) none_queued in
        let some_message : heard to s.tables (chat_line u.user_name msg u.room_name ∷ []) ≢ [] =
          λ e.
            copies-member to (chat_line u.user_name msg u.room_name) socks is_member
              (sym (heard_lem to) ∙ e) in
        let lines : All (IsLine (u.user_name ++ b':' ∷ msg))
            (heard to s.tables (chat_line u.user_name msg u.room_name ∷ [])) =
          rw (heard_lem to) (copies-IsLine to u.user_name msg u.room_name socks) in
        rw told_bytes (
          ap last_line (
            recv_msg_round-sendwork to (chat_line u.user_name msg u.room_name) [] told io stale c
              (line-IsMessage, tt) (line-IsText plain_name plain_msg, tt) alone none_before
              some_message (subst (λ b. length b ≤ buf_size) told_bytes whole) first
              (there ∙ ap (λ b. b ++ stale) told_bytes) tail padded)
          ∙ last_line-show_all _ _ c some_message lines)
