-- ===== src/Client/Bots.antt =====
-- BClient.cpp: a client that plays many users at once. One kind of thread makes up requests, one sends
-- them, one follows the status of each user; a user waits in one of two queues.
pub mod Names
pub mod Tame
pub mod Runs
pub mod Receiving
use cpp_iocp_server.Prelude.{
  ℕ, zero, suc, ◌+◌, ◌/◌, ◌%◌, Bool, true, false, ◌||◌, Option, none, some, List, [], ◌∷◌, ◌++◌,
  lookup, insert, take, replicate, ltb, leb, if◌then◌else◌, ◌==◌, nat_eq,
}
use cpp_iocp_server.Text.{Text, utf8}
use cpp_iocp_server.Outcome.{
  Outcome, returns, undefined, M, pure, fault, deref, modify, gets, ◌>>=◌, ◌>>◌,
}
use cpp_iocp_server.Common.{
  Socket, buf_size, status_logout, status_waiting, status_chatting, status_number,
}
use cpp_iocp_server.Common.Directions
use cpp_iocp_server.Iocp.Packet.{le16, le32, packet_length}
use cpp_iocp_server.Server.Reading.{slice, byte_at}

-- `INFO_CLIENT`. `direction` is not written before the first request is made up; `job` is read only
-- where a queue has just set it.
pub record InfoClient : Type 0 where
  pub sock : Socket
  pub client_status : ℕ
  pub direction : Option ℕ
  pub id : Text
  pub message : Text

-- The members of `ClientQueue`, the fronts of the queues first; the packets handed to `WSASend`; the
-- numbers that `rand` will return, with how many were drawn; what the next block holds; how many bytes
-- can be read from the `c_str()` of a string on; and whether the two bytes behind `bytesTrans` of
-- RecvMsgThread, a `short`, belong to no variable.
pub record Bots : Type 0 where
  pub client_map : List (Socket × InfoClient)
  pub make_queue : List InfoClient
  pub send_queue : List InfoClient
  pub written : List (Socket × Text)
  pub random : ℕ → ℕ
  pub drawn : ℕ
  pub block : Text
  pub readable : Text → ℕ
  pub is_padded : Bool

-- `rand() % n`
unfoldable pub rand_below : ℕ → M Bots ℕ
rand_below n b = returns (b.random b.drawn % n) (record b { drawn = suc b.drawn })

-- With an empty queue the `job` that is returned was never written, and is read.
unfoldable pub pop_send_queue : M Bots InfoClient
pop_send_queue b = elim b.send_queue [
  | [] ↦ undefined
  | info ∷ rest ↦ returns info (record b { send_queue = rest })
]

unfoldable pub pop_make_queue : M Bots InfoClient
pop_make_queue b = elim b.make_queue [
  | [] ↦ undefined
  | info ∷ rest ↦ returns info (record b { make_queue = rest })
]

unfoldable pub push_send_queue : InfoClient → M Bots Unit
push_send_queue info = modify (λ b. record b { send_queue = b.send_queue ++ info ∷ [] })

unfoldable pub push_make_queue : InfoClient → M Bots Unit
push_make_queue info = modify (λ b. record b { make_queue = b.make_queue ++ info ∷ [] })

-- `SendMsg`: the four bytes of the status are not written, and are those of the block.
unfoldable pub bot_packet : Text → Text → ℕ → Text
unfolding le16 le32
bot_packet block msg direction =
    take (packet_length msg)
      (le16 (packet_length msg) ++ (slice 2 6 block ++ (le32 direction ++ (msg ++ 0 ∷ []))))

-- The copy of `msg` takes ten bytes more than are sent and than the message has with its terminator:
-- they must be there to be read, and go past the end of a block of 4096 bytes if they do not fit.
unfoldable pub bot_send : Socket → Text → ℕ → M Bots Unit
unfolding bot_packet
bot_send sock msg direction b =
    if ltb (b.readable msg) (packet_length msg) || ltb buf_size (10 + packet_length msg)
    then fault b
    else modify
        (λ b. record b { written = b.written ++ (sock, bot_packet b.block msg direction) ∷ [] }) b

-- A turn of `SendMsgThread`.
unfoldable pub bot_send_turn : M Bots Unit
unfolding pop_send_queue bot_send push_make_queue
bot_send_turn = do
  info ← pop_send_queue
  direction ← deref info.direction
  bot_send info.sock info.message direction
  push_make_queue info

abbrev pub password : Text
password = utf8 "1234"

-- `msgs` and `rooms`, by the bytes that stand in the file.
abbrev pub msgs : List Text
msgs =
    (190 ∷ 200 ∷ 179 ∷ 231 ∷ 199 ∷ 207 ∷ 188 ∷ 188 ∷ 191 ∷ 228 ∷ 33 ∷ [])
    ∷ (185 ∷ 221 ∷ 176 ∷ 169 ∷ 189 ∷ 192 ∷ 180 ∷ 207 ∷ 180 ∷ 217 ∷ 33 ∷ [])
    ∷ (176 ∷ 237 ∷ 184 ∷ 191 ∷ 189 ∷ 192 ∷ 180 ∷ 207 ∷ 180 ∷ 217 ∷ [])
    ∷ utf8 "Hello World"
    ∷ (176 ∷ 239 ∷ 180 ∷ 207 ∷ 196 ∷ 161 ∷ 191 ∷ 205 ∷ [])
    ∷ (190 ∷ 198 ∷ 184 ∷ 174 ∷ 176 ∷ 161 ∷ 197 ∷ 228 ∷ [])
    ∷ utf8 "C++"
    ∷ (177 ∷ 194 ∷ 184 ∷ 240 ∷ 180 ∷ 215 ∷ [])
    ∷ (182 ∷ 175 ∷ 197 ∷ 165 ∷ [])
    ∷ (199 ∷ 207 ∷ 192 ∷ 204 ∷ [])
    ∷ []

abbrev pub rooms : List Text
rooms =
    utf8 "EPL"
    ∷ (188 ∷ 188 ∷ 184 ∷ 174 ∷ 191 ∷ 161 ∷ [])
    ∷ (182 ∷ 243 ∷ 184 ∷ 174 ∷ 176 ∷ 161 ∷ [])
    ∷ (186 ∷ 208 ∷ 181 ∷ 165 ∷ 189 ∷ 186 ∷ 184 ∷ 174 ∷ 176 ∷ 161 ∷ [])
    ∷ (191 ∷ 249 ∷ 181 ∷ 229 ∷ 196 ∷ 197 ∷ [])
    ∷ (192 ∷ 175 ∷ 183 ∷ 206 ∷ [])
    ∷ (190 ∷ 198 ∷ 189 ∷ 195 ∷ 190 ∷ 200 ∷ 196 ∷ 197 ∷ [])
    ∷ (75 ∷ 184 ∷ 174 ∷ 177 ∷ 215 ∷ [])
    ∷ (74 ∷ 184 ∷ 174 ∷ 177 ∷ 215 ∷ [])
    ∷ utf8 "UCL"
    ∷ utf8 "UEL"
    ∷ utf8 "ACL"
    ∷ (184 ∷ 174 ∷ 177 ∷ 215 ∷ 190 ∷ 211 ∷ [])
    ∷ (191 ∷ 161 ∷ 183 ∷ 185 ∷ 181 ∷ 240 ∷ 186 ∷ 241 ∷ 189 ∷ 195 ∷ [])
    ∷ utf8 "CSL"
    ∷ (188 ∷ 246 ∷ 198 ∷ 228 ∷ 184 ∷ 163 ∷ 184 ∷ 174 ∷ 176 ∷ 161 ∷ [])
    ∷ []

-- An element of an array, which must be there.
abbrev pub element : ℕ → List Text → Option Text
element i [] = none
element zero (t ∷ texts) = some t
element (suc i) (t ∷ texts) = element i texts

-- A request: a direction and a message.
pub record Made : Type 0 where
  pub direction : ℕ
  pub message : Text

abbrev make : ℕ → Text → M Bots Made
make direction message = pure (record { direction = direction; message = message })

-- Before the log-in: an account is made or entered. The two numbers that are drawn for a nickname
-- have no effect.
unfoldable pub make_logged_out : Text → M Bots Made
unfolding rand_below utf8
make_logged_out id = do
  which ← rand_below 2
  rand_below 2
  rand_below 26
  if which == 1
      then make Directions.user_make (id ++ (b'\\' ∷ password ++ b'\\' ∷ id))
      else make Directions.user_enter (id ++ b'\\' ∷ password)

unfoldable pub make_room_request : M Bots Made
unfolding rand_below utf8
make_room_request = do
  which ← rand_below 10
  i ← rand_below 16
  room ← deref (element i rooms)
  if leb which 6 then make Directions.room_enter room else make Directions.room_make room

unfoldable pub make_line : M Bots Made
unfolding rand_below utf8
make_line = do
  n ← rand_below 70
  text ← deref (element (n % 10) msgs)
  make Directions.minus_one (if n == 1 then utf8 "\\out" else text)

unfoldable pub make_logged_in : M Bots Made
unfolding make_room_request make_line
make_logged_in = do which ← rand_below 4; if which == 0 then make_room_request else make_line

abbrev with_request : InfoClient → Made → InfoClient
with_request info m = record info { direction = some m.direction; message = m.message }

-- A request by the status; in other states the last one stays.
unfoldable pub make_request : ℕ → Text → InfoClient → M Bots InfoClient
unfolding make_logged_out make_logged_in
make_request status id info =
    if status == status_number status_logout
    then (do m ← make_logged_out id; pure (with_request info m))
    else if status == status_number status_waiting || status == status_number status_chatting
    then (do m ← make_logged_in; pure (with_request info m))
    else pure info

-- A turn of `MakeMsgThread`.
unfoldable pub bot_make_turn : M Bots Unit
unfolding pop_make_queue make_request push_send_queue
bot_make_turn = do
  info ← pop_make_queue
  known ← λ (b : Bots). deref (lookup info.sock b.client_map) b
  made ← make_request known.client_status known.id info
  push_send_queue made

-- The status that a message of the server tells, in `RecvMsgThread`.
unfoldable pub follow_status : Socket → ℕ → M Bots Unit
follow_status sock status b =
    if status == status_number status_logout
      || status == status_number status_waiting
      || status == status_number status_chatting
    then (do
      known ← deref (lookup sock b.client_map)
      modify (λ (b : Bots). record b {
        client_map = insert sock (record known { client_status = status }) b.client_map;
      }))
        b
    else returns tt b

-- The users that `main` makes, of numbers from `i` on: a name is a letter, repeated once more for each
-- 52 users before it.
unfoldable pub bot_id : ℕ → Text
unfolding utf8
bot_id i =
    replicate (i / 52 + 1)
      (byte_at (i % 52) (utf8 "ABCDEFGHIJKLMNOPQRSTUVWXYZabcdefghijklmnopqrstuvwxyz"))

unfoldable pub new_clients : ℕ → List Socket → List InfoClient
unfolding bot_id
new_clients i [] = []
new_clients i (sock ∷ socks) =
    record {
      sock = sock;
      client_status = status_number status_logout;
      direction = none;
      id = bot_id i;
      message = [];
    }
    ∷ new_clients (suc i) socks

-- `userMap[clientSocket] = info`
unfoldable pub map_of : List InfoClient → List (Socket × InfoClient)
map_of [] = []
map_of (info ∷ rest) = insert info.sock info (map_of rest)

-- The queues and the map, as `main` fills them.
unfoldable pub new_bots : List Socket → (ℕ → ℕ) → Text → (Text → ℕ) → Bool → Bots
unfolding new_clients map_of
new_bots socks random block readable is_padded = record {
  client_map = map_of (new_clients 0 socks);
  make_queue = new_clients 0 socks;
  send_queue = [];
  written = [];
  random = random;
  drawn = 0;
  block = block;
  readable = readable;
  is_padded = is_padded;
}
