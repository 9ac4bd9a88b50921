-- ===== src/Client/Console.antt =====
-- `SendMsgThread`: the lines of the user, by what the client shows.
pub mod Accounts
use cpp_iocp_server.Prelude.{
  ℕ, ◌+◌, Bool, true, false, not, ◌&&◌, ◌||◌, Option, none, some, List, [], ◌∷◌, ◌++◌, length, leb,
  lookup, nat_eq, text_eq, ◌==◌, if◌then◌else◌,
}
use cpp_iocp_server.Text.{Text, utf8, has_text}
use cpp_iocp_server.Outcome.{
  Outcome, returns, exits, undefined, hangs, M, pure, modify, gets, ◌>>=◌, ◌>>◌,
}
use cpp_iocp_server.Common.{status_logout, status_waiting, status_chatting, status_number}
use cpp_iocp_server.Common.Directions
use cpp_iocp_server.Common.Directions.{Direction}
use cpp_iocp_server.Client.{Client, Shown, line, cleared}
use cpp_iocp_server.Client.Packets.{client_send}
use cpp_iocp_server.Client.Files.{replace_file_dir, file_send}

-- The class `[a-z|A-Z|0-9]` of the regular expression: letters, digits, and `|`.
unfoldable pub is_alpha_number_char : ℕ → Bool
is_alpha_number_char c =
    leb b'a' c && leb c b'z' || c == b'|' || leb b'A' c && leb c b'Z' || leb b'0' c && leb c b'9'

-- All characters are of the class.
unfoldable pub all_alpha_number : Text → Bool
unfolding is_alpha_number_char
all_alpha_number [] = true
all_alpha_number (c ∷ s) = is_alpha_number_char c && all_alpha_number s

-- `IsAlphaNumber`: one character or more.
unfoldable pub is_alpha_number : Text → Bool
unfolding all_alpha_number
is_alpha_number s = not (s == []) && all_alpha_number s

-- `getline`; without a line it waits.
abbrev next_line : M (List Text) Text
next_line [] = hangs
next_line (l ∷ rest) = returns l rest

-- A prompt that is repeated until a line passes the test.
unfoldable pub ask : (Text → Bool) → M (List Text) Text
ask test [] = hangs
ask test (l ∷ rest) = elim (test l) [ true ↦ returns l rest | false ↦ ask test rest ]

abbrev pub with_input : {A : Type 0} → M (List Text) A → M Client A
with_input m c = elim (m c.input) [
  | returns a rest ↦ returns a (record c { input = rest })
  | exits ↦ exits
  | undefined ↦ undefined
  | hangs ↦ hangs
]

unfoldable pub get_line : M Client Text
get_line = with_input next_line

unfoldable pub is_account : Text → Bool
unfolding is_alpha_number
is_account s = not (s == []) && leb (length s) 10 && is_alpha_number s

unfoldable pub is_password : Text → Bool
unfolding is_alpha_number
is_password s = leb 4 (length s) && leb (length s) 10 && is_alpha_number s

unfoldable pub is_nickname : Text → Bool
is_nickname s = not (s == []) && leb (length s) 20

-- What a round of the loop sends, if anything.
pub data Round : Type 0 where
  sends : Text → ℕ → Direction → Round
  again : Round

abbrev by_default : Text → Round
by_default msg = sends msg Directions.minus_one Directions.minus_one

abbrev directed : Text → Direction → Round
directed msg direction = sends msg Directions.minus_one direction

-- The prompts for a new account.
unfoldable pub ask_account : M (List Text) Round
unfolding ask is_account is_password is_nickname
ask_account = do
  account ← ask is_account
  password1 ← ask is_password
  password2 ← ask (λ l. not (l == []) && password1 == l)
  nickname ← ask is_nickname
  pure (
      sends (account ++ b'\\' ∷ password1 ++ b'\\' ∷ nickname) (status_number status_logout)
        Directions.user_make)

abbrev clear_screen : M Client Round
clear_screen c = returns again (record c { screen = c.screen ++ cleared ∷ [] })

unfoldable pub at_logout : Text → M Client Round
unfolding ask_account get_line utf8
at_logout msg =
    if msg == utf8 "1"
    then with_input ask_account
    else if msg == utf8 "2"
    then (do
      account ← get_line
      password ← get_line
      pure
          (sends (account ++ b'\\' ∷ password) (status_number status_logout) Directions.user_enter))
    else if msg == utf8 "3"
    then (λ c. exits)
    else if msg == utf8 "4"
    then clear_screen
    else pure (by_default msg)

unfoldable pub about_friends : Text → M Client Round
unfolding get_line utf8
about_friends msg = do
  direct ← get_line
  if direct == utf8 "1"
      then (do name ← get_line; pure (directed name Directions.friend_add))
      else if direct == utf8 "2"
      then (do name ← get_line; pure (directed name Directions.friend_go))
      else if direct == utf8 "3"
      then (do name ← get_line; pure (directed name Directions.friend_delete))
      else pure (by_default msg)

unfoldable pub waiting : Text → M Client Round
unfolding get_line about_friends utf8
waiting msg =
    if msg == utf8 "1"
    then pure (directed msg Directions.room_info)
    else if msg == utf8 "2"
    then (do name ← get_line; pure (directed name Directions.room_make))
    else if msg == utf8 "3"
    then (do name ← get_line; pure (directed name Directions.room_enter))
    else if msg == utf8 "4"
    then pure (directed msg Directions.room_user_info)
    else if msg == utf8 "5"
    then pure (directed msg Directions.friend_info)
    else if msg == utf8 "6"
    then about_friends msg
    else if msg == utf8 "7"
    then (do
      name ← get_line
      text ← get_line
      pure (directed (name ++ b'\\' ∷ text) Directions.whisper))
    else if msg == utf8 "8"
    then pure (directed msg Directions.log_out)
    else if msg == utf8 "9"
    then pure (directed msg Directions.user_good_info)
    else if msg == utf8 "10"
    then clear_screen
    else pure (by_default msg)

-- A file that cannot be opened is not sent. The status is -1 here.
abbrev send_opened : Text → Option Text → M Client Unit
send_opened path none = pure tt
send_opened path (some content) = do
  client_send [] Directions.minus_one Directions.file_send
  file_send path content

unfoldable pub chatting : Text → M Client Round
unfolding get_line client_send file_send replace_file_dir utf8 has_text
chatting msg =
    if msg == utf8 "\\clear"
    then clear_screen
    else if has_text (utf8 "\\good") msg
    then (do name ← get_line; pure (directed name Directions.user_good))
    else if has_text (utf8 "\\send") msg
    then (do
      path ← get_line
      found ← gets (λ c. lookup (replace_file_dir path) c.files)
      send_opened (replace_file_dir path) found
      pure again)
    else pure (by_default msg)

-- By `clientStatus`.
unfoldable pub round_of : Text → ℕ → M Client Round
unfolding at_logout waiting chatting
round_of msg status =
    if status == status_number status_logout
    then at_logout msg
    else if status == status_number status_waiting
    then waiting msg
    else if status == status_number status_chatting
    then chatting msg
    else pure (by_default msg)

-- Nothing is sent for an empty line.
abbrev pub send_round : Round → M Client Unit
send_round again = pure tt
send_round (sends msg status direction) =
    if msg == [] then pure tt else client_send msg status direction

-- A round of `SendMsgThread`.
unfoldable pub send_msg_round : M Client Unit
unfolding get_line round_of client_send
send_msg_round = do
  msg ← get_line
  status ← gets (λ (c : Client). c.status)
  round ← round_of msg status
  send_round round
