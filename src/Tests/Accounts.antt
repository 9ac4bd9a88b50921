-- ===== src/Tests/Accounts.antt =====
-- Accounts and files, from a client to the small server.
use cpp_iocp_server.Prelude.{
  ◌≤◌, ◌≡◌, refl, true, false, some, [], ◌∷◌, ◌++◌, arith, length, nat_eq, contains, text_beq, ◌+◌,
}
use cpp_iocp_server.Text.{Text, file_name, file_name_from}
use cpp_iocp_server.Text.Tokens.{delimiter}
use cpp_iocp_server.Outcome.{returns, undefined}
use cpp_iocp_server.Common.Directions
use cpp_iocp_server.State.{State}
use cpp_iocp_server.Business.Account.{user_make}
use cpp_iocp_server.Business.Safety.Rules.{Safe}
use cpp_iocp_server.Client.{Client}
use cpp_iocp_server.Client.Console.{
  is_account, is_password, is_nickname, is_alpha_number, all_alpha_number, is_alpha_number_char,
  ask_account, sends,
}
use cpp_iocp_server.Client.Console.Accounts.{
  account_message, ask_account_lem, IsAccepted, HasNone, user_make-account_message,
  user_make-undefined,
}
use cpp_iocp_server.Client.Files.{file_send, replace_file_dir, strip_dirs}
use cpp_iocp_server.FileService.{recv_file}
use cpp_iocp_server.Client.Files.Delivery.{sent_by, stored, download, recv_file-file_send}
use cpp_iocp_server.Client.Files.Names.{strip_dirs-file_name}
use cpp_iocp_server.Tests.Scene.{
  kim_in_room, chat, chat-IsConsistent, server, server-IsSafe, host, database, database-IsServing,
}

abbrev client : Client
client = record {
  status = 3;
  input = [];
  written = [];
  files = [];
  datagrams = [];
  inbox = [];
  screen = [];
  readable = λ msg. length msg + 11;
  is_padded = true;
}

-- An account of Kim, after lines that are refused.
kim_account : is_account (107 ∷ []) ≡ true
unfolding is_account is_alpha_number all_alpha_number is_alpha_number_char text_beq
kim_account = refl

-- A password of ten bytes.
abbrev long_password : Text
long_password = 49 ∷ 50 ∷ 51 ∷ 52 ∷ 53 ∷ 54 ∷ 55 ∷ 56 ∷ 57 ∷ 48 ∷ []

long_password_good : is_password long_password ≡ true
unfolding is_password is_alpha_number all_alpha_number is_alpha_number_char text_beq
long_password_good = refl

abbrev short_password : Text
short_password = 49 ∷ 50 ∷ 51 ∷ 52 ∷ []

short_password_good : is_password short_password ≡ true
unfolding is_password is_alpha_number all_alpha_number is_alpha_number_char text_beq
short_password_good = refl

kim_nickname : is_nickname (75 ∷ []) ≡ true
unfolding is_nickname text_beq
kim_nickname = refl

no_account : is_account [] ≡ false
unfolding is_account text_beq
no_account = refl

ask_account_lem_example :
    ask_account ([] ∷ (107 ∷ []) ∷ short_password ∷ short_password ∷ (75 ∷ []) ∷ [])
    ≡ returns
        (sends (account_message (107 ∷ []) short_password (75 ∷ [])) 1 Directions.user_make)
        []
ask_account_lem_example =
    ask_account_lem (107 ∷ []) short_password (75 ∷ []) ([] ∷ []) [] [] [] [] kim_account
      short_password_good kim_nickname (no_account, tt) tt tt tt

plain_nickname : contains (75 ∷ []) delimiter ≡ false
unfolding contains
plain_nickname = refl

short-IsAccepted : IsAccepted (107 ∷ []) short_password (75 ∷ [])
short-IsAccepted = record {
  good_account = kim_account;
  good_password = short_password_good;
  good_nickname = kim_nickname;
  plain = plain_nickname;
}

long-IsAccepted : IsAccepted (107 ∷ []) long_password (75 ∷ [])
long-IsAccepted = record {
  good_account = kim_account;
  good_password = long_password_good;
  good_nickname = kim_nickname;
  plain = plain_nickname;
}

user_make-account_message_example :
    Safe (user_make 9 (account_message (107 ∷ []) short_password (75 ∷ [])) (server chat))
user_make-account_message_example =
    user_make-account_message (107 ∷ []) short_password (75 ∷ []) short-IsAccepted 9 (server chat)
      (server-IsSafe chat chat-IsConsistent) (omega arith) (omega arith)

database-HasNone : HasNone database
database-HasNone = record { serving = database-IsServing; none_such = λ past st. refl }

user_make-undefined_example :
    user_make 9 (account_message (107 ∷ []) long_password (75 ∷ [])) (server chat) ≡ undefined
user_make-undefined_example =
    user_make-undefined (107 ∷ []) long_password (75 ∷ []) long-IsAccepted 9 (server chat) refl
      database-HasNone

-- a\b/c
strip_dirs-file_name_example :
    strip_dirs
      (length (replace_file_dir (97 ∷ 92 ∷ 98 ∷ 47 ∷ 99 ∷ [])))
      (replace_file_dir (97 ∷ 92 ∷ 98 ∷ 47 ∷ 99 ∷ []))
    ≡ file_name (97 ∷ 92 ∷ 98 ∷ 47 ∷ 99 ∷ [])
strip_dirs-file_name_example = strip_dirs-file_name (97 ∷ 92 ∷ 98 ∷ 47 ∷ 99 ∷ [])

-- A server that has received a file of three bytes from there.
abbrev path : Text
path = 97 ∷ 92 ∷ 98 ∷ 47 ∷ 99 ∷ []

abbrev filing : State
filing = record (server chat) {
  host = record host {
    inbox = sent_by (file_send (replace_file_dir path) (1 ∷ 2 ∷ 3 ∷ []) client) ++ [];
  };
}

path_fits : length (file_name path) ≤ 4000
unfolding file_name file_name_from
path_fits = omega arith

path_plain : contains (file_name path) 0 ≡ false
unfolding file_name file_name_from contains
path_plain = refl

recv_file-file_send_example :
    stored (download path) (recv_file 7 kim_in_room.user_name filing) ≡ some (1 ∷ 2 ∷ 3 ∷ [])
recv_file-file_send_example =
    recv_file-file_send 7 kim_in_room.user_name path (1 ∷ 2 ∷ 3 ∷ []) client filing [] path_fits
      (omega arith) path_plain refl refl refl
