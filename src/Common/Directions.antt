-- ===== src/Common/Directions.antt =====
-- `enum Direction` of common.h. A direction is four bytes of a packet, so it is any 32-bit pattern;
-- these have names.
use cpp_iocp_server.Prelude.{ℕ}

abbrev pub Direction : Type 0
Direction = ℕ

abbrev pub user_make : Direction
user_make = 1

abbrev pub user_enter : Direction
user_enter = 2

abbrev pub room_make : Direction
room_make = 3

abbrev pub room_enter : Direction
room_enter = 4

abbrev pub room_out : Direction
room_out = 5

abbrev pub whisper : Direction
whisper = 6

abbrev pub room_info : Direction
room_info = 7

abbrev pub room_user_info : Direction
room_user_info = 8

abbrev pub friend_info : Direction
friend_info = 9

abbrev pub friend_add : Direction
friend_add = 10

abbrev pub friend_go : Direction
friend_go = 11

abbrev pub friend_delete : Direction
friend_delete = 12

abbrev pub log_out : Direction
log_out = 13

abbrev pub file_send : Direction
file_send = 14

abbrev pub user_good : Direction
user_good = 15

abbrev pub user_good_info : Direction
user_good_info = 16

abbrev pub max : Direction
max = 17

abbrev pub callcount : Direction
callcount = 20

abbrev pub ban : Direction
ban = 21

abbrev pub exit : Direction
exit = 22

-- -1, which no enumerator has.
abbrev pub minus_one : Direction
minus_one = 0xffff_ffff
