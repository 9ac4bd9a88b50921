-- ===== src/Common.antt =====
-- common.h: the states, directions and job records that the parts of the server share.
pub mod Directions
use cpp_iocp_server.Prelude.{ℕ, ◌+◌, ◌≡◌, Bool, true, false, Option, none, some, List, String}
use cpp_iocp_server.Text.{Text, utf8}

abbrev pub buf_size : ℕ
buf_size = 4096

abbrev pub name_size : ℕ
name_size = 20

abbrev pub file_buf_size : ℕ
file_buf_size = 32768

-- A `SOCKET` is a handle.
abbrev pub Socket : Type 0
Socket = ℕ

pub data ClientStatus : Type 0 where
  status_init status_logout status_waiting status_chatting : ClientStatus
  status_whisper status_file_send status_max : ClientStatus

-- The number of an enumerator.
abbrev pub status_number : ClientStatus → ℕ
status_number status_init = 0
status_number status_logout = 1
status_number status_waiting = 2
status_number status_chatting = 3
status_number status_whisper = 4
status_number status_file_send = 5
status_number status_max = 6

abbrev pub is_chatting : ClientStatus → Bool
is_chatting status_chatting = true
is_chatting _ = false

pub data SendTo : Type 0 where
  send_me send_room send_file send_max : SendTo

-- `Send_DATA`: an entry of the send queue. The socket of an entry that is not for one client is
-- never assigned.
pub record SendData : Type 0 where
  pub msg : Text
  pub my_socket : Option Socket
  pub room_name : Text
  pub direction : SendTo
  pub status : ClientStatus

-- `JOB_DATA`: a request as it waits for a work thread. `now_status` is four bytes of the packet.
pub record JobData : Type 0 where
  pub socket : Socket
  pub direction : ℕ
  pub now_status : ℕ
  pub msg : Text

-- The texts of common.h.
unfoldable pub login_before_message : Text
unfolding utf8
login_before_message = utf8 "1.계정생성 2.로그인하기 3.종료 4.콘솔지우기"

unfoldable pub wait_room_message : Text
unfolding utf8
wait_room_message = utf8 "1.방 정보 보기 2.방 만들기 3.방 입장하기 4.유저 정보 5.친구 정보 6.친구 관리 7.귓속말 8.로그아웃 10.콘솔지우기"

unfoldable pub error_message : Text
unfolding utf8
error_message = utf8 "잘못된 명령어 입니다"

unfoldable pub chat_room_message : Text
unfolding utf8
chat_room_message = utf8 "나가시려면 \\out을 콘솔지우기는 \\clear를 친구추가는 \\add 닉네임을 파일전송은\\send를 입력하세요"
