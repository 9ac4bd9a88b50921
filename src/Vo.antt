-- ===== src/Vo.antt =====
-- Vo.h and Vo.cpp: the value objects between the services and the database. Each `char` array is
-- the text before its first zero; a setter is a `strncpy` with the length that the source gives.
use cpp_iocp_server.Prelude.{ℕ, []}
use cpp_iocp_server.Text.{Text, strncpy}

pub record Vo : Type 0 where
  pub user_id : Text  -- char[20]
  pub nick_name : Text  -- char[20]

abbrev pub new_vo : Vo
new_vo = record { user_id = []; nick_name = [] }

-- Only ten bytes of the twenty are written.
abbrev pub set_user_id : Text → Vo → Vo
set_user_id id v = record v { user_id = strncpy 10 id }

abbrev pub set_nick_name : Text → Vo → Vo
set_nick_name name v = record v { nick_name = strncpy 20 name }

abbrev pub copy_vo : Vo → Vo
copy_vo v = record { user_id = strncpy 20 v.user_id; nick_name = strncpy 20 v.nick_name }

pub record UserVo : Type 0 where
  pub vo : Vo
  pub open vo use *
  pub password : Text  -- char[10]

abbrev pub new_user_vo : UserVo
new_user_vo = record { vo = new_vo; password = [] }

abbrev pub set_password : Text → UserVo → UserVo
set_password p v = record v { password = strncpy 10 p }

abbrev pub copy_user_vo : UserVo → UserVo
copy_user_vo v = record { vo = copy_vo v.vo; password = strncpy 10 v.password }

pub record LogVo : Type 0 where
  pub vo : Vo
  pub open vo use *
  pub room_name : Text  -- char[20]
  pub msg : Text  -- char[512]
  pub status : ℕ
  pub direction : ℕ
  pub filename : Text  -- char[100]
  pub nickname : Text  -- char[20]
  pub bytes : ℕ

abbrev pub new_log_vo : LogVo
new_log_vo = record {
  vo = new_vo;
  room_name = [];
  msg = [];
  status = 0;
  direction = 0;
  filename = [];
  nickname = [];
  bytes = 0;
}

abbrev pub set_room_name : Text → LogVo → LogVo
set_room_name name v = record v { room_name = strncpy 20 name }

abbrev pub set_msg : Text → LogVo → LogVo
set_msg msg v = record v { msg = strncpy 512 msg }

abbrev pub set_status : ℕ → LogVo → LogVo
set_status n v = record v { status = n }

abbrev pub set_direction : ℕ → LogVo → LogVo
set_direction n v = record v { direction = n }

-- Only twenty bytes of the hundred are written.
abbrev pub set_filename : Text → LogVo → LogVo
set_filename name v = record v { filename = strncpy 20 name }

-- The field of this class, not the `nick_name` of `Vo`.
abbrev pub set_nickname : Text → LogVo → LogVo
set_nickname name v = record v { nickname = strncpy 20 name }

abbrev pub set_bytes : ℕ → LogVo → LogVo
set_bytes n v = record v { bytes = n }

abbrev pub copy_log_vo : LogVo → LogVo
copy_log_vo v = record v {
  vo = copy_vo v.vo;
  room_name = strncpy 20 v.room_name;
  msg = strncpy 512 v.msg;
  filename = strncpy 100 v.filename;
  nickname = strncpy 20 v.nickname;
}

pub record RelationVo : Type 0 where
  pub vo : Vo
  pub open vo use *
  pub relationto : Text  -- char[20]
  pub relationcode : ℕ

abbrev pub new_relation_vo : RelationVo
new_relation_vo = record { vo = new_vo; relationto = []; relationcode = 0 }

abbrev pub set_relationto : Text → RelationVo → RelationVo
set_relationto id v = record v { relationto = strncpy 20 id }

abbrev pub set_relationcode : ℕ → RelationVo → RelationVo
set_relationcode n v = record v { relationcode = n }

abbrev pub copy_relation_vo : RelationVo → RelationVo
copy_relation_vo v = record v { vo = copy_vo v.vo; relationto = strncpy 20 v.relationto }
