-- ===== src/Business/Friend/Going.antt =====
-- `FriendGo` to a friend who is in a room.
use cpp_iocp_server.Prelude.{
  ◌≡◌, refl, ◌<◌, none, some, false, List, [], length, lookup, ◌==◌, nat_eq, text_eq, arith,
  lookup-insert, nat_beq_iff,
}
use cpp_iocp_server.Text.{Text}
use cpp_iocp_server.Outcome.{returns, undefined, c_str_ok}
use cpp_iocp_server.Common.{Socket}
use cpp_iocp_server.Odbc.{Database}
use cpp_iocp_server.Vo.{RelationVo, new_relation_vo, set_relationto, set_user_id, new_vo}
use cpp_iocp_server.Dao.{select_one_friend}
use cpp_iocp_server.State.{Session, State}
use cpp_iocp_server.Business.Basics.{name_of, session}
use cpp_iocp_server.Business.Room.{in_room}
use cpp_iocp_server.Business.Info.{find_named}
use cpp_iocp_server.Business.Friend.{friend_go}
use cpp_iocp_server.Business.Consistency.{IsSound, set_user}
use cpp_iocp_server.Business.Safety.Rules.{id_of_lem, set_session_lem}

-- What `selectOneFriend` is asked.
abbrev pub friend_asked : Text → Text → RelationVo
friend_asked id msg = record (set_relationto msg new_relation_vo) { vo = set_user_id id new_vo }

module _ (sock other : Socket) (u friend : Session) (msg : Text) (vo2 : RelationVo) (db : Database)
    (socks : List Socket) (s : State) (there : lookup sock s.user_map ≡ some u)
    (u-IsSound : IsSound u)
    (found : select_one_friend (friend_asked u.user_id msg) s.database ≡ returns vo2 db)
    (short : length vo2.nick_name < 20) (named : (vo2.nick_name == []) ≡ false)
    (online : find_named vo2.nick_name s.user_map ≡ some (other, friend))
    (friend-IsSound : IsSound friend) (chats : (friend.room_name == []) ≡ false)
    (room_there : lookup friend.room_name s.room_map ≡ some socks) where
  abbrev asked_state : State
  asked_state = record s { database = db }

  abbrev moved : State
  moved = record asked_state {
    tables = set_user sock (in_room friend.room_name u) asked_state.tables;
  }

  name_read : name_of sock moved ≡ returns u.user_name moved
  unfolding name_of session
  name_read =
      let renamed : lookup sock moved.user_map ≡ some (in_room friend.room_name u) = ground (
        arith,
        lookup-insert sock sock (in_room friend.room_name u) s.user_map,
        nat_beq_iff sock sock,
      ) in
      rw
        (
          renamed,
          c_str_ok 20 u.user_name moved u-IsSound.name,
          c_str_ok 20 u.user_id moved u-IsSound.id,
        )
        refl

  -- A session that goes to a friend who is in a room runs into undefined behaviour when no room
  -- has the name that the request gives, which is the friend's nickname: the end iterator is
  -- read for the lock. The friend must be found in the database and be online, both sessions be
  -- sound, the nickname have less than 20 bytes and the friend's room be there.
  pub friend_go-undefined : lookup msg s.room_map ≡ none → friend_go sock msg s ≡ undefined
  unfolding friend_go
  friend_go-undefined no_room =
      rw
        (
          id_of_lem sock s u there u-IsSound,
          found,
          c_str_ok 20 vo2.nick_name asked_state short,
          named,
          online,
          c_str_ok 20 friend.room_name asked_state friend-IsSound.room,
          chats,
          room_there,
          set_session_lem sock asked_state u there u-IsSound (in_room friend.room_name),
          name_read,
          no_room,
        )
        refl
