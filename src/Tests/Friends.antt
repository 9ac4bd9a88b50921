-- ===== src/Tests/Friends.antt =====
-- FriendGo on the small server.
use cpp_iocp_server.Prelude.{
  ◌≡◌, refl, none, some, [], ◌∷◌, arith, lookup, insert, nat_eq, text_eq, text_beq, insert_sorted,
}
use cpp_iocp_server.Outcome.{Outcome, returns, undefined}
use cpp_iocp_server.State.{State}
use cpp_iocp_server.Odbc.{Database, success, execute, fetch}
use cpp_iocp_server.Vo.{RelationVo}
use cpp_iocp_server.Dao.{one_friend, select_one_friend}
use cpp_iocp_server.Business.Info.{find_named}
use cpp_iocp_server.Business.Friend.{friend_go}
use cpp_iocp_server.Business.Friend.Going.{friend_asked, friend_go-undefined}
use cpp_iocp_server.Business.Consistency.{IsSound}
use cpp_iocp_server.Tests.Scene.{
  two, lee_waits, kims_room, kim, kim_in_room, kim-IsSound, chat-IsConsistent, kim_chats, server,
}

-- Lee goes to Kim, who is in a room of another name.
abbrev befriended : State
befriended = record (server two) {
  database = record {
    executed = [];
    answer = λ past st. record {
      code = success;
      rows = record { first = 107 ∷ []; second = 107 ∷ []; third = kim.user_name } ∷ [];
    };
  };
}

abbrev answer_of : Outcome Database RelationVo → Database
answer_of (returns _ db) = db
answer_of _ = befriended.database

abbrev friend_vo : RelationVo
friend_vo =
    one_friend (some (record { first = 107 ∷ []; second = 107 ∷ []; third = kim.user_name }))

friend_found :
    select_one_friend (friend_asked kim.user_id kim.user_name) befriended.database
    ≡ returns friend_vo
        (answer_of (select_one_friend (friend_asked kim.user_id kim.user_name) befriended.database))
unfolding select_one_friend execute fetch
friend_found = refl

kim_online : find_named friend_vo.nick_name two.user_map ≡ some (7, kim_in_room)
unfolding find_named text_beq insert
kim_online = refl

kim_in_room-IsSound : IsSound kim_in_room
kim_in_room-IsSound = chat-IsConsistent.sound 7 kim_in_room kim_chats

no_room_kim : lookup kim.user_name two.room_map ≡ none
unfolding lookup insert_sorted text_beq
no_room_kim = refl

friend_go-undefined_example : friend_go 8 kim.user_name befriended ≡ undefined
unfolding text_beq
friend_go-undefined_example =
    friend_go-undefined 8 7 kim kim_in_room kim.user_name friend_vo _ (7 ∷ []) befriended lee_waits
      kim-IsSound friend_found (omega arith) refl kim_online kim_in_room-IsSound refl kims_room
      no_room_kim
