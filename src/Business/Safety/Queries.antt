-- ===== src/Business/Safety/Queries.antt =====
-- `RoomInfo`, `RoomUserInfo`, `Whisper`, `FriendInfo`, `FriendAdd` and `FriendDelete`.
use cpp_iocp_server.Prelude.{
  ◌≤◌, ◌<◌, ◌≡◌, refl, All, Option, none, some, List, [], ◌∷◌, arith, leb, lookup, nat_eq, text_eq,
  ◌==◌, length, length-take,
}
use cpp_iocp_server.Text.{Text}
use cpp_iocp_server.Text.Tokens.{tokens}
use cpp_iocp_server.Outcome.{c_str_ok}
use cpp_iocp_server.Common.{Socket, status_waiting, status_whisper}
use cpp_iocp_server.Odbc.{IsServing, is_not_error}
use cpp_iocp_server.Vo.{RelationVo, new_relation_vo, set_user_id, set_nick_name, new_vo}
use cpp_iocp_server.Dao.{select_friends, find_user_id, insert_relation, delete_relation}
use cpp_iocp_server.Dao.Answers.{
  IsRelation, Serving, select_friends-Post, find_user_id-Post, insert_relation-Post,
  delete_relation-Post,
}
use cpp_iocp_server.State.{Session, State}
use cpp_iocp_server.Business.Info.{
  room_info, is_waiting, place_of, user_lines, room_user_info, find_named, whisper_to,
  whisper_fields, whisper,
}
use cpp_iocp_server.Business.Friend.{
  friend_place, friend_lines, friend_list, friend_info, friend_add, friend_delete,
}
use cpp_iocp_server.Business.Consistency.{IsSound, AllSound}
use cpp_iocp_server.Business.Safety.Rules.{
  IsSafe, Safe, Safe-dao, Safe-if, Safe-continue, queue-IsSafe, reply-Safe, name_of_lem, id_of_lem,
}
use cpp_iocp_server.Business.Safety.Accounts.{fields_of_lem, database-IsSafe}

place_of-Safe : (u : Session) (s : State) → IsSafe s → IsSound u → Safe (place_of u s)
place_of-Safe u s h k =
    Safe-if (is_waiting u.status) _ _ s h (rw (c_str_ok 20 u.room_name s k.room) h)

user_lines-Safe :
    (str : Text) (users : List (Socket × Session)) (s : State)
    → IsSafe s
    → AllSound users
    → Safe (user_lines str users s)
unfolding user_lines
user_lines-Safe str [] s h k = h
user_lines-Safe str ((sock, u) ∷ users) s h k = Safe-if (leb 4000 (length str)) _ _ s h (
    rw (c_str_ok 20 u.user_name s k.0.name) (
      Safe-continue (place_of u s) _ (place_of-Safe u s h k.0)
        λ place s' h'. user_lines-Safe _ users s' h' k.1))

-- A session that is found is one of the map's.
find_named-IsSound :
    (name : Text) (users : List (Socket × Session)) (sock : Socket) (u : Session)
    → AllSound users
    → find_named name users ≡ some (sock, u)
    → IsSound u
unfolding find_named
find_named-IsSound name [] sock u k e = cc
find_named-IsSound name ((j, v) ∷ users) sock u k e =
    ground (arith, find_named-IsSound name users sock u k.1, k.0)

friend_place-Safe :
    (name : Text) (s : State)
    → IsSafe s
    → (o : Option (Socket × Session))
    → ((sock : Socket) (u : Session) → o ≡ some (sock, u) → IsSound u)
    → Safe (friend_place o s)
friend_place-Safe name s h none k = h
friend_place-Safe name s h (some (sock, u)) k =
    rw (c_str_ok 20 u.room_name s (k sock u refl).room) h

friend_lines-Safe :
    (users : List (Socket × Session)) (vec : List RelationVo) (s : State)
    → IsSafe s
    → AllSound users
    → All IsRelation vec
    → Safe (friend_lines users vec s)
unfolding friend_lines
friend_lines-Safe users [] s h k r = h
friend_lines-Safe users (vo ∷ vec) s h k r = rw (c_str_ok 20 vo.nick_name s r.0.nick_name) (
    Safe-continue (friend_place (find_named vo.nick_name users) s) _
      (friend_place-Safe vo.nick_name s h (find_named vo.nick_name users)
        (λ sock u e. find_named-IsSound vo.nick_name users sock u k e))
      λ place s' h'.
        Safe-continue (friend_lines users vec s') _ (friend_lines-Safe users vec s' h' k r.1)
          λ rest s'' h''. h'')

friend_list-Safe :
    (users : List (Socket × Session)) (vec : List RelationVo) (s : State)
    → IsSafe s
    → AllSound users
    → All IsRelation vec
    → Safe (friend_list users vec s)
friend_list-Safe users [] s h k r = h
friend_list-Safe users (vo ∷ vec) s h k r = friend_lines-Safe users (vo ∷ vec) s h k r

whisper_fields-Safe :
    (sock : Socket) (own : Text) (fields : List Text) (s : State)
    → IsSafe s
    → Safe (whisper_fields sock own fields s)
whisper_fields-Safe sock own [] s h = h
whisper_fields-Safe sock own (name ∷ []) s h = h
whisper_fields-Safe sock own (name ∷ msg ∷ rest) s h =
    Safe-if (name == own) _ _ s (reply-Safe sock _ status_waiting s h)
      (by_found (find_named name s.user_map))
  where
    by_found : (o : Option (Socket × Session)) → Safe (whisper_to sock own name msg o s)
    by_found none = reply-Safe sock _ status_waiting s h
    by_found (some (other, u)) = reply-Safe other _ status_whisper s h

-- The session of a socket that asks.
module _ (sock : Socket) (s : State) (u : Session) (h : IsSafe s)
    (is_session : lookup sock s.user_map ≡ some u) where
  is_sound : IsSound u
  is_sound = h.consistent.sound sock u is_session

  pub room_info-Safe : Safe (room_info sock s)
  unfolding room_info
  room_info-Safe = rw (name_of_lem sock s u is_session is_sound) (queue-IsSafe s _ h)

  pub room_user_info-Safe : Safe (room_user_info sock s)
  unfolding room_user_info
  room_user_info-Safe = rw (name_of_lem sock s u is_session is_sound) (
      Safe-continue (user_lines _ s.user_map s) _
        (user_lines-Safe _ s.user_map s h h.consistent.all_sound) λ str s' h'. queue-IsSafe s' _ h')

  -- A whisper of at most two fields.
  pub whisper-Safe :
      (message : Text)
      → length message < 4096
      → length (tokens message) ≤ 2
      → Safe (whisper sock message s)
  unfolding whisper
  whisper-Safe message short few =
      rw (name_of_lem sock s u is_session is_sound, fields_of_lem 2 message s short few)
        (whisper_fields-Safe sock u.user_name (tokens message) s h)

  asker : RelationVo
  asker = record new_relation_vo { vo = set_user_id u.user_id new_vo }

  pub friend_info-Safe : Safe (friend_info sock s)
  unfolding friend_info asker
  friend_info-Safe = rw (id_of_lem sock s u is_session is_sound) (
      Safe-dao (λ vec db. All IsRelation vec × IsServing db) (select_friends asker) _ s
        (select_friends-Post asker s.database h.serving (record {
          id = omega (arith, length-take 10 u.user_id);
          nick_name = omega arith;
          relationto = omega arith;
        }))
        λ vec db p.
          let s1 : State = record s { database = db } in
          Safe-continue (friend_list s.user_map vec s1) _
            (friend_list-Safe s.user_map vec s1 (database-IsSafe s db h p.1) h.consistent.all_sound
              p.0)
            λ lines s' h'. reply-Safe sock _ status_waiting s' h')

  -- A nickname that fits `char[20]` with its terminator.
  module _ (msg : Text) (short : length msg < 20) where
    named : RelationVo
    named = record new_relation_vo { vo = set_nick_name msg new_vo }

    -- What is added, after the id is copied in.
    friendship : RelationVo → RelationVo
    friendship v = record v { vo = set_user_id u.user_id v.vo; relationcode = 1 }

    pub friend_add-Safe : Safe (friend_add sock msg s)
    unfolding friend_add named friendship
    friend_add-Safe = rw (id_of_lem sock s u is_session is_sound) (
        Safe-dao (λ v db. IsRelation v × IsServing db) (find_user_id named) _ s
          (find_user_id-Post named s.database h.serving (record {
            id = omega arith;
            nick_name = omega (arith, length-take 20 msg);
            relationto = omega arith;
          }))
          λ v db p.
            let s1 : State = record s { database = db } in
            Safe-if (v.relationto == []) _ _ s1
              (reply-Safe sock _ status_waiting s1 (database-IsSafe s db h p.1))
              (Safe-dao Serving (insert_relation (friendship v)) _ s1
                (insert_relation-Post (friendship v) db p.1 (record {
                  id = omega (arith, length-take 10 u.user_id);
                  nick_name = p.0.nick_name;
                  relationto = p.0.relationto;
                }))
                λ res db' serving.
                  let s2 : State = record s { database = db' } in
                  Safe-if (is_not_error res) _ _ s2
                    (reply-Safe sock _ status_waiting s2 (database-IsSafe s db' h serving))
                    (reply-Safe sock _ status_waiting s2 (database-IsSafe s db' h serving))))

    ended : RelationVo
    ended = record new_relation_vo {
      vo = set_nick_name msg (set_user_id u.user_id new_vo);
      relationcode = 1;
    }

    pub friend_delete-Safe : Safe (friend_delete sock msg s)
    unfolding friend_delete ended
    friend_delete-Safe = rw (id_of_lem sock s u is_session is_sound) (
        Safe-dao Serving (delete_relation ended) _ s
          (delete_relation-Post ended s.database h.serving (record {
            id = omega (arith, length-take 10 u.user_id);
            nick_name = omega (arith, length-take 20 msg);
            relationto = omega arith;
          }))
          λ res db serving.
            let s1 : State = record s { database = db } in
            Safe-if (is_not_error res) _ _ s1
              (reply-Safe sock _ status_waiting s1 (database-IsSafe s db h serving))
              (reply-Safe sock _ status_waiting s1 (database-IsSafe s db h serving)))
