-- ===== src/Business/Safety/Requests.antt =====
-- Every request of a client, by its status: `StatusLogout`, `StatusWait`, `StatusChat` and
-- `callFuncPointer`.
use cpp_iocp_server.Prelude.{
  ◌≤◌, ◌<◌, ◌≡◌, ◌≢◌, subst, inl, inr, Bool, true, ◌||◌, none, some, Option-cases, arith, lookup,
  nat_eq, nat_beq_iff, text_eq, ◌==◌, length, length-take,
}
use cpp_iocp_server.Text.{Text, utf8, has_text}
use cpp_iocp_server.Text.Tokens.{tokens}
use cpp_iocp_server.Common.{
  Socket, ClientStatus, status_logout, status_waiting, status_chatting, status_number,
}
use cpp_iocp_server.Common.Directions
use cpp_iocp_server.Common.Directions.{Direction}
use cpp_iocp_server.Vo.{LogVo, new_log_vo, new_vo, set_nick_name, set_msg, set_room_name}
use cpp_iocp_server.Dao.{insert_direction, insert_chatting}
use cpp_iocp_server.Dao.Answers.{insert_direction-Post, insert_chatting-Post}
use cpp_iocp_server.State.{Session, State, dao}
use cpp_iocp_server.Business.Account.{get_status}
use cpp_iocp_server.Business.Dispatch.{
  status_logout_work, wait_request, record_direction, status_wait_work, chat_message,
  status_chat_work, call_func_pointer,
}
use cpp_iocp_server.Business.Consistency.{IsSound}
use cpp_iocp_server.Business.Safety.Rules.{
  IsSafe, Safe, Safe-last_dao, Safe-test, Safe-continue, queue-IsSafe, name_of_lem, room_of_lem,
}
use cpp_iocp_server.Business.Safety.Rooms.{room_make-Safe, room_enter-Safe}
use cpp_iocp_server.Business.Safety.Leaving.{room_there, chat_out-Safe, log_out-Safe}
use cpp_iocp_server.Business.Safety.Accounts.{CanMake, CanEnter, user_make-Safe, user_enter-Safe}
use cpp_iocp_server.Business.Safety.Queries.{
  room_info-Safe, room_user_info-Safe, whisper-Safe, friend_info-Safe, friend_add-Safe,
  friend_delete-Safe,
}

-- What a request must keep to before the log-in: no field too many, none too long.
pub record CanLogIn (direction : Direction) (message : Text) : Type 0 where
  pub short : length message < 4096
  pub few_to_make : direction ≡ Directions.user_make → length (tokens message) ≤ 3
  pub fits_to_make : direction ≡ Directions.user_make → CanMake (tokens message)
  pub few_to_enter : direction ≡ Directions.user_enter → length (tokens message) ≤ 2
  pub fits_to_enter : direction ≡ Directions.user_enter → CanEnter (tokens message)

-- The requests of the lobby whose message is a room's name or a nickname.
abbrev pub takes_name : Direction → Bool
takes_name direction =
    direction == Directions.room_make
    || direction == Directions.room_enter
    || direction == Directions.friend_add
    || direction == Directions.friend_delete

-- In the lobby: a name has less than 20 bytes, a whisper two fields. `FRIEND_GO` is left out.
pub record CanWait (direction : Direction) (message : Text) : Type 0 where
  pub short : length message < 512
  pub name_fits : takes_name direction ≡ true → length message < 20
  pub few : direction ≡ Directions.whisper → length (tokens message) ≤ 2
  pub not_friend_go : direction ≢ Directions.friend_go

-- In a room: `FILE_SEND` is left out.
pub record CanChat (direction : Direction) (message : Text) : Type 0 where
  pub short : length message < 512
  pub not_file_send : direction ≢ Directions.file_send

abbrev pub IsAdmissible : ClientStatus → Direction → Text → Type 0
IsAdmissible status_logout = CanLogIn
IsAdmissible status_waiting = CanWait
IsAdmissible status_chatting = CanChat
IsAdmissible _ = λ _ _. Unit

status_logout_work-Safe :
    (sock : Socket) (direction : Direction) (message : Text) (s : State)
    → IsSafe s
    → lookup sock s.user_map ≡ none
    → CanLogIn direction message
    → Safe (status_logout_work sock direction message s)
unfolding status_logout_work
status_logout_work-Safe sock direction message s h no_session can =
    Safe-test (direction == Directions.user_make) _ _ s
      (λ e.
        let to_make = (nat_beq_iff direction Directions.user_make).0 e in
        user_make-Safe sock message s h can.short (can.few_to_make to_make)
          (can.fits_to_make to_make))
      λ _.
        Safe-test (direction == Directions.user_enter) _ _ s
          (λ e.
            let to_enter = (nat_beq_iff direction Directions.user_enter).0 e in
            user_enter-Safe sock message s h no_session can.short (can.few_to_enter to_enter)
              (can.fits_to_enter to_enter))
          λ _. Safe-test (direction == Directions.exit) _ _ s (λ _. tt) λ _. queue-IsSafe s _ h

module _ (sock : Socket) (direction : Direction) (message : Text) (s : State) (u : Session)
    (h : IsSafe s) (is_session : lookup sock s.user_map ≡ some u) where
  is_sound : IsSound u
  is_sound = h.consistent.sound sock u is_session

  wait_request-Safe :
      u.status ≡ status_waiting
      → CanWait direction message
      → Safe (wait_request sock direction message s)
  unfolding wait_request
  wait_request-Safe waits can =
      Safe-test (direction == Directions.room_make) _ _ s
        (λ e. room_make-Safe sock message s u h is_session waits (can.name_fits (ground arith)))
        λ e1.
          Safe-test (direction == Directions.room_enter) _ _ s
            (λ e.
              room_enter-Safe sock message s u h is_session waits (can.name_fits (ground arith)))
            λ e2.
              Safe-test (direction == Directions.whisper) _ _ s
                (λ e.
                  whisper-Safe sock s u h is_session message (omega (arith, can.short))
                    (can.few ((nat_beq_iff direction Directions.whisper).0 e)))
                λ e3.
                  Safe-test (direction == Directions.room_info) _ _ s
                    (λ e. room_info-Safe sock s u h is_session)
                    λ e4.
                      Safe-test (direction == Directions.room_user_info) _ _ s
                        (λ e. room_user_info-Safe sock s u h is_session)
                        λ e5.
                          Safe-test (direction == Directions.friend_info) _ _ s
                            (λ e. friend_info-Safe sock s u h is_session)
                            λ e6.
                              Safe-test (direction == Directions.friend_add) _ _ s
                                (λ e.
                                  friend_add-Safe sock s u h is_session message
                                    (can.name_fits (ground arith)))
                                λ e7.
                                  Safe-test (direction == Directions.friend_go) _ _ s
                                    (λ e. absurd (
                                      can.not_friend_go
                                        ((nat_beq_iff direction Directions.friend_go).0 e)))
                                    λ e8.
                                      Safe-test (direction == Directions.friend_delete) _ _ s
                                        (λ e.
                                          friend_delete-Safe sock s u h is_session message
                                            (can.name_fits (ground arith)))
                                        λ e9.
                                          Safe-test (direction == Directions.log_out) _ _ s
                                            (λ e. log_out-Safe sock s u h is_session waits)
                                            λ e10.
                                              Safe-test (direction == Directions.user_good_info) _ _
                                                s (λ e. h) λ e11. queue-IsSafe s _ h

  direction_vo : LogVo
  direction_vo = record (set_msg message new_log_vo) {
    vo = set_nick_name u.user_name new_vo;
    status = status_number status_waiting;
    direction = direction;
  }

  record_direction-Safe :
      (s' : State)
      → IsSafe s'
      → length message < 512
      → Safe (record_direction u.user_name status_waiting direction message s')
  unfolding record_direction direction_vo
  record_direction-Safe s' h' short = Safe-last_dao (insert_direction direction_vo) s' h' (
      insert_direction-Post direction_vo s'.database h'.serving
        (omega (arith, length-take 20 u.user_name, is_sound.name))
        (omega (arith, length-take 512 message)))

  status_wait_work-Safe :
      u.status ≡ status_waiting
      → CanWait direction message
      → Safe (status_wait_work sock status_waiting direction message s)
  unfolding status_wait_work
  status_wait_work-Safe waits can = rw (name_of_lem sock s u is_session is_sound) (
      Safe-test (direction == Directions.minus_one) _ _ s (λ _. h)
        λ _.
          Safe-continue (wait_request sock direction message s) _ (wait_request-Safe waits can)
            λ _ s' h'. record_direction-Safe s' h' can.short)

  chatting_vo : LogVo
  chatting_vo = record (set_room_name u.room_name (set_msg message new_log_vo)) {
    vo = set_nick_name u.user_name new_vo;
  }

  insert_chatting-Safe :
      (s' : State) → IsSafe s' → length message < 512 → Safe (dao (insert_chatting chatting_vo) s')
  unfolding chatting_vo
  insert_chatting-Safe s' h' short = Safe-last_dao (insert_chatting chatting_vo) s' h' (
      insert_chatting-Post chatting_vo s'.database h'.serving
        (omega (arith, length-take 20 u.user_name, is_sound.name))
        (omega (arith, length-take 20 u.room_name, is_sound.room))
        (omega (arith, length-take 512 message)))

  chat_message-Safe : length message < 512 → Safe (chat_message sock u.user_name message s)
  unfolding chat_message chatting_vo
  chat_message-Safe short =
      rw (room_of_lem sock s u is_session is_sound)
        (elim (Option-cases (lookup u.room_name s.room_map)) [
          | inl e ↦ rw e (insert_chatting-Safe s h short)
          | inr (socks, e) ↦ rw e (insert_chatting-Safe _ (queue-IsSafe s _ h) short)
        ])

  status_chat_work-Safe :
      u.status ≡ status_chatting
      → CanChat direction message
      → Safe (status_chat_work sock direction message s)
  unfolding status_chat_work
  status_chat_work-Safe chats can =
      let (socks, there) = room_there sock s u h is_session chats in
      rw (name_of_lem sock s u is_session is_sound) (
        Safe-test (message == utf8 "\\out") _ _ s
          (λ _. chat_out-Safe sock s u socks h is_session chats there)
          λ _.
            Safe-test (has_text (utf8 "\\add") message) _ _ s (λ _. h)
              λ _.
                Safe-test (direction == Directions.user_good) _ _ s (λ _. h)
                  λ _.
                    Safe-test (direction == Directions.file_send) _ _ s
                      (λ e.
                        absurd
                          (can.not_file_send ((nat_beq_iff direction Directions.file_send).0 e)))
                      λ _. chat_message-Safe can.short)

-- The status of a session is that of the lobby or of a room.
session_request-Safe :
    (sock : Socket) (direction : Direction) (message : Text) (s : State) (u : Session)
    → IsSafe s
    → lookup sock s.user_map ≡ some u
    → IsAdmissible u.status direction message
    → Safe (call_func_pointer sock u.status direction message s)
unfolding call_func_pointer
session_request-Safe sock direction message s u h is_session can =
    elim (h.consistent.sound sock u is_session).status [
      | inl waits ↦ rw (waits.0) (
          status_wait_work-Safe sock direction message s u h is_session (waits.0)
            (subst (λ status. IsAdmissible status direction message) (waits.0) can))
      | inr chats ↦ rw chats (
          status_chat_work-Safe sock direction message s u h is_session chats
            (subst (λ status. IsAdmissible status direction message) chats can))
    ]

get_status-none :
    (sock : Socket) (s : State) → lookup sock s.user_map ≡ none → get_status sock s ≡ status_logout
unfolding get_status
get_status-none sock s e = rw e

get_status-some :
    (sock : Socket) (s : State) (u : Session)
    → lookup sock s.user_map ≡ some u
    → get_status sock s ≡ u.status
unfolding get_status
get_status-some sock s u e = rw e

-- A request that keeps to the limits of its client's status, in a state where sessions and
-- rooms agree, the driver answers every query and the machine lets ten bytes be read behind
-- each message that is sent, does not run into undefined behaviour: no end iterator is read, no
-- array is left but for those ten bytes, no entry of the function table used that is not set.
-- Where it returns, sessions and rooms agree again. FRIEND_GO in the lobby and FILE_SEND in a
-- room are outside the limits.
pub call_func_pointer-Safe :
    (sock : Socket) (direction : Direction) (message : Text) (s : State)
    → IsSafe s
    → IsAdmissible (get_status sock s) direction message
    → Safe (call_func_pointer sock (get_status sock s) direction message s)
unfolding call_func_pointer
call_func_pointer-Safe sock direction message s h can =
    elim (Option-cases (lookup sock s.user_map)) [
      | inl e ↦
          let status = get_status-none sock s e in
          rw status (
            status_logout_work-Safe sock direction message s h e
              (subst (λ status. IsAdmissible status direction message) status can))
      | inr (u, e) ↦
          let status = get_status-some sock s u e in
          rw status (
            session_request-Safe sock direction message s u h e
              (subst (λ status. IsAdmissible status direction message) status can))
    ]
