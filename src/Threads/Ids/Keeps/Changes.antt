-- ===== src/Threads/Ids/Keeps/Changes.antt =====
-- Sections that change other parts of the state.
use cpp_iocp_server.Prelude.{
  ℕ, ◌+◌, ◌≡◌, refl, arith, Option, none, some, List, [], ◌∷◌, ◌++◌, lookup, insert, nat_eq,
  text_eq, Option-cases, inl, inr, length, ltb, ◌||◌,
}
use cpp_iocp_server.Text.{Text, utf8}
use cpp_iocp_server.Outcome.{
  Outcome, returns, exits, undefined, hangs, M, Whenever, continue, modify, c_str,
}
use cpp_iocp_server.Common.{buf_size, Socket, ClientStatus, SendTo}
use cpp_iocp_server.Dao.{insert_files}
use cpp_iocp_server.State.{Session, State, dao}
use cpp_iocp_server.Iocp.{block_size, send_to_one_msg, send_to_room_msg}
use cpp_iocp_server.Iocp.Packet.{packet_length}
use cpp_iocp_server.FileService.{
  file_vo, received, recv_file, save_file, with_inbox, next_datagram, receive, open_for_writing,
  write_file, bytes_before_zero,
}
use cpp_iocp_server.Business.Basics.{session, set_session, insert_send_queue, reply}
use cpp_iocp_server.Business.Account.{call_cnt}
use cpp_iocp_server.Business.Room.{
  in_room, in_lobby, push_member, say_goodbye, drop_if_empty, drop_empty_room,
}
use cpp_iocp_server.Threads.Handlers.{open_if_new, open_room}
use cpp_iocp_server.Threads.Requests.{enter_named}
use cpp_iocp_server.Threads.Ids.{user_ids}
use cpp_iocp_server.Threads.Ids.Keeps.{
  Same, Keeps, continue-Keeps, each-Keeps, if_at-Keeps, returns-Keeps, deref-Keeps, c_str-Keeps,
  fault-Keeps, dao-Keeps, reads, name_of-Keeps,
}

pub insert_send_queue-Keeps :
    (direction : SendTo) (msg room : Text) (sock : Socket) (status : ClientStatus)
    → Keeps (insert_send_queue direction msg room sock status)
unfolding insert_send_queue
insert_send_queue-Keeps direction msg room sock status = record { at = λ s. (refl, refl) }

pub reply-Keeps :
    (sock : Socket) (msg : Text) (status : ClientStatus) → Keeps (reply sock msg status)
unfolding reply
reply-Keeps sock msg status = record { at = λ s. (refl, refl) }

pub push_member-Keeps : (room : Text) (sock : Socket) → Keeps (push_member room sock)
unfolding push_member
push_member-Keeps room sock = each-Keeps _ λ s.
    continue-Keeps _ _ (deref-Keeps (lookup room s.room_map))
      λ socks. record { at = λ s'. (refl, refl) }

send_to_one_msg-Keeps :
    (msg : Text) (sock : Socket) (status : ClientStatus) → Keeps (send_to_one_msg msg sock status)
unfolding send_to_one_msg
send_to_one_msg-Keeps msg sock status =
    if_at-Keeps
      (λ s.
        ltb (s.host.readable msg) (packet_length msg) || ltb block_size (10 + packet_length msg))
      _ _ (fault-Keeps Unit) (record { at = λ s. (refl, refl) })

send_to_room_msg-Keeps :
    (msg : Text) (socks : List Socket) (status : ClientStatus)
    → Keeps (send_to_room_msg msg socks status)
unfolding send_to_room_msg
send_to_room_msg-Keeps msg [] status = returns-Keeps _
send_to_room_msg-Keeps msg (sock ∷ socks) status =
    continue-Keeps _ _ (send_to_one_msg-Keeps msg sock status)
      (λ _. send_to_room_msg-Keeps msg socks status)

pub say_goodbye-Keeps : (sock : Socket) (name room : Text) → Keeps (say_goodbye sock name room)
unfolding say_goodbye
say_goodbye-Keeps sock name room = each-Keeps _ λ s.
    continue-Keeps _ _ (deref-Keeps (lookup room s.room_map)) λ socks.
      continue-Keeps _ _ (send_to_room_msg-Keeps _ socks _) λ _. record { at = λ s'. (refl, refl) }

drop_if_empty-Same :
    (room : Text) (found : Option (List Socket)) (s : State)
    → Same s (record s { tables = drop_if_empty room found s.tables })
drop_if_empty-Same room none s = (refl, refl)
drop_if_empty-Same room (some []) s = (refl, refl)
drop_if_empty-Same room (some (sock ∷ socks)) s = (refl, refl)

pub drop_empty_room-Keeps : (room : Text) → Keeps (drop_empty_room room)
unfolding drop_empty_room
drop_empty_room-Keeps room = record { at = λ s. drop_if_empty-Same room (lookup room s.room_map) s }

open_if_new-Same :
    (room : Text) (sock : Socket) (found : Option (List Socket)) (s : State)
    → Whenever (λ _ s'. Same s s') (open_if_new room sock found s)
open_if_new-Same room sock none s = (refl, refl)
open_if_new-Same room sock (some socks) s = (refl, refl)

pub open_room-Keeps : (room : Text) (sock : Socket) → Keeps (open_room room sock)
unfolding open_room
open_room-Keeps room sock = record {
  at = λ s. open_if_new-Same room sock (lookup room s.room_map) s;
}

-- An entry is replaced by one with the same id.
user_ids-insert :
    (sock : Socket) (u v : Session) (users : List (Socket × Session))
    → lookup sock users ≡ some u
    → v.user_id ≡ u.user_id
    → user_ids (insert sock v users) ≡ user_ids users
unfolding lookup insert
user_ids-insert sock u v [] e same = cc
user_ids-insert sock u v ((j, w) ∷ users) e same = ground (arith, user_ids-insert sock u v users)

set_session-Keeps :
    (sock : Socket) (f : Session → Session)
    → ((u : Session) → (f u).user_id ≡ u.user_id)
    → Keeps (set_session sock f)
unfolding set_session session
set_session-Keeps sock f same = record {
  at = λ s. elim (Option-cases (lookup sock s.user_map)) [
    | inl e ↦ rw e tt
    | inr (u, e) ↦ rw e (refl, user_ids-insert sock u (f u) s.user_map e (same u))
  ];
}

pub in_room-Keeps : (sock : Socket) (room : Text) → Keeps (set_session sock (in_room room))
in_room-Keeps sock room = set_session-Keeps sock (in_room room) (λ u. refl)

pub in_lobby-Keeps : (sock : Socket) → Keeps (set_session sock in_lobby)
in_lobby-Keeps sock = set_session-Keeps sock in_lobby (λ u. refl)

pub enter_named-Keeps : (sock : Socket) (room : Text) → Keeps (enter_named sock room)
unfolding enter_named
enter_named-Keeps sock room = continue-Keeps _ _ (in_room-Keeps sock room) (λ _. name_of-Keeps sock)

with_inbox-Keeps : {A : Type 0} (m : M (List Text) A) → Keeps (with_inbox m)
with_inbox-Keeps {A} m = record { at = λ s. by_result s (m s.host.inbox) }
  where
    by_result :
        (s : State) (r : Outcome (List Text) A) → Whenever (λ _ s'. Same s s') (received s r)
    by_result s (returns a db) = (refl, refl)
    by_result s exits = tt
    by_result s undefined = tt
    by_result s hangs = tt

write-Keeps : (path content : Text) → Keeps (modify (write_file path content))
write-Keeps path content = record { at = λ s. (refl, refl) }

save_file-Keeps : (username name path : Text) → Keeps (save_file username name path)
unfolding save_file
save_file-Keeps username name path =
    continue-Keeps (with_inbox (receive [])) _ (with_inbox-Keeps (receive [])) λ content.
      continue-Keeps (modify (write_file path content))
        (λ _ s.
          continue (dao (insert_files (file_vo username name (length content))) s)
            (λ _. returns path))
        (write-Keeps path content)
        (λ _.
          continue-Keeps (dao (insert_files (file_vo username name (length content))))
            (λ _. returns path) (dao-Keeps (insert_files (file_vo username name (length content))))
            (λ _. returns-Keeps path))

pub recv_file-Keeps : (sock : Socket) (username : Text) → Keeps (recv_file sock username)
unfolding recv_file
recv_file-Keeps sock username =
    continue-Keeps (with_inbox next_datagram) _ (with_inbox-Keeps next_datagram) λ datagram.
      continue-Keeps (c_str buf_size datagram) _ (c_str-Keeps buf_size datagram) λ _.
        continue-Keeps (c_str buf_size (utf8 "Downloads/" ++ bytes_before_zero datagram)) _
          (c_str-Keeps buf_size (utf8 "Downloads/" ++ bytes_before_zero datagram))
          λ path.
            continue-Keeps (open_for_writing path) _
              (if_at-Keeps (λ s. s.host.is_writable path) _ _ (returns-Keeps tt) (fault-Keeps Unit))
              λ _. save_file-Keeps username (bytes_before_zero datagram) path

pub call_cnt-Keeps : (sock : Socket) (cnt : ℕ) → Keeps (call_cnt sock cnt)
unfolding call_cnt
call_cnt-Keeps sock cnt = search (reads, reply-Keeps) depth 20
