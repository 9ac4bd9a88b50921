-- ===== src/Threads/Ids/Keeps.antt =====
-- Sections that leave `idSet` and the ids of the sessions as they are.
pub mod Changes
use cpp_iocp_server.Prelude.{
  ℕ, ◌+◌, ◌≡◌, refl, ◌∙◌, arith, Bool, true, false, Option, none, some, List, [], ◌∷◌, ◌++◌, lookup,
  insert, nat_eq, text_eq, if◌then◌else◌, Bool-cases, Option-cases, inl, inr, length, ltb, leb,
}
use cpp_iocp_server.Text.{Text, utf8}
use cpp_iocp_server.Outcome.{
  Outcome, returns, exits, undefined, hangs, M, Whenever, continue, Spec-continue, Spec-mono,
  modify, gets, deref, c_str, fault,
}
use cpp_iocp_server.Common.{name_size, buf_size, Socket, ClientStatus, SendTo}
use cpp_iocp_server.Odbc.{Database}
use cpp_iocp_server.Dao.{insert_files}
use cpp_iocp_server.Vo.{RelationVo}
use cpp_iocp_server.State.{Session, State, with_database, dao}
use cpp_iocp_server.Iocp.{block_size, send_to_one_msg, send_to_room_msg}
use cpp_iocp_server.Iocp.Packet.{packet_length}
use cpp_iocp_server.FileService.{
  file_vo, received, recv_file, save_file, with_inbox, next_datagram, receive, open_for_writing,
  write_file, bytes_before_zero,
}
use cpp_iocp_server.Business.Basics.{
  session, name_of, room_of, set_session, insert_send_queue, reply,
}
use cpp_iocp_server.Business.Account.{fields_of, call_cnt}
use cpp_iocp_server.Business.Room.{
  in_room, in_lobby, push_member, say_goodbye, drop_if_empty, drop_empty_room,
}
use cpp_iocp_server.Business.Info.{user_lines, place_of, find_named}
use cpp_iocp_server.Business.Friend.{friend_lines, friend_place}
use cpp_iocp_server.Business.Dispatch.{exit_process}
use cpp_iocp_server.Threads.Handlers.{own_name, own_id, list_lock, open_if_new, open_room}
use cpp_iocp_server.Threads.Requests.{copied_name, enter_named}
use cpp_iocp_server.Threads.Dispatch.{own_room}
use cpp_iocp_server.Threads.Ids.{user_ids}

abbrev pub Same : State → State → Type 0
Same s s' = (s'.id_set ≡ s.id_set) × (user_ids s'.user_map ≡ user_ids s.user_map)

-- Where the code returns, it has kept them.
pub record Keeps {A : Type 0} (m : M State A) : Type 0 where
  pub at : (s : State) → Whenever (λ _ s'. Same s s') (m s)

-- What only reads, or changes other parts of the state, keeps them at once.
pub continue-Keeps :
    {A B : Type 0} (m : M State A) (f : A → M State B)
    → Keeps m
    → ((a : A) → Keeps (f a))
    → Keeps (λ s. continue (m s) f)
continue-Keeps m f h k = record {
  at = λ s.
      Spec-continue Unit Unit Unit (λ _ s1. Same s s1) (λ _ s'. Same s s') (m s) f (h.at s)
        (λ a s1 p.
          Spec-mono Unit Unit Unit (λ _ s'. Same s1 s') (λ _ s'. Same s s') (f a s1) ((k a).at s1)
            (λ b s' q. (q.0 ∙ p.0, q.1 ∙ p.1)));
}

-- A section that is another one at each state.
pub each-Keeps :
    {A : Type 0} (m : State → M State A) → ((s : State) → Keeps (m s)) → Keeps (λ s. m s s)
each-Keeps m h = record { at = λ s. (h s).at s }

pub if-Keeps :
    {A : Type 0} (b : Bool) (m n : M State A) → Keeps m → Keeps n → Keeps (if b then m else n)
if-Keeps true m n h k = h
if-Keeps false m n h k = k

pub if_at-Keeps :
    {A : Type 0} (b : State → Bool) (m n : M State A)
    → Keeps m
    → Keeps n
    → Keeps (λ s. if b s then m s else n s)
if_at-Keeps b m n h k = record {
  at = λ s. elim (Bool-cases (b s)) [ inl e ↦ rw e (h.at s) | inr e ↦ rw e (k.at s) ];
}

pub returns-Keeps : {A : Type 0} (a : A) → Keeps (returns a)
returns-Keeps a = record { at = λ s. (refl, refl) }

pub gets-Keeps : {A : Type 0} (g : State → A) → Keeps (gets g)
gets-Keeps g = record { at = λ s. (refl, refl) }

pub deref-Keeps : {A : Type 0} (o : Option A) → Keeps (deref o)
deref-Keeps none = record { at = λ s. tt }
deref-Keeps (some a) = record { at = λ s. (refl, refl) }

pub c_str-Keeps : (n : ℕ) (buf : Text) → Keeps (c_str n buf)
c_str-Keeps n buf = record {
  at = λ s. elim (Bool-cases (ltb (length buf) n)) [ inl e ↦ rw e (refl, refl) | inr e ↦ rw e tt ];
}

pub exit_process-Keeps : Keeps exit_process
exit_process-Keeps = record { at = λ s. tt }

pub fault-Keeps : (A : Type 0) → Keeps {A = A} fault
fault-Keeps A = record { at = λ s. tt }

pub dao-Keeps : {A : Type 0} (m : M Database A) → Keeps (dao m)
dao-Keeps {A} m = record { at = λ s. by_result s (m s.database) }
  where
    by_result :
        (s : State) (r : Outcome Database A) → Whenever (λ _ s'. Same s s') (with_database s r)
    by_result s (returns a db) = (refl, refl)
    by_result s exits = tt
    by_result s undefined = tt
    by_result s hangs = tt

pub session-Keeps : (sock : Socket) → Keeps (session sock)
unfolding session
session-Keeps sock = each-Keeps _ (λ s. deref-Keeps (lookup sock s.user_map))

pub ruleset reads = (
  continue-Keeps, if-Keeps, returns-Keeps, gets-Keeps, deref-Keeps, c_str-Keeps, session-Keeps,
  fault-Keeps,
)

pub own_name-Keeps : (sock : Socket) → Keeps (own_name sock)
unfolding own_name
own_name-Keeps sock = search reads depth 20

pub own_id-Keeps : (sock : Socket) → Keeps (own_id sock)
unfolding own_id
own_id-Keeps sock = search reads depth 20

pub room_of-Keeps : (sock : Socket) → Keeps (room_of sock)
unfolding room_of
room_of-Keeps sock = search reads depth 20

pub name_of-Keeps : (sock : Socket) → Keeps (name_of sock)
unfolding name_of
name_of-Keeps sock = search reads depth 20

pub copied_name-Keeps :
    (sock : Socket) (users : List (Socket × Session)) → Keeps (copied_name sock users)
unfolding copied_name
copied_name-Keeps sock users =
    continue-Keeps (deref (lookup sock users)) _ (deref-Keeps (lookup sock users))
      (λ u. c_str-Keeps name_size u.user_name)

pub list_lock-Keeps : (room : Text) → Keeps (list_lock room)
unfolding list_lock
list_lock-Keeps room = each-Keeps _ (λ s. deref-Keeps (lookup room s.room_map))

pub own_room-Keeps : (sock : Socket) → Keeps (own_room sock)
unfolding own_room
own_room-Keeps sock =
    continue-Keeps (room_of sock) _ (room_of-Keeps sock) (λ room. record { at = λ s. (refl, refl) })

pub fields_of-Keeps : (n : ℕ) (message : Text) → Keeps (fields_of n message)
unfolding fields_of
fields_of-Keeps n message = search reads depth 20

place_of-Keeps : (u : Session) → Keeps (place_of u)
place_of-Keeps u = search reads depth 20

pub user_lines-Keeps : (str : Text) (users : List (Socket × Session)) → Keeps (user_lines str users)
unfolding user_lines
user_lines-Keeps str [] = returns-Keeps str
user_lines-Keeps str ((sock, u) ∷ users) =
    if-Keeps (leb 4000 (length str)) _ _ (returns-Keeps str) (
      continue-Keeps (c_str name_size u.user_name) _ (c_str-Keeps name_size u.user_name)
        λ name. continue-Keeps (place_of u) _ (place_of-Keeps u) λ place. user_lines-Keeps _ users)

friend_place-Keeps : (found : Option (Socket × Session)) → Keeps (friend_place found)
friend_place-Keeps none = search reads depth 20
friend_place-Keeps (some (other, u)) = search reads depth 20

pub friend_lines-Keeps :
    (users : List (Socket × Session)) (vec : List RelationVo) → Keeps (friend_lines users vec)
unfolding friend_lines
friend_lines-Keeps users [] = returns-Keeps _
friend_lines-Keeps users (vo ∷ vec) =
    continue-Keeps (c_str 20 vo.nick_name) _ (c_str-Keeps 20 vo.nick_name) λ nick_name.
      continue-Keeps (friend_place (find_named nick_name users)) _
        (friend_place-Keeps (find_named nick_name users))
        λ place.
          continue-Keeps (friend_lines users vec) _ (friend_lines-Keeps users vec)
            λ rest. search reads depth 20
