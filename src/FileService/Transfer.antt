-- ===== src/FileService/Transfer.antt =====
-- Files in datagrams: what `SendToRoomFile` sends and what `RecvFile` makes of it.
use cpp_iocp_server.Prelude.{
  refl, take_all, lookup, some, true, map, ℕ, zero, suc, ◌≤◌, ◌<◌, ◌≡◌, ap, ◌∙◌, false, ◌||◌, List,
  [], ◌∷◌, ◌++◌, arith, length, length-take-le, take-drop, length-drop, length-take, append-nil,
  append_assoc, ltb, ◌==◌, nat_eq,
}
use cpp_iocp_server.Text.{Text, strncpy}
use cpp_iocp_server.Outcome.{returns, c_str_ok}
use cpp_iocp_server.Common.{Socket, buf_size, file_buf_size}
use cpp_iocp_server.State.{State}
use cpp_iocp_server.FileService.{
  next_block, behind_block, blocks, receive, send_datagrams, send_to_room_file,
}

next_block-le : (s : Text) → length (next_block s) ≤ file_buf_size
unfolding next_block
next_block-le s = length-take-le file_buf_size s

next_block-pos : (s : Text) → 0 < length s → 0 < length (next_block s)
unfolding next_block
next_block-pos s h = omega (arith, length-take file_buf_size s)

behind_block-lt : (s : Text) → 0 < length s → length (behind_block s) < length s
unfolding behind_block
behind_block-lt s h = omega (arith, length-drop file_buf_size s)

next_behind : (s : Text) → next_block s ++ behind_block s ≡ s
unfolding next_block behind_block
next_behind s = take-drop file_buf_size s

goes_on :
    (d : Text)
    → 0 < length d
    → length d ≤ file_buf_size
    → length d == 0 || ltb file_buf_size (length d) ≡ false
goes_on d some_bytes fits = ground arith

-- The blocks of a file, received after `got` and before other datagrams, complete the file, and
-- the other datagrams are left. The fuel must be more than the bytes of the file.
pub receive-blocks :
    (fuel : ℕ) (got content : Text) (rest : List Text)
    → length content < fuel
    → receive got (blocks fuel content ++ rest) ≡ returns (got ++ content) rest
unfolding receive blocks
receive-blocks zero got content rest enough = absurd (omega arith)
receive-blocks (suc fuel) got [] rest enough = rw append-nil
receive-blocks (suc fuel) got (c ∷ content) rest enough =
    let some_bytes : 0 < length (c ∷ content) = omega arith in
    let shorter = behind_block-lt (c ∷ content) some_bytes in
    rw
      (goes_on (next_block (c ∷ content)) (next_block-pos (c ∷ content) some_bytes)
        (next_block-le (c ∷ content)))
      (receive-blocks fuel (got ++ next_block (c ∷ content)) (behind_block (c ∷ content)) rest
          (omega arith)
        ∙ ap (λ all. returns all rest)
            (append_assoc got (next_block (c ∷ content)) (behind_block (c ∷ content))
              ∙ ap (λ s. got ++ s) (next_behind (c ∷ content))))

-- A file in datagrams to one address: its name, and what is read from here on.
abbrev pub datagrams_to : Text → Text → Text → List (Text × Text)
datagrams_to name content ip = map (λ p. (ip, p)) (name ∷ blocks (suc (length content)) content)

send_one_file :
    (content name : Text) (sock : Socket) (socks : List Socket) (ip : Text) (s : State)
    → length name < 4096
    → lookup sock s.live_socket ≡ some ip
    → s.host.is_reachable ip ≡ true
    → send_to_room_file content name (sock ∷ socks) s
      ≡ send_to_room_file [] name socks
          (send_datagrams ip (name ∷ blocks (suc (length content)) content) s)
unfolding send_to_room_file
send_one_file content name sock socks ip s short live reachable =
    let whole : strncpy buf_size name ≡ name = take_all 4096 name (omega arith) in
    rw (live, reachable, whole, c_str_ok 4096 name s short) refl

nobody_left : (name : Text) (s : State) → send_to_room_file [] name [] s ≡ returns tt s
unfolding send_to_room_file
nobody_left name s = refl

-- Of two members of a room whose addresses are known and can be reached, the first is sent the
-- file's name and its blocks, and the second the name and an empty file. The name must have
-- less than 4096 bytes.
pub send_to_room_file-two :
    (content name : Text) (first second : Socket) (ip1 ip2 : Text) (s : State)
    → length name < 4096
    → lookup first s.live_socket ≡ some ip1
    → lookup second s.live_socket ≡ some ip2
    → s.host.is_reachable ip1 ≡ true
    → s.host.is_reachable ip2 ≡ true
    → send_to_room_file content name (first ∷ second ∷ []) s
      ≡ returns tt (record s {
        host = record s.host {
          datagrams =
              (s.host.datagrams ++ datagrams_to name content ip1) ++ (ip2, name) ∷ (ip2, []) ∷ [];
        };
      })
unfolding blocks
send_to_room_file-two content name first second ip1 ip2 s short live1 live2 reach1 reach2 =
    send_one_file content name first (second ∷ []) ip1 s short live1 reach1
    ∙ send_one_file [] name second [] ip2
        (send_datagrams ip1 (name ∷ blocks (suc (length content)) content) s) short live2 reach2
    ∙ nobody_left name _
