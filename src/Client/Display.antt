-- ===== src/Client/Display.antt =====
-- `RecvMsgThread`: the messages of the server on the console.
pub mod Messages
use cpp_iocp_server.Prelude.{
  ℕ, zero, suc, ◌+◌, Bool, true, false, not, ◌&&◌, ◌||◌, Option, none, some, List, [], ◌∷◌, ◌++◌,
  min, if◌then◌else◌, ◌==◌, nat_eq,
}
use cpp_iocp_server.Text.{Text}
use cpp_iocp_server.Outcome.{
  Outcome, returns, exits, undefined, hangs, M, pure, fault, modify, ◌>>=◌, ◌>>◌,
}
use cpp_iocp_server.Common.{
  buf_size, status_logout, status_waiting, status_chatting, status_whisper, status_number,
}
use cpp_iocp_server.Server.Reading.{Operation, recv, send, recv_more, PerIo, Remain, remain, more}
use cpp_iocp_server.Client.{Client, Shown, line, cleared}
use cpp_iocp_server.Client.Reading.{
  client_packet_reading, Received, client_data_copy, client_recv, client_recv_more,
}

-- The console is cleared when the status changes. A whisper changes nothing else; other statuses are
-- passed over.
unfoldable pub show : Received → Client → Client
show r c =
    if r.status == status_number status_logout
      || r.status == status_number status_waiting
      || r.status == status_number status_chatting
    then record c {
      status = r.status;
      screen = c.screen ++ (if c.status == r.status then [] else cleared ∷ []) ++ line r.msg ∷ [];
    }
    else if r.status == status_number status_whisper
    then record c { screen = c.screen ++ line r.msg ∷ [] }
    else c

-- The messages of one receive, and whether more is to be received for the last.
pub record Batch : Type 0 where
  pub messages : List Received
  pub recv_more : Bool

abbrev pub after_read : (ℕ → M PerIo Batch) → Remain → M PerIo Batch
after_read again more = pure (record { messages = []; recv_more = true })
after_read again (remain zero) = do
  r ← client_data_copy
  pure (record { messages = r ∷ []; recv_more = false })
after_read again (remain (suc n)) = do
  r ← client_data_copy
  rest ← again (suc n)
  pure (record rest { messages = r ∷ rest.messages })

-- The `while (1)` over one receive; `hangs` when the fuel is used up.
unfoldable pub client_loop : ℕ → ℕ → M PerIo Batch
unfolding client_packet_reading client_data_copy
client_loop zero remain_byte = λ io. hangs
client_loop (suc fuel) remain_byte =
    client_packet_reading remain_byte >>= after_read (client_loop fuel)

unfoldable pub show_all : List Received → Client → Client
unfolding show
show_all [] c = c
show_all (r ∷ rs) c = show_all rs (show r c)

abbrev next_receive : PerIo → Bool → PerIo
next_receive io true = client_recv_more io
next_receive io false = client_recv io

abbrev pub shown_all : Outcome PerIo Batch → M Client (Option PerIo)
shown_all (returns b io) = do
  modify (show_all b.messages)
  pure (some (next_receive io b.recv_more))
shown_all exits = λ c. exits
shown_all undefined = λ c. undefined
shown_all hangs = λ c. hangs

abbrev pub client_completed : Operation → M Client (Option PerIo) → M Client (Option PerIo)
client_completed recv m = m
client_completed send m = pure none
client_completed recv_more m = m

-- A round of `RecvMsgThread`: a completed operation with its number of bytes, or a failed one. The
-- client ends when the connection fails and no byte has come. The result is what the next receive
-- reads into. A receive of no bytes that does not fail is read like any other. The number comes as four
-- bytes into the two of `bytesTrans`, and goes over what stands behind it.
unfoldable pub recv_msg_round : Bool → ℕ → PerIo → M Client (Option PerIo)
unfolding client_loop show_all
recv_msg_round success bytes_trans io c =
    if not c.is_padded
    then fault c
    else if bytes_trans == 0 && not success
    then exits
    else client_completed io.server_mode
        (shown_all (client_loop (2 + min bytes_trans buf_size) (min bytes_trans buf_size) io)) c
