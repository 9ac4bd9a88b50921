-- ===== src/Client/Bots/Receiving.antt =====
-- `Recv`, `RecvMore`, `PacketReading`, `DataCopy` and `RecvMsgThread` of BClient.cpp: how the status
-- of each user follows what the server sends. The `try` around `PacketReading` catches nothing, since
-- nothing in it throws; what is inside it is what Client.cpp has.
pub mod Following
use cpp_iocp_server.Prelude.{
  ℕ, zero, suc, ◌+◌, Bool, true, false, not, ◌&&◌, Option, none, some, List, [], ◌∷◌, min, drop,
  ltb, replicate, if◌then◌else◌, ◌==◌, nat_eq,
}
use cpp_iocp_server.Text.{Text}
use cpp_iocp_server.Outcome.{Outcome, returns, exits, undefined, hangs, M, pure, fault, ◌>>=◌, ◌>>◌}
use cpp_iocp_server.Common.{Socket, buf_size}
use cpp_iocp_server.Server.Reading.{
  Operation, recv, send, recv_more, PerIo, Remain, remain, more, slice, read32,
}
use cpp_iocp_server.Client.Reading.{client_packet_reading, into_client_block}
use cpp_iocp_server.Client.Bots.{Bots, follow_status}

unfoldable pub bot_packet_reading : ℕ → M PerIo Remain
unfolding client_packet_reading
bot_packet_reading = client_packet_reading

-- `DataCopy`: the message is copied, the status returned. Nobody reads the message.
unfoldable pub bot_data_copy : M PerIo ℕ
bot_data_copy = do
  io ← λ io. returns io io
  let copied = min io.body_size buf_size
  if ltb buf_size (10 + copied) then fault else (do
    into_client_block 0 (slice 10 (10 + copied) io.recv_buffer) io.block
    pure (read32 (drop 2 io.recv_buffer)))

-- The statuses of one receive, and whether more is to be received for the last.
pub record Statuses : Type 0 where
  pub told : List ℕ
  pub recv_more : Bool

abbrev pub after_status : (ℕ → M PerIo Statuses) → Remain → M PerIo Statuses
after_status again more = pure (record { told = []; recv_more = true })
after_status again (remain zero) = do
  status ← bot_data_copy
  pure (record { told = status ∷ []; recv_more = false })
after_status again (remain (suc n)) = do
  status ← bot_data_copy
  rest ← again (suc n)
  pure (record rest { told = status ∷ rest.told })

-- The `while (1)` over one receive; `hangs` when the fuel is used up.
unfoldable pub bot_loop : ℕ → ℕ → M PerIo Statuses
unfolding bot_packet_reading bot_data_copy
bot_loop zero remain_byte = λ io. hangs
bot_loop (suc fuel) remain_byte = bot_packet_reading remain_byte >>= after_status (bot_loop fuel)

unfoldable pub follow_all : Socket → List ℕ → M Bots Unit
unfolding follow_status
follow_all sock [] = pure tt
follow_all sock (status ∷ rest) = do follow_status sock status; follow_all sock rest

-- `Recv` and `RecvMore`
abbrev pub bot_recv : PerIo → PerIo
bot_recv io = record io { server_mode = recv; recv_byte = 0; tot_byte = 0 }

abbrev pub bot_recv_more : PerIo → PerIo
bot_recv_more io = record io { server_mode = recv_more; buffer = replicate buf_size 0 }

abbrev next_receive : PerIo → Bool → PerIo
next_receive io true = bot_recv_more io
next_receive io false = bot_recv io

abbrev pub followed_all : Socket → Outcome PerIo Statuses → M Bots (Option PerIo)
followed_all sock (returns r io) = do
  follow_all sock r.told
  pure (some (next_receive io r.recv_more))
followed_all sock exits = λ b. exits
followed_all sock undefined = λ b. undefined
followed_all sock hangs = λ b. hangs

abbrev pub bot_completed : Operation → M Bots (Option PerIo) → M Bots (Option PerIo)
bot_completed recv m = m
bot_completed send m = pure none
bot_completed recv_more m = m

-- A round of `RecvMsgThread`: a completed operation of a socket with its number of bytes, or a failed
-- one. All bots end when one connection fails and no byte has come. The number comes as four bytes into
-- the two of `bytesTrans`, and goes over what stands behind it.
unfoldable pub bot_round : Bool → ℕ → Socket → PerIo → M Bots (Option PerIo)
unfolding bot_loop follow_all
bot_round success bytes_trans sock io b =
    if not b.is_padded
    then fault b
    else if bytes_trans == 0 && not success
    then exits
    else bot_completed io.server_mode
        (followed_all sock (bot_loop (2 + min bytes_trans buf_size) (min bytes_trans buf_size) io))
        b
