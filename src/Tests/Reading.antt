-- ===== src/Tests/Reading.antt =====
-- Bytes on the small server: packets that arrive, jobs that are worked off, files and fields.
use cpp_iocp_server.Prelude.{
  ◌+◌, ◌%◌, ◌^◌, ◌≤◌, ◌≡◌, refl, true, false, some, [], ◌∷◌, ◌++◌, map, arith, length, lookup,
  nat_eq, contains, ◌-◌, if◌then◌else◌, ltb,
}
use cpp_iocp_server.Text.Decimal.{decimal, read_from, read-decimal}
use cpp_iocp_server.Outcome.{returns, hangs, Post}
use cpp_iocp_server.Common.{buf_size, status_logout, login_before_message}
use cpp_iocp_server.Iocp.Packet.{le16, le32}
use cpp_iocp_server.Iocp.{send_to_one_msg}
use cpp_iocp_server.Iocp.Sending.{room_packets}
use cpp_iocp_server.Business.Safety.Rules.{IsSafe}
use cpp_iocp_server.Server.Reading.{
  recv, recv_more, PerIo, recv_loop, packet_reading, remain, more, begin_recv,
}
use cpp_iocp_server.Server.Reading.Split.{packet_reading-recv_more}
use cpp_iocp_server.Server.Reading.Empty.{recv_loop-empty}
use cpp_iocp_server.Server.Reading.Framing.{Request, request_packet, IsRequest, job}
use cpp_iocp_server.Server.Reading.Batch.{packets_of, received, recv_loop-packets_of}
use cpp_iocp_server.Server.Work.{
  Program, recv_thread, work_all, send_thread, insert_live_socket, accept_client, greeting,
}
use cpp_iocp_server.Server.Work.Receiving.{after, recv_thread-packets_of}
use cpp_iocp_server.Server.Work.Runs.{accepts, stop, step, send_thread-Run}
use cpp_iocp_server.Server.Work.Turns.{IsTame, work_all-Safe}
use cpp_iocp_server.Tests.Scene.{lobby, lobby-IsConsistent, server, server-IsSafe}

-- Two requests, and the buffer of a receive that brings both.
abbrev hi : Request
hi = record { status = 3; direction = 0; msg = 72 ∷ 105 ∷ [] }

abbrev info : Request
info = record { status = 2; direction = 7; msg = [] }

hi-IsRequest : IsRequest hi
unfolding contains
hi-IsRequest = record {
  fits = omega arith;
  no_zero = refl;
  status = omega arith;
  direction = omega arith;
}

info-IsRequest : IsRequest info
unfolding contains
info-IsRequest = record {
  fits = omega arith;
  no_zero = refl;
  status = omega arith;
  direction = omega arith;
}

abbrev io : PerIo
io = record {
  buffer = packets_of (hi ∷ info ∷ []) ++ 9 ∷ 9 ∷ [];
  server_mode = recv;
  recv_byte = 0;
  tot_byte = 0;
  body_size = 0;
  recv_buffer = [];
  block = [];
}

recv_loop-packets_of_example :
    received (recv_loop 2 7 (length (packets_of (hi ∷ info ∷ []))) io)
    ≡ some (record { jobs = map (job 7) (hi ∷ info ∷ []); recv_more = false })
recv_loop-packets_of_example =
    recv_loop-packets_of 7 hi (info ∷ []) 2 io (9 ∷ 9 ∷ []) hi-IsRequest (info-IsRequest, tt)
      (omega arith) refl refl

abbrev program : Program
program = record { state = server lobby; job_queue = []; packet_cnt = 0; send_jobs = [] }

two_fit : length (packets_of (hi ∷ info ∷ [])) ≤ buf_size
unfolding packets_of request_packet le16 le32
two_fit = omega arith

recv_thread-packets_of_example :
    after (recv_thread true 7 (length (packets_of (hi ∷ info ∷ []))) (some io) true program)
    ≡ some (record program {
      packet_cnt = (0 + 2) % 2 ^ 32;
      job_queue = [] ++ map (job 7) (hi ∷ info ∷ []);
    })
recv_thread-packets_of_example =
    recv_thread-packets_of 7 true hi (info ∷ []) io (9 ∷ 9 ∷ []) program hi-IsRequest
      (info-IsRequest, tt) two_fit refl refl

info-IsTame : IsTame (job 7 info)
info-IsTame = record {
  at_logout = record {
    short = omega arith;
    few_to_make = λ e. absurd (omega arith);
    fits_to_make = λ e. absurd (omega arith);
    few_to_enter = λ e. absurd (omega arith);
    fits_to_enter = λ e. absurd (omega arith);
  };
  waits = record {
    short = omega arith;
    name_fits = λ e. omega arith;
    few = λ e. absurd (omega arith);
    not_friend_go = λ e. omega arith;
  };
  chats = record { short = omega arith; not_file_send = λ e. omega arith };
  not_count = λ e. omega arith;
}

work_all-Safe_example : Post (λ _ p. IsSafe p.state) (work_all (job 7 info ∷ []) program)
work_all-Safe_example =
    work_all-Safe (job 7 info ∷ []) program (info-IsTame, tt)
      (server-IsSafe lobby lobby-IsConsistent)

-- A client that is there is accepted again.
abbrev greeted : Program
greeted = record program {
  state = record (server lobby) { wire = room_packets greeting status_logout (7 ∷ []) };
}

accepted : accept_client 7 (49 ∷ []) io program ≡ returns (begin_recv io) greeted
unfolding accept_client insert_live_socket lookup send_to_one_msg greeting login_before_message
accepted = refl

send_thread-Run_example : send_thread greeted ≡ hangs
send_thread-Run_example =
    send_thread-Run program greeted
      (step program greeted greeted (accepts 7 (49 ∷ []) io (begin_recv io) accepted)
        (stop greeted))
      refl

read-decimal_example : read_from 0 (decimal 120) ≡ 120
read-decimal_example = read-decimal 120

-- Four bytes of a packet of seven have come before, three come now.
abbrev half : PerIo
half = record io { server_mode = recv_more; body_size = 7; recv_byte = 4 }

packet_reading-recv_more_example :
    (io' : PerIo) × (packet_reading 3 half ≡ returns (if ltb 3 4 then more else remain (3 - 4)) io')
packet_reading-recv_more_example =
    packet_reading-recv_more 3 4 half refl refl refl (omega arith) (omega arith) (omega arith)

-- A packet of two zeros, and a block of zeros.
abbrev nothing : PerIo
nothing = record io { buffer = 0 ∷ 0 ∷ []; block = 0 ∷ [] }

recv_loop-empty_example : recv_loop 9 7 2 nothing ≡ hangs
recv_loop-empty_example = recv_loop-empty 9 0 7 nothing [] [] refl refl refl
