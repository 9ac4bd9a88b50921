-- ===== src/Server/Reading/Termination.antt =====
-- The loop over one receive ends, unless a packet announces no byte.
use cpp_iocp_server.Prelude.{
  ℕ, zero, suc, ◌+◌, ◌≤◌, ◌<◌, ◌≡◌, ◌≢◌, inl, inr, refl, Bool-cases, Option-cases, subst, arith,
  length, ltb, min, nat_eq, ◌==◌,
}
use cpp_iocp_server.Outcome.{Outcome, returns, exits, undefined, hangs, M, continue, pure, Ends}
use cpp_iocp_server.Common.{Socket, JobData, buf_size}
use cpp_iocp_server.Iocp.{block_size}
use cpp_iocp_server.Server.Reading.{
  recv, PerIo, slice, write_at, read16, Remain, remain, more, packet_reading, text_before_zero,
  data_copy, Received, add_job, after_read, recv_loop,
}
use cpp_iocp_server.Server.Reading.Progress.{
  AtMost, Fewer, packet_reading-AtMost, packet_reading-Fewer,
}

-- Somewhere in the loop a packet begins with a length of zero.
pub data MeetsEmpty : ℕ → PerIo → Type 0 where
  here : {n : ℕ} {io : PerIo} → io.server_mode ≡ recv → read16 io.buffer ≡ 0 → MeetsEmpty n io
  later :
      {n m : ℕ} {io io' : PerIo}
      → packet_reading n io ≡ returns (remain (suc m)) io'
      → MeetsEmpty (suc m) io'
      → MeetsEmpty n io

data_copy-Ends : (sock : Socket) (io : PerIo) → Ends (λ _ io'. io' ≡ io) (data_copy sock io)
unfolding data_copy
data_copy-Ends sock io =
    let copied = slice 10 (10 + min io.body_size buf_size) io.recv_buffer in
    elim (Bool-cases (ltb block_size (10 + min io.body_size buf_size))) [
      | inl e ↦ rw e tt
      | inr e ↦ elim (Bool-cases (ltb block_size (0 + length copied))) [
        | inl b ↦ rw (e, b) tt
        | inr b ↦ elim (Option-cases (text_before_zero (write_at 0 copied io.block))) [
          | inl f ↦ rw (e, b, f) tt
          | inr (msg, f) ↦ rw (e, b, f) refl
        ]
      ]
    ]

abbrev Hangs : {A : Type 0} → Outcome PerIo A → Type 0
Hangs o = o ≡ hangs

-- What follows the copy hangs, if all of it does.
after_data_copy :
    {A : Type 0} (sock : Socket) (io : PerIo) (f : JobData → M PerIo A)
    → continue (data_copy sock io) f ≡ hangs
    → (j : JobData) × (f j io ≡ hangs)
after_data_copy {A} sock io f e = by_outcome (data_copy sock io) (data_copy-Ends sock io) e
  where
    by_outcome :
        (o : Outcome PerIo JobData)
        → Ends (λ _ io'. io' ≡ io) o
        → continue o f ≡ hangs
        → (j : JobData) × (f j io ≡ hangs)
    by_outcome (returns j io') h e = (j, subst (λ x. f j x ≡ hangs) h e)
    by_outcome exits h e = absurd h
    by_outcome undefined h e = absurd (grind arith)
    by_outcome hangs h e = absurd h

then_add :
    (j : JobData) (o : Outcome PerIo Received)
    → continue o (λ rest. pure (add_job j rest)) ≡ hangs
    → o ≡ hangs
then_add j (returns r io) e = absurd (grind arith)
then_add j exits e = absurd (grind arith)
then_add j undefined e = absurd (grind arith)
then_add j hangs e = refl

-- A reading that ends is followed by a turn that hangs, if the loop does.
record Turn (Q : Remain → PerIo → Type 0) (o : Outcome PerIo Remain) (again : ℕ → M PerIo Received)
    : Type 0 where
  left : ℕ
  after : PerIo
  reads : o ≡ returns (remain (suc left)) after
  holds : Q (remain (suc left)) after
  hangs_on : again (suc left) after ≡ hangs

module _ (sock : Socket) (again : ℕ → M PerIo Received) (Q : Remain → PerIo → Type 0) where
  later-Turn :
      (o : Outcome PerIo Remain)
      → Ends Q o
      → continue o (after_read sock again) ≡ hangs
      → Turn Q o again
  later-Turn (returns more io) h e = absurd (grind arith)
  later-Turn (returns (remain zero) io) h e =
      absurd (grind (arith, (after_data_copy sock io _ e).1))
  later-Turn (returns (remain (suc m)) io) h e =
      let p = after_data_copy sock io _ e in
      record {
        left = m;
        after = io;
        reads = refl;
        holds = h;
        hangs_on = then_add p.0 (again (suc m) io) p.1;
      }
  later-Turn exits h e = absurd h
  later-Turn undefined h e = absurd (grind arith)
  later-Turn hangs h e = absurd h

module _ (sock : Socket) where
  recv_loop-MeetsEmpty :
      (fuel n : ℕ) (io : PerIo)
      → n < fuel
      → io.server_mode ≡ recv
      → recv_loop fuel sock n io ≡ hangs
      → MeetsEmpty n io
  unfolding recv_loop
  recv_loop-MeetsEmpty zero n io enough first e = absurd (omega arith)
  recv_loop-MeetsEmpty (suc fuel) n io enough first e = elim (Bool-cases (read16 io.buffer == 0)) [
    | inl f ↦ here first (ground (arith, f))
    | inr f ↦
        let t =
          later-Turn sock (recv_loop fuel sock) (Fewer n) (packet_reading n io)
            (packet_reading-Fewer n io first (ground (arith, f))) e in
        later t.reads (
          recv_loop-MeetsEmpty fuel (suc t.left) t.after (omega (arith, t.holds.0)) t.holds.1
            t.hangs_on)
  ]

  -- The loop over one receive ends, with fuel for two turns more than it has bytes, whatever
  -- came before, unless it comes to a packet whose length is zero.
  pub recv_loop-ends :
      (fuel n : ℕ) (io : PerIo)
      → ¬ MeetsEmpty n io
      → 2 + n ≤ fuel
      → recv_loop fuel sock n io ≢ hangs
  unfolding recv_loop
  recv_loop-ends zero n io never enough e = omega arith
  recv_loop-ends (suc fuel) n io never enough e =
      let t =
        later-Turn sock (recv_loop fuel sock) (AtMost n) (packet_reading n io)
          (packet_reading-AtMost n io) e in
      never (
        later t.reads (
          recv_loop-MeetsEmpty fuel (suc t.left) t.after (omega (arith, t.holds.0)) t.holds.1
            t.hangs_on))
