-- ===== src/Client/Bots/Names.antt =====
-- The names of the bots: a letter, repeated.
use cpp_iocp_server.Prelude.{
  ℕ, zero, suc, ◌+◌, ◌/◌, ◌%◌, ◌<◌, ◌≡◌, ◌≢◌, refl, ap, false, [], ◌∷◌, arith, contains, replicate,
  length, nat_eq,
}
use cpp_iocp_server.Text.{Text, utf8}
use cpp_iocp_server.Text.Tokens.{delimiter, IsField}
use cpp_iocp_server.Server.Reading.{byte_at}
use cpp_iocp_server.Client.Bots.{bot_id}

-- The name of a bot: letters, less than 20 of them.
pub record IsName (id : Text) : Type 0 where
  pub short : length id < 20
  pub field : IsField id

byte_at-contains :
    (letters : Text) (i : ℕ) → contains letters delimiter ≡ false → byte_at i letters ≢ delimiter
unfolding contains
byte_at-contains [] i h = λ e. ground arith
byte_at-contains (c ∷ letters) zero h = λ e. ground (arith, e, h)
byte_at-contains (c ∷ letters) (suc i) h = byte_at-contains letters i (ground (arith, h))

replicate-plain : (n c : ℕ) → c ≢ delimiter → contains (replicate n c) delimiter ≡ false
unfolding contains
replicate-plain zero c h = refl
replicate-plain (suc n) c h = ground (arith, h, replicate-plain n c h)

length-replicate : (n c : ℕ) → length (replicate n c) ≡ n
length-replicate zero c = refl
length-replicate (suc n) c = ap suc (length-replicate n c)

replicate_some : (n c : ℕ) → replicate (n + 1) c ≢ []
replicate_some n c e = absurd (omega (arith, ap length e, length-replicate (n + 1) c))

-- The names of the first 988 users are short enough.
pub bot_id-IsName : (i : ℕ) → i < 988 → IsName (bot_id i)
unfolding bot_id utf8 contains
bot_id-IsName i h =
    let letters = utf8 "ABCDEFGHIJKLMNOPQRSTUVWXYZabcdefghijklmnopqrstuvwxyz" in
    let letter : byte_at (i % 52) letters ≢ delimiter = byte_at-contains letters (i % 52) refl in
    record {
      short = omega (arith, length-replicate (i / 52 + 1) (byte_at (i % 52) letters));
      field = record {
        not_empty = replicate_some (i / 52) (byte_at (i % 52) letters);
        no_delimiter = replicate-plain (i / 52 + 1) (byte_at (i % 52) letters) letter;
      };
    }
