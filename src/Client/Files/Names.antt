-- ===== src/Client/Files/Names.antt =====
-- The name under which a file is sent: the client's way to it, and the server's.
use cpp_iocp_server.Prelude.{
  ℕ, zero, suc, ◌≤◌, ◌<◌, ◌≡◌, refl, ap, sym, ◌∙◌, inl, inr, Bool-cases, Option-cases, Bool, true,
  false, ◌||◌, Option, none, some, [], ◌∷◌, arith, length, length-map, ◌==◌, nat_eq, if◌then◌else◌,
}
use cpp_iocp_server.Text.{Text, file_name_from, file_name}
use cpp_iocp_server.Client.Files.{replace_file_dir, behind_slash, strip_dirs}

abbrev is_slash : ℕ → Bool
is_slash c = c == b'/' || c == b'\\'

-- What stands behind the first `/` or `\`.
unfoldable behind : Text → Option Text
behind [] = none
behind (c ∷ s) = if is_slash c then some s else behind s

behind_here : (c : ℕ) (s : Text) → is_slash c ≡ true → behind (c ∷ s) ≡ some s
unfolding behind
behind_here c s e = rw e refl

behind_later : (c : ℕ) (s : Text) → is_slash c ≡ false → behind (c ∷ s) ≡ behind s
unfolding behind
behind_later c s e = rw e refl

slash_here : (c : ℕ) (s : Text) → (c == b'/') ≡ true → behind_slash (c ∷ s) ≡ some s
unfolding behind_slash
slash_here c s e = rw (e, behind_slash) refl

slash_later : (c : ℕ) (s : Text) → (c == b'/') ≡ false → behind_slash (c ∷ s) ≡ behind_slash s
unfolding behind_slash
slash_later c s e = rw (e, behind_slash) refl

abbrev replaced : Option Text → Option Text
replaced none = none
replaced (some s) = some (replace_file_dir s)

replaced_head :
    (c : ℕ) (s : Text) → (c == b'\\') ≡ true → replace_file_dir (c ∷ s) ≡ b'/' ∷ replace_file_dir s
unfolding replace_file_dir
replaced_head c s e = rw e refl

kept_head :
    (c : ℕ) (s : Text) → (c == b'\\') ≡ false → replace_file_dir (c ∷ s) ≡ c ∷ replace_file_dir s
unfolding replace_file_dir
kept_head c s e = rw e refl

behind_slash-replace_file_dir : (s : Text) → behind_slash (replace_file_dir s) ≡ replaced (behind s)
unfolding behind_slash replace_file_dir behind
behind_slash-replace_file_dir [] = refl
behind_slash-replace_file_dir (c ∷ s) = elim (Bool-cases (c == b'\\')) [
  | inl e ↦
      ap behind_slash (replaced_head c s e)
      ∙ slash_here b'/' (replace_file_dir s) refl
      ∙ ap replaced (sym (behind_here c s (ground (arith, e))))
  | inr e ↦ elim (Bool-cases (c == b'/')) [
    | inl f ↦
        ap behind_slash (kept_head c s e)
        ∙ slash_here c (replace_file_dir s) f
        ∙ ap replaced (sym (behind_here c s (ground (arith, f))))
    | inr f ↦
        ap behind_slash (kept_head c s e)
        ∙ slash_later c (replace_file_dir s) f
        ∙ behind_slash-replace_file_dir s
        ∙ ap replaced (sym (behind_later c s (ground (arith, e, f))))
  ]
]

-- What the server's search for the last `/` or `\` makes of it.
file_name_from-behind :
    (name s : Text)
    → file_name_from name s
      ≡ (elim (behind s) [ none ↦ name | some rest ↦ file_name_from rest rest ])
unfolding file_name_from behind
file_name_from-behind name [] = refl
file_name_from-behind name (c ∷ s) = elim (Bool-cases (is_slash c)) [
  | inl e ↦ rw e refl
  | inr e ↦ rw e (file_name_from-behind name s)
]

-- Nothing is replaced in a name without either.
replace_file_dir-plain : (s : Text) → behind s ≡ none → replace_file_dir s ≡ s
unfolding replace_file_dir
replace_file_dir-plain [] h = refl
replace_file_dir-plain (c ∷ s) h = elim (Bool-cases (is_slash c)) [
  | inl e ↦ absurd (grind (arith, behind_here c s e))
  | inr e ↦
      rw (kept_head c s (ground arith))
        (ap (◌∷◌ c) (replace_file_dir-plain s (sym (behind_later c s e) ∙ h)))
]

behind-length : (s rest : Text) → behind s ≡ some rest → length rest < length s
unfolding behind
behind-length [] rest h = absurd (grind arith)
behind-length (c ∷ s) rest h = elim (Bool-cases (is_slash c)) [
  | inl e ↦
      let same : rest ≡ s =
        ap (λ o. elim o [ none ↦ [] | some t ↦ t ]) (sym h ∙ behind_here c s e) in
      omega (arith, ap length same)
  | inr e ↦ omega (arith, behind-length s rest (sym (behind_later c s e) ∙ h))
]

strip_plain : (fuel : ℕ) (s : Text) → behind_slash s ≡ none → strip_dirs fuel s ≡ s
unfolding strip_dirs
strip_plain zero s e = refl
strip_plain (suc fuel) s e = ap (λ o. elim o [ none ↦ s | some rest ↦ strip_dirs fuel rest ]) e

strip_step :
    (fuel : ℕ) (s rest : Text)
    → behind_slash s ≡ some rest
    → strip_dirs (suc fuel) s ≡ strip_dirs fuel rest
unfolding strip_dirs
strip_step fuel s rest e = ap (λ o. elim o [ none ↦ s | some rest ↦ strip_dirs fuel rest ]) e

-- A path without a directory stays, and the server's name of it is the path.
plain_lem :
    (fuel : ℕ) (s : Text)
    → behind s ≡ none
    → strip_dirs fuel (replace_file_dir s) ≡ file_name_from s s
plain_lem fuel s e =
    strip_plain fuel (replace_file_dir s) (behind_slash-replace_file_dir s ∙ ap replaced e)
    ∙ replace_file_dir-plain s e
    ∙ sym (
        file_name_from-behind s s
        ∙ ap (λ o. elim o [ none ↦ s | some rest ↦ file_name_from rest rest ]) e)

abbrev after_search : Text → Option Text → Text
after_search s none = s
after_search s (some rest) = file_name_from rest rest

file_name_from-found :
    (s : Text) (found : Option Text) → behind s ≡ found → file_name_from s s ≡ after_search s found
file_name_from-found s found e = file_name_from-behind s s ∙ ap (after_search s) e

-- Neither stands in what is found.
behind-file_name_from : (fuel : ℕ) (s : Text) → length s ≤ fuel → behind (file_name_from s s) ≡ none
behind-file_name_from zero s h = elim (Option-cases (behind s)) [
  | inl e ↦ ap behind (file_name_from-found s none e) ∙ e
  | inr (rest, e) ↦ absurd (omega (arith, behind-length s rest e))
]
behind-file_name_from (suc fuel) s h = elim (Option-cases (behind s)) [
  | inl e ↦ ap behind (file_name_from-found s none e) ∙ e
  | inr (rest, e) ↦
      ap behind (file_name_from-found s (some rest) e)
      ∙ behind-file_name_from fuel rest (omega (arith, behind-length s rest e))
]

strip_dirs-replace_file_dir :
    (fuel : ℕ) (s : Text)
    → length s ≤ fuel
    → strip_dirs fuel (replace_file_dir s) ≡ file_name_from s s
strip_dirs-replace_file_dir zero s h = elim (Option-cases (behind s)) [
  | inl e ↦ plain_lem zero s e
  | inr (rest, e) ↦ absurd (omega (arith, behind-length s rest e))
]
strip_dirs-replace_file_dir (suc fuel) s h = elim (Option-cases (behind s)) [
  | inl e ↦ plain_lem (suc fuel) s e
  | inr (rest, e) ↦
      strip_step fuel (replace_file_dir s) (replace_file_dir rest)
        (behind_slash-replace_file_dir s ∙ ap replaced e)
      ∙ strip_dirs-replace_file_dir fuel rest (omega (arith, behind-length s rest e))
      ∙ sym (
          file_name_from-behind s s
          ∙ ap (λ o. elim o [ none ↦ s | some rest ↦ file_name_from rest rest ]) e)
]

-- The name that the client sends for a file, with every backslash replaced and the directories
-- erased one by one, is the name that the server takes from the same path by its last slash or
-- backslash.
pub strip_dirs-file_name :
    (path : Text)
    → strip_dirs (length (replace_file_dir path)) (replace_file_dir path) ≡ file_name path
unfolding file_name replace_file_dir
strip_dirs-file_name path =
    strip_dirs-replace_file_dir (length (replace_file_dir path)) path
      (omega (arith, length-map (λ c. if c == b'\\' then b'/' else c) path))

pub file_name-file_name : (path : Text) → file_name (file_name path) ≡ file_name path
unfolding file_name
file_name-file_name path =
    let name = file_name_from path path in
    file_name_from-behind name name
    ∙ ap (λ o. elim o [ none ↦ name | some rest ↦ file_name_from rest rest ])
        (behind-file_name_from (length path) path (omega arith))
