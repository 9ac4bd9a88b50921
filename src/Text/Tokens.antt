-- ===== src/Text/Tokens.antt =====
-- `strtok` with the delimiter `\`: the fields of a request.
use cpp_iocp_server.Prelude.{
  ℕ, ◌≡◌, refl, ◌∙◌, ap, ◌≢◌, true, false, List, [], ◌∷◌, ◌++◌, arith, ◌==◌, nat_eq, contains, All,
  Bool-cases, inl, inr, append-nil, append_assoc,
}

abbrev pub delimiter : ℕ
delimiter = b'\\'

-- A field ends: `strtok` passes over empty ones.
unfoldable pub end_field : List ℕ → List (List ℕ) → List (List ℕ)
end_field [] rest = rest
end_field (c ∷ field) rest = (c ∷ field) ∷ rest

-- `field` holds the bytes read since the last delimiter.
unfoldable pub tokens_from : List ℕ → List ℕ → List (List ℕ)
unfolding end_field
tokens_from field [] = end_field field []
tokens_from field (c ∷ s) = elim (c == delimiter) [
  | true ↦ end_field field (tokens_from [] s)
  | false ↦ tokens_from (field ++ c ∷ []) s
]

-- All that the calls of `strtok` on `s` return.
unfoldable pub tokens : List ℕ → List (List ℕ)
unfolding tokens_from
tokens s = tokens_from [] s

-- A field that can be written between delimiters and read back.
pub record IsField (s : List ℕ) : Type 0 where
  pub not_empty : s ≢ []
  pub no_delimiter : contains s delimiter ≡ false

end_field-IsField : (s : List ℕ) (rest : List (List ℕ)) → s ≢ [] → end_field s rest ≡ s ∷ rest
unfolding end_field
end_field-IsField [] rest h = absurd (h refl)
end_field-IsField (c ∷ s) rest h = refl

-- The bytes of a field are gathered up to the delimiter behind it.
pub tokens_from-delimiter :
    (field s rest : List ℕ)
    → contains s delimiter ≡ false
    → tokens_from field (s ++ delimiter ∷ rest) ≡ end_field (field ++ s) (tokens rest)
unfolding tokens tokens_from contains
tokens_from-delimiter field [] rest h = rw append-nil
tokens_from-delimiter field (c ∷ s) rest h = elim (Bool-cases (c == delimiter)) [
  | inl e ↦ absurd (ground arith)
  | inr e ↦
      rw (e, tokens_from)
        (tokens_from-delimiter (field ++ c ∷ []) s rest (ground arith)
          ∙ rw (append_assoc field (c ∷ []) s))
]

tokens_from-last :
    (field s : List ℕ)
    → contains s delimiter ≡ false
    → tokens_from field s ≡ end_field (field ++ s) []
unfolding tokens_from contains
tokens_from-last field [] h = rw append-nil
tokens_from-last field (c ∷ s) h = elim (Bool-cases (c == delimiter)) [
  | inl e ↦ absurd (ground arith)
  | inr e ↦
      rw (e, tokens_from)
        (tokens_from-last (field ++ c ∷ []) s (ground arith) ∙ rw (append_assoc field (c ∷ []) s))
]

-- The fields of a request with a delimiter between them, as the clients send them.
unfoldable pub join : List (List ℕ) → List ℕ
join [] = []
join (s ∷ []) = s
join (s ∷ t ∷ rest) = s ++ delimiter ∷ join (t ∷ rest)

-- Fields that are not empty and have no delimiter in them, joined by the delimiter, are split
-- by strtok into the same fields.
pub tokens-join : (fields : List (List ℕ)) → All IsField fields → tokens (join fields) ≡ fields
unfolding tokens join
tokens-join [] h = refl
tokens-join (s ∷ []) h =
    tokens_from-last [] s h.0.no_delimiter ∙ end_field-IsField s [] h.0.not_empty
tokens-join (s ∷ t ∷ rest) h =
    tokens_from-delimiter [] s (join (t ∷ rest)) h.0.no_delimiter
    ∙ end_field-IsField s _ h.0.not_empty
    ∙ ap (◌∷◌ s) (tokens-join (t ∷ rest) h.1)
