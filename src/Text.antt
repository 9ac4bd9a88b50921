-- ===== src/Text.antt =====
-- The C and C++ text operations that the server uses, over lists of bytes: `strncpy`, `strtok`,
-- `string::find`, `string::find_last_of`, `string::operator<` and `to_string`.
pub mod Tokens
pub mod Decimal
use Prim.Native.Char.{code}
use cpp_iocp_server.Prelude.{
  ℕ, zero, suc, ◌+◌, ◌*◌, ◌/◌, ◌%◌, String, Bool, true, false, ◌&&◌, ◌||◌, List, [], ◌∷◌, ◌++◌, ltb,
  if◌then◌else◌, ◌==◌, nat_eq, text_beq, take,
}

-- The bytes of a C string, without its terminator, or of a `std::string`.
abbrev pub Text : Type 0
Text = List ℕ

-- The UTF-8 form of one character.
unfoldable pub utf8_char : ℕ → Text
utf8_char c =
    if ltb c 0x80
    then c ∷ []
    else if ltb c 0x800
    then (0xc0 + c / 64) ∷ (0x80 + c % 64) ∷ []
    else if ltb c 0x10000
    then (0xe0 + c / 4096) ∷ (0x80 + c / 64 % 64) ∷ (0x80 + c % 64) ∷ []
    else (0xf0 + c / 262144) ∷ (0x80 + c / 4096 % 64) ∷ (0x80 + c / 64 % 64) ∷ (0x80 + c % 64) ∷ []

-- The bytes of a text literal.
unfoldable pub utf8 : String → Text
unfolding utf8_char
utf8 String.[] = []
utf8 (String.◌∷◌ c s) = utf8_char (code c) ++ utf8 s

-- `strncpy(buf, s, n)` into a `char buf[n]`, which fills the rest of `buf` by zeros. The array is
-- represented by its bytes before the first zero, so it has no terminator if there are `n` of them.
abbrev pub strncpy : ℕ → Text → Text
strncpy n s = take n s

-- `operator<` of strings: by bytes, a prefix first.
unfoldable pub text_ltb : Text → Text → Bool
text_ltb s [] = false
text_ltb [] (c ∷ t) = true
text_ltb (b ∷ s) (c ∷ t) = ltb b c || b == c && text_ltb s t

unfoldable pub starts_with : Text → Text → Bool
starts_with [] s = true
starts_with (p ∷ ps) [] = false
starts_with (p ∷ ps) (c ∷ s) = p == c && starts_with ps s

-- `s.find(p) != npos`
unfoldable pub has_text : Text → Text → Bool
unfolding starts_with
has_text p [] = starts_with p []
has_text p (c ∷ s) = starts_with p (c ∷ s) || has_text p s

-- What stands behind the last `/` or `\` of a path, or all of it: `find_last_of` and `substr`.
unfoldable pub file_name_from : Text → Text → Text
file_name_from name [] = name
file_name_from name (c ∷ path) =
    file_name_from (if c == b'/' || c == b'\\' then path else name) path

unfoldable pub file_name : Text → Text
unfolding file_name_from
file_name path = file_name_from path path
