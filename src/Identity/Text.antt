-- ===== src/Identity/Text.antt =====
-- What internal/control/sqlite/store.go uses of Go's strings: TrimSpace, SplitN, HasPrefix, and the
-- hexadecimal text of random bytes.
use Prim.Native.Char.{Char, code}
use Prim.Native.String.{String as Text}
pub use Prim.Native.String.{◌++◌ as ◌<>◌}
use autback.Prelude.{
  ℕ, zero, suc, ◌/◌, ◌%◌, String, Bool, ◌&&◌, ◌||◌, List, [], ◌∷◌, leb, ◌==◌, str_eq, if◌then◌else◌,
}

-- unicode.IsSpace
abbrev pub is_space : ℕ → Bool
is_space c =
    leb 9 c && leb c 13
    || c == 32
    || c == 133
    || c == 160
    || c == 5760
    || leb 8192 c && leb c 8202
    || c == 8232
    || c == 8233
    || c == 8239
    || c == 8287
    || c == 12288

unfoldable pub trim_left : String → String
trim_left Text.[] = ""
trim_left (Text.◌∷◌ c s) =
    let rest = trim_left s in if is_space (code c) then rest else Text.◌∷◌ c s

unfoldable pub trim_right : String → String
trim_right Text.[] = ""
trim_right (Text.◌∷◌ c s) =
    let rest = trim_right s in if is_space (code c) && str_eq rest "" then "" else Text.◌∷◌ c rest

-- strings.TrimSpace
unfoldable pub trim_space : String → String
unfolding trim_left trim_right
trim_space s = trim_right (trim_left s)

-- strings.TrimSpace(s) == ""
abbrev pub is_blank : String → Bool
is_blank s = str_eq (trim_space s) ""

abbrev pub add_char : Char → List String → List String
add_char c [] = Text.◌∷◌ c "" ∷ []
add_char c (part ∷ parts) = Text.◌∷◌ c part ∷ parts

-- strings.SplitN(s, "_", n + 1): the last part keeps the separators that are left.
unfoldable pub split_n : ℕ → String → List String
split_n zero s = s ∷ []
split_n (suc n) Text.[] = "" ∷ []
split_n (suc n) (Text.◌∷◌ c s) =
    let after = split_n n s in
    let same = split_n (suc n) s in if code c == 95 then "" ∷ after else add_char c same

-- The character at a position, as a text.
unfoldable pub char_of : String → ℕ → String
char_of Text.[] n = ""
char_of (Text.◌∷◌ c s) zero = Text.◌∷◌ c ""
char_of (Text.◌∷◌ c s) (suc n) = char_of s n

abbrev pub hex_digit : ℕ → String
hex_digit n = char_of "0123456789abcdef" n

-- hex.EncodeToString
unfoldable pub hex_encode : List ℕ → String
unfolding char_of
hex_encode [] = ""
hex_encode (b ∷ bytes) = hex_digit (b / 16 % 16) <> hex_digit (b % 16) <> hex_encode bytes
