-- ===== src/Base/Text.antt =====
-- `str::trim` and the other text operations of the standard library that the program calls.
use Prim.Native.Nat.{ℕ, zero, suc, ◌+◌}
use Prim.Native.Char.{Char, code}
use Prim.Native.String.{String, [], ◌∷◌}
use mathlib.Core.Path.{◌≡◌, refl}
use mathlib.Core.Bool.{Bool, true, false, ◌&&◌, ◌||◌}
use entitle_hub.Base.Tests.{ltb, leb, ◌==◌, if◌then◌else◌}

-- The Unicode property `White_Space`, by code point.
unfoldable pub is_whitespace : ℕ → Bool
is_whitespace c =
    (leb 9 c && leb c 13)
    || c == 32
    || c == 0x85
    || c == 0xa0
    || c == 0x1680
    || (leb 0x2000 c && leb c 0x200a)
    || c == 0x2028
    || c == 0x2029
    || c == 0x202f
    || c == 0x205f
    || c == 0x3000

unfoldable pub is_empty : String → Bool
is_empty [] = true
is_empty (c ∷ s) = false

unfoldable pub trim_start : String → String
trim_start [] = []
trim_start (c ∷ s) = if is_whitespace (code c) then trim_start s else c ∷ s

-- A character in front of a text whose end is trimmed.
abbrev keep_unless_blank : Char → String → String
keep_unless_blank c s = if is_whitespace (code c) && is_empty s then [] else c ∷ s

unfoldable pub trim_end : String → String
trim_end [] = []
trim_end (c ∷ s) = keep_unless_blank c (trim_end s)

unfoldable pub trim : String → String
unfolding trim_start trim_end is_whitespace is_empty
trim s = trim_start (trim_end s)

-- `chars().count()`
abbrev pub char_count : String → ℕ
char_count [] = 0
char_count (c ∷ s) = suc (char_count s)

trim_blank_ends : trim " a b  " ≡ "a b"
unfolding trim
trim_blank_ends = refl

-- `starts_with`, and `like` with a pattern that ends in `%`.
unfoldable pub starts_with : String → String → Bool
starts_with [] s = true
starts_with (c ∷ p) [] = false
starts_with (c ∷ p) (d ∷ s) = code c == code d && starts_with p s

-- `chars().take(n)`
unfoldable pub take_chars : ℕ → String → String
take_chars zero s = []
take_chars (suc n) [] = []
take_chars (suc n) (c ∷ s) = c ∷ take_chars n s

-- The bytes of a character in UTF-8, and `len` of a text.
abbrev pub utf8_len : ℕ → ℕ
utf8_len c = if ltb c 0x80 then 1 else if ltb c 0x800 then 2 else if ltb c 0x10000 then 3 else 4

unfoldable pub byte_len : String → ℕ
byte_len [] = 0
byte_len (c ∷ s) = utf8_len (code c) + byte_len s

-- `contains` of a character, by its code.
unfoldable pub has_code : ℕ → String → Bool
has_code n [] = false
has_code n (c ∷ s) = code c == n || has_code n s

-- `chars().all`
unfoldable pub all_codes : (ℕ → Bool) → String → Bool
all_codes p [] = true
all_codes p (c ∷ s) = p (code c) && all_codes p s

abbrev pub is_ascii_alphanumeric : ℕ → Bool
is_ascii_alphanumeric c =
    (leb 97 c && leb c 122) || (leb 65 c && leb c 90) || (leb 48 c && leb c 57)

abbrev pub is_ascii_hexdigit : ℕ → Bool
is_ascii_hexdigit c = (leb 97 c && leb c 102) || (leb 65 c && leb c 70) || (leb 48 c && leb c 57)
