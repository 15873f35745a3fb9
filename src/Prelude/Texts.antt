-- ===== src/Prelude/Texts.antt =====
-- What the program uses of Rust's `str`: `trim`, `is_empty`, `trim_start_matches`.
use Prim.Native.Nat.{ℕ, zero, suc, ◌-◌}
use Prim.Native.Char.{Char, code}
use Prim.Native.String.{String}
use mathlib.Core.Bool.{Bool, true, false, ◌&&◌, ◌||◌}
use mathlib.Core.Option.{Option, none, some}
use mathlib.Core.Path.{◌≡◌, refl}
use auspex.Prelude.Tests.{◌==◌, leb, if◌then◌else◌}

-- `char::is_whitespace`: the code points with the Unicode property White_Space.
abbrev pub is_whitespace_code : ℕ → Bool
is_whitespace_code c =
    (leb 9 c && leb c 13)
    || (c == 32)
    || (c == 0x85)
    || (c == 0xa0)
    || (c == 0x1680)
    || (leb 0x2000 c && leb c 0x200a)
    || (c == 0x2028)
    || (c == 0x2029)
    || (c == 0x202f)
    || (c == 0x205f)
    || (c == 0x3000)

unfoldable pub is_whitespace : Char → Bool
is_whitespace c = is_whitespace_code (code c)

abbrev pub is_empty : String → Bool
is_empty String.[] = true
is_empty (String.◌∷◌ c s) = false

unfoldable pub trim_start : String → String
unfolding is_whitespace
trim_start String.[] = String.[]
trim_start (String.◌∷◌ c s) =
    let rest = trim_start s in if is_whitespace c then rest else String.◌∷◌ c s

unfoldable pub trim_end : String → String
unfolding is_whitespace
trim_end String.[] = String.[]
trim_end (String.◌∷◌ c s) =
    let rest = trim_end s in
    if is_empty rest && is_whitespace c then String.[] else String.◌∷◌ c rest

unfoldable pub trim : String → String
unfolding trim_start trim_end
trim s = trim_end (trim_start s)

-- `starts_with`
unfoldable pub starts_with : String → String → Bool
starts_with s String.[] = true
starts_with String.[] (String.◌∷◌ d p) = false
starts_with (String.◌∷◌ c s) (String.◌∷◌ d p) =
    let rest = starts_with s p in (code c == code d) && rest

abbrev letters : String
letters = "abcdefghijklmnopqrstuvwxyz"

nth_or : ℕ → String → Char → Char
nth_or n String.[] default = default
nth_or zero (String.◌∷◌ c s) default = c
nth_or (suc n) (String.◌∷◌ c s) default = nth_or n s default

-- `char::to_ascii_lowercase`: the capitals have the codes 65 to 90.
unfoldable pub to_ascii_lowercase : Char → Char
unfolding nth_or
to_ascii_lowercase c =
    if leb 65 (code c) && leb (code c) 90 then nth_or (code c - 65) letters c else c

unfoldable pub is_ascii_alphanumeric : Char → Bool
is_ascii_alphanumeric c =
    (leb 48 (code c) && leb (code c) 57)
    || (leb 65 (code c) && leb (code c) 90)
    || (leb 97 (code c) && leb (code c) 122)

-- `chars()`, with each character replaced.
unfoldable pub map_chars : (Char → Char) → String → String
map_chars f String.[] = String.[]
map_chars f (String.◌∷◌ c s) = String.◌∷◌ (f c) (map_chars f s)

trim_start_char : ℕ → String → String
trim_start_char n String.[] = String.[]
trim_start_char n (String.◌∷◌ c s) =
    let rest = trim_start_char n s in if code c == n then rest else String.◌∷◌ c s

trim_end_char : ℕ → String → String
trim_end_char n String.[] = String.[]
trim_end_char n (String.◌∷◌ c s) =
    let rest = trim_end_char n s in
    if is_empty rest && (code c == n) then String.[] else String.◌∷◌ c rest

-- `trim_matches` and `trim_start_matches` of the character with a code.
unfoldable pub trim_matches_char : ℕ → String → String
unfolding trim_start_char trim_end_char
trim_matches_char n s = trim_end_char n (trim_start_char n s)

unfoldable pub trim_start_matches_char : ℕ → String → String
unfolding trim_start_char
trim_start_matches_char n s = trim_start_char n s

-- `strip_prefix`
unfoldable pub strip_prefix : String → String → Option String
strip_prefix s String.[] = some s
strip_prefix String.[] (String.◌∷◌ d p) = none
strip_prefix (String.◌∷◌ c s) (String.◌∷◌ d p) =
    let rest = strip_prefix s p in if code c == code d then rest else none

abbrev chars_count : String → ℕ
chars_count String.[] = 0
chars_count (String.◌∷◌ c s) = suc (chars_count s)

strip_all : ℕ → String → String → String
strip_all zero s p = s
strip_all (suc fuel) s p = elim (strip_prefix s p) [ none ↦ s | some rest ↦ strip_all fuel rest p ]

-- `trim_start_matches` of a text that is not empty: each round takes at least one character off, so
-- as many rounds as the text has characters are enough.
unfoldable pub trim_start_matches : String → String → String
unfolding strip_all strip_prefix
trim_start_matches s p = strip_all (chars_count s) s p

trim_start_matches_remote : trim_start_matches "remote:remote:a" "remote:" ≡ "a"
unfolding trim_start_matches
trim_start_matches_remote = refl
