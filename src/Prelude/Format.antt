-- ===== src/Prelude/Format.antt =====
-- `format!`: texts put together, and numbers in decimal; and `parse::<u64>`.
use Prim.Native.Nat.{ℕ, zero, suc, ◌+◌, ◌-◌, ◌*◌, ◌/◌, ◌%◌}
use Prim.Native.Char.{code}
use Prim.Native.String.{String, ◌++◌ as append}
use mathlib.Core.Path.{◌≡◌, refl}
use mathlib.Core.Bool.{not, ◌&&◌, ◌||◌}
use mathlib.Core.Option.{Option, none, some}
use mathlib.Core.List.{List, [], ◌∷◌}
use auspex.Prelude.Texts.{is_empty}
use auspex.Prelude.Tests.{◌==◌, ltb, leb, if◌then◌else◌}

unfoldable pub concat : List String → String
concat [] = ""
concat (s ∷ rest) = append s (concat rest)

digit : ℕ → String
digit d =
    if d == 0
    then "0"
    else if d == 1
    then "1"
    else if d == 2
    then "2"
    else if d == 3
    then "3"
    else if d == 4
    then "4"
    else if d == 5
    then "5"
    else if d == 6
    then "6"
    else if d == 7
    then "7"
    else if d == 8
    then "8"
    else "9"

digits : ℕ → ℕ → String
unfolding digit
digits zero n = ""
digits (suc fuel) n =
    let before = digits fuel (n / 10) in
    if ltb n 10 then digit n else append before (digit (n % 10))

-- A number in decimal. Each round divides it by ten, so one more round than its value is enough.
unfoldable pub to_decimal : ℕ → String
unfolding digits
to_decimal n = digits (suc n) n

to_decimal_u64 : to_decimal 18446744073709551615 ≡ "18446744073709551615"
unfolding to_decimal
to_decimal_u64 = refl

parse_digits : ℕ → String → Option ℕ
parse_digits n String.[] = some n
parse_digits n (String.◌∷◌ c s) =
    let next = n * 10 + (code c - 48) in
    let rest = parse_digits next s in
    if not (leb 48 (code c) && leb (code c) 57) || ltb 18446744073709551615 next then none else rest

-- `parse::<u64>().ok()`: digits, after a plus sign or without one, whose value fits.
unfoldable pub parse_u64 : String → Option ℕ
unfolding parse_digits
parse_u64 String.[] = none
parse_u64 (String.◌∷◌ c s) =
    if (code c == 43) && not (is_empty s) then parse_digits 0 s else parse_digits 0 (String.◌∷◌ c s)

parse_u64_max : parse_u64 "+18446744073709551615" ≡ some 18446744073709551615
unfolding parse_u64
parse_u64_max = refl

parse_u64_overflow : parse_u64 "18446744073709551616" ≡ none
unfolding parse_u64
parse_u64_overflow = refl
