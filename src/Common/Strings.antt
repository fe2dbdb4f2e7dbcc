-- ===== src/Common/Strings.antt =====
-- Text as a list of code points, with the methods of Python's `str` and `bytes` that the program
-- calls: `strip`, `splitlines`, `startswith`, and decimal printing and reading.
pub mod Laws
use Prim.Native.Nat.{ℕ, zero, suc, ◌+◌, ◌-◌, ◌*◌, ◌/◌, ◌%◌}
use Prim.Native.Char.{code}
use Prim.Native.String.{String}
use mathlib.Core.Bool.{Bool, true, false, ◌&&◌, ◌||◌}
use mathlib.Core.List.{List, [], ◌∷◌, ◌++◌, reverse}
use dragontools.Common.Tests.{ltb, leb, nat_beq, if◌then◌else◌}

abbrev pub Text : Type 0
Text = List ℕ

-- The code points of a literal.
abbrev pub codes : String → Text
codes String.[] = []
codes (String.◌∷◌ c s) = code c ∷ codes s

abbrev pub is_digit : ℕ → Bool
is_digit c = leb 48 c && leb c 57

abbrev pub is_lower : ℕ → Bool
is_lower c = leb 97 c && leb c 122

-- The line boundaries of `str.splitlines`.
abbrev pub is_break : ℕ → Bool
is_break c =
    (leb 10 c && leb c 13) || (leb 28 c && leb c 30) || nat_beq c 133 || (leb 8232 c && leb c 8233)

-- `str.isspace`, which `str.strip` and the pattern `\s` go by.
abbrev pub is_space : ℕ → Bool
is_space c =
    (leb 9 c && leb c 13)
    || (leb 28 c && leb c 32)
    || nat_beq c 133
    || nat_beq c 160
    || nat_beq c 5760
    || (leb 8192 c && leb c 8202)
    || (leb 8232 c && leb c 8233)
    || nat_beq c 8239
    || nat_beq c 8287
    || nat_beq c 12288

-- The longest prefix that passes the test, and what follows it.
unfoldable pub span : (ℕ → Bool) → Text → Text × Text
span p [] = ([], [])
span p (c ∷ s) = let (a, b) = span p s in if p c then (c ∷ a, b) else ([], c ∷ s)

unfoldable pub lstrip : Text → Text
lstrip [] = []
lstrip (c ∷ s) = let rest = lstrip s in if is_space c then rest else c ∷ s

unfoldable pub strip : Text → Text
unfolding lstrip
strip s = reverse (lstrip (reverse (lstrip s)))

unfoldable pub starts_with : Text → Text → Bool
starts_with s [] = true
starts_with [] (p ∷ ps) = false
starts_with (c ∷ s) (p ∷ ps) = nat_beq c p && starts_with s ps

-- The loop of `splitlines`: the open line, and whether the last character was a carriage return.
unfoldable pub lines_from : Text → Text → Bool → List Text
lines_from [] [] cr = []
lines_from [] (d ∷ cur) cr = (d ∷ cur) ∷ []
lines_from (c ∷ s) cur cr =
    let skip = cr && nat_beq c 10 in
    let rest = lines_from s (if skip || is_break c then [] else cur ++ (c ∷ [])) (nat_beq c 13) in
    if skip then rest else if is_break c then cur ∷ rest else rest

unfoldable pub splitlines : Text → List Text
unfolding lines_from
splitlines s = lines_from s [] false

-- `bytes.splitlines`: a line ends at `\n`, `\r` or both.
byte_lines_from : Text → Text → Bool → List Text
byte_lines_from [] [] cr = []
byte_lines_from [] (d ∷ cur) cr = (d ∷ cur) ∷ []
byte_lines_from (c ∷ s) cur cr =
    let skip = cr && nat_beq c 10 in
    let ends = nat_beq c 10 || nat_beq c 13 in
    let rest = byte_lines_from s (if skip || ends then [] else cur ++ (c ∷ [])) (nat_beq c 13) in
    if skip then rest else if ends then cur ∷ rest else rest

unfoldable pub byte_lines : Text → List Text
unfolding byte_lines_from
byte_lines s = byte_lines_from s [] false

-- `part in text`
unfoldable pub occurs : Text → Text → Bool
unfolding starts_with
occurs p [] = starts_with [] p
occurs p (c ∷ s) = starts_with (c ∷ s) p || occurs p s

-- `int` on a run of digits.
unfoldable pub number_from : ℕ → Text → ℕ
number_from acc [] = acc
number_from acc (c ∷ s) = number_from (acc * 10 + (c - 48)) s

unfoldable pub number : Text → ℕ
unfolding number_from
number s = number_from 0 s

decimal_fuel : ℕ → ℕ → Text
decimal_fuel zero n = []
decimal_fuel (suc f) n =
    let more = decimal_fuel f (n / 10) in
    if ltb n 10 then (48 + n) ∷ [] else more ++ ((48 + n % 10) ∷ [])

-- `str` of a number: one more unit of fuel than the number is enough, since each digit divides it.
unfoldable pub decimal : ℕ → Text
unfolding decimal_fuel
decimal n = decimal_fuel (suc n) n
