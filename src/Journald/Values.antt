-- ===== src/Journald/Values.antt =====
-- `size` and `duration` of src/monitoring/agents/journald.py: the values of journald's settings.
-- `none` stands for the `ValueError` that they raise.
use dragontools.Common.{
  ℕ, zero, suc, ◌+◌, ◌*◌, ◌^◌, Option, none, some, [], ◌∷◌, Text, codes, is_digit, is_lower,
  is_space, span, strip, number, nat_beq, if◌then◌else◌, ◌==◌, nat_eq, list_eq, length, ◌||◌,
}

-- `'KMGTPE'.find(match[2]) + 1`, for one of these letters.
abbrev pub size_exponent : ℕ → Option ℕ
size_exponent c =
    if nat_beq c 75
    then some 1
    else if nat_beq c 77
    then some 2
    else if nat_beq c 71
    then some 3
    else if nat_beq c 84
    then some 4
    else if nat_beq c 80
    then some 5
    else if nat_beq c 69
    then some 6
    else none

-- What the pattern leaves after the digits: nothing, or one unit letter.
scale : ℕ → Text → Option ℕ
scale n [] = some n
scale n (c ∷ []) = elim (size_exponent c) [ none ↦ none | some k ↦ some (n * 1024 ^ k) ]
scale n (c ∷ d ∷ s) = none

sized : Text × Text → Option ℕ
sized ([], rest) = none
sized (d ∷ ds, rest) = scale (number (d ∷ ds)) rest

unfoldable pub size : Text → Option ℕ
unfolding scale sized span strip number
size value = sized (span is_digit (strip value))

-- The table `units`.
unfoldable pub unit_seconds : Text → Option ℕ
unit_seconds u =
    if u == codes ""
      || u == codes "s"
      || u == codes "sec"
      || u == codes "second"
      || u == codes "seconds"
    then some 1
    else if u == codes "m" || u == codes "min" || u == codes "minute" || u == codes "minutes"
    then some 60
    else if u == codes "h" || u == codes "hour" || u == codes "hours"
    then some 3600
    else if u == codes "d" || u == codes "day" || u == codes "days"
    then some 86400
    else if u == codes "w" || u == codes "week"
    then some 604800
    else none

-- One match of `([0-9]+)\s*([a-z]*)\s*` at the start: its digits, its unit and what follows.
abbrev pub Term : Type 0
Term = record { digits : Text; unit : Text; rest : Text }

unfoldable pub term : Text → Term
unfolding span
term s =
    let (ds, s1) = span is_digit s in
    let (_, s2) = span is_space s1 in
    let (u, s3) = span is_lower s2 in
    let (_, s4) = span is_space s3 in record { digits = ds; unit = u; rest = s4 }

abbrev pub weigh : Text → Text → Option ℕ
weigh [] u = none
weigh (d ∷ ds) u = elim (unit_seconds u) [ none ↦ none | some k ↦ some (number (d ∷ ds) * k) ]

unfoldable pub weigh_term : Term → Option ℕ
weigh_term t = weigh t.digits t.unit

unfoldable pub add_term : Option ℕ → Option ℕ → Option ℕ
add_term none more = none
add_term (some n) none = none
add_term (some n) (some m) = some (n + m)

-- The sum over the matches, which have to follow one another up to the end. Each takes a digit, so
-- the length of the text is enough fuel.
unfoldable pub terms : ℕ → Text → Option ℕ
terms zero [] = some 0
terms zero (c ∷ s) = none
terms (suc f) [] = some 0
terms (suc f) (c ∷ s) = let t = term (c ∷ s) in add_term (weigh_term t) (terms f t.rest)

unfoldable pub duration_of : Text → Option ℕ
duration_of [] = none
duration_of (c ∷ s) = terms (length (c ∷ s)) (c ∷ s)

unfoldable pub duration : Text → Option ℕ
unfolding duration_of terms term weigh_term add_term unit_seconds number span strip
duration value = duration_of (strip value)
