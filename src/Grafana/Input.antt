-- ===== src/Grafana/Input.antt =====
-- `credentials` of src/monitoring/grafana_credentials.py.
use dragontools.Common.{
  ℕ, ◌+◌, Bool, false, not, ◌&&◌, ◌||◌, Option, some, [], ◌∷◌, Text, codes, strip, length, leb, ltb,
  ◌==◌, nat_eq, list_eq, if◌then◌else◌, nat_beq,
}
use dragontools.Common.Json.{Json, string, object, Fields, count, lookup}
use dragontools.Common.Result.{Result}
use dragontools.Grafana.Outcome.{Outcome, done, failure, raised, ◌>!◌, demanded, unguarded}

abbrev pub input_limit : ℕ
input_limit = 100000

-- `len(text.encode("utf-8"))`, which a lone surrogate makes raise.
unfoldable pub utf8_length : Text → Outcome ℕ
utf8_length [] = done 0
utf8_length (c ∷ s) =
    let rest = utf8_length s in
    if leb 55296 c && leb c 57343
    then raised
    else rest >! λ n.
        done ((if ltb c 128 then 1 else if ltb c 2048 then 2 else if ltb c 65536 then 3 else 4) + n)

abbrev pub contains_char : ℕ → Text → Bool
contains_char c [] = false
contains_char c (d ∷ s) = nat_beq c d || contains_char c s

-- `any(ord(c) < 32 or ord(c) == 127 for c in text)`
abbrev pub has_control : Text → Bool
has_control [] = false
has_control (c ∷ s) = ltb c 32 || nat_beq c 127 || has_control s

abbrev pub text_of : Option Json → Outcome Text
text_of (some (string t)) = done t
text_of _ = failure 80

abbrev pub two_fields : Json → Outcome Fields
two_fields (object fs) = if count fs == 2 then done fs else failure 80
two_fields _ = failure 80

unfoldable pub checked_credentials : Text → Text → Outcome (Text × Text)
checked_credentials username password = utf8_length username >! λ n.
    demanded (ltb 0 n && leb n 190) 80 >! λ _.
    demanded (username == strip username && not (contains_char 58 username)) 80 >! λ _.
    demanded (not (has_control username)) 80 >! λ _. utf8_length password >! λ m.
    demanded (leb 4 m && leb m 16384) 80 >! λ _.
    demanded
      (not (contains_char 13 password || contains_char 10 password || contains_char 0 password)) 80
    >! λ _. done (username, password)

-- `credentials(stream)`
unfoldable pub credentials : (Text → Result Json) → Text → Outcome (Text × Text)
credentials loads raw = demanded (leb (length raw) input_limit) 80 >! λ _.
    unguarded (loads raw) >! λ value. two_fields value >! λ fields.
    text_of (lookup (codes "username") fields) >! λ username.
    text_of (lookup (codes "password") fields) >! λ password. checked_credentials username password
