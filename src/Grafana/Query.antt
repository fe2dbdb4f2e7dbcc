-- ===== src/Grafana/Query.antt =====
-- `logs_query_result` of src/monitoring/grafana_credentials.py.
use dragontools.Common.{
  ℕ, Bool, true, false, not, ◌&&◌, ◌||◌, Option, none, some, List, [], ◌∷◌, Text, codes, length,
  leb, ◌==◌, nat_eq, list_eq, if◌then◌else◌,
}
use dragontools.Common.Json.{
  Json, integer, array, object, items, keys, get, falsy, holds_text, is_number,
}
use dragontools.Grafana.Outcome.{Outcome, done, failure, raised, ◌>!◌, demanded}

abbrev pub is_object : Json → Bool
is_object (object fs) = true
is_object _ = false

abbrev pub object_of : Option Json → Outcome Json
object_of (some (object fs)) = done (object fs)
object_of _ = failure 86

abbrev pub list_of : Option Json → Outcome (List Json)
list_of (some (array js)) = done (items js)
list_of _ = failure 86

-- `set(results) == {"A"}`
abbrev pub only_a : Json → Bool
only_a (object fs) = keys fs == (codes "A" ∷ [])
only_a _ = false

-- `result.get("status", 200)`
abbrev pub status_of : Option Json → Json
status_of none = integer 200
status_of (some j) = j

abbrev pub is_unavailable : Json → Bool
is_unavailable j = is_number 500 j || is_number 502 j || is_number 503 j || is_number 504 j

abbrev pub all_objects : List Json → Bool
all_objects [] = true
all_objects (j ∷ js) = is_object j && all_objects js

-- A list or an object is no key of a `dict`.
abbrev pub is_unhashable : Option Json → Bool
is_unhashable (some (array js)) = true
is_unhashable (some (object fs)) = true
is_unhashable _ = false

unfoldable pub hashable_names : List Json → Outcome (Unit {0})
hashable_names [] = done tt
hashable_names (j ∷ js) =
    let rest = hashable_names js in if is_unhashable (get (codes "name") j) then raised else rest

-- `types.get(name)`, of which the last field of the name decides.
unfoldable pub type_named : Text → List Json → Option Json → Option Json
type_named name [] found = found
type_named name (j ∷ js) found =
    type_named name js
      (if holds_text name (get (codes "name") j) then get (codes "type") j else found)

abbrev pub rows_of : Json → Option ℕ
rows_of (array js) = some (length (items js))
rows_of _ = none

abbrev pub is_column : ℕ → Json → Bool
is_column n j = elim (rows_of j) [ none ↦ false | some m ↦ m == n ]

abbrev pub all_columns : ℕ → List Json → Bool
all_columns n [] = true
all_columns n (j ∷ js) = is_column n j && all_columns n js

unfoldable pub short_columns : List Json → Bool
short_columns [] = false
short_columns (j ∷ js) = elim (rows_of j) [ none ↦ false | some n ↦ all_columns n js && leb n 1 ]

unfoldable pub frame_ok : Json → Outcome (Unit {0})
frame_ok frame = object_of (get (codes "schema") frame) >! λ schema.
    object_of (get (codes "data") frame) >! λ data_part.
    demanded (holds_text (codes "A") (get (codes "refId") schema)) 86 >! λ _.
    list_of (get (codes "fields") schema) >! λ fields.
    list_of (get (codes "values") data_part) >! λ values.
    demanded (length fields == length values && leb 2 (length fields)) 86 >! λ _.
    demanded (all_objects fields) 86 >! λ _. hashable_names fields >! λ _.
    demanded
      (holds_text (codes "time") (type_named (codes "Time") fields none)
        && holds_text (codes "string") (type_named (codes "Line") fields none))
      86
    >! λ _. demanded (short_columns values) 86

unfoldable pub one_frame : List Json → Outcome Json
one_frame (j ∷ []) = object_of (some j)
one_frame _ = failure 86

-- `logs_query_result(value)`
unfoldable pub logs_query_result : Json → Outcome (Unit {0})
logs_query_result value = demanded (falsy (get (codes "error") value)) 86 >! λ _.
    object_of (get (codes "results") value) >! λ results. demanded (only_a results) 86 >! λ _.
    object_of (get (codes "A") results) >! λ result.
    (if is_unavailable (status_of (get (codes "status") result))
        && not (falsy (get (codes "error") result))
      then failure 84
      else done tt)
    >! λ _.
        demanded
          (is_number 200 (status_of (get (codes "status") result))
            && falsy (get (codes "error") result))
          86
        >! λ _. list_of (get (codes "frames") result) >! λ frames.
            one_frame frames >! λ frame. frame_ok frame
