-- ===== src/Signals/Queries.antt =====
-- `request`, `metric` and `log_ready` of src/monitoring/agents/signals.py.
use dragontools.Common.{
  ℕ, Bool, true, false, not, ◌&&◌, ◌||◌, Option, none, some, List, [], ◌∷◌, ◌++◌, map, Text, codes,
  length, leb, ◌==◌, nat_eq, list_eq, if◌then◌else◌, byte_lines,
}
use dragontools.Common.Json.{
  Json, null, string, array, object, items, keys, get, holds_text, truthy, equal,
}
use dragontools.Common.Result.{Result, ok, refused, broken, ◌>>=◌, ◌>>◌}

-- What a `POST` to a port of the station gives.
pub data Reply : Type 0 where
  unreachable : Reply
  received : ℕ → Text → Reply

-- The station's answers by the port, the path and the query, `json.loads` and `json.dumps`, and whether
-- a time stamp is of `since` or later, `none` for its `ValueError`.
pub record Station : Type 0 where
  pub ask : ℕ → Text → Text → Reply
  pub loads : Text → Option Json
  pub dumps : Json → Text
  pub since_text : Text
  pub is_since : Text → Option Bool

unfoldable pub claim : Bool → Result (Unit {0})
claim true = ok tt
claim false = broken

abbrev pub present : {A : Type 0} → Option A → Result A
present none = broken
present (some a) = ok a

-- `value[key]`
abbrev pub item : Text → Json → Result Json
item key value = present (get key value)

-- What a `for` goes through.
abbrev pub elements : Json → Result (List Json)
elements (array js) = ok (items js)
elements (object fs) = ok (map string (keys fs))
elements (string t) = ok (map (λ c. string (c ∷ [])) t)
elements _ = broken

abbrev pub text_of : Option Json → Result Text
text_of (some (string t)) = ok t
text_of _ = broken

-- `value.get(key)`, for a value that is an object.
abbrev pub object_of : Json → Result Json
object_of (object fs) = ok (object fs)
object_of _ = broken

-- `entry.get(key) != value`
abbrev pub differs : Json → Option Json → Bool
differs v none = not (equal null v)
differs v (some j) = not (equal j v)

unfoldable pub body_of : Reply → Result Text
body_of unreachable = refused
body_of (received status body) =
    if status == 500 || status == 502 || status == 503 || status == 504
    then refused
    else claim (status == 200 && leb (length body) 1048576) >> ok body

module _ (station : Station) where
  -- `metric(query)`
  unfoldable pub metric : Text → Result Bool
  metric query = body_of (station.ask 8428 (codes "/api/v1/query") query) >>= λ body.
      present (station.loads body) >>= λ value. object_of value >>= λ result.
      claim (holds_text (codes "success") (get (codes "status") result))
      >> (item (codes "data") result >>= λ part.
          claim (holds_text (codes "vector") (get (codes "resultType") part))
          >> (item (codes "result") part >>= λ rows. ok (truthy rows)))

  -- The stream of an identity, whose keys are sorted.
  unfoldable pub fields_of : List (Text × Json) → Text
  fields_of [] = codes "}"
  fields_of ((key, value) ∷ []) = key ++ (codes "=" ++ (station.dumps value ++ codes "}"))
  fields_of ((key, value) ∷ (next ∷ rest)) =
      key ++ (codes "=" ++ (station.dumps value ++ (codes "," ++ fields_of (next ∷ rest))))

  abbrev pub stream_of : List (Text × Json) → Text
  stream_of identity = codes "{" ++ fields_of identity

  abbrev pub any_differs : Json → List (Text × Json) → Bool
  any_differs entry [] = false
  any_differs entry ((key, value) ∷ rest) = differs value (get key entry) || any_differs entry rest

  unfoldable pub log_entry : List (Text × Json) → List Text → Result Bool
  log_entry identity [] = ok false
  log_entry identity (line ∷ lines) = present (station.loads line) >>= λ value.
      object_of value >>= λ entry.
      claim (
        not (
          any_differs entry identity
          || differs (string (stream_of identity)) (get (codes "_stream") entry)))
      >> (text_of (get (codes "_time") entry) >>= λ stamp. present (station.is_since stamp))

  -- `log_ready(identity, since)`
  unfoldable pub log_ready : List (Text × Json) → Result Bool
  log_ready identity =
      body_of (
        station.ask 9428 (codes "/select/logsql/query")
          (stream_of identity ++ codes " _time:2m | sort by (_time) desc limit 1"))
      >>= λ body. log_entry identity (byte_lines body)
