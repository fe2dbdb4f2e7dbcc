-- ===== src/Ingestion/Logs.antt =====
-- `log_body` of src/monitoring/agents/ingestion.py.
pub mod Attribution
pub mod Laws
use dragontools.Common.{
  ℕ, ◌*◌, Bool, true, false, not, ◌&&◌, ◌||◌, Option, none, some, List, [], ◌∷◌, ◌++◌, map, Text,
  codes, length, leb, ◌==◌, nat_eq, list_eq, if◌then◌else◌, byte_lines, occurs,
}
use dragontools.Common.Json.{
  Json, null, boolean, integer, negative, real, string, array, object, Items, Fields, items, keys,
  lookup, assign, remove, get, holds_text, truthy, equal, dumps,
}
use dragontools.Common.Result.{Result, ok, refused, broken, ◌>>=◌, ◌>>◌, demand, or_refused}

abbrev pub body_limit : ℕ
body_limit = 4194304

abbrev pub batch_limit : ℕ
batch_limit = 10000

-- `value[key]`, where each other value than an object raises `TypeError`.
abbrev pub item : Text → Json → Result Json
item k j = or_refused (get k j)

-- What a `for` goes through.
abbrev pub elements : Json → Result (List Json)
elements (array js) = ok (items js)
elements (object fs) = ok (map string (keys fs))
elements (string t) = ok (map (λ c. string (c ∷ [])) t)
elements _ = refused

abbrev pub any_equal : Json → List Json → Bool
any_equal j [] = false
any_equal j (i ∷ is) = equal i j || any_equal j is

-- `value in container`
unfoldable pub contains : Json → Json → Result Bool
contains (array js) j = ok (any_equal j (items js))
contains (string t) (string p) = ok (occurs p t)
contains (object fs) (string k) = ok (any_equal (string k) (map string (keys fs)))
contains (object fs) (array js) = refused
contains (object fs) (object gs) = refused
contains (object fs) _ = ok false
contains _ _ = refused

-- `value.get(key)`
abbrev pub or_null : Option Json → Json
or_null none = null
or_null (some j) = j

-- The assignments of the three names of a service.
abbrev pub name_service : Json → Json → Json → Fields → Fields
name_service application environment service value =
    assign (codes "service") service
      (assign (codes "environment") environment (assign (codes "application") application value))

abbrev pub is_event : Option Json → Bool
is_event e =
    holds_text (codes "host_reboot_required") e
    || holds_text (codes "host_reboot_requirement_cleared") e
    || holds_text (codes "host_stream_ready") e

unfoldable pub host_event : Fields → Result Fields
host_event value =
    demand (is_event (lookup (codes "event") value))
    >> ok (
        remove (codes "journal_unit") (
          name_service (string (codes "host")) (string (codes "host"))
            (string (codes "dragontools-host")) value))

-- `service["logs"] and service["systemd"] == unit`
unfoldable pub serves : Json → Json → Result Bool
serves unit service = item (codes "logs") service >>= λ logs.
    if truthy logs
    then item (codes "systemd") service >>= (λ systemd. ok (equal systemd unit))
    else ok false

-- The services of one application that log under the unit.
unfoldable pub serving : Json → Json → List Json → Result (List (Json × Json))
serving unit app [] = ok []
serving unit app (service ∷ services) =
    let rest = serving unit app services in
    serves unit service >>= λ found.
    rest >>= λ pairs. ok (if found then (app, service) ∷ pairs else pairs)

-- `matches`
unfoldable pub matches : Json → List Json → Result (List (Json × Json))
matches unit [] = ok []
matches unit (app ∷ apps) =
    let rest = matches unit apps in
    item (codes "services") app >>= λ listed. elements listed >>= λ services.
    serving unit app services >>= λ pairs. rest >>= λ more. ok (pairs ++ more)

unfoldable pub name_match : Fields → List (Json × Json) → Result Fields
name_match value ((app, service) ∷ []) = item (codes "name") app >>= λ application.
    item (codes "environment") app >>= λ environment. item (codes "name") service >>= λ name.
    ok (remove (codes "journal_unit") (name_service application environment name value))
name_match value _ = refused

unfoldable pub application_log : Json → Fields → Result Fields
application_log applications value = elements applications >>= λ apps.
    matches (or_null (lookup (codes "journal_unit") value)) apps >>= λ pairs. name_match value pairs

unfoldable pub service_log : Json → Fields → Result Fields
service_log registration value = item (codes "services") registration >>= λ services.
    contains services (or_null (lookup (codes "service") value)) >>= λ found.
    demand found >> ok value

-- The branch that a line takes, by its type and by whether the registration lists applications.
unfoldable pub attributed : Json → Fields → Result Fields
attributed registration value =
    if holds_text (codes "dragontools_host") (lookup (codes "type") value)
    then host_event value
    else elim (get (codes "applications") registration) [
      | none ↦ service_log registration value
      | some applications ↦
          if truthy applications
          then application_log applications value
          else service_log registration value
    ]

unfoldable pub host_of : Json → Fields → Result Fields
host_of registration value = item (codes "host") registration >>= λ host.
    ok (remove (codes "_stream") (assign (codes "host") host value))

-- The body of the loop, after `json.loads`.
unfoldable pub entry : Json → Json → Result Fields
entry registration (object value) = attributed registration value >>= host_of registration
entry registration _ = refused

-- `b"\n".join(output) + b"\n"`
abbrev pub joined : List Fields → Text
joined [] = []
joined (v ∷ vs) = dumps (object v) ++ (10 ∷ joined vs)

module _ (loads : Text → Result Json) where
  unfoldable pub entries : Json → List Text → Result (List Fields)
  entries registration [] = ok []
  entries registration (line ∷ lines) =
      let rest = entries registration lines in
      loads line >>= λ value.
      entry registration value >>= λ first. rest >>= λ more. ok (first ∷ more)

  unfoldable pub log_body : Text → Json → Result Text
  log_body body registration =
      demand (not (length (byte_lines body) == 0) && leb (length (byte_lines body)) batch_limit)
      >> (entries registration (byte_lines body) >>= λ output.
          demand (leb (length (joined output)) (2 * body_limit)) >> ok (joined output))
