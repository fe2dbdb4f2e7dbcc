-- ===== src/Rules/Validate.antt =====
-- `validate_group`, `validate`, `validate_application` and `main` of src/monitoring/vmalert_rules.py.
pub mod Laws
use dragontools.Common.{
  ℕ, Bool, true, false, not, ◌&&◌, ◌||◌, Option, none, some, List, [], ◌∷◌, map, Text, codes,
  length, leb, ◌==◌, nat_eq, list_eq, if◌then◌else◌,
}
use dragontools.Common.Json.Read.{present}
use dragontools.Common.Keys.{contains_key, same_set}
use dragontools.Common.Json.{Json, array, object, string, get, holds_text}
use dragontools.Common.Result.{Result, ok, refused, broken, ◌>>=◌, ◌>>◌, demand, claim}
use dragontools.Rules.Once.{each}
use dragontools.Rules.Packs.{Expected, probes_pack, hosts_pack, logs_pack}
use dragontools.Rules.Events.{host_events}
use dragontools.Rules.Check.{
  Clock, response_groups, holds_number, plain_group, check_pack, check_application_group,
}

-- Which of the two instances of vmalert is meant.
pub data Kind : Type 0 where
  logs metrics : Kind

module _ (clock : Clock) where
  abbrev pub file_of : Kind → Text
  file_of logs = codes "/etc/dragontools/vmalert-logs/rules.yml"
  file_of metrics = codes "/etc/dragontools/vmalert-metrics/rules.yml"

  abbrev pub datasource_of : Kind → Text
  datasource_of logs = codes "vlogs"
  datasource_of metrics = codes "prometheus"

  abbrev pub interval_of : Kind → ℕ
  interval_of logs = 60
  interval_of metrics = 30

  abbrev pub base_groups : Kind → List Text
  base_groups logs = codes "dragontools-logs" ∷ codes "dragontools-host-events" ∷ []
  base_groups metrics = codes "dragontools-probes" ∷ codes "dragontools-hosts" ∷ []

  abbrev pub pack_of : Text → List Expected
  pack_of name =
      if name == codes "dragontools-probes"
      then probes_pack
      else if name == codes "dragontools-hosts"
      then hosts_pack
      else logs_pack

  -- `validate_group`
  unfoldable pub check_group : Kind → Text → Json → Result (Unit {0})
  check_group kind name group =
      claim (
        holds_text (file_of kind) (get (codes "file") group)
        && holds_text (datasource_of kind) (get (codes "type") group))
      >> (claim (holds_number (interval_of kind) (get (codes "interval") group))
          >> (claim (plain_group clock group)
              >> (if name == codes "dragontools-host-events"
                  then check_application_group clock (file_of kind) host_events group
                  else check_pack clock (file_of kind) (datasource_of kind) (pack_of name) group)))

  -- A list or an object is no key of a set.
  abbrev pub is_unhashable : Option Json → Bool
  is_unhashable (some (array js)) = true
  is_unhashable (some (object fs)) = true
  is_unhashable _ = false

  abbrev pub known_name : List Text → Option Json → Option Text
  known_name names (some (string t)) = if contains_key t names then some t else none
  known_name names _ = none

  -- `group.get("name") in names`
  unfoldable pub group_name : List Text → Json → Result (Option Text)
  group_name names group =
      claim (not (is_unhashable (get (codes "name") group)))
      >> ok (known_name names (get (codes "name") group))

  -- `validate(value, kind)`
  unfoldable pub validate : Kind → Json → Result (Unit {0})
  validate kind value = response_groups value >>= λ groups.
      each (group_name (base_groups kind)) (check_group kind) [] groups >>= λ seen.
      demand (same_set seen (base_groups kind))

  -- A group of an application: a group of its file that is not expected is an error.
  unfoldable pub application_group : Text → List Text → Json → Result (Option Text)
  application_group file names group = group_name names group >>= λ o. elim o [
    | some name ↦ ok (some name)
    | none ↦ claim (not (holds_text file (get (codes "file") group))) >> ok none
  ]

  abbrev pub find_group : Text → List (Text × Json) → Result Json
  find_group name [] = broken
  find_group name ((n, g) ∷ rest) =
      let more = find_group name rest in if n == name then ok g else more

  unfoldable pub named_group : Text → List (Text × Json) → Text → Json → Result (Unit {0})
  named_group file expected name group = find_group name expected >>= λ wanted_group.
      check_application_group clock file wanted_group group

  -- `validate_application(value, kind, config)`, with the file and the groups of the configuration
  unfoldable pub validate_application : Text → List (Text × Json) → Json → Result (Unit {0})
  validate_application file expected value = response_groups value >>= λ groups.
      each (application_group file (map (λ g. g.0) expected)) (named_group file expected) [] groups
      >>= λ seen. demand (same_set seen (map (λ g. g.0) expected))

-- What the request to vmalert gives: an exception of the connection, or the status and the body.
pub data Reply : Type 0 where
  unreachable : Reply
  received : ℕ → Text → Reply

-- The body of `main` after its argument.
unfoldable pub checked : Clock → (Text → Option Json) → Kind → Reply → Result (Unit {0})
checked clock loads kind unreachable = refused
checked clock loads kind (received status body) =
    demand (not (status == 500 || status == 502 || status == 503 || status == 504))
    >> (claim (status == 200)
        >> (claim (leb (length body) 1048576)
            >> (present (loads body) >>= λ value. validate clock kind value)))

-- The exit status of `main`.
unfoldable pub exit_status : Result (Unit {0}) → ℕ
exit_status (ok u) = 0
exit_status refused = 75
exit_status broken = 1

unfoldable pub main : Clock → (Text → Option Json) → Kind → Reply → ℕ
unfolding exit_status
main clock loads kind reply = exit_status (checked clock loads kind reply)
