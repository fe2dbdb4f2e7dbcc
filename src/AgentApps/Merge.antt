-- ===== src/AgentApps/Merge.antt =====
-- What `reconcile` of src/monitoring/agents/apps.py decides before it writes.
use dragontools.Common.{
  Bool, true, false, not, ◌&&◌, ◌||◌, Option, none, some, List, [], ◌∷◌, ◌++◌, map, Text, codes,
  length, leb, ◌==◌, nat_eq, list_eq, option_eq, if◌then◌else◌,
}
use dragontools.Common.Keys.{contains_key}
use dragontools.Common.Json.{
  Json, integer, string, array, object, Items, field, end, from_list, bool_beq,
}
use dragontools.Common.Result.{Result, ok, ◌>>=◌, ◌>>◌, claim}
use dragontools.AgentApps.Scope.{Service, App, Library, sort_by}
use dragontools.AgentApps.Manifests.{World, Manifest, limit, app_json, encoded, existing}

-- `==` on services and applications.
unfoldable pub same_service : Service → Service → Bool
same_service s t =
    s.name == t.name
    && (s.systemd == t.systemd && (bool_beq s.logs t.logs && s.metrics_url == t.metrics_url))

unfoldable pub same_services : List Service → List Service → Bool
same_services [] [] = true
same_services (s ∷ ss) (t ∷ ts) = same_service s t && same_services ss ts
same_services _ _ = false

unfoldable pub same_app : App → App → Bool
same_app a b =
    a.name == b.name && (a.environment == b.environment && same_services a.services b.services)

-- The first application of the name, and the station of the last one.
abbrev pub previous_app : Text → List Manifest → Option App
previous_app name [] = none
previous_app name (m ∷ ms) = if m.app.name == name then some m.app else previous_app name ms

abbrev pub later_station : Manifest → Text → Option Text → Option Text
later_station m name (some t) = some t
later_station m name none = if m.app.name == name then some m.station else none

abbrev pub previous_station : Text → List Manifest → Option Text
previous_station name [] = none
previous_station name (m ∷ ms) = later_station m name (previous_station name ms)

abbrev pub is_app : App → Option App → Bool
is_app desired none = false
is_app desired (some a) = same_app a desired

-- `previous == desired and previous_station == station`
unfoldable pub is_current : Manifest → List Manifest → Bool
is_current m ms =
    is_app m.app (previous_app m.app.name ms) && previous_station m.app.name ms == some m.station

abbrev others : Text → List Manifest → List App
others name [] = []
others name (m ∷ ms) = if m.app.name == name then others name ms else m.app ∷ others name ms

unfoldable pub merged : App → List Manifest → List App
merged desired ms = sort_by (λ (a : App). a.name) (others desired.name ms ++ (desired ∷ []))

abbrev all_services : List App → List Service
all_services [] = []
all_services (a ∷ rest) = a.services ++ all_services rest

abbrev pub units : List Service → List Text
units [] = []
units (s ∷ ss) = s.systemd ∷ units ss

abbrev pub logged : List Service → List Text
logged [] = []
logged (s ∷ ss) = if s.logs then s.systemd ∷ logged ss else logged ss

abbrev pub are_distinct : List Text → List Text → Bool
are_distinct seen [] = true
are_distinct seen (u ∷ us) = not (contains_key u seen) && are_distinct (u ∷ seen) us

abbrev app_items : List App → Items
app_items [] = Items.nil
app_items (a ∷ rest) = Items.cons (app_json a) (app_items rest)

unfoldable pub result_of : Text → Text → List App → Json
result_of host station apps = object (
    field (codes "version") (integer 1) (
      field (codes "host") (string host) (
        field (codes "station") (string station) (
          field (codes "applications") (array (app_items apps)) (
            field (codes "services")
              (array (from_list (map string (sort_by (λ t. t) (logged (all_services apps))))))
              (field (codes "metrics_targets") (array Items.nil) end))))))

module _ (library : Library) (host : Text) where
  -- What a run decides before it writes: its result, and whether the manifest changes.
  unfoldable pub decided : Manifest → Bool → World → Result (Json × Bool)
  decided m mutate w = existing library host mutate w >>= λ ms.
      claim (mutate || is_current m ms)
      >> (claim (
            leb (length (merged m.app ms)) 32
            && leb (length (all_services (merged m.app ms))) 64
            && are_distinct [] (units (all_services (merged m.app ms))))
          >> (claim (leb (length (encoded (result_of host m.station (merged m.app ms)))) limit)
              >> ok (result_of host m.station (merged m.app ms), not (is_current m ms))))
