-- ===== src/AgentApps/Manifests.antt =====
-- The files of `reconcile` of src/monitoring/agents/apps.py: what they must be, the manifest of an
-- application and its text, and what a run reads before it writes.
use dragontools.Common.{
  ℕ, Bool, true, false, not, ◌&&◌, ◌||◌, Option, none, some, List, [], ◌∷◌, ◌++◌, Text, codes,
  length, leb, ◌==◌, nat_eq, list_eq, option_eq, if◌then◌else◌,
}
use dragontools.Common.Identifiers.{is_identifier, is_alphanumeric, all_codes}
use dragontools.Common.Json.Read.{present, text_of}
use dragontools.Common.Keys.{same_set, find}
use dragontools.Common.Json.{
  Json, null, boolean, integer, string, array, object, end, field, keys, lookup, is_number, is_text,
  dumps, sorted_keys, Items,
}
use dragontools.Common.Result.{Result, ok, broken, ◌>>=◌, ◌>>◌, claim}
use dragontools.Scrape.Files.{Entry, found, private_mode, has_mode}
use dragontools.AgentApps.Scope.{Service, App, Library, scope, strip_suffix, sort_by}

abbrev pub limit : ℕ
limit = 196608

abbrev pub marker : Text
marker = codes "DragonTools application agent manifests v1\n"

abbrev pub marker_name : Text
marker_name = codes ".dragontools-managed"

-- `BASE`: it is missing, it is no directory of root with the mode 0o755, or it has these files.
pub data Base : Type 0 where
  absent unusable : Base
  listed : List (Text × Entry) → Base

-- The parent of `BASE`, `BASE`, and whether there are files of the agents of a host without applications.
pub record World : Type 0 where
  pub parent_valid : Bool
  pub base : Base
  pub raw_agent : Bool

-- `read(path)`
unfoldable pub read : Option Entry → Result Text
read (some (found i)) =
    claim (has_mode private_mode i && leb (length i.content) limit) >> ok i.content
read _ = broken

abbrev url_json : Option Text → Json
url_json none = null
url_json (some t) = string t

abbrev service_json : Service → Json
service_json s = object (
    field (codes "name") (string s.name) (
      field (codes "systemd") (string s.systemd) (
        field (codes "logs") (boolean s.logs)
          (field (codes "metrics_url") (url_json s.metrics_url) end))))

abbrev pub services_json : List Service → Items
services_json [] = Items.nil
services_json (s ∷ ss) = Items.cons (service_json s) (services_json ss)

abbrev pub app_json : App → Json
app_json a = object (
    field (codes "name") (string a.name) (
      field (codes "environment") (string a.environment)
        (field (codes "services") (array (services_json a.services)) end)))

-- `encoded(value)`
unfoldable pub encoded : Json → Text
encoded value = dumps (sorted_keys value) ++ codes "\n"

-- The application that a manifest registers, and the station.
pub record Manifest : Type 0 where
  pub station : Text
  pub app : App

abbrev pub manifest_json : Json → Text → Manifest → Json
manifest_json version host m = object (
    field (codes "version") version (
      field (codes "host") (string host) (
        field (codes "station") (string m.station)
          (field (codes "application") (app_json m.app) end))))

-- What `reconcile` writes.
unfoldable pub manifest_text : Text → Manifest → Text
unfolding encoded
manifest_text host m = encoded (manifest_json (integer 1) host m)

-- `text.split('.')`
abbrev pub split_dots : Text → List Text
split_dots [] = [] ∷ []
split_dots (c ∷ s) =
    if c == 46
    then [] ∷ split_dots s
    else elim (split_dots s) [ [] ↦ (c ∷ []) ∷ [] | l ∷ ls ↦ (c ∷ l) ∷ ls ]

abbrev is_label_end : Text → Bool
is_label_end [] = true
is_label_end (c ∷ []) = is_alphanumeric c
is_label_end (c ∷ d ∷ s) = is_label_end (d ∷ s)

-- `[A-Za-z0-9](?:[A-Za-z0-9-]{0,61}[A-Za-z0-9])?`, the whole text
abbrev is_host_label : Text → Bool
is_host_label [] = false
is_host_label (c ∷ s) =
    is_alphanumeric c
    && (leb (length s) 62 && all_codes (λ d. is_alphanumeric d || d == 45) s && is_label_end s)

abbrev all_labels : List Text → Bool
all_labels [] = true
all_labels (l ∷ ls) = is_host_label l && all_labels ls

unfoldable pub is_station : Text → Bool
is_station t = not (t == []) && leb (length t) 253 && all_labels (split_dots t)

abbrev pub json_name : Text → Text
json_name name = name ++ codes ".json"

abbrev is_some_identifier : Option Text → Bool
is_some_identifier none = false
is_some_identifier (some name) = is_identifier name

-- `[.][A-Za-z0-9][A-Za-z0-9_-]{0,62}[.]pending`
unfoldable pub is_pending : Text → Bool
is_pending [] = false
is_pending (c ∷ s) = c == 46 && is_some_identifier (strip_suffix (codes ".pending") s)

module _ (library : Library) (host : Text) where
  -- The manifest in the bytes of a file.
  unfoldable pub manifest_of : Text → Json → Result Manifest
  manifest_of raw (object fs) =
      claim (
        same_set (keys fs)
          (codes "version" ∷ codes "host" ∷ codes "station" ∷ codes "application" ∷ []))
      >> (present (lookup (codes "version") fs) >>= λ version.
          present (lookup (codes "host") fs) >>= λ owner.
          claim (is_number 1 version && is_text host owner)
          >> (text_of (lookup (codes "station") fs) >>= λ station.
              claim (is_station station)
              >> (present (lookup (codes "application") fs) >>= λ value.
                  scope library value >>= λ app.
                  let m : Manifest = record { station = station; app = app } in
                  claim (raw == encoded (manifest_json version host m)) >> ok m)))
  manifest_of raw _ = broken

  unfoldable pub parsed : Text → Result Manifest
  parsed raw = present (library.loads raw) >>= λ value. manifest_of raw value

  -- A manifest file: its name is that of the application.
  unfoldable pub read_manifest : Text → Text → Result Manifest
  read_manifest filename raw =
      claim (is_some_identifier (strip_suffix (codes ".json") filename))
      >> (parsed raw >>= λ (m : Manifest). claim (json_name m.app.name == filename) >> ok m)

  -- The bytes of a file that is not the marker; what follows comes after its manifest.
  unfoldable pub add_raw : Bool → Text → Text → Result (List Manifest) → Result (List Manifest)
  add_raw true filename raw rest = rest
  add_raw false filename raw rest = read_manifest filename raw >>= λ m. rest >>= λ ms. ok (m ∷ ms)

  unfoldable pub add_file : Bool → Text → Entry → Result (List Manifest) → Result (List Manifest)
  add_file true filename e rest = rest
  add_file false filename e rest =
      read (some e) >>= λ raw. add_raw (is_pending filename) filename raw rest

  -- The loop over the sorted names.
  unfoldable pub manifests_from : List (Text × Entry) → Result (List Manifest)
  manifests_from [] = ok []
  manifests_from ((filename, e) ∷ rest) =
      add_file (filename == marker_name) filename e (manifests_from rest)

  -- What is registered in `BASE`.
  unfoldable pub existing_in : Bool → Bool → Base → Result (List Manifest)
  existing_in mutate raw_agent absent = claim (not raw_agent && mutate) >> ok []
  existing_in mutate raw_agent unusable = broken
  existing_in mutate raw_agent (listed files) = read (find marker_name files) >>= λ raw.
      claim (raw == marker && leb (length files) 65)
      >> manifests_from (sort_by (λ (f : Text × Entry). f.0) files)

  unfoldable pub existing : Bool → World → Result (List Manifest)
  existing mutate w = claim w.parent_valid >> existing_in mutate w.raw_agent w.base
