-- ===== src/Scrape/Runtime.antt =====
-- The requests of src/monitoring/scrape.py to the running VictoriaMetrics, and the targets that it is
-- expected to scrape. `refused` is `NotReady`, `broken` is any other exception.
pub mod Targets
pub mod Loaded
pub mod Stored
pub mod Main
mod Laws
mod Policy
mod Samples
mod States
mod Outcomes
mod Tests
use dragontools.Common.Identifiers.{is_alphanumeric, all_codes, is_identifier}
use dragontools.Common.{
  ℕ, ◌+◌, ◌*◌, Bool, true, false, not, ◌&&◌, ◌||◌, Option, none, some, List, [], ◌∷◌, ◌++◌, Text,
  codes, length, ltb, leb, ◌==◌, nat_eq, list_eq, if◌then◌else◌,
}
use dragontools.Common.Json.Read.{present, text_of}
use dragontools.Common.Keys.{contains_key, same_set, find, put, names}
use dragontools.Common.Json.{
  Json, string, array, object, Fields, end, field, items, keys, get, lookup, holds_text,
}
use dragontools.Common.Result.{Result, ok, refused, broken, ◌>>=◌, ◌>>◌, demand, claim}

-- What a request gives: an exception of the connection, or the status and the body.
pub data Reply : Type 0 where
  unreachable : Reply
  received : ℕ → Text → Reply

-- The parts of a URL; `hostname`, `username` and `password` may be `None`.
pub record Url : Type 0 where
  pub scheme : Text
  pub netloc : Text
  pub path : Text
  pub query : Text
  pub fragment : Text
  pub hostname : Option Text
  pub username : Option Text
  pub password : Option Text

-- A finite `float`: its sign, and its size in units of 2 ** -1074, of which each one is a multiple.
pub record Number : Type 0 where
  pub is_negative : Bool
  pub size : ℕ

-- The configuration of a registered application, as far as it is read here.
pub record Registration : Type 0 where
  pub application : Text
  pub environment : Text
  pub probes : List (Text × Text)

-- What a run gets from the server, from the clock and from Python's library.
pub record Host : Type 0 where
  pub reply : Text → Reply
  -- What `app_all` gives in `loaded_policy` and in `targets_loaded`.
  pub registrations : Result (List Registration)
  pub registrations_again : Result (List Registration)
  -- `time.time()` in `targets_loaded` and in `stored_states`, and how many units a second has.
  pub now : ℕ
  pub now_again : ℕ
  pub unit : ℕ
  pub loads : Text → Option Json
  pub decode : Text → Option Text
  pub b64decode : Text → Option Text
  pub urlsplit : Text → Option Url
  -- `parse_qs` with `strict_parsing`, by its keys.
  pub parse_qs : Text → Option (List (Text × List Text))
  pub urlencode : List (Text × Text) → Text
  pub re_escape : Text → Text
  -- `str` of a value that is no text.
  pub str : Json → Text
  -- `float(text)`; also `none` where the result is not finite.
  pub float : Text → Option Number
  -- `fromisoformat(text)`: `none` is `ValueError`, `some none` is a time without a zone, otherwise
  -- its `timestamp()`.
  pub fromisoformat : Text → Option (Option Number)

-- The labels of an expected target; those of an application have two texts more.
pub record Labels : Type 0 where
  pub job : Text
  pub instance_label : Text
  pub probe : Text
  pub target : Text
  pub owner : Option (Text × Text)

abbrev pub job_name : Text
job_name = codes "dragontools-blackbox"

abbrev pub max_response : ℕ
max_response = 1024 * 1024

abbrev owner_fields : Option (Text × Text) → Fields
owner_fields none = end
owner_fields (some (application, environment)) =
    field (codes "managed_by") (string (codes "dragontools")) (
      field (codes "application") (string application)
        (field (codes "environment") (string environment) end))

-- The dictionary of the labels.
abbrev pub label_fields : Labels → Fields
label_fields l = field (codes "job") (string l.job) (
    field (codes "instance") (string l.instance_label) (
      field (codes "probe") (string l.probe)
        (field (codes "target") (string l.target) (owner_fields l.owner))))

abbrev pub app_job : Registration → Text
app_job r = codes "dragontools-app-" ++ r.application

-- The loop over the probes of one application.
unfoldable pub put_probes :
    Registration → List (Text × Text) → List (Text × Labels) → List (Text × Labels)
put_probes r [] es = es
put_probes r ((name, url) ∷ ps) es = put_probes r ps (
    put (app_job r ++ (codes "/" ++ name))
      (record {
        job = app_job r;
        instance_label = name;
        probe = name;
        target = url;
        owner = some (r.application, r.environment);
      })
      es)

-- `application_definitions()`, by what `app_all` gives
unfoldable pub application_definitions :
    List Registration → List (Text × Labels) → List (Text × Labels)
application_definitions [] es = es
application_definitions (r ∷ rs) es = application_definitions rs (put_probes r r.probes es)

-- `dict(entries, **others)`
unfoldable pub merge : List (Text × Labels) → List (Text × Labels) → List (Text × Labels)
merge es [] = es
merge es ((k, v) ∷ others) = merge (put k v es) others

module _ (host : Host) where
  -- `request(path)`
  unfoldable pub request : Text → Result Text
  request path = elim (host.reply path) [
    | unreachable ↦ refused
    | received status body ↦
        demand (
          not (
            status == 425
            || status == 429
            || status == 500
            || status == 502
            || status == 503
            || status == 504))
        >> (claim (status == 200) >> (claim (leb (length body) max_response) >> ok body))
  ]

  abbrev data_of : Json → Result Json
  data_of value = present (get (codes "data") value) >>= λ part. elim part [
    | object fs ↦ ok (object fs)
    | _ ↦ broken
  ]

  -- `json_response(path)`
  unfoldable pub json_response : Text → Result Json
  json_response path = request path >>= λ body. present (host.loads body) >>= λ value.
      claim (holds_text (codes "success") (get (codes "status") value)) >> data_of value

  abbrev pub is_empty : Option Text → Bool
  is_empty none = true
  is_empty (some t) = t == []

  abbrev is_none : Option Text → Bool
  is_none none = true
  is_none (some t) = false

  abbrev is_probe_url : Url → Bool
  is_probe_url u =
      (u.scheme == codes "http" || u.scheme == codes "https")
      && not (is_empty u.hostname)
      && is_none u.username
      && is_none u.password
      && u.query == []
      && u.fragment == []

  -- A probe: its name and its URL.
  unfoldable pub probe_of : Json → Result (Text × Text)
  probe_of (object fs) =
      claim (same_set (keys fs) (codes "name" ∷ codes "url" ∷ []))
      >> (text_of (lookup (codes "name") fs) >>= λ name.
          claim (is_identifier name)
          >> (text_of (lookup (codes "url") fs) >>= λ target.
              claim (
                leb 1 (length target)
                && leb (length target) 2048
                && all_codes (λ c. ltb 32 c && ltb c 127) target)
              >> (present (host.urlsplit target) >>= λ url.
                  claim (is_probe_url url) >> ok (name, target))))
  probe_of _ = broken

  abbrev pub own_labels : Text → Text → Labels
  own_labels name target = record {
    job = job_name;
    instance_label = name;
    probe = name;
    target = target;
    owner = none;
  }

  unfoldable pub definitions_from : List Text → List Json → Result (List (Text × Labels))
  definitions_from seen [] = ok []
  definitions_from seen (p ∷ ps) = probe_of p >>= λ (name, target).
      claim (not (contains_key name seen))
      >> (definitions_from (name ∷ seen) ps >>= λ rest. ok ((name, own_labels name target) ∷ rest))

  -- `definitions(probes)`
  unfoldable pub definitions : Json → Result (List (Text × Labels))
  definitions (array ps) = claim (leb (length (items ps)) 64) >> definitions_from [] (items ps)
  definitions _ = broken

  -- `str(labels.get(key))`
  abbrev str_of : Option Json → Text
  str_of none = codes "None"
  str_of (some (string t)) = t
  str_of (some j) = host.str j

  -- `target_key(labels)`, where it is a text
  unfoldable pub target_key : Fields → Option Text
  target_key fs =
      if holds_text job_name (lookup (codes "job") fs)
      then elim (lookup (codes "probe") fs) [ some (string t) ↦ some t | _ ↦ none ]
      else some
          (str_of (lookup (codes "job") fs) ++ (codes "/" ++ str_of (lookup (codes "probe") fs)))

  -- `-5 <= now - stamp <= FRESH_SECONDS`
  abbrev pub is_fresh : ℕ → Number → Bool
  is_fresh time stamp =
      if stamp.is_negative
      then leb (time + stamp.size) (90 * host.unit)
      else leb stamp.size (time + 5 * host.unit) && leb time (stamp.size + 90 * host.unit)
