-- ===== src/Rules/Check.antt =====
-- The rules and groups of src/monitoring/vmalert_rules.py: what a rule of a pack and a rule of an
-- application must be, and `validate_application_group`.
pub mod Laws
pub mod Specs
use dragontools.Common.Json.Read.{present, text_of, list_of, is_object, all_objects, holds}
use dragontools.Common.{
  ℕ, ◌+◌, ◌*◌, Bool, true, false, not, ◌&&◌, ◌||◌, Option, none, some, List, [], ◌∷◌, ◌++◌, map,
  Text, codes, strip, starts_with, length, ltb, leb, ◌==◌, nat_eq, list_eq, pair_eq, Equality,
  if◌then◌else◌,
}
use dragontools.Common.Keys.{contains_key, same_set}
use dragontools.Common.Json.{
  Json, null, string, array, object, Items, items, field, end, get, falsy, is_text, holds_text,
  is_number, equal, dumps, sorted_keys,
}
use dragontools.Common.Result.{Result, ok, refused, broken, ◌>>=◌, ◌>>◌, demand, claim}
use dragontools.Rules.Once.{each}
use dragontools.Rules.Packs.{Expected, probes_pack, hosts_pack, logs_pack}
use dragontools.Rules.Events.{host_events}

-- The time, and what `datetime.fromisoformat(text.replace("Z", "+00:00")).timestamp()` gives, both in
-- units of 2 ** -22 seconds; an instant before the epoch counts as the epoch. Its `ValueError` is
-- `none`, and so is any exception of `app_duration`.
pub record Clock : Type 0 where
  pub now : ℕ
  pub timestamp : Text → Option ℕ
  pub app_duration : Json → Option ℕ

abbrev pub second : ℕ
second = 4194304

-- `value.get(key) == number`
abbrev pub holds_number : ℕ → Option Json → Bool
holds_number n none = false
holds_number n (some j) = is_number n j

-- `value.get(key, 0) == 0`
abbrev pub zero_or_absent : Option Json → Bool
zero_or_absent none = true
zero_or_absent (some j) = is_number 0 j

-- `response_groups(value)`
unfoldable pub response_groups : Json → Result (List Json)
response_groups value =
    claim (holds_text (codes "success") (get (codes "status") value))
    >> (present (get (codes "data") value) >>= λ part.
        list_of (get (codes "groups") part) >>= λ groups. claim (all_objects groups) >> ok groups)

-- `rule.get("query", "").strip()`
abbrev pub query_of : Option Json → Result Text
query_of none = ok []
query_of (some (string t)) = ok (strip t)
query_of (some _) = broken

abbrev pub one_of : List Text → Option Json → Bool
one_of [] o = false
one_of (t ∷ ts) o = holds_text t o || one_of ts o

module _ (clock : Clock) where
  -- `-5 <= now - evaluated <= 120`
  abbrev pub is_recent : ℕ → Bool
  is_recent evaluated =
      leb evaluated (clock.now + 5 * second) && leb clock.now (evaluated + 120 * second)

  -- The last checks of a rule, which both kinds of group share.
  unfoldable pub evaluated : Json → Result (Unit {0})
  evaluated rule =
      claim (one_of (codes "ok" ∷ codes "err" ∷ codes "unknown" ∷ []) (get (codes "health") rule))
      >> (demand (
            holds_text (codes "ok") (get (codes "health") rule)
            && falsy (get (codes "lastError") rule))
          >> (text_of (get (codes "lastEvaluation") rule) >>= λ stamp.
              demand (not (starts_with stamp (codes "0001-")))
              >> (present (clock.timestamp stamp) >>= λ t.
                  demand (is_recent t)
                  >> claim (
                      one_of (codes "inactive" ∷ codes "pending" ∷ codes "firing" ∷ [])
                        (get (codes "state") rule)))))

  abbrev pub plain_group : Json → Bool
  plain_group group =
      falsy (get (codes "params") group)
      && falsy (get (codes "headers") group)
      && falsy (get (codes "notifier_headers") group)
      && falsy (get (codes "labels") group)

  abbrev pub labels_of : Expected → Json
  labels_of e = object (
      field (codes "severity") (string e.severity) (
        field (codes "source") (string e.source)
          (field (codes "managed_by") (string (codes "dragontools")) end)))

  -- One rule of a pack.
  unfoldable pub check_rule : Text → Text → Expected → Json → Result (Unit {0})
  check_rule file datasource e rule = query_of (get (codes "query") rule) >>= λ query.
      claim (query == e.query && holds_number e.duration (get (codes "duration") rule))
      >> (claim (
            holds_text (codes "alerting") (get (codes "type") rule)
            && holds_text datasource (get (codes "datasourceType") rule))
          >> (claim (
                holds_text file (get (codes "file") rule)
                && zero_or_absent (get (codes "keep_firing_for") rule))
              >> (claim (holds (labels_of e) (get (codes "labels") rule))
                  >> (claim (holds e.annotations (get (codes "annotations") rule))
                      >> (claim (falsy (get (codes "debug") rule)) >> evaluated rule)))))

  -- `expected[name]`
  abbrev pub find_rule : Text → List Expected → Result Expected
  find_rule name [] = broken
  find_rule name (e ∷ es) = let rest = find_rule name es in if e.name == name then ok e else rest

  -- `rule.get("name")` among the expected names
  unfoldable pub rule_name : List Expected → Json → Result (Option Text)
  rule_name pack rule =
      claim (is_object rule)
      >> (text_of (get (codes "name") rule) >>= λ name.
          claim (contains_key name (map (λ (e : Expected). e.name) pack)) >> ok (some name))

  unfoldable pub named_rule : Text → Text → List Expected → Text → Json → Result (Unit {0})
  named_rule file datasource pack name rule =
      find_rule name pack >>= λ e. check_rule file datasource e rule

  unfoldable pub check_pack : Text → Text → List Expected → Json → Result (Unit {0})
  check_pack file datasource pack group = list_of (get (codes "rules") group) >>= λ rules.
      each (rule_name pack) (named_rule file datasource pack) [] rules >>= λ seen.
      demand (same_set seen (map (λ (e : Expected). e.name) pack))

  -- `json.dumps(value, sort_keys=True)` as a key; two values have the same text with any separators.
  abbrev pub labels_key : Option Json → Text
  labels_key none = dumps null
  labels_key (some j) = dumps (sorted_keys j)

  -- A key of `wanted`.
  abbrev pub spec_key : Json → Result (Text × Text)
  spec_key spec = text_of (get (codes "alert") spec) >>= λ alert.
      present (get (codes "labels") spec) >>= λ labels. ok (alert, labels_key (some labels))

  unfoldable pub wanted : List Json → Result (List ((Text × Text) × Json))
  wanted [] = ok []
  wanted (spec ∷ specs) =
      let rest = wanted specs in spec_key spec >>= λ key. rest >>= λ more. ok ((key, spec) ∷ more)

  abbrev pub find_spec : Text × Text → List ((Text × Text) × Json) → Option Json
  find_spec key [] = none
  find_spec key ((k, spec) ∷ rest) = elim (find_spec key rest) [
    | some found ↦ some found
    | none ↦ if k == key then some spec else none
  ]

  abbrev pub duration_of : Option Json → Result ℕ
  duration_of none = ok 0
  duration_of (some j) = present (clock.app_duration j)

  unfoldable pub check_spec : Text → Json → Json → Json → Result (Unit {0})
  check_spec file datasource spec rule = query_of (get (codes "query") rule) >>= λ query.
      present (get (codes "expr") spec) >>= λ expr.
      claim (is_text query expr)
      >> (duration_of (get (codes "for") spec) >>= λ duration.
          claim (holds_number duration (get (codes "duration") rule))
          >> (claim (
                holds_text (codes "alerting") (get (codes "type") rule)
                && holds datasource (get (codes "datasourceType") rule)
                && holds_text file (get (codes "file") rule))
              >> (present (get (codes "annotations") spec) >>= λ annotations.
                  claim (
                    holds annotations (get (codes "annotations") rule)
                    && zero_or_absent (get (codes "keep_firing_for") rule)
                    && falsy (get (codes "debug") rule))
                  >> evaluated rule)))

  unfoldable pub rule_key : List ((Text × Text) × Json) → Json → Result (Option (Text × Text))
  rule_key specs rule =
      claim (is_object rule)
      >> (text_of (get (codes "name") rule) >>= λ name.
          claim (contains_key (name, labels_key (get (codes "labels") rule)) (map (λ s. s.0) specs))
          >> ok (some (name, labels_key (get (codes "labels") rule))))

  unfoldable pub keyed_rule :
      Text → Json → List ((Text × Text) × Json) → Text × Text → Json → Result (Unit {0})
  keyed_rule file datasource specs key rule =
      present (find_spec key specs) >>= λ spec. check_spec file datasource spec rule

  -- `validate_application_group`
  unfoldable pub check_application_group : Text → Json → Json → Result (Unit {0})
  check_application_group file expected group =
      present (get (codes "type") expected) >>= λ datasource.
      present (get (codes "interval") expected) >>= λ interval.
      claim (
        holds_text file (get (codes "file") group)
        && holds datasource (get (codes "type") group)
        && holds_number (if is_text (codes "1m") interval then 60 else 30)
            (get (codes "interval") group))
      >> (claim (plain_group group)
          >> (list_of (get (codes "rules") group) >>= λ rules.
              list_of (get (codes "rules") expected) >>= λ listed. wanted listed >>= λ specs.
              each (rule_key specs) (keyed_rule file datasource specs) [] rules >>= λ seen.
              demand (same_set seen (map (λ s. s.0) specs))))
