-- ===== src/Scrape/Runtime/Targets.antt =====
-- `targets_loaded` and `config_reloaded` of src/monitoring/scrape.py.
use dragontools.Common.{
  Bool, false, not, ◌&&◌, Option, none, some, List, [], ◌∷◌, ◌++◌, Text, codes, length, leb, ◌==◌,
  nat_eq, list_eq, option_eq, if◌then◌else◌,
}
use dragontools.Common.Json.Read.{present, text_of, list_of, is_object, holds}
use dragontools.Common.Keys.{contains_key, find}
use dragontools.Common.Json.{Json, string, object, Fields, get, lookup, holds_text, equal}
use dragontools.Common.Result.{Result, ok, refused, broken, ◌>>=◌, ◌>>◌, demand, claim}
use dragontools.Scrape.Runtime.{
  Host, Url, Number, Labels, label_fields, request, json_response, application_definitions, merge,
  target_key, is_fresh,
}

-- Whether the query is `{"module": ["http_2xx"], "target": [target]}`.
abbrev pub is_probe_query : Text → List (Text × List Text) → Bool
is_probe_query target q =
    length q == 2
    && find (codes "module") q == some (codes "http_2xx" ∷ [])
    && find (codes "target") q == some (target ∷ [])

abbrev pub is_exporter : Url → Bool
is_exporter u =
    u.scheme == codes "http"
    && u.netloc == codes "127.0.0.1:9115"
    && u.path == codes "/probe"
    && u.fragment == []

-- `value.replace("Z", "+00:00")`
abbrev pub with_offset : Text → Text
with_offset [] = []
with_offset (c ∷ s) = (if c == 90 then codes "+00:00" else c ∷ []) ++ with_offset s

unfoldable pub text_or_refused : Option Json → Result Text
text_or_refused (some (string t)) = ok t
text_or_refused _ = refused

module _ (host : Host) where
  -- The scrape of a target with these labels: its pool, its address and its periods.
  unfoldable pub check_address : Fields → Json → Result (Unit {0})
  check_address labels target = present (lookup (codes "job") labels) >>= λ job.
      demand (holds job (get (codes "scrapePool") target))
      >> (text_or_refused (get (codes "scrapeUrl") target) >>= λ address.
          present (host.urlsplit address) >>= λ url.
          demand (is_exporter url)
          >> (present (host.parse_qs url.query) >>= λ query.
              text_of (lookup (codes "target") labels) >>= λ wanted.
              demand (is_probe_query wanted query)
              >> (present (get (codes "discoveredLabels") target) >>= λ discovered.
                  claim (is_object discovered)
                  >> demand (
                      holds_text (codes "30s") (get (codes "__scrape_interval__") discovered)
                      && holds_text (codes "5s") (get (codes "__scrape_timeout__") discovered)))))

  abbrev pub is_recent : Option Number → Bool
  is_recent none = false
  is_recent (some t) = is_fresh host host.now t

  -- With `require_scraped`: the last scrape succeeded and is recent.
  unfoldable pub check_scraped : Json → Result (Unit {0})
  check_scraped target =
      demand (
        holds_text (codes "up") (get (codes "health") target)
        && holds_text [] (get (codes "lastError") target))
      >> (text_of (get (codes "lastScrape") target) >>= λ value.
          present (host.fromisoformat (with_offset value)) >>= λ stamp. demand (is_recent stamp))

  -- The labels of a target.
  unfoldable pub labels_of : Option Json → Result Fields
  labels_of (some (object fs)) = ok fs
  labels_of _ = broken

  -- The name of a target, if the labels are those that are expected under it.
  unfoldable pub named_labels : Fields → Text → Option Labels → Result Text
  named_labels labels name none = refused
  named_labels labels name (some wanted) =
      demand (equal (object labels) (object (label_fields wanted))) >> ok name

  unfoldable pub expected_name : List (Text × Labels) → Fields → Option Text → Result Text
  expected_name expected labels none = refused
  expected_name expected labels (some name) = named_labels labels name (find name expected)

  -- One round of the loop; the names that were seen are those of the targets before it.
  unfoldable pub check_target : Bool → List (Text × Labels) → List Text → Json → Result Text
  check_target scraped expected seen target = labels_of (get (codes "labels") target) >>= λ labels.
      expected_name expected labels (target_key host labels) >>= λ name.
      demand (not (contains_key name seen))
      >> (check_address labels target
          >> ((if scraped then check_scraped target else ok tt) >> ok name))

  unfoldable pub check_targets :
      Bool → List (Text × Labels) → List Text → List Json → Result (List Text)
  check_targets scraped expected seen [] = ok []
  check_targets scraped expected seen (t ∷ ts) = check_target scraped expected seen t >>= λ name.
      check_targets scraped expected (name ∷ seen) ts >>= λ rest. ok (name ∷ rest)

  -- `dict(expected, **application_definitions())`
  unfoldable pub all_expected : List (Text × Labels) → Result (List (Text × Labels))
  all_expected expected =
      host.registrations_again >>= λ rs. ok (merge expected (application_definitions rs []))

  -- `targets_loaded(expected, require_scraped)`
  unfoldable pub targets_loaded : List (Text × Labels) → Bool → Result (Unit {0})
  targets_loaded own scraped = all_expected own >>= λ expected.
      json_response host (codes "/api/v1/targets?state=active") >>= λ part.
      list_of (get (codes "activeTargets") part) >>= λ targets.
      claim (leb (length targets) 8256)
      >> (demand (length targets == length expected)
          >> (check_targets scraped expected [] targets >>= λ seen. ok tt))

  -- The lines of a text, ended by `\n`.
  unfoldable pub text_lines : Text → List Text
  text_lines [] = [] ∷ []
  text_lines (c ∷ s) =
      let rest = text_lines s in
      if c == 10 then [] ∷ rest else elim rest [ [] ↦ (c ∷ []) ∷ [] | l ∷ ls ↦ (c ∷ l) ∷ ls ]

  abbrev reload_metric : Text
  reload_metric = codes "vm_promscrape_config_last_reload_successful "

  -- The matches of the pattern for the metric, which takes whole lines.
  unfoldable pub reload_results : List Text → List Text
  reload_results [] = []
  reload_results (l ∷ ls) =
      let rest = reload_results ls in
      if l == (reload_metric ++ codes "0")
      then codes "0" ∷ rest
      else if l == (reload_metric ++ codes "1")
      then codes "1" ∷ rest
      else rest

  -- `config_reloaded()`
  unfoldable pub config_reloaded : Result (Unit {0})
  config_reloaded = request host (codes "/metrics") >>= λ body.
      present (host.decode body) >>= λ metrics.
      demand (reload_results (text_lines metrics) == (codes "1" ∷ []))
