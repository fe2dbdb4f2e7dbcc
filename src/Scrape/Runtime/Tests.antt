-- ===== src/Scrape/Runtime/Tests.antt =====
-- The station with one probe, which is healthy.
use dragontools.Common.{
  refl, false, Option, none, some, [], ◌∷◌, ◌++◌, Text, codes, occurs, starts_with, splitlines,
  lines_from, ◌==◌, nat_eq, list_eq, if◌then◌else◌,
}
use dragontools.Common.Identifiers.{is_identifier}
use dragontools.Common.Keys.{find}
use dragontools.Common.Json.{
  Json, integer, string, array, object, Fields, nil, cons, end, field, lookup, remove, equal, quote,
  text_before,
}
use dragontools.Common.Result.{ok, ◌>>=◌, ◌>>◌, demand, claim}
use dragontools.Scrape.Files.{World, missing}
use dragontools.Scrape.Runtime.{
  Host, Url, Labels, received, request, json_response, probe_of, definitions_from, definitions,
  application_definitions, merge, target_key, own_labels,
}
use dragontools.Scrape.Runtime.Targets.{
  text_or_refused, check_address, check_scraped, labels_of, named_labels, expected_name,
  check_target, check_targets, all_expected, targets_loaded, text_lines, reload_results,
  config_reloaded,
}
use dragontools.Scrape.Runtime.Loaded.{
  loaded_global, policy_of, split_jobs, job_of, is_static, check_block, check_blocks, wanted_jobs,
  check_config, loaded_policy, is_ok, scraper_ready,
}
use dragontools.Scrape.Runtime.Stored.{
  healthy, query, metric_labels, point_of, value_of, sample_of, samples_from, sample_map, state_of,
  states_from, read_metric, read_up, stored_states,
}
use dragontools.Scrape.Runtime.Main.{none_unknown, stored, run_mode, run, outcome, read_main}
use dragontools.Scrape.Runtime.Laws.{IsWatched, targets_loaded-IsWatched}
use dragontools.Scrape.Runtime.States.{AreStates, stored_states-AreStates}
use dragontools.Scrape.Runtime.Outcomes.{IsServed, read_main-IsStored}

abbrev site : Text
site = codes "site"

abbrev site_url : Text
site_url = codes "https://site.example/"

abbrev one_field : Text → Json → Json
one_field k v = object (field k v end)

abbrev response : Json → Json
response part =
    object (field (codes "status") (string (codes "success")) (field (codes "data") part end))

abbrev site_labels : Fields → Fields
site_labels more = field (codes "job") (string (codes "dragontools-blackbox")) (
    field (codes "target") (string site_url)
      (field (codes "instance") (string site) (field (codes "probe") (string site) more)))

abbrev site_target : Json
site_target = object (
    field (codes "labels") (object (site_labels end)) (
      field (codes "scrapePool") (string (codes "dragontools-blackbox")) (
        field (codes "scrapeUrl") (string (codes "http://127.0.0.1:9115/probe")) (
          field (codes "discoveredLabels")
            (object (
              field (codes "__scrape_interval__") (string (codes "30s"))
                (field (codes "__scrape_timeout__") (string (codes "5s")) end)))
            (field (codes "health") (string (codes "up")) (
              field (codes "lastError") (string [])
                (field (codes "lastScrape") (string (codes "T")) end)))))))

abbrev rows_of : Text → Json
rows_of value = response (
    object (
      field (codes "resultType") (string (codes "vector")) (
        field (codes "result")
          (array (
            cons
              (object (
                field (codes "metric") (object (site_labels end)) (
                  field (codes "value") (array (cons (integer 1000) (cons (string value) nil)))
                    end)))
              nil))
          end)))

abbrev site_probes : Json
site_probes = array (
    cons (object (field (codes "name") (string site) (field (codes "url") (string site_url) end)))
      nil)

abbrev site_config : Text
site_config =
    loaded_global
    ++ (codes "scrape_configs:\n"
        ++ (policy_of (codes "dragontools-blackbox")
            ++ codes "  - targets:\n    - https://site.example/\n"))

-- The texts that stand for the bodies of the answers.
abbrev loads : Text → Option Json
loads t =
    if t == codes "probes"
    then some site_probes
    else if t == codes "targets"
    then some (response (one_field (codes "activeTargets") (array (cons site_target nil))))
    else if t == codes "config"
    then some (response (one_field (codes "yaml") (string site_config)))
    else if t == codes "values"
    then some (rows_of (codes "1"))
    else some (rows_of (codes "990"))

abbrev body_of : Text → Text
body_of path =
    if path == codes "/ready"
    then codes "OK\n"
    else if path == codes "/metrics"
    then codes "other 2\nvm_promscrape_config_last_reload_successful 1\n"
    else if path == codes "/api/v1/status/config"
    then codes "config"
    else if starts_with path (codes "/api/v1/targets")
    then codes "targets"
    else if occurs (codes "last_over_time") path
    then codes "values"
    else codes "times"

abbrev url : Text → Text → Text → Url
url scheme netloc path = record {
  scheme = scheme;
  netloc = netloc;
  path = path;
  query = [];
  fragment = [];
  hostname = some netloc;
  username = none;
  password = none;
}

abbrev host : Host
host = record {
  reply = λ path. received 200 (body_of path);
  registrations = ok [];
  registrations_again = ok [];
  now = 1000;
  now_again = 1000;
  unit = 1;
  loads = loads;
  decode = λ t. some t;
  b64decode = λ t. some t;
  urlsplit = λ t.
      if t == site_url
      then some (url (codes "https") (codes "site.example") (codes "/"))
      else some (url (codes "http") (codes "127.0.0.1:9115") (codes "/probe"));
  parse_qs =
      λ q. some ((codes "target", site_url ∷ []) ∷ (codes "module", codes "http_2xx" ∷ []) ∷ []);
  urlencode = λ fs. elim fs [ [] ↦ [] | f ∷ gs ↦ f.1 ];
  re_escape = λ t. t;
  str = λ j. [];
  float = λ t. some (record { is_negative = false; size = if t == codes "1" then 1 else 990 });
  fromisoformat = λ t. some (some (record { is_negative = false; size = 995 }));
}

abbrev site_entry : Text × Labels
site_entry = (site, own_labels host site site_url)

targets_loaded-IsWatched_example : IsWatched host (site_entry ∷ [])
unfolding targets_loaded all_expected application_definitions merge json_response request claim
    demand check_targets check_target labels_of expected_name named_labels target_key find lookup
    equal check_address text_or_refused check_scraped ◌>>=◌ ◌>>◌ starts_with
targets_loaded-IsWatched_example = targets_loaded-IsWatched host (site_entry ∷ []) refl

stored_states-AreStates_example : AreStates host (site_entry ∷ []) ((site, healthy) ∷ [])
unfolding stored_states read_metric read_up query quote starts_with occurs text_before json_response
    request claim demand sample_map samples_from sample_of value_of metric_labels remove point_of
    states_from state_of target_key find lookup equal ◌>>=◌ ◌>>◌
stored_states-AreStates_example =
    stored_states-AreStates host site_entry [] false ((site, healthy) ∷ []) refl

abbrev world : World
world = record {
  parent = missing;
  directory = missing;
  config = missing;
  pending = missing;
  lock = missing;
  loaded = none;
  reloads = 0;
}

read_main-IsStored_example : IsServed host (codes "probes")
unfolding read_main run run_mode outcome stored none_unknown scraper_ready is_ok config_reloaded
    text_lines reload_results loaded_policy check_config wanted_jobs application_definitions
    check_blocks check_block job_of is_static split_jobs splitlines lines_from starts_with
    json_response request claim demand ◌>>=◌ ◌>>◌ lookup definitions definitions_from probe_of
    is_identifier targets_loaded all_expected merge check_targets check_target labels_of
    expected_name named_labels target_key find equal check_address text_or_refused check_scraped
    stored_states read_metric read_up query quote occurs text_before sample_map samples_from
    sample_of value_of metric_labels remove point_of states_from state_of
read_main-IsStored_example = read_main-IsStored host (λ t. t) world (codes "") (codes "probes") refl
