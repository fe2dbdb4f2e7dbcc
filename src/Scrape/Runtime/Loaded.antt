-- ===== src/Scrape/Runtime/Loaded.antt =====
-- `loaded_policy` and `scraper_ready` of src/monitoring/scrape.py: the configuration that
-- VictoriaMetrics has loaded, as its yaml library prints it.
use mathlib.Core.List.{reverse}
use dragontools.Common.Json.Read.{text_of}
use dragontools.Common.Keys.{contains_key, same_set}
use dragontools.Common.{
  ℕ, Bool, true, not, ◌&&◌, ◌||◌, List, [], ◌∷◌, ◌++◌, Text, codes, starts_with, splitlines, drop,
  length, leb, ◌==◌, nat_eq, list_eq, if◌then◌else◌,
}
use dragontools.Common.Json.{get}
use dragontools.Common.Result.{Result, ok, ◌>>=◌, ◌>>◌, demand, claim}
use dragontools.Scrape.Runtime.{
  Host, Labels, job_name, request, json_response, application_definitions,
}
use dragontools.Scrape.Runtime.Targets.{config_reloaded, targets_loaded}

-- `LOADED_GLOBAL`
abbrev pub loaded_global : Text
loaded_global = codes "global:\n  scrape_interval: 30s\n  scrape_timeout: 5s\n"

abbrev pub job_prefix : Text
job_prefix = codes "- job_name: "

-- `LOADED_POLICY` after its prefix, with the name of a job in place of that of the station and more
-- lines after the label `phase`; each of the two texts that are replaced occurs once.
abbrev pub policy_with : Text → Text → Text
policy_with job more =
    job_prefix
    ++ (job
        ++ (codes
              "\n  metrics_path: /probe\n  params:\n    module:\n    - http_2xx\n  relabel_configs:\n  - source_labels: [__address__]\n    target_label: __param_target\n  - source_labels: [__param_target]\n    target_label: target\n  - source_labels: [probe]\n    target_label: instance\n  - target_label: __address__\n    replacement: 127.0.0.1:9115\n  metric_relabel_configs:\n  - action: keep\n    source_labels: [__name__]\n    regex:\n    - probe_success\n    - probe_duration_seconds\n    - probe_dns_lookup_time_seconds\n    - probe_http_duration_seconds\n    - probe_http_status_code\n    - probe_http_ssl\n    - probe_ssl_earliest_cert_expiry\n    - probe_http_redirects\n    - probe_ip_protocol\n  - action: labelkeep\n    regex:\n    - __name__\n    - job\n    - instance\n    - probe\n    - target\n    - phase\n"
            ++ (more ++ codes "  static_configs:\n")))

abbrev pub policy_of : Text → Text
policy_of job =
    if job == job_name
    then policy_with job []
    else policy_with job (codes "    - managed_by\n    - application\n    - environment\n")

-- A character before the first of some pieces.
abbrev push : ℕ → List Text → List Text
push c [] = (c ∷ []) ∷ []
push c (p ∷ ps) = (c ∷ p) ∷ ps

-- `re.split(r"(?m)(?=^- job_name: )", text)`, with whether the text begins a line.
unfoldable pub split_jobs : Bool → Text → List Text
split_jobs first [] = [] ∷ []
split_jobs first (c ∷ s) =
    let rest = push c (split_jobs (c == 10) s) in
    if first && starts_with (c ∷ s) job_prefix then [] ∷ rest else rest

abbrev non_empty : List Text → List Text
non_empty [] = []
non_empty (t ∷ ts) = if t == [] then non_empty ts else t ∷ non_empty ts

-- The blocks of the jobs.
abbrev pub blocks : Text → List Text
blocks text = non_empty (split_jobs true text)

abbrev first_line : List Text → Text
first_line [] = []
first_line (l ∷ ls) = l

-- `first.removeprefix("- job_name: ")`
abbrev remove_prefix : Text → Text
remove_prefix line = if starts_with line job_prefix then drop (length job_prefix) line else line

-- The job that a block is of.
unfoldable pub job_of : Text → Text
job_of block = remove_prefix (first_line (splitlines block))

abbrev are_static : List Text → Bool
are_static [] = true
are_static (l ∷ ls) =
    (starts_with l (codes "  - targets:") || starts_with l (codes "    ")) && are_static ls

-- Whether lines follow, of which each is one of the targets and their labels.
unfoldable pub is_static : List Text → Bool
is_static ls = not (ls == []) && are_static ls

-- One round of the loop.
unfoldable pub check_block : List Text → List Text → Text → Result Text
check_block jobs seen block =
    demand (contains_key (job_of block) jobs && not (contains_key (job_of block) seen))
    >> (demand (starts_with block (policy_of (job_of block)))
        >> (demand (is_static (splitlines (drop (length (policy_of (job_of block))) block)))
            >> ok (job_of block)))

unfoldable pub check_blocks : List Text → List Text → List Text → Result (List Text)
check_blocks jobs seen [] = ok []
check_blocks jobs seen (b ∷ bs) =
    check_block jobs seen b >>= λ job. check_blocks jobs (job ∷ seen) bs >>= λ rest. ok (job ∷ rest)

abbrev jobs_of : List (Text × Labels) → List Text
jobs_of [] = []
jobs_of ((k, l) ∷ es) = l.job ∷ jobs_of es

-- The jobs that must be loaded: those of the applications, and with own targets the station's.
unfoldable pub wanted_jobs : List (Text × Labels) → List (Text × Labels) → List Text
wanted_jobs own applications =
    if length own == 0 then jobs_of applications else jobs_of applications ++ (job_name ∷ [])

-- The test of the text that is loaded.
unfoldable pub check_config : List Text → Text → Result (Unit {0})
check_config jobs config =
    if jobs == []
    then demand (config == loaded_global)
    else demand (starts_with config (loaded_global ++ codes "scrape_configs:\n"))
      >> (check_blocks jobs []
            (blocks (drop (length (loaded_global ++ codes "scrape_configs:\n")) config))
          >>= λ seen. demand (same_set seen jobs))

abbrev is_blank : ℕ → Bool
is_blank c = c == 32 || (leb 9 c && leb c 13)

abbrev strip_left : Text → Text
strip_left [] = []
strip_left (c ∷ s) = if is_blank c then strip_left s else c ∷ s

-- `bytes.strip() == b"OK"`
unfoldable pub is_ok : Text → Bool
is_ok body = reverse (strip_left (reverse (strip_left body))) == codes "OK"

module _ (host : Host) where
  -- `loaded_policy(expected)`
  unfoldable pub loaded_policy : List (Text × Labels) → Result (Unit {0})
  loaded_policy own = json_response host (codes "/api/v1/status/config") >>= λ part.
      text_of (get (codes "yaml") part) >>= λ config. host.registrations >>= λ rs.
      check_config (wanted_jobs own (application_definitions rs [])) config

  -- `scraper_ready(expected)`
  unfoldable pub scraper_ready : List (Text × Labels) → Result (Unit {0})
  scraper_ready own = request host (codes "/ready") >>= λ body.
      claim (is_ok body)
      >> (config_reloaded host >> (loaded_policy own >> targets_loaded host own true))
