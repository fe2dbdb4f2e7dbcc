-- ===== src/Signals/Check.antt =====
-- `check` of src/monitoring/agents/signals.py.
pub mod Laws
pub mod Modes
pub mod Fresh
pub mod Seen
use dragontools.Common.{
  ℕ, Bool, true, false, not, ◌&&◌, ◌||◌, Option, none, some, List, [], ◌∷◌, ◌++◌, Text, codes, ◌==◌,
  nat_eq, list_eq, if◌then◌else◌,
}
use dragontools.Common.Json.{Json, null, string, get, truthy, equal}
use dragontools.Common.Result.{Result, ok, refused, broken, ◌>>=◌, ◌>>◌}
use dragontools.Signals.Queries.{Station, claim, item, elements, metric, log_ready}

-- A loop whose body may return False.
unfoldable pub all_ready : {A : Type 0} → (A → Result Bool) → List A → Result Bool
all_ready ready [] = ok true
all_ready ready (x ∷ xs) =
    let rest = all_ready ready xs in ready x >>= λ b. if b then rest else ok false

unfoldable pub both : Result Bool → Result Bool → Result Bool
both first second = first >>= λ b. if b then second else ok false

abbrev pub is_null : Json → Bool
is_null null = true
is_null _ = false

-- `registration.get('applications', [])`, `none` where it is false
abbrev pub listed : Option Json → Option Json
listed none = none
listed (some j) = if truthy j then some j else none

module _ (station : Station) where
  -- `fresh(selector)`
  unfoldable pub fresh : Text → Result Bool
  fresh selector = metric station (
      codes "count((timestamp("
      ++ (selector
          ++ (codes ") keep_metric_names >= "
              ++ (station.since_text
                  ++ (codes ") and (timestamp("
                      ++ (selector ++ codes ") keep_metric_names > time()-90)) > 0"))))))

  -- `scrape_ready(labels)`
  unfoldable pub scrape_ready : Text → Result Bool
  scrape_ready labels = both (fresh (codes "up" ++ (labels ++ codes "}"))) (
      metric station (codes "up" ++ (labels ++ codes "} == 1")) >>= λ up.
      if up
      then fresh (labels ++ codes ",__name__!~\"up|scrape_.*\"}")
      else metric station (codes "up" ++ (labels ++ codes "} == 0")))

  abbrev pub host_stream : Json → List (Text × Json)
  host_stream host =
      (codes "application", string (codes "host"))
      ∷ (codes "environment", string (codes "host"))
      ∷ (codes "host", host)
      ∷ (codes "service", string (codes "dragontools-host"))
      ∷ []

  abbrev pub host_metrics : List Text
  host_metrics =
      codes "host_cpu_seconds_total"
      ∷ codes "host_memory_total_bytes"
      ∷ codes "host_filesystem_used_ratio"
      ∷ []

  -- The labels of a host, with more of them.
  abbrev pub host_labels : Json → Text → Text
  host_labels host more = codes "{host=" ++ (station.dumps host ++ more)

  -- The metrics of the host with these labels.
  unfoldable pub host_ready : Json → Text → Result Bool
  host_ready host identity =
      all_ready
        (λ name.
          fresh (name ++ host_labels host (codes ",agent=\"vector\"" ++ (identity ++ codes "}"))))
        host_metrics

  -- The metrics of a service that is not stopped.
  unfoldable pub running_ready : Text → Result Bool
  running_ready labels =
      both
        (all_ready (λ name. fresh (codes "dragontools_service_" ++ (name ++ labels)))
          (codes "cpu_seconds_total" ∷ codes "memory_current_bytes" ∷ codes "tasks_supported" ∷ []))
        (metric station (codes "dragontools_service_tasks_supported" ++ (labels ++ codes " == 1"))
          >>= λ supported.
              if supported
              then fresh (codes "dragontools_service_tasks_current" ++ labels)
              else ok true)

  unfoldable pub service_ready : Json → Text → Json → Result Bool
  service_ready host identity service = item (codes "name") service >>= λ name.
      both
        (fresh (
          codes "dragontools_service_cgroup_available"
          ++ host_labels host
              (identity ++ (codes ",service=" ++ (station.dumps name ++ codes "}")))))
        (metric station (
            codes "dragontools_service_cgroup_available"
            ++ (host_labels host
                  (identity ++ (codes ",service=" ++ (station.dumps name ++ codes "}")))
                ++ codes " == 0"))
          >>= λ stopped.
              if stopped
              then ok true
              else running_ready (
                  host_labels host
                    (identity ++ (codes ",service=" ++ (station.dumps name ++ codes "}")))))

  unfoldable pub logs_ready : Json → Json → Json → Json → Result Bool
  logs_ready host application environment service = item (codes "logs") service >>= λ logs.
      if not (truthy logs)
      then ok true
      else item (codes "name") service >>= λ name. log_ready station (
          (codes "application", application)
          ∷ (codes "environment", environment)
          ∷ (codes "host", host)
          ∷ (codes "service", name)
          ∷ [])

  unfoldable pub app_ready : Json → Text → Json → Result Bool
  app_ready host identity service = item (codes "metrics_url") service >>= λ url.
      if is_null url
      then ok true
      else item (codes "name") service >>= λ name. scrape_ready (
          host_labels host
            (codes ",agent=\"vmagent\"" ++ (identity ++ (codes ",service=" ++ station.dumps name))))

  -- `for x in value[key]`
  unfoldable pub listed_ready : Text → Json → (Json → Result Bool) → Result Bool
  listed_ready key value ready = item key value >>= λ j. elements j >>= λ list. all_ready ready list

  unfoldable pub each_service : (Json → Result Bool) → Json → Result Bool
  each_service ready application = listed_ready (codes "services") application ready

  -- The signals of one application in a mode.
  unfoldable pub application_ready : Text → Json → Json → Result Bool
  application_ready mode host application = item (codes "name") application >>= λ name.
      item (codes "environment") application >>= λ environment.
      let identity =
        codes ",application="
        ++ (station.dumps name ++ (codes ",environment=" ++ station.dumps environment)) in
      if mode == codes "host"
      then host_ready host identity
      else if mode == codes "service"
      then each_service (service_ready host identity) application
      else if mode == codes "logs"
      then each_service (logs_ready host name environment) application
      else if mode == codes "app"
      then each_service (app_ready host identity) application
      else broken

  -- The modes of a registration without applications.
  unfoldable pub plain_ready : Text → Json → Json → Result Bool
  plain_ready mode host registration =
      if mode == codes "service"
      then ok true
      else if mode == codes "host"
      then host_ready host []
      else if mode == codes "logs"
      then listed_ready (codes "services") registration
          (λ service. log_ready station ((codes "host", host) ∷ (codes "service", service) ∷ []))
      else if mode == codes "app"
      then listed_ready (codes "metrics_targets") registration (λ target.
        item (codes "name") target >>= λ name.
        scrape_ready (host_labels host (codes ",agent=\"vmagent\",app=" ++ station.dumps name)))
      else broken

  unfoldable pub signals_ready : Text → Json → Json → Result Bool
  signals_ready mode host registration = elim (listed (get (codes "applications") registration)) [
    | none ↦ plain_ready mode host registration
    | some applications ↦
        elements applications >>= λ list. all_ready (application_ready mode host) list
  ]

  -- `check(mode, registration, since)`
  unfoldable pub check : Text → Json → Result Bool
  check mode registration = item (codes "host") registration >>= λ host.
      if mode == codes "events"
      then log_ready station (host_stream host)
      else if mode == codes "logs"
      then both (log_ready station (host_stream host)) (signals_ready mode host registration)
      else signals_ready mode host registration

  -- The exit status of the program.
  unfoldable pub exit_status : Result Bool → ℕ
  exit_status (ok true) = 0
  exit_status (ok false) = 75
  exit_status refused = 75
  exit_status broken = 1
