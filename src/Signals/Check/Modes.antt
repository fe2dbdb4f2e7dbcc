-- ===== src/Signals/Check/Modes.antt =====
-- What the signals of a registration are in each mode of `check` of src/monitoring/agents/signals.py.
use dragontools.Common.{
  ◌≡◌, inl, inr, true, [], ◌∷◌, ◌++◌, Text, codes, ◌==◌, ==-sound, nat_eq, list_eq, if◌then◌else◌,
}
use dragontools.Common.Json.{Json}
use dragontools.Common.Result.{ok, broken, bind-ok}
use dragontools.Signals.Queries.{Station, item}
use dragontools.Signals.Check.{
  listed_ready, each_service, service_ready, logs_ready, host_ready, app_ready, application_ready,
  plain_ready,
}
use dragontools.Signals.Check.Fresh.{
  log_ready-IsLogged, host_ready-IsHostSeen, service_ready-IsServiceSeen,
  logs_ready-IsServiceLogged, app_ready-IsServiceScraped, target-IsTargetSeen,
}
use dragontools.Signals.Check.Seen.{
  if-cases, Each, listed_ready-Each, IsLogged, IsHostSeen, IsServiceSeen, IsServiceLogged,
  IsServiceScraped, IsTargetSeen,
}

-- The identity of an application in the selectors.
abbrev pub identity_text : Station → Json → Json → Text
identity_text station name environment =
    codes ",application="
    ++ (station.dumps name ++ (codes ",environment=" ++ station.dumps environment))

-- What the signals of an application are in a mode.
pub data IsSeen (station : Station) (mode : Text) (host name environment application : Json)
    : Type 0 where
  host_seen :
      mode ≡ codes "host"
      → IsHostSeen station host (identity_text station name environment)
      → IsSeen station mode host name environment application
  services_seen :
      mode ≡ codes "service"
      → Each
          (codes "services")
          (IsServiceSeen station host (identity_text station name environment))
          application
      → IsSeen station mode host name environment application
  logs_seen :
      mode ≡ codes "logs"
      → Each (codes "services") (IsServiceLogged station host name environment) application
      → IsSeen station mode host name environment application
  apps_seen :
      mode ≡ codes "app"
      → Each
          (codes "services")
          (IsServiceScraped station host (identity_text station name environment))
          application
      → IsSeen station mode host name environment application

abbrev pub IsApplicationSeen : Station → Text → Json → Json → Type 0
IsApplicationSeen station mode host application =
    (name : Json) × (environment : Json) × (item (codes "name") application ≡ ok name)
    × (item (codes "environment") application ≡ ok environment)
    × IsSeen station mode host name environment application

module _ (station : Station) (mode : Text) (host : Json) where
  pub application_ready-IsSeen :
      (application : Json)
      → application_ready station mode host application ≡ ok true
      → IsApplicationSeen station mode host application
  unfolding application_ready each_service
  application_ready-IsSeen application h =
      let (name, n, h1) = bind-ok _ _ true h in
      let (environment, e, h2) = bind-ok _ _ true h1 in
      (name, environment, n, e, go name environment h2)
    where
      go :
          (name environment : Json)
          → (if mode == codes "host"
              then host_ready station host (identity_text station name environment)
              else if mode == codes "service"
              then listed_ready station
                  (codes "services")
                  application
                  (service_ready station host (identity_text station name environment))
              else if mode == codes "logs"
              then listed_ready station
                  (codes "services")
                  application
                  (logs_ready station host name environment)
              else if mode == codes "app"
              then listed_ready station
                  (codes "services")
                  application
                  (app_ready station host (identity_text station name environment))
              else broken)
            ≡ ok true
          → IsSeen station mode host name environment application
      go name environment h = elim (if-cases (mode == codes "host") _ _ (ok true) h) [
        | inl (m, r) ↦
            host_seen (==-sound mode (codes "host") m) (host_ready-IsHostSeen station host _ r)
        | inr (_, h1) ↦ elim (if-cases (mode == codes "service") _ _ (ok true) h1) [
          | inl (m, r) ↦ services_seen (==-sound mode (codes "service") m) (
              listed_ready-Each station (codes "services") application _ _
                (service_ready-IsServiceSeen station host _) r)
          | inr (_, h2) ↦ elim (if-cases (mode == codes "logs") _ _ (ok true) h2) [
            | inl (m, r) ↦ logs_seen (==-sound mode (codes "logs") m) (
                listed_ready-Each station (codes "services") application _ _
                  (logs_ready-IsServiceLogged station host name environment) r)
            | inr (_, h3) ↦ elim (if-cases (mode == codes "app") _ _ (ok true) h3) [
              | inl (m, r) ↦ apps_seen (==-sound mode (codes "app") m) (
                  listed_ready-Each station (codes "services") application _ _
                    (app_ready-IsServiceScraped station host _) r)
              | inr (_, h4) ↦ absurd (cc h4)
            ]
          ]
        ]
      ]

-- What the signals of a registration without applications are: none of a service, the host's metrics,
-- a stream for each listed service, a scrape for each target.
pub data IsPlainSeen (station : Station) (mode : Text) (host registration : Json) : Type 0 where
  no_services : mode ≡ codes "service" → IsPlainSeen station mode host registration
  plain_host :
      mode ≡ codes "host" → IsHostSeen station host [] → IsPlainSeen station mode host registration
  plain_logs :
      mode ≡ codes "logs"
      → Each
          (codes "services")
          (λ service. IsLogged station ((codes "host", host) ∷ (codes "service", service) ∷ []))
          registration
      → IsPlainSeen station mode host registration
  plain_targets :
      mode ≡ codes "app"
      → Each (codes "metrics_targets") (IsTargetSeen station host) registration
      → IsPlainSeen station mode host registration

module _ (station : Station) (mode : Text) (host registration : Json) where
  pub plain_ready-IsPlainSeen :
      plain_ready station mode host registration ≡ ok true
      → IsPlainSeen station mode host registration
  unfolding plain_ready
  plain_ready-IsPlainSeen h = elim (if-cases (mode == codes "service") _ _ (ok true) h) [
    | inl (m, r) ↦ no_services (==-sound mode (codes "service") m)
    | inr (_, h1) ↦ elim (if-cases (mode == codes "host") _ _ (ok true) h1) [
      | inl (m, r) ↦
          plain_host (==-sound mode (codes "host") m) (host_ready-IsHostSeen station host [] r)
      | inr (_, h2) ↦ elim (if-cases (mode == codes "logs") _ _ (ok true) h2) [
        | inl (m, r) ↦ plain_logs (==-sound mode (codes "logs") m) (
            listed_ready-Each station (codes "services") registration _ _
              (λ service.
                log_ready-IsLogged station ((codes "host", host) ∷ (codes "service", service) ∷ []))
              r)
        | inr (_, h3) ↦ elim (if-cases (mode == codes "app") _ _ (ok true) h3) [
          | inl (m, r) ↦ plain_targets (==-sound mode (codes "app") m) (
              listed_ready-Each station (codes "metrics_targets") registration _ _
                (target-IsTargetSeen station host) r)
          | inr (_, h4) ↦ absurd (cc h4)
        ]
      ]
    ]
  ]
