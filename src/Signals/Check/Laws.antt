-- ===== src/Signals/Check/Laws.antt =====
-- What `check` of src/monitoring/agents/signals.py has seen when it returns True.
use dragontools.Common.{
  ◌≡◌, refl, ◌⊎◌, inl, inr, true, false, Option, none, some, List, [], ◌∷◌, Text, codes, Every,
  Every-mono, ◌==◌, ==-sound, nat_eq, list_eq, if◌then◌else◌,
}
use dragontools.Common.Json.{Json, string, get}
use dragontools.Common.Result.{ok, ◌>>=◌, bind-ok}
use dragontools.Signals.Queries.{Station, item, elements, log_ready}
use dragontools.Signals.Check.{
  all_ready, both, listed, host_stream, application_ready, signals_ready, plain_ready, check,
}
use dragontools.Signals.Check.Fresh.{log_ready-IsLogged}
use dragontools.Signals.Check.Seen.{all_ready-Every, both-ok, if-cases, IsLogged}
use dragontools.Signals.Check.Modes.{
  IsApplicationSeen, application_ready-IsSeen, IsPlainSeen, plain_ready-IsPlainSeen,
}

-- The signals that `check` has seen: those of each registered application, or, where none is
-- registered, those of the registration itself.
pub data IsRegistrationSeen (station : Station) (mode : Text) (host registration : Json)
    : Type 0 where
  applications_seen :
      (j : Json) (list : List Json)
      → listed (get (codes "applications") registration) ≡ some j
      → elements j ≡ ok list
      → Every (IsApplicationSeen station mode host) list
      → IsRegistrationSeen station mode host registration
  plain_seen :
      listed (get (codes "applications") registration) ≡ none
      → IsPlainSeen station mode host registration
      → IsRegistrationSeen station mode host registration

module _ (station : Station) (mode : Text) (host registration : Json) where
  signals_ready-IsRegistrationSeen :
      signals_ready station mode host registration ≡ ok true
      → IsRegistrationSeen station mode host registration
  unfolding signals_ready
  signals_ready-IsRegistrationSeen h = go (listed (get (codes "applications") registration)) refl h
    where
      go :
          (o : Option Json)
          → listed (get (codes "applications") registration) ≡ o
          → (elim o [
            | none ↦ plain_ready station mode host registration
            | some applications ↦ elements applications >>= λ list.
                all_ready (application_ready station mode host) list
          ])
            ≡ ok true
          → IsRegistrationSeen station mode host registration
      go none e h = plain_seen e (plain_ready-IsPlainSeen station mode host registration h)
      go (some j) e h =
          let (list, l, h1) =
            bind-ok (elements j) (λ list. all_ready (application_ready station mode host) list) true
              h in
          applications_seen j list e l (
            Every-mono (λ a. application_ready station mode host a ≡ ok true) _
              (application_ready-IsSeen station mode host) list
              (all_ready-Every (application_ready station mode host) list h1))

-- The stream of the host itself.
abbrev pub IsHostLogged : Station → Json → Type 0
IsHostLogged station host = IsLogged station (
    (codes "application", string (codes "host"))
    ∷ (codes "environment", string (codes "host"))
    ∷ (codes "host", host)
    ∷ (codes "service", string (codes "dragontools-host"))
    ∷ [])

-- What `check` has seen: the stream of the host in the modes `events` and `logs`, and the signals of
-- the registration in every mode but `events`.
abbrev pub IsChecked : Station → Text → Json → Json → Type 0
IsChecked station mode registration host =
    ((mode ≡ codes "events") × IsHostLogged station host)
    ⊎ ((mode ≡ codes "logs")
        × IsHostLogged station host
        × IsRegistrationSeen station mode host registration)
    ⊎ (((mode == codes "events") ≡ false)
        × ((mode == codes "logs") ≡ false)
        × IsRegistrationSeen station mode host registration)

-- When `check` returns True: in the modes `events` and `logs` the newest entry of the host's own stream is
-- of `since` or later. In every mode but `events`, for each registered application: in `host` the three
-- metrics of the host are fresh, that is of `since` or later and less than 90 seconds old; in `service`
-- each service's availability is fresh, and it is stopped or its metrics are fresh; in `logs` each service
-- that logs has an entry of `since` or later in its own stream; in `app` each service with a metrics URL
-- has a fresh scrape, one that succeeded with fresh metrics of its own or one that failed. A registration
-- without applications is checked so by the host's metrics, or by its own list of services or targets.
pub check-IsChecked :
    (station : Station) (mode : Text) (registration : Json)
    → check station mode registration ≡ ok true
    → (host : Json) × (item (codes "host") registration ≡ ok host)
      × IsChecked station mode registration host
unfolding check
check-IsChecked station mode registration h =
    let (host, i, h1) = bind-ok _ _ true h in (host, i, go host h1)
  where
    go :
        (host : Json)
        → (if mode == codes "events"
            then log_ready station (host_stream station host)
            else if mode == codes "logs"
            then both
                (log_ready station (host_stream station host))
                (signals_ready station mode host registration)
            else signals_ready station mode host registration)
          ≡ ok true
        → IsChecked station mode registration host
    go host h = elim (if-cases (mode == codes "events") _ _ (ok true) h) [
      | inl (m, r) ↦ inl (==-sound mode (codes "events") m, log_ready-IsLogged station _ r)
      | inr (n, h1) ↦ elim (if-cases (mode == codes "logs") _ _ (ok true) h1) [
        | inl (m, r) ↦
            let (stream, seen) = both-ok _ _ r in
            inr (
              inl (
                ==-sound mode (codes "logs") m,
                log_ready-IsLogged station _ stream,
                signals_ready-IsRegistrationSeen station mode host registration seen,
              ))
        | inr (l, r) ↦
            inr (inr (n, l, signals_ready-IsRegistrationSeen station mode host registration r))
      ]
    ]
