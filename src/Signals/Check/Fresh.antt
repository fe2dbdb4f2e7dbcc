-- ===== src/Signals/Check/Fresh.antt =====
-- Each group of queries of src/monitoring/agents/signals.py shows what its result says.
use dragontools.Common.{
  ◌≡◌, refl, ◌⊎◌, inl, inr, Bool, true, false, not, List, [], ◌∷◌, ◌++◌, Text, codes, Every,
  Every-mono, nat_eq, list_eq, if◌then◌else◌, byte_lines,
}
use dragontools.Common.Json.{Json, null, truthy}
use dragontools.Common.Keys.{not-true}
use dragontools.Common.Result.{Result, ok, ◌>>=◌, bind-ok, ok-injective}
use dragontools.Signals.Queries.{Station, item, body_of, metric, stream_of, log_entry, log_ready}
use dragontools.Signals.Check.{
  all_ready, is_null, fresh, scrape_ready, running_ready, service_ready, logs_ready, host_ready,
  host_metrics, host_labels, app_ready,
}
use dragontools.Signals.Check.Seen.{
  all_ready-Every, both-ok, if-cases, claim-ok, present-ok, Answers, IsFresh, IsLogged, IsScraped,
  IsHostSeen, IsRunning, IsServiceSeen, IsServiceLogged, IsServiceScraped, IsTargetSeen,
}

is_null-null : (j : Json) → is_null j ≡ true → j ≡ null
is_null-null null h = refl
is_null-null _ h = cc h

module _ (station : Station) where
  metric-Answers : (query : Text) (b : Bool) → metric station query ≡ ok b → Answers station query b
  unfolding metric
  metric-Answers query b h =
      let (body, e1, h1) = bind-ok _ _ b h in
      let (value, e2, h2) = bind-ok _ _ b h1 in
      let (result, e3, h3) = bind-ok _ _ b h2 in
      let (e4, h4) = claim-ok _ _ b h3 in
      let (part, e5, h5) = bind-ok _ _ b h4 in
      let (e6, h6) = claim-ok _ _ b h5 in
      let (rows, e7, h7) = bind-ok _ _ b h6 in
      (
        body,
        value,
        result,
        part,
        rows,
        e1,
        present-ok _ value e2,
        e3,
        e4,
        e5,
        e6,
        e7,
        ok-injective h7,
      )

  fresh-IsFresh : (selector : Text) → fresh station selector ≡ ok true → IsFresh station selector
  unfolding fresh
  fresh-IsFresh selector h = metric-Answers _ true h

  -- The same for each of some names.
  all-IsFresh :
      (selector : Text → Text) (names : List Text)
      → all_ready (λ name. fresh station (selector name)) names ≡ ok true
      → Every (λ name. IsFresh station (selector name)) names
  all-IsFresh selector names h =
      Every-mono (λ name. fresh station (selector name) ≡ ok true) _
        (λ name. fresh-IsFresh (selector name)) names
        (all_ready-Every (λ name. fresh station (selector name)) names h)

  -- A test by a query.
  metric-cases :
      {A : Type 0} (query : Text) (p q : Result A) (a : A)
      → (metric station query >>= λ b. if b then p else q) ≡ ok a
      → (Answers station query true × (p ≡ ok a)) ⊎ (Answers station query false × (q ≡ ok a))
  metric-cases query p q a h = let (b, m, h1) = bind-ok _ _ a h in go b m h1
    where
      go :
          (b : Bool)
          → metric station query ≡ ok b
          → (if b then p else q) ≡ ok a
          → (Answers station query true × (p ≡ ok a)) ⊎ (Answers station query false × (q ≡ ok a))
      go true m h = inl (metric-Answers query true m, h)
      go false m h = inr (metric-Answers query false m, h)

  pub log_ready-IsLogged :
      (identity : List (Text × Json))
      → log_ready station identity ≡ ok true
      → IsLogged station identity
  unfolding log_ready log_entry
  log_ready-IsLogged identity h =
      let (body, e1, h1) = bind-ok _ _ true h in go body e1 (byte_lines body) refl h1
    where
      go :
          (body : Text)
          → body_of (
              station.ask 9428
                (codes "/select/logsql/query")
                (stream_of station identity ++ codes " _time:2m | sort by (_time) desc limit 1"))
            ≡ ok body
          → (lines : List Text) → byte_lines body ≡ lines
          → log_entry station identity lines ≡ ok true
          → IsLogged station identity
      go body e [] l h = cc h
      go body e (line ∷ lines) l h =
          let (value, e1, h1) = bind-ok _ _ true h in
          let (entry, e2, h2) = bind-ok _ _ true h1 in
          let (e3, h3) = claim-ok _ _ true h2 in
          let (stamp, e4, h4) = bind-ok _ _ true h3 in
          (
            body,
            line,
            lines,
            value,
            entry,
            stamp,
            e,
            l,
            present-ok _ value e1,
            e2,
            e3,
            e4,
            present-ok _ true h4,
          )

  scrape_ready-IsScraped :
      (labels : Text) → scrape_ready station labels ≡ ok true → IsScraped station labels
  unfolding scrape_ready
  scrape_ready-IsScraped labels h =
      let (f, h1) = both-ok _ _ h in
      (
        fresh-IsFresh _ f,
        elim (metric-cases _ _ _ true h1) [
          | inl (up, r) ↦ inl (up, fresh-IsFresh _ r)
          | inr (down, r) ↦ inr (down, metric-Answers _ true r)
        ],
      )

  pub host_ready-IsHostSeen :
      (host : Json) (identity : Text)
      → host_ready station host identity ≡ ok true
      → IsHostSeen station host identity
  unfolding host_ready
  host_ready-IsHostSeen host identity h =
      all-IsFresh
        (λ name.
          name ++ host_labels station host (codes ",agent=\"vector\"" ++ (identity ++ codes "}")))
        (host_metrics station) h

  running_ready-IsRunning :
      (labels : Text) → running_ready station labels ≡ ok true → IsRunning station labels
  unfolding running_ready
  running_ready-IsRunning labels h =
      let (three, h1) = both-ok _ _ h in
      (
        all-IsFresh (λ name. codes "dragontools_service_" ++ (name ++ labels))
            (codes "cpu_seconds_total"
              ∷ codes "memory_current_bytes"
              ∷ codes "tasks_supported"
              ∷ [])
            three,
        elim (metric-cases _ _ _ true h1) [
          | inl (supported, r) ↦ inl (supported, fresh-IsFresh _ r)
          | inr (not_supported, r) ↦ inr not_supported
        ],
      )

  pub service_ready-IsServiceSeen :
      (host : Json) (identity : Text) (service : Json)
      → service_ready station host identity service ≡ ok true
      → IsServiceSeen station host identity service
  unfolding service_ready
  service_ready-IsServiceSeen host identity service h =
      let (name, n, h1) = bind-ok _ _ true h in
      let (available, h2) = both-ok _ _ h1 in
      (
        name,
        n,
        (
          fresh-IsFresh _ available,
          elim (metric-cases _ _ _ true h2) [
            | inl (stopped, r) ↦ inl stopped
            | inr (runs, r) ↦ inr (runs, running_ready-IsRunning _ r)
          ],
        ),
      )

  pub logs_ready-IsServiceLogged :
      (host application environment service : Json)
      → logs_ready station host application environment service ≡ ok true
      → IsServiceLogged station host application environment service
  unfolding logs_ready
  logs_ready-IsServiceLogged host application environment service h =
      let (logs, l, h1) = bind-ok _ _ true h in
      (
        logs,
        l,
        elim (if-cases (not (truthy logs)) _ _ (ok true) h1) [
          | inl (off, r) ↦ inl (not-true _ off)
          | inr (on, r) ↦
              let (name, n, h2) = bind-ok _ _ true r in inr (name, n, log_ready-IsLogged _ h2)
        ],
      )

  pub app_ready-IsServiceScraped :
      (host : Json) (identity : Text) (service : Json)
      → app_ready station host identity service ≡ ok true
      → IsServiceScraped station host identity service
  unfolding app_ready
  app_ready-IsServiceScraped host identity service h =
      let (url, u, h1) = bind-ok _ _ true h in
      (
        url,
        u,
        elim (if-cases (is_null url) _ _ (ok true) h1) [
          | inl (off, r) ↦ inl (is_null-null url off)
          | inr (on, r) ↦
              let (name, n, h2) = bind-ok _ _ true r in inr (name, n, scrape_ready-IsScraped _ h2)
        ],
      )

  pub target-IsTargetSeen :
      (host target : Json)
      → (item (codes "name") target >>= λ name.
          scrape_ready station
            (host_labels station host (codes ",agent=\"vmagent\",app=" ++ station.dumps name)))
        ≡ ok true
      → IsTargetSeen station host target
  target-IsTargetSeen host target h =
      let (name, n, h1) = bind-ok _ _ true h in (name, n, scrape_ready-IsScraped _ h1)
