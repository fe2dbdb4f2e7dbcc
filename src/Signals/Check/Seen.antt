-- ===== src/Signals/Check/Seen.antt =====
-- What the queries of src/monitoring/agents/signals.py have shown when they return True.
use dragontools.Common.{
  ◌≡◌, refl, ◌⊎◌, inl, inr, Bool, true, false, not, ◌||◌, Option, none, some, List, [], ◌∷◌, ◌++◌,
  Text, codes, Every, Every-mono, nat_eq, list_eq, if◌then◌else◌, byte_lines,
}
use dragontools.Common.Json.{Json, null, string, get, holds_text, truthy}
use dragontools.Common.Result.{Result, ok, ◌>>=◌, ◌>>◌, bind-ok}
use dragontools.Signals.Queries.{
  Station, claim, present, item, elements, text_of, object_of, differs, body_of, stream_of,
  any_differs,
}
use dragontools.Signals.Check.{all_ready, both, listed_ready}

pub all_ready-Every :
    {A : Type 0} (ready : A → Result Bool) (xs : List A)
    → all_ready ready xs ≡ ok true
    → Every (λ x. ready x ≡ ok true) xs
unfolding all_ready
all_ready-Every ready [] h = tt
all_ready-Every ready (x ∷ xs) h =
    let (b, r, h1) = bind-ok (ready x) (λ b. if b then all_ready ready xs else ok false) true h in
    go (all_ready-Every ready xs) b r h1
  where
    go :
        (all_ready ready xs ≡ ok true → Every (λ y. ready y ≡ ok true) xs)
        → (b : Bool) → ready x ≡ ok b
        → (if b then all_ready ready xs else ok false) ≡ ok true
        → Every (λ x. ready x ≡ ok true) (x ∷ xs)
    go rest true r h = (r, rest h)
    go rest false r h = absurd (cc h)

pub both-ok : (p q : Result Bool) → both p q ≡ ok true → (p ≡ ok true) × (q ≡ ok true)
unfolding both
both-ok p q h = let (b, r, h1) = bind-ok p (λ b. if b then q else ok false) true h in go b r h1
  where
    go :
        (b : Bool)
        → p ≡ ok b
        → (if b then q else ok false) ≡ ok true
        → (p ≡ ok true) × (q ≡ ok true)
    go true r h = (r, h)
    go false r h = absurd (cc h)

-- Each element of a listed field is ready.
abbrev pub Each : Text → (Json → Type 0) → Json → Type 0
Each key P value =
    (j : Json) × (list : List Json) × (item key value ≡ ok j)
    × (elements j ≡ ok list)
    × Every P list

pub listed_ready-Each :
    (station : Station) (key : Text) (value : Json) (ready : Json → Result Bool) (P : Json → Type 0)
    → ((x : Json) → ready x ≡ ok true → P x)
    → listed_ready station key value ready ≡ ok true
    → Each key P value
unfolding listed_ready
listed_ready-Each station key value ready P shown h =
    let (j, i, h1) = bind-ok _ _ true h in
    let (list, e, h2) = bind-ok _ _ true h1 in
    (j, list, i, e, Every-mono _ P shown list (all_ready-Every ready list h2))

-- A chain of tests by the mode.
pub if-cases :
    {A : Type 0} (b : Bool) (p q : Result A) (r : Result A)
    → (if b then p else q) ≡ r
    → ((b ≡ true) × (p ≡ r)) ⊎ ((b ≡ false) × (q ≡ r))
if-cases true p q r h = inl (refl, h)
if-cases false p q r h = inr (refl, h)

pub claim-ok :
    {A : Type 0} (b : Bool) (k : Result A) (a : A) → (claim b >> k) ≡ ok a → (b ≡ true) × (k ≡ ok a)
unfolding claim ◌>>◌ ◌>>=◌
claim-ok true k a h = (refl, h)
claim-ok false k a h = cc h

pub present-ok : {A : Type 0} (o : Option A) (a : A) → present o ≡ ok a → o ≡ some a
present-ok none a h = cc h
present-ok (some x) a h = cc h

-- VictoriaMetrics has answered a query with a vector, which has rows just when `b` is true.
abbrev pub Answers : Station → Text → Bool → Type 0
Answers station query b =
    (body : Text) × (value : Json) × (result : Json) × (part : Json) × (rows : Json) × (body_of
        (station.ask 8428 (codes "/api/v1/query") query)
      ≡ ok body)
    × (station.loads body ≡ some value)
    × (object_of value ≡ ok result)
    × (holds_text (codes "success") (get (codes "status") result) ≡ true)
    × (item (codes "data") result ≡ ok part)
    × (holds_text (codes "vector") (get (codes "resultType") part) ≡ true)
    × (item (codes "result") part ≡ ok rows)
    × (truthy rows ≡ b)

-- A sample of the selector is of `since` or later and less than 90 seconds old.
abbrev pub IsFresh : Station → Text → Type 0
IsFresh station selector =
    Answers station
      (codes "count((timestamp("
        ++ (selector
            ++ (codes ") keep_metric_names >= "
                ++ (station.since_text
                    ++ (codes ") and (timestamp("
                        ++ (selector ++ codes ") keep_metric_names > time()-90)) > 0"))))))
      true

-- VictoriaLogs has answered with an entry of just this stream, of `since` or later.
abbrev pub IsLogged : Station → List (Text × Json) → Type 0
IsLogged station identity =
    (body : Text) × (line : Text) × (lines : List Text) × (value : Json) × (entry : Json)
    × (stamp : Text) × (body_of (
          station.ask 9428 (codes "/select/logsql/query")
            (stream_of station identity ++ codes " _time:2m | sort by (_time) desc limit 1"))
        ≡ ok body)
    × (byte_lines body ≡ line ∷ lines)
    × (station.loads line ≡ some value)
    × (object_of value ≡ ok entry)
    × (not (
          any_differs station entry identity
          || differs (string (stream_of station identity)) (get (codes "_stream") entry))
        ≡ true)
    × (text_of (get (codes "_time") entry) ≡ ok stamp)
    × (station.is_since stamp ≡ some true)

-- The scrape of a target has arrived: it succeeded and the target has metrics of its own, or it failed.
abbrev pub IsScraped : Station → Text → Type 0
IsScraped station labels =
    IsFresh station (codes "up" ++ (labels ++ codes "}"))
    × ((Answers station (codes "up" ++ (labels ++ codes "} == 1")) true
          × IsFresh station (labels ++ codes ",__name__!~\"up|scrape_.*\"}"))
        ⊎ (Answers station (codes "up" ++ (labels ++ codes "} == 1")) false
            × Answers station (codes "up" ++ (labels ++ codes "} == 0")) true))

-- The three metrics of the host have arrived.
abbrev pub IsHostSeen : Station → Json → Text → Type 0
IsHostSeen station host identity =
    Every
      (λ name. IsFresh station (
        name
        ++ (codes "{host="
            ++ (station.dumps host ++ (codes ",agent=\"vector\"" ++ (identity ++ codes "}"))))))
      (codes "host_cpu_seconds_total"
        ∷ codes "host_memory_total_bytes"
        ∷ codes "host_filesystem_used_ratio"
        ∷ [])

-- The metrics of a service that runs have arrived, the count of its tasks where that is supported.
abbrev pub IsRunning : Station → Text → Type 0
IsRunning station labels =
    Every (λ name. IsFresh station (codes "dragontools_service_" ++ (name ++ labels)))
      (codes "cpu_seconds_total" ∷ codes "memory_current_bytes" ∷ codes "tasks_supported" ∷ [])
    × ((Answers station (codes "dragontools_service_tasks_supported" ++ (labels ++ codes " == 1"))
            true
          × IsFresh station (codes "dragontools_service_tasks_current" ++ labels))
        ⊎ Answers station (codes "dragontools_service_tasks_supported" ++ (labels ++ codes " == 1"))
            false)

-- The state of a service with these labels has arrived: it is stopped, or its metrics are there.
abbrev pub IsObserved : Station → Text → Type 0
IsObserved station labels =
    IsFresh station (codes "dragontools_service_cgroup_available" ++ labels)
    × (Answers station (codes "dragontools_service_cgroup_available" ++ (labels ++ codes " == 0"))
          true
        ⊎ (Answers station
              (codes "dragontools_service_cgroup_available" ++ (labels ++ codes " == 0")) false
            × IsRunning station labels))

abbrev pub IsServiceSeen : Station → Json → Text → Json → Type 0
IsServiceSeen station host identity service =
    (name : Json) × (item (codes "name") service ≡ ok name)
    × IsObserved station (
        codes "{host="
        ++ (station.dumps host
            ++ (identity ++ (codes ",service=" ++ (station.dumps name ++ codes "}")))))

-- A service that logs has a fresh entry in its stream.
abbrev pub IsServiceLogged : Station → Json → Json → Json → Json → Type 0
IsServiceLogged station host application environment service =
    (logs : Json) × (item (codes "logs") service ≡ ok logs)
    × ((truthy logs ≡ false)
        ⊎ ((name : Json) × (item (codes "name") service ≡ ok name)
            × IsLogged station (
                (codes "application", application)
                ∷ (codes "environment", environment)
                ∷ (codes "host", host)
                ∷ (codes "service", name)
                ∷ [])))

-- A service with a metrics URL is scraped.
abbrev pub IsServiceScraped : Station → Json → Text → Json → Type 0
IsServiceScraped station host identity service =
    (url : Json) × (item (codes "metrics_url") service ≡ ok url)
    × ((url ≡ null)
        ⊎ ((name : Json) × (item (codes "name") service ≡ ok name)
            × IsScraped station (
                codes "{host="
                ++ (station.dumps host
                    ++ (codes ",agent=\"vmagent\""
                        ++ (identity ++ (codes ",service=" ++ station.dumps name)))))))

-- A listed target is scraped.
abbrev pub IsTargetSeen : Station → Json → Json → Type 0
IsTargetSeen station host target =
    (name : Json) × (item (codes "name") target ≡ ok name)
    × IsScraped station (
        codes "{host="
        ++ (station.dumps host ++ (codes ",agent=\"vmagent\",app=" ++ station.dumps name)))
