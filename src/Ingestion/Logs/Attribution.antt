-- ===== src/Ingestion/Logs/Attribution.antt =====
-- Where the names of a line come from, in `log_body` of src/monitoring/agents/ingestion.py.
use dragontools.Common.{
  ◌≡◌, refl, sym, ap, subst, ◌∙◌, inl, inr, Bool, true, false, Option, none, some, List, [], ◌∷◌,
  codes, Every, Every-append, Every-mono, Member, nat_eq, list_eq, if◌then◌else◌,
}
use dragontools.Common.Json.{Json, string, Fields, lookup, assign, remove, get, holds_text, truthy}
use dragontools.Common.Json.Laws.{lookup-assign, lookup-assign_other, lookup-remove_other}
use dragontools.Common.Result.{ok, or_refused, bind-ok, demand-ok, ok-injective}
use dragontools.Ingestion.Logs.{
  elements, contains, or_null, name_service, is_event, host_event, serves, serving, matches,
  name_match, application_log, service_log, attributed,
}

-- The names that a line carries.
abbrev pub IsNamed : Option Json → Option Json → Option Json → Fields → Type 0
IsNamed application environment service value =
    (lookup (codes "application") value ≡ application)
    × (lookup (codes "environment") value ≡ environment)
    × (lookup (codes "service") value ≡ service)

-- A service of an application that logs under a unit.
abbrev pub IsServed : Json → Json × Json → Type 0
IsServed unit (app, service) =
    (listed : Json) × (services : List Json) × (get (codes "services") app ≡ some listed)
    × (elements listed ≡ ok services)
    × Member service services
    × (serves unit service ≡ ok true)

-- Where the names of a line come from: they are the host's for one of the three host events, those of
-- a registered application's service, or its own when the service is registered.
pub data IsAttributed (registration : Json) (value result : Fields) : Type 0 where
  of_host :
      is_event (lookup (codes "event") value) ≡ true
      → IsNamed
          (some (string (codes "host")))
          (some (string (codes "host")))
          (some (string (codes "dragontools-host")))
          result
      → IsAttributed registration value result
  of_application :
      (listed : Json) (apps : List Json) (app service : Json)
      → get (codes "applications") registration ≡ some listed
      → elements listed ≡ ok apps
      → Member app apps
      → IsServed (or_null (lookup (codes "journal_unit") value)) (app, service)
      → IsNamed
          (get (codes "name") app)
          (get (codes "environment") app)
          (get (codes "name") service)
          result
      → IsAttributed registration value result
  of_service :
      (listed : Json)
      → get (codes "services") registration ≡ some listed
      → contains listed (or_null (lookup (codes "service") value)) ≡ ok true
      → IsNamed
          (lookup (codes "application") value)
          (lookup (codes "environment") value)
          (lookup (codes "service") value)
          result
      → IsAttributed registration value result

pub item-ok : (o : Option Json) (j : Json) → or_refused o ≡ ok j → o ≡ some j
item-ok none j h = cc h
item-ok (some i) j h = cc h

named :
    (application environment service : Json) (value : Fields)
    → IsNamed
        (some application)
        (some environment)
        (some service)
        (remove (codes "journal_unit") (name_service application environment service value))
named a e s value = (
  lookup-remove_other (codes "application") (codes "journal_unit") _ refl
      ∙ lookup-assign_other (codes "application") (codes "service") s _ refl
      ∙ lookup-assign_other (codes "application") (codes "environment") e _ refl
      ∙ lookup-assign (codes "application") a value,
  lookup-remove_other (codes "environment") (codes "journal_unit") _ refl
      ∙ lookup-assign_other (codes "environment") (codes "service") s _ refl
      ∙ lookup-assign (codes "environment") e _,
  lookup-remove_other (codes "service") (codes "journal_unit") _ refl
      ∙ lookup-assign (codes "service") s _,
)

module _ (unit app : Json) where
  serving-Every :
      (services : List Json) (pairs : List (Json × Json))
      → serving unit app services ≡ ok pairs
      → Every (λ p. (p.0 ≡ app) × Member p.1 services × (serves unit p.1 ≡ ok true)) pairs
  unfolding serving
  serving-Every [] pairs h = subst (Every _) (ok-injective h) tt
  serving-Every (service ∷ services) pairs h =
      let (found, f, h1) = bind-ok _ _ pairs h in
      let (more, r, h2) = bind-ok _ _ pairs h1 in
      let rest =
        Every-mono (λ p. (p.0 ≡ app) × Member p.1 services × (serves unit p.1 ≡ ok true))
          (λ p. (p.0 ≡ app) × Member p.1 (service ∷ services) × (serves unit p.1 ≡ ok true))
          (λ p m. (m.0, inr m.1, m.2)) more (serving-Every services more r) in
      subst (Every _) (ok-injective h2) (
        elim found
            as (λ b.
              serves unit service ≡ ok b
              → Every
                  (λ p. (p.0 ≡ app) × Member p.1 (service ∷ services) × (serves unit p.1 ≡ ok true))
                  (if b then (app, service) ∷ more else more)) [
                    | true ↦ λ e. ((refl, inl refl, e), rest)
                    | false ↦ λ e. rest
                  ]
          f)

module _ (unit : Json) where
  matches-Every :
      (apps : List Json) (pairs : List (Json × Json))
      → matches unit apps ≡ ok pairs
      → Every (λ p. Member p.0 apps × IsServed unit p) pairs
  unfolding matches
  matches-Every [] pairs h = subst (Every _) (ok-injective h) tt
  matches-Every (app ∷ apps) pairs h =
      let (listed, l, h1) = bind-ok _ _ pairs h in
      let (services, s, h2) = bind-ok _ _ pairs h1 in
      let (here, r, h3) = bind-ok _ _ pairs h2 in
      let (more, m, h4) = bind-ok _ _ pairs h3 in
      subst (Every _) (ok-injective h4) (
        Every-append (λ p. Member p.0 (app ∷ apps) × IsServed unit p) here more
          (Every-mono (λ p. (p.0 ≡ app) × Member p.1 services × (serves unit p.1 ≡ ok true)) _
            (λ p q. (
              inl q.0,
              (listed, services, ap (get (codes "services")) q.0 ∙ item-ok _ listed l, s, q.1, q.2),
            ))
            here (serving-Every unit app services here r))
          (Every-mono (λ p. Member p.0 apps × IsServed unit p) _ (λ p q. (inr q.0, q.1)) more
            (matches-Every apps more m)))

name_match-ok :
    (value result : Fields) (pairs : List (Json × Json))
    → name_match value pairs ≡ ok result
    → (app : Json) × (service : Json) × (pairs ≡ (app, service) ∷ [])
      × IsNamed
          (get (codes "name") app)
          (get (codes "environment") app)
          (get (codes "name") service)
          result
unfolding name_match
name_match-ok value result [] h = cc h
name_match-ok value result ((app, service) ∷ []) h =
    let (a, ha, h1) = bind-ok _ _ result h in
    let (e, he, h2) = bind-ok _ _ result h1 in
    let (s, hs, h3) = bind-ok _ _ result h2 in
    let n = subst (IsNamed (some a) (some e) (some s)) (ok-injective h3) (named a e s value) in
    (
      app,
      service,
      refl,
      (n.0 ∙ sym (item-ok _ a ha), n.1 ∙ sym (item-ok _ e he), n.2 ∙ sym (item-ok _ s hs)),
    )
name_match-ok value result (p ∷ q ∷ pairs) h = cc h

module _ (registration : Json) (value result : Fields) where
  application_log-ok :
      (listed : Json)
      → get (codes "applications") registration ≡ some listed
      → application_log listed value ≡ ok result
      → IsAttributed registration value result
  unfolding application_log
  application_log-ok listed g h =
      let (apps, a, h1) = bind-ok _ _ result h in
      let (pairs, m, h2) = bind-ok _ _ result h1 in
      let (app, service, p, n) = name_match-ok value result pairs h2 in
      let ((known, served), rest) =
        subst
          (Every
            (λ p. Member p.0 apps × IsServed (or_null (lookup (codes "journal_unit") value)) p))
          p (matches-Every (or_null (lookup (codes "journal_unit") value)) apps pairs m) in
      of_application listed apps app service g a known served n

  service_log-ok :
      service_log registration value ≡ ok result → IsAttributed registration value result
  unfolding service_log
  service_log-ok h =
      let (listed, l, h1) = bind-ok _ _ result h in
      let (found, f, h2) = bind-ok _ _ result h1 in
      let (e, h3) = demand-ok found _ result h2 in
      of_service listed (item-ok _ listed l) (f ∙ ap ok e) (
        subst
          (IsNamed (lookup (codes "application") value) (lookup (codes "environment") value)
            (lookup (codes "service") value))
          (ok-injective h3) (refl, refl, refl))

  host_event-ok : host_event value ≡ ok result → IsAttributed registration value result
  unfolding host_event
  host_event-ok h =
      let (e, h1) = demand-ok _ _ result h in
      of_host e (subst (IsNamed _ _ _) (ok-injective h1) (named _ _ _ value))

  pub attributed-ok :
      attributed registration value ≡ ok result → IsAttributed registration value result
  unfolding attributed
  attributed-ok h =
      go (holds_text (codes "dragontools_host") (lookup (codes "type") value))
        (get (codes "applications") registration) refl h
    where
      go :
          (b : Bool) (listed : Option Json)
          → get (codes "applications") registration ≡ listed
          → (if b then host_event value else elim listed [
            | none ↦ service_log registration value
            | some applications ↦
                if truthy applications
                then application_log applications value
                else service_log registration value
          ])
            ≡ ok result
          → IsAttributed registration value result
      go true listed g h = host_event-ok h
      go false none g h = service_log-ok h
      go false (some j) g h =
          elim (truthy j)
              as (λ t.
                (if t then application_log j value else service_log registration value) ≡ ok result
                → IsAttributed registration value result) [
                  | true ↦ λ e. application_log-ok j g e
                  | false ↦ λ e. service_log-ok e
                ]
            h

module _ (host : Json) where
  IsNamed-host :
      (a e s : Option Json) (value : Fields)
      → IsNamed a e s value
      → IsNamed a e s (remove (codes "_stream") (assign (codes "host") host value))
  IsNamed-host a e s value (ha, he, hs) = (
    lookup-remove_other (codes "application") (codes "_stream") _ refl
        ∙ lookup-assign_other (codes "application") (codes "host") host value refl
        ∙ ha,
    lookup-remove_other (codes "environment") (codes "_stream") _ refl
        ∙ lookup-assign_other (codes "environment") (codes "host") host value refl
        ∙ he,
    lookup-remove_other (codes "service") (codes "_stream") _ refl
        ∙ lookup-assign_other (codes "service") (codes "host") host value refl
        ∙ hs,
  )

  pub IsAttributed-host :
      (registration : Json) (value result : Fields)
      → IsAttributed registration value result
      → IsAttributed registration value
          (remove (codes "_stream") (assign (codes "host") host result))
  IsAttributed-host registration value result (of_host e n) =
      of_host e (IsNamed-host _ _ _ result n)
  IsAttributed-host registration value result (of_application listed apps app service g a m v n) =
      of_application listed apps app service g a m v (IsNamed-host _ _ _ result n)
  IsAttributed-host registration value result (of_service listed g m n) =
      of_service listed g m (IsNamed-host _ _ _ result n)
