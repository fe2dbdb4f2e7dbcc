-- ===== src/Scrape/Runtime/Outcomes.antt =====
-- What the exit status 0 of `read_main` of src/monitoring/scrape.py says in the mode `stored`, and what
-- `definitions` accepts.
use dragontools.Common.{
  ◌≤◌, ◌≡◌, refl, subst, ◌⊎◌, inl, inr, true, false, some, List, [], ◌∷◌, Text, codes, length,
  Every, Pairwise, arith, nat_eq, list_eq,
}
use dragontools.Common.Json.Read.{present-ok}
use dragontools.Common.Keys.{Fresh, names, not-true}
use dragontools.Common.Json.{
  Json, null, boolean, integer, negative, real, string, array, object, Items, items,
}
use dragontools.Common.Result.{
  Result, ok, refused, broken, bind-ok, then-ok, demand-true, ok-injective, claim-ok,
}
use dragontools.Scrape.Files.{World}
use dragontools.Scrape.Runtime.{Host, Labels, probe_of, definitions_from, definitions, own_labels}
use dragontools.Scrape.Runtime.Loaded.{scraper_ready}
use dragontools.Scrape.Runtime.Stored.{State, unknown, healthy, unhealthy, stored_states}
use dragontools.Scrape.Runtime.Main.{none_unknown, stored, run_mode, run, outcome, read_main}
use dragontools.Scrape.Runtime.Laws.{IsWatched, targets_loaded-IsWatched}
use dragontools.Scrape.Runtime.Policy.{IsConfigured, loaded_policy-IsConfigured}
use dragontools.Scrape.Runtime.States.{AreStates, stored_states-AreStates}

-- No target, or states that are borne out, of which none is `unknown`.
abbrev pub IsStored : Host → List (Text × Labels) → Type 0
IsStored host [] = Unit
IsStored host (e ∷ es) =
    (states : List (Text × State)) × AreStates host (e ∷ es) states
    × Every (λ (s : Text × State). (s.1 ≡ healthy) ⊎ (s.1 ≡ unhealthy)) states

-- The probes of a run: they are accepted, loaded, scraped, and their states are stored.
abbrev pub IsServed : Host → Text → Type 0
IsServed host raw =
    (text : Text) × (probes : Json) × (own : List (Text × Labels)) × (host.b64decode raw
      ≡ some text)
    × (host.loads text ≡ some probes)
    × (definitions host probes ≡ ok own)
    × IsConfigured host own
    × IsWatched host own
    × IsStored host own

none_unknown-Every :
    (states : List (Text × State))
    → none_unknown states ≡ true
    → Every (λ (s : Text × State). (s.1 ≡ healthy) ⊎ (s.1 ≡ unhealthy)) states
unfolding none_unknown
none_unknown-Every [] h = tt
none_unknown-Every ((name, unknown) ∷ ss) h = cc h
none_unknown-Every ((name, healthy) ∷ ss) h = (inl refl, none_unknown-Every ss h)
none_unknown-Every ((name, unhealthy) ∷ ss) h = (inr refl, none_unknown-Every ss h)

outcome-ok : (r : Result Text) → (outcome r).0 ≡ 0 → (out : Text) × (r ≡ ok out)
unfolding outcome
outcome-ok (ok out) h = (out, refl)
outcome-ok refused h = absurd (omega (arith, h))
outcome-ok broken h = absurd (omega (arith, h))

module _ (host : Host) where
  scraper_ready-loaded :
      (own : List (Text × Labels)) (u : Unit {0})
      → scraper_ready host own ≡ ok u
      → IsConfigured host own × IsWatched host own
  unfolding scraper_ready
  scraper_ready-loaded own u h =
      let (body, b, h1) = bind-ok _ _ u h in
      let (fine, h2) = claim-ok _ _ u h1 in
      let (v, reloaded, h3) = then-ok _ _ u h2 in
      let (x, policy, h4) = then-ok _ _ u h3 in
      (loaded_policy-IsConfigured host own policy, targets_loaded-IsWatched host own h4)

  stored-IsStored :
      (sha256 : Text → Text) (w : World) (own : List (Text × Labels)) (u : Unit {0})
      → stored host sha256 w own ≡ ok u
      → IsConfigured host own × (IsWatched host own × IsStored host own)
  unfolding stored
  stored-IsStored sha256 w own u h =
      let (v, r, h1) = then-ok _ _ u h in
      let (states, s, h2) = bind-ok _ _ u h1 in
      let (configured, watched) = scraper_ready-loaded own v r in
      (configured, (watched, known own states s (demand-true _ u h2)))
    where
      known :
          (own : List (Text × Labels)) (states : List (Text × State))
          → stored_states host own false ≡ ok states
          → none_unknown states ≡ true
          → IsStored host own
      known [] states s h = tt
      known (e ∷ es) states s h =
          (states, stored_states-AreStates host e es false states s, none_unknown-Every states h)

  -- When `read_main` exits with 0 in the mode `stored`, its probes were accepted, VictoriaMetrics has
  -- loaded the policy of every wanted job, its active targets are as many as the expected ones and
  -- each expected one is scraped, and for each own probe a state is stored, borne out by recent
  -- samples, that is not `unknown`.
  pub read_main-IsStored :
      (sha256 : Text → Text) (w : World) (config raw : Text)
      → (read_main host sha256 w (codes "stored" ∷ config ∷ raw ∷ [])).0 ≡ 0
      → IsServed host raw
  unfolding read_main run run_mode
  read_main-IsStored sha256 w config raw h =
      let (out, r) = outcome-ok _ h in
      let (text, t, h1) = bind-ok _ _ out r in
      let (probes, p, h2) = bind-ok _ _ out h1 in
      let (own, d, h3) = bind-ok _ _ out h2 in
      let (u, s, h4) = then-ok _ _ out h3 in
      let (configured, (watched, known)) = stored-IsStored sha256 w own u s in
      (text, probes, own, present-ok _ text t, present-ok _ probes p, d, configured, watched, known)

  -- The entry of a probe.
  abbrev pub IsEntry : Json → Text × Labels → Type 0
  IsEntry p (name, labels) =
      (probe_of host p ≡ ok (name, labels.target)) × (labels ≡ own_labels host name labels.target)

  definitions_from-ok :
      (seen : List Text) (ps : List Json) (own : List (Text × Labels))
      → definitions_from host seen ps ≡ ok own
      → Pairwise IsEntry ps own × Fresh seen (names own)
  unfolding definitions_from
  definitions_from-ok seen [] own h =
      subst (λ l. Pairwise IsEntry [] l × Fresh seen (names l)) (ok-injective h) (tt, tt)
  definitions_from-ok seen (p ∷ ps) own h =
      let ((name, target), q, h1) = bind-ok _ _ own h in
      let (new, h2) = claim-ok _ _ own h1 in
      let (rest, r, h3) = bind-ok _ _ own h2 in
      let (entries, fresh) = definitions_from-ok (name ∷ seen) ps rest r in
      subst (λ l. Pairwise IsEntry (p ∷ ps) l × Fresh seen (names l)) (ok-injective h3)
        (((q, refl), entries), (not-true _ new, fresh))

  -- What `definitions` accepts is a list of at most 64 probes. It gives one entry for each, in order,
  -- under the name of the probe and with the labels of the station's job, and no name comes twice.
  pub definitions-Distinct :
      (probes : Json) (own : List (Text × Labels))
      → definitions host probes ≡ ok own
      → (ps : Items) × (probes ≡ array ps)
        × (length (items ps) ≤ 64)
        × Pairwise IsEntry (items ps) own
        × Fresh [] (names own)
  unfolding definitions
  definitions-Distinct (array ps) own h =
      let (few, h1) = claim-ok _ _ own h in
      let (entries, fresh) = definitions_from-ok [] (items ps) own h1 in
      (ps, refl, ground (arith, few), entries, fresh)
  definitions-Distinct null own h = cc h
  definitions-Distinct (boolean b) own h = cc h
  definitions-Distinct (integer n) own h = cc h
  definitions-Distinct (negative n) own h = cc h
  definitions-Distinct (real u) own h = cc h
  definitions-Distinct (string u) own h = cc h
  definitions-Distinct (object u) own h = cc h
