-- ===== src/Scrape/Runtime/States.antt =====
-- What the states of `stored_states` of src/monitoring/scrape.py say of the stored samples.
use dragontools.Common.{
  ◌≡◌, refl, subst, ap, inl, inr, Bool, true, false, ◌&&◌, ◌||◌, Option, none, some, List, [], ◌∷◌,
  ◌++◌, Text, codes, Every, ◌==◌, ==-sound, nat_eq, list_eq, Bool-cases, if◌then◌else◌,
}
use dragontools.Common.Keys.{find, names}
use dragontools.Common.Json.{Json}
use dragontools.Common.Result.{ok, bind-ok, ok-injective, claim-ok}
use dragontools.Scrape.Runtime.{Host, Number, Labels, is_fresh}
use dragontools.Scrape.Runtime.Stored.{
  State, unknown, healthy, unhealthy, query, is_one, has_value, scraper_current, state_of, Samples,
  states_from, selector, stored_states,
}
use dragontools.Scrape.Runtime.Samples.{HasSample, read_metric-HasSample}

module _ (host : Host) where
  -- What a state says: there is a row of the value and one of its time, both with the labels that are
  -- expected, the time is recent, and the value is 1.0 where the state is `healthy` and 0.0 where it
  -- is `unhealthy`.
  abbrev pub IsCurrent :
      List (Text × Labels) → List Json → List Json → (Number → Bool) → Text → Type 0
  IsCurrent expected rows times test name =
      (value : Number) × (stamp : Number) × HasSample host expected (codes "probe_success") rows
        (name, value)
      × HasSample host expected (codes "probe_success") times (name, stamp)
      × (test value ≡ true)
      × (is_fresh host host.now_again stamp ≡ true)

  abbrev pub IsState : List (Text × Labels) → List Json → List Json → Text × State → Type 0
  IsState expected rows times (name, unknown) = Unit
  IsState expected rows times (name, healthy) =
      IsCurrent expected rows times (λ v. is_one host v) name
  IsState expected rows times (name, unhealthy) =
      IsCurrent expected rows times (λ v. v.size == 0) name

  find-Every :
      (P : Text × Number → Type 0) (k : Text) (v : Number) (es : List (Text × Number))
      → Every P es
      → find k es ≡ some v
      → P (k, v)
  unfolding find
  find-Every P k v [] p h = cc h
  find-Every P k v ((j, w) ∷ es) p h = elim (Bool-cases (j == k)) [
    | inl t ↦
        same (==-sound j k t) (subst (λ b. (if b then some w else find k es) ≡ some v) t h) p.0
    | inr f ↦ find-Every P k v es p.1 (subst (λ b. (if b then some w else find k es) ≡ some v) f h)
  ]
    where
      same : j ≡ k → some w ≡ some v → P (j, w) → P (k, v)
      same e g q = let f : w ≡ v = cc g in subst (λ x. P (k, x)) f (subst (λ i. P (i, w)) e q)

  one_or_zero :
      (v : Number) → has_value host (some v) ≡ true → is_one host v ≡ false → (v.size == 0) ≡ true
  one_or_zero v h e = go (v.size == 0) (is_one host v) h e
    where
      go : (a b : Bool) → (a || b) ≡ true → b ≡ false → a ≡ true
      go true b h e = refl
      go false b h e = cc (h, e)

  module _ (expected : List (Text × Labels)) (rows times : List Json) (s : Samples host)
      (values : Every (HasSample host expected (codes "probe_success") rows) s.values)
      (stamps : Every (HasSample host expected (codes "probe_success") times) s.stamps) where
    state_of-IsState :
        (name : Text) (v t : Option Number) (up : Option (Option Number × Option Number))
        → find name s.values ≡ v
        → find name s.stamps ≡ t
        → has_value host v ≡ true
        → IsState expected rows times (name, state_of host v t up)
    unfolding state_of
    state_of-IsState name none t up fv ft h = tt
    state_of-IsState name (some v) none up fv ft h = tt
    state_of-IsState name (some v) (some t) up fv ft h =
        go (is_fresh host host.now_again t) (scraper_current host up) (is_one host v) refl refl
      where
        samples :
            (test : Number → Bool)
            → test v ≡ true
            → is_fresh host host.now_again t ≡ true
            → IsCurrent expected rows times test name
        samples test g fresh = (
          v,
          t,
          find-Every _ name v s.values values fv,
          find-Every _ name t s.stamps stamps ft,
          g,
          fresh,
        )

        go :
            (a b c : Bool)
            → is_fresh host host.now_again t ≡ a
            → is_one host v ≡ c
            → IsState expected rows times
                (name, (if a && b then if c then healthy else unhealthy else unknown))
        go false b c e g = tt
        go true false c e g = tt
        go true true true e g = samples (λ u. is_one host u) g e
        go true true false e g = samples (λ u. u.size == 0) (one_or_zero v h g) e

    states_from-IsState :
        (es : List (Text × Labels)) (states : List (Text × State))
        → states_from host s es ≡ ok states
        → (names states ≡ names es) × Every (IsState expected rows times) states
    unfolding states_from
    states_from-IsState [] states h =
        subst (λ l. (names l ≡ []) × Every (IsState expected rows times) l) (ok-injective h)
          (refl, tt)
    states_from-IsState ((name, l) ∷ es) states h =
        let (valid, h1) = claim-ok _ _ states h in
        let (rest, r, h2) = bind-ok _ _ states h1 in
        let (same, known) = states_from-IsState es rest r in
        subst (λ l. (names l ≡ name ∷ names es) × Every (IsState expected rows times) l)
          (ok-injective h2)
          (ap (λ ns. name ∷ ns) same, (state_of-IsState name _ _ _ refl refl valid, known))

  -- The states are those of the expected names, in order, and there are rows that bear them out.
  abbrev pub AreStates : List (Text × Labels) → List (Text × State) → Type 0
  AreStates expected states =
      (rows : List Json) × (times : List Json) × (query host
          (codes "last_over_time(" ++ (selector host (codes "probe_success") expected ++ codes ")"))
        ≡ ok rows)
      × (query host
            (codes "timestamp(" ++ (selector host (codes "probe_success") expected ++ codes ")"))
          ≡ ok times)
      × (names states ≡ names expected)
      × Every (IsState expected rows times) states

  -- When `stored_states` gives states for some expected targets, it gives one for each name, in order.
  -- A state other than `unknown` is borne out by the two answers: one has a row of the value and the
  -- other one of its time, both with just the expected labels, the time is at most 90 seconds old,
  -- and the value is 1.0 for `healthy` and 0.0 for `unhealthy`.
  pub stored_states-AreStates :
      (e : Text × Labels) (es : List (Text × Labels)) (check_up : Bool)
      (states : List (Text × State))
      → stored_states host (e ∷ es) check_up ≡ ok states
      → AreStates (e ∷ es) states
  unfolding stored_states
  stored_states-AreStates e es check_up states h =
      let ((values, stamps), m, h1) = bind-ok _ _ states h in
      let (ups, u, h2) = bind-ok _ _ states h1 in
      let (rows, times, q, r, vs, ts) =
        read_metric-HasSample host (codes "probe_success") (e ∷ es) values stamps m in
      let (same, known) =
        states_from-IsState (e ∷ es) rows times
          (record { values = values; stamps = stamps; ups = ups }) vs ts (e ∷ es) states h2 in
      (rows, times, q, r, same, known)
