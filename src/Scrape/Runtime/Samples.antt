-- ===== src/Scrape/Runtime/Samples.antt =====
-- What `sample_map` of src/monitoring/scrape.py takes from the answers.
use dragontools.Common.{
  ◌≡◌, refl, subst, inl, inr, Bool, true, false, Option, none, some, List, [], ◌∷◌, ◌++◌, Text,
  codes, Every, Every-mono, Member, nat_eq, list_eq, if◌then◌else◌,
}
use dragontools.Common.Keys.{find}
use dragontools.Common.Json.{Json, object, Fields, get, equal}
use dragontools.Common.Result.{ok, bind-ok, ok-injective, claim-ok}
use dragontools.Scrape.Runtime.{Host, Number, Labels, label_fields}
use dragontools.Scrape.Runtime.Stored.{
  query, metric_labels, sample_name, point_of, value_of, sample_of, add_sample, add_name,
  samples_from, sample_map, selector, read_metric,
}

module _ (host : Host) where
  -- A row that is a sample of the metric with just the labels that are expected under the name.
  abbrev pub HasSample : List (Text × Labels) → Text → List Json → Text × Number → Type 0
  HasSample expected metric rows (name, value) =
      (row : Json) × (labels : Fields) × (wanted : Labels) × Member row rows
      × (metric_labels host metric (get (codes "metric") row) ≡ ok labels)
      × (find name expected ≡ some wanted)
      × (equal (object labels) (object (label_fields wanted)) ≡ true)
      × (point_of host (get (codes "value") row) ≡ ok value)

  sample_name-some :
      (labels : Fields) (name : Text) (o : Option Labels) (n : Text)
      → sample_name host labels name o ≡ some n
      → (name ≡ n)
        × ((wanted : Labels) × (o ≡ some wanted)
            × (equal (object labels) (object (label_fields wanted)) ≡ true))
  sample_name-some labels name none n h = cc h
  sample_name-some labels name (some wanted) n h =
      go (equal (object labels) (object (label_fields wanted))) refl h
    where
      go :
          (b : Bool)
          → equal (object labels) (object (label_fields wanted)) ≡ b
          → (if b then some name else none) ≡ some n
          → (name ≡ n)
            × ((w : Labels) × (some wanted ≡ some w)
                × (equal (object labels) (object (label_fields w)) ≡ true))
      go true e h = (cc h, (wanted, refl, e))
      go false e h = cc h

  value_of-some :
      (seen : List Text) (row : Json) (o : Option Text) (s : Text × Number)
      → value_of host seen row o ≡ ok (some s)
      → (o ≡ some s.0) × (point_of host (get (codes "value") row) ≡ ok s.1)
  unfolding value_of
  value_of-some seen row none s h = cc h
  value_of-some seen row (some name) s h =
      let (new, h1) = claim-ok _ _ (some s) h in
      let (value, p, h2) = bind-ok _ _ (some s) h1 in
      subst
        (λ (o : Option (Text × Number)). elim o [
          | none ↦ ⊥
          | some t ↦ (some name ≡ some t.0) × (point_of host (get (codes "value") row) ≡ ok t.1)
        ])
        (ok-injective h2) (refl, p)

  sample_of-HasSample :
      (metric : Text) (expected : List (Text × Labels)) (seen : List Text) (row : Json)
      (s : Text × Number) (rows : List Json)
      → sample_of host metric expected seen row ≡ ok (some s)
      → Member row rows
      → HasSample expected metric rows s
  unfolding sample_of
  sample_of-HasSample metric expected seen row s rows h m =
      let (labels, l, h1) = bind-ok _ _ (some s) h in
      let (name, k, h2) = bind-ok _ _ (some s) h1 in
      let (named, point) = value_of-some seen row _ s h2 in
      let (same, (wanted, found, equals)) = sample_name-some labels name _ s.0 named in
      (
        row,
        labels,
        wanted,
        m,
        l,
        subst (λ n. find n expected ≡ some wanted) same found,
        equals,
        point,
      )

  abbrev later :
      (expected : List (Text × Labels)) (metric : Text) (row : Json) (rows : List Json)
      (s : Text × Number)
      → HasSample expected metric rows s
      → HasSample expected metric (row ∷ rows) s
  later expected metric row rows s (r, labels, wanted, m, l, f, q, v) =
      (r, labels, wanted, inr m, l, f, q, v)

  pub samples_from-HasSample :
      (metric : Text) (expected : List (Text × Labels)) (seen : List Text) (rows : List Json)
      (ss : List (Text × Number))
      → samples_from host metric expected seen rows ≡ ok ss
      → Every (HasSample expected metric rows) ss
  unfolding samples_from
  samples_from-HasSample metric expected seen [] ss h =
      subst (Every (HasSample expected metric [])) (ok-injective h) tt
  samples_from-HasSample metric expected seen (row ∷ rows) ss h =
      let (o, s, h1) = bind-ok _ _ ss h in
      let (rest, r, h2) = bind-ok _ _ ss h1 in
      subst (Every (HasSample expected metric (row ∷ rows))) (ok-injective h2) (
        add o rest s (
          Every-mono _ _ (later expected metric row rows) rest
            (samples_from-HasSample metric expected (add_name host o seen) rows rest r)))
    where
      add :
          (o : Option (Text × Number)) (rest : List (Text × Number))
          → sample_of host metric expected seen row ≡ ok o
          → Every (HasSample expected metric (row ∷ rows)) rest
          → Every (HasSample expected metric (row ∷ rows)) (add_sample host o rest)
      add none rest s p = p
      add (some t) rest s p =
          (sample_of-HasSample metric expected seen row t (row ∷ rows) s (inl refl), p)

  -- The two answers to a metric.
  pub read_metric-HasSample :
      (metric : Text) (expected : List (Text × Labels)) (values stamps : List (Text × Number))
      → read_metric host metric expected ≡ ok (values, stamps)
      → (rows : List Json) × (times : List Json) × (query host
            (codes "last_over_time(" ++ (selector host metric expected ++ codes ")"))
          ≡ ok rows)
        × (query host (codes "timestamp(" ++ (selector host metric expected ++ codes ")"))
            ≡ ok times)
        × Every (HasSample expected metric rows) values
        × Every (HasSample expected metric times) stamps
  unfolding read_metric sample_map
  read_metric-HasSample metric expected values stamps h =
      let (vs, v, h1) = bind-ok _ _ (values, stamps) h in
      let (ts, t, h2) = bind-ok _ _ (values, stamps) h1 in
      let (rows, q, v1) = bind-ok _ _ vs v in
      let (times, r, t1) = bind-ok _ _ ts t in
      (
        rows,
        times,
        q,
        r,
        subst
            (λ (p : List (Text × Number) × List (Text × Number)).
              Every (HasSample expected metric rows) p.0)
            (ok-injective h2) (samples_from-HasSample metric expected [] rows vs v1),
        subst
            (λ (p : List (Text × Number) × List (Text × Number)).
              Every (HasSample expected metric times) p.1)
            (ok-injective h2) (samples_from-HasSample metric expected [] times ts t1),
      )
