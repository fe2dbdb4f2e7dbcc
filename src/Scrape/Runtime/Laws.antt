-- ===== src/Scrape/Runtime/Laws.antt =====
-- What `targets_loaded` of src/monitoring/scrape.py has seen when it returns.
use dragontools.Common.{
  ◌≡◌, refl, subst, inl, inr, true, false, Option, none, some, List, [], ◌∷◌, Text, codes, length,
  Every, Every-mono, Member, ◌==◌, ==-sound, nat_eq, list_eq, Bool-cases, &&-true, arith,
  if◌then◌else◌,
}
use dragontools.Common.Json.Read.{list_of, present-ok, text_of-ok}
use dragontools.Common.Keys.{
  contains_key, Fresh, find, names, contains-cover, Every-keys, Every-at, not-true,
}
use dragontools.Common.Json.{
  Json, null, boolean, integer, negative, real, array, object, string, Fields, get, holds_text,
  equal,
}
use dragontools.Common.Result.{ok, bind-ok, then-ok, demand-ok, demand-true, ok-injective, claim-ok}
use dragontools.Scrape.Runtime.{Host, Url, Number, Labels, label_fields, json_response, is_fresh}
use dragontools.Scrape.Runtime.Targets.{
  is_exporter, with_offset, text_or_refused, named_labels, is_recent, check_address, check_scraped,
  labels_of, expected_name, check_target, check_targets, all_expected, targets_loaded,
}

-- The answer for a target: it has just the expected labels, VictoriaMetrics scrapes it by way of the
-- exporter, and it has done so lately and without an error.
abbrev pub IsScraped : Host → List (Text × Labels) → Text → Json → Type 0
IsScraped host expected name t =
    (labels : Fields) × (wanted : Labels) × (address : Text) × (url : Url) × (stamp : Number)
    × (value : Text) × (get (codes "labels") t ≡ some (object labels))
    × (find name expected ≡ some wanted)
    × (equal (object labels) (object (label_fields wanted)) ≡ true)
    × (get (codes "scrapeUrl") t ≡ some (string address))
    × (host.urlsplit address ≡ some url)
    × (is_exporter url ≡ true)
    × (holds_text (codes "up") (get (codes "health") t) ≡ true)
    × (holds_text [] (get (codes "lastError") t) ≡ true)
    × (get (codes "lastScrape") t ≡ some (string value))
    × (host.fromisoformat (with_offset value) ≡ some (some stamp))
    × (is_fresh host host.now stamp ≡ true)

text_or_refused-ok : (o : Option Json) (t : Text) → text_or_refused o ≡ ok t → o ≡ some (string t)
unfolding text_or_refused
text_or_refused-ok (some (string u)) t h = cc h
text_or_refused-ok none t h = cc h
text_or_refused-ok (some null) t h = cc h
text_or_refused-ok (some (boolean b)) t h = cc h
text_or_refused-ok (some (integer n)) t h = cc h
text_or_refused-ok (some (negative n)) t h = cc h
text_or_refused-ok (some (real u)) t h = cc h
text_or_refused-ok (some (array u)) t h = cc h
text_or_refused-ok (some (object u)) t h = cc h

module _ (host : Host) where
  labels_of-ok : (o : Option Json) (fs : Fields) → labels_of host o ≡ ok fs → o ≡ some (object fs)
  unfolding labels_of
  labels_of-ok (some (object u)) fs h = cc h
  labels_of-ok none fs h = cc h
  labels_of-ok (some null) fs h = cc h
  labels_of-ok (some (boolean b)) fs h = cc h
  labels_of-ok (some (integer n)) fs h = cc h
  labels_of-ok (some (negative n)) fs h = cc h
  labels_of-ok (some (real u)) fs h = cc h
  labels_of-ok (some (array u)) fs h = cc h
  labels_of-ok (some (string u)) fs h = cc h

  named_labels-ok :
      (fs : Fields) (name : Text) (o : Option Labels) (n : Text)
      → named_labels host fs name o ≡ ok n
      → (name ≡ n)
        × ((wanted : Labels) × (o ≡ some wanted)
            × (equal (object fs) (object (label_fields wanted)) ≡ true))
  unfolding named_labels
  named_labels-ok fs name none n h = cc h
  named_labels-ok fs name (some wanted) n h =
      let (same, h1) = demand-ok _ _ n h in (ok-injective h1, (wanted, refl, same))

  expected_name-ok :
      (expected : List (Text × Labels)) (fs : Fields) (o : Option Text) (n : Text)
      → expected_name host expected fs o ≡ ok n
      → (wanted : Labels) × (find n expected ≡ some wanted)
        × (equal (object fs) (object (label_fields wanted)) ≡ true)
  unfolding expected_name
  expected_name-ok expected fs none n h = cc h
  expected_name-ok expected fs (some name) n h =
      let (same, (wanted, found, equals)) = named_labels-ok fs name _ n h in
      (wanted, subst (λ m. find m expected ≡ some wanted) same found, equals)

  check_address-ok :
      (labels : Fields) (t : Json) (u : Unit {0})
      → check_address host labels t ≡ ok u
      → (address : Text) × (url : Url) × (get (codes "scrapeUrl") t ≡ some (string address))
        × (host.urlsplit address ≡ some url)
        × (is_exporter url ≡ true)
  unfolding check_address
  check_address-ok labels t u h =
      let (job, j, h1) = bind-ok _ _ u h in
      let (pool, h2) = demand-ok _ _ u h1 in
      let (address, a, h3) = bind-ok _ _ u h2 in
      let (url, s, h4) = bind-ok _ _ u h3 in
      let (exported, h5) = demand-ok _ _ u h4 in
      (address, url, text_or_refused-ok _ address a, present-ok _ url s, exported)

  is_recent-some :
      (o : Option Number)
      → is_recent host o ≡ true
      → (stamp : Number) × (o ≡ some stamp) × (is_fresh host host.now stamp ≡ true)
  is_recent-some none h = absurd (cc h)
  is_recent-some (some stamp) h = (stamp, refl, h)

  check_target-IsScraped :
      (expected : List (Text × Labels)) (seen : List Text) (t : Json) (name : Text)
      → check_target host true expected seen t ≡ ok name
      → (contains_key name seen ≡ false) × IsScraped host expected name t
  unfolding check_target check_scraped
  check_target-IsScraped expected seen t name h =
      let (labels, l, h1) = bind-ok _ _ name h in
      let (found, f, h2) = bind-ok _ _ name h1 in
      let (new, h3) = demand-ok _ _ name h2 in
      let (u, at, h4) = then-ok _ _ name h3 in
      let (v, scraped, h5) = then-ok _ _ name h4 in
      let (up, s1) = demand-ok _ _ v scraped in
      let (value, at_time, s2) = bind-ok _ _ v s1 in
      let (moment, parsed, s3) = bind-ok _ _ v s2 in
      let (stamp, zone, fresh) = is_recent-some moment (demand-true _ v s3) in
      let (wanted, entry, same) = expected_name-ok expected labels _ found f in
      let (address, url, a, split, exported) = check_address-ok labels t u at in
      let (health, error) = &&-true _ _ up in
      subst (λ n. (contains_key n seen ≡ false) × IsScraped host expected n t) (ok-injective h5)
        (
          not-true _ new,
          (
            labels,
            wanted,
            address,
            url,
            stamp,
            value,
            labels_of-ok _ labels l,
            entry,
            same,
            a,
            split,
            exported,
            health,
            error,
            text_of-ok _ value at_time,
            subst (λ o. host.fromisoformat (with_offset value) ≡ some o) zone
                (present-ok _ moment parsed),
            fresh,
          ),
        )

  -- What the loop gives of its targets.
  abbrev Checked : List (Text × Labels) → List Text → List Json → List Text → Type 0
  Checked expected seen ts ns =
      Fresh seen ns
      × (length ns ≡ length ts)
      × Every (λ n. contains_key n (names expected) ≡ true) ns
      × Every (λ n. (t : Json) × Member t ts × IsScraped host expected n t) ns

  find-contains :
      (n : Text) (es : List (Text × Labels)) (l : Labels)
      → find n es ≡ some l
      → contains_key n (names es) ≡ true
  unfolding find
  find-contains n [] l h = cc h
  find-contains n ((k, v) ∷ es) l h = elim (Bool-cases (k == n)) [
    | inl t ↦ rw t refl
    | inr f ↦
        rw f (find-contains n es l (subst (λ b. (if b then some v else find n es) ≡ some l) f h))
  ]

  IsScraped-contains :
      (expected : List (Text × Labels)) (n : Text) (t : Json)
      → IsScraped host expected n t
      → contains_key n (names expected) ≡ true
  IsScraped-contains expected n t s = find-contains n expected s.1 s.7

  check_targets-Checked :
      (expected : List (Text × Labels)) (seen : List Text) (ts : List Json) (ns : List Text)
      → check_targets host true expected seen ts ≡ ok ns
      → Checked expected seen ts ns
  unfolding check_targets
  check_targets-Checked expected seen [] ns h =
      subst (Checked expected seen []) (ok-injective h) (tt, refl, tt, tt)
  check_targets-Checked expected seen (t ∷ ts) ns h =
      let (name, c, h1) = bind-ok _ _ ns h in
      let (rest, r, h2) = bind-ok _ _ ns h1 in
      let (new, scraped) = check_target-IsScraped expected seen t name c in
      let (fresh, size, known, found) = check_targets-Checked expected (name ∷ seen) ts rest r in
      subst (Checked expected seen (t ∷ ts)) (ok-injective h2) (
        (new, fresh),
        omega (arith, size),
        (IsScraped-contains expected name t scraped, known),
        ((t, inl refl, scraped), Every-mono _ _ (λ n (u, m, s). (u, inr m, s)) rest found),
      )

  -- The answer for the targets: as many as are expected, and each expected one is scraped.
  abbrev pub IsWatched : List (Text × Labels) → Type 0
  IsWatched own =
      (expected : List (Text × Labels)) × (part : Json) × (targets : List Json) × (all_expected host
          own
        ≡ ok expected)
      × (json_response host (codes "/api/v1/targets?state=active") ≡ ok part)
      × (list_of (get (codes "activeTargets") part) ≡ ok targets)
      × (length targets ≡ length expected)
      × Every (λ n. (t : Json) × Member t targets × IsScraped host expected n t) (names expected)

  length-names : (es : List (Text × Labels)) → length (names es) ≡ length es
  length-names [] = refl
  length-names ((k, l) ∷ es) = omega (arith, length-names es)

  -- When `targets_loaded` returns with `require_scraped`, the active targets are as many as the expected
  -- ones, which are those of the probes and of the applications, and for every expected name there is
  -- a target with just the labels of the name, which VictoriaMetrics has scraped by way of the local
  -- exporter at most 90 seconds ago and without an error.
  pub targets_loaded-IsWatched :
      (own : List (Text × Labels)) → targets_loaded host own true ≡ ok tt → IsWatched own
  unfolding targets_loaded
  targets_loaded-IsWatched own h =
      let (expected, e, h1) = bind-ok _ _ tt h in
      let (part, p, h2) = bind-ok _ _ tt h1 in
      let (targets, l, h3) = bind-ok _ _ tt h2 in
      let (few, h4) = claim-ok _ _ tt h3 in
      let (size, h5) = demand-ok _ _ tt h4 in
      let (ns, c, h6) = bind-ok _ _ tt h5 in
      let (fresh, same, known, found) = check_targets-Checked expected [] targets ns c in
      let sizes = ==-sound (length targets) (length expected) size in
      (
        expected,
        part,
        targets,
        e,
        p,
        l,
        sizes,
        Every-keys (λ n. (t : Json) × Member t targets × IsScraped host expected n t)
            (names expected)
            λ n here.
              Every-at _ n ns
                (contains-cover n [] ns (names expected) fresh known
                  (omega (arith, length-names expected, sizes, same)) here)
                found,
      )
