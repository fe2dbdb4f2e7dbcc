-- ===== src/Rules/Check/Specs.antt =====
-- What a group that `validate_application_group` of src/monitoring/vmalert_rules.py accepts is.
use dragontools.Common.{
  ◌≡◌, sym, ap, subst, ℕ, true, some, List, map, Text, codes, &&-true, Every, Every-mono, Member,
  Member-middle, nat_eq, list_eq, pair_eq,
}
use dragontools.Common.Json.Read.{holds, list_of, text_of, present, present-ok}
use dragontools.Common.Json.{Json, get, is_text}
use dragontools.Common.Result.{ok, bind-ok, demand-true, ok-injective, claim-ok}
use dragontools.Rules.Once.{each-Once, Once, at}
use dragontools.Rules.Check.{
  Clock, query_of, holds_number, labels_key, wanted, find_spec, duration_of, check_spec, rule_key,
  keyed_rule, check_application_group,
}
use dragontools.Rules.Check.Laws.{IsEvaluated, evaluated-IsEvaluated}

-- A rule that is the one of a specification.
abbrev pub IsSpecified : Clock → Json → Json → Type 0
IsSpecified clock spec rule =
    (query : Text) × (expr : Json) × (duration : ℕ) × (annotations : Json) × (query_of
        (get (codes "query") rule)
      ≡ ok query)
    × (get (codes "expr") spec ≡ some expr)
    × (is_text query expr ≡ true)
    × (duration_of clock (get (codes "for") spec) ≡ ok duration)
    × (holds_number duration (get (codes "duration") rule) ≡ true)
    × (get (codes "annotations") spec ≡ some annotations)
    × (holds annotations (get (codes "annotations") rule) ≡ true)
    × IsEvaluated clock rule

module _ (clock : Clock) (file : Text) (datasource : Json) where
  check_spec-IsSpecified :
      (spec rule : Json) (u : Unit {0})
      → check_spec clock file datasource spec rule ≡ ok u
      → IsSpecified clock spec rule
  unfolding check_spec
  check_spec-IsSpecified spec rule u h =
      let (query, q, h1) = bind-ok _ _ u h in
      let (expr, e, h2) = bind-ok _ _ u h1 in
      let (same, h3) = claim-ok _ _ u h2 in
      let (duration, d, h4) = bind-ok _ _ u h3 in
      let (often, h5) = claim-ok _ _ u h4 in
      let (kind, h6) = claim-ok _ _ u h5 in
      let (annotations, a, h7) = bind-ok _ _ u h6 in
      let (quiet, h8) = claim-ok _ _ u h7 in
      (
        query,
        expr,
        duration,
        annotations,
        q,
        present-ok _ expr e,
        same,
        d,
        often,
        present-ok _ annotations a,
        (&&-true _ _ (&&-true _ _ quiet).0).0,
        evaluated-IsEvaluated clock rule u h8,
      )

  -- Just one rule has the name and the labels of the key, and it is that of the specification.
  abbrev pub HasSpecified : List ((Text × Text) × Json) → List Json → Text × Text → Type 0
  HasSpecified specs rules key =
      Once (rule_key clock specs) (keyed_rule clock file datasource specs) key rules
      × ((rule : Json) × (spec : Json) × Member rule rules
          × (find_spec clock key specs ≡ some spec)
          × (text_of (get (codes "name") rule) ≡ ok key.0)
          × (labels_key clock (get (codes "labels") rule) ≡ key.1)
          × IsSpecified clock spec rule)

  rule_key-key :
      (specs : List ((Text × Text) × Json)) (rule : Json) (key : Text × Text)
      → rule_key clock specs rule ≡ ok (some key)
      → (text_of (get (codes "name") rule) ≡ ok key.0)
        × (labels_key clock (get (codes "labels") rule) ≡ key.1)
  unfolding rule_key
  rule_key-key specs rule key h =
      let (fine, h1) = claim-ok _ _ (some key) h in
      let (name, n, h2) = bind-ok _ _ (some key) h1 in
      let (known, h3) = claim-ok _ _ (some key) h2 in
      let same : (name, labels_key clock (get (codes "labels") rule)) ≡ key =
        some_same _ _ (ok-injective h3) in
      (
        subst (λ t. text_of (get (codes "name") rule) ≡ ok t) (ap (λ (k : Text × Text). k.0) same)
            n,
        ap (λ (k : Text × Text). k.1) same,
      )
    where
      some_same : (a b : Text × Text) → some a ≡ some b → a ≡ b
      some_same a b e = cc e

  Once-HasSpecified :
      (specs : List ((Text × Text) × Json)) (rules : List Json) (key : Text × Text)
      → Once (rule_key clock specs) (keyed_rule clock file datasource specs) key rules
      → HasSpecified specs rules key
  unfolding keyed_rule
  Once-HasSpecified specs rules key (at before rule after split g c first last) =
      let (spec, f, c1) =
        bind-ok (present (find_spec clock key specs))
          (λ spec. check_spec clock file datasource spec rule) tt c in
      let (name, labels) = rule_key-key specs rule key g in
      (
        at before rule after split g c first last,
        (
          rule,
          spec,
          subst (Member rule) (sym split) (Member-middle before rule after),
          present-ok _ spec f,
          name,
          labels,
          check_spec-IsSpecified spec rule tt c1,
        ),
      )

-- The rules of a group, by those of the expected one.
abbrev pub IsGroup : Clock → Text → Json → Json → Type 0
IsGroup clock file expected group =
    (datasource : Json) × (rules listed : List Json) × (specs : List ((Text × Text) × Json))
    × (list_of (get (codes "rules") group) ≡ ok rules)
    × (list_of (get (codes "rules") expected) ≡ ok listed)
    × (wanted clock listed ≡ ok specs)
    × Every (HasSpecified clock file datasource specs rules) (map (λ s. s.0) specs)

pub check_application_group-IsGroup :
    (clock : Clock) (file : Text) (expected group : Json) (u : Unit {0})
    → check_application_group clock file expected group ≡ ok u
    → IsGroup clock file expected group
unfolding check_application_group
check_application_group-IsGroup clock file expected group u h =
    let (datasource, d, h1) = bind-ok _ _ u h in
    let (interval, i, h2) = bind-ok _ _ u h1 in
    let (here, h3) = claim-ok _ _ u h2 in
    let (plain, h4) = claim-ok _ _ u h3 in
    let (rules, r, h5) = bind-ok _ _ u h4 in
    let (listed, l, h6) = bind-ok _ _ u h5 in
    let (specs, w, h7) = bind-ok _ _ u h6 in
    let (seen, s, h8) = bind-ok _ _ u h7 in
    let (keyed, once) =
      each-Once (rule_key clock specs) (keyed_rule clock file datasource specs) rules
        (map (λ k. k.0) specs) seen s (demand-true _ u h8) in
    (
      datasource,
      rules,
      listed,
      specs,
      r,
      l,
      w,
      Every-mono _ _ (Once-HasSpecified clock file datasource specs rules) (map (λ k. k.0) specs)
          once,
    )
