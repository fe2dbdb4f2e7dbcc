-- ===== src/Rules/Check/Laws.antt =====
-- What a rule and a pack that src/monitoring/vmalert_rules.py accepts are.
use dragontools.Common.{
  ◌≡◌, sym, ap, subst, ◌∙◌, ℕ, true, List, [], ◌∷◌, map, Text, codes, &&-true, ==-sound, Every,
  Member, Member-middle, nat_eq, list_eq,
}
use dragontools.Common.Json.Read.{holds, list_of, text_of, present}
use dragontools.Common.Json.{Json, get, falsy, holds_text}
use dragontools.Common.Result.{ok, bind-ok, demand-ok, demand-true, ok-injective, claim-ok}
use dragontools.Rules.Once.{each-Once, Once, at}
use dragontools.Rules.Packs.{Expected}
use dragontools.Rules.Check.{
  Clock, is_recent, evaluated, check_rule, query_of, holds_number, labels_of, find_rule, named_rule,
  rule_name, check_pack,
}

-- A rule that vmalert evaluates without an error, and has evaluated in the last two minutes.
abbrev pub IsEvaluated : Clock → Json → Type 0
IsEvaluated clock rule =
    (holds_text (codes "ok") (get (codes "health") rule) ≡ true)
    × (falsy (get (codes "lastError") rule) ≡ true)
    × ((stamp : Text) × (t : ℕ) × (text_of (get (codes "lastEvaluation") rule) ≡ ok stamp)
        × (present (clock.timestamp stamp) ≡ ok t)
        × (is_recent clock t ≡ true))

-- A rule that is the expected one.
abbrev pub IsRule : Clock → Expected → Json → Type 0
IsRule clock e rule =
    (query_of (get (codes "query") rule) ≡ ok e.query)
    × (holds_number e.duration (get (codes "duration") rule) ≡ true)
    × (holds (labels_of clock e) (get (codes "labels") rule) ≡ true)
    × (holds e.annotations (get (codes "annotations") rule) ≡ true)
    × IsEvaluated clock rule

module _ (clock : Clock) where
  pub evaluated-IsEvaluated :
      (rule : Json) (u : Unit {0}) → evaluated clock rule ≡ ok u → IsEvaluated clock rule
  unfolding evaluated
  evaluated-IsEvaluated rule u h =
      let (known, h1) = claim-ok _ _ u h in
      let (healthy, h2) = demand-ok _ _ u h1 in
      let (stamp, s, h3) = bind-ok _ _ u h2 in
      let (valid, h4) = demand-ok _ _ u h3 in
      let (t, p, h5) = bind-ok _ _ u h4 in
      let (recent, h6) = demand-ok _ _ u h5 in
      let (health, clean) = &&-true _ _ healthy in (health, clean, (stamp, t, s, p, recent))

  module _ (file datasource : Text) where
    check_rule-IsRule :
        (e : Expected) (rule : Json) (u : Unit {0})
        → check_rule clock file datasource e rule ≡ ok u
        → IsRule clock e rule
    unfolding check_rule
    check_rule-IsRule e rule u h =
        let (query, q, h1) = bind-ok _ _ u h in
        let (same, h2) = claim-ok _ _ u h1 in
        let (kind, h3) = claim-ok _ _ u h2 in
        let (here, h4) = claim-ok _ _ u h3 in
        let (labels, h5) = claim-ok _ _ u h4 in
        let (annotations, h6) = claim-ok _ _ u h5 in
        let (quiet, h7) = claim-ok _ _ u h6 in
        let (text, duration) = &&-true _ _ same in
        (
          q ∙ ap ok (==-sound query e.query text),
          duration,
          labels,
          annotations,
          evaluated-IsEvaluated rule u h7,
        )

    -- A group has just one rule of this name, and it is the expected one.
    abbrev pub HasRule : List Expected → List Json → Expected → Type 0
    HasRule pack rules e =
        Once (rule_name clock pack) (named_rule clock file datasource pack) e.name rules
        × ((rule : Json) × Member rule rules × IsRule clock e rule)

    Once-rule :
        (pack : List Expected) (rules : List Json) (e : Expected)
        → find_rule clock e.name pack ≡ ok e
        → Once (rule_name clock pack) (named_rule clock file datasource pack) e.name rules
        → HasRule pack rules e
    unfolding named_rule
    Once-rule pack rules e found (at before rule after split g c first last) =
        let (e', f, c1) =
          bind-ok (find_rule clock e.name pack) (λ e'. check_rule clock file datasource e' rule) tt
            c in
        (
          at before rule after split g c first last,
          (
            rule,
            subst (Member rule) (sym split) (Member-middle before rule after),
            check_rule-IsRule e rule tt (
                subst (λ w. check_rule clock file datasource w rule ≡ ok tt)
                  (ok-injective (sym f ∙ found)) c1),
          ),
        )

    Once-rules :
        (pack : List Expected) (rules : List Json) (es : List Expected)
        → Every (λ e. find_rule clock e.name pack ≡ ok e) es
        → Every
            (λ k. Once (rule_name clock pack) (named_rule clock file datasource pack) k rules)
            (map (λ (e : Expected). e.name) es)
        → Every (HasRule pack rules) es
    Once-rules pack rules [] found once = tt
    Once-rules pack rules (e ∷ es) found once =
        (Once-rule pack rules e found.0 once.0, Once-rules pack rules es found.1 once.1)

    pub check_pack-HasRule :
        (pack : List Expected) (group : Json) (u : Unit {0})
        → Every (λ e. find_rule clock e.name pack ≡ ok e) pack
        → check_pack clock file datasource pack group ≡ ok u
        → (rules : List Json) × (list_of (get (codes "rules") group) ≡ ok rules)
          × Every (HasRule pack rules) pack
    unfolding check_pack
    check_pack-HasRule pack group u found h =
        let (rules, l, h1) = bind-ok _ _ u h in
        let (seen, s, h2) = bind-ok _ _ u h1 in
        let (keyed, once) =
          each-Once (rule_name clock pack) (named_rule clock file datasource pack) rules
            (map (λ (e : Expected). e.name) pack) seen s (demand-true _ u h2) in
        (rules, l, Once-rules pack rules pack found once)
