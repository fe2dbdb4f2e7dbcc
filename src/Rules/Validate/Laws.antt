-- ===== src/Rules/Validate/Laws.antt =====
-- What an accepted answer of vmalert says, in src/monitoring/vmalert_rules.py.
use dragontools.Common.{
  ◌≡◌, refl, sym, ap, subst, ◌⊎◌, inl, inr, Bool, true, false, Option, none, some, List, Text,
  codes, Every, Every-mono, Member, Member-middle, ==-sound, ◌==◌, nat_eq, list_eq, if◌then◌else◌,
  arith,
}
use dragontools.Common.Json.Read.{list_of, present}
use dragontools.Common.Json.{Json, get}
use dragontools.Common.Result.{
  Result, ok, refused, broken, bind-ok, demand-ok, demand-true, claim-ok,
}
use dragontools.Rules.Once.{each-Once, Once, at}
use dragontools.Rules.Packs.{probes_pack, hosts_pack, logs_pack}
use dragontools.Rules.Events.{host_events}
use dragontools.Rules.Check.{Clock, find_rule, response_groups, check_pack, check_application_group}
use dragontools.Rules.Check.Specs.{IsGroup, check_application_group-IsGroup}
use dragontools.Rules.Check.Laws.{HasRule, check_pack-HasRule}
use dragontools.Rules.Validate.{
  Kind, base_groups, group_name, check_group, file_of, datasource_of, pack_of, validate, Reply,
  unreachable, received, checked, exit_status, main,
}

-- In a group with these rules, each rule of its pack is there once, and it is the expected one.
abbrev pub IsPack : Clock → Kind → Text → Json → Type 0
IsPack clock kind name group =
    (rules : List Json) × (list_of (get (codes "rules") group) ≡ ok rules)
    × Every
        (HasRule clock (file_of clock kind) (datasource_of clock kind) (pack_of clock name) rules)
        (pack_of clock name)

-- Just one of the groups has the name, and it has its pack, or the rules of the host events.
abbrev pub IsLoaded : Clock → Kind → List Json → Text → Type 0
IsLoaded clock kind groups name =
    Once (group_name clock (base_groups clock kind)) (check_group clock kind) name groups
    × ((group : Json) × Member group groups
        × ((((name == codes "dragontools-host-events") ≡ true)
              × IsGroup clock (file_of clock kind) host_events group)
            ⊎ IsPack clock kind name group))

exit_status-zero : (r : Result (Unit {0})) → exit_status r ≡ 0 → r ≡ ok tt
unfolding exit_status
exit_status-zero (ok u) h = refl
exit_status-zero refused h = absurd (omega (arith, h))
exit_status-zero broken h = absurd (omega (arith, h))

present-some : (o : Option Json) (j : Json) → present o ≡ ok j → o ≡ some j
present-some none j h = cc h
present-some (some i) j h = cc h

module _ (clock : Clock) where
  -- No name comes twice in a pack.
  packs_found :
      (name : Text)
      → Every (λ e. find_rule clock e.name (pack_of clock name) ≡ ok e) (pack_of clock name)
  packs_found name = go (name == codes "dragontools-probes") (name == codes "dragontools-hosts")
    where
      go :
          (b c : Bool)
          → Every
              (λ e.
                find_rule clock e.name
                  (if b then probes_pack else if c then hosts_pack else logs_pack)
                ≡ ok e)
              (if b then probes_pack else if c then hosts_pack else logs_pack)
      go true c = (refl, tt)
      go false true = (refl, (refl, (refl, (refl, (refl, (refl, tt))))))
      go false false = (refl, (refl, tt))

  module _ (kind : Kind) where
    Once-IsLoaded :
        (groups : List Json) (name : Text)
        → Once (group_name clock (base_groups clock kind)) (check_group clock kind) name groups
        → IsLoaded clock kind groups name
    unfolding check_group
    Once-IsLoaded groups name (at before group after split g c first last) =
        let (here, c1) = claim-ok _ _ tt c in
        let (often, c2) = claim-ok _ _ tt c1 in
        let (plain, c3) = claim-ok _ _ tt c2 in
        (
          at before group after split g c first last,
          (
            group,
            subst (Member group) (sym split) (Member-middle before group after),
            branch group (name == codes "dragontools-host-events") refl c3,
          ),
        )
      where
        branch :
            (group : Json) (b : Bool)
            → (name == codes "dragontools-host-events") ≡ b
            → (if b
                then check_application_group clock (file_of clock kind) host_events group
                else check_pack clock
                    (file_of clock kind)
                    (datasource_of clock kind)
                    (pack_of clock name)
                    group)
              ≡ ok tt
            → (((name == codes "dragontools-host-events") ≡ true)
                × IsGroup clock (file_of clock kind) host_events group)
              ⊎ IsPack clock kind name group
        branch group true e c =
            inl
              (e, check_application_group-IsGroup clock (file_of clock kind) host_events group tt c)
        branch group false e c = inr (
            check_pack-HasRule clock (file_of clock kind) (datasource_of clock kind)
              (pack_of clock name) group tt (packs_found name) c)

    validate-IsLoaded :
        (value : Json) (u : Unit {0})
        → validate clock kind value ≡ ok u
        → (groups : List Json) × (response_groups value ≡ ok groups)
          × Every (IsLoaded clock kind groups) (base_groups clock kind)
    unfolding validate
    validate-IsLoaded value u h =
        let (groups, g, h1) = bind-ok _ _ u h in
        let (seen, s, h2) = bind-ok _ _ u h1 in
        let (keyed, once) =
          each-Once (group_name clock (base_groups clock kind)) (check_group clock kind) groups
            (base_groups clock kind) seen s (demand-true _ u h2) in
        (groups, g, Every-mono _ _ (Once-IsLoaded groups) (base_groups clock kind) once)

    -- When `main` exits with 0, vmalert has answered with 200 and a readable body, and in its groups each
    -- of the two base groups of the kind comes once. In each of them every expected rule comes once, with
    -- the expected query, duration, labels and annotations, and was evaluated without an error in the last
    -- two minutes. Which rules are expected is said by the pack of the group, or for the host events by
    -- their specification.
    pub main-IsLoaded :
        (loads : Text → Option Json) (reply : Reply)
        → main clock loads kind reply ≡ 0
        → (body : Text) × (value : Json) × (groups : List Json) × (reply ≡ received 200 body)
          × (loads body ≡ some value)
          × (response_groups value ≡ ok groups)
          × Every (IsLoaded clock kind groups) (base_groups clock kind)
    unfolding main checked
    main-IsLoaded loads unreachable h = absurd (cc (exit_status-zero refused h))
    main-IsLoaded loads (received status body) h =
        let (free, h1) = demand-ok _ _ tt (exit_status-zero _ h) in
        let (good, h2) = claim-ok _ _ tt h1 in
        let (short, h3) = claim-ok _ _ tt h2 in
        let (value, v, h4) = bind-ok _ _ tt h3 in
        let (groups, g, loaded) = validate-IsLoaded value tt h4 in
        (
          body,
          value,
          groups,
          ap (λ n. received n body) (==-sound status 200 good),
          present-some _ value v,
          g,
          loaded,
        )
