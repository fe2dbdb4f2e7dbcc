-- ===== src/AgentApps/Laws.antt =====
-- `reconcile` of src/monitoring/agents/apps.py updates the map from names to manifests.
use dragontools.Common.{
  ◌≤◌, ◌≡◌, refl, sym, subst, ap, ◌∙◌, inl, inr, Bool, true, false, not, ◌&&◌, ◌||◌, some, List,
  Text, length, ◌==◌, ==-sound, nat_eq, list_eq, option_eq, leb, Bool-cases, arith, if◌then◌else◌,
}
use dragontools.Common.Json.{Json}
use dragontools.Common.Result.{Result, ok, broken, bind-ok, ok-injective, claim-ok}
use dragontools.Runs.{Stays, Stays-bind, pure, or_raise, pure-Stays, or_raise-Stays}
use dragontools.AgentApps.Scope.{App, Library, scope}
use dragontools.AgentApps.Manifests.{
  Base, absent, unusable, listed, World, Manifest, limit, parsed, manifest_text, existing_in,
  existing,
}
use dragontools.AgentApps.Merge.{is_current, decided}
use dragontools.AgentApps.Reconcile.{to_option, apply, reconcile_app, reconcile}
use dragontools.AgentApps.Registry.{registered}
use dragontools.AgentApps.Current.{HasFiles, current-registered}
use dragontools.AgentApps.Steps
use dragontools.AgentApps.Steps.{update, is_listed, is_unusable}
use dragontools.AgentApps.Writes

module _ (library : Library) (host : Text) (m : Manifest) (w : World) where
  abbrev IsSame : World → Type 0
  IsSame = Steps.IsSame library host m w

  abbrev IsUpdated : World → Type 0
  IsUpdated = Steps.IsUpdated library host m w

  abbrev IsEither : World → Type 0
  IsEither = Steps.IsEither library host m w

  registered-IsUpdated :
      registered library host w m.app.name ≡ some m → (u : World) → IsSame u → IsUpdated u
  registered-IsUpdated h u s n i = elim (Bool-cases (m.app.name == n)) [
    | inl e ↦
        rw e (s n i ∙ subst (λ k. registered library host w k ≡ some m) (==-sound m.app.name n e) h)
    | inr e ↦ rw e (s n i)
  ]

  usable :
      (mutate : Bool) (b : Base) (ms : List Manifest)
      → existing_in library host mutate w.raw_agent b ≡ ok ms
      → not (is_unusable b) ≡ true
  unfolding existing_in
  usable mutate absent ms h = refl
  usable mutate unusable ms h = cc h
  usable mutate (listed files) ms h = refl

  -- What the decision says of the registrations before the run.
  decided-IsUpdated :
      (mutate : Bool) (result : Json) (changed : Bool)
      → HasFiles w.base
      → decided library host m mutate w ≡ ok (result, changed)
      → (not (is_unusable w.base) ≡ true)
        × (((mutate && changed) ≡ false) → (u : World) → IsSame u → IsUpdated u)
  unfolding decided existing
  decided-IsUpdated mutate result changed f h =
      let (ms, x, h1) = bind-ok _ _ (result, changed) h in
      let (parent, x1) = claim-ok _ _ ms x in
      let (free, h2) = claim-ok _ _ (result, changed) h1 in
      let (fits, h3) = claim-ok _ _ (result, changed) h2 in
      let (small, h4) = claim-ok _ _ (result, changed) h3 in
      (
        usable mutate w.base ms x1,
        λ e u.
            registered-IsUpdated
              (current-registered library host mutate w.raw_agent w.base ms m f x1
                (is_it mutate changed (is_current m ms) e free (ap (λ p. p.1) (ok-injective h4))))
              u,
      )
    where
      is_it :
          (mutate changed c : Bool)
          → (mutate && changed) ≡ false
          → (mutate || c) ≡ true
          → not c ≡ changed
          → c ≡ true
      is_it mutate changed true e g q = refl
      is_it true changed false e g q = cc (e, q)
      is_it false changed false e g q = cc g

  module _ (short : leb (length (manifest_text host m)) limit ≡ true)
      (reads : parsed library host (manifest_text host m) ≡ ok m) where
    reconcile_app-Stays :
        (mutate : Bool)
        → HasFiles w.base
        → Stays IsEither (λ _ u. IsUpdated u) (reconcile_app library host m mutate w)
    unfolding reconcile_app
    reconcile_app-Stays mutate f =
        Stays-bind IsEither
          (λ d v. (v ≡ w) × (to_option (decided library host m mutate w) ≡ some d))
          (λ _ u. IsUpdated u) (λ v. or_raise (to_option (decided library host m mutate v)) v)
          (λ d. if mutate then apply library host m d else pure d) w
          (or_raise-Stays IsEither (to_option (decided library host m mutate w)) w
            (inl λ n h. refl))
          λ (result, changed) v _ q.
            let (open_base, current) =
              decided-IsUpdated mutate result changed f (to_option-ok _ _ q.1) in
            subst
              (λ x.
                Stays IsEither (λ _ u. IsUpdated u)
                  ((if mutate
                      then apply library host m (result, changed)
                      else pure (result, changed))
                    x))
              (sym q.0) (run mutate result changed open_base current)
      where
        to_option-ok : {A : Type 0} (r : Result A) (a : A) → to_option r ≡ some a → r ≡ ok a
        to_option-ok (ok b) a e = cc e
        to_option-ok Result.refused a e = cc e
        to_option-ok broken a e = cc e

        run :
            (mutate : Bool) (result : Json) (changed : Bool)
            → not (is_unusable w.base) ≡ true
            → (((mutate && changed) ≡ false) → (u : World) → IsSame u → IsUpdated u)
            → Stays IsEither
                (λ _ u. IsUpdated u)
                ((if mutate then apply library host m (result, changed) else pure (result, changed))
                  w)
        run true result changed o current =
            Writes.apply-Stays library host m w short reads result changed w (λ n h. refl, o)
              current
        run false result changed o current =
            pure-Stays IsEither _ _ w (inl λ n h. refl) (current refl w λ n h. refl)

module _ (library : Library) (host station : Text) (desired : Json) (app : App) where
  -- The manifest of the desired application.
  abbrev pub wanted : Manifest
  wanted = record { station = station; app = app }

  -- Take a directory in which no two files have one name, and a desired application whose manifest is
  -- not longer than the limit and is read back as itself. However a run of `reconcile` is cut off, at
  -- each of its writes what is registered is either what was registered before, or this map updated
  -- at the name of the application. If it returns, in either mode, it is the updated map.
  pub reconcile-refines :
      (w : World) (mutate : Bool)
      → HasFiles w.base
      → scope library desired ≡ ok app
      → length (manifest_text host wanted) ≤ limit
      → parsed library host (manifest_text host wanted) ≡ ok wanted
      → Stays
          (Steps.IsEither library host wanted w)
          (λ _ v. Steps.IsUpdated library host wanted w v)
          (reconcile library host desired station mutate w)
  unfolding reconcile
  reconcile-refines w mutate f h short reads =
      rw h (reconcile_app-Stays library host wanted w (ground (arith, short)) reads mutate f)
