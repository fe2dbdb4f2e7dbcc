-- ===== src/Scrape/Returns.antt =====
-- When `prepare_config` of src/monitoring/scrape_mutate.py returns.
use dragontools.Common.{
  length, leb, ℕ, ◌≡◌, ◌≢◌, refl, sym, subst, ◌∙◌, ◌⊎◌, inl, inr, Bool, true, false, ◌&&◌, Option,
  none, some, [], Text, Bool-cases, ◌==◌, nat_eq, list_eq,
}
use dragontools.Runs.{Run, Program, or_raise, gets, ◌>>=◌}
use dragontools.Scrape.Files.{
  Info, Entry, missing, wrong, found, World, Check, passed, value_error, failed, read_config,
  pending_exists, inspect_config, inspect_entry, is_managed, has_mode, private_mode, node_optional,
  then_check, demand, node_check, config_check, directory_mode, config_mode, max_config, matches,
}
use dragontools.Scrape.Covered.{inspect_config-found}
use dragontools.Scrape.Mutate.{
  Host, mark_reload, mark_reload_over, repair, set_parent, set_directory, set_config,
  ensure_directory, take_lock, take_lock_over, replace_config, update_over, install, holds, prepare,
  prepare_over,
}

abbrev Returns : {A : Type 0} → (World → Type 0) → Run World A → Type 0
Returns {A} P r = (a : A) × (r.outcome ≡ some a) × P r.state

Returns-bind :
    {A B : Type 0} (P P' : World → Type 0) (m : Program World A) (f : A → Program World B)
    (w : World)
    → Returns P (m w)
    → ((a : A) (v : World) → P v → Returns P' (f a v))
    → Returns P' ((m >>= f) w)
Returns-bind P P' m f w (a, e, p) next = rw e (next a (m w).state p)

-- The files are ones that the program takes over.
abbrev pub IsAcceptable : World → Type 0
IsAcceptable w =
    (w.parent ≢ wrong)
    × (w.directory ≢ wrong)
    × ((p : Bool) × (pending_exists w ≡ some p))
    × ((i : Option Info) × (inspect_entry w.config ≡ some i))
    × ((w.lock ≡ missing) ⊎ ((i : Info) × (w.lock ≡ found i) × (has_mode private_mode i ≡ true)))

node_optional-some : (e : Entry) → e ≢ wrong → (x : Option Info) × (node_optional e ≡ some x)
node_optional-some missing h = (none, refl)
node_optional-some wrong h = absurd (h refl)
node_optional-some (found i) h = (some i, refl)

inspect_config-IsAcceptable :
    (w : World) → IsAcceptable w → (i : Option Info) × (inspect_config w ≡ some i)
unfolding inspect_config
inspect_config-IsAcceptable w (p, d, (b, e), (i, f), l) =
    let (x, g) = node_optional-some w.parent p in
    let (y, h) = node_optional-some w.directory d in (i, rw (g, h, e, f) refl)

repair-Returns :
    (P : World → Type 0) (set : World → Entry → World) (m : ℕ) (i : Info) (w : World)
    → ((j : Info) → P (set w (found j)))
    → P w
    → Returns P (repair set m i w)
unfolding repair
repair-Returns P set m i w keep p = elim (Bool-cases i.owned) [
  | inl e ↦ elim (Bool-cases (i.mode == m)) [
    | inl f ↦ rw (e, f) (_, refl, p)
    | inr f ↦ rw (e, f) (_, refl, keep _)
  ]
  | inr e ↦ elim (Bool-cases (i.mode == m)) [
    | inl f ↦ rw (e, f) (_, refl, keep _)
    | inr f ↦ rw (e, f) (_, refl, keep _)
  ]
]

module _ (host : Host) where
  ensure_directory-Returns :
      (P : World → Type 0) (set : World → Entry → World) (e : Entry) (w : World)
      → ((v : World) (j : Info) → P v → P (set v (found j)))
      → e ≢ wrong
      → P w
      → Returns P (ensure_directory host set e w)
  unfolding ensure_directory
  ensure_directory-Returns P set missing w keep h p =
      let made : Info = record { owned = true; mode = host.made_mode; content = [] } in
      let (a, e, q) =
        repair-Returns P set 493 made (set w (found made)) (λ j. keep _ j (keep w made p))
          (keep w made p) in
      rw e (true, refl, q)
  ensure_directory-Returns P set wrong w keep h p = absurd (h refl)
  ensure_directory-Returns P set (found i) w keep h p =
      repair-Returns P set 493 i w (λ j. keep w j p) p

  take_lock-Returns :
      (w : World)
      → host.contended ≡ false
      → IsAcceptable w
      → Returns IsAcceptable (take_lock host w)
  unfolding take_lock take_lock_over pending_exists
  take_lock-Returns w free h = at w.lock refl h.4
    where
      at :
          (e : Entry)
          → w.lock ≡ e
          → (e ≡ missing) ⊎ ((i : Info) × (e ≡ found i) × (has_mode private_mode i ≡ true))
          → Returns IsAcceptable (take_lock_over host e w)
      at e q (inl f) =
          subst (λ x. Returns IsAcceptable (take_lock_over host x w)) (sym f)
            (rw free (tt, refl, (h.0, h.1, h.2, h.3, inr (_, refl, refl))))
      at e q (inr (i, f, g)) =
          subst (λ x. Returns IsAcceptable (take_lock_over host x w)) (sym f)
            (rw (g, free) (tt, refl, h))

  abbrev Any : World → Type 0
  Any _ = Unit {0}

  mark_reload-Returns :
      (w : World) (p : Bool) → pending_exists w ≡ some p → Returns Any (mark_reload w)
  unfolding mark_reload mark_reload_over
  mark_reload-Returns w true e = rw e (tt, refl, tt)
  mark_reload-Returns w false e = rw e (tt, refl, tt)

  -- The pinned binary is in place and accepts the configuration.
  abbrev pub Accepts : Text → Type 0
  Accepts desired = (host.binary_valid && host.dry_run desired && host.staged_intact) ≡ true

  replace_config-Returns :
      (desired : Text) (w : World)
      → Accepts desired
      → IsAcceptable w
      → Returns Any (replace_config host desired w)
  unfolding replace_config
  replace_config-Returns desired w ok h =
      rw ok (let (a, e, q) = mark_reload-Returns w h.2.0 h.2.1 in rw e (true, refl, tt))

  update_over-Returns :
      (desired : Text) (changed : Bool) (actual : Option Info) (w : World)
      → Accepts desired
      → IsAcceptable w
      → Returns Any (update_over host desired changed actual w)
  unfolding update_over
  update_over-Returns desired changed none w ok h = replace_config-Returns desired w ok h
  update_over-Returns desired changed (some i) w ok h = elim (Bool-cases (i.content == desired)) [
    | inl same ↦
        rw same
          (let (a, e, q) = repair-Returns Any set_config 420 i w (λ j. tt) tt in rw e (_, refl, tt))
    | inr new ↦ rw new (replace_config-Returns desired w ok h)
  ]

  install-Returns :
      (desired : Text) (w : World)
      → Accepts desired
      → host.contended ≡ false
      → IsAcceptable w
      → Returns Any (install host desired w)
  unfolding install pending_exists
  install-Returns desired w ok free h =
      Returns-bind IsAcceptable Any (λ v. ensure_directory host set_parent v.parent v) _ w
        (ensure_directory-Returns IsAcceptable set_parent w.parent w
          (λ v j k. ((λ e. cc e), k.1, k.2, k.3, k.4)) h.0 h)
        (λ a v k.
          Returns-bind IsAcceptable Any (λ u. ensure_directory host set_directory u.directory u) _ v
            (ensure_directory-Returns IsAcceptable set_directory v.directory v
              (λ u j k. (k.0, (λ e. cc e), k.2, k.3, k.4)) k.1 k)
            (λ b u k.
              Returns-bind IsAcceptable Any (take_lock host) _ u (take_lock-Returns u free k)
                (λ _ t k.
                  let (i, e) = inspect_config-IsAcceptable t k in
                  Returns-bind IsAcceptable Any (gets inspect_config >>= or_raise) _ t
                    (rw e (i, refl, k))
                    (λ actual s k. update_over-Returns desired _ actual s ok k))))

  then_check-ne : (a b : Check) → a ≢ failed → b ≢ failed → then_check a b ≢ failed
  then_check-ne passed b h k e = k e
  then_check-ne value_error b h k e = cc e
  then_check-ne failed b h k e = h e

  demand-ne : (b : Bool) → demand b ≢ failed
  demand-ne true e = cc e
  demand-ne false e = cc e

  node_check-ne :
      (f : Info → Check) (e : Entry)
      → ((i : Info) → f i ≢ failed)
      → e ≢ missing
      → node_check f e ≢ failed
  node_check-ne f missing h k e = k refl
  node_check-ne f wrong h k e = cc e
  node_check-ne f (found i) h k e = h i e

  -- The configuration is missing, or there are the directories that it is in.
  abbrev pub IsTree : World → Type 0
  IsTree w =
      (w.config ≡ missing) ⊎ ((w.config ≢ missing) × (w.parent ≢ missing) × (w.directory ≢ missing))

  config_check-ne : (desired : Text) (i : Info) → config_check host.sha256 desired i ≢ failed
  config_check-ne desired i = then_check-ne _ _ (demand-ne (leb (length i.content) max_config)) (
      then_check-ne _ _ (demand-ne (has_mode config_mode i))
        (demand-ne (matches host.sha256 desired i.content)))

  read_config-ne :
      (desired : Text) (w : World)
      → w.config ≢ missing
      → w.parent ≢ missing
      → w.directory ≢ missing
      → read_config host.sha256 desired w ≢ failed
  unfolding read_config
  read_config-ne desired w c p d =
      then_check-ne _ _ (node_check-ne _ w.parent (λ i. demand-ne (has_mode directory_mode i)) p) (
        then_check-ne _ _
          (node_check-ne _ w.directory (λ i. demand-ne (has_mode directory_mode i)) d)
          (node_check-ne _ w.config (config_check-ne desired) c))

  held-found :
      (desired : Text) (w : World) (i : Option Info)
      → inspect_config w ≡ some i
      → holds host desired i ≡ true
      → w.config ≢ missing
  held-found desired w none e h c = cc h
  held-found desired w (some i) e h c = cc (sym c ∙ inspect_config-found host w i e)

  prepare_over-Returns :
      (desired : Text) (current : Bool) (check : Check) (w : World)
      → (current ≡ true → check ≢ failed)
      → Accepts desired
      → host.contended ≡ false
      → IsAcceptable w
      → Returns Any (prepare_over host desired current check w)
  unfolding prepare_over
  prepare_over-Returns desired false check w n ok free h = install-Returns desired w ok free h
  prepare_over-Returns desired true passed w n ok free h = (false, refl, tt)
  prepare_over-Returns desired true value_error w n ok free h = install-Returns desired w ok free h
  prepare_over-Returns desired true failed w n ok free h = absurd (n refl refl)

  -- If the registrations are valid, the configuration has the managed header and is not too large,
  -- the pinned binary is in place and accepts it, the staged bytes are intact, no other installation
  -- holds the lock, and the files are ones that the program takes over (`IsAcceptable`, `IsTree`):
  -- then `prepare` returns, and does not raise.
  pub prepare-returns :
      (desired : Text) (w : World)
      → (host.registrations_valid && is_managed desired) ≡ true
      → Accepts desired
      → host.contended ≡ false
      → IsAcceptable w
      → IsTree w
      → (changed : Bool) × ((prepare host desired w).outcome ≡ some changed)
  unfolding prepare
  prepare-returns desired w managed ok free h tree =
      let (i, e) = inspect_config-IsAcceptable w h in
      let (a, f, q) =
        prepare_over-Returns desired (holds host desired i) (read_config host.sha256 desired w) w
          (λ held. elim tree [
            | inl c ↦ absurd (held-found desired w i e held c)
            | inr t ↦ read_config-ne desired w t.0 t.1 t.2
          ])
          ok free h in
      (a, rw (managed, e, f) refl)
