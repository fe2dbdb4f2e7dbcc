-- ===== src/Scrape/Covered.antt =====
-- The reload marker of src/monitoring/scrape_mutate.py through `prepare_config`.
use dragontools.Common.{
  ◌≡◌, refl, sym, ap, ◌∙◌, ◌⊎◌, inl, inr, Bool, true, false, not, ◌&&◌, ◌||◌, Option, none, some,
  [], ◌∷◌, Text, arith, Bool-cases, ◌==◌, nat_eq, list_eq, ==-sound, ==-refl, starts_with, codes,
  Every-mono,
}
use dragontools.Runs.{
  modify, Run, Program, Stays, Stays-bind, pure-Stays, raise-Stays, require-Stays, or_raise-Stays,
  pure, write, require, or_raise, gets, ◌>>=◌, ◌>>◌,
}
use dragontools.Scrape.Files.{
  Info, Entry, missing, wrong, found, World, Check, passed, value_error, failed, read_config,
  pending_exists, pending_of, inspect_config, inspect_entry, is_managed, has_mode, config_mode,
  private_mode, matches,
}
use dragontools.Scrape.Mutate.{
  Host, empty_marker, mark_reload, mark_reload_over, repair, set_parent, set_directory, set_config,
  ensure_directory, take_lock, take_lock_over, replace_config, update_over, install, holds, prepare,
  prepare_over,
}
use dragontools.Scrape.Prepare.{whole, IsDirectory, repair-Stays, ensure_directory-Stays}

-- The bytes of a file, if it is there.
abbrev pub bytes_of : Entry → Option Text
bytes_of missing = none
bytes_of wrong = none
bytes_of (found i) = some i.content

-- The scraper has loaded what is on disk, or the marker asks for a reload.
abbrev pub IsCovered : World → Type 0
IsCovered w = (w.loaded ≡ bytes_of w.config) ⊎ (pending_exists w ≡ some true)

module _ (P : World → Type 0) where
  -- Covered, and `P`.
  abbrev pub And : World → Type 0
  And w = IsCovered w × P w

  pub mark_reload-Stays :
      (w : World)
      → ((v : World) → P v → P (record v { pending = empty_marker }))
      → And w
      → Stays And (λ _ w'. pending_exists w' ≡ some true) (mark_reload w)
  unfolding mark_reload mark_reload_over pending_exists pending_of
  mark_reload-Stays w keep inv = at (pending_exists w) refl
    where
      at :
          (o : Option Bool)
          → pending_exists w ≡ o
          → Stays And (λ _ w'. pending_exists w' ≡ some true) (mark_reload_over o w)
      at none e = raise-Stays And _ w inv
      at (some true) e = pure-Stays And _ tt w inv e
      at (some false) e =
          let marked : And (record w { pending = empty_marker }) = (inr refl, keep w inv.1) in
          record { visited = (marked, tt); last = marked; result = λ _ _. refl }

module _ (host : Host) where
  abbrev Whole : World → Type 0
  Whole w = IsDirectory w.parent × IsDirectory w.directory

  abbrev Ready : World → Type 0
  Ready = And Whole

  abbrev Installed : Text → World → Type 0
  Installed desired w = Whole w × (w.config ≡ whole config_mode desired)

  replace_config-Stays :
      (desired : Text) (w : World)
      → Ready w
      → Stays Ready (λ _. Installed desired) (replace_config host desired w)
  unfolding replace_config pending_exists
  replace_config-Stays desired w inv =
      let new : World → World = λ v. set_config v (whole config_mode desired) in
      let valid = host.binary_valid && host.dry_run desired && host.staged_intact in
      Stays-bind Ready (λ _ v. (v ≡ w) × (valid ≡ true)) _ (require valid) _ w
        (require-Stays Ready valid w inv)
        (λ _ v inv' _.
          Stays-bind Ready (λ _ v'. pending_exists v' ≡ some true) _ mark_reload
            (λ _. (modify (λ u. new u)) >> pure true) v (mark_reload-Stays Whole v (λ u p. p) inv')
            (λ _ v' inv'' marked.
              let i : Ready (new v') = (inr marked, inv''.1) in
              record { visited = (i, tt); last = i; result = λ _ _. (inv''.1, refl) }))

  take_lock-Stays : (w : World) → Ready w → Stays Ready (λ _. Whole) (take_lock host w)
  unfolding take_lock take_lock_over pending_exists
  take_lock-Stays w inv = at w.lock
    where
      locked : Ready (record w { lock = empty_marker })
      locked = inv

      held : (b : Bool) (v : World) → Ready v → Stays Ready (λ _. Whole) (require b v)
      held true v i = pure-Stays Ready _ tt v i i.1
      held false v i = raise-Stays Ready _ v i

      at : (e : Entry) → Stays Ready (λ _. Whole) (take_lock_over host e w)
      at missing =
          Stays-bind Ready (λ _. Ready) _ (write (record w { lock = empty_marker }))
            (λ _. require (not host.contended)) w
            (record { visited = (locked, tt); last = locked; result = λ _ _. locked })
            (λ _ v i _. held (not host.contended) v i)
      at wrong = raise-Stays Ready _ w inv
      at (found i) = held (has_mode private_mode i && not host.contended) w inv

  inspect_entry-found : (e : Entry) (i : Info) → inspect_entry e ≡ some (some i) → e ≡ found i
  inspect_entry-found missing i h = cc h
  inspect_entry-found wrong i h = cc h
  inspect_entry-found (found j) i h = ground arith

  pub inspect_config-found :
      (w : World) (i : Info) → inspect_config w ≡ some (some i) → w.config ≡ found i
  unfolding inspect_config
  inspect_config-found w i h = inspect_entry-found w.config i (ground arith)

  -- Owner and mode of a configuration that has the wanted bytes already.
  repaired-Stays :
      (desired : Text) (changed : Bool) (i : Info) (w : World)
      → Ready w
      → w.config ≡ found i
      → i.content ≡ desired
      → Stays Ready
          (λ _. Installed desired)
          ((repair set_config config_mode i >>= λ c. pure (c || changed)) w)
  unfolding pending_exists
  repaired-Stays desired changed i w inv at same =
      let P : World → Type 0 = λ v. Whole v × (bytes_of v.config ≡ some i.content) in
      let r =
        repair-Stays set_config World.config (λ _ _. refl) (And P) config_mode i w
          (λ v j e h. (
            elim h.0 [ inl l ↦ inl (l ∙ h.1.1 ∙ ap some (sym e)) | inr p ↦ inr p ],
            (h.1.0, ap some e),
          ))
          (inv.0, (inv.1, ap bytes_of at)) at in
      Stays-bind Ready (λ _ v. Installed desired v) _ (repair set_config config_mode i)
        (λ c. pure (c || changed)) w
        (record {
          visited = Every-mono (And P) Ready (λ _ h. (h.0, h.1.0)) _ r.visited;
          last = (r.last.0, r.last.1.0);
          result = λ a e. (r.last.1.0, r.result a e ∙ ap (whole config_mode) same);
        })
        (λ c v inv' q. pure-Stays Ready _ (c || changed) v inv' q)

  update_over-Stays :
      (desired : Text) (changed : Bool) (actual : Option Info) (w : World)
      → Ready w
      → inspect_config w ≡ some actual
      → Stays Ready (λ _. Installed desired) (update_over host desired changed actual w)
  unfolding update_over
  update_over-Stays desired changed none w inv e = replace_config-Stays desired w inv
  update_over-Stays desired changed (some i) w inv e = elim (Bool-cases (i.content == desired)) [
    | inl same ↦ rw same (
        repaired-Stays desired changed i w inv (inspect_config-found w i e)
          (==-sound i.content desired same))
    | inr new ↦ rw new (replace_config-Stays desired w inv)
  ]

  locked-Stays :
      (desired : Text) (changed : Bool) (w : World)
      → Ready w
      → Stays Ready
          (λ _. Installed desired)
          ((take_lock host
              >> (gets inspect_config >>= or_raise >>= λ actual.
                  update_over host desired changed actual))
            w)
  locked-Stays desired changed w inv =
      Stays-bind Ready (λ _. Whole) _ (take_lock host) _ w (take_lock-Stays w inv)
        (λ _ v i _.
          Stays-bind Ready (λ actual v'. (v' ≡ v) × (inspect_config v ≡ some actual)) _
            (gets inspect_config >>= or_raise) (λ actual. update_over host desired changed actual) v
            (or_raise-Stays Ready (inspect_config v) v i)
            (λ actual v' i' q.
              update_over-Stays desired changed actual v' i' (ap inspect_config q.0 ∙ q.1)))

  covered :
      (P : World → Type 0) {A : Type 0} (Q : A → World → Type 0) (r : Run World A)
      → Stays (And P) Q r
      → Stays IsCovered Q r
  covered P Q r h = record {
    visited = Every-mono (And P) IsCovered (λ _ i. i.0) _ h.visited;
    last = h.last.0;
    result = h.result;
  }

  install-Stays :
      (desired : Text) (w : World)
      → IsCovered w
      → Stays IsCovered (λ _. Installed desired) (install host desired w)
  unfolding install pending_exists
  install-Stays desired w inv =
      let Rooted : World → Type 0 = λ v. IsDirectory v.parent in
      let second : Program World Bool = λ v. ensure_directory host set_directory v.directory v in
      Stays-bind IsCovered (λ _. Rooted) _ (λ v. ensure_directory host set_parent v.parent v) _ w
        (ensure_directory-Stays set_parent World.parent (λ _ _. refl) IsCovered host (λ v e h. h) w
          inv)
        (λ made_parent v inv' p.
          covered Rooted (λ _. Installed desired) _
            (Stays-bind (And Rooted) (λ _ v'. IsDirectory v'.directory) _ second _ v
              (ensure_directory-Stays set_directory World.directory (λ _ _. refl) (And Rooted) host
                (λ v e h. h) v (inv', p))
              (λ made_directory v' inv'' q.
                let r =
                  locked-Stays desired (made_directory || made_parent) v' (inv''.0, (inv''.1, q)) in
                record {
                  visited = Every-mono Ready (And Rooted) (λ _ i. (i.0, i.1.0)) _ r.visited;
                  last = (r.last.0, r.last.1.0);
                  result = r.result;
                })))

  -- What `prepare` promises.
  abbrev pub Prepared : Text → World → Type 0
  Prepared desired w = read_config host.sha256 desired w ≡ passed

  managed-not_digest :
      (text : Text) → is_managed text ≡ true → starts_with text (codes "sha256:") ≡ false
  unfolding is_managed starts_with
  managed-not_digest [] h = refl
  managed-not_digest (c ∷ text) h = ground arith

  Installed-Prepared :
      (desired : Text) (w : World)
      → is_managed desired ≡ true
      → Installed desired w
      → Prepared desired w
  unfolding read_config is_managed matches
  Installed-Prepared desired w managed (((p, e), (q, f)), at) =
      rw (e, f, at, managed-not_digest desired managed, ==-refl desired) (ground arith)

  prepare_over-Stays :
      (desired : Text) (current : Bool) (check : Check) (w : World)
      → is_managed desired ≡ true
      → read_config host.sha256 desired w ≡ check
      → IsCovered w
      → Stays IsCovered (λ _. Prepared desired) (prepare_over host desired current check w)
  unfolding prepare_over
  prepare_over-Stays desired current check w managed e inv = at current check e
    where
      installed : Stays IsCovered (λ _. Prepared desired) (install host desired w)
      installed =
          let r = install-Stays desired w inv in
          record {
            visited = r.visited;
            last = r.last;
            result = λ a h. Installed-Prepared desired _ managed (r.result a h);
          }

      at :
          (current : Bool) (check : Check)
          → read_config host.sha256 desired w ≡ check
          → Stays IsCovered (λ _. Prepared desired) (prepare_over host desired current check w)
      at false check e = installed
      at true passed e = pure-Stays IsCovered _ false w inv e
      at true value_error e = installed
      at true failed e = raise-Stays IsCovered _ w inv

  -- From a state in which the running scraper has loaded the bytes on disk, or the marker is there,
  -- every state that `prepare` of a configuration writes, and its last one, raised or not, is such a
  -- state; and if `prepare` returns, `read_config` accepts the files for that configuration.
  pub prepare-Stays :
      (desired : Text) (w : World)
      → IsCovered w
      → Stays IsCovered (λ _. Prepared desired) (prepare host desired w)
  unfolding prepare
  prepare-Stays desired w inv =
      let valid = host.registrations_valid && is_managed desired in
      Stays-bind IsCovered (λ _ v. (v ≡ w) × (valid ≡ true)) _ (require valid) _ w
        (require-Stays IsCovered valid w inv)
        (λ _ v i q.
          Stays-bind IsCovered (λ actual v'. (v' ≡ v) × (inspect_config v ≡ some actual)) _
            (gets inspect_config >>= or_raise)
            (λ actual. gets (read_config host.sha256 desired) >>= λ c.
              prepare_over host desired (holds host desired actual) c)
            v (or_raise-Stays IsCovered (inspect_config v) v i)
            (λ actual v' i' _.
              prepare_over-Stays desired (holds host desired actual)
                (read_config host.sha256 desired v') v' (ground (arith, q.1)) refl i'))
