-- ===== src/Scrape/Protocol.antt =====
-- `reconcile_config` and `finalize_config` of src/monitoring/scrape_mutate.py, and any sequence of
-- cut-off runs of the three programs while the scraper loads what is on disk.
use dragontools.Common.{
  ◌≡◌, refl, sym, subst, ap, ◌⊎◌, inl, inr, Bool, true, false, some, [], ◌∷◌, Text, arith, nat_eq,
  list_eq, option_eq, ◌==◌, ==-sound, Bool-cases, suc, Every, List, Every-mono,
}
use dragontools.Runs.{
  modify, Run, Program, Stays, Stays-bind, pure-Stays, raise-Stays, or_raise-Stays, pure, require,
  or_raise, gets, ◌>>=◌, ◌>>◌,
}
use dragontools.Scrape.Files.{
  Entry, missing, wrong, found, World, Check, passed, value_error, failed, read_config,
  pending_exists, pending_of,
}
use dragontools.Scrape.Mutate.{
  Host, mark_reload, prepare, reconcile, reconcile_over, request_reload, finalize, remove_marker,
  require_config, Answer, ready, not_ready, invalid,
}
use dragontools.Scrape.Covered.{
  IsCovered, And, bytes_of, Prepared, mark_reload-Stays, prepare-Stays,
}

-- The state is on disk during the run, or at its end.
abbrev OneOf : World → List World → Type 0
OneOf v [] = ⊥
OneOf v (w ∷ ws) = (v ≡ w) ⊎ OneOf v ws

abbrev pub OnDisk : {A : Type 0} → World → Run World A → Type 0
OnDisk v r = (v ≡ r.state) ⊎ OneOf v r.trace

Every-OneOf : (I : World → Type 0) (v : World) (ws : List World) → Every I ws → OneOf v ws → I v
Every-OneOf I v [] h o = absurd o
Every-OneOf I v (w ∷ ws) h (inl e) = subst I (sym e) h.0
Every-OneOf I v (w ∷ ws) h (inr o) = Every-OneOf I v ws h.1 o

Stays-OnDisk :
    {A : Type 0} (I : World → Type 0) (Q : A → World → Type 0) (r : Run World A) (v : World)
    → Stays I Q r
    → OnDisk v r
    → I v
Stays-OnDisk I Q r v h (inl e) = subst I (sym e) h.last
Stays-OnDisk I Q r v h (inr o) = Every-OneOf I v r.trace h.visited o

module _ (host : Host) where
  -- What the result of `reconcile` says of the state before and after.
  abbrev pub Reported : World → Bool → World → Type 0
  Reported w true w' =
      (pending_exists w' ≡ some true) × (w'.reloads ≡ suc w.reloads) × (w'.config ≡ w.config)
  Reported w false w' = (w' ≡ w) × (host.runtime w ≡ ready) × (pending_exists w ≡ some false)

  answered-Stays :
      (w v : World) (b : Bool)
      → pending_exists v ≡ some true
      → v.reloads ≡ suc w.reloads
      → v.config ≡ w.config
      → Stays IsCovered (Reported w) ((require b >> pure true) v)
  answered-Stays w v false p q r = record { visited = tt; last = inr p; result = λ a e. cc e }
  answered-Stays w v true p q r = pure-Stays IsCovered (Reported w) true v (inr p) (p, q, r)

  request_reload-Stays :
      (w : World) → IsCovered w → Stays IsCovered (Reported w) (request_reload host w)
  unfolding request_reload pending_exists
  request_reload-Stays w inv =
      let Same : World → Type 0 = λ v. (v.reloads ≡ w.reloads) × (v.config ≡ w.config) in
      let m = mark_reload-Stays Same w (λ v p. p) (inv, (refl, refl)) in
      Stays-bind IsCovered (λ _ v. Same v × (pending_exists v ≡ some true)) _ mark_reload
        (λ _.
          (modify (λ u. record u { reloads = suc u.reloads }))
          >> (require host.accepts_reload >> pure true))
        w
        (record {
          visited = Every-mono (And Same) IsCovered (λ _ i. i.0) _ m.visited;
          last = m.last.0;
          result = λ a e. (m.last.1, m.result a e);
        })
        (λ _ v i q.
          let asked : World = record v { reloads = suc v.reloads } in
          let r = answered-Stays w asked host.accepts_reload q.1 (ap suc q.0.0) q.0.1 in
          record { visited = (inr q.1, r.visited); last = r.last; result = r.result })

  require_config-Stays :
      (expected : Text) (check : Check) (w : World)
      → IsCovered w
      → Stays IsCovered (λ _ v. (v ≡ w) × (check ≡ passed)) (require_config host expected check w)
  unfolding require_config
  require_config-Stays expected passed w i = pure-Stays IsCovered _ tt w i (refl, refl)
  require_config-Stays expected value_error w i = raise-Stays IsCovered _ w i
  require_config-Stays expected failed w i = raise-Stays IsCovered _ w i

  reconcile_over-Stays :
      (pending : Bool) (w : World)
      → IsCovered w
      → pending_exists w ≡ some pending
      → Stays IsCovered (Reported w) (reconcile_over host pending (host.runtime w) w)
  unfolding reconcile_over
  reconcile_over-Stays true w i e = request_reload-Stays w i
  reconcile_over-Stays false w i e = at (host.runtime w) refl
    where
      at :
          (a : Answer)
          → host.runtime w ≡ a
          → Stays IsCovered (Reported w) (reconcile_over host false a w)
      at ready q = pure-Stays IsCovered _ false w i (refl, q, e)
      at not_ready q = request_reload-Stays w i
      at invalid q = raise-Stays IsCovered _ w i

  -- From a state in which the running scraper has loaded the bytes on disk, or the marker is there,
  -- every state that `reconcile` leaves on the way or at its end is such a state. If it returns,
  -- `read_config` has accepted the files. If it returns that a reload was requested, the marker is
  -- there, one more reload has been requested, and the configuration is the same; if it returns that
  -- none was, nothing has been written, there is no marker, and the running scraper has answered every
  -- check.
  pub reconcile-Stays :
      (expected : Text) (w : World)
      → IsCovered w
      → Stays IsCovered
          (λ b w'. Prepared host expected w × Reported w b w')
          (reconcile host expected w)
  unfolding reconcile
  reconcile-Stays expected w inv =
      Stays-bind IsCovered (λ _ v. (v ≡ w) × Prepared host expected w) _
        (gets (read_config host.sha256 expected) >>= require_config host expected) (λ _. rest) w
        (require_config-Stays expected (read_config host.sha256 expected w) w inv)
        (λ _ v i q. subst (λ u. Stays IsCovered Result (rest u)) (sym q.0) (at_start q.1))
    where
      Result : Bool → World → Type 0
      Result b w' = Prepared host expected w × Reported w b w'

      rest : Program World Bool
      rest = gets pending_exists >>= or_raise >>= λ p.
          gets host.runtime >>= λ a. reconcile_over host p a

      at_start : Prepared host expected w → Stays IsCovered Result (rest w)
      at_start prepared =
          Stays-bind IsCovered (λ p v. (v ≡ w) × (pending_exists w ≡ some p)) _
            (gets pending_exists >>= or_raise)
            (λ p. gets host.runtime >>= λ a. reconcile_over host p a) w
            (or_raise-Stays IsCovered (pending_exists w) w inv)
            (λ p v i q.
              subst (λ u. Stays IsCovered Result (reconcile_over host p (host.runtime u) u))
                (sym q.0)
                (let r = reconcile_over-Stays p w inv q.1 in
                  record {
                    visited = r.visited;
                    last = r.last;
                    result = λ a e. (prepared, r.result a e);
                  }))

  no_marker : (e : Entry) → pending_of e ≡ some false → e ≡ missing
  unfolding pending_of
  no_marker missing h = refl
  no_marker wrong h = cc h
  no_marker (found i) h = ground arith

  remove_marker-Stays :
      (expected : Text) (p : Bool) (w : World)
      → w.loaded ≡ bytes_of w.config
      → Prepared host expected w
      → pending_exists w ≡ some p
      → Stays IsCovered
          (λ _ w'. (w'.pending ≡ missing) × Prepared host expected w')
          (remove_marker host p w)
  unfolding remove_marker pending_exists read_config
  remove_marker-Stays expected false w loaded prepared e =
      pure-Stays IsCovered _ tt w (inl loaded) (no_marker w.pending e, prepared)
  remove_marker-Stays expected true w loaded prepared e = record {
    visited = (inl loaded, tt);
    last = inl loaded;
    result = λ _ _. (refl, prepared);
  }

  -- If the running scraper has loaded the bytes on disk, every state that `finalize` leaves is again
  -- such a state or has the marker; and if it returns, there is no marker, and `read_config` accepts
  -- the files.
  pub finalize-Stays :
      (expected : Text) (w : World)
      → w.loaded ≡ bytes_of w.config
      → Stays IsCovered
          (λ _ w'. (w'.pending ≡ missing) × Prepared host expected w')
          (finalize host expected w)
  unfolding finalize
  finalize-Stays expected w loaded =
      Stays-bind IsCovered (λ _ v. (v ≡ w) × Prepared host expected w) _
        (gets (read_config host.sha256 expected) >>= require_config host expected) (λ _. rest) w
        (require_config-Stays expected (read_config host.sha256 expected w) w (inl loaded))
        (λ _ v i q. subst (λ u. Stays IsCovered Result (rest u)) (sym q.0) (removed q.1))
    where
      Result : Unit {0} → World → Type 0
      Result _ w' = (w'.pending ≡ missing) × Prepared host expected w'

      rest : Program World (Unit {0})
      rest = gets pending_exists >>= or_raise >>= remove_marker host

      removed : Prepared host expected w → Stays IsCovered Result (rest w)
      removed prepared =
          Stays-bind IsCovered (λ p v. (v ≡ w) × (pending_exists w ≡ some p)) _
            (gets pending_exists >>= or_raise) (remove_marker host) w
            (or_raise-Stays IsCovered (pending_exists w) w (inl loaded))
            (λ p v i q.
              subst (λ u. Stays IsCovered Result (remove_marker host p u)) (sym q.0)
                (remove_marker-Stays expected p w loaded prepared q.1))

  -- What happens on the station: a run of one of the programs, whole or cut off at any write, and
  -- the scraper loads the bytes that are on disk.
  pub data Step : World → World → Type 0 where
    prepares : (desired : Text) (w w' : World) → OnDisk w' (prepare host desired w) → Step w w'
    reconciles :
        (expected : Text) (w w' : World) → OnDisk w' (reconcile host expected w) → Step w w'
    loads : (w : World) → Step w (record w { loaded = bytes_of w.config })
    finalizes : (expected : Text) (w w' : World) → OnDisk w' (finalize host expected w) → Step w w'

  pub data Steps : World → World → Type 0 where
    done : (w : World) → Steps w w
    next : (w v u : World) → Step w v → Steps v u → Steps w u

  -- A run of `finalize` that begins while the scraper has not loaded the bytes on disk.
  abbrev pub StartsEarly : {w v : World} → Step w v → Type 0
  StartsEarly (prepares desired w w' o) = ⊥
  StartsEarly (reconciles expected w w' o) = ⊥
  StartsEarly (loads w) = ⊥
  StartsEarly (finalizes expected w w' o) = (w.loaded == bytes_of w.config) ≡ false

  abbrev pub SomeEarly : {w v : World} → Steps w v → Type 0
  SomeEarly (done w) = ⊥
  SomeEarly (next w v u s rest) = StartsEarly s ⊎ SomeEarly rest

  Step-IsCovered : (w v : World) (s : Step w v) → IsCovered w → IsCovered v ⊎ StartsEarly s
  Step-IsCovered w v (prepares desired _ _ o) i =
      inl (Stays-OnDisk _ _ _ v (prepare-Stays host desired w i) o)
  Step-IsCovered w v (reconciles expected _ _ o) i =
      inl (Stays-OnDisk _ _ _ v (reconcile-Stays expected w i) o)
  Step-IsCovered w v (loads _) i = inl (inl refl)
  Step-IsCovered w v (finalizes expected _ _ o) i =
      elim (Bool-cases (w.loaded == bytes_of w.config)) [
        | inl e ↦ inl (
            Stays-OnDisk _ _ _ v
              (finalize-Stays expected w (==-sound w.loaded (bytes_of w.config) e)) o)
        | inr e ↦ inr e
      ]

  -- However the runs of `prepare`, `reconcile` and `finalize` are cut off and repeated, for whatever
  -- configurations and in any order, while the scraper loads what is on disk at any time: from a state
  -- in which the scraper has loaded the bytes on disk, or the marker is there, only such states are
  -- reached, unless one of the runs of `finalize` began while the bytes on disk were not loaded.
  pub Steps-IsCovered : (w v : World) (s : Steps w v) → IsCovered w → IsCovered v ⊎ SomeEarly s
  Steps-IsCovered w v (done _) i = inl i
  Steps-IsCovered w v (next _ u _ s rest) i = elim (Step-IsCovered w u s i) [
    | inr early ↦ inr (inl early)
    | inl j ↦ elim (Steps-IsCovered u v rest j) [ inl k ↦ inl k | inr early ↦ inr (inr early) ]
  ]
