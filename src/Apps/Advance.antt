-- ===== src/Apps/Advance.antt =====
-- `app_publish` of an application that is registered already.
use dragontools.Common.{
  ◌≡◌, refl, sym, subst, inl, inr, true, false, none, some, Bool-cases, Equality,
}
use dragontools.Apps.Renderer.{
  Renderer, Kind, logs, metrics, scrape, Documents, IsSized, manifest_text,
}
use dragontools.Apps.Namespace.{Directory, World}
use dragontools.Runs.{Keeps, Keeps-mono, gets, pure, require, or_raise, ◌>>=◌, ◌>>◌}
use dragontools.Apps.Inspect.{config_beq, inspect}
use dragontools.Apps.Recheck.{IsBlocked, inspect-accepts, continues-or-blocked}
use dragontools.Apps.Publish.{Host, publish_over, advance, update, differs, ensure_root}
use dragontools.Apps.States.{written, Generation, Settled, Complete, Recoverable, settled, moving}
use dragontools.Apps.Steps.{also}
use dragontools.Apps.Manifests.{first_status, Complete-Settled}
use dragontools.Apps.Live.{Live, Live-map, Live-with, ensure_root-eq}
use dragontools.Apps.Accept.{manifest_in}
use dragontools.Apps.Transition.{
  LiveRecoverable, Ends, Ends-then, Begun, next_generation, mark_all-Moves, begin-Moves,
  save_all-Moves, end-Moves, complete-Moves,
}

-- All files are of the candidate's generation, and no other manifest is in place.
abbrev pub Current : (R : Renderer) (c : R.Config) → Documents → Directory → Type 0
Current R c docs d =
    (g : Generation R c) × (g.config ≡ c) × Settled R g (manifest_text R c (some g.config) docs) d

module _ (R : Renderer) (sized : IsSized R) (host : Host) (keeps : host.keeps_modes ≡ true)
    (c : R.Config) (docs : Documents) (generated : R.documents c ≡ some docs) where
  abbrev Safe : World → Type 0
  Safe = LiveRecoverable R sized host keeps c docs generated

  abbrev pub target : Generation R c
  target = next_generation R sized host keeps c docs generated

  saved :
      (old : Generation R c) (k : Kind)
      → also scrape (also metrics (also logs (first_status old.docs docs))) k ≡ written
  saved old logs = refl
  saved old metrics = refl
  saved old scrape = refl

  done-Ends :
      Ends R sized host keeps c docs generated
        (Live (Complete R target))
        (λ _. Live (Complete R target))
        (pure true)
  done-Ends w l = record { visited = tt; ended = l }

  advance-Ends :
      (old : Generation R c)
      → Ends R sized host keeps c docs generated
          (Live (Begun R sized host keeps c docs generated old))
          (λ _. Live (Complete R target))
          (advance R host old.config old.docs c docs)
  unfolding advance
  advance-Ends old =
      let chain = Ends-then R sized host keeps c docs generated in
      chain _ _ _ _ _
        (mark_all-Moves R sized host keeps c docs generated
          (Begun R sized host keeps c docs generated old) (λ d. settled old)
          (differs R host old.docs docs))
        (chain _ _ _ _ _ (begin-Moves R sized host keeps c docs generated old) (
          chain _ _ _ _ _ (save_all-Moves R sized host keeps c docs generated old) (
            chain _ _ _ _ _ (end-Moves R sized host keeps c docs generated _ old target (saved old))
              done-Ends)))

  update-Keeps :
      (w : World) (l : Live (Recoverable R c docs) w) (v : Recoverable R c docs l.directory)
      → Keeps Safe
          (λ _. Live (Complete R target))
          (update R host (manifest_in R sized c docs generated v) c docs w)
  unfolding update manifest_in
  update-Keeps w l (settled g v) = rw g.generated (advance-Ends g w (Live-with _ _ w l v))
  update-Keeps w l (moving old g v) = rw g.generated (
      Ends-then R sized host keeps c docs generated _ _ _ _ _
        (complete-Moves R sized host keeps c docs generated old g)
        (λ w' l'.
          advance-Ends g w'
            (Live-map _ _ (λ d. Complete-Settled R (manifest_text R c (some g.config) docs)) w' l'))
        w (Live-with _ _ w l v))

  pub Complete-Current : (d : Directory) → Complete R target d → Current R c docs d
  Complete-Current d h = (target, refl, Complete-Settled R (manifest_text R c (some c) docs) h)

  -- A registration that is current already is only inspected.
  recheck-Keeps :
      (g : Generation R c) (w : World)
      (l : Live (Settled R g (manifest_text R c (some g.config) docs)) w)
      → g.config ≡ c
      → ¬ IsBlocked R c docs w
      → Keeps Safe
          (λ _. Live (Current R c docs))
          ((gets (inspect R (R.application c) true false none) >>= λ r. or_raise r >> pure false) w)
  recheck-Keeps g w l e free =
      rw
        (inspect-accepts R sized c docs generated g w l
          (continues-or-blocked R sized c docs generated g w l e free))
        (record { visited = tt; ended = Live-with _ _ w l (g, e, l.holds) })

  rewrite-Keeps :
      (w : World) (l : Live (Recoverable R c docs) w) (v : Recoverable R c docs l.directory)
      → host.native_valid docs ≡ true
      → Keeps Safe
          (λ _. Live (Current R c docs))
          ((require (host.native_valid docs)
              >> (ensure_root host.keeps_modes
                  >> update R host (manifest_in R sized c docs generated v) c docs))
            w)
  rewrite-Keeps w l v valid =
      subst
        (λ b.
          Keeps Safe (λ _. Live (Current R c docs))
            ((require b
                >> (ensure_root host.keeps_modes
                    >> update R host (manifest_in R sized c docs generated v) c docs))
              w))
        (sym valid)
        (rw (ensure_root-eq host.keeps_modes w l.rooted)
          (Keeps-mono _ _ _ _ (update-Keeps w l v) (λ _ w'. Live-map _ _ Complete-Current w')))

  -- `app_publish` of a registered application, from any state that an earlier one has left.
  pub publish_over-Keeps :
      (w : World) (l : Live (Recoverable R c docs) w) (v : Recoverable R c docs l.directory)
      → host.native_valid docs ≡ true
      → ¬ IsBlocked R c docs w
      → Keeps Safe
          (λ _. Live (Current R c docs))
          (publish_over R host c docs (some (manifest_in R sized c docs generated v)) w)
  unfolding publish_over manifest_in
  publish_over-Keeps w l (settled g v) valid free = elim (Bool-cases (config_beq R g.config c)) [
    | inl same ↦ rw same (
        recheck-Keeps g w (Live-with _ _ w l v) ((Equality.test_iff R.config_eq g.config c).0 same)
          free)
    | inr new ↦ rw new (rewrite-Keeps w l (settled g v) valid)
  ]
  publish_over-Keeps w l (moving old g v) valid free = elim (Bool-cases (config_beq R g.config c)) [
    | inl same ↦ rw same (rewrite-Keeps w l (moving old g v) valid)
    | inr new ↦ rw new (rewrite-Keeps w l (moving old g v) valid)
  ]
