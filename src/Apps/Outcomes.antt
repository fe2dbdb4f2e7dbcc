-- ===== src/Apps/Outcomes.antt =====
-- The branches of `app_publish` of src/monitoring/apps/station_mutate.py that write nothing.
use dragontools.Common.{
  ◌≡◌, refl, sym, ap, ◌∙◌, inl, inr, Bool, true, false, Option, none, some, Bool-cases, Equality,
  starts_with,
}
use mathlib.Core.Option.{some-injective}
use dragontools.Apps.Renderer.{Renderer, Documents, Manifest, manifest_for, manifest_text, IsSized}
use dragontools.Apps.Namespace.{Node, manifest, Directory, World}
use dragontools.Runs.{Run, pure, raise, or_raise, ◌>>◌}
use dragontools.Apps.Inspect.{preflight, inspect, config_beq}
use dragontools.Apps.Publish.{Host, publish, publish_over}
use dragontools.Apps.Atomic.{whole}
use dragontools.Apps.States.{Generation, Settled, Recoverable, settled, moving, manifest_of}
use dragontools.Apps.Live.{Live, Live-with}
use dragontools.Apps.Accept.{manifest_in, preflight-Recoverable}
use dragontools.Apps.Recheck.{
  IsBlocked, inspect-accepts, inspect-refuses, continues, continues-or-blocked,
}
use dragontools.Apps.Advance.{Current}
use dragontools.Apps.Draft.{IsSafe, registered, unregistered}
use dragontools.Apps.Crash.{preflight-Fresh}

module _ (R : Renderer) (sized : IsSized R) (host : Host) (c : R.Config) (docs : Documents)
    (generated : R.documents c ≡ some docs) where
  publish-eq :
      (w : World) (m : Option (Manifest R.Config)) (r : Run World Bool)
      → preflight R c w ≡ some m
      → publish_over R host c docs m w ≡ r
      → publish R host c w ≡ r
  unfolding publish
  publish-eq w m r p h = rw (p, generated) h

  abbrev recoverable :
      (g : Generation R c) (w : World)
      → Live (Settled R g (manifest_text R c (some g.config) docs)) w
      → Live (Recoverable R c docs) w
  recoverable g w l = record {
    rooted = l.rooted;
    markers = l.markers;
    directory = l.directory;
    present = l.present;
    holds = settled g l.holds;
  }

  -- A settled registration of `c` is only inspected.
  publish-inspected :
      (g : Generation R c) (w : World)
      (l : Live (Settled R g (manifest_text R c (some g.config) docs)) w)
      → g.config ≡ c
      → (r : Option (Option (Manifest R.Config)))
      → inspect R (R.application c) true false none w ≡ r
      → publish R host c w ≡ (or_raise r >> pure false) w
  unfolding publish_over manifest_in
  publish-inspected g w l e r h =
      publish-eq w _ _ (preflight-Recoverable R sized c docs generated w (recoverable g w l))
        (rw ((Equality.test_iff R.config_eq g.config c).1 e, h))

  -- Where the registration is settled in a generation of `c`, is not blocked, and no generated file is
  -- larger than the limit, `publish` of `c` returns that nothing has been published, and writes nothing.
  pub publish-unchanged :
      (w : World)
      → Live (Current R c docs) w
      → ¬ IsBlocked R c docs w
      → publish R host c w ≡ pure false w
  publish-unchanged w l free =
      let (g, e, v) = l.holds in
      let s : Live (Settled R g (manifest_text R c (some g.config) docs)) w = Live-with _ _ w l v in
      publish-inspected g w s e _ (
        inspect-accepts R sized c docs generated g w s
          (continues-or-blocked R sized c docs generated g w s e free))

  manifest-at :
      (g : Generation R c) (previous : Option R.Config) (d : Directory) (w : World)
      → w.app ≡ some d
      → d.file manifest ≡ some (whole (manifest_of R g previous))
      → IsBlocked R c docs w
      → manifest_for R g.config previous g.docs ≡ manifest_for R c none docs
  manifest-at g previous d w present current b = some-injective _ _ (
      sym (R.decode-encode g.config previous g.docs g.generated)
      ∙ ap R.decode (
          ap Node.content (
            some-injective _ _ (
              sym current
              ∙ ap (λ d. d.file manifest) (some-injective _ _ (sym present ∙ b.present))
              ∙ b.current)))
      ∙ R.decode-encode c none docs generated)

  abbrev at_generation :
      (g : Generation R c) (w : World) (l : Live (Recoverable R c docs) w)
      → Settled R g (manifest_text R c (some g.config) docs) l.directory
      → Live (Settled R g (manifest_text R c (some g.config) docs)) w
  at_generation g w l v = record {
    rooted = l.rooted;
    markers = l.markers;
    directory = l.directory;
    present = l.present;
    holds = v;
  }

  blocked-at :
      (w : World) (l : Live (Recoverable R c docs) w) (v : Recoverable R c docs l.directory)
      → IsBlocked R c docs w
      → publish R host c w ≡ raise w
  blocked-at w l (settled g v) b =
      let e = manifest-at g none l.directory w l.present v.current b in
      let same : l.directory ≡ b.directory = some-injective _ _ (sym l.present ∙ b.present) in
      publish-inspected g w (at_generation g w l v) (ap Manifest.config e) none (
        inspect-refuses R sized c docs generated g w (at_generation g w l v) (
          ap (λ d. continues (manifest_of R g none) (d.next manifest)) same
          ∙ ap (continues (manifest_of R g none)) b.next
          ∙ ap (λ m. starts_with (R.encode m) b.staged) e
          ∙ b.differs))
  blocked-at w l (moving old g v) b =
      cc
        (ap Manifest.previous (manifest-at g (some old.config) l.directory w l.present v.current b))

  -- From a state that `IsSafe` describes, where the manifest of `c` is in place and the staged one is
  -- not the beginning of the same text, `publish` of `c` raises, and it writes nothing; so it does
  -- whenever it is tried again. It is assumed that no generated file is larger than the limit.
  pub publish-IsBlocked :
      (w : World) → IsSafe R host c docs w → IsBlocked R c docs w → publish R host c w ≡ raise w
  publish-IsBlocked w (registered l) b = blocked-at w l l.holds b
  publish-IsBlocked w (unregistered l) b = cc (l.absent, b.present)

  refused-at :
      (w : World)
      → host.native_valid docs ≡ false
      → (l : Live (Recoverable R c docs) w) (v : Recoverable R c docs l.directory)
      → ¬ Live (Current R c docs) w
      → publish_over R host c docs (some (manifest_in R sized c docs generated v)) w ≡ raise w
  unfolding publish_over manifest_in
  refused-at w invalid l (settled g v) new = elim (Bool-cases (config_beq R g.config c)) [
    | inl same ↦
        absurd (new (Live-with _ _ w l (g, (Equality.test_iff R.config_eq g.config c).0 same, v)))
    | inr other ↦ rw (other, invalid) refl
  ]
  refused-at w invalid l (moving old g v) new = elim (Bool-cases (config_beq R g.config c)) [
    | inl same ↦ rw (same, invalid) refl
    | inr other ↦ rw (other, invalid) refl
  ]

  -- From a state that `IsSafe` describes and that is not settled in a generation of `c`, if the pinned
  -- tools refuse the documents of `c` and no generated file is larger than the limit, `publish` of `c`
  -- raises before it has written anything.
  pub publish-refused :
      (w : World)
      → host.native_valid docs ≡ false
      → IsSafe R host c docs w
      → ¬ Live (Current R c docs) w
      → publish R host c w ≡ raise w
  unfolding publish_over
  publish-refused w invalid (registered l) new =
      publish-eq w _ _ (preflight-Recoverable R sized c docs generated w l)
        (refused-at w invalid l l.holds new)
  publish-refused w invalid (unregistered l) new =
      publish-eq w _ _ (preflight-Fresh R host c docs generated w l) (rw invalid refl)
