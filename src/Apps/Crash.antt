-- ===== src/Apps/Crash.antt =====
-- `app_publish` of src/monitoring/apps/station_mutate.py, cut off at any write.
use dragontools.Common.{◌≡◌, refl, inl, inr, Bool, true, Option, none, some}
use dragontools.Apps.Renderer.{Renderer, Documents, Manifest, IsSized}
use dragontools.Apps.Namespace.{World}
use dragontools.Runs.{Keeps, Keeps-weaken}
use dragontools.Apps.Inspect.{preflight, inspect}
use dragontools.Apps.Publish.{Host, publish, publish_over}
use dragontools.Apps.Draft.{Fresh, IsSafe, registered, unregistered}
use dragontools.Apps.First.{first-Step}
use dragontools.Apps.Recheck.{IsBlocked}
use dragontools.Apps.Live.{Live}
use dragontools.Apps.Accept.{preflight-Recoverable}
use dragontools.Apps.Creation.{Begun}
use dragontools.Apps.Advance.{Current, publish_over-Keeps}

module _ (R : Renderer) (host : Host) (c : R.Config) (docs : Documents)
    (generated : R.documents c ≡ some docs) where
  pub preflight-Fresh : (w : World) → Fresh (Begun R host c docs) w → preflight R c w ≡ some none
  unfolding preflight inspect
  preflight-Fresh w l = elim l.rooted [
    | inl e ↦ rw (generated, e)
    | inr e ↦ rw (generated, e, l.absent)
  ]

module _ (R : Renderer) (sized : IsSized R) (host : Host) (keeps : host.keeps_modes ≡ true)
    (c : R.Config) (docs : Documents) (generated : R.documents c ≡ some docs) where
  abbrev Safe : World → Type 0
  Safe = IsSafe R host c docs

  abbrev IsPublished : Bool → World → Type 0
  IsPublished _ = Live (Current R c docs)

  publish-after :
      (w : World) (o : Option (Option (Manifest R.Config))) (m : Option (Manifest R.Config))
      → o ≡ some m
      → preflight R c w ≡ o
      → Keeps Safe IsPublished (publish_over R host c docs m w)
      → Keeps Safe IsPublished (publish R host c w)
  unfolding publish
  publish-after w o m e p h = rw (p, e, generated) h

  -- From a state that `IsSafe` describes, with a renderer whose files are not larger than the limit,
  -- a host on which a new file has the mode that is asked for and the pinned tools accept the
  -- documents of `c`, and unless the registration is blocked (`IsBlocked`): `publish` of `c` does not
  -- raise; every state that is on disk on the way, those of a write that is cut off among them, is
  -- again one that `IsSafe` describes; and at the end the registration is settled in a generation of
  -- `c`, in a safe root, with markers that are absent or sound.
  pub publish-IsSafe :
      (w : World)
      → host.native_valid docs ≡ true
      → ¬ IsBlocked R c docs w
      → IsSafe R host c docs w
      → Keeps Safe IsPublished (publish R host c w)
  publish-IsSafe w valid free (registered l) =
      publish-after w _ _ (preflight-Recoverable R sized c docs generated w l) refl (
        Keeps-weaken _ _ _ _ (λ w'. registered)
          (publish_over-Keeps R sized host keeps c docs generated w l l.holds valid free))
  publish-IsSafe w valid free (unregistered l) =
      publish-after w _ _ (preflight-Fresh R host c docs generated w l) refl
        (first-Step R sized host keeps c docs generated w valid l)
