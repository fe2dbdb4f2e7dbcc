-- ===== src/Apps/First.antt =====
-- The first generation of an application in `app_publish` of
-- src/monitoring/apps/station_mutate.py.
use dragontools.Common.{
  ◌≡◌, refl, sym, subst, ◌∙◌, ◌⊎◌, inl, inr, Bool, true, false, Option, none, some,
}
use dragontools.Apps.Renderer.{Renderer, Kind, logs, metrics, scrape, Documents, IsSized}
use dragontools.Apps.Namespace.{Directory, World}
use dragontools.Runs.{
  Program, Keeps, Keeps-bind, Passes, Passes-then, Keeps-weaken, write, require, ◌>>◌,
}
use dragontools.Apps.Publish.{
  Host, publish_over, create, open_staging, open_staging_over, in_creating, set_creating, fill,
  mark, mark_all, mark_if, rename_staging, ensure_root, ensure_root_over, empty_directory, when,
}
use dragontools.Apps.Draft.{
  Draft, Fresh, IsSafe, registered, unregistered, Draft-Fresh, in_creating-Draft, mark-Draft,
}
use dragontools.Apps.States.{Complete, settled}
use dragontools.Apps.Manifests.{Complete-Settled}
use dragontools.Apps.Live.{Live, Live-map}
use dragontools.Apps.Creation.{Begun-staging_ok, Begun, empty-Begun, Complete-Begun, fill-Keeps}
use dragontools.Apps.Advance.{Current, Complete-Current, target}

module _ (R : Renderer) (sized : IsSized R) (host : Host) (keeps : host.keeps_modes ≡ true)
    (c : R.Config) (docs : Documents) (generated : R.documents c ≡ some docs) where
  abbrev pub Staged : Directory → Type 0
  Staged = Begun R host c docs

  abbrev Finished : Directory → Type 0
  Finished = Complete R (target R sized host keeps c docs generated)

  abbrev Step : {A : Type 0} → (World → Type 0) → (A → World → Type 0) → Program World A → Type 0
  Step = Passes (IsSafe R host c docs)

  Finished-IsSafe : (w : World) → Draft Finished w → IsSafe R host c docs w
  Finished-IsSafe w l = unregistered (
      Draft-Fresh Staged w (record {
        rooted = l.rooted;
        markers = l.markers;
        absent = l.absent;
        directory = l.directory;
        present = l.present;
        holds = Complete-Begun R sized host keeps c docs generated l.directory l.holds;
      }))

  Staged-IsSafe : (w : World) → Draft Staged w → IsSafe R host c docs w
  Staged-IsSafe w l = unregistered (Draft-Fresh Staged w l)

  Finished-live : (w : World) → Live Finished w → IsSafe R host c docs w
  Finished-live w l = registered (
      Live-map Finished _
        (λ d h. settled (target R sized host keeps c docs generated) (Complete-Settled R _ h)) w l)

  open_staging_over-Step :
      (w : World) (n : Option Directory)
      → w.root ≡ some true
      → Fresh Staged w
      → w.creating ≡ n
      → (n ≡ none) ⊎ ((d : Directory) × (n ≡ some d) × Staged d)
      → Keeps (IsSafe R host c docs) (λ _. Draft Staged) (open_staging_over R host c docs n w)
  unfolding open_staging_over
  open_staging_over-Step w n rooted l e (inl f) =
      subst
        (λ m.
          Keeps (IsSafe R host c docs) (λ _. Draft Staged) (open_staging_over R host c docs m w))
        (sym f)
        (subst
          (λ b.
            Keeps (IsSafe R host c docs) (λ _. Draft Staged)
              ((write (set_creating w (empty_directory b))
                  >> write (set_creating w (empty_directory true)))
                w))
          (sym keeps)
          (record {
            visited = (Staged-IsSafe _ opened, (Staged-IsSafe _ opened, tt));
            ended = opened;
          }))
    where
      opened : Draft Staged (set_creating w (empty_directory true))
      opened = record {
        rooted = rooted;
        markers = l.markers;
        absent = l.absent;
        directory = empty_directory true;
        present = refl;
        holds = empty-Begun R host c docs;
      }
  open_staging_over-Step w n rooted l e (inr (d, f, h)) =
      subst
        (λ m.
          Keeps (IsSafe R host c docs) (λ _. Draft Staged) (open_staging_over R host c docs m w))
        (sym f)
        (rw (Begun-staging_ok R sized host keeps c docs generated d h) (record {
          visited = tt;
          ended = record {
            rooted = rooted;
            markers = l.markers;
            absent = l.absent;
            directory = d;
            present = e ∙ f;
            holds = h;
          };
        }))

  open_staging-Step :
      (w : World)
      → w.root ≡ some true
      → Fresh Staged w
      → Keeps (IsSafe R host c docs) (λ _. Draft Staged) (open_staging R host c docs w)
  unfolding open_staging
  open_staging-Step w rooted l = open_staging_over-Step w w.creating rooted l refl l.staged

  fill-Step : Step (Draft Staged) (λ _. Draft Finished) (in_creating (fill R host c docs))
  fill-Step w l = Keeps-weaken (Draft Staged) _ _ _ Staged-IsSafe (
      in_creating-Draft Staged (λ _. Finished) (fill R host c docs) w l
        (fill-Keeps R sized host keeps c docs generated l.directory l.holds))

  mark_if-Step :
      (p : Kind → Bool) (k : Kind)
      → Step (Draft Finished) (λ _. Draft Finished) (mark_if R host p k)
  mark_if-Step p k w l = go (p k)
    where
      go :
          (b : Bool)
          → Keeps (IsSafe R host c docs) (λ _. Draft Finished) (when b (mark host.keeps_modes k) w)
      go false = record { visited = tt; ended = l }
      go true =
          subst (λ b. Keeps (IsSafe R host c docs) (λ _. Draft Finished) (mark b k w)) (sym keeps)
            (Keeps-weaken (Draft Finished) _ _ _ Finished-IsSafe (mark-Draft Finished k w l))

  mark_all-Step :
      (p : Kind → Bool) → Step (Draft Finished) (λ _. Draft Finished) (mark_all R host p)
  unfolding mark_all
  mark_all-Step p =
      Passes-then _ _ _ _ _ _ (mark_if-Step p logs)
        (Passes-then _ _ _ _ _ _ (mark_if-Step p metrics) (mark_if-Step p scrape))

  rename-Step : Step (Draft Finished) (λ _. Live Finished) (rename_staging R host)
  unfolding rename_staging
  rename-Step w l =
      let live : Live Finished (record w { app = w.creating; creating = none }) = record {
        rooted = l.rooted;
        markers = l.markers;
        directory = l.directory;
        present = l.present;
        holds = l.holds;
      } in
      record { visited = (Finished-live _ live, tt); ended = live }

  abbrev pub Published : Bool → World → Type 0
  Published _ = Live (Current R c docs)

  create-Step :
      (w : World)
      → w.root ≡ some true
      → Fresh Staged w
      → Keeps (IsSafe R host c docs) Published (create R host c docs w)
  unfolding create
  create-Step w rooted l =
      Keeps-bind (IsSafe R host c docs) (λ _. Draft Staged) Published (open_staging R host c docs) _
        w (open_staging-Step w rooted l)
        (λ _. Passes-then _ _ _ _ _ _ fill-Step (
          Passes-then _ _ _ _ _ _ (mark_all-Step _) (
            Passes-then _ _ _ _ _ _ rename-Step (λ w' l'. record {
              visited = tt;
              ended = Live-map _ _ (Complete-Current R sized host keeps c docs generated) w' l';
            }))))

  rooted-Fresh : (w : World) → Fresh Staged w → Fresh Staged (record w { root = some true })
  rooted-Fresh w l = record {
    rooted = inr refl;
    markers = l.markers;
    absent = l.absent;
    staged = l.staged;
  }

  ensure_root-Step :
      (w : World)
      → Fresh Staged w
      → Keeps
          (IsSafe R host c docs)
          (λ _ w'. (w'.root ≡ some true) × Fresh Staged w')
          (ensure_root host.keeps_modes w)
  unfolding ensure_root ensure_root_over
  ensure_root-Step w l = go w.root l.rooted refl
    where
      go :
          (o : Option Bool)
          → (o ≡ none) ⊎ (o ≡ some true)
          → w.root ≡ o
          → Keeps
              (IsSafe R host c docs)
              (λ _ w'. (w'.root ≡ some true) × Fresh Staged w')
              (ensure_root_over host.keeps_modes o w)
      go o (inl e) q =
          subst
            (λ p.
              Keeps (IsSafe R host c docs) (λ _ w'. (w'.root ≡ some true) × Fresh Staged w')
                (ensure_root_over host.keeps_modes p w))
            (sym e)
            (subst
              (λ b.
                Keeps (IsSafe R host c docs) (λ _ w'. (w'.root ≡ some true) × Fresh Staged w')
                  (ensure_root_over b none w))
              (sym keeps)
              (record {
                visited = (
                  unregistered (rooted-Fresh w l),
                  (unregistered (rooted-Fresh _ (rooted-Fresh w l)), tt),
                );
                ended = (refl, rooted-Fresh _ (rooted-Fresh w l));
              }))
      go o (inr e) q =
          subst
            (λ p.
              Keeps (IsSafe R host c docs) (λ _ w'. (w'.root ≡ some true) × Fresh Staged w')
                (ensure_root_over host.keeps_modes p w))
            (sym e) (record { visited = tt; ended = (q ∙ e, l) })

  pub first-Step :
      (w : World)
      → host.native_valid docs ≡ true
      → Fresh Staged w
      → Keeps (IsSafe R host c docs) Published (publish_over R host c docs none w)
  unfolding publish_over
  first-Step w valid l =
      subst
        (λ b.
          Keeps (IsSafe R host c docs) Published
            ((require b >> (ensure_root host.keeps_modes >> create R host c docs)) w))
        (sym valid)
        (Keeps-bind (IsSafe R host c docs) _ Published (ensure_root host.keeps_modes) _ w
          (ensure_root-Step w l) (λ _ w' h. create-Step w' h.0 h.1))
