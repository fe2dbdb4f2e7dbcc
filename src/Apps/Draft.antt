-- ===== src/Apps/Draft.antt =====
-- No registration yet: `.apps-creating-NAME` of src/monitoring/apps/station_mutate.py.
use dragontools.Common.{
  ◌≡◌, refl, sym, subst, ◌⊎◌, inr, true, Option, none, some, Every-map, Every-mono,
}
use dragontools.Apps.Renderer.{Renderer, Kind, Documents}
use dragontools.Apps.Namespace.{Directory, World}
use dragontools.Runs.{Run, Program, Keeps, Post}
use dragontools.Apps.Publish.{Host, in_creating, in_creating_of, lift, set_creating, mark}
use dragontools.Apps.States.{Recoverable}
use dragontools.Apps.Live.{MarkerOk, Live, mark-keeping, markers-set}
use dragontools.Apps.Creation.{Begun}

-- No registration, and a staging directory that satisfies `J`.
pub record Draft (J : Directory → Type 0) (w : World) : Type 0 where
  pub rooted : w.root ≡ some true
  pub markers : (k : Kind) → MarkerOk (w.pending k)
  pub absent : w.app ≡ none
  pub directory : Directory
  pub present : w.creating ≡ some directory
  pub holds : J directory

-- No registration, and at most the beginning of one.
pub record Fresh (J : Directory → Type 0) (w : World) : Type 0 where
  pub rooted : (w.root ≡ none) ⊎ (w.root ≡ some true)
  pub markers : (k : Kind) → MarkerOk (w.pending k)
  pub absent : w.app ≡ none
  pub staged : (w.creating ≡ none) ⊎ ((d : Directory) × (w.creating ≡ some d) × J d)

pub Draft-Fresh : (J : Directory → Type 0) (w : World) → Draft J w → Fresh J w
Draft-Fresh J w l = record {
  rooted = inr l.rooted;
  markers = l.markers;
  absent = l.absent;
  staged = inr (l.directory, l.present, l.holds);
}

-- What a publication of `c` can meet, and can leave at any moment.
pub data IsSafe (R : Renderer) (host : Host) (c : R.Config) (docs : Documents) (w : World)
    : Type 0 where
  registered : Live (Recoverable R c docs) w → IsSafe R host c docs w
  unregistered : Fresh (Begun R host c docs) w → IsSafe R host c docs w

module _ {A : Type 0} (J : Directory → Type 0) (Q : A → Directory → Type 0) where
  Draft-in :
      (w : World) (l : Draft J w) (P : Directory → Type 0) (e : Directory)
      → P e
      → Draft P (set_creating w e)
  Draft-in w l P e p = record {
    rooted = l.rooted;
    markers = l.markers;
    absent = l.absent;
    directory = e;
    present = refl;
    holds = p;
  }

  lift-Draft :
      (w : World) (l : Draft J w) (r : Run Directory A)
      → Keeps J Q r
      → Keeps (Draft J) (λ a. Draft (Q a)) (lift set_creating w r)
  lift-Draft w l r h = record {
    visited =
        Every-map (Draft J) (set_creating w) r.trace
          (Every-mono J _ (Draft-in w l J) r.trace h.visited);
    ended = go r.outcome h.ended;
  }
    where
      go : (o : Option A) → Post Q o r.state → Post (λ a. Draft (Q a)) o (set_creating w r.state)
      go none e = absurd e
      go (some a) e = Draft-in w l (Q a) r.state e

  pub in_creating-Draft :
      (m : Program Directory A) (w : World) (l : Draft J w)
      → Keeps J Q (m l.directory)
      → Keeps (Draft J) (λ a. Draft (Q a)) (in_creating m w)
  unfolding in_creating in_creating_of
  in_creating-Draft m w l h =
      subst (λ o. Keeps (Draft J) (λ a. Draft (Q a)) (in_creating_of m o w)) (sym l.present)
        (lift-Draft w l (m l.directory) h)

pub mark-Draft :
    (J : Directory → Type 0) (k : Kind) (w : World)
    → Draft J w
    → Keeps (Draft J) (λ _. Draft J) (mark true k w)
mark-Draft J k w l = mark-keeping (Draft J) k w (l.markers k) l (record {
  rooted = l.rooted;
  markers = markers-set k w l.markers;
  absent = l.absent;
  directory = l.directory;
  present = l.present;
  holds = l.holds;
})
