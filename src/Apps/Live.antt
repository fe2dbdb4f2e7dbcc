-- ===== src/Apps/Live.antt =====
-- From the directory of an application to all files of its registration.
use dragontools.Common.{
  ◌≡◌, refl, sym, subst, ◌⊎◌, inl, inr, Bool, true, Option, none, some, [], Every-map, Every-mono,
  Bool-cases,
}
use dragontools.Apps.Renderer.{Kind}
use dragontools.Apps.Namespace.{Node, readable, Directory, World, same_kind}
use dragontools.Runs.{Run, Program, Keeps, Post, pure}
use dragontools.Apps.Atomic.{whole}
use dragontools.Apps.Publish.{
  in_app, in_app_of, lift, set_app, set_pending, mark, mark_over, ensure_root, ensure_root_over,
}

-- A marker is absent, or an empty file of this program.
abbrev pub MarkerOk : Option Node → Type 0
MarkerOk n = (n ≡ none) ⊎ (n ≡ some (whole []))

-- The registration exists, its markers are sound, and its directory satisfies `J`.
pub record Live (J : Directory → Type 0) (w : World) : Type 0 where
  pub rooted : w.root ≡ some true
  pub markers : (k : Kind) → MarkerOk (w.pending k)
  pub directory : Directory
  pub present : w.app ≡ some directory
  pub holds : J directory

pub Live-with : (J J' : Directory → Type 0) (w : World) (l : Live J w) → J' l.directory → Live J' w
Live-with J J' w l h = record {
  rooted = l.rooted;
  markers = l.markers;
  directory = l.directory;
  present = l.present;
  holds = h;
}

pub Live-map :
    (J J' : Directory → Type 0)
    → ((d : Directory) → J d → J' d)
    → (w : World) → Live J w
    → Live J' w
Live-map J J' f w l = Live-with J J' w l (f l.directory l.holds)

module _ {A : Type 0} (J : Directory → Type 0) (Q : A → Directory → Type 0) where
  lift-Keeps :
      (w : World) (r : Run Directory A)
      → w.root ≡ some true
      → ((k : Kind) → MarkerOk (w.pending k))
      → Keeps J Q r
      → Keeps (Live J) (λ a. Live (Q a)) (lift set_app w r)
  lift-Keeps w r rooted markers h = record {
    visited = Every-map (Live J) (set_app w) r.trace (Every-mono J _ at r.trace h.visited);
    ended = go r.outcome h.ended;
  }
    where
      at : (e : Directory) → J e → Live J (set_app w e)
      at e j = record {
        rooted = rooted;
        markers = markers;
        directory = e;
        present = refl;
        holds = j;
      }

      go : (o : Option A) → Post Q o r.state → Post (λ a. Live (Q a)) o (set_app w r.state)
      go none e = absurd e
      go (some a) e = record {
        rooted = rooted;
        markers = markers;
        directory = r.state;
        present = refl;
        holds = e;
      }

  pub in_app-Keeps :
      (m : Program Directory A) (w : World) {P : Directory → Type 0}
      → Live P w
      → ((d : Directory) → P d → Keeps J Q (m d))
      → Keeps (Live J) (λ a. Live (Q a)) (in_app m w)
  unfolding in_app in_app_of
  in_app-Keeps m w l h =
      subst (λ o. Keeps (Live J) (λ a. Live (Q a)) (in_app_of m o w)) (sym l.present)
        (lift-Keeps w (m l.directory) l.rooted l.markers (h l.directory l.holds))

-- A mark keeps what does not depend on the marker.
module _ (P : World → Type 0) where
  mark_over-keeping :
      (k : Kind) (w : World) (n : Option Node)
      → MarkerOk n
      → P w
      → P (set_pending w k true)
      → Keeps P (λ _. P) (mark_over true k n w)
  unfolding mark_over readable
  mark_over-keeping k w n (inl e) p q = rw e (record { visited = (q, (q, tt)); ended = q })
  mark_over-keeping k w n (inr e) p q = rw e (record { visited = tt; ended = p })

  pub mark-keeping :
      (k : Kind) (w : World)
      → MarkerOk (w.pending k)
      → P w
      → P (set_pending w k true)
      → Keeps P (λ _. P) (mark true k w)
  unfolding mark
  mark-keeping k w = mark_over-keeping k w (w.pending k)

pub markers-set :
    (k : Kind) (w : World)
    → ((j : Kind) → MarkerOk (w.pending j))
    → (j : Kind) → MarkerOk ((set_pending w k true).pending j)
markers-set k w h j = elim (Bool-cases (same_kind k j)) [
  | inl same ↦ rw same (inr refl)
  | inr other ↦ rw other (h j)
]

module _ (J : Directory → Type 0) where
  marked : (k : Kind) (w : World) → Live J w → Live J (set_pending w k true)
  marked k w l = record {
    rooted = l.rooted;
    markers = markers-set k w l.markers;
    directory = l.directory;
    present = l.present;
    holds = l.holds;
  }

  pub mark-Keeps : (k : Kind) (w : World) → Live J w → Keeps (Live J) (λ _. Live J) (mark true k w)
  mark-Keeps k w l = mark-keeping (Live J) k w (l.markers k) l (marked k w l)

-- There is nothing to do where the root exists.
pub ensure_root-eq : (b : Bool) (w : World) → w.root ≡ some true → ensure_root b w ≡ pure tt w
unfolding ensure_root ensure_root_over
ensure_root-eq b w e = subst (λ o. ensure_root_over b o w ≡ pure tt w) (sym e) refl
