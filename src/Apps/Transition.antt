-- ===== src/Apps/Transition.antt =====
-- The program of `app_publish` of src/monitoring/apps/station_mutate.py from one generation to the
-- next.
use dragontools.Common.{
  ◌≡◌, refl, subst, ap, ◌∙◌, inl, inr, Bool, true, Option, none, some, Bool-cases, list_eq, nat_eq,
  ==-refl, ==-ne,
}
use dragontools.Apps.Renderer.{
  Renderer, Kind, logs, metrics, scrape, Documents, document, manifest_text, IsSized,
}
use dragontools.Apps.Namespace.{Node, Slot, manifest, Directory, World}
use dragontools.Runs.{Program, Passes, Passes-then, Keeps, Keeps-weaken, ◌>>◌}
use dragontools.Apps.Atomic.{readable-whole}
use dragontools.Apps.Publish.{
  Host, in_app, mark, refresh, refresh_over, complete, save_all, save_if, mark_all, mark_if,
  differs, file_of, atomic,
}
use dragontools.Apps.States.{
  Status, written, stale, either, Stale, DocumentAt, Generation, Settled, Moving, Transit, Complete,
  Recoverable, moving, manifest_of,
}
use dragontools.Apps.Steps.{also, DocumentAt-weaken, write_document, keep_document, Moving-weaken}
use dragontools.Apps.Manifests.{
  candidate, first_status, unchanged_document, end_transition, begin_transition,
}
use dragontools.Apps.Live.{Live, Live-map, Live-with, in_app-Keeps, mark-Keeps}

module _ (R : Renderer) (sized : IsSized R) (host : Host) (keeps : host.keeps_modes ≡ true)
    (c : R.Config) (docs : Documents) (generated : R.documents c ≡ some docs) where
  abbrev pub LiveRecoverable : World → Type 0
  LiveRecoverable = Live (Recoverable R c docs)

  -- A step from `P` to `Q` on the way.
  abbrev pub Moves : (World → Type 0) → (World → Type 0) → Program World (Unit {0}) → Type 0
  Moves P Q = Passes LiveRecoverable P (λ _. Q)

  Moves-then :
      (P Q T : World → Type 0) (m k : Program World (Unit {0}))
      → Moves P Q m
      → Moves Q T k
      → Moves P T (m >> k)
  Moves-then P Q T = Passes-then LiveRecoverable P Q (λ _. T)

  -- The same for a program with a result.
  abbrev pub Ends : (World → Type 0) → (Bool → World → Type 0) → Program World Bool → Type 0
  Ends = Passes LiveRecoverable

  pub Ends-then :
      (P Q : World → Type 0) (T : Bool → World → Type 0)
      → (m : Program World (Unit {0})) (k : Program World Bool) → Moves P Q m
      → Ends Q T k
      → Ends P T (m >> k)
  Ends-then = Passes-then LiveRecoverable

  abbrev pub AtStatus : (Kind → Status) → (old g : Generation R c) → World → Type 0
  AtStatus done old g = Live (Moving R done old g)

  mark-Moves :
      (J : Directory → Type 0)
      → ((d : Directory) → J d → Recoverable R c docs d)
      → (k : Kind) → Moves (Live J) (Live J) (mark host.keeps_modes k)
  mark-Moves J f k w l = rw keeps (
      Keeps-weaken (Live J) LiveRecoverable (λ _. Live J) (mark true k w) (Live-map J _ f)
        (mark-Keeps J k w l))

  abbrev StaleAt : Kind → (Kind → Status) → (old g : Generation R c) → Directory → Type 0
  StaleAt k done old g d = Moving R done old g d × Stale old.docs g.docs k d

  stale-recoverable :
      (k : Kind) (done : Kind → Status) (old g : Generation R c) (d : Directory)
      → StaleAt k done old g d
      → Recoverable R c docs d
  stale-recoverable k done old g d h = moving old g (Moving-weaken R h.0)

  save-Moves :
      (k : Kind) (done : Kind → Status) (old g : Generation R c)
      → Moves
          (Live (StaleAt k done old g))
          (AtStatus (also k done) old g)
          (in_app (atomic host.keeps_modes (Slot.document k) (document k g.docs)))
  save-Moves k done old g w l = rw keeps (
      Keeps-weaken (Live (Transit R old g)) LiveRecoverable (λ _. AtStatus (also k done) old g) _
        (Live-map _ _ (λ d. moving old g))
        (in_app-Keeps (Transit R old g) (λ _. Moving R (also k done) old g) _ w l
          (λ d h. write_document R sized k done old g d h.0 h.1)))

  -- The two writes that replace a stale document.
  replace-Moves :
      (k : Kind) (done : Kind → Status) (old g : Generation R c)
      → Moves (Live (StaleAt k done old g)) (AtStatus (also k done) old g) (
          mark host.keeps_modes k
          >> in_app (atomic host.keeps_modes (Slot.document k) (document k g.docs)))
  replace-Moves k done old g =
      Moves-then _ _ _ (mark host.keeps_modes k) _
        (mark-Moves (StaleAt k done old g) (stale-recoverable k done old g) k)
        (save-Moves k done old g)

  refresh_over-Keeps :
      (k : Kind) (done : Kind → Status) (old g : Generation R c) (w : World)
      (l : AtStatus done old g w)
      → (n : Option Node) → n ≡ l.directory.file (Slot.document k)
      → DocumentAt either old.docs g.docs k l.directory
      → Keeps LiveRecoverable
          (λ _. AtStatus (also k done) old g)
          (refresh_over R host k (document k g.docs) n w)
  unfolding refresh_over
  refresh_over-Keeps k done old g w l n e (inl (file, next)) =
      rw
        (
          e,
          file,
          readable-whole _ (sized.documents_fit g.config g.docs k g.generated),
          ==-refl (document k g.docs),
        )
        (record {
          visited = tt;
          ended =
              Live-with _ _ w l
                (keep_document R sized k done old g l.directory l.holds (file, next));
        })
  refresh_over-Keeps k done old g w l n e (inr (ne, file, next)) =
      rw
        (
          e,
          file,
          readable-whole _ (sized.documents_fit old.config old.docs k old.generated),
          ==-ne (document k old.docs) (document k g.docs) ne,
        )
        (replace-Moves k done old g w (Live-with _ _ w l (l.holds, (ne, file, next))))

  refresh-Moves :
      (k : Kind) (done : Kind → Status) (old g : Generation R c)
      → Moves (AtStatus done old g) (AtStatus (also k done) old g) (refresh R host g.docs k)
  unfolding refresh
  refresh-Moves k done old g w l =
      refresh_over-Keeps k done old g w l _ (ap (file_of R host (Slot.document k)) l.present)
        (DocumentAt-weaken (done k) old.docs g.docs k l.directory (l.holds.at k))

  abbrev pub all_written : Kind → Status
  all_written = also scrape (also metrics (also logs (λ _. either)))

  all_written-eq : (k : Kind) → all_written k ≡ written
  all_written-eq logs = refl
  all_written-eq metrics = refl
  all_written-eq scrape = refl

  pub end-Moves :
      (done : Kind → Status) (old g : Generation R c)
      → ((k : Kind) → done k ≡ written)
      → Moves
          (AtStatus done old g)
          (Live (Complete R g))
          (in_app (atomic host.keeps_modes manifest (manifest_of R g none)))
  end-Moves done old g all w l = rw keeps (
      in_app-Keeps (Recoverable R c docs) (λ _. Complete R g) _ w l
        (λ d h. end_transition R sized docs generated done old g d all h))

  -- An interrupted transition is completed.
  pub complete-Moves :
      (old g : Generation R c)
      → Moves (Live (Transit R old g)) (Live (Complete R g)) (complete R host g.config g.docs)
  unfolding complete
  complete-Moves old g =
      let none_done : Kind → Status = λ _. either in
      Moves-then _ _ _ _ _ (refresh-Moves logs none_done old g) (
        Moves-then _ _ _ _ _ (refresh-Moves metrics (also logs none_done) old g) (
          Moves-then _ _ _ _ _ (refresh-Moves scrape (also metrics (also logs none_done)) old g)
            (end-Moves all_written old g all_written-eq)))

  mark_if-Moves :
      (J : Directory → Type 0)
      → ((d : Directory) → J d → Recoverable R c docs d)
      → (p : Kind → Bool) (k : Kind) → Moves (Live J) (Live J) (mark_if R host p k)
  mark_if-Moves J f p k w l = elim (Bool-cases (p k)) [
    | inl on ↦ rw on (mark-Moves J f k w l)
    | inr off ↦ rw off (record { visited = tt; ended = l })
  ]

  pub mark_all-Moves :
      (J : Directory → Type 0)
      → ((d : Directory) → J d → Recoverable R c docs d)
      → (p : Kind → Bool) → Moves (Live J) (Live J) (mark_all R host p)
  unfolding mark_all
  mark_all-Moves J f p =
      Moves-then _ _ _ _ _ (mark_if-Moves J f p logs)
        (Moves-then _ _ _ _ _ (mark_if-Moves J f p metrics) (mark_if-Moves J f p scrape))

  abbrev pub Begun : Generation R c → Directory → Type 0
  Begun old = Settled R old (manifest_text R c (some old.config) docs)

  abbrev pub next_generation : Generation R c
  next_generation = candidate R sized docs generated

  pub begin-Moves :
      (old : Generation R c)
      → Moves (Live (Begun old)) (AtStatus (first_status old.docs docs) old next_generation) (
          in_app
            (atomic host.keeps_modes manifest (manifest_of R next_generation (some old.config))))
  begin-Moves old w l = rw keeps (
      in_app-Keeps (Recoverable R c docs)
        (λ _. Moving R (first_status old.docs docs) old next_generation) _ w l
        (λ d h. begin_transition R sized docs generated old d h))

  save_if-Moves :
      (k : Kind) (done : Kind → Status) (old : Generation R c)
      → done k ≡ first_status old.docs docs k
      → Moves
          (AtStatus done old next_generation)
          (AtStatus (also k done) old next_generation)
          (save_if R host (differs R host old.docs docs) docs k)
  save_if-Moves k done old e w l = elim (Bool-cases (unchanged_document old.docs docs k)) [
    | inl same ↦ rw same (record {
      visited = tt;
      ended = Live-with _ _ w l (
          keep_document R sized k done old next_generation l.directory l.holds (
            subst (λ f. DocumentAt f old.docs docs k l.directory) {y = written} (e ∙ rw same)
              (l.holds.at k)));
    })
    | inr new ↦ rw new (
        save-Moves k done old next_generation w (
          Live-with _ _ w l (
            l.holds,
            subst (λ f. DocumentAt f old.docs docs k l.directory) {y = stale} (e ∙ rw new)
                (l.holds.at k),
          )))
  ]

  pub save_all-Moves :
      (old : Generation R c)
      → let first = first_status old.docs docs in
        Moves
          (AtStatus first old next_generation)
          (AtStatus (also scrape (also metrics (also logs first))) old next_generation)
          (save_all R host (differs R host old.docs docs) docs)
  unfolding save_all
  save_all-Moves old =
      let first = first_status old.docs docs in
      Moves-then _ _ _ _ _ (save_if-Moves logs first old refl) (
        Moves-then _ _ _ _ _ (save_if-Moves metrics (also logs first) old refl)
          (save_if-Moves scrape (also metrics (also logs first)) old refl))
