-- ===== src/Apps/Manifests.antt =====
-- The writes of the manifest: they begin a transition and they end it.
use dragontools.Common.{
  ◌≡◌, ◌≢◌, refl, subst, inl, inr, Bool, true, false, none, some, Text, Bool-cases, if◌then◌else◌,
  ◌==◌, list_eq, nat_eq, list_beq_iff,
}
use dragontools.Apps.Renderer.{Renderer, Kind, Documents, document, manifest_text, IsSized}
use dragontools.Apps.Namespace.{manifest, Directory}
use dragontools.Runs.{Keeps, Keeps-mono}
use dragontools.Apps.Atomic.{atomic-Keeps}
use dragontools.Apps.Publish.{atomic, publish_slot}
use dragontools.Apps.States.{
  Status, written, stale, Written, DocumentAt, Generation, Settled, Moving, Complete, Recoverable,
  settled, moving, manifest_of,
}
use dragontools.Apps.Steps.{DocumentAt-frame, Moving-weaken}

abbrev pub unchanged_document : Documents → Documents → Kind → Bool
unchanged_document old docs k = document k old == document k docs

-- What is known of a document when a transition begins.
abbrev pub first_status : Documents → Documents → Kind → Status
first_status old docs k = if unchanged_document old docs k then written else stale

differ :
    (old docs : Documents) (k : Kind)
    → unchanged_document old docs k ≡ false
    → document k old ≢ document k docs
differ old docs k new e = cc ((list_beq_iff (document k old) (document k docs)).1 e)

-- With every file of the old generation in place, each is of the new one already or stale.
Written-DocumentAt :
    (old docs : Documents) (k : Kind) (d : Directory)
    → Written old k d
    → DocumentAt (first_status old docs k) old docs k d
Written-DocumentAt old docs k d (file, next) = elim (Bool-cases (unchanged_document old docs k)) [
  | inl same ↦ rw same (rw (← (list_beq_iff (document k old) (document k docs)).0 same) file, next)
  | inr new ↦ rw new (λ e. differ old docs k new e, file, inl next)
]

module _ (R : Renderer) {c : R.Config} where
  pub Complete-Settled :
      {g : Generation R c} (staged : Text) {d : Directory} → Complete R g d → Settled R g staged d
  Complete-Settled staged (next, v) = record {
    open_directory = v.open_directory;
    current = v.current;
    at = v.at;
    staged_manifest = inl next;
  }

  -- All documents are written, and the last manifest has been renamed into place.
  Moving-Complete :
      (done : Kind → Status) (old g : Generation R c) (d : Directory)
      → ((k : Kind) → done k ≡ written)
      → Moving R done old g d
      → Complete R g (publish_slot manifest (manifest_of R g none) d)
  Moving-Complete done old g d all v = (
    refl,
    record {
      open_directory = v.open_directory;
      current = refl;
      at = λ k. subst (λ f. DocumentAt f old.docs g.docs k d) (all k) (v.at k);
      staged_manifest = inl refl;
    },
  )

  module _ (sized : IsSized R) (docs : Documents) (generated : R.documents c ≡ some docs) where
    abbrev pub candidate : Generation R c
    candidate = record { config = c; docs = docs; generated = generated; identical = refl }

    pub end_transition :
        (done : Kind → Status) (old g : Generation R c) (d : Directory)
        → ((k : Kind) → done k ≡ written)
        → Moving R done old g d
        → Keeps
            (Recoverable R c docs)
            (λ _ e. Complete R g e)
            (atomic true manifest (manifest_of R g none) d)
    end_transition done old g d all v =
        let complete : Complete R g (publish_slot manifest (manifest_of R g none) d) =
          Moving-Complete done old g d all v in
        let w = Moving-weaken R v in
        Keeps-mono _ _ _ _
          (atomic-Keeps manifest (manifest_of R g none) d (Recoverable R c docs)
            (sized.manifests_fit g.config none g.docs g.generated) v.staged_manifest
            (λ p h. moving old g (record {
              open_directory = w.open_directory;
              current = w.current;
              at = w.at;
              staged_manifest = inr (p, h, refl);
            }))
            (settled g (Complete-Settled (manifest_text R c (some g.config) docs) complete)))
          (λ _ e p. rw p complete)

    pub begin_transition :
        (old : Generation R c) (d : Directory)
        → Settled R old (manifest_text R c (some old.config) docs) d
        → Keeps
            (Recoverable R c docs)
            (λ _ e. Moving R (first_status old.docs docs) old candidate e)
            (atomic true manifest (manifest_of R candidate (some old.config)) d)
    begin_transition old d v =
        let begun : Moving R (first_status old.docs docs) old candidate
            (publish_slot manifest (manifest_of R candidate (some old.config)) d) =
          record {
            open_directory = v.open_directory;
            current = refl;
            at = λ k.
                DocumentAt-frame (first_status old.docs docs k) old.docs docs k d
                  (publish_slot manifest (manifest_of R candidate (some old.config)) d) refl refl
                  (Written-DocumentAt old.docs docs k d (v.at k));
            staged_manifest = inl refl;
          } in
        Keeps-mono _ _ _ _
          (atomic-Keeps manifest (manifest_of R candidate (some old.config)) d
            (Recoverable R c docs) (sized.manifests_fit c (some old.config) docs generated)
            v.staged_manifest
            (λ p h. settled old (record {
              open_directory = v.open_directory;
              current = v.current;
              at = v.at;
              staged_manifest = inr (p, h, refl);
            }))
            (moving old candidate (Moving-weaken R begun)))
          (λ _ e p. rw p begun)
