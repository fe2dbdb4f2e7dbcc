-- ===== src/Apps/Steps.antt =====
-- The single writes of a publication, on the directory of its application.
use dragontools.Common.{
  ◌≡◌, refl, subst, inl, inr, true, false, Option, none, Text, arith, Bool-cases, starts_with,
  if◌then◌else◌,
}
use dragontools.Apps.Renderer.{Renderer, Kind, Documents, document, IsSized}
use dragontools.Apps.Namespace.{Node, Slot, Directory, same_kind, put}
use dragontools.Runs.{Keeps, Keeps-mono}
use dragontools.Apps.Atomic.{atomic-Keeps}
use dragontools.Apps.Publish.{atomic, stage, publish_slot}
use dragontools.Apps.States.{
  Status, written, stale, either, Written, Stale, DocumentAt, Generation, Moving, Transit,
}

same_kind_eq : (j k : Kind) → same_kind j k ≡ true → j ≡ k
same_kind_eq j k h = ground arith

same_kind_refl : (k : Kind) → same_kind k k ≡ true
same_kind_refl k = ground arith

abbrev pub also : Kind → (Kind → Status) → Kind → Status
also k done j = if same_kind k j then written else done j

pub DocumentAt-frame :
    (f : Status) (old docs : Documents) (k : Kind) (d e : Directory)
    → e.file (Slot.document k) ≡ d.file (Slot.document k)
    → e.next (Slot.document k) ≡ d.next (Slot.document k)
    → DocumentAt f old docs k d
    → DocumentAt f old docs k e
DocumentAt-frame written old docs k d e p q h = rw (p, q) h
DocumentAt-frame stale old docs k d e p q h = rw (p, q) h
DocumentAt-frame either old docs k d e p q h = rw (p, q) h

pub DocumentAt-weaken :
    (f : Status) (old docs : Documents) (k : Kind) (d : Directory)
    → DocumentAt f old docs k d
    → DocumentAt either old docs k d
DocumentAt-weaken written old docs k d h = inl h
DocumentAt-weaken stale old docs k d h = inr h
DocumentAt-weaken either old docs k d h = h

module _ (R : Renderer) {c : R.Config} where
  pub Moving-weaken :
      {done : Kind → Status} {old g : Generation R c} {d : Directory}
      → Moving R done old g d
      → Transit R old g d
  Moving-weaken {done} {old} {g} {d} v = record {
    open_directory = v.open_directory;
    current = v.current;
    at = λ k. DocumentAt-weaken (done k) old.docs g.docs k d (v.at k);
    staged_manifest = v.staged_manifest;
  }

put_self :
    (f : Slot → Option Node) (k : Kind) (n : Option Node)
    → put f (Slot.document k) n (Slot.document k) ≡ n
put_self f k n = rw (same_kind_refl k)

put_other :
    (f : Slot → Option Node) (j k : Kind) (n : Option Node)
    → same_kind k j ≡ false
    → put f (Slot.document k) n (Slot.document j) ≡ f (Slot.document j)
put_other f j k n h = rw h

-- A document is being written over a stale one.
stage-DocumentAt :
    (done : Status) (old docs : Documents) (j k : Kind) (d : Directory) (p : Text)
    → DocumentAt done old docs j d
    → Stale old docs k d
    → starts_with (document k docs) p ≡ true
    → DocumentAt either old docs j (stage (Slot.document k) true p d)
stage-DocumentAt done old docs j k d p at (ne, file, next) h = elim (Bool-cases (same_kind k j)) [
  | inl same ↦
      subst (λ i. DocumentAt either old docs i (stage (Slot.document k) true p d))
        (same_kind_eq k j same) (inr (ne, file, inr (p, h, put_self d.next k _)))
  | inr other ↦
      DocumentAt-frame either old docs j d (stage (Slot.document k) true p d) refl
        (put_other d.next j k _ other) (DocumentAt-weaken done old docs j d at)
]

-- A document has been written.
publish-DocumentAt :
    (done : Kind → Status) (old docs : Documents) (j k : Kind) (d : Directory)
    → DocumentAt (done j) old docs j d
    → DocumentAt (also k done j) old docs j (publish_slot (Slot.document k) (document k docs) d)
publish-DocumentAt done old docs j k d at = elim (Bool-cases (same_kind k j)) [
  | inl same ↦ rw same (
      subst (λ i. Written docs i (publish_slot (Slot.document k) (document k docs) d))
        (same_kind_eq k j same) (put_self d.file k _, put_self d.next k none))
  | inr other ↦ rw other (
      DocumentAt-frame (done j) old docs j d (publish_slot (Slot.document k) (document k docs) d)
        (put_other d.file j k _ other) (put_other d.next j k none other) at)
]

module _ (R : Renderer) (sized : IsSized R) {c : R.Config} where
  -- While a stale document is written, the transition stays one, and it ends with the document.
  pub write_document :
      (k : Kind) (done : Kind → Status) (old g : Generation R c) (d : Directory)
      → Moving R done old g d
      → Stale old.docs g.docs k d
      → Keeps
          (Transit R old g)
          (λ _ e. Moving R (also k done) old g e)
          (atomic true (Slot.document k) (document k g.docs) d)
  write_document k done old g d v gone =
      let published : Moving R (also k done) old g
          (publish_slot (Slot.document k) (document k g.docs) d) =
        record {
          open_directory = v.open_directory;
          current = v.current;
          at = λ j. publish-DocumentAt done old.docs g.docs j k d (v.at j);
          staged_manifest = v.staged_manifest;
        } in
      Keeps-mono _ _ _ _
        (atomic-Keeps (Slot.document k) (document k g.docs) d (Transit R old g)
          (sized.documents_fit g.config g.docs k g.generated) gone.2
          (λ p h. record {
            open_directory = v.open_directory;
            current = v.current;
            at = λ j. stage-DocumentAt (done j) old.docs g.docs j k d p (v.at j) gone h;
            staged_manifest = v.staged_manifest;
          })
          (Moving-weaken R published))
        (λ _ e p. rw p published)

  -- A document that is in place already.
  pub keep_document :
      (k : Kind) (done : Kind → Status) (old g : Generation R c) (d : Directory)
      → Moving R done old g d
      → Written g.docs k d
      → Moving R (also k done) old g d
  keep_document k done old g d v kept = record {
    open_directory = v.open_directory;
    current = v.current;
    at = λ j. elim (Bool-cases (same_kind k j)) [
      | inl same ↦ rw same (subst (λ i. Written g.docs i d) (same_kind_eq k j same) kept)
      | inr other ↦ rw other (v.at j)
    ];
    staged_manifest = v.staged_manifest;
  }
