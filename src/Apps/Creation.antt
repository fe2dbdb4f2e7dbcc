-- ===== src/Apps/Creation.antt =====
-- The first generation of an application, which is written into a staging directory.
use dragontools.Common.{
  ◌≡◌, refl, sym, subst, inl, inr, Bool, true, false, Option, none, some, Text, arith, Bool-cases,
  ◌≤◌, length, starts_with, if◌then◌else◌,
}
use dragontools.Apps.Renderer.{
  Renderer, logs, metrics, scrape, Documents, document, manifest_text, IsSized, max_bytes,
}
use dragontools.Apps.Namespace.{Node, Slot, manifest, Directory, same_slot}
use dragontools.Runs.{Program, Keeps, Keeps-bind, Keeps-mono, ◌>>◌}
use dragontools.Apps.Atomic.{whole, Partial, atomic-Keeps, starts_with_refl, readable-prefix}
use dragontools.Apps.Publish.{
  Host, atomic, stage, publish_slot, slot_text, fill, empty_directory, begins, slot_begins,
  staging_ok,
}
use dragontools.Apps.States.{IsOpen, Complete}

-- A slot of the staging directory: written whole, or in part.
abbrev SlotAt : Bool → Text → Slot → Directory → Type 0
SlotAt true t s d = (d.file s ≡ some (whole t)) × (d.next s ≡ none)
SlotAt false t s d = Partial t (d.file s) × Partial t (d.next s)

SlotAt-frame :
    (f : Bool) (t : Text) (s : Slot) (d e : Directory)
    → e.file s ≡ d.file s
    → e.next s ≡ d.next s
    → SlotAt f t s d
    → SlotAt f t s e
SlotAt-frame true t s d e p q h = rw (p, q) h
SlotAt-frame false t s d e p q h = rw (p, q) h

SlotAt-weaken :
    (f : Bool) (t : Text) (s : Slot) (d : Directory) → SlotAt f t s d → SlotAt false t s d
SlotAt-weaken true t s d (file, next) = (inr (t, starts_with_refl t, file), inl next)
SlotAt-weaken false t s d h = h

same_slot_eq : (s t : Slot) → same_slot s t ≡ true → s ≡ t
same_slot_eq s t h = ground arith

same_slot_refl : (s : Slot) → same_slot s s ≡ true
same_slot_refl s = ground arith

abbrev also_slot : Slot → (Slot → Bool) → Slot → Bool
also_slot s filled t = if same_slot s t then true else filled t

module _ (R : Renderer) (host : Host) (c : R.Config) (docs : Documents) where
  abbrev text_at : Slot → Text
  text_at = slot_text R host c none docs

  pub record Staging (filled : Slot → Bool) (d : Directory) : Type 0 where
    pub open_directory : IsOpen d
    pub at : (s : Slot) → SlotAt (filled s) (text_at s) s d

  abbrev pub Begun : Directory → Type 0
  Begun = Staging (λ _. false)

  pub empty-Begun : Begun (empty_directory true)
  empty-Begun = record { open_directory = (refl, refl); at = λ s. (inl refl, inl refl) }

  Staging-weaken : {filled : Slot → Bool} {d : Directory} → Staging filled d → Begun d
  Staging-weaken {filled} {d} v = record {
    open_directory = v.open_directory;
    at = λ s. SlotAt-weaken (filled s) (text_at s) s d (v.at s);
  }

  stage-SlotAt :
      (f : Bool) (s t : Slot) (d : Directory) (p : Text)
      → SlotAt f (text_at t) t d
      → Partial (text_at s) (d.file s)
      → starts_with (text_at s) p ≡ true
      → SlotAt false (text_at t) t (stage s true p d)
  stage-SlotAt f s t d p at file h = elim (Bool-cases (same_slot s t)) [
    | inl same ↦
        subst (λ u. SlotAt false (text_at u) u (stage s true p d)) (same_slot_eq s t same)
          (file, inr (p, h, rw (same_slot_refl s)))
    | inr other ↦
        SlotAt-frame false (text_at t) t d (stage s true p d) refl (rw other)
          (SlotAt-weaken f (text_at t) t d at)
  ]

  publish-SlotAt :
      (filled : Slot → Bool) (s t : Slot) (d : Directory)
      → SlotAt (filled t) (text_at t) t d
      → SlotAt (also_slot s filled t) (text_at t) t (publish_slot s (text_at s) d)
  publish-SlotAt filled s t d at = elim (Bool-cases (same_slot s t)) [
    | inl same ↦ rw same (
        subst (λ u. SlotAt true (text_at u) u (publish_slot s (text_at s) d))
          (same_slot_eq s t same) (rw (same_slot_refl s), rw (same_slot_refl s)))
    | inr other ↦ rw other (
        SlotAt-frame (filled t) (text_at t) t d (publish_slot s (text_at s) d) (rw other) (rw other)
          at)
  ]

  save_slot :
      (s : Slot) (filled : Slot → Bool) (d : Directory)
      → length (text_at s) ≤ max_bytes
      → Staging filled d
      → Keeps Begun (λ _. Staging (also_slot s filled)) (atomic true s (text_at s) d)
  save_slot s filled d fits v =
      let published : Staging (also_slot s filled) (publish_slot s (text_at s) d) = record {
        open_directory = v.open_directory;
        at = λ t. publish-SlotAt filled s t d (v.at t);
      } in
      let begun : Begun d = Staging-weaken v in
      Keeps-mono _ _ _ _
        (atomic-Keeps s (text_at s) d Begun fits (begun.at s).1
          (λ p h. record {
            open_directory = v.open_directory;
            at = λ t. stage-SlotAt (filled t) s t d p (v.at t) (begun.at s).0 h;
          })
          (Staging-weaken published))
        (λ _ e p. rw p published)

module _ (R : Renderer) (sized : IsSized R) (host : Host) (keeps : host.keeps_modes ≡ true)
    (c : R.Config) (docs : Documents) (generated : R.documents c ≡ some docs) where
  fits_at : (s : Slot) → length (slot_text R host c none docs s) ≤ max_bytes
  fits_at (Slot.document k) = sized.documents_fit c docs k generated
  fits_at manifest = sized.manifests_fit c none docs generated

  abbrev Fills : (Slot → Bool) → (Slot → Bool) → Program Directory (Unit {0}) → Type 0
  Fills f g m =
      (d : Directory)
      → Staging R host c docs f d
      → Keeps (Begun R host c docs) (λ _. Staging R host c docs g) (m d)

  save_slot-Fills :
      (s : Slot) (filled : Slot → Bool)
      → Fills filled
          (also_slot s filled)
          (atomic host.keeps_modes s (slot_text R host c none docs s))
  save_slot-Fills s filled d v =
      subst
        (λ b.
          Keeps (Begun R host c docs) (λ _. Staging R host c docs (also_slot s filled))
            (atomic b s (slot_text R host c none docs s) d))
        (sym keeps) (save_slot R host c docs s filled d (fits_at s) v)

  Fills-then :
      (f g h : Slot → Bool) (m k : Program Directory (Unit {0}))
      → Fills f g m
      → Fills g h k
      → Fills f h (m >> k)
  Fills-then f g h m k a b d v = Keeps-bind _ _ _ m (λ _. k) d (a d v) (λ _ e q. b e q)

  abbrev all_slots : Slot → Bool
  all_slots = also_slot manifest (
      also_slot (Slot.document scrape)
        (also_slot (Slot.document metrics) (also_slot (Slot.document logs) (λ _. false))))

  fill-Fills : Fills (λ _. false) all_slots (fill R host c docs)
  unfolding fill
  fill-Fills = Fills-then _ _ _ _ _ (save_slot-Fills (Slot.document logs) _) (
      Fills-then _ _ _ _ _ (save_slot-Fills (Slot.document metrics) _) (
        Fills-then _ _ _ _ _ (save_slot-Fills (Slot.document scrape) _)
          (save_slot-Fills manifest _)))

  -- The directory that is renamed into place is complete.
  filled-Complete :
      (d : Directory)
      → Staging R host c docs all_slots d
      → Complete R {c = c}
          (record { config = c; docs = docs; generated = generated; identical = refl })
          d
  filled-Complete d v = (
    (v.at manifest).1,
    record {
      open_directory = v.open_directory;
      current = (v.at manifest).0;
      at = elim [
        | logs ↦ v.at (Slot.document logs)
        | metrics ↦ v.at (Slot.document metrics)
        | scrape ↦ v.at (Slot.document scrape)
      ];
      staged_manifest = inl (v.at manifest).1;
    },
  )

  pub Complete-Begun :
      (d : Directory)
      → Complete R {c = c}
          (record { config = c; docs = docs; generated = generated; identical = refl })
          d
      → Begun R host c docs d
  Complete-Begun d (next, v) = record {
    open_directory = v.open_directory;
    at = elim [
      | Slot.document k ↦ SlotAt-weaken true (document k docs) (Slot.document k) d (v.at k)
      | manifest ↦ SlotAt-weaken true (manifest_text R c none docs) manifest d (v.current, next)
    ];
  }

  pub fill-Keeps :
      (d : Directory)
      → Begun R host c docs d
      → Keeps
          (Begun R host c docs)
          (λ _.
            Complete R {c = c}
              (record { config = c; docs = docs; generated = generated; identical = refl }))
          (fill R host c docs d)
  fill-Keeps d v = Keeps-mono _ _ _ _ (fill-Fills d v) (λ _ e h. filled-Complete e h)

  begins-Partial :
      (t : Text) (n : Option Node) → length t ≤ max_bytes → Partial t n → begins t n ≡ true
  begins-Partial t n fits (inl e) = rw e
  begins-Partial t n fits (inr (p, h, e)) = rw (e, readable-prefix t p fits h, h)

  slot_begins-Begun :
      (d : Directory) → Begun R host c docs d → (s : Slot) → slot_begins R host c docs d s ≡ true
  slot_begins-Begun d v s = rw (
    begins-Partial (slot_text R host c none docs s) (d.file s) (fits_at s) (v.at s).0,
    begins-Partial (slot_text R host c none docs s) (d.next s) (fits_at s) (v.at s).1,
  )

  -- What an interrupted run has staged is taken up.
  pub Begun-staging_ok : (d : Directory) → Begun R host c docs d → staging_ok R host c docs d ≡ true
  unfolding staging_ok
  Begun-staging_ok d v = ground (
    arith,
    v.open_directory,
    slot_begins-Begun d v manifest,
    slot_begins-Begun d v (Slot.document logs),
    slot_begins-Begun d v (Slot.document metrics),
    slot_begins-Begun d v (Slot.document scrape),
  )
