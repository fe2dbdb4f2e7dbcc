-- ===== src/Apps/Recheck.antt =====
-- The complete inspection that `app_publish` makes of a registration that is current already.
use dragontools.Common.{
  length, ◌≤◌, ◌≡◌, refl, sym, ap, ◌∙◌, inl, inr, Bool, true, false, Option, none, some, [], ◌∷◌,
  Text, arith, starts_with, Bool-cases,
}
use mathlib.Core.Option.{some-injective}
use dragontools.Apps.Renderer.{
  Renderer, Documents, manifest_for, manifest_text, map_documents, max_bytes, IsSized,
}
use dragontools.Apps.Namespace.{Node, manifest, Directory, World}
use dragontools.Apps.Inspect.{staged_ok, guarded, inspect_directory, inspect}
use dragontools.Apps.Atomic.{whole, Partial, readable-whole, readable-prefix}
use dragontools.Apps.States.{Generation, Settled, manifest_of}
use dragontools.Apps.Live.{Live}
use dragontools.Apps.Accept.{
  document_ok-Written, documents_beq_refl, directory_ok-intro, application_beq,
  inspect_directory-eq,
}

-- The manifest of `c` is in place, and what is staged next to it is not the beginning of the same text.
pub record IsBlocked (R : Renderer) (c : R.Config) (docs : Documents) (w : World) : Type 0 where
  pub directory : Directory
  pub present : w.app ≡ some directory
  pub current : directory.file manifest ≡ some (whole (manifest_text R c none docs))
  pub staged : Text
  pub next : directory.next manifest ≡ some (whole staged)
  pub differs : starts_with (manifest_text R c none docs) staged ≡ false

-- Whether the staged manifest is the beginning of the one in place.
abbrev pub continues : Text → Option Node → Bool
continues t none = true
continues t (some n) = starts_with t n.content

staged_ok-continues :
    (t u : Text) (n : Option Node)
    → length u ≤ max_bytes
    → Partial u n
    → staged_ok (some t ∷ some t ∷ []) n ≡ continues t n
unfolding staged_ok
staged_ok-continues t u n fits (inl e) = rw e
staged_ok-continues t u n fits (inr (p, s, e)) = rw (e, readable-prefix u p fits s) (ground arith)

module _ (R : Renderer) (sized : IsSized R) (c : R.Config) (docs : Documents)
    (generated : R.documents c ≡ some docs) where
  inspect_directory_complete :
      (g : Generation R c) (d : Directory)
      → Settled R g (manifest_text R c (some g.config) docs) d
      → inspect_directory R (R.application c) true none d
        ≡ guarded R
            (continues (manifest_of R g none) (d.next manifest))
            (manifest_for R g.config none g.docs)
  inspect_directory_complete g d v =
      inspect_directory-eq R (R.application c) true none d (manifest_for R g.config none g.docs)
        (manifest_of R g none) g.docs none none v.open_directory.0 v.current
        (readable-whole (manifest_of R g none)
          (sized.manifests_fit g.config none g.docs g.generated))
        (R.decode-encode g.config none g.docs g.generated) g.generated refl refl _
        (directory_ok-intro R (R.application c) true none d (manifest_for R g.config none g.docs)
          g.docs none none (documents_beq_refl (map_documents R.digest g.docs))
          (application_beq R c g) refl v.open_directory.1 refl
          (λ k.
            document_ok-Written true d g.docs none none k
              (sized.documents_fit g.config g.docs k g.generated) (v.at k))
          _
          (staged_ok-continues (manifest_of R g none) (manifest_text R c (some g.config) docs)
            (d.next manifest) (sized.manifests_fit c (some g.config) docs generated)
            v.staged_manifest))

  pub inspect-accepts :
      (g : Generation R c) (w : World)
      → (l : Live (Settled R g (manifest_text R c (some g.config) docs)) w)
      → continues (manifest_of R g none) (l.directory.next manifest) ≡ true
      → inspect R (R.application c) true false none w
        ≡ some (some (manifest_for R g.config none g.docs))
  unfolding inspect
  inspect-accepts g w l e = ground (arith, inspect_directory_complete g l.directory l.holds)

  pub inspect-refuses :
      (g : Generation R c) (w : World)
      → (l : Live (Settled R g (manifest_text R c (some g.config) docs)) w)
      → continues (manifest_of R g none) (l.directory.next manifest) ≡ false
      → inspect R (R.application c) true false none w ≡ none
  unfolding inspect
  inspect-refuses g w l e = ground (arith, inspect_directory_complete g l.directory l.holds)

  Partial-continues :
      (u : Text) (w : World) (d : Directory)
      → w.app ≡ some d
      → d.file manifest ≡ some (whole (manifest_text R c none docs))
      → Partial u (d.next manifest)
      → ¬ IsBlocked R c docs w
      → continues (manifest_text R c none docs) (d.next manifest) ≡ true
  Partial-continues u w d present current (inl e) free = rw e
  Partial-continues u w d present current (inr (p, s, e)) free =
      rw e (elim (Bool-cases (starts_with (manifest_text R c none docs) p)) [
        | inl same ↦ same
        | inr differs ↦ absurd (
            free (record {
              directory = d;
              present = present;
              current = current;
              staged = p;
              next = e;
              differs = differs;
            }))
      ])

  same_docs : (g : Generation R c) → g.config ≡ c → g.docs ≡ docs
  same_docs g e = some-injective _ _ (sym g.generated ∙ ap R.documents e ∙ generated)

  manifest_of-eq :
      (g : Generation R c) → g.config ≡ c → manifest_of R g none ≡ manifest_text R c none docs
  manifest_of-eq g e =
      ap (λ d. R.encode (manifest_for R g.config none d)) (same_docs g e)
      ∙ ap (λ x. manifest_text R x none docs) e

  pub continues-or-blocked :
      (g : Generation R c) (w : World)
      → (l : Live (Settled R g (manifest_text R c (some g.config) docs)) w) → g.config ≡ c
      → ¬ IsBlocked R c docs w
      → continues (manifest_of R g none) (l.directory.next manifest) ≡ true
  continues-or-blocked g w l e free =
      ap (λ t. continues t (l.directory.next manifest)) (manifest_of-eq g e)
      ∙ Partial-continues _ w l.directory l.present
          (l.holds.current ∙ ap (λ t. some (whole t)) (manifest_of-eq g e)) l.holds.staged_manifest
          free
