-- ===== src/Apps/Accept.antt =====
-- `app_preflight` of src/monitoring/apps/station_mutate.py on the states of Apps/States.
use dragontools.Common.{
  ◌≡◌, refl, sym, ◌∙◌, String, ◌≤◌, inl, inr, Bool, true, false, Option, none, some, List, [], ◌∷◌,
  Text, arith, ◌==◌, list_eq, nat_eq, string_eq, ==-refl, length, starts_with,
}
use dragontools.Apps.Renderer.{
  Renderer, Kind, logs, metrics, scrape, Documents, document, Manifest, manifest_for, manifest_text,
  map_documents, IsSized, max_bytes,
}
use dragontools.Apps.Namespace.{Node, readable, Slot, manifest, Directory, World}
use dragontools.Apps.Inspect.{
  published_ok, staged_ok, some_starts_with, document_ok, document_of, directory_ok, documents_beq,
  optional_documents, same_identity, candidate_manifests, inspect_directory, inspect, preflight,
  guarded,
}
use dragontools.Apps.Atomic.{whole, Partial, readable-whole, readable-prefix}
use dragontools.Apps.States.{
  Written, DocumentAt, either, Generation, Settled, Transit, Recoverable, settled, moving,
  manifest_of,
}
use dragontools.Apps.Live.{Live}

pub published_ok_self :
    (complete : Bool) (t : Text) (old : Option Text)
    → length t ≤ max_bytes
    → published_ok complete t old (some (whole t)) ≡ true
unfolding published_ok
published_ok_self complete t old h = rw (readable-whole t h, ==-refl t)

published_ok-old :
    (t o : Text) → length o ≤ max_bytes → published_ok false t (some o) (some (whole o)) ≡ true
unfolding published_ok
published_ok-old t o h = rw (readable-whole o h, ==-refl o) (ground arith)

-- What is staged of a text is accepted, if the text is a choice.
staged_ok-Partial :
    (choices : List (Option Text)) (t : Text) (n : Option Node)
    → length t ≤ max_bytes
    → Partial t n
    → ((p : Text) → starts_with t p ≡ true → some_starts_with choices p ≡ true)
    → staged_ok choices n ≡ true
unfolding staged_ok
staged_ok-Partial choices t n fits (inl e) h = rw e
staged_ok-Partial choices t n fits (inr (p, s, e)) h = rw (e, readable-prefix t p fits s, h p s)

pub document_ok-Written :
    (complete : Bool) (d : Directory) (docs : Documents) (old other : Option Documents) (k : Kind)
    → length (document k docs) ≤ max_bytes
    → Written docs k d
    → document_ok complete d docs old other k ≡ true
unfolding document_ok staged_ok
document_ok-Written complete d docs old other k fits (file, next) =
    rw (file, next, published_ok_self complete (document k docs) (document_of k old) fits)

document_ok-either :
    (d : Directory) (old docs : Documents) (other : Option Documents) (k : Kind)
    → length (document k docs) ≤ max_bytes
    → length (document k old) ≤ max_bytes
    → DocumentAt either old docs k d
    → document_ok false d docs (some old) other k ≡ true
unfolding document_ok
document_ok-either d old docs other k fits fits' (inl w) =
    document_ok-Written false d docs (some old) other k fits w
document_ok-either d old docs other k fits fits' (inr (ne, file, next)) = rw (
  file,
  published_ok-old (document k docs) (document k old) fits',
  staged_ok-Partial (some (document k docs) ∷ some (document k old) ∷ document_of k other ∷ [])
      (document k docs) (d.next (Slot.document k)) fits next (λ p h. rw h),
)

second_choice :
    (a t : Text) (rest : List (Option Text)) (p : Text)
    → starts_with t p ≡ true
    → some_starts_with (some a ∷ some t ∷ rest) p ≡ true
second_choice a t rest p h = ground arith

fourth_choice :
    (a b c t p : Text)
    → starts_with t p ≡ true
    → some_starts_with (some a ∷ some b ∷ some c ∷ some t ∷ []) p ≡ true
fourth_choice a b c t p h = ground arith

pub documents_beq_refl : (a : Documents) → documents_beq a a ≡ true
documents_beq_refl a = rw (==-refl a.logs, ==-refl a.metrics, ==-refl a.scrape)

module _ (R : Renderer) where
  pub directory_ok-intro :
      (name : String) (complete : Bool) (cand : Option R.Config) (d : Directory)
      (m : Manifest R.Config)
      → (docs : Documents) (old other : Option Documents)
      → documents_beq m.sha256 (map_documents R.digest docs) ≡ true
      → (R.application m.config == name) ≡ true
      → same_identity R m.config m.previous ≡ true
      → d.foreign ≡ false
      → same_identity R m.config cand ≡ true
      → ((k : Kind) → document_ok complete d docs old other k ≡ true)
      → (b : Bool)
      → staged_ok
          (some (R.encode m)
            ∷ some (manifest_text R m.config none docs)
            ∷ candidate_manifests R m.config docs cand other)
          (d.next manifest)
        ≡ b
      → directory_ok R name complete cand d m docs old other ≡ b
  unfolding directory_ok
  directory_ok-intro name complete cand d m docs old other h1 h2 h3 h4 h5 h6 b h7 =
      ground (arith, h6 logs, h6 metrics, h6 scrape)

  pub application_beq :
      (c : R.Config) (g : Generation R c) → (R.application g.config == R.application c) ≡ true
  application_beq c g =
      rw (R.identity-application g.config c g.identical) (==-refl (R.application c))

  pub identity_beq :
      (c d : R.Config) → R.identity c ≡ R.identity d → (R.identity c == R.identity d) ≡ true
  identity_beq c d e = rw e (==-refl (R.identity d))

module _ (R : Renderer) (sized : IsSized R) (c : R.Config) (docs : Documents)
    (generated : R.documents c ≡ some docs) where
  directory_ok-Settled :
      (g : Generation R c) (d : Directory)
      → Settled R g (manifest_text R c (some g.config) docs) d
      → directory_ok R
          (R.application c)
          false
          (some c)
          d
          (manifest_for R g.config none g.docs)
          g.docs
          none
          (some docs)
        ≡ true
  directory_ok-Settled g d v =
      directory_ok-intro R (R.application c) false (some c) d (manifest_for R g.config none g.docs)
        g.docs none (some docs) (documents_beq_refl (map_documents R.digest g.docs))
        (application_beq R c g) refl v.open_directory.1
        (identity_beq R c g.config (sym g.identical))
        (λ k.
          document_ok-Written false d g.docs none (some docs) k
            (sized.documents_fit g.config g.docs k g.generated) (v.at k))
        true
        (staged_ok-Partial
          (some (manifest_of R g none)
            ∷ some (manifest_of R g none)
            ∷ some (manifest_text R c none docs)
            ∷ some (manifest_text R c (some g.config) docs)
            ∷ [])
          (manifest_text R c (some g.config) docs) (d.next manifest)
          (sized.manifests_fit c (some g.config) docs generated) v.staged_manifest
          (fourth_choice (manifest_of R g none) (manifest_of R g none) (manifest_text R c none docs)
            (manifest_text R c (some g.config) docs)))

  directory_ok-Transit :
      (old g : Generation R c) (d : Directory)
      → Transit R old g d
      → directory_ok R
          (R.application c)
          false
          (some c)
          d
          (manifest_for R g.config (some old.config) g.docs)
          g.docs
          (some old.docs)
          (some docs)
        ≡ true
  directory_ok-Transit old g d v =
      directory_ok-intro R (R.application c) false (some c) d
        (manifest_for R g.config (some old.config) g.docs) g.docs (some old.docs) (some docs)
        (documents_beq_refl (map_documents R.digest g.docs)) (application_beq R c g)
        (identity_beq R old.config g.config (old.identical ∙ sym g.identical)) v.open_directory.1
        (identity_beq R c g.config (sym g.identical))
        (λ k.
          document_ok-either d old.docs g.docs (some docs) k
            (sized.documents_fit g.config g.docs k g.generated)
            (sized.documents_fit old.config old.docs k old.generated) (v.at k))
        true
        (staged_ok-Partial
          (some (manifest_of R g (some old.config))
            ∷ some (manifest_of R g none)
            ∷ some (manifest_text R c none docs)
            ∷ some (manifest_text R c (some g.config) docs)
            ∷ [])
          (manifest_of R g none) (d.next manifest)
          (sized.manifests_fit g.config none g.docs g.generated) v.staged_manifest
          (second_choice (manifest_of R g (some old.config)) (manifest_of R g none) (
            some (manifest_text R c none docs)
            ∷ some (manifest_text R c (some g.config) docs)
            ∷ [])))

module _ (R : Renderer) where
  pub optional_documents-some :
      (c : R.Config) (docs : Documents)
      → R.documents c ≡ some docs
      → optional_documents R (some c) ≡ some (some docs)
  optional_documents-some c docs e = rw (e, optional_documents)

  pub inspect_directory-eq :
      (name : String) (complete : Bool) (cand : Option R.Config) (d : Directory)
      (m : Manifest R.Config)
      → (text : Text) (docs : Documents) (old other : Option Documents) → d.safe ≡ true
      → d.file manifest ≡ some (whole text)
      → readable (whole text) ≡ true
      → R.decode text ≡ some m
      → R.documents m.config ≡ some docs
      → optional_documents R m.previous ≡ some old
      → optional_documents R cand ≡ some other
      → (b : Bool) → directory_ok R name complete cand d m docs old other ≡ b
      → inspect_directory R name complete cand d ≡ guarded R b m
  unfolding inspect_directory
  inspect_directory-eq name complete cand d m text docs old other safe file fits parsed h1 h2 h3 b
        ok =
      ground arith

module _ (R : Renderer) (sized : IsSized R) (c : R.Config) (docs : Documents)
    (generated : R.documents c ≡ some docs) where
  -- The manifest on disk, which tells how far a publication has come.
  unfoldable pub manifest_in : {d : Directory} → Recoverable R c docs d → Manifest R.Config
  manifest_in (settled g v) = manifest_for R g.config none g.docs
  manifest_in (moving old g v) = manifest_for R g.config (some old.config) g.docs

  pub inspect_directory-Recoverable :
      (d : Directory) (v : Recoverable R c docs d)
      → inspect_directory R (R.application c) false (some c) d ≡ some (manifest_in v)
  unfolding manifest_in
  inspect_directory-Recoverable d (settled g v) =
      inspect_directory-eq R (R.application c) false (some c) d
        (manifest_for R g.config none g.docs) (manifest_of R g none) g.docs none (some docs)
        v.open_directory.0 v.current
        (readable-whole (manifest_of R g none)
          (sized.manifests_fit g.config none g.docs g.generated))
        (R.decode-encode g.config none g.docs g.generated) g.generated refl
        (optional_documents-some R c docs generated) true
        (directory_ok-Settled R sized c docs generated g d v)
  inspect_directory-Recoverable d (moving old g v) =
      inspect_directory-eq R (R.application c) false (some c) d
        (manifest_for R g.config (some old.config) g.docs) (manifest_of R g (some old.config))
        g.docs (some old.docs) (some docs) v.open_directory.0 v.current
        (readable-whole (manifest_of R g (some old.config))
          (sized.manifests_fit g.config (some old.config) g.docs g.generated))
        (R.decode-encode g.config (some old.config) g.docs g.generated) g.generated
        (optional_documents-some R old.config old.docs old.generated)
        (optional_documents-some R c docs generated) true
        (directory_ok-Transit R sized c docs generated old g d v)

  -- If no generated file is larger than the limit, and `c` has documents: in every state in which the
  -- directory of the application is settled in a generation of the same identity or moves from one to
  -- another, `preflight` of `c` does not raise, and gives the manifest of that generation.
  pub preflight-Recoverable :
      (w : World) (l : Live (Recoverable R c docs) w)
      → preflight R c w ≡ some (some (manifest_in l.holds))
  unfolding preflight inspect
  preflight-Recoverable w l = ground (arith, inspect_directory-Recoverable l.directory l.holds)
