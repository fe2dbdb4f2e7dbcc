-- ===== src/Apps/Inspect.antt =====
-- `app_inspect` and `app_preflight`: the read-only proof that the files of a registration are
-- generations of this program. `none` stands for the exception.
use dragontools.Common.{
  Bool, true, false, not, ◌&&◌, ◌||◌, Option, none, some, List, [], ◌∷◌, Text, starts_with, ◌==◌,
  option_eq, list_eq, nat_eq, string_eq, Equality, if◌then◌else◌, String, option_beq,
}
use dragontools.Apps.Renderer.{
  Renderer, Kind, logs, metrics, scrape, Documents, document, map_documents, Manifest,
  manifest_text,
}
use dragontools.Apps.Namespace.{Node, readable, Slot, manifest, Directory, World}

abbrev pub every_kind : (Kind → Bool) → Bool
every_kind p = p logs && p metrics && p scrape

-- `any(choice is not None and choice.startswith(partial) for choice in choices)`
abbrev pub some_starts_with : List (Option Text) → Text → Bool
some_starts_with [] partial = false
some_starts_with (none ∷ choices) partial = some_starts_with choices partial
some_starts_with (some t ∷ choices) partial =
    starts_with t partial || some_starts_with choices partial

-- A published file holds the current document, or the previous one if the check need not be complete.
unfoldable pub published_ok : Bool → Text → Option Text → Option Node → Bool
published_ok complete text old none = not complete
published_ok complete text old (some n) =
    readable n && (n.content == text || (not complete && option_beq (some n.content) old))

-- A staged file holds a prefix of one of the choices.
unfoldable pub staged_ok : List (Option Text) → Option Node → Bool
staged_ok choices none = true
staged_ok choices (some n) = readable n && some_starts_with choices n.content

abbrev pub document_of : Kind → Option Documents → Option Text
document_of k none = none
document_of k (some d) = some (document k d)

unfoldable pub document_ok :
    Bool → Directory → Documents → Option Documents → Option Documents → Kind → Bool
document_ok complete d docs old candidate k =
    published_ok complete (document k docs) (document_of k old) (d.file (Slot.document k))
    && staged_ok (some (document k docs) ∷ document_of k old ∷ document_of k candidate ∷ [])
        (d.next (Slot.document k))

abbrev pub documents_beq : Documents → Documents → Bool
documents_beq a b = a.logs == b.logs && a.metrics == b.metrics && a.scrape == b.scrape

module _ (R : Renderer) where
  abbrev pub config_beq : R.Config → R.Config → Bool
  config_beq = Equality.test R.config_eq

  -- `app_documents` of a configuration that may be absent.
  abbrev pub optional_documents : Option R.Config → Option (Option Documents)
  optional_documents none = some none
  optional_documents (some c) = elim (R.documents c) [ none ↦ none | some d ↦ some (some d) ]

  abbrev pub same_identity : R.Config → Option R.Config → Bool
  same_identity c none = true
  same_identity c (some d) = R.identity d == R.identity c

  -- The texts that a staged manifest may be a prefix of.
  abbrev pub candidate_manifests :
      R.Config → Documents → Option R.Config → Option Documents → List (Option Text)
  candidate_manifests c docs none other = []
  candidate_manifests c docs (some e) none = []
  candidate_manifests c docs (some e) (some edocs) =
      some (manifest_text R e none edocs) ∷ some (manifest_text R e (some c) edocs) ∷ []

  -- The tests on the directory, once the manifest has been read and its documents generated.
  unfoldable pub directory_ok :
      String
      → Bool
      → Option R.Config
      → Directory
      → Manifest R.Config
      → Documents
      → Option Documents
      → Option Documents
      → Bool
  directory_ok name complete candidate d m docs old cdocs =
      documents_beq m.sha256 (map_documents R.digest docs)
      && R.application m.config == name
      && same_identity m.config m.previous
      && not d.foreign
      && same_identity m.config candidate
      && every_kind (document_ok complete d docs old cdocs)
      && staged_ok
          (some (R.encode m)
            ∷ some (manifest_text R m.config none docs)
            ∷ candidate_manifests m.config docs candidate cdocs)
          (d.next manifest)

  abbrev pub guarded : {A : Type 0} → Bool → A → Option A
  guarded true a = some a
  guarded false a = none

  inspect_documents :
      String
      → Bool
      → Option R.Config
      → Directory
      → Manifest R.Config
      → Option Documents
      → Option (Option Documents)
      → Option (Option Documents)
      → Option (Manifest R.Config)
  inspect_documents name complete candidate d m none old cdocs = none
  inspect_documents name complete candidate d m (some docs) none cdocs = none
  inspect_documents name complete candidate d m (some docs) (some old) none = none
  inspect_documents name complete candidate d m (some docs) (some old) (some cdocs) =
      guarded (directory_ok name complete candidate d m docs old cdocs) m

  inspect_manifest :
      String
      → Bool
      → Option R.Config
      → Directory
      → Option (Manifest R.Config)
      → Option (Manifest R.Config)
  inspect_manifest name complete candidate d none = none
  inspect_manifest name complete candidate d (some m) =
      inspect_documents name complete candidate d m (R.documents m.config)
        (optional_documents m.previous) (optional_documents candidate)

  read_manifest : Option Node → Option (Manifest R.Config)
  read_manifest none = none
  read_manifest (some n) = if readable n then R.decode n.content else none

  -- `app_inspect` of an existing directory.
  unfoldable pub inspect_directory :
      String → Bool → Option R.Config → Directory → Option (Manifest R.Config)
  unfolding inspect_manifest inspect_documents read_manifest
  inspect_directory name complete candidate d =
      if d.safe
      then inspect_manifest name complete candidate d (read_manifest (d.file manifest))
      else none

  inspect_app :
      String
      → Bool
      → Bool
      → Option R.Config
      → Option Directory
      → Option (Option (Manifest R.Config))
  inspect_app name complete missing candidate none = guarded missing none
  inspect_app name complete missing candidate (some d) =
      elim (inspect_directory name complete candidate d) [ none ↦ none | some m ↦ some (some m) ]

  inspect_root :
      String
      → Bool
      → Bool
      → Option R.Config
      → Option Bool
      → Option Directory
      → Option (Option (Manifest R.Config))
  inspect_root name complete missing candidate none app = guarded missing none
  inspect_root name complete missing candidate (some false) app = none
  inspect_root name complete missing candidate (some true) app =
      inspect_app name complete missing candidate app

  -- `app_inspect`: no registration, if `missing` permits it, or the manifest.
  unfoldable pub inspect :
      String → Bool → Bool → Option R.Config → World → Option (Option (Manifest R.Config))
  unfolding inspect_root inspect_app
  inspect name complete missing candidate w =
      inspect_root name complete missing candidate w.root w.app

  preflight_with : R.Config → Option Documents → World → Option (Option (Manifest R.Config))
  preflight_with c none w = none
  preflight_with c (some docs) w = inspect (R.application c) false true (some c) w

  -- `app_preflight`, whose last test `app_inspect` has made already.
  unfoldable pub preflight : R.Config → World → Option (Option (Manifest R.Config))
  unfolding preflight_with
  preflight c w = preflight_with c (R.documents c) w
