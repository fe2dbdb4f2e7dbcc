-- ===== src/Apps/States.antt =====
-- The states of a registration that `app_publish` of src/monitoring/apps/station_mutate.py leaves:
-- settled in one generation, or moving to it from the one before.
use dragontools.Common.{◌≡◌, ◌≢◌, ◌⊎◌, true, false, Option, none, some, [], Text}
use dragontools.Apps.Renderer.{Renderer, Kind, Documents, document, manifest_text}
use dragontools.Apps.Namespace.{Slot, manifest, Directory}
use dragontools.Apps.Atomic.{whole, Partial}

-- The file holds the document, and nothing is staged.
abbrev pub Written : Documents → Kind → Directory → Type 0
Written docs k d =
    (d.file (Slot.document k) ≡ some (whole (document k docs))) × (d.next (Slot.document k) ≡ none)

-- The file still holds another document, and the new one may be staged in part.
abbrev pub Stale : Documents → Documents → Kind → Directory → Type 0
Stale old docs k d =
    (document k old ≢ document k docs)
    × (d.file (Slot.document k) ≡ some (whole (document k old)))
    × Partial (document k docs) (d.next (Slot.document k))

-- What is known of a document.
pub data Status : Type 0 where
  written stale either : Status

abbrev pub DocumentAt : Status → Documents → Documents → Kind → Directory → Type 0
DocumentAt written old docs k d = Written docs k d
DocumentAt stale old docs k d = Stale old docs k d
DocumentAt either old docs k d = Written docs k d ⊎ Stale old docs k d

abbrev pub IsOpen : Directory → Type 0
IsOpen d = (d.safe ≡ true) × (d.foreign ≡ false)

module _ (R : Renderer) where
  -- A configuration with its documents, and the identity that it shares with the candidate.
  pub record Generation (c : R.Config) : Type 0 where
    pub config : R.Config
    pub docs : Documents
    pub generated : R.documents config ≡ some docs
    pub identical : R.identity config ≡ R.identity c

  module _ {c : R.Config} where
    abbrev pub manifest_of : Generation c → Option R.Config → Text
    manifest_of g previous = manifest_text R g.config previous g.docs

    -- All files are of one generation. The text of another manifest may be staged in part.
    pub record Settled (g : Generation c) (staged : Text) (d : Directory) : Type 0 where
      pub open_directory : IsOpen d
      pub current : d.file manifest ≡ some (whole (manifest_of g none))
      pub at : (k : Kind) → Written g.docs k d
      pub staged_manifest : Partial staged (d.next manifest)

    -- A settled generation with nothing staged.
    abbrev pub Complete : Generation c → Directory → Type 0
    Complete g d = (d.next manifest ≡ none) × Settled g [] d

    -- The manifest names both generations, and each file is of one of them.
    pub record Moving (done : Kind → Status) (old g : Generation c) (d : Directory) : Type 0 where
      pub open_directory : IsOpen d
      pub current : d.file manifest ≡ some (whole (manifest_of g (some old.config)))
      pub at : (k : Kind) → DocumentAt (done k) old.docs g.docs k d
      pub staged_manifest : Partial (manifest_of g none) (d.next manifest)

    abbrev pub Transit : Generation c → Generation c → Directory → Type 0
    Transit = Moving (λ _. either)

  -- What the publication of `c` can meet and can leave in the directory of its application.
  pub data Recoverable (c : R.Config) (docs : Documents) (d : Directory) : Type 0 where
    settled :
        (g : Generation c)
        → Settled g (manifest_text R c (some g.config) docs) d
        → Recoverable c docs d
    moving : (old g : Generation c) → Transit old g d → Recoverable c docs d
