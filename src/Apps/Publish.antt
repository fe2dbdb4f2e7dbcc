-- ===== src/Apps/Publish.antt =====
-- `app_atomic`, `app_mark` and `app_publish` of src/monitoring/apps/station_mutate.py, write by write.
use dragontools.Common.{
  Bool, true, false, not, ◌&&◌, Option, none, some, List, [], ◌∷◌, ◌++◌, Text, map, starts_with,
  ◌==◌, list_eq, nat_eq, if◌then◌else◌,
}
use dragontools.Apps.Renderer.{
  Renderer, Kind, logs, metrics, scrape, Documents, document, Manifest, manifest_text,
}
use dragontools.Apps.Namespace.{Node, readable, Slot, manifest, Directory, World, put, put_pending}
use dragontools.Runs.{Run, Program, pure, raise, write, require, or_raise, gets, ◌>>=◌, ◌>>◌}
use dragontools.Apps.Inspect.{inspect, preflight, config_beq, every_kind}

-- What the program meets outside its own files: whether a file or directory that it creates has
-- the mode that it asks for before `chmod` sets it (so it is with the umask 022), and whether the
-- pinned tools accept the documents (`app_validate_native`).
pub record Host : Type 0 where
  pub keeps_modes : Bool
  pub native_valid : Documents → Bool

-- Every prefix of a text, the shortest first: what a write that is cut off can leave.
unfoldable pub prefixes : Text → List Text
prefixes [] = [] ∷ []
prefixes (c ∷ s) = [] ∷ map (λ p. c ∷ p) (prefixes s)

abbrev pub stage : Slot → Bool → Text → Directory → Directory
stage s safe text d = record d {
  next = put d.next s (some (record { safe = safe; content = text }));
}

abbrev pub publish_slot : Slot → Text → Directory → Directory
publish_slot s text d = record d {
  file = put d.file s (some (record { safe = true; content = text }));
  next = put d.next s none;
}

-- The writes of `app_atomic`: open and truncate, `fchmod`, each state of the write, and the rename.
unfoldable pub write_atomic : Slot → Text → Bool → Program Directory (Unit {0})
write_atomic s text safe d = record {
  outcome = some tt;
  state = publish_slot s text d;
  trace =
      stage s safe [] d
      ∷ stage s true [] d
      ∷ (map (λ p. stage s true p d) (prefixes text) ++ (publish_slot s text d ∷ []));
}

-- `app_atomic`, by what is staged under the name already.
unfoldable pub atomic_over : Bool → Slot → Text → Option Node → Program Directory (Unit {0})
atomic_over keeps s text none = write_atomic s text keeps
atomic_over keeps s text (some n) =
    require (readable n && starts_with text n.content) >> write_atomic s text n.safe

unfoldable pub atomic : Bool → Slot → Text → Program Directory (Unit {0})
atomic keeps s text d = atomic_over keeps s text (d.next s) d

-- A program on a directory, as one on the files of the application.
abbrev pub set_app : World → Directory → World
set_app w d = record w { app = some d }

abbrev pub set_creating : World → Directory → World
set_creating w d = record w { creating = some d }

abbrev pub lift : {A : Type 0} → (World → Directory → World) → World → Run Directory A → Run World A
lift set w r = record { outcome = r.outcome; state = set w r.state; trace = map (set w) r.trace }

unfoldable pub in_app_of : {A : Type 0} → Program Directory A → Option Directory → Program World A
in_app_of m none = raise
in_app_of m (some d) = λ w. lift set_app w (m d)

-- On `APP_ROOT/NAME`.
unfoldable pub in_app : {A : Type 0} → Program Directory A → Program World A
in_app m w = in_app_of m w.app w

unfoldable pub in_creating_of :
    {A : Type 0} → Program Directory A → Option Directory → Program World A
in_creating_of m none = raise
in_creating_of m (some d) = λ w. lift set_creating w (m d)

-- On `.apps-creating-NAME`.
unfoldable pub in_creating : {A : Type 0} → Program Directory A → Program World A
in_creating m w = in_creating_of m w.creating w

abbrev pub when : {S : Type 0} → Bool → Program S (Unit {0}) → Program S (Unit {0})
when b m = if b then m else pure tt

abbrev pub set_pending : World → Kind → Bool → World
set_pending w k safe = record w {
  pending = put_pending w.pending k (some (record { safe = safe; content = [] }));
}

unfoldable pub mark_over : Bool → Kind → Option Node → Program World (Unit {0})
mark_over keeps k (some n) w = require (readable n && n.content == []) w
mark_over keeps k none w = (write (set_pending w k keeps) >> write (set_pending w k true)) w

-- `app_mark(APP_PENDING[filename])`
unfoldable pub mark : Bool → Kind → Program World (Unit {0})
mark keeps k w = mark_over keeps k (w.pending k) w

unfoldable pub ensure_root_over : Bool → Option Bool → Program World (Unit {0})
ensure_root_over keeps none w =
    (write (record w { root = some keeps }) >> write (record w { root = some true })) w
ensure_root_over keeps (some safe) w = require safe w

unfoldable pub ensure_root : Bool → Program World (Unit {0})
ensure_root keeps w = ensure_root_over keeps w.root w

abbrev pub empty_directory : Bool → Directory
empty_directory safe = record { safe = safe; file = λ _. none; next = λ _. none; foreign = false }

-- Every file of a staging directory is the beginning of what it is to hold.
abbrev pub begins : Text → Option Node → Bool
begins text none = true
begins text (some n) = readable n && starts_with text n.content

module _ (R : Renderer) (host : Host) where
  -- What a file of the new generation holds.
  abbrev pub slot_text : R.Config → Option R.Config → Documents → Slot → Text
  slot_text c previous docs manifest = manifest_text R c previous docs
  slot_text c previous docs (Slot.document k) = document k docs

  abbrev pub slot_begins : R.Config → Documents → Directory → Slot → Bool
  slot_begins c docs d s =
      begins (slot_text c none docs s) (d.file s) && begins (slot_text c none docs s) (d.next s)

  unfoldable pub staging_ok : R.Config → Documents → Directory → Bool
  staging_ok c docs d =
      d.safe
      && not d.foreign
      && slot_begins c docs d manifest
      && every_kind (λ k. slot_begins c docs d (Slot.document k))

  unfoldable pub open_staging_over :
      R.Config → Documents → Option Directory → Program World (Unit {0})
  open_staging_over c docs none w =
      (write (set_creating w (empty_directory host.keeps_modes))
          >> write (set_creating w (empty_directory true)))
        w
  open_staging_over c docs (some d) w = require (staging_ok c docs d) w

  unfoldable pub open_staging : R.Config → Documents → Program World (Unit {0})
  open_staging c docs w = open_staging_over c docs w.creating w

  abbrev pub save : Slot → Text → Program Directory (Unit {0})
  save = atomic host.keeps_modes

  unfoldable pub fill : R.Config → Documents → Program Directory (Unit {0})
  fill c docs = do
    save (Slot.document logs) docs.logs
    save (Slot.document metrics) docs.metrics
    save (Slot.document scrape) docs.scrape
    save manifest (manifest_text R c none docs)

  abbrev pub mark_if : (Kind → Bool) → Kind → Program World (Unit {0})
  mark_if p k = when (p k) (mark host.keeps_modes k)

  -- `for filename in APP_FILES: if …: app_mark(…)`
  unfoldable pub mark_all : (Kind → Bool) → Program World (Unit {0})
  mark_all p = do mark_if p logs; mark_if p metrics; mark_if p scrape

  -- `os.rename(staging, directory)`
  unfoldable pub rename_staging : Program World (Unit {0})
  rename_staging w = write (record w { app = w.creating; creating = none }) w

  -- The first generation of an application.
  unfoldable pub create : R.Config → Documents → Program World Bool
  create c docs = do
    open_staging c docs
    in_creating (fill c docs)
    mark_all (λ k. not (R.is_empty (document k docs)))
    rename_staging
    pure true

  abbrev pub holds : Text → Option Node → Bool
  holds text none = false
  holds text (some n) = n.content == text

  abbrev pub can_read : Option Node → Bool
  can_read none = true
  can_read (some n) = readable n

  -- One file of an interrupted transition, unless it has been written.
  unfoldable pub refresh_over : Kind → Text → Option Node → Program World (Unit {0})
  refresh_over k text n = do
    require (can_read n)
    when (not (holds text n)) (mark host.keeps_modes k >> in_app (save (Slot.document k) text))

  abbrev pub file_of : Slot → Option Directory → Option Node
  file_of s none = none
  file_of s (some d) = d.file s

  unfoldable pub refresh : Documents → Kind → Program World (Unit {0})
  refresh docs k w = refresh_over k (document k docs) (file_of (Slot.document k) w.app) w

  -- Completes the transition that an interrupted run has begun.
  unfoldable pub complete : R.Config → Documents → Program World (Unit {0})
  complete old odocs = do
    refresh odocs logs
    refresh odocs metrics
    refresh odocs scrape
    in_app (save manifest (manifest_text R old none odocs))

  abbrev pub differs : Documents → Documents → Kind → Bool
  differs odocs docs k = not (document k odocs == document k docs)

  abbrev pub save_if : (Kind → Bool) → Documents → Kind → Program World (Unit {0})
  save_if p docs k = when (p k) (in_app (save (Slot.document k) (document k docs)))

  unfoldable pub save_all : (Kind → Bool) → Documents → Program World (Unit {0})
  save_all p docs = do save_if p docs logs; save_if p docs metrics; save_if p docs scrape

  -- The transition from one complete generation to the next.
  unfoldable pub advance : R.Config → Documents → R.Config → Documents → Program World Bool
  advance old odocs c docs = do
    mark_all (differs odocs docs)
    in_app (save manifest (manifest_text R c (some old) docs))
    save_all (differs odocs docs) docs
    in_app (save manifest (manifest_text R c none docs))
    pure true

  abbrev pub is_some : Option R.Config → Bool
  is_some none = false
  is_some (some _) = true

  unfoldable pub update : Manifest R.Config → R.Config → Documents → Program World Bool
  update m c docs = do
    odocs ← or_raise (R.documents m.config)
    when (is_some m.previous) (complete m.config odocs)
    advance m.config odocs c docs

  unfoldable pub publish_over :
      R.Config → Documents → Option (Manifest R.Config) → Program World Bool
  publish_over c docs none = do
    require (host.native_valid docs)
    ensure_root host.keeps_modes
    create c docs
  publish_over c docs (some m) =
      if config_beq R m.config c && not (is_some m.previous)
      then (gets (inspect R (R.application c) true false none) >>= λ r. or_raise r >> pure false)
      else (do require (host.native_valid docs); ensure_root host.keeps_modes; update m c docs)

  -- `app_publish`: whether anything has been published.
  unfoldable pub publish : R.Config → Program World Bool
  publish c = do
    existing ← gets (preflight R c) >>= or_raise
    docs ← or_raise (R.documents c)
    publish_over c docs existing
