-- ===== src/AgentApps/Reconcile.antt =====
-- `reconcile` of src/monitoring/agents/apps.py, write by write.
use dragontools.Common.{
  ℕ, Bool, true, false, ◌||◌, Option, none, some, List, [], ◌∷◌, ◌++◌, Text, codes, ◌==◌, nat_eq,
  list_eq, if◌then◌else◌,
}
use dragontools.Common.Keys.{find, put}
use dragontools.Common.Json.{Json}
use dragontools.Common.Result.{Result, ok}
use dragontools.Runs.{Program, pure, modify, or_raise, require, ◌>>=◌, ◌>>◌}
use dragontools.Scrape.Files.{Entry, found, private_mode}
use dragontools.AgentApps.Scope.{Library, scope}
use dragontools.AgentApps.Manifests.{
  Base, absent, listed, World, Manifest, marker, marker_name, json_name, read, manifest_text,
  encoded,
}
use dragontools.AgentApps.Merge.{decided}

abbrev pub with_files : (List (Text × Entry) → List (Text × Entry)) → World → World
with_files f w = record w { base = elim w.base [ listed files ↦ listed (f files) | b ↦ b ] }

unfoldable pub remove : Text → List (Text × Entry) → List (Text × Entry)
remove k [] = []
remove k ((j, e) ∷ fs) = let rest = remove k fs in if j == k then rest else (j, e) ∷ rest

abbrev pub pending_name : Text → Text
pending_name name = codes "." ++ (name ++ codes ".pending")

abbrev pub file_of : Text → Entry
file_of t = found (record { owned = true; mode = private_mode; content = t })

abbrev pub is_some : Option Entry → Bool
is_some none = false
is_some (some e) = true

abbrev pub pending_in : Text → Base → Option Entry
pending_in name (listed files) = find (pending_name name) files
pending_in name _ = none

abbrev pub is_ok : {A : Type 0} → Result A → Bool
is_ok (ok a) = true
is_ok _ = false

abbrev pub to_option : {A : Type 0} → Result A → Option A
to_option (ok a) = some a
to_option _ = none

module _ (library : Library) (host : Text) where
  -- The staging file of an earlier run, by what is there.
  unfoldable pub recover : Text → Option Entry → Program World Bool
  recover name none = pure false
  recover name (some e) =
      require (is_ok (read (some e)))
      >> (modify (with_files (remove (pending_name name))) >> pure true)

  -- The directory with its marker, by one rename.
  unfoldable pub create : Base → Program World (Unit {0})
  create absent = modify (λ w. record w { base = listed ((marker_name, file_of marker) ∷ []) })
  create _ = pure tt

  -- The bytes of the staging file, one after the other.
  unfoldable pub stage : Text → Text → Text → Program World (Unit {0})
  stage name done [] = pure tt
  stage name done (c ∷ s) =
      modify (with_files (put (pending_name name) (file_of (done ++ (c ∷ [])))))
      >> stage name (done ++ (c ∷ [])) s

  -- `os.replace(temporary, …)`
  unfoldable pub replace : Manifest → Program World (Unit {0})
  replace m = modify (
      with_files (λ fs.
        put (json_name m.app.name) (file_of (manifest_text host m))
          (remove (pending_name m.app.name) fs)))

  unfoldable pub fill : Manifest → Program World (Unit {0})
  fill m = stage m.app.name [] (manifest_text host m) >> replace m

  unfoldable pub start : Manifest → Program World (Unit {0})
  start m = modify (with_files (put (pending_name m.app.name) (file_of []))) >> fill m

  -- From the creation of the directory on.
  unfoldable pub publish : Manifest → Program World (Unit {0})
  publish m = (λ w. create w.base w) >> start m

  unfoldable pub apply : Manifest → Json × Bool → Program World (Json × Bool)
  apply m (result, changed) =
      (λ w. recover m.app.name (pending_in m.app.name w.base) w) >>= λ recovered.
      (if changed then publish m else pure tt) >> pure (result, changed || recovered)

  unfoldable pub reconcile_app : Manifest → Bool → Program World (Json × Bool)
  reconcile_app m mutate w =
      ((λ v. or_raise (to_option (decided library host m mutate v)) v) >>= λ d.
      if mutate then apply m d else pure d)
        w

  -- `reconcile(desired, host, station, mutate)`
  unfoldable pub reconcile : Json → Text → Bool → Program World (Json × Bool)
  reconcile desired station mutate = or_raise (to_option (scope library desired)) >>= λ app.
      reconcile_app (record { station = station; app = app }) mutate

-- What the program prints, and its exit status.
unfoldable pub printed : Option (Json × Bool) → ℕ × Text
printed none = (40, [])
printed (some (value, changed)) =
    (0, (if changed then codes "changed\n" else codes "unchanged\n") ++ encoded value)

-- The main part, by its arguments.
unfoldable pub main : Library → List Text → World → ℕ × Text
main library (mode ∷ value ∷ host ∷ station ∷ more) w =
    printed
      ((or_raise (library.loads value) >>= λ desired.
          reconcile library host desired station (mode == codes "apply"))
        w).outcome
main library _ w = printed none
