-- ===== src/AgentApps/Steps.antt =====
-- `reconcile` of src/monitoring/agents/apps.py and the map from names to manifests: what its single writes do.
use dragontools.Common.{
  ◌≡◌, refl, sym, subst, ap, ◌∙◌, ◌⊎◌, inl, inr, Bool, true, false, Option, none, some, List, [],
  ◌∷◌, ◌++◌, Text, codes, length, ◌==◌, ==-sound, nat_eq, list_eq, option_eq, leb, Bool-cases,
  if◌then◌else◌,
}
use dragontools.Common.Identifiers.{is_identifier}
use dragontools.Common.Keys.{find, put, find-put, find-put_other}
use dragontools.Common.Result.{ok, ◌>>=◌}
use dragontools.Scrape.Files.{Entry}
use dragontools.AgentApps.Scope.{Library}
use dragontools.AgentApps.Manifests.{
  Base, absent, unusable, listed, World, Manifest, limit, marker, marker_name, json_name, read,
  parsed, manifest_text,
}
use dragontools.AgentApps.Reconcile.{with_files, remove, pending_name, file_of, to_option}
use dragontools.AgentApps.Registry.{
  registered_in, registered, find-remove_other, json_name-differs, dotted-differs, read-back,
}

-- A map, changed at one name.
abbrev pub update : Manifest → (Text → Option Manifest) → Text → Option Manifest
update m f name = if m.app.name == name then some m else f name

abbrev pub is_listed : Base → Bool
is_listed (listed files) = true
is_listed _ = false

abbrev pub is_unusable : Base → Bool
is_unusable unusable = true
is_unusable _ = false

module _ (library : Library) (host : Text) (m : Manifest) (w : World) where
  -- Every name has what it had.
  abbrev pub IsSame : World → Type 0
  IsSame v =
      (n : Text)
      → is_identifier n ≡ true
      → registered library host v n ≡ registered library host w n

  -- The application is registered, and every other name has what it had.
  abbrev pub IsUpdated : World → Type 0
  IsUpdated v =
      (n : Text)
      → is_identifier n ≡ true
      → registered library host v n ≡ update m (registered library host w) n

  abbrev pub IsEither : World → Type 0
  IsEither v = IsSame v ⊎ IsUpdated v

  -- A change of the files that leaves the manifest of a name alone.
  pub with_files-registered :
      (f : List (Text × Entry) → List (Text × Entry)) (n : Text) (v : World)
      → ((files : List (Text × Entry)) → find (json_name n) (f files) ≡ find (json_name n) files)
      → registered library host (with_files f v) n ≡ registered library host v n
  with_files-registered f n v same = go v.base
    where
      go :
          (b : Base)
          → registered_in library host (elim b [ listed files ↦ listed (f files) | c ↦ c ]) n
            ≡ registered_in library host b n
      go absent = refl
      go unusable = refl
      go (listed files) = ap (λ o. to_option (read o >>= parsed library host)) (same files)

  pub remove-IsSame :
      (p : Text) (v : World) → IsSame v → IsSame (with_files (remove (pending_name p)) v)
  remove-IsSame p v s n h =
      with_files-registered _ n v (λ files.
        find-remove_other (json_name n) (pending_name p) files
          (dotted-differs (p ++ codes ".pending") n h))
      ∙ s n h

  pub put-IsSame :
      (p : Text) (e : Entry) (v : World) → IsSame v → IsSame (with_files (put (pending_name p) e) v)
  put-IsSame p e v s n h =
      with_files-registered _ n v (λ files.
        find-put_other (json_name n) (pending_name p) e files
          (dotted-differs (p ++ codes ".pending") n h))
      ∙ s n h

  pub with_files-unusable :
      (f : List (Text × Entry) → List (Text × Entry)) (v : World)
      → is_unusable (with_files f v).base ≡ is_unusable v.base
  with_files-unusable f v = go v.base
    where
      go :
          (b : Base)
          → is_unusable (elim b [ listed files ↦ listed (f files) | c ↦ c ]) ≡ is_unusable b
      go absent = refl
      go unusable = refl
      go (listed files) = refl

  pub with_files-listed :
      (f : List (Text × Entry) → List (Text × Entry)) (v : World)
      → is_listed (with_files f v).base ≡ is_listed v.base
  with_files-listed f v = go v.base
    where
      go : (b : Base) → is_listed (elim b [ listed files ↦ listed (f files) | c ↦ c ]) ≡ is_listed b
      go absent = refl
      go unusable = refl
      go (listed files) = refl

  -- Nothing is registered in a new directory.
  pub create-IsSame :
      (v : World)
      → v.base ≡ absent
      → IsSame v
      → IsSame (record v { base = listed ((marker_name, file_of marker) ∷ []) })
  unfolding find ◌>>=◌ read
  create-IsSame v e s n h =
      none_there ∙ sym (subst (λ b. registered_in library host b n ≡ none) (sym e) refl) ∙ s n h
    where
      none_there : registered_in library host (listed ((marker_name, file_of marker) ∷ [])) n ≡ none
      none_there = rw (dotted-differs (codes "dragontools-managed") n h) refl

  -- The rename that publishes the manifest.
  abbrev published : World → World
  published = with_files (λ fs.
      put (json_name m.app.name) (file_of (manifest_text host m))
        (remove (pending_name m.app.name) fs))

  module _ (short : leb (length (manifest_text host m)) limit ≡ true)
      (reads : parsed library host (manifest_text host m) ≡ ok m) where
    pub published-IsUpdated :
        (v : World) → is_listed v.base ≡ true → IsSame v → IsUpdated (published v)
    published-IsUpdated v l s n h = elim (Bool-cases (m.app.name == n)) [
      | inl e ↦ rw e (own v.base l (==-sound m.app.name n e))
      | inr e ↦ rw e (
          with_files-registered _ n v (λ files.
            find-put_other (json_name n) (json_name m.app.name) _ _
              (json_name-differs m.app.name n e)
            ∙ find-remove_other (json_name n) (pending_name m.app.name) files
                (dotted-differs (m.app.name ++ codes ".pending") n h))
          ∙ s n h)
    ]
      where
        own :
            (b : Base)
            → is_listed b ≡ true
            → m.app.name ≡ n
            → registered_in library host
                (elim b [
                  | listed files ↦ listed (
                      put
                        (json_name m.app.name)
                        (file_of (manifest_text host m))
                        (remove (pending_name m.app.name) files))
                  | c ↦ c
                ])
                n
              ≡ some m
        own absent l e = cc l
        own unusable l e = cc l
        own (listed files) l e =
            ap (λ o. to_option (read o >>= parsed library host))
              (subst
                (λ k.
                  find (json_name k) (
                    put (json_name m.app.name) (file_of (manifest_text host m))
                      (remove (pending_name m.app.name) files))
                  ≡ some (file_of (manifest_text host m)))
                e
                (find-put (json_name m.app.name) (file_of (manifest_text host m))
                  (remove (pending_name m.app.name) files)))
            ∙ ap to_option (read-back library host (manifest_text host m) m short reads)
