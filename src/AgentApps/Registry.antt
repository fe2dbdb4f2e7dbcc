-- ===== src/AgentApps/Registry.antt =====
-- What is registered on a host, as a map from names to manifests, and what the files of
-- src/monitoring/agents/apps.py say of it.
use dragontools.Common.{
  ℕ, ◌≡◌, refl, sym, subst, ap, ◌∙◌, inl, inr, Bool, true, false, Option, none, some, List, [], ◌∷◌,
  ◌++◌, Text, codes, length, length-append, Member, ◌==◌, ==-sound, ==-refl, nat_eq, list_eq,
  nat_beq, nat_beq_iff, leb, Bool-cases, &&-true, arith, if◌then◌else◌,
}
use dragontools.Common.Identifiers.{is_identifier, is_alphanumeric}
use dragontools.Common.Keys.{Fresh, find, names, find-Member}
use dragontools.Common.Json.{text_before}
use dragontools.Common.Result.{Result, ok, ◌>>=◌, ◌>>◌, bind-ok, ok-injective, claim, claim-ok}
use dragontools.Scrape.Files.{Entry}
use dragontools.AgentApps.Scope.{Library, insert_by, sort_by}
use dragontools.AgentApps.Manifests.{
  Base, listed, World, Manifest, limit, marker_name, json_name, is_pending, read, parsed,
  read_manifest, add_raw, add_file, manifests_from,
}
use dragontools.AgentApps.Reconcile.{to_option, file_of, remove}

module _ (library : Library) (host : Text) where
  abbrev pub manifest_at : List (Text × Entry) → Text → Result Manifest
  manifest_at files name = read (find (json_name name) files) >>= parsed library host

  abbrev pub registered_in : Base → Text → Option Manifest
  registered_in (listed files) name = to_option (manifest_at files name)
  registered_in _ name = none

  -- The manifest that is registered under a name.
  abbrev pub registered : World → Text → Option Manifest
  registered w = registered_in w.base

  -- A file with the text of a manifest is read back as the manifest.
  pub read-back :
      (text : Text) (m : Manifest)
      → leb (length text) limit ≡ true
      → parsed library host text ≡ ok m
      → (read (some (file_of text)) >>= parsed library host) ≡ ok m
  unfolding read claim ◌>>=◌ ◌>>◌
  read-back text m short reads = rw short reads

pub find-remove_other :
    (k j : Text) (es : List (Text × Entry)) → (j == k) ≡ false → find k (remove j es) ≡ find k es
unfolding find remove
find-remove_other k j [] h = refl
find-remove_other k j ((i, w) ∷ es) h = elim (Bool-cases (i == j)) [
  | inl e ↦
      let q = subst (λ t. (t == k) ≡ false) (sym (==-sound i j e)) h in
      rw (e, q, find-remove_other k j es h) refl
  | inr e ↦ rw (e, find-remove_other k j es h) refl
]

-- Cutting off a suffix.
append-cancel : (a b s : Text) → a ++ s ≡ b ++ s → a ≡ b
append-cancel [] [] s h = refl
append-cancel [] (y ∷ b) s h = absurd (omega (arith, ap length h, length-append b s))
append-cancel (x ∷ a) [] s h = absurd (omega (arith, ap length h, length-append a s))
append-cancel (x ∷ a) (y ∷ b) s h =
    let p : x ≡ y = cc h in
    let q : a ++ s ≡ b ++ s = cc h in ap (λ c. c ∷ a) p ∙ ap (λ l. y ∷ l) (append-cancel a b s q)

-- The names of the files of two applications, and of a staging file, differ.
pub json_name-differs : (p n : Text) → (p == n) ≡ false → (json_name p == json_name n) ≡ false
json_name-differs p n h = go (json_name p == json_name n) refl
  where
    go : (b : Bool) → (json_name p == json_name n) ≡ b → b ≡ false
    go true e =
        let same = append-cancel p n (codes ".json") (==-sound (json_name p) (json_name n) e) in
        absurd (cc (subst (λ t. (p == t) ≡ true) same (==-refl p), h))
    go false e = refl

dot_differs : (c : ℕ) → is_alphanumeric c ≡ true → nat_beq 46 c ≡ false
dot_differs c h = go (nat_beq 46 c) refl
  where
    go : (b : Bool) → nat_beq 46 c ≡ b → b ≡ false
    go true e =
        let same : 46 ≡ c = (nat_beq_iff 46 c).0 e in
        absurd (cc (subst (λ d. is_alphanumeric d ≡ true) (sym same) h))
    go false e = refl

pub dotted-differs : (t n : Text) → is_identifier n ≡ true → ((46 ∷ t) == json_name n) ≡ false
unfolding is_identifier
dotted-differs t [] h = cc h
dotted-differs t (c ∷ s) h = let (first, rest) = &&-true _ _ h in rw (dot_differs c first) refl

-- Sorting keeps what is there.
module _ {A : Type 0} (key : A → Text) where
  insert-Member : (x a : A) (ys : List A) → Member a (insert_by key x ys) → Member a (x ∷ ys)
  unfolding insert_by
  insert-Member x a [] m = m
  insert-Member x a (y ∷ ys) m = go (text_before (key y) (key x)) (insert-Member x a ys) m
    where
      go :
          (b : Bool)
          → (Member a (insert_by key x ys) → Member a (x ∷ ys))
          → Member a (if b then y ∷ insert_by key x ys else x ∷ y ∷ ys)
          → Member a (x ∷ y ∷ ys)
      go false ih m = m
      go true ih (inl e) = inr (inl e)
      go true ih (inr m) = elim (ih m) [ inl e ↦ inl e | inr n ↦ inr (inr n) ]

  pub sort-Member : (a : A) (xs : List A) → Member a (sort_by key xs) → Member a xs
  unfolding sort_by
  sort-Member a [] m = m
  sort-Member a (x ∷ xs) m = elim (insert-Member x a (sort_by key xs) m) [
    | inl e ↦ inl e
    | inr n ↦ inr (sort-Member a xs n)
  ]

module _ (library : Library) (host : Text) where
  -- A manifest that was read is in the file of its application.
  abbrev pub IsIn : List (Text × Entry) → Manifest → Type 0
  IsIn files m =
      (e : Entry) × (raw : Text) × Member (json_name m.app.name, e) files
      × (read (some e) ≡ ok raw)
      × (parsed library host raw ≡ ok m)

  later : (f : Text × Entry) (fs : List (Text × Entry)) (m : Manifest) → IsIn fs m → IsIn (f ∷ fs) m
  later f fs m (e, raw, i, r, p) = (e, raw, inr i, r, p)

  pub manifests_from-IsIn :
      (fs : List (Text × Entry)) (ms : List Manifest)
      → manifests_from library host fs ≡ ok ms
      → (m : Manifest) → Member m ms
      → IsIn fs m
  unfolding manifests_from add_file add_raw read_manifest
  manifests_from-IsIn [] ms h m i = absurd (subst (Member m) (sym (ok-injective h)) i)
  manifests_from-IsIn ((f, e) ∷ fs) ms h m i =
      at_marker (f == marker_name) (λ js q. manifests_from-IsIn fs js q m) h
    where
      Later : Type 0
      Later =
          (js : List Manifest) → manifests_from library host fs ≡ ok js → Member m js → IsIn fs m

      at_manifest :
          (raw : Text) (n : Manifest) (rest : List Manifest)
          → Later
          → read (some e) ≡ ok raw
          → read_manifest library host f raw ≡ ok n
          → manifests_from library host fs ≡ ok rest
          → Member m (n ∷ rest)
          → IsIn ((f, e) ∷ fs) m
      at_manifest raw n rest ih r a q (inr j) = later (f, e) fs m (ih rest q j)
      at_manifest raw n rest ih r a q (inl same) =
          let (fine, a1) = claim-ok _ _ n a in
          let (p, pr, a2) = bind-ok _ _ n a1 in
          let (named, a3) = claim-ok _ _ n a2 in
          let one : p ≡ m = ok-injective a3 ∙ sym same in
          (
            e,
            raw,
            inl (
                ap (λ t. (t, e))
                  (ap (λ (x : Manifest). json_name x.app.name) (sym one)
                    ∙ ==-sound (json_name p.app.name) f named)),
            r,
            pr ∙ ap ok one,
          )

      at_raw :
          (raw : Text) (b : Bool)
          → Later
          → read (some e) ≡ ok raw
          → add_raw library host b f raw (manifests_from library host fs) ≡ ok ms
          → IsIn ((f, e) ∷ fs) m
      at_raw raw true ih r h = later (f, e) fs m (ih ms h i)
      at_raw raw false ih r h =
          let (n, a, h1) = bind-ok _ _ ms h in
          let (rest, q, h2) = bind-ok _ _ ms h1 in
          at_manifest raw n rest ih r a q (subst (Member m) (sym (ok-injective h2)) i)

      at_marker :
          (b : Bool)
          → Later
          → add_file library host b f e (manifests_from library host fs) ≡ ok ms
          → IsIn ((f, e) ∷ fs) m
      at_marker true ih h = later (f, e) fs m (ih ms h i)
      at_marker false ih h =
          let (raw, r, h1) = bind-ok _ _ ms h in at_raw raw (is_pending f) ih r h1

  -- Each manifest that was read is registered under its name.
  pub existing-registered :
      (files : List (Text × Entry)) (ms : List Manifest) (m : Manifest)
      → Fresh [] (names files)
      → manifests_from library host (sort_by (λ (f : Text × Entry). f.0) files) ≡ ok ms
      → Member m ms
      → registered_in library host (listed files) m.app.name ≡ some m
  unfolding ◌>>=◌
  existing-registered files ms m f h i =
      let (e, raw, j, r, p) = manifests_from-IsIn _ ms h m i in
      let here = find-Member (json_name m.app.name) e [] files (sort-Member _ _ files j) f in
      rw (here, r) (ap to_option p)
