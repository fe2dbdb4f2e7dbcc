-- ===== src/Common/Keys.antt =====
-- Keys in lists and in dictionaries, as the loops of the programs use them.
use dragontools.Common.{
  ◌+◌, ◌≤◌, ◌≡◌, refl, sym, subst, ap, inl, inr, Bool, true, false, not, ◌&&◌, ◌||◌, Option, none,
  some, List, [], ◌∷◌, Text, length, Every, Member, Equality, ◌==◌, ==-refl, ==-sound, nat_eq,
  list_eq, Bool-cases, arith, if◌then◌else◌,
}

module _ {K : Type 0} ⦃e : Equality K⦄ where
  -- `key in keys`
  abbrev pub contains_key : K → List K → Bool
  contains_key k [] = false
  contains_key k (j ∷ ks) = (j == k) || contains_key k ks

  abbrev pub all_in : List K → List K → Bool
  all_in [] js = true
  all_in (k ∷ ks) js = contains_key k js && all_in ks js

  -- `set(keys) == set(others)`
  abbrev pub same_set : List K → List K → Bool
  same_set ks js = all_in ks js && all_in js ks

  -- Distinct keys, none of which was seen.
  abbrev pub Fresh : List K → List K → Type 0
  Fresh seen [] = Unit
  Fresh seen (k ∷ ks) = (contains_key k seen ≡ false) × Fresh (k ∷ seen) ks

-- A dictionary by name: `entries.get(name)`, `entries[name] = value`, and its keys.
unfoldable pub find {ℓ} : {V : Type ℓ} → Text → List (Text × V) → Option V
find k [] = none
find k ((j, v) ∷ es) = let rest = find k es in if j == k then some v else rest

unfoldable pub put {ℓ} : {V : Type ℓ} → Text → V → List (Text × V) → List (Text × V)
put k v [] = (k, v) ∷ []
put k v ((j, w) ∷ es) = let rest = put k v es in if j == k then (j, v) ∷ es else (j, w) ∷ rest

abbrev pub names {ℓ} : {V : Type ℓ} → List (Text × V) → List Text
names [] = []
names ((k, v) ∷ es) = k ∷ names es

pub not-true : (b : Bool) → not b ≡ true → b ≡ false
not-true true h = cc h
not-true false h = refl

module _ {ℓ} {K : Type 0} ⦃e : Equality K⦄ (P : K → Type ℓ) where
  pub Every-keys : (ks : List K) → ((k : K) → contains_key k ks ≡ true → P k) → Every P ks
  Every-keys [] f = tt
  Every-keys (k ∷ ks) f = (f k (rw (==-refl k) refl), Every-keys ks (λ j h. f j (later (k == j) h)))
    where
      later : (a : Bool) {b : Bool} → b ≡ true → (a || b) ≡ true
      later true h = refl
      later false h = h

  pub Every-at : (k : K) (ks : List K) → contains_key k ks ≡ true → Every P ks → P k
  Every-at k [] h p = absurd (cc h)
  Every-at k (j ∷ ks) h p = elim (Bool-cases (j == k)) [
    | inl t ↦ subst P (==-sound j k t) p.0
    | inr f ↦ Every-at k ks (subst (λ b. (b || contains_key k ks) ≡ true) f h) p.1
  ]

module _ {K : Type 0} ⦃e : Equality K⦄ where
  -- The keys without the first one that is equal to this.
  unfoldable erase : K → List K → List K
  erase k [] = []
  erase k (j ∷ js) = let rest = erase k js in if j == k then js else j ∷ rest

  length-erase :
      (k : K) (js : List K) → contains_key k js ≡ true → length (erase k js) + 1 ≡ length js
  unfolding erase
  length-erase k [] h = cc h
  length-erase k (j ∷ js) h = elim (Bool-cases (j == k)) [
    | inl t ↦ rw t (omega arith)
    | inr f ↦
        rw f (omega (arith, length-erase k js (subst (λ b. (b || contains_key k js) ≡ true) f h)))
  ]

  contains-erase :
      (i k : K) (js : List K)
      → (k == i) ≡ false
      → contains_key i js ≡ true
      → contains_key i (erase k js) ≡ true
  unfolding erase
  contains-erase i k [] ne h = cc h
  contains-erase i k (j ∷ js) ne h = elim (Bool-cases (j == k)) [
    | inl t ↦ rw t (
        subst (λ b. (b || contains_key i js) ≡ true)
          (subst (λ x. (x == i) ≡ false) (sym (==-sound j k t)) ne) h)
    | inr f ↦ rw f (keep (j == i) (contains_key i js) h (contains-erase i k js ne))
  ]
    where
      keep : (a b : Bool) {c : Bool} → (a || b) ≡ true → (b ≡ true → c ≡ true) → (a || c) ≡ true
      keep true b h f = refl
      keep false b h f = f h

  -- No key of the second list is one that was seen.
  others :
      (k : K) (seen ns js : List K)
      → contains_key k seen ≡ true
      → Fresh seen ns
      → Every (λ n. contains_key n js ≡ true) ns
      → Every (λ n. contains_key n (erase k js) ≡ true) ns
  others k seen [] js h f m = tt
  others k seen (n ∷ ns) js h f m = (
    contains-erase n k js (differs (k == n) refl) m.0,
    others k (n ∷ seen) ns js (more (n == k) h) f.1 m.1,
  )
    where
      differs : (b : Bool) → (k == n) ≡ b → (k == n) ≡ false
      differs true e = absurd (cc (subst (λ x. contains_key x seen ≡ true) (==-sound k n e) h, f.0))
      differs false e = e

      more : (a : Bool) {b : Bool} → b ≡ true → (a || b) ≡ true
      more true h = refl
      more false h = h

  pub contains-cover :
      (k : K) (seen ns ks : List K)
      → Fresh seen ns
      → Every (λ n. contains_key n ks ≡ true) ns
      → length ks ≤ length ns
      → contains_key k ks ≡ true
      → contains_key k ns ≡ true
  contains-cover k seen [] [] f m short h = h
  contains-cover k seen [] (j ∷ ks) f m short h = absurd (omega (arith, short))
  contains-cover k seen (n ∷ ns) ks f m short h = elim (Bool-cases (n == k)) [
    | inl t ↦ rw t refl
    | inr d ↦ rw d (
        contains-cover k (n ∷ seen) ns (erase n ks) f.1
          (others n (n ∷ seen) ns ks (rw (==-refl n) refl) f.1 m.1)
          (omega (arith, short, length-erase n ks m.0)) (contains-erase k n ks d h))
  ]

module _ {V : Type 0} where
  pub find-put : (k : Text) (v : V) (es : List (Text × V)) → find k (put k v es) ≡ some v
  unfolding find put
  find-put k v [] = rw (==-refl k) refl
  find-put k v ((j, w) ∷ es) = elim (Bool-cases (j == k)) [
    | inl e ↦ rw (e, e) refl
    | inr e ↦ rw (e, e) (find-put k v es)
  ]

  pub find-put_other :
      (k j : Text) (v : V) (es : List (Text × V))
      → (j == k) ≡ false
      → find k (put j v es) ≡ find k es
  unfolding find put
  find-put_other k j v [] h = rw h refl
  find-put_other k j v ((i, w) ∷ es) h = elim (Bool-cases (i == j)) [
    | inl e ↦ let q = subst (λ t. (t == k) ≡ false) (sym (==-sound i j e)) h in rw (e, q) refl
    | inr e ↦ rw (e, find-put_other k j v es h) refl
  ]

-- An entry under a name that no other entry has.
module _ {V : Type 0} (k : Text) (v : V) where
  ||-false : (a b : Bool) → (a || b) ≡ false → (a ≡ false) × (b ≡ false)
  ||-false true b h = cc h
  ||-false false b h = (refl, h)

  Member-new :
      (seen : List Text) (es : List (Text × V))
      → Member (k, v) es
      → Fresh seen (names es)
      → contains_key k seen ≡ false
  Member-new seen [] m f = absurd m
  Member-new seen ((j, w) ∷ es) (inl e) f =
      let same : j ≡ k = ap (λ (p : Text × V). p.0) (sym e) in
      subst (λ t. contains_key t seen ≡ false) same f.0
  Member-new seen ((j, w) ∷ es) (inr m) f =
      (||-false (j == k) (contains_key k seen) (Member-new (j ∷ seen) es m f.1)).1

  pub find-Member :
      (seen : List Text) (es : List (Text × V))
      → Member (k, v) es
      → Fresh seen (names es)
      → find k es ≡ some v
  unfolding find
  find-Member seen [] m f = absurd m
  find-Member seen ((j, w) ∷ es) (inl e) f =
      let same : j ≡ k = ap (λ (p : Text × V). p.0) (sym e) in
      rw (subst (λ t. (j == t) ≡ true) same (==-refl j)) (ap (λ (p : Text × V). some p.1) (sym e))
  find-Member seen ((j, w) ∷ es) (inr m) f =
      rw ((||-false (j == k) (contains_key k seen) (Member-new (j ∷ seen) es m f.1)).0)
        (find-Member (j ∷ seen) es m f.1)
