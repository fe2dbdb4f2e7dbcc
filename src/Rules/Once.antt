-- ===== src/Rules/Once.antt =====
-- The loops of src/monitoring/vmalert_rules.py: each entry of a list has a key, may be passed over, and
-- otherwise is checked; no key comes twice.
use dragontools.Common.Keys.{contains_key, all_in, same_set, Fresh, not-true}
use dragontools.Common.{
  ◌≡◌, ◌≢◌, refl, sym, ap, subst, ◌∙◌, inl, inr, Bool, true, false, not, ◌||◌, Option, none, some,
  List, [], ◌∷◌, ◌++◌, Every, Equality, ◌==◌, ==-refl, ==-sound, &&-true, Bool-cases,
}
use dragontools.Common.Result.{Result, ok, ◌>>=◌, ◌>>◌, bind-ok, ok-injective, claim, claim-ok}

||-left : (a b : Bool) → a ≡ true → (a || b) ≡ true
||-left true b h = refl
||-left false b h = cc h

||-right : (a b : Bool) → b ≡ true → (a || b) ≡ true
||-right true b h = refl
||-right false b h = h

some-injective : {A : Type 0} {a b : A} → some a ≡ some b → a ≡ b
some-injective h = cc h

module _ {A K : Type 0} ⦃e : Equality K⦄ (key : A → Result (Option K))
    (check : K → A → Result (Unit {0})) where
  -- The body of the loop, by the key, with what follows it.
  unfoldable pub each_over : (List K → Result (List K)) → List K → A → Option K → Result (List K)
  each_over rest seen x none = rest seen
  each_over rest seen x (some k) =
      claim (not (contains_key k seen))
      >> (check k x >>= λ _. rest (k ∷ seen) >>= λ ks. ok (k ∷ ks))

  unfoldable pub each : List K → List A → Result (List K)
  each seen [] = ok []
  each seen (x ∷ xs) = key x >>= each_over (λ s. each s xs) seen x

  -- The keys of the entries that are not passed over, each of which is accepted.
  pub data Keyed : List A → List K → Type 0 where
    done : Keyed [] []
    skip : (x : A) (xs : List A) (ks : List K) → key x ≡ ok none → Keyed xs ks → Keyed (x ∷ xs) ks
    take :
        (x : A) (xs : List A) (k : K) (ks : List K)
        → key x ≡ ok (some k)
        → check k x ≡ ok tt
        → Keyed xs ks
        → Keyed (x ∷ xs) (k ∷ ks)

  each_over-Keyed :
      (rest : List K → Result (List K)) (seen : List K) (x : A) (xs : List A) (o : Option K)
      (ks : List K)
      → ((s : List K) (js : List K) → rest s ≡ ok js → Keyed xs js × Fresh s js)
      → key x ≡ ok o
      → each_over rest seen x o ≡ ok ks
      → Keyed (x ∷ xs) ks × Fresh seen ks
  unfolding each_over
  each_over-Keyed rest seen x xs none ks ih g h =
      let (keyed, fresh) = ih seen ks h in (skip x xs ks g keyed, fresh)
  each_over-Keyed rest seen x xs (some k) ks ih g h =
      let (new, h1) = claim-ok _ _ ks h in
      let (u, c, h2) = bind-ok _ _ ks h1 in
      let (js, r, h3) = bind-ok _ _ ks h2 in
      let (keyed, fresh) = ih (k ∷ seen) js r in
      subst (λ l. Keyed (x ∷ xs) l × Fresh seen l) (ok-injective h3)
        (take x xs k js g c keyed, (not-true _ new, fresh))

  pub each-Keyed :
      (seen : List K) (xs : List A) (ks : List K)
      → each seen xs ≡ ok ks
      → Keyed xs ks × Fresh seen ks
  unfolding each
  each-Keyed seen [] ks h = subst (λ l. Keyed [] l × Fresh seen l) (ok-injective h) (done, tt)
  each-Keyed seen (x ∷ xs) ks h =
      let (o, g, h1) = bind-ok _ _ ks h in
      each_over-Keyed (λ s. each s xs) seen x xs o ks (λ s js r. each-Keyed s xs js r) g h1

  -- An entry with this key is in the list, it is accepted, and no other entry has the key.
  pub data Once (k : K) (xs : List A) : Type 0 where
    at :
        (before : List A) (x : A) (after : List A)
        → xs ≡ before ++ (x ∷ after)
        → key x ≡ ok (some k)
        → check k x ≡ ok tt
        → Every (λ y. key y ≢ ok (some k)) before
        → Every (λ y. key y ≢ ok (some k)) after
        → Once k xs

  -- No entry has a key that was seen.
  Keyed-absent :
      (k : K) (seen : List K) (xs : List A) (ks : List K)
      → contains_key k seen ≡ true
      → Keyed xs ks
      → Fresh seen ks
      → Every (λ y. key y ≢ ok (some k)) xs
  Keyed-absent k seen _ _ m done f = tt
  Keyed-absent k seen _ _ m (skip x xs ks g keyed) f =
      ((λ h. cc (g, h)), Keyed-absent k seen xs ks m keyed f)
  Keyed-absent k seen _ _ m (take x xs j ks g c keyed) f = (
    (λ h. other j f.0 (some-injective (ok-injective (sym g ∙ h)))),
    Keyed-absent k (j ∷ seen) xs ks (||-right (j == k) (contains_key k seen) m) keyed f.1,
  )
    where
      other : (j : K) → contains_key j seen ≡ false → j ≡ k → ⊥
      other j new h = let absent = subst (λ i. contains_key i seen ≡ false) h new in cc (absent, m)

  Once-skip : (k : K) (x : A) (xs : List A) → key x ≢ ok (some k) → Once k xs → Once k (x ∷ xs)
  Once-skip k x xs h (at before y after split g c first last) =
      at (x ∷ before) y after (ap (λ l. x ∷ l) split) g c (h, first) last

  -- Each key that was taken comes once.
  Keyed-once :
      (k : K) (seen : List K) (xs : List A) (ks : List K)
      → contains_key k ks ≡ true
      → Keyed xs ks
      → Fresh seen ks
      → Once k xs
  Keyed-once k seen _ _ m done f = absurd (cc m)
  Keyed-once k seen _ _ m (skip x xs ks g keyed) f =
      Once-skip k x xs (λ h. cc (g, h)) (Keyed-once k seen xs ks m keyed f)
  Keyed-once k seen _ _ m (take x xs j ks g c keyed) f = elim (Bool-cases (j == k)) [
    | inl e ↦ here j (==-sound j k e) g c f.1
    | inr e ↦
        Once-skip k x xs (λ h. differs j e (some-injective (ok-injective (sym g ∙ h))))
          (Keyed-once k (j ∷ seen) xs ks (m_after j e m) keyed f.1)
  ]
    where
      here :
          (j : K)
          → j ≡ k
          → key x ≡ ok (some j)
          → check j x ≡ ok tt
          → Fresh (j ∷ seen) ks
          → Once k (x ∷ xs)
      here j e g c fresh =
          at [] x xs refl (subst (λ i. key x ≡ ok (some i)) e g)
            (subst (λ i. check i x ≡ ok tt) e c) tt
            (Keyed-absent k (j ∷ seen) xs ks
              (||-left (j == k) (contains_key k seen) (subst (λ i. (j == i) ≡ true) e (==-refl j)))
              keyed fresh)

      differs : (j : K) → (j == k) ≡ false → j ≡ k → ⊥
      differs j e h = let same = subst (λ i. (j == i) ≡ true) h (==-refl j) in cc (same, e)

      m_after :
          (j : K) → (j == k) ≡ false → contains_key k (j ∷ ks) ≡ true → contains_key k ks ≡ true
      m_after j e m = subst (λ b. (b || contains_key k ks) ≡ true) e m

  -- A loop that ends with just the expected keys accepts one entry of each.
  pub each-Once :
      (xs : List A) (expected ks : List K)
      → each [] xs ≡ ok ks
      → same_set ks expected ≡ true
      → Keyed xs ks × Every (λ k. Once k xs) expected
  each-Once xs expected ks h same =
      let (keyed, fresh) = each-Keyed [] xs ks h in
      let (sound, complete) = &&-true (all_in ks expected) (all_in expected ks) same in
      (keyed, all expected complete keyed fresh)
    where
      all :
          (js : List K)
          → all_in js ks ≡ true
          → Keyed xs ks
          → Fresh [] ks
          → Every (λ k. Once k xs) js
      all [] h keyed fresh = tt
      all (j ∷ js) h keyed fresh =
          let (this, others) = &&-true (contains_key j ks) (all_in js ks) h in
          (Keyed-once j [] xs ks this keyed fresh, all js others keyed fresh)
