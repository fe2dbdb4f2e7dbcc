-- ===== src/Common/Lists.antt =====
-- Lists measured by native numbers, and chains of `Option`.
use Prim.Native.Nat.{ℕ, zero, suc, ◌+◌}
use mathlib.Core.Path.{◌≡◌, refl}
use mathlib.Core.Logic.{◌⊎◌, inl, inr}
use mathlib.Core.List.{List, [], ◌∷◌, ◌++◌, map}
use native.Mathlib.Omega.{arith}

module _ {ℓ} {A : Type ℓ} where
  abbrev pub length : List A → ℕ
  length [] = 0
  length (x ∷ xs) = suc (length xs)

  abbrev pub take : ℕ → List A → List A
  take zero xs = []
  take (suc n) [] = []
  take (suc n) (x ∷ xs) = x ∷ take n xs

  abbrev pub drop : ℕ → List A → List A
  drop zero xs = xs
  drop (suc n) [] = []
  drop (suc n) (x ∷ xs) = drop n xs

  pub length-append : (xs ys : List A) → length (xs ++ ys) ≡ length xs + length ys
  length-append [] ys = omega arith
  length-append (x ∷ xs) ys = omega (arith, length-append xs ys)

-- A predicate by recursion computes to tuples, which the tactics read and build.
module _ {ℓ κ} {A : Type ℓ} (P : A → Type κ) where
  abbrev pub Every : List A → Type κ
  Every [] = Unit
  Every (x ∷ xs) = P x × Every xs

  pub Every-append : (xs ys : List A) → Every xs → Every ys → Every (xs ++ ys)
  Every-append [] ys hx hy = hy
  Every-append (x ∷ xs) ys hx hy = (hx.0, Every-append xs ys hx.1 hy)

module _ {ℓ ℓ' κ} {A : Type ℓ} {B : Type ℓ'} (P : B → Type κ) where
  pub Every-map : (f : A → B) (xs : List A) → Every (λ a. P (f a)) xs → Every P (map f xs)
  Every-map f [] h = tt
  Every-map f (x ∷ xs) h = (h.0, Every-map f xs h.1)

module _ {ℓ κ κ'} {A : Type ℓ} (P : A → Type κ) (Q : A → Type κ') where
  pub Every-mono : ((a : A) → P a → Q a) → (xs : List A) → Every P xs → Every Q xs
  Every-mono f [] h = tt
  Every-mono f (x ∷ xs) h = (f x h.0, Every-mono f xs h.1)

module _ {A : Type 0} where
  abbrev pub Member : A → List A → Type 0
  Member a [] = ⊥
  Member a (x ∷ xs) = (a ≡ x) ⊎ Member a xs

  pub Member-middle : (xs : List A) (x : A) (ys : List A) → Member x (xs ++ (x ∷ ys))
  Member-middle [] x ys = inl refl
  Member-middle (w ∷ xs) x ys = inr (Member-middle xs x ys)

-- Two lists of one length, related element by element.
module _ {A B : Type 0} (R : A → B → Type 0) where
  abbrev pub Pairwise : List A → List B → Type 0
  Pairwise [] [] = Unit
  Pairwise (x ∷ xs) (y ∷ ys) = R x y × Pairwise xs ys
  Pairwise _ _ = ⊥
