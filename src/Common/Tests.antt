-- ===== src/Common/Tests.antt =====
-- Boolean tests on native numbers, the conditional, and equality as an instance.
use Prim.Native.Nat.{ℕ, compare, Ordering}
use Prim.Native.String.{String}
use mathlib.Core.Path.{◌≡◌, refl}
use mathlib.Core.Logic.{◌≢◌, ◌↔◌, ◌⊎◌, inl, inr}
use mathlib.Core.Bool.{Bool, true, false, ◌&&◌}
use mathlib.Core.Option.{Option, none, some}
use mathlib.Core.List.{List, [], ◌∷◌}
use native.Mathlib.Omega.{arith}
use text.Mathlib.Text.{◌==◌ as str_eq}
use text.Mathlib.TextEquality.{eq_iff}

abbrev pub ltb : ℕ → ℕ → Bool
ltb a b = elim (compare a b) [ Ordering.lt ↦ true | _ ↦ false ]

abbrev pub leb : ℕ → ℕ → Bool
leb a b = elim (compare a b) [ Ordering.gt ↦ false | _ ↦ true ]

abbrev pub nat_beq : ℕ → ℕ → Bool
nat_beq a b = elim (compare a b) [ Ordering.eq ↦ true | _ ↦ false ]

infix 1 if◌then◌else◌
abbrev pub if◌then◌else◌ {ℓ} : {A : Type ℓ} → Bool → A → A → A
if true then x else y = x
if false then x else y = y

pub nat_beq_iff : (a b : ℕ) → (nat_beq a b ≡ true) ↔ (a ≡ b)
nat_beq_iff a b = ground arith

pub nat_beq_refl : (a : ℕ) → nat_beq a a ≡ true
nat_beq_refl a = ground arith

-- To split on a computed value and keep the equation.
pub Bool-cases : (b : Bool) → (b ≡ true) ⊎ (b ≡ false)
Bool-cases true = inl refl
Bool-cases false = inr refl

pub Option-cases {ℓ} : {A : Type ℓ} (o : Option A) → (o ≡ none) ⊎ ((a : A) × (o ≡ some a))
Option-cases none = inl refl
Option-cases (some a) = inr (a, refl)

-- Python's `==` on the values of one type, as a test that decides whether they are one value.
pub record Equality {ℓ} (Value : Type ℓ) : Type ℓ where
  pub test : Value → Value → Bool
  pub test_iff : (x y : Value) → (test x y ≡ true) ↔ (x ≡ y)

abbrev pub ◌==◌ {ℓ} : {Value : Type ℓ} ⦃q : Equality Value⦄ → Value → Value → Bool
◌==◌ ⦃q⦄ x y = q.test x y

infix 50 ◌==◌
module _ {ℓ} {A : Type ℓ} ⦃e : Equality A⦄ where
  pub ==-refl : (a : A) → (a == a) ≡ true
  ==-refl a = (e.test_iff a a).1 refl

  pub ==-sound : (a b : A) → (a == b) ≡ true → a ≡ b
  ==-sound a b h = (e.test_iff a b).0 h

  pub ==-ne : (a b : A) → a ≢ b → (a == b) ≡ false
  ==-ne a b h = elim (Bool-cases (a == b)) [
    | inl same ↦ absurd (h (==-sound a b same))
    | inr new ↦ new
  ]

  abbrev pub list_beq : List A → List A → Bool
  list_beq [] [] = true
  list_beq [] (y ∷ ys) = false
  list_beq (x ∷ xs) [] = false
  list_beq (x ∷ xs) (y ∷ ys) = x == y && list_beq xs ys

  abbrev pub option_beq : Option A → Option A → Bool
  option_beq none none = true
  option_beq none (some y) = false
  option_beq (some x) none = false
  option_beq (some x) (some y) = x == y

module _ {ℓ} {A : Type ℓ} ⦃e : Equality A⦄ where
  pub list_beq_iff : (xs ys : List A) → (list_beq xs ys ≡ true) ↔ (xs ≡ ys)
  list_beq_iff [] [] = ground arith
  list_beq_iff [] (y ∷ ys) = ground arith
  list_beq_iff (x ∷ xs) [] = ground arith
  list_beq_iff (x ∷ xs) (y ∷ ys) = ground (arith, e.test_iff x y, list_beq_iff xs ys)

  pub option_beq_iff : (x y : Option A) → (option_beq x y ≡ true) ↔ (x ≡ y)
  option_beq_iff none none = ground arith
  option_beq_iff none (some y) = ground arith
  option_beq_iff (some x) none = ground arith
  option_beq_iff (some x) (some y) = ground (arith, e.test_iff x y)

  instance abbrev pub list_eq : Equality (List A)
  list_eq = record { test = list_beq; test_iff = list_beq_iff }

  instance abbrev pub option_eq : Equality (Option A)
  option_eq = record { test = option_beq; test_iff = option_beq_iff }

instance abbrev pub string_eq : Equality String
string_eq = record { test = str_eq; test_iff = eq_iff }

instance abbrev pub nat_eq : Equality ℕ
nat_eq = record { test = nat_beq; test_iff = nat_beq_iff }

pub &&-true : (a b : Bool) → (a && b) ≡ true → (a ≡ true) × (b ≡ true)
&&-true true b h = (refl, h)
&&-true false b h = cc h

module _ {A B : Type 0} ⦃p : Equality A⦄ ⦃q : Equality B⦄ where
  abbrev pub pair_beq : A × B → A × B → Bool
  pair_beq (a, b) (c, d) = a == c && b == d

  pub pair_beq_iff : (x y : A × B) → (pair_beq x y ≡ true) ↔ (x ≡ y)
  pair_beq_iff (a, b) (c, d) = ground (arith, p.test_iff a c, q.test_iff b d)

  instance abbrev pub pair_eq : Equality (A × B)
  pair_eq = record { test = pair_beq; test_iff = pair_beq_iff }
