-- ===== src/Common/Strings/Laws.antt =====
-- Laws of the text functions: runs of one class of characters, stripping, lines, and decimals.
use Prim.Native.Nat.{ℕ, zero, suc, ◌+◌, ◌-◌, ◌*◌, ◌/◌, ◌%◌, ◌<◌}
use mathlib.Core.Path.{◌≡◌, refl}
use mathlib.Core.Logic.{inl, inr}
use mathlib.Core.Bool.{Bool, true, false, not}
use mathlib.Core.List.{
  [], ◌∷◌, ◌++◌, reverse, reverse-reverse, reverse-append, append_assoc, append-nil,
}
use native.Mathlib.Omega.{arith}
use dragontools.Common.Tests.{ltb, Bool-cases, if◌then◌else◌}
use dragontools.Common.Strings.{
  Text, is_digit, is_break, is_space, span, lstrip, strip, lines_from, number_from, number,
  decimal_fuel, decimal,
}

-- Every character passes the test.
abbrev pub All : (ℕ → Bool) → Text → Type 0
All p [] = Unit
All p (c ∷ s) = (p c ≡ true) × All p s

abbrev pub all : (ℕ → Bool) → Text → Bool
all p [] = true
all p (c ∷ s) = if p c then all p s else false

-- At a literal the test evaluates.
pub All-of_all : (p : ℕ → Bool) (s : Text) → all p s ≡ true → All p s
All-of_all p [] h = tt
All-of_all p (c ∷ s) h = ground (arith, All-of_all p s)

pub All-append : (p : ℕ → Bool) (s t : Text) → All p s → All p t → All p (s ++ t)
All-append p [] t hs ht = ht
All-append p (c ∷ s) t hs ht = (hs.0, All-append p s t hs.1 ht)

-- A literal, and text about which the fact is known.
pub All-literal : (p : ℕ → Bool) (s t : Text) → all p s ≡ true → All p t → All p (s ++ t)
All-literal p s t h a = All-append p s t (All-of_all p s h) a

pub All-map :
    (p q : ℕ → Bool) → ((c : ℕ) → p c ≡ true → q c ≡ true) → (s : Text) → All p s → All q s
All-map p q h [] a = tt
All-map p q h (c ∷ s) a = (h c a.0, All-map p q h s a.1)

All-reverse : (p : ℕ → Bool) (s : Text) → All p s → All p (reverse s)
All-reverse p [] a = tt
All-reverse p (c ∷ s) a =
    rw (reverse-append (c ∷ []) s)
      (All-append p (reverse s) (c ∷ []) (All-reverse p s a.1) (a.0, tt))

abbrev pub not_space : ℕ → Bool
not_space c = not (is_space c)

abbrev pub not_break : ℕ → Bool
not_break c = not (is_break c)

pub span-All : (p : ℕ → Bool) (s : Text) → All p s → span p s ≡ (s, [])
unfolding span
span-All p [] a = refl
span-All p (c ∷ s) (h, a) = rw (span-All p s a, h)

pub span-append :
    (p : ℕ → Bool) (s : Text) (c : ℕ) (t : Text)
    → All p s
    → p c ≡ false
    → span p (s ++ (c ∷ t)) ≡ (s, c ∷ t)
unfolding span
span-append p [] c t a stop = rw stop
span-append p (d ∷ s) c t (h, a) stop = rw (span-append p s c t a stop, h)

lstrip-All : (s : Text) → All not_space s → lstrip s ≡ s
unfolding lstrip
lstrip-All [] a = refl
lstrip-All (c ∷ s) a = ground arith

pub strip-All : (s : Text) → All not_space s → strip s ≡ s
unfolding strip
strip-All s a =
    rw (lstrip-All s a, lstrip-All (reverse s) (All-reverse not_space s a)) (reverse-reverse s)

-- A line that holds no line boundary, and its newline, are split off.
pub lines_from-line :
    (s cur t : Text)
    → All not_break s
    → lines_from (s ++ (10 ∷ t)) cur false ≡ (cur ++ s) ∷ lines_from t [] false
unfolding lines_from
lines_from-line [] cur t a = rw (append-nil cur)
lines_from-line (c ∷ s) cur t (h, a) =
    ground (arith, lines_from-line s (cur ++ (c ∷ [])) t a, append_assoc cur (c ∷ []) s)

number_from-snoc :
    (acc : ℕ) (s : Text) (c : ℕ)
    → number_from acc (s ++ (c ∷ [])) ≡ number_from acc s * 10 + (c - 48)
unfolding number_from
number_from-snoc acc [] c = refl
number_from-snoc acc (d ∷ s) c = number_from-snoc (acc * 10 + (d - 48)) s c

number-decimal_fuel : (f n : ℕ) → n < f → number_from 0 (decimal_fuel f n) ≡ n
unfolding decimal_fuel number_from
number-decimal_fuel zero n h = elim h [ ]
number-decimal_fuel (suc f) n h = ground (
  arith,
  number_from-snoc 0 (decimal_fuel f (n / 10)) (48 + n % 10),
  number-decimal_fuel f (n / 10),
)

-- Reading a printed number gives it back.
pub number-decimal : (n : ℕ) → number (decimal n) ≡ n
unfolding number decimal
number-decimal n = number-decimal_fuel (suc n) n (omega arith)

decimal_fuel-All : (f n : ℕ) → All is_digit (decimal_fuel f n)
unfolding decimal_fuel
decimal_fuel-All zero n = tt
decimal_fuel-All (suc f) n = elim (Bool-cases (ltb n 10)) [
  | inl small ↦ rw small (ground arith, tt)
  | inr large ↦ rw large (
      All-append is_digit (decimal_fuel f (n / 10)) _ (decimal_fuel-All f (n / 10))
        (ground arith, tt))
]

pub decimal-All : (n : ℕ) → All is_digit (decimal n)
unfolding decimal
decimal-All n = decimal_fuel-All (suc n) n

snoc-head : (s : Text) (d : ℕ) → (c : ℕ) × (t : Text) × (s ++ (d ∷ []) ≡ c ∷ t)
snoc-head [] d = (d, [], refl)
snoc-head (c ∷ s) d = (c, s ++ (d ∷ []), refl)

-- A printed number begins with a digit.
pub decimal-head : (n : ℕ) → (c : ℕ) × (s : Text) × (decimal n ≡ c ∷ s) × (is_digit c ≡ true)
unfolding decimal decimal_fuel
decimal-head n = elim (Bool-cases (ltb n 10)) [
  | inl small ↦ (48 + n, [], rw small, ground arith)
  | inr large ↦
      let (c, s, e) = snoc-head (decimal_fuel n (n / 10)) (48 + n % 10) in
      (
        c,
        s,
        rw large e,
        (rw e at (
            All-append is_digit (decimal_fuel n (n / 10)) ((48 + n % 10) ∷ [])
              (decimal_fuel-All n (n / 10)) (ground arith, tt))).0,
      )
]
