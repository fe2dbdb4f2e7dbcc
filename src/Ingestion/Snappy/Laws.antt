-- ===== src/Ingestion/Snappy/Laws.antt =====
-- `bounded_snappy` of src/monitoring/agents/ingestion.py against the format of a base-128 varint.
use dragontools.Common.{
  ◌≡◌, refl, ap, ◌∙◌, inl, inr, ℕ, suc, ◌+◌, ◌*◌, ◌^◌, ◌%◌, true, ◌&&◌, Option, none, some, [], ◌∷◌,
  Text, ltb, leb, take, if◌then◌else◌, arith, Bool-cases,
}
use native.Mathlib.Nat.{pow-succ'}
use dragontools.Common.Result.{Result, ok, refused}
use dragontools.Ingestion.Snappy.{block_limit, size_from, bounded_snappy}

-- The number that a varint at the front of the bytes stands for: groups of seven bits, the lowest
-- first, and the high bit set on all but the last byte.
unfoldable pub varint : Text → Option ℕ
varint [] = none
varint (byte ∷ bytes) =
    let rest = varint bytes in
    if ltb byte 128
    then some byte
    else elim rest [ none ↦ none | some n ↦ some (byte % 128 + 128 * n) ]

abbrev pub within : Option ℕ → Result (Unit {0})
within none = refused
within (some n) = if ltb 0 n && leb n block_limit then ok tt else refused

abbrev pub shifted : ℕ → ℕ → Option ℕ → Option ℕ
shifted size weight none = none
shifted size weight (some n) = some (size + n * weight)

seven_doublings : (m : ℕ) → 2 ^ (suc (suc (suc (suc (suc (suc (suc m))))))) ≡ 128 * 2 ^ m
seven_doublings m = omega (
  arith,
  pow-succ' 2 m,
  pow-succ' 2 (suc m),
  pow-succ' 2 (suc (suc m)),
  pow-succ' 2 (suc (suc (suc m))),
  pow-succ' 2 (suc (suc (suc (suc m)))),
  pow-succ' 2 (suc (suc (suc (suc (suc m))))),
  pow-succ' 2 (suc (suc (suc (suc (suc (suc m)))))),
)

seven_more : (index : ℕ) → suc index * 7 ≡ suc (suc (suc (suc (suc (suc (suc (index * 7)))))))
seven_more index = omega arith

next_weight : (index : ℕ) → 2 ^ (suc index * 7) ≡ 128 * 2 ^ (index * 7)
next_weight index = ap (λ m. 2 ^ m) (seven_more index) ∙ seven_doublings (index * 7)

shift_step :
    (size byte n weight : ℕ)
    → (size + byte * weight) + n * (128 * weight) ≡ size + (byte + 128 * n) * weight
shift_step size byte n weight = omega arith

shifted_twice :
    (index size byte : ℕ) (o : Option ℕ)
    → shifted (size + byte * 2 ^ (index * 7)) (2 ^ (suc index * 7)) o
      ≡ shifted size (2 ^ (index * 7)) (elim o [ none ↦ none | some n ↦ some (byte + 128 * n) ])
shifted_twice index size byte none = refl
shifted_twice index size byte (some n) =
    ap (λ w. some ((size + byte * 2 ^ (index * 7)) + n * w)) (next_weight index)
    ∙ ap some (shift_step size byte n (2 ^ (index * 7)))

small : (byte : ℕ) → ltb byte 128 ≡ true → byte % 128 ≡ byte
small byte h = ground arith

size_from-varint :
    (index size : ℕ) (bytes : Text)
    → size_from index size bytes ≡ within (shifted size (2 ^ (index * 7)) (varint bytes))
unfolding size_from varint
size_from-varint index size [] = refl
size_from-varint index size (byte ∷ bytes) = elim (Bool-cases (ltb byte 128)) [
  | inl e ↦ rw e (ap within (ap (λ b. shifted size (2 ^ (index * 7)) (some b)) (small byte e)))
  | inr e ↦ rw e (
      size_from-varint (suc index) (size + (byte % 128) * 2 ^ (index * 7)) bytes
      ∙ ap within (shifted_twice index size (byte % 128) (varint bytes)))
]

unshifted : (o : Option ℕ) → shifted 0 1 o ≡ o
unshifted none = refl
unshifted (some n) = ap some (unit_weight n)
  where
    unit_weight : (n : ℕ) → 0 + n * 1 ≡ n
    unit_weight n = omega arith

-- `bounded_snappy` accepts a body exactly when the varint in its first five bytes ends there and
-- stands for a size from one byte to 16 MiB.
pub bounded_snappy-varint : (body : Text) → bounded_snappy body ≡ within (varint (take 5 body))
unfolding bounded_snappy
bounded_snappy-varint body =
    size_from-varint 0 0 (take 5 body) ∙ ap within (unshifted (varint (take 5 body)))
