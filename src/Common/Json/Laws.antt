-- ===== src/Common/Json/Laws.antt =====
-- What reading a field gives after an assignment or a removal.
use dragontools.Common.{
  ◌≡◌, refl, sym, subst, inl, inr, false, none, some, Text, Bool-cases, ◌==◌, ==-refl, ==-sound,
  list_eq, nat_eq,
}
use dragontools.Common.Json.{Json, Fields, end, field, lookup, assign, remove}

pub lookup-assign : (k : Text) (v : Json) (fs : Fields) → lookup k (assign k v fs) ≡ some v
unfolding lookup assign
lookup-assign k v end = rw (==-refl k)
lookup-assign k v (field j w fs) = elim (Bool-cases (j == k)) [
  | inl e ↦ rw (e, e)
  | inr e ↦ rw (e, e, lookup-assign k v fs)
]

pub lookup-assign_other :
    (k j : Text) (v : Json) (fs : Fields)
    → (j == k) ≡ false
    → lookup k (assign j v fs) ≡ lookup k fs
unfolding lookup assign
lookup-assign_other k j v end h = rw h
lookup-assign_other k j v (field i w fs) h = elim (Bool-cases (i == j)) [
  | inl e ↦ let q = subst (λ t. (t == k) ≡ false) (sym (==-sound i j e)) h in rw (e, q)
  | inr e ↦ rw (e, lookup-assign_other k j v fs h)
]

pub lookup-remove : (k : Text) (fs : Fields) → lookup k (remove k fs) ≡ none
unfolding lookup remove
lookup-remove k end = refl
lookup-remove k (field j w fs) = elim (Bool-cases (j == k)) [
  | inl e ↦ rw (e, lookup-remove k fs)
  | inr e ↦ rw (e, e, lookup-remove k fs)
]

pub lookup-remove_other :
    (k j : Text) (fs : Fields) → (j == k) ≡ false → lookup k (remove j fs) ≡ lookup k fs
unfolding lookup remove
lookup-remove_other k j end h = refl
lookup-remove_other k j (field i w fs) h = elim (Bool-cases (i == j)) [
  | inl e ↦
      let q = subst (λ t. (t == k) ≡ false) (sym (==-sound i j e)) h in
      rw (e, q, lookup-remove_other k j fs h)
  | inr e ↦ rw (e, lookup-remove_other k j fs h)
]
