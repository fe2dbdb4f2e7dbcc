-- ===== src/Dashboards/Grid/Laws.antt =====
-- The panels of a dashboard have distinct ids and do not overlap.
use dragontools.Common.{
  subst, ℕ, suc, ◌+◌, ◌≤◌, ◌<◌, ◌≡◌, refl, ap, ◌⊎◌, inl, inr, Bool, true, false, List, [], ◌∷◌,
  ◌++◌, Text, arith, length, Every, Every-append, Every-mono,
}
use dragontools.Dashboards.Grid.{
  Panel, Section, body_height, member_panel, place_members, section_panels, section_end,
  unless_empty, place, place_end, Ending, station, application, ending_panels, panels,
}

-- One is left of, right of, above or below the other.
abbrev pub Apart : Panel → Panel → Type 0
Apart p q = (p.x + p.w ≤ q.x) ⊎ ((q.x + q.w ≤ p.x) ⊎ ((p.y + p.h ≤ q.y) ⊎ (q.y + q.h ≤ p.y)))

abbrev pub Pairwise : List Panel → Type 0
Pairwise [] = Unit
Pairwise (p ∷ ps) = Every (Apart p) ps × Pairwise ps

-- Between two lines, and in the width of the dashboard.
abbrev pub Within : ℕ → ℕ → Panel → Type 0
Within low high p = (low ≤ p.y) × (p.y + p.h ≤ high) × (p.x + p.w ≤ 24)

members-Apart :
    (stats : Bool) (m n y i j : ℕ) (s t : Text)
    → i < j
    → Apart (member_panel stats m y i s) (member_panel stats n y j t)
members-Apart true m n y i j s t h = ground arith
members-Apart false m n y i j s t h = ground arith

member-Within :
    (stats : Bool) (n y i len : ℕ) (t : Text)
    → i < len
    → Within y (y + body_height stats len) (member_panel stats n y i t)
member-Within true n y i len t h = (omega arith, omega arith, omega arith)
member-Within false n y i len t h = (omega arith, omega arith, omega arith)

place_members-Within :
    (stats : Bool) (count y i len : ℕ) (ms : List Text)
    → i + length ms ≤ len
    → Every (Within y (y + body_height stats len)) (place_members stats count y i ms)
unfolding place_members
place_members-Within stats count y i len [] h = tt
place_members-Within stats count y i len (t ∷ ms) h = (
  member-Within stats (suc count) y i len t (omega arith),
  place_members-Within stats (suc count) y (suc i) len ms (omega arith),
)

place_members-Apart :
    (stats : Bool) (m count y i j : ℕ) (s : Text) (ms : List Text)
    → i < j
    → Every (Apart (member_panel stats m y i s)) (place_members stats count y j ms)
unfolding place_members
place_members-Apart stats m count y i j s [] h = tt
place_members-Apart stats m count y i j s (t ∷ ms) h = (
  members-Apart stats m (suc count) y i j s t h,
  place_members-Apart stats m (suc count) y i (suc j) s ms (omega arith),
)

place_members-Pairwise :
    (stats : Bool) (count y i : ℕ) (ms : List Text) → Pairwise (place_members stats count y i ms)
unfolding place_members
place_members-Pairwise stats count y i [] = tt
place_members-Pairwise stats count y i (t ∷ ms) = (
  place_members-Apart stats (suc count) (suc count) y i (suc i) t ms (omega arith),
  place_members-Pairwise stats (suc count) y (suc i) ms,
)

section-Within :
    (s : Section) (count y : ℕ) → Every (Within y (section_end s y)) (section_panels s count y)
section-Within s count y = (
  (omega arith, omega arith, omega arith),
  Every-mono (Within (y + 1) (section_end s y)) (Within y (section_end s y))
      (λ p h. (omega (arith, h.0), h.1, h.2)) _
      (place_members-Within s.stats (suc count) (y + 1) 0 (length s.members) s.members
        (omega arith)),
)

section-Pairwise : (s : Section) (count y : ℕ) → Pairwise (section_panels s count y)
section-Pairwise s count y = (
  Every-mono (Within (y + 1) (section_end s y)) _ (λ p h. inr (inr (inl h.0))) _
      (place_members-Within s.stats (suc count) (y + 1) 0 (length s.members) s.members
        (omega arith)),
  place_members-Pairwise s.stats (suc count) (y + 1) 0 s.members,
)

Pairwise-append :
    (low : ℕ) (ps qs : List Panel)
    → Pairwise ps
    → Pairwise qs
    → Every (λ p. p.y + p.h ≤ low) ps
    → Every (λ q. low ≤ q.y) qs
    → Pairwise (ps ++ qs)
Pairwise-append low [] qs hp hq above below = hq
Pairwise-append low (p ∷ ps) qs hp hq above below = (
  Every-append (Apart p) ps qs hp.0
      (Every-mono _ _ (λ q h. inr (inr (inl (omega (arith, h, above.0))))) qs below),
  Pairwise-append low ps qs hp.1 hq above.1 below,
)

unless_empty-elim :
    (P : List Panel → Type 0) (ms : List Text) (xs ys : List Panel)
    → P xs
    → P ys
    → P (unless_empty ms xs ys)
unless_empty-elim P [] xs ys a b = a
unless_empty-elim P (_ ∷ _) xs ys a b = b

unless_empty_mono :
    (low : ℕ) (ms : List Text) (a b : ℕ) → low ≤ a → low ≤ b → low ≤ unless_empty ms a b
unless_empty_mono low [] a b h k = h
unless_empty_mono low (_ ∷ _) a b h k = k

place_end-ge : (ss : List Section) (y : ℕ) → y ≤ place_end ss y
unfolding place_end
place_end-ge [] y = omega arith
place_end-ge (s ∷ ss) y =
    unless_empty_mono y s.members _ _ (place_end-ge ss y)
      (omega (arith, place_end-ge ss (section_end s y)))

-- The panels of a section, and those after it.
rest-Within :
    (ms : List Text) (y a b : ℕ) (xs ys : List Panel)
    → Every (Within y a) xs
    → Every (Within y b) ys
    → Every (Within y (unless_empty ms a b)) (unless_empty ms xs ys)
rest-Within [] y a b xs ys h k = h
rest-Within (_ ∷ _) y a b xs ys h k = k

place-Within :
    (ss : List Section) (count y : ℕ) → Every (Within y (place_end ss y)) (place ss count y)
unfolding place place_end
place-Within [] count y = tt
place-Within (s ∷ ss) count y =
    let last = place_end-ge ss (section_end s y) in
    rest-Within s.members y _ _ _ _ (place-Within ss count y) (
      Every-append (Within y (place_end ss (section_end s y))) (section_panels s count y) _
        (Every-mono (Within y (section_end s y)) _ (λ p h. (h.0, omega (arith, h.1, last), h.2))
          (section_panels s count y) (section-Within s count y))
        (Every-mono (Within (section_end s y) (place_end ss (section_end s y))) _
          (λ p h. (omega (arith, h.0), h.1, h.2)) _
          (place-Within ss (count + 1 + length s.members) (section_end s y))))

place-Pairwise : (ss : List Section) (count y : ℕ) → Pairwise (place ss count y)
unfolding place
place-Pairwise [] count y = tt
place-Pairwise (s ∷ ss) count y =
    unless_empty-elim Pairwise s.members _ _ (place-Pairwise ss count y) (
      Pairwise-append (section_end s y) (section_panels s count y) _ (section-Pairwise s count y)
        (place-Pairwise ss (count + 1 + length s.members) (section_end s y))
        (Every-mono (Within y (section_end s y)) (λ p. p.y + p.h ≤ section_end s y) (λ p h. h.1)
          (section_panels s count y) (section-Within s count y))
        (Every-mono (Within (section_end s y) (place_end ss (section_end s y)))
          (λ p. section_end s y ≤ p.y) (λ p h. h.0) _
          (place-Within ss (count + 1 + length s.members) (section_end s y))))

ending-Pairwise : (e : Ending) (id y : ℕ) → Pairwise (ending_panels e id y)
unfolding ending_panels
ending-Pairwise station id y = (tt, tt)
ending-Pairwise (application true) id y = (tt, tt)
ending-Pairwise (application false) id y = tt

ending-below : (e : Ending) (id y : ℕ) → Every (λ p. y ≤ p.y) (ending_panels e id y)
unfolding ending_panels
ending-below station id y = (omega arith, tt)
ending-below (application true) id y = (omega arith, tt)
ending-below (application false) id y = tt

-- Whatever the sections of a dashboard are, and whichever panel follows them: no two of its panels
-- overlap.
pub panels-Pairwise : (ss : List Section) (e : Ending) → Pairwise (panels ss e)
unfolding panels
panels-Pairwise ss e =
    Pairwise-append (place_end ss 0) (place ss 0 0) _ (place-Pairwise ss 0 0)
      (ending-Pairwise e (suc (length (place ss 0 0))) (place_end ss 0))
      (Every-mono (Within 0 (place_end ss 0)) _ (λ p h. h.1) (place ss 0 0) (place-Within ss 0 0))
      (ending-below e (suc (length (place ss 0 0))) (place_end ss 0))

-- The ids are consecutive numbers, from the given one on.
abbrev pub Numbered : ℕ → List Panel → Type 0
Numbered n [] = Unit
Numbered n (p ∷ ps) = (p.id ≡ n) × Numbered (suc n) ps

Numbered-append :
    (n m : ℕ) (ps qs : List Panel)
    → m ≡ n + length ps
    → Numbered n ps
    → Numbered m qs
    → Numbered n (ps ++ qs)
Numbered-append n m [] qs e hp hq = subst (λ k. Numbered k qs) {y = n} (omega arith) hq
Numbered-append n m (p ∷ ps) qs e hp hq =
    (hp.0, Numbered-append (suc n) m ps qs (omega arith) hp.1 hq)

place_members-Numbered :
    (stats : Bool) (count y i : ℕ) (ms : List Text)
    → Numbered (suc count) (place_members stats count y i ms)
unfolding place_members
place_members-Numbered stats count y i [] = tt
place_members-Numbered stats count y i (t ∷ ms) =
    (refl, place_members-Numbered stats (suc count) y (suc i) ms)

length-place_members :
    (stats : Bool) (count y i : ℕ) (ms : List Text)
    → length (place_members stats count y i ms) ≡ length ms
unfolding place_members
length-place_members stats count y i [] = refl
length-place_members stats count y i (t ∷ ms) =
    ap suc (length-place_members stats (suc count) y (suc i) ms)

place-Numbered : (ss : List Section) (count y : ℕ) → Numbered (suc count) (place ss count y)
unfolding place
place-Numbered [] count y = tt
place-Numbered (s ∷ ss) count y =
    unless_empty-elim (Numbered (suc count)) s.members _ _ (place-Numbered ss count y) (
      Numbered-append (suc count) (suc (count + 1 + length s.members)) (section_panels s count y) _
        (omega (arith, length-place_members s.stats (suc count) (y + 1) 0 s.members))
        (refl, place_members-Numbered s.stats (suc count) (y + 1) 0 s.members)
        (place-Numbered ss (count + 1 + length s.members) (section_end s y)))

ending-Numbered : (e : Ending) (id y : ℕ) → Numbered id (ending_panels e id y)
unfolding ending_panels
ending-Numbered station id y = (refl, tt)
ending-Numbered (application true) id y = (refl, tt)
ending-Numbered (application false) id y = tt

-- Whatever the sections of a dashboard are, and whichever panel follows them: the ids of its panels
-- are 1, 2 and so on, so that no two are the same.
pub panels-Numbered : (ss : List Section) (e : Ending) → Numbered 1 (panels ss e)
unfolding panels
panels-Numbered ss e =
    Numbered-append 1 (suc (length (place ss 0 0))) (place ss 0 0) _ (omega arith)
      (place-Numbered ss 0 0) (ending-Numbered e (suc (length (place ss 0 0))) (place_end ss 0))
