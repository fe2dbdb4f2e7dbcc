-- ===== src/Apps/Atomic.antt =====
-- What `app_atomic` leaves on disk at each moment.
use dragontools.Common.{
  ◌≤◌, ◌≡◌, refl, ◌⊎◌, inl, inr, true, Option, none, some, [], ◌∷◌, arith, Text, starts_with,
  length, Every, Every-append, Every-map, Every-mono, nat_beq_refl,
}
use dragontools.Apps.Renderer.{max_bytes}
use dragontools.Apps.Namespace.{Node, readable, Slot, Directory}
use dragontools.Runs.{Keeps}
use dragontools.Apps.Publish.{prefixes, stage, publish_slot, write_atomic, atomic_over, atomic}

-- A file that was written whole.
abbrev pub whole : Text → Node
whole t = record { safe = true; content = t }

-- Nothing, or a file with the beginning of the text.
abbrev pub Partial : Text → Option Node → Type 0
Partial t n = (n ≡ none) ⊎ ((p : Text) × (starts_with t p ≡ true) × (n ≡ some (whole p)))

pub starts_with_refl : (t : Text) → starts_with t t ≡ true
unfolding starts_with
starts_with_refl [] = refl
starts_with_refl (c ∷ t) = ground (arith, starts_with_refl t, nat_beq_refl c)

pub length-starts_with : (t p : Text) → starts_with t p ≡ true → length p ≤ length t
unfolding starts_with
length-starts_with t [] h = omega arith
length-starts_with [] (c ∷ p) h = cc
length-starts_with (d ∷ t) (c ∷ p) h = ground (arith, length-starts_with t p)

pub prefixes-starts_with : (t : Text) → Every (λ p. starts_with t p ≡ true) (prefixes t)
unfolding prefixes starts_with
prefixes-starts_with [] = (refl, tt)
prefixes-starts_with (c ∷ t) = (
  refl,
  Every-map (λ p. starts_with (c ∷ t) p ≡ true) (λ p. c ∷ p) (prefixes t)
      (Every-mono _ _ (λ p h. ground (arith, nat_beq_refl c, h)) (prefixes t)
        (prefixes-starts_with t)),
)

pub readable-whole : (t : Text) → length t ≤ max_bytes → readable (whole t) ≡ true
unfolding readable
readable-whole t h = ground arith

pub readable-prefix :
    (t p : Text) → length t ≤ max_bytes → starts_with t p ≡ true → readable (whole p) ≡ true
readable-prefix t p h s = readable-whole p (omega (arith, length-starts_with t p s))

module _ (s : Slot) (t : Text) (d : Directory) (I : Directory → Type 0) where
  -- If every beginning of the text may be staged, and the whole text published, then the write
  -- keeps the invariant at each moment, and it publishes the text.
  pub write_atomic-Keeps :
      ((p : Text) → starts_with t p ≡ true → I (stage s true p d))
      → I (publish_slot s t d)
      → Keeps I (λ _ e. e ≡ publish_slot s t d) (write_atomic s t true d)
  unfolding write_atomic starts_with
  write_atomic-Keeps partly done = record {
    visited = (
      partly [] refl,
      (
        partly [] refl,
        Every-append I _ _
            (Every-map I _ (prefixes t)
              (Every-mono _ _ partly (prefixes t) (prefixes-starts_with t)))
            (done, tt),
      ),
    );
    ended = refl;
  }

  atomic_over-Keeps :
      (n : Option Node)
      → length t ≤ max_bytes
      → Partial t n
      → ((p : Text) → starts_with t p ≡ true → I (stage s true p d))
      → I (publish_slot s t d)
      → Keeps I (λ _ e. e ≡ publish_slot s t d) (atomic_over true s t n d)
  unfolding atomic_over
  atomic_over-Keeps n fits (inl e) partly done = rw e (write_atomic-Keeps partly done)
  atomic_over-Keeps n fits (inr (p, h, e)) partly done =
      rw (e, readable-prefix t p fits h, h) (write_atomic-Keeps partly done)

  -- So too over what an interrupted write of the same text has staged.
  pub atomic-Keeps :
      length t ≤ max_bytes
      → Partial t (d.next s)
      → ((p : Text) → starts_with t p ≡ true → I (stage s true p d))
      → I (publish_slot s t d)
      → Keeps I (λ _ e. e ≡ publish_slot s t d) (atomic true s t d)
  unfolding atomic
  atomic-Keeps = atomic_over-Keeps (d.next s)
