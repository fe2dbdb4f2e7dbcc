-- ===== src/Telegram/Laws.antt =====
-- What `reconcile` of src/monitoring/telegram_template.py promises at each write.
use dragontools.Common.{
  ◌≡◌, refl, ap, ◌∙◌, ◌⊎◌, inr, ℕ, Bool, true, false, ◌&&◌, Option, none, some, Text, ==-sound,
  ◌==◌, nat_eq, list_eq, if◌then◌else◌, starts_with,
}
use dragontools.Runs.{
  pure, require, ◌>>◌, Stays, Stays-bind, pure-Stays, raise-Stays, require-Stays,
}
use dragontools.Scrape.Files.{Entry, missing, wrong, found}
use dragontools.Telegram.{
  World, ensure_templates, mark, publish, replace, with_parents, reconcile, is_directory, marker,
  is_short,
}

-- The bytes of a file, if it is there.
abbrev pub content_of : Entry → Option Text
content_of (found i) = some i.content
content_of _ = none

abbrev pub is_there : Entry → Bool
is_there (found i) = true
is_there _ = false

-- Alertmanager has read the template in place, or the marker asks for a restart.
abbrev pub IsCovered : World → Type 0
IsCovered w = (w.running ≡ content_of w.template) ⊎ (is_there w.pending ≡ true)

module _ (made_mode : ℕ) (install : Bool) (expected : Text) where
  -- The template is the expected one, and after a change the marker is there.
  abbrev pub Installed : Bool → World → Type 0
  Installed changed w =
      (content_of w.template ≡ some expected) × ((changed ≡ true) → is_there w.pending ≡ true)

  ensure_templates-Stays :
      (e : Entry) (w : World)
      → IsCovered w
      → Stays IsCovered (λ _ v. IsCovered v) (ensure_templates made_mode install expected e w)
  unfolding ensure_templates
  ensure_templates-Stays missing w c =
      Stays-bind IsCovered _ _ (require install) _ w (require-Stays IsCovered install w c)
        λ _ v i _. record { visited = (i, (i, tt)); last = i; result = λ _ _. i }
  ensure_templates-Stays wrong w c = raise-Stays IsCovered _ w c
  ensure_templates-Stays (found i) w c =
      let r = require-Stays IsCovered (is_directory (found i)) w c in
      record { visited = r.visited; last = r.last; result = λ _ _. r.last }

  mark-Stays :
      (e : Entry) (w : World)
      → w.pending ≡ e
      → IsCovered w
      → Stays IsCovered (λ _ v. is_there v.pending ≡ true) (mark made_mode install expected e w)
  unfolding mark
  mark-Stays missing w e c = record {
    visited = (inr refl, tt);
    last = inr refl;
    result = λ _ _. refl;
  }
  mark-Stays wrong w e c = raise-Stays IsCovered _ w c
  mark-Stays (found i) w e c = owned i.owned (ap is_there e)
    where
      owned :
          (b : Bool)
          → is_there w.pending ≡ true
          → Stays IsCovered (λ _ v. is_there v.pending ≡ true) (require b w)
      owned true p = pure-Stays IsCovered _ tt w c p
      owned false p = raise-Stays IsCovered _ w c

  publish-Stays :
      (w : World) → IsCovered w → Stays IsCovered Installed (publish made_mode install expected w)
  unfolding publish
  publish-Stays w c =
      Stays-bind IsCovered _ Installed (require install) _ w (require-Stays IsCovered install w c)
        λ _ v i q.
          Stays-bind IsCovered _ Installed (mark made_mode install expected w.pending) _ v
            (mark-Stays w.pending v (ap (λ (u : World). u.pending) q.0) i)
            λ _ u j p. record {
              visited = (inr p, tt);
              last = inr p;
              result = λ b e. (refl, λ _. p);
            }

  replace-Stays :
      (e : Entry) (w : World)
      → w.template ≡ e
      → IsCovered w
      → Stays IsCovered Installed (replace made_mode install expected e w)
  unfolding replace
  replace-Stays missing w e c = publish-Stays w c
  replace-Stays wrong w e c = raise-Stays IsCovered _ w c
  replace-Stays (found i) w e c =
      Stays-bind IsCovered _ Installed (require _) _ w (require-Stays IsCovered _ w c)
        λ _ v j q. same v (i.content == expected) refl j (ap (λ (u : World). u.template) q.0 ∙ e)
    where
      same :
          (v : World) (b : Bool)
          → (i.content == expected) ≡ b
          → IsCovered v
          → v.template ≡ found i
          → Stays IsCovered Installed
              (if b then pure false v else publish made_mode install expected v)
      same v true h j t =
          pure-Stays IsCovered Installed false v j
            (ap content_of t ∙ ap some (==-sound i.content expected h), λ f. absurd (cc f))
      same v false h j t = publish-Stays v j

  with_parents-IsCovered :
      (w : World)
      → IsCovered w
      → Stays IsCovered Installed (with_parents made_mode install expected w)
  unfolding with_parents
  with_parents-IsCovered w c =
      Stays-bind IsCovered _ Installed (require (is_directory w.parent && is_directory w.base))
        (λ _.
          ensure_templates made_mode install expected w.templates
          >> (λ v. replace made_mode install expected v.template v))
        w (require-Stays IsCovered (is_directory w.parent && is_directory w.base) w c)
        λ _ u j p.
          Stays-bind IsCovered (λ _ x. IsCovered x) Installed
            (ensure_templates made_mode install expected w.templates)
            (λ _ v. replace made_mode install expected v.template v) u
            (ensure_templates-Stays w.templates u j) λ _ x k _. replace-Stays x.template x refl k

  -- However a run of `reconcile` is cut off, at each of its writes Alertmanager has read the template in
  -- place or the marker that asks for a restart is there, if it was so before. If it returns, the
  -- template in place is the expected one, and if it returns True the marker is there.
  pub reconcile-IsCovered :
      (w : World) → IsCovered w → Stays IsCovered Installed (reconcile made_mode install expected w)
  unfolding reconcile
  reconcile-IsCovered w c =
      Stays-bind IsCovered _ Installed (require (starts_with expected marker && is_short expected))
        (λ _. with_parents made_mode install expected) w
        (require-Stays IsCovered (starts_with expected marker && is_short expected) w c)
        λ _ v i q. with_parents-IsCovered v i
