-- ===== src/Scrape/Prepare.antt =====
-- The writes to directories and their metadata in src/monitoring/scrape_mutate.py.
use dragontools.Common.{
  ℕ, ◌≡◌, refl, ap, ◌∙◌, Bool, true, false, not, ◌||◌, Text, ◌==◌, nat_eq, list_eq, ==-sound,
  if◌then◌else◌,
}
use dragontools.Runs.{
  Program, Stays, Stays-bind, pure-Stays, raise-Stays, write-Stays, pure, write, ◌>>◌,
}
use dragontools.Scrape.Files.{Info, Entry, missing, wrong, found, World, directory_mode}
use dragontools.Scrape.Mutate.{Host, repair, ensure_directory}

abbrev pub whole : ℕ → Text → Entry
whole m c = found (record { owned = true; mode = m; content = c })

abbrev pub IsDirectory : Entry → Type 0
IsDirectory e = (c : Text) × (e ≡ whole directory_mode c)

unless_write-Stays :
    (I Q : World → Type 0) (b : Bool) (t w : World)
    → I w
    → (b ≡ true → Q w)
    → I t
    → Q t
    → Stays I (λ _. Q) ((if b then pure tt else write t) w)
unless_write-Stays I Q true t w inv kept inv' written = pure-Stays I _ tt w inv (kept refl)
unless_write-Stays I Q false t w inv kept inv' written = record {
  visited = (inv', tt);
  last = inv';
  result = λ _ _. written;
}

module _ (set : World → Entry → World) (get : World → Entry)
    (read : (w : World) (e : Entry) → get (set w e) ≡ e) (I : World → Type 0) where
  pub repair-Stays :
      (m : ℕ) (i : Info) (w : World)
      → ((w' : World) (j : Info) → j.content ≡ i.content → I w' → I (set w' (found j)))
      → I w
      → get w ≡ found i
      → Stays I (λ _ w'. get w' ≡ whole m i.content) (repair set m i w)
  unfolding repair
  repair-Stays m i w keep inv at =
      let owned : Info = record i { owned = true } in
      let final : Info = record i { owned = true; mode = m } in
      let changed = not i.owned || not (i.mode == m) in
      let first : Program World (Unit {0}) =
        if i.owned then pure tt else write (set w (found owned)) in
      let second : Program World (Unit {0}) =
        if i.mode == m then pure tt else write (set w (found final)) in
      Stays-bind I (λ _ w'. get w' ≡ found owned) _ first (λ _. second >> pure changed) w
        (unless_write-Stays I (λ w'. get w' ≡ found owned) i.owned (set w (found owned)) w inv
          (λ e. at ∙ ap (λ b. found (record i { owned = b })) e) (keep w owned refl inv)
          (read w (found owned)))
        (λ _ w' inv' at'.
          Stays-bind I (λ _ w'. get w' ≡ found final) _ second (λ _. pure changed) w'
            (unless_write-Stays I (λ w'. get w' ≡ found final) (i.mode == m) (set w (found final))
              w' inv' (λ e. at' ∙ ap (λ n. found (record owned { mode = n })) (==-sound i.mode m e))
              (keep w final refl inv) (read w (found final)))
            (λ _ w'' inv'' at''. pure-Stays I _ changed w'' inv'' at''))

  module _ (host : Host) (keep : (w : World) (e : Entry) → I w → I (set w e)) where
    made-Stays :
        (made : Info) (w : World)
        → I w
        → Stays I
            (λ _ w'. IsDirectory (get w'))
            ((write (set w (found made)) >> (repair set directory_mode made >> pure true)) w)
    made-Stays made w inv =
        Stays-bind I (λ _ w'. w' ≡ set w (found made)) _ (write (set w (found made)))
          (λ _. repair set directory_mode made >> pure true) w
          (write-Stays I w (set w (found made)) (keep w (found made) inv))
          (λ _ w' inv' e.
            Stays-bind I (λ _ w'. get w' ≡ whole directory_mode made.content) _
              (repair set directory_mode made) (λ _. pure true) w'
              (repair-Stays directory_mode made w' (λ v j _. keep v (found j)) inv'
                (ap get e ∙ read w (found made)))
              (λ _ w'' inv'' at. pure-Stays I _ true w'' inv'' (made.content, at)))

    ensure_directory_at :
        (w : World) (e : Entry)
        → get w ≡ e
        → I w
        → Stays I (λ _ w'. IsDirectory (get w')) (ensure_directory host set e w)
    unfolding ensure_directory
    ensure_directory_at w missing at inv = made-Stays _ w inv
    ensure_directory_at w wrong at inv = raise-Stays I _ w inv
    ensure_directory_at w (found i) at inv =
        let r = repair-Stays directory_mode i w (λ v j _. keep v (found j)) inv at in
        record { visited = r.visited; last = r.last; result = λ a e. (i.content, r.result a e) }

    pub ensure_directory-Stays :
        (w : World)
        → I w
        → Stays I (λ _ w'. IsDirectory (get w')) (ensure_directory host set (get w) w)
    ensure_directory-Stays w = ensure_directory_at w (get w) refl
