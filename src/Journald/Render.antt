-- ===== src/Journald/Render.antt =====
-- What journald reads back from the drop-in that `render` writes.
use dragontools.Common.{
  ℕ, zero, suc, ◌*◌, ◌^◌, ◌≤◌, ◌<◌, ◌≡◌, refl, ap, ◌∙◌, true, false, Option, none, some, List, [],
  ◌∷◌, ◌++◌, arith, Text, codes, ◌||◌, is_digit, span, strip, number, decimal, splitlines,
  starts_with, lines_from, length, ◌==◌, nat_eq, list_eq,
}
use dragontools.Common.Strings.Laws.{
  All, All-of_all, All-literal, All-map, not_space, not_break, span-All, strip-All, lines_from-line,
  number-decimal, decimal-All, decimal-head,
}
use dragontools.Journald.Values.{size, duration, weigh_term, add_term, term, terms, unit_seconds}
use dragontools.Journald.Effective.{
  Key, system_max_use, runtime_max_use, max_retention_sec, key_name, Settings, Limits, no_settings,
  Scan, start, content_line, scan_lines, line_step, effective, bounded, clamped, render,
  parse_value, key_of, clamp, in_bound, desired, result_of, Replacement, insert, newline,
  assignment, setting, assign, is_replaced, not_equals_sign,
}

digit_not_space : (c : ℕ) → is_digit c ≡ true → not_space c ≡ true
digit_not_space c h = ground arith

digit_not_break : (c : ℕ) → is_digit c ≡ true → not_break c ≡ true
digit_not_break c h = ground arith

decimal-not_space : (n : ℕ) → All not_space (decimal n)
decimal-not_space n = All-map is_digit not_space digit_not_space (decimal n) (decimal-All n)

decimal-not_break : (n : ℕ) → All not_break (decimal n)
decimal-not_break n = All-map is_digit not_break digit_not_break (decimal n) (decimal-All n)

-- A printed number is read back as a size, in bytes.
pub size-decimal : (n : ℕ) → size (decimal n) ≡ some n
unfolding size
size-decimal n =
    let (c, s, e, d) = decimal-head n in
    rw
      (
        strip-All (decimal n) (decimal-not_space n),
        span-All is_digit (decimal n) (decimal-All n),
        e,
      )
      (ap some (rw (← e) (number-decimal n)))

term-digits : (s : Text) → All is_digit s → term s ≡ record { digits = s; unit = []; rest = [] }
unfolding term span
term-digits s a = rw (span-All is_digit s a)

terms-nil : (f : ℕ) → terms f [] ≡ some 0
unfolding terms
terms-nil zero = refl
terms-nil (suc f) = refl

terms-digits :
    (f c : ℕ) (s : Text) → All is_digit (c ∷ s) → terms (suc f) (c ∷ s) ≡ some (number (c ∷ s))
unfolding terms weigh_term add_term unit_seconds
terms-digits f c s a = rw (term-digits (c ∷ s) a, terms-nil f) (ap some (omega arith))

-- A printed number is read back as a duration, in seconds.
pub duration-decimal : (n : ℕ) → duration (decimal n) ≡ some n
unfolding duration
duration-decimal n =
    let (c, s, e, d) = decimal-head n in
    rw (strip-All (decimal n) (decimal-not_space n), e)
      (terms-digits (length s) c s (rw e at (decimal-All n))
        ∙ ap some (rw (← e) (number-decimal n)))

abbrev setting_line : Key → ℕ → Text
setting_line k v = (key_name k ++ codes "=") ++ decimal v

not_break_line : (k : Key) (v : ℕ) → All not_break (setting_line k v)
not_break_line system_max_use v =
    All-literal not_break (codes "SystemMaxUse=") (decimal v) refl (decimal-not_break v)
not_break_line runtime_max_use v =
    All-literal not_break (codes "RuntimeMaxUse=") (decimal v) refl (decimal-not_break v)
not_break_line max_retention_sec v =
    All-literal not_break (codes "MaxRetentionSec=") (decimal v) refl (decimal-not_break v)

not_space_line : (k : Key) (v : ℕ) → All not_space (setting_line k v)
not_space_line system_max_use v =
    All-literal not_space (codes "SystemMaxUse=") (decimal v) refl (decimal-not_space v)
not_space_line runtime_max_use v =
    All-literal not_space (codes "RuntimeMaxUse=") (decimal v) refl (decimal-not_space v)
not_space_line max_retention_sec v =
    All-literal not_space (codes "MaxRetentionSec=") (decimal v) refl (decimal-not_space v)

lines_from-assignment :
    (k : Key) (v : ℕ) (rest : Text)
    → lines_from (assignment k v rest) [] false ≡ setting_line k v ∷ lines_from rest [] false
lines_from-assignment system_max_use v rest =
    lines_from-line (setting_line system_max_use v) [] rest (not_break_line system_max_use v)
lines_from-assignment runtime_max_use v rest =
    lines_from-line (setting_line runtime_max_use v) [] rest (not_break_line runtime_max_use v)
lines_from-assignment max_retention_sec v rest =
    lines_from-line (setting_line max_retention_sec v) [] rest (not_break_line max_retention_sec v)

splitlines-render :
    (actual : Settings) (limits : Limits)
    → splitlines (render actual limits)
      ≡ codes "# Managed by DragonTools"
        ∷ codes "[Journal]"
        ∷ setting_line system_max_use (clamped actual limits).system
        ∷ setting_line runtime_max_use (clamped actual limits).runtime
        ∷ setting_line max_retention_sec (clamped actual limits).retention
        ∷ []
unfolding splitlines lines_from render
splitlines-render actual limits =
    let v = clamped actual limits in
    let banner = codes "# Managed by DragonTools" in
    let journal = codes "[Journal]" in
    let third = assignment max_retention_sec v.retention [] in
    let second = assignment runtime_max_use v.runtime third in
    let first = assignment system_max_use v.system second in
    lines_from-line banner [] (journal ++ (newline ++ first)) (All-of_all not_break banner refl)
    ∙ ap (λ t. banner ∷ t)
        (lines_from-line journal [] first (All-of_all not_break journal refl)
          ∙ ap (λ t. journal ∷ t)
              (lines_from-assignment system_max_use v.system second
                ∙ ap (λ t. setting_line system_max_use v.system ∷ t)
                    (lines_from-assignment runtime_max_use v.runtime third
                      ∙ ap (λ t. setting_line runtime_max_use v.runtime ∷ t)
                          (lines_from-assignment max_retention_sec v.retention []))))

decimal_not_special : (v : ℕ) → (decimal v == [] || decimal v == codes "infinity") ≡ false
decimal_not_special v = let (c, s, e, d) = decimal-head v in rw e (ground arith)

parse_value-decimal : (k : Key) (v : ℕ) → parse_value k (decimal v) ≡ some v
unfolding parse_value
parse_value-decimal system_max_use v = rw decimal_not_special (size-decimal v)
parse_value-decimal runtime_max_use v = rw decimal_not_special (size-decimal v)
parse_value-decimal max_retention_sec v = rw decimal_not_special (duration-decimal v)

abbrev in_journal : Settings → Scan
in_journal d = record { section = codes "[Journal]"; source = []; result = d }

key_of-key_name : (k : Key) → key_of (strip (key_name k)) ≡ some k
unfolding key_of strip
key_of-key_name system_max_use = refl
key_of-key_name runtime_max_use = refl
key_of-key_name max_retention_sec = refl

setting-line :
    (k : Key) (v : ℕ) (s : Scan)
    → setting (key_name k, 61 ∷ decimal v) s ≡ some (record s { result = insert k v s.result })
unfolding setting assign
setting-line k v s = rw (
  key_of-key_name k,
  strip-All (decimal v) (decimal-not_space v),
  parse_value-decimal k v,
  assign,
)

line_step-setting :
    (k : Key) (v : ℕ) (d : Settings)
    → line_step none (setting_line k v) (in_journal d) ≡ some (in_journal (insert k v d))
unfolding line_step content_line span is_replaced starts_with not_equals_sign
line_step-setting system_max_use v d =
    rw (strip-All _ (not_space_line system_max_use v))
      (setting-line system_max_use v (in_journal d))
line_step-setting runtime_max_use v d =
    rw (strip-All _ (not_space_line runtime_max_use v))
      (setting-line runtime_max_use v (in_journal d))
line_step-setting max_retention_sec v d =
    rw (strip-All _ (not_space_line max_retention_sec v))
      (setting-line max_retention_sec v (in_journal d))

line_step-banner : line_step none (codes "# Managed by DragonTools") start ≡ some start
unfolding line_step starts_with is_replaced content_line strip
line_step-banner = refl

line_step-journal : line_step none (codes "[Journal]") start ≡ some (in_journal no_settings)
unfolding line_step starts_with is_replaced content_line strip
line_step-journal = refl

pub scan_lines-step :
    (r : Replacement) (l : Text) (ls : List Text) (s : Scan) {s' : Scan}
    → line_step r l s ≡ some s'
    → scan_lines r (l ∷ ls) s ≡ scan_lines r ls s'
unfolding scan_lines
scan_lines-step r l ls s e = rw (e, scan_lines)

scan_lines-nil : (r : Replacement) (s : Scan) → scan_lines r [] s ≡ some s
unfolding scan_lines
scan_lines-nil r s = refl

-- The drop-in holds exactly the three limits.
pub effective-render :
    (actual : Settings) (limits : Limits)
    → let v = clamped actual limits in
      effective (render actual limits)
      ≡ some (record {
        system = some v.system;
        runtime = some v.runtime;
        retention = some v.retention;
      })
unfolding effective
effective-render actual limits =
    let v = clamped actual limits in
    let d1 = insert system_max_use v.system no_settings in
    let d2 = insert runtime_max_use v.runtime d1 in
    rw (splitlines-render actual limits) (
      ap result_of (
        scan_lines-step _ _ _ _ line_step-banner
        ∙ scan_lines-step _ _ _ _ line_step-journal
        ∙ scan_lines-step _ _ _ _ (line_step-setting system_max_use v.system no_settings)
        ∙ scan_lines-step _ _ _ _ (line_step-setting runtime_max_use v.runtime d1)
        ∙ scan_lines-step _ _ _ _ (line_step-setting max_retention_sec v.retention d2)
        ∙ scan_lines-nil _ _))

clamp-in_bound :
    (v : Option ℕ) (limit : ℕ) → 0 < limit → in_bound (some (clamp v limit)) limit ≡ true
clamp-in_bound none limit h = ground arith
clamp-in_bound (some n) limit h = ground arith

desired_pos :
    (a b : ℕ)
    → (0 < (desired a b).system) × (0 < (desired a b).runtime) × (0 < (desired a b).retention)
unfolding desired
desired_pos a b = (omega arith, omega arith, omega arith)

-- The drop-in that is rendered for the limits of any two capacities is read back by `effective`,
-- and what is read is bounded by these limits, whatever the settings were from which it was made.
pub bounded-render :
    (actual : Settings) (system_capacity runtime_capacity : ℕ)
    → let limits = desired system_capacity runtime_capacity in
      (read : Settings) × (effective (render actual limits) ≡ some read)
      × (bounded read limits ≡ true)
unfolding bounded clamped
bounded-render actual a b =
    let limits = desired a b in
    let (hs, hr, ht) = desired_pos a b in
    (
      _,
      effective-render actual limits,
      rw (
        clamp-in_bound actual.system limits.system hs,
        clamp-in_bound actual.runtime limits.runtime hr,
        clamp-in_bound actual.retention limits.retention ht,
      ),
    )

-- The limits that `check` asks for are positive and have the fixed ceilings, whatever the capacities.
pub desired_limits :
    (system_capacity runtime_capacity : ℕ)
    → let limits = desired system_capacity runtime_capacity in
      (1 ≤ limits.system)
      × (limits.system ≤ 1024 ^ 3)
      × (1 ≤ limits.runtime)
      × (limits.runtime ≤ 256 * 1024 ^ 2)
      × (limits.retention ≡ 604800)
unfolding desired
desired_limits a b = (omega arith, omega arith, omega arith, omega arith, omega arith)
