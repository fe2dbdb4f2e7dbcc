-- ===== src/Journald/Effective.antt =====
-- `effective`, `desired`, `bounded` and `render` of src/monitoring/agents/journald.py.
-- The dictionaries over `KEYS` are records with an optional number for each key.
use dragontools.Common.{
  ℕ, ◌*◌, ◌/◌, ◌^◌, min, max, Bool, true, false, not, ◌&&◌, ◌||◌, Option, none, some, List, [], ◌∷◌,
  ◌++◌, Text, codes, span, strip, splitlines, starts_with, decimal, nat_beq, ltb, leb,
  if◌then◌else◌, ◌==◌, nat_eq, list_eq,
}
use dragontools.Journald.Values.{size, duration}

abbrev pub dropin_path : Text
dropin_path = codes "/etc/systemd/journald.conf.d/90-dragontools.conf"

-- `KEYS`
pub data Key : Type 0 where
  system_max_use runtime_max_use max_retention_sec : Key

abbrev pub key_name : Key → Text
key_name system_max_use = codes "SystemMaxUse"
key_name runtime_max_use = codes "RuntimeMaxUse"
key_name max_retention_sec = codes "MaxRetentionSec"

pub record Settings : Type 0 where
  pub system : Option ℕ
  pub runtime : Option ℕ
  pub retention : Option ℕ

abbrev pub no_settings : Settings
no_settings = record { system = none; runtime = none; retention = none }

abbrev pub lookup : Key → Settings → Option ℕ
lookup system_max_use d = d.system
lookup runtime_max_use d = d.runtime
lookup max_retention_sec d = d.retention

abbrev pub insert : Key → ℕ → Settings → Settings
insert system_max_use v d = record d { system = some v }
insert runtime_max_use v d = record d { runtime = some v }
insert max_retention_sec v d = record d { retention = some v }

abbrev pub or_old : Option ℕ → Option ℕ → Option ℕ
or_old none old = old
or_old (some v) old = some v

-- `d.update(u)`
abbrev pub update : Settings → Settings → Settings
update d u = record {
  system = or_old u.system d.system;
  runtime = or_old u.runtime d.runtime;
  retention = or_old u.retention d.retention;
}

-- `key in KEYS`
unfoldable pub key_of : Text → Option Key
key_of k =
    if k == codes "SystemMaxUse"
    then some system_max_use
    else if k == codes "RuntimeMaxUse"
    then some runtime_max_use
    else if k == codes "MaxRetentionSec"
    then some max_retention_sec
    else none

-- The value of one setting. An empty value and `infinity` mean no finite ceiling.
unfoldable pub parse_value : Key → Text → Option ℕ
parse_value k value = if value == [] || value == codes "infinity" then some 0 else elim k [
  | max_retention_sec ↦ duration value
  | system_max_use ↦ size value
  | runtime_max_use ↦ size value
]

pub record Scan : Type 0 where
  pub section : Text
  pub source : Text
  pub result : Settings

abbrev pub start : Scan
start = record { section = []; source = []; result = no_settings }

unfoldable pub assign : Option Key → Text → Scan → Option Scan
assign none value s = some s
assign (some k) value s = elim (parse_value k value) [
  | none ↦ none
  | some v ↦ some (record s { result = insert k v s.result })
]

-- `key, value = line.split('=', 1)`, if there is an `=`.
unfoldable pub setting : Text × Text → Scan → Option Scan
setting (name, []) s = some s
setting (name, _ ∷ value) s = assign (key_of (strip name)) (strip value) s

unfoldable pub not_equals_sign : ℕ → Bool
not_equals_sign c = not (nat_beq c 61)

-- The body of the loop below the tests on the source, on the stripped line.
unfoldable pub content_line : Text → Scan → Option Scan
content_line line s =
    if line == [] || starts_with line (codes "#") || starts_with line (codes ";")
    then some s
    else if starts_with line (codes "[")
    then some (record s { section = line })
    else if s.section == codes "[Journal]"
    then setting (span not_equals_sign line) s
    else some s

-- The settings of the replacement, where there is one: `none` if reading it raises.
abbrev pub Replacement : Type 0
Replacement = Option (Option Settings)

unfoldable pub replace : Replacement → Scan → Option Scan
replace none s = some s
replace (some none) s = none
replace (some (some u)) s = some (record s { result = update s.result u })

-- A header of `systemd-analyze cat-config`, such as `# /etc/systemd/journald.conf`.
unfoldable pub header_line : Replacement → Text → Scan → Option Scan
header_line r source s =
    let s' : Scan = record s { section = []; source = source } in
    if source == dropin_path then replace r s' else some s'

unfoldable pub is_replaced : Replacement → Bool
is_replaced none = false
is_replaced (some _) = true

abbrev pub drop_two : Text → Text
drop_two [] = []
drop_two (c ∷ []) = []
drop_two (c ∷ d ∷ s) = s

unfoldable pub line_step : Replacement → Text → Scan → Option Scan
line_step r raw s =
    if starts_with raw (codes "# /")
    then header_line r (strip (drop_two raw)) s
    else if s.source == dropin_path && is_replaced r
    then some s
    else content_line (strip raw) s

unfoldable pub scan_lines : Replacement → List Text → Scan → Option Scan
scan_lines r [] s = some s
scan_lines r (l ∷ ls) s = elim (line_step r l s) [ none ↦ none | some s' ↦ scan_lines r ls s' ]

abbrev pub result_of : Option Scan → Option Settings
result_of none = none
result_of (some s) = some s.result

unfoldable pub effective : Text → Option Settings
effective text = result_of (scan_lines none (splitlines text) start)

-- `effective(text, replacement)`
unfoldable pub effective_with : Text → Text → Option Settings
effective_with text replacement =
    result_of (scan_lines (some (effective replacement)) (splitlines text) start)

-- A finite number for each key.
pub record Limits : Type 0 where
  pub system : ℕ
  pub runtime : ℕ
  pub retention : ℕ

unfoldable pub desired : ℕ → ℕ → Limits
desired system_capacity runtime_capacity = record {
  system = max 1 (min (1024 ^ 3) (system_capacity * 5 / 100));
  runtime = max 1 (min (256 * 1024 ^ 2) (runtime_capacity * 2 / 100));
  retention = 7 * 86400;
}

-- `actual.get(key, 0)`
abbrev pub get_or_zero : Option ℕ → ℕ
get_or_zero none = 0
get_or_zero (some v) = v

abbrev pub in_bound : Option ℕ → ℕ → Bool
in_bound v limit = ltb 0 (get_or_zero v) && leb (get_or_zero v) limit

unfoldable pub bounded : Settings → Limits → Bool
bounded actual limits =
    in_bound actual.system limits.system
    && in_bound actual.runtime limits.runtime
    && in_bound actual.retention limits.retention

-- `min(actual.get(key, 0) or limit, limit)`
abbrev pub clamp : Option ℕ → ℕ → ℕ
clamp v limit = if nat_beq (get_or_zero v) 0 then min limit limit else min (get_or_zero v) limit

unfoldable pub clamped : Settings → Limits → Limits
clamped actual limits = record {
  system = clamp actual.system limits.system;
  runtime = clamp actual.runtime limits.runtime;
  retention = clamp actual.retention limits.retention;
}

abbrev pub newline : Text
newline = 10 ∷ []

abbrev pub assignment : Key → ℕ → Text → Text
assignment k v rest = key_name k ++ (codes "=" ++ (decimal v ++ (newline ++ rest)))

unfoldable pub render : Settings → Limits → Text
unfolding clamped decimal
render actual limits =
    let v = clamped actual limits in
    codes "# Managed by DragonTools"
    ++ (newline
        ++ (codes "[Journal]"
            ++ (newline
                ++ assignment system_max_use v.system (
                    assignment runtime_max_use v.runtime
                      (assignment max_retention_sec v.retention [])))))
