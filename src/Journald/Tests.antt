-- ===== src/Journald/Tests.antt =====
-- Runs of src/monitoring/agents/journald.py on one machine.
use dragontools.Common.{
  ◌≡◌, ◌≤◌, ◌*◌, ◌^◌, refl, true, Option, none, some, Text, [], starts_with, codes, decimal,
}
use dragontools.Journald.Values.{size, duration}
use dragontools.Journald.Effective.{
  Settings, no_settings, desired, clamped, render, effective, bounded,
}
use dragontools.Journald.Render.{
  size-decimal, duration-decimal, bounded-render, effective-render, desired_limits,
}
use dragontools.Journald.Check.{
  Machine, World, Node, directory, unchanged, changed, install, verify, finish, acceptable_marker,
  limits_of, acceptable_dropin,
}
use dragontools.Journald.Check.Laws.{
  Established, install-Established, install_again, install_unmanaged,
}

-- The configuration of the station without the drop-in bounds nothing.
abbrev cat_config : Option Node → Text
cat_config none = codes "[Journal]"
cat_config (some n) = n.content

abbrev machine : Machine
machine = record {
  cat_config = cat_config;
  log_capacity = 20 * 1024 ^ 3;
  run_capacity = 1024 ^ 3;
  is_active = true;
  disk_usage = true;
  restart = true;
}

-- The last run was cut off after it wrote the drop-in.
abbrev pending : World
pending = record {
  dropin = some (record { safe = true; content = render no_settings (limits_of machine) });
  marker = some (record { safe = true; content = [] });
  parent = directory true;
}

abbrev unmanaged : World
unmanaged = record {
  dropin = some (record { safe = true; content = codes "[Journal]\nSystemMaxUse=8G\n" });
  marker = none;
  parent = directory true;
}

install-Established_example : Established machine pending (install machine pending)
install-Established_example = install-Established machine pending

pending_verified : verify machine pending ≡ true
unfolding verify bounded clamped desired
pending_verified = rw (effective-render no_settings (limits_of machine)) refl

pending_accepted : acceptable_dropin pending.dropin ≡ true
unfolding acceptable_dropin render starts_with
pending_accepted = refl

pending_changes : (install machine pending).0 ≡ changed
unfolding install finish acceptable_marker bounded clamped desired
pending_changes =
    rw (effective-render no_settings (limits_of machine), pending_accepted, pending_verified) refl

install_again_example : let w = (install machine pending).1 in install machine w ≡ (unchanged, w)
install_again_example = install_again machine pending (λ e. cc (e, pending_changes))

install_unmanaged_example : (install machine unmanaged).1 ≡ unmanaged
unfolding acceptable_dropin starts_with
install_unmanaged_example = install_unmanaged machine unmanaged refl

bounded-render_example :
    (read : Settings) × (effective (render no_settings (desired (20 * 1024 ^ 3) (1024 ^ 3)))
      ≡ some read)
    × (bounded read (desired (20 * 1024 ^ 3) (1024 ^ 3)) ≡ true)
bounded-render_example = bounded-render no_settings (20 * 1024 ^ 3) (1024 ^ 3)

effective-render_example :
    let limits = desired (20 * 1024 ^ 3) (1024 ^ 3) in
    let v = clamped no_settings limits in
    effective (render no_settings limits)
    ≡ some
        (record { system = some v.system; runtime = some v.runtime; retention = some v.retention })
effective-render_example = effective-render no_settings (desired (20 * 1024 ^ 3) (1024 ^ 3))

desired_limits_example :
    let limits = desired (20 * 1024 ^ 3) (1024 ^ 3) in
    (1 ≤ limits.system)
    × (limits.system ≤ 1024 ^ 3)
    × (1 ≤ limits.runtime)
    × (limits.runtime ≤ 256 * 1024 ^ 2)
    × (limits.retention ≡ 604800)
desired_limits_example = desired_limits (20 * 1024 ^ 3) (1024 ^ 3)

size-decimal_example : size (decimal 8192) ≡ some 8192
size-decimal_example = size-decimal 8192

duration-decimal_example : duration (decimal 604800) ≡ some 604800
duration-decimal_example = duration-decimal 604800
