-- ===== src/Scrape/Mutate.antt =====
-- `prepare_config`, `reconcile_config` and `finalize_config` of src/monitoring/scrape_mutate.py,
-- write by write.
use dragontools.Common.{
  ℕ, suc, Bool, true, false, not, ◌&&◌, ◌||◌, Option, none, some, [], Text, ◌==◌, nat_eq, list_eq,
  if◌then◌else◌,
}
use dragontools.Runs.{modify, Program, pure, raise, write, require, or_raise, gets, ◌>>=◌, ◌>>◌}
use dragontools.Scrape.Files.{
  Info, Entry, missing, wrong, found, World, Check, passed, value_error, failed, read_config,
  pending_exists, inspect_config, is_managed, has_mode, directory_mode, config_mode, private_mode,
}

-- How a request to the running scraper ends: as wanted, with `NotReady`, or with another exception.
pub data Answer : Type 0 where
  ready not_ready invalid : Answer

-- What the program meets outside its files.
pub record Host : Type 0 where
  pub sha256 : Text → Text
  -- `0o755` less the umask.
  pub made_mode : ℕ
  -- Whether `app_all` accepts the registrations of the applications.
  pub registrations_valid : Bool
  -- Whether another installation holds the lock.
  pub contended : Bool
  -- `validate_binary`, and the dry run of that binary on the staged bytes.
  pub binary_valid : Bool
  pub dry_run : Text → Bool
  -- Whether the staged file still holds the bytes that were written to it.
  pub staged_intact : Bool
  -- `targets_loaded`, `config_reloaded`, `loaded_policy` and the request for `/ready`, one after
  -- the other, of the running scraper.
  pub runtime : World → Answer
  -- Whether the request to reload is answered.
  pub accepts_reload : Bool

abbrev pub empty_marker : Entry
empty_marker = found (record { owned = true; mode = private_mode; content = [] })

unfoldable pub mark_reload_over : Option Bool → Program World (Unit {0})
mark_reload_over none w = raise w
mark_reload_over (some true) w = pure tt w
mark_reload_over (some false) w = write (record w { pending = empty_marker }) w

-- `mark_reload()`. Root creates the file with the mode that it keeps.
unfoldable pub mark_reload : Program World (Unit {0})
mark_reload w = mark_reload_over (pending_exists w) w

-- Owner and mode of a file or directory, as far as they are not right: `os.chown`, `os.chmod`.
unfoldable pub repair : (World → Entry → World) → ℕ → Info → Program World Bool
repair set m i w =
    let owned : Info = record i { owned = true } in
    let whole : Info = record i { owned = true; mode = m } in
    let changed = not i.owned || not (i.mode == m) in
    ((if i.owned then pure tt else write (set w (found owned)))
        >> ((if i.mode == m then pure tt else write (set w (found whole))) >> pure changed))
      w

abbrev pub set_parent : World → Entry → World
set_parent w e = record w { parent = e }

abbrev pub set_directory : World → Entry → World
set_directory w e = record w { directory = e }

abbrev pub set_config : World → Entry → World
set_config w e = record w { config = e }

module _ (host : Host) where
  -- `directory(path)`
  unfoldable pub ensure_directory : (World → Entry → World) → Entry → Program World Bool
  ensure_directory set missing w =
      let made : Info = record { owned = true; mode = host.made_mode; content = [] } in
      (write (set w (found made)) >> (repair set directory_mode made >> pure true)) w
  ensure_directory set wrong w = raise w
  ensure_directory set (found i) w = repair set directory_mode i w

  -- The lock file, and the lock, which no other run may hold.
  unfoldable pub take_lock_over : Entry → Program World (Unit {0})
  take_lock_over missing w =
      (write (record w { lock = empty_marker }) >> require (not host.contended)) w
  take_lock_over wrong w = raise w
  take_lock_over (found i) w = require (has_mode private_mode i && not host.contended) w

  unfoldable pub take_lock : Program World (Unit {0})
  take_lock w = take_lock_over w.lock w

  -- The new configuration: the marker first, then the rename.
  unfoldable pub replace_config : Text → Program World Bool
  replace_config desired = do
    require (host.binary_valid && host.dry_run desired && host.staged_intact)
    mark_reload
    modify
        (λ w. set_config w (found (record { owned = true; mode = config_mode; content = desired })))
    pure true

  unfoldable pub update_over : Text → Bool → Option Info → Program World Bool
  update_over desired changed none = replace_config desired
  update_over desired changed (some i) =
      if i.content == desired
      then (repair set_config config_mode i >>= λ c. pure (c || changed))
      else replace_config desired

  -- From the first write on.
  unfoldable pub install : Text → Program World Bool
  install desired = do
    made_parent ← (λ w. ensure_directory set_parent w.parent w)
    made_directory ← (λ w. ensure_directory set_directory w.directory w)
    take_lock
    actual ← gets inspect_config >>= or_raise
    update_over desired (made_directory || made_parent) actual

  abbrev pub holds : Text → Option Info → Bool
  holds desired none = false
  holds desired (some i) = i.content == desired

  unfoldable pub prepare_over : Text → Bool → Check → Program World Bool
  prepare_over desired false check = install desired
  prepare_over desired true passed = pure false
  prepare_over desired true value_error = install desired
  prepare_over desired true failed = raise

  -- `prepare_config(config, binary_hash)`: whether anything has been changed.
  unfoldable pub prepare : Text → Program World Bool
  prepare desired = do
    require (host.registrations_valid && is_managed desired)
    actual ← gets inspect_config >>= or_raise
    check ← gets (read_config host.sha256 desired)
    prepare_over desired (holds desired actual) check

  unfoldable pub require_config : Text → Check → Program World (Unit {0})
  require_config expected passed = pure tt
  require_config expected value_error = raise
  require_config expected failed = raise

  unfoldable pub request_reload : Program World Bool
  request_reload = do
    mark_reload
    modify (λ w. record w { reloads = suc w.reloads })
    require host.accepts_reload
    pure true

  unfoldable pub reconcile_over : Bool → Answer → Program World Bool
  reconcile_over true answer = request_reload
  reconcile_over false ready = pure false
  reconcile_over false not_ready = request_reload
  reconcile_over false invalid = raise

  -- `reconcile_config(config, expected)`: whether a reload has been requested.
  unfoldable pub reconcile : Text → Program World Bool
  reconcile expected = do
    gets (read_config host.sha256 expected) >>= require_config expected
    pending ← gets pending_exists >>= or_raise
    answer ← gets host.runtime
    reconcile_over pending answer

  unfoldable pub remove_marker : Bool → Program World (Unit {0})
  remove_marker false = pure tt
  remove_marker true = modify (λ w. record w { pending = missing })

  -- `finalize_config(config)`
  unfoldable pub finalize : Text → Program World (Unit {0})
  finalize expected = do
    gets (read_config host.sha256 expected) >>= require_config expected
    gets pending_exists >>= or_raise >>= remove_marker
