-- ===== src/Grafana/Reconcile.antt =====
-- `reset`, `bootstrap`, `reconcile` and `main` of src/monitoring/grafana_credentials.py.
pub mod Laws
pub mod Changes
pub mod Ends
pub mod Bootstrap
use dragontools.Common.{
  ℕ, Bool, true, false, not, ◌&&◌, Option, none, some, List, [], ◌∷◌, ◌++◌, Text, codes, length,
  ◌==◌, nat_eq, list_eq, if◌then◌else◌,
}
use dragontools.Common.Json.{Json, string, object, get, holds_text, field, end}
use dragontools.Grafana.Outcome.{Outcome, done, failure, raised, endless, loaded, unguarded}
use dragontools.Grafana.Accounts.{Row, original_admin}
use dragontools.Grafana.Input.{credentials}
use dragontools.Grafana.Program.{
  State, Program, Change, reset_to, pure, lift, call, change, ◌>>=◌, require,
}
use dragontools.Grafana.Requests.{Calls, put_profile, authenticated, logs_verify, present}

-- Whether something was changed.
pub data Report : Type 0 where
  unchanged changed : Report

pub data Mode : Type 0 where
  to_bootstrap to_reconcile to_verify to_logs_verify : Mode

-- `current_profile.get(key, "")`
abbrev pub field_or_empty : Option Json → Json
field_or_empty none = string []
field_or_empty (some j) = j

abbrev pub renamed : Text → Json → Json
renamed username value = object (
    field (codes "email") (field_or_empty (get (codes "email") value)) (
      field (codes "name") (field_or_empty (get (codes "name") value)) (
        field (codes "theme") (field_or_empty (get (codes "theme") value))
          (field (codes "login") (string username) end))))

abbrev pub has_login : Text → Json → Bool
has_login username value = holds_text username (get (codes "login") value)

abbrev pub holds_login : Text → Option Json → Bool
holds_login username none = false
holds_login username (some value) = has_login username value

module _ {Machine : Type 0} (calls : Calls Machine) where
  -- `database_users()`
  unfoldable pub database_users : Program Machine (List Row)
  database_users = call (λ m. (loaded 81 (calls.users m), m))

  -- `reset(username, password, bootstrap)`
  unfoldable pub reset : Text → Text → Bool → Program Machine (Unit {0})
  reset username password bootstrap = change (reset_to username password bootstrap) λ m.
      let (ok, n) = calls.run_reset username password bootstrap m in
      (if ok then done tt else failure 82, n)

  unfoldable pub admin : Text → Program Machine Text
  admin username = database_users >>= λ rows. lift (original_admin calls.casefold rows username)

  -- `bootstrap` of an empty database
  unfoldable pub create_admin : Text → Text → Program Machine Report
  create_admin username password = call (λ m. (unguarded (calls.stopped m), m)) >>= λ stopped.
      require stopped 85 >>= λ _. reset username password true >>= λ _.
      admin username >>= λ current. require (current == username) 85 >>= λ _. pure changed

  unfoldable pub bootstrap_over : Text → Text → List Row → Program Machine Report
  bootstrap_over username password [] = create_admin username password
  bootstrap_over username password (row ∷ rows) =
      lift (original_admin calls.casefold (row ∷ rows) username) >>= λ _. pure unchanged

  -- `bootstrap(username, password)`
  unfoldable pub bootstrap : Text → Text → Program Machine Report
  bootstrap username password = database_users >>= bootstrap_over username password

  -- The second login of `reconcile`, with the new password under the old name.
  unfoldable pub current_profile : Text → Text → Text → Option Json → Program Machine (Option Json)
  current_profile username password current (some value) = pure (some value)
  current_profile username password current none =
      if not (current == username) then authenticated calls current password else pure none

  unfoldable pub login_again : Text → Text → Program Machine Json
  login_again password current =
      authenticated calls current password >>= λ again. lift (present again)

  -- The reset of `reconcile`, when no login has worked.
  unfoldable pub reset_profile : Text → Text → Text → Option Json → Program Machine Json
  reset_profile username password current (some value) = pure value
  reset_profile username password current none =
      reset username password false >>= λ _. login_again password current

  unfoldable pub confirmed : Option Json → Program Machine (Unit {0})
  confirmed reply = lift (present reply) >>= λ _. pure tt

  unfoldable pub rename : Text → Text → Text → Json → Program Machine (Unit {0})
  rename username password current value =
      if not (current == username)
      then put_profile calls current password (renamed username value) >>= confirmed
      else pure tt

  -- `reconcile` after the first login with the desired credentials
  unfoldable pub repair : Text → Text → Text → Option Json → Program Machine Report
  repair username password current desired_profile =
      current_profile username password current desired_profile >>= λ known.
      reset_profile username password current known >>= λ value.
      require (has_login current value) 81 >>= λ _. rename username password current value >>= λ _.
      authenticated calls username password >>= λ final.
      require (holds_login username final) 83 >>= λ _. pure changed

  -- `reconcile(username, password, readonly)`
  unfoldable pub reconcile : Text → Text → Bool → Program Machine Report
  reconcile username password readonly = admin username >>= λ current.
      authenticated calls username password >>= λ desired_profile.
      if holds_login username desired_profile
      then pure unchanged
      else require (not readonly) 83 >>= λ _. repair username password current desired_profile

  unfoldable pub run : Mode → Text × Text → Program Machine Report
  run to_bootstrap (username, password) = bootstrap username password
  run to_reconcile (username, password) = reconcile username password false
  run to_verify (username, password) = reconcile username password true
  run to_logs_verify (username, password) =
      logs_verify calls username password >>= λ _. pure unchanged

  -- The exit status of `main`; an endless loop has none.
  unfoldable pub status : Mode → Outcome Report → Option ℕ
  status mode (done r) = some 0
  status mode (failure c) = some c
  status to_logs_verify raised = some 86
  status _ raised = some 83
  status mode endless = none

  -- `main()` on the text of its standard input, with one of the four modes.
  unfoldable pub main : Mode → Text → State Machine → Option ℕ × State Machine
  main mode raw s =
      let (o, t) = (lift (credentials calls.loads raw) >>= run mode) s in (status mode o, t)
