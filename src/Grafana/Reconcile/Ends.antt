-- ===== src/Grafana/Reconcile/Ends.antt =====
-- `main` of src/monitoring/grafana_credentials.py ends.
use dragontools.Common.{
  ◌≡◌, refl, ℕ, Bool, true, false, not, ◌&&◌, Option, none, some, List, [], ◌∷◌, Text, leb, ◌==◌,
  nat_eq, list_eq, if◌then◌else◌, arith,
}
use dragontools.Common.Json.{
  Json, null, boolean, integer, negative, real, string, array, object, count,
}
use dragontools.Common.Result.{Result, ok, refused, broken}
use dragontools.Grafana.Outcome.{Outcome, done, failure, raised, endless, unguarded}
use dragontools.Grafana.Input.{credentials, checked_credentials, utf8_length, text_of, two_fields}
use dragontools.Grafana.Accounts.{
  Row, original_admin, only, admins, login_text, login_of, others_differ,
}
use dragontools.Grafana.Program.{State, Program, lift, call, change}
use dragontools.Grafana.Program.Laws.{
  IsEnd, IsTimely, pure-IsTimely, lift-IsTimely, require-IsTimely, >>=-IsTimely,
}
use dragontools.Grafana.Requests.{Calls, put_user, put_profile, present}
use dragontools.Grafana.Requests.Ends.{
  >!-IsEnd, demanded-IsEnd, if-IsEnd, loaded-IsEnd, read_reply-IsEnd, present-IsEnd,
}
use dragontools.Grafana.Requests.Retry.{IsClock, authenticated-IsTimely, logs_verify-IsTimely}
use dragontools.Grafana.Reconcile.{
  Report, unchanged, changed, Mode, to_bootstrap, to_reconcile, to_verify, to_logs_verify,
  holds_login, database_users, reset, admin, create_admin, bootstrap_over, bootstrap,
  current_profile, reset_profile, login_again, confirmed, rename, renamed, repair, reconcile, run,
  status, main,
}

unguarded-IsEnd : {A : Type 0} (r : Result A) → IsEnd (unguarded r)
unfolding unguarded
unguarded-IsEnd (ok a) = tt
unguarded-IsEnd refused = tt
unguarded-IsEnd broken = tt

utf8_length-IsEnd : (t : Text) → IsEnd (utf8_length t)
unfolding utf8_length
utf8_length-IsEnd [] = tt
utf8_length-IsEnd (c ∷ t) =
    if-IsEnd (leb 55296 c && leb c 57343) raised _ tt
      (>!-IsEnd (utf8_length t) _ (utf8_length-IsEnd t) λ n. tt)

two_fields-IsEnd : (j : Json) → IsEnd (two_fields j)
two_fields-IsEnd null = tt
two_fields-IsEnd (boolean b) = tt
two_fields-IsEnd (integer n) = tt
two_fields-IsEnd (negative n) = tt
two_fields-IsEnd (real t) = tt
two_fields-IsEnd (string t) = tt
two_fields-IsEnd (array js) = tt
two_fields-IsEnd (object fs) = if-IsEnd (count fs == 2) (done fs) (failure 80) tt tt

text_of-IsEnd : (o : Option Json) → IsEnd (text_of o)
text_of-IsEnd none = tt
text_of-IsEnd (some null) = tt
text_of-IsEnd (some (boolean b)) = tt
text_of-IsEnd (some (integer n)) = tt
text_of-IsEnd (some (negative n)) = tt
text_of-IsEnd (some (real t)) = tt
text_of-IsEnd (some (string t)) = tt
text_of-IsEnd (some (array js)) = tt
text_of-IsEnd (some (object fs)) = tt

credentials-IsEnd : (loads : Text → Result Json) (raw : Text) → IsEnd (credentials loads raw)
unfolding credentials checked_credentials
credentials-IsEnd loads raw = >!-IsEnd _ _ (demanded-IsEnd _ 80) λ _.
    >!-IsEnd _ _ (unguarded-IsEnd (loads raw)) λ value.
      >!-IsEnd _ _ (two_fields-IsEnd value) λ fields. >!-IsEnd _ _ (text_of-IsEnd _) λ username.
        >!-IsEnd _ _ (text_of-IsEnd _) λ password. >!-IsEnd _ _ (utf8_length-IsEnd username) λ n.
          >!-IsEnd _ _ (demanded-IsEnd _ 80) λ _. >!-IsEnd _ _ (demanded-IsEnd _ 80) λ _.
            >!-IsEnd _ _ (demanded-IsEnd _ 80) λ _. >!-IsEnd _ _ (utf8_length-IsEnd password) λ m.
              >!-IsEnd _ _ (demanded-IsEnd _ 80) λ _. >!-IsEnd _ _ (demanded-IsEnd _ 80) λ _. tt

only-IsEnd : (rows : List Row) → IsEnd (only rows)
unfolding only
only-IsEnd [] = tt
only-IsEnd (r ∷ []) = tt
only-IsEnd (r ∷ q ∷ rows) = tt

login_text-IsEnd : (o : Option Text) → IsEnd (login_text o)
login_text-IsEnd none = tt
login_text-IsEnd (some t) = >!-IsEnd _ _ (demanded-IsEnd _ 81) λ _. tt

login_of-IsEnd : (o : Option Text) → IsEnd (login_of o)
login_of-IsEnd none = tt
login_of-IsEnd (some t) = tt

others_differ-IsEnd :
    (casefold : Text → Text) (rows : List Row) (desired : Text)
    → IsEnd (others_differ casefold rows desired)
unfolding others_differ
others_differ-IsEnd casefold [] desired = tt
others_differ-IsEnd casefold (r ∷ rows) desired =
    let rest = others_differ-IsEnd casefold rows desired in
    if-IsEnd (r.id == 1) (others_differ casefold rows desired) _ rest
      (>!-IsEnd _ _ (login_of-IsEnd r.login) λ login. >!-IsEnd _ _ (demanded-IsEnd _ 81) λ _. rest)

original_admin-IsEnd :
    (casefold : Text → Text) (rows : List Row) (desired : Text)
    → IsEnd (original_admin casefold rows desired)
unfolding original_admin
original_admin-IsEnd casefold rows desired = >!-IsEnd _ _ (only-IsEnd (admins rows)) λ row.
    >!-IsEnd _ _ (demanded-IsEnd _ 81) λ _. >!-IsEnd _ _ (login_text-IsEnd row.login) λ current.
      >!-IsEnd _ _ (demanded-IsEnd _ 81)
        λ _. >!-IsEnd _ _ (others_differ-IsEnd casefold rows desired) λ _. tt

module _ {Machine : Type 0} (calls : Calls Machine) (law : IsClock calls) where
  if-IsTimely :
      {A : Type 0} (b : Bool) (p q : Program Machine A)
      → IsTimely calls.clock p
      → IsTimely calls.clock q
      → IsTimely calls.clock (if b then p else q)
  if-IsTimely true p q hp hq = hp
  if-IsTimely false p q hp hq = hq

  database_users-IsTimely : IsTimely calls.clock (database_users calls)
  unfolding database_users call
  database_users-IsTimely s = (loaded-IsEnd 81 (calls.users s.machine), omega arith)

  admin-IsTimely : (username : Text) → IsTimely calls.clock (admin calls username)
  unfolding admin
  admin-IsTimely username =
      >>=-IsTimely calls.clock _ _ database_users-IsTimely
        λ rows. lift-IsTimely calls.clock _ (original_admin-IsEnd calls.casefold rows username)

  reset-IsTimely :
      (username password : Text) (bootstrap : Bool)
      → IsTimely calls.clock (reset calls username password bootstrap)
  unfolding reset change
  reset-IsTimely username password bootstrap s = (
    if-IsEnd (calls.run_reset username password bootstrap s.machine).0 (done tt) (failure 82) tt tt,
    law.resets username password bootstrap s.machine,
  )

  present-IsTimely : (o : Option Json) → IsTimely calls.clock (lift {Machine = Machine} (present o))
  present-IsTimely o = lift-IsTimely calls.clock _ (present-IsEnd o)

  put_profile-IsTimely :
      (username password : Text) (body : Json)
      → IsTimely calls.clock (put_profile calls username password body)
  unfolding put_profile change
  put_profile-IsTimely username password body s =
      (read_reply-IsEnd calls.loads put_user _, law.exchanges _ s.machine)

  confirmed-IsTimely : (reply : Option Json) → IsTimely calls.clock (confirmed calls reply)
  unfolding confirmed
  confirmed-IsTimely reply =
      >>=-IsTimely calls.clock _ _ (present-IsTimely reply) λ _. pure-IsTimely calls.clock tt

  module _ (username password : Text) where
    bootstrap_over-IsTimely :
        (rows : List Row) → IsTimely calls.clock (bootstrap_over calls username password rows)
    unfolding bootstrap_over create_admin call
    bootstrap_over-IsTimely [] =
        >>=-IsTimely calls.clock _ _ (λ s. (unguarded-IsEnd (calls.stopped s.machine), omega arith))
          λ stopped. >>=-IsTimely calls.clock _ _ (require-IsTimely calls.clock _ 85) λ _.
            >>=-IsTimely calls.clock _ _ (reset-IsTimely username password true) λ _.
              >>=-IsTimely calls.clock _ _ (admin-IsTimely username) λ current.
                >>=-IsTimely calls.clock _ _ (require-IsTimely calls.clock _ 85)
                  λ _. pure-IsTimely calls.clock changed
    bootstrap_over-IsTimely (row ∷ rows) =
        >>=-IsTimely calls.clock _ _
          (lift-IsTimely calls.clock _ (original_admin-IsEnd calls.casefold (row ∷ rows) username))
          λ _. pure-IsTimely calls.clock unchanged

    bootstrap-IsTimely : IsTimely calls.clock (bootstrap calls username password)
    unfolding bootstrap
    bootstrap-IsTimely =
        >>=-IsTimely calls.clock _ _ database_users-IsTimely bootstrap_over-IsTimely

    module _ (current : Text) where
      current_profile-IsTimely :
          (o : Option Json)
          → IsTimely calls.clock (current_profile calls username password current o)
      unfolding current_profile
      current_profile-IsTimely (some value) = pure-IsTimely calls.clock (some value)
      current_profile-IsTimely none =
          if-IsTimely (not (current == username)) _ _
            (authenticated-IsTimely calls law current password) (pure-IsTimely calls.clock none)

      reset_profile-IsTimely :
          (o : Option Json) → IsTimely calls.clock (reset_profile calls username password current o)
      unfolding reset_profile login_again
      reset_profile-IsTimely (some value) = pure-IsTimely calls.clock value
      reset_profile-IsTimely none =
          >>=-IsTimely calls.clock _ _ (reset-IsTimely username password false) λ _.
            >>=-IsTimely calls.clock _ _ (authenticated-IsTimely calls law current password)
              present-IsTimely

      rename-IsTimely :
          (value : Json) → IsTimely calls.clock (rename calls username password current value)
      unfolding rename
      rename-IsTimely value =
          if-IsTimely (not (current == username)) _ _
            (>>=-IsTimely calls.clock _ _
              (put_profile-IsTimely current password (renamed username value)) confirmed-IsTimely)
            (pure-IsTimely calls.clock tt)

      repair-IsTimely :
          (profile : Option Json)
          → IsTimely calls.clock (repair calls username password current profile)
      unfolding repair
      repair-IsTimely profile =
          >>=-IsTimely calls.clock _ _ (current_profile-IsTimely profile) λ known.
            >>=-IsTimely calls.clock _ _ (reset_profile-IsTimely known) λ value.
              >>=-IsTimely calls.clock _ _ (require-IsTimely calls.clock _ 81) λ _.
                >>=-IsTimely calls.clock _ _ (rename-IsTimely value) λ _.
                  >>=-IsTimely calls.clock _ _ (authenticated-IsTimely calls law username password)
                    λ final.
                      >>=-IsTimely calls.clock _ _ (require-IsTimely calls.clock _ 83)
                        λ _. pure-IsTimely calls.clock changed

    reconcile-IsTimely :
        (readonly : Bool) → IsTimely calls.clock (reconcile calls username password readonly)
    unfolding reconcile
    reconcile-IsTimely readonly = >>=-IsTimely calls.clock _ _ (admin-IsTimely username) λ current.
        >>=-IsTimely calls.clock _ _ (authenticated-IsTimely calls law username password) λ profile.
          if-IsTimely (holds_login username profile) _ _ (pure-IsTimely calls.clock unchanged) (
            >>=-IsTimely calls.clock _ _ (require-IsTimely calls.clock _ 83)
              λ _. repair-IsTimely current profile)

  run-IsTimely : (mode : Mode) (c : Text × Text) → IsTimely calls.clock (run calls mode c)
  unfolding run
  run-IsTimely to_bootstrap c = bootstrap-IsTimely c.0 c.1
  run-IsTimely to_reconcile c = reconcile-IsTimely c.0 c.1 false
  run-IsTimely to_verify c = reconcile-IsTimely c.0 c.1 true
  run-IsTimely to_logs_verify c =
      >>=-IsTimely calls.clock _ _ (logs_verify-IsTimely calls law c.0 c.1)
        λ _. pure-IsTimely calls.clock unchanged

  status-some :
      (mode : Mode) (o : Outcome Report) → IsEnd o → (n : ℕ) × (status calls mode o ≡ some n)
  unfolding status
  status-some mode (done r) e = (0, refl)
  status-some mode (failure c) e = (c, refl)
  status-some to_bootstrap raised e = (83, refl)
  status-some to_reconcile raised e = (83, refl)
  status-some to_verify raised e = (83, refl)
  status-some to_logs_verify raised e = (86, refl)
  status-some mode endless e = elim e [ ]

  -- Where the clock does not go back and a sleep takes as long as it is told to, `main` exits with a
  -- status in every mode, for every input and whatever Grafana answers: the loops that wait for it end.
  pub main-ends :
      (mode : Mode) (raw : Text) (s : State Machine)
      → (n : ℕ) × ((main calls mode raw s).0 ≡ some n)
  unfolding main
  main-ends mode raw s =
      status-some mode _
        (>>=-IsTimely calls.clock (lift (credentials calls.loads raw)) (run calls mode)
          (lift-IsTimely calls.clock _ (credentials-IsEnd calls.loads raw)) (run-IsTimely mode) s).0
