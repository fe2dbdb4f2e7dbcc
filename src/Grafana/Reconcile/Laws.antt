-- ===== src/Grafana/Reconcile/Laws.antt =====
-- What `bootstrap`, `reconcile` and `main` of src/monitoring/grafana_credentials.py change.
use dragontools.Common.{
  ◌≡◌, refl, sym, ap, ◌∙◌, ◌⊎◌, inl, inr, ℕ, Bool, true, false, not, Option, List, ◌++◌, Text,
  nat_eq, list_eq, if◌then◌else◌,
}
use dragontools.Common.Json.{Json}
use dragontools.Common.Result.{Result, ok, refused, broken}
use dragontools.Grafana.Outcome.{Outcome, done, demanded, loaded}
use dragontools.Grafana.Accounts.{Row, original_admin}
use dragontools.Grafana.Program.{State, Program, Change, pure, lift, call, ◌>>=◌, resume, require}
use dragontools.Grafana.Program.Laws.{
  IsQuiet, pure-IsQuiet, if-IsQuiet, IsQuiet-made, lift-IsQuiet, call-IsQuiet, >>=-IsQuiet,
  >>=-done, require-done,
}
use dragontools.Grafana.Requests.{Calls, authenticated}
use dragontools.Grafana.Requests.Retry.{authenticated-IsQuiet, logs_verify-IsQuiet}
use dragontools.Grafana.Reconcile.{
  Report, unchanged, changed, Mode, to_bootstrap, to_reconcile, to_verify, to_logs_verify,
  holds_login, database_users, admin, current_profile, repair, reconcile, run, main,
}
use dragontools.Grafana.Reconcile.Changes.{
  IsReset, IsRename, current_profile-IsQuiet, reset_profile-IsReset, rename-IsRename,
}

module _ {Machine : Type 0} (calls : Calls Machine) where
  pub admin-IsQuiet : (username : Text) → IsQuiet (admin calls username)
  unfolding admin database_users
  admin-IsQuiet username = >>=-IsQuiet _ _ (call-IsQuiet _) λ rows. lift-IsQuiet _

  refuse-IsQuiet :
      {A : Type 0} (c : ℕ) (f : Unit {0} → Program Machine A) → IsQuiet (require false c >>= f)
  unfolding require lift ◌>>=◌ resume demanded
  refuse-IsQuiet c f s = refl

  -- In the mode that only reads, `reconcile` asks for no change.
  readonly-IsQuiet : (username password : Text) → IsQuiet (reconcile calls username password true)
  unfolding reconcile
  readonly-IsQuiet username password = >>=-IsQuiet _ _ (admin-IsQuiet username) λ current.
      >>=-IsQuiet _ _ (authenticated-IsQuiet calls username password) λ profile.
        if-IsQuiet (holds_login username profile) _ _ (pure-IsQuiet unchanged) (refuse-IsQuiet 83 _)

abbrev pub is_readonly : Mode → Bool
is_readonly to_bootstrap = false
is_readonly to_reconcile = false
is_readonly to_verify = true
is_readonly to_logs_verify = true

module _ {Machine : Type 0} (calls : Calls Machine) where
  run-IsQuiet :
      (mode : Mode) (c : Text × Text) → is_readonly mode ≡ true → IsQuiet (run calls mode c)
  unfolding run
  run-IsQuiet to_bootstrap c h = absurd (cc h)
  run-IsQuiet to_reconcile c h = absurd (cc h)
  run-IsQuiet to_verify c h = readonly-IsQuiet calls c.0 c.1
  run-IsQuiet to_logs_verify c h =
      >>=-IsQuiet _ _ (logs_verify-IsQuiet calls c.0 c.1) λ _. pure-IsQuiet unchanged

  -- In the modes `verify` and `logs_verify`, `main` asks for no change, whatever its input is and
  -- however it ends: no password is reset and no profile is put.
  pub main-readonly :
      (mode : Mode) (raw : Text) (s : State Machine)
      → is_readonly mode ≡ true
      → (main calls mode raw s).1.made ≡ s.made
  unfolding main
  main-readonly mode raw s h = >>=-IsQuiet _ _ (lift-IsQuiet _) (λ c. run-IsQuiet mode c h) s

-- The administrator that `original_admin` finds in the rows that the database has.
abbrev pub IsAdmin : {Machine : Type 0} → Calls Machine → Text → Machine → Text → Type 0
IsAdmin calls username m current =
    (rows : List Row) × (calls.users m ≡ ok rows)
    × (original_admin calls.casefold rows username ≡ done current)

pub loaded-done : {A : Type 0} (c : ℕ) (r : Result A) (a : A) → loaded c r ≡ done a → r ≡ ok a
unfolding loaded
loaded-done c (ok b) a h = cc h
loaded-done c refused a h = cc h
loaded-done c broken a h = cc h

admin-IsAdmin :
    {Machine : Type 0} (calls : Calls Machine) (username : Text) (s t : State Machine)
    (current : Text)
    → admin calls username s ≡ (done current, t)
    → IsAdmin calls username s.machine current
unfolding admin database_users call lift
admin-IsAdmin calls username s t current h =
    let (rows, s1, u, h1) = >>=-done (database_users calls) _ s t current h in
    (
      rows,
      loaded-done 81 (calls.users s.machine) rows
          (ap (λ (q : Outcome (List Row) × State _). q.0) u),
      ap (λ (q : Outcome Text × State _). q.0) h1,
    )

-- What `reconcile` has done when it reports a change, from the administrator that the database had at
-- its start: at most one reset to the desired password, then
-- the `PUT` of the desired name if the administrator had another one, and at last a login with the
-- desired credentials as the administrator of the desired name.
pub record IsRepaired {Machine : Type 0} (calls : Calls Machine) (username password : Text)
    (s t : State Machine) : Type 0 where
  pub current : Text
  pub found : IsAdmin calls username s.machine current
  pub resets : List Change
  pub puts : List Change
  pub made_by : t.made ≡ puts ++ (resets ++ s.made)
  pub reset_once : IsReset username password resets
  pub renamed_once : IsRename username password current puts
  pub before : State Machine
  pub final : Option Json
  pub logs_in : authenticated calls username password before ≡ (done final, t)
  pub by_name : holds_login username final ≡ true

not-false : (b : Bool) → not b ≡ true → b ≡ false
not-false true h = cc h
not-false false h = refl

pub pure-report :
    {Machine : Type 0} (a r : Report) (s t : State Machine) → pure a s ≡ (done r, t) → r ≡ a
unfolding pure
pure-report a r s t h = cc h

pub pure-state :
    {Machine : Type 0} (a r : Report) (s t : State Machine) → pure a s ≡ (done r, t) → s ≡ t
unfolding pure
pure-state a r s t h = ap (λ (q : Outcome Report × State _). q.1) h

module _ {Machine : Type 0} (calls : Calls Machine) (username password : Text) where
  repair-IsRepaired :
      (current : Text) (known : Option Json) (s0 s t : State Machine) (r : Report)
      → IsAdmin calls username s0.machine current
      → s.made ≡ s0.made
      → repair calls username password current known s ≡ (done r, t)
      → IsRepaired calls username password s0 t × (r ≡ changed)
  unfolding repair pure
  repair-IsRepaired current known s0 s t r found same h =
      let (now, s1, c, h1) = >>=-done _ _ s t r h in
      let (value, s2, p, h2) = >>=-done _ _ s1 t r h1 in
      let (named, h3) = require-done _ 81 _ s2 t r h2 in
      let (u, s3, n, h4) = >>=-done _ _ s2 t r h3 in
      let (final, s4, l, h5) = >>=-done _ _ s3 t r h4 in
      let (by_name, h6) = require-done _ 83 _ s4 t r h5 in
      let (resets, mr, reset_once) =
        reset_profile-IsReset calls username password current now s1 s2 value p in
      let (puts, mp, renamed_once) =
        rename-IsRename calls username password current value s2 s3 u n named in
      (
        record {
          current = current;
          found = found;
          resets = resets;
          puts = puts;
          made_by =
              IsQuiet-made (pure changed) s4 t _ (pure-IsQuiet changed) h6
              ∙ IsQuiet-made (authenticated calls username password) s3 s4 _
                  (authenticated-IsQuiet calls username password) l
              ∙ mp
              ∙ ap (λ m. puts ++ m)
                  (mr
                    ∙ ap (λ m. resets ++ m)
                        (IsQuiet-made (current_profile calls username password current known) s s1 _
                            (current_profile-IsQuiet calls username password current known) c
                          ∙ same));
          reset_once = reset_once;
          renamed_once = renamed_once;
          before = s3;
          final = final;
          logs_in =
              l
              ∙ ap (λ (q : State Machine). (done final, q))
                  (ap (λ (q : Outcome Report × State Machine). q.1) h6);
          by_name = by_name;
        },
        pure-report changed r s4 t h6,
      )

  -- A `reconcile` that ends without an exception has a login with the desired credentials, as the
  -- administrator of the desired name, at its end. If it reports no change, it asked for none. If it
  -- reports one, it was not the mode that only reads, and it asked for at most one reset, to the desired
  -- password, and after it for one `PUT` of the desired name just when the administrator that
  -- `original_admin` found in the database at the start had another.
  pub reconcile-report :
      (readonly : Bool) (s t : State Machine) (r : Report)
      → reconcile calls username password readonly s ≡ (done r, t)
      → ((r ≡ unchanged)
          × (t.made ≡ s.made)
          × ((before : State Machine) × (final : Option Json) × (authenticated calls username
                  password before
                ≡ (done final, t))
              × (holds_login username final ≡ true)))
        ⊎ ((r ≡ changed) × (readonly ≡ false) × IsRepaired calls username password s t)
  unfolding reconcile
  reconcile-report readonly s t r h =
      let (current, s1, c, h1) = >>=-done _ _ s t r h in
      let (profile, s2, l, h2) = >>=-done _ _ s1 t r h1 in
      let early = IsQuiet-made (admin calls username) s s1 _ (admin-IsQuiet calls username) c in
      let quiet =
        IsQuiet-made (authenticated calls username password) s1 s2 _
          (authenticated-IsQuiet calls username password) l in
      go current profile s1 s2 (admin-IsAdmin calls username s s1 current c) (quiet ∙ early) l
        (holds_login username profile) refl h2
    where
      go :
          (current : Text) (profile : Option Json) (s1 s2 : State Machine)
          → IsAdmin calls username s.machine current
          → s2.made ≡ s.made
          → authenticated calls username password s1 ≡ (done profile, s2)
          → (b : Bool) → holds_login username profile ≡ b
          → (if b
                then pure unchanged
                else require (not readonly) 83 >>= λ _.
                    repair calls username password current profile)
              s2
            ≡ (done r, t)
          → ((r ≡ unchanged)
              × (t.made ≡ s.made)
              × ((before : State Machine) × (final : Option Json) × (authenticated calls username
                      password before
                    ≡ (done final, t))
                  × (holds_login username final ≡ true)))
            ⊎ ((r ≡ changed) × (readonly ≡ false) × IsRepaired calls username password s t)
      go current profile s1 s2 found quiet l true e h =
          let same = pure-state unchanged r s2 t h in
          inl (
            pure-report unchanged r s2 t h,
            ap (λ (q : State Machine). q.made) (sym same) ∙ quiet,
            (s1, profile, l ∙ ap (λ q. (done profile, q)) same, e),
          )
      go current profile s1 s2 found quiet l false e h =
          let (writes, h1) = require-done (not readonly) 83 _ s2 t r h in
          let (repaired, report) = repair-IsRepaired current profile s s2 t r found quiet h1 in
          inr (report, not-false readonly writes, repaired)
