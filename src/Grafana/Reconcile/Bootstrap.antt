-- ===== src/Grafana/Reconcile/Bootstrap.antt =====
-- What `bootstrap` of src/monitoring/grafana_credentials.py changes.
use dragontools.Common.{
  ◌≡◌, ◌≢◌, refl, subst, Bool, ap, sym, ◌∙◌, ◌⊎◌, inl, inr, true, List, [], ◌∷◌, Text, ==-sound,
  list_eq, nat_eq,
}
use dragontools.Common.Result.{Result, ok, refused, broken}
use dragontools.Grafana.Outcome.{Outcome, done, unguarded}
use dragontools.Grafana.Accounts.{Row, original_admin}
use dragontools.Grafana.Program.{State, reset_to, lift, call, change}
use dragontools.Grafana.Program.Laws.{IsQuiet-made, >>=-done, require-done}
use dragontools.Grafana.Requests.{Calls}
use dragontools.Grafana.Reconcile.Laws.{loaded-done, admin-IsQuiet, pure-report, pure-state}
use dragontools.Grafana.Reconcile.{
  Report, unchanged, changed, database_users, reset, admin, create_admin, bootstrap_over, bootstrap,
}

module _ {Machine : Type 0} (calls : Calls Machine) (username password : Text) where
  -- The two ways in which `bootstrap` ends without an exception, by the rows of the database at the
  -- start. Before the reset of an empty one the service was found stopped.
  abbrev pub IsBootstrappedOver : List Row → State Machine → State Machine → Report → Type 0
  IsBootstrappedOver rows s t r =
      ((rows ≢ [])
        × ((n : Text) × (original_admin calls.casefold rows username ≡ done n))
        × (r ≡ unchanged)
        × (t.made ≡ s.made))
      ⊎ ((rows ≡ [])
          × (calls.stopped s.machine ≡ ok true)
          × (r ≡ changed)
          × (t.made ≡ reset_to username password true ∷ s.made)
          × ((before : State Machine) × (admin calls username before ≡ (done username, t))))

  abbrev pub IsBootstrapped : State Machine → State Machine → Report → Type 0
  IsBootstrapped s t r =
      (rows : List Row) × (calls.users s.machine ≡ ok rows) × IsBootstrappedOver rows s t r

  reset-made :
      (s t : State Machine) (u : Unit {0})
      → reset calls username password true s ≡ (done u, t)
      → t.made ≡ reset_to username password true ∷ s.made
  unfolding reset change
  reset-made s t u h = ap (λ (r : Outcome (Unit {0}) × State Machine). r.1.made) (sym h)

  stopped-true : (o : Result Bool) → unguarded o ≡ done true → o ≡ ok true
  unfolding unguarded
  stopped-true (ok b) h = cc h
  stopped-true refused h = cc h
  stopped-true broken h = cc h

  create_admin-IsBootstrapped :
      (s t : State Machine) (r : Report)
      → create_admin calls username password s ≡ (done r, t)
      → IsBootstrappedOver [] s t r
  unfolding create_admin call
  create_admin-IsBootstrapped s t r h =
      let (stopped, s1, q, h1) = >>=-done _ _ s t r h in
      let (rest, h2) = require-done _ 85 _ s1 t r h1 in
      let (u, s2, c, h3) = >>=-done _ _ s1 t r h2 in
      let (current, s3, a, h4) = >>=-done _ _ s2 t r h3 in
      let (same, h5) = require-done _ 85 _ s3 t r h4 in
      let e = pure-state changed r s3 t h5 in
      inr (
        refl,
        stopped-true (calls.stopped s.machine)
            (ap (λ (x : Outcome Bool × State Machine). x.0) q ∙ ap done rest),
        pure-report changed r s3 t h5,
        ap (λ (x : State Machine). x.made) (sym e)
            ∙ IsQuiet-made (admin calls username) s2 s3 _ (admin-IsQuiet calls username) a
            ∙ reset-made s1 s2 u c
            ∙ ap (λ (x : Outcome Bool × State Machine). reset_to username password true ∷ x.1.made)
                (sym q),
        (
          s2,
          a
              ∙ ap (λ x. (done current, x)) e
              ∙ ap (λ n. (done n, t)) (==-sound current username same),
        ),
      )

  bootstrap_over-IsBootstrapped :
      (rows : List Row) (s t : State Machine) (r : Report)
      → bootstrap_over calls username password rows s ≡ (done r, t)
      → IsBootstrappedOver rows s t r
  unfolding bootstrap_over lift
  bootstrap_over-IsBootstrapped [] s t r h = create_admin-IsBootstrapped s t r h
  bootstrap_over-IsBootstrapped (row ∷ rows) s t r h =
      let (n, s1, o, h1) = >>=-done _ _ s t r h in
      inl (
        (λ e. cc e),
        (n, ap (λ (x : Outcome Text × State Machine). x.0) o),
        pure-report unchanged r s1 t h1,
        ap (λ (x : State Machine). x.made) (sym (pure-state unchanged r s1 t h1))
            ∙ ap (λ (x : Outcome Text × State Machine). x.1.made) (sym o),
      )

  -- A `bootstrap` that ends without an exception either found users in the database, among them the
  -- administrator that `original_admin` accepts, asked for no change and reports none; or it found
  -- none and the service stopped, asked for one initial password reset and reports a change, and then
  -- the database has the administrator under the desired name.
  pub bootstrap-IsBootstrapped :
      (s t : State Machine) (r : Report)
      → bootstrap calls username password s ≡ (done r, t)
      → IsBootstrapped s t r
  unfolding bootstrap database_users call
  bootstrap-IsBootstrapped s t r h =
      let (rows, s1, q, h1) = >>=-done (database_users calls) _ s t r h in
      let same : s ≡ s1 = ap (λ (x : Outcome (List Row) × State Machine). x.1) q in
      (
        rows,
        loaded-done 81 (calls.users s.machine) rows
            (ap (λ (x : Outcome (List Row) × State Machine). x.0) q),
        subst (λ x. IsBootstrappedOver rows x t r) (sym same)
            (bootstrap_over-IsBootstrapped rows s1 t r h1),
      )
