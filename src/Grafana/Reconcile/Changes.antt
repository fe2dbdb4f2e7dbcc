-- ===== src/Grafana/Reconcile/Changes.antt =====
-- The reset and the rename of `reconcile` of src/monitoring/grafana_credentials.py: what each asks for.
use dragontools.Common.{
  ◌≡◌, refl, sym, ap, ◌∙◌, ◌⊎◌, inl, inr, Bool, true, false, not, Option, none, some, List, [], ◌∷◌,
  ◌++◌, Text, ◌==◌, nat_eq, list_eq, if◌then◌else◌,
}
use dragontools.Common.Json.{Json}
use dragontools.Grafana.Outcome.{Outcome, done}
use dragontools.Grafana.Program.{State, Change, reset_to, put, pure, change, ◌>>=◌}
use dragontools.Grafana.Program.Laws.{
  IsQuiet, pure-IsQuiet, if-IsQuiet, IsQuiet-made, lift-IsQuiet, >>=-IsQuiet, >>=-done,
}
use dragontools.Grafana.Requests.{Calls, put_profile, present}
use dragontools.Grafana.Requests.Retry.{authenticated-IsQuiet}
use dragontools.Grafana.Reconcile.{
  renamed, has_login, reset, current_profile, reset_profile, login_again, confirmed, rename,
}

-- The reset of a `reconcile`, if there is one.
abbrev pub IsReset : Text → Text → List Change → Type 0
IsReset username password resets = (resets ≡ []) ⊎ (resets ≡ reset_to username password false ∷ [])

-- The `PUT` of a `reconcile`: there is one just when the administrator has another name.
abbrev pub IsRename : Text → Text → Text → List Change → Type 0
IsRename username password current puts =
    (((current == username) ≡ true) × (puts ≡ []))
    ⊎ (((current == username) ≡ false)
        × ((value : Json) × (has_login current value ≡ true)
            × (puts ≡ put current password (renamed username value) ∷ [])))

module _ {Machine : Type 0} (calls : Calls Machine) (username password current : Text) where
  pub current_profile-IsQuiet :
      (known : Option Json) → IsQuiet (current_profile calls username password current known)
  unfolding current_profile
  current_profile-IsQuiet (some value) = pure-IsQuiet (some value)
  current_profile-IsQuiet none =
      if-IsQuiet (not (current == username)) _ _ (authenticated-IsQuiet calls current password)
        (pure-IsQuiet none)

  login_again-IsQuiet : IsQuiet (login_again calls password current)
  unfolding login_again
  login_again-IsQuiet =
      >>=-IsQuiet _ _ (authenticated-IsQuiet calls current password)
        λ again. lift-IsQuiet (present again)

  confirmed-IsQuiet : (reply : Option Json) → IsQuiet (confirmed calls reply)
  unfolding confirmed
  confirmed-IsQuiet reply = >>=-IsQuiet _ _ (lift-IsQuiet (present reply)) λ _. pure-IsQuiet tt

  reset-made :
      (s t : State Machine) (u : Unit {0})
      → reset calls username password false s ≡ (done u, t)
      → t.made ≡ reset_to username password false ∷ s.made
  unfolding reset change
  reset-made s t u h = ap (λ (r : Outcome (Unit {0}) × State Machine). r.1.made) (sym h)

  put_profile-made :
      (value : Json) (s t : State Machine) (reply : Option Json)
      → put_profile calls current password (renamed username value) s ≡ (done reply, t)
      → t.made ≡ put current password (renamed username value) ∷ s.made
  unfolding put_profile change
  put_profile-made value s t reply h =
      ap (λ (r : Outcome (Option Json) × State Machine). r.1.made) (sym h)

  pub reset_profile-IsReset :
      (known : Option Json) (s t : State Machine) (value : Json)
      → reset_profile calls username password current known s ≡ (done value, t)
      → (resets : List Change) × (t.made ≡ resets ++ s.made) × IsReset username password resets
  unfolding reset_profile
  reset_profile-IsReset (some v) s t value h =
      ([], IsQuiet-made (pure v) s t _ (pure-IsQuiet v) h, inl refl)
  reset_profile-IsReset none s t value h =
      let (u, s1, r, h1) = >>=-done _ _ s t value h in
      (
        reset_to username password false ∷ [],
        IsQuiet-made (login_again calls password current) s1 t (done value) login_again-IsQuiet h1
            ∙ reset-made s s1 u r,
        inr refl,
      )

  pub rename-IsRename :
      (value : Json) (s t : State Machine) (u : Unit {0})
      → rename calls username password current value s ≡ (done u, t)
      → has_login current value ≡ true
      → (puts : List Change) × (t.made ≡ puts ++ s.made) × IsRename username password current puts
  unfolding rename
  rename-IsRename value s t u h named = go (current == username) refl h
    where
      go :
          (same : Bool)
          → (current == username) ≡ same
          → (if not same
                then put_profile calls current password (renamed username value) >>= confirmed calls
                else pure tt)
              s
            ≡ (done u, t)
          → (puts : List Change) × (t.made ≡ puts ++ s.made)
            × IsRename username password current puts
      go true e h = ([], IsQuiet-made (pure tt) s t _ (pure-IsQuiet tt) h, inl (e, refl))
      go false e h =
          let (reply, s1, p, h1) =
            >>=-done (put_profile calls current password (renamed username value)) (confirmed calls)
              s t u h in
          (
            put current password (renamed username value) ∷ [],
            IsQuiet-made (confirmed calls reply) s1 t (done u) (confirmed-IsQuiet reply) h1
                ∙ put_profile-made value s s1 reply p,
            inr (e, (value, named, refl)),
          )
