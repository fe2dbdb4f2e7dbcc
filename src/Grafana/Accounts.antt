-- ===== src/Grafana/Accounts.antt =====
-- `original_admin` of src/monitoring/grafana_credentials.py.
use dragontools.Common.{
  ℕ, not, ◌&&◌, ◌||◌, Option, none, some, List, [], ◌∷◌, Text, ◌==◌, nat_eq, list_eq, if◌then◌else◌,
}
use dragontools.Grafana.Outcome.{Outcome, done, failure, raised, ◌>!◌, demanded}
use dragontools.Grafana.Input.{contains_char, has_control}

-- A row of the query.
pub record Row : Type 0 where
  pub id : ℕ
  pub login : Option Text
  pub email : Option Text
  pub is_admin : ℕ
  pub is_disabled : ℕ
  pub is_service_account : ℕ

unfoldable pub admins : List Row → List Row
admins [] = []
admins (r ∷ rs) = let rest = admins rs in if r.id == 1 then r ∷ rest else rest

unfoldable pub only : List Row → Outcome Row
only (r ∷ []) = done r
only _ = failure 81

abbrev pub login_text : Option Text → Outcome Text
login_text (some t) = demanded (not (t == []) && not (contains_char 58 t)) 81 >! λ _. done t
login_text none = failure 81

-- `None.casefold()` raises.
abbrev pub login_of : Option Text → Outcome Text
login_of none = raised
login_of (some t) = done t

abbrev pub email_of : Option Text → Text
email_of none = []
email_of (some t) = t

module _ (casefold : Text → Text) where
  -- No other account has the name as its login or email.
  unfoldable pub others_differ : List Row → Text → Outcome (Unit {0})
  others_differ [] desired = done tt
  others_differ (r ∷ rs) desired =
      let rest = others_differ rs desired in
      if r.id == 1
      then rest
      else login_of r.login >! λ login.
          demanded
            (not (
              casefold login == casefold desired
              || casefold (email_of r.email) == casefold desired))
            81
          >! λ _. rest

  -- `original_admin(rows, desired)`
  unfoldable pub original_admin : List Row → Text → Outcome Text
  original_admin rows desired = only (admins rows) >! λ row.
      demanded (row.is_admin == 1 && row.is_disabled == 0 && row.is_service_account == 0) 81 >! λ _.
      login_text row.login >! λ current. demanded (not (has_control current)) 81 >! λ _.
      others_differ rows desired >! λ _. done current
