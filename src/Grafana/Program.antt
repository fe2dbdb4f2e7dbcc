-- ===== src/Grafana/Program.antt =====
-- A program of src/monitoring/grafana_credentials.py passes the machine on, and the list of the
-- changes that it has asked for, the latest first: a reset by the command line tool, or a `PUT` of a profile.
pub mod Laws
use dragontools.Common.{ℕ, Bool, Text, List, [], ◌∷◌, ◌++◌}
use dragontools.Common.Json.{Json}
use dragontools.Grafana.Outcome.{Outcome, done, failure, raised, endless, demanded}

pub data Change : Type 0 where
  reset_to : (username password : Text) → (bootstrap : Bool) → Change
  put : (username password : Text) → (body : Json) → Change

pub record State (Machine : Type 0) : Type 0 where
  pub machine : Machine
  pub made : List Change

abbrev pub Program : Type 0 → Type 0 → Type 0
Program Machine A = State Machine → Outcome A × State Machine

module _ {Machine A : Type 0} where
  unfoldable pub pure : A → Program Machine A
  pure a s = (done a, s)

  unfoldable pub lift : Outcome A → Program Machine A
  lift o s = (o, s)

  -- A call that answers and changes the machine.
  unfoldable pub call : (Machine → Outcome A × Machine) → Program Machine A
  call f s = let (o, m) = f s.machine in (o, record { machine = m; made = s.made })

  -- A call that is one of the changes.
  unfoldable pub change : Change → (Machine → Outcome A × Machine) → Program Machine A
  change c f s = let (o, m) = f s.machine in (o, record { machine = m; made = c ∷ s.made })

module _ {Machine A B : Type 0} where
  unfoldable pub resume :
      (A → Program Machine B) → Outcome A → State Machine → Outcome B × State Machine
  resume f (done a) s = f a s
  resume f (failure c) s = (failure c, s)
  resume f raised s = (raised, s)
  resume f endless s = (endless, s)

  infixl 5 ◌>>=◌
  unfoldable pub ◌>>=◌ : Program Machine A → (A → Program Machine B) → Program Machine B
  unfolding resume
  (m >>= f) s = resume f (m s).0 (m s).1

module _ {Machine : Type 0} where
  unfoldable pub require : Bool → ℕ → Program Machine (Unit {0})
  unfolding lift
  require b c = lift (demanded b c)
