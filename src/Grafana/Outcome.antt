-- ===== src/Grafana/Outcome.antt =====
-- How a function of src/monitoring/grafana_credentials.py ends: with a result, with `Failure(code)`, or
-- with another exception. `endless` is a loop that has used up the fuel of the model.
use dragontools.Common.{ℕ, Bool, true, false}
use dragontools.Common.Result.{Result, ok, refused, broken}

pub data Outcome (A : Type 0) : Type 0 where
  done : A → Outcome A
  failure : ℕ → Outcome A
  raised endless : Outcome A

infixl 5 ◌>!◌
unfoldable pub ◌>!◌ : {A B : Type 0} → Outcome A → (A → Outcome B) → Outcome B
done a >! f = f a
failure c >! f = failure c
raised >! f = raised
endless >! f = endless

-- `require(ok, code)`
unfoldable pub demanded : Bool → ℕ → Outcome (Unit {0})
demanded true c = done tt
demanded false c = failure c

-- `json.loads` with a code for `ValueError`.
unfoldable pub loaded : {A : Type 0} → ℕ → Result A → Outcome A
loaded c (ok a) = done a
loaded c refused = failure c
loaded c broken = raised

-- `json.loads` whose exceptions are not caught.
unfoldable pub unguarded : {A : Type 0} → Result A → Outcome A
unguarded (ok a) = done a
unguarded refused = raised
unguarded broken = raised
