-- ===== src/Grafana/Requests/Retry.antt =====
-- The loops of src/monitoring/grafana_credentials.py end, and ask for no change.
use dragontools.Common.{
  ◌≡◌, refl, ◌∙◌, ℕ, zero, suc, ◌+◌, ◌-◌, ◌*◌, ◌/◌, ◌≤◌, min, Bool, true, false, Option, Text, ltb,
  ◌==◌, nat_eq, arith,
}
use dragontools.Common.Json.{Json}
use dragontools.Grafana.Outcome.{Outcome, done, failure, raised, endless}
use dragontools.Grafana.Program.{State, Program, call, require}
use dragontools.Grafana.Program.Laws.{
  IsEnd, IsTimely, lift-IsTimely, require-IsTimely, >>=-IsTimely, IsQuiet, lift-IsQuiet,
  call-IsQuiet, require-IsQuiet, >>=-IsQuiet,
}
use dragontools.Grafana.Requests.Ends.{
  read_reply-IsEnd, local_admin-IsEnd, logs_reply-IsEnd, plugin_ok-IsEnd, present-IsEnd,
}
use dragontools.Grafana.Requests.{
  Calls, Request, request, second, left_of, pass, pause, waited, after, retry, identified,
  authenticated, logs_attempt, logs_ready, settings, as_88, logs_verify,
}

module _ {Machine : Type 0} (calls : Calls Machine) {A : Type 0} (attempt : ℕ → Program Machine A)
    (deadline code : ℕ) where
  pass-IsQuiet : ((left : ℕ) → IsQuiet (attempt left)) → IsQuiet (pass calls attempt deadline code)
  unfolding pass
  pass-IsQuiet quiet s =
      >>=-IsQuiet (require (ltb 0 (left_of calls deadline s.machine)) code)
        (λ _. attempt (left_of calls deadline s.machine)) (require-IsQuiet _ code) (λ _. quiet _) s

  waited-IsQuiet :
      (again : ℕ → Program Machine A) (delay c : ℕ) (busy left : Bool)
      → ((d : ℕ) → IsQuiet (again d))
      → IsQuiet (waited calls attempt deadline code again delay c busy left)
  unfolding waited pause
  waited-IsQuiet again delay c false left quiet s = refl
  waited-IsQuiet again delay c true false quiet s = refl
  waited-IsQuiet again delay c true true quiet s = quiet second _

  after-IsQuiet :
      (again : ℕ → Program Machine A) (delay : ℕ) (o : Outcome A) (s : State Machine)
      → ((d : ℕ) → IsQuiet (again d))
      → (after calls attempt deadline code again delay o s).1.made ≡ s.made
  unfolding after
  after-IsQuiet again delay (done a) s quiet = refl
  after-IsQuiet again delay raised s quiet = refl
  after-IsQuiet again delay endless s quiet = refl
  after-IsQuiet again delay (failure c) s quiet = waited-IsQuiet again delay c (c == 84) _ quiet s

  pub retry-IsQuiet :
      ((left : ℕ) → IsQuiet (attempt left))
      → (fuel delay : ℕ) → IsQuiet (retry calls attempt deadline code fuel delay)
  unfolding retry
  retry-IsQuiet quiet zero delay s = refl
  retry-IsQuiet quiet (suc fuel) delay s =
      after-IsQuiet (retry calls attempt deadline code fuel) delay _ _ (retry-IsQuiet quiet fuel)
      ∙ pass-IsQuiet quiet s

-- The documented behaviour of the clock: it does not go back, and `time.sleep` sleeps at least as long
-- as it is told to.
pub record IsClock {Machine : Type 0} (calls : Calls Machine) : Type 0 where
  pub sleeps : (d : ℕ) (m : Machine) → calls.clock m + d ≤ calls.clock (calls.sleep d m)
  pub exchanges : (q : Request) (m : Machine) → calls.clock m ≤ calls.clock (calls.exchange q m).1
  pub resets :
      (username password : Text) (bootstrap : Bool) (m : Machine)
      → calls.clock m ≤ calls.clock (calls.run_reset username password bootstrap m).1

module _ {Machine : Type 0} (calls : Calls Machine) (law : IsClock calls) {A : Type 0}
    (attempt : ℕ → Program Machine A) (deadline code : ℕ)
    (timely : (left : ℕ) → IsTimely calls.clock (attempt left)) where
  pass-IsTimely : IsTimely calls.clock (pass calls attempt deadline code)
  unfolding pass
  pass-IsTimely s =
      >>=-IsTimely calls.clock (require (ltb 0 (left_of calls deadline s.machine)) code)
        (λ _. attempt (left_of calls deadline s.machine)) (require-IsTimely calls.clock _ code)
        (λ _. timely _) s

  -- Enough passes for the time that is left.
  abbrev Fits : ℕ → State Machine → Type 0
  Fits n s = deadline ≤ calls.clock s.machine + n * (second / 2)

  -- The program ends, on each state for which the passes are enough.
  abbrev EndsWithin : ℕ → Program Machine A → Type 0
  EndsWithin n p =
      (s : State Machine)
      → Fits n s
      → IsEnd (p s).0 × (calls.clock s.machine ≤ calls.clock (p s).1.machine)

  -- What the next pass promises, where one more fits.
  abbrev Next : ℕ → (ℕ → Program Machine A) → Type 0
  Next zero again = Unit
  Next (suc n) again = (d : ℕ) → second / 2 ≤ d → EndsWithin n (again d)

  waited-IsTimely :
      (n : ℕ) (again : ℕ → Program Machine A) (delay c : ℕ) (busy left : Bool) (s : State Machine)
      → ltb 0 (left_of calls deadline s.machine) ≡ left
      → second / 2 ≤ delay
      → Next n again
      → Fits n s
      → IsEnd (waited calls attempt deadline code again delay c busy left s).0
        × (calls.clock s.machine
            ≤ calls.clock (waited calls attempt deadline code again delay c busy left s).1.machine)
  unfolding waited left_of pause
  waited-IsTimely n again delay c false left s e long h fits = (tt, omega arith)
  waited-IsTimely n again delay c true false s e long h fits = (tt, omega arith)
  waited-IsTimely zero again delay c true true s e long h fits = absurd (ground arith)
  waited-IsTimely (suc n) again delay c true true s e long h fits =
      let t = pause calls attempt deadline code delay s in
      let slept = law.sleeps (min delay (deadline - calls.clock s.machine)) s.machine in
      let (end, later) = h second (omega arith) t (paused slept) in
      (end, omega (arith, slept, later))
    where
      paused :
          calls.clock s.machine + min delay (deadline - calls.clock s.machine)
            ≤ calls.clock (calls.sleep (min delay (deadline - calls.clock s.machine)) s.machine)
          → deadline
            ≤ calls.clock (calls.sleep (min delay (deadline - calls.clock s.machine)) s.machine)
              + n * (second / 2)
      paused slept = omega (arith, slept, long, fits)

  after-IsTimely :
      (n : ℕ) (again : ℕ → Program Machine A) (delay : ℕ) (o : Outcome A) (s : State Machine)
      → second / 2 ≤ delay
      → Next n again
      → IsEnd o
      → Fits n s
      → IsEnd (after calls attempt deadline code again delay o s).0
        × (calls.clock s.machine
            ≤ calls.clock (after calls attempt deadline code again delay o s).1.machine)
  unfolding after
  after-IsTimely n again delay (done a) s long h e fits = (tt, omega arith)
  after-IsTimely n again delay raised s long h e fits = (tt, omega arith)
  after-IsTimely n again delay (failure c) s long h e fits =
      waited-IsTimely n again delay c (c == 84) _ s refl long h fits
  after-IsTimely n again delay endless s long h e fits = elim e [ ]

  passed :
      (n : ℕ) (again : ℕ → Program Machine A) (delay : ℕ)
      → second / 2 ≤ delay
      → Next n again
      → EndsWithin n (λ s.
        after calls attempt deadline code again delay
          (pass calls attempt deadline code s).0
          (pass calls attempt deadline code s).1)
  passed n again delay long h s fits =
      let (e, early) = pass-IsTimely s in
      let (end, late) =
        after-IsTimely n again delay _ (pass calls attempt deadline code s).1 long h e
          (omega (arith, early, fits)) in
      (end, omega (arith, early, late))

  pub retry-EndsWithin :
      (n delay : ℕ)
      → second / 2 ≤ delay
      → EndsWithin n (retry calls attempt deadline code (suc n) delay)
  unfolding retry
  retry-EndsWithin zero delay long = passed zero (λ d s. (endless, s)) delay long tt
  retry-EndsWithin (suc n) delay long =
      passed (suc n) (retry calls attempt deadline code (suc n)) delay long
        (λ d h. retry-EndsWithin n d h)

module _ {Machine : Type 0} (calls : Calls Machine) where
  request-IsQuiet : (q : Request) → IsQuiet (request calls q)
  unfolding request
  request-IsQuiet q = call-IsQuiet _

  -- A login asks for no change.
  pub authenticated-IsQuiet :
      (username password : Text) → IsQuiet (authenticated calls username password)
  unfolding authenticated identified
  authenticated-IsQuiet username password s =
      retry-IsQuiet calls _ _ _
        (λ left. >>=-IsQuiet _ _ (request-IsQuiet _) (λ reply. lift-IsQuiet _)) 61 _ s

  logs_ready-IsQuiet :
      (query : Bool) (username password : Text) → IsQuiet (logs_ready calls query username password)
  unfolding logs_ready logs_attempt
  logs_ready-IsQuiet query username password s =
      retry-IsQuiet calls _ _ _
        (λ left.
          >>=-IsQuiet _ _ (request-IsQuiet _)
            (λ reply. >>=-IsQuiet _ _ (lift-IsQuiet _) (λ _ t. require-IsQuiet _ 87 t)))
        91 _ s

  pub logs_verify-IsQuiet :
      (username password : Text) → IsQuiet (logs_verify calls username password)
  unfolding logs_verify settings
  logs_verify-IsQuiet username password =
      >>=-IsQuiet _ _ (λ s. request-IsQuiet _ s)
        λ _. >>=-IsQuiet _ _ (lift-IsQuiet _) λ _. >>=-IsQuiet _ _ (lift-IsQuiet _) λ _.
          >>=-IsQuiet _ _ (logs_ready-IsQuiet false username password)
            λ _. logs_ready-IsQuiet true username password

module _ {Machine : Type 0} (calls : Calls Machine) (law : IsClock calls) where
  request-IsTimely : (q : Request) → IsTimely calls.clock (request calls q)
  unfolding request call
  request-IsTimely q s = (
    read_reply-IsEnd calls.loads q.route (calls.exchange q s.machine).0,
    law.exchanges q s.machine,
  )

  pub authenticated-IsTimely :
      (username password : Text) → IsTimely calls.clock (authenticated calls username password)
  unfolding authenticated identified
  authenticated-IsTimely username password s =
      retry-EndsWithin calls law _ (calls.clock s.machine + 30 * second) 84
        (λ left.
          >>=-IsTimely calls.clock _ _ (request-IsTimely _)
            (λ reply. lift-IsTimely calls.clock _ (local_admin-IsEnd calls reply)))
        60 (second / 2) (omega arith) s (omega arith)

  logs_ready-IsTimely :
      (query : Bool) (username password : Text)
      → IsTimely calls.clock (logs_ready calls query username password)
  unfolding logs_ready logs_attempt
  logs_ready-IsTimely query username password s =
      retry-EndsWithin calls law _ (calls.clock s.machine + 45 * second) 87
        (λ left. >>=-IsTimely calls.clock _ _ (request-IsTimely _) λ reply.
          >>=-IsTimely calls.clock _ _
            (lift-IsTimely calls.clock _ (logs_reply-IsEnd calls query reply))
            λ _ t. require-IsTimely calls.clock _ 87 t)
        90 (second / 2) (omega arith) s (omega arith)

  settings-IsTimely :
      (username password : Text) → IsTimely calls.clock (settings calls username password)
  unfolding settings as_88
  settings-IsTimely username password s =
      let (e, later) = request-IsTimely _ s in (as_88-IsEnd _ e, later)
    where
      as_88-IsEnd : (o : Outcome (Option Json)) → IsEnd o → IsEnd (as_88 calls o)
      as_88-IsEnd (done a) e = tt
      as_88-IsEnd (failure c) e = tt
      as_88-IsEnd raised e = tt
      as_88-IsEnd endless e = e

  pub logs_verify-IsTimely :
      (username password : Text) → IsTimely calls.clock (logs_verify calls username password)
  unfolding logs_verify
  logs_verify-IsTimely username password =
      >>=-IsTimely calls.clock _ _ (settings-IsTimely username password) λ reply.
        >>=-IsTimely calls.clock _ _ (lift-IsTimely calls.clock _ (present-IsEnd reply)) λ plugin.
          >>=-IsTimely calls.clock _ _ (lift-IsTimely calls.clock _ (plugin_ok-IsEnd calls plugin))
            λ _.
              >>=-IsTimely calls.clock _ _ (logs_ready-IsTimely false username password)
                λ _. logs_ready-IsTimely true username password
