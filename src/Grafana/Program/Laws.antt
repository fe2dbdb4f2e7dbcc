-- ===== src/Grafana/Program/Laws.antt =====
-- Programs of src/monitoring/grafana_credentials.py that ask for no change, and what a result of a
-- sequence says of its parts.
use dragontools.Common.{◌≡◌, refl, sym, ap, ◌∙◌, ℕ, ◌≤◌, arith, Bool, true, false, if◌then◌else◌}
use dragontools.Grafana.Outcome.{Outcome, done, failure, raised, endless, demanded}
use dragontools.Grafana.Program.{State, Program, pure, lift, call, resume, ◌>>=◌, require}

-- However the program ends, it has asked for no change.
abbrev pub IsQuiet : {Machine A : Type 0} → Program Machine A → Type 0
IsQuiet p = (s : State _) → (p s).1.made ≡ s.made

module _ {Machine A : Type 0} where
  pub pure-IsQuiet : (a : A) → IsQuiet (pure {Machine = Machine} a)
  unfolding pure
  pure-IsQuiet a s = refl

  pub lift-IsQuiet : (o : Outcome A) → IsQuiet (lift {Machine = Machine} o)
  unfolding lift
  lift-IsQuiet o s = refl

  pub call-IsQuiet : (f : Machine → Outcome A × Machine) → IsQuiet (call f)
  unfolding call
  call-IsQuiet f s = refl

module _ {Machine A : Type 0} where
  pub IsQuiet-made :
      (p : Program Machine A) (s t : State Machine) (o : Outcome A)
      → IsQuiet p
      → p s ≡ (o, t)
      → t.made ≡ s.made
  IsQuiet-made p s t o quiet h = ap (λ (r : Outcome A × State Machine). r.1.made) (sym h) ∙ quiet s

  pub if-IsQuiet :
      (b : Bool) (p q : Program Machine A) → IsQuiet p → IsQuiet q → IsQuiet (if b then p else q)
  if-IsQuiet true p q hp hq = hp
  if-IsQuiet false p q hp hq = hq

module _ {Machine : Type 0} where
  pub require-IsQuiet : (b : Bool) (c : ℕ) → IsQuiet (require {Machine = Machine} b c)
  unfolding require lift
  require-IsQuiet b c s = refl

module _ {Machine A B : Type 0} where
  resume-IsQuiet :
      (f : A → Program Machine B) (o : Outcome A) (s : State Machine)
      → ((a : A) → IsQuiet (f a))
      → (resume f o s).1.made ≡ s.made
  unfolding resume
  resume-IsQuiet f (done a) s h = h a s
  resume-IsQuiet f (failure c) s h = refl
  resume-IsQuiet f raised s h = refl
  resume-IsQuiet f endless s h = refl

  pub >>=-IsQuiet :
      (m : Program Machine A) (f : A → Program Machine B)
      → IsQuiet m
      → ((a : A) → IsQuiet (f a))
      → IsQuiet (m >>= f)
  unfolding ◌>>=◌
  >>=-IsQuiet m f hm hf s = resume-IsQuiet f (m s).0 (m s).1 hf ∙ hm s

  pub >>=-done :
      (m : Program Machine A) (f : A → Program Machine B) (s t : State Machine) (b : B)
      → (m >>= f) s ≡ (done b, t)
      → (a : A) × (u : State Machine) × (m s ≡ (done a, u)) × (f a u ≡ (done b, t))
  unfolding ◌>>=◌ resume
  >>=-done m f s t b h = go (m s) refl h
    where
      go :
          (r : Outcome A × State Machine)
          → m s ≡ r
          → resume f r.0 r.1 ≡ (done b, t)
          → (a : A) × (u : State Machine) × (m s ≡ (done a, u)) × (f a u ≡ (done b, t))
      go (done a, u) e h = (a, u, e, h)
      go (failure c, u) e h = absurd (cc h)
      go (raised, u) e h = absurd (cc h)
      go (endless, u) e h = absurd (cc h)

module _ {Machine B : Type 0} where
  pub require-done :
      (b : Bool) (c : ℕ) (f : Unit {0} → Program Machine B) (s t : State Machine) (r : B)
      → (require b c >>= f) s ≡ (done r, t)
      → (b ≡ true) × (f tt s ≡ (done r, t))
  unfolding require lift ◌>>=◌ resume demanded
  require-done true c f s t r h = (refl, h)
  require-done false c f s t r h = absurd (cc h)

-- A result other than an endless loop.
abbrev pub IsEnd : {A : Type 0} → Outcome A → Type 0
IsEnd endless = ⊥
IsEnd _ = Unit

-- The program ends, and the clock does not go back meanwhile.
abbrev pub IsTimely : {Machine A : Type 0} → (Machine → ℕ) → Program Machine A → Type 0
IsTimely clock p = (s : State _) → IsEnd (p s).0 × (clock s.machine ≤ clock (p s).1.machine)

module _ {Machine A : Type 0} (clock : Machine → ℕ) where
  pub pure-IsTimely : (a : A) → IsTimely clock (pure {Machine = Machine} a)
  unfolding pure
  pure-IsTimely a s = (tt, omega arith)

  pub lift-IsTimely : (o : Outcome A) → IsEnd o → IsTimely clock (lift {Machine = Machine} o)
  unfolding lift
  lift-IsTimely o e s = (e, omega arith)

module _ {Machine : Type 0} (clock : Machine → ℕ) where
  pub require-IsTimely : (b : Bool) (c : ℕ) → IsTimely clock (require {Machine = Machine} b c)
  unfolding require lift demanded
  require-IsTimely true c s = (tt, omega arith)
  require-IsTimely false c s = (tt, omega arith)

module _ {Machine A B : Type 0} (clock : Machine → ℕ) where
  resume-IsTimely :
      (f : A → Program Machine B) (o : Outcome A) (s : State Machine)
      → IsEnd o
      → ((a : A) → IsTimely clock (f a))
      → IsEnd (resume f o s).0 × (clock s.machine ≤ clock (resume f o s).1.machine)
  unfolding resume
  resume-IsTimely f (done a) s e h = h a s
  resume-IsTimely f (failure c) s e h = (tt, omega arith)
  resume-IsTimely f raised s e h = (tt, omega arith)
  resume-IsTimely f endless s e h = absurd e

  pub >>=-IsTimely :
      (m : Program Machine A) (f : A → Program Machine B)
      → IsTimely clock m
      → ((a : A) → IsTimely clock (f a))
      → IsTimely clock (m >>= f)
  unfolding ◌>>=◌
  >>=-IsTimely m f hm hf s =
      let (e, early) = hm s in
      let (end, late) = resume-IsTimely f (m s).0 (m s).1 e hf in (end, omega (arith, early, late))
