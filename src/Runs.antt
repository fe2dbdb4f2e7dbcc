-- ===== src/Runs.antt =====
-- Programs that write to a disk and can be cut off: a run gives the result (`none` if it raises),
-- the state at the end, and every state that was on disk in between, in order.
use mathlib.Core.Option.{some-injective}
use dragontools.Common.{
  ◌≡◌, refl, subst, Bool, true, false, Option, none, some, List, [], ◌∷◌, ◌++◌, Every, Every-append,
  Every-mono,
}

pub record Run (S : Type 0) (A : Type 0) : Type 0 where
  pub outcome : Option A
  pub state : S
  pub trace : List S

abbrev pub Program : Type 0 → Type 0 → Type 0
Program S A = S → Run S A

module _ {S : Type 0} where
  abbrev pub pure : {A : Type 0} → A → Program S A
  pure a s = record { outcome = some a; state = s; trace = [] }

  abbrev pub raise : {A : Type 0} → Program S A
  raise s = record { outcome = none; state = s; trace = [] }

  abbrev pub write : S → Program S (Unit {0})
  write s' s = record { outcome = some tt; state = s'; trace = s' ∷ [] }

  abbrev pub after_outcome : {A B : Type 0} → Option A → S → List S → (A → Program S B) → Run S B
  after_outcome none s trace f = record { outcome = none; state = s; trace = trace }
  after_outcome (some a) s trace f =
      let r = f a s in record { outcome = r.outcome; state = r.state; trace = trace ++ r.trace }

  abbrev pub modify : (S → S) → Program S (Unit {0})
  modify f s = write (f s) s

  infixl 5 ◌>>=◌ ◌>>◌
  abbrev pub ◌>>=◌ : {A B : Type 0} → Program S A → (A → Program S B) → Program S B
  ◌>>=◌ m f s = let r = m s in after_outcome r.outcome r.state r.trace f

  abbrev pub ◌>>◌ : {A B : Type 0} → Program S A → Program S B → Program S B
  m >> k = m >>= λ _. k

  abbrev pub require : Bool → Program S (Unit {0})
  require true s = pure tt s
  require false s = raise s

  abbrev pub or_raise : {A : Type 0} → Option A → Program S A
  or_raise none s = raise s
  or_raise (some a) s = pure a s

  abbrev pub gets : {A : Type 0} → (S → A) → Program S A
  gets f s = pure (f s) s

  abbrev pub Post : {A : Type 0} → (A → S → Type 0) → Option A → S → Type 0
  Post Q none s = ⊥
  Post Q (some a) s = Q a s

  -- Every state on the way satisfies `I`, and there is a result, which satisfies `Q`.
  pub record Keeps {A : Type 0} (I : S → Type 0) (Q : A → S → Type 0) (r : Run S A) : Type 0 where
    pub visited : Every I r.trace
    pub ended : Post Q r.outcome r.state

  pub Keeps-bind :
      {A B : Type 0} (I : S → Type 0) (Q : A → S → Type 0) (Q' : B → S → Type 0)
      → (m : Program S A) (f : A → Program S B) (s : S) → Keeps I Q (m s)
      → ((a : A) (s' : S) → Q a s' → Keeps I Q' (f a s'))
      → Keeps I Q' ((m >>= f) s)
  Keeps-bind {A} {B} I Q Q' m f s h next =
      go (m s).outcome (m s).state (m s).trace h.visited h.ended
    where
      go :
          (o : Option A) (t : S) (trace : List S)
          → Every I trace
          → Post Q o t
          → Keeps I Q' (after_outcome o t trace f)
      go none t trace v e = absurd e
      go (some a) t trace v e =
          let k = next a t e in
          record { visited = Every-append I trace (f a t).trace v k.visited; ended = k.ended }

  pub Keeps-mono :
      {A : Type 0} (I : S → Type 0) (Q Q' : A → S → Type 0) (r : Run S A)
      → Keeps I Q r
      → ((a : A) (s : S) → Q a s → Q' a s)
      → Keeps I Q' r
  Keeps-mono {A} I Q Q' r h next = record { visited = h.visited; ended = go r.outcome h.ended }
    where
      go : (o : Option A) → Post Q o r.state → Post Q' o r.state
      go none e = absurd e
      go (some a) e = next a r.state e

  pub Keeps-weaken :
      {A : Type 0} (I I' : S → Type 0) (Q : A → S → Type 0) (r : Run S A)
      → ((s : S) → I s → I' s)
      → Keeps I Q r
      → Keeps I' Q r
  Keeps-weaken {A} I I' Q r f h = record {
    visited = Every-mono I I' f r.trace h.visited;
    ended = h.ended;
  }

  -- From `P` the program leads to `Q`, through states that satisfy `I`.
  abbrev pub Passes :
      {A : Type 0} → (S → Type 0) → (S → Type 0) → (A → S → Type 0) → Program S A → Type 0
  Passes I P Q m = (s : S) → P s → Keeps I Q (m s)

  pub Passes-then :
      {B : Type 0} (I P Q : S → Type 0) (T : B → S → Type 0)
      → (m : Program S (Unit {0})) (k : Program S B) → Passes I P (λ _. Q) m
      → Passes I Q T k
      → Passes I P T (m >> k)
  Passes-then I P Q T m k f g s p = Keeps-bind I (λ _. Q) T m (λ _. k) s (f s p) (λ _ s' q. g s' q)

  -- Every state on the way and the last one satisfy `I`, whether the program raises or not; a result
  -- satisfies `Q` with the last state.
  pub record Stays {A : Type 0} (I : S → Type 0) (Q : A → S → Type 0) (r : Run S A) : Type 0 where
    pub visited : Every I r.trace
    pub last : I r.state
    pub result : (a : A) → r.outcome ≡ some a → Q a r.state

  pub Stays-bind :
      {A B : Type 0} (I : S → Type 0) (Q : A → S → Type 0) (Q' : B → S → Type 0)
      → (m : Program S A) (f : A → Program S B) (s : S) → Stays I Q (m s)
      → ((a : A) (s' : S) → I s' → Q a s' → Stays I Q' (f a s'))
      → Stays I Q' ((m >>= f) s)
  Stays-bind {A} {B} I Q Q' m f s h next =
      go (m s).outcome (m s).state (m s).trace h.visited h.last h.result
    where
      go :
          (o : Option A) (t : S) (trace : List S)
          → Every I trace
          → I t
          → ((a : A) → o ≡ some a → Q a t)
          → Stays I Q' (after_outcome o t trace f)
      go none t trace v l q = record { visited = v; last = l; result = λ a e. cc e }
      go (some a) t trace v l q =
          let k = next a t l (q a refl) in
          record {
            visited = Every-append I trace (f a t).trace v k.visited;
            last = k.last;
            result = k.result;
          }

  pub pure-Stays :
      {A : Type 0} (I : S → Type 0) (Q : A → S → Type 0) (a : A) (s : S)
      → I s
      → Q a s
      → Stays I Q (pure a s)
  pure-Stays I Q a s i q = record {
    visited = tt;
    last = i;
    result = λ b e. subst (λ b. Q b s) (some-injective _ _ e) q;
  }

  pub raise-Stays :
      {A : Type 0} (I : S → Type 0) (Q : A → S → Type 0) (s : S) → I s → Stays I Q (raise s)
  raise-Stays I Q s i = record { visited = tt; last = i; result = λ b e. cc e }

  pub write-Stays : (I : S → Type 0) (s t : S) → I t → Stays I (λ _ s'. s' ≡ t) (write t s)
  write-Stays I s t i = record { visited = (i, tt); last = i; result = λ b e. refl }

  pub require-Stays :
      (I : S → Type 0) (b : Bool) (s : S)
      → I s
      → Stays I (λ _ s'. (s' ≡ s) × (b ≡ true)) (require b s)
  require-Stays I true s i = pure-Stays I _ tt s i (refl, refl)
  require-Stays I false s i = raise-Stays I _ s i

  pub or_raise-Stays :
      {A : Type 0} (I : S → Type 0) (o : Option A) (s : S)
      → I s
      → Stays I (λ a s'. (s' ≡ s) × (o ≡ some a)) (or_raise o s)
  or_raise-Stays I none s i = raise-Stays I _ s i
  or_raise-Stays I (some a) s i = pure-Stays I _ a s i (refl, refl)
