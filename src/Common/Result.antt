-- ===== src/Common/Result.antt =====
-- How a function of Python ends: with a result, with one of the exceptions that its callers expect
-- (`refused`), or with another one. Which exceptions are meant is said where it is used.
use mathlib.Core.Path.{◌≡◌, refl}
use mathlib.Core.Bool.{Bool, true, false}
use mathlib.Core.Option.{Option, none, some}

pub data Result (A : Type 0) : Type 0 where
  ok : A → Result A
  refused broken : Result A

infixl 5 ◌>>=◌ ◌>>◌
unfoldable pub ◌>>=◌ : {A B : Type 0} → Result A → (A → Result B) → Result B
ok a >>= f = f a
refused >>= f = refused
broken >>= f = broken

unfoldable pub ◌>>◌ : {A B : Type 0} → Result A → Result B → Result B
unfolding ◌>>=◌
m >> k = m >>= λ _. k

unfoldable pub demand : Bool → Result (Unit {0})
demand true = ok tt
demand false = refused

abbrev pub or_refused : {A : Type 0} → Option A → Result A
or_refused none = refused
or_refused (some a) = ok a

-- What a result of a sequence says of its parts.
pub bind-ok :
    {A B : Type 0} (m : Result A) (f : A → Result B) (b : B)
    → (m >>= f) ≡ ok b
    → (a : A) × (m ≡ ok a) × (f a ≡ ok b)
unfolding ◌>>=◌
bind-ok (ok a) f b h = (a, refl, h)
bind-ok refused f b h = cc h
bind-ok broken f b h = cc h

pub demand-ok :
    {B : Type 0} (t : Bool) (k : Result B) (b : B)
    → (demand t >> k) ≡ ok b
    → (t ≡ true) × (k ≡ ok b)
unfolding ◌>>◌ ◌>>=◌ demand
demand-ok true k b h = (refl, h)
demand-ok false k b h = cc h

pub ok-injective : {A : Type 0} {a b : A} → ok a ≡ ok b → a ≡ b
ok-injective h = cc h

pub demand-true : (t : Bool) (u : Unit {0}) → demand t ≡ ok u → t ≡ true
unfolding demand
demand-true true u h = refl
demand-true false u h = cc h

pub then-ok :
    {A B : Type 0} (m : Result A) (k : Result B) (b : B)
    → (m >> k) ≡ ok b
    → (a : A) × (m ≡ ok a) × (k ≡ ok b)
unfolding ◌>>◌
then-ok m k b h = bind-ok m (λ _. k) b h

-- A test that raises another exception where it fails.
unfoldable pub claim : Bool → Result (Unit {0})
claim true = ok tt
claim false = broken

pub claim-ok :
    {B : Type 0} (t : Bool) (k : Result B) (b : B) → (claim t >> k) ≡ ok b → (t ≡ true) × (k ≡ ok b)
unfolding claim ◌>>◌ ◌>>=◌
claim-ok true k b h = (refl, h)
claim-ok false k b h = cc h
