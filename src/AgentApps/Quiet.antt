-- ===== src/AgentApps/Quiet.antt =====
-- `reconcile` of src/monitoring/agents/apps.py in the mode that only checks.
use dragontools.Common.{◌≡◌, refl, false, Option, none, some, [], Text}
use dragontools.Common.Json.{Json}
use dragontools.Runs.{Program, Run, or_raise, ◌>>=◌}
use dragontools.AgentApps.Scope.{Library, scope}
use dragontools.AgentApps.Manifests.{World}
use dragontools.AgentApps.Merge.{decided}
use dragontools.AgentApps.Reconcile.{to_option, reconcile_app, reconcile}

-- Nothing is written, and the state is the old one.
abbrev pub IsQuiet : {A : Type 0} → World → Run World A → Type 0
IsQuiet w r = (r.trace ≡ []) × (r.state ≡ w)

or_raise-IsQuiet :
    {A B : Type 0} (o : Option A) (f : A → Program World B) (w : World)
    → ((a : A) → IsQuiet w (f a w))
    → IsQuiet w ((or_raise o >>= f) w)
or_raise-IsQuiet none f w q = (refl, refl)
or_raise-IsQuiet (some a) f w q = q a

-- In the mode that only checks, `reconcile` writes nothing, whether it returns or raises.
pub reconcile-IsQuiet :
    (library : Library) (host station : Text) (desired : Json) (w : World)
    → IsQuiet w (reconcile library host desired station false w)
unfolding reconcile reconcile_app
reconcile-IsQuiet library host station desired w =
    or_raise-IsQuiet (to_option (scope library desired)) _ w
      λ app. or_raise-IsQuiet (to_option (decided library host _ false w)) _ w λ d. (refl, refl)
