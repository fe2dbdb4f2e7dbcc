-- ===== src/AgentApps/Current.antt =====
-- Where `reconcile` of src/monitoring/agents/apps.py finds its application current, that is registered.
use mathlib.Core.Option.{some-injective}
use dragontools.Common.Keys.{Fresh, names}
use dragontools.Common.{
  ◌≡◌, refl, sym, subst, ap, ◌∙◌, inl, inr, Bool, true, false, Option, none, some, List, [], ◌∷◌,
  Text, Member, ◌==◌, ==-sound, nat_eq, list_eq, option_eq, Bool-cases, &&-true, if◌then◌else◌,
}
use dragontools.Common.Json.{bool_beq}
use dragontools.Common.Result.{ok, bind-ok, ok-injective, claim-ok}
use dragontools.AgentApps.Scope.{Service, App, Library}
use dragontools.AgentApps.Manifests.{Base, absent, unusable, listed, Manifest, existing_in}
use dragontools.AgentApps.Merge.{
  same_service, same_services, same_app, previous_app, previous_station, later_station, is_app,
  is_current,
}
use dragontools.AgentApps.Registry.{registered_in, existing-registered}

bool_sound : (a b : Bool) → bool_beq a b ≡ true → a ≡ b
bool_sound true b h = sym h
bool_sound false true h = cc h
bool_sound false false h = refl

service-eq :
    (s t : Service)
    → s.name ≡ t.name
    → s.systemd ≡ t.systemd
    → s.logs ≡ t.logs
    → s.metrics_url ≡ t.metrics_url
    → s ≡ t
service-eq s t a b c d = λ i. record { name = a i; systemd = b i; logs = c i; metrics_url = d i }

same_service_sound : (s t : Service) → same_service s t ≡ true → s ≡ t
unfolding same_service
same_service_sound s t h =
    let (a, h1) = &&-true _ _ h in
    let (b, h2) = &&-true _ _ h1 in
    let (c, d) = &&-true _ _ h2 in
    service-eq s t (==-sound s.name t.name a) (==-sound s.systemd t.systemd b)
      (bool_sound s.logs t.logs c) (==-sound s.metrics_url t.metrics_url d)

same_services_sound : (ss ts : List Service) → same_services ss ts ≡ true → ss ≡ ts
unfolding same_services
same_services_sound [] [] h = refl
same_services_sound [] (t ∷ ts) h = cc h
same_services_sound (s ∷ ss) [] h = cc h
same_services_sound (s ∷ ss) (t ∷ ts) h =
    let (a, b) = &&-true _ _ h in
    ap (λ x. x ∷ ss) (same_service_sound s t a) ∙ ap (λ l. t ∷ l) (same_services_sound ss ts b)

same_app_sound : (a b : App) → same_app a b ≡ true → a ≡ b
unfolding same_app
same_app_sound a b h =
    let (x, h1) = &&-true _ _ h in
    let (y, z) = &&-true _ _ h1 in
    let p : a.name ≡ b.name = ==-sound a.name b.name x in
    let q : a.environment ≡ b.environment = ==-sound a.environment b.environment y in
    let r : a.services ≡ b.services = same_services_sound a.services b.services z in
    λ i. record { name = p i; environment = q i; services = r i }

-- The manifests of which the two previous values are taken.
previous_app-Member :
    (name : Text) (ms : List Manifest) (a : App)
    → previous_app name ms ≡ some a
    → (m : Manifest) × Member m ms × (m.app.name ≡ name) × (m.app ≡ a)
previous_app-Member name [] a h = cc h
previous_app-Member name (m ∷ ms) a h = elim (Bool-cases (m.app.name == name)) [
  | inl e ↦
      let same : some m.app ≡ some a =
        subst (λ b. (if b then some m.app else previous_app name ms) ≡ some a) e h in
      (m, inl refl, ==-sound m.app.name name e, some-injective _ _ same)
  | inr e ↦
      let (n, i, p, q) =
        previous_app-Member name ms a
          (subst (λ b. (if b then some m.app else previous_app name ms) ≡ some a) e h) in
      (n, inr i, p, q)
]

previous_station-Member :
    (name : Text) (ms : List Manifest) (t : Text)
    → previous_station name ms ≡ some t
    → (m : Manifest) × Member m ms × (m.app.name ≡ name) × (m.station ≡ t)
previous_station-Member name [] t h = cc h
previous_station-Member name (m ∷ ms) t h =
    go (previous_station name ms) (λ u q. previous_station-Member name ms u q) refl h
  where
    go :
        (o : Option Text)
        → ((u : Text)
            → previous_station name ms ≡ some u
            → (n : Manifest) × Member n ms × (n.app.name ≡ name) × (n.station ≡ u))
        → previous_station name ms ≡ o
        → later_station m name o ≡ some t
        → (n : Manifest) × Member n (m ∷ ms) × (n.app.name ≡ name) × (n.station ≡ t)
    go (some u) ih e h = let (n, i, p, q) = ih u e in (n, inr i, p, q ∙ some-injective _ _ h)
    go none ih e h = elim (Bool-cases (m.app.name == name)) [
      | inl b ↦
          let same : some m.station ≡ some t =
            subst (λ c. (if c then some m.station else none) ≡ some t) b h in
          (m, inl refl, ==-sound m.app.name name b, some-injective _ _ same)
      | inr b ↦ absurd (cc (subst (λ c. (if c then some m.station else none) ≡ some t) b h))
    ]

-- The names of the files are distinct.
abbrev pub HasFiles : Base → Type 0
HasFiles (listed files) = Fresh [] (names files)
HasFiles _ = Unit

module _ (library : Library) (host : Text) where
  pub existing_in-registered :
      (mutate raw : Bool) (b : Base) (ms : List Manifest) (m : Manifest)
      → HasFiles b
      → existing_in library host mutate raw b ≡ ok ms
      → Member m ms
      → registered_in library host b m.app.name ≡ some m
  unfolding existing_in
  existing_in-registered mutate raw absent ms m f h i =
      let (fine, h1) = claim-ok _ _ ms h in absurd (subst (Member m) (sym (ok-injective h1)) i)
  existing_in-registered mutate raw unusable ms m f h i = absurd (cc h)
  existing_in-registered mutate raw (listed files) ms m f h i =
      let (bytes, r, h1) = bind-ok _ _ ms h in
      let (fine, h2) = claim-ok _ _ ms h1 in existing-registered library host files ms m f h2 i

  is_app-same : (a : App) (o : Option App) → is_app a o ≡ true → o ≡ some a
  is_app-same a none h = cc h
  is_app-same a (some b) h = ap some (same_app_sound b a h)

  pub current-registered :
      (mutate raw : Bool) (b : Base) (ms : List Manifest) (m : Manifest)
      → HasFiles b
      → existing_in library host mutate raw b ≡ ok ms
      → is_current m ms ≡ true
      → registered_in library host b m.app.name ≡ some m
  unfolding is_current
  current-registered mutate raw b ms m f h c =
      let (same, at) = &&-true _ _ c in
      let (n, i, p, q) = previous_app-Member m.app.name ms m.app (is_app-same m.app _ same) in
      let (k, j, u, v) =
        previous_station-Member m.app.name ms m.station
          (==-sound (previous_station m.app.name ms) (some m.station) at) in
      let found_app : registered_in library host b m.app.name ≡ some n =
        subst (λ t. registered_in library host b t ≡ some n) p
          (existing_in-registered mutate raw b ms n f h i) in
      let found_station : registered_in library host b m.app.name ≡ some k =
        subst (λ t. registered_in library host b t ≡ some k) u
          (existing_in-registered mutate raw b ms k f h j) in
      let one : n ≡ k = some-injective _ _ (sym found_app ∙ found_station) in
      found_app ∙ ap some (manifest-eq n (ap (λ (x : Manifest). x.station) one ∙ v) q)
    where
      manifest-eq : (n : Manifest) → n.station ≡ m.station → n.app ≡ m.app → n ≡ m
      manifest-eq n p q = λ i. record { station = p i; app = q i }
