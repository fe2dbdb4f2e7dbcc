-- ===== src/AgentApps/Writes.antt =====
-- `reconcile` of src/monitoring/agents/apps.py and the map from names to manifests, at each of its writes.
use dragontools.Common.{
  ◌≡◌, refl, ap, ◌∙◌, inl, inr, Bool, true, false, not, ◌||◌, Option, none, some, [], ◌∷◌, ◌++◌,
  Text, length, nat_eq, list_eq, option_eq, leb, if◌then◌else◌,
}
use dragontools.Common.Keys.{put}
use dragontools.Common.Json.{Json}
use dragontools.Common.Result.{ok}
use dragontools.Runs.{◌>>◌, Stays, Stays-bind, pure, modify, require, pure-Stays, raise-Stays}
use dragontools.Scrape.Files.{Entry}
use dragontools.AgentApps.Scope.{Library}
use dragontools.AgentApps.Manifests.{
  Base, absent, unusable, listed, World, Manifest, limit, read, parsed, manifest_text,
}
use dragontools.AgentApps.Reconcile.{
  with_files, remove, pending_name, file_of, pending_in, recover, create, stage, replace, fill,
  start, publish, apply, is_ok,
}
use dragontools.AgentApps.Steps
use dragontools.AgentApps.Steps.{update, is_listed, is_unusable}

module _ (library : Library) (host : Text) (m : Manifest) (w : World) where
  abbrev IsSame : World → Type 0
  IsSame = Steps.IsSame library host m w

  abbrev IsUpdated : World → Type 0
  IsUpdated = Steps.IsUpdated library host m w

  abbrev IsEither : World → Type 0
  IsEither = Steps.IsEither library host m w

  module _ (short : leb (length (manifest_text host m)) limit ≡ true)
      (reads : parsed library host (manifest_text host m) ≡ ok m) where
    -- The states of a staging: the registrations are the old ones.
    abbrev IsStaged : World → Type 0
    IsStaged v = IsSame v × (is_listed v.base ≡ true)

    put-IsStaged :
        (e : Entry) (v : World)
        → IsStaged v
        → IsStaged (with_files (put (pending_name m.app.name) e) v)
    put-IsStaged e v (s, l) = (
      Steps.put-IsSame library host m w m.app.name e v s,
      Steps.with_files-listed library host m w _ v ∙ l,
    )

    stage-Stays :
        (done s : Text) (v : World)
        → IsStaged v
        → Stays IsEither (λ _ u. IsStaged u) (stage library host m.app.name done s v)
    unfolding stage
    stage-Stays done [] v i = pure-Stays IsEither _ tt v (inl i.0) i
    stage-Stays done (c ∷ s) v i =
        let j = put-IsStaged (file_of (done ++ (c ∷ []))) v i in
        let next = stage-Stays (done ++ (c ∷ [])) s _ j in
        record { visited = (inl j.0, next.visited); last = next.last; result = next.result }

    create-Stays :
        (v : World) (b : Base)
        → v.base ≡ b
        → not (is_unusable b) ≡ true
        → IsSame v
        → Stays IsEither (λ _ u. IsStaged u) (create library host b v)
    unfolding create
    create-Stays v absent e o s =
        let i = Steps.create-IsSame library host m w v e s in
        record { visited = (inl i, tt); last = inl i; result = λ _ _. (i, refl) }
    create-Stays v unusable e o s = absurd (cc o)
    create-Stays v (listed files) e o s = pure-Stays IsEither _ tt v (inl s) (s, ap is_listed e)

    fill-Stays :
        (v : World) → IsStaged v → Stays IsEither (λ _ u. IsUpdated u) (fill library host m v)
    unfolding fill replace
    fill-Stays v i =
        Stays-bind IsEither (λ _ y. IsStaged y) (λ _ u. IsUpdated u)
          (stage library host m.app.name [] (manifest_text host m)) (λ _. replace library host m) v
          (stage-Stays [] (manifest_text host m) v i)
          λ _ y _ z.
            let q = Steps.published-IsUpdated library host m w short reads y z.1 z.0 in
            record { visited = (inr q, tt); last = inr q; result = λ _ _. q }

    start-Stays :
        (v : World) → IsStaged v → Stays IsEither (λ _ u. IsUpdated u) (start library host m v)
    unfolding start
    start-Stays v i =
        let j = put-IsStaged (file_of []) v i in
        let next = fill-Stays _ j in
        record { visited = (inl j.0, next.visited); last = next.last; result = next.result }

    publish-Stays :
        (v : World)
        → not (is_unusable v.base) ≡ true
        → IsSame v
        → Stays IsEither (λ _ u. IsUpdated u) (publish library host m v)
    unfolding publish
    publish-Stays v o s =
        Stays-bind IsEither (λ _ u. IsStaged u) (λ _ u. IsUpdated u)
          (λ u. create library host u.base u) (λ _. start library host m) v
          (create-Stays v v.base refl o s) λ _ u _ i. start-Stays u i

    -- Before the manifest is written: the registrations are the old ones, and the directory is usable.
    abbrev IsOpen : World → Type 0
    IsOpen v = IsSame v × (not (is_unusable v.base) ≡ true)

    recover-Stays :
        (o : Option Entry) (v : World)
        → IsOpen v
        → Stays IsEither (λ _ u. IsOpen u) (recover library host m.app.name o v)
    unfolding recover
    recover-Stays none v i = pure-Stays IsEither _ false v (inl i.0) i
    recover-Stays (some e) v i =
        Stays-bind IsEither (λ _ u. IsOpen u) (λ _ u. IsOpen u) (require (is_ok (read (some e))))
          (λ _. modify (with_files (remove (pending_name m.app.name))) >> pure true) v
          (require-IsOpen (is_ok (read (some e))))
          λ _ u _ j.
            let k = Steps.remove-IsSame library host m w m.app.name u j.0 in
            record {
              visited = (inl k, tt);
              last = inl k;
              result = λ _ _. (k, ap not (Steps.with_files-unusable library host m w _ u) ∙ j.1);
            }
      where
        require-IsOpen : (b : Bool) → Stays IsEither (λ _ u. IsOpen u) (require b v)
        require-IsOpen true = pure-Stays IsEither _ tt v (inl i.0) i
        require-IsOpen false = raise-Stays IsEither _ v (inl i.0)

    pub apply-Stays :
        (result : Json) (changed : Bool) (v : World)
        → IsOpen v
        → ((changed ≡ false) → (u : World) → IsSame u → IsUpdated u)
        → Stays IsEither (λ _ u. IsUpdated u) (apply library host m (result, changed) v)
    unfolding apply
    apply-Stays result changed v i current =
        Stays-bind IsEither (λ _ u. IsOpen u) (λ _ u. IsUpdated u)
          (λ u. recover library host m.app.name (pending_in m.app.name u.base) u)
          (λ recovered.
            (if changed then publish library host m else pure tt)
            >> pure (result, changed || recovered))
          v (recover-Stays (pending_in m.app.name v.base) v i)
          λ recovered u _ j.
            Stays-bind IsEither (λ _ x. IsUpdated x) (λ _ x. IsUpdated x)
              (if changed then publish library host m else pure tt)
              (λ _. pure (result, changed || recovered)) u (change changed refl u j)
              λ _ x e q. pure-Stays IsEither _ _ x e q
      where
        change :
            (b : Bool)
            → changed ≡ b
            → (u : World) → IsOpen u
            → Stays IsEither
                (λ _ x. IsUpdated x)
                ((if b then publish library host m else pure tt) u)
        change true e u j = publish-Stays u j.1 j.0
        change false e u j = pure-Stays IsEither _ tt u (inl j.0) (current e u j.0)
