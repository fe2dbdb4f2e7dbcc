-- ===== src/Ingestion/Post/Replies.antt =====
-- The replies of `do_POST` and `do_GET` in src/monitoring/agents/ingestion.py.
use dragontools.Common.{
  ◌≡◌, refl, ap, ◌⊎◌, inl, inr, ℕ, Bool, true, false, ◌&&◌, Option, some, List, [], ◌∷◌, Text,
  codes, number, Bool-cases, Member, leb, ltb, ◌==◌, list_eq, nat_eq, if◌then◌else◌,
}
use dragontools.Common.Json.{Json}
use dragontools.Common.Result.{Result, ok, refused, broken}
use dragontools.Ingestion.Peer.{Headers}
use dragontools.Ingestion.Post.{
  Server, Forward, Answer, proceed, reply, ◌>=>◌, caught, unless, content_length, is_length, Calls,
  forward_logs, forward_metrics, authorized, finish, outcome, do_post, logs_route,
}

-- The replies to a request that is not sent on, or was not taken by the backend.
abbrev pub refusals : List ℕ
refusals = 400 ∷ 403 ∷ 404 ∷ 413 ∷ 503 ∷ []

abbrev pub IsRefusal : {A : Type 0} → Answer A → Type 0
IsRefusal (proceed a) = Unit {0}
IsRefusal (reply c) = Member c refusals

on-IsRefusal :
    {A B : Type 0} (m : Answer A) (f : A → Answer B)
    → IsRefusal m
    → ((a : A) → IsRefusal (f a))
    → IsRefusal (m >=> f)
unfolding ◌>=>◌
on-IsRefusal (proceed a) f hm hf = hf a
on-IsRefusal (reply c) f hm hf = hm

caught-IsRefusal : {A : Type 0} (r : Result A) → IsRefusal (caught r)
unfolding caught
caught-IsRefusal (ok a) = tt
caught-IsRefusal refused = inr (inl refl)
caught-IsRefusal broken = inr (inr (inr (inr (inl refl))))

unless-IsRefusal : (t : Bool) (c : ℕ) → Member c refusals → IsRefusal (unless t c)
unfolding unless
unless-IsRefusal true c m = m
unless-IsRefusal false c m = tt

content_length-IsRefusal : (values : List Text) → IsRefusal (content_length values)
unfolding content_length
content_length-IsRefusal [] = inl refl
content_length-IsRefusal (t ∷ []) = if-IsRefusal (is_length t)
  where
    if-IsRefusal : (b : Bool) → IsRefusal (if b then proceed (number t) else reply 400)
    if-IsRefusal true = tt
    if-IsRefusal false = inl refl
content_length-IsRefusal (t ∷ u ∷ ts) = inl refl

chosen :
    {A : Type 0} (b : Bool) (l r : Answer A)
    → IsRefusal l
    → IsRefusal r
    → IsRefusal (if b then l else r)
chosen true l r hl hr = hl
chosen false l r hl hr = hr

-- Whether a request was sent on and taken by the backend.
abbrev pub IsTaken : Calls → Option Forward × ℕ → Type 0
IsTaken calls answer =
    (f : Forward) × (status : ℕ) × (answer ≡ (some f, 204))
    × (calls.send f ≡ ok status)
    × ((leb 200 status && ltb status 300) ≡ true)

outcome-reply :
    (server : Server) (calls : Calls) (a : Answer Forward)
    → IsRefusal a
    → Member (outcome server calls a).1 refusals ⊎ IsTaken calls (outcome server calls a)
unfolding outcome finish
outcome-reply server calls (reply c) h = inl h
outcome-reply server calls (proceed f) h = sent f (calls.send f) refl
  where
    sent :
        (f : Forward) (r : Result ℕ)
        → calls.send f ≡ r
        → Member (finish r) refusals ⊎ IsTaken calls (some f, finish r)
    sent f refused e = inl (inr (inl refl))
    sent f broken e = inl (inr (inr (inr (inr (inl refl)))))
    sent f (ok status) e = elim (Bool-cases (leb 200 status && ltb status 300)) [
      | inl t ↦ inr (f, status, ap (λ b. (some f, if b then 204 else 503)) t, e, t)
      | inr t ↦ inl (inr (inr (inr (inr (inl (ap (λ b. if b then 204 else 503) t))))))
    ]

module _ (server : Server) (calls : Calls) (path : Text) (headers : Headers) where
  forward_logs-IsRefusal :
      (identity : Json) (body : Text) → IsRefusal (forward_logs server calls headers identity body)
  unfolding forward_logs
  forward_logs-IsRefusal identity body =
      on-IsRefusal _ _ (unless-IsRefusal _ 400 (inl refl))
        λ _. on-IsRefusal _ _ (caught-IsRefusal _) λ _. tt

  forward_metrics-IsRefusal :
      (identity : Json) (body : Text)
      → IsRefusal (forward_metrics server calls headers identity body)
  unfolding forward_metrics
  forward_metrics-IsRefusal identity body =
      on-IsRefusal _ _ (unless-IsRefusal _ 400 (inl refl)) λ _.
        on-IsRefusal _ _ (caught-IsRefusal _) λ _. on-IsRefusal _ _ (caught-IsRefusal _) λ _. tt

  authorized-IsRefusal : IsRefusal (authorized server calls path headers)
  unfolding authorized
  authorized-IsRefusal = on-IsRefusal _ _ (unless-IsRefusal _ 404 (inr (inr (inl refl)))) λ _.
      on-IsRefusal _ _ (unless-IsRefusal _ 400 (inl refl)) λ _.
        on-IsRefusal _ _ (content_length-IsRefusal (headers (codes "Content-Length"))) λ size.
          on-IsRefusal _ _ (unless-IsRefusal _ 413 (inr (inr (inr (inl refl))))) λ _.
            on-IsRefusal _ _ (caught-IsRefusal _) λ identity.
              on-IsRefusal _ _ (caught-IsRefusal _) λ body.
                on-IsRefusal _ _ (unless-IsRefusal _ 400 (inl refl)) λ _.
                  chosen (path == logs_route) _ _ (forward_logs-IsRefusal identity body)
                    (forward_metrics-IsRefusal identity body)

  -- The reply of `do_POST` is 400, 403, 404, 413 or 503, or it is 204, and then the request was sent
  -- on and the backend's status is from 200 to 299.
  pub do_post-reply :
      Member (do_post server calls path headers).1 refusals
      ⊎ IsTaken calls (do_post server calls path headers)
  unfolding do_post
  do_post-reply =
      outcome-reply server calls (authorized server calls path headers) authorized-IsRefusal
