-- ===== src/Ingestion/Post/Laws.antt =====
-- What `do_POST` of src/monitoring/agents/ingestion.py sends on, and its replies.
use dragontools.Common.{
  ◌≡◌, refl, sym, subst, ap, ◌∙◌, inl, inr, ℕ, Bool, true, false, not, ◌&&◌, Option, none, some,
  List, [], ◌∷◌, ◌++◌, Text, codes, Bool-cases, length, leb, ltb, number, ◌==◌, list_eq, nat_eq,
  if◌then◌else◌,
}
use dragontools.Common.Json.{
  Json, null, boolean, integer, negative, real, array, object, string, get,
}
use dragontools.Common.Result.{Result, ok, refused, broken, ◌>>=◌, or_refused}
use dragontools.Ingestion.Peer.{Headers}
use dragontools.Ingestion.Peer.Laws.{IsPeer, registered_peer-ok}
use dragontools.Ingestion.Logs.{body_limit, log_body}
use dragontools.Ingestion.Snappy.{bounded_snappy}
use dragontools.Ingestion.Post.{
  Server, Forward, Answer, proceed, reply, ◌>=>◌, caught, unless, content_length, is_length,
  host_text, Calls, forward_logs, forward_metrics, authorized, finish, outcome, do_post, logs_route,
}

on-proceed :
    {A B : Type 0} (m : Answer A) (f : A → Answer B) (b : B)
    → (m >=> f) ≡ proceed b
    → (a : A) × (m ≡ proceed a) × (f a ≡ proceed b)
unfolding ◌>=>◌
on-proceed (proceed a) f b h = (a, refl, h)
on-proceed (reply c) f b h = cc h

caught-proceed : {A : Type 0} (r : Result A) (a : A) → caught r ≡ proceed a → r ≡ ok a
unfolding caught
caught-proceed (ok b) a h = cc h
caught-proceed refused a h = cc h
caught-proceed broken a h = cc h

-- Past a guard, its test is false.
unless-proceed :
    {B : Type 0} (t : Bool) (c : ℕ) (f : Unit {0} → Answer B) (b : B)
    → (unless (not t) c >=> f) ≡ proceed b
    → (t ≡ true) × (f tt ≡ proceed b)
unfolding unless ◌>=>◌
unless-proceed true c f b h = (refl, h)
unless-proceed false c f b h = cc h

past_guard :
    {B : Type 0} (t : Bool) (c : ℕ) (f : Unit {0} → Answer B) (b : B)
    → (unless t c >=> f) ≡ proceed b
    → f tt ≡ proceed b
unfolding unless ◌>=>◌
past_guard true c f b h = cc h
past_guard false c f b h = h

proceed-injective : {A : Type 0} {a b : A} → proceed a ≡ proceed b → a ≡ b
proceed-injective h = cc h

content_length-one :
    (values : List Text) (n : ℕ)
    → content_length values ≡ proceed n
    → (t : Text) × (values ≡ t ∷ []) × (is_length t ≡ true) × (number t ≡ n)
unfolding content_length
content_length-one [] n h = cc h
content_length-one (t ∷ []) n h = elim (Bool-cases (is_length t)) [
  | inl e ↦ (t, refl, e, cc (h, e))
  | inr e ↦ absurd (cc (h, e))
]
content_length-one (t ∷ u ∷ ts) n h = cc h

-- What is sent on for a body: the normalized lines, or the same block with the host's label.
pub data IsContent (calls : Calls) (path : Text) (identity : Json) (body : Text) (f : Forward)
    : Type 0 where
  lines :
      (path == logs_route) ≡ true
      → log_body calls.station.loads body identity ≡ ok f.body
      → IsContent calls path identity body f
  block :
      (host : Text)
      → (path == logs_route) ≡ false
      → bounded_snappy body ≡ ok tt
      → get (codes "host") identity ≡ some (string host)
      → f.body ≡ body
      → f.path ≡ codes "/api/v1/write?extra_label=" ++ calls.quote_plus (codes "host=" ++ host)
      → IsContent calls path identity body f

-- A request that may be sent on.
pub record IsAuthorized (server : Server) (calls : Calls) (path : Text) (headers : Headers)
    (f : Forward) : Type 0 where
  pub identity : Json
  pub size : Text
  pub body : Text
  pub peer : IsPeer calls.station headers identity
  pub same_route : (path == server.route) ≡ true
  pub one_length : headers (codes "Content-Length") ≡ size ∷ []
  pub bounded : (ltb 0 (number size) && leb (number size) body_limit) ≡ true
  pub whole : calls.read (number size) ≡ ok body × ((length body == number size) ≡ true)
  pub same_port : f.port ≡ server.upstream_port
  pub content : IsContent calls path identity body f

item-some : (o : Option Json) (t : Text) → (or_refused o >>= host_text) ≡ ok t → o ≡ some (string t)
unfolding ◌>>=◌
item-some none t h = cc h
item-some (some (string s)) t h = cc h
item-some (some null) t h = cc h
item-some (some (boolean b)) t h = cc h
item-some (some (integer n)) t h = cc h
item-some (some (negative n)) t h = cc h
item-some (some (real s)) t h = cc h
item-some (some (array js)) t h = cc h
item-some (some (object fs)) t h = cc h

module _ (server : Server) (calls : Calls) (path : Text) (headers : Headers) (identity : Json)
    (body : Text) (f : Forward) where
  forward_logs-IsContent :
      (path == logs_route) ≡ true
      → forward_logs server calls headers identity body ≡ proceed f
      → (f.port ≡ server.upstream_port) × IsContent calls path identity body f
  unfolding forward_logs
  forward_logs-IsContent e h =
      let (plain, h1) = unless-proceed _ _ _ f h in
      let (text, l, h2) = on-proceed _ _ f h1 in
      let same = proceed-injective h2 in
      (
        ap (λ (g : Forward). g.port) (sym same),
        lines e (
            caught-proceed (log_body calls.station.loads body identity) text l
            ∙ ap (λ (g : Forward). ok g.body) same),
      )

  forward_metrics-IsContent :
      (path == logs_route) ≡ false
      → forward_metrics server calls headers identity body ≡ proceed f
      → (f.port ≡ server.upstream_port) × IsContent calls path identity body f
  unfolding forward_metrics
  forward_metrics-IsContent e h =
      let (coded, h1) = unless-proceed _ _ _ f h in
      let (u, s, h2) = on-proceed _ _ f h1 in
      let (host, g, h3) = on-proceed _ _ f h2 in
      let same = proceed-injective h3 in
      (
        ap (λ (g : Forward). g.port) (sym same),
        block host e (caught-proceed (bounded_snappy body) tt s)
            (item-some (get (codes "host") identity) host (caught-proceed _ host g))
            (ap (λ (g : Forward). g.body) (sym same)) (ap (λ (g : Forward). g.path) (sym same)),
      )

module _ (server : Server) (calls : Calls) (path : Text) (headers : Headers) where
  authorized-IsAuthorized :
      (f : Forward)
      → authorized server calls path headers ≡ proceed f
      → IsAuthorized server calls path headers f
  unfolding authorized
  authorized-IsAuthorized f h =
      let (same_route, h1) = unless-proceed _ _ _ f h in
      let h2 = past_guard _ _ _ f h1 in
      let (n, l, h3) = on-proceed _ _ f h2 in
      let (size, one, formed, value) = content_length-one (headers (codes "Content-Length")) n l in
      let (bounded, h4) = unless-proceed _ _ _ f h3 in
      let (identity, p, h5) = on-proceed _ _ f h4 in
      let (body, r, h6) = on-proceed _ _ f h5 in
      let (whole, h7) = unless-proceed _ _ _ f h6 in
      let (port, content) = sent identity body h7 in
      record {
        identity = identity;
        size = size;
        body = body;
        peer = registered_peer-ok calls.station headers identity (caught-proceed _ identity p);
        same_route = same_route;
        one_length = one;
        bounded = subst (λ m. (ltb 0 m && leb m body_limit) ≡ true) (sym value) bounded;
        whole = (
          subst (λ m. calls.read m ≡ ok body) (sym value) (caught-proceed _ body r),
          subst (λ m. (length body == m) ≡ true) (sym value) whole,
        );
        same_port = port;
        content = content;
      }
    where
      sent :
          (identity : Json) (body : Text)
          → (if path == logs_route
              then forward_logs server calls headers identity body
              else forward_metrics server calls headers identity body)
            ≡ proceed f
          → (f.port ≡ server.upstream_port) × IsContent calls path identity body f
      sent identity body h = elim (Bool-cases (path == logs_route)) [
        | inl e ↦ forward_logs-IsContent server calls path headers identity body f e (cc (h, e))
        | inr e ↦ forward_metrics-IsContent server calls path headers identity body f e (cc (h, e))
      ]

  -- A request is sent on only for a peer that the registry holds, by its active certificate or by an
  -- unexpired candidate of its own host, at the socket's own route, with one Content-Length from one
  -- byte to 4 MiB that is the size of the body read, and to the socket's own backend: on the logs route
  -- the body is what `log_body` makes of it for this registration, on the metrics route it is the same
  -- block, of bounded size, under a path with the registration's host. The reply is the one for the
  -- backend's status.
  pub do_post-IsAuthorized :
      (f : Forward) (code : ℕ)
      → do_post server calls path headers ≡ (some f, code)
      → IsAuthorized server calls path headers f × (code ≡ finish (calls.send f))
  unfolding do_post outcome
  do_post-IsAuthorized f code h = go (authorized server calls path headers) refl h
    where
      go :
          (a : Answer Forward)
          → authorized server calls path headers ≡ a
          → outcome server calls a ≡ (some f, code)
          → IsAuthorized server calls path headers f × (code ≡ finish (calls.send f))
      go (reply c) e h = absurd (cc h)
      go (proceed g) e h =
          let same : g ≡ f = cc h in (authorized-IsAuthorized f (e ∙ ap proceed same), cc (h, same))
