-- ===== src/Ingestion/Post.antt =====
-- `Handler` and `Server.__init__` of src/monitoring/agents/ingestion.py: the replies to a request,
-- and what is sent on.
pub mod Laws
pub mod Replies
use dragontools.Common.{
  ℕ, ◌≤◌, Bool, true, false, not, ◌&&◌, ◌||◌, Option, none, some, List, [], ◌∷◌, ◌++◌, Text, codes,
  length, leb, ltb, ◌==◌, nat_eq, list_eq, if◌then◌else◌, is_digit, number,
}
use dragontools.Common.Json.{Json, string, get}
use dragontools.Common.Result.{Result, ok, refused, broken, ◌>>=◌}
use dragontools.Ingestion.Peer.{Headers, Station, every, registered_peer}
use dragontools.Ingestion.Logs.{body_limit, item, log_body}
use dragontools.Ingestion.Snappy.{bounded_snappy}

pub record Server : Type 0 where
  pub route : Text
  pub upstream_port : ℕ

abbrev pub logs_route : Text
logs_route = codes "/insert/jsonline"

abbrev pub metrics_route : Text
metrics_route = codes "/api/v1/write"

-- `Server(address, registry, signal, upstream_port)`; no port is the port 0.
unfoldable pub server : Text → ℕ → Result Server
server signal port =
    if signal == codes "metrics"
    then ok (record { route = metrics_route; upstream_port = if port == 0 then 8428 else port })
    else if signal == codes "logs"
    then ok (record { route = logs_route; upstream_port = if port == 0 then 9428 else port })
    else refused

-- A request to the backend on 127.0.0.1.
pub record Forward : Type 0 where
  pub port : ℕ
  pub path : Text
  pub headers : List (Text × Text)
  pub body : Text

-- A part of `do_POST`: it goes on with a value, or the reply is decided.
pub data Answer (A : Type 0) : Type 0 where
  proceed : A → Answer A
  reply : ℕ → Answer A

infixl 5 ◌>=>◌
unfoldable pub ◌>=>◌ : {A B : Type 0} → Answer A → (A → Answer B) → Answer B
proceed a >=> f = f a
reply c >=> f = reply c

-- The two `except` clauses.
unfoldable pub caught : {A : Type 0} → Result A → Answer A
caught (ok a) = proceed a
caught refused = reply 403
caught broken = reply 503

unfoldable pub unless : Bool → ℕ → Answer (Unit {0})
unless true c = reply c
unless false c = proceed tt

abbrev pub is_length : Text → Bool
is_length t = ltb 0 (length t) && leb (length t) 8 && every is_digit t

unfoldable pub content_length : List Text → Answer ℕ
content_length (t ∷ []) = if is_length t then proceed (number t) else reply 400
content_length _ = reply 400

-- `headers.get(name)`
abbrev pub first_or : Text → List Text → Text
first_or d [] = d
first_or d (t ∷ _) = t

abbrev pub host_text : Json → Result Text
host_text (string t) = ok t
host_text _ = refused

-- What the handler calls: the station, `rfile.read`, `urllib.parse.quote_plus`, and the exchange with
-- the backend, which gives the status.
pub record Calls : Type 0 where
  pub station : Station
  pub read : ℕ → Result Text
  pub quote_plus : Text → Text
  pub send : Forward → Result ℕ

-- The reply for the backend's status.
unfoldable pub finish : Result ℕ → ℕ
finish (ok status) = if leb 200 status && ltb status 300 then 204 else 503
finish refused = 403
finish broken = 503

module _ (server : Server) (calls : Calls) where
  unfoldable pub forward_logs : Headers → Json → Text → Answer Forward
  forward_logs headers identity body =
      unless
        (not (first_or (codes "identity") (headers (codes "Content-Encoding")) == codes "identity"))
        400
      >=> λ _. caught (log_body calls.station.loads body identity) >=> λ text. proceed (record {
        port = server.upstream_port;
        path =
            codes
              "/insert/jsonline?_stream_fields=application,environment,host,service&_time_field=timestamp&_msg_field=message";
        headers = (codes "Content-Type", codes "application/stream+json") ∷ [];
        body = text;
      })

  unfoldable pub forward_metrics : Headers → Json → Text → Answer Forward
  forward_metrics headers identity body =
      unless (not (first_or [] (headers (codes "Content-Encoding")) == codes "snappy")) 400 >=> λ _.
      caught (bounded_snappy body) >=> λ _.
      caught (item (codes "host") identity >>= host_text) >=> λ host. proceed (record {
        port = server.upstream_port;
        path = codes "/api/v1/write?extra_label=" ++ calls.quote_plus (codes "host=" ++ host);
        headers =
            (codes "Content-Type", codes "application/x-protobuf")
            ∷ (codes "Content-Encoding", codes "snappy")
            ∷ (codes "X-Prometheus-Remote-Write-Version", codes "0.1.0")
            ∷ [];
        body = body;
      })

  unfoldable pub authorized : Text → Headers → Answer Forward
  authorized path headers = unless (not (path == server.route)) 404 >=> λ _.
      unless
        (not (headers (codes "Transfer-Encoding") == []) || not (headers (codes "Expect") == []))
        400
      >=> λ _. content_length (headers (codes "Content-Length")) >=> λ size.
          unless (not (ltb 0 size && leb size body_limit)) 413 >=> λ _.
          caught (registered_peer calls.station headers) >=> λ identity.
          caught (calls.read size) >=> λ body. unless (not (length body == size)) 400 >=> λ _.
          (if path == logs_route
            then forward_logs headers identity body
            else forward_metrics headers identity body)

  unfoldable pub outcome : Answer Forward → Option Forward × ℕ
  outcome (reply c) = (none, c)
  outcome (proceed f) = (some f, finish (calls.send f))

  -- `do_POST`: the request that was sent on, and the reply.
  unfoldable pub do_post : Text → Headers → Option Forward × ℕ
  do_post path headers = outcome (authorized path headers)

-- `do_GET`
unfoldable pub do_get : Station → Text → Headers → ℕ
do_get station path headers =
    if not (path == codes "/health")
    then 405
    else elim (registered_peer station headers) [ ok _ ↦ 204 | _ ↦ 403 ]
