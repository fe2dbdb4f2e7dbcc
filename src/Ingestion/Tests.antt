-- ===== src/Ingestion/Tests.antt =====
-- Runs of src/monitoring/agents/ingestion.py at concrete requests.
use dragontools.Common.{
  ◌≡◌, refl, ℕ, ◌*◌, Bool, true, some, List, [], ◌∷◌, ◌++◌, Text, codes, starts_with, length, ◌==◌,
  nat_eq, list_eq, if◌then◌else◌, Member, Pairwise, byte_lines, number, not, leb, ltb, ◌&&◌, ◌⊎◌,
  suc,
}
use dragontools.Common.Json.{
  Json, string, object, array, boolean, nil, cons, end, field, Fields, lookup, assign, remove,
  equal, dumps, quote,
}
use dragontools.Common.Result.{Result, ok, refused, ◌>>=◌, ◌>>◌, demand}
use dragontools.Ingestion.Peer.{
  Headers, unopenable, opened, Station, ticks, header_field, any_field, is_host, is_subject,
  is_fingerprint, is_active, is_candidate, read_entry, entitled, registered_peer,
}
use dragontools.Ingestion.Peer.Laws.{IsPeer, registered_peer-ok}
use dragontools.Ingestion.Logs.{
  entry, entries, log_body, attributed, host_of, application_log, service_log, name_match, matches,
  serving, serves, contains, joined,
}
use dragontools.Ingestion.Logs.Laws.{IsEntry, log_body-ok}
use dragontools.Ingestion.Logs.{batch_limit, body_limit}
use dragontools.Ingestion.Snappy.{bounded_snappy}
use dragontools.Ingestion.Snappy.Laws.{varint, bounded_snappy-varint}
use dragontools.Ingestion.Post.{
  Server, Forward, Calls, ◌>=>◌, caught, unless, content_length, authorized, forward_logs, finish,
  outcome, do_post, logs_route,
}
use dragontools.Ingestion.Post.Laws.{IsAuthorized, do_post-IsAuthorized}
use dragontools.Ingestion.Post.Replies.{IsTaken, refusals, do_post-reply}
use dragontools.Ingestion.Slots.{
  Slots, concurrency, initial, handled, closed, acquire, process_request, process_request_thread,
  connection, Reachable, start, step,
}
use dragontools.Ingestion.Slots.Laws.{process_request-total}

abbrev host : Text
host = codes "dt-0123456789abcdef0123456789abcdef"

abbrev fingerprint : Text
fingerprint = codes "00112233445566778899aabbccddeeff00112233445566778899aabbccddeeff"

abbrev web : Json
web = object (
    field (codes "name") (string (codes "web")) (
      field (codes "logs") (boolean true)
        (field (codes "systemd") (string (codes "web.service")) end)))

abbrev shop : Json
shop = object (
    field (codes "name") (string (codes "shop")) (
      field (codes "environment") (string (codes "live"))
        (field (codes "services") (array (cons web nil)) end)))

abbrev registration : Json
registration = object (
    field (codes "host") (string host) (
      field (codes "certificate_sha256") (string fingerprint)
        (field (codes "applications") (array (cons shop nil)) end)))

abbrev line : Json
line = object (
    field (codes "journal_unit") (string (codes "web.service")) (
      field (codes "host") (string (codes "other"))
        (field (codes "message") (string (codes "up")) end)))

-- The registration is `r`, and each line of a batch is `l`.
abbrev loads : Text → Result Json
loads t = if t == codes "r" then ok registration else if t == codes "l" then ok line else refused

abbrev station : Station
station = record {
  registry = λ name. if name == host then opened true (codes "r") else unopenable;
  loads = loads;
  now = 7 * ticks;
}

abbrev with : Text → List Text → Headers → Headers
with name values headers = λ n. if n == name then values else headers n

abbrev peer : Headers
peer = with (codes "X-DragonTools-Subject") ((codes "CN=" ++ host) ∷ []) (
    with (codes "X-DragonTools-Fingerprint") (fingerprint ∷ [])
      (λ n. if starts_with n (codes "X-DragonTools-") then [] ∷ [] else []))

registered_peer_run : registered_peer station peer ≡ ok registration
unfolding registered_peer header_field any_field ◌>>=◌ ◌>>◌ demand is_subject is_fingerprint is_host
    read_entry entitled is_active is_candidate starts_with lookup
registered_peer_run = refl

registered_peer-ok_example : IsPeer station peer registration
registered_peer-ok_example = registered_peer-ok station peer registration registered_peer_run

-- What is passed on for the line.
abbrev labelled : Fields
labelled = field (codes "host") (string host) (
    field (codes "message") (string (codes "up")) (
      field (codes "application") (string (codes "shop")) (
        field (codes "environment") (string (codes "live"))
          (field (codes "service") (string (codes "web")) end))))

abbrev batch : Text
batch = codes "l\nl"

log_body_run : log_body loads batch registration ≡ ok (joined (labelled ∷ labelled ∷ []))
unfolding log_body entry entries attributed host_of application_log service_log matches serving
    serves name_match contains ◌>>=◌ ◌>>◌ demand byte_lines lookup assign remove equal dumps quote
log_body_run = refl

log_body-ok_example :
    (results : List Fields) × (joined (labelled ∷ labelled ∷ []) ≡ joined results)
    × Pairwise (IsEntry loads registration) (byte_lines batch) results
    × ((not (length (byte_lines batch) == 0) && leb (length (byte_lines batch)) batch_limit) ≡ true)
    × (leb (length (joined (labelled ∷ labelled ∷ []))) (2 * body_limit) ≡ true)
log_body-ok_example =
    log_body-ok loads registration batch (joined (labelled ∷ labelled ∷ [])) log_body_run

bounded_snappy-varint_example : bounded_snappy (128 ∷ 1 ∷ 7 ∷ []) ≡ ok tt
unfolding varint
bounded_snappy-varint_example = bounded_snappy-varint (128 ∷ 1 ∷ 7 ∷ [])

abbrev backend : Server
backend = record { route = logs_route; upstream_port = 9428 }

abbrev calls : Calls
calls = record { station = station; read = λ _. ok batch; quote_plus = λ t. t; send = λ _. ok 200 }

abbrev upload : Headers
upload = with (codes "Content-Length") (codes "3" ∷ []) peer

abbrev sent_on : Forward
sent_on = record {
  port = 9428;
  path =
      codes
        "/insert/jsonline?_stream_fields=application,environment,host,service&_time_field=timestamp&_msg_field=message";
  headers = (codes "Content-Type", codes "application/stream+json") ∷ [];
  body = joined (labelled ∷ labelled ∷ []);
}

do_post_run : do_post backend calls logs_route upload ≡ (some sent_on, 204)
unfolding do_post outcome finish authorized forward_logs ◌>=>◌ caught unless content_length number
    registered_peer header_field any_field ◌>>=◌ ◌>>◌ demand is_subject is_fingerprint is_host
    read_entry entitled is_active is_candidate starts_with lookup log_body entry entries attributed
    host_of application_log service_log matches serving serves name_match contains byte_lines assign
    remove equal dumps quote
do_post_run = refl

do_post-IsAuthorized_example :
    IsAuthorized backend calls logs_route upload sent_on × (204 ≡ finish (calls.send sent_on))
do_post-IsAuthorized_example =
    do_post-IsAuthorized backend calls logs_route upload sent_on 204 do_post_run

do_post-reply_example :
    Member (do_post backend calls logs_route upload).1 refusals
    ⊎ IsTaken calls (do_post backend calls logs_route upload)
do_post-reply_example = do_post-reply backend calls logs_route upload

-- One place is taken.
abbrev one_runs : Slots
one_runs = record { free = 15; running = 1 }

one_runs-Reachable : Reachable one_runs
unfolding process_request acquire
one_runs-Reachable = step initial one_runs start (connection true initial one_runs handled refl)

process_request-total_example :
    ((starts : Bool)
      → (t : Slots) × (process_request starts one_runs
          ≡ some (t, if starts && ltb 1 concurrency then handled else closed)))
    × ((others : ℕ)
        → 1 ≡ suc others
        → (t : Slots) × (u : Slots) × (process_request_thread others one_runs ≡ some t)
          × (process_request true t ≡ some (u, handled)))
process_request-total_example = process_request-total one_runs one_runs-Reachable
