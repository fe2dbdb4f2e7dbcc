-- ===== src/Grafana/Requests.antt =====
-- `request`, `authenticated`, `logs_ready` and `logs_verify` of src/monitoring/grafana_credentials.py.
pub mod Ends
pub mod Retry
use dragontools.Common.{
  ℕ, zero, suc, ◌+◌, ◌-◌, ◌*◌, ◌/◌, min, Bool, true, false, not, ◌&&◌, ◌||◌, Option, none, some,
  List, [], ◌∷◌, Text, codes, length, leb, ltb, ◌==◌, nat_eq, list_eq, if◌then◌else◌,
}
use dragontools.Common.Json.{
  Json, boolean, string, integer, object, array, get, falsy, holds_text, is_number, Fields, field,
  end, from_list,
}
use dragontools.Common.Result.{Result}
use dragontools.Grafana.Outcome.{Outcome, done, failure, raised, endless, ◌>!◌, demanded, loaded}
use dragontools.Grafana.Accounts.{Row}
use dragontools.Grafana.Query.{is_object, logs_query_result}
use dragontools.Grafana.Program.{
  State, Program, Change, put, reset_to, pure, lift, call, change, ◌>>=◌, require,
}

-- The pairs of a method and a path that `request` admits.
pub data Route : Type 0 where
  get_user put_user get_settings get_health post_query : Route

pub data Reply : Type 0 where
  unreachable : Reply
  received : ℕ → Text → Reply

pub record Request : Type 0 where
  pub route : Route
  pub username : Text
  pub password : Text
  pub body : Option Json
  pub timeout : ℕ

-- What the programs call: the clock and `time.sleep` in units of 2 ** -22 seconds, an exchange with
-- Grafana, the command line tool, the database and `systemctl show`.
pub record Calls (Machine : Type 0) : Type 0 where
  pub loads : Text → Result Json
  pub casefold : Text → Text
  pub clock : Machine → ℕ
  pub sleep : ℕ → Machine → Machine
  pub exchange : Request → Machine → Reply × Machine
  pub run_reset : Text → Text → Bool → Machine → Bool × Machine
  pub users : Machine → Result (List Row)
  pub stopped : Machine → Result Bool

abbrev pub second : ℕ
second = 4194304

abbrev pub is_logs : Route → Bool
is_logs get_user = false
is_logs put_user = false
is_logs _ = true

abbrev pub is_health : Route → Bool
is_health get_health = true
is_health _ = false

abbrev pub is_query : Route → Bool
is_query post_query = true
is_query _ = false

abbrev pub failure_of : Route → ℕ
failure_of r = if is_logs r then 86 else 83

abbrev pub is_busy : ℕ → Bool
is_busy n = n == 500 || n == 502 || n == 503 || n == 504

-- An HTTP 400 of the health check or of a query.
unfoldable pub refused_reply : Route → Json → Outcome (Unit {0})
refused_reply r value =
    if is_health r && holds_text (codes "ERROR") (get (codes "status") value)
    then failure 84
    else if is_query r
    then logs_query_result value
    else done tt

-- What `request` makes of a reply; `none` is a failed authentication.
unfoldable pub read_reply : (Text → Result Json) → Route → Reply → Outcome (Option Json)
read_reply loads r unreachable = failure 84
read_reply loads r (received status body) =
    demanded (leb (length body) 65536) (failure_of r) >! λ _.
    if status == 401
    then done none
    else if is_busy status
    then failure 84
    else loaded (failure_of r) (loads body) >! λ value.
        demanded (is_object value) (failure_of r) >! λ _.
        (if status == 400 then refused_reply r value else done tt) >! λ _.
        demanded (status == 200) (failure_of r) >! λ _. done (some value)

abbrev pub present : Option Json → Outcome Json
present none = failure 83
present (some j) = done j

-- `value is True`
abbrev pub is_true : Option Json → Bool
is_true (some (boolean true)) = true
is_true _ = false

abbrev pub is_string : Option Json → Bool
is_string (some (string t)) = true
is_string _ = false

abbrev pub is_one : Option Json → Bool
is_one none = false
is_one (some j) = is_number 1 j

-- `logs_query_body()`
abbrev pub logs_query_body : Json
logs_query_body = object (
    field (codes "from") (string (codes "now-5m")) (
      field (codes "to") (string (codes "now")) (
        field (codes "queries")
          (array (
            from_list (
              object (
                field (codes "refId") (string (codes "A")) (
                  field (codes "datasource")
                    (object (
                      field (codes "uid") (string (codes "dragontools-logs")) (
                        field (codes "type") (string (codes "victoriametrics-logs-datasource"))
                          end)))
                    (field (codes "queryType") (string (codes "instant")) (
                      field (codes "expr") (string (codes "* | fields _time")) (
                        field (codes "maxLines") (integer 1) (
                          field (codes "maxDataPoints") (integer 1)
                            (field (codes "intervalMs") (integer 1000) end)))))))
              ∷ [])))
          end)))

module _ {Machine : Type 0} (calls : Calls Machine) where
  -- `request`, for all but the `PUT`
  unfoldable pub request : Request → Program Machine (Option Json)
  request q = call (λ m. let (r, n) = calls.exchange q m in (read_reply calls.loads q.route r, n))

  -- The `PUT` of a profile.
  unfoldable pub put_profile : Text → Text → Json → Program Machine (Option Json)
  put_profile username password body = change (put username password body) λ m.
      let (r, n) =
        calls.exchange
          (record {
            route = put_user;
            username = username;
            password = password;
            body = some body;
            timeout = 5 * second;
          })
          m in
      (read_reply calls.loads put_user r, n)

  unfoldable pub left_of : ℕ → Machine → ℕ
  left_of deadline m = deadline - calls.clock m

  -- The loops of `authenticated` and `logs_ready`. A pass fails with `code` when no time is left; after
  -- a failure 84 with time left the next pass comes after `delay`, and all later ones after a second.
  module _ {A : Type 0} (attempt : ℕ → Program Machine A) (deadline code : ℕ) where
    unfoldable pub pass : Program Machine A
    pass s =
        (require (ltb 0 (left_of deadline s.machine)) code >>= λ _.
        attempt (left_of deadline s.machine))
          s

    unfoldable pub pause : ℕ → State Machine → State Machine
    pause delay s = record {
      machine = calls.sleep (min delay (left_of deadline s.machine)) s.machine;
      made = s.made;
    }

    -- The handler, by whether the failure is 84 and whether time is left.
    unfoldable pub waited : (ℕ → Program Machine A) → ℕ → ℕ → Bool → Bool → Program Machine A
    waited again delay c false left s = (failure c, s)
    waited again delay c true false s = (failure code, s)
    waited again delay c true true s = again second (pause delay s)

    unfoldable pub after : (ℕ → Program Machine A) → ℕ → Outcome A → Program Machine A
    after again delay (failure c) s =
        waited again delay c (c == 84) (ltb 0 (left_of deadline s.machine)) s
    after again delay o s = (o, s)

    unfoldable pub retry : ℕ → ℕ → Program Machine A
    retry zero delay s = (endless, s)
    retry (suc fuel) delay s = after (retry fuel) delay (pass s).0 (pass s).1

  -- What `authenticated` demands of a profile.
  unfoldable pub local_admin : Option Json → Outcome (Option Json)
  local_admin none = done none
  local_admin (some value) =
      demanded (is_one (get (codes "id") value) && is_true (get (codes "isGrafanaAdmin") value)) 81
      >! λ _.
          demanded (is_string (get (codes "login") value) && falsy (get (codes "isDisabled") value))
            81
          >! λ _. demanded (falsy (get (codes "isExternal") value)) 81 >! λ _. done (some value)

  -- One pass of `authenticated`.
  unfoldable pub identified : Text → Text → ℕ → Program Machine (Option Json)
  identified username password left =
      request (record {
        route = get_user;
        username = username;
        password = password;
        body = none;
        timeout = min (5 * second) left;
      })
      >>= λ reply. lift (local_admin reply)

  -- `authenticated(username, password)`
  unfoldable pub authenticated : Text → Text → Program Machine (Option Json)
  authenticated username password s =
      retry (identified username password) (calls.clock s.machine + 30 * second) 84 61 (second / 2)
        s

  -- What `logs_ready` demands of a reply.
  unfoldable pub logs_reply : Bool → Option Json → Outcome (Unit {0})
  logs_reply query reply = present reply >! λ value.
      if query
      then logs_query_result value
      else (if holds_text (codes "ERROR") (get (codes "status") value) then failure 84 else done tt)
        >! λ _. demanded (holds_text (codes "OK") (get (codes "status") value)) 86

  -- One pass of `logs_ready`.
  unfoldable pub logs_attempt : Bool → Text → Text → ℕ → ℕ → Program Machine (Unit {0})
  logs_attempt query username password deadline left =
      request (record {
        route = if query then post_query else get_health;
        username = username;
        password = password;
        body = if query then some logs_query_body else none;
        timeout = min (5 * second) left;
      })
      >>= λ reply. lift (logs_reply query reply) >>= λ _.
          (λ s. require (ltb (calls.clock s.machine) deadline) 87 s)

  -- `logs_ready(username, password, query)`
  unfoldable pub logs_ready : Bool → Text → Text → Program Machine (Unit {0})
  logs_ready query username password s =
      retry (logs_attempt query username password (calls.clock s.machine + 45 * second))
        (calls.clock s.machine + 45 * second) 87 91 (second / 2) s

  -- The `except` of `logs_verify`.
  unfoldable pub as_88 : Outcome (Option Json) → Outcome (Option Json)
  as_88 (failure c) = failure 88
  as_88 o = o

  unfoldable pub settings : Text → Text → Program Machine (Option Json)
  settings username password s =
      let (o, t) =
        request
          (record {
            route = get_settings;
            username = username;
            password = password;
            body = none;
            timeout = 5 * second;
          })
          s in
      (as_88 o, t)

  -- What `logs_verify` demands of the plugin.
  unfoldable pub plugin_ok : Json → Outcome (Unit {0})
  plugin_ok plugin =
      demanded
        (holds_text (codes "victoriametrics-logs-datasource") (get (codes "id") plugin)
          && holds_text (codes "datasource") (get (codes "type") plugin))
        88
      >! λ _.
          demanded
            (elim (get (codes "info") plugin) [
              | none ↦ false
              | some info ↦ holds_text (codes "0.32.0") (get (codes "version") info)
            ])
            88
          >! λ _. demanded (holds_text (codes "valid") (get (codes "signature") plugin)) 88

  -- `logs_verify(username, password)`, which gives "unchanged"
  unfoldable pub logs_verify : Text → Text → Program Machine (Unit {0})
  logs_verify username password = settings username password >>= λ reply.
      lift (present reply) >>= λ plugin. lift (plugin_ok plugin) >>= λ _.
      logs_ready false username password >>= λ _. logs_ready true username password
