-- ===== src/Grafana/Tests.antt =====
-- Runs of src/monitoring/grafana_credentials.py against a small Grafana.
use dragontools.Common.{
  ◌≡◌, refl, ◌⊎◌, ℕ, ◌+◌, ◌≤◌, suc, Bool, true, false, ◌&&◌, Option, none, some, List, [], ◌∷◌,
  Text, codes, ◌==◌, nat_eq, list_eq, if◌then◌else◌, arith,
}
use dragontools.Common.Json.{Json, boolean, integer, string, object, field, end, get, lookup}
use dragontools.Common.Result.{ok}
use dragontools.Grafana.Outcome.{done, ◌>!◌, demanded, loaded, unguarded}
use dragontools.Grafana.Accounts.{original_admin, others_differ, only, admins}
use dragontools.Grafana.Program.{
  State, Change, reset_to, put, pure, lift, call, change, ◌>>=◌, resume, require,
}
use dragontools.Grafana.Requests.{
  Calls, Request, Reply, received, Route, get_user, put_user, get_settings, get_health, post_query,
  request, put_profile, read_reply, left_of, pass, pause, waited, after, retry, identified,
  local_admin, authenticated,
}
use dragontools.Grafana.Requests.Retry.{IsClock}
use dragontools.Grafana.Reconcile.{
  unchanged, changed, to_verify, to_reconcile, renamed, holds_login, database_users, reset, admin,
  create_admin, bootstrap_over, bootstrap, current_profile, reset_profile, login_again, confirmed,
  rename, repair, reconcile, main,
}
use dragontools.Grafana.Reconcile.Laws.{IsRepaired, main-readonly, reconcile-report}
use dragontools.Grafana.Reconcile.Ends.{main-ends}
use dragontools.Grafana.Reconcile.Bootstrap.{IsBootstrapped, bootstrap-IsBootstrapped}

-- A Grafana with one account, whose answers have the login as their text.
record Machine : Type 0 where
  time : ℕ
  fresh : Bool
  login : Text
  password : Text

abbrev profile : Text → Json
profile login = object (
    field (codes "id") (integer 1)
      (field (codes "login") (string login) (field (codes "isGrafanaAdmin") (boolean true) end)))

abbrev login_in : Option Json → Text → Text
login_in (some body) old = elim (get (codes "login") body) [ some (string t) ↦ t | _ ↦ old ]
login_in none old = old

abbrev answer : Route → Request → Machine → Reply × Machine
answer put_user q m = (
  received 200 m.login,
  record {
    time = suc m.time;
    fresh = m.fresh;
    login = login_in q.body m.login;
    password = m.password;
  },
)
answer _ q m = (
  if q.username == m.login && q.password == m.password
      then received 200 m.login
      else received 401 [],
  record { time = suc m.time; fresh = m.fresh; login = m.login; password = m.password },
)

abbrev calls : Calls Machine
calls = record {
  loads = λ t. ok (
      if t == codes "in"
      then object (
          field (codes "username") (string (codes "ops"))
            (field (codes "password") (string (codes "new-pass")) end))
      else profile t);
  casefold = λ t. t;
  clock = λ m. m.time;
  sleep =
      λ d m. record { time = m.time + d; fresh = m.fresh; login = m.login; password = m.password };
  exchange = λ q m. answer q.route q m;
  run_reset = λ u p b m. (
    true,
    record { time = m.time; fresh = false; login = if b then u else m.login; password = p },
  );
  users = λ m. ok (
      if m.fresh
      then []
      else record {
        id = 1;
        login = some m.login;
        email = none;
        is_admin = 1;
        is_disabled = 0;
        is_service_account = 0;
      }
        ∷ []);
  stopped = λ m. ok true;
}

answer_forward : (r : Route) (q : Request) (m : Machine) → m.time ≤ (answer r q m).1.time
answer_forward get_user q m = omega arith
answer_forward put_user q m = omega arith
answer_forward get_settings q m = omega arith
answer_forward get_health q m = omega arith
answer_forward post_query q m = omega arith

calls-IsClock : IsClock calls
calls-IsClock = record {
  sleeps = λ d m. omega arith;
  exchanges = λ q m. answer_forward q.route q m;
  resets = λ u p b m. omega arith;
}

abbrev at : ℕ → Bool → Text → Text → List Change → State Machine
at time fresh login password made = record {
  machine = record { time = time; fresh = fresh; login = login; password = password };
  made = made;
}

-- An administrator with another name and another password.
abbrev installed : State Machine
installed = at 0 false (codes "admin") (codes "old-pass") []

abbrev ops : Text
ops = codes "ops"

abbrev secret : Text
secret = codes "new-pass"

abbrev repaired : State Machine
repaired = at 5 false ops secret (
    put (codes "admin") secret (renamed ops (profile (codes "admin")))
    ∷ reset_to ops secret false
    ∷ [])

reconcile_run : reconcile calls ops secret false installed ≡ (done changed, repaired)
unfolding reconcile repair current_profile reset_profile login_again rename confirmed put_profile
    reset admin database_users authenticated retry after waited pause pass left_of identified
    local_admin request read_reply require lift pure call change ◌>>=◌ resume original_admin
    others_differ only admins ◌>!◌ demanded loaded lookup
reconcile_run = refl

reconcile-report_example :
    ((changed ≡ unchanged)
      × (repaired.made ≡ installed.made)
      × ((before : State Machine) × (final : Option Json) × (authenticated calls ops secret before
            ≡ (done final, repaired))
          × (holds_login ops final ≡ true)))
    ⊎ ((changed ≡ changed) × (false ≡ false) × IsRepaired calls ops secret installed repaired)
reconcile-report_example =
    reconcile-report calls ops secret false installed repaired changed reconcile_run

main-readonly_example : (main calls to_verify (codes "in") installed).1.made ≡ []
main-readonly_example = main-readonly calls to_verify (codes "in") installed refl

main-ends_example : (n : ℕ) × ((main calls to_reconcile (codes "in") installed).0 ≡ some n)
main-ends_example = main-ends calls calls-IsClock to_reconcile (codes "in") installed

abbrev empty : State Machine
empty = at 0 true [] [] []

abbrev created : State Machine
created = at 0 false ops secret (reset_to ops secret true ∷ [])

bootstrap_run : bootstrap calls ops secret empty ≡ (done changed, created)
unfolding bootstrap bootstrap_over create_admin reset admin database_users require lift pure call
    change ◌>>=◌ resume original_admin others_differ only admins ◌>!◌ demanded loaded unguarded
bootstrap_run = refl

bootstrap-IsBootstrapped_example : IsBootstrapped calls ops secret empty created changed
bootstrap-IsBootstrapped_example =
    bootstrap-IsBootstrapped calls ops secret empty created changed bootstrap_run
