-- ===== src/Lib.antt =====
-- The Python programs that `dragontool` runs on the monitoring station and on the application hosts.
--
-- Parts
-- Common: texts as lists of code points with Python's `strip`, `splitlines`, `startswith` and
-- decimal numbers, the names that the programs admit, lists, keys and dictionaries, JSON values,
-- results with two kinds of exception, and equality tests as instances.
-- Journald: src/monitoring/agents/journald.py. Values has `size` and `duration`; Effective has
-- `effective`, `desired`, `bounded` and `render`; Check has `check` in both modes, with the files
-- that it writes as a state and the machine's answers as a record.
-- Apps: the registrations of applications, src/monitoring/apps/station_model.py and
-- src/monitoring/apps/station_mutate.py. Namespace has what `app_node` and `app_read` see of the
-- files; Inspect has `app_inspect` and `app_preflight`; Publish has `app_atomic`, `app_mark` and
-- `app_publish`.
-- Scrape: the scrape configuration, src/monitoring/scrape_mutate.py. Files has what `read_config`,
-- `pending_exists` and `inspect_config` see of the files; Mutate has `prepare_config`,
-- `reconcile_config` and `finalize_config`; Protocol has their runs in any order. Scrape/Runtime:
-- src/monitoring/scrape.py, which asks the running VictoriaMetrics: Runtime has `request` and
-- `definitions`, Targets `targets_loaded`, Loaded `loaded_policy`, Stored `stored_states`, and Main
-- `read_main`.
-- Dashboards: src/monitoring/dashboards/model.py. Grid has the rows and panels that `render` places,
-- the last one included.
-- Ingestion: the sockets that the agents send to, src/monitoring/agents/ingestion.py. Peer has
-- `registered_peer`, Logs `log_body`, Snappy `bounded_snappy`, Post the handler's `do_GET` and
-- `do_POST`, and Slots the bounded semaphore of the connections.
-- AgentApps: the registrations on an application host, src/monitoring/agents/apps.py. Scope has
-- `metrics_url` and `scope`, Manifests what `reconcile` reads, Merge what it decides, Reconcile what it
-- writes; Registry has the map from names to manifests that the files stand for.
-- Grafana: the local administrator, src/monitoring/grafana_credentials.py. Input has `credentials`,
-- Accounts `original_admin`, Query `logs_query_result`, Requests the replies and the loops that wait for
-- Grafana, and Reconcile `bootstrap`, `reconcile` and `main`. A program passes on, with the machine, the
-- list of the resets and profile changes that it has asked for.
-- Rules: whether vmalert evaluates the managed rules, src/monitoring/vmalert_rules.py. Packs and Events
-- have the expected rules, Once the loops over groups and rules, Check `validate_application_group` and
-- the rules, Validate `validate`, `validate_group`, `validate_application` and `main`.
-- Signals: whether the signals of a host have reached the station, src/monitoring/agents/signals.py.
-- Queries has `metric` and `log_ready`, Check has `check` with the texts of its queries; Seen says
-- what its answers show.
-- Telegram: the template of the notifications, `reconcile` of src/monitoring/telegram_template.py.
--
-- How a cut-off run is modelled
-- A program of Apps/Publish, Scrape/Mutate, AgentApps/Reconcile or Telegram gives, besides its result and the last state,
-- the list of all states that are on disk in between (Runs): after each creation, change of mode,
-- rename, and for a write of a text after each number of characters. A crash is the end of the
-- program at one of these states.
-- `fsync` orders the writes as they are listed. States describes what the directory of an
-- application can hold; Draft adds the staging directory of a first generation.
--
-- Parameters
-- `Renderer` stands for the generator of the documents (`app_identity`, `app_documents`) and the
-- JSON text of a manifest. Its laws: the text of a generated manifest is read back as its value,
-- and one identity belongs to one application. `IsSized` says that no generated file is larger
-- than `APP_MAX_BYTES`, which `app_read` demands; the code itself bounds only a configuration read by the
-- command line, by 64 KiB (src/config/application.zig).
-- `Host` has the umask's effect on new files, and whether `app_validate_native` accepts documents.
-- `Scrape.Mutate.Host` has the pinned binary's answers, the lock, and what the running scraper
-- answers in each state to `targets_loaded`, `config_reloaded`, `loaded_policy` and `/ready`.
-- `Machine` has the output of `systemd-analyze cat-config` by the drop-in on disk, the sizes of
-- the file systems, and whether `systemctl` and `journalctl` succeed.
-- `Station` and `Calls` have what the handler of Ingestion calls: the registry's files, `json.loads`,
-- the clock, `rfile.read`, `quote_plus` and the exchange with the backend. The clock is counted in
-- units of 2 ** -22 seconds, of which the readings of `time.time` are multiples.
-- `Grafana.Requests.Calls` has the clock and `time.sleep`, an HTTP exchange, the command line tool, the
-- rows of the database and `systemctl show`. The five pairs of a method and a path that `request` admits
-- are the constructors of `Route`.
-- `Scrape.Runtime.Host` has the answers of VictoriaMetrics by their path, the readings of the clock in
-- any unit, the registrations, and the calls of `json`, `urllib`, `base64`, `datetime` and `float`.
-- `Rules.Check.Clock` has the time, the reading of a time stamp and `app_duration`.
-- `AgentApps.Scope.Library` has `urlsplit`, `ip_address` and `json.loads`.
-- `Signals.Queries.Station` has the station's answers, `json.loads`, `json.dumps` and the comparison of a
-- time stamp with `since`.
--
-- Bounds and fuel
-- Numbers are unbounded, as in Python. `int` refuses a text of more than 4300 digits there, which
-- `size` and `duration` read. `duration` reads one term for each unit of fuel and gets as
-- much fuel as the text has characters: each term takes a digit at least. All other loops are
-- structural, but for the two that wait for Grafana: with 61 and 91 passes they cannot run out before
-- their deadlines of 30 and 45 seconds, as each pause but the last takes half a second at least.
--
-- Not modelled: the agents' checks (agents/checks.py), the host's events and the metrics checks,
-- the contents of dashboards and their states, the secrets and the running configuration of
-- Alertmanager, the database file of Grafana and its logs backend, the loader of the registrations,
-- and ingress health, which is TLS and sockets. Outside the model: the extraction of the Grafana
-- archives, the Zig command line, the release tools and the vendored mbedtls.
pub mod Common
pub mod Rules
pub mod Runs
pub mod Signals
pub mod Telegram
pub mod Journald
pub mod AgentApps
pub mod Apps
pub mod Scrape
pub mod Dashboards
pub mod Grafana
pub mod Ingestion
