-- ===== src/Signals/Tests.antt =====
-- A run of `check` of src/monitoring/agents/signals.py on the logs of one application.
use dragontools.Common.{
  ◌≡◌, refl, true, some, [], Text, codes, starts_with, ◌==◌, nat_eq, list_eq, if◌then◌else◌,
  byte_lines,
}
use dragontools.Common.Json.{
  Json, boolean, string, array, object, cons, nil, field, end, lookup, equal,
}
use dragontools.Common.Result.{ok, ◌>>=◌, ◌>>◌}
use dragontools.Signals.Queries.{
  Station, received, claim, item, body_of, fields_of, log_entry, log_ready,
}
use dragontools.Signals.Check.{
  all_ready, both, listed_ready, each_service, logs_ready, application_ready, signals_ready, check,
}
use dragontools.Signals.Check.Laws.{IsChecked, check-IsChecked}

abbrev host : Text
host = codes "one"

-- An entry of a stream, as the station returns it.
abbrev entry : Text → Text → Text → Text → Json
entry application environment service stream = object (
    field (codes "application") (string application) (
      field (codes "environment") (string environment) (
        field (codes "host") (string host) (
          field (codes "service") (string service) (
            field (codes "_stream") (string stream)
              (field (codes "_time") (string (codes "now")) end))))))

abbrev registration : Json
registration = object (
    field (codes "host") (string host) (
      field (codes "applications")
        (array (
          cons
            (object (
              field (codes "name") (string (codes "shop")) (
                field (codes "environment") (string (codes "live")) (
                  field (codes "services")
                    (array (
                      cons
                        (object (
                          field (codes "name") (string (codes "web"))
                            (field (codes "logs") (boolean true) end)))
                        nil))
                    end))))
            nil))
        end))

abbrev of_host : Text
of_host = codes "{application=host,environment=host,host=one,service=dragontools-host}"

abbrev of_web : Text
of_web = codes "{application=shop,environment=live,host=one,service=web}"

-- Texts are dumped without quotes.
abbrev station : Station
station = record {
  ask = λ port path query.
      if starts_with query of_host then received 200 (codes "h") else received 200 (codes "w");
  loads = λ t. some (
      if t == codes "h"
      then entry (codes "host") (codes "host") (codes "dragontools-host") of_host
      else entry (codes "shop") (codes "live") (codes "web") of_web);
  dumps = λ j. elim j [ string t ↦ t | _ ↦ [] ];
  since_text = codes "0.0";
  is_since = λ t. some true;
}

check_run : check station (codes "logs") registration ≡ ok true
unfolding check both signals_ready application_ready each_service listed_ready logs_ready all_ready
    log_ready log_entry fields_of body_of claim ◌>>=◌ ◌>>◌ lookup equal byte_lines starts_with
check_run = refl

check-IsChecked_example :
    (h : Json) × (item (codes "host") registration ≡ ok h)
    × IsChecked station (codes "logs") registration h
check-IsChecked_example = check-IsChecked station (codes "logs") registration check_run
