-- ===== src/Rules/Events.antt =====
-- `HOST_EVENT_RULES` of src/monitoring/vmalert_rules.py: the first group, whose name, type and interval
-- are those that `validate_group` passes on.
use dragontools.Common.{codes}
use dragontools.Common.Json.{Json, string, object, array, field, end, nil, cons}

abbrev reboot_required : Json
reboot_required = object (
    field (codes "alert") (string (codes "HostRebootRequired")) (
      field (codes "expr")
        (string (
          codes
            "_time:2m {application=\"host\",environment=\"host\",service=\"dragontools-host\"} type:=\"dragontools_host\" event:=\"host_reboot_required\" | stats by (host, event_id) count() as events | filter events:>0"))
        (field (codes "labels")
          (object (
            field (codes "managed_by") (string (codes "dragontools")) (
              field (codes "source") (string (codes "host-maintenance"))
                (field (codes "severity") (string (codes "warning")) end))))
          (field (codes "annotations")
            (object (
              field (codes "summary") (string (codes "{{ $labels.host }} reboot required")) (
                field (codes "kernel")
                  (string (
                    codes
                      "{{ $rows := query (printf \"_time:5m {application=\\\"host\\\",environment=\\\"host\\\",service=\\\"dragontools-host\\\"} type:=\\\"dragontools_host\\\" host:=%q event_id:=%q | stats by (kernel) count() as hits | filter hits:>0\" $labels.host $labels.event_id) }}{{ if gt (len $rows) 0 }}{{ label \"kernel\" (index $rows 0) }}{{ end }}"))
                  (field (codes "uptime_human")
                    (string (
                      codes
                        "{{ $rows := query (printf \"_time:5m {application=\\\"host\\\",environment=\\\"host\\\",service=\\\"dragontools-host\\\"} type:=\\\"dragontools_host\\\" host:=%q event_id:=%q | stats by (uptime_human) count() as hits | filter hits:>0\" $labels.host $labels.event_id) }}{{ if gt (len $rows) 0 }}{{ label \"uptime_human\" (index $rows 0) }}{{ end }}"))
                    (field (codes "packages_text")
                      (string (
                        codes
                          "{{ $rows := query (printf \"_time:5m {application=\\\"host\\\",environment=\\\"host\\\",service=\\\"dragontools-host\\\"} type:=\\\"dragontools_host\\\" host:=%q event_id:=%q | stats by (packages_text) count() as hits | filter hits:>0\" $labels.host $labels.event_id) }}{{ if gt (len $rows) 0 }}{{ label \"packages_text\" (index $rows 0) }}{{ end }}"))
                      end)))))
            end))))

abbrev requirement_cleared : Json
requirement_cleared = object (
    field (codes "alert") (string (codes "HostRebootRequirementCleared")) (
      field (codes "expr")
        (string (
          codes
            "_time:2m {application=\"host\",environment=\"host\",service=\"dragontools-host\"} type:=\"dragontools_host\" event:=\"host_reboot_requirement_cleared\" | stats by (host, event_id) count() as events | filter events:>0"))
        (field (codes "labels")
          (object (
            field (codes "managed_by") (string (codes "dragontools")) (
              field (codes "source") (string (codes "host-maintenance"))
                (field (codes "severity") (string (codes "info")) end))))
          (field (codes "annotations")
            (object (
              field (codes "summary")
                (string (codes "{{ $labels.host }} reboot requirement cleared"))
                (field (codes "kernel")
                  (string (
                    codes
                      "{{ $rows := query (printf \"_time:5m {application=\\\"host\\\",environment=\\\"host\\\",service=\\\"dragontools-host\\\"} type:=\\\"dragontools_host\\\" host:=%q event_id:=%q | stats by (kernel) count() as hits | filter hits:>0\" $labels.host $labels.event_id) }}{{ if gt (len $rows) 0 }}{{ label \"kernel\" (index $rows 0) }}{{ end }}"))
                  (field (codes "uptime_human")
                    (string (
                      codes
                        "{{ $rows := query (printf \"_time:5m {application=\\\"host\\\",environment=\\\"host\\\",service=\\\"dragontools-host\\\"} type:=\\\"dragontools_host\\\" host:=%q event_id:=%q | stats by (uptime_human) count() as hits | filter hits:>0\" $labels.host $labels.event_id) }}{{ if gt (len $rows) 0 }}{{ label \"uptime_human\" (index $rows 0) }}{{ end }}"))
                    (field (codes "packages_text")
                      (string (
                        codes
                          "{{ $rows := query (printf \"_time:5m {application=\\\"host\\\",environment=\\\"host\\\",service=\\\"dragontools-host\\\"} type:=\\\"dragontools_host\\\" host:=%q event_id:=%q | stats by (packages_text) count() as hits | filter hits:>0\" $labels.host $labels.event_id) }}{{ if gt (len $rows) 0 }}{{ label \"packages_text\" (index $rows 0) }}{{ end }}"))
                      end)))))
            end))))

abbrev pub host_events : Json
host_events = object (
    field (codes "name") (string (codes "dragontools-host-events")) (
      field (codes "type") (string (codes "vlogs")) (
        field (codes "interval") (string (codes "1m")) (
          field (codes "rules") (array (cons reboot_required (cons requirement_cleared nil)))
            end))))
