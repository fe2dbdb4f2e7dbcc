-- ===== src/Rules/Packs.antt =====
-- The rules of the station that `validate_group` of src/monitoring/vmalert_rules.py expects.
use dragontools.Common.{ℕ, List, [], ◌∷◌, Text, codes}
use dragontools.Common.Json.{Json, string, object, field, end}

-- One entry of `expected`, with its name and its entry of `annotations`.
pub record Expected : Type 0 where
  pub name : Text
  pub query : Text
  pub duration : ℕ
  pub severity : Text
  pub source : Text
  pub annotations : Json

abbrev pub probes_pack : List Expected
probes_pack =
    record {
      name = codes "ServiceProbeFailed";
      query = codes "probe_success{job=\"dragontools-blackbox\"} == 0";
      duration = 120;
      severity = codes "critical";
      source = codes "blackbox";
      annotations = object (
          field (codes "summary") (string (codes "HTTP probe {{ $labels.probe }} is failing")) (
            field (codes "description")
              (string (
                codes
                  "Target {{ $labels.target }} has failed HTTP/HTTPS availability checks for two minutes."))
              end));
    }
    ∷ []

abbrev pub hosts_pack : List Expected
hosts_pack =
    record {
      name = codes "CPUHigh";
      query =
          codes
            "100 * (1 - avg by (application, environment, host) (rate(host_cpu_seconds_total{agent=\"vector\",mode=\"idle\"}[5m]))) > 90";
      duration = 600;
      severity = codes "warning";
      source = codes "vector";
      annotations = object (
          field (codes "summary") (string (codes "High CPU on {{ $labels.host }}")) (
            field (codes "description")
              (string (codes "CPU utilization is above the managed host threshold.")) end));
    }
    ∷ record {
      name = codes "MemoryPressure";
      query =
          codes
            "100 * (1 - host_memory_available_bytes{agent=\"vector\"} / host_memory_total_bytes{agent=\"vector\"}) > 90";
      duration = 300;
      severity = codes "warning";
      source = codes "vector";
      annotations = object (
          field (codes "summary") (string (codes "Memory pressure on {{ $labels.host }}")) (
            field (codes "description")
              (string (codes "Available host memory is below the managed threshold.")) end));
    }
    ∷ record {
      name = codes "DiskWarning";
      query = codes "100 * host_filesystem_used_ratio{agent=\"vector\"} >= 70";
      duration = 300;
      severity = codes "warning";
      source = codes "vector";
      annotations = object (
          field (codes "summary") (string (codes "Disk warning on {{ $labels.host }}")) (
            field (codes "description")
              (string (codes "Filesystem {{ $labels.mountpoint }} is above the warning threshold."))
              end));
    }
    ∷ record {
      name = codes "DiskCritical";
      query = codes "100 * host_filesystem_used_ratio{agent=\"vector\"} >= 80";
      duration = 300;
      severity = codes "critical";
      source = codes "vector";
      annotations = object (
          field (codes "summary") (string (codes "Disk critical on {{ $labels.host }}")) (
            field (codes "description")
              (string
                (codes "Filesystem {{ $labels.mountpoint }} is above the critical threshold."))
              end));
    }
    ∷ record {
      name = codes "InodesCritical";
      query =
          codes
            "(100 * host_filesystem_inodes_used_ratio{agent=\"vector\"} >= 90) and (host_filesystem_inodes_total{agent=\"vector\"} > 0)";
      duration = 300;
      severity = codes "critical";
      source = codes "vector";
      annotations = object (
          field (codes "summary") (string (codes "Inodes critical on {{ $labels.host }}")) (
            field (codes "description")
              (string (codes "Filesystem {{ $labels.mountpoint }} is above the inode threshold."))
              end));
    }
    ∷ record {
      name = codes "SecurityUpdatesPending";
      query = codes "dragontool_host_security_updates_pending{agent=\"vector\"} > 0";
      duration = 86400;
      severity = codes "warning";
      source = codes "vector";
      annotations = object (
          field (codes "summary") (string (codes "Security updates pending on {{ $labels.host }}"))
            (field (codes "description")
              (string (
                codes
                  "Ubuntu reports pending security updates for at least 24 hours; review the host maintenance state."))
              end));
    }
    ∷ []

abbrev pub logs_pack : List Expected
logs_pack =
    record {
      name = codes "ErrorBurst";
      query =
          codes
            "_time:5m level:in(error) | stats by (application, environment, host, service) count() as errors | filter errors:>=5";
      duration = 0;
      severity = codes "warning";
      source = codes "victorialogs";
      annotations = object (
          field (codes "summary") (string (codes "Error burst from service {{ $labels.service }}"))
            (field (codes "description")
              (string (codes "Structured error events in the evaluation window: {{ $value }}."))
              end));
    }
    ∷ record {
      name = codes "CriticalLogEvent";
      query =
          codes
            "_time:1m level:in(critical,fatal) | stats by (application, environment, host, service) count() as events | filter events:>=1";
      duration = 0;
      severity = codes "critical";
      source = codes "victorialogs";
      annotations = object (
          field (codes "summary")
            (string (codes "Critical or fatal event from service {{ $labels.service }}"))
            (field (codes "description")
              (string (
                codes
                  "Structured critical or fatal events in the evaluation window: {{ $value }}."))
              end));
    }
    ∷ []
