-- ===== src/Rules/Tests.antt =====
-- An answer of vmalert with the base groups of src/monitoring/vmalert_rules.py.
use dragontools.Common.{
  ◌≡◌, refl, ◌*◌, Option, none, some, List, [], ◌∷◌, map, Text, codes, strip, starts_with, Every,
  ◌==◌, nat_eq, list_eq, if◌then◌else◌,
}
use dragontools.Common.Json.{
  Json, integer, string, array, object, field, end, from_list, lookup, equal,
}
use dragontools.Common.Result.{ok, ◌>>=◌, ◌>>◌, demand, claim}
use dragontools.Rules.Once.{each, each_over}
use dragontools.Rules.Packs.{Expected, probes_pack, hosts_pack}
use dragontools.Rules.Check.{
  Clock, second, labels_of, response_groups, check_rule, evaluated, rule_name, named_rule,
  check_pack,
}
use dragontools.Rules.Validate.{
  metrics, base_groups, file_of, group_name, check_group, validate, received, checked, exit_status,
  main,
}
use dragontools.Rules.Validate.Laws.{IsLoaded, main-IsLoaded}

abbrev clock : Clock
clock = record {
  now = 1000 * second;
  timestamp = λ t. if t == codes "now" then some (990 * second) else none;
  app_duration = λ j. none;
}

abbrev rule_of : Expected → Json
rule_of e = object (
    field (codes "name") (string e.name) (
      field (codes "query") (string e.query) (
        field (codes "duration") (integer e.duration) (
          field (codes "type") (string (codes "alerting")) (
            field (codes "datasourceType") (string (codes "prometheus")) (
              field (codes "file") (string (file_of clock metrics)) (
                field (codes "labels") (labels_of clock e) (
                  field (codes "annotations") e.annotations (
                    field (codes "health") (string (codes "ok")) (
                      field (codes "lastEvaluation") (string (codes "now"))
                        (field (codes "state") (string (codes "inactive")) end)))))))))))

abbrev group_of : Text → List Expected → Json
group_of name pack = object (
    field (codes "name") (string name) (
      field (codes "file") (string (file_of clock metrics)) (
        field (codes "type") (string (codes "prometheus")) (
          field (codes "interval") (integer 30)
            (field (codes "rules") (array (from_list (map rule_of pack))) end)))))

-- The two base groups, and one of an application.
abbrev answer : Json
answer = object (
    field (codes "status") (string (codes "success")) (
      field (codes "data")
        (object (
          field (codes "groups")
            (array (
              from_list (
                group_of (codes "dragontools-hosts") hosts_pack
                ∷ group_of (codes "other") []
                ∷ group_of (codes "dragontools-probes") probes_pack
                ∷ [])))
            end))
        end))

abbrev loads : Text → Option Json
loads t = some answer

main_run : main clock loads metrics (received 200 (codes "{}")) ≡ 0
unfolding main exit_status checked validate response_groups each each_over group_name check_group
    check_pack rule_name named_rule check_rule evaluated claim demand ◌>>=◌ ◌>>◌ lookup equal strip
    starts_with
main_run = refl

main-IsLoaded_example :
    (body : Text) × (value : Json) × (groups : List Json) × (received 200 (codes "{}")
      ≡ received 200 body)
    × (loads body ≡ some value)
    × (response_groups value ≡ ok groups)
    × Every (IsLoaded clock metrics groups) (base_groups clock metrics)
main-IsLoaded_example = main-IsLoaded clock metrics loads (received 200 (codes "{}")) main_run
