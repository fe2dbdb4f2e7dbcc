-- ===== src/AgentApps/Tests.antt =====
-- A host with one application, to which another one is added.
use dragontools.Common.{
  refl, true, false, none, some, [], ◌∷◌, Text, codes, starts_with, occurs, decimal, ◌==◌, nat_eq,
  list_eq, arith, if◌then◌else◌,
}
use dragontools.Common.Identifiers.{is_identifier}
use dragontools.Common.Json.{integer, lookup, dumps, quote, sorted_keys, text_before}
use dragontools.Common.Result.{◌>>=◌, ◌>>◌, claim}
use dragontools.Runs.{Stays}
use dragontools.AgentApps.Scope.{
  Service, App, v4, Library, strip_suffix, is_unit, is_private, escapes_valid, insert_by, sort_by,
  host_valid, check_url, service_of, services_from, scope,
}
use dragontools.AgentApps.Manifests.{
  World, listed, marker, marker_name, json_name, app_json, manifest_json, manifest_text, encoded,
  is_station, manifest_of, parsed,
}
use dragontools.AgentApps.Reconcile.{file_of, reconcile}
use dragontools.AgentApps.Steps.{IsEither, IsUpdated}
use dragontools.AgentApps.Laws.{wanted, reconcile-refines}
use dragontools.AgentApps.Quiet.{IsQuiet, reconcile-IsQuiet}

abbrev service : Text → Text → Service
service name systemd = record {
  name = name;
  systemd = systemd;
  logs = true;
  metrics_url = some (codes "http://10.0.0.7:9/m");
}

abbrev app_of : Text → Text → App
app_of name systemd = record {
  name = name;
  environment = codes "e";
  services = service name systemd ∷ [];
}

abbrev blog : App
blog = app_of (codes "blog") (codes "blog.service")

abbrev shop : App
shop = app_of (codes "shop") (codes "shop.service")

abbrev host_name : Text
host_name = codes "h"

abbrev station : Text
station = codes "s.example"

abbrev blog_text : Text
blog_text = manifest_text host_name (record { station = station; app = blog })

abbrev library : Library
library = record {
  urlsplit = λ t. some (record {
    scheme = codes "http";
    netloc = codes "10.0.0.7:9";
    query = [];
    fragment = [];
    hostname = some (codes "10.0.0.7");
    username = none;
    password = none;
    port = some (some 9);
  });
  ip_address = λ t. some (v4 167772167);
  loads = λ t. some (
      manifest_json (integer 1) host_name
        (record { station = station; app = if t == blog_text then blog else shop }));
}

abbrev world : World
world = record {
  parent_valid = true;
  base =
      listed ((marker_name, file_of marker) ∷ (json_name (codes "blog"), file_of blog_text) ∷ []);
  raw_agent = false;
}

reconcile-refines_example :
    Stays
      (IsEither library host_name (wanted library host_name station (app_json shop) shop) world)
      (λ _ v.
        IsUpdated library host_name (wanted library host_name station (app_json shop) shop) world v)
      (reconcile library host_name (app_json shop) station true world)
unfolding scope services_from service_of check_url host_valid is_private escapes_valid is_unit
    strip_suffix starts_with occurs insert_by sort_by lookup claim ◌>>=◌ ◌>>◌ is_identifier
    manifest_text encoded dumps quote sorted_keys text_before decimal parsed manifest_of is_station
reconcile-refines_example =
    reconcile-refines library host_name station (app_json shop) shop world true (refl, (refl, tt))
      refl (omega arith) refl

reconcile-IsQuiet_example :
    IsQuiet world (reconcile library host_name (app_json shop) station false world)
reconcile-IsQuiet_example = reconcile-IsQuiet library host_name station (app_json shop) world
