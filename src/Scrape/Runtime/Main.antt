-- ===== src/Scrape/Runtime/Main.antt =====
-- `read_main` of src/monitoring/scrape.py.
use dragontools.Common.{
  ℕ, Bool, true, false, List, [], ◌∷◌, Text, codes, ◌==◌, nat_eq, list_eq, if◌then◌else◌,
}
use dragontools.Common.Keys.{find}
use dragontools.Common.Json.Read.{present, text_of}
use dragontools.Common.Json.{Json, array, string, items, from_list, get, dumps}
use dragontools.Common.Result.{Result, ok, refused, broken, ◌>>=◌, ◌>>◌, demand}
use dragontools.Scrape.Files.{
  World, Check, passed, value_error, failed, read_config, pending_exists,
}
use dragontools.Scrape.Runtime.{Host, Labels, definitions}
use dragontools.Scrape.Runtime.Loaded.{scraper_ready}
use dragontools.Scrape.Runtime.Stored.{State, unknown, healthy, unhealthy, stored_states}

abbrev check_result : Check → Result (Unit {0})
check_result passed = ok tt
check_result value_error = broken
check_result failed = broken

-- The mode `managed`: the configuration, and the marker.
unfoldable pub managed : (Text → Text) → World → Text → Result (Unit {0})
managed sha256 w config =
    check_result (read_config sha256 config w) >> (present (pending_exists w) >>= λ b. ok tt)

unfoldable pub none_unknown : List (Text × State) → Bool
none_unknown [] = true
none_unknown ((name, unknown) ∷ ss) = false
none_unknown ((name, healthy) ∷ ss) = none_unknown ss
none_unknown ((name, unhealthy) ∷ ss) = none_unknown ss

abbrev all_unknown : List (Text × Labels) → List (Text × State)
all_unknown [] = []
all_unknown ((name, l) ∷ es) = (name, unknown) ∷ all_unknown es

abbrev state_text : State → Text
state_text unknown = codes "unknown"
state_text healthy = codes "healthy"
state_text unhealthy = codes "unhealthy"

-- `[states[probe["name"]] for probe in probes]`
unfoldable pub listed : List (Text × State) → List Json → Result (List Json)
listed states [] = ok []
listed states (p ∷ ps) = text_of (get (codes "name") p) >>= λ name.
    present (find name states) >>= λ state.
    listed states ps >>= λ rest. ok (string (state_text state) ∷ rest)

abbrev list_items : Json → List Json
list_items (array js) = items js
list_items _ = []

-- `except NotReady` around `stored_states`
unfoldable pub or_unknown :
    List (Text × Labels) → Result (List (Text × State)) → Result (List (Text × State))
or_unknown expected (ok states) = ok states
or_unknown expected refused = ok (all_unknown expected)
or_unknown expected broken = broken

unfoldable pub outcome : Result Text → ℕ × Text
outcome (ok out) = (0, out)
outcome refused = (75, [])
outcome broken = (1, [])

module _ (host : Host) (sha256 : Text → Text) (w : World) where
  -- The mode `stored`
  unfoldable pub stored : List (Text × Labels) → Result (Unit {0})
  stored expected =
      scraper_ready host expected
      >> (stored_states host expected false >>= λ states. demand (none_unknown states))

  -- The mode `status`, and what it prints.
  unfoldable pub status : Json → List (Text × Labels) → Result Text
  status probes expected = or_unknown expected (stored_states host expected true) >>= λ states.
      listed states (list_items probes) >>= λ texts. ok (dumps (array (from_list texts)))

  unfoldable pub run_mode : Text → Text → Json → List (Text × Labels) → Result Text
  run_mode mode config probes expected =
      if mode == codes "managed"
      then managed sha256 w config >> ok []
      else if mode == codes "ready"
      then scraper_ready host expected >> ok []
      else if mode == codes "stored"
      then stored expected >> ok []
      else if mode == codes "status"
      then status probes expected
      else broken

  -- The body of `read_main`, by the arguments of the process.
  unfoldable pub run : List Text → Result Text
  run (mode ∷ config ∷ raw ∷ more) = present (host.b64decode raw) >>= λ text.
      present (host.loads text) >>= λ probes.
      definitions host probes >>= λ expected. run_mode mode config probes expected
  run _ = broken

  -- The exit status of `read_main`, and what it prints.
  unfoldable pub read_main : List Text → ℕ × Text
  unfolding outcome
  read_main args = outcome (run args)
