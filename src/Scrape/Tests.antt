-- ===== src/Scrape/Tests.antt =====
-- Runs of src/monitoring/scrape_mutate.py on one station.
use dragontools.Common.{
  ◌≡◌, refl, ◌⊎◌, inl, Bool, true, false, Option, none, some, [], Text, codes, starts_with,
}
use dragontools.Runs.{Stays}
use dragontools.Scrape.Files.{
  Entry, missing, World, directory_mode, config_mode, pending_exists, pending_of, is_managed,
}
use dragontools.Scrape.Mutate.{
  Host, Answer, ready, not_ready, empty_marker, prepare, reconcile, finalize,
}
use dragontools.Scrape.Prepare.{whole}
use dragontools.Scrape.Returns.{prepare-returns}
use dragontools.Scrape.Covered.{IsCovered, Prepared, prepare-Stays}
use dragontools.Scrape.Protocol.{
  Reported, reconcile-Stays, finalize-Stays, done, next, prepares, reconciles, Steps, SomeEarly,
  Steps-IsCovered,
}

abbrev desired : Text
desired = codes "# Managed by DragonTools\nglobal: {}\n"

-- The scraper answers as wanted once it has loaded a configuration.
abbrev answer : Option Text → Answer
answer none = not_ready
answer (some t) = ready

abbrev host : Host
host = record {
  sha256 = λ t. t;
  made_mode = directory_mode;
  registrations_valid = true;
  contended = false;
  binary_valid = true;
  dry_run = λ t. true;
  staged_intact = true;
  runtime = λ w. answer w.loaded;
  accepts_reload = true;
}

abbrev fresh : World
fresh = record {
  parent = missing;
  directory = missing;
  config = missing;
  pending = missing;
  lock = missing;
  loaded = none;
  reloads = 0;
}

abbrev published : Entry → Option Text → World
published pending loaded = record {
  parent = whole directory_mode [];
  directory = whole directory_mode [];
  config = whole config_mode desired;
  pending = pending;
  lock = empty_marker;
  loaded = loaded;
  reloads = 0;
}

prepare-Stays_example :
    Stays IsCovered (λ (_ : Bool). Prepared host desired) (prepare host desired fresh)
prepare-Stays_example = prepare-Stays host desired fresh (inl refl)

reconcile-Stays_example :
    Stays IsCovered
      (λ b w'.
        Prepared host desired (published missing (some desired))
        × Reported host (published missing (some desired)) b w')
      (reconcile host desired (published missing (some desired)))
reconcile-Stays_example = reconcile-Stays host desired (published missing (some desired)) (inl refl)

finalize-Stays_example :
    Stays IsCovered
      (λ _ w'. (w'.pending ≡ missing) × Prepared host desired w')
      (finalize host desired (published empty_marker (some desired)))
finalize-Stays_example = finalize-Stays host desired (published empty_marker (some desired)) refl

abbrev first_runs :
    Steps host fresh (reconcile host desired (prepare host desired fresh).state).state
first_runs = next fresh (prepare host desired fresh).state _ (prepares desired fresh _ (inl refl)) (
    next (prepare host desired fresh).state _ _
      (reconciles desired (prepare host desired fresh).state _ (inl refl)) (done _))

Steps-IsCovered_example :
    IsCovered (reconcile host desired (prepare host desired fresh).state).state
    ⊎ SomeEarly host first_runs
Steps-IsCovered_example =
    Steps-IsCovered host fresh (reconcile host desired (prepare host desired fresh).state).state
      first_runs (inl refl)

prepare-returns_example : (changed : Bool) × ((prepare host desired fresh).outcome ≡ some changed)
unfolding is_managed starts_with pending_exists pending_of
prepare-returns_example =
    prepare-returns host desired fresh refl refl refl
      ((λ e. cc e), (λ e. cc e), (false, refl), (none, refl), inl refl) (inl refl)
