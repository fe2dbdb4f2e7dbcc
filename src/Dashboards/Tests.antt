-- ===== src/Dashboards/Tests.antt =====
-- Runs of the grid of src/monitoring/dashboards/model.py.
use dragontools.Common.{true, false, List, [], ◌∷◌, codes}
use dragontools.Dashboards.Grid.{Section, station, application, panels}
use dragontools.Dashboards.Grid.Laws.{Pairwise, Numbered, panels-Pairwise, panels-Numbered}

abbrev sections : List Section
sections =
    record {
      title = codes "Overview";
      members = codes "a" ∷ codes "b" ∷ codes "c" ∷ codes "d" ∷ codes "e" ∷ [];
      stats = true;
    }
    ∷ record { title = codes "HTTP"; members = []; stats = false }
    ∷ record {
      title = codes "Resources";
      members = codes "f" ∷ codes "g" ∷ codes "h" ∷ [];
      stats = false;
    }
    ∷ []

panels-Pairwise_example : Pairwise (panels sections (application true))
panels-Pairwise_example = panels-Pairwise sections (application true)

panels-Numbered_example : Numbered 1 (panels sections station)
panels-Numbered_example = panels-Numbered sections station
