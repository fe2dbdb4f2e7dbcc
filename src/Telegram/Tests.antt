-- ===== src/Telegram/Tests.antt =====
-- An update of the template of src/monitoring/telegram_template.py.
use dragontools.Common.{true, [], inl, refl, Text, codes, some, ◌++◌}
use dragontools.Runs.{Stays}
use dragontools.Scrape.Files.{missing, found}
use dragontools.Telegram.{World, marker, reconcile}
use dragontools.Telegram.Laws.{IsCovered, Installed, reconcile-IsCovered}

abbrev template : Text
template = marker ++ codes "new"

abbrev old : World
old = record {
  parent = found (record { owned = true; mode = 493; content = [] });
  base = found (record { owned = true; mode = 493; content = [] });
  templates = found (record { owned = true; mode = 493; content = [] });
  template = found (record { owned = true; mode = 420; content = marker ++ codes "old" });
  pending = missing;
  running = some (marker ++ codes "old");
}

reconcile-IsCovered_example :
    Stays IsCovered (Installed 493 true template) (reconcile 493 true template old)
reconcile-IsCovered_example = reconcile-IsCovered 493 true template old (inl refl)
