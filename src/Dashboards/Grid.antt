-- ===== src/Dashboards/Grid.antt =====
-- The grid of a Grafana dashboard: the sections and panels that `render` of
-- src/monitoring/dashboards/model.py places, with their ids and positions.
pub mod Laws
use dragontools.Common.{
  ℕ, suc, ◌+◌, ◌-◌, ◌*◌, ◌/◌, ◌%◌, Bool, true, false, List, [], ◌∷◌, ◌++◌, Text, length, not, ◌||◌,
  ◌==◌, list_eq, nat_eq, if◌then◌else◌, codes,
}

pub data PanelType : Type 0 where
  row stat timeseries text logs : PanelType

pub record Panel : Type 0 where
  pub id : ℕ
  pub title : Text
  pub type : PanelType
  pub x : ℕ
  pub y : ℕ
  pub w : ℕ
  pub h : ℕ

-- One of `sections`: its title, the titles of its panels, and whether they show a single value.
pub record Section : Type 0 where
  pub title : Text
  pub members : List Text
  pub stats : Bool

-- `columns, height = (4, 4) if stats else (2, 8)`
abbrev pub column : Bool → ℕ → ℕ
column true i = i % 4
column false i = i % 2

abbrev pub line : Bool → ℕ → ℕ
line true i = i / 4
line false i = i / 2

abbrev pub width : Bool → ℕ
width true = 6
width false = 12

abbrev pub height : Bool → ℕ
height true = 4
height false = 8

-- `((len(members) + columns - 1) // columns) * height`
abbrev pub body_height : Bool → ℕ → ℕ
body_height true n = ((n + 3) / 4) * 4
body_height false n = ((n + 1) / 2) * 8

abbrev pub member_type : Bool → PanelType
member_type true = stat
member_type false = timeseries

-- The panel of index `i` in a section whose panels begin at line `y`.
abbrev pub member_panel : Bool → ℕ → ℕ → ℕ → Text → Panel
member_panel stats id y i title = record {
  id = id;
  title = title;
  type = member_type stats;
  x = column stats i * width stats;
  y = y + line stats i * height stats;
  w = width stats;
  h = height stats;
}

-- `for i, panel in enumerate(members)`, from index `i`, with `count` panels placed so far.
unfoldable pub place_members : Bool → ℕ → ℕ → ℕ → List Text → List Panel
place_members stats count y i [] = []
place_members stats count y i (title ∷ members) =
    member_panel stats (suc count) y i title ∷ place_members stats (suc count) y (suc i) members

abbrev pub row_panel : ℕ → ℕ → Text → Panel
row_panel id y title = record { id = id; title = title; type = row; x = 0; y = y; w = 24; h = 1 }

-- `row if stats or row != 'Overview' else 'Host / probes'`
unfoldable pub row_title : Section → Text
row_title s =
    if s.stats || not (s.title == codes "Overview") then s.title else codes "Host / probes"

abbrev pub section_panels : Section → ℕ → ℕ → List Panel
section_panels s count y =
    row_panel (suc count) y (row_title s) ∷ place_members s.stats (suc count) (y + 1) 0 s.members

-- Where the next section begins.
abbrev pub section_end : Section → ℕ → ℕ
section_end s y = y + 1 + body_height s.stats (length s.members)

-- `if not members: continue`
abbrev pub unless_empty : {A : Type 0} → List Text → A → A → A
unless_empty [] skipped placed = skipped
unless_empty (_ ∷ _) skipped placed = placed

-- `for row, members, stats in sections`, with `count` panels placed so far, from line `y` on.
unfoldable pub place : List Section → ℕ → ℕ → List Panel
place [] count y = []
place (s ∷ sections) count y =
    let skipped = place sections count y in
    let rest = place sections (count + 1 + length s.members) (section_end s y) in
    unless_empty s.members skipped (section_panels s count y ++ rest)

-- The line after the last section.
unfoldable pub place_end : List Section → ℕ → ℕ
place_end [] y = y
place_end (s ∷ sections) y =
    let skipped = place_end sections y in
    let rest = place_end sections (section_end s y) in unless_empty s.members skipped rest

-- What follows the sections: the coverage of the station; or the logs of an application, if one of
-- its services logs.
pub data Ending : Type 0 where
  station : Ending
  application : (logged : Bool) → Ending

unfoldable pub ending_panels : Ending → ℕ → ℕ → List Panel
ending_panels station id y =
    record {
      id = id;
      title = codes "Station signal coverage";
      type = text;
      x = 0;
      y = y;
      w = 24;
      h = 5;
    }
    ∷ []
ending_panels (application false) id y = []
ending_panels (application true) id y =
    record {
      id = id;
      title = codes "Warning / error logs";
      type = logs;
      x = 0;
      y = y;
      w = 24;
      h = 12;
    }
    ∷ []

-- `grafana['panels']` of `render`, by the sections and by what follows them.
unfoldable pub panels : List Section → Ending → List Panel
panels sections ending =
    let placed = place sections 0 0 in
    placed ++ ending_panels ending (suc (length placed)) (place_end sections 0)
