-- ===== src/Journald/Check.antt =====
-- `check` of src/monitoring/agents/journald.py, in both modes. The machine's answers (file system
-- sizes, `systemd-analyze`, `systemctl`, `journalctl`) are a record; the files that the program
-- writes are the state. A raised exception is the outcome `failed`, with the state it leaves.
pub mod Laws
use dragontools.Common.{
  ℕ, Bool, true, false, not, ◌&&◌, ◌||◌, Option, none, some, List, [], ◌∷◌, ◌++◌, Text, codes,
  strip, splitlines, starts_with, nat_beq, ltb, if◌then◌else◌,
}
use dragontools.Journald.Effective.{
  Settings, Limits, effective, effective_with, bounded, desired, render, dropin_path, drop_two,
}

-- What `regular` tests, and the content.
pub record Node : Type 0 where
  pub safe : Bool
  pub content : Text

-- The directory of the drop-in: missing, no directory (or a link to one), or a directory, with
-- whether root owns it and nobody else may write to it.
pub data Parent : Type 0 where
  missing unsafe : Parent
  directory : Bool → Parent

pub record World : Type 0 where
  pub dropin : Option Node
  pub marker : Option Node
  pub parent : Parent

pub record Machine : Type 0 where
  -- The output of `systemd-analyze cat-config` for the drop-in that is on disk.
  pub cat_config : Option Node → Text
  pub log_capacity : ℕ
  pub run_capacity : ℕ
  -- Whether these commands succeed.
  pub is_active : Bool
  pub disk_usage : Bool
  pub restart : Bool

pub data Outcome : Type 0 where
  unchanged changed failed : Outcome

abbrev pub limits_of : Machine → Limits
limits_of m = desired m.log_capacity m.run_capacity

-- `bounded(effective(text), limits)`, where a value that cannot be read raises.
abbrev pub passes : Option Settings → Limits → Bool
passes none limits = false
passes (some actual) limits = bounded actual limits

unfoldable pub verify : Machine → World → Bool
verify m w = passes (effective (m.cat_config w.dropin)) (limits_of m) && m.is_active && m.disk_usage

-- `part in text`
unfoldable pub contains : Text → Text → Bool
contains part [] = starts_with [] part
contains part (c ∷ s) = starts_with (c ∷ s) part || contains part s

-- `a > b` on texts.
unfoldable pub after : Text → Text → Bool
after [] b = false
after (c ∷ a) [] = true
after (c ∷ a) (d ∷ b) = ltb d c || (nat_beq c d && after a b)

-- `re.split(r'(?=^# /)', text, flags=re.MULTILINE)`: the open chunk, and whether a line begins.
unfoldable pub chunks_from : Text → Text → Bool → List Text
chunks_from [] chunk begins = chunk ∷ []
chunks_from (c ∷ s) chunk begins =
    let cut = begins && starts_with (c ∷ s) (codes "# /") in
    let rest = chunks_from s (if cut then c ∷ [] else chunk ++ (c ∷ [])) (nat_beq c 10) in
    if cut then chunk ∷ rest else rest

-- `filename.rsplit('/', 1)[1]`, from the part after the last `/` so far.
unfoldable pub last_part : Text → Text → Text
last_part [] part = part
last_part (c ∷ s) part = last_part s (if nat_beq c 47 then [] else part ++ (c ∷ []))

first_line : List Text → Text
first_line [] = []
first_line (l ∷ ls) = l

chunk_filename : Text → Text
chunk_filename chunk =
    if starts_with chunk (codes "# /") then strip (drop_two (first_line (splitlines chunk))) else []

-- Whether a chunk is of a drop-in that overrides this one.
overrides : Text → Bool
overrides chunk =
    let filename = chunk_filename chunk in
    contains (codes "/journald.conf.d/") filename
    && after (last_part filename []) (codes "90-dragontools.conf")

insert_chunk : Text → List Text → List Text
insert_chunk own [] = own ∷ []
insert_chunk own (chunk ∷ chunks) =
    let rest = insert_chunk own chunks in
    if overrides chunk then own ∷ chunk ∷ chunks else chunk ∷ rest

-- `'\n'.join`
join_lines : List Text → Text
join_lines [] = []
join_lines (l ∷ []) = l
join_lines (l ∷ k ∷ ls) = l ++ (10 ∷ join_lines (k ∷ ls))

-- The configuration as it will be with the new drop-in at its place.
unfoldable pub project : Text → Text → Text
unfolding contains chunks_from insert_chunk overrides chunk_filename after last_part first_line
    join_lines strip splitlines starts_with
project text content =
    let own = codes "# " ++ dropin_path in
    if contains own text
    then text
    else join_lines (insert_chunk (own ++ (10 ∷ content)) (chunks_from text [] true))

abbrev pub managed_header : Text
managed_header = codes "# Managed by DragonTools" ++ (10 ∷ [])

-- The tests on what is already there, before anything is written.
unfoldable pub acceptable_dropin : Option Node → Bool
acceptable_dropin none = true
acceptable_dropin (some node) = node.safe && starts_with node.content managed_header

unfoldable pub acceptable_marker : Option Node → Bool
acceptable_marker none = true
acceptable_marker (some node) = node.safe

-- The directory after `os.makedirs`; `none` if the first test refuses it.
unfoldable pub make_parent : Parent → Option Parent
make_parent missing = some (directory true)
make_parent unsafe = none
make_parent (directory ok) = some (directory ok)

parent_metadata : Parent → Bool
parent_metadata missing = false
parent_metadata unsafe = false
parent_metadata (directory ok) = ok

abbrev pub fresh_marker : Node
fresh_marker = record { safe = true; content = [] }

abbrev pub or_fresh : Option Node → Node
or_fresh none = fresh_marker
or_fresh (some node) = node

-- The marker first, then the drop-in.
unfoldable pub write_dropin : Text → World → World
write_dropin content w = record w {
  marker = some (or_fresh w.marker);
  dropin = some (record { safe = true; content = content });
}

-- The end of `check`: a marker asks for a restart, a verification, and its removal.
activate : Machine → Option Node → Bool → World → Outcome × World
activate m none wrote w = (if wrote then changed else unchanged, w)
activate m (some _) wrote w =
    if m.restart && verify m w then (changed, record w { marker = none }) else (failed, w)

unfoldable pub finish : Machine → Bool → World → Outcome × World
unfolding activate
finish m wrote w = activate m w.marker wrote w

publish_into : Machine → Text → Option Parent → World → Outcome × World
publish_into m content none w = (failed, w)
publish_into m content (some p) w =
    let w' : World = record w { parent = p } in
    if parent_metadata p then finish m true (write_dropin content w') else (failed, w')

unfoldable pub publish : Machine → Text → Settings → World → Outcome × World
unfolding publish_into parent_metadata
publish m text actual w =
    let content = render actual (limits_of m) in
    if passes (effective_with (project text content) content) (limits_of m)
    then publish_into m content (make_parent w.parent) w
    else (failed, w)

is_none : Option Node → Bool
is_none none = true
is_none (some _) = false

install_from : Machine → Text → Option Settings → World → Outcome × World
install_from m text none w = (failed, w)
install_from m text (some actual) w =
    if bounded actual (limits_of m) && is_none w.marker
    then (if verify m w then unchanged else failed, w)
    else if acceptable_dropin w.dropin && acceptable_marker w.marker
    then (if bounded actual (limits_of m) then finish m false w else publish m text actual w)
    else (failed, w)

-- `check('install')`
unfoldable pub install : Machine → World → Outcome × World
unfolding install_from is_none
install m w = let text = m.cat_config w.dropin in install_from m text (effective text) w
