-- ===== src/Scrape/Files.antt =====
-- `node`, `read_config` and `pending_exists` of src/monitoring/scrape.py, and `inspect_config` of
-- src/monitoring/scrape_mutate.py: what they read of the files. Texts are bytes.
use dragontools.Common.{
  ℕ, ◌*◌, Bool, true, false, ◌&&◌, Option, none, some, [], Text, codes, starts_with, length, leb,
  ◌==◌, nat_eq, list_eq, if◌then◌else◌, drop,
}

-- What `os.lstat` gives for a path of the wanted kind: whether root owns it, the mode, the bytes.
pub record Info : Type 0 where
  pub owned : Bool
  pub mode : ℕ
  pub content : Text

-- A path: missing, a link or of another kind (or with several links), or as wanted.
pub data Entry : Type 0 where
  missing wrong : Entry
  found : Info → Entry

-- `CONFIG_PARENT`, `CONFIG_DIR`, `CONFIG`, `PENDING` and `LOCK`; and of the running scraper the
-- configuration that it has loaded, and how often it was asked to load one.
pub record World : Type 0 where
  pub parent : Entry
  pub directory : Entry
  pub config : Entry
  pub pending : Entry
  pub lock : Entry
  pub loaded : Option Text
  pub reloads : ℕ

-- How a check ends: it passes, or raises `ValueError`, or another exception.
pub data Check : Type 0 where
  passed value_error failed : Check

abbrev pub then_check : Check → Check → Check
then_check passed b = b
then_check value_error b = value_error
then_check failed b = failed

-- `if not test: raise ValueError`
abbrev pub demand : Bool → Check
demand true = passed
demand false = value_error

-- `node(path, kind)`, with a test on what it returns.
abbrev pub node_check : (Info → Check) → Entry → Check
node_check f missing = failed
node_check f wrong = value_error
node_check f (found i) = f i

abbrev pub max_config : ℕ
max_config = 128 * 1024

-- `0o755`, `0o644` and `0o600`
abbrev pub directory_mode : ℕ
directory_mode = 493

abbrev pub config_mode : ℕ
config_mode = 420

abbrev pub private_mode : ℕ
private_mode = 384

abbrev pub has_mode : ℕ → Info → Bool
has_mode m i = i.owned && i.mode == m

-- Whether the bytes are the expected ones, which are given in full or as `sha256:` and a digest.
unfoldable pub matches : (Text → Text) → Text → Text → Bool
matches sha256 expected actual =
    if starts_with expected (codes "sha256:")
    then sha256 actual == drop 7 expected
    else actual == expected

abbrev pub config_check : (Text → Text) → Text → Info → Check
config_check sha256 expected i =
    then_check (demand (leb (length i.content) max_config))
      (then_check (demand (has_mode config_mode i)) (demand (matches sha256 expected i.content)))

-- `read_config(expected)`
unfoldable pub read_config : (Text → Text) → Text → World → Check
read_config sha256 expected w =
    then_check (node_check (λ i. demand (has_mode directory_mode i)) w.parent) (
      then_check (node_check (λ i. demand (has_mode directory_mode i)) w.directory)
        (node_check (config_check sha256 expected) w.config))

abbrev pub guard : {A : Type 0} → Bool → A → Option A
guard true a = some a
guard false a = none

-- `pending_exists()`, by the path; `none` stands for the exception.
unfoldable pub pending_of : Entry → Option Bool
pending_of missing = some false
pending_of wrong = none
pending_of (found i) = guard (has_mode private_mode i && i.content == []) true

unfoldable pub pending_exists : World → Option Bool
pending_exists w = pending_of w.pending

abbrev pub managed_header : Text
managed_header = codes "# Managed by DragonTools\n"

-- `node(path, kind, missing=True)`
abbrev pub node_optional : Entry → Option (Option Info)
node_optional missing = some none
node_optional wrong = none
node_optional (found i) = some (some i)

unfoldable pub is_managed : Text → Bool
is_managed text = leb (length text) max_config && starts_with text managed_header

abbrev pub inspect_entry : Entry → Option (Option Info)
inspect_entry missing = some none
inspect_entry wrong = none
inspect_entry (found i) = guard (is_managed i.content) (some i)

abbrev pub then_option : {A B : Type 0} → Option A → Option B → Option B
then_option none b = none
then_option (some _) b = b

-- `inspect_config()`
unfoldable pub inspect_config : World → Option (Option Info)
inspect_config w = then_option (node_optional w.parent) (
    then_option (node_optional w.directory)
      (then_option (pending_exists w) (inspect_entry w.config)))
