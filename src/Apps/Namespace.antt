-- ===== src/Apps/Namespace.antt =====
-- The files of one application on the station, as `app_node` and `app_read` of
-- src/monitoring/apps/station_model.py see them.
use dragontools.Common.{Bool, true, false, ◌&&◌, Option, Text, leb, length, if◌then◌else◌}
use dragontools.Apps.Renderer.{Kind, logs, metrics, scrape, max_bytes}

-- A file: whether type, links, owner and mode are those that `app_node` wants, and its bytes.
pub record Node : Type 0 where
  pub safe : Bool
  pub content : Text

-- `app_node` and `app_read` of an existing file: `false` stands for the `ValueError`.
unfoldable pub readable : Node → Bool
readable n = n.safe && leb (length n.content) max_bytes

-- The file names of a registration, apart from the staged `.next-` names.
pub data Slot : Type 0 where
  document : Kind → Slot
  manifest : Slot

abbrev pub same_kind : Kind → Kind → Bool
same_kind logs logs = true
same_kind metrics metrics = true
same_kind scrape scrape = true
same_kind _ _ = false

abbrev pub same_slot : Slot → Slot → Bool
same_slot (document j) (document k) = same_kind j k
same_slot manifest manifest = true
same_slot _ _ = false

-- A directory: whether `app_node(path, True)` accepts it, the published and the staged files, and
-- whether it has an entry of any other name.
pub record Directory : Type 0 where
  pub safe : Bool
  pub file : Slot → Option Node
  pub next : Slot → Option Node
  pub foreign : Bool

abbrev pub put : (Slot → Option Node) → Slot → Option Node → Slot → Option Node
put f s n t = if same_slot s t then n else f t

-- `APP_ROOT`, the application's directory, its staging directory `.apps-creating-NAME`, and the
-- markers `APP_PENDING`.
pub record World : Type 0 where
  pub root : Option Bool
  pub app : Option Directory
  pub creating : Option Directory
  pub pending : Kind → Option Node

abbrev pub put_pending : (Kind → Option Node) → Kind → Option Node → Kind → Option Node
put_pending f k n j = if same_kind k j then n else f j
