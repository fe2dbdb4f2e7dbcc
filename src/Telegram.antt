-- ===== src/Telegram.antt =====
-- `reconcile` of src/monitoring/telegram_template.py: the template of the notifications, write by write.
pub mod Laws
mod Tests
use dragontools.Common.{
  ℕ, Bool, true, false, not, ◌&&◌, Option, none, some, List, [], ◌∷◌, Text, codes, starts_with,
  length, leb, ◌==◌, nat_eq, list_eq, if◌then◌else◌, ◌++◌,
}
use dragontools.Runs.{modify, Program, pure, raise, require, ◌>>=◌, ◌>>◌}
use dragontools.Scrape.Files.{
  Info, Entry, missing, wrong, found, directory_mode, config_mode, private_mode,
}

-- The two parents, the directory and the file of the template, the marker, and the template that the
-- running Alertmanager has read. A link counts as `wrong`.
pub record World : Type 0 where
  pub parent : Entry
  pub base : Entry
  pub templates : Entry
  pub template : Entry
  pub pending : Entry
  pub running : Option Text

abbrev pub marker : Text
marker = codes "{{/* Managed by DragonTools: Telegram presentation v1. No safeHtml/safeUrl. */}}\n"

abbrev pub limit : ℕ
limit = 32768

abbrev pub is_short : Text → Bool
is_short t = leb (length t) limit

-- A directory of root with the mode 0o755.
abbrev pub is_directory : Entry → Bool
is_directory (found i) = i.owned && i.mode == directory_mode
is_directory _ = false

module _ (made_mode : ℕ) (install : Bool) (expected : Text) where
  -- The directory of the template: `mkdir`, whose mode the umask reduces, and `chmod`.
  unfoldable pub ensure_templates : Entry → Program World (Unit {0})
  ensure_templates missing w =
      (require install
          >> (modify (λ v. record v {
            templates = found (record { owned = true; mode = made_mode; content = [] });
          })
              >> modify (λ v. record v {
                templates = found (record { owned = true; mode = directory_mode; content = [] });
              })))
        w
  ensure_templates wrong w = raise w
  ensure_templates (found i) w = require (is_directory (found i)) w

  unfoldable pub mark : Entry → Program World (Unit {0})
  mark missing w =
      modify
        (λ v. record v {
          pending = found (record { owned = true; mode = private_mode; content = [] });
        })
        w
  mark wrong w = raise w
  mark (found i) w = require i.owned w

  -- From the staging of the new template on.
  unfoldable pub publish : Program World Bool
  publish w =
      (require install
          >> (mark w.pending
              >> (modify (λ v. record v {
                template = found (record { owned = true; mode = config_mode; content = expected });
              })
                  >> pure true)))
        w

  -- The template in place.
  unfoldable pub replace : Entry → Program World Bool
  replace missing w = publish w
  replace wrong w = raise w
  replace (found i) w =
      (require
            (i.owned && is_short i.content && i.mode == config_mode && starts_with i.content marker)
          >> (λ v. if i.content == expected then pure false v else publish v))
        w

  unfoldable pub with_parents : Program World Bool
  with_parents w =
      (require (is_directory w.parent && is_directory w.base)
          >> (ensure_templates w.templates >> (λ v. replace v.template v)))
        w

  -- `reconcile(expected, install)`
  unfoldable pub reconcile : Program World Bool
  reconcile w = (require (starts_with expected marker && is_short expected) >> with_parents) w
