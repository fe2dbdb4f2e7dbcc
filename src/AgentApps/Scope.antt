-- ===== src/AgentApps/Scope.antt =====
-- `metrics_url` and `scope` of src/monitoring/agents/apps.py. Every exception ends the program in the
-- same way, and is `broken`.
use mathlib.Core.List.{reverse}
use dragontools.Common.Json.Read.{present, text_of, list_of}
use dragontools.Common.Keys.{contains_key, same_set}
use dragontools.Common.{
  ℕ, ◌+◌, ◌-◌, ◌*◌, ◌/◌, ◌%◌, ◌^◌, Bool, true, false, not, ◌&&◌, ◌||◌, Option, none, some, List, [],
  ◌∷◌, Text, codes, length, take, ltb, leb, starts_with, occurs, ◌==◌, nat_eq, list_eq,
  if◌then◌else◌,
}
use dragontools.Common.Identifiers.{is_alphanumeric, all_codes, is_identifier}
use dragontools.Common.Json.{Json, null, boolean, string, object, keys, lookup, text_before}
use dragontools.Common.Result.{Result, ok, broken, ◌>>=◌, ◌>>◌, claim}

pub record Service : Type 0 where
  pub name : Text
  pub systemd : Text
  pub logs : Bool
  pub metrics_url : Option Text

pub record App : Type 0 where
  pub name : Text
  pub environment : Text
  pub services : List Service

-- What `urlsplit` gives; reading the port may raise `ValueError`, which is `none`.
pub record Url : Type 0 where
  pub scheme : Text
  pub netloc : Text
  pub query : Text
  pub fragment : Text
  pub hostname : Option Text
  pub username : Option Text
  pub password : Option Text
  pub port : Option (Option ℕ)

-- An address, as its 32 or 128 bits.
pub data Address : Type 0 where
  v4 v6 : ℕ → Address

-- What the program calls of Python's library; `none` is an exception.
pub record Library : Type 0 where
  pub urlsplit : Text → Option Url
  pub ip_address : Text → Option Address
  pub loads : Text → Option Json

abbrev lower : Text → Text
lower [] = []
lower (c ∷ s) = (if leb 65 c && leb c 90 then c + 32 else c) ∷ lower s

abbrev hex_value : ℕ → Option ℕ
hex_value c =
    if leb 48 c && leb c 57
    then some (c - 48)
    else if leb 65 c && leb c 70
    then some (c - 55)
    else if leb 97 c && leb c 102
    then some (c - 87)
    else none

abbrev is_escape : Option ℕ → Option ℕ → Bool
is_escape (some a) (some b) = leb 32 (a * 16 + b) && not (a * 16 + b == 127)
is_escape _ _ = false

abbrev begins_escape : Text → Bool
begins_escape (c ∷ d ∷ s) = is_escape (hex_value c) (hex_value d)
begins_escape _ = false

-- Each `%` is followed by two digits that do not stand for a control character.
unfoldable pub escapes_valid : Text → Bool
escapes_valid [] = true
escapes_valid (c ∷ s) = (not (c == 37) || begins_escape s) && escapes_valid s

-- The characters that no address contains: `\`, `<`, `>`, `"`, braces, `|`, `^`, the backquote, `?` and `#`.
abbrev is_url_code : ℕ → Bool
is_url_code c = ltb 32 c && ltb c 127 && not (contains_key c (codes "\\<>\"{}|^`?#"))

-- Whether the first bits of an address are those of a block.
abbrev in_block : ℕ → ℕ → ℕ → Bool
in_block size prefix n = n / 2 ^ size == prefix

-- The blocks of an address, once an IPv6 address that stands for an IPv4 one is that one.
abbrev is_private_v4 : ℕ → Bool
is_private_v4 n =
    in_block 24 127 n
    || in_block 24 10 n
    || in_block 20 (172 * 16 + 1) n
    || in_block 16 (192 * 256 + 168) n
    || in_block 16 (169 * 256 + 254) n

unfoldable pub is_private : Address → Bool
is_private (v4 n) = is_private_v4 n
is_private (v6 n) =
    if n / 2 ^ 32 == 65535
    then is_private_v4 (n % 2 ^ 32)
    else n == 1 || in_block 121 126 n || in_block 118 1018 n

abbrev is_empty : Option Text → Bool
is_empty none = true
is_empty (some t) = t == []

abbrev is_none : Option Text → Bool
is_none none = true
is_none (some t) = false

-- `parsed.port != 0`
abbrev port_valid : Option (Option ℕ) → Bool
port_valid none = false
port_valid (some none) = true
port_valid (some (some p)) = not (p == 0)

abbrev ends_with : Text → Text → Bool
ends_with t suffix = starts_with (reverse t) (reverse suffix)

-- The text without the suffix, which it must have.
unfoldable pub strip_suffix : Text → Text → Option Text
strip_suffix suffix t =
    if ends_with t suffix then some (take (length t - length suffix) t) else none

abbrev is_unit_code : ℕ → Bool
is_unit_code c = is_alphanumeric c || contains_key c (codes "_.@:-")

abbrev is_unit_stem : Option Text → Bool
is_unit_stem (some (c ∷ s)) = is_alphanumeric c && all_codes is_unit_code s
is_unit_stem _ = false

-- `[A-Za-z0-9][A-Za-z0-9_.@:-]*[.]service`, of at most 253 characters
unfoldable pub is_unit : Text → Bool
is_unit t = leb (length t) 253 && is_unit_stem (strip_suffix (codes ".service") t)

-- `sort(key=…)`, which keeps the order of equal keys.
unfoldable pub insert_by : {A : Type 0} → (A → Text) → A → List A → List A
insert_by key x [] = x ∷ []
insert_by key x (y ∷ ys) =
    let rest = insert_by key x ys in if text_before (key y) (key x) then y ∷ rest else x ∷ y ∷ ys

unfoldable pub sort_by : {A : Type 0} → (A → Text) → List A → List A
sort_by key [] = []
sort_by key (x ∷ xs) = insert_by key x (sort_by key xs)

module _ (library : Library) where
  unfoldable pub host_valid : Option Text → Result (Unit {0})
  host_valid none = broken
  host_valid (some name) =
      if lower name == codes "localhost"
      then ok tt
      else present (library.ip_address name) >>= λ address. claim (is_private address)

  -- `metrics_url(value)`
  unfoldable pub check_url : Text → Result (Unit {0})
  check_url value =
      claim (ltb 0 (length value) && leb (length value) 2048 && all_codes is_url_code value)
      >> (claim (escapes_valid value)
          >> (present (library.urlsplit value) >>= λ parsed.
              claim (
                (lower parsed.scheme == codes "http" || lower parsed.scheme == codes "https")
                && not (parsed.netloc == [])
                && not (is_empty parsed.hostname)
                && is_none parsed.username
                && is_none parsed.password
                && parsed.query == []
                && parsed.fragment == []
                && not (occurs (codes "%") parsed.netloc)
                && not (ends_with parsed.netloc (codes ":"))
                && port_valid parsed.port)
              >> host_valid parsed.hostname))

  abbrev url_of : Option Json → Result (Option Text)
  url_of (some null) = ok none
  url_of (some (string t)) = check_url t >> ok (some t)
  url_of _ = broken

  abbrev logs_of : Option Json → Result Bool
  logs_of (some (boolean b)) = ok b
  logs_of _ = broken

  unfoldable pub service_of : Json → Result Service
  service_of (object fs) =
      claim (
        same_set (keys fs)
          (codes "name" ∷ codes "systemd" ∷ codes "logs" ∷ codes "metrics_url" ∷ []))
      >> (text_of (lookup (codes "name") fs) >>= λ name.
          text_of (lookup (codes "systemd") fs) >>= λ systemd.
          logs_of (lookup (codes "logs") fs) >>= λ logs.
          url_of (lookup (codes "metrics_url") fs) >>= λ url.
          claim (is_identifier name && is_unit systemd)
          >> ok (record { name = name; systemd = systemd; logs = logs; metrics_url = url }))
  service_of _ = broken

  unfoldable pub services_from : List Text → List Text → List Json → Result (List Service)
  services_from names units [] = ok []
  services_from names units (j ∷ js) = service_of j >>= λ (s : Service).
      claim (not (contains_key s.name names) && not (contains_key s.systemd units))
      >> (services_from (s.name ∷ names) (s.systemd ∷ units) js >>= λ rest. ok (s ∷ rest))

  -- `scope(value)`
  unfoldable pub scope : Json → Result App
  scope (object fs) =
      claim (same_set (keys fs) (codes "name" ∷ codes "environment" ∷ codes "services" ∷ []))
      >> (text_of (lookup (codes "name") fs) >>= λ name.
          text_of (lookup (codes "environment") fs) >>= λ environment.
          claim (is_identifier name && is_identifier environment)
          >> (list_of (lookup (codes "services") fs) >>= λ listed.
              claim (leb (length listed) 64)
              >> (services_from [] [] listed >>= λ services. ok (record {
                name = name;
                environment = environment;
                services = sort_by (λ (s : Service). s.name) services;
              }))))
  scope _ = broken
