-- ===== src/Ingestion/Peer.antt =====
-- `registered_peer` of src/monitoring/agents/ingestion.py.
pub mod Laws
use dragontools.Common.{
  ℕ, ◌*◌, ◌+◌, ◌^◌, ◌≤◌, Bool, true, false, not, ◌&&◌, ◌||◌, Option, none, some, List, [], ◌∷◌,
  ◌++◌, Text, codes, starts_with, drop, length, leb, ltb, ◌==◌, nat_eq, list_eq, if◌then◌else◌,
  is_digit,
}
use dragontools.Common.Json.{Json, integer, object, get, holds_text, is_text}
use dragontools.Common.Result.{Result, ok, refused, broken, ◌>>=◌, ◌>>◌, demand, or_refused}

-- `headers.get_all(name, [])`
abbrev pub Headers : Type 0
Headers = Text → List Text

-- What `os.open` of a registration gives: an exception, or a file, whether its type, owner, links and
-- mode are the wanted ones, and its bytes.
pub data Entry : Type 0 where
  unopenable : Entry
  opened : Bool → Text → Entry

-- The registry by the host's name, `json.loads`, and the time in units of 2 ** -22 seconds, of which
-- the clock readings of this era are multiples.
pub record Station : Type 0 where
  pub registry : Text → Entry
  pub loads : Text → Result Json
  pub now : ℕ

abbrev pub ticks : ℕ
ticks = 2 ^ 22

abbrev pub registry_limit : ℕ
registry_limit = 393216

abbrev pub is_hex : ℕ → Bool
is_hex c = is_digit c || (leb 97 c && leb c 102)

abbrev pub every : (ℕ → Bool) → Text → Bool
every p [] = true
every p (c ∷ s) = p c && every p s

abbrev pub single : List Text → Result Text
single (v ∷ []) = if leb (length v) 256 then ok v else refused
single _ = refused

-- `field(name)`
unfoldable pub header_field : Headers → Text → Result Text
header_field headers name = single (headers (codes "X-DragonTools-" ++ name))

-- `any(field(key) for key in …)`, which stops at the first that is not empty.
unfoldable pub any_field : Headers → List Text → Result Bool
any_field headers [] = ok false
any_field headers (name ∷ names) =
    let rest = any_field headers names in
    header_field headers name >>= λ v. if v == [] then rest else ok true

-- `dt-[0-9a-f]{32}`
unfoldable pub is_host : Text → Bool
is_host s = starts_with s (codes "dt-") && length s == 35 && every is_hex (drop 3 s)

-- `CN=dt-[0-9a-f]{32}`
unfoldable pub is_subject : Text → Bool
is_subject s = starts_with s (codes "CN=") && is_host (drop 3 s)

-- `[0-9a-f]{64}`
unfoldable pub is_fingerprint : Text → Bool
is_fingerprint s = length s == 64 && every is_hex s

abbrev pub identity_of : Text → Text
identity_of host = codes "dragontools://hosts/" ++ host

abbrev pub host_matches : Text → Option Json → Bool
host_matches host none = false
host_matches host (some j) = holds_text host (get (codes "host") j)

abbrev pub identity_matches : Text → Bool → Bool → Option Json → Bool
identity_matches host modern legacy none = legacy
identity_matches host modern legacy (some j) = is_text (identity_of host) j && modern

-- Whether it is the active one's.
unfoldable pub is_active : Text → Text → Bool → Bool → Json → Bool
is_active host fingerprint modern legacy value =
    holds_text fingerprint (get (codes "certificate_sha256") value)
    && identity_matches host modern legacy (get (codes "certificate_identity") value)

module _ (station : Station) where
  unfoldable pub read_entry : Entry → Result Json
  read_entry unopenable = broken
  read_entry (opened safe content) =
      if safe && leb (length content) registry_limit then station.loads content else refused

  -- `now < expires <= now + 86405` for an `int`
  unfoldable pub is_leased : Option Json → Bool
  is_leased (some (integer n)) =
      ltb station.now (n * ticks) && leb (n * ticks) (station.now + 86405 * ticks)
  is_leased _ = false

  -- Whether the certificate is the enrolled candidate's.
  unfoldable pub is_candidate : Text → Text → Bool → Json → Bool
  is_candidate host fingerprint modern value =
      holds_text fingerprint (get (codes "pending_certificate_sha256") value)
      && modern
      && is_leased (get (codes "pending_expires_at") value)
      && host_matches host (get (codes "pending_registration") value)

  -- From the registration on.
  unfoldable pub entitled : Text → Text → Bool → Bool → Json → Result Json
  entitled host fingerprint modern legacy value =
      if not (holds_text host (get (codes "host") value))
      then refused
      else if is_candidate host fingerprint modern value
      then or_refused (get (codes "pending_registration") value)
      else if is_active host fingerprint modern legacy value
      then ok value
      else refused

  -- `registered_peer(headers, registry)`
  unfoldable pub registered_peer : Headers → Result Json
  registered_peer headers = header_field headers (codes "Subject") >>= λ subject.
      header_field headers (codes "Fingerprint") >>= λ fingerprint.
      demand (is_subject subject && is_fingerprint fingerprint)
      >> (header_field headers (codes "URI") >>= λ uri.
          any_field headers (codes "Other-URI" ∷ codes "DNS" ∷ codes "IP" ∷ codes "Email" ∷ [])
          >>= λ extra. read_entry (station.registry (drop 3 subject)) >>= λ value.
              entitled (drop 3 subject) fingerprint
                (uri == identity_of (drop 3 subject) && not extra) (uri == [] && not extra) value)
