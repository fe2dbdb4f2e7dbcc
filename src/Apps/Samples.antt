-- ===== src/Apps/Samples.antt =====
-- A small renderer and station for runs of `app_publish` of src/monitoring/apps/station_mutate.py.
use dragontools.Common.{
  if◌then◌else◌, nat_eq, ℕ, ◌≤◌, ◌≡◌, ◌↔◌, refl, sym, subst, inl, inr, Bool, true, false, Option,
  none, some, [], ◌∷◌, Text, length, arith, starts_with, ◌==◌, list_eq,
}
use mathlib.Core.Option.{some-injective}
use dragontools.Apps.Renderer.{
  Renderer, Kind, logs, metrics, scrape, Documents, document, Manifest, IsSized, max_bytes,
  manifest_text,
}
use dragontools.Apps.Namespace.{Node, Slot, manifest, Directory, World}
use dragontools.Apps.Publish.{Host}
use dragontools.Apps.Atomic.{whole}
use dragontools.Apps.States.{Generation, Settled, Transit, Recoverable, moving}
use dragontools.Apps.Live.{Live}
use dragontools.Apps.Recheck.{IsBlocked}
use dragontools.Apps.Advance.{Current}

-- Two configurations of one application, which differ in their log rules.
pub data Version : Type 0 where
  first second : Version

abbrev pub version_beq : Version → Version → Bool
version_beq first first = true
version_beq second second = true
version_beq _ _ = false

pub version_beq_iff : (a b : Version) → (version_beq a b ≡ true) ↔ (a ≡ b)
version_beq_iff a b = ground arith

abbrev pub version_documents : Version → Documents
version_documents first = record { logs = 1 ∷ 2 ∷ []; metrics = []; scrape = 6 ∷ [] }
version_documents second = record { logs = 3 ∷ 4 ∷ []; metrics = []; scrape = 6 ∷ [] }

abbrev pub version_code : Version → ℕ
version_code first = 1
version_code second = 2

abbrev pub previous_code : Option Version → ℕ
previous_code none = 0
previous_code (some v) = version_code v

abbrev pub version_manifest : Version → Option Version → Manifest Version
version_manifest v previous = record {
  config = v;
  previous = previous;
  sha256 = version_documents v;
}

abbrev pub version_of : ℕ → Version
version_of n = if n == 1 then first else second

abbrev pub previous_of : ℕ → Option Version
previous_of n = if n == 0 then none else some (version_of n)

abbrev pub encode : Manifest Version → Text
encode m = version_code m.config ∷ previous_code m.previous ∷ []

abbrev pub decode : Text → Option (Manifest Version)
decode (v ∷ p ∷ []) = some (version_manifest (version_of v) (previous_of p))
decode _ = none

pub decode-encode_table :
    (v : Version) (previous : Option Version)
    → decode (encode (version_manifest v previous)) ≡ some (version_manifest v previous)
decode-encode_table first none = refl
decode-encode_table first (some first) = refl
decode-encode_table first (some second) = refl
decode-encode_table second none = refl
decode-encode_table second (some first) = refl
decode-encode_table second (some second) = refl

abbrev pub renderer : Renderer
renderer = record {
  Config = Version;
  config_eq = record { test = version_beq; test_iff = version_beq_iff };
  application = λ _. "shop";
  identity = λ _. "shop" ∷ "example.org" ∷ [];
  documents = λ v. some (version_documents v);
  is_empty = λ t. t == [];
  digest = λ t. t;
  encode = encode;
  decode = decode;
  decode-encode = λ v previous docs e.
      subst
        (λ d.
          decode (encode (record { config = v; previous = previous; sha256 = d }))
          ≡ some (record { config = v; previous = previous; sha256 = d }))
        (some-injective _ _ e) (decode-encode_table v previous);
  identity-application = λ _ _ _. refl;
}

documents_fit : (v : Version) (k : Kind) → length (document k (version_documents v)) ≤ max_bytes
documents_fit first logs = omega arith
documents_fit first metrics = omega arith
documents_fit first scrape = omega arith
documents_fit second logs = omega arith
documents_fit second metrics = omega arith
documents_fit second scrape = omega arith

pub sized : IsSized renderer
sized = record {
  documents_fit = λ v docs k e.
      subst (λ d. length (document k d) ≤ max_bytes) (some-injective _ _ e) (documents_fit v k);
  manifests_fit = λ v previous docs e. omega arith;
}

abbrev pub host : Host
host = record { keeps_modes = true; native_valid = λ _. true }

abbrev pub refusing_host : Host
refusing_host = record { keeps_modes = true; native_valid = λ _. false }

abbrev pub version_files : Documents → Text → Slot → Option Node
version_files docs m (Slot.document k) = some (whole (document k docs))
version_files docs m manifest = some (whole m)

abbrev pub staged_at : Slot → Text → Slot → Option Node
staged_at (Slot.document logs) t (Slot.document logs) = some (whole t)
staged_at manifest t manifest = some (whole t)
staged_at _ t _ = none

abbrev pub station : Directory → World
station d = record { root = some true; app = some d; creating = none; pending = λ _. none }

abbrev pub empty_station : World
empty_station = record { root = none; app = none; creating = none; pending = λ _. none }

-- The update to the second version was cut off in the write of its log rules.
abbrev pub moving_directory : Directory
moving_directory = record {
  safe = true;
  file = version_files (version_documents first) (2 ∷ 1 ∷ []);
  next = staged_at (Slot.document logs) (3 ∷ []);
  foreign = false;
}

abbrev pub second_directory : (Slot → Option Node) → Directory
second_directory next = record {
  safe = true;
  file = version_files (version_documents second) (2 ∷ 0 ∷ []);
  next = next;
  foreign = false;
}

abbrev pub generation : (v : Version) → Generation renderer second
generation v = record { config = v; docs = version_documents v; generated = refl; identical = refl }

pub moving_directory-Transit :
    Transit renderer (generation first) (generation second) moving_directory
unfolding starts_with
moving_directory-Transit = record {
  open_directory = (refl, refl);
  current = refl;
  at = elim [
    | logs ↦ inr (λ e. cc e, refl, inr (3 ∷ [], refl, refl))
    | metrics ↦ inl (refl, refl)
    | scrape ↦ inl (refl, refl)
  ];
  staged_manifest = inl refl;
}

unfoldable pub moving_station :
    Live (Recoverable renderer second (version_documents second)) (station moving_directory)
moving_station = record {
  rooted = refl;
  markers = λ k. inl refl;
  directory = moving_directory;
  present = refl;
  holds = moving (generation first) (generation second) moving_directory-Transit;
}

-- A retry was cut off before it renamed the manifest that names the second version twice.
pub blocked_settled :
    Settled renderer
      (generation second)
      (2 ∷ 2 ∷ [])
      (second_directory (staged_at manifest (2 ∷ 2 ∷ [])))
unfolding starts_with
blocked_settled = record {
  open_directory = (refl, refl);
  current = refl;
  at = elim [ logs ↦ (refl, refl) | metrics ↦ (refl, refl) | scrape ↦ (refl, refl) ];
  staged_manifest = inr (2 ∷ 2 ∷ [], refl, refl);
}

pub second_settled :
    Settled renderer (generation second) (2 ∷ 2 ∷ []) (second_directory (λ _. none))
second_settled = record {
  open_directory = (refl, refl);
  current = refl;
  at = elim [ logs ↦ (refl, refl) | metrics ↦ (refl, refl) | scrape ↦ (refl, refl) ];
  staged_manifest = inl refl;
}

pub moving_station-open :
    ¬ IsBlocked renderer second (version_documents second) (station moving_directory)
moving_station-open b = cc (
    subst (λ d. d.file manifest ≡ some (whole (2 ∷ 0 ∷ []))) (sym (some-injective _ _ b.present))
      b.current)

pub second_station-open :
    ¬ IsBlocked renderer second (version_documents second) (station (second_directory (λ _. none)))
second_station-open b = cc (
    subst (λ d. d.next manifest ≡ some (whole b.staged)) (sym (some-injective _ _ b.present))
      b.next)

pub moving_station-older :
    ¬ Live (Current renderer second (version_documents second)) (station moving_directory)
moving_station-older l =
    let (g, e, v) = l.holds in
    cc (
      subst (λ d. d.file manifest ≡ some (whole (manifest_text renderer g.config none g.docs)))
        (sym (some-injective _ _ l.present)) v.current)
