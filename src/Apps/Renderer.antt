-- ===== src/Apps/Renderer.antt =====
-- What the publication of an application needs of the documents that are generated for it:
-- `app_identity`, `app_documents`, `app_manifest`, `app_json` and `json.loads` of
-- src/monitoring/apps/station_model.py.
use dragontools.Common.{ℕ, ◌*◌, ◌≤◌, ◌≡◌, Bool, Option, some, List, String, Text, Equality, length}

-- `APP_MAX_BYTES`
abbrev pub max_bytes : ℕ
max_bytes = 512 * 1024

-- `APP_FILES`
pub data Kind : Type 0 where
  logs metrics scrape : Kind

-- One text for each of `APP_FILES`: generated documents, or their digests.
pub record Documents : Type 0 where
  pub logs : Text
  pub metrics : Text
  pub scrape : Text

abbrev pub document : Kind → Documents → Text
document logs d = d.logs
document metrics d = d.metrics
document scrape d = d.scrape

abbrev pub map_documents : (Text → Text) → Documents → Documents
map_documents f d = record { logs = f d.logs; metrics = f d.metrics; scrape = f d.scrape }

-- A manifest that has the schema and the owner of this program.
pub record Manifest (Config : Type 0) : Type 0 where
  pub config : Config
  pub previous : Option Config
  pub sha256 : Documents

pub record Renderer : Type 1 where
  pub Config : Type 0
  pub config_eq : Equality Config
  -- `config['application']`, and `app_identity` as the list of its three values.
  pub application : Config → String
  pub identity : Config → List String
  -- `app_documents`, which raises on a configuration that it refuses, also for its identity.
  pub documents : Config → Option Documents
  -- Whether a generated document has no rule or job: `json.loads(data) in ({'groups': []}, [])`.
  pub is_empty : Text → Bool
  -- `hashlib.sha256(data).hexdigest()`
  pub digest : Text → Text
  -- `app_json` of a manifest, and `json.loads` with the tests on its keys.
  pub encode : Manifest Config → Text
  pub decode : Text → Option (Manifest Config)
  -- The JSON text of a generated manifest is read back as the value that it was made from.
  pub decode-encode :
      (c : Config) (previous : Option Config) (docs : Documents)
      → documents c ≡ some docs
      → let m : Manifest Config = record {
        config = c;
        previous = previous;
        sha256 = map_documents digest docs;
      } in
        decode (encode m) ≡ some m
  -- One identity belongs to one application.
  pub identity-application :
      (c d : Config) → identity c ≡ identity d → application c ≡ application d

module _ (R : Renderer) where
  -- `app_manifest`, for the documents of the configuration.
  abbrev pub manifest_for : R.Config → Option R.Config → Documents → Manifest R.Config
  manifest_for c previous docs = record {
    config = c;
    previous = previous;
    sha256 = map_documents R.digest docs;
  }

  -- `app_json(app_manifest(config, previous))`
  abbrev pub manifest_text : R.Config → Option R.Config → Documents → Text
  manifest_text c previous docs = R.encode (manifest_for c previous docs)

  -- No generated file is larger than `APP_MAX_BYTES`, the most that `app_read` accepts.
  pub record IsSized : Type 0 where
    pub documents_fit :
        (c : R.Config) (docs : Documents) (k : Kind)
        → R.documents c ≡ some docs
        → length (document k docs) ≤ max_bytes
    pub manifests_fit :
        (c : R.Config) (previous : Option R.Config) (docs : Documents)
        → R.documents c ≡ some docs
        → length (manifest_text c previous docs) ≤ max_bytes
