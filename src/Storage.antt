-- ===== src/Storage.antt =====
-- internal/storage/file_client.go: the client of the file storage, over the MinIO client, whose state
-- and answers are a parameter. The client for tests stands for the real one. The content types and the
-- metrics are left out.
pub mod Kept
use bulk.Base.{ℕ, String, Bool, true, false, ◌||◌, not, Option, none, some, if◌then◌else◌, str_eq}
use bulk.World.{Error, Result, ok, err, outside}

-- A file that is opened: its content, and whether it breaks off while it is read.
pub record StoredFile : Type 0 where
  pub content : String
  pub breaks_off : Bool

-- What is used of the MinIO client; each call names the bucket first.
pub record Minio (S : Type 0) : Type 0 where
  pub connect : String → String → String → Bool → Option Error
  pub bucket_exists : String → S → Result Bool
  pub make_bucket : String → S → Option Error × S
  pub put_object : String → String → String → S → Result String × S
  pub presigned_get_object : String → String → ℕ → S → Result String
  pub get_object : String → String → S → Result StoredFile

-- `path.Clean` and `path.Join`, and the URLs of net/url by their path and the rest.
pub record ParsedUrl : Type 0 where
  pub path : String
  pub rest : String

pub record PathText : Type 0 where
  pub clean : String → String
  pub join : String → String → String → String
  pub parse_url : String → Result ParsedUrl
  pub url_text : ParsedUrl → String

-- `FileClient`: whether a client is there, the bucket, and the base of public URLs.
pub record FileClient : Type 0 where
  pub client : Bool
  pub bucket : String
  pub base_url : String
  pub use_object : Bool

abbrev pub not_configured : Error
not_configured = outside "storage client not configured"

abbrev configuration_missing : Error
configuration_missing =
    outside "storage configuration missing (STORAGE_ENDPOINT/ACCESS_KEY/SECRET_KEY/BUCKET)"

-- `client` is a pointer, `none` where it is nil.
abbrev usable : Option FileClient → Option FileClient
usable none = none
usable (some f) = if not f.use_object || not f.client then none else some f

module _ {S : Type 0} (m : Minio S) where
  -- The bucket is there, or is made.
  ensure_bucket : String → S → Option Error × S
  ensure_bucket bucket s = elim (m.bucket_exists bucket s) [
    | err e ↦ (some e, s)
    | ok exists ↦ if exists then (none, s) else m.make_bucket bucket s
  ]

  -- `NewFileClientFromEnv`
  pub new_file_client_from_env : (String → String) → S → Result FileClient × S
  unfolding ensure_bucket
  new_file_client_from_env getenv s =
      let endpoint = getenv "STORAGE_ENDPOINT" in
      let access = getenv "STORAGE_ACCESS_KEY" in
      let secret = getenv "STORAGE_SECRET_KEY" in
      let bucket = getenv "STORAGE_BUCKET" in
      let use_ssl = str_eq (getenv "STORAGE_USE_SSL") "true" in
      if str_eq endpoint "" || str_eq access "" || str_eq secret "" || str_eq bucket ""
      then (err configuration_missing, s)
      else elim (m.connect endpoint access secret use_ssl) [
        | some e ↦ (err e, s)
        | none ↦
            let (fault, s') = ensure_bucket bucket s in
            (elim fault [ some e ↦ err e | none ↦ ok (made bucket) ], s')
      ]
    where
      made : String → FileClient
      made bucket = record {
        client = true;
        bucket = bucket;
        base_url = getenv "STORAGE_BASE_URL";
        use_object = true;
      }

  module _ (p : PathText) where
    -- `Save`: the id is the key that MinIO gives back.
    pub save : Option FileClient → String → String → S → Result String × S
    save f name content s = elim (usable f) [
      | none ↦ (err not_configured, s)
      | some c ↦ m.put_object c.bucket (p.clean name) content s
    ]

    -- `Presign`
    pub presign : Option FileClient → String → ℕ → S → Result String
    presign f name expiry s = elim (usable f) [
      | none ↦ err not_configured
      | some c ↦ m.presigned_get_object c.bucket (p.clean name) expiry s
    ]

    -- `Get`
    pub get_file : Option FileClient → String → S → Result StoredFile
    get_file f name s = elim (usable f) [
      | none ↦ err not_configured
      | some c ↦ m.get_object c.bucket (p.clean name) s
    ]

-- `PublicURL`
pub public_url : PathText → Option FileClient → String → Result String
public_url p none name = err not_configured
public_url p (some f) name =
    if str_eq f.base_url ""
    then err (outside "baseURL not configured")
    else elim (p.parse_url f.base_url) [
      | err e ↦ err e
      | ok u ↦ ok (p.url_text (record u { path = p.join u.path f.bucket (p.clean name) }))
    ]
