-- ===== src/Commands.antt =====
-- cmd/pgsnap/config.go: the configuration that the commands read from the environment. `getenv` is
-- `os.Getenv`; reading a file and decoding YAML are parameters.
use pg_snapshot.Base.{Bool, not, ◌&&◌, List, [], ◌∷◌, Option, none, some, ◌⊎◌, inl, inr}
use pg_snapshot.Base.{is_nil, if◌then◌else◌}
use pg_snapshot.Base.Int.{ℤ}
use pg_snapshot.Pg.Toc.{atoi}
use pg_snapshot.Base.Bytes.{Bytes, codes, ◌=?◌, trim_space, to_lower}
use pg_snapshot.Base.Dict.{contains}
use pg_snapshot.Blobstore.{StoreConfig}
use pg_snapshot.Scrub.Config.{Config, config_version}

abbrev pub s3_bucket_url : Bytes
s3_bucket_url = codes "S3_BUCKET_URL"

abbrev pub s3_bucket_region : Bytes
s3_bucket_region = codes "S3_BUCKET_REGION"

abbrev pub gcs_bucket_url : Bytes
gcs_bucket_url = codes "GCS_BUCKET_URL"

abbrev pub gcs_bucket_project : Bytes
gcs_bucket_project = codes "GCS_BUCKET_PROJECT"

-- The errors of this file, with the names of variables that they interpolate.
pub data EnvError : Type 0 where
  required : List Bytes → EnvError
  not_a_number : Bytes → Bytes → EnvError
  both_set : Bytes → Bytes → EnvError
  required_alongside : Bytes → Bytes → EnvError
  one_required : Bytes → Bytes → EnvError
  unreadable : Bytes → EnvError
  unparsed : Bytes → EnvError

pub data Level : Type 0 where
  level_info level_debug level_warn level_error : Level

unfoldable pub or_default : Bytes → Bytes → Bytes
unfolding trim_space
or_default value fallback = if is_nil (trim_space value) then fallback else value

abbrev pub negatives : List Bytes
negatives = codes "0" ∷ codes "f" ∷ codes "false" ∷ codes "no" ∷ codes "off" ∷ []

module _ (getenv : Bytes → Bytes) where
  -- A variable without the spaces around its value.
  abbrev pub trimmed : Bytes → Bytes
  trimmed name = trim_space (getenv name)

  -- The loop of `requireAnyEnv`.
  unfoldable pub first_set : List Bytes → Option Bytes
  first_set [] = none
  first_set (name ∷ names) =
      let rest = first_set names in
      if not (is_nil (trimmed name)) then some (trimmed name) else rest

  unfoldable pub require_any_env : List Bytes → EnvError ⊎ Bytes
  unfolding first_set
  require_any_env names = elim (first_set names) [
    | some value ↦ inr value
    | none ↦ inl (required names)
  ]

  unfoldable pub bool_env : Bytes → Bool → Bool
  unfolding contains to_lower
  bool_env name fallback =
      if is_nil (to_lower (trimmed name))
      then fallback
      else not (contains (to_lower (trimmed name)) negatives)

  unfoldable pub int_env : Bytes → ℤ → EnvError ⊎ ℤ
  unfolding atoi
  int_env name fallback =
      if is_nil (trimmed name) then inr fallback else (elim (atoi (trimmed name)) [
        | none ↦ inl (not_a_number name (trimmed name))
        | some n ↦ inr n
      ])

  -- One case of the `switch`: a url whose locator is required.
  unfoldable pub with_locator : Bytes → Bytes → (Bytes → StoreConfig) → EnvError ⊎ StoreConfig
  with_locator url_name locator_name config =
      if is_nil (trimmed locator_name)
      then inl (required_alongside locator_name url_name)
      else inr (config (trimmed locator_name))

  unfoldable pub bucket_config : EnvError ⊎ StoreConfig
  unfolding with_locator
  bucket_config =
      if not (is_nil (trimmed s3_bucket_url)) && not (is_nil (trimmed gcs_bucket_url))
      then inl (both_set s3_bucket_url gcs_bucket_url)
      else if not (is_nil (trimmed s3_bucket_url))
      then with_locator s3_bucket_url s3_bucket_region
          (λ region. record { uri = trimmed s3_bucket_url; region = region; project = [] })
      else if not (is_nil (trimmed gcs_bucket_url))
      then with_locator gcs_bucket_url gcs_bucket_project
          (λ project. record { uri = trimmed gcs_bucket_url; region = []; project = project })
      else inl (one_required s3_bucket_url gcs_bucket_url)

  abbrev pub empty_config : Config
  empty_config = record { version = config_version; fk_mode = []; tables = [] }

  unfoldable pub load_scrub_config :
      (Bytes → Bytes ⊎ Bytes) → (Bytes → Bytes ⊎ Config) → EnvError ⊎ Config
  load_scrub_config read_file parse =
      if not (is_nil (trimmed (codes "SCRUB_CONFIG_FILE")))
      then (elim (read_file (trimmed (codes "SCRUB_CONFIG_FILE"))) [
        | inl e ↦ inl (unreadable e)
        | inr body ↦ parsed (parse body)
      ])
      else if not (is_nil (trimmed (codes "SCRUB_CONFIG")))
      then parsed (parse (getenv (codes "SCRUB_CONFIG")))
      else inr empty_config
    where
      parsed : Bytes ⊎ Config → EnvError ⊎ Config
      parsed (inl e) = inl (unparsed e)
      parsed (inr c) = inr c

  -- The level of `newLogger`.
  unfoldable pub log_level : Level
  unfolding to_lower ◌=?◌
  log_level =
      if to_lower (getenv (codes "LOG_LEVEL")) =? codes "debug"
      then level_debug
      else if to_lower (getenv (codes "LOG_LEVEL")) =? codes "warn"
      then level_warn
      else if to_lower (getenv (codes "LOG_LEVEL")) =? codes "error"
      then level_error
      else level_info
