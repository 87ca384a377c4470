-- ===== src/Scrub/Config.antt =====
-- scrub/config.go: a scrub configuration and its validation against itself. Decoding the YAML, which
-- the library gopkg.in/yaml.v3 does, is not modelled.
pub mod Qualified
pub mod Valid
pub mod Validate
use pg_snapshot.Base.{
  ℕ, Bool, true, false, not, ◌&&◌, ◌||◌, List, [], ◌∷◌, ◌++◌, Option, none, some,
}
use pg_snapshot.Base.{if◌then◌else◌, length, ltb}
use pg_snapshot.Base.Int.{ℤ, pos, ltb_ℤ, eq_ℤ}
use pg_snapshot.Base.Bytes.{Bytes, codes, ◌=?◌, split, trim_space}
use pg_snapshot.Base.Dict.{Dict, lookup, sorted_keys}
use pg_snapshot.Catalog.{qualify}

abbrev pub config_version : ℤ
config_version = pos 1

abbrev pub table_mode_full : Bytes
table_mode_full = []

abbrev pub table_mode_skip : Bytes
table_mode_skip = codes "skip"

abbrev pub table_mode_skip_data : Bytes
table_mode_skip_data = codes "skip-data"

abbrev pub fk_mode_validate : Bytes
fk_mode_validate = []

abbrev pub fk_mode_not_valid : Bytes
fk_mode_not_valid = codes "not_valid"

pub record TableConfig : Type 0 where
  pub mode : Bytes
  pub filter : Bytes
  pub tail_rows : Option ℤ
  pub tail_report_column : Bytes
  pub columns : Dict Bytes

pub record Config : Type 0 where
  pub version : ℤ
  pub fk_mode : Bytes
  pub tables : Dict TableConfig

-- What a missing key of `Tables` reads as.
abbrev pub no_config : TableConfig
no_config = record {
  mode = [];
  filter = [];
  tail_rows = none;
  tail_report_column = [];
  columns = [];
}

unfoldable pub skips_data : Bytes → Bool
unfolding ◌=?◌
skips_data m = m =? table_mode_skip || m =? table_mode_skip_data

-- The problems that `Validate` reports, with what their messages interpolate.
pub data ConfigError : Type 0 where
  unsupported_version : ℤ → ConfigError
  invalid_fk_mode not_qualified : Bytes → ConfigError
  invalid_mode where_without_rows columns_without_rows : Bytes → Bytes → ConfigError
  tail_without_rows : Bytes → Bytes → ConfigError
  tail_too_small : Bytes → ℤ → ConfigError
  tail_and_where report_without_tail : Bytes → ConfigError
  empty_transform : Bytes → Bytes → ConfigError

-- `if test { errs = append(errs, e) }`
abbrev pub report : Bool → ConfigError → List ConfigError
report true e = e ∷ []
report false e = []

abbrev pub is_empty {ℓ} : {A : Type ℓ} → List A → Bool
is_empty [] = true
is_empty (x ∷ xs) = false

-- The parts of a name, or nothing where Go returns an error.
abbrev pub two_parts : List Bytes → Option (Bytes × Bytes)
two_parts [] = none
two_parts (s ∷ []) = none
two_parts (s ∷ t ∷ []) = if is_empty s || is_empty t then none else some (s, t)
two_parts (s ∷ t ∷ u ∷ parts) = none

unfoldable pub split_qualified : Bytes → Option (Bytes × Bytes)
unfolding split
split_qualified name = two_parts (split name b'.')

abbrev pub is_none {ℓ} : {A : Type ℓ} → Option A → Bool
is_none none = true
is_none (some a) = false

unfoldable pub valid_mode : Bytes → Bool
unfolding ◌=?◌
valid_mode m = m =? table_mode_full || m =? table_mode_skip || m =? table_mode_skip_data

unfoldable pub valid_fk_mode : Bytes → Bool
unfolding ◌=?◌
valid_fk_mode m = m =? fk_mode_validate || m =? fk_mode_not_valid

-- The block for the two skip modes.
unfoldable pub skip_errors : Bytes → TableConfig → List ConfigError
unfolding skips_data
skip_errors name tc =
    if skips_data tc.mode
    then report (not (is_empty tc.filter)) (where_without_rows name tc.mode)
      ++ (report (not (is_empty tc.columns)) (columns_without_rows name tc.mode)
          ++ report (not (is_none tc.tail_rows)) (tail_without_rows name tc.mode))
    else []

-- The block for `tail_rows`.
unfoldable pub tail_errors : Bytes → TableConfig → Option ℤ → List ConfigError
tail_errors name tc none = report (not (is_empty tc.tail_report_column)) (report_without_tail name)
tail_errors name tc (some n) =
    report (ltb_ℤ n (pos 1)) (tail_too_small name n)
    ++ report (not (is_empty tc.filter)) (tail_and_where name)

unfoldable pub blank : Option Bytes → Bool
unfolding trim_space
blank none = true
blank (some t) = is_empty (trim_space t)

-- The loop over the column rules, in the order of the names.
unfoldable pub transform_errors : Bytes → Dict Bytes → List Bytes → List ConfigError
unfolding blank lookup
transform_errors name rules [] = []
transform_errors name rules (col ∷ cols) =
    report (blank (lookup col rules)) (empty_transform name col) ++ transform_errors name rules cols

unfoldable pub table_errors : Bytes → TableConfig → List ConfigError
unfolding split_qualified valid_mode skip_errors tail_errors transform_errors sorted_keys
table_errors name tc =
    report (is_none (split_qualified name)) (not_qualified name)
    ++ (report (not (valid_mode tc.mode)) (invalid_mode name tc.mode)
        ++ (skip_errors name tc
            ++ (tail_errors name tc tc.tail_rows
                ++ transform_errors name tc.columns (sorted_keys tc.columns))))

unfoldable pub config_at : Dict TableConfig → Bytes → TableConfig
unfolding lookup
config_at tables name = elim (lookup name tables) [ none ↦ no_config | some tc ↦ tc ]

unfoldable pub all_table_errors : Dict TableConfig → List Bytes → List ConfigError
unfolding table_errors config_at
all_table_errors tables [] = []
all_table_errors tables (name ∷ names) =
    table_errors name (config_at tables name) ++ all_table_errors tables names

-- `TableNames`
unfoldable pub table_names : Config → List Bytes
unfolding sorted_keys
table_names c = sorted_keys c.tables

-- `Validate`; Go returns nil where this list is empty.
unfoldable pub validate : Config → List ConfigError
unfolding valid_fk_mode all_table_errors table_names
validate c =
    report (not (eq_ℤ c.version config_version)) (unsupported_version c.version)
    ++ (report (not (valid_fk_mode c.fk_mode)) (invalid_fk_mode c.fk_mode)
        ++ all_table_errors c.tables (table_names c))

unfoldable pub table_config_for : Config → Bytes → Bytes → Option TableConfig
unfolding lookup qualify
table_config_for c schema name = lookup (qualify schema name) c.tables
