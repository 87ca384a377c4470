-- ===== src/Export/Manifest.antt =====
-- export/manifest.go, and the parts of export/run.go that fill in and order its entries. Sums of row
-- counts are int64.
pub mod Drift
use pg_snapshot.Base.{Bool, not, List, [], ◌∷◌, ◌++◌, Option, none, some, map}
use pg_snapshot.Base.{if◌then◌else◌}
use pg_snapshot.Base.Int.{ℤ, pos, ltb_ℤ, eq_ℤ, add64}
use pg_snapshot.Base.Bytes.{Bytes}
use pg_snapshot.Base.Sort.{sort, less}
use pg_snapshot.Base.Dict.{Dict, contains}
use pg_snapshot.Catalog.{qualify}
use pg_snapshot.Export.Sequences.{Sequence}
use pg_snapshot.Scrub.Projection.{Projection, copy_in_statement}

abbrev pub artifact_version : ℤ
artifact_version = pos 1

abbrev pub min_server_major : ℤ
min_server_major = pos 16

pub record Source : Type 0 where
  pub server_major : ℤ
  pub database : Bytes

pub record TailReport : Type 0 where
  pub requested_rows : ℤ
  pub total_pages : ℤ
  pub pages_read : ℤ
  pub report_column : Bytes
  pub min : Bytes
  pub max : Bytes

pub record TableEntry : Type 0 where
  pub schema : Bytes
  pub name : Bytes
  pub skipped : Bool
  pub excluded : Bool
  pub filter : Bytes
  pub columns : List Bytes
  pub transforms : Dict Bytes
  pub tail : Option TailReport
  pub row_count : ℤ
  pub file : Bytes
  pub bytes : ℤ
  pub sha256 : Bytes

-- The fields that the restore reads; the tool's name and the time are left out.
pub record Manifest : Type 0 where
  pub version : ℤ
  pub source : Source
  pub scrubbed : Bool
  pub fk_mode : Bytes
  pub tables : List TableEntry
  pub sequences : List Sequence

abbrev pub qualified : TableEntry → Bytes
unfolding qualify
qualified t = qualify t.schema t.name

-- `CopyIn` of an entry.
unfoldable pub entry_copy_in : (Bytes → Bytes) → TableEntry → Bytes
unfolding copy_in_statement
entry_copy_in quote t = copy_in_statement quote quote t.schema t.name t.columns

pub data Refusal : Type 0 where
  other_version : ℤ → Refusal
  not_scrubbed : Refusal
  older_target too_old : ℤ → Refusal

-- `Validate`; `none` is Go's nil.
unfoldable pub validate : Manifest → ℤ → Option Refusal
validate m target_major =
    if not (eq_ℤ m.version artifact_version)
    then some (other_version m.version)
    else if not m.scrubbed
    then some not_scrubbed
    else if ltb_ℤ target_major m.source.server_major
    then some (older_target m.source.server_major)
    else if ltb_ℤ target_major min_server_major
    then some (too_old target_major)
    else none

-- The keys "schema.table.column" of an entry.
unfoldable pub entry_keys : TableEntry → List Bytes
unfolding qualify
entry_keys t = map (λ c. qualify (qualify t.schema t.name) c) t.columns

unfoldable pub manifest_keys : List TableEntry → List Bytes
unfolding entry_keys
manifest_keys [] = []
manifest_keys (t ∷ ts) = entry_keys t ++ manifest_keys ts

-- The inner `if` of `ColumnsAdded`, over the keys of this manifest in order.
unfoldable pub keys_not_in : List Bytes → List Bytes → List Bytes
unfolding contains
keys_not_in before [] = []
keys_not_in before (k ∷ ks) = (if contains k before then [] else k ∷ []) ++ keys_not_in before ks

unfoldable pub columns_added : Manifest → Option Manifest → List Bytes
unfolding manifest_keys keys_not_in sort
columns_added m none = []
columns_added m (some previous) =
    sort (keys_not_in (manifest_keys previous.tables) (manifest_keys m.tables))

unfoldable pub total_rows_from : ℤ → List TableEntry → ℤ
unfolding add64
total_rows_from total [] = total
total_rows_from total (t ∷ ts) = total_rows_from (add64 total t.row_count) ts

unfoldable pub total_rows : Manifest → ℤ
unfolding total_rows_from
total_rows m = total_rows_from (pos 0) m.tables

-- The entry that `copyOne` starts with, and returns for a table with no rows to export.
unfoldable pub start_entry : Projection → TableEntry
start_entry p = record {
  schema = p.table.schema;
  name = p.table.name;
  skipped = p.skipped;
  excluded = p.excluded;
  filter = p.filter;
  columns = p.columns;
  transforms = p.transforms;
  tail = none;
  row_count = pos 0;
  file = [];
  bytes = pos 0;
  sha256 = [];
}

-- The loop of `previousManifest`: the newest timestamp before the current one.
unfoldable pub previous_from : Bytes → Bytes → List Bytes → Bytes
unfolding less
previous_from current best [] = best
previous_from current best (s ∷ rest) =
    previous_from current (if less s current then (if less best s then s else best) else best) rest
