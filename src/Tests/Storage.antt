-- ===== src/Tests/Storage.antt =====
-- The theorems on stored snapshots at small inputs.
use pg_snapshot.Base.{none, some, not, ◌&&◌, ◌≡◌, refl, true, false, List, [], ◌∷◌, ◌++◌, arith}
use pg_snapshot.Base.Bytes.{Bytes, codes, has_prefix, trim_prefix, trim_byte, trim_left_byte}
use pg_snapshot.Base.Int.{pos}
use pg_snapshot.Base.Dict.{contains}
use pg_snapshot.Base.Sort.{IsSorted}
use pg_snapshot.Export.Manifest.{TableEntry, Manifest, manifest_keys, columns_added}
use pg_snapshot.Export.Manifest.Drift.{columns_added-IsSorted}
use pg_snapshot.Blobstore.{
  Layout, data_file, Found, snapshots, latest, latest_snapshot, list_snapshots, timestamps,
  timestamp_in,
}
use pg_snapshot.Blobstore.Keys.{data_file_injective, data_file_shared}
use pg_snapshot.Blobstore.Order.{IsGreatest, latest_snapshot-IsGreatest}

abbrev layout : Layout
layout = record { database = codes "app"; timestamp = codes "1" }

data_file_injective_example : (codes "s" ≡ codes "s") × (codes "a.b" ≡ codes "a.b")
data_file_injective_example =
    data_file_injective layout (codes "s") (codes "s") (codes "a.b") (codes "a.b")
      ((λ h. omega (arith, h)), tt) ((λ h. omega (arith, h)), tt) refl

data_file_shared_example :
    data_file layout (codes "s" ++ (codes "." ++ codes "a")) (codes "t")
    ≡ data_file layout (codes "s") (codes "a" ++ (codes "." ++ codes "t"))
data_file_shared_example = data_file_shared layout (codes "s") (codes "a") (codes "t")

abbrev two_prefixes : Bytes → Found
two_prefixes prefix = snapshots (codes "app/1/" ∷ codes "app/2/" ∷ [])

latest_snapshot-IsGreatest_example :
    (t : Bytes) × (latest_snapshot two_prefixes (codes "app") ≡ latest t)
    × IsGreatest t (codes "1" ∷ codes "2" ∷ [])
unfolding list_snapshots timestamps timestamp_in trim_prefix trim_byte trim_left_byte has_prefix
latest_snapshot-IsGreatest_example =
    latest_snapshot-IsGreatest two_prefixes (codes "app") (codes "1") (codes "2" ∷ []) refl

abbrev table_with : List Bytes → TableEntry
table_with columns = record {
  schema = codes "public";
  name = codes "users";
  skipped = false;
  excluded = false;
  filter = [];
  columns = columns;
  transforms = [];
  tail = none;
  row_count = pos 0;
  file = [];
  bytes = pos 0;
  sha256 = [];
}

abbrev manifest_with : List Bytes → Manifest
manifest_with columns = record {
  version = pos 1;
  source = record { server_major = pos 16; database = codes "app" };
  scrubbed = true;
  fk_mode = [];
  tables = table_with columns ∷ [];
  sequences = [];
}

columns_added-IsSorted_example :
    IsSorted (
      columns_added
        (manifest_with (codes "id" ∷ codes "email" ∷ []))
        (some (manifest_with (codes "id" ∷ []))))
    × ((k : Bytes)
        → contains k (
            columns_added
              (manifest_with (codes "id" ∷ codes "email" ∷ []))
              (some (manifest_with (codes "id" ∷ []))))
          ≡ (contains k (manifest_keys (manifest_with (codes "id" ∷ codes "email" ∷ [])).tables)
              && not (contains k (manifest_keys (manifest_with (codes "id" ∷ [])).tables))))
columns_added-IsSorted_example =
    columns_added-IsSorted (manifest_with (codes "id" ∷ codes "email" ∷ []))
      (manifest_with (codes "id" ∷ []))
