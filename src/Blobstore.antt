-- ===== src/Blobstore.antt =====
-- blobstore/store.go: where a snapshot's objects live, how snapshots are found, and which backend a
-- location names. `ListPrefixes` of a store is a parameter; opening the S3 and GCS clients is not
-- modelled. `at.UTC().Format(TimestampFormat)` is an argument.
pub mod Keys
pub mod Order
use pg_snapshot.Base.{is_nil, Bool, true, false, List, [], ◌∷◌, ◌++◌, if◌then◌else◌}
use pg_snapshot.Base.Bytes.{Bytes, codes, ◌=?◌, cut, trim_prefix, trim_byte}
use pg_snapshot.Base.Sort.{less}

pub record StoreConfig : Type 0 where
  pub uri : Bytes
  pub region : Bytes
  pub project : Bytes

-- What `Open` calls, or why it does not.
pub data Opened : Type 0 where
  gcs : Bytes → Bytes → Bytes → Opened
  s3 : Bytes → Bytes → Bytes → Opened
  no_scheme no_bucket no_project no_region bad_scheme : Bytes → Opened

unfoldable pub open_location : Bytes → StoreConfig → Bytes → Bytes → Opened
unfolding ◌=?◌
open_location scheme cfg bucket prefix =
    if is_nil bucket
    then no_bucket cfg.uri
    else if scheme =? codes "gs"
    then (if is_nil cfg.project then no_project cfg.uri else gcs bucket prefix cfg.project)
    else if scheme =? codes "s3"
    then (if is_nil cfg.region then no_region cfg.uri else s3 bucket prefix cfg.region)
    else bad_scheme scheme

unfoldable pub open_store : StoreConfig → Opened
unfolding open_location cut
open_store cfg =
    let (scheme, rest, found) = cut cfg.uri (codes "://") in
    let (bucket, prefix, _) = cut rest (codes "/") in
    if found then open_location scheme cfg bucket prefix else no_scheme cfg.uri

pub record Layout : Type 0 where
  pub database : Bytes
  pub timestamp : Bytes

unfoldable pub dir : Layout → Bytes
dir l = l.database ++ (codes "/" ++ l.timestamp)

unfoldable pub manifest_key : Layout → Bytes
unfolding dir
manifest_key l = dir l ++ codes "/manifest.json"

unfoldable pub schema_dump_key : Layout → Bytes
unfolding dir
schema_dump_key l = dir l ++ codes "/schema.dump"

unfoldable pub data_file : Layout → Bytes → Bytes → Bytes
unfolding dir
data_file l schema table =
    dir l ++ (codes "/data/" ++ (schema ++ (codes "." ++ (table ++ codes ".copy.gz"))))

-- The timestamp in one prefix.
unfoldable pub timestamp_in : Bytes → Bytes → Bytes
unfolding trim_prefix trim_byte
timestamp_in database p = trim_byte (trim_prefix p (database ++ codes "/")) b'/'

-- The loop of `ListSnapshots` over the listed prefixes.
unfoldable pub timestamps : Bytes → List Bytes → List Bytes
unfolding timestamp_in
timestamps database [] = []
timestamps database (p ∷ ps) =
    (if is_nil (timestamp_in database p) then [] else timestamp_in database p ∷ [])
    ++ timestamps database ps

-- The result of a listing, or of a search in it; `failed` is the store's own error.
pub data Found : Type 0 where
  snapshots : List Bytes → Found
  failed : Bytes → Found

pub data Latest : Type 0 where
  latest : Bytes → Latest
  no_snapshots : Bytes → Latest
  not_listed : Bytes → Latest

-- The loop of `LatestSnapshot`, over the list behind the first element.
unfoldable pub greatest : Bytes → List Bytes → Bytes
unfolding less
greatest best [] = best
greatest best (s ∷ rest) = greatest (if less best s then s else best) rest

module _ (list_prefixes : Bytes → Found) where
  unfoldable pub list_snapshots : Bytes → Found
  unfolding timestamps
  list_snapshots database = elim (list_prefixes (database ++ codes "/")) [
    | snapshots prefixes ↦ snapshots (timestamps database prefixes)
    | failed e ↦ failed e
  ]

  unfoldable pub latest_snapshot : Bytes → Latest
  unfolding list_snapshots greatest
  latest_snapshot database = elim (list_snapshots database) [
    | failed e ↦ not_listed e
    | snapshots l ↦ elim l [ [] ↦ no_snapshots database | s ∷ rest ↦ latest (greatest s rest) ]
  ]
