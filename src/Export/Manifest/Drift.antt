-- ===== src/Export/Manifest/Drift.antt =====
-- Which columns are reported as new.
use pg_snapshot.Base.{◌≡◌, refl, ◌∙◌, ap, inl, inr, not, ◌&&◌, List, [], ◌∷◌, some}
use pg_snapshot.Base.{arith, Bool-cases}
use pg_snapshot.Base.Bytes.{Bytes, ◌=?◌, =?_sound}
use pg_snapshot.Base.Sort.{IsSorted, sort-IsSorted}
use pg_snapshot.Base.Dict.{contains, contains-sort}
use pg_snapshot.Export.Manifest.{Manifest, manifest_keys, keys_not_in, columns_added}

contains-keys_not_in :
    (k : Bytes) (before ks : List Bytes)
    → contains k (keys_not_in before ks) ≡ (contains k ks && not (contains k before))
unfolding keys_not_in contains
contains-keys_not_in k before [] = refl
contains-keys_not_in k before (x ∷ ks) =
    let rest = contains-keys_not_in k before ks in
    elim (Bool-cases (x =? k)) [
      | inl same ↦
          let e = ap (λ y. contains y before) (=?_sound x k same) in
          elim (Bool-cases (contains x before)) [
            | inl has ↦ rw has (ground (arith, rest, has, e))
            | inr lacks ↦ rw lacks (ground (arith, rest, lacks, same, e))
          ]
      | inr other ↦ elim (Bool-cases (contains x before)) [
        | inl has ↦ rw (has, other) rest
        | inr lacks ↦ rw (lacks, other) rest
      ]
    ]

-- The drift report is sorted, and names exactly the columns that this manifest has and the previous
-- one does not.
pub columns_added-IsSorted :
    (m previous : Manifest)
    → IsSorted (columns_added m (some previous))
      × ((k : Bytes)
          → contains k (columns_added m (some previous)) ≡ (
              contains k (manifest_keys m.tables)
              && not (contains k (manifest_keys previous.tables))))
unfolding columns_added
columns_added-IsSorted m previous = (
  sort-IsSorted (keys_not_in (manifest_keys previous.tables) (manifest_keys m.tables)),
  λ k.
      contains-sort k (keys_not_in (manifest_keys previous.tables) (manifest_keys m.tables))
      ∙ contains-keys_not_in k (manifest_keys previous.tables) (manifest_keys m.tables),
)
