-- ===== src/Restore/State/Backups.antt =====
-- Which backup a crash is recovered from, and which ones a restore drops.
use mathlib.Core.List.{Perm}
use pg_snapshot.Base.{
  ℕ, ◌-◌, ◌≡◌, refl, sym, ◌≢◌, inl, inr, min, leb→le, All-drop, true, false, some,
}
use pg_snapshot.Base.{List, [], ◌∷◌, ◌++◌, arith, length, take, drop, last?, All, leb, zero, suc}
use pg_snapshot.Base.{Bool-cases, length-drop, take-append-drop}
use pg_snapshot.Base.Int.{ℤ, pos_part}
use pg_snapshot.Base.Bytes.{Bytes, =?_refl}
use pg_snapshot.Base.Sort.{sort, less, IsSorted, sort-IsSorted, sort-Perm, length-sort}
use pg_snapshot.Base.Sort.{last?-IsSorted}
use pg_snapshot.Base.Dict.{contains, contains-sort, All-same}
use pg_snapshot.Restore.State.{DatabaseSet, newest_backup, expired_backups}

last?-some : (x : Bytes) (xs : List Bytes) → (m : Bytes) × (last? (x ∷ xs) ≡ some m)
last?-some x [] = (x, refl)
last?-some x (y ∷ xs) = last?-some y xs

contains-last? : (xs : List Bytes) (m : Bytes) → last? xs ≡ some m → contains m xs ≡ true
unfolding contains
contains-last? [] m e = cc
contains-last? (x ∷ []) m e = ground (arith, =?_refl m)
contains-last? (x ∷ y ∷ xs) m e = ground (arith, contains-last? (y ∷ xs) m e)

last?-sort : (xs : List Bytes) → xs ≢ [] → (m : Bytes) × (last? (sort xs) ≡ some m)
last?-sort xs h = from (sort xs) (length-sort xs)
  where
    from : (ys : List Bytes) → length ys ≡ length xs → (m : Bytes) × (last? ys ≡ some m)
    from [] e = absurd (h (grind arith))
    from (y ∷ ys) e = last?-some y ys

-- The backup that a crashed swap is recovered from is one of the backups, and none of them comes
-- after it.
pub newest_backup_greatest :
    (s : DatabaseSet)
    → s.backups ≢ []
    → (contains (newest_backup s) s.backups ≡ true)
      × All (λ name. less (newest_backup s) name ≡ false) s.backups
unfolding newest_backup
newest_backup_greatest s h =
    let (m, e) = last?-sort s.backups h in
    rw (e, newest_backup)
      (
        rw (contains-sort m s.backups) at (contains-last? (sort s.backups) m e),
        All-same _ (sort s.backups) s.backups (λ k. sym (contains-sort k s.backups))
            (last?-IsSorted (sort s.backups) m (sort-IsSorted s.backups) e),
      )

All-take-drop :
    (n : ℕ) (xs : List Bytes)
    → IsSorted xs
    → All (λ old. All (λ name. less name old ≡ false) (drop n xs)) (take n xs)
All-take-drop zero xs h = tt
All-take-drop (suc n) [] h = tt
All-take-drop (suc n) (x ∷ xs) (first, h) = (All-drop _ n xs first, All-take-drop n xs h)

-- A restore that keeps `keep` backups splits them in two: those it drops, and as many as `keep` asks
-- for (none if it is negative, all if there are no more). No dropped one comes after a kept one.
pub expired_backups_split :
    (s : DatabaseSet) (keep : ℤ)
    → (kept : List Bytes) × Perm (expired_backups s keep ++ kept) s.backups
      × (length kept ≡ min (pos_part keep) (length s.backups))
      × All (λ old. All (λ name. less name old ≡ false) kept) (expired_backups s keep)
unfolding expired_backups
expired_backups_split s keep = elim (Bool-cases (leb (length (sort s.backups)) (pos_part keep))) [
  | inl few ↦ rw few (
    sort s.backups,
    sort-Perm s.backups,
    omega (arith, length-sort s.backups, leb→le _ _ few),
    tt,
  )
  | inr many ↦ rw many (
    drop (length (sort s.backups) - pos_part keep) (sort s.backups),
    rw (take-append-drop (length (sort s.backups) - pos_part keep) (sort s.backups))
        (sort-Perm s.backups),
    ground (
      arith,
      length-sort s.backups,
      length-drop (length (sort s.backups) - pos_part keep) (sort s.backups),
    ),
    All-take-drop _ (sort s.backups) (sort-IsSorted s.backups),
  )
]
