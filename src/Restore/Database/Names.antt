-- ===== src/Restore/Database/Names.antt =====
-- The backup name that a swap picks: `uniqueBackupName`.
use mathlib.Core.List.{append_assoc}
use pg_snapshot.Base.{ℕ, zero, suc, ◌+◌, ◌≤◌, ◌<◌, ◌≡◌, refl, sym, ◌∙◌, ap, true, false, List, ◌++◌}
use pg_snapshot.Base.{Option, none, some, arith, Bool-cases, inl, inr, length, ◌==◌}
use pg_snapshot.Base.Bytes.{Bytes, has_prefix, has_prefix_mono, has_prefix-append}
use pg_snapshot.Base.Dict.{contains}
use pg_snapshot.Restore.State.{DatabaseSet, is_backup_of, backup_name, backup_infix}
use pg_snapshot.Restore.Database.{Error, Result, ok, err, suffixed, free_name, pick_backup_name}
use pg_snapshot.Restore.Database.{two_digits}

-- A backup's name is recognised as one.
pub is_backup_of-backup_name :
    (target stamp : Bytes) → is_backup_of target (backup_name target stamp) ≡ true
unfolding is_backup_of backup_name
is_backup_of-backup_name target stamp =
    ap (λ s. has_prefix s (target ++ backup_infix)) (sym (append_assoc target backup_infix stamp))
    ∙ has_prefix-append (target ++ backup_infix) stamp

is_backup_of-suffixed :
    (target base : Bytes) (i : ℕ)
    → is_backup_of target base ≡ true
    → is_backup_of target (suffixed base i) ≡ true
unfolding is_backup_of two_digits suffixed
is_backup_of-suffixed target base i h = has_prefix_mono base _ (target ++ backup_infix) h

free_name-some :
    (rounds i : ℕ) (target base name : Bytes) (taken : List Bytes)
    → is_backup_of target base ≡ true
    → free_name rounds i base taken ≡ some name
    → (contains name taken ≡ false) × (is_backup_of target name ≡ true)
unfolding free_name two_digits
free_name-some zero i target base name taken h e = cc
free_name-some (suc rounds) i target base name taken h e =
    elim (Bool-cases (contains (suffixed base i) taken)) [
      | inl used ↦ free_name-some rounds (i + 1) target base name taken h (ground (arith, used))
      | inr free ↦ ground (
        arith,
        free,
        ap (λ s. contains s taken) (picked free),
        ap (is_backup_of target) (picked free),
        is_backup_of-suffixed target base i h,
      )
    ]
  where
    picked : contains (suffixed base i) taken ≡ false → suffixed base i ≡ name
    picked free = ground (arith, free)

free_name-none :
    (rounds i : ℕ) (base : Bytes) (taken : List Bytes)
    → free_name rounds i base taken ≡ none
    → (j : ℕ) → i ≤ j
    → j < i + rounds
    → contains (suffixed base j) taken ≡ true
unfolding free_name two_digits
free_name-none zero i base taken e j low high = absurd (omega arith)
free_name-none (suc rounds) i base taken e j low high =
    elim (Bool-cases (contains (suffixed base i) taken)) [
      | inl used ↦ elim (Bool-cases (i == j)) [
        | inl same ↦ ground (arith, used, ap (λ k. contains (suffixed base k) taken) (at same))
        | inr later ↦
            free_name-none rounds (i + 1) base taken (ground (arith, used)) j (ground arith)
              (omega arith)
      ]
      | inr free ↦ absurd (ground (arith, free))
    ]
  where
    at : (i == j) ≡ true → i ≡ j
    at same = ground arith

-- A name that is picked is no backup's name yet, and is recognised as a backup of the target.
pub pick_backup_name-ok :
    (set : DatabaseSet) (target stamp name : Bytes)
    → pick_backup_name set (backup_name target stamp) ≡ ok name
    → (contains name set.backups ≡ false) × (is_backup_of target name ≡ true)
unfolding pick_backup_name
pick_backup_name-ok set target stamp name e = elim (Bool-cases (contains base set.backups)) [
  | inl used ↦ from (free_name 99 1 base set.backups) refl (ground (arith, used))
  | inr free ↦ ground (
    arith,
    free,
    ap (λ s. contains s set.backups) (picked free),
    ap (is_backup_of target) (picked free),
    is_backup_of-backup_name target stamp,
  )
]
  where
    base : Bytes
    base = backup_name target stamp

    picked : contains base set.backups ≡ false → base ≡ name
    picked free = ground (arith, free)

    from :
        (o : Option Bytes)
        → free_name 99 1 base set.backups ≡ o
        → Path
            (Result Bytes)
            (elim o [
              | none ↦ err (Error.no_backup_name set.target (length set.backups))
              | some s ↦ ok s
            ])
            (ok name)
        → (contains name set.backups ≡ false) × (is_backup_of target name ≡ true)
    from none is e' = cc
    from (some s) is e' =
        free_name-some 99 1 target base name set.backups (is_backup_of-backup_name target stamp)
          (is ∙ cc)

-- No name is picked only when the plain name and all 99 suffixes are taken.
pub pick_backup_name-err :
    (set : DatabaseSet) (base : Bytes) (e : Error)
    → pick_backup_name set base ≡ err e
    → (contains base set.backups ≡ true)
      × ((j : ℕ) → 1 ≤ j → j < 100 → contains (suffixed base j) set.backups ≡ true)
unfolding pick_backup_name
pick_backup_name-err set base e h = elim (Bool-cases (contains base set.backups)) [
  | inl used ↦ (used, from (free_name 99 1 base set.backups) refl (ground (arith, used)))
  | inr free ↦ absurd (ground (arith, free))
]
  where
    from :
        (o : Option Bytes)
        → free_name 99 1 base set.backups ≡ o
        → Path
            (Result Bytes)
            (elim o [
              | none ↦ err (Error.no_backup_name set.target (length set.backups))
              | some s ↦ ok s
            ])
            (err e)
        → (j : ℕ) → 1 ≤ j
        → j < 100
        → contains (suffixed base j) set.backups ≡ true
    from none is e' j low high = free_name-none 99 1 base set.backups is j low (omega arith)
    from (some s) is e' j low high = absurd (cc (e'))
