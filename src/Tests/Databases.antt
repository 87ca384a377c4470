-- ===== src/Tests/Databases.antt =====
-- The theorems of package restore on a small instance.
use mathlib.Core.List.{Perm}
use pg_snapshot.Base.{
  ℕ, zero, suc, ◌+◌, ◌≡◌, refl, ◌≢◌, ap, Bool, true, false, ◌||◌, List, [], ◌∷◌, none, some, arith,
  is_some,
}
use pg_snapshot.Base.{Bool-cases, inl, inr, length, min, if◌then◌else◌, ◌++◌, All, ◌<◌, ◌≤◌}
use pg_snapshot.Base.Int.{pos, pos_part}
use pg_snapshot.Base.Bytes.{Bytes, codes, ◌=?◌, has_prefix, =?_sound}
use pg_snapshot.Base.Dict.{contains, lookup}
use pg_snapshot.Base.Sort.{sort, insert, less}
use pg_snapshot.Tests.Instance.{
  Instance, instance_server, instance_server-IsLawful, perform, execute, remove,
}
use pg_snapshot.Restore.Server.{Entry, with_accepts}
use pg_snapshot.Restore.State.{
  DatabaseSet, idle, classify, newest_backup, expired_backups, backup_name, is_backup_of,
  is_staging,
}
use pg_snapshot.Restore.State.Backups.{newest_backup_greatest, expired_backups_split}
use pg_snapshot.Restore.Database.{
  Error, renaming, terminating, no_backup_name, stranded, inspect, inspect_rows, inspect_row, swap,
  swap_names, move_target,
}
use pg_snapshot.Restore.Database.{
  move_staging, put_back, reopen, unique_backup_name, pick_backup_name, free_name,
}
use pg_snapshot.Restore.Database.{
  set_allow_connections, terminate_connections, rename, drop, drop_all, recover, recover_from,
  suffixed, two_digits,
}
use pg_snapshot.Restore.Database.Inspect.{left_over, backup_of}
use pg_snapshot.Restore.Database.Names.{pick_backup_name-ok, pick_backup_name-err}
use pg_snapshot.Restore.Database.Ends.{oid_of}
use pg_snapshot.Restore.Database.Swap.{SwapEnd, swap_end, swap_keeps}
use pg_snapshot.Restore.Database.Recover.{recover_existing, recover_missing}
use pg_snapshot.Restore.Database.Crash.{recover_idle, recover_after_swap, swap_closed}

abbrev target : Bytes
target = codes "app"

abbrev staging : Bytes
staging = codes "restored_1"

abbrev stamp : Bytes
stamp = codes "s"

abbrev with_faults : List Bool → Instance
with_faults faults = record {
  databases =
      (target, record { oid = 1; accepts = true })
      ∷ (staging, record { oid = 2; accepts = true })
      ∷ [];
  faults = faults;
}

abbrev lost_target : Instance
lost_target = record {
  databases =
      (codes "app_backup_s", record { oid = 1; accepts = false })
      ∷ (staging, record { oid = 2; accepts = true })
      ∷ [];
  faults = [];
}

apart : target ≢ staging
apart h = cc

swap_end_example :
    SwapEnd target staging
      (instance_server.entry (with_faults []))
      (instance_server.entry (swap instance_server target staging stamp (with_faults [])).1)
      (swap instance_server target staging stamp (with_faults [])).0.0
      (swap instance_server target staging stamp (with_faults [])).0.1
unfolding lookup ◌=?◌
swap_end_example =
    swap_end instance_server instance_server-IsLawful target staging stamp (with_faults []) apart
      refl

swap_keeps_example :
    (m : Bytes) × (oid_of
        (instance_server.entry (swap instance_server target staging stamp (with_faults [])).1 m)
      ≡ some 1)
unfolding lookup ◌=?◌
swap_keeps_example =
    swap_keeps instance_server instance_server-IsLawful target staging stamp (with_faults []) apart
      refl target (record { oid = 1; accepts = true }) refl

recover_existing_example :
    instance_server.entry (recover instance_server target (with_faults [])).1 staging ≡ none
unfolding lookup recover inspect inspect_rows inspect_row is_backup_of is_staging has_prefix
    recover_from drop_all drop classify execute perform remove left_over ◌=?◌
recover_existing_example =
    recover_existing instance_server instance_server-IsLawful target (with_faults []) refl refl
      staging

recover_missing_example :
    (b : Bytes) × (backup_of target b ≡ true)
    × (is_some (instance_server.entry lost_target b) ≡ true)
    × ((n : Bytes)
        → is_some (instance_server.entry lost_target n) ≡ true
        → backup_of target n ≡ true
        → less b n ≡ false)
    × (instance_server.entry (recover instance_server target lost_target).1 target
        ≡ with_accepts true (instance_server.entry lost_target b))
    × ((n : Bytes)
        → n =? target ≡ false
        → instance_server.entry (recover instance_server target lost_target).1 n
          ≡ (if n =? b || left_over target n then none else instance_server.entry lost_target n))
unfolding lookup recover inspect inspect_rows inspect_row is_backup_of is_staging has_prefix
    recover_from drop_all drop classify execute perform remove left_over ◌=?◌ newest_backup sort
    insert rename set_allow_connections
recover_missing_example =
    recover_missing instance_server instance_server-IsLawful target lost_target refl refl

abbrev recovered_set : DatabaseSet
recovered_set = record { target = target; target_exists = true; backups = []; staging = [] }

recover_idle_example : classify recovered_set ≡ idle
unfolding lookup recover inspect inspect_rows inspect_row is_backup_of is_staging has_prefix
    recover_from drop_all drop classify execute perform remove left_over ◌=?◌ newest_backup sort
    insert rename set_allow_connections
recover_idle_example =
    recover_idle instance_server instance_server-IsLawful target lost_target refl recovered_set refl

-- The second rename fails, and so does putting the original back.
abbrev cut_off : Instance
cut_off = with_faults (false ∷ false ∷ false ∷ false ∷ true ∷ true ∷ [])

abbrev cut_off_error : Error
cut_off_error =
    stranded (codes "app_backup_s") target
      (renaming (codes "app_backup_s") target (codes "refused"))

no_older :
    (n : Bytes)
    → is_some (instance_server.entry cut_off n) ≡ true
    → backup_of target n ≡ true
    → false ≡ true
unfolding lookup backup_of is_backup_of has_prefix ◌=?◌
no_older n there like = elim (Bool-cases (target =? n)) [
  | inl e ↦ cc (ap (backup_of target) (=?_sound target n e), like)
  | inr e ↦ elim (Bool-cases (staging =? n)) [
    | inl f ↦ cc (ap (backup_of target) (=?_sound staging n f), like)
    | inr f ↦ ground (arith, there, e, f)
  ]
]

recover_after_swap_example :
    oid_of (
      instance_server.entry
        (recover instance_server target (swap instance_server target staging stamp cut_off).1).1
        target)
    ≡ some 1
unfolding swap swap_names move_target move_staging put_back reopen unique_backup_name
    pick_backup_name free_name backup_name contains terminate_connections lookup recover inspect
    inspect_rows inspect_row is_backup_of is_staging has_prefix recover_from drop_all drop classify
    execute perform remove left_over ◌=?◌ newest_backup sort insert rename set_allow_connections
recover_after_swap_example =
    recover_after_swap instance_server instance_server-IsLawful target staging stamp cut_off apart
      refl refl cut_off_error refl (λ b cause is n there like. absurd (cc (no_older n there like)))
      refl

-- The sessions cannot be terminated.
abbrev busy : Instance
busy = with_faults (false ∷ true ∷ [])

swap_closed_example :
    ((swap instance_server target staging stamp busy).0
      ≡ ([], some (terminating target (codes "refused"))))
    × (e : Entry) × (instance_server.entry (swap instance_server target staging stamp busy).1 target
        ≡ some e)
    × (e.accepts ≡ false)
unfolding swap swap_names move_target move_staging put_back reopen unique_backup_name
    pick_backup_name free_name backup_name contains terminate_connections lookup recover inspect
    inspect_rows inspect_row is_backup_of is_staging has_prefix recover_from drop_all drop classify
    execute perform remove left_over ◌=?◌ newest_backup sort insert rename set_allow_connections
swap_closed_example =
    swap_closed instance_server instance_server-IsLawful target staging stamp busy
      (terminating target (codes "refused")) refl refl

abbrev two_backups : DatabaseSet
two_backups = record {
  target = target;
  target_exists = false;
  backups = codes "app_backup_2" ∷ codes "app_backup_1" ∷ [];
  staging = [];
}

newest_backup_greatest_example :
    (contains (newest_backup two_backups) two_backups.backups ≡ true)
    × All (λ name. less (newest_backup two_backups) name ≡ false) two_backups.backups
newest_backup_greatest_example = newest_backup_greatest two_backups (λ h. cc (h))

expired_backups_split_example :
    (kept : List Bytes) × Perm (expired_backups two_backups (pos 1) ++ kept) two_backups.backups
    × (length kept ≡ min (pos_part (pos 1)) (length two_backups.backups))
    × All (λ old. All (λ name. less name old ≡ false) kept) (expired_backups two_backups (pos 1))
expired_backups_split_example = expired_backups_split two_backups (pos 1)

pick_backup_name-ok_example :
    (contains (codes "app_backup_1_01") two_backups.backups ≡ false)
    × (is_backup_of target (codes "app_backup_1_01") ≡ true)
unfolding pick_backup_name free_name backup_name contains ◌=?◌
pick_backup_name-ok_example =
    pick_backup_name-ok two_backups target (codes "1") (codes "app_backup_1_01") refl

abbrev all_suffixes : ℕ → ℕ → List Bytes
all_suffixes zero i = []
all_suffixes (suc rounds) i = suffixed (codes "app_backup_1") i ∷ all_suffixes rounds (i + 1)

abbrev crowded : DatabaseSet
crowded = record {
  target = target;
  target_exists = true;
  backups = codes "app_backup_1" ∷ all_suffixes 99 1;
  staging = [];
}

pick_backup_name-err_example :
    (contains (codes "app_backup_1") crowded.backups ≡ true)
    × ((j : ℕ)
        → 1 ≤ j
        → j < 100
        → contains (suffixed (codes "app_backup_1") j) crowded.backups ≡ true)
unfolding pick_backup_name free_name contains ◌=?◌ suffixed two_digits
pick_backup_name-err_example =
    pick_backup_name-err crowded (codes "app_backup_1") (no_backup_name target 100) refl
