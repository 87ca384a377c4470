-- ===== src/Restore/Database.antt =====
-- restore/database.go: the operations of `Admin` over a server. A method is a function from the
-- server's catalog to a result and the catalog after it; logging is left out.
pub mod Calls
pub mod Inspect
pub mod Names
pub mod Ends
pub mod Crash
pub mod Swap
pub mod Recover
use pg_snapshot.Base.{ℕ, zero, suc, ◌+◌, ◌/◌, ◌%◌, Bool, true, false, List, [], ◌∷◌, ◌++◌, not}
use pg_snapshot.Base.{Option, none, some, if◌then◌else◌, length}
use pg_snapshot.Base.Bytes.{Bytes, codes, ◌=?◌}
use pg_snapshot.Base.Dict.{contains}
use pg_snapshot.Restore.State.{
  DatabaseSet, State, idle, orphaned_staging, crashed_mid_swap, missing,
}
use pg_snapshot.Restore.State.{is_backup_of, is_staging, classify, newest_backup, backup_name}
use pg_snapshot.Restore.Server.{Server, Statement, create_database, drop_database}
use pg_snapshot.Restore.Server.{allow_connections, terminate_backends, rename_database}
use pg_snapshot.Restore.Server.{Answer, done, failed, Listing, names, unlisted}

-- The errors of this file, with what their messages interpolate.
pub data Error : Type 0 where
  listing : Bytes → Error
  creating dropping setting_connections terminating : Bytes → Bytes → Error
  renaming : Bytes → Bytes → Bytes → Error
  no_backup_name : Bytes → ℕ → Error
  stranded : Bytes → Bytes → Error → Error
  no_backup : DatabaseSet → Error

pub data Result {ℓ} (A : Type ℓ) : Type ℓ where
  ok : A → Result A
  err : Error → Result A

abbrev pub M : Type 0 → Type 0 → Type 0
M C A = C → Result A × C

-- The two continuations of `if err != nil`.
abbrev pub settle : {A B C : Type 0} → Result A × C → (Error → M C B) → (A → M C B) → Result B × C
settle (ok a, c) f g = g a c
settle (err e, c) f g = f e c

infixl 5 ◌>>=◌ ◌>>◌
abbrev pub ◌>>=◌ : {A B C : Type 0} → M C A → (A → M C B) → M C B
◌>>=◌ m g c = settle (m c) (λ e c'. (err e, c')) g

abbrev pub ◌>>◌ : {A B C : Type 0} → M C A → M C B → M C B
◌>>◌ m k = m >>= λ _. k

abbrev pub return : {A C : Type 0} → A → M C A
return a c = (ok a, c)

abbrev pub fail : {A C : Type 0} → Error → M C A
fail e c = (err e, c)

-- An error that is only logged.
abbrev pub ignore : {A C : Type 0} → M C A → M C (Unit {0})
ignore m c = (ok tt, (m c).1)

-- `if err != nil { return fmt.Errorf(…, err) }` behind a statement.
abbrev pub answered : {C : Type 0} → (Bytes → Error) → Answer × C → Result (Unit {0}) × C
answered wrap (done, c) = (ok tt, c)
answered wrap (failed m, c) = (err (wrap m), c)

-- One round of the loop of `Inspect`.
unfoldable pub inspect_row : Bytes → DatabaseSet → DatabaseSet
unfolding is_backup_of is_staging ◌=?◌
inspect_row name set =
    if name =? set.target
    then record set { target_exists = true }
    else if is_backup_of set.target name
    then record set { backups = set.backups ++ name ∷ [] }
    else if is_staging name
    then record set { staging = set.staging ++ name ∷ [] }
    else set

unfoldable pub inspect_rows : List Bytes → DatabaseSet → DatabaseSet
unfolding inspect_row
inspect_rows [] set = set
inspect_rows (name ∷ rows) set = inspect_rows rows (inspect_row name set)

abbrev pub no_databases : Bytes → DatabaseSet
no_databases t = record { target = t; target_exists = false; backups = []; staging = [] }

abbrev pub listed : {C : Type 0} → Bytes → Listing × C → Result DatabaseSet × C
listed target (names rows, c) = (ok (inspect_rows rows (no_databases target)), c)
listed target (unlisted m, c) = (err (listing m), c)

-- Two decimal digits, the verb %02d below 100.
unfoldable pub two_digits : ℕ → Bytes
two_digits i = (b'0' + i / 10) ∷ (b'0' + i % 10) ∷ []

unfoldable pub suffixed : Bytes → ℕ → Bytes
unfolding two_digits
suffixed base i = base ++ (codes "_" ++ two_digits i)

-- The loop of `uniqueBackupName`, from the suffix `i` with the rounds that are left.
unfoldable pub free_name : ℕ → ℕ → Bytes → List Bytes → Option Bytes
unfolding suffixed contains
free_name zero i base taken = none
free_name (suc rounds) i base taken =
    let later = free_name rounds (i + 1) base taken in
    if contains (suffixed base i) taken then later else some (suffixed base i)

-- The part of `uniqueBackupName` behind the inspection.
unfoldable pub pick_backup_name : DatabaseSet → Bytes → Result Bytes
unfolding free_name
pick_backup_name set base =
    if contains base set.backups
    then (elim (free_name 99 1 base set.backups) [
      | none ↦ err (no_backup_name set.target (length set.backups))
      | some name ↦ ok name
    ])
    else ok base

-- `Swap` returns a backup's name and an error, and both when only the last step failed.
abbrev pub reopen_result : {C : Type 0} → Bytes → Result (Unit {0}) × C → (Bytes × Option Error) × C
reopen_result backup (ok _, c) = ((backup, none), c)
reopen_result backup (err e, c) = ((backup, some e), c)

abbrev pub swap_result :
    {C : Type 0} → (C → Result (Unit {0}) × C) → Result Bytes × C → (Bytes × Option Error) × C
swap_result last (ok backup, c) = reopen_result backup (last c)
swap_result last (err e, c) = (([], some e), c)

module _ (S : Server) where
  open S use {Catalog, list_databases, exec}

  unfoldable pub inspect : Bytes → M Catalog DatabaseSet
  unfolding inspect_rows
  inspect target c = listed target (list_databases c)

  unfoldable pub create : Bytes → Bytes → M Catalog (Unit {0})
  create name owner c = answered (creating name) (exec (create_database name owner) c)

  unfoldable pub drop : Bytes → M Catalog (Unit {0})
  drop name c = answered (dropping name) (exec (drop_database name) c)

  unfoldable pub set_allow_connections : Bytes → Bool → M Catalog (Unit {0})
  set_allow_connections name allow c =
      answered (setting_connections name) (exec (allow_connections name allow) c)

  unfoldable pub terminate_connections : Bytes → M Catalog (Unit {0})
  terminate_connections name c = answered (terminating name) (exec (terminate_backends name) c)

  unfoldable pub rename : Bytes → Bytes → M Catalog (Unit {0})
  rename from to c = answered (renaming from to) (exec (rename_database from to) c)

  -- The stamp is the time of the call in `BackupTimestampFormat`.
  unfoldable pub unique_backup_name : Bytes → Bytes → M Catalog Bytes
  unfolding pick_backup_name
  unique_backup_name target stamp = do
    set ← inspect target
    (λ c. (pick_backup_name set (backup_name target stamp), c))

  -- After the first rename failed: reopen the target, and return the error.
  unfoldable pub reopen : Bytes → Error → M Catalog Bytes
  reopen target e = do ignore (set_allow_connections target true); fail e

  -- After the second rename failed: put the original back.
  unfoldable pub put_back : Bytes → Bytes → Error → M Catalog Bytes
  unfolding reopen
  put_back target backup e c =
      settle (rename backup target c) (λ e'. fail (stranded backup target e'))
        (λ _. reopen target e)

  -- The second rename of `Swap`, and the return behind it.
  unfoldable pub move_staging : Bytes → Bytes → Bytes → M Catalog Bytes
  unfolding put_back
  move_staging target staging backup c =
      settle (rename staging target c) (put_back target backup) (λ _. return backup)

  -- `Swap` from the first rename on.
  unfoldable pub move_target : Bytes → Bytes → Bytes → M Catalog Bytes
  unfolding reopen move_staging
  move_target target staging backup c =
      settle (rename target backup c) (reopen target) (λ _. move_staging target staging backup)

  -- `Swap` up to both renames.
  unfoldable pub swap_names : Bytes → Bytes → Bytes → M Catalog Bytes
  unfolding move_target
  swap_names target staging stamp = do
    set_allow_connections target false
    terminate_connections target
    terminate_connections staging
    backup ← unique_backup_name target stamp
    move_target target staging backup

  unfoldable pub swap : Bytes → Bytes → Bytes → Catalog → (Bytes × Option Error) × Catalog
  unfolding swap_names
  swap target staging stamp c =
      swap_result (λ c'. set_allow_connections target true c') (swap_names target staging stamp c)

  unfoldable pub drop_all : List Bytes → M Catalog (Unit {0})
  drop_all [] = return tt
  drop_all (name ∷ rest) = do drop name; drop_all rest

  -- The switch of `Recover`.
  unfoldable pub recover_from : Bytes → DatabaseSet → State → M Catalog (Unit {0})
  unfolding drop_all
  recover_from target set idle = return tt
  recover_from target set orphaned_staging = drop_all set.staging
  recover_from target set crashed_mid_swap = do
    rename (newest_backup set) target
    set_allow_connections target true
    drop_all set.staging
  recover_from target set missing = fail (no_backup set)

  unfoldable pub recover : Bytes → M Catalog (Unit {0})
  unfolding inspect recover_from
  recover target = do set ← inspect target; recover_from target set (classify set)
