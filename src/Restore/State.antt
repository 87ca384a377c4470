-- ===== src/Restore/State.antt =====
-- restore/state.go: what the catalog says of a target and its siblings, and what it amounts to.
-- `at.UTC().Format(BackupTimestampFormat)` and the four random bytes are arguments.
pub mod Backups
use pg_snapshot.Base.{ℕ, ◌+◌, ◌-◌, ◌/◌, ◌%◌, Bool, true, false, ◌&&◌, Option, none, some}
use pg_snapshot.Base.{List, [], ◌∷◌, ◌++◌, ltb, leb, ◌==◌, if◌then◌else◌, length, take, last?}
use pg_snapshot.Base.Int.{ℤ, pos_part}
use pg_snapshot.Base.Bytes.{Bytes, codes, has_prefix}
use pg_snapshot.Base.Sort.{sort}

abbrev pub staging_prefix : Bytes
staging_prefix = codes "restored_"

abbrev pub backup_infix : Bytes
backup_infix = codes "_backup_"

hex_digit : ℕ → ℕ
hex_digit n = if ltb n 10 then b'0' + n else b'a' + (n - 10)

-- `hex.EncodeToString`
pub hex_encode : Bytes → Bytes
unfolding hex_digit
hex_encode [] = []
hex_encode (c ∷ s) = hex_digit (c / 16) ∷ hex_digit (c % 16) ∷ hex_encode s

-- `none` is a failure of the random source, and of the function.
unfoldable pub staging_name : Option Bytes → Option Bytes
unfolding hex_encode
staging_name none = none
staging_name (some random) = some (staging_prefix ++ hex_encode random)

unfoldable pub backup_name : Bytes → Bytes → Bytes
backup_name target stamp = target ++ (backup_infix ++ stamp)

unfoldable pub is_staging : Bytes → Bool
unfolding has_prefix
is_staging name = has_prefix name staging_prefix

unfoldable pub is_backup_of : Bytes → Bytes → Bool
unfolding has_prefix
is_backup_of target name = has_prefix name (target ++ backup_infix)

pub record DatabaseSet : Type 0 where
  pub target : Bytes
  pub target_exists : Bool
  pub backups : List Bytes
  pub staging : List Bytes

pub data State : Type 0 where
  idle orphaned_staging crashed_mid_swap missing : State

unfoldable pub classify : DatabaseSet → State
classify s =
    if s.target_exists && length s.staging == 0
    then idle
    else if s.target_exists
    then orphaned_staging
    else if ltb 0 (length s.backups)
    then crashed_mid_swap
    else missing

-- The empty name when there is no backup.
unfoldable pub newest_backup : DatabaseSet → Bytes
unfolding sort
newest_backup s = elim (last? (sort s.backups)) [ none ↦ [] | some name ↦ name ]

unfoldable pub expired_backups : DatabaseSet → ℤ → List Bytes
unfolding sort
expired_backups s keep =
    let n = pos_part keep in
    let sorted = sort s.backups in
    if leb (length sorted) n then [] else take (length sorted - n) sorted
