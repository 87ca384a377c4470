-- ===== src/Restore/Database/Inspect.antt =====
-- `Inspect` sorts the names of the catalog: the target, its backups, and the staging databases.
use pg_snapshot.Base.{◌≡◌, refl, ◌∙◌, ap, Bool, false, not, ◌&&◌, ◌||◌, List, [], ◌∷◌}
use pg_snapshot.Base.{◌++◌, arith, is_some, if◌then◌else◌, length, Bool-cases}
use pg_snapshot.Base.{inl, inr}
use pg_snapshot.Base.Bytes.{Bytes, ◌=?◌, =?_iff}
use pg_snapshot.Base.Dict.{contains, contains-append}
use pg_snapshot.Restore.State.{DatabaseSet}
use pg_snapshot.Restore.State.{is_backup_of, is_staging}
use pg_snapshot.Restore.Server.{Server, IsLawful}
use pg_snapshot.Restore.Database.{ok, inspect_row, inspect_rows, no_databases, inspect}
use pg_snapshot.Restore.Database.Calls.{inspect-ok}

-- A name that `Inspect` takes for a backup of the target, and for a staging database.
unfoldable pub backup_of : Bytes → Bytes → Bool
backup_of target n = not (n =? target) && is_backup_of target n

unfoldable pub left_over : Bytes → Bytes → Bool
left_over target n = not (n =? target) && (not (is_backup_of target n) && is_staging n)

inspect_row-target : (name : Bytes) (set : DatabaseSet) → (inspect_row name set).target ≡ set.target
unfolding inspect_row
inspect_row-target name set = ground arith

inspect_row-exists :
    (name : Bytes) (set : DatabaseSet)
    → (inspect_row name set).target_exists ≡ (name =? set.target || set.target_exists)
unfolding inspect_row
inspect_row-exists name set = ground arith

appended : Bool → Bytes → List Bytes → List Bytes
appended b name xs = if b then xs ++ name ∷ [] else xs

contains-appended :
    (n name : Bytes) (test : Bytes → Bool) (xs : List Bytes)
    → contains n (appended (test name) name xs) ≡ (contains n xs || (name =? n && test n))
unfolding appended contains
contains-appended n name test xs = elim (Bool-cases (name =? n)) [
  | inl same ↦ ground (arith, ap test ((=?_iff name n).0 same), contains-append n xs (name ∷ []))
  | inr other ↦ ground (arith, contains-append n xs (name ∷ []))
]

inspect_row-backups :
    (name : Bytes) (set : DatabaseSet)
    → (inspect_row name set).backups ≡ appended (backup_of set.target name) name set.backups
unfolding inspect_row appended backup_of
inspect_row-backups name set = ground arith

inspect_row-staging :
    (name : Bytes) (set : DatabaseSet)
    → (inspect_row name set).staging ≡ appended (left_over set.target name) name set.staging
unfolding inspect_row appended left_over
inspect_row-staging name set = ground arith

inspect_rows-target :
    (rows : List Bytes) (set : DatabaseSet) → (inspect_rows rows set).target ≡ set.target
unfolding inspect_rows
inspect_rows-target [] set = refl
inspect_rows-target (name ∷ rows) set =
    inspect_rows-target rows (inspect_row name set) ∙ inspect_row-target name set

inspect_rows-exists :
    (rows : List Bytes) (set : DatabaseSet)
    → (inspect_rows rows set).target_exists ≡ (contains set.target rows || set.target_exists)
unfolding inspect_rows contains
inspect_rows-exists [] set = refl
inspect_rows-exists (name ∷ rows) set = ground (
  arith,
  inspect_rows-exists rows (inspect_row name set),
  inspect_row-exists name set,
  inspect_row-target name set,
)

inspect_rows-backups :
    (rows : List Bytes) (n : Bytes) (set : DatabaseSet)
    → contains n (inspect_rows rows set).backups
      ≡ (contains n set.backups || (contains n rows && backup_of set.target n))
unfolding inspect_rows contains
inspect_rows-backups [] n set = ground arith
inspect_rows-backups (name ∷ rows) n set = ground (
  arith,
  inspect_rows-backups rows n (inspect_row name set),
  ap (contains n) (inspect_row-backups name set),
  contains-appended n name (backup_of set.target) set.backups,
  ap (λ t. backup_of t n) (inspect_row-target name set),
)

inspect_rows-staging :
    (rows : List Bytes) (n : Bytes) (set : DatabaseSet)
    → contains n (inspect_rows rows set).staging
      ≡ (contains n set.staging || (contains n rows && left_over set.target n))
unfolding inspect_rows contains
inspect_rows-staging [] n set = ground arith
inspect_rows-staging (name ∷ rows) n set = ground (
  arith,
  inspect_rows-staging rows n (inspect_row name set),
  ap (contains n) (inspect_row-staging name set),
  contains-appended n name (left_over set.target) set.staging,
  ap (λ t. left_over t n) (inspect_row-target name set),
)

module _ (S : Server) (L : IsLawful S) (target : Bytes) (c : S.Catalog) (set : DatabaseSet)
    (h : (inspect S target c).0 ≡ ok set) where
  -- The target is recorded as existing exactly when it does.
  pub inspect-exists : set.target_exists ≡ is_some (S.entry c target)
  unfolding contains
  inspect-exists =
      let (rows, is, all) = inspect-ok S L target c set h in
      ap (λ s. s.target_exists) is
      ∙ inspect_rows-exists rows (no_databases target)
      ∙ ground (arith, all target)

  -- The backups are the names that exist and look like a backup of the target.
  pub inspect-backups :
      (n : Bytes) → contains n set.backups ≡ (is_some (S.entry c n) && backup_of target n)
  unfolding contains
  inspect-backups n =
      let (rows, is, all) = inspect-ok S L target c set h in
      ap (λ s. contains n s.backups) is
      ∙ inspect_rows-backups rows n (no_databases target)
      ∙ ground (arith, all n)

  -- The staging databases are the other names that exist and look like one.
  pub inspect-staging :
      (n : Bytes) → contains n set.staging ≡ (is_some (S.entry c n) && left_over target n)
  unfolding contains
  inspect-staging n =
      let (rows, is, all) = inspect-ok S L target c set h in
      ap (λ s. contains n s.staging) is
      ∙ inspect_rows-staging rows n (no_databases target)
      ∙ ground (arith, all n)

-- A list that holds nothing is empty, and one that is not holds its first element.
pub length_of_empty : (xs : List Bytes) → ((n : Bytes) → contains n xs ≡ false) → length xs ≡ 0
unfolding contains
length_of_empty [] h = refl
length_of_empty (x ∷ xs) h = ground (arith, h x, =?_iff x x)
