-- ===== src/Restore/Database/Ends.antt =====
-- Where the databases may stand around a swap, and how a rename takes one such place to the next.
use pg_snapshot.Base.{ℕ, ◌≡◌, refl, sym, ◌∙◌, ap, ◌≢◌, inl, inr, Bool, true, Option}
use pg_snapshot.Base.{none, some, arith, is_some, Option-cases, Bool-cases, if◌then◌else◌}
use pg_snapshot.Base.Bytes.{Bytes, ◌=?◌, =?_iff, =?_refl}
use pg_snapshot.Restore.Server.{Entry, AfterStatement, with_accepts}
use pg_snapshot.Restore.Server.{rename_database, allow_connections}
use pg_snapshot.Restore.State.{is_backup_of}
use pg_snapshot.Restore.Database.Calls.{Same}

-- The identity of the database under a name.
abbrev pub oid_of : Option Entry → Option ℕ
oid_of none = none
oid_of (some e) = some e.oid

abbrev pub Names : Type 0
Names = Bytes → Option Entry

-- Every name stands for the database that it stood for.
abbrev pub Untouched : Names → Names → Type 0
Untouched old new = (n : Bytes) → oid_of (new n) ≡ oid_of (old n)

-- The target's database has gone to the name of a backup that was free, and nothing else moved.
abbrev pub MidSwap : Bytes → Bytes → Names → Names → Type 0
MidSwap target backup old new =
    (is_backup_of target backup ≡ true)
    × (is_some (old target) ≡ true)
    × (old backup ≡ none)
    × ((n : Bytes)
        → oid_of (new n) ≡ (
            if n =? backup
            then oid_of (old target)
            else if n =? target
            then none
            else oid_of (old n)))

-- The target's name stands for the staging database, the backup's for what the target was, and the
-- staging name for nothing. All other names are as they were.
abbrev pub Swapped : Bytes → Bytes → Bytes → Names → Names → Type 0
Swapped target staging backup old new =
    (is_backup_of target backup ≡ true)
    × (is_some (old target) ≡ true)
    × (old backup ≡ none)
    × ((n : Bytes)
        → oid_of (new n) ≡ (
            if n =? target
            then oid_of (old staging)
            else if n =? staging
            then none
            else if n =? backup
            then oid_of (old target)
            else oid_of (old n)))

pub Untouched-trans : (a b c : Names) → Untouched a b → Untouched b c → Untouched a c
Untouched-trans a b c f g n = g n ∙ f n

pub Same-Untouched : (a b c : Names) → Untouched a b → Same b c → Untouched a c
Same-Untouched a b c f g n = ap oid_of (g n) ∙ f n

oid_of-with_accepts : (b : Bool) (e : Option Entry) → oid_of (with_accepts b e) ≡ oid_of e
oid_of-with_accepts b none = refl
oid_of-with_accepts b (some e) = refl

pub allow-Untouched :
    (name : Bytes) (allow : Bool) (b c : Names)
    → AfterStatement (allow_connections name allow) b c
    → Untouched b c
allow-Untouched name allow b c (there, f) n = ground (arith, f n, oid_of-with_accepts allow (b n))

is_some_of_oid : (a b : Option Entry) → oid_of a ≡ oid_of b → is_some a ≡ is_some b
is_some_of_oid a b h = ground arith

none_of_oid : (a b : Option Entry) → oid_of a ≡ oid_of b → a ≡ none → b ≡ none
none_of_oid a b h k = ground arith

pub rename_MidSwap :
    (target backup : Bytes) (a b c : Names)
    → is_backup_of target backup ≡ true
    → Untouched a b
    → AfterStatement (rename_database target backup) b c
    → MidSwap target backup a c
rename_MidSwap target backup a b c kind u (there, free, f) = (
  kind,
  sym (is_some_of_oid (b target) (a target) (u target)) ∙ there,
  none_of_oid (b backup) (a backup) (u backup) free,
  λ n. ground (arith, f n, u n, u target),
)

-- The second rename, from the middle. The staging database exists and is not the target.
pub rename_Swapped :
    (target staging backup : Bytes) (a b c : Names)
    → target ≢ staging
    → is_some (a staging) ≡ true
    → MidSwap target backup a b
    → AfterStatement (rename_database staging target) b c
    → Swapped target staging backup a c
rename_Swapped target staging backup a b c apart alive (kind, was, free, m) (there, gone, f) = (
  kind,
  was,
  free,
  λ n. ground (
    arith,
    f n,
    m n,
    m staging,
    =?_iff n target,
    =?_iff n staging,
    =?_iff n backup,
    =?_iff staging backup,
    =?_iff staging target,
  ),
)

-- The first rename undone.
pub rename_back_Untouched :
    (target backup : Bytes) (a b c : Names)
    → MidSwap target backup a b
    → AfterStatement (rename_database backup target) b c
    → Untouched a c
rename_back_Untouched target backup a b c (kind, was, free, m) (there, gone, f) n =
    ground (arith, f n, m n, m backup, =?_iff n target, =?_iff n backup, =?_iff backup backup)

pub Swapped-Untouched :
    (target staging backup : Bytes) (a b c : Names)
    → Swapped target staging backup a b
    → Untouched b c
    → Swapped target staging backup a c
Swapped-Untouched target staging backup a b c (kind, was, free, m) u =
    (kind, was, free, λ n. u n ∙ m n)

pub accepts_after :
    (name : Bytes) (allow : Bool) (b c : Names)
    → AfterStatement (allow_connections name allow) b c
    → (e : Entry) × (c name ≡ some e) × (e.accepts ≡ allow)
accepts_after name allow b c (there, f) = elim (Option-cases (b name)) [
  | inl gone ↦ absurd (cc (ap is_some gone))
  | inr (e, is) ↦ (record e { accepts = allow }, ground (arith, f name, =?_refl name), refl)
]

pub oid_of-some : (a : Option Entry) (e : Entry) → a ≡ some e → oid_of a ≡ some e.oid
oid_of-some a e h = ground arith

pub mid_kept :
    (target b : Bytes) (old new : Names) (n : Bytes) (e : Entry)
    → MidSwap target b old new
    → old n ≡ some e
    → (m : Bytes) × (oid_of (new m) ≡ some e.oid)
mid_kept target b old new n e (kind, was, free, f) h = elim (Bool-cases (n =? target)) [
  | inl same ↦ (b, ground (arith, f b, =?_iff n target, =?_refl b, oid_of-some (old n) e h))
  | inr other ↦ (n, ground (arith, f n, =?_iff n b, oid_of-some (old n) e h))
]

pub Swapped-kept :
    (target staging b : Bytes) (old new : Names) (n : Bytes) (e : Entry)
    → is_some (old staging) ≡ true
    → Swapped target staging b old new
    → old n ≡ some e
    → (m : Bytes) × (oid_of (new m) ≡ some e.oid)
Swapped-kept target staging b old new n e alive (kind, was, free, f) h =
    elim (Bool-cases (n =? staging)) [
      | inl same ↦ (
        target,
        ground (arith, f target, =?_iff n staging, =?_refl target, oid_of-some (old n) e h),
      )
      | inr other ↦ elim (Bool-cases (n =? target)) [
        | inl same ↦ (
          b,
          ground (
            arith,
            f b,
            =?_iff n target,
            =?_refl b,
            =?_iff b target,
            =?_iff b staging,
            oid_of-some (old n) e h,
          ),
        )
        | inr also ↦ (n, ground (arith, f n, =?_iff n b, oid_of-some (old n) e h))
      ]
    ]
