-- ===== src/Restore/Database/Recover.antt =====
-- What `Recover` does: it never touches a target that exists, renames the newest backup back when the
-- target is gone, drops every staging database, and leaves the target idle.
use pg_snapshot.Base.{◌≡◌, refl, sym, ◌∙◌, ap, true, false, ◌||◌, List, [], ◌∷◌}
use pg_snapshot.Base.{Option, none, arith, is_some, if◌then◌else◌, length, Bool-cases, ◌≢◌}
use pg_snapshot.Base.{inl, inr, ◌<◌, ltb, ◌==◌}
use pg_snapshot.Base.Bytes.{Bytes, ◌=?◌, =?_iff, =?_refl}
use pg_snapshot.Base.Sort.{less}
use pg_snapshot.Base.Dict.{contains, All_of_contains}
use pg_snapshot.Restore.State.{DatabaseSet, idle, orphaned_staging, crashed_mid_swap, missing}
use pg_snapshot.Restore.State.{classify, newest_backup}
use pg_snapshot.Restore.State.Backups.{newest_backup_greatest}
use pg_snapshot.Restore.Server.{Server, IsLawful, Entry, with_accepts}
use pg_snapshot.Restore.Database.{
  Result, ok, err, M, settle, inspect, drop, drop_all, recover, recover_from,
}
use pg_snapshot.Restore.Database.{rename, set_allow_connections, ◌>>=◌, ◌>>◌}
use pg_snapshot.Restore.Database.Calls.{inspect-Same, drop-ok, rename-ok}
use pg_snapshot.Restore.Database.Calls.{set_allow_connections-ok}
use pg_snapshot.Restore.Database.Inspect.{left_over, backup_of, inspect-exists, inspect-backups}
use pg_snapshot.Restore.Database.Inspect.{inspect-staging}

-- The catalog without the listed names.
abbrev pub Without : List Bytes → (Bytes → Option Entry) → (Bytes → Option Entry) → Type 0
Without l old new = (n : Bytes) → new n ≡ (if contains n l then none else old n)

-- A chain that succeeds: its first part did, and so did its second from there.
bind_ok :
    {A B C : Type 0} (m : M C A) (g : A → M C B) (c : C) (b : B)
    → ((m >>= g) c).0 ≡ ok b
    → (a : A) × ((m c).0 ≡ ok a) × ((m >>= g) c ≡ g a (m c).1)
bind_ok {A} {B} {C} m g c b = from (m c)
  where
    from :
        (x : Result A × C)
        → (settle x (λ e c'. (err e, c')) g).0 ≡ ok b
        → (a : A) × (x.0 ≡ ok a) × (settle x (λ e c'. (err e, c')) g ≡ g a x.1)
    from (ok a, c') h = (a, refl, refl)
    from (err e, c') h = cc

module _ (S : Server) (L : IsLawful S) where
  open S use {Catalog, entry}

  pub drop_all-Without :
      (l : List Bytes) (c : Catalog)
      → (drop_all S l c).0 ≡ ok tt
      → Without l (entry c) (entry (drop_all S l c).1)
  unfolding drop_all contains
  drop_all-Without [] c h n = refl
  drop_all-Without (name ∷ l) c h n =
      let (u, first, e) = bind_ok (drop S name) (λ _. drop_all S l) c tt h in
      ap (λ x. entry x.1 n) e
      ∙ ground (
        arith,
        drop_all-Without l (drop S name c).1 (sym (ap (λ x. x.0) e) ∙ h) n,
        drop-ok S L name c u first n,
        =?_iff n name,
        =?_iff name n,
      )

pub data Case (s : DatabaseSet) : Type 0 where
  is_idle : classify s ≡ idle → s.target_exists ≡ true → length s.staging ≡ 0 → Case s
  is_orphaned : classify s ≡ orphaned_staging → s.target_exists ≡ true → Case s
  is_crashed :
      classify s ≡ crashed_mid_swap → s.target_exists ≡ false → 0 < length s.backups → Case s
  is_missing : classify s ≡ missing → s.target_exists ≡ false → Case s

pub classify-cases : (s : DatabaseSet) → Case s
unfolding classify
classify-cases s = elim (Bool-cases s.target_exists) [
  | inl there ↦ elim (Bool-cases (length s.staging == 0)) [
    | inl nothing ↦ is_idle (ground arith) there (ground arith)
    | inr rest ↦ is_orphaned (ground arith) there
  ]
  | inr gone ↦ elim (Bool-cases (ltb 0 (length s.backups))) [
    | inl some_backup ↦ is_crashed (ground arith) gone (ground arith)
    | inr none_left ↦ is_missing (ground arith) gone
  ]
]

contains_of_empty : (xs : List Bytes) (n : Bytes) → length xs ≡ 0 → contains n xs ≡ false
unfolding contains
contains_of_empty [] n h = refl
contains_of_empty (x ∷ xs) n h = absurd (omega arith)

module _ (S : Server) (L : IsLawful S) (target : Bytes) (c : S.Catalog) where
  open S use {Catalog, entry}

  -- A success of `Recover` has inspected the catalog and acted on the set.
  recover_ok :
      (recover S target c).0 ≡ ok tt
      → (set : DatabaseSet) × ((inspect S target c).0 ≡ ok set)
        × (recover S target c ≡ recover_from S target set (classify set) (inspect S target c).1)
  unfolding recover
  recover_ok h = bind_ok (inspect S target) (λ set. recover_from S target set (classify set)) c tt h

  -- What the switch does to a target that exists.
  set_existing :
      (set : DatabaseSet) (d : Catalog)
      → set.target_exists ≡ true
      → (recover_from S target set (classify set) d).0 ≡ ok tt
      → Without set.staging (entry d) (entry (recover_from S target set (classify set) d).1)
  unfolding recover_from
  set_existing set d there h n = elim (classify-cases set) [
    | is_idle is _ empty ↦
        ap (λ st. entry (recover_from S target set st d).1 n) is
        ∙ rw (contains_of_empty set.staging n empty) refl
    | is_orphaned is _ ↦
        ap (λ st. entry (recover_from S target set st d).1 n) is
        ∙ drop_all-Without S L set.staging d
            (sym (ap (λ st. (recover_from S target set st d).0) is) ∙ h) n
    | is_crashed is gone _ ↦ absurd (cc (there))
    | is_missing is gone ↦ absurd (cc (there))
  ]

  -- If the target exists, a successful recovery leaves it and every other database as it was, but for
  -- the names that look like staging databases: those are gone, whichever restore they belong to.
  pub recover_existing :
      is_some (entry c target) ≡ true
      → (recover S target c).0 ≡ ok tt
      → (n : Bytes)
      → entry (recover S target c).1 n ≡ (if left_over target n then none else entry c n)
  recover_existing alive h n =
      let (set, seen, e) = recover_ok h in
      ap (λ x. entry x.1 n) e
      ∙ set_existing set (inspect S target c).1 (inspect-exists S L target c set seen ∙ alive)
          (sym (ap (λ x. x.0) e) ∙ h) n
      ∙ ground (arith, inspect-staging S L target c set seen n, inspect-Same S L target c n)

  -- The steps of the switch for a crashed swap, when all of them succeed.
  crashed_steps :
      (set : DatabaseSet) (d : Catalog)
      → (recover_from S target set crashed_mid_swap d).0 ≡ ok tt
      → (entry d target ≡ none)
        × (is_some (entry d (newest_backup set)) ≡ true)
        × ((n : Bytes)
            → entry (recover_from S target set crashed_mid_swap d).1 n ≡ (
                if contains n set.staging
                then none
                else if n =? target
                then with_accepts true (entry d (newest_backup set))
                else if n =? newest_backup set
                then none
                else entry d n))
  unfolding recover_from
  crashed_steps set d h =
      let r = rename S (newest_backup set) target in
      let a = set_allow_connections S target true in
      let (u, first, e) = bind_ok r (λ _. a >> drop_all S set.staging) d tt h in
      let d' = (r d).1 in
      let (v, second, e') =
        bind_ok a (λ _. drop_all S set.staging) d' tt (sym (ap (λ x. x.0) e) ∙ h) in
      let (there, free, f) = rename-ok S L (newest_backup set) target d u first in
      let (_, g) = set_allow_connections-ok S L target true d' v second in
      let k = drop_all-Without S L set.staging (a d').1 (sym (ap (λ x. x.0) (e ∙ e')) ∙ h) in
      (free, there, λ n. ap (λ x. entry x.1 n) (e ∙ e') ∙ k n ∙ ground (arith, g n, f n))

  set_missing :
      (set : DatabaseSet)
      → set.target_exists ≡ false
      → (d : Catalog) → (recover_from S target set (classify set) d).0 ≡ ok tt
      → (classify set ≡ crashed_mid_swap) × (set.backups ≢ [])
  unfolding recover_from
  set_missing set gone d h = elim (classify-cases set) [
    | is_idle is there _ ↦ absurd (cc (there))
    | is_orphaned is there ↦ absurd (cc (there))
    | is_missing is _ ↦ absurd (cc (sym (ap (λ st. (recover_from S target set st d).0) is) ∙ h))
    | is_crashed is _ some_backup ↦ (is, λ nil. omega (arith, ap length nil))
  ]

  -- If the target is gone, a successful recovery has found a backup of it, and the backup that comes
  -- last by name has become the target and accepts connections. The names that look like staging
  -- databases are gone, and every other database is as it was.
  pub recover_missing :
      entry c target ≡ none
      → (recover S target c).0 ≡ ok tt
      → (b : Bytes) × (backup_of target b ≡ true)
        × (is_some (entry c b) ≡ true)
        × ((n : Bytes) → is_some (entry c n) ≡ true → backup_of target n ≡ true → less b n ≡ false)
        × (entry (recover S target c).1 target ≡ with_accepts true (entry c b))
        × ((n : Bytes)
            → n =? target ≡ false
            → entry (recover S target c).1 n
              ≡ (if n =? b || left_over target n then none else entry c n))
  recover_missing lost h =
      let (set, seen, e) = recover_ok h in
      let d = (inspect S target c).1 in
      let gone = inspect-exists S L target c set seen ∙ ap is_some lost in
      let done = sym (ap (λ x. x.0) e) ∙ h in
      let (is, present) = set_missing set gone d done in
      let b = newest_backup set in
      let (free, there, f) =
        crashed_steps set d (sym (ap (λ st. (recover_from S target set st d).0) is) ∙ done) in
      let (listed, greatest) = newest_backup_greatest set present in
      let stay = inspect-Same S L target c in
      let end : (n : Bytes)
          → entry (recover S target c).1 n
            ≡ entry (recover_from S target set crashed_mid_swap d).1 n =
        λ n. ap (λ x. entry x.1 n) e ∙ ap (λ st. entry (recover_from S target set st d).1 n) is in
      (
        b,
        ground (arith, listed, inspect-backups S L target c set seen b),
        ground (arith, listed, inspect-backups S L target c set seen b),
        λ n alive like.
            All_of_contains _ n set.backups greatest
              (ground (arith, inspect-backups S L target c set seen n)),
        end target
            ∙ f target
            ∙ ground (
              arith,
              stay b,
              =?_refl target,
              inspect-staging S L target c set seen target,
              ap is_some lost,
            ),
        λ n other. end n ∙ f n ∙ ground (arith, stay n, inspect-staging S L target c set seen n),
      )
