-- ===== src/Restore/Run/Replace.antt =====
-- restore/run.go: what a restore does to the databases of the instance, from the creation of the
-- staging database on.
use pg_snapshot.Base.{ℕ, ◌≡◌, refl, ◌∙◌, ap, ◌⊎◌, inl, inr, true, false, Option}
use pg_snapshot.Base.{none, some, is_some, if◌then◌else◌, arith}
use pg_snapshot.Base.Bytes.{Bytes, ◌=?◌, =?_iff, =?_refl}
use pg_snapshot.Base.Act.{give, settle_act}
use pg_snapshot.Export.Manifest.{Manifest}
use pg_snapshot.Restore.Server.{Server, IsLawful, Entry, AfterStatement, create_database}
use pg_snapshot.Restore.State.{is_backup_of}
use pg_snapshot.Restore.Database.{Error, stranded, create, drop, Result, ok, err}
use pg_snapshot.Restore.Database.Calls.{Same, create-ok, create-err, drop-ok, drop-err}
use pg_snapshot.Restore.Database.Ends.{oid_of, Names, Swapped}
use pg_snapshot.Restore.World.{World, Work, RunError, administering, admin, from_admin}
use pg_snapshot.Restore.Run.{Options, RunResult}
use pg_snapshot.Restore.Run.Body.{restore_into, or_discard, replace}
use pg_snapshot.Restore.Run.Away.{admin-catalog}
use pg_snapshot.Restore.Run.End.{StagedEnd, restore_into-Ends}

-- Every name but the staging database's stands for the database that it stood for.
abbrev pub Kept : Bytes → Names → Names → Type 0
Kept staging old new = (n : Bytes) → n =? staging ≡ false → oid_of (new n) ≡ oid_of (old n)

-- The target's database has gone to the name of a backup that was free, and no other name but
-- the staging database's has changed.
abbrev pub Stranded : Bytes → Bytes → Bytes → Names → Names → Type 0
Stranded target staging backup old new =
    (is_backup_of target backup ≡ true)
    × (old backup ≡ none)
    × (backup =? staging ≡ false)
    × ((n : Bytes)
        → n =? staging ≡ false
        → oid_of (new n) ≡ (
            if n =? backup
            then oid_of (old target)
            else if n =? target
            then none
            else oid_of (old n)))

-- The target's name stands for the database `made`, what it stood for is a backup under a name that
-- was free, and no other name but the staging database's has changed.
abbrev pub Replaced : Bytes → Bytes → Bytes → Option ℕ → Names → Names → Type 0
Replaced target staging backup made old new =
    (is_backup_of target backup ≡ true)
    × (old backup ≡ none)
    × (backup =? staging ≡ false)
    × ((is_some made ≡ true) × (oid_of (new target) ≡ made))
    × ((n : Bytes)
        → n =? staging ≡ false
        → n =? target ≡ false
        → oid_of (new n) ≡ (if n =? backup then oid_of (old target) else oid_of (old n)))

-- What a restore promises: with a result the target is replaced and accepts connections; with an error
-- every name is kept, or the error names the backup where the target is stranded, or the target is
-- replaced and only the last step of the swap failed. `made` is the database that was created under
-- the staging name.
abbrev pub RestoreEnd : Bytes → Bytes → Option ℕ → Names → RunError ⊎ RunResult → Names → Type 0
RestoreEnd target staging made old (inr r) new =
    Replaced target staging r.backup made old new
    × (new staging ≡ none)
    × ((e : Entry) × (new target ≡ some e) × (e.accepts ≡ true))
RestoreEnd target staging made old (inl e) new =
    (Kept staging old new × (oid_of (new target) ≡ oid_of (old target)))
    ⊎ (((b : Bytes) × (cause : Error) × (e ≡ administering (stranded b target cause))
          × Stranded target staging b old new)
        ⊎ ((b : Bytes) × Replaced target staging b made old new))

none_of : (a : Option Entry) → oid_of a ≡ none → a ≡ none
none_of a h = ground arith

oid_some : (a : Option Entry) → is_some a ≡ true → is_some (oid_of a) ≡ true
oid_some a h = ground arith

module _ (target staging owner : Bytes) (old mid : Names)
    (law : AfterStatement (create_database staging owner) old mid)
    (there : is_some (old target) ≡ true) where
  apart : target =? staging ≡ false
  apart = ground (arith, law.0, =?_iff target staging)

  mid_same : Kept staging old mid
  mid_same n h = ap oid_of (law.2 n h)

  free_mid : (b : Bytes) → mid b ≡ none → (b =? staging ≡ false) × (old b ≡ none)
  free_mid b h = ground (arith, law.1, law.2 b, =?_iff b staging)

  Swapped-Replaced :
      (b : Bytes) (new : Names)
      → Swapped target staging b mid new
      → Replaced target staging b (oid_of (mid staging)) old new × (new staging ≡ none)
  Swapped-Replaced b new (kind, was, free, f) = (
    (
      kind,
      (free_mid b free).1,
      (free_mid b free).0,
      (oid_some (mid staging) law.1, ground (arith, f target, =?_refl target)),
      λ n h k. ground (arith, f n, mid_same n h, mid_same target apart),
    ),
    none_of (new staging) (
        ground
          (arith, f staging, =?_refl staging, =?_iff staging target, =?_iff target staging, apart)),
  )

  -- From the catalog behind the creation of the staging database to the one before it.
  created_end :
      (new : Names) (r : RunError ⊎ RunResult)
      → StagedEnd target staging mid r new
      → RestoreEnd target staging (oid_of (mid staging)) old r new
  created_end new (inr r) (sw, accepting) =
      let (moved, gone) = Swapped-Replaced r.backup new sw in (moved, gone, accepting)
  created_end new (inl e) (inl u) =
      inl (λ n h. u n ∙ mid_same n h, u target ∙ mid_same target apart)
  created_end new (inl e) (inr (inl (b, cause, is, (kind, was, free, f)))) = inr (
      inl (
        b,
        cause,
        is,
        (
          kind,
          (free_mid b free).1,
          (free_mid b free).0,
          λ n h. ground (arith, f n, mid_same n h, mid_same target apart),
        ),
      ))
  created_end new (inl e) (inr (inr (b, sw))) = inr (inr (b, (Swapped-Replaced b new sw).0))

  -- The staging database dropped behind an error.
  discarded_end :
      (last new : Names) (e : RunError)
      → ((n : Bytes) → n =? staging ≡ false → new n ≡ last n)
      → RestoreEnd target staging (oid_of (mid staging)) old (inl e) last
      → RestoreEnd target staging (oid_of (mid staging)) old (inl e) new
  discarded_end last new e same (inl (kept, k)) =
      inl (λ n h. ap oid_of (same n h) ∙ kept n h, ap oid_of (same target apart) ∙ k)
  discarded_end last new e same (inr (inl (b, cause, is, (kind, free, other, f)))) =
      inr (inl (b, cause, is, (kind, free, other, λ n h. ap oid_of (same n h) ∙ f n h)))
  discarded_end last new e same (inr (inr (b, (kind, free, other, (some_made, is), f)))) = inr (
      inr (
        b,
        (
          kind,
          free,
          other,
          (some_made, ap oid_of (same target apart) ∙ is),
          λ n h k. ap oid_of (same n h) ∙ f n h k,
        ),
      ))

module _ (S : Server) (L : IsLawful S) {W Body : Type 0} (K : Work W Body) where
  open S use {Catalog, entry}

  drop_elsewhere :
      (staging : Bytes) (c : Catalog) (n : Bytes)
      → n =? staging ≡ false
      → entry (drop S staging c).1 n ≡ entry c n
  drop_elsewhere staging c n h = cases (drop S staging c).0 refl
    where
      cases :
          (r : Result (Unit {0}))
          → (drop S staging c).0 ≡ r
          → entry (drop S staging c).1 n ≡ entry c n
      cases (ok u) e = ground (arith, drop-ok S L staging c u e n)
      cases (err x) e = drop-err S L staging c x e n

  module _ (o : Options) (staging : Bytes) (old mid : Catalog)
      (law : AfterStatement (create_database staging o.owner) (entry old) (entry mid))
      (there : is_some (entry old o.target) ≡ true) where
    discard_end :
        (x : (RunError ⊎ RunResult) × World Catalog W)
        → RestoreEnd o.target staging
            (oid_of (entry mid staging))
            (entry old)
            x.0
            (entry x.1.catalog)
        → let y = settle_act x (λ e w'. (inl e, (admin (drop S staging) w').1)) give in
          RestoreEnd o.target staging
            (oid_of (entry mid staging))
            (entry old)
            y.0
            (entry y.1.catalog)
    discard_end (inr r, w) h = h
    discard_end (inl e, w) h =
        discarded_end o.target staging o.owner (entry old) (entry mid) law there (entry w.catalog) _
          e
          (λ n k.
            ap (λ c. entry c n) (admin-catalog w (drop S staging w.catalog))
            ∙ drop_elsewhere staging w.catalog n k)
          h

    staged_end :
        (m : Manifest) (snapshot : Bytes) (w : World Catalog W)
        → w.catalog ≡ mid
        → let r = or_discard S K staging (restore_into S K o m snapshot staging) w in
          RestoreEnd o.target staging
            (oid_of (entry mid staging))
            (entry old)
            r.0
            (entry r.1.catalog)
    unfolding or_discard
    staged_end m snapshot w e = discard_end (restore_into S K o m snapshot staging w) (
        created_end o.target staging o.owner (entry old) (entry mid) law there _ _
          (restore_into-Ends S L K o staging mid (ground (arith, law.0)) law.1 m snapshot w e))

  -- From a catalog where the target exists, the steps from the creation of the staging database on end
  -- in one of four ways, however any call fails. With a result the target's name stands for the
  -- database that was created under the staging name, and accepts connections; what it stood for is
  -- the backup of the result, under a name that was free, and the staging name is free again. With an error either every name but the staging
  -- database's stands for what it stood for; or the error names the backup where the target's database
  -- is; or the target is replaced by the staging database, and an error came behind both renames. In each case no other name
  -- has changed.
  pub replace_end :
      (o : Options) (m : Manifest) (snapshot staging : Bytes) (w : World Catalog W)
      → is_some (entry w.catalog o.target) ≡ true
      → let r = replace S K o m snapshot staging w in
        let made = oid_of (entry (create S staging o.owner w.catalog).1 staging) in
        RestoreEnd o.target staging made (entry w.catalog) r.0 (entry r.1.catalog)
  unfolding replace
  replace_end o m snapshot staging w there =
      from (create S staging o.owner w.catalog) (create-ok S L staging o.owner w.catalog)
        (create-err S L staging o.owner w.catalog)
    where
      from :
          (x : Result (Unit {0}) × Catalog)
          → ((u : Unit {0})
              → x.0 ≡ ok u
              → AfterStatement (create_database staging o.owner) (entry w.catalog) (entry x.1))
          → ((e : Error) → x.0 ≡ err e → Same (entry w.catalog) (entry x.1))
          → let r =
              settle_act
                (from_admin w x)
                (λ e w'. (inl e, w'))
                (λ _. or_discard S K staging (restore_into S K o m snapshot staging)) in
            RestoreEnd o.target staging
              (oid_of (entry x.1 staging))
              (entry w.catalog)
              r.0
              (entry r.1.catalog)
      from (ok u, c) law failed =
          staged_end o staging w.catalog c (law u refl) there m snapshot (record w { catalog = c })
            refl
      from (err e, c) law failed =
          inl (λ n h. ap oid_of (failed e refl n), ap oid_of (failed e refl o.target))
