-- ===== src/Restore/Database/Crash.antt =====
-- `Recover` behind an earlier run: the state it leaves, and what it makes of a swap that failed.
use pg_snapshot.Base.{◌≡◌, refl, ◌∙◌, ap, ◌≢◌, inl, inr, true, false, [], ◌∷◌}
use pg_snapshot.Base.{none, some, arith, is_some, Option-cases, Bool-cases, subst}
use pg_snapshot.Base.{◌&&◌}
use pg_snapshot.Base.Bytes.{Bytes, ◌=?◌, =?_iff, =?_refl, =?_sound}
use pg_snapshot.Base.Sort.{less}
use pg_snapshot.Restore.State.{DatabaseSet, idle, is_backup_of, classify}
use pg_snapshot.Restore.Server.{Server, IsLawful, Entry}
use pg_snapshot.Restore.Database.{Error, stranded, ok, err, inspect, swap, recover}
use pg_snapshot.Restore.Database.{set_allow_connections, terminate_connections}
use pg_snapshot.Restore.Database.Calls.{set_allow_connections-ok, terminate_connections-Same}
use pg_snapshot.Restore.Database.Inspect.{left_over, backup_of, inspect-exists, inspect-staging}
use pg_snapshot.Restore.Database.Inspect.{length_of_empty}
use pg_snapshot.Restore.Database.Ends.{oid_of, MidSwap, accepts_after}
use pg_snapshot.Restore.Database.Swap.{SwapEnd, swap_end}
use pg_snapshot.Restore.Database.Recover.{recover_existing, recover_missing}

left_over_target : (target : Bytes) → left_over target target ≡ false
unfolding left_over
left_over_target target = ground (arith, =?_refl target)

module _ (S : Server) (L : IsLawful S) (target : Bytes) (c : S.Catalog)
    (h : (recover S target c).0 ≡ ok tt) where
  -- After a successful recovery the target exists.
  recover_alive : is_some (S.entry (recover S target c).1 target) ≡ true
  recover_alive = elim (Option-cases (S.entry c target)) [
    | inr (e, is) ↦
        ground
          (arith, recover_existing S L target c (ap is_some is) h target, left_over_target target)
    | inl lost ↦
        let (b, _, there, _, f, _) = recover_missing S L target c lost h in ground (arith, f)
  ]

  -- And no name is left that looks like a staging database.
  recover_clean :
      (n : Bytes) → (is_some (S.entry (recover S target c).1 n) && left_over target n) ≡ false
  recover_clean n = elim (Option-cases (S.entry c target)) [
    | inr (e, is) ↦ ground (arith, recover_existing S L target c (ap is_some is) h n)
    | inl lost ↦
        let (b, _, there, _, _, f) = recover_missing S L target c lost h in
        elim (Bool-cases (n =? target)) [
          | inl same ↦
              ground
                (arith, left_over_target target, ap (left_over target) ((=?_iff n target).0 same))
          | inr other ↦ ground (arith, f n other)
        ]
  ]

  -- Whatever an earlier run left behind, an inspection after a successful recovery finds the target
  -- idle: it exists, and no staging database does.
  pub recover_idle :
      (set : DatabaseSet)
      → (inspect S target (recover S target c).1).0 ≡ ok set
      → classify set ≡ idle
  unfolding classify
  recover_idle set seen =
      let d = (recover S target c).1 in
      ground (
        arith,
        inspect-exists S L target d set seen,
        recover_alive,
        length_of_empty set.staging
            (λ n. inspect-staging S L target d set seen n ∙ recover_clean n),
      )

not_backup-nil : (target : Bytes) → is_backup_of target [] ≡ false
unfolding is_backup_of
not_backup-nil [] = refl
not_backup-nil (x ∷ target) = refl

module _ (S : Server) (L : IsLawful S) (target staging stamp : Bytes) (c : S.Catalog)
    (apart : target ≢ staging) (alive : is_some (S.entry c staging) ≡ true) where
  open S use {Catalog, entry}

  -- From the middle of a swap, the newest backup is the target of before.
  recover_mid :
      (b : Bytes) (d : Catalog)
      → MidSwap target b (entry c) (entry d)
      → ((n : Bytes) → is_some (entry c n) ≡ true → backup_of target n ≡ true → less n b ≡ true)
      → (recover S target d).0 ≡ ok tt
      → oid_of (entry (recover S target d).1 target) ≡ oid_of (entry c target)
  unfolding backup_of
  recover_mid b d (kind, was, free, m) newest h =
      let (b', like, there, greatest, f, _) = recover_missing S L target d lost h in
      ground (arith, f, m b, =?_refl b, ap (λ n. oid_of (entry d n)) (same b' like there greatest))
    where
      lost : entry d target ≡ none
      lost = ground (arith, m target, =?_refl target, =?_iff target b)

      b_apart : b =? target ≡ false
      b_apart = elim (Bool-cases (b =? target)) [
        | inl e ↦ absurd (ground (arith, ap (entry c) (=?_sound b target e), was, free))
        | inr e ↦ e
      ]

      there_before :
          (b' : Bytes)
          → b' =? b ≡ false
          → b' =? target ≡ false
          → is_some (entry d b') ≡ true
          → is_some (entry c b') ≡ true
      there_before b' e e' there = ground (arith, m b')

      same :
          (b' : Bytes)
          → backup_of target b' ≡ true
          → is_some (entry d b') ≡ true
          → ((n : Bytes)
              → is_some (entry d n) ≡ true
              → backup_of target n ≡ true
              → less b' n ≡ false)
          → b' ≡ b
      same b' like there greatest = elim (Bool-cases (b' =? b)) [
        | inl e ↦ =?_sound b' b e
        | inr e ↦ absurd (
            ground (
              arith,
              newest b' (there_before b' e (ground (arith, like)) there) like,
              greatest b (ground (arith, m b, =?_refl b)) (ground (arith, b_apart, kind)),
            ))
      ]

  -- A swap that fails without a backup's name is undone by the next recovery that succeeds: the
  -- target's name stands for the database that it stood for before the swap, also if the swap was cut
  -- off between its renames. The target existed, and a stranded backup sorts after all older ones.
  pub recover_after_swap :
      is_some (entry c target) ≡ true
      → (e : Error) → (swap S target staging stamp c).0 ≡ ([], some e)
      → ((b : Bytes) (cause : Error)
          → e ≡ stranded b target cause
          → (n : Bytes) → is_some (entry c n) ≡ true
          → backup_of target n ≡ true
          → less n b ≡ true)
      → (recover S target (swap S target staging stamp c).1).0 ≡ ok tt
      → oid_of (entry (recover S target (swap S target staging stamp c).1).1 target)
        ≡ oid_of (entry c target)
  recover_after_swap there e is newest h = from (
      subst (λ x. SwapEnd target staging (entry c) (entry d) x.0 x.1) is
        (swap_end S L target staging stamp c apart alive))
    where
      d : Catalog
      d = (swap S target staging stamp c).1

      from :
          SwapEnd target staging (entry c) (entry d) [] (some e)
          → oid_of (entry (recover S target d).1 target) ≡ oid_of (entry c target)
      from (inl (_, u)) = ground (
        arith,
        u target,
        recover_existing S L target d (ground (arith, u target)) h target,
        left_over_target target,
      )
      from (inr (inl (b, cause, named, _, m))) = recover_mid b d m (newest b cause named) h
      from (inr (inr (kind, _, _, _))) = absurd (cc (not_backup-nil target))

module _ (S : Server) (L : IsLawful S) (target staging stamp : Bytes) (c : S.Catalog) where
  open S use {Catalog, entry}

  -- If the target is closed and its sessions then cannot be terminated, the swap returns that error
  -- and the target stays closed: nothing opens it again.
  pub swap_closed :
      (x : Error)
      → (set_allow_connections S target false c).0 ≡ ok tt
      → (terminate_connections S target (set_allow_connections S target false c).1).0 ≡ err x
      → ((swap S target staging stamp c).0 ≡ ([], some x))
        × (e : Entry) × (entry (swap S target staging stamp c).1 target ≡ some e)
        × (e.accepts ≡ false)
  unfolding swap
  swap_closed x closed stuck =
      let d = (set_allow_connections S target false c).1 in
      let (e, is, shut) =
        accepts_after target false (entry c) (entry d)
          (set_allow_connections-ok S L target false c tt closed) in
      rw (closed, stuck) (refl, e, terminate_connections-Same S L target d target ∙ is, shut)
