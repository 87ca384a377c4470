-- ===== src/Restore/Run/Recovered.antt =====
-- restore/run.go: the "recover" phase. What it leaves of a target that exists.
use pg_snapshot.Base.{ℕ, zero, suc, ◌≡◌, refl, ◌∙◌, ap, inl, inr, true, false}
use pg_snapshot.Base.{List, [], ◌∷◌, is_some, arith, take}
use pg_snapshot.Base.Int.{ℤ, pos_part}
use pg_snapshot.Base.{length, ◌-◌, Bool-cases}
use pg_snapshot.Base.Bytes.{Bytes, =?_iff, =?_refl}
use pg_snapshot.Base.Sort.{sort}
use pg_snapshot.Base.Dict.{contains, contains-sort}
use pg_snapshot.Base.Act.{◌>>◌, raise}
use pg_snapshot.Base.{◌⊎◌}
use pg_snapshot.Restore.State.{DatabaseSet}
use pg_snapshot.Restore.State.{classify, expired_backups}
use pg_snapshot.Restore.Server.{Server, IsLawful}
use pg_snapshot.Restore.Database.{ok, drop, drop_all, recover, recover_from, inspect}
use pg_snapshot.Restore.Database.Calls.{settle_rule, inspect-Same, drop-ok, drop-err}
use pg_snapshot.Restore.Database.Inspect.{backup_of, left_over, inspect-exists, inspect-backups}
use pg_snapshot.Restore.Database.Inspect.{inspect-staging}
use pg_snapshot.Restore.Database.Recover.{classify-cases, is_idle, is_orphaned, is_crashed}
use pg_snapshot.Restore.Database.Recover.{is_missing}
use pg_snapshot.Restore.World.{World, Work, RunError, admin}
use pg_snapshot.Restore.Run.Away.{admin_rule, admin-catalog}
use pg_snapshot.Restore.Run.{Options, recover_phase, require_idle}

module _ (S : Server) (L : IsLawful S) where
  open S use {Catalog, entry}

  -- Whatever fails, dropping a list of databases touches no other name.
  drop_all_elsewhere :
      (l : List Bytes) (n : Bytes) (c : Catalog)
      → contains n l ≡ false
      → entry (drop_all S l c).1 n ≡ entry c n
  unfolding drop_all contains
  drop_all_elsewhere [] n c h = refl
  drop_all_elsewhere (name ∷ l) n c h =
      settle_rule (λ x. entry x.1 n ≡ entry c n) (drop S name c) _ (λ _. drop_all S l)
        (λ e k. drop-err S L name c e k n)
        (λ u k.
          drop_all_elsewhere l n _ (ground arith)
          ∙ ground (arith, drop-ok S L name c u k n, =?_iff n name, =?_iff name n))

  contains-take :
      (n : Bytes) (k : ℕ) (xs : List Bytes) → contains n (take k xs) ≡ true → contains n xs ≡ true
  unfolding contains
  contains-take n zero xs h = cc
  contains-take n (suc k) [] h = h
  contains-take n (suc k) (x ∷ xs) h = ground (arith, contains-take n k xs)

  -- The target itself is never an expired backup.
  expired-other :
      (set : DatabaseSet) (keep : ℤ) (target : Bytes) (c : Catalog)
      → (inspect S target c).0 ≡ ok set
      → contains target (expired_backups set keep) ≡ false
  unfolding expired_backups backup_of contains
  expired-other set keep target c h =
      elim (Bool-cases (contains target (expired_backups set keep))) [
        | inr other ↦ other
        | inl there ↦ absurd (
            ground (
              arith,
              contains-take target (length (sort set.backups) - pos_part keep) (sort set.backups),
              contains-sort target set.backups,
              inspect-backups S L target c set h target,
              =?_refl target,
            ))
      ]

  -- Whatever fails, a recovery leaves a target that exists as it is.
  pub recover_keeps :
      (target : Bytes) (c : Catalog)
      → is_some (entry c target) ≡ true
      → entry (recover S target c).1 target ≡ entry c target
  unfolding recover recover_from left_over
  recover_keeps target c alive =
      settle_rule (λ x. entry x.1 target ≡ entry c target) (inspect S target c) _
        (λ set. recover_from S target set (classify set)) (λ e k. inspect-Same S L target c target)
        (λ set k. switched set k ∙ inspect-Same S L target c target)
    where
      switched :
          (set : DatabaseSet)
          → (inspect S target c).0 ≡ ok set
          → entry (recover_from S target set (classify set) (inspect S target c).1).1 target
            ≡ entry (inspect S target c).1 target
      switched set k = elim (classify-cases set) [
        | is_idle is _ _ ↦
            ap (λ st. entry (recover_from S target set st (inspect S target c).1).1 target) is
        | is_orphaned is _ ↦
            ap (λ st. entry (recover_from S target set st (inspect S target c).1).1 target) is
            ∙ drop_all_elsewhere set.staging target _
                (ground (arith, inspect-staging S L target c set k target, =?_refl target))
        | is_crashed is gone _ ↦ absurd (cc (inspect-exists S L target c set k ∙ alive))
        | is_missing is gone ↦ absurd (cc (inspect-exists S L target c set k ∙ alive))
      ]

  -- Whatever fails, the phase leaves a target that exists as it is.
  pub recover_phase_keeps :
      {W Body : Type 0} (K : Work W Body) (o : Options) (w : World Catalog W)
      → is_some (entry w.catalog o.target) ≡ true
      → entry (recover_phase S K o w).1.catalog o.target ≡ entry w.catalog o.target
  unfolding recover_phase
  recover_phase_keeps {W} K o w alive =
      admin_rule (λ x. entry x.1.catalog o.target ≡ entry w.catalog o.target) (recover S o.target) _
        w (λ e h. recover_keeps o.target w.catalog alive)
        (λ u h.
          let c = (recover S o.target w.catalog).1 in
          admin_rule (λ x. entry x.1.catalog o.target ≡ entry w.catalog o.target)
            (inspect S o.target) _ (record w { catalog = c })
            (λ e k. inspect-Same S L o.target c o.target ∙ recover_keeps o.target w.catalog alive)
            (λ set k.
              expired_dropped (require_idle o.target set (classify set))
                (expired_backups set o.backup_retention) _
                (expired-other set o.backup_retention o.target c k)
                (inspect-Same S L o.target c o.target ∙ recover_keeps o.target w.catalog alive)))
    where
      expired_dropped :
          (r : RunError ⊎ Unit {0}) (l : List Bytes) (w' : World Catalog W)
          → contains o.target l ≡ false
          → entry w'.catalog o.target ≡ entry w.catalog o.target
          → entry ((raise r >> admin (drop_all S l)) w').1.catalog o.target
            ≡ entry w.catalog o.target
      expired_dropped (inl e) l w' h k = k
      expired_dropped (inr u) l w' h k =
          ap (λ d. entry d o.target) (admin-catalog w' (drop_all S l w'.catalog))
          ∙ (drop_all_elsewhere l o.target w'.catalog h ∙ k)
