-- ===== src/Restore/Database/Swap.antt =====
-- What `Swap` does to the databases of a lawful server, however its statements fail.
use pg_snapshot.Base.{◌≡◌, refl, ◌∙◌, ap, ◌≢◌, ◌⊎◌, inl, inr, Bool, true, false, [], Option}
use pg_snapshot.Base.{none, some, is_some}
use pg_snapshot.Base.Bytes.{Bytes}
use pg_snapshot.Restore.Server.{Server, IsLawful, Entry}
use pg_snapshot.Restore.State.{is_backup_of, backup_name}
use pg_snapshot.Restore.Database.Names.{pick_backup_name-ok}
use pg_snapshot.Restore.Database.{pick_backup_name}
use pg_snapshot.Restore.Database.{Error, stranded, Result, ok, err, M, return}
use pg_snapshot.Restore.Database.{rename, set_allow_connections, terminate_connections, reopen}
use pg_snapshot.Restore.Database.{
  unique_backup_name, put_back, swap_names, swap, inspect, move_staging,
}
use pg_snapshot.Restore.Database.{move_target, ◌>>=◌, ◌>>◌}
use pg_snapshot.Restore.Database.{swap_result, reopen_result}
use pg_snapshot.Restore.Database.Calls.{Same, settle_rule, rename-ok, rename-err, inspect-Same}
use pg_snapshot.Restore.Database.Calls.{set_allow_connections-ok, set_allow_connections-err}
use pg_snapshot.Restore.Database.Calls.{terminate_connections-Same}
use pg_snapshot.Restore.Database.Ends.{oid_of, Names, Untouched, MidSwap, Swapped, Untouched-trans}
use pg_snapshot.Restore.Database.Ends.{
  Same-Untouched, allow-Untouched, rename_MidSwap, rename_Swapped,
}
use pg_snapshot.Restore.Database.Ends.{rename_back_Untouched, Swapped-Untouched, accepts_after}
use pg_snapshot.Restore.Database.Ends.{oid_of-some, mid_kept, Swapped-kept}

-- How `Swap` may leave the databases, by what it returns: the backup's name and the error.
-- No error: swapped, and the target accepts connections. An error and a name: swapped. The error that
-- names a stranded backup: in the middle. Any other error: every database has the name that it had.
abbrev pub SwapEnd : Bytes → Bytes → Names → Names → Bytes → Option Error → Type 0
SwapEnd target staging old new backup none =
    Swapped target staging backup old new
    × ((e : Entry) × (new target ≡ some e) × (e.accepts ≡ true))
SwapEnd target staging old new backup (some e) =
    ((backup ≡ []) × Untouched old new)
    ⊎ (((b : Bytes) × (cause : Error) × (e ≡ stranded b target cause)
          × (backup ≡ [])
          × MidSwap target b old new)
        ⊎ Swapped target staging backup old new)

reopen_rule {ℓ} :
    {C : Type 0} (P : (Bytes × Option Error) × C → Type ℓ) (b : Bytes) (r : Result (Unit {0}) × C)
    → ((e : Error) → r.0 ≡ err e → P ((b, some e), r.1))
    → ((u : Unit {0}) → r.0 ≡ ok u → P ((b, none), r.1))
    → P (reopen_result b r)
reopen_rule P b (ok u, c) h k = k u refl
reopen_rule P b (err e, c) h k = h e refl

module _ (S : Server) (L : IsLawful S) (target staging stamp : Bytes) (c : S.Catalog)
    (apart : target ≢ staging) (alive : is_some (S.entry c staging) ≡ true) where
  open S use {Catalog, entry}

  -- How `swap_names` may leave them.
  abbrev NamesEnd : Result Bytes × Catalog → Type 0
  NamesEnd (ok b, c') = Swapped target staging b (entry c) (entry c')
  NamesEnd (err e, c') =
      Untouched (entry c) (entry c')
      ⊎ ((b : Bytes) × (cause : Error) × (e ≡ stranded b target cause)
          × MidSwap target b (entry c) (entry c'))

  ignore-Untouched :
      (allow : Bool) (c' : Catalog)
      → Untouched (entry c) (entry c')
      → Untouched (entry c) (entry (set_allow_connections S target allow c').1)
  ignore-Untouched allow c' u = cases (set_allow_connections S target allow c').0 refl
    where
      cases :
          (r : Result (Unit {0}))
          → (set_allow_connections S target allow c').0 ≡ r
          → Untouched (entry c) (entry (set_allow_connections S target allow c').1)
      cases (ok v) h =
          Untouched-trans _ _ _ u
            (allow-Untouched target allow _ _ (set_allow_connections-ok S L target allow c' v h))
      cases (err e) h = Same-Untouched _ _ _ u (set_allow_connections-err S L target allow c' e h)

  reopen-NamesEnd :
      (e : Error) (c' : Catalog) → Untouched (entry c) (entry c') → NamesEnd (reopen S target e c')
  unfolding reopen
  reopen-NamesEnd e c' u = inl (ignore-Untouched true c' u)

  put_back-NamesEnd :
      (b : Bytes) (e : Error) (c' : Catalog)
      → MidSwap target b (entry c) (entry c')
      → NamesEnd (put_back S target b e c')
  unfolding put_back
  put_back-NamesEnd b e c' m =
      settle_rule NamesEnd (rename S b target c') _ _
        (λ e' h. inr (
          b,
          e',
          refl,
          (m.0, m.1, m.2, λ n. ap oid_of (rename-err S L b target c' e' h n) ∙ m.3 n),
        ))
        (λ u h.
          reopen-NamesEnd e _
            (rename_back_Untouched target b _ _ _ m (rename-ok S L b target c' u h)))

  move_staging-NamesEnd :
      (b : Bytes) (d : Catalog)
      → MidSwap target b (entry c) (entry d)
      → NamesEnd (move_staging S target staging b d)
  unfolding move_staging
  move_staging-NamesEnd b d m =
      settle_rule NamesEnd (rename S staging target d) (put_back S target b) (λ _. return b)
        (λ e h.
          put_back-NamesEnd b e _
            (m.0, m.1, m.2, λ n. ap oid_of (rename-err S L staging target d e h n) ∙ m.3 n))
        (λ v h.
          rename_Swapped target staging b (entry c) (entry d) _ apart alive m
            (rename-ok S L staging target d v h))

  move_target-NamesEnd :
      (b : Bytes) (d : Catalog)
      → is_backup_of target b ≡ true
      → Untouched (entry c) (entry d)
      → NamesEnd (move_target S target staging b d)
  unfolding move_target
  move_target-NamesEnd b d kind u =
      settle_rule NamesEnd (rename S target b d) (reopen S target)
        (λ _. move_staging S target staging b)
        (λ e h. reopen-NamesEnd e _ (Same-Untouched _ _ _ u (rename-err S L target b d e h)))
        (λ v h.
          move_staging-NamesEnd b _
            (rename_MidSwap target b (entry c) (entry d) _ kind u (rename-ok S L target b d v h)))

  -- A step that leaves the names alone, and what comes behind it.
  step-NamesEnd :
      {A : Type 0} (m : M Catalog A) (g : A → M Catalog Bytes) (d : Catalog)
      → Untouched (entry c) (entry d)
      → Same (entry d) (entry (m d).1)
      → ((a : A) (d' : Catalog) → Untouched (entry c) (entry d') → NamesEnd (g a d'))
      → NamesEnd ((m >>= g) d)
  step-NamesEnd m g d u same later =
      settle_rule NamesEnd (m d) _ g (λ e h. inl (Same-Untouched _ _ _ u same))
        (λ a h. later a _ (Same-Untouched _ _ _ u same))

  unique_backup_name-Same :
      (d : Catalog) → Same (entry d) (entry (unique_backup_name S target stamp d).1)
  unfolding unique_backup_name
  unique_backup_name-Same d =
      settle_rule (λ x. Same (entry d) (entry x.1)) (inspect S target d) _ _
        (λ e h. inspect-Same S L target d) (λ set h. inspect-Same S L target d)

  unique_backup_name-kind :
      (b : Bytes) (d : Catalog)
      → (unique_backup_name S target stamp d).0 ≡ ok b
      → is_backup_of target b ≡ true
  unfolding unique_backup_name
  unique_backup_name-kind b d =
      settle_rule (λ x. x.0 ≡ ok b → is_backup_of target b ≡ true) (inspect S target d) _
        (λ set d'. (pick_backup_name set (backup_name target stamp), d')) (λ e h k. cc (k))
        (λ set h k. (pick_backup_name-ok set target stamp b k).1)

  swap_names-NamesEnd : NamesEnd (swap_names S target staging stamp c)
  unfolding swap_names
  swap_names-NamesEnd =
      settle_rule NamesEnd (set_allow_connections S target false c) _
        (λ _.
          terminate_connections S target
          >> (terminate_connections S staging
              >> (unique_backup_name S target stamp >>= move_target S target staging)))
        (λ e h. inl (λ n. ap oid_of (set_allow_connections-err S L target false c e h n)))
        (λ v h.
          closed _
            (allow-Untouched target false _ _ (set_allow_connections-ok S L target false c v h)))
    where
      picked :
          (d : Catalog)
          → Untouched (entry c) (entry d)
          → NamesEnd ((unique_backup_name S target stamp >>= move_target S target staging) d)
      picked d u =
          settle_rule NamesEnd (unique_backup_name S target stamp d) _
            (move_target S target staging)
            (λ e h. inl (Same-Untouched _ _ _ u (unique_backup_name-Same d)))
            (λ b h.
              move_target-NamesEnd b _ (unique_backup_name-kind b d h)
                (Same-Untouched _ _ _ u (unique_backup_name-Same d)))

      closed :
          (d : Catalog)
          → Untouched (entry c) (entry d)
          → NamesEnd (
              (terminate_connections S target
                  >> (terminate_connections S staging
                      >> (unique_backup_name S target stamp >>= move_target S target staging)))
                d)
      closed d u =
          step-NamesEnd (terminate_connections S target) _ d u
            (terminate_connections-Same S L target d)
            (λ _ d' u'.
              step-NamesEnd (terminate_connections S staging) _ d' u'
                (terminate_connections-Same S L staging d') (λ _. picked))

  result-SwapEnd :
      (x : Result Bytes × Catalog)
      → NamesEnd x
      → let y = swap_result (λ d. set_allow_connections S target true d) x in
        SwapEnd target staging (entry c) (entry y.1) y.0.0 y.0.1
  result-SwapEnd (err e, d) (inl u) = inl (refl, u)
  result-SwapEnd (err e, d) (inr (b, cause, is, m)) = inr (inl (b, cause, is, refl, m))
  result-SwapEnd (ok b, d) sw =
      reopen_rule (λ y. SwapEnd target staging (entry c) (entry y.1) y.0.0 y.0.1) b
        (set_allow_connections S target true d)
        (λ e h. inr (
          inr (
            Swapped-Untouched target staging b (entry c) (entry d) _ sw
              (λ n. ap oid_of (set_allow_connections-err S L target true d e h n)))))
        (λ u h.
          let law = set_allow_connections-ok S L target true d u h in
          (
            Swapped-Untouched target staging b (entry c) (entry d) _ sw
                (allow-Untouched target true (entry d) _ law),
            accepts_after target true (entry d) _ law,
          ))

  -- A swap of a staging database that exists, under another name than the target's, ends in one of
  -- four ways whichever of its statements fail. Without an error the target is the staging database
  -- and accepts connections, and the old target is the returned backup, under a name that was free.
  -- With an error and a backup's name the names are swapped too, and only the reopening failed. With
  -- any other error every name stands for the database that it stood for, but for the error that
  -- names a stranded backup: then the target's database has that name, and nothing else moved.
  pub swap_end :
      let r = swap S target staging stamp c in
      SwapEnd target staging (entry c) (entry r.1) r.0.0 r.0.1
  unfolding swap
  swap_end = result-SwapEnd (swap_names S target staging stamp c) swap_names-NamesEnd

-- Whatever the outcome, a swap loses no database: each one that had a name has one afterwards.
pub swap_keeps :
    (S : Server) (L : IsLawful S) (target staging stamp : Bytes) (c : S.Catalog)
    → target ≢ staging
    → is_some (S.entry c staging) ≡ true
    → (n : Bytes) (e : Entry) → S.entry c n ≡ some e
    → (m : Bytes) × (oid_of (S.entry (swap S target staging stamp c).1 m) ≡ some e.oid)
swap_keeps S L target staging stamp c apart alive n e h =
    from (swap S target staging stamp c) (swap_end S L target staging stamp c apart alive)
  where
    from :
        (r : (Bytes × Option Error) × S.Catalog)
        → SwapEnd target staging (S.entry c) (S.entry r.1) r.0.0 r.0.1
        → (m : Bytes) × (oid_of (S.entry r.1 m) ≡ some e.oid)
    from ((b, none), d) (sw, _) =
        Swapped-kept target staging b (S.entry c) (S.entry d) n e alive sw h
    from ((b, some x), d) (inl (_, u)) = (n, u n ∙ oid_of-some _ e h)
    from ((b, some x), d) (inr (inl (b', cause, is, nil, m))) =
        mid_kept target b' (S.entry c) (S.entry d) n e m h
    from ((b, some x), d) (inr (inr sw)) =
        Swapped-kept target staging b (S.entry c) (S.entry d) n e alive sw h
