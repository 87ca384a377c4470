-- ===== src/Restore/Database/Calls.antt =====
-- What each call of `Admin` leaves in the catalog of a lawful server, and the rule for `if err != nil`.
use pg_snapshot.Base.{◌≡◌, refl, sym, ◌∙◌, ap, Bool, List, Option}
use pg_snapshot.Base.{is_some, subst}
use pg_snapshot.Base.Bytes.{Bytes}
use pg_snapshot.Base.Dict.{contains}
use pg_snapshot.Restore.State.{DatabaseSet}
use pg_snapshot.Restore.Server.{Server, IsLawful, Entry, Statement, AfterStatement, Answer, done}
use pg_snapshot.Restore.Server.{failed, Listing, names, unlisted, allow_connections, drop_database}
use pg_snapshot.Restore.Server.{terminate_backends, rename_database, create_database}
use pg_snapshot.Restore.Database.{Error, Result, ok, err, M, settle, answered, listed, inspect_rows}
use pg_snapshot.Restore.Database.{no_databases, inspect, create, drop, set_allow_connections}
use pg_snapshot.Restore.Database.{terminate_connections, rename}

-- To prove something of both branches, prove it of each with the result that leads there.
pub settle_rule {ℓ} :
    {A B C : Type 0} (P : Result B × C → Type ℓ) (r : Result A × C) (f : Error → M C B)
    (g : A → M C B)
    → ((e : Error) → r.0 ≡ err e → P (f e r.1))
    → ((a : A) → r.0 ≡ ok a → P (g a r.1))
    → P (settle r f g)
settle_rule P (ok a, c) f g h k = k a refl
settle_rule P (err e, c) f g h k = h e refl

-- Nothing changed.
abbrev pub Same : (Bytes → Option Entry) → (Bytes → Option Entry) → Type 0
Same old new = (n : Bytes) → new n ≡ old n

answered_ok :
    {C : Type 0} (wrap : Bytes → Error) (x : Answer × C) → (answered wrap x).0 ≡ ok tt → x.0 ≡ done
answered_ok wrap (done, c) h = refl
answered_ok wrap (failed m, c) h = cc

answered_err :
    {C : Type 0} (wrap : Bytes → Error) (x : Answer × C) (e : Error)
    → (answered wrap x).0 ≡ err e
    → (m : Bytes) × (x.0 ≡ failed m) × (e ≡ wrap m)
answered_err wrap (done, c) e h = cc
answered_err wrap (failed m, c) e h = (m, refl, cc)

answered_catalog : {C : Type 0} (wrap : Bytes → Error) (x : Answer × C) → (answered wrap x).1 ≡ x.1
answered_catalog wrap (done, c) = refl
answered_catalog wrap (failed m, c) = refl

module _ (S : Server) (L : IsLawful S) where
  open S use {Catalog, entry, list_databases, exec}

  call-done :
      (q : Statement) (wrap : Bytes → Error) (c : Catalog)
      → (answered wrap (exec q c)).0 ≡ ok tt
      → AfterStatement q (entry c) (entry (answered wrap (exec q c)).1)
  call-done q wrap c h =
      subst (λ d. AfterStatement q (entry c) (entry d)) (sym (answered_catalog wrap (exec q c)))
        (L.entry-done q c (answered_ok wrap (exec q c) h))

  call-failed :
      (q : Statement) (wrap : Bytes → Error) (c : Catalog) (e : Error)
      → (answered wrap (exec q c)).0 ≡ err e
      → Same (entry c) (entry (answered wrap (exec q c)).1)
  call-failed q wrap c e h n =
      let (m, f, same) = answered_err wrap (exec q c) e h in
      ap (λ d. entry d n) (answered_catalog wrap (exec q c)) ∙ L.entry-failed q c m f n

  pub create-ok :
      (name owner : Bytes) (c : Catalog) (u : Unit {0})
      → (create S name owner c).0 ≡ ok u
      → AfterStatement (create_database name owner) (entry c) (entry (create S name owner c).1)
  unfolding create
  create-ok name owner c u h = call-done (create_database name owner) _ c h

  pub create-err :
      (name owner : Bytes) (c : Catalog) (e : Error)
      → (create S name owner c).0 ≡ err e
      → Same (entry c) (entry (create S name owner c).1)
  unfolding create
  create-err name owner c e h = call-failed (create_database name owner) _ c e h

  pub rename-ok :
      (from to : Bytes) (c : Catalog) (u : Unit {0})
      → (rename S from to c).0 ≡ ok u
      → AfterStatement (rename_database from to) (entry c) (entry (rename S from to c).1)
  unfolding rename
  rename-ok from to c u h = call-done (rename_database from to) _ c h

  pub rename-err :
      (from to : Bytes) (c : Catalog) (e : Error)
      → (rename S from to c).0 ≡ err e
      → Same (entry c) (entry (rename S from to c).1)
  unfolding rename
  rename-err from to c e h = call-failed (rename_database from to) _ c e h

  pub set_allow_connections-ok :
      (name : Bytes) (allow : Bool) (c : Catalog) (u : Unit {0})
      → (set_allow_connections S name allow c).0 ≡ ok u
      → AfterStatement
          (allow_connections name allow)
          (entry c)
          (entry (set_allow_connections S name allow c).1)
  unfolding set_allow_connections
  set_allow_connections-ok name allow c u h = call-done (allow_connections name allow) _ c h

  pub set_allow_connections-err :
      (name : Bytes) (allow : Bool) (c : Catalog) (e : Error)
      → (set_allow_connections S name allow c).0 ≡ err e
      → Same (entry c) (entry (set_allow_connections S name allow c).1)
  unfolding set_allow_connections
  set_allow_connections-err name allow c e h = call-failed (allow_connections name allow) _ c e h

  -- The result does not matter: the catalog is the same.
  pub terminate_connections-Same :
      (name : Bytes) (c : Catalog) → Same (entry c) (entry (terminate_connections S name c).1)
  unfolding terminate_connections
  terminate_connections-Same name c = cases (answered _ (exec (terminate_backends name) c)).0 refl
    where
      cases :
          (r : Result (Unit {0}))
          → (terminate_connections S name c).0 ≡ r
          → Same (entry c) (entry (terminate_connections S name c).1)
      cases (ok u) h = call-done (terminate_backends name) _ c h
      cases (err e) h = call-failed (terminate_backends name) _ c e h

  pub drop-ok :
      (name : Bytes) (c : Catalog) (u : Unit {0})
      → (drop S name c).0 ≡ ok u
      → AfterStatement (drop_database name) (entry c) (entry (drop S name c).1)
  unfolding drop
  drop-ok name c u h = call-done (drop_database name) _ c h

  pub drop-err :
      (name : Bytes) (c : Catalog) (e : Error)
      → (drop S name c).0 ≡ err e
      → Same (entry c) (entry (drop S name c).1)
  unfolding drop
  drop-err name c e h = call-failed (drop_database name) _ c e h

  pub inspect-Same : (target : Bytes) (c : Catalog) → Same (entry c) (entry (inspect S target c).1)
  unfolding inspect
  inspect-Same target c n =
      ap (λ d. entry d n) (listed_catalog (list_databases c)) ∙ L.entry-list c n
    where
      listed_catalog : (x : Listing × Catalog) → (listed target x).1 ≡ x.1
      listed_catalog (names rows, d) = refl
      listed_catalog (unlisted m, d) = refl

  -- A successful inspection has sorted the names that exist.
  pub inspect-ok :
      (target : Bytes) (c : Catalog) (set : DatabaseSet)
      → (inspect S target c).0 ≡ ok set
      → (rows : List Bytes) × (set ≡ inspect_rows rows (no_databases target))
        × ((n : Bytes) → contains n rows ≡ is_some (entry c n))
  unfolding inspect
  inspect-ok target c set h =
      let (rows, e, is) = from (list_databases c) h in (rows, is, L.names-list c rows e)
    where
      from :
          (x : Listing × Catalog)
          → (listed target x).0 ≡ ok set
          → (rows : List Bytes) × (x.0 ≡ names rows)
            × (set ≡ inspect_rows rows (no_databases target))
      from (names rows, d) e = (rows, refl, cc)
      from (unlisted m, d) e = cc
