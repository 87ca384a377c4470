-- ===== src/Tests/Instance.antt =====
-- A lawful server: an association list of databases, and a script of which next statements fail.
use pg_snapshot.Base.{
  ◌≡◌, refl, sym, ◌∙◌, ap, inl, inr, Bool, true, false, List, [], ◌∷◌, Option, none, some, arith,
}
use pg_snapshot.Base.{is_some, if◌then◌else◌, Bool-cases}
use pg_snapshot.Base.Bytes.{Bytes, codes, ◌=?◌, =?_iff, =?_refl}
use pg_snapshot.Base.Dict.{Dict, lookup, keys, contains, is_some-lookup}
use pg_snapshot.Restore.Server.{
  Server, IsLawful, Entry, Answer, done, failed, Listing, names, Statement,
}
use pg_snapshot.Restore.Server.{
  create_database, drop_database, allow_connections, terminate_backends, rename_database,
}
use pg_snapshot.Restore.Server.{with_accepts, AfterStatement}

pub record Instance : Type 0 where
  pub databases : Dict Entry
  pub faults : List Bool

unfoldable pub remove : Bytes → Dict Entry → Dict Entry
unfolding ◌=?◌
remove k [] = []
remove k ((j, e) ∷ m) = let rest = remove k m in if j =? k then rest else (j, e) ∷ rest

lookup-remove :
    (n k : Bytes) (m : Dict Entry) → lookup n (remove k m) ≡ (if n =? k then none else lookup n m)
unfolding lookup remove
lookup-remove n k [] = ground arith
lookup-remove n k ((j, e) ∷ m) =
    ground (arith, lookup-remove n k m, =?_iff j k, =?_iff j n, =?_iff n k)

abbrev pub created : Bytes → Dict Entry → Option Entry → Option (Dict Entry)
created name m (some e) = none
created name m none = some ((name, record { oid = 9; accepts = true }) ∷ m)

abbrev pub changed : Bytes → Bool → Dict Entry → Option Entry → Option (Dict Entry)
changed name allow m none = none
changed name allow m (some e) = some ((name, record e { accepts = allow }) ∷ remove name m)

abbrev pub moved : Bytes → Bytes → Dict Entry → Option Entry → Option Entry → Option (Dict Entry)
moved from to m none taken = none
moved from to m (some e) (some taken) = none
moved from to m (some e) none = some ((to, e) ∷ remove from m)

-- A statement that is not made to fail.
unfoldable pub perform : Statement → Dict Entry → Option (Dict Entry)
unfolding lookup remove
perform (create_database name owner) m = created name m (lookup name m)
perform (drop_database name) m = some (remove name m)
perform (allow_connections name allow) m = changed name allow m (lookup name m)
perform (terminate_backends name) m = some m
perform (rename_database from to) m = moved from to m (lookup from m) (lookup to m)

abbrev pub next_faults : List Bool → List Bool
next_faults [] = []
next_faults (b ∷ bs) = bs

abbrev pub fails_now : List Bool → Bool
fails_now [] = false
fails_now (b ∷ bs) = b

abbrev pub performed : List Bool → Dict Entry → Option (Dict Entry) → Answer × Instance
performed faults m none = (failed (codes "refused"), record { databases = m; faults = faults })
performed faults m (some m') = (done, record { databases = m'; faults = faults })

unfoldable pub execute : Statement → Instance → Answer × Instance
unfolding perform
execute q c =
    performed (next_faults c.faults) c.databases
      (if fails_now c.faults then none else perform q c.databases)

abbrev pub instance_server : Server
instance_server = record {
  Catalog = Instance;
  entry = λ c n. lookup n c.databases;
  list_databases = λ c. (names (keys c.databases), c);
  exec = execute;
}

lookup-front :
    (n k : Bytes) (e : Entry) (m : Dict Entry)
    → lookup n ((k, e) ∷ m) ≡ (if n =? k then some e else lookup n m)
unfolding lookup
lookup-front n k e m = ground (arith, =?_iff k n, =?_iff n k)

-- What a statement that succeeds has done.
abbrev After : Statement → Dict Entry → Option (Dict Entry) → Type 0
After q m none = Unit {0}
After q m (some m') = AfterStatement q (λ n. lookup n m) (λ n. lookup n m')

created_lem :
    (name owner : Bytes) (m : Dict Entry) (o : Option Entry)
    → lookup name m ≡ o
    → After (create_database name owner) m (created name m o)
created_lem name owner m (some e) is = tt
created_lem name owner m none is = (
  is,
  ground (arith, lookup-front name name (record { oid = 9; accepts = true }) m, =?_refl name),
  λ n other. ground (arith, lookup-front n name (record { oid = 9; accepts = true }) m),
)

changed_lem :
    (name : Bytes) (allow : Bool) (m : Dict Entry) (o : Option Entry)
    → lookup name m ≡ o
    → After (allow_connections name allow) m (changed name allow m o)
changed_lem name allow m none is = tt
changed_lem name allow m (some e) is = (
  ap is_some is,
  λ n. elim (Bool-cases (n =? name)) [
    | inl same ↦
        lookup-front n name (record e { accepts = allow }) (remove name m)
        ∙ rw same
            (ap (with_accepts allow) (sym (ap (λ k. lookup k m) ((=?_iff n name).0 same) ∙ is)))
    | inr other ↦
        lookup-front n name (record e { accepts = allow }) (remove name m)
        ∙ rw other (lookup-remove n name m ∙ rw other refl)
  ],
)

moved_lem :
    (from to : Bytes) (m : Dict Entry) (o p : Option Entry)
    → lookup from m ≡ o
    → lookup to m ≡ p
    → After (rename_database from to) m (moved from to m o p)
moved_lem from to m none p is free = tt
moved_lem from to m (some e) (some taken) is free = tt
moved_lem from to m (some e) none is free = (
  ap is_some is,
  free,
  λ n. ground (arith, lookup-front n to e (remove from m), lookup-remove n from m, is),
)

perform_lem : (q : Statement) (m : Dict Entry) → After q m (perform q m)
unfolding perform
perform_lem (create_database name owner) m = created_lem name owner m (lookup name m) refl
perform_lem (drop_database name) m = λ n. lookup-remove n name m
perform_lem (allow_connections name allow) m = changed_lem name allow m (lookup name m) refl
perform_lem (terminate_backends name) m = λ n. refl
perform_lem (rename_database from to) m =
    moved_lem from to m (lookup from m) (lookup to m) refl refl

performed-failed :
    (faults : List Bool) (m : Dict Entry) (o : Option (Dict Entry)) (e : Bytes)
    → (performed faults m o).0 ≡ failed e
    → (performed faults m o).1.databases ≡ m
performed-failed faults m none e h = refl
performed-failed faults m (some m') e h = cc

performed-done :
    (q : Statement) (faults : List Bool) (m : Dict Entry) (o : Option (Dict Entry))
    → After q m o
    → (performed faults m o).0 ≡ done
    → AfterStatement q (λ n. lookup n m) (λ n. lookup n (performed faults m o).1.databases)
performed-done q faults m none a h = cc
performed-done q faults m (some m') a h = a

perform-or-fault :
    (q : Statement) (m : Dict Entry) (b : Bool) → After q m (if b then none else perform q m)
perform-or-fault q m true = tt
perform-or-fault q m false = perform_lem q m

abbrev names_in : Listing → List Bytes
names_in (names l) = l
names_in (Listing.unlisted e) = []

pub instance_server-IsLawful : IsLawful instance_server
unfolding execute
instance_server-IsLawful = record {
  entry-list = λ c n. refl;
  names-list =
      λ c l h n. sym (ap (λ x. contains n (names_in x)) h) ∙ sym (is_some-lookup n c.databases);
  entry-failed =
      λ q c e h n. ap (lookup n) (performed-failed (next_faults c.faults) c.databases _ e h);
  entry-done = λ q c h.
      performed-done q (next_faults c.faults) c.databases _
        (perform-or-fault q c.databases (fails_now c.faults)) h;
}
