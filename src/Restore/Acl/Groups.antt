-- ===== src/Restore/Acl/Groups.antt =====
-- The groups that an entry's privileges are granted in.
use pg_snapshot.Base.{
  ◌≡◌, refl, sym, ◌∙◌, ap, Bool, true, false, not, List, [], ◌∷◌, ◌++◌, Option, none, some,
}
use pg_snapshot.Base.{if◌then◌else◌, arith, append_assoc, append-nil}
use pg_snapshot.Base.Bytes.{Bytes}
use pg_snapshot.Restore.Acl.{
  AclPriv, AclEntry, Grant, PrivNames, priv_name, column_name, split_from, split_grants,
}
use pg_snapshot.Restore.Acl.{add_privilege, unless_empty}

-- Whether two flags agree.
abbrev pub same_flag : Bool → Bool → Bool
same_flag true b = b
same_flag false b = not b

-- What the grants give with the grant option, or without it.
abbrev pub given : Bool → List Grant → List Bytes
given o [] = []
given o (g ∷ gs) = (if same_flag o g.option then g.privileges else []) ++ given o gs

module _ (quote : Bytes → Bytes) (names : PrivNames) (column : Bytes) where
  abbrev pub named : Option Bytes → List Bytes
  named none = []
  named (some name) = column_name quote column name ∷ []

  -- The names of the privileges that an entry holds with the grant option, or without it.
  abbrev pub held : Bool → List AclPriv → List Bytes
  unfolding priv_name
  held o [] = []
  held o (p ∷ ps) =
      (if same_flag o p.option then named (priv_name names p.char) else []) ++ held o ps

  -- One group of the two, by its flag.
  abbrev group : Bool → Grant × Grant → Grant
  group false groups = groups.0
  group true groups = groups.1

  -- What one privilege adds to a group, and that it leaves the group's flag.
  add_privilege-group :
      (o b : Bool) (n : Option Bytes) (groups : Grant × Grant)
      → ((group o (add_privilege quote column b n groups)).privileges
          ≡ (group o groups).privileges ++ (if same_flag o b then named n else []))
        × ((group o (add_privilege quote column b n groups)).option ≡ (group o groups).option)
  add_privilege-group false false none groups = (sym (append-nil _), refl)
  add_privilege-group false true none groups = (sym (append-nil _), refl)
  add_privilege-group true false none groups = (sym (append-nil _), refl)
  add_privilege-group true true none groups = (sym (append-nil _), refl)
  add_privilege-group false false (some name) groups = (refl, refl)
  add_privilege-group false true (some name) groups = (sym (append-nil _), refl)
  add_privilege-group true false (some name) groups = (sym (append-nil _), refl)
  add_privilege-group true true (some name) groups = (refl, refl)

  split_from-group :
      (o : Bool) (ps : List AclPriv) (groups : Grant × Grant)
      → ((group o (split_from quote names column ps groups)).privileges
          ≡ (group o groups).privileges ++ held o ps)
        × ((group o (split_from quote names column ps groups)).option ≡ (group o groups).option)
  unfolding split_from held
  split_from-group o [] groups = (sym (append-nil _), refl)
  split_from-group o (p ∷ ps) groups =
      let (first, flag) = add_privilege-group o p.option (priv_name names p.char) groups in
      let (rest, same) =
        split_from-group o ps
          (add_privilege quote column p.option (priv_name names p.char) groups) in
      (
        rest
            ∙ ap (λ l. l ++ held o ps) first
            ∙ append_assoc (group o groups).privileges
                (if same_flag o p.option then named (priv_name names p.char) else []) (held o ps),
        same ∙ flag,
      )

given-unless_empty :
    (quote : Bytes → Bytes) (o : Bool) (g : Grant) (l : List Bytes)
    → g.privileges ≡ l
    → given o (unless_empty quote g) ≡ (if same_flag o g.option then l else [])
given-unless_empty quote o g [] e = rw e (ground arith)
given-unless_empty quote o g (n ∷ l) e = rw e (append-nil _)

given-append : (o : Bool) (gs hs : List Grant) → given o (gs ++ hs) ≡ given o gs ++ given o hs
given-append o [] hs = refl
given-append o (g ∷ gs) hs =
    ap (λ l. (if same_flag o g.option then g.privileges else []) ++ l) (given-append o gs hs)
    ∙ sym (append_assoc _ (given o gs) (given o hs))

given-group :
    (quote : Bytes → Bytes) (names : PrivNames) (column : Bytes) (o : Bool) (g h : Grant)
    → g.option ≡ false
    → h.option ≡ true
    → given o (unless_empty quote g ++ unless_empty quote h)
      ≡ (group quote names column o (g, h)).privileges
given-group quote names column false g h off on =
    given-append false (unless_empty quote g) (unless_empty quote h)
    ∙ rw
        (
          given-unless_empty quote false g g.privileges refl,
          given-unless_empty quote false h h.privileges refl,
          off,
          on,
        )
        (append-nil g.privileges)
given-group quote names column true g h off on =
    given-append true (unless_empty quote g) (unless_empty quote h)
    ∙ rw
        (
          given-unless_empty quote true g g.privileges refl,
          given-unless_empty quote true h h.privileges refl,
          off,
          on,
        )
        refl

-- The grants of an entry give exactly the known privileges that it holds: with the grant option those
-- that it holds with it, and without the option those that it holds without, in the entry's order.
pub split_grants-held :
    (quote : Bytes → Bytes) (names : PrivNames) (column : Bytes) (entry : AclEntry) (o : Bool)
    → given o (split_grants quote entry names column) ≡ held quote names column o entry.privs
unfolding split_grants
split_grants-held quote names column entry o =
    let groups = split_from quote names column entry.privs (start false, start true) in
    let (all, _) = split_from-group quote names column o entry.privs (start false, start true) in
    given-group quote names column o groups.0 groups.1
      (split_from-group quote names column false entry.privs (start false, start true)).1
      (split_from-group quote names column true entry.privs (start false, start true)).1
    ∙ all
    ∙ from o
  where
    start : Bool → Grant
    start option = record { grantee = entry.grantee; privileges = []; option = option }

    from :
        (b : Bool)
        → (group quote names column b (start false, start true)).privileges
            ++ held quote names column o entry.privs
          ≡ held quote names column o entry.privs
    from false = refl
    from true = refl
