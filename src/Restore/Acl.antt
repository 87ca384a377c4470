-- ===== src/Restore/Acl.antt =====
-- The aclitem parser and the grants it renders: restore/privileges.go, and restore/carryover.go for
-- a database's own privileges. `quote` is `pq.QuoteIdentifier`.
pub mod RoundTrip
pub mod Groups
use pg_snapshot.Base.{
  is_nil, ℕ, Bool, true, false, not, ◌&&◌, List, [], ◌∷◌, ◌++◌, Option, none, some,
}
use pg_snapshot.Base.{if◌then◌else◌, ◌==◌}
use pg_snapshot.Base.Bytes.{Bytes, codes, ◌=?◌, cut, join}

pub record AclPriv : Type 0 where
  pub char : ℕ
  pub option : Bool

pub record AclEntry : Type 0 where
  pub grantee : Bytes
  pub privs : List AclPriv

pub record Grant : Type 0 where
  pub grantee : Bytes
  pub privileges : List Bytes
  pub option : Bool

pub record Statement : Type 0 where
  pub sql : Bytes
  pub owner : Bytes
  pub object : Bytes

pub record DefaultAcl : Type 0 where
  pub role : Bytes
  pub schema : Bytes
  pub obj_type : Bytes
  pub acl : List Bytes

abbrev pub prepend : ℕ → Option (Bytes × Bytes) → Option (Bytes × Bytes)
prepend c none = none
prepend c (some (name, rest)) = some (c ∷ name, rest)

-- The loop over a quoted grantee; `true` is behind a quote that is not decided yet.
unfoldable pub quoted_from : Bool → Bytes → Option (Bytes × Bytes)
quoted_from pending [] = none
quoted_from false (c ∷ s) =
    let rest = quoted_from (c == b'"') s in if c == b'"' then rest else prepend c rest
quoted_from true (c ∷ s) =
    let rest = quoted_from false s in
    if c == b'"' then prepend b'"' rest else if c == b'=' then some ([], s) else none

abbrev pub found_pair : Bytes × Bytes × Bool → Option (Bytes × Bytes)
found_pair (before, after, true) = some (before, after)
found_pair (before, after, false) = none

unfoldable pub split_acl_grantee : Bytes → Option (Bytes × Bytes)
unfolding quoted_from cut
split_acl_grantee [] = found_pair (cut [] (codes "="))
split_acl_grantee (c ∷ s) =
    if c == b'"' then quoted_from false s else found_pair (cut (c ∷ s) (codes "="))

-- `entry.Privs[n-1].Option = true`, where there is such an entry.
unfoldable pub mark_last : List AclPriv → List AclPriv
mark_last [] = []
mark_last (p ∷ []) = record p { option = true } ∷ []
mark_last (p ∷ q ∷ ps) = p ∷ mark_last (q ∷ ps)

-- The loop of `parseAclItem`.
unfoldable pub privs_from : List AclPriv → Bytes → List AclPriv
unfolding mark_last
privs_from privs [] = privs
privs_from privs (c ∷ s) =
    privs_from
      (if c == b'*' then mark_last privs else privs ++ record { char = c; option = false } ∷ []) s

unfoldable pub parse_acl_item : Bytes → Option AclEntry
unfolding split_acl_grantee cut privs_from
parse_acl_item item = elim (split_acl_grantee item) [
  | none ↦ none
  | some (grantee, rest) ↦
      some (record { grantee = grantee; privs = privs_from [] (cut rest (codes "/")).0 })
]

unfoldable pub parse_acl : List Bytes → List AclEntry
unfolding parse_acl_item
parse_acl [] = []
parse_acl (item ∷ items) = elim (parse_acl_item item) [
  | none ↦ parse_acl items
  | some entry ↦ entry ∷ parse_acl items
]

-- The names of the privileges of a kind of object, by their characters.
abbrev pub PrivNames : Type 0
PrivNames = List (ℕ × Bytes)

abbrev pub schema_privs : PrivNames
schema_privs = (b'U', codes "USAGE") ∷ (b'C', codes "CREATE") ∷ []

abbrev pub table_privs : PrivNames
table_privs =
    (b'r', codes "SELECT")
    ∷ (b'w', codes "UPDATE")
    ∷ (b'a', codes "INSERT")
    ∷ (b'd', codes "DELETE")
    ∷ (b'D', codes "TRUNCATE")
    ∷ (b'x', codes "REFERENCES")
    ∷ (b't', codes "TRIGGER")
    ∷ (b'm', codes "MAINTAIN")
    ∷ []

abbrev pub sequence_privs : PrivNames
sequence_privs = (b'r', codes "SELECT") ∷ (b'w', codes "UPDATE") ∷ (b'U', codes "USAGE") ∷ []

abbrev pub column_privs : PrivNames
column_privs =
    (b'r', codes "SELECT")
    ∷ (b'w', codes "UPDATE")
    ∷ (b'a', codes "INSERT")
    ∷ (b'x', codes "REFERENCES")
    ∷ []

abbrev pub routine_privs : PrivNames
routine_privs = (b'X', codes "EXECUTE") ∷ []

abbrev pub type_privs : PrivNames
type_privs = (b'U', codes "USAGE") ∷ []

unfoldable pub priv_name : PrivNames → ℕ → Option Bytes
priv_name [] c = none
priv_name ((d, name) ∷ names) c = if d == c then some name else priv_name names c

-- The words of an object type in `defaultKinds`: its plural, and its privileges.
unfoldable pub default_kind : Bytes → Option (Bytes × PrivNames)
unfolding ◌=?◌
default_kind t =
    if t =? codes "r"
    then some (codes "TABLES", table_privs)
    else if t =? codes "S"
    then some (codes "SEQUENCES", sequence_privs)
    else if t =? codes "f"
    then some (codes "FUNCTIONS", routine_privs)
    else if t =? codes "T"
    then some (codes "TYPES", type_privs)
    else if t =? codes "n"
    then some (codes "SCHEMAS", schema_privs)
    else none

module _ (quote : Bytes → Bytes) where
  -- A privilege's name, with the column that it is limited to.
  unfoldable pub column_name : Bytes → Bytes → Bytes
  column_name column name =
      if is_nil column then name else name ++ (codes " (" ++ (quote column ++ codes ")"))

  abbrev pub append_privilege : Bytes → Grant → Grant
  append_privilege name g = record g { privileges = g.privileges ++ name ∷ [] }

  -- What a privilege with a name, or with none, adds to the two groups.
  abbrev pub add_privilege : Bytes → Bool → Option Bytes → Grant × Grant → Grant × Grant
  add_privilege column granted none groups = groups
  add_privilege column granted (some name) (plain, option) =
      if granted
      then (plain, append_privilege (column_name column name) option)
      else (append_privilege (column_name column name) plain, option)

  -- The loop of `splitGrants`.
  unfoldable pub split_from : PrivNames → Bytes → List AclPriv → Grant × Grant → Grant × Grant
  unfolding priv_name column_name
  split_from names column [] groups = groups
  split_from names column (p ∷ ps) groups =
      split_from names column ps (add_privilege column p.option (priv_name names p.char) groups)

  abbrev pub unless_empty : Grant → List Grant
  unless_empty g = if is_nil g.privileges then [] else g ∷ []

  unfoldable pub split_grants : AclEntry → PrivNames → Bytes → List Grant
  unfolding split_from
  split_grants entry names column =
      let plain : Grant = record { grantee = entry.grantee; privileges = []; option = false } in
      let option : Grant = record { grantee = entry.grantee; privileges = []; option = true } in
      let groups = split_from names column entry.privs (plain, option) in
      unless_empty groups.0 ++ unless_empty groups.1

  unfoldable pub grant_target : Grant → Bytes
  grant_target g = if is_nil g.grantee then codes "PUBLIC" else quote g.grantee

  abbrev pub with_option : Grant → Bytes
  with_option g = if g.option then codes " WITH GRANT OPTION" else []

  unfoldable pub grant_sql : Grant → Bytes → Bytes
  unfolding grant_target join
  grant_sql g on =
      codes "GRANT "
      ++ (join g.privileges (codes ", ")
          ++ (codes " ON " ++ (on ++ (codes " TO " ++ (grant_target g ++ with_option g)))))

  unfoldable pub default_sql : Grant → Bytes → Bytes → Bytes → Bytes
  unfolding grant_target join
  default_sql g role schema objects =
      codes "ALTER DEFAULT PRIVILEGES FOR ROLE "
      ++ (quote role
          ++ ((if is_nil schema then [] else codes " IN SCHEMA " ++ quote schema)
              ++ (codes " GRANT "
                  ++ (join g.privileges (codes ", ")
                      ++ (codes " ON "
                          ++ (objects ++ (codes " TO " ++ (grant_target g ++ with_option g))))))))

  unfoldable pub quote_name : Bytes → Bytes → Bytes
  quote_name schema name =
      if is_nil name then quote schema else quote schema ++ (codes "." ++ quote name)

  abbrev pub grants_sql : List Grant → Bytes → List Bytes
  grants_sql [] on = []
  grants_sql (g ∷ gs) on = grant_sql g on ∷ grants_sql gs on

  -- The loop of `grantStatements` over the parsed entries.
  unfoldable pub entry_statements : List AclEntry → Bytes → PrivNames → Bytes → Bytes → List Bytes
  unfolding split_grants grant_sql ◌=?◌
  entry_statements [] owner names column on = []
  entry_statements (entry ∷ entries) owner names column on =
      (if entry.grantee =? owner then [] else grants_sql (split_grants entry names column) on)
      ++ entry_statements entries owner names column on

  unfoldable pub grant_statements : List Bytes → Bytes → PrivNames → Bytes → Bytes → List Bytes
  unfolding parse_acl entry_statements
  grant_statements acl owner names column on =
      entry_statements (parse_acl acl) owner names column on
