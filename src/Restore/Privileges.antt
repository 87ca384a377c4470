-- ===== src/Restore/Privileges.antt =====
-- restore/privileges.go: the plan of a carry-over, what is taken out of it, and the rules for default
-- privileges. Reading the catalogs, the objects of `Plan` and borrowing roles are not modelled.
pub mod Reach
use pg_snapshot.Base.{Bool, true, false, List, [], ◌∷◌, ◌++◌, Option, none, some, if◌then◌else◌}
use pg_snapshot.Base.Bytes.{Bytes, codes, ◌=?◌}
use pg_snapshot.Base.Sort.{sort}
use pg_snapshot.Base.Dict.{contains, add}
use pg_snapshot.Restore.Acl.{Statement, DefaultAcl, AclEntry, Grant, PrivNames}
use pg_snapshot.Base.{is_nil}
use pg_snapshot.Restore.Acl.{default_kind, default_sql, split_grants, parse_acl}

pub record PrivilegePlan : Type 0 where
  pub statements : List Statement
  pub owners : List Bytes
  pub skipped : List Bytes

-- The variables of the loop of `without`; a set of names is a list without repeats.
pub record Sorting : Type 0 where
  pub kept : List Statement
  pub owners : List Bytes
  pub dropped : List Bytes

unfoldable pub sort_out : List Bytes → List Statement → Sorting → Sorting
unfolding contains add
sort_out roles [] v = v
sort_out roles (s ∷ rest) v = sort_out roles rest (
    if contains s.owner roles
    then record v { dropped = add s.object v.dropped }
    else record v { kept = v.kept ++ s ∷ []; owners = add s.owner v.owners })

unfoldable pub without : PrivilegePlan → List Bytes → PrivilegePlan × List Bytes
unfolding sort_out sort
without p [] = (p, [])
without p (role ∷ roles) =
    let v =
      sort_out (role ∷ roles) p.statements (record { kept = []; owners = []; dropped = [] }) in
    (record { statements = v.kept; owners = sort v.owners; skipped = p.skipped }, sort v.dropped)

-- What a rule is called in the log.
unfoldable pub rule_object : DefaultAcl → Bytes
rule_object d =
    codes "default privileges of "
    ++ (d.role ++ (if is_nil d.schema then [] else codes " in " ++ d.schema))

module _ (quote : Bytes → Bytes) where
  abbrev pub rule_grants : DefaultAcl → Bytes → List Grant → List Statement
  rule_grants d plural [] = []
  rule_grants d plural (g ∷ gs) =
      record {
        sql = default_sql quote g d.role d.schema plural;
        owner = d.role;
        object = rule_object d;
      }
      ∷ rule_grants d plural gs

  -- The loop of `defaultRuleStatements` over the entries.
  unfoldable pub rule_entries : DefaultAcl → Bytes → PrivNames → List AclEntry → List Statement
  unfolding ◌=?◌ split_grants default_sql rule_object
  rule_entries d plural names [] = []
  rule_entries d plural names (entry ∷ entries) =
      (if entry.grantee =? d.role
        then []
        else rule_grants d plural (split_grants quote entry names []))
      ++ rule_entries d plural names entries

  unfoldable pub default_rule_statements : DefaultAcl → List Statement
  unfolding default_kind rule_entries parse_acl
  default_rule_statements d = elim (default_kind d.obj_type) [
    | none ↦ []
    | some (plural, names) ↦ rule_entries d plural names (parse_acl d.acl)
  ]

  abbrev pub owners_of : List Statement → List Bytes → List Bytes
  owners_of [] owners = owners
  owners_of (s ∷ rest) owners = owners_of rest (add s.owner owners)

  -- The loop of `CarryDefaults`: the rules that are not scoped to a schema.
  unfoldable pub global_rules : List DefaultAcl → List Statement
  unfolding default_rule_statements
  global_rules [] = []
  global_rules (d ∷ rules) =
      (if is_nil d.schema then default_rule_statements d else []) ++ global_rules rules

  -- The plan of `CarryDefaults`, which `apply` runs.
  unfoldable pub defaults_plan : List DefaultAcl → PrivilegePlan
  unfolding global_rules add sort
  defaults_plan defaults =
      let statements = global_rules defaults in
      record { statements = statements; owners = sort (owners_of statements []); skipped = [] }
