-- ===== src/Tests/Grants.antt =====
-- The theorems on grants at small inputs.
use pg_snapshot.Base.{◌≡◌, refl, true, false, List, [], ◌∷◌, some, keep, arith, inl}
use pg_snapshot.Base.Bytes.{Bytes, codes}
use pg_snapshot.Base.Dict.{contains}
use pg_snapshot.Restore.Acl.{AclPriv, AclEntry, parse_acl_item, split_grants, schema_privs}
use pg_snapshot.Restore.Acl.RoundTrip.{parse_acl_item-Printed}
use pg_snapshot.Restore.Acl.Groups.{given, held, split_grants-held}
use pg_snapshot.Restore.Privileges.{PrivilegePlan, without}
use pg_snapshot.Restore.Privileges.Reach.{within_reach, needs, objects, without-kept}

abbrev usage_and_create : List AclPriv
usage_and_create =
    record { char = b'U'; option = false } ∷ record { char = b'C'; option = true } ∷ []

parse_acl_item-Printed_example :
    parse_acl_item (codes "\"app\"\"x\"=UC*/owner")
    ≡ some (record { grantee = codes "app\"x"; privs = usage_and_create })
parse_acl_item-Printed_example =
    parse_acl_item-Printed (codes "app\"x") (codes "\"app\"\"x\"") (codes "owner") usage_and_create
      (inl refl)
      (
        ((λ h. omega (arith, h)), (λ h. omega (arith, h))),
        (((λ h. omega (arith, h)), (λ h. omega (arith, h))), tt),
      )

abbrev app_entry : AclEntry
app_entry = record { grantee = codes "app"; privs = usage_and_create }

abbrev same : Bytes → Bytes
same s = s

split_grants-held_example :
    given true (split_grants same app_entry schema_privs [])
    ≡ held same schema_privs [] true app_entry.privs
split_grants-held_example = split_grants-held same schema_privs [] app_entry true

abbrev two_statements : PrivilegePlan
two_statements = record {
  statements =
      record { sql = codes "GRANT 1"; owner = codes "app"; object = codes "table a" }
      ∷ record { sql = codes "GRANT 2"; owner = codes "rdsadmin"; object = codes "table b" }
      ∷ [];
  owners = codes "app" ∷ codes "rdsadmin" ∷ [];
  skipped = [];
}

without-kept_example :
    ((without two_statements (codes "rdsadmin" ∷ [])).0.statements
      ≡ keep (within_reach (codes "rdsadmin" ∷ [])) two_statements.statements)
    × ((o : Bytes)
        → contains o (without two_statements (codes "rdsadmin" ∷ [])).1
          ≡ contains o (objects (keep (needs (codes "rdsadmin" ∷ [])) two_statements.statements)))
without-kept_example = without-kept two_statements (codes "rdsadmin" ∷ [])
