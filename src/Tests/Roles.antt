-- ===== src/Tests/Roles.antt =====
-- The theorems of restore/tempgrant.go and restore/publications.go on a cluster that is a table of
-- memberships, and that of restore/loader.go.
use pg_snapshot.Base.{
  ◌≡◌, refl, sym, ap, Bool, true, false, not, ◌||◌, arith, List, [], ◌∷◌, none, ◌⊎◌, inl, inr,
}
use pg_snapshot.Base.{if◌then◌else◌, is_nil, count}
use pg_snapshot.Base.Bytes.{Bytes, codes, ◌=?◌}
use pg_snapshot.Base.{◌&&◌}
use pg_snapshot.Base.Int.{ℤ, pos}
use pg_snapshot.Export.Manifest.{TableEntry}
use pg_snapshot.Restore.Loader.{pending}
use pg_snapshot.Restore.Loader.Order.{IsLargestFirst, pending-IsLargestFirst}
use pg_snapshot.Restore.Tempgrant.{RoleCalls}
use pg_snapshot.Restore.Tempgrant.Released.{IsRoles}
use pg_snapshot.Restore.Publications.{PublicationCalls}
use pg_snapshot.Restore.Publications.Memberships.{IsReleasable, IsPublisher}

-- The roles that the user holds. The role owner is a member of reader, whoever holds it.
abbrev Roles : Type 0
Roles = Bytes → Bool

abbrev reaches : Roles → Bytes → Bool
reaches t k = t k || (k =? codes "reader" && t (codes "owner"))

abbrev table_calls : RoleCalls Roles
table_calls = record {
  has_role = λ r t. (inr (reaches t r), t);
  acquire = λ t. (inr tt, t);
  begin = λ t. (inr tt, t);
  lock_role = λ r t. (inr tt, t);
  grant = λ r t. (inr tt, λ k. if k =? r then true else t k);
  revoke = λ r t. (inr tt, λ k. if k =? r then false else t k);
  rollback = λ t. t;
  free = λ t. t;
}

abbrev told_equal : (b c : Bool) → Bytes ⊎ Bool → Bool
told_equal b c (inl e) = b
told_equal b c (inr d) = d

abbrev table_calls-IsRoles : IsRoles table_calls
table_calls-IsRoles = record {
  member = λ t. t;
  may = reaches;
  may_member = λ t k h. ground (arith, h);
  may_same = λ t t' h k. ground (arith, h k, h (codes "owner"));
  has_same = λ r t k. refl;
  has_told = λ r t b h. sym (ap (told_equal b b) h);
  acquire_same = λ t k. refl;
  begin_same = λ t k. refl;
  lock_same = λ r t k. refl;
  grant_failed = λ r t e h k. cc;
  grant_done = λ r t u h k. refl;
  revoke_done = λ r t u h k. refl;
  rollback_same = λ t k. refl;
  free_same = λ t k. refl;
}

abbrev table_calls-IsReleasable : IsReleasable table_calls
table_calls-IsReleasable = record { answers = λ r t. (reaches t r, refl); revokes = λ r t. refl }

-- The user holds one role.
abbrev app_only : Roles
app_only k = k =? codes "app"

abbrev two_owners : List Bytes
two_owners = codes "app" ∷ codes "owner" ∷ codes "reader" ∷ []

abbrev publication_calls : PublicationCalls Roles
publication_calls = record {
  list_publications = λ t. (
    inr (
        record {
          name = codes "feed";
          all_tables = false;
          inserts = true;
          updates = true;
          deletes = false;
          truncates = false;
          via_root = false;
        }
        ∷ []),
    t,
  );
  schemas_of = λ n t. (inr (codes "public" ∷ []), t);
  tables_of = λ n t. (inr [], t);
  conn_info = λ t. (inr (codes "restore", false), t);
  database_owner = λ t. (inr (codes "owner"), t);
  relation_owners = λ s t. (inr [], t);
  exec_sql = λ q t. (inr tt, t);
  role_calls = table_calls;
}

abbrev publication_calls-IsPublisher : IsPublisher publication_calls
publication_calls-IsPublisher = record {
  roles = table_calls-IsRoles;
  releases = table_calls-IsReleasable;
  list_kept = λ t k. refl;
  schemas_kept = λ n t k. refl;
  tables_kept = λ n t k. refl;
  info_kept = λ t k. refl;
  owner_kept = λ t k. refl;
  owners_kept = λ n t k. refl;
  exec_kept = λ q t k. refl;
}

abbrev entry_of_size : ℤ → TableEntry
entry_of_size size = record {
  schema = codes "public";
  name = codes "t";
  skipped = false;
  excluded = false;
  filter = [];
  columns = [];
  transforms = [];
  tail = none;
  row_count = pos 0;
  file = codes "t.copy.gz";
  bytes = size;
  sha256 = [];
}

abbrev three_entries : List TableEntry
three_entries = entry_of_size (pos 1) ∷ entry_of_size (pos 3) ∷ entry_of_size (pos 2) ∷ []

pending-IsLargestFirst_example :
    IsLargestFirst (pending three_entries)
    × ((p : TableEntry → Bool)
        → count p (pending three_entries)
          ≡ count (λ (e : TableEntry). (not e.skipped && not (is_nil e.file)) && p e) three_entries)
pending-IsLargestFirst_example = pending-IsLargestFirst three_entries
