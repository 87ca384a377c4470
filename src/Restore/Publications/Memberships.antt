-- ===== src/Restore/Publications/Memberships.antt =====
-- restore/publications.go: carrying publications leaves the memberships of the user as they were.
use pg_snapshot.Base.{◌≡◌, Bool, inr}
use pg_snapshot.Base.Bytes.{Bytes}
use pg_snapshot.Base.Act.{Act}
use pg_snapshot.Restore.Tempgrant.{RoleCalls}
use pg_snapshot.Restore.Tempgrant.Released.{IsRoles}
use pg_snapshot.Restore.Publications.{PublicationCalls}

-- The documented behaviour of the calls of a release: they do not fail.
pub record IsReleasable {W : Type 0} (calls : RoleCalls W) : Type 0 where
  pub answers : (r : Bytes) (w : W) → (b : Bool) × ((calls.has_role r w).0 ≡ inr b)
  pub revokes : (r : Bytes) (w : W) → (calls.revoke r w).0 ≡ inr tt

-- A call that changes no membership.
abbrev pub IsKept : {W E A : Type 0} {calls : RoleCalls W} → IsRoles calls → Act W E A → Type 0
IsKept {W = W} L m = (w : W) (k : Bytes) → L.member (m w).1 k ≡ L.member w k

-- Queries and the creation of a publication change no membership.
pub record IsPublisher {W : Type 0} (calls : PublicationCalls W) : Type 0 where
  pub roles : IsRoles calls.role_calls
  pub releases : IsReleasable calls.role_calls
  pub list_kept : IsKept roles calls.list_publications
  pub schemas_kept : (n : Bytes) → IsKept roles (calls.schemas_of n)
  pub tables_kept : (n : Bytes) → IsKept roles (calls.tables_of n)
  pub info_kept : IsKept roles calls.conn_info
  pub owner_kept : IsKept roles calls.database_owner
  pub owners_kept : (n : Bytes) → IsKept roles (calls.relation_owners n)
  pub exec_kept : (q : Bytes) → IsKept roles (calls.exec_sql q)

module _ {W : Type 0} (calls : PublicationCalls W) (L : IsPublisher calls)
    (quote_ident quote_literal : Bytes → Bytes) where
  -- A step that changes no membership.
  record Keeps {E A : Type 0} (m : Act W E A) : Type 0 where
    kept : IsKept L.roles m
