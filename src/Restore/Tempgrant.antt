-- ===== src/Restore/Tempgrant.antt =====
-- restore/tempgrant.go: memberships of roles that are borrowed for a statement and given back. The
-- session, the transaction that holds the lock, and the quoting of names are a parameter.
pub mod Released
use pg_snapshot.Base.{
  Bool, true, false, not, List, [], ◌∷◌, ◌++◌, Option, none, some, ◌⊎◌, inl, inr,
}
use pg_snapshot.Base.{is_nil, if◌then◌else◌}
use pg_snapshot.Base.Bytes.{Bytes, ◌=?◌}
use pg_snapshot.Base.Act.{Act, ◌>>=◌, ◌>>◌, give, throw, settle_act, wrapped}

-- What `GRANT` answers: code 42501, or any other error.
pub data GrantError : Type 0 where
  insufficient_privilege : Bytes → GrantError
  not_granted : Bytes → GrantError

pub data BorrowError : Type 0 where
  reading_membership acquiring_lock starting_lock locking : Bytes → BorrowError
  granting : Bytes → Bytes → BorrowError

-- `has_role` is `pg_has_role` of the user with USAGE, `grant` and `revoke` act on the user's
-- memberships, and `lock_role` runs the two statements that take the locks.
pub record RoleCalls (W : Type 0) : Type 0 where
  pub has_role : Bytes → Act W Bytes Bool
  pub acquire : Act W Bytes (Unit {0})
  pub begin : Act W Bytes (Unit {0})
  pub lock_role : Bytes → Act W Bytes (Unit {0})
  pub grant : Bytes → Act W GrantError (Unit {0})
  pub revoke : Bytes → Act W Bytes (Unit {0})
  pub rollback : W → W
  pub free : W → W

pub record Membership : Type 0 where
  pub conn : Bool
  pub tx : Bool
  pub roles : List Bytes
  pub unavailable : List Bytes

abbrev pub nothing_held : Membership
nothing_held = record { conn = false; tx = false; roles = []; unavailable = [] }

-- A handle and an error, as `borrowRoles` returns both.
abbrev pub Borrowed : Type 0 → Type 0
Borrowed W = (Membership × Option BorrowError) × W

module _ {W : Type 0} (calls : RoleCalls W) where
  open calls use {has_role, acquire, begin, lock_role, grant, revoke, rollback, free}

  -- The first loop of `borrowRoles`: the roles that the user does not have the privileges of.
  unfoldable pub needed_roles : Bytes → List Bytes → Act W BorrowError (List Bytes)
  unfolding ◌=?◌
  needed_roles user [] = give []
  needed_roles user (role ∷ roles) =
      let rest = needed_roles user roles in
      if role =? user
      then rest
      else (wrapped reading_membership (has_role role) >>= λ has.
          (rest >>= λ needed. give (if has then needed else role ∷ needed)))

  -- One round of the second loop.
  abbrev pub granted :
      Bytes → Membership → (GrantError ⊎ Unit {0}) × W → (Membership → W → Borrowed W) → Borrowed W
  granted role held (inr _, w) next = next (record held { roles = held.roles ++ role ∷ [] }) w
  granted role held (inl (insufficient_privilege m), w) next =
      next (record held { unavailable = held.unavailable ++ role ∷ [] }) w
  granted role held (inl (not_granted m), w) next = ((held, some (granting role m)), w)

  unfoldable pub grant_all : List Bytes → Membership → W → Borrowed W
  grant_all [] held w = ((held, none), w)
  grant_all (role ∷ roles) held w = granted role held (grant role w) (grant_all roles)

  -- What follows where some role is needed.
  unfoldable pub lock_and_grant : Bytes → List Bytes → W → Borrowed W
  unfolding grant_all
  lock_and_grant user needed w = elim (acquire w).0 [
    | inl e ↦ ((nothing_held, some (acquiring_lock e)), (acquire w).1)
    | inr _ ↦ elim (begin (acquire w).1).0 [
      | inl e ↦
          ((record nothing_held { conn = true }, some (starting_lock e)), (begin (acquire w).1).1)
      | inr _ ↦ elim (lock_role user (begin (acquire w).1).1).0 [
        | inl e ↦ (
          (record nothing_held { conn = true; tx = true }, some (locking e)),
          (lock_role user (begin (acquire w).1).1).1,
        )
        | inr _ ↦
            grant_all needed (record nothing_held { conn = true; tx = true })
              (lock_role user (begin (acquire w).1).1).1
      ]
    ]
  ]

  abbrev pub borrow_needed : Bytes → (BorrowError ⊎ List Bytes) × W → Borrowed W
  borrow_needed user (inl e, w) = ((nothing_held, some e), w)
  borrow_needed user (inr needed, w) =
      if is_nil needed then ((nothing_held, none), w) else lock_and_grant user needed w

  unfoldable pub borrow_roles : Bytes → List Bytes → W → Borrowed W
  unfolding needed_roles lock_and_grant
  borrow_roles user roles w = borrow_needed user (needed_roles user roles w)

  abbrev pub revoke_held : Bytes → (Bytes ⊎ Bool) × W → W
  revoke_held role (inl e, w) = w
  revoke_held role (inr has, w) = if has then (revoke role w).1 else w

  -- The loop of `release`.
  unfoldable pub revoke_all : List Bytes → W → W
  revoke_all [] w = w
  revoke_all (role ∷ roles) w = revoke_all roles (revoke_held role (has_role role w))

  unfoldable pub release : Membership → W → W
  unfolding revoke_all
  release held w =
      let revoked = revoke_all held.roles w in
      let rolled = if held.tx then rollback revoked else revoked in
      if held.conn then free rolled else rolled
