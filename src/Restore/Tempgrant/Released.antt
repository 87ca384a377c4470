-- ===== src/Restore/Tempgrant/Released.antt =====
-- restore/tempgrant.go: what is borrowed is given back.
use pg_snapshot.Base.{◌≡◌, refl, sym, ap, ◌∙◌, Bool, true, false, ◌||◌, List, [], ◌∷◌, ◌++◌, some}
use pg_snapshot.Base.{◌⊎◌, inl, inr, if◌then◌else◌, arith}
use pg_snapshot.Base.Bytes.{Bytes, ◌=?◌, =?_iff}
use pg_snapshot.Base.Dict.{contains, contains-append}
use pg_snapshot.Base.Act.{◌>>=◌, give, wrapped, wrapped_rule}
use pg_snapshot.Restore.Tempgrant.{RoleCalls, GrantError, insufficient_privilege, not_granted}
use pg_snapshot.Restore.Tempgrant.{
  BorrowError, reading_membership, acquiring_lock, starting_lock, locking, Membership, nothing_held,
  Borrowed,
}
use pg_snapshot.Restore.Tempgrant.{needed_roles, granted, grant_all, lock_and_grant, borrow_needed}
use pg_snapshot.Restore.Tempgrant.{borrow_roles, revoke_held, revoke_all, release}

-- The memberships of the user and the documented behaviour of the calls. `member` tells which roles the
-- user holds by a grant of its own, with their privileges inherited, and `may` of which roles it has
-- the privileges: those, the roles that these reach through memberships of other roles, and what
-- others have granted. All but the user's own grants stay as they are while the program runs, so `may`
-- is a function of them. A grant or a revocation changes the user's own grant of its role, and no
-- other call changes one.
pub record IsRoles {W : Type 0} (calls : RoleCalls W) : Type 0 where
  pub member : W → Bytes → Bool
  pub may : W → Bytes → Bool
  pub may_member : (w : W) (k : Bytes) → member w k ≡ true → may w k ≡ true
  pub may_same :
      (w w' : W) → ((k : Bytes) → member w' k ≡ member w k) → (k : Bytes) → may w' k ≡ may w k
  pub has_same : (r : Bytes) (w : W) (k : Bytes) → member (calls.has_role r w).1 k ≡ member w k
  pub has_told : (r : Bytes) (w : W) (b : Bool) → (calls.has_role r w).0 ≡ inr b → b ≡ may w r
  pub acquire_same : (w : W) (k : Bytes) → member (calls.acquire w).1 k ≡ member w k
  pub begin_same : (w : W) (k : Bytes) → member (calls.begin w).1 k ≡ member w k
  pub lock_same : (r : Bytes) (w : W) (k : Bytes) → member (calls.lock_role r w).1 k ≡ member w k
  pub grant_failed :
      (r : Bytes) (w : W) (e : GrantError)
      → (calls.grant r w).0 ≡ inl e
      → (k : Bytes) → member (calls.grant r w).1 k ≡ member w k
  pub grant_done :
      (r : Bytes) (w : W) (u : Unit {0})
      → (calls.grant r w).0 ≡ inr u
      → (k : Bytes) → member (calls.grant r w).1 k ≡ (if k =? r then true else member w k)
  pub revoke_done :
      (r : Bytes) (w : W) (u : Unit {0})
      → (calls.revoke r w).0 ≡ inr u
      → (k : Bytes) → member (calls.revoke r w).1 k ≡ (if k =? r then false else member w k)
  pub rollback_same : (w : W) (k : Bytes) → member (calls.rollback w) k ≡ member w k
  pub free_same : (w : W) (k : Bytes) → member (calls.free w) k ≡ member w k

module _ {W : Type 0} (calls : RoleCalls W) (L : IsRoles calls) where
  open L use {member, may}

  -- A role that the user does not have the privileges of is not granted to it.
  told_false : (r : Bytes) (w : W) → (calls.has_role r w).0 ≡ inr false → member w r ≡ false
  told_false r w h = ground (arith, L.has_told r w false h, L.may_member w r)

  -- The user holds what it held, and the listed roles, none of which it held.
  abbrev pub IsLent : W → List Bytes → W → Type 0
  IsLent w roles w' =
      (k : Bytes)
      → (member w' k ≡ (contains k roles || member w k))
        × (contains k roles ≡ true → member w k ≡ false)

  -- The roles that are needed are none that the user holds.
  abbrev NeededEnd : W → (BorrowError ⊎ List Bytes) × W → Type 0
  NeededEnd w (inl e, w') = (k : Bytes) → member w' k ≡ member w k
  NeededEnd w (inr needed, w') =
      (k : Bytes) → (member w' k ≡ member w k) × (contains k needed ≡ true → member w k ≡ false)

  NeededEnd-trans :
      (w w1 : W) (x : (BorrowError ⊎ List Bytes) × W)
      → ((k : Bytes) → member w1 k ≡ member w k)
      → NeededEnd w1 x
      → NeededEnd w x
  NeededEnd-trans w w1 (inl e, w') same h = λ k. h k ∙ same k
  NeededEnd-trans w w1 (inr needed, w') same h =
      λ k. ((h k).0 ∙ same k, λ there. sym (same k) ∙ (h k).1 there)

  needed_roles-NeededEnd :
      (user : Bytes) (roles : List Bytes) (w : W) → NeededEnd w (needed_roles calls user roles w)
  unfolding needed_roles contains
  needed_roles-NeededEnd user [] w = λ k. (refl, λ no. cc)
  needed_roles-NeededEnd user (role ∷ roles) w =
      at (role =? user) (needed_roles-NeededEnd user roles)
    where
      joined :
          (has : Bool) (w1 : W) (x : (BorrowError ⊎ List Bytes) × W)
          → (has ≡ false → member w1 role ≡ false)
          → NeededEnd w1 x
          → NeededEnd w1
              (((λ (z : W). x) >>= λ needed. give (if has then needed else role ∷ needed)) w1)
      joined has w1 (inl e, w') told h = h
      joined true w1 (inr needed, w') told h = h
      joined false w1 (inr needed, w') told h =
          λ k. ((h k).0, λ there. ground (arith, (h k).1, told refl, =?_iff role k, =?_iff k role))

      at :
          (b : Bool)
          → ((v : W) → NeededEnd v (needed_roles calls user roles v))
          → NeededEnd w (
              (if b
                  then needed_roles calls user roles
                  else (wrapped reading_membership (calls.has_role role) >>= λ has.
                      (needed_roles calls user roles >>= λ needed.
                      give (if has then needed else role ∷ needed))))
                w)
      at true later = later w
      at false later =
          wrapped_rule (NeededEnd w) reading_membership (calls.has_role role) _ w
            (λ e h k. L.has_same role w k)
            (λ has h. NeededEnd-trans w (calls.has_role role w).1 _ (L.has_same role w) (
              joined has (calls.has_role role w).1 _
                (λ no_role. L.has_same role w role ∙ told_false role w (h ∙ ap inr no_role))
                (later (calls.has_role role w).1)))

  grant_all-IsLent :
      (w : W) (needed : List Bytes) (held : Membership) (w1 : W)
      → ((k : Bytes) → contains k needed ≡ true → member w k ≡ false)
      → IsLent w held.roles w1
      → let x = grant_all calls needed held w1 in IsLent w x.0.0.roles x.1
  unfolding grant_all contains
  grant_all-IsLent w [] held w1 free h = h
  grant_all-IsLent w (role ∷ needed) held w1 free h =
      from (calls.grant role w1) (L.grant_failed role w1) (L.grant_done role w1)
        (λ held' w2. grant_all-IsLent w needed held' w2 (λ k there. free k (ground arith)))
    where
      from :
          (x : (GrantError ⊎ Unit {0}) × W)
          → ((e : GrantError) → x.0 ≡ inl e → (k : Bytes) → member x.1 k ≡ member w1 k)
          → ((u : Unit {0})
              → x.0 ≡ inr u
              → (k : Bytes) → member x.1 k ≡ (if k =? role then true else member w1 k))
          → ((held' : Membership) (w2 : W)
              → IsLent w held'.roles w2
              → let y = grant_all calls needed held' w2 in IsLent w y.0.0.roles y.1)
          → let y = granted calls role held x (grant_all calls needed) in IsLent w y.0.0.roles y.1
      from (inr u, w2) failed done next =
          next (record held { roles = held.roles ++ role ∷ [] }) w2
            (λ k. (
              ground (
                arith,
                done u refl k,
                (h k).0,
                contains-append k held.roles (role ∷ []),
                =?_iff k role,
                =?_iff role k,
              ),
              λ there. ground (arith, (h k).1, free k, contains-append k held.roles (role ∷ [])),
            ))
      from (inl (insufficient_privilege m), w2) failed done next =
          next (record held { unavailable = held.unavailable ++ role ∷ [] }) w2
            (λ k. (failed _ refl k ∙ (h k).0, (h k).1))
      from (inl (not_granted m), w2) failed done next = λ k. (failed _ refl k ∙ (h k).0, (h k).1)

  nothing-IsLent : (w w1 : W) → ((k : Bytes) → member w1 k ≡ member w k) → IsLent w [] w1
  unfolding contains
  nothing-IsLent w w1 same k = (same k, λ no. cc)

  lock_and_grant-IsLent :
      (user : Bytes) (w : W) (needed : List Bytes) (w1 : W)
      → ((k : Bytes) → (member w1 k ≡ member w k) × (contains k needed ≡ true → member w k ≡ false))
      → let x = lock_and_grant calls user needed w1 in IsLent w x.0.0.roles x.1
  unfolding lock_and_grant
  lock_and_grant-IsLent user w needed w1 h =
      at (calls.acquire w1).0 (calls.begin w2).0 (calls.lock_role user w3).0
    where
      w2 : W
      w2 = (calls.acquire w1).1

      w3 : W
      w3 = (calls.begin w2).1

      w4 : W
      w4 = (calls.lock_role user w3).1

      same2 : (k : Bytes) → member w2 k ≡ member w k
      same2 k = L.acquire_same w1 k ∙ (h k).0

      same3 : (k : Bytes) → member w3 k ≡ member w k
      same3 k = L.begin_same w2 k ∙ same2 k

      same4 : (k : Bytes) → member w4 k ≡ member w k
      same4 k = L.lock_same user w3 k ∙ same3 k

      at :
          (a b c : Bytes ⊎ Unit {0})
          → let x : Borrowed W = elim a [
            | inl e ↦ ((nothing_held, some (acquiring_lock e)), w2)
            | inr _ ↦ elim b [
              | inl e ↦ ((record nothing_held { conn = true }, some (starting_lock e)), w3)
              | inr _ ↦ elim c [
                | inl e ↦ ((record nothing_held { conn = true; tx = true }, some (locking e)), w4)
                | inr _ ↦ grant_all calls needed (record nothing_held { conn = true; tx = true }) w4
              ]
            ]
          ] in
            IsLent w x.0.0.roles x.1
      at (inl e) b c = nothing-IsLent w w2 same2
      at (inr u) (inl e) c = nothing-IsLent w w3 same3
      at (inr u) (inr v) (inl e) = nothing-IsLent w w4 same4
      at (inr u) (inr v) (inr t) =
          grant_all-IsLent w needed (record nothing_held { conn = true; tx = true }) w4
            (λ k. (h k).1) (nothing-IsLent w w4 same4)

  -- Whatever fails, the user holds what it held and the roles of the handle, none of which it held.
  pub borrow_roles-IsLent :
      (user : Bytes) (roles : List Bytes) (w : W)
      → let x = borrow_roles calls user roles w in IsLent w x.0.0.roles x.1
  unfolding borrow_roles
  borrow_roles-IsLent user roles w =
      from (needed_roles calls user roles w) (needed_roles-NeededEnd user roles w)
    where
      from :
          (x : (BorrowError ⊎ List Bytes) × W)
          → NeededEnd w x
          → let y = borrow_needed calls user x in IsLent w y.0.0.roles y.1
      from (inl e, w1) h = nothing-IsLent w w1 h
      from (inr [], w1) h = nothing-IsLent w w1 (λ k. (h k).0)
      from (inr (role ∷ needed), w1) h = lock_and_grant-IsLent user w (role ∷ needed) w1 h

  ended_same :
      (conn tx : Bool) (w : W) (k : Bytes)
      → member
          (if conn
            then calls.free (if tx then calls.rollback w else w)
            else if tx
            then calls.rollback w
            else w)
          k
        ≡ member w k
  ended_same true true w k = L.free_same (calls.rollback w) k ∙ L.rollback_same w k
  ended_same true false w k = L.free_same w k
  ended_same false true w k = L.rollback_same w k
  ended_same false false w k = refl

  module _ (answers : (r : Bytes) (w : W) → (b : Bool) × ((calls.has_role r w).0 ≡ inr b))
      (revokes : (r : Bytes) (w : W) → (calls.revoke r w).0 ≡ inr tt) where
    revoke_held_end :
        (role : Bytes) (w : W) (k : Bytes)
        → member (revoke_held calls role (calls.has_role role w)) k
          ≡ (if k =? role then false else member w k)
    revoke_held_end role w k =
        from (calls.has_role role w) (answers role w).0 (answers role w).1 (told_false role w)
          (L.has_same role w)
      where
        from :
            (x : (Bytes ⊎ Bool) × W) (b : Bool)
            → x.0 ≡ inr b
            → (x.0 ≡ inr false → member w role ≡ false)
            → ((k : Bytes) → member x.1 k ≡ member w k)
            → member (revoke_held calls role x) k ≡ (if k =? role then false else member w k)
        from (inl e, w1) b is told same = cc
        from (inr true, w1) b is told same =
            ground (arith, L.revoke_done role w1 tt (revokes role w1) k, same k)
        from (inr false, w1) b is told same = ground (arith, told refl, same k, =?_iff k role)

    revoke_all_end :
        (roles : List Bytes) (w : W) (k : Bytes)
        → member (revoke_all calls roles w) k ≡ (if contains k roles then false else member w k)
    unfolding revoke_all contains
    revoke_all_end [] w k = refl
    revoke_all_end (role ∷ roles) w k =
        revoke_all_end roles _ k
        ∙ ground (arith, revoke_held_end role w k, =?_iff k role, =?_iff role k)

    -- A release from any state on takes the roles of the handle away.
    pub release-IsLent :
        (w : W) (held : Membership) (w1 : W) (k : Bytes)
        → IsLent w held.roles w1
        → member (release calls held w1) k ≡ member w k
    unfolding release
    release-IsLent w held w1 k h =
        ended_same held.conn held.tx (revoke_all calls held.roles w1) k
        ∙ revoke_all_end held.roles w1 k
        ∙ ground (arith, h k)
