-- ===== src/Restore/Privileges/Reach.antt =====
-- What stays of a plan without some roles, and what is reported as lost.
use pg_snapshot.Base.{◌≡◌, refl, sym, ◌∙◌, ap, inl, inr, Bool, not, ◌||◌, List, [], ◌∷◌, ◌++◌}
use pg_snapshot.Base.{arith, keep, Bool-cases, append_assoc, append-nil}
use pg_snapshot.Base.Bytes.{Bytes}
use pg_snapshot.Base.Dict.{contains, add, contains-add, contains-sort}
use pg_snapshot.Restore.Acl.{Statement}
use pg_snapshot.Restore.Privileges.{PrivilegePlan, Sorting, sort_out, without}

-- A statement that needs none of the roles.
abbrev pub within_reach : List Bytes → Statement → Bool
within_reach roles s = not (contains s.owner roles)

abbrev pub objects : List Statement → List Bytes
objects [] = []
objects (s ∷ ss) = s.object ∷ objects ss

abbrev pub needs : List Bytes → Statement → Bool
needs roles s = contains s.owner roles

sort_out-kept :
    (roles : List Bytes) (ss : List Statement) (v : Sorting)
    → (sort_out roles ss v).kept ≡ v.kept ++ keep (within_reach roles) ss
unfolding sort_out
sort_out-kept roles [] v = sym (append-nil v.kept)
sort_out-kept roles (s ∷ ss) v = elim (Bool-cases (contains s.owner roles)) [
  | inl e ↦
      rw (e, sort_out) (sort_out-kept roles ss (record v { dropped = add s.object v.dropped }))
  | inr e ↦
      rw (e, sort_out)
        (sort_out-kept roles ss
            (record v { kept = v.kept ++ s ∷ []; owners = add s.owner v.owners })
          ∙ append_assoc v.kept (s ∷ []) (keep (within_reach roles) ss))
]

sort_out-dropped :
    (roles : List Bytes) (ss : List Statement) (v : Sorting) (o : Bytes)
    → contains o (sort_out roles ss v).dropped
      ≡ (contains o v.dropped || contains o (objects (keep (needs roles) ss)))
unfolding sort_out contains
sort_out-dropped roles [] v o = ground arith
sort_out-dropped roles (s ∷ ss) v o = elim (Bool-cases (contains s.owner roles)) [
  | inl e ↦ ground (
    arith,
    e,
    sort_out-dropped roles ss (record v { dropped = add s.object v.dropped }) o,
    contains-add o s.object v.dropped,
  )
  | inr e ↦ ground (
    arith,
    e,
    sort_out-dropped roles ss (record v { kept = v.kept ++ s ∷ []; owners = add s.owner v.owners })
        o,
  )
]

keep-all : (ss : List Statement) → keep (within_reach []) ss ≡ ss
unfolding contains
keep-all [] = refl
keep-all (s ∷ ss) = ap (λ r. s ∷ r) (keep-all ss)

keep-none : (ss : List Statement) → keep (needs []) ss ≡ []
unfolding contains
keep-none [] = refl
keep-none (s ∷ ss) = keep-none ss

-- Without some roles, a plan keeps exactly the statements whose owner is none of them, in their order,
-- and an object is reported exactly if a statement for it was dropped.
pub without-kept :
    (p : PrivilegePlan) (roles : List Bytes)
    → ((without p roles).0.statements ≡ keep (within_reach roles) p.statements)
      × ((o : Bytes)
          → contains o (without p roles).1 ≡ contains o (objects (keep (needs roles) p.statements)))
unfolding without
without-kept p [] = (
  sym (keep-all p.statements),
  λ o. ap (λ l. contains o (objects l)) (sym (keep-none p.statements)),
)
without-kept p (role ∷ roles) =
    let start : Sorting = record { kept = []; owners = []; dropped = [] } in
    (
      sort_out-kept (role ∷ roles) p.statements start,
      λ o. contains-sort o _ ∙ sort_out-dropped (role ∷ roles) p.statements start o,
    )
