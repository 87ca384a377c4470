-- ===== src/Blobstore/Order.antt =====
-- Which snapshot is the latest.
use pg_snapshot.Base.{
  ◌≡◌, refl, sym, subst, inl, inr, true, false, List, [], ◌∷◌, All, arith, Bool-cases,
}
use pg_snapshot.Base.Bytes.{Bytes, =?_refl}
use pg_snapshot.Base.Sort.{less, less_irrefl, less_asymm, not-less_trans}
use pg_snapshot.Base.Dict.{contains}
use pg_snapshot.Blobstore.{greatest, Found, snapshots, latest, list_snapshots, latest_snapshot}

-- A member of a list that none of the others comes after.
abbrev pub IsGreatest : Bytes → List Bytes → Type 0
IsGreatest m l = (contains m l ≡ true) × All (λ s. less m s ≡ false) l

greatest-up :
    (best s : Bytes) (rest : List Bytes)
    → less best s ≡ true
    → greatest best (s ∷ rest) ≡ greatest s rest
unfolding greatest
greatest-up best s rest e = rw (e, greatest) refl

greatest-down :
    (best s : Bytes) (rest : List Bytes)
    → less best s ≡ false
    → greatest best (s ∷ rest) ≡ greatest best rest
unfolding greatest
greatest-down best s rest e = rw (e, greatest) refl

greatest-nil : (best : Bytes) → greatest best [] ≡ best
unfolding greatest
greatest-nil best = refl

-- The search keeps a member of the list that nothing seen so far comes after.
greatest-IsGreatest :
    (best : Bytes) (rest : List Bytes) → IsGreatest (greatest best rest) (best ∷ rest)
unfolding contains
greatest-IsGreatest best [] =
    rw (greatest-nil best) (ground (arith, =?_refl best), (less_irrefl best, tt))
greatest-IsGreatest best (s ∷ rest) = elim (Bool-cases (less best s)) [
  | inl e ↦
      let (there, (top, above)) = greatest-IsGreatest s rest in
      subst (λ m. IsGreatest m (best ∷ s ∷ rest)) (sym (greatest-up best s rest e))
        (
          ground (arith, there),
          (not-less_trans best s (greatest s rest) (less_asymm best s e) top, (top, above)),
        )
  | inr e ↦
      let (there, (top, above)) = greatest-IsGreatest best rest in
      subst (λ m. IsGreatest m (best ∷ s ∷ rest)) (sym (greatest-down best s rest e))
        (ground (arith, there), (top, (not-less_trans s best (greatest best rest) e top, above)))
]

-- Where the listing finds a snapshot, the latest one is resolved: it is one of the snapshots, and none
-- of them comes after it.
pub latest_snapshot-IsGreatest :
    (list_prefixes : Bytes → Found) (database s : Bytes) (l : List Bytes)
    → list_snapshots list_prefixes database ≡ snapshots (s ∷ l)
    → (t : Bytes) × (latest_snapshot list_prefixes database ≡ latest t) × IsGreatest t (s ∷ l)
unfolding latest_snapshot
latest_snapshot-IsGreatest list_prefixes database s l h =
    (greatest s l, rw (h, latest_snapshot) refl, greatest-IsGreatest s l)
