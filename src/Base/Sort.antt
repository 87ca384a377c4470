-- ===== src/Base/Sort.antt =====
-- The order of Go's strings, which compares bytes, and `sort.Strings`. Two texts that neither precede
-- each other are equal, so every sorting algorithm gives the list that insertion gives here.
use Prim.Native.Nat.{◌+◌}
use mathlib.Core.Path.{◌≡◌, refl}
use mathlib.Core.Logic.{inl, inr}
use mathlib.Core.Bool.{Bool, true, false, ◌&&◌, ◌||◌}
use mathlib.Core.Option.{some}
use mathlib.Core.List.{List, [], ◌∷◌, Perm}
use mathlib.Core.List.Perm
use native.Mathlib.Omega.{arith}
use pg_snapshot.Base.Tests.{ltb, ◌==◌, if◌then◌else◌, Bool-cases}
use pg_snapshot.Base.Lists.{length, All, last?}
use pg_snapshot.Base.Bytes.{Bytes}

unfoldable pub less : Bytes → Bytes → Bool
less s [] = false
less [] (d ∷ t) = true
less (c ∷ s) (d ∷ t) = ltb c d || (c == d && less s t)

pub less_irrefl : (s : Bytes) → less s s ≡ false
unfolding less
less_irrefl [] = refl
less_irrefl (c ∷ s) = ground (arith, less_irrefl s)

pub less_asymm : (s t : Bytes) → less s t ≡ true → less t s ≡ false
unfolding less
less_asymm s [] h = cc
less_asymm [] (d ∷ t) h = refl
less_asymm (c ∷ s) (d ∷ t) h = ground (arith, less_asymm s t)

pub less_trans : (s t u : Bytes) → less s t ≡ true → less t u ≡ true → less s u ≡ true
unfolding less
less_trans s t [] h k = k
less_trans s [] (e ∷ u) h k = cc
less_trans [] (d ∷ t) (e ∷ u) h k = refl
less_trans (c ∷ s) (d ∷ t) (e ∷ u) h k = ground (arith, less_trans s t u)

-- Two texts of which neither is less are equal.
pub less_total : (s t : Bytes) → less s t ≡ false → less t s ≡ false → s ≡ t
unfolding less
less_total [] [] h k = refl
less_total (c ∷ s) [] h k = cc
less_total [] (d ∷ t) h k = cc
less_total (c ∷ s) (d ∷ t) h k = ground (arith, less_total s t)

-- `not (less t s)` is the order with equality; it is transitive.
pub not-less_trans : (s t u : Bytes) → less t s ≡ false → less u t ≡ false → less u s ≡ false
not-less_trans s t u h k = elim (Bool-cases (less u s)) [
  | inl below ↦ elim (Bool-cases (less s t)) [
    | inl up ↦ cc (less_trans u s t below up)
    | inr same ↦ cc (less_total s t same h)
  ]
  | inr done ↦ done
]

unfoldable pub insert : Bytes → List Bytes → List Bytes
insert x [] = x ∷ []
insert x (y ∷ ys) = if less y x then y ∷ insert x ys else x ∷ y ∷ ys

-- `sort.Strings`
unfoldable pub sort : List Bytes → List Bytes
unfolding insert less
sort [] = []
sort (x ∷ xs) = insert x (sort xs)

-- No later element is less than an earlier one.
abbrev pub IsSorted : List Bytes → Type 0
IsSorted [] = Unit
IsSorted (x ∷ xs) = All (λ y. less y x ≡ false) xs × IsSorted xs

All-insert :
    (P : Bytes → Type 0) (x : Bytes) (ys : List Bytes) → P x → All P ys → All P (insert x ys)
unfolding insert
All-insert P x [] px h = (px, tt)
All-insert P x (y ∷ ys) px (py, h) = elim (Bool-cases (less y x)) [
  | inl e ↦ rw e (py, All-insert P x ys px h)
  | inr e ↦ rw e (px, (py, h))
]

All-weaken :
    (x y : Bytes) (ys : List Bytes)
    → less y x ≡ false
    → All (λ z. less z y ≡ false) ys
    → All (λ z. less z x ≡ false) ys
All-weaken x y [] h k = tt
All-weaken x y (z ∷ ys) h (k, ks) = (not-less_trans x y z h k, All-weaken x y ys h ks)

insert-IsSorted : (x : Bytes) (ys : List Bytes) → IsSorted ys → IsSorted (insert x ys)
unfolding insert
insert-IsSorted x [] h = (tt, tt)
insert-IsSorted x (y ∷ ys) (h, hs) = elim (Bool-cases (less y x)) [
  | inl e ↦ rw e (All-insert _ x ys (less_asymm y x e) h, insert-IsSorted x ys hs)
  | inr e ↦ rw e ((e, All-weaken x y ys e h), (h, hs))
]

pub sort-IsSorted : (xs : List Bytes) → IsSorted (sort xs)
unfolding sort
sort-IsSorted [] = tt
sort-IsSorted (x ∷ xs) = insert-IsSorted x (sort xs) (sort-IsSorted xs)

insert-Perm : (x : Bytes) (ys : List Bytes) → Perm (insert x ys) (x ∷ ys)
unfolding insert
insert-Perm x [] = Perm.refl _
insert-Perm x (y ∷ ys) = elim (Bool-cases (less y x)) [
  | inl e ↦ rw e (Perm.trans (Perm.cons y (insert-Perm x ys)) (Perm.swap x y ys))
  | inr e ↦ rw e (Perm.refl _)
]

pub sort-Perm : (xs : List Bytes) → Perm (sort xs) xs
unfolding sort
sort-Perm [] = Perm.refl _
sort-Perm (x ∷ xs) = Perm.trans (insert-Perm x (sort xs)) (Perm.cons x (sort-Perm xs))

length-insert : (x : Bytes) (ys : List Bytes) → length (insert x ys) ≡ length ys + 1
unfolding insert
length-insert x [] = omega arith
length-insert x (y ∷ ys) = ground (arith, length-insert x ys)

pub length-sort : (xs : List Bytes) → length (sort xs) ≡ length xs
unfolding sort
length-sort [] = refl
length-sort (x ∷ xs) = omega (arith, length-insert x (sort xs), length-sort xs)

-- The last element of a sorted list is the greatest.
pub last?-IsSorted :
    (xs : List Bytes) (m : Bytes) → IsSorted xs → last? xs ≡ some m → All (λ x. less m x ≡ false) xs
last?-IsSorted [] m h e = tt
last?-IsSorted (x ∷ []) m h e = (ground (arith, less_irrefl x), tt)
last?-IsSorted (x ∷ y ∷ xs) m ((first, rest), h) e =
    let later = last?-IsSorted (y ∷ xs) m h e in (not-less_trans x y m first later.0, later)
