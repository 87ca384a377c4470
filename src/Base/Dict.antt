-- ===== src/Base/Dict.antt =====
-- Go's maps with string keys, as association lists, and sets of strings, as lists without repeats.
-- Go's own order of iteration is unspecified; the program sorts the keys wherever order shows.
use mathlib.Core.Path.{◌≡◌, refl, sym, ap, ◌∙◌}
use mathlib.Core.Logic.{inl, inr}
use mathlib.Core.Bool.{Bool, true, false, ◌||◌, or-true}
use mathlib.Core.Option.{Option, none, some}
use mathlib.Core.List.{List, [], ◌∷◌, ◌++◌}
use native.Mathlib.Omega.{arith}
use pg_snapshot.Base.Tests.{if◌then◌else◌, Bool-cases, is_some}
use pg_snapshot.Base.Lists.{All}
use pg_snapshot.Base.Bytes.{Bytes, ◌=?◌, =?_sound, =?_refl}
use pg_snapshot.Base.Sort.{sort, insert}

abbrev pub Dict {ℓ} : Type ℓ → Type ℓ
Dict V = List (Bytes × V)

module _ {ℓ} {V : Type ℓ} where
  -- `m[k]` with the test of presence.
  unfoldable pub lookup : Bytes → Dict V → Option V
  lookup k [] = none
  lookup k ((j, v) ∷ m) = if j =? k then some v else lookup k m

  -- `m[k] = v`
  unfoldable pub put : Bytes → V → Dict V → Dict V
  put k v [] = (k, v) ∷ []
  put k v ((j, w) ∷ m) = if j =? k then (k, v) ∷ m else (j, w) ∷ put k v m

  abbrev pub keys : Dict V → List Bytes
  keys [] = []
  keys ((k, v) ∷ m) = k ∷ keys m

  -- `sortedKeys`
  unfoldable pub sorted_keys : Dict V → List Bytes
  unfolding sort
  sorted_keys m = sort (keys m)

-- Membership in a slice or a set.
unfoldable pub contains : Bytes → List Bytes → Bool
contains k [] = false
contains k (x ∷ xs) = x =? k || contains k xs

-- `set[k] = true`
unfoldable pub add : Bytes → List Bytes → List Bytes
unfolding contains
add k xs = if contains k xs then xs else xs ++ k ∷ []

pub contains-append :
    (k : Bytes) (xs ys : List Bytes) → contains k (xs ++ ys) ≡ (contains k xs || contains k ys)
unfolding contains
contains-append k [] ys = refl
contains-append k (x ∷ xs) ys = ground (arith, contains-append k xs ys)

pub contains-add :
    (k x : Bytes) (xs : List Bytes) → contains k (add x xs) ≡ (contains k xs || x =? k)
unfolding add contains
contains-add k x xs = elim (Bool-cases (contains x xs)) [
  | inl old ↦ rw old (elim (Bool-cases (x =? k)) [
    | inl e ↦ let same = =?_sound x k e in ground (arith, ap (λ z. contains z xs) same)
    | inr e ↦ ground arith
  ])
  | inr new ↦ rw (new, contains-append k xs (x ∷ [])) (ground arith)
]

contains-insert :
    (k x : Bytes) (xs : List Bytes) → contains k (insert x xs) ≡ (x =? k || contains k xs)
unfolding contains insert
contains-insert k x [] = refl
contains-insert k x (y ∷ ys) = ground (arith, contains-insert k x ys)

pub contains-sort : (k : Bytes) (xs : List Bytes) → contains k (sort xs) ≡ contains k xs
unfolding contains sort
contains-sort k [] = refl
contains-sort k (x ∷ xs) = ground (arith, contains-insert k x (sort xs), contains-sort k xs)

pub All_of_contains :
    (P : Bytes → Type 0) (k : Bytes) (xs : List Bytes) → All P xs → contains k xs ≡ true → P k
unfolding contains
All_of_contains P k [] h e = cc
All_of_contains P k (x ∷ xs) (px, h) e = elim (Bool-cases (x =? k)) [
  | inl same ↦ rw (=?_sound x k same) at px
  | inr other ↦ All_of_contains P k xs h (ground arith)
]

-- A list is a part of another.
abbrev pub Within : List Bytes → List Bytes → Type 0
Within xs ys = All (λ x. contains x ys ≡ true) xs

pub is_some-lookup {ℓ} :
    {V : Type ℓ} (k : Bytes) (m : Dict V) → is_some (lookup k m) ≡ contains k (keys m)
unfolding lookup contains
is_some-lookup k [] = refl
is_some-lookup k ((j, v) ∷ m) = elim (Bool-cases (j =? k)) [
  | inl e ↦ rw e refl
  | inr e ↦ rw e (is_some-lookup k m)
]

-- Two ways from membership tests to a predicate on all elements.
pub All-intro :
    (P : Bytes → Type 0) (xs : List Bytes) → ((k : Bytes) → contains k xs ≡ true → P k) → All P xs
unfolding contains
All-intro P [] h = tt
All-intro P (x ∷ xs) h =
    (h x (rw (=?_refl x) refl), All-intro P xs (λ k e. h k (rw e (or-true (x =? k)))))

pub All-same :
    (P : Bytes → Type 0) (xs ys : List Bytes)
    → ((k : Bytes) → contains k ys ≡ contains k xs)
    → All P xs
    → All P ys
All-same P xs ys same h = All-intro P ys (λ k e. All_of_contains P k xs h (rw (same k) at e))

pub lookup-put {ℓ} :
    {V : Type ℓ} (k j : Bytes) (v : V) (m : Dict V)
    → lookup j (put k v m) ≡ (if k =? j then some v else lookup j m)
unfolding lookup put
lookup-put k j v [] = refl
lookup-put k j v ((i, w) ∷ m) = elim (Bool-cases (i =? k)) [
  | inl e ↦ rw e (same (ap (λ n. n =? j) (=?_sound i k e)))
  | inr e ↦ rw e (other e (lookup-put k j v m))
]
  where
    same :
        (i =? j) ≡ (k =? j)
        → (if k =? j then some v else lookup j m)
          ≡ (if k =? j then some v else if i =? j then some w else lookup j m)
    same h = ground (arith, h)

    other :
        i =? k ≡ false
        → lookup j (put k v m) ≡ (if k =? j then some v else lookup j m)
        → (if i =? j then some w else lookup j (put k v m))
          ≡ (if k =? j then some v else if i =? j then some w else lookup j m)
    other h ih = elim (Bool-cases (i =? j)) [
      | inl a ↦ elim (Bool-cases (k =? j)) [
        | inl b ↦ absurd (cc (sym h ∙ ap (λ n. i =? n) (=?_sound k j b) ∙ a))
        | inr b ↦ rw (a, b) refl
      ]
      | inr a ↦ rw a ih
    ]

-- No name comes twice.
abbrev pub Distinct : List Bytes → Type 0
Distinct [] = Unit
Distinct (x ∷ xs) = (contains x xs ≡ false) × Distinct xs
