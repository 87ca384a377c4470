-- ===== src/Restore/Loader/Order.antt =====
-- restore/loader.go: which files are loaded, and in which order.
use pg_snapshot.Base.{◌≡◌, refl, ◌∙◌, Bool, true, false, ◌&&◌, not, List, [], ◌∷◌, arith, is_nil}
use pg_snapshot.Base.{count, keep, All, if◌then◌else◌}
use pg_snapshot.Base.Int.{ℤ, ltb_ℤ}
use pg_snapshot.Export.Manifest.{TableEntry}
use pg_snapshot.Restore.Loader.{is_pending, insert_by_bytes, largest_first, pending}

-- No entry is larger than one in front of it.
abbrev pub IsLargestFirst : List TableEntry → Type 0
IsLargestFirst [] = Unit
IsLargestFirst (e ∷ es) =
    All (λ (d : TableEntry). ltb_ℤ e.bytes d.bytes ≡ false) es × IsLargestFirst es

insert_by_bytes-count :
    (p : TableEntry → Bool) (e : TableEntry) (es : List TableEntry)
    → count p (insert_by_bytes e es) ≡ count p (e ∷ es)
unfolding insert_by_bytes
insert_by_bytes-count p e [] = refl
insert_by_bytes-count p e (d ∷ es) = ground (arith, insert_by_bytes-count p e es)

largest_first-count :
    (p : TableEntry → Bool) (es : List TableEntry) → count p (largest_first es) ≡ count p es
unfolding largest_first
largest_first-count p [] = refl
largest_first-count p (e ∷ es) =
    insert_by_bytes-count p e (largest_first es) ∙ ground (arith, largest_first-count p es)

ltb_ℤ-trans : (a b c : ℤ) → ltb_ℤ a b ≡ false → ltb_ℤ b c ≡ false → ltb_ℤ a c ≡ false
ltb_ℤ-trans a b c h k = ground arith

ltb_ℤ-asym : (a b : ℤ) → ltb_ℤ a b ≡ true → ltb_ℤ b a ≡ false
ltb_ℤ-asym a b h = ground arith

All-below :
    (a b : ℤ) (es : List TableEntry)
    → ltb_ℤ a b ≡ false
    → All (λ (d : TableEntry). ltb_ℤ b d.bytes ≡ false) es
    → All (λ (d : TableEntry). ltb_ℤ a d.bytes ≡ false) es
All-below a b [] h all = tt
All-below a b (d ∷ es) h (first, all) = (ltb_ℤ-trans a b d.bytes h first, All-below a b es h all)

All-inserted :
    (a : ℤ) (e : TableEntry) (es : List TableEntry)
    → ltb_ℤ a e.bytes ≡ false
    → All (λ (d : TableEntry). ltb_ℤ a d.bytes ≡ false) es
    → All (λ (d : TableEntry). ltb_ℤ a d.bytes ≡ false) (insert_by_bytes e es)
unfolding insert_by_bytes
All-inserted a e [] h all = (h, tt)
All-inserted a e (d ∷ es) h (first, all) = at (ltb_ℤ e.bytes d.bytes) (All-inserted a e es h all)
  where
    at :
        (b : Bool)
        → All (λ (d : TableEntry). ltb_ℤ a d.bytes ≡ false) (insert_by_bytes e es)
        → All
            (λ (d : TableEntry). ltb_ℤ a d.bytes ≡ false)
            (if b then d ∷ insert_by_bytes e es else e ∷ d ∷ es)
    at true rest = (first, rest)
    at false rest = (h, (first, all))

insert_by_bytes-IsLargestFirst :
    (e : TableEntry) (es : List TableEntry)
    → IsLargestFirst es
    → IsLargestFirst (insert_by_bytes e es)
unfolding insert_by_bytes
insert_by_bytes-IsLargestFirst e [] h = (tt, tt)
insert_by_bytes-IsLargestFirst e (d ∷ es) (first, h) =
    at (ltb_ℤ e.bytes d.bytes) refl (insert_by_bytes-IsLargestFirst e es h)
  where
    at :
        (b : Bool)
        → ltb_ℤ e.bytes d.bytes ≡ b
        → IsLargestFirst (insert_by_bytes e es)
        → IsLargestFirst (if b then d ∷ insert_by_bytes e es else e ∷ d ∷ es)
    at true is rest = (All-inserted d.bytes e es (ltb_ℤ-asym e.bytes d.bytes is) first, rest)
    at false is rest = ((is, All-below e.bytes d.bytes es is first), (first, h))

largest_first-IsLargestFirst : (es : List TableEntry) → IsLargestFirst (largest_first es)
unfolding largest_first
largest_first-IsLargestFirst [] = tt
largest_first-IsLargestFirst (e ∷ es) =
    insert_by_bytes-IsLargestFirst e (largest_first es) (largest_first-IsLargestFirst es)

count-keep :
    (p q : TableEntry → Bool) (es : List TableEntry)
    → count p (keep q es) ≡ count (λ e. q e && p e) es
count-keep p q [] = refl
count-keep p q (e ∷ es) = ground (arith, count-keep p q es)

-- The jobs of a load are the entries of tables that are not skipped and have a data file, each as often
-- as it is listed, and no job is larger than one in front of it.
pub pending-IsLargestFirst :
    (entries : List TableEntry)
    → IsLargestFirst (pending entries)
      × ((p : TableEntry → Bool)
          → count p (pending entries)
            ≡ count (λ (e : TableEntry). (not e.skipped && not (is_nil e.file)) && p e) entries)
unfolding pending is_pending
pending-IsLargestFirst entries = (
  largest_first-IsLargestFirst (keep is_pending entries),
  λ p. largest_first-count p (keep is_pending entries) ∙ count-keep p is_pending entries,
)
