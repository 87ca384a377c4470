-- ===== src/Blobstore/Keys.antt =====
-- When the keys of two tables' data differ.
use mathlib.Core.List.{append_cancel_left, append_cancel_right}
use pg_snapshot.Base.{ℕ, ◌≡◌, refl, sym, ◌∙◌, ap, [], ◌∷◌, ◌++◌, append_assoc, arith}
use pg_snapshot.Base.Bytes.{Bytes, codes, Lacks}
use pg_snapshot.Blobstore.{Layout, dir, data_file}

abbrev first_byte : Bytes → ℕ
first_byte [] = 0
first_byte (c ∷ s) = c

-- Two texts behind a first dot.
first_dot :
    (s t u v : Bytes)
    → Lacks b'.' s
    → Lacks b'.' t
    → s ++ b'.' ∷ u ≡ t ++ b'.' ∷ v
    → (s ≡ t) × (u ≡ v)
first_dot [] [] u v hs ht h = (refl, append_cancel_left (b'.' ∷ []) u v h)
first_dot [] (d ∷ t) u v hs (hd, ht) h = absurd (hd (sym (ap first_byte h)))
first_dot (c ∷ s) [] u v (hc, hs) ht h = absurd (hc (ap first_byte h))
first_dot (c ∷ s) (d ∷ t) u v (hc, hs) (hd, ht) h = ground (arith, h, first_dot s t u v hs ht)

-- In one snapshot, the data of two tables whose schemas have no dot is stored under one key only if
-- they are the same table.
pub data_file_injective :
    (l : Layout) (schema schema' table table' : Bytes)
    → Lacks b'.' schema
    → Lacks b'.' schema'
    → data_file l schema table ≡ data_file l schema' table'
    → (schema ≡ schema') × (table ≡ table')
unfolding data_file
data_file_injective l schema schema' table table' h h' e =
    let inner = append_cancel_left (codes "/data/") _ _ (append_cancel_left (dir l) _ _ e) in
    let (same, rest) =
      first_dot schema schema' (table ++ codes ".copy.gz") (table' ++ codes ".copy.gz") h h'
        inner in
    (same, append_cancel_right table table' (codes ".copy.gz") rest)

-- The data of s.a.t is stored under one key, whether s.a is the schema or a.t the table.
pub data_file_shared :
    (l : Layout) (s a t : Bytes)
    → data_file l (s ++ (codes "." ++ a)) t ≡ data_file l s (a ++ (codes "." ++ t))
unfolding data_file
data_file_shared l s a t =
    ap (λ r. dir l ++ (codes "/data/" ++ r))
      (append_assoc s (codes "." ++ a) (codes "." ++ (t ++ codes ".copy.gz"))
        ∙ ap (λ r. s ++ (codes "." ++ r))
            (sym (append_assoc a (codes "." ++ t) (codes ".copy.gz"))))
