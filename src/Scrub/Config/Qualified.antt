-- ===== src/Scrub/Config/Qualified.antt =====
-- `SplitQualified` takes apart exactly the names of the form schema.table.
use pg_snapshot.Base.{◌≡◌, refl, sym, ◌∙◌, ap, ◌≢◌, List, [], ◌∷◌, ◌++◌}
use pg_snapshot.Base.{some, arith, All, ◌↔◌, subst}
use pg_snapshot.Base.Bytes.{
  Bytes, codes, split, join, split-Lacks, join-split, split-append, split_once,
}
use pg_snapshot.Scrub.Config.{two_parts, split_qualified}

-- No byte of the text is a dot.
abbrev pub Undotted : Bytes → Type 0
Undotted = All (λ c. c ≢ b'.')

two_parts_sound :
    (parts : List Bytes) (s t : Bytes)
    → two_parts parts ≡ some (s, t)
    → (parts ≡ s ∷ t ∷ []) × (s ≢ []) × (t ≢ [])
two_parts_sound [] s t h = cc
two_parts_sound (a ∷ []) s t h = cc
two_parts_sound ([] ∷ b ∷ []) s t h = cc
two_parts_sound ((x ∷ a) ∷ [] ∷ []) s t h = cc
two_parts_sound ((x ∷ a) ∷ (y ∷ b) ∷ []) s t h =
    (ground (arith, h), (λ e. ground (arith, h, e)), (λ e. ground (arith, h, e)))
two_parts_sound (a ∷ b ∷ c ∷ parts) s t h = cc

two_parts_complete : (s t : Bytes) → s ≢ [] → t ≢ [] → two_parts (s ∷ t ∷ []) ≡ some (s, t)
two_parts_complete [] t hs ht = absurd (hs refl)
two_parts_complete (x ∷ s) [] hs ht = absurd (ht refl)
two_parts_complete (x ∷ s) (y ∷ t) hs ht = refl

-- A schema and a table name that a configuration can name.
abbrev pub IsQualified : Bytes → Bytes → Bytes → Type 0
IsQualified name s t =
    (name ≡ s ++ (codes "." ++ t)) × (s ≢ []) × (t ≢ []) × Undotted s × Undotted t

-- A name splits into a schema and a table exactly when it is the two with a dot between them, neither
-- is empty, and neither has a dot; so the split is the only one.
pub split_qualified_iff :
    (name s t : Bytes) → (split_qualified name ≡ some (s, t)) ↔ IsQualified name s t
unfolding split_qualified join
split_qualified_iff name s t = (there, back)
  where
    there : two_parts (split name b'.') ≡ some (s, t) → IsQualified name s t
    there h =
        let (e, hs, ht) = two_parts_sound (split name b'.') s t h in
        let (us, (ut, _)) = subst (All Undotted) e (split-Lacks name b'.') in
        (sym (join-split name b'.') ∙ ap (λ parts. join parts (codes ".")) e, hs, ht, us, ut)

    back : IsQualified name s t → two_parts (split name b'.') ≡ some (s, t)
    back (e, hs, ht, us, ut) =
        ap (λ n. two_parts (split n b'.')) e
        ∙ rw (split-append s t b'.' us, split_once t b'.' ut) (two_parts_complete s t hs ht)
