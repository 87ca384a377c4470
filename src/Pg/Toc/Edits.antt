-- ===== src/Pg/Toc/Edits.antt =====
-- Which entries of a table of contents are active after an edit.
use mathlib.Core.List.{reverse, reverse-cons, reverse_aux-append}
use pg_snapshot.Base.{ℕ, Bool, true, false, not, ◌&&◌, List, [], ◌∷◌, ◌++◌, ◌≡◌, refl, ap, ◌∙◌}
use pg_snapshot.Base.{none, keep, Bool-cases, inl, inr}
use pg_snapshot.Base.Bytes.{Bytes, trim_left_space, trim_space, is_space}
use pg_snapshot.Pg.Toc.{TocEntry, is_entry_line, parse_toc_entry, selects, comment_out, keep_only}

reverse-snoc : (xs : Bytes) (c : ℕ) → reverse (xs ++ c ∷ []) ≡ c ∷ reverse xs
reverse-snoc xs c = reverse_aux-append xs (c ∷ []) []

-- A last byte that is no space stays.
trim_left_space-append :
    (xs : Bytes) (c : ℕ)
    → is_space c ≡ false
    → (ys : Bytes) × (trim_left_space (xs ++ c ∷ []) ≡ ys ++ c ∷ [])
unfolding trim_left_space
trim_left_space-append [] c h = ([], rw h refl)
trim_left_space-append (x ∷ xs) c h = elim (Bool-cases (is_space x)) [
  | inl e ↦ rw e (trim_left_space-append xs c h)
  | inr e ↦ rw e (x ∷ xs, refl)
]

-- A commented line is no entry.
pub is_entry_line-comment : (line : Bytes) → is_entry_line (b';' ∷ line) ≡ false
unfolding is_entry_line trim_space
is_entry_line-comment line =
    let (ys, e) = trim_left_space-append (reverse line) b';' refl in
    let f = ap (λ r. trim_left_space r) (reverse-cons b';' line) ∙ e in
    rw (f, reverse-snoc ys b';') refl

not_parsed : (line : Bytes) → is_entry_line line ≡ false → parse_toc_entry line ≡ none
unfolding parse_toc_entry
not_parsed line h = rw h refl

selects_entry :
    (test : TocEntry → Bool) (line : Bytes)
    → selects test (parse_toc_entry line) ≡ true
    → is_entry_line line ≡ true
unfolding selects
selects_entry test line h = elim (Bool-cases (is_entry_line line)) [
  | inl e ↦ e
  | inr e ↦ cc (ap (selects test) (not_parsed line e), h)
]

-- In an edited table of contents, the active entry lines are those of the table that the test does
-- not select, in their order.
pub comment_out-active :
    (toc : List Bytes) (dropped : TocEntry → Bool)
    → keep is_entry_line (comment_out toc dropped)
      ≡ keep (λ line. is_entry_line line && not (selects dropped (parse_toc_entry line))) toc
unfolding comment_out
comment_out-active [] dropped = refl
comment_out-active (line ∷ toc) dropped =
    elim (Bool-cases (selects dropped (parse_toc_entry line))) [
      | inl e ↦
          rw (e, is_entry_line-comment line, selects_entry dropped line e)
            (comment_out-active toc dropped)
      | inr e ↦ elim (Bool-cases (is_entry_line line)) [
        | inl f ↦ rw (e, f) (ap (λ r. line ∷ r) (comment_out-active toc dropped))
        | inr f ↦ rw (e, f) (comment_out-active toc dropped)
      ]
    ]

-- Of a table that keeps only what a test selects, the active entry lines are those that the test
-- selects, in their order.
pub keep_only-active :
    (toc : List Bytes) (kept : TocEntry → Bool)
    → keep is_entry_line (keep_only toc kept)
      ≡ keep (λ line. selects kept (parse_toc_entry line)) toc
unfolding keep_only
keep_only-active [] kept = refl
keep_only-active (line ∷ toc) kept = elim (Bool-cases (selects kept (parse_toc_entry line))) [
  | inl e ↦
      rw (e, selects_entry kept line e, selects_entry kept line e)
        (ap (λ r. line ∷ r) (keep_only-active toc kept))
  | inr e ↦ elim (Bool-cases (is_entry_line line)) [
    | inl f ↦ rw (e, f, is_entry_line-comment line) (keep_only-active toc kept)
    | inr f ↦ rw (e, f, f) (keep_only-active toc kept)
  ]
]
