-- ===== src/Restore/Filter/Passes.antt =====
-- What the two passes of a schema restore replay.
use pg_snapshot.Base.{ℕ, not, ◌&&◌, List, [], ◌∷◌, ◌++◌, Option, none}
use pg_snapshot.Base.{inl, inr, ◌≡◌, refl, sym, ◌∙◌, arith, keep, Bool-cases}
use pg_snapshot.Base.Bytes.{Bytes, codes, ◌=?◌, =?_refl}
use pg_snapshot.Base.Dict.{Dict, lookup}
use pg_snapshot.Pg.Toc.{parse_toc_entry, is_entry_line, archive_extensions, comment_out, keep_only}
use pg_snapshot.Pg.Toc.{selects}
use pg_snapshot.Pg.Toc.Edits.{comment_out-active, keep_only-active}
use pg_snapshot.Restore.Filter.{Plan, not_available, unsupported_extensions}
use pg_snapshot.Restore.Filter.{drops, is_creatable, is_skipped}
use pg_snapshot.Restore.Filter.{any_entry, write_if, plan_lists, plan_schema_filter}
use pg_snapshot.Restore.Filter.Lines.{
  active, file_at, replayed, extension_pass, main_pass, can_create, is_special,
}
use pg_snapshot.Restore.Filter.Lines.{special_lines, nothing_dropped, no_entry, creatable_lines}

append-=? : (p s t : Bytes) → ((p ++ s) =? (p ++ t)) ≡ (s =? t)
unfolding ◌=?◌
append-=? [] s t = refl
append-=? (c ∷ p) s t = ground (arith, append-=? p s t)

replayed-append :
    (p s : Bytes) (c : ℕ) (default : List Bytes) (files : Dict (List Bytes))
    → replayed (p ++ c ∷ s) default files ≡ active (file_at (lookup (p ++ c ∷ s) files))
unfolding lookup
replayed-append [] s c default files = refl
replayed-append (d ∷ p) s c default files = refl

-- The first file is found at its path, and the second one at its own.
replayed-first :
    (p s : Bytes) (c : ℕ) (lines default : List Bytes) (files : Dict (List Bytes))
    → replayed (p ++ c ∷ s) default ((p ++ c ∷ s, lines) ∷ files) ≡ active lines
unfolding lookup
replayed-first p s c lines default files =
    replayed-append p s c default ((p ++ c ∷ s, lines) ∷ files) ∙ rw (=?_refl (p ++ c ∷ s)) refl

replayed-second :
    (p : Bytes) (lines others default : List Bytes)
    → replayed
        (p ++ codes ".list")
        default
        ((p ++ codes ".extensions.list", others) ∷ (p ++ codes ".list", lines) ∷ [])
      ≡ active lines
unfolding lookup ◌=?◌
replayed-second p lines others default =
    replayed-append p (codes "list") b'.' default
      ((p ++ codes ".extensions.list", others) ∷ (p ++ codes ".list", lines) ∷ [])
    ∙ rw (append-=? p (codes ".extensions.list") (codes ".list"), =?_refl (p ++ codes ".list")) refl

-- Both passes, over the unsupported extensions.
plan_lists_passes :
    (write_error : Bytes → List Bytes → Option Bytes)
    → ((path : Bytes) (lines : List Bytes) → write_error path lines ≡ none)
    → (archive_path : Bytes) (toc unsupported : List Bytes)
    → (plan : Plan) × (plan_lists write_error archive_path toc unsupported ≡ inr plan)
      × (extension_pass plan
          ≡ keep (λ line. selects (is_creatable unsupported) (parse_toc_entry line)) toc)
      × (main_pass toc plan
          ≡ keep
              (λ line.
                is_entry_line line && not (selects (drops unsupported) (parse_toc_entry line)))
              toc)
unfolding plan_lists write_if
plan_lists_passes write_error writes p toc u = elim (Bool-cases (any_entry (is_creatable u) toc)) [
  | inl c ↦ (
    (
      record {
        extensions_list_path = p ++ codes ".extensions.list";
        list_path = p ++ codes ".list";
      },
      (p ++ codes ".extensions.list", keep_only toc (is_creatable u))
          ∷ (p ++ codes ".list", comment_out toc (drops u))
          ∷ [],
    ),
    rw (c, plan_lists, writes, c, writes) refl,
    replayed-first p (codes "extensions.list") b'.' _ _ _ ∙ keep_only-active toc (is_creatable u),
    replayed-second p _ _ _ ∙ comment_out-active toc (drops u),
  )
  | inr c ↦ elim (Bool-cases (any_entry (is_skipped u) toc)) [
    | inl d ↦ (
      (
        record { extensions_list_path = []; list_path = p ++ codes ".list" },
        (p ++ codes ".list", comment_out toc (drops u)) ∷ [],
      ),
      rw (c, d, plan_lists, c, writes) refl,
      sym (no_entry (is_creatable u) toc c),
      replayed-first p (codes "list") b'.' _ _ _ ∙ comment_out-active toc (drops u),
    )
    | inr d ↦ (
      (record { extensions_list_path = []; list_path = [] }, []),
      rw (c, d, plan_lists, c) refl,
      sym (no_entry (is_creatable u) toc c),
      sym (nothing_dropped toc u c d),
    )
  ]
]

unsupported_lem :
    (available wanted : List Bytes)
    → unsupported_extensions (inr available) wanted ≡ inr (not_available available wanted)
unfolding unsupported_extensions not_available
unsupported_lem available [] = refl
unsupported_lem available (name ∷ wanted) = refl

-- Where the instance answers and the lists can be written, the schema filter is planned. The first
-- pass then replays exactly the extensions that the instance has. The second one replays exactly the
-- entries that are neither extensions nor replication. Both keep the order of the archive.
pub filter_passes :
    (write_error : Bytes → List Bytes → Option Bytes)
    → ((path : Bytes) (lines : List Bytes) → write_error path lines ≡ none)
    → (archive_path : Bytes) (toc available : List Bytes)
    → (plan : Plan) × (plan_schema_filter write_error archive_path (inr toc) (inr available)
        ≡ inr plan)
      × (extension_pass plan
          ≡ keep (λ line. selects (can_create available) (parse_toc_entry line)) toc)
      × (main_pass toc plan
          ≡ keep
              (λ line. is_entry_line line && not (selects is_special (parse_toc_entry line)))
              toc)
unfolding plan_schema_filter
filter_passes write_error writes p toc available =
    let wanted = archive_extensions toc in
    let u = not_available available wanted in
    let (plan, is, first, second) = plan_lists_passes write_error writes p toc u in
    (
      plan,
      rw (unsupported_lem available wanted, plan_schema_filter) is,
      first ∙ creatable_lines toc available wanted (λ name h. h),
      second ∙ special_lines toc u,
    )
