-- ===== src/Restore/Filter.antt =====
-- restore/filter.go: which entries of an archive each pass of pg_restore replays. The table of
-- contents, the extensions that the instance has, and the outcome of writing a file are parameters.
pub mod Lines
pub mod Passes
use pg_snapshot.Base.{
  ℕ, Bool, true, false, not, ◌&&◌, ◌||◌, List, [], ◌∷◌, ◌++◌, Option, none, some,
}
use pg_snapshot.Base.{if◌then◌else◌, ◌⊎◌, inl, inr}
use pg_snapshot.Base.Bytes.{Bytes, codes, ◌=?◌, join}
use pg_snapshot.Base.Dict.{Dict, contains, add}
use pg_snapshot.Pg.Toc.{TocEntry, parse_toc_entry, archive_extensions, comment_out, keep_only}
use pg_snapshot.Pg.Toc.{desc_extension, desc_publication, desc_publication_table}
use pg_snapshot.Pg.Toc.{desc_publication_schemas, desc_subscription}

abbrev pub replication_descs : List Bytes
replication_descs =
    desc_publication ∷ desc_publication_table ∷ desc_publication_schemas ∷ desc_subscription ∷ []

pub record SchemaFilter : Type 0 where
  pub extensions_list_path : Bytes
  pub list_path : Bytes

-- The error of a step, or its result.
abbrev pub Outcome : Type 0 → Type 0
Outcome A = Bytes ⊎ A

-- The loop of `unsupportedExtensions`.
unfoldable pub not_available : List Bytes → List Bytes → List Bytes
unfolding contains add
not_available available [] = []
not_available available (name ∷ wanted) =
    (if contains name available then [] else name ∷ []) ++ not_available available wanted

-- No query is made where nothing is wanted.
unfoldable pub unsupported_extensions : Outcome (List Bytes) → List Bytes → Outcome (List Bytes)
unfolding not_available
unsupported_extensions available [] = inr []
unsupported_extensions (inl e) (name ∷ wanted) = inl e
unsupported_extensions (inr available) (name ∷ wanted) =
    inr (not_available available (name ∷ wanted))

-- The cases of the `switch`: an extension that cannot be created, one that can, replication.
unfoldable pub is_missing : List Bytes → TocEntry → Bool
unfolding ◌=?◌ contains
is_missing unsupported e = e.desc =? desc_extension && contains e.name unsupported

unfoldable pub is_replication : TocEntry → Bool
unfolding contains
is_replication e = contains e.desc replication_descs

-- What the closure of `CommentOut` returns.
unfoldable pub drops : List Bytes → TocEntry → Bool
unfolding is_missing is_replication ◌=?◌
drops unsupported e =
    if is_missing unsupported e
    then true
    else if e.desc =? desc_extension
    then true
    else is_replication e

-- What it counts: the creatable extensions, and whether another entry is dropped.
unfoldable pub is_creatable : List Bytes → TocEntry → Bool
unfolding ◌=?◌ contains
is_creatable unsupported e = e.desc =? desc_extension && not (contains e.name unsupported)

unfoldable pub is_skipped : List Bytes → TocEntry → Bool
unfolding is_missing is_replication ◌=?◌
is_skipped unsupported e =
    if is_missing unsupported e
    then true
    else if e.desc =? desc_extension
    then false
    else is_replication e

-- Whether the closure is called with an entry that a test selects.
unfoldable pub any_entry : (TocEntry → Bool) → List Bytes → Bool
unfolding parse_toc_entry
any_entry test [] = false
any_entry test (line ∷ toc) = elim (parse_toc_entry line) [
  | none ↦ any_entry test toc
  | some e ↦ test e || any_entry test toc
]

-- A filter and the files written, by path; a file is a list of lines.
abbrev pub Plan : Type 0
Plan = SchemaFilter × Dict (List Bytes)

module _ (write_error : Bytes → List Bytes → Option Bytes) where
  -- `writeList` where a condition holds: the path, which is empty otherwise, and the file.
  unfoldable pub write_if : Bool → Bytes → List Bytes → Outcome (Bytes × Dict (List Bytes))
  write_if false path toc = inr ([], [])
  write_if true path toc = elim (write_error path toc) [
    | some e ↦ inl e
    | none ↦ inr (path, (path, toc) ∷ [])
  ]

  -- `PlanSchemaFilter` behind the two readings.
  unfoldable pub plan_lists : Bytes → List Bytes → List Bytes → Outcome Plan
  unfolding any_entry is_creatable is_skipped drops comment_out keep_only write_if
  plan_lists archive_path toc unsupported =
      let creatable = any_entry (is_creatable unsupported) toc in
      let dropped = any_entry (is_skipped unsupported) toc in
      elim (write_if creatable (archive_path ++ codes ".extensions.list")
        (keep_only toc (is_creatable unsupported))) [
          | inl e ↦ inl e
          | inr (extensions_path, extensions_file) ↦
              elim (write_if (creatable || dropped) (archive_path ++ codes ".list")
                (comment_out toc (drops unsupported))) [
                  | inl e ↦ inl e
                  | inr (path, file) ↦ inr (
                    record { extensions_list_path = extensions_path; list_path = path },
                    extensions_file ++ file,
                  )
                ]
        ]

  unfoldable pub plan_schema_filter :
      Bytes → Outcome (List Bytes) → Outcome (List Bytes) → Outcome Plan
  unfolding unsupported_extensions archive_extensions plan_lists
  plan_schema_filter archive_path (inl e) available = inl e
  plan_schema_filter archive_path (inr toc) available =
      elim (unsupported_extensions available (archive_extensions toc)) [
        | inl e ↦ inl e
        | inr unsupported ↦ plan_lists archive_path toc unsupported
      ]
