-- ===== src/Restore/Filter/Lines.antt =====
-- Which lines of an archive the decisions of the schema filter select.
use pg_snapshot.Base.{Bool, true, false, not, ◌&&◌, ◌||◌, List, [], ◌∷◌, ◌++◌, Option, none, some}
use pg_snapshot.Base.{
  if◌then◌else◌, inl, inr, ◌≡◌, refl, ap, ◌∙◌, arith, keep, Bool-cases, Option-cases,
}
use pg_snapshot.Base.Bytes.{Bytes, ◌=?◌, =?_sound, =?_refl}
use pg_snapshot.Base.Dict.{Dict, contains, lookup, contains-append}
use pg_snapshot.Pg.Toc.{TocEntry, parse_toc_entry, is_entry_line, archive_extensions}
use pg_snapshot.Pg.Toc.{desc_extension, selects}
use pg_snapshot.Restore.Filter.{Plan, not_available}
use pg_snapshot.Restore.Filter.{is_missing, is_replication, drops, is_creatable, is_skipped}
use pg_snapshot.Restore.Filter.{any_entry}

-- The entries that pg_restore replays from a list file: the active lines.
abbrev pub active : List Bytes → List Bytes
active lines = keep is_entry_line lines

abbrev pub file_at : Option (List Bytes) → List Bytes
file_at none = []
file_at (some lines) = lines

-- What a pass replays whose list file is at a path, or a default where it is empty.
abbrev pub replayed : Bytes → List Bytes → Dict (List Bytes) → List Bytes
replayed [] default files = default
replayed (c ∷ s) default files = active (file_at (lookup (c ∷ s) files))

-- The pass for extensions: nothing where no list is named.
abbrev pub extension_pass : Plan → List Bytes
extension_pass (filter, files) = replayed filter.extensions_list_path [] files

-- The pass for everything else: the whole archive where no list is named.
abbrev pub main_pass : List Bytes → Plan → List Bytes
main_pass toc (filter, files) = replayed filter.list_path (active toc) files

-- An extension that the instance has.
abbrev pub can_create : List Bytes → TocEntry → Bool
can_create available e = e.desc =? desc_extension && contains e.name available

abbrev pub is_special : TocEntry → Bool
is_special e = e.desc =? desc_extension || is_replication e

drops_special : (unsupported : List Bytes) (e : TocEntry) → drops unsupported e ≡ is_special e
unfolding drops is_missing
drops_special unsupported e = ground arith

drops_either :
    (unsupported : List Bytes) (e : TocEntry)
    → drops unsupported e ≡ (is_creatable unsupported e || is_skipped unsupported e)
unfolding drops is_creatable is_skipped is_missing
drops_either unsupported e = ground arith

contains-not_available :
    (name : Bytes) (available wanted : List Bytes)
    → contains name (not_available available wanted)
      ≡ (contains name wanted && not (contains name available))
unfolding not_available contains
contains-not_available name available [] = refl
contains-not_available name available (w ∷ wanted) =
    let rest = contains-not_available name available wanted in
    elim (Bool-cases (w =? name)) [
      | inl same ↦
          let e = =?_sound w name same in
          elim (Bool-cases (contains w available)) [
            | inl has ↦ rw has (ground (arith, rest, has, ap (λ x. contains x available) e))
            | inr lacks ↦
                rw lacks (ground (arith, rest, lacks, same, ap (λ x. contains x available) e))
          ]
      | inr other ↦ elim (Bool-cases (contains w available)) [
        | inl has ↦ rw (has, other) rest
        | inr lacks ↦ rw (lacks, other) rest
      ]
    ]

same_entry :
    (available wanted : List Bytes) (e : TocEntry)
    → (e.desc =? desc_extension ≡ true → contains e.name wanted ≡ true)
    → is_creatable (not_available available wanted) e ≡ can_create available e
unfolding is_creatable
same_entry available wanted e h = elim (Bool-cases (e.desc =? desc_extension)) [
  | inl ext ↦ ground (arith, ext, contains-not_available e.name available wanted, h ext)
  | inr other ↦ rw other refl
]

keep_cong :
    (p q : Bytes → Bool) (x : Bytes) (xs : List Bytes)
    → p x ≡ q x
    → keep p xs ≡ keep q xs
    → keep p (x ∷ xs) ≡ keep q (x ∷ xs)
keep_cong p q x xs h k = elim (Bool-cases (q x)) [
  | inl e ↦ rw (h, e) (ap (λ r. x ∷ r) k)
  | inr e ↦ rw (h, e) k
]

extension_names :
    (line : Bytes) (toc : List Bytes) (e : TocEntry)
    → parse_toc_entry line ≡ some e
    → archive_extensions (line ∷ toc)
      ≡ (if e.desc =? desc_extension then e.name ∷ [] else []) ++ archive_extensions toc
unfolding archive_extensions
extension_names line toc e h = rw (h, archive_extensions) refl

other_names :
    (line : Bytes) (toc : List Bytes)
    → parse_toc_entry line ≡ none
    → archive_extensions (line ∷ toc) ≡ archive_extensions toc
unfolding archive_extensions
other_names line toc h = rw (h, archive_extensions) refl

-- Which extensions are creatable, for the entries of a part of the archive.
pub creatable_lines :
    (toc available wanted : List Bytes)
    → ((name : Bytes) → contains name (archive_extensions toc) ≡ true → contains name wanted ≡ true)
    → keep
        (λ line. selects (is_creatable (not_available available wanted)) (parse_toc_entry line))
        toc
      ≡ keep (λ line. selects (can_create available) (parse_toc_entry line)) toc
unfolding selects contains
creatable_lines [] available wanted h = refl
creatable_lines (line ∷ toc) available wanted h = elim (Option-cases (parse_toc_entry line)) [
  | inl e ↦ keep_cong _ _ line toc (rw e refl) (
      creatable_lines toc available wanted
        (λ name c. h name (ap (contains name) (other_names line toc e) ∙ c)))
  | inr (t, e) ↦
      keep_cong _ _ line toc
        (rw e (
          same_entry available wanted t (λ ext. h t.name (
            ap (contains t.name) (extension_names line toc t e)
            ∙ rw (ext, contains) (ground (arith, =?_refl t.name))))))
        (creatable_lines toc available wanted (λ name c. h name (
          ap (contains name) (extension_names line toc t e)
          ∙ (contains-append name _ (archive_extensions toc) ∙ ground (arith, c)))))
]

any_entry_step :
    (test : TocEntry → Bool) (line : Bytes) (toc : List Bytes)
    → any_entry test (line ∷ toc) ≡ (selects test (parse_toc_entry line) || any_entry test toc)
unfolding any_entry selects
any_entry_step test line toc = elim (Option-cases (parse_toc_entry line)) [
  | inl e ↦ rw (e, any_entry) refl
  | inr (t, e) ↦ rw (e, any_entry) refl
]

pub no_entry :
    (test : TocEntry → Bool) (toc : List Bytes)
    → any_entry test toc ≡ false
    → keep (λ line. selects test (parse_toc_entry line)) toc ≡ []
no_entry test [] h = refl
no_entry test (line ∷ toc) h = ground (arith, any_entry_step test line toc, no_entry test toc)

selects-either :
    (a b c : TocEntry → Bool) (o : Option TocEntry)
    → ((e : TocEntry) → a e ≡ (b e || c e))
    → selects a o ≡ (selects b o || selects c o)
unfolding selects
selects-either a b c none h = refl
selects-either a b c (some e) h = h e

-- Where the closure drops nothing, every entry is replayed by the main pass.
pub nothing_dropped :
    (toc unsupported : List Bytes)
    → any_entry (is_creatable unsupported) toc ≡ false
    → any_entry (is_skipped unsupported) toc ≡ false
    → keep
        (λ line. is_entry_line line && not (selects (drops unsupported) (parse_toc_entry line)))
        toc
      ≡ active toc
nothing_dropped [] u h k = refl
nothing_dropped (line ∷ toc) u h k =
    keep_cong _ _ line toc
      (ground (
        arith,
        any_entry_step (is_creatable u) line toc,
        any_entry_step (is_skipped u) line toc,
        selects-either (drops u) (is_creatable u) (is_skipped u) (parse_toc_entry line)
            (drops_either u),
      ))
      (nothing_dropped toc u (ground (arith, any_entry_step (is_creatable u) line toc))
        (ground (arith, any_entry_step (is_skipped u) line toc)))

pub special_lines :
    (toc unsupported : List Bytes)
    → keep
        (λ line. is_entry_line line && not (selects (drops unsupported) (parse_toc_entry line)))
        toc
      ≡ keep (λ line. is_entry_line line && not (selects is_special (parse_toc_entry line))) toc
unfolding selects
special_lines [] u = refl
special_lines (line ∷ toc) u =
    keep_cong _ _ line toc
      (elim (Option-cases (parse_toc_entry line)) [
        | inl e ↦ rw e refl
        | inr (t, e) ↦ rw e (ap (λ b. is_entry_line line && not b) (drops_special u t))
      ])
      (special_lines toc u)
