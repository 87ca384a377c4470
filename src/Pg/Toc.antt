-- ===== src/Pg/Toc.antt =====
-- pg/tools.go: reading and editing the table of contents that `pg_restore --list` prints.
pub mod Edits
use pg_snapshot.Base.{
  ℕ, zero, suc, ◌+◌, ◌*◌, ◌-◌, ◌^◌, Bool, true, false, not, ◌&&◌, ◌||◌, List, [], ◌∷◌, ◌++◌,
}
use pg_snapshot.Base.{
  Option, none, some, if◌then◌else◌, ltb, leb, ◌==◌, length, take, drop, is_some,
}
use pg_snapshot.Base.Int.{ℤ, pos, sub_ℕ}
use pg_snapshot.Base.Bytes.{Bytes, codes, ◌=?◌, has_prefix, cut, split, join, fields, trim_space}

abbrev pub desc_extension : Bytes
desc_extension = codes "EXTENSION"

abbrev pub desc_publication : Bytes
desc_publication = codes "PUBLICATION"

abbrev pub desc_publication_table : Bytes
desc_publication_table = codes "PUBLICATION TABLE"

abbrev pub desc_publication_schemas : Bytes
desc_publication_schemas = codes "PUBLICATION TABLES IN SCHEMA"

abbrev pub desc_subscription : Bytes
desc_subscription = codes "SUBSCRIPTION"

abbrev pub known_descs : List Bytes
known_descs =
    desc_publication_schemas ∷ desc_publication_table ∷ desc_publication ∷ desc_subscription
    ∷ desc_extension ∷ []

pub record TocEntry : Type 0 where
  pub desc : Bytes
  pub schema : Bytes
  pub name : Bytes

-- The value of a text of decimal digits, behind those read so far.
unfoldable pub digits_value : ℕ → Bytes → Option ℕ
digits_value n [] = some n
digits_value n (c ∷ s) =
    let rest = digits_value (n * 10 + (c - b'0')) s in
    if leb b'0' c && leb c b'9' then rest else none

-- A number of digits below a bound, at least one digit.
unfoldable pub digits_below : ℕ → Bytes → Option ℕ
unfolding digits_value
digits_below bound [] = none
digits_below bound (c ∷ s) = elim (digits_value 0 (c ∷ s)) [
  | none ↦ none
  | some n ↦ if ltb n bound then some n else none
]

-- `strconv.Atoi` of a 64-bit int; `none` is its error.
unfoldable pub atoi : Bytes → Option ℤ
unfolding digits_below
atoi [] = none
atoi (c ∷ s) =
    if c == b'-'
    then (elim (digits_below (2 ^ 63 + 1) s) [ none ↦ none | some n ↦ some (sub_ℕ 0 n) ])
    else (elim (digits_below (2 ^ 63) (if c == b'+' then s else c ∷ s)) [
      | none ↦ none
      | some n ↦ some (pos n)
    ])

abbrev pub is_empty : Bytes → Bool
is_empty [] = true
is_empty (c ∷ s) = false

unfoldable pub is_entry_line : Bytes → Bool
unfolding trim_space has_prefix cut atoi fields
is_entry_line line =
    let trimmed = trim_space line in
    let (id, rest, found) = cut line (codes ";") in
    if is_empty trimmed || has_prefix trimmed (codes ";")
    then false
    else if not found
    then false
    else if not (is_some (atoi (trim_space id)))
    then false
    else leb 3 (length (fields rest))

-- The entry whose description was recognised; `none` is Go's panic on a missing field.
abbrev entry_of : Bytes → List Bytes → Option TocEntry
entry_of desc [] = none
entry_of desc (s ∷ []) = none
entry_of desc (s ∷ n ∷ rest) = some (record { desc = desc; schema = s; name = n })

-- The loop of `ParseTocEntry` over the descriptions.
unfoldable pub match_desc : List Bytes → List Bytes → Option TocEntry
unfolding fields ◌=?◌ join
match_desc fs [] = none
match_desc fs (desc ∷ descs) =
    let words = fields desc in
    let next = match_desc fs descs in
    if ltb (length fs) (length words + 2)
    then next
    else if not (join (take (length words) fs) (codes " ") =? desc)
    then next
    else entry_of desc (drop (length words) fs)

unfoldable pub parse_toc_entry : Bytes → Option TocEntry
unfolding is_entry_line cut fields match_desc
parse_toc_entry line =
    let (_, rest, found) = cut line (codes ";") in
    let fs = fields rest in
    if not (is_entry_line line)
    then none
    else if not found
    then none
    else if ltb (length fs) 4
    then none
    else match_desc (drop 2 fs) known_descs

-- Whether a line parses as an entry that a test selects.
unfoldable pub selects : (TocEntry → Bool) → Option TocEntry → Bool
selects test none = false
selects test (some e) = test e

unfoldable pub archive_extensions : List Bytes → List Bytes
unfolding parse_toc_entry ◌=?◌
archive_extensions [] = []
archive_extensions (line ∷ toc) = elim (parse_toc_entry line) [
  | none ↦ archive_extensions toc
  | some e ↦ (if e.desc =? desc_extension then e.name ∷ [] else []) ++ archive_extensions toc
]

unfoldable pub is_publication : TocEntry → Bool
unfolding ◌=?◌
is_publication e =
    e.desc =? desc_publication
    || (e.desc =? desc_publication_table || e.desc =? desc_publication_schemas)

unfoldable pub comment_out : List Bytes → (TocEntry → Bool) → List Bytes
unfolding parse_toc_entry selects
comment_out [] dropped = []
comment_out (line ∷ toc) dropped =
    (if selects dropped (parse_toc_entry line) then b';' ∷ line else line) ∷ comment_out toc dropped

unfoldable pub keep_only : List Bytes → (TocEntry → Bool) → List Bytes
unfolding is_entry_line parse_toc_entry selects
keep_only [] kept = []
keep_only (line ∷ toc) kept =
    (if not (is_entry_line line)
      then line
      else if selects kept (parse_toc_entry line)
      then line
      else b';' ∷ line)
    ∷ keep_only toc kept
