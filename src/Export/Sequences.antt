-- ===== src/Export/Sequences.antt =====
-- export/sequences.go: where the position of each sequence comes from, and the statement that replays
-- it. The answers of the three queries are parameters; `quote_ident` and `quote_literal` are lib/pq's.
pub mod Captured
use pg_snapshot.Base.{
  is_nil, Bool, true, false, not, List, [], ◌∷◌, ◌++◌, Option, none, some, map, refl,
}
use pg_snapshot.Base.{if◌then◌else◌, ◌⊎◌, inl, inr, ◌≡◌, ap}
use pg_snapshot.Base.Int.{ℤ, pos, itoa_ℤ}
use pg_snapshot.Base.Bytes.{Bytes, codes}
use pg_snapshot.Base.Dict.{Dict, lookup}
use pg_snapshot.Catalog.{qualify}

pub data SequenceSource : Type 0 where
  source_catalog source_max_column source_unavailable : SequenceSource

pub record Sequence : Type 0 where
  pub schema : Bytes
  pub name : Bytes
  pub source : SequenceSource
  pub last_value : ℤ
  pub is_called : Bool
  pub owned_by : Bytes

pub record SequenceOwner : Type 0 where
  pub schema : Bytes
  pub table : Bytes
  pub column : Bytes

pub record SequenceRef : Type 0 where
  pub schema : Bytes
  pub name : Bytes
  pub owner : SequenceOwner

abbrev pub exists : SequenceOwner → Bool
exists o = not (is_nil o.table)

-- `Qualified` of a sequence.
unfoldable pub sequence_qualified : Sequence → Bytes
unfolding qualify
sequence_qualified s = qualify s.schema s.name

-- `key` of a reference.
unfoldable pub ref_key : SequenceRef → Bytes
unfolding qualify
ref_key r = qualify r.schema r.name

unfoldable pub owner_name : SequenceOwner → Bytes
unfolding qualify
owner_name o = if exists o then qualify (qualify o.schema o.table) o.column else []

abbrev pub positioned : SequenceRef → SequenceSource → ℤ → Bool → Sequence
unfolding owner_name
positioned r source last called = record {
  schema = r.schema;
  name = r.name;
  source = source;
  last_value = last;
  is_called = called;
  owned_by = owner_name r.owner;
}

-- A value that was read, where nil is a sequence never advanced, or a column without one.
unfoldable pub from_value : SequenceRef → SequenceSource → Option ℤ → Sequence
unfolding positioned
from_value r source none = positioned r source (pos 1) false
from_value r source (some last) = positioned r source last true

module _ (quote_ident quote_literal : Bytes → Bytes) where
  unfoldable pub setval_sql : Sequence → Bytes
  unfolding itoa_ℤ
  setval_sql s =
      codes "SELECT pg_catalog.setval("
      ++ (quote_literal (quote_ident s.schema ++ (codes "." ++ quote_ident s.name))
          ++ (codes ", "
              ++ (itoa_ℤ s.last_value
                  ++ (codes ", "
                      ++ ((if s.is_called then codes "true" else codes "false") ++ codes ")")))))

  -- The query of `maxOwnedValue`.
  unfoldable pub max_owned_sql : SequenceOwner → Bytes
  max_owned_sql o =
      codes "SELECT max("
      ++ (quote_ident o.column
          ++ (codes ")::bigint FROM "
              ++ (quote_ident o.schema ++ (codes "." ++ quote_ident o.table))))

-- `out = append(out, seq)` in front of what the later rounds append, and `return nil, err`.
abbrev pub appended : Bytes ⊎ Sequence → Bytes ⊎ List Sequence → Bytes ⊎ List Sequence
appended (inl e) later = inl e
appended (inr s) (inl e) = inl e
appended (inr s) (inr out) = inr (s ∷ out)

-- `readable` is the map of `readableSequences`, `max_of` the answer of `maxOwnedValue`.
module _ (readable : Dict (Option ℤ)) (max_of : SequenceOwner → Bytes ⊎ Option ℤ) where
  -- One round of the loop of `Sequences`.
  unfoldable pub capture_one : SequenceRef → Bytes ⊎ Sequence
  unfolding lookup ref_key from_value positioned
  capture_one r = elim (lookup (ref_key r) readable) [
    | some last ↦ inr (from_value r source_catalog last)
    | none ↦
        if not (exists r.owner)
        then inr (positioned r source_unavailable (pos 0) false)
        else (elim (max_of r.owner) [
          | inl e ↦ inl e
          | inr max ↦ inr (from_value r source_max_column max)
        ])
  ]

  unfoldable pub capture_all : List SequenceRef → Bytes ⊎ List Sequence
  unfolding capture_one
  capture_all [] = inr []
  capture_all (r ∷ refs) = let later = capture_all refs in appended (capture_one r) later

-- `Sequences` of the introspector, over the two lists that it reads first.
unfoldable pub sequences :
    Bytes ⊎ List SequenceRef
    → Bytes ⊎ Dict (Option ℤ)
    → (SequenceOwner → Bytes ⊎ Option ℤ)
    → Bytes ⊎ List Sequence
unfolding capture_all
sequences (inl e) readable max_of = inl e
sequences (inr refs) (inl e) max_of = inl e
sequences (inr refs) (inr readable) max_of = capture_all readable max_of refs
