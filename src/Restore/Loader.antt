-- ===== src/Restore/Loader.antt =====
-- restore/loader.go: which data files are loaded and in which order, the check of one load, and the
-- replay of the sequences. The store and the session of the staging database are a parameter.
pub mod Order
use pg_snapshot.Base.{Bool, true, false, not, ◌&&◌, List, [], ◌∷◌, keep, is_nil}
use pg_snapshot.Base.{if◌then◌else◌}
use pg_snapshot.Base.Int.{ℤ, pos, ltb_ℤ, eq_ℤ}
use pg_snapshot.Base.Bytes.{Bytes, codes}
use pg_snapshot.Base.Act.{Act, ◌>>=◌, ◌>>◌, give, throw, wrapped}
use pg_snapshot.Export.Manifest.{TableEntry, entry_copy_in}
use pg_snapshot.Export.Sequences.{Sequence, SequenceSource, source_catalog, source_max_column}
use pg_snapshot.Export.Sequences.{source_unavailable, setval_sql}

-- An entry that has a data file.
unfoldable pub is_pending : TableEntry → Bool
is_pending e = not e.skipped && not (is_nil e.file)

-- In front of the first entry that is not larger; Go leaves the order of equal sizes open.
unfoldable pub insert_by_bytes : TableEntry → List TableEntry → List TableEntry
insert_by_bytes e [] = e ∷ []
insert_by_bytes e (d ∷ es) =
    let rest = insert_by_bytes e es in if ltb_ℤ e.bytes d.bytes then d ∷ rest else e ∷ d ∷ es

unfoldable pub largest_first : List TableEntry → List TableEntry
unfolding insert_by_bytes
largest_first [] = []
largest_first (e ∷ es) = insert_by_bytes e (largest_first es)

-- The jobs of `Load`, in the order in which they are handed out.
unfoldable pub pending : List TableEntry → List TableEntry
unfolding is_pending largest_first
pending entries = largest_first (keep is_pending entries)

-- The workers of `Load`.
unfoldable pub load_workers : ℤ → ℤ
load_workers workers = if ltb_ℤ workers (pos 1) then pos 4 else workers

-- The errors of this file.
pub data LoadError : Type 0 where
  acquiring configuring reading loading : TableEntry → Bytes → LoadError
  fetching : Bytes → LoadError
  wrong_count : ℤ → TableEntry → LoadError
  restoring_sequence : Sequence → Bytes → LoadError

-- The calls of `loadOne` and `ApplySequences` on the pool of connections, on the store and on gzip.
-- `copy_from` streams a body into a COPY statement and answers with the number of rows.
pub record LoadCalls (W Body : Type 0) : Type 0 where
  pub acquire : Act W Bytes (Unit {0})
  pub run_sql : Bytes → Act W Bytes (Unit {0})
  pub get : Bytes → Act W Bytes Body
  pub gunzip : Body → Act W Bytes Body
  pub copy_from : Body → Bytes → Act W Bytes ℤ

module _ {W Body : Type 0} (calls : LoadCalls W Body)
    (quote_ident quote_literal : Bytes → Bytes) where
  open calls use {acquire, run_sql, get, gunzip, copy_from}

  abbrev check_count : TableEntry → ℤ → Act W LoadError (Unit {0})
  check_count e rows = if eq_ℤ rows e.row_count then give tt else throw (wrong_count rows e)

  unfoldable pub load_one : TableEntry → Act W LoadError (Unit {0})
  unfolding entry_copy_in
  load_one e = do
    wrapped (acquiring e) acquire
    wrapped (configuring e) (run_sql (codes "SET synchronous_commit = off"))
    object ← wrapped fetching (get e.file)
    body ← wrapped (reading e) (gunzip object)
    rows ← wrapped (loading e) (copy_from body (entry_copy_in quote_ident e))
    check_count e rows

  abbrev is_available : SequenceSource → Bool
  is_available source_catalog = true
  is_available source_max_column = true
  is_available source_unavailable = false

  -- The loop of `ApplySequences`; the counts are only logged.
  unfoldable pub apply_sequences : List Sequence → Act W LoadError (Unit {0})
  unfolding setval_sql
  apply_sequences [] = give tt
  apply_sequences (s ∷ rest) =
      let later = apply_sequences rest in
      if is_available s.source
      then wrapped (restoring_sequence s) (run_sql (setval_sql quote_ident quote_literal s))
        >> later
      else later
