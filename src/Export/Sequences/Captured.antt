-- ===== src/Export/Sequences/Captured.antt =====
-- export/sequences.go: what each captured sequence says of the one that was read.
use pg_snapshot.Base.{true, false, List, [], ◌∷◌, Option, none, some, refl, arith}
use pg_snapshot.Base.{◌⊎◌, inl, inr, ◌≡◌, ◌↔◌, Zipped, sym, subst}
use pg_snapshot.Base.Int.{ℤ}
use pg_snapshot.Base.Bytes.{Bytes}
use pg_snapshot.Base.Dict.{Dict, lookup}
use pg_snapshot.Export.Sequences.{Sequence, SequenceRef, SequenceOwner, exists}
use pg_snapshot.Export.Sequences.{source_unavailable, ref_key}
use pg_snapshot.Export.Sequences.{
  owner_name, from_value, capture_one, capture_all, sequences, appended,
}

-- The next number that the sequence hands out is the one after `v`.
abbrev pub Resumes : ℤ → Sequence → Type 0
Resumes v s = (s.last_value ≡ v) × (s.is_called ≡ true)

-- What a sequence was captured as says nothing that the queries did not.
abbrev pub IsCaptured :
    Dict (Option ℤ) → (SequenceOwner → Bytes ⊎ Option ℤ) → SequenceRef → Sequence → Type 0
unfolding lookup ref_key owner_name
IsCaptured readable max_of r s =
    (s.schema ≡ r.schema)
    × (s.name ≡ r.name)
    × (s.owned_by ≡ owner_name r.owner)
    × ((s.source ≡ source_unavailable)
        ↔ ((lookup (ref_key r) readable ≡ none) × (exists r.owner ≡ false)))
    × ((v : ℤ) → lookup (ref_key r) readable ≡ some (some v) → Resumes v s)
    × ((v : ℤ)
        → lookup (ref_key r) readable ≡ none
        → exists r.owner ≡ true
        → max_of r.owner ≡ inr (some v)
        → Resumes v s)

module _ (readable : Dict (Option ℤ)) (max_of : SequenceOwner → Bytes ⊎ Option ℤ) where
  capture_one-IsCaptured :
      (r : SequenceRef) (s : Sequence)
      → capture_one readable max_of r ≡ inr s
      → IsCaptured readable max_of r s
  unfolding capture_one from_value
  capture_one-IsCaptured r s h = ground (arith)

  -- Capturing gives one sequence for each that exists, in their order. Each is under its own name and
  -- its owner's; it is recorded as unavailable exactly if the role cannot read it and no column owns it;
  -- and it resumes behind the value that was read, or else behind the maximum of the owned column.
  pub capture_all-IsCaptured :
      (refs : List SequenceRef) (out : List Sequence)
      → sequences (inr refs) (inr readable) max_of ≡ inr out
      → Zipped (IsCaptured readable max_of) refs out
  unfolding sequences capture_all
  capture_all-IsCaptured refs out h = all refs out h
    where
      parts :
          (one : Bytes ⊎ Sequence) (rest : Bytes ⊎ List Sequence) (out : List Sequence)
          → appended one rest ≡ inr out
          → (s : Sequence) × (later : List Sequence) × (one ≡ inr s)
            × (rest ≡ inr later)
            × (out ≡ s ∷ later)
      parts (inl e) rest out h = cc
      parts (inr s) (inl e) out h = cc
      parts (inr s) (inr later) out h = (s, later, refl, refl, cc)

      all :
          (refs : List SequenceRef) (out : List Sequence)
          → capture_all readable max_of refs ≡ inr out
          → Zipped (IsCaptured readable max_of) refs out
      all [] [] h = tt
      all [] (s ∷ out) h = cc
      all (r ∷ refs) out h =
          let (s, later, e, f, is) = parts (capture_one readable max_of r) _ out h in
          subst (Zipped (IsCaptured readable max_of) (r ∷ refs)) (sym is)
            (capture_one-IsCaptured r s e, all refs later f)
