-- ===== src/Tests/Sequences.antt =====
-- The theorem of export/sequences.go on three sequences.
use pg_snapshot.Base.{refl, ◌⊎◌, inr, Bool, true, false, List, [], ◌∷◌, Option, some}
use pg_snapshot.Base.{Zipped}
use pg_snapshot.Base.Int.{ℤ, pos}
use pg_snapshot.Base.Bytes.{Bytes, codes, ◌=?◌}
use pg_snapshot.Base.Dict.{Dict}
use pg_snapshot.Export.Sequences.{Sequence, SequenceRef, SequenceOwner, SequenceSource, sequences}
use pg_snapshot.Export.Sequences.{source_catalog, source_max_column, source_unavailable}
use pg_snapshot.Export.Sequences.Captured.{IsCaptured, capture_all-IsCaptured}

-- A sequence that the role can read, one whose column's maximum is taken, and one that nothing owns.
abbrev three_refs : List SequenceRef
three_refs =
    record {
      schema = codes "public";
      name = codes "seen";
      owner = record { schema = []; table = []; column = [] };
    }
    ∷ record {
      schema = codes "public";
      name = codes "owned";
      owner = record { schema = codes "public"; table = codes "users"; column = codes "id" };
    }
    ∷ record {
      schema = codes "public";
      name = codes "lost";
      owner = record { schema = []; table = []; column = [] };
    }
    ∷ []

abbrev seen_values : Dict (Option ℤ)
seen_values = (codes "public.seen", some (pos 7)) ∷ []

abbrev greatest_id : SequenceOwner → Bytes ⊎ Option ℤ
greatest_id o = inr (some (pos 41))

abbrev sequence_in : Bytes → Bytes → SequenceSource → ℤ → Bool → Sequence
sequence_in name owner source last called = record {
  schema = codes "public";
  name = name;
  source = source;
  last_value = last;
  is_called = called;
  owned_by = owner;
}

abbrev three_sequences : List Sequence
three_sequences =
    sequence_in (codes "seen") [] source_catalog (pos 7) true
    ∷ sequence_in (codes "owned") (codes "public.users.id") source_max_column (pos 41) true
    ∷ sequence_in (codes "lost") [] source_unavailable (pos 0) false
    ∷ []

capture_all-IsCaptured_example :
    Zipped (IsCaptured seen_values greatest_id) three_refs three_sequences
unfolding sequences ◌=?◌
capture_all-IsCaptured_example =
    capture_all-IsCaptured seen_values greatest_id three_refs three_sequences refl
