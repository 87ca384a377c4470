-- ===== src/Export/Preflight/Ready.antt =====
-- What a preflight without findings and problems has shown.
use pg_snapshot.Base.{◌≡◌, true, false, List, [], none, some}
use pg_snapshot.Base.{◌⊎◌, inl, inr, Bool, not, ◌&&◌}
use pg_snapshot.Base.Bytes.{Bytes, ◌=?◌}
use pg_snapshot.Base.Dict.{Dict, lookup, contains}
use pg_snapshot.Catalog.{Table, qualified, rel_kind_partitioned}
use pg_snapshot.Scrub.Config.{Config}
use pg_snapshot.Scrub.Projection.{Projection, plan, build_projection}
use pg_snapshot.Export.Preflight.{Access, Problem, columns_at}
use pg_snapshot.Export.Preflight.{known_table}

-- Nothing keeps the role from exporting what the plan of a table asks for: the table is left out, or
-- every column can be read and no policy filters rows that are exported. An owner, and a role with its
-- privileges, escapes the policies of a table unless that forces them.
abbrev pub IsAccessible : Access → Table → Projection → Type 0
IsAccessible access t p =
    (p.excluded ≡ true)
    ⊎ ((columns_at (lookup (qualified t) access.unreadable) ≡ [])
        × ((p.skipped ≡ true)
            ⊎ ((t.row_security ≡ false)
                ⊎ ((access.bypass ≡ true)
                    ⊎ ((contains t.owner access.member ≡ true) × (t.force_row_security ≡ false))))))

-- The table's policies are forced on its owner, whose privileges the role has, and nothing else lifts
-- them.
abbrev pub is_exposed : Access → Table → Bool
is_exposed access t =
    t.row_security
    && (t.force_row_security && (contains t.owner access.member && not access.bypass))

module _ (quote_identifier quote_literal : Bytes → Bytes) (cfg : Config) (salt : Bytes) where
  -- A table of the plan that can be exported as planned.
  abbrev pub IsCovered : Access → Table → Type 0
  IsCovered access t =
      (p : Projection) × (build_projection quote_identifier quote_literal t cfg salt ≡ plan p)
      × IsAccessible access t p

  abbrev problems_in : Bytes ⊎ List Problem → List Problem
  problems_in (inl e) = []
  problems_in (inr found) = found

  -- A name that stands for a table which is no partitioned parent.
  abbrev pub IsConfigurable : List Table → Bytes → Type 0
  IsConfigurable tables name =
      (t : Table) × (known_table name tables none ≡ some t)
      × (t.kind =? rel_kind_partitioned ≡ false)
