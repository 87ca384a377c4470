-- ===== src/Scrub/Projection/Rules.antt =====
-- `BuildProjection`: what a successful plan exports, and that every rule is in it.
use mathlib.Core.Option.{some-injective}
use pg_snapshot.Base.{◌≡◌, refl, sym, ◌∙◌, ap, ◌≢◌, true, false, List, [], ◌∷◌, ◌++◌}
use pg_snapshot.Base.{Option, none, some, arith, if◌then◌else◌, All, Bool-cases, inl, inr, map}
use pg_snapshot.Base.{◌&&◌, is_some, ◌⊎◌}
use pg_snapshot.Base.Bytes.{Bytes, ◌=?◌, =?_sound}
use pg_snapshot.Base.Dict.{
  Dict, lookup, put, contains, lookup-put, sorted_keys, keys, is_some-lookup,
}
use pg_snapshot.Base.Dict.{contains-sort}
use pg_snapshot.Catalog.{Column, Table, rel_kind_partitioned}
use pg_snapshot.Scrub.Config.{TableConfig, skips_data}
use pg_snapshot.Scrub.Projection.{Projection, ColumnPlan, Plan, plan, PlanError, add_columns}
use pg_snapshot.Scrub.Projection.{first_errors, start_projection, finish, build_with, by_name}
use pg_snapshot.Scrub.Projection.{select_statement, rule_error, rule_errors, report_column_errors}
use pg_snapshot.Scrub.Projection.Columns.{exported, column_names, select_of, IsRendered}
use pg_snapshot.Scrub.Projection.Columns.{add_columns-names, add_columns-errs, add_columns-selects}
use pg_snapshot.Scrub.Projection.Columns.{add_columns-IsRendered, add_columns-transforms}

-- A column that is found by name is a column of the table.
by_name-exported :
    (n : Bytes) (cols : List Column) (m : Dict Column) (col : Column)
    → lookup n (by_name cols m) ≡ some col
    → col.generated ≡ false
    → (contains n (column_names (exported cols)) ≡ true) ⊎ (lookup n m ≡ some col)
unfolding by_name contains
by_name-exported n [] m col h g = inr h
by_name-exported n (c ∷ cols) m col h g = elim (by_name-exported n cols (put c.name c m) col h g) [
  | inl there ↦ inl (ground (arith, there))
  | inr now ↦ elim (Bool-cases (c.name =? n)) [
    | inl same ↦
        let e : Path (Option Column) (some c) (some col) =
          ground (arith, same, lookup-put c.name n c m, now) in
        inl (ground (arith, same, g, ap (λ (o : Column). o.generated) (some-injective c col e)))
    | inr other ↦ inr (ground (arith, other, lookup-put c.name n c m, now))
  ]
]

nil_of_append {ℓ} : {A : Type ℓ} (xs ys : List A) → xs ++ ys ≡ [] → (xs ≡ []) × (ys ≡ [])
nil_of_append [] ys h = (refl, h)
nil_of_append (x ∷ xs) ys h = cc

-- No rule is stale: each names a column that is not generated.
rule_errors_sound :
    (named : Dict Column) (names : List Bytes) (n : Bytes)
    → rule_errors named names ≡ []
    → contains n names ≡ true
    → (col : Column) × (lookup n named ≡ some col) × (col.generated ≡ false)
unfolding rule_errors contains
rule_errors_sound named [] n h e = cc
rule_errors_sound named (name ∷ names) n h e =
    let (first, rest) = nil_of_append (rule_error name (lookup name named)) _ h in
    elim (Bool-cases (name =? n)) [
      | inl same ↦ rw (=?_sound name n same) at (from name (lookup name named) refl first)
      | inr other ↦ rule_errors_sound named names n rest (ground (arith, other, e))
    ]
  where
    from :
        (k : Bytes) (o : Option Column)
        → lookup k named ≡ o
        → rule_error k o ≡ []
        → (col : Column) × (lookup k named ≡ some col) × (col.generated ≡ false)
    from k none is bad = cc
    from k (some col) is bad = (col, is, ground (arith, bad))

module _ (quote_identifier quote_literal : Bytes → Bytes) (t : Table) (tc : TableConfig)
    (salt : Bytes) (p : Projection)
    (built : build_with quote_identifier quote_literal t tc salt ≡ plan p)
    (full : skips_data tc.mode ≡ false) where
  start : ColumnPlan
  start = record { names = []; transforms = []; selects = []; errs = first_errors t tc }

  end : ColumnPlan
  unfolding start
  end = add_columns quote_identifier quote_literal tc.columns salt t.columns start

  -- A plan with rows comes out of the loop without a problem.
  finished :
      (s : ColumnPlan)
      → finish quote_identifier quote_literal (start_projection t tc) s ≡ plan p
      → (s.errs ≡ [])
        × (s.names ≢ [])
        × (p.columns ≡ s.names)
        × (p.transforms ≡ s.transforms)
        × (p.select_sql ≡ select_statement quote_identifier quote_literal t s.selects tc.filter)
  unfolding finish start_projection
  finished s h = from s.errs s.names refl refl
    where
      from :
          (errs : List PlanError) (names : List Bytes)
          → s.errs ≡ errs
          → s.names ≡ names
          → (s.errs ≡ [])
            × (s.names ≢ [])
            × (p.columns ≡ s.names)
            × (p.transforms ≡ s.transforms)
            × (p.select_sql ≡ select_statement quote_identifier quote_literal t s.selects tc.filter)
      from (x ∷ errs) names e f = absurd (ground (arith, h, e))
      from [] [] e f = absurd (ground (arith, h, e, f))
      from [] (n ∷ names) e f =
          let is : Path Plan
              (plan (record (start_projection t tc) {
                columns = s.names;
                transforms = s.transforms;
                select_sql = select_statement quote_identifier quote_literal t s.selects tc.filter;
              }))
              (plan p) =
            ground (arith, h, e, f) in
          (e, (λ nil. cc), ground (arith, is), ground (arith, is), ground (arith, is))

  end_plan : finish quote_identifier quote_literal (start_projection t tc) end ≡ plan p
  unfolding build_with end
  end_plan = elim (Bool-cases (t.kind =? rel_kind_partitioned)) [
    | inl parent ↦ absurd (ground (arith, built, parent))
    | inr leaf ↦ ground (arith, built, leaf, full)
  ]

  -- A plan of a table with rows exports the columns that are not generated, in the table's order,
  -- and there is one. Its SELECT list is that of these columns, each by itself: the column's name if
  -- it has no rule, and its rule's expression under its name if it has one; every rule of an
  -- exported column could be rendered.
  pub projection_select :
      (p.columns ≡ column_names (exported t.columns))
      × (p.columns ≢ [])
      × (p.select_sql
          ≡ select_statement quote_identifier quote_literal t
              (map (select_of quote_identifier quote_literal tc.columns salt) (exported t.columns))
              tc.filter)
      × All (IsRendered quote_identifier quote_literal tc.columns salt) (exported t.columns)
  unfolding end start
  projection_select =
      let (clean, some_column, names, _, sql) = finished end end_plan in
      let shown =
        add_columns-names quote_identifier quote_literal tc.columns salt t.columns start in
      let selects =
        add_columns-selects quote_identifier quote_literal tc.columns salt t.columns start clean in
      (
        names ∙ shown,
        (λ nil. some_column (sym names ∙ nil)),
        sql ∙ ap (λ l. select_statement quote_identifier quote_literal t l tc.filter) selects,
        add_columns-IsRendered quote_identifier quote_literal tc.columns salt t.columns start clean,
      )

  -- Every rule is applied: in a plan of a table with rows, each column with a rule is exported, and
  -- the transforms of the plan are the rules, no more and no fewer.
  pub projection_rules :
      (n : Bytes)
      → (lookup n p.transforms ≡ lookup n tc.columns)
        × ((transform : Bytes) → lookup n tc.columns ≡ some transform → contains n p.columns ≡ true)
  unfolding end start first_errors sorted_keys
  projection_rules n =
      let (clean, _, names, recorded, _) = finished end end_plan in
      let shown =
        add_columns-names quote_identifier quote_literal tc.columns salt t.columns start in
      let first =
        add_columns-errs quote_identifier quote_literal tc.columns salt t.columns start clean in
      let kept =
        add_columns-transforms quote_identifier quote_literal tc.columns salt t.columns start n
          clean in
      (
        ap (lookup n) recorded ∙ kept ∙ whole (lookup n tc.columns) refl first,
        λ transform e. ap (contains n) (names ∙ shown) ∙ present transform e first,
      )
    where
      present :
          (transform : Bytes)
          → lookup n tc.columns ≡ some transform
          → first_errors t tc ≡ []
          → contains n (column_names (exported t.columns)) ≡ true
      present transform e none_wrong =
          let (_, no_stale) =
            nil_of_append (report_column_errors (by_name t.columns []) tc) _ none_wrong in
          let (col, found, g) =
            rule_errors_sound (by_name t.columns []) (sorted_keys tc.columns) n no_stale (
              contains-sort n (keys tc.columns)
              ∙ sym (is_some-lookup n tc.columns)
              ∙ ap is_some e) in
          elim (by_name-exported n t.columns [] col found g) [ inl h ↦ h | inr h ↦ absurd (cc (h)) ]

      whole :
          (o : Option Bytes)
          → lookup n tc.columns ≡ o
          → first_errors t tc ≡ []
          → (if contains n (column_names (exported t.columns)) && is_some (lookup n tc.columns)
              then lookup n tc.columns
              else none)
            ≡ lookup n tc.columns
      whole none e none_wrong = ground (arith, e)
      whole (some transform) e none_wrong = ground (arith, e, present transform e none_wrong)
