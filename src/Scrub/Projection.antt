-- ===== src/Scrub/Projection.antt =====
-- scrub/projection.go: the export plan of one table, and the COPY statements that it renders.
pub mod Columns
pub mod Rules
use pg_snapshot.Base.{
  ℕ, Bool, true, false, not, ◌&&◌, ◌||◌, List, [], ◌∷◌, ◌++◌, Option, none, some, map,
}
use pg_snapshot.Base.{if◌then◌else◌, length, is_some}
use pg_snapshot.Base.Int.{ℤ, pos, itoa_ℤ}
use pg_snapshot.Base.Bytes.{Bytes, codes, ◌=?◌, trim_space, join}
use pg_snapshot.Base.Dict.{Dict, lookup, put, sorted_keys}
use pg_snapshot.Catalog.{Column, Table, rel_kind_partitioned, qualified}
use pg_snapshot.Scrub.Config.{Config, TableConfig, no_config, table_config_for, skips_data}
use pg_snapshot.Scrub.Config.{table_mode_skip, is_empty, blank}
use pg_snapshot.Scrub.Transform.{
  TransformError, Rendered, expr, refused, lookup_builtin, builtin_expr,
}

pub record Projection : Type 0 where
  pub table : Table
  pub skipped : Bool
  pub excluded : Bool
  pub columns : List Bytes
  pub transforms : Dict Bytes
  pub filter : Bytes
  pub tail_rows : ℤ
  pub tail_report_column : Bytes
  pub select_sql : Bytes

-- The problems that `BuildProjection` reports. Each message begins with the table's name.
pub data PlanError : Type 0 where
  partitioned_parent no_exportable_columns : PlanError
  no_report_column scrubbed_report_column no_column generated_column : Bytes → PlanError
  bad_transform : Bytes → TransformError → PlanError

pub data Plan : Type 0 where
  plan : Projection → Plan
  rejected : List PlanError → Plan

-- `byName`; a column that comes later takes the place of one of the same name.
unfoldable pub by_name : List Column → Dict Column → Dict Column
unfolding put
by_name [] m = m
by_name (col ∷ cols) m = by_name cols (put col.name col m)

unfoldable pub rule_config : Table → Config → TableConfig
unfolding table_config_for
rule_config t cfg = elim (table_config_for cfg t.schema t.name) [ none ↦ no_config | some tc ↦ tc ]

-- The checks of `tail_report_column`.
unfoldable pub report_column_errors : Dict Column → TableConfig → List PlanError
unfolding lookup blank
report_column_errors named tc =
    if is_empty tc.tail_report_column
    then []
    else if not (is_some (lookup tc.tail_report_column named))
    then no_report_column tc.tail_report_column ∷ []
    else if not (blank (lookup tc.tail_report_column tc.columns))
    then scrubbed_report_column tc.tail_report_column ∷ []
    else []

abbrev pub rule_error : Bytes → Option Column → List PlanError
rule_error name none = no_column name ∷ []
rule_error name (some col) = if col.generated then generated_column name ∷ [] else []

-- The loop that resolves each rule against a column.
unfoldable pub rule_errors : Dict Column → List Bytes → List PlanError
unfolding lookup
rule_errors named [] = []
rule_errors named (name ∷ names) = rule_error name (lookup name named) ++ rule_errors named names

-- The variables of the loop over the columns.
pub record ColumnPlan : Type 0 where
  pub names : List Bytes
  pub transforms : Dict Bytes
  pub selects : List Bytes
  pub errs : List PlanError

-- The projection before its columns are planned.
unfoldable pub start_projection : Table → TableConfig → Projection
unfolding skips_data ◌=?◌
start_projection t tc = record {
  table = t;
  skipped = skips_data tc.mode;
  excluded = tc.mode =? table_mode_skip;
  columns = [];
  transforms = [];
  filter = tc.filter;
  tail_rows = elim tc.tail_rows [ none ↦ pos 0 | some n ↦ n ];
  tail_report_column = elim tc.tail_rows [ none ↦ [] | some n ↦ tc.tail_report_column ];
  select_sql = [];
}

unfoldable pub first_errors : Table → TableConfig → List PlanError
unfolding by_name report_column_errors rule_errors sorted_keys
first_errors t tc =
    let named = by_name t.columns [] in
    report_column_errors named tc ++ rule_errors named (sorted_keys tc.columns)

module _ (quote_identifier quote_literal : Bytes → Bytes) where
  unfoldable pub render_transform : Column → Bytes → Bytes → Rendered
  unfolding lookup_builtin builtin_expr
  render_transform col transform salt = elim (lookup_builtin transform) [
    | some b ↦ builtin_expr quote_identifier quote_literal b col salt
    | none ↦ expr (codes "(" ++ (transform ++ codes ")"))
  ]

  abbrev pub aliased : Bytes → Bytes → Bytes
  aliased e name = e ++ (codes " AS " ++ quote_identifier name)

  -- What a column with a transform adds.
  abbrev pub add_rendered : Column → Bytes → Rendered → ColumnPlan → ColumnPlan
  add_rendered col transform (expr e) s = record s {
    transforms = put col.name transform s.transforms;
    selects = s.selects ++ aliased e col.name ∷ [];
  }
  add_rendered col transform (refused x) s = record s {
    errs = s.errs ++ bad_transform col.name x ∷ [];
  }

  -- What a column adds, with its rule if it has one.
  unfoldable pub add_rule : Bytes → Column → Option Bytes → ColumnPlan → ColumnPlan
  unfolding render_transform
  add_rule salt col none s = record s { selects = s.selects ++ quote_identifier col.name ∷ [] }
  add_rule salt col (some transform) s =
      add_rendered col transform (render_transform col transform salt) s

  -- One round of the loop over the columns.
  unfoldable pub add_column : Dict Bytes → Bytes → Column → ColumnPlan → ColumnPlan
  unfolding add_rule put lookup
  add_column rules salt col s =
      if col.generated
      then s
      else add_rule salt col (lookup col.name rules) (record s { names = s.names ++ col.name ∷ [] })

  unfoldable pub add_columns : Dict Bytes → Bytes → List Column → ColumnPlan → ColumnPlan
  unfolding add_column
  add_columns rules salt [] s = s
  add_columns rules salt (col ∷ cols) s = add_columns rules salt cols (add_column rules salt col s)

  unfoldable pub select_statement : Table → List Bytes → Bytes → Bytes
  unfolding join
  select_statement t selects filter =
      codes "SELECT "
      ++ (join selects (codes ", ")
          ++ (codes " FROM "
              ++ (quote_identifier t.schema
                  ++ (codes "."
                      ++ (quote_identifier t.name
                          ++ (if is_empty filter then [] else codes " WHERE " ++ filter))))))

  -- The end of `BuildProjection`, behind the loop over the columns.
  unfoldable pub finish : Projection → ColumnPlan → Plan
  unfolding select_statement
  finish p s =
      if not (is_empty s.errs)
      then rejected s.errs
      else if is_empty s.names
      then rejected (no_exportable_columns ∷ [])
      else plan (record p {
        columns = s.names;
        transforms = s.transforms;
        select_sql = select_statement p.table s.selects p.filter;
      })

  -- `BuildProjection` with the table's rule.
  unfoldable pub build_with : Table → TableConfig → Bytes → Plan
  unfolding first_errors start_projection add_columns finish
  build_with t tc salt =
      let errs = first_errors t tc in
      let start : ColumnPlan = record { names = []; transforms = []; selects = []; errs = errs } in
      if t.kind =? rel_kind_partitioned
      then rejected (partitioned_parent ∷ [])
      else if skips_data tc.mode
      then (if is_empty errs then plan (start_projection t tc) else rejected errs)
      else finish (start_projection t tc) (add_columns tc.columns salt t.columns start)

  unfoldable pub build_projection : Table → Config → Bytes → Plan
  unfolding build_with rule_config
  build_projection t cfg salt = build_with t (rule_config t cfg) salt

  unfoldable pub copy_in_statement : Bytes → Bytes → List Bytes → Bytes
  unfolding join
  copy_in_statement schema name columns =
      codes "COPY "
      ++ (quote_identifier schema
          ++ (codes "."
              ++ (quote_identifier name
                  ++ (codes " ("
                      ++ (join (map quote_identifier columns) (codes ", ")
                          ++ codes ") FROM STDIN")))))

  -- `CopyIn` of a projection.
  unfoldable pub copy_in : Projection → Bytes
  unfolding copy_in_statement
  copy_in p = copy_in_statement p.table.schema p.table.name p.columns

unfoldable pub copy_out : Projection → Bytes
copy_out p = codes "COPY (" ++ (p.select_sql ++ codes ") TO STDOUT")

unfoldable pub tail_predicate : ℤ → Bytes
unfolding itoa_ℤ
tail_predicate start_page = codes "ctid >= '(" ++ (itoa_ℤ start_page ++ codes ",0)'::tid")

unfoldable pub copy_out_tail : Projection → ℤ → Bytes
unfolding tail_predicate
copy_out_tail p start_page =
    codes "COPY ("
    ++ (p.select_sql ++ (codes " WHERE " ++ (tail_predicate start_page ++ codes ") TO STDOUT")))
