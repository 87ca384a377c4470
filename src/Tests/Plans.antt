-- ===== src/Tests/Plans.antt =====
-- The theorems of packages scrub and export, and of the schema filter, at small inputs.
use pg_snapshot.Base.{ℕ, ◌≡◌, refl, ◌≢◌, true, false, not, ◌&&◌, List, [], ◌∷◌, none, some, arith}
use pg_snapshot.Base.{◌↔◌, All, map, keep, inr, ◌<◌, ◌≤◌, ◌*◌, min}
use pg_snapshot.Base.Int.{pos}
use pg_snapshot.Base.Bytes.{Bytes, codes, ◌=?◌}
use pg_snapshot.Base.Dict.{contains, lookup, put, sorted_keys}
use pg_snapshot.Base.Sort.{sort, insert, less}
use pg_snapshot.Catalog.{Column, Table, rel_kind_table}
use pg_snapshot.Scrub.Config.{Config, TableConfig, split_qualified, validate, skips_data, no_config}
use pg_snapshot.Scrub.Config.Qualified.{IsQualified, split_qualified_iff}
use pg_snapshot.Scrub.Config.Valid.{IsValid}
use pg_snapshot.Scrub.Config.Validate.{validate_iff}
use pg_snapshot.Scrub.Projection.{Projection, build_with, select_statement}
use pg_snapshot.Scrub.Projection.Columns.{exported, column_names, select_of, IsRendered}
use pg_snapshot.Scrub.Projection.Rules.{projection_select, projection_rules}
use pg_snapshot.Scrub.Projection.{
  first_errors, start_projection, add_columns, add_column, add_rule, render_transform, finish,
  by_name, report_column_errors, rule_errors,
}
use pg_snapshot.Scrub.Transform.{lookup_builtin}
use pg_snapshot.Scrub.Config.{blank}
use pg_snapshot.Base.Bytes.{join, trim_space, trim_left_space}
use pg_snapshot.Export.Preflight.{Access}
use pg_snapshot.Export.Tail.{TailWindow, plan_tail, is_full}
use pg_snapshot.Export.Tail.Sizing.{IsSized, plan_tail-IsSized}
use pg_snapshot.Export.Tail.Overflow.{plan_tail_overflow}
use pg_snapshot.Pg.Toc.{selects, parse_toc_entry, is_entry_line}
use pg_snapshot.Restore.Filter.{Plan, plan_schema_filter}
use pg_snapshot.Restore.Filter.Lines.{extension_pass, main_pass, can_create, is_special}
use pg_snapshot.Restore.Filter.Passes.{filter_passes}

split_qualified_iff_example :
    (split_qualified (codes "public.users") ≡ some (codes "public", codes "users"))
    ↔ IsQualified (codes "public.users") (codes "public") (codes "users")
split_qualified_iff_example =
    split_qualified_iff (codes "public.users") (codes "public") (codes "users")

abbrev md5_rule : TableConfig
md5_rule = record no_config { columns = (codes "email", codes "null") ∷ [] }

abbrev one_table : Config
one_table = record { version = pos 1; fk_mode = []; tables = (codes "public.users", md5_rule) ∷ [] }

validate_iff_example : (validate one_table ≡ []) ↔ IsValid one_table
validate_iff_example = validate_iff one_table

abbrev column : Bytes → Column
column name = record {
  name = name;
  type_name = codes "text";
  base_type = codes "text";
  max_len = pos 0;
  generated = false;
  identity = false;
  not_null = false;
}

abbrev users : Table
users = record {
  schema = codes "public";
  name = codes "users";
  kind = rel_kind_table;
  owner = codes "app";
  parent = [];
  row_security = false;
  force_row_security = false;
  columns = column (codes "id") ∷ column (codes "email") ∷ [];
}

abbrev own_transform : TableConfig
own_transform = record no_config { columns = (codes "email", codes "left(email, 1)") ∷ [] }

abbrev same : Bytes → Bytes
same s = s

abbrev users_plan : Projection
users_plan = record {
  table = users;
  skipped = false;
  excluded = false;
  columns = codes "id" ∷ codes "email" ∷ [];
  transforms = (codes "email", codes "left(email, 1)") ∷ [];
  filter = [];
  tail_rows = pos 0;
  tail_report_column = [];
  select_sql = codes "SELECT id, (left(email, 1)) AS email FROM public.users";
}

projection_select_example :
    (users_plan.columns ≡ column_names (exported users.columns))
    × (users_plan.columns ≢ [])
    × (users_plan.select_sql
        ≡ select_statement same same users
            (map (select_of same same own_transform.columns []) (exported users.columns))
            [])
    × All (IsRendered same same own_transform.columns []) (exported users.columns)
unfolding build_with skips_data first_errors start_projection add_columns add_column add_rule
    render_transform lookup_builtin finish by_name report_column_errors rule_errors sorted_keys sort
    insert less put lookup select_statement join ◌=?◌ blank trim_space trim_left_space
projection_select_example = projection_select same same users own_transform [] users_plan refl refl

projection_rules_example :
    (lookup (codes "email") users_plan.transforms ≡ lookup (codes "email") own_transform.columns)
    × ((transform : Bytes)
        → lookup (codes "email") own_transform.columns ≡ some transform
        → contains (codes "email") users_plan.columns ≡ true)
unfolding build_with skips_data first_errors start_projection add_columns add_column add_rule
    render_transform lookup_builtin finish by_name report_column_errors rule_errors sorted_keys sort
    insert less put lookup select_statement join ◌=?◌ blank trim_space trim_left_space
projection_rules_example =
    projection_rules same same users own_transform [] users_plan refl refl (codes "email")

plan_tail-IsSized_example :
    (w : TailWindow) × (start : ℕ) × (plan_tail (pos 100) (pos 5000) (pos 300) ≡ some w)
    × (w.total_pages ≡ pos 100)
    × (w.start_page ≡ pos start)
    × (start < 100)
    × IsSized 100 (300 * min 100 2000 * 110) (5000 * 100) start
plan_tail-IsSized_example =
    plan_tail-IsSized 100 5000 300 (omega arith) (omega arith) (omega arith) (omega arith)
      (omega arith)

plan_tail_overflow_example :
    (w : TailWindow) × (start : ℕ) × (plan_tail (pos 2000) (pos 50) (pos 50000000000000) ≡ some w)
    × (w.start_page ≡ pos start)
    × (2000 ≤ start)
    × (is_full w ≡ false)
plan_tail_overflow_example =
    plan_tail_overflow 2000 50 50000000000000 (omega arith) (omega arith) (omega arith)
      (omega arith) (omega arith) (omega arith)

abbrev archive : List Bytes
archive =
    codes ";"
    ∷ codes "2; 3079 16385 EXTENSION - citext app"
    ∷ codes "6104; 6104 16700 PUBLICATION - feed app"
    ∷ codes "215; 1259 16390 TABLE public users app"
    ∷ []

filter_passes_example :
    (plan : Plan) × (plan_schema_filter
        (λ path lines. none)
        (codes "/tmp/a")
        (inr archive)
        (inr (codes "citext" ∷ []))
      ≡ inr plan)
    × (extension_pass plan
        ≡ keep (λ line. selects (can_create (codes "citext" ∷ [])) (parse_toc_entry line)) archive)
    × (main_pass archive plan
        ≡ keep
            (λ line. is_entry_line line && not (selects is_special (parse_toc_entry line)))
            archive)
filter_passes_example =
    filter_passes (λ path lines. none) (λ path lines. refl) (codes "/tmp/a") archive
      (codes "citext" ∷ [])

abbrev own_config : Config
own_config = record {
  version = pos 1;
  fk_mode = [];
  tables = (codes "public.users", own_transform) ∷ [];
}

abbrev full_access : Access
full_access = record { unreadable = []; bypass = false; member = codes "app" ∷ [] }

-- A table whose owner is subject to its policies.
abbrev forced_users : Table
forced_users = record users { row_security = true; force_row_security = true }
