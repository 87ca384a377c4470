-- ===== src/Export/Preflight.antt =====
-- export/preflight.go: which tables are planned, which are found to withhold rows, and what refuses a
-- run. The answers of the server's queries are parameters. `Exportable` is in export/catalog.go.
pub mod Ready
use pg_snapshot.Base.{
  ℕ, Bool, true, false, not, ◌&&◌, ◌||◌, List, [], ◌∷◌, ◌++◌, Option, none, some, keep,
}
use pg_snapshot.Base.{if◌then◌else◌, ◌⊎◌, inl, inr}
use pg_snapshot.Base.Int.{ℤ, pos, ltb_ℤ}
use pg_snapshot.Base.Bytes.{Bytes, codes, ◌=?◌}
use pg_snapshot.Base.Sort.{sort}
use pg_snapshot.Base.Dict.{Dict, lookup, contains, add}
use pg_snapshot.Catalog.{Table, rel_kind_table, rel_kind_partitioned, qualified}
use pg_snapshot.Scrub.Config.{Config, is_empty, table_names}
use pg_snapshot.Scrub.Projection.{Projection, Plan, PlanError, plan, rejected, build_projection}
use pg_snapshot.Pg.Tools.{exclude_table_pattern}

pub data FindingKind : Type 0 where
  no_select row_security forced_row_security : FindingKind

pub record Finding : Type 0 where
  pub table : Bytes
  pub owner : Bytes
  pub kind : FindingKind
  pub columns : List Bytes

-- What the server says of the role, which is no superuser: the columns that it cannot read, by table,
-- whether it has BYPASSRLS, and the owners whose privileges it has.
pub record Access : Type 0 where
  pub unreadable : Dict (List Bytes)
  pub bypass : Bool
  pub member : List Bytes

pub data Problem : Type 0 where
  rejected_table : Bytes → List PlanError → Problem
  excluded_dependents : Bytes → List Bytes → Problem
  bad_report_column : Bytes → Problem
  no_table partitioned_rules : Bytes → Problem
  no_tables : Problem

-- The part of `Report` that the planning fills in.
pub record Report : Type 0 where
  pub plan : List Projection
  pub findings : List Finding

unfoldable pub exportable : List Table → List Table
unfolding ◌=?◌
exportable tables = keep (λ t. t.kind =? rel_kind_table) tables

abbrev pub columns_at : Option (List Bytes) → List Bytes
columns_at none = []
columns_at (some cols) = cols

-- The row of `rlsExemptionsSql` for a table with row security.
unfoldable pub exempt : Access → Table → Bool
unfolding contains
exempt access t = contains t.owner access.member || access.bypass

unfoldable pub table_findings : Access → Table → Projection → List Finding
unfolding lookup exempt
table_findings access t p =
    let cols = columns_at (lookup (qualified t) access.unreadable) in
    if p.excluded
    then []
    else if not (is_empty cols)
    then record { table = qualified t; owner = t.owner; kind = no_select; columns = cols } ∷ []
    else if p.skipped
    then []
    else if t.row_security && not (exempt access t)
    then record {
      table = qualified t;
      owner = t.owner;
      kind = if t.force_row_security then forced_row_security else row_security;
      columns = [];
    }
      ∷ []
    else []

unfoldable pub excluded_tables : List Projection → List Bytes
excluded_tables [] = []
excluded_tables (p ∷ ps) = (if p.excluded then qualified p.table ∷ [] else []) ++ excluded_tables ps

unfoldable pub exclude_table_patterns : List Projection → List Bytes
unfolding exclude_table_pattern
exclude_table_patterns [] = []
exclude_table_patterns (p ∷ ps) =
    (if p.excluded then exclude_table_pattern p.table.schema p.table.name ∷ [] else [])
    ++ exclude_table_patterns ps

unfoldable pub schemas_seen : List Projection → List Bytes → List Bytes
unfolding add
schemas_seen [] seen = seen
schemas_seen (p ∷ ps) seen = schemas_seen ps (add p.table.schema seen)

unfoldable pub schemas : List Projection → List Bytes
unfolding schemas_seen sort
schemas ps = sort (schemas_seen ps [])

abbrev pub owner_role : Finding → FindingKind → List Bytes → List Bytes
unfolding add
owner_role f row_security seen = add f.owner seen
owner_role f no_select seen = seen
owner_role f forced_row_security seen = seen

unfoldable pub owners_seen : List Finding → List Bytes → List Bytes
unfolding owner_role
owners_seen [] seen = seen
owners_seen (f ∷ fs) seen = owners_seen fs (owner_role f f.kind seen)

-- `OwnerRoles`: the owners of the tables that only plain row security blocks.
unfoldable pub owner_roles : List Finding → List Bytes
unfolding owners_seen sort
owner_roles fs = sort (owners_seen fs [])

-- The excluded tables that something still depends on.
unfoldable pub dependent_problems : Dict (List Bytes) → List Bytes → List Problem
unfolding lookup
dependent_problems dependents [] = []
dependent_problems dependents (name ∷ names) =
    (if is_empty (columns_at (lookup name dependents))
      then []
      else excluded_dependents name (columns_at (lookup name dependents)) ∷ [])
    ++ dependent_problems dependents names

-- The report columns that the server refuses to aggregate.
unfoldable pub report_problems : (Projection → Option Bytes) → List Projection → List Problem
report_problems check [] = []
report_problems check (p ∷ ps) =
    (if ltb_ℤ (pos 0) p.tail_rows && not (is_empty p.tail_report_column)
      then (elim (check p) [ none ↦ [] | some e ↦ bad_report_column e ∷ [] ])
      else [])
    ++ report_problems check ps

-- `known`; a table that comes later takes the place of one of the same name.
unfoldable pub known_table : Bytes → List Table → Option Table → Option Table
unfolding ◌=?◌
known_table name [] found = found
known_table name (t ∷ ts) found =
    known_table name ts (if qualified t =? name then some t else found)

abbrev pub name_problem : Bytes → Option Table → List Problem
name_problem name none = no_table name ∷ []
name_problem name (some t) =
    if t.kind =? rel_kind_partitioned then partitioned_rules name ∷ [] else []

-- The configured names that stand for no table, or for a partitioned parent.
unfoldable pub name_problems : List Table → List Bytes → List Problem
unfolding known_table ◌=?◌
name_problems tables [] = []
name_problems tables (name ∷ names) =
    name_problem name (known_table name tables none) ++ name_problems tables names

-- What the planning of one table adds to that of the tables behind it.
abbrev pub plan_step : Access → Table → Plan → Report × List Problem → Report × List Problem
plan_step access t (rejected errs) (rest, problems) =
    (rest, rejected_table (qualified t) errs ∷ problems)
plan_step access t (plan p) (rest, problems) = (
  record { plan = p ∷ rest.plan; findings = table_findings access t p ++ rest.findings },
  problems,
)

abbrev pub or_no_tables : Report → List Problem → List Problem
or_no_tables report found = if is_empty report.plan && is_empty found then no_tables ∷ [] else found

module _ (quote_identifier quote_literal : Bytes → Bytes) (cfg : Config) (salt : Bytes) where
  -- The planning loop, with its errors.
  unfoldable pub plan_tables : Access → List Table → Report × List Problem
  unfolding build_projection table_findings
  plan_tables access [] = (record { plan = []; findings = [] }, [])
  plan_tables access (t ∷ ts) =
      plan_step access t (build_projection quote_identifier quote_literal t cfg salt)
        (plan_tables access ts)

  -- The problems behind the planning, given the answer about dependents.
  unfoldable pub all_problems :
      List Table
      → (Projection → Option Bytes)
      → Report × List Problem
      → Bytes ⊎ Dict (List Bytes)
      → Bytes ⊎ List Problem
  unfolding excluded_tables dependent_problems report_problems name_problems
  all_problems tables check (report, planned) (inl e) = inl e
  all_problems tables check (report, planned) (inr dependents) = inr (
      or_no_tables report (
        planned
        ++ (dependent_problems dependents (excluded_tables report.plan)
            ++ (report_problems check report.plan ++ name_problems tables (table_names cfg)))))

  -- `Run` behind the queries of identity, tables and access: the report, and the error of the query
  -- for dependents or the problems that refuse the run.
  unfoldable pub run_plan :
      Access
      → List Table
      → (List Bytes → Bytes ⊎ Dict (List Bytes))
      → (Projection → Option Bytes)
      → Report × (Bytes ⊎ List Problem)
  unfolding plan_tables exportable excluded_tables all_problems
  run_plan access tables dependents_of check =
      let planned = plan_tables access (exportable tables) in
      let excluded = excluded_tables planned.0.plan in
      (
        planned.0,
        all_problems tables check planned
            (if is_empty excluded then inr [] else dependents_of excluded),
      )
