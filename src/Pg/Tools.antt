-- ===== src/Pg/Tools.antt =====
-- pg/tools.go: the arguments of pg_dump, pg_restore and vacuumdb, and the answers read from them. The
-- binaries themselves are not modelled. pg/phase.go: the position of a phase.
use pg_snapshot.Base.{◌&&◌, List, [], ◌∷◌, ◌++◌, map, Option, none, some}
use pg_snapshot.Base.{if◌then◌else◌, ltb, length, last?}
use pg_snapshot.Base.Int.{ℤ, pos, ltb_ℤ, itoa_ℤ, add64}
use pg_snapshot.Base.Bytes.{Bytes, codes, ◌=?◌, replace_all, split, cut, fields}
use pg_snapshot.Pg.Toc.{atoi, is_empty}

-- A section of an archive.
abbrev pub section_pre_data : Bytes
section_pre_data = codes "pre-data"

abbrev pub section_post_data : Bytes
section_post_data = codes "post-data"

-- The arguments of pg_dump in `DumpSchema`.
unfoldable pub dump_schema_args : Bytes → Bytes → Bytes → List Bytes → List Bytes
dump_schema_args url out_path snapshot_id exclude_tables =
    codes "--format=custom"
    ∷ codes "--schema-only"
    ∷ codes "--no-owner"
    ∷ codes "--no-acl"
    ∷ codes "--no-comments"
    ∷ codes "--no-publications"
    ∷ codes "--no-subscriptions"
    ∷ (codes "--file=" ++ out_path)
    ∷ ((if is_empty snapshot_id then [] else (codes "--snapshot=" ++ snapshot_id) ∷ [])
        ++ (map (λ pattern. codes "--exclude-table=" ++ pattern) exclude_tables ++ url ∷ []))

unfoldable pub quote_pattern_part : Bytes → Bytes
unfolding replace_all
quote_pattern_part s = codes "\"" ++ (replace_all s b'"' (codes "\"\"") ++ codes "\"")

unfoldable pub exclude_table_pattern : Bytes → Bytes → Bytes
unfolding quote_pattern_part
exclude_table_pattern schema table =
    quote_pattern_part schema ++ (codes "." ++ quote_pattern_part table)

-- `strings.ReplaceAll(out, "\r\n", "\n")`
unfoldable pub drop_returns : Bytes → Bytes
unfolding ◌=?◌
drop_returns [] = []
drop_returns (c ∷ []) = c ∷ []
drop_returns (c ∷ d ∷ s) =
    let rest = drop_returns (d ∷ s) in if codes "\r\n" =? (c ∷ d ∷ []) then rest else c ∷ rest

-- The lines of `ListArchive`, from the output of pg_restore.
unfoldable pub archive_lines : Bytes → List Bytes
unfolding drop_returns split
archive_lines out = split (drop_returns out) b'\n'

pub record RestoreOptions : Type 0 where
  pub section : Bytes
  pub list_path : Bytes
  pub jobs : ℤ
  pub role : Bytes

-- The arguments of pg_restore in `RestoreSection`.
unfoldable pub restore_section_args : Bytes → Bytes → RestoreOptions → List Bytes
unfolding ◌=?◌ itoa_ℤ
restore_section_args url archive_path opts =
    (codes "--section=" ++ opts.section)
    ∷ codes "--no-owner"
    ∷ codes "--no-acl"
    ∷ (codes "--dbname=" ++ url)
    ∷ ((if is_empty opts.role then [] else (codes "--role=" ++ opts.role) ∷ [])
        ++ ((if is_empty opts.list_path then [] else (codes "--use-list=" ++ opts.list_path) ∷ [])
            ++ ((if opts.section =? section_post_data && ltb_ℤ (pos 1) opts.jobs
                  then (codes "--jobs=" ++ itoa_ℤ opts.jobs) ∷ []
                  else [])
                ++ archive_path ∷ [])))

-- The arguments of vacuumdb in `Analyze`.
unfoldable pub analyze_args : Bytes → ℤ → List Bytes
unfolding itoa_ℤ
analyze_args url jobs =
    codes "--analyze-only"
    ∷ (codes "--dbname=" ++ url)
    ∷ (if ltb_ℤ (pos 1) jobs then (codes "--jobs=" ++ itoa_ℤ jobs) ∷ [] else [])

-- The major version in the output of `--version`; `none` is an error.
unfoldable pub tool_version : Bytes → Option ℤ
unfolding fields cut atoi
tool_version out = if ltb (length (fields out)) 3 then none else (elim (last? (fields out)) [
  | none ↦ none
  | some version ↦ atoi (cut version (codes ".")).0
])

pub record Phases : Type 0 where
  pub total : ℤ
  pub n : ℤ

unfoldable pub position : Phases → ℤ → Bytes
unfolding itoa_ℤ
position p n =
    if ltb_ℤ p.total (pos 1)
    then itoa_ℤ n
    else if ltb_ℤ p.total n
    then itoa_ℤ n
    else itoa_ℤ n ++ (codes " of " ++ itoa_ℤ p.total)

-- `Start`: the phases after it, and the position that is logged.
unfoldable pub start : Phases → Phases × Bytes
unfolding position add64
start p = let n = add64 p.n (pos 1) in (record { total = p.total; n = n }, position p n)
