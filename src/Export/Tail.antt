-- ===== src/Export/Tail.antt =====
-- export/tail.go: the window of a table's heap that `tail_rows` exports. Page and row counts are
-- int64. The server's answers to the two measurements are parameters.
pub mod Sizing
pub mod Overflow
use pg_snapshot.Base.{ℕ, Bool, true, false, not, List, [], ◌∷◌, ◌++◌, Option, none, some}
use pg_snapshot.Base.{if◌then◌else◌}
use pg_snapshot.Base.Int.{ℤ, pos, negsuc, ltb_ℤ, eq_ℤ, add64, sub64, mul64, quot64}
use pg_snapshot.Base.Bytes.{Bytes, codes}
use pg_snapshot.Scrub.Projection.{Projection, tail_predicate}
use pg_snapshot.Export.Manifest.{TableEntry, TailReport}

abbrev pub tail_probe_pages : ℤ
tail_probe_pages = pos 2000

abbrev pub tail_margin_pct : ℤ
tail_margin_pct = pos 110

pub record TailWindow : Type 0 where
  pub total_pages : ℤ
  pub start_page : ℤ
  pub reason : Bytes

unfoldable pub is_full : TailWindow → Bool
is_full w = not (ltb_ℤ (pos 0) w.start_page)

unfoldable pub pages_read : TailWindow → ℤ
unfolding sub64
pages_read w = sub64 w.total_pages w.start_page

abbrev pub min_ℤ : ℤ → ℤ → ℤ
min_ℤ a b = if ltb_ℤ b a then b else a

abbrev pub max_ℤ : ℤ → ℤ → ℤ
max_ℤ a b = if ltb_ℤ a b then b else a

-- `none` is the panic of a division by zero.
unfoldable pub tail_window_pages : ℤ → ℤ → ℤ → Option ℤ
unfolding mul64 add64 sub64 quot64
tail_window_pages requested_rows probed_pages probed_rows =
    let num = mul64 (mul64 requested_rows probed_pages) tail_margin_pct in
    let den = mul64 probed_rows (pos 100) in quot64 (sub64 (add64 num den) (pos 1)) den

-- The window for a number of pages.
unfoldable pub window_of : ℤ → ℤ → TailWindow
unfolding sub64
window_of total pages =
    if ltb_ℤ pages total
    then record { total_pages = total; start_page = sub64 total pages; reason = [] }
    else record {
      total_pages = total;
      start_page = pos 0;
      reason = codes "requested tail spans the whole table";
    }

unfoldable pub plan_tail : ℤ → ℤ → ℤ → Option TailWindow
unfolding tail_window_pages window_of
plan_tail total probed_rows requested_rows =
    if eq_ℤ total (pos 0)
    then some (record { total_pages = total; start_page = pos 0; reason = codes "table is empty" })
    else if eq_ℤ probed_rows (pos 0)
    then some (record {
      total_pages = total;
      start_page = pos 0;
      reason = codes "no live rows in the probed tail pages";
    })
    else (elim (tail_window_pages requested_rows (min_ℤ total tail_probe_pages) probed_rows) [
      | none ↦ none
      | some pages ↦ some (window_of total pages)
    ])

pub data Planned : Type 0 where
  window : TailWindow → Planned
  panic : Planned
  size_failed probe_failed : Bytes → Planned

-- A query's number, or its error.
pub data Count : Type 0 where
  count : ℤ → Count
  no_count : Bytes → Count

abbrev planned : Option TailWindow → Planned
planned none = panic
planned (some w) = window w

-- `PlanTailWindow` over the heap's size in pages and the rows counted from a page on.
unfoldable pub plan_tail_window : Count → (ℤ → Count) → ℤ → Planned
unfolding plan_tail sub64
plan_tail_window (no_count e) rows_from requested = size_failed e
plan_tail_window (count total) rows_from requested =
    if eq_ℤ total (pos 0)
    then planned (plan_tail (pos 0) (pos 0) requested)
    else (elim (rows_from (max_ℤ (sub64 total tail_probe_pages) (pos 0))) [
      | no_count e ↦ probe_failed e
      | count rows ↦ planned (plan_tail total rows requested)
    ])

pub data Shortfall : Type 0 where
  enough zero_rows fewer_rows : Shortfall

unfoldable pub report_shortfall : TailReport → ℤ → Shortfall
report_shortfall t row_count =
    if not (ltb_ℤ t.pages_read t.total_pages)
    then enough
    else if eq_ℤ row_count (pos 0)
    then zero_rows
    else if ltb_ℤ row_count t.requested_rows
    then fewer_rows
    else enough

unfoldable pub tail_shortfall : TableEntry → Shortfall
unfolding report_shortfall
tail_shortfall entry = elim entry.tail [
  | none ↦ enough
  | some t ↦ report_shortfall t entry.row_count
]

module _ (quote : Bytes → Bytes) where
  unfoldable pub tail_range_sql : Projection → Bytes
  tail_range_sql p =
      codes "SELECT min("
      ++ (quote p.tail_report_column
          ++ (codes ")::text, max("
              ++ (quote p.tail_report_column
                  ++ (codes ")::text FROM "
                      ++ (quote p.table.schema ++ (codes "." ++ quote p.table.name))))))

  -- The query of `ReadTailRange`.
  unfoldable pub tail_range_query : Projection → TailWindow → Bytes
  unfolding tail_range_sql is_full tail_predicate
  tail_range_query p w =
      tail_range_sql p ++ (if is_full w then [] else codes " WHERE " ++ tail_predicate w.start_page)
