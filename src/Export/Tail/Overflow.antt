-- ===== src/Export/Tail/Overflow.antt =====
-- export/tail.go: the window where the products of `tailWindowPages` pass 2^63.
use native.Mathlib.Nat.{div-add-mod}
use pg_snapshot.Base.{ℕ, ◌+◌, ◌-◌, ◌*◌, ◌/◌, ◌^◌, ◌≤◌, ◌<◌, zero, suc, min, ◌≡◌, refl, ◌∙◌, ap}
use pg_snapshot.Base.{some, arith, false, []}
use pg_snapshot.Base.Int.{
  pos, negsuc, eq_ℤ, add64, sub64, mul64, quot64, sub_ℕ, wrap_pos, mul64_pos,
}
use pg_snapshot.Export.Tail.{TailWindow, tail_window_pages, window_of, plan_tail, is_full}
use pg_snapshot.Export.Tail.Sizing.{window_step, min_pos}

mul64_wraps :
    (m n : ℕ)
    → 2 ^ 63 ≤ m * n
    → m * n < 2 ^ 64
    → mul64 (pos m) (pos n) ≡ negsuc (2 ^ 64 - 1 - m * n)
unfolding mul64
mul64_wraps m n h k = ground arith

add64_negsuc : (m n : ℕ) → n ≤ m → m < 2 ^ 63 → add64 (negsuc m) (pos n) ≡ negsuc (m - n)
unfolding add64
add64_negsuc m n h k = ground arith

sub64_negsuc : (m : ℕ) → m + 1 < 2 ^ 63 → sub64 (negsuc m) (pos 1) ≡ negsuc (m + 1)
unfolding sub64
sub64_negsuc m h = ground arith

quot64_negsuc : (m n : ℕ) → 0 < n → quot64 (negsuc m) (pos n) ≡ some (sub_ℕ 0 (suc m / n))
unfolding quot64
quot64_negsuc m zero h = elim h [ ]
quot64_negsuc m (suc n) h = refl

overflown_pages :
    (requested pages rows : ℕ)
    → 0 < rows
    → requested * pages < 2 ^ 63
    → 2 ^ 63 < requested * pages * 110
    → requested * pages * 110 + rows * 100 < 2 ^ 64
    → tail_window_pages (pos requested) (pos pages) (pos rows)
      ≡ some (sub_ℕ 0 (suc (2 ^ 64 - 1 - requested * pages * 110 - rows * 100 + 1) / (rows * 100)))
unfolding tail_window_pages
overflown_pages requested pages rows h small big fits =
    rw
      (
        mul64_pos requested pages small,
        mul64_wraps (requested * pages) 110 (omega arith) (omega arith),
        mul64_pos rows 100 (omega arith),
        add64_negsuc (2 ^ 64 - 1 - requested * pages * 110) (rows * 100) (omega arith)
            (omega arith),
        sub64_negsuc (2 ^ 64 - 1 - requested * pages * 110 - rows * 100) (omega arith),
      )
      (quot64_negsuc _ (rows * 100) (omega arith))

window_past_end :
    (total q : ℕ)
    → 0 < total
    → total + q < 2 ^ 63
    → window_of (pos total) (sub_ℕ 0 q)
      ≡ record { total_pages = pos total; start_page = pos (total + q); reason = [] }
unfolding window_of sub64
window_past_end total zero h fits = ground (arith, wrap_pos (total + 0))
window_past_end total (suc q) h fits = ground (arith, wrap_pos (total + suc q))

-- How far behind the end of the heap the window begins.
abbrev past_end : ℕ → ℕ → ℕ
past_end needed rows = suc (2 ^ 64 - 1 - needed - rows * 100 + 1) / (rows * 100)

quotient_hundredth : (n rows : ℕ) → 0 < rows → n / (rows * 100) * 100 ≤ n
quotient_hundredth n rows h =
    let q = n / (rows * 100) in
    let bound : q * 100 ≤ q * (rows * 100) = grind arith in
    omega (arith, bound, div-add-mod n (rows * 100))

past_end_fits : (needed rows : ℕ) → 0 < rows → 2 ^ 63 < needed → past_end needed rows < 2 ^ 62
past_end_fits needed rows h big =
    omega (arith, quotient_hundredth (suc (2 ^ 64 - 1 - needed - rows * 100 + 1)) rows h)

-- A heap of 1 to 2^62 - 1 pages, with live rows in its probed pages (the first 2000 at most). If the
-- product of the requested rows and the probed pages is below 2^63, but 110 times that product is
-- above it and, with 100 times the live rows added, stays below 2^64, then the planned window is not the
-- full table and begins at or behind the end of the heap.
pub plan_tail_overflow :
    (total rows requested : ℕ)
    → 0 < total
    → total < 2 ^ 62
    → 0 < rows
    → requested * min total 2000 < 2 ^ 63
    → 2 ^ 63 < requested * min total 2000 * 110
    → requested * min total 2000 * 110 + rows * 100 < 2 ^ 64
    → (w : TailWindow) × (start : ℕ) × (plan_tail (pos total) (pos rows) (pos requested) ≡ some w)
      × (w.start_page ≡ pos start)
      × (total ≤ start)
      × (is_full w ≡ false)
unfolding plan_tail is_full
plan_tail_overflow total rows requested h fits hr small big range = (
  record {
    total_pages = pos total;
    start_page = pos (total + past_end (requested * min total 2000 * 110) rows);
    reason = [];
  },
  total + past_end (requested * min total 2000 * 110) rows,
  planned
      ∙ ap some (window_past_end total (past_end (requested * min total 2000 * 110) rows) h q_fits),
  refl,
  omega arith,
  ground arith,
)
  where
    q_fits : total + past_end (requested * min total 2000 * 110) rows < 2 ^ 63
    q_fits = omega (arith, past_end_fits (requested * min total 2000 * 110) rows hr (omega arith))

    some_total : eq_ℤ (pos total) (pos 0) ≡ false
    some_total = ground arith

    some_rows : eq_ℤ (pos rows) (pos 0) ≡ false
    some_rows = ground arith

    planned :
        plan_tail (pos total) (pos rows) (pos requested)
        ≡ some (window_of (pos total) (sub_ℕ 0 (past_end (requested * min total 2000 * 110) rows)))
    planned =
        rw (some_total, some_rows)
          (ap (window_step (pos total)) (
            ap (λ m. tail_window_pages (pos requested) m (pos rows)) (min_pos total 2000)
            ∙ overflown_pages requested (min total 2000) rows hr small big range))
