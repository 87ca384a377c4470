-- ===== src/Export/Tail/Sizing.antt =====
-- The size of a window, where no product wraps around.
use native.Mathlib.Nat.{div-add-mod, mod-lt}
use pg_snapshot.Base.{ℕ, zero, suc, ◌+◌, ◌-◌, ◌*◌, ◌/◌, ◌^◌, ◌≤◌, ◌<◌, min, ◌≡◌, refl, ◌∙◌, ap}
use pg_snapshot.Base.{Option, none, some, arith, ◌⊎◌, inl, inr, true, false, []}
use pg_snapshot.Base.{Bool-cases}
use pg_snapshot.Base.Int.{ℤ, pos, ltb_ℤ, eq_ℤ, add64_pos}
use pg_snapshot.Base.Int.{sub64_pos, mul64_pos, quot64_pos}
use pg_snapshot.Export.Tail.{TailWindow, tail_window_pages, window_of, plan_tail, min_ℤ}

ceil_bounds : (n d : ℕ) → 0 < d → (n ≤ (n + d - 1) / d * d) × ((n + d - 1) / d * d < n + d)
ceil_bounds n d h = grind (arith, div-add-mod, mod-lt)

tail_window_pages_lem :
    (requested pages rows : ℕ)
    → 0 < rows
    → requested * pages * 110 + rows * 100 < 2 ^ 63
    → tail_window_pages (pos requested) (pos pages) (pos rows)
      ≡ some (pos ((requested * pages * 110 + rows * 100 - 1) / (rows * 100)))
unfolding tail_window_pages
tail_window_pages_lem requested pages rows h fits =
    rw
      (
        mul64_pos requested pages (omega arith),
        mul64_pos (requested * pages) 110 (omega arith),
        mul64_pos rows 100 (omega arith),
        add64_pos (requested * pages * 110) (rows * 100) fits,
        sub64_pos (requested * pages * 110 + rows * 100) 1 (omega arith) fits,
      )
      (quot64_pos _ (rows * 100) (omega arith))

-- A window whose start is 0 reads the whole heap, of `total` pages.
pub record IsSized (total needed density start : ℕ) : Type 0 where
  -- The pages that are read hold the rows that are needed, at the measured density.
  pub enough : (start ≡ 0) ⊎ (needed ≤ (total - start) * density)
  -- One page fewer would not hold them.
  pub tight : (total - start - 1) * density < needed

suc_pred : (p : ℕ) → suc p - 1 ≡ p
suc_pred p = omega arith

pred_mul : (p d n : ℕ) → 0 < n → p * d < n + d → (p - 1) * d < n
pred_mul zero d n hn h = omega arith
pred_mul (suc p) d n hn h =
    let e : (suc p - 1) * d ≡ p * d = ap (λ k. k * d) (suc_pred p) in omega (arith, e)

mul_mono : (p q d : ℕ) → p ≤ q → p * d ≤ q * d
mul_mono p q d h = grind arith

pages_pos : (p d n : ℕ) → 0 < n → n ≤ p * d → 0 < p
pages_pos zero d n hn h = absurd (omega arith)
pages_pos (suc p) d n hn h = omega arith

window_of_lem :
    (total pages needed density : ℕ)
    → 0 < total
    → total < 2 ^ 63
    → 0 < density
    → 0 < needed
    → needed ≤ pages * density
    → pages * density < needed + density
    → (w : TailWindow) × (start : ℕ) × (window_of (pos total) (pos pages) ≡ w)
      × (w.total_pages ≡ pos total)
      × (w.start_page ≡ pos start)
      × (start < total)
      × IsSized total needed density start
unfolding window_of
window_of_lem total pages needed density h fits hd hn enough tight =
    elim (Bool-cases (ltb_ℤ (pos pages) (pos total))) [
      | inl small ↦ (
        record { total_pages = pos total; start_page = pos (total - pages); reason = [] },
        total - pages,
        rw (small, sub64_pos total pages (ground (arith, small)) fits) refl,
        refl,
        refl,
        positive small,
        record { enough = inr (rest small); tight = less_rest small },
      )
      | inr large ↦ (
        window_of (pos total) (pos pages),
        0,
        refl,
        ground (arith, large),
        ground (arith, large),
        h,
        record { enough = inl refl; tight = whole large },
      )
    ]
  where
    positive : ltb_ℤ (pos pages) (pos total) ≡ true → total - pages < total
    positive small = omega (arith, pages_pos pages density needed hn enough)

    reads : ltb_ℤ (pos pages) (pos total) ≡ true → total - (total - pages) ≡ pages
    reads small = ground (arith, small)

    rest : ltb_ℤ (pos pages) (pos total) ≡ true → needed ≤ (total - (total - pages)) * density
    rest small = rw (reads small) enough

    less_rest :
        ltb_ℤ (pos pages) (pos total) ≡ true → (total - (total - pages) - 1) * density < needed
    less_rest small = rw (reads small) (pred_mul pages density needed hn tight)

    whole : ltb_ℤ (pos pages) (pos total) ≡ false → (total - 0 - 1) * density < needed
    whole large = omega (
      arith,
      mul_mono (total - 0 - 1) (pages - 1) density (ground (arith, large)),
      pred_mul pages density needed hn tight,
    )

pub min_pos : (a b : ℕ) → min_ℤ (pos a) (pos b) ≡ pos (min a b)
min_pos a b = ground arith

abbrev pub window_step : ℤ → Option ℤ → Option TailWindow
window_step total none = none
window_step total (some pages) = some (window_of total pages)

-- For a heap that is not empty, live rows in the probed pages, and counts whose products do not wrap
-- around, a window is planned. It begins inside the heap, and its pages hold 110% of the requested
-- rows at the density that was measured, or it is the whole heap; one page fewer would not hold them.
pub plan_tail-IsSized :
    (total rows requested : ℕ)
    → 0 < total
    → total < 2 ^ 63
    → 0 < rows
    → 0 < requested
    → requested * min total 2000 * 110 + rows * 100 < 2 ^ 63
    → (w : TailWindow) × (start : ℕ) × (plan_tail (pos total) (pos rows) (pos requested) ≡ some w)
      × (w.total_pages ≡ pos total)
      × (w.start_page ≡ pos start)
      × (start < total)
      × IsSized total (requested * min total 2000 * 110) (rows * 100) start
unfolding plan_tail
plan_tail-IsSized total rows requested h small hr hq fits =
    let needed = requested * min total 2000 * 110 in
    let pages = (needed + rows * 100 - 1) / (rows * 100) in
    let (enough, tight) = ceil_bounds needed (rows * 100) (omega arith) in
    let (w, start, is, a, b, d, sized) =
      window_of_lem total pages needed (rows * 100) h small (omega arith) needs enough tight in
    (w, start, planned ∙ ap some is, a, b, d, sized)
  where
    needs : 0 < requested * min total 2000 * 110
    needs = grind arith

    some_total : eq_ℤ (pos total) (pos 0) ≡ false
    some_total = ground arith

    some_rows : eq_ℤ (pos rows) (pos 0) ≡ false
    some_rows = ground arith

    planned :
        plan_tail (pos total) (pos rows) (pos requested)
        ≡ some (
            window_of
              (pos total)
              (pos ((requested * min total 2000 * 110 + rows * 100 - 1) / (rows * 100))))
    planned =
        rw (some_total, some_rows)
          (ap (window_step (pos total)) (
            ap (λ m. tail_window_pages (pos requested) m (pos rows)) (min_pos total 2000)
            ∙ tail_window_pages_lem requested (min total 2000) rows hr fits))
