-- ===== src/Base/Int.antt =====
-- Integers over the native numbers, and Go's int64 arithmetic on them.
use Prim.Native.Nat.{ℕ, zero, suc, ◌+◌, ◌-◌, ◌*◌, ◌/◌, ◌%◌, ◌^◌, ◌≤◌, ◌<◌}
use mathlib.Core.Path.{◌≡◌, refl}
use mathlib.Core.Bool.{Bool}
use mathlib.Core.Option.{Option, none, some}
use native.Mathlib.Omega.{arith}
use mathlib.Core.List.{◌∷◌}
use pg_snapshot.Base.Tests.{ltb, leb, ◌==◌, if◌then◌else◌}
use pg_snapshot.Base.Bytes.{Bytes, itoa}

-- `negsuc n` is -(n + 1).
pub data ℤ : Type 0 where
  pos : ℕ → ℤ
  negsuc : ℕ → ℤ

abbrev pub pos_part : ℤ → ℕ
pos_part (pos n) = n
pos_part (negsuc n) = 0

abbrev pub neg_part : ℤ → ℕ
neg_part (pos n) = 0
neg_part (negsuc n) = suc n

abbrev pub sub_ℕ : ℕ → ℕ → ℤ
sub_ℕ a b = if leb b a then pos (a - b) else negsuc (b - a - 1)

abbrev pub ltb_ℤ : ℤ → ℤ → Bool
ltb_ℤ a b = ltb (pos_part a + neg_part b) (pos_part b + neg_part a)

infix 50 ◌≤ℤ◌
abbrev pub ◌≤ℤ◌ : ℤ → ℤ → Type 0
a ≤ℤ b = pos_part a + neg_part b ≤ pos_part b + neg_part a

abbrev pub eq_ℤ : ℤ → ℤ → Bool
eq_ℤ a b = (pos_part a + neg_part b) == (pos_part b + neg_part a)

infixl 70 ◌*ℤ◌
unfoldable pub ◌*ℤ◌ : ℤ → ℤ → ℤ
a *ℤ b =
    sub_ℕ (pos_part a * pos_part b + neg_part a * neg_part b)
      (pos_part a * neg_part b + neg_part a * pos_part b)

-- The 64-bit pattern of an integer, and the int64 that a pattern stands for.
unfoldable pub to_word : ℤ → ℕ
to_word (pos n) = n % 2 ^ 64
to_word (negsuc n) = 2 ^ 64 - 1 - n % 2 ^ 64

unfoldable pub of_word : ℕ → ℤ
of_word w = if ltb w (2 ^ 63) then pos w else negsuc (2 ^ 64 - 1 - w)

-- Go's int64 operations: the exact result, wrapped around.
unfoldable pub wrap : ℤ → ℤ
unfolding to_word of_word
wrap a = of_word (to_word a)

unfoldable pub add64 : ℤ → ℤ → ℤ
unfolding wrap
add64 a b = wrap (sub_ℕ (pos_part a + pos_part b) (neg_part a + neg_part b))

unfoldable pub sub64 : ℤ → ℤ → ℤ
unfolding wrap
sub64 a b = wrap (sub_ℕ (pos_part a + neg_part b) (neg_part a + pos_part b))

unfoldable pub mul64 : ℤ → ℤ → ℤ
unfolding wrap ◌*ℤ◌
mul64 a b = wrap (a *ℤ b)

-- Go's `/` cuts towards zero and panics on a zero divisor, which is `none` here.
unfoldable pub quot64 : ℤ → ℤ → Option ℤ
unfolding wrap
quot64 a (pos zero) = none
quot64 (pos m) (pos (suc n)) = some (pos (m / suc n))
quot64 (pos m) (negsuc n) = some (sub_ℕ 0 (m / suc n))
quot64 (negsuc m) (pos (suc n)) = some (sub_ℕ 0 (suc m / suc n))
quot64 (negsuc m) (negsuc n) = some (wrap (pos (suc m / suc n)))

-- A number below 2^63 is its own int64.
pub wrap_pos : (n : ℕ) → n < 2 ^ 63 → wrap (pos n) ≡ pos n
unfolding wrap
wrap_pos n h = ground arith

pub add64_pos : (m n : ℕ) → m + n < 2 ^ 63 → add64 (pos m) (pos n) ≡ pos (m + n)
unfolding add64
add64_pos m n h = ground arith

pub sub64_pos : (m n : ℕ) → n ≤ m → m < 2 ^ 63 → sub64 (pos m) (pos n) ≡ pos (m - n)
unfolding sub64
sub64_pos m n h k = ground arith

pub mul64_pos : (m n : ℕ) → m * n < 2 ^ 63 → mul64 (pos m) (pos n) ≡ pos (m * n)
unfolding mul64
mul64_pos m n h = ground arith

pub quot64_pos : (m n : ℕ) → 0 < n → quot64 (pos m) (pos n) ≡ some (pos (m / n))
unfolding quot64
quot64_pos m zero h = elim h [ ]
quot64_pos m (suc n) h = refl

-- The verb %d of an integer.
unfoldable pub itoa_ℤ : ℤ → Bytes
unfolding itoa
itoa_ℤ (pos n) = itoa n
itoa_ℤ (negsuc n) = b'-' ∷ itoa (suc n)
