-- ===== src/Base/Bytes.antt =====
-- Go's strings as lists of bytes, and what the program uses of package strings and strconv.
-- `codes` reads a literal. `fields`, `trim_space` and `to_lower` follow ASCII: on text with a byte of
-- 128 or more, Go's versions also know Unicode's spaces and letters.
use Prim.Native.Nat.{ℕ, zero, suc, ◌+◌, ◌/◌, ◌%◌, ◌≤◌}
use Prim.Native.Char.{code}
use Prim.Native.String.{String}
use mathlib.Core.Path.{◌≡◌, refl, ap}
use mathlib.Core.Logic.{◌≢◌, ◌↔◌}
use mathlib.Core.Bool.{Bool, true, false, ◌&&◌, ◌||◌}
use mathlib.Core.List.{List, [], ◌∷◌, ◌++◌, map, reverse}
use native.Mathlib.Omega.{arith}
use pg_snapshot.Base.Tests.{ltb, leb, ◌==◌, if◌then◌else◌}
use pg_snapshot.Base.Lists.{length, drop, All}

abbrev pub Bytes : Type 0
Bytes = List ℕ

-- The bytes of an ASCII literal.
abbrev pub codes : String → Bytes
codes String.[] = []
codes (String.◌∷◌ c s) = code c ∷ codes s

infix 50 ◌=?◌
unfoldable pub ◌=?◌ : Bytes → Bytes → Bool
[] =? [] = true
[] =? (d ∷ t) = false
(c ∷ s) =? [] = false
(c ∷ s) =? (d ∷ t) = c == d && s =? t

pub =?_sound : (s t : Bytes) → s =? t ≡ true → s ≡ t
unfolding ◌=?◌
=?_sound [] [] h = refl
=?_sound [] (d ∷ t) h = cc
=?_sound (c ∷ s) [] h = cc
=?_sound (c ∷ s) (d ∷ t) h = ground (arith, =?_sound s t)

pub =?_refl : (s : Bytes) → s =? s ≡ true
unfolding ◌=?◌
=?_refl [] = refl
=?_refl (c ∷ s) = ground (arith, =?_refl s)

pub =?_iff : (s t : Bytes) → (s =? t ≡ true) ↔ (s ≡ t)
=?_iff s t = (=?_sound s t, λ e. rw e (=?_refl t))

-- `strings.HasPrefix`
unfoldable pub has_prefix : Bytes → Bytes → Bool
has_prefix s [] = true
has_prefix [] (d ∷ t) = false
has_prefix (c ∷ s) (d ∷ t) = c == d && has_prefix s t

pub has_prefix-append : (p s : Bytes) → has_prefix (p ++ s) p ≡ true
unfolding has_prefix
has_prefix-append [] s = refl
has_prefix-append (c ∷ p) s = ground (arith, has_prefix-append p s)

-- A text that has a prefix is the prefix and a rest.
pub has_prefix_sound : (s p : Bytes) → has_prefix s p ≡ true → s ≡ p ++ drop (length p) s
unfolding has_prefix
has_prefix_sound s [] h = refl
has_prefix_sound [] (d ∷ t) h = cc
has_prefix_sound (c ∷ s) (d ∷ t) h = ground (arith, has_prefix_sound s t)

-- `strings.TrimPrefix`
unfoldable pub trim_prefix : Bytes → Bytes → Bytes
unfolding has_prefix
trim_prefix s p = if has_prefix s p then drop (length p) s else s

-- `strings.Cut` at a separator that is not empty: before, after, found.
unfoldable pub cut : Bytes → Bytes → Bytes × Bytes × Bool
unfolding has_prefix
cut [] sep = ([], [], false)
cut (c ∷ s) sep =
    let rest = cut s sep in
    if has_prefix (c ∷ s) sep
    then ([], drop (length sep) (c ∷ s), true)
    else (c ∷ rest.0, rest.1, rest.2)

-- The parts of a text that begins with a byte, from those of its rest.
abbrev extend_first : ℕ → Bool → List Bytes → List Bytes
extend_first c true parts = [] ∷ parts
extend_first c false [] = (c ∷ []) ∷ []
extend_first c false (p ∷ parts) = (c ∷ p) ∷ parts

-- `strings.Split` at one byte.
unfoldable pub split : Bytes → ℕ → List Bytes
split [] sep = [] ∷ []
split (c ∷ s) sep = extend_first c (c == sep) (split s sep)

-- `strings.Join`
unfoldable pub join : List Bytes → Bytes → Bytes
join [] sep = []
join (p ∷ []) sep = p
join (p ∷ q ∷ ps) sep = p ++ (sep ++ join (q ∷ ps) sep)

-- `strings.ReplaceAll` of one byte by a text.
unfoldable pub replace_all : Bytes → ℕ → Bytes → Bytes
replace_all [] old new = []
replace_all (c ∷ s) old new = (if c == old then new else c ∷ []) ++ replace_all s old new

abbrev pub is_space : ℕ → Bool
is_space c = c == b' ' || (leb 9 c && leb c 13)

unfoldable pub trim_left_space : Bytes → Bytes
trim_left_space [] = []
trim_left_space (c ∷ s) = if is_space c then trim_left_space s else c ∷ s

-- `strings.TrimSpace`
unfoldable pub trim_space : Bytes → Bytes
unfolding trim_left_space
trim_space s = reverse (trim_left_space (reverse (trim_left_space s)))

unfoldable pub trim_left_byte : ℕ → Bytes → Bytes
trim_left_byte d [] = []
trim_left_byte d (c ∷ s) = if c == d then trim_left_byte d s else c ∷ s

-- `strings.Trim` with a cutset of one byte.
unfoldable pub trim_byte : Bytes → ℕ → Bytes
unfolding trim_left_byte
trim_byte s d = reverse (trim_left_byte d (reverse (trim_left_byte d s)))

-- The loop of `strings.Fields`: `word` is the field being read, last byte first.
unfoldable pub fields_from : Bytes → Bytes → List Bytes
fields_from [] [] = []
fields_from [] (w ∷ word) = reverse (w ∷ word) ∷ []
fields_from (c ∷ s) [] = fields_from s (if is_space c then [] else c ∷ [])
fields_from (c ∷ s) (w ∷ word) =
    let ended = reverse (w ∷ word) ∷ fields_from s [] in
    let longer = fields_from s (c ∷ w ∷ word) in if is_space c then ended else longer

-- `strings.Fields`
unfoldable pub fields : Bytes → List Bytes
unfolding fields_from
fields s = fields_from s []

-- `strings.ToLower`
unfoldable pub to_lower : Bytes → Bytes
to_lower s = map (λ c. if leb b'A' c && leb c b'Z' then c + 32 else c) s

-- The decimal digits of a number in front of a text, with fuel for the divisions by ten.
unfoldable pub digits_before : ℕ → ℕ → Bytes → Bytes
digits_before zero n out = out
digits_before (suc f) n out =
    let more = digits_before f (n / 10) ((b'0' + n % 10) ∷ out) in
    if ltb n 10 then (b'0' + n) ∷ out else more

-- `strconv.Itoa`, and the verb %d, on a number that is not negative.
unfoldable pub itoa : ℕ → Bytes
unfolding digits_before
itoa n = digits_before (suc n) n []

abbrev pub IsDigit : ℕ → Type 0
IsDigit c = (b'0' ≤ c) × (c ≤ b'9')

pub has_prefix_mono : (s t p : Bytes) → has_prefix s p ≡ true → has_prefix (s ++ t) p ≡ true
unfolding has_prefix
has_prefix_mono s t [] h = refl
has_prefix_mono [] t (d ∷ p) h = cc
has_prefix_mono (c ∷ s) t (d ∷ p) h = ground (arith, has_prefix_mono s t p)

-- The byte does not occur.
abbrev pub Lacks : ℕ → Bytes → Type 0
Lacks b = All (λ c. c ≢ b)

pub split_once : (s : Bytes) (sep : ℕ) → Lacks sep s → split s sep ≡ s ∷ []
unfolding split
split_once [] sep h = refl
split_once (c ∷ s) sep (hc, h) = ground (arith, split_once s sep h)

pub split-append :
    (p s : Bytes) (sep : ℕ) → Lacks sep p → split (p ++ sep ∷ s) sep ≡ p ∷ split s sep
unfolding split
split-append [] s sep h = ground arith
split-append (c ∷ p) s sep (hc, h) = ground (arith, split-append p s sep h)

split-ne-nil : (s : Bytes) (sep : ℕ) → split s sep ≢ []
unfolding split
split-ne-nil [] sep h = cc
split-ne-nil (c ∷ s) sep h = from (c == sep) (split s sep) h
  where
    from : (b : Bool) (parts : List Bytes) → extend_first c b parts ≢ []
    from true parts e = cc
    from false [] e = cc
    from false (p ∷ parts) e = cc

pub join-split : (s : Bytes) (sep : ℕ) → join (split s sep) (sep ∷ []) ≡ s
unfolding split join
join-split [] sep = refl
join-split (c ∷ s) sep = from (c == sep) refl (split s sep) (split-ne-nil s sep) (join-split s sep)
  where
    from :
        (b : Bool)
        → (c == sep) ≡ b
        → (parts : List Bytes) → parts ≢ []
        → join parts (sep ∷ []) ≡ s
        → join (extend_first c b parts) (sep ∷ []) ≡ c ∷ s
    from b e [] full h = absurd (full refl)
    from true e (p ∷ parts) full h = ground (arith, h)
    from false e (p ∷ []) full h = ap (λ r. c ∷ r) h
    from false e (p ∷ q ∷ parts) full h = ap (λ r. c ∷ r) h

pub split-Lacks : (s : Bytes) (sep : ℕ) → All (Lacks sep) (split s sep)
unfolding split
split-Lacks [] sep = (tt, tt)
split-Lacks (c ∷ s) sep = from (c == sep) refl (split s sep) (split-Lacks s sep)
  where
    from :
        (b : Bool)
        → (c == sep) ≡ b
        → (parts : List Bytes) → All (Lacks sep) parts
        → All (Lacks sep) (extend_first c b parts)
    from true e parts h = (tt, h)
    from false e [] h = (((λ same. ground (arith, e, same)), tt), tt)
    from false e (p ∷ parts) (hp, h) = (((λ same. ground (arith, e, same)), hp), h)
