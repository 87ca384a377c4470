-- ===== src/Scrub/Transform.antt =====
-- scrub/transform.go: the builtin transforms as SQL expressions. `pq.QuoteIdentifier` and
-- `pq.QuoteLiteral`, of github.com/lib/pq, are parameters.
use pg_snapshot.Base.{ℕ, ◌+◌, ◌-◌, ◌&&◌, ◌++◌, Option, none, some}
use pg_snapshot.Base.{if◌then◌else◌, length, ltb}
use pg_snapshot.Base.Int.{ℤ, pos, pos_part, ltb_ℤ}
use pg_snapshot.Base.Bytes.{Bytes, codes, ◌=?◌, trim_space, to_lower, itoa}
use pg_snapshot.Catalog.{Column, is_textual}

pub data Builtin : Type 0 where
  null md5 email redact : Builtin

abbrev pub email_prefix : Bytes
email_prefix = codes "user_"

abbrev pub email_domain : Bytes
email_domain = codes "@example.invalid"

abbrev pub md5_len : ℕ
md5_len = 32

abbrev pub redact_value : Bytes
redact_value = codes "REDACTED"

unfoldable pub builtin_named : Bytes → Option Builtin
unfolding ◌=?◌
builtin_named name =
    if name =? codes "null"
    then some null
    else if name =? codes "md5"
    then some md5
    else if name =? codes "email"
    then some email
    else if name =? codes "redact"
    then some redact
    else none

unfoldable pub lookup_builtin : Bytes → Option Builtin
unfolding builtin_named trim_space to_lower
lookup_builtin transform = builtin_named (to_lower (trim_space transform))

pub data TransformError : Type 0 where
  null_of_not_null : Bytes → TransformError
  not_textual : Builtin → Column → TransformError
  email_too_long : Bytes → ℤ → ℕ → TransformError

pub data Rendered : Type 0 where
  expr : Bytes → Rendered
  refused : TransformError → Rendered

-- `castTo`
unfoldable pub cast_to : Bytes → Column → Bytes
cast_to e col = codes "(" ++ (e ++ (codes ")::" ++ col.type_name))

-- An expression cut to a number of characters.
abbrev pub left_of : Bytes → ℕ → Bytes
unfolding itoa
left_of e n = codes "left(" ++ (e ++ (codes ", " ++ (itoa n ++ codes ")")))

-- The length that `fitText` cuts to, if it cuts.
unfoldable pub fit_length : Column → ℕ → Option ℕ
fit_length col produces =
    if ltb_ℤ (pos 0) col.max_len && ltb_ℤ col.max_len (pos produces)
    then some (pos_part col.max_len)
    else none

unfoldable pub fit_text : Bytes → Column → ℕ → Bytes
unfolding cast_to fit_length left_of
fit_text e col produces =
    cast_to (elim (fit_length col produces) [ none ↦ e | some n ↦ left_of e n ]) col

-- How much of the hash an address keeps, or nothing where not even one character fits.
unfoldable pub email_hash_length : Column → Option ℕ
email_hash_length col =
    let fixed = length email_prefix + length email_domain in
    let avail = pos_part col.max_len - fixed in
    if ltb_ℤ (pos 0) col.max_len
    then (if ltb avail 1 then none else if ltb avail md5_len then some avail else some md5_len)
    else some md5_len

module _ (quote_identifier quote_literal : Bytes → Bytes) where
  unfoldable pub salted_hash : Column → Bytes → Bytes
  salted_hash col salt =
      codes "md5("
      ++ (quote_identifier col.name ++ (codes "::text || " ++ (quote_literal salt ++ codes ")")))

  abbrev require_textual : Column → Builtin → Rendered → Rendered
  unfolding is_textual
  require_textual col b e = if is_textual col then e else refused (not_textual b col)

  unfoldable pub null_expr : Column → Rendered
  null_expr col = if col.not_null then refused (null_of_not_null col.name) else expr (codes "NULL")

  unfoldable pub md5_expr : Column → Bytes → Rendered
  unfolding require_textual salted_hash fit_text
  md5_expr col salt = require_textual col md5 (expr (fit_text (salted_hash col salt) col md5_len))

  -- The concatenation that stands for an address, with `n` characters of the hash.
  unfoldable pub address : Column → Bytes → ℕ → Bytes
  unfolding salted_hash left_of
  address col salt n =
      quote_literal email_prefix
      ++ (codes " || "
          ++ (left_of (salted_hash col salt) n ++ (codes " || " ++ quote_literal email_domain)))

  unfoldable pub email_expr : Column → Bytes → Rendered
  unfolding require_textual address cast_to email_hash_length
  email_expr col salt = require_textual col email (elim (email_hash_length col) [
    | none ↦
        refused
          (email_too_long col.name col.max_len (length email_prefix + length email_domain + 1))
    | some n ↦ expr (cast_to (address col salt n) col)
  ])

  unfoldable pub redact_expr : Column → Rendered
  unfolding require_textual fit_text
  redact_expr col =
      require_textual col redact
        (expr (fit_text (quote_literal redact_value) col (length redact_value)))

  -- `Expr`, on the builtins that exist.
  unfoldable pub builtin_expr : Builtin → Column → Bytes → Rendered
  unfolding null_expr md5_expr email_expr redact_expr
  builtin_expr null col salt = null_expr col
  builtin_expr md5 col salt = md5_expr col salt
  builtin_expr email col salt = email_expr col salt
  builtin_expr redact col salt = redact_expr col
