-- ===== src/Scrub/Config/Valid.antt =====
-- A configuration that passes `Validate` is described without the code: `IsValid`.
use pg_snapshot.Base.{◌≡◌, refl, sym, ◌∙◌, ap, ◌≢◌, Bool, true, false, not, List, [], ◌∷◌, ◌++◌}
use pg_snapshot.Base.{Option, none, some, arith, All, Bool-cases, inl, inr, ◌↔◌, ◌⊎◌}
use pg_snapshot.Base.{Option-cases}
use pg_snapshot.Base.Int.{ℤ, pos, ◌≤ℤ◌, ltb_ℤ}
use pg_snapshot.Base.Bytes.{Bytes, ◌=?◌, =?_iff, trim_space}
use pg_snapshot.Base.Dict.{Dict, lookup}
use pg_snapshot.Scrub.Config.{Config, TableConfig, config_version, table_mode_full}
use pg_snapshot.Scrub.Config.{table_mode_skip, table_mode_skip_data, fk_mode_validate}
use pg_snapshot.Scrub.Config.{fk_mode_not_valid, skips_data, ConfigError, report, is_empty, is_none}
use pg_snapshot.Scrub.Config.{split_qualified, valid_mode, skip_errors, tail_errors}
use pg_snapshot.Scrub.Config.{transform_errors, table_errors, config_at, all_table_errors}
use pg_snapshot.Scrub.Config.{blank}
use pg_snapshot.Scrub.Config.Qualified.{IsQualified, split_qualified_iff}

-- The table's rule has a name of the form schema.table, a known mode, no row or column rules where
-- no rows are exported, at least one tail row and no `where` beside it, a report column only with
-- tail rows, and no blank transform.
pub record IsValidTable (name : Bytes) (tc : TableConfig) : Type 0 where
  pub named : (s : Bytes) × (t : Bytes) × IsQualified name s t
  pub known :
      (tc.mode ≡ table_mode_full) ⊎ ((tc.mode ≡ table_mode_skip) ⊎ (tc.mode ≡ table_mode_skip_data))
  pub rows :
      (tc.mode ≡ table_mode_skip) ⊎ (tc.mode ≡ table_mode_skip_data)
      → (tc.filter ≡ []) × (tc.columns ≡ []) × (tc.tail_rows ≡ none)
  pub tail : (n : ℤ) → tc.tail_rows ≡ some n → (pos 1 ≤ℤ n) × (tc.filter ≡ [])
  pub reported : tc.tail_rows ≡ none → tc.tail_report_column ≡ []
  pub rules : (col t : Bytes) → lookup col tc.columns ≡ some t → trim_space t ≢ []

pub record IsValid (c : Config) : Type 0 where
  pub version : c.version ≡ config_version
  pub fk_mode : (c.fk_mode ≡ fk_mode_validate) ⊎ (c.fk_mode ≡ fk_mode_not_valid)
  pub tables :
      (name : Bytes) (tc : TableConfig) → lookup name c.tables ≡ some tc → IsValidTable name tc

pub append_nil {ℓ} : {A : Type ℓ} (xs ys : List A) → xs ≡ [] → ys ≡ [] → xs ++ ys ≡ []
append_nil [] ys h k = k
append_nil (x ∷ xs) ys h k = cc

pub nil_of_append {ℓ} : {A : Type ℓ} (xs ys : List A) → xs ++ ys ≡ [] → (xs ≡ []) × (ys ≡ [])
nil_of_append [] ys h = (refl, h)
nil_of_append (x ∷ xs) ys h = cc

pub report_iff : (b : Bool) (e : ConfigError) → (report b e ≡ []) ↔ (b ≡ false)
report_iff true e = ((λ h. cc), (λ h. cc))
report_iff false e = ((λ h. refl), (λ h. refl))

pub is_empty_iff {ℓ} : {A : Type ℓ} (xs : List A) → (is_empty xs ≡ true) ↔ (xs ≡ [])
is_empty_iff [] = ((λ h. refl), (λ h. refl))
is_empty_iff (x ∷ xs) = ((λ h. cc), (λ h. cc))

pub skips_data_iff :
    (m : Bytes) → (skips_data m ≡ true) ↔ ((m ≡ table_mode_skip) ⊎ (m ≡ table_mode_skip_data))
unfolding skips_data
skips_data_iff m = (
  (λ h. elim (Bool-cases (m =? table_mode_skip)) [
    | inl e ↦ inl ((=?_iff m _).0 e)
    | inr e ↦ inr ((=?_iff m _).0 (ground (arith, h, e)))
  ]),
  (λ h. elim h [
    | inl e ↦ ground (arith, (=?_iff m _).1 e)
    | inr e ↦ ground (arith, (=?_iff m _).1 e)
  ]),
)

pub transform_errors_iff :
    (name : Bytes) (rules : Dict Bytes) (cols : List Bytes)
    → (transform_errors name rules cols ≡ []) ↔ All (λ col. blank (lookup col rules) ≡ false) cols
unfolding transform_errors
transform_errors_iff name rules [] = ((λ h. tt), (λ h. refl))
transform_errors_iff name rules (col ∷ cols) =
    let e = ConfigError.empty_transform name col in
    let rest = transform_errors_iff name rules cols in
    (
      (λ h.
          let (first, more) = nil_of_append (report (blank (lookup col rules)) e) _ h in
          ((report_iff _ e).0 first, rest.0 more)),
      (λ h. append_nil _ _ ((report_iff _ e).1 h.0) (rest.1 h.1)),
    )

pub all_table_errors_iff :
    (tables : Dict TableConfig) (names : List Bytes)
    → (all_table_errors tables names ≡ [])
      ↔ All (λ name. table_errors name (config_at tables name) ≡ []) names
unfolding all_table_errors
all_table_errors_iff tables [] = ((λ h. tt), (λ h. refl))
all_table_errors_iff tables (name ∷ names) =
    let rest = all_table_errors_iff tables names in
    (
      (λ h.
          let (first, more) = nil_of_append (table_errors name (config_at tables name)) _ h in
          (first, rest.0 more)),
      (λ h. append_nil _ _ h.0 (rest.1 h.1)),
    )

pub named_iff :
    (name : Bytes)
    → (is_none (split_qualified name) ≡ false) ↔ ((s : Bytes) × (t : Bytes) × IsQualified name s t)
named_iff name = (
  (λ h. elim (Option-cases (split_qualified name)) [
    | inl e ↦ absurd (cc (sym (ap is_none e) ∙ h))
    | inr ((s, t), e) ↦ (s, t, (split_qualified_iff name s t).0 e)
  ]),
  (λ (s, t, q). ap is_none ((split_qualified_iff name s t).1 q)),
)

pub valid_mode_iff :
    (m : Bytes)
    → (valid_mode m ≡ true)
      ↔ ((m ≡ table_mode_full) ⊎ ((m ≡ table_mode_skip) ⊎ (m ≡ table_mode_skip_data)))
unfolding valid_mode
valid_mode_iff m = (
  (λ h. elim (Bool-cases (m =? table_mode_full)) [
    | inl e ↦ inl ((=?_iff m _).0 e)
    | inr e ↦ elim (Bool-cases (m =? table_mode_skip)) [
      | inl e' ↦ inr (inl ((=?_iff m _).0 e'))
      | inr e' ↦ inr (inr ((=?_iff m _).0 (ground (arith, h, e, e'))))
    ]
  ]),
  (λ h. elim h [
    | inl e ↦ ground (arith, (=?_iff m _).1 e)
    | inr (inl e) ↦ ground (arith, (=?_iff m _).1 e)
    | inr (inr e) ↦ ground (arith, (=?_iff m _).1 e)
  ]),
)

is_none_iff {ℓ} : {A : Type ℓ} (o : Option A) → (is_none o ≡ true) ↔ (o ≡ none)
is_none_iff none = ((λ h. refl), (λ h. refl))
is_none_iff (some a) = ((λ h. cc), (λ h. cc))

pub not-false : (b : Bool) → not b ≡ false → b ≡ true
not-false b h = ground arith

pub skip_errors_iff :
    (name : Bytes) (tc : TableConfig)
    → (skip_errors name tc ≡ [])
      ↔ ((skips_data tc.mode ≡ true) → (tc.filter ≡ []) × (tc.columns ≡ []) × (tc.tail_rows ≡ none))
unfolding skip_errors
skip_errors_iff name tc = elim (Bool-cases (skips_data tc.mode)) [
  | inr no_skip ↦ rw no_skip ((λ h k. cc), (λ h. refl))
  | inl skip ↦ rw skip (
    (λ h _.
        let (a, more) = nil_of_append (report (not (is_empty tc.filter)) _) _ h in
        let (b, d) = nil_of_append (report (not (is_empty tc.columns)) _) _ more in
        (
          (is_empty_iff _).0 (not-false _ ((report_iff _ _).0 a)),
          (is_empty_iff _).0 (not-false _ ((report_iff _ _).0 b)),
          (is_none_iff _).0 (not-false _ ((report_iff _ _).0 d)),
        )),
    (λ h.
        let (a, b, d) = h refl in
        append_nil _ _ ((report_iff _ _).1 (ap (λ l. not (is_empty l)) a)) (
          append_nil _ _ ((report_iff _ _).1 (ap (λ l. not (is_empty l)) b))
            ((report_iff _ _).1 (ap (λ o. not (is_none o)) d)))),
  )
]

pub tail_errors_iff :
    (name : Bytes) (tc : TableConfig) (o : Option ℤ)
    → (tail_errors name tc o ≡ []) ↔ (
        ((n : ℤ) → o ≡ some n → (pos 1 ≤ℤ n) × (tc.filter ≡ []))
        × (o ≡ none → tc.tail_report_column ≡ []))
unfolding tail_errors
tail_errors_iff name tc none = (
  (λ h. ((λ n e. cc), λ _. (is_empty_iff _).0 (not-false _ ((report_iff _ _).0 h)))),
  λ h. (report_iff _ _).1 (ap (λ l. not (is_empty l)) (h.1 refl)),
)
tail_errors_iff name tc (some n) = (
  (λ h.
      let (a, b) = nil_of_append (report (ltb_ℤ n (pos 1)) _) _ h in
      (
        (λ m e. (
          ground (arith, (report_iff _ _).0 a, e),
          (is_empty_iff _).0 (not-false _ ((report_iff _ _).0 b)),
        )),
        λ e. cc,
      )),
  λ h.
      let (low, nil) = h.0 n refl in
      append_nil _ _ ((report_iff _ _).1 (ground arith))
        ((report_iff _ _).1 (ap (λ l. not (is_empty l)) nil)),
)
