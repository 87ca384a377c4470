-- ===== src/Scrub/Config/Validate.antt =====
-- `Validate` reports nothing exactly for the configurations that `IsValid` describes.
use pg_snapshot.Base.{◌≡◌, refl, sym, ◌∙◌, ap, ◌≢◌, true, false, not, [], ◌∷◌}
use pg_snapshot.Base.{some, arith, All, Bool-cases, inl, inr, ◌↔◌, ◌⊎◌}
use pg_snapshot.Base.{is_some, Option-cases}
use pg_snapshot.Base.Int.{ℤ, pos, negsuc, eq_ℤ}
use pg_snapshot.Base.Bytes.{Bytes, ◌=?◌, =?_iff, trim_space}
use pg_snapshot.Base.Sort.{sort}
use pg_snapshot.Base.Dict.{Dict, lookup, sorted_keys, keys, is_some-lookup, contains-sort}
use pg_snapshot.Base.Dict.{All_of_contains, All-intro}
use pg_snapshot.Scrub.Config.{Config, TableConfig, config_version}
use pg_snapshot.Scrub.Config.{fk_mode_validate}
use pg_snapshot.Scrub.Config.{fk_mode_not_valid, report, is_empty, is_none}
use pg_snapshot.Scrub.Config.{split_qualified, valid_mode, valid_fk_mode, skip_errors, tail_errors}
use pg_snapshot.Scrub.Config.{table_errors, config_at, validate}
use pg_snapshot.Scrub.Config.{blank}
use pg_snapshot.Scrub.Config.Valid.{IsValidTable, IsValid, append_nil, nil_of_append, report_iff}
use pg_snapshot.Scrub.Config.Valid.{skips_data_iff, transform_errors_iff, all_table_errors_iff}
use pg_snapshot.Scrub.Config.Valid.{named_iff, valid_mode_iff, not-false, skip_errors_iff}
use pg_snapshot.Scrub.Config.Valid.{tail_errors_iff, is_empty_iff}

-- No rule is blank.
rules_iff :
    (rules : Dict Bytes)
    → All (λ col. blank (lookup col rules) ≡ false) (sorted_keys rules)
      ↔ ((col t : Bytes) → lookup col rules ≡ some t → trim_space t ≢ [])
unfolding sorted_keys blank
rules_iff rules = (
  (λ h col t e nil.
      let there = contains-sort col (keys rules) ∙ sym (is_some-lookup col rules) ∙ ap is_some e in
      cc (
        sym (All_of_contains _ col (sort (keys rules)) h there)
        ∙ ap blank e
        ∙ (is_empty_iff (trim_space t)).1 nil)),
  λ h. All-intro _ (sort (keys rules)) λ col there. elim (Option-cases (lookup col rules)) [
    | inl gone ↦ absurd (
        cc (
          sym (ap is_some gone)
          ∙ is_some-lookup col rules
          ∙ sym (contains-sort col (keys rules))
          ∙ there))
    | inr (t, e) ↦ ap blank e ∙ full (trim_space t) (h col t e)
  ],
)
  where
    full : (s : Bytes) → s ≢ [] → is_empty s ≡ false
    full [] h = absurd (h refl)
    full (x ∷ s) h = refl

table_errors_iff :
    (name : Bytes) (tc : TableConfig) → (table_errors name tc ≡ []) ↔ IsValidTable name tc
unfolding table_errors
table_errors_iff name tc = (there, back)
  where
    there : table_errors name tc ≡ [] → IsValidTable name tc
    there h =
        let (a, h₁) = nil_of_append (report (is_none (split_qualified name)) _) _ h in
        let (b, h₂) = nil_of_append (report (not (valid_mode tc.mode)) _) _ h₁ in
        let (d, h₃) = nil_of_append (skip_errors name tc) _ h₂ in
        let (e, f) = nil_of_append (tail_errors name tc tc.tail_rows) _ h₃ in
        let t = (tail_errors_iff name tc tc.tail_rows).0 e in
        record {
          named = (named_iff name).0 ((report_iff _ _).0 a);
          known = (valid_mode_iff tc.mode).0 (not-false _ ((report_iff _ _).0 b));
          rows = λ k. (skip_errors_iff name tc).0 d ((skips_data_iff tc.mode).1 k);
          tail = t.0;
          reported = t.1;
          rules = (rules_iff tc.columns).0 ((transform_errors_iff name tc.columns _).0 f);
        }

    back : IsValidTable name tc → table_errors name tc ≡ []
    back v = append_nil _ _ ((report_iff _ _).1 ((named_iff name).1 v.named)) (
        append_nil _ _ ((report_iff _ _).1 (ap not ((valid_mode_iff tc.mode).1 v.known))) (
          append_nil _ _ ((skip_errors_iff name tc).1 (λ k. v.rows ((skips_data_iff tc.mode).0 k)))
            (append_nil _ _ ((tail_errors_iff name tc tc.tail_rows).1 (v.tail, v.reported))
              ((transform_errors_iff name tc.columns _).1 ((rules_iff tc.columns).1 v.rules)))))

valid_fk_mode_iff :
    (m : Bytes) → (valid_fk_mode m ≡ true) ↔ ((m ≡ fk_mode_validate) ⊎ (m ≡ fk_mode_not_valid))
unfolding valid_fk_mode
valid_fk_mode_iff m = (
  (λ h. elim (Bool-cases (m =? fk_mode_validate)) [
    | inl e ↦ inl ((=?_iff m _).0 e)
    | inr e ↦ inr ((=?_iff m _).0 (ground (arith, h, e)))
  ]),
  (λ h. elim h [
    | inl e ↦ ground (arith, (=?_iff m _).1 e)
    | inr e ↦ ground (arith, (=?_iff m _).1 e)
  ]),
)

config_at_lem :
    (tables : Dict TableConfig) (name : Bytes) (tc : TableConfig)
    → lookup name tables ≡ some tc
    → config_at tables name ≡ tc
unfolding config_at
config_at_lem tables name tc e = rw (e, config_at)

-- Every table of the configuration is valid.
tables_iff :
    (tables : Dict TableConfig)
    → All (λ name. table_errors name (config_at tables name) ≡ []) (sorted_keys tables)
      ↔ ((name : Bytes) (tc : TableConfig) → lookup name tables ≡ some tc → IsValidTable name tc)
unfolding sorted_keys
tables_iff tables = (
  (λ h name tc e.
      let there =
        contains-sort name (keys tables) ∙ sym (is_some-lookup name tables) ∙ ap is_some e in
      (table_errors_iff name tc).0 (
        sym (ap (table_errors name) (config_at_lem tables name tc e))
        ∙ All_of_contains _ name (sort (keys tables)) h there)),
  λ h. All-intro _ (sort (keys tables)) λ name there. elim (Option-cases (lookup name tables)) [
    | inl gone ↦ absurd (
        cc (
          sym (ap is_some gone)
          ∙ is_some-lookup name tables
          ∙ sym (contains-sort name (keys tables))
          ∙ there))
    | inr (tc, e) ↦
        ap (table_errors name) (config_at_lem tables name tc e)
        ∙ (table_errors_iff name tc).1 (h name tc e)
  ],
)

eq_ℤ_iff : (a b : ℤ) → (eq_ℤ a b ≡ true) ↔ (a ≡ b)
eq_ℤ_iff a b = (sound a b, λ e. ground (arith, e))
  where
    sound : (a b : ℤ) → eq_ℤ a b ≡ true → a ≡ b
    sound (pos m) (pos n) h = ground arith
    sound (pos m) (negsuc n) h = absurd (ground arith)
    sound (negsuc m) (pos n) h = absurd (ground arith)
    sound (negsuc m) (negsuc n) h = ground arith

-- `Validate` accepts a configuration exactly when its version is 1, its foreign-key mode is one of
-- the two, and every table's rule is valid on its own.
pub validate_iff : (c : Config) → (validate c ≡ []) ↔ IsValid c
unfolding validate
validate_iff c = (
  (λ h.
      let (a, h₁) = nil_of_append (report (not (eq_ℤ c.version config_version)) _) _ h in
      let (b, d) = nil_of_append (report (not (valid_fk_mode c.fk_mode)) _) _ h₁ in
      record {
        version = (eq_ℤ_iff _ _).0 (not-false _ ((report_iff _ _).0 a));
        fk_mode = (valid_fk_mode_iff _).0 (not-false _ ((report_iff _ _).0 b));
        tables = (tables_iff c.tables).0 ((all_table_errors_iff c.tables _).0 d);
      }),
  λ v. append_nil _ _ ((report_iff _ _).1 (ap not ((eq_ℤ_iff _ _).1 v.version))) (
      append_nil _ _ ((report_iff _ _).1 (ap not ((valid_fk_mode_iff _).1 v.fk_mode)))
        ((all_table_errors_iff c.tables _).1 ((tables_iff c.tables).1 v.tables))),
)
