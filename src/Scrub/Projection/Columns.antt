-- ===== src/Scrub/Projection/Columns.antt =====
-- What the loop over the columns builds, against a description of each column by itself.
use mathlib.Core.Option.{some-injective}
use pg_snapshot.Base.{◌≡◌, refl, sym, ◌∙◌, ap, ◌≢◌, true, false, not, ◌||◌, List, [], ◌∷◌, ◌++◌}
use pg_snapshot.Base.{
  Option, none, some, arith, if◌then◌else◌, All, Bool-cases, inl, inr, map, keep,
}
use pg_snapshot.Base.{Option-cases, append-nil, append_assoc, ◌&&◌, is_some}
use pg_snapshot.Base.Bytes.{Bytes, ◌=?◌, =?_sound}
use pg_snapshot.Base.Dict.{Dict, lookup, put, contains, lookup-put}
use pg_snapshot.Catalog.{Column}
use pg_snapshot.Scrub.Transform.{Rendered, expr, refused}
use pg_snapshot.Scrub.Projection.{ColumnPlan, add_column, add_columns, add_rule, render_transform}
use pg_snapshot.Scrub.Projection.{aliased, bad_transform, PlanError, add_rendered}

-- The columns that COPY takes, in the table's order.
abbrev pub exported : List Column → List Column
exported cols = keep (λ col. not col.generated) cols

abbrev pub column_names : List Column → List Bytes
column_names = map (λ col. col.name)

abbrev pub text_of : Rendered → Bytes
text_of (expr e) = e
text_of (refused x) = []

module _ (quote_identifier quote_literal : Bytes → Bytes) (rules : Dict Bytes) (salt : Bytes) where
  -- The item of one column in the SELECT list: its name, or its rule's expression under its name.
  pub select_of : Column → Bytes
  select_of col = elim (lookup col.name rules) [
    | none ↦ quote_identifier col.name
    | some transform ↦
        aliased quote_identifier quote_literal
          (text_of (render_transform quote_identifier quote_literal col transform salt)) col.name
  ]

  -- The column's rule, if it has one, can be rendered.
  pub IsRendered : Column → Type 0
  IsRendered col =
      (transform : Bytes)
      → lookup col.name rules ≡ some transform
      → (e : Bytes) × (render_transform quote_identifier quote_literal col transform salt ≡ expr e)

  abbrev step : Column → ColumnPlan → ColumnPlan
  step = add_column quote_identifier quote_literal rules salt

  abbrev loop : List Column → ColumnPlan → ColumnPlan
  loop = add_columns quote_identifier quote_literal rules salt

  -- The four things that one round may do.
  data StepCase (col : Column) (s : ColumnPlan) : Type 0 where
    hidden : col.generated ≡ true → step col s ≡ s → StepCase col s
    plain :
        col.generated ≡ false
        → lookup col.name rules ≡ none
        → step col s ≡ record s {
          names = s.names ++ col.name ∷ [];
          selects = s.selects ++ quote_identifier col.name ∷ [];
        }
        → StepCase col s
    ruled :
        (t e : Bytes)
        → col.generated ≡ false
        → lookup col.name rules ≡ some t
        → render_transform quote_identifier quote_literal col t salt ≡ expr e
        → step col s ≡ record s {
          names = s.names ++ col.name ∷ [];
          transforms = put col.name t s.transforms;
          selects = s.selects ++ aliased quote_identifier quote_literal e col.name ∷ [];
        }
        → StepCase col s
    failed :
        (x : PlanError)
        → col.generated ≡ false
        → step col s ≡ record s { names = s.names ++ col.name ∷ []; errs = s.errs ++ x ∷ [] }
        → StepCase col s

  abbrev named : Column → ColumnPlan → ColumnPlan
  named col s = record s { names = s.names ++ col.name ∷ [] }

  step_shown :
      (col : Column) (s : ColumnPlan) (o : Option Bytes)
      → col.generated ≡ false
      → lookup col.name rules ≡ o
      → step col s ≡ add_rule quote_identifier quote_literal salt col o (named col s)
  unfolding add_column
  step_shown col s o g e =
      ap
        (λ b.
          if b
          then s
          else add_rule quote_identifier quote_literal salt col (lookup col.name rules)
              (named col s))
        g
      ∙ ap (λ r. add_rule quote_identifier quote_literal salt col r (named col s)) e

  step-cases : (col : Column) (s : ColumnPlan) → StepCase col s
  unfolding add_column add_rule
  step-cases col s = elim (Bool-cases col.generated) [
    | inl g ↦ hidden g (rw g)
    | inr g ↦ elim (Option-cases (lookup col.name rules)) [
      | inl free ↦ plain g free (step_shown col s none g free)
      | inr (t, e) ↦ from t g e (render_transform quote_identifier quote_literal col t salt) refl
    ]
  ]
    where
      from :
          (t : Bytes)
          → col.generated ≡ false
          → lookup col.name rules ≡ some t
          → (r : Rendered) → render_transform quote_identifier quote_literal col t salt ≡ r
          → StepCase col s
      from t g e (expr out) is = ruled t out g e is (
          step_shown col s (some t) g e
          ∙ ap (λ r. add_rendered quote_identifier quote_literal col t r (named col s)) is)
      from t g e (refused x) is = failed (bad_transform col.name x) g (
          step_shown col s (some t) g e
          ∙ ap (λ r. add_rendered quote_identifier quote_literal col t r (named col s)) is)

  exported_hidden :
      (col : Column) (cols : List Column)
      → col.generated ≡ true
      → exported (col ∷ cols) ≡ exported cols
  exported_hidden col cols g = rw g

  exported_shown :
      (col : Column) (cols : List Column)
      → col.generated ≡ false
      → exported (col ∷ cols) ≡ col ∷ exported cols
  exported_shown col cols g = rw g

  step-names :
      (col : Column) (cols : List Column) (s : ColumnPlan)
      → (step col s).names ++ column_names (exported cols)
        ≡ s.names ++ column_names (exported (col ∷ cols))
  step-names col cols s = elim (step-cases col s) [
    | hidden g e ↦ rw (e, exported_hidden col cols g) refl
    | plain g _ e ↦ rw (e, exported_shown col cols g) (append_assoc s.names (col.name ∷ []) _)
    | ruled t out g _ _ e ↦
        rw (e, exported_shown col cols g) (append_assoc s.names (col.name ∷ []) _)
    | failed x g e ↦ rw (e, exported_shown col cols g) (append_assoc s.names (col.name ∷ []) _)
  ]

  pub add_columns-names :
      (cols : List Column) (s : ColumnPlan)
      → (loop cols s).names ≡ s.names ++ column_names (exported cols)
  unfolding add_columns
  add_columns-names [] s = sym (append-nil s.names)
  add_columns-names (col ∷ cols) s = add_columns-names cols (step col s) ∙ step-names col cols s

  concat_nil {ℓ} : {A : Type ℓ} (xs : List A) (x : A) → xs ++ x ∷ [] ≢ []
  concat_nil [] x h = cc
  concat_nil (y ∷ xs) x h = cc

  -- Problems are never forgotten.
  step-errs : (col : Column) (s : ColumnPlan) → (step col s).errs ≡ [] → s.errs ≡ []
  step-errs col s h = elim (step-cases col s) [
    | hidden g e ↦ sym (ap (λ r. r.errs) e) ∙ h
    | plain g _ e ↦ sym (ap (λ r. r.errs) e) ∙ h
    | ruled t out g _ _ e ↦ sym (ap (λ r. r.errs) e) ∙ h
    | failed x g e ↦ absurd (concat_nil s.errs x (sym (ap (λ r. r.errs) e) ∙ h))
  ]

  pub add_columns-errs :
      (cols : List Column) (s : ColumnPlan) → (loop cols s).errs ≡ [] → s.errs ≡ []
  unfolding add_columns
  add_columns-errs [] s h = h
  add_columns-errs (col ∷ cols) s h = step-errs col s (add_columns-errs cols (step col s) h)

  -- What a round without a new problem adds to the SELECT list.
  step-selects :
      (col : Column) (cols : List Column) (s : ColumnPlan)
      → (step col s).errs ≡ []
      → (step col s).selects ++ map select_of (exported cols)
        ≡ s.selects ++ map select_of (exported (col ∷ cols))
  unfolding select_of
  step-selects col cols s h = elim (step-cases col s) [
    | hidden g e ↦
        rw (exported_hidden col cols g) (ap (λ r. r.selects ++ map select_of (exported cols)) e)
    | plain g free e ↦ rw (exported_shown col cols g) (
        ap (λ r. r.selects ++ map select_of (exported cols)) e
        ∙ append_assoc s.selects _ _
        ∙ ap (λ i. s.selects ++ i ∷ map select_of (exported cols)) (rw (free, select_of) refl))
    | ruled t out g found is e ↦ rw (exported_shown col cols g) (
        ap (λ r. r.selects ++ map select_of (exported cols)) e
        ∙ append_assoc s.selects _ _
        ∙ ap (λ i. s.selects ++ i ∷ map select_of (exported cols))
            (rw (found, select_of) (rw is refl)))
    | failed x g e ↦ absurd (concat_nil s.errs x (sym (ap (λ r. r.errs) e) ∙ h))
  ]

  -- A round without a new problem had a rule that could be rendered, or none.
  step-IsRendered :
      (col : Column) (s : ColumnPlan)
      → (step col s).errs ≡ []
      → col.generated ≡ false
      → IsRendered col
  unfolding IsRendered
  step-IsRendered col s h shown t found = elim (step-cases col s) [
    | hidden g e ↦ absurd (cc (sym g ∙ shown))
    | plain g free e ↦ absurd (cc (sym free ∙ found))
    | ruled t' out g found' is e ↦ (
      out,
      ground (
        arith,
        found,
        found',
        ap (λ r. render_transform quote_identifier quote_literal col r salt)
            (some-injective t' t (sym found' ∙ found)),
        is,
      ),
    )
    | failed x g e ↦ absurd (concat_nil s.errs x (sym (ap (λ r. r.errs) e) ∙ h))
  ]

  -- The rules that a round records.
  step-transforms :
      (col : Column) (s : ColumnPlan) (n : Bytes)
      → (step col s).errs ≡ []
      → lookup n (step col s).transforms ≡ (
          if not col.generated && (col.name =? n && is_some (lookup n rules))
          then lookup n rules
          else lookup n s.transforms)
  step-transforms col s n h = elim (step-cases col s) [
    | hidden g e ↦ ap (λ r. lookup n r.transforms) e ∙ ground (arith, g)
    | plain g free e ↦
        ap (λ r. lookup n r.transforms) e
        ∙ ground (arith, g, free, =?_sound col.name n, at_name free)
    | ruled t out g found is e ↦
        ap (λ r. lookup n r.transforms) e
        ∙ lookup-put col.name n t s.transforms
        ∙ ground (arith, g, found, at_name found)
    | failed x g e ↦ absurd (concat_nil s.errs x (sym (ap (λ r. r.errs) e) ∙ h))
  ]
    where
      at_name :
          {o : Option Bytes} → lookup col.name rules ≡ o → col.name =? n ≡ true → lookup n rules ≡ o
      at_name e same = sym (ap (λ k. lookup k rules) (=?_sound col.name n same)) ∙ e

  pub add_columns-selects :
      (cols : List Column) (s : ColumnPlan)
      → (loop cols s).errs ≡ []
      → (loop cols s).selects ≡ s.selects ++ map select_of (exported cols)
  unfolding add_columns
  add_columns-selects [] s h = sym (append-nil s.selects)
  add_columns-selects (col ∷ cols) s h =
      add_columns-selects cols (step col s) h
      ∙ step-selects col cols s (add_columns-errs cols (step col s) h)

  pub add_columns-IsRendered :
      (cols : List Column) (s : ColumnPlan)
      → (loop cols s).errs ≡ []
      → All IsRendered (exported cols)
  unfolding add_columns
  add_columns-IsRendered [] s h = tt
  add_columns-IsRendered (col ∷ cols) s h = elim (Bool-cases col.generated) [
    | inl g ↦ rw (exported_hidden col cols g) (add_columns-IsRendered cols (step col s) h)
    | inr g ↦ rw (exported_shown col cols g) (
      step-IsRendered col s (add_columns-errs cols (step col s) h) g,
      add_columns-IsRendered cols (step col s) h,
    )
  ]

  contains-exported :
      (n : Bytes) (col : Column) (cols : List Column)
      → contains n (column_names (exported (col ∷ cols)))
        ≡ ((not col.generated && col.name =? n) || contains n (column_names (exported cols)))
  unfolding contains
  contains-exported n col cols = ground arith

  pub add_columns-transforms :
      (cols : List Column) (s : ColumnPlan) (n : Bytes)
      → (loop cols s).errs ≡ []
      → lookup n (loop cols s).transforms ≡ (
          if contains n (column_names (exported cols)) && is_some (lookup n rules)
          then lookup n rules
          else lookup n s.transforms)
  unfolding add_columns contains
  add_columns-transforms [] s n h = refl
  add_columns-transforms (col ∷ cols) s n h =
      let e = contains-exported n col cols in
      add_columns-transforms cols (step col s) n h
      ∙ ground (arith, step-transforms col s n (add_columns-errs cols (step col s) h), e)
