-- ===== src/Schema/Selects.antt =====
-- parser.yy: which CUSTOM-SELECTs the validation takes.
use sqlite3gen.Base.{
  ℕ, ◌+◌, if◌then◌else◌, ◌≡◌, refl, ◌∙◌, ap, Bool, true, false, not, ◌&&◌, ◌||◌, none, some, List,
  [], ◌∷◌, arith, Bool-cases, inl, inr, ◌==◌, length,
}
use sqlite3gen.Base.Text.{Text, codes, text_eq}
use sqlite3gen.Base.Result.{
  after_found, require_last, is_ok_after, found_some, require_value, map_value, Result, and_then,
  ok_or, is_ok, is_ok-ok_or, all, any,
}
use sqlite3gen.Schema.{FieldDef, TableDef, CustomSelect, SchemaDef, is_table, is_field}
use sqlite3gen.Schema.Words.{split_dot}
use sqlite3gen.Schema.Validate.{
  SchemaError, select_table_unknown, select_empty, is_empty, SelectLinks, count_questions,
  select_field, select_fields, select_tables, select_from, validate_select, validate_selects,
}
use sqlite3gen.Schema.Tables.{
  is_some-find_from, has_column, with_table, with_table_lem, is_empty_lem,
}

-- The texts before and behind the first dot of a text that has one.
abbrev pub before_dot : Text → Text
before_dot [] = []
before_dot (c ∷ cs) = if c == 46 then [] else c ∷ before_dot cs

abbrev pub behind_dot : Text → Text
behind_dot [] = []
behind_dot (c ∷ cs) = if c == 46 then cs else behind_dot cs

abbrev pub dotted : Text → Bool
dotted = any (λ c. c == 46)

split_dot_lem :
    (w : Text) → split_dot w ≡ (if dotted w then some (before_dot w, behind_dot w) else none)
unfolding split_dot
split_dot_lem [] = refl
split_dot_lem (c ∷ cs) = elim (Bool-cases (c == 46)) [
  | inl e ↦ rw e refl
  | inr e ↦
      rw (e, split_dot_lem cs)
        (elim (Bool-cases (dotted cs)) [ inl d ↦ rw d refl | inr d ↦ rw d refl ])
]

-- A word of a CUSTOM-SELECT is `table.column`, or `table.rowid`, of the first table of that name.
abbrev pub word_valid : SchemaDef → Text → Bool
word_valid sd w =
    dotted w
    && with_table (before_dot w)
        (λ tb. text_eq (behind_dot w) (codes "rowid") || has_column tb (behind_dot w)) sd.tables

word_valid_lem :
    (sd : SchemaDef) (w : Text)
    → elim (split_dot w) [
      | none ↦ false
      | some (table, field) ↦
          with_table table (λ tb. text_eq field (codes "rowid") || has_column tb field) sd.tables
    ]
      ≡ word_valid sd w
word_valid_lem sd w =
    rw (split_dot_lem w) (elim (Bool-cases (dotted w)) [ inl d ↦ rw d refl | inr d ↦ rw d refl ])

-- A table has the name.
abbrev pub has_table : SchemaDef → Text → Bool
has_table sd w = any (λ (tb : TableDef). text_eq tb.name w) sd.tables

-- The count of the `?` of a text.
abbrev pub question_marks : Text → ℕ
question_marks [] = 0
question_marks (c ∷ cs) = (if c == 63 then 1 else 0) + question_marks cs

abbrev pub statement_of : CustomSelect → Text
statement_of csel = elim csel.table_names [ [] ↦ csel.full_statement | w ∷ ws ↦ csel.where_clause ]

abbrev pub select_valid : SchemaDef → CustomSelect → Bool
select_valid sd csel =
    all (word_valid sd) csel.field_names
    && all (has_table sd) csel.table_names
    && (elim csel.table_names [ [] ↦ not (text_eq csel.full_statement []) | w ∷ ws ↦ true ])
    && (question_marks (statement_of csel) == length csel.types)

count_questions_lem : (t : Text) → count_questions t ≡ question_marks t
unfolding count_questions
count_questions_lem [] = refl
count_questions_lem (c ∷ cs) = ground (arith, count_questions_lem cs)

select_field_lem :
    (sd : SchemaDef) (csel : CustomSelect) (w : Text)
    → is_ok (select_field sd csel w) ≡ word_valid sd w
unfolding select_field is_field is_table
select_field_lem sd csel w =
    after_found (split_dot w) _ _
      (λ (table, field).
        with_table table (λ tb. text_eq field (codes "rowid") || has_column tb field) sd.tables)
      (λ (table, field).
        after_found (is_table sd table) _ _
          (λ r. text_eq field (codes "rowid") || has_column r.1 field)
          (λ (t, tb). elim (Bool-cases (text_eq field (codes "rowid"))) [
            | inl rowid ↦ rw rowid refl
            | inr column ↦ rw column (
                after_found (is_field tb field) _ _ (λ _. true) (λ _. refl)
                ∙ found_some (is_field tb field)
                ∙ is_some-find_from (λ (f : FieldDef). text_eq field f.name) 0 tb.fields)
          ])
        ∙ with_table_lem table (λ tb. text_eq field (codes "rowid") || has_column tb field) 0
            sd.tables)
    ∙ word_valid_lem sd w

select_fields_lem :
    (sd : SchemaDef) (csel : CustomSelect) (ws : List Text)
    → is_ok (select_fields sd csel ws) ≡ all (word_valid sd) ws
unfolding select_fields
select_fields_lem sd csel [] = refl
select_fields_lem sd csel (w ∷ ws) =
    is_ok_after (select_field sd csel w) _ _
      (λ ptr. is_ok_after (select_fields sd csel ws) _ true (λ ptrs. refl))
    ∙ ground (arith, select_field_lem sd csel w, select_fields_lem sd csel ws)

select_tables_lem :
    (sd : SchemaDef) (csel : CustomSelect) (ws : List Text)
    → is_ok (select_tables sd csel ws) ≡ all (has_table sd) ws
unfolding select_tables is_table
select_tables_lem sd csel [] = refl
select_tables_lem sd csel (w ∷ ws) =
    is_ok_after (ok_or (is_table sd w) _) _ _
      (λ t. is_ok_after (select_tables sd csel ws) _ true (λ ptrs. refl) ∙ ground arith)
    ∙ ap (λ (b : Bool). b && is_ok (select_tables sd csel ws))
        (is_ok-ok_or (is_table sd w) (select_table_unknown csel.name w))
    ∙ ap (λ (b : Bool). b && is_ok (select_tables sd csel ws))
        (is_some-find_from (λ (tb : TableDef). text_eq tb.name w) 0 sd.tables)
    ∙ ap (λ (b : Bool). has_table sd w && b) (select_tables_lem sd csel ws)

-- The statement, of either form, and the count of its question marks.
select_from_lem :
    (sd : SchemaDef) (csel : CustomSelect) (names : List Text)
    (f : List ℕ × ℕ → Result SchemaError SelectLinks) (test : ℕ → Bool)
    → ((p : List ℕ × ℕ) → is_ok (f p) ≡ test p.1)
    → is_ok (and_then (select_from sd (record csel { table_names = names })) f) ≡ (
        all (has_table sd) names
        && (elim names [ [] ↦ not (text_eq csel.full_statement []) | w ∷ ws ↦ true ])
        && test (count_questions (statement_of (record csel { table_names = names }))))
unfolding select_from
select_from_lem sd csel [] f test h = rw (is_empty_lem csel.full_statement) (
    require_value (not (is_empty csel.full_statement)) select_empty
      ([], count_questions csel.full_statement) f
    ∙ ap (λ (b : Bool). not (is_empty csel.full_statement) && b)
        (h ([], count_questions csel.full_statement)))
select_from_lem sd csel (w ∷ ws) f test h =
    map_value (select_tables sd (record csel { table_names = w ∷ ws }) (w ∷ ws))
      (λ ptrs. (ptrs, count_questions csel.where_clause)) f _
      (λ ptrs. h (ptrs, count_questions csel.where_clause))
    ∙ ap (λ (b : Bool). b && test (count_questions csel.where_clause))
        (select_tables_lem sd (record csel { table_names = w ∷ ws }) (w ∷ ws))
    ∙ ground arith

-- The statement has as many question marks as the call has arguments.
validate_select_lem :
    (sd : SchemaDef) (csel : CustomSelect) → is_ok (validate_select sd csel) ≡ select_valid sd csel
unfolding validate_select
validate_select_lem sd csel =
    is_ok_after (select_fields sd csel csel.field_names) _ _ (λ ptrs.
      select_from_lem sd csel csel.table_names _ (λ n. n == length csel.types)
        (λ p. require_last _ _ _))
    ∙ ground
        (arith, select_fields_lem sd csel csel.field_names, count_questions_lem (statement_of csel))

pub validate_selects_lem :
    (sd : SchemaDef) (csels : List CustomSelect)
    → is_ok (validate_selects sd csels) ≡ all (select_valid sd) csels
unfolding validate_selects
validate_selects_lem sd [] = refl
validate_selects_lem sd (csel ∷ csels) =
    is_ok_after (validate_select sd csel) _ _
      (λ links. is_ok_after (validate_selects sd csels) _ true (λ rest. refl))
    ∙ ground (arith, validate_select_lem sd csel, validate_selects_lem sd csels)
