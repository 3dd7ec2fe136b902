-- ===== src/Schema/Links.antt =====
-- parser.yy: the references of a schema, and the schemas that `validate_schema` takes.
use sqlite3gen.Base.{
  ℕ, suc, ◌≡◌, refl, ◌∙◌, ap, sym, Bool, true, false, not, ◌&&◌, ◌||◌, none, some, List, [], ◌∷◌,
  arith, if◌then◌else◌, Bool-cases, inl, inr,
}
use sqlite3gen.Base.Text.{Text, text_eq}
use sqlite3gen.Base.Result.{
  after_found, require_last, is_ok_after, is_ok, is_ok-and_then, is_ok-require, any, all,
}
use sqlite3gen.Schema.{FieldDef, TableDef, SchemaDef, find_from, is_table}
use sqlite3gen.Schema.Validate.{
  Marks, validate_table, check_foreign, check_subtable, link_fields, validate_tables,
  validate_selects, validate_schema,
}
use sqlite3gen.Schema.Selects.{select_valid, validate_selects_lem}
use sqlite3gen.Schema.Tables.{
  is_some-find_from, with_table, with_table_lem, table_valid, validate_table_lem,
}

-- A FOREIGN names a table, and a column of it.
abbrev pub foreign_valid : SchemaDef → FieldDef → Bool
foreign_valid sd fd =
    not fd.attrs.foreign
    || with_table fd.attrs.foreign_table
        (λ tb. any (λ (f : FieldDef). text_eq f.name fd.attrs.foreign_field) tb.fields) sd.tables

-- The first field that refers to the table `name` has QUERY.
abbrev pub first_reference_query : Text → List FieldDef → Bool
first_reference_query name [] = false
first_reference_query name (fd ∷ fds) =
    if fd.attrs.foreign && text_eq fd.attrs.foreign_table name
    then fd.attrs.query
    else first_reference_query name fds

-- A SUBTABLE is named like a table, which refers back with a FOREIGN that has QUERY.
abbrev pub subtable_valid : SchemaDef → TableDef → FieldDef → Bool
subtable_valid sd tb fd =
    not fd.attrs.subtable
    || with_table fd.name (λ tb2. first_reference_query tb.name tb2.fields) sd.tables

abbrev pub references_valid : SchemaDef → TableDef → Bool
references_valid sd tb = all (λ fd. foreign_valid sd fd && subtable_valid sd tb fd) tb.fields

check_foreign_lem :
    (sd : SchemaDef) (tb : TableDef) (fd : FieldDef)
    → is_ok (check_foreign sd tb fd) ≡ foreign_valid sd fd
unfolding check_foreign is_table
check_foreign_lem sd tb fd = elim (Bool-cases fd.attrs.foreign) [
  | inr e ↦ rw e refl
  | inl e ↦ rw e (
      after_found (is_table sd fd.attrs.foreign_table) _ _
        (λ r. any (λ (f : FieldDef). text_eq f.name fd.attrs.foreign_field) r.1.fields)
        (λ (t, tb2).
          is_ok-require _ _
          ∙ is_some-find_from (λ (f : FieldDef). text_eq f.name fd.attrs.foreign_field) 0
              tb2.fields)
      ∙ with_table_lem fd.attrs.foreign_table
          (λ tb2. any (λ (f : FieldDef). text_eq f.name fd.attrs.foreign_field) tb2.fields) 0
          sd.tables)
]

-- The search for a reference to `name`, and the test of its QUERY.
reference_lem :
    (name : Text) (i : ℕ) (fds : List FieldDef)
    → first_reference_query name fds
      ≡ elim (find_from
          (λ (fd2 : FieldDef). fd2.attrs.foreign && text_eq fd2.attrs.foreign_table name)
          i
          fds) [ none ↦ false | some (f, fd) ↦ fd.attrs.query ]
unfolding find_from
reference_lem name i [] = refl
reference_lem name i (fd ∷ fds) =
    elim (Bool-cases (fd.attrs.foreign && text_eq fd.attrs.foreign_table name)) [
      | inl e ↦ rw e refl
      | inr e ↦ rw e (reference_lem name (suc i) fds)
    ]

check_subtable_lem :
    (sd : SchemaDef) (ti : ℕ) (tb : TableDef) (fi : ℕ) (fd : FieldDef) (marks : Marks)
    → is_ok (check_subtable sd ti tb fi fd marks) ≡ subtable_valid sd tb fd
unfolding check_subtable is_table
check_subtable_lem sd ti tb fi fd marks = elim (Bool-cases fd.attrs.subtable) [
  | inr e ↦ rw e refl
  | inl e ↦ rw e (
      after_found (is_table sd fd.name) _ _ (λ r. first_reference_query tb.name r.1.fields)
        (λ (t, tb2).
          after_found _ _ _ (λ (r : ℕ × FieldDef). r.1.attrs.query)
            (λ (f2, fd2). require_last fd2.attrs.query _ _)
          ∙ sym (reference_lem tb.name 0 tb2.fields))
      ∙ with_table_lem fd.name (λ tb2. first_reference_query tb.name tb2.fields) 0 sd.tables)
]

link_fields_lem :
    (sd : SchemaDef) (ti : ℕ) (tb : TableDef) (fi : ℕ) (fds : List FieldDef) (marks : Marks)
    → is_ok (link_fields sd ti tb fi fds marks)
      ≡ all (λ fd. foreign_valid sd fd && subtable_valid sd tb fd) fds
unfolding link_fields
link_fields_lem sd ti tb fi [] marks = refl
link_fields_lem sd ti tb fi (fd ∷ fds) marks =
    is_ok-and_then (check_foreign sd tb fd) _
    ∙ ap (λ (b : Bool). is_ok (check_foreign sd tb fd) && b)
        (is_ok_after (check_subtable sd ti tb fi fd marks) _ _
          λ marks'. link_fields_lem sd ti tb (suc fi) fds marks')
    ∙ ground (arith, check_foreign_lem sd tb fd, check_subtable_lem sd ti tb fi fd marks)

validate_tables_lem :
    (sd : SchemaDef) (ti : ℕ) (tbs : List TableDef) (marks : Marks)
    → is_ok (validate_tables sd ti tbs marks)
      ≡ all (λ tb. table_valid tb && references_valid sd tb) tbs
unfolding validate_tables
validate_tables_lem sd ti [] marks = refl
validate_tables_lem sd ti (tb ∷ tbs) marks =
    is_ok-and_then (validate_table tb) _
    ∙ ap (λ (b : Bool). is_ok (validate_table tb) && b)
        (is_ok_after (link_fields sd ti tb 0 tb.fields marks) _ _
          λ marks'. validate_tables_lem sd (suc ti) tbs marks')
    ∙ ground (arith, validate_table_lem tb, link_fields_lem sd ti tb 0 tb.fields marks)

abbrev pub schema_valid : SchemaDef → Bool
schema_valid sd =
    all (λ tb. table_valid tb && references_valid sd tb) sd.tables
    && all (select_valid sd) sd.custom_selects

-- The validation of a schema ends without an error exactly where every table is valid by itself,
-- every FOREIGN names a column of the first table of the name that it gives, every SUBTABLE is
-- named like a table, the first of which has as its first reference back one with QUERY, and every
-- CUSTOM-SELECT has for each of its words a table and a dot before a column of the first table of
-- that name or before rowid, names tables that exist, has a full statement that is not empty where
-- it names no table, and has one argument for each question mark of the full statement there and
-- of the WHERE clause else.
pub validate_schema_lem : (sd : SchemaDef) → is_ok (validate_schema sd) ≡ schema_valid sd
unfolding validate_schema
validate_schema_lem sd =
    is_ok_after (validate_tables sd 0 sd.tables []) _ _
      (λ marks. is_ok_after (validate_selects sd sd.custom_selects) _ true (λ links. refl))
    ∙ ground
        (arith, validate_tables_lem sd 0 sd.tables [], validate_selects_lem sd sd.custom_selects)
