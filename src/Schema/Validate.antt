-- ===== src/Schema/Validate.antt =====
-- parser.yy: `validate_table` and `validate_schema`. An `exit(1)` is an error that names what the
-- message names. The progress lines on stdout are left out.
use sqlite3gen.Base.{
  ℕ, suc, ◌+◌, Bool, true, false, not, ◌&&◌, ◌||◌, Option, none, some, List, [], ◌∷◌, ◌==◌, is_some,
  if◌then◌else◌, length, map,
}
use sqlite3gen.Base.Text.{Text, codes, text_eq}
use sqlite3gen.Base.Result.{Result, ok, and_then, ok_or, require, each}
use sqlite3gen.Schema.{
  TypeDef, type_int, type_int64, type_enum, CustomType, upd, updby, CustomGetUpd, FieldDef,
  TableDef, CustomSelect, SchemaDef, find_from, is_table, is_field,
}
use sqlite3gen.Schema.Words.{split_dot}

pub data SchemaError : Type 0 where
  unknown_column : (word custom table : Text) → SchemaError
  enum_without_default : SchemaError
  autoincr_type : SchemaError
  autoincr_twice : SchemaError
  foreign_table_unknown : (foreign_table table field : Text) → SchemaError
  foreign_field_unknown : (foreign_field foreign_table table field : Text) → SchemaError
  subtable_unknown : (field : Text) → SchemaError
  subtable_without_foreign : (field table : Text) → SchemaError
  subtable_without_query : (foreign_table foreign_field table : Text) → SchemaError
  select_word : (select : Text) → SchemaError
  select_table_unknown : (select table : Text) → SchemaError
  select_field_unknown : (select word table : Text) → SchemaError
  select_empty : SchemaError
  select_count : (select : Text) (types questions : ℕ) → SchemaError

abbrev pub is_upd : CustomType → Bool
is_upd t = elim t [ upd ↦ true | updby ↦ true | _ ↦ false ]

abbrev pub is_enum : TypeDef → Bool
is_enum t = elim t [ type_enum ↦ true | _ ↦ false ]

abbrev pub is_int : TypeDef → Bool
is_int t = elim t [ type_int ↦ true | type_int64 ↦ true | _ ↦ false ]

abbrev pub is_empty : Text → Bool
is_empty [] = true
is_empty (c ∷ cs) = false

unfoldable pub check_custom : TableDef → CustomGetUpd → Result SchemaError (Unit {0})
check_custom tb cust =
    if is_upd cust.type
    then each (λ w. require (is_some (is_field tb w)) (unknown_column w cust.name tb.name))
        cust.wordlist
    else ok tt

-- The walk of the fields; `has_autoincr` says whether one before had the attribute.
unfoldable pub check_fields : Bool → List FieldDef → Result SchemaError (Unit {0})
check_fields has_autoincr [] = ok tt
check_fields has_autoincr (fd ∷ fds) =
    and_then
      (require (not (is_enum fd.type.type && is_empty fd.attrs.init_string)) enum_without_default)
      λ _. elim fd.attrs.auto_increment [
        | true ↦
            and_then (require (is_int fd.type.type) autoincr_type)
              λ _. and_then (require (not has_autoincr) autoincr_twice) λ _. check_fields true fds
        | false ↦ check_fields has_autoincr fds
      ]

unfoldable pub validate_table : TableDef → Result SchemaError (Unit {0})
unfolding check_custom check_fields
validate_table tb = and_then (each (check_custom tb) tb.customs) λ _. check_fields false tb.fields

unfoldable pub check_foreign : SchemaDef → TableDef → FieldDef → Result SchemaError (Unit {0})
check_foreign sd tb fd = elim fd.attrs.foreign [
  | true ↦
      and_then
        (ok_or (is_table sd fd.attrs.foreign_table)
          (foreign_table_unknown fd.attrs.foreign_table tb.name fd.name))
        λ (t2, tb2).
          require
            (is_some (
              find_from (λ (fd2 : FieldDef). text_eq fd2.name fd.attrs.foreign_field) 0 tb2.fields))
            (foreign_field_unknown fd.attrs.foreign_field tb2.name tb.name fd.name)
  | false ↦ ok tt
]

-- What the validation writes: `subtable_table` and `subtable_field` of a field, and `is_subtable`
-- of the table that they name.
pub record SubtableLink : Type 0 where
  pub table : ℕ
  pub field : ℕ
  pub subtable_table : ℕ
  pub subtable_field : ℕ

abbrev pub Marks : Type 0
Marks = List SubtableLink

unfoldable pub is_subtable : Marks → ℕ → Bool
is_subtable [] t = false
is_subtable (l ∷ ls) t = (l.subtable_table == t) || is_subtable ls t

unfoldable pub check_subtable :
    SchemaDef → (ti : ℕ) → TableDef → (fi : ℕ) → FieldDef → Marks → Result SchemaError Marks
check_subtable sd ti tb fi fd marks = elim fd.attrs.subtable [
  | true ↦ and_then (ok_or (is_table sd fd.name) (subtable_unknown fd.name)) λ (t2, tb2).
      and_then
        (ok_or
          (find_from
            (λ (fd2 : FieldDef). fd2.attrs.foreign && text_eq fd2.attrs.foreign_table tb.name) 0
            tb2.fields)
          (subtable_without_foreign fd.name tb.name))
        λ (f2, fd2).
          and_then (require fd2.attrs.query (subtable_without_query tb2.name fd2.name tb.name)) λ _.
            ok (record { table = ti; field = fi; subtable_table = t2; subtable_field = f2 } ∷ marks)
  | false ↦ ok marks
]

unfoldable pub link_fields :
    SchemaDef → (ti : ℕ) → TableDef → (fi : ℕ) → List FieldDef → Marks → Result SchemaError Marks
unfolding check_foreign check_subtable
link_fields sd ti tb fi [] marks = ok marks
link_fields sd ti tb fi (fd ∷ fds) marks = and_then (check_foreign sd tb fd) λ _.
    and_then (check_subtable sd ti tb fi fd marks)
      λ marks'. link_fields sd ti tb (suc fi) fds marks'

unfoldable pub validate_tables :
    SchemaDef → (ti : ℕ) → List TableDef → Marks → Result SchemaError Marks
unfolding validate_table link_fields
validate_tables sd ti [] marks = ok marks
validate_tables sd ti (tb ∷ tbs) marks = and_then (validate_table tb) λ _.
    and_then (link_fields sd ti tb 0 tb.fields marks)
      λ marks'. validate_tables sd (suc ti) tbs marks'

unfoldable pub count_questions : Text → ℕ
count_questions [] = 0
count_questions (c ∷ cs) = let rest = count_questions cs in if c == 63 then rest + 1 else rest

-- The pointers that the validation stores in a `CustomSelect`. The field pointer of a `rowid` is NULL.
pub record SelectLinks : Type 0 where
  pub field_table_ptrs : List ℕ
  pub field_ptrs : List (Option ℕ)
  pub table_ptrs : List ℕ

unfoldable pub select_field : SchemaDef → CustomSelect → Text → Result SchemaError (ℕ × Option ℕ)
select_field sd csel word =
    and_then (ok_or (split_dot word) (select_word csel.name)) λ (table, field).
      and_then (ok_or (is_table sd table) (select_table_unknown csel.name table)) λ (t, tb).
        elim (text_eq field (codes "rowid")) [
          | true ↦ ok (t, none)
          | false ↦
              and_then (ok_or (is_field tb field) (select_field_unknown csel.name word table))
                λ (f, fd). ok (t, some f)
        ]

unfoldable pub select_fields :
    SchemaDef → CustomSelect → List Text → Result SchemaError (List (ℕ × Option ℕ))
unfolding select_field
select_fields sd csel [] = ok []
select_fields sd csel (w ∷ ws) =
    and_then (select_field sd csel w)
      λ ptr. and_then (select_fields sd csel ws) λ ptrs. ok (ptr ∷ ptrs)

unfoldable pub select_tables : SchemaDef → CustomSelect → List Text → Result SchemaError (List ℕ)
select_tables sd csel [] = ok []
select_tables sd csel (w ∷ ws) =
    and_then (ok_or (is_table sd w) (select_table_unknown csel.name w))
      λ (t, tb). and_then (select_tables sd csel ws) λ ptrs. ok (t ∷ ptrs)

-- The table pointers, and the count of question marks in the text that goes into the statement.
unfoldable pub select_from : SchemaDef → CustomSelect → Result SchemaError (List ℕ × ℕ)
unfolding select_tables count_questions
select_from sd csel = elim csel.table_names [
  | [] ↦
      and_then (require (not (is_empty csel.full_statement)) select_empty)
        λ _. ok ([], count_questions csel.full_statement)
  | w ∷ ws ↦
      and_then (select_tables sd csel (w ∷ ws)) λ ptrs. ok (ptrs, count_questions csel.where_clause)
]

unfoldable pub validate_select : SchemaDef → CustomSelect → Result SchemaError SelectLinks
unfolding select_fields select_from
validate_select sd csel = and_then (select_fields sd csel csel.field_names) λ ptrs.
    and_then (select_from sd csel) λ (tables, question_count).
      let types_count = length csel.types in
      and_then
        (require (question_count == types_count)
          (select_count csel.name types_count question_count))
        λ _. ok (record {
          field_table_ptrs = map (λ (p : ℕ × Option ℕ). p.0) ptrs;
          field_ptrs = map (λ (p : ℕ × Option ℕ). p.1) ptrs;
          table_ptrs = tables;
        })

unfoldable pub validate_selects :
    SchemaDef → List CustomSelect → Result SchemaError (List SelectLinks)
unfolding validate_select
validate_selects sd [] = ok []
validate_selects sd (csel ∷ csels) =
    and_then (validate_select sd csel)
      λ links. and_then (validate_selects sd csels) λ rest. ok (links ∷ rest)

unfoldable pub validate_schema : SchemaDef → Result SchemaError (Marks × List SelectLinks)
unfolding validate_tables validate_selects
validate_schema sd =
    and_then (validate_tables sd 0 sd.tables [])
      λ marks. and_then (validate_selects sd sd.custom_selects) λ links. ok (marks, links)
