-- ===== src/Schema/Tables.antt =====
-- parser.yy: which tables and which fields the validation takes, as tests on the schema.
use sqlite3gen.Base.{
  none, some, ℕ, suc, ◌+◌, ◌≡◌, refl, ◌∙◌, ap, Bool, true, false, not, ◌&&◌, ◌||◌, List, [], ◌∷◌,
  arith, leb, is_some, if◌then◌else◌, Bool-cases, inl, inr,
}
use sqlite3gen.Base.Text.{Text, text_eq}
use sqlite3gen.Base.Result.{
  and_then, require, each, is_ok, is_ok-and_then, is_ok-require, require_then, any, all, each_lem,
}
use sqlite3gen.Schema.{
  CustomType, get, upd, updby, del, TypeDef, type_int, type_int64, type_text, type_blob, type_bool,
  type_double, type_enum, type_subtable, CustomGetUpd, FieldDef, TableDef, find_from, is_field,
}
use sqlite3gen.Schema.Validate.{
  autoincr_type, autoincr_twice, enum_without_default, is_upd, is_enum, is_int, is_empty,
  check_custom, check_fields, validate_table,
}

pub is_some-find_from {ℓ} :
    {A : Type ℓ} (test : A → Bool) (i : ℕ) (xs : List A)
    → is_some (find_from test i xs) ≡ any test xs
unfolding find_from
is_some-find_from test i [] = refl
is_some-find_from test i (x ∷ xs) = elim (Bool-cases (test x)) [
  | inl e ↦ rw e refl
  | inr e ↦ rw e (is_some-find_from test (suc i) xs)
]

-- The first table of the name passes the test.
abbrev pub with_table : Text → (TableDef → Bool) → List TableDef → Bool
with_table name test [] = false
with_table name test (tb ∷ tbs) =
    let rest = with_table name test tbs in if text_eq tb.name name then test tb else rest

pub with_table_lem :
    (name : Text) (test : TableDef → Bool) (i : ℕ) (tbs : List TableDef)
    → elim (find_from (λ (tb : TableDef). text_eq tb.name name) i tbs) [
      | none ↦ false
      | some (t, tb) ↦ test tb
    ]
      ≡ with_table name test tbs
unfolding find_from
with_table_lem name test i [] = refl
with_table_lem name test i (tb ∷ tbs) = elim (Bool-cases (text_eq tb.name name)) [
  | inl e ↦ rw e refl
  | inr e ↦ rw e (with_table_lem name test (suc i) tbs)
]

-- A column of the table has the name.
abbrev pub has_column : TableDef → Text → Bool
has_column tb w = any (λ (f : FieldDef). text_eq w f.name) tb.fields

-- CUSTOM-UPD and CUSTOM-UPDBY.
abbrev pub updates : CustomType → Bool
updates get = false
updates upd = true
updates updby = true
updates del = false

-- An update names columns of its table only.
abbrev pub custom_valid : TableDef → CustomGetUpd → Bool
custom_valid tb cust = not (updates cust.type) || all (has_column tb) cust.wordlist

abbrev pub needs_default : TypeDef → Bool
needs_default type_int = false
needs_default type_int64 = false
needs_default type_text = false
needs_default type_blob = false
needs_default type_bool = false
needs_default type_double = false
needs_default type_enum = true
needs_default type_subtable = false

abbrev pub is_whole : TypeDef → Bool
is_whole type_int = true
is_whole type_int64 = true
is_whole type_text = false
is_whole type_blob = false
is_whole type_bool = false
is_whole type_double = false
is_whole type_enum = false
is_whole type_subtable = false

-- An ENUM has a default, and an AUTOINCR is an INT.
abbrev pub field_valid : FieldDef → Bool
field_valid fd =
    not (needs_default fd.type.type && text_eq fd.attrs.init_string [])
    && (not fd.attrs.auto_increment || is_whole fd.type.type)

updates_lem : (t : CustomType) → updates t ≡ is_upd t
updates_lem get = refl
updates_lem upd = refl
updates_lem updby = refl
updates_lem del = refl

needs_default_lem : (t : TypeDef) → needs_default t ≡ is_enum t
needs_default_lem type_int = refl
needs_default_lem type_int64 = refl
needs_default_lem type_text = refl
needs_default_lem type_blob = refl
needs_default_lem type_bool = refl
needs_default_lem type_double = refl
needs_default_lem type_enum = refl
needs_default_lem type_subtable = refl

is_whole_lem : (t : TypeDef) → is_whole t ≡ is_int t
is_whole_lem type_int = refl
is_whole_lem type_int64 = refl
is_whole_lem type_text = refl
is_whole_lem type_blob = refl
is_whole_lem type_bool = refl
is_whole_lem type_double = refl
is_whole_lem type_enum = refl
is_whole_lem type_subtable = refl

pub is_empty_lem : (t : Text) → text_eq t [] ≡ is_empty t
unfolding text_eq
is_empty_lem [] = refl
is_empty_lem (c ∷ t) = refl

-- The test of one field, as the code makes it.
field_lem :
    (fd : FieldDef)
    → field_valid fd ≡ (
        not (is_enum fd.type.type && is_empty fd.attrs.init_string)
        && (not fd.attrs.auto_increment || is_int fd.type.type))
field_lem fd =
    rw
      (needs_default_lem fd.type.type, is_whole_lem fd.type.type, is_empty_lem fd.attrs.init_string)
      refl

abbrev pub count_autoincr : List FieldDef → ℕ
count_autoincr [] = 0
count_autoincr (fd ∷ fds) = (if fd.attrs.auto_increment then 1 else 0) + count_autoincr fds

abbrev pub table_valid : TableDef → Bool
table_valid tb =
    all (custom_valid tb) tb.customs
    && (all field_valid tb.fields && leb (count_autoincr tb.fields) 1)

check_custom_lem :
    (tb : TableDef) (cust : CustomGetUpd) → is_ok (check_custom tb cust) ≡ custom_valid tb cust
unfolding check_custom is_field
check_custom_lem tb cust = elim (Bool-cases (is_upd cust.type)) [
  | inl e ↦
      rw (updates_lem cust.type, e)
        (each_lem _ (has_column tb) cust.wordlist λ w.
          is_ok-require _ _ ∙ is_some-find_from (λ (f : FieldDef). text_eq w f.name) 0 tb.fields)
  | inr e ↦ rw (updates_lem cust.type, e) refl
]

autoincr_twice_lem :
    (before : Bool) (n : ℕ)
    → (not before && leb (1 + n) 1) ≡ leb ((if before then 1 else 0) + (1 + n)) 1
autoincr_twice_lem true n = ground arith
autoincr_twice_lem false n = ground arith

check_fields_lem :
    (before : Bool) (fds : List FieldDef)
    → is_ok (check_fields before fds)
      ≡ (all field_valid fds && leb ((if before then 1 else 0) + count_autoincr fds) 1)
unfolding check_fields
check_fields_lem true [] = refl
check_fields_lem false [] = refl
check_fields_lem before (fd ∷ fds) = elim (Bool-cases fd.attrs.auto_increment) [
  | inl e ↦
      let twice = require_then (not before) autoincr_twice (check_fields true fds) in
      let typed =
        require_then (is_int fd.type.type) autoincr_type
          (and_then (require (not before) autoincr_twice) (λ _. check_fields true fds)) in
      let rest = check_fields_lem true fds in
      rw e (
        require_then (not (is_enum fd.type.type && is_empty fd.attrs.init_string))
          enum_without_default _
        ∙ ground (
          arith,
          field_lem fd,
          e,
          twice,
          typed,
          rest,
          autoincr_twice_lem before (count_autoincr fds),
        ))
  | inr e ↦
      let rest = check_fields_lem before fds in
      rw e (
        require_then (not (is_enum fd.type.type && is_empty fd.attrs.init_string))
          enum_without_default (check_fields before fds)
        ∙ ground (arith, field_lem fd, e, rest))
]

-- The validation of a table ends without an error exactly where its updates name columns of it,
-- its ENUM fields have a default, its AUTOINCR fields are of type INT or INT64, and there is at
-- most one of these.
pub validate_table_lem : (tb : TableDef) → is_ok (validate_table tb) ≡ table_valid tb
unfolding validate_table
validate_table_lem tb =
    is_ok-and_then (each (check_custom tb) tb.customs) (check_fields false tb.fields)
    ∙ ap (λ (b : Bool). b && is_ok (check_fields false tb.fields))
        (each_lem (check_custom tb) (custom_valid tb) tb.customs (check_custom_lem tb))
    ∙ ap (λ (b : Bool). all (custom_valid tb) tb.customs && b) (check_fields_lem false tb.fields)
    ∙ ground arith
