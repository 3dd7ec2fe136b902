-- ===== src/Emit/Types.antt =====
-- emit.h: what the emitters write for a type. An `exit(1)` is an error.
use sqlite3gen.Base.{
  ℕ, ◌≡◌, refl, ap, Bool, false, Option, [], ◌∷◌, ◌++◌, arith, ◌==◌, if◌then◌else◌, inl, inr,
  Bool-cases,
}
use sqlite3gen.Base.Text.{Text, codes, text_eq}
use sqlite3gen.Base.Result.{Result, ok, err, is_ok, and_then}
use sqlite3gen.Schema.{
  TypeDef, type_int, type_int64, type_text, type_blob, type_double, type_bool, type_enum,
  type_subtable, TypeDefValue, FieldDef, TableDef, find_from,
}
use sqlite3gen.Template.Patterns.{PatternError}
use sqlite3gen.Schema.Words.{dot, has_dot}

unfoldable pub dots_to_colons : Text → Text
dots_to_colons [] = []
dots_to_colons (c ∷ cs) =
    let rest = dots_to_colons cs in if c == dot then 58 ∷ 58 ∷ rest else c ∷ rest

unfoldable pub typedef_to_ctype : TypeDefValue → (do_const : Bool) → (fieldname : Text) → Text
unfolding dots_to_colons
typedef_to_ctype t do_const fieldname =
    let text = if do_const then codes "const std::string &" else codes "std::string" in
    elim t.type [
      | type_int ↦ codes "int32_t"
      | type_int64 ↦ codes "int64_t"
      | type_double ↦ codes "double"
      | type_bool ↦ codes "bool"
      | type_text ↦ text
      | type_blob ↦ text
      | type_enum ↦ dots_to_colons t.enum_name
      | type_subtable ↦
          codes "// NOTE this is only populated by get_subtable_"
          ++ fieldname
          ++ codes "()\n    std::vector<SQL_TABLE_"
          ++ fieldname
          ++ codes ">"
    ]

unfoldable pub typedef_to_string : TypeDef → Text
typedef_to_string t = elim t [
  | type_int ↦ codes "TYPE_INT"
  | type_bool ↦ codes "TYPE_BOOL"
  | type_int64 ↦ codes "TYPE_INT64"
  | type_double ↦ codes "TYPE_DOUBLE"
  | type_text ↦ codes "TYPE_TEXT"
  | type_blob ↦ codes "TYPE_BLOB"
  | type_enum ↦ codes "TYPE_ENUM"
  | type_subtable ↦ codes "TYPE_SUBTABLE"
]

-- Why the generator stops: the message on stderr names the function or the place, or a pointer that
-- is NULL is followed.
pub data EmitError : Type 0 where
  invalid_subtable : (function : Text) → EmitError
  cannot_open : (file : Text) → EmitError
  null_pointer : (pointer : Text) → EmitError
  pattern_error : PatternError → EmitError

unfoldable pub typedef_to_sqlite_macro : TypeDef → Result EmitError Text
typedef_to_sqlite_macro t = elim t [
  | type_int ↦ ok (codes "INTEGER")
  | type_bool ↦ ok (codes "INTEGER")
  | type_int64 ↦ ok (codes "INTEGER")
  | type_double ↦ ok (codes "FLOAT")
  | type_text ↦ ok (codes "TEXT")
  | type_blob ↦ ok (codes "BLOB")
  | type_enum ↦ ok (codes "INTEGER")
  | type_subtable ↦ err (invalid_subtable (codes "TypeDef_to_sqlite_macro"))
]

unfoldable pub typedef_to_sqlite_type : TypeDef → Result EmitError Text
typedef_to_sqlite_type t = elim t [
  | type_int ↦ ok (codes "int")
  | type_bool ↦ ok (codes "int")
  | type_int64 ↦ ok (codes "int64")
  | type_double ↦ ok (codes "double")
  | type_text ↦ ok (codes "text")
  | type_blob ↦ ok (codes "blob")
  | type_enum ↦ ok (codes "int")
  | type_subtable ↦ err (invalid_subtable (codes "TypeDef_to_sqlite_type"))
]

unfoldable pub typedef_to_sqlite_create_type : TypeDef → Result EmitError Text
typedef_to_sqlite_create_type t = elim t [
  | type_int ↦ ok (codes "integer")
  | type_int64 ↦ ok (codes "int64")
  | type_double ↦ ok (codes "double")
  | type_text ↦ ok (codes "text")
  | type_blob ↦ ok (codes "blob")
  | type_bool ↦ ok (codes "integer")
  | type_enum ↦ ok (codes "integer")
  | type_subtable ↦ err (invalid_subtable (codes "TypeDef_to_sqlite_create_type"))
]

unfoldable pub typedef_to_sqlite_bind : TypeDef → Result EmitError Text
unfolding typedef_to_sqlite_type
typedef_to_sqlite_bind t = and_then (typedef_to_sqlite_type t) λ s. ok (codes "sqlite3_bind_" ++ s)

unfoldable pub typedef_to_sqlite_column : TypeDef → Result EmitError Text
unfolding typedef_to_sqlite_type
typedef_to_sqlite_column t =
    and_then (typedef_to_sqlite_type t) λ s. ok (codes "sqlite3_column_" ++ s)

unfoldable pub find_field : TableDef → Text → Option (ℕ × FieldDef)
unfolding find_from
find_field td name = find_from (λ (f : FieldDef). text_eq f.name name) 0 td.fields

-- The colons of two texts joined are those of the one and then those of the other, and no dot is
-- left.
pub dots_to_colons-append :
    (s t : Text)
    → (dots_to_colons (s ++ t) ≡ dots_to_colons s ++ dots_to_colons t)
      × (has_dot (dots_to_colons s) ≡ false)
unfolding dots_to_colons
dots_to_colons-append [] t = (refl, refl)
dots_to_colons-append (c ∷ cs) t =
    let ih = dots_to_colons-append cs t in
    elim (Bool-cases (c == dot)) [
      | inl e ↦ rw e (ap (λ (u : Text). 58 ∷ 58 ∷ u) ih.0, ih.1)
      | inr e ↦ rw e (ap (λ (u : Text). c ∷ u) ih.0, ground (arith, ih.1))
    ]

-- The names of the bind function, the column function, the column type and the macro of a type
-- exist together or not at all.
pub typedef_to_sqlite_lem :
    (t : TypeDef)
    → (is_ok (typedef_to_sqlite_bind t) ≡ is_ok (typedef_to_sqlite_create_type t))
      × (is_ok (typedef_to_sqlite_column t) ≡ is_ok (typedef_to_sqlite_macro t))
      × (is_ok (typedef_to_sqlite_bind t) ≡ is_ok (typedef_to_sqlite_column t))
unfolding typedef_to_sqlite_bind typedef_to_sqlite_column typedef_to_sqlite_create_type
    typedef_to_sqlite_macro
typedef_to_sqlite_lem type_int = (refl, refl, refl)
typedef_to_sqlite_lem type_int64 = (refl, refl, refl)
typedef_to_sqlite_lem type_text = (refl, refl, refl)
typedef_to_sqlite_lem type_blob = (refl, refl, refl)
typedef_to_sqlite_lem type_double = (refl, refl, refl)
typedef_to_sqlite_lem type_bool = (refl, refl, refl)
typedef_to_sqlite_lem type_enum = (refl, refl, refl)
typedef_to_sqlite_lem type_subtable = (refl, refl, refl)
