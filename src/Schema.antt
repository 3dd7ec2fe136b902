-- ===== src/Schema.antt =====
-- parser.h and parser.yy: the schema that the parser builds, and the look-ups in it.
-- A linked list is a `List`, NULL the empty one. A pointer to a table or to a field is its position
-- in its list. `init_double` is the text that `<<` writes for the number. The three members that the
-- validation writes (`subtable_table`, `subtable_field`, `is_subtable`) are the `Marks` of
-- Schema/Validate.antt, and the pointers of a `CustomSelect` are its `SelectLinks`.
pub mod Words
pub mod Validate
pub mod Tables
pub mod Selects
pub mod Links
use sqlite3gen.Base.{ℕ, suc, Bool, true, false, Option, none, some, List, [], ◌∷◌, if◌then◌else◌}
use sqlite3gen.Base.Text.{Text, codes, text_eq}
use sqlite3gen.Base.Numbers.{ℤ}

pub data TypeDef : Type 0 where
  type_int : TypeDef
  type_int64 : TypeDef
  type_text : TypeDef
  type_blob : TypeDef
  type_double : TypeDef
  type_bool : TypeDef
  type_enum : TypeDef
  type_subtable : TypeDef

pub record TypeDefValue : Type 0 where
  pub type : TypeDef
  pub enum_name : Text

pub data CustomType : Type 0 where
  get : CustomType
  upd : CustomType
  updby : CustomType
  del : CustomType

pub record CustomGetUpd : Type 0 where
  pub type : CustomType
  pub name : Text
  pub typelist : List TypeDefValue
  pub query : Text
  pub wordlist : List Text

pub record FieldAttrs : Type 0 where
  pub index : Bool
  pub query : Bool
  pub likequery : Bool
  pub auto_increment : Bool
  pub init_string : Text
  pub init_int : ℤ
  pub init_double : Text
  pub protoid : ℤ
  pub foreign : Bool
  pub foreign_table : Text
  pub foreign_field : Text
  pub subtable : Bool
  pub constraints : Text

pub record FieldDef : Type 0 where
  pub name : Text
  pub type : TypeDefValue
  pub attrs : FieldAttrs

pub record TableDef : Type 0 where
  pub name : Text
  pub version : ℕ
  pub fields : List FieldDef
  pub constraints : Text
  pub customs : List CustomGetUpd

pub record CustomSelect : Type 0 where
  pub name : Text
  pub field_names : List Text
  pub table_names : List Text
  pub types : List TypeDefValue
  pub where_clause : Text
  pub full_statement : Text

pub record SchemaDef : Type 0 where
  pub package_name : Text
  pub headertop : Text
  pub headerbottom : Text
  pub sourcetop : Text
  pub sourcebottom : Text
  pub prototop : Text
  pub protobottom : Text
  pub tables : List TableDef
  pub custom_selects : List CustomSelect
  pub option_xml : Bool
  pub option_protobuf : Bool

-- The first element that the test takes, and its position, counted from `i`.
unfoldable pub find_from {ℓ} : {A : Type ℓ} → (A → Bool) → ℕ → List A → Option (ℕ × A)
find_from test i [] = none
find_from test i (x ∷ xs) = if test x then some (i, x) else find_from test (suc i) xs

unfoldable pub is_table : SchemaDef → Text → Option (ℕ × TableDef)
unfolding find_from
is_table schema table = find_from (λ (tb : TableDef). text_eq tb.name table) 0 schema.tables

unfoldable pub is_field : TableDef → Text → Option (ℕ × FieldDef)
unfolding find_from
is_field tb name = find_from (λ (f : FieldDef). text_eq name f.name) 0 tb.fields

unfoldable pub get_type : TypeDefValue → Text
get_type t = elim t.type [
  | type_int ↦ codes "int"
  | type_int64 ↦ codes "int64"
  | type_text ↦ codes "text"
  | type_blob ↦ codes "blob"
  | type_double ↦ codes "double"
  | type_bool ↦ codes "bool"
  | type_enum ↦ t.enum_name
  | type_subtable ↦ codes "SQL_TABLE"
]
