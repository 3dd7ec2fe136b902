-- ===== src/Tests/Links.antt =====
-- parser.yy and the emitters, run on a schema with a SUBTABLE.
use sqlite3gen.Base.{ℕ, ◌≡◌, refl, true, List, [], ◌∷◌, some}
use sqlite3gen.Base.Text.{codes, text_eq}
use sqlite3gen.Base.Result.{ok, err}
use sqlite3gen.Schema.{upd, type_subtable, FieldDef, TableDef, SchemaDef, is_table, is_field}
use sqlite3gen.Schema.Words.{split_dot}
use sqlite3gen.Schema.Validate.{Marks, SelectLinks, validate_schema}
use sqlite3gen.Emit.Common.{subtable_field}
use sqlite3gen.Emit.Linked.Links.{refers}
use sqlite3gen.Emit.Linked.{subtable_field_lem}
use sqlite3gen.Emit.Types.{find_field}
use sqlite3gen.Emit.Linked.Customs.{find_field_lem}
use sqlite3gen.Tests.Tables.{plain, user, book, shop}

abbrev books : FieldDef
books = record {
  name = codes "book";
  type = record { type = type_subtable; enum_name = [] };
  attrs = record plain { subtable = true };
}

abbrev reader : TableDef
reader = record user { fields = books ∷ user.fields }

abbrev library : SchemaDef
library = record shop { tables = reader ∷ book ∷ [] }

abbrev outcome : Marks × List SelectLinks
outcome = elim (validate_schema library) [ ok p ↦ p | err e ↦ ([], []) ]

library_valid : validate_schema library ≡ ok (outcome.0, outcome.1)
unfolding validate_schema is_field text_eq is_table split_dot
library_valid = refl

subtable_field_lem_example :
    (fd2 : FieldDef) × (subtable_field library outcome.0 0 0 ≡ some fd2)
    × (refers reader fd2 ≡ true)
subtable_field_lem_example =
    subtable_field_lem library outcome.0 outcome.1 0 0 reader books library_valid refl refl refl

find_field_lem_example :
    (n : ℕ) × (fd : FieldDef) × (find_field reader (codes "age") ≡ some (n, fd))
    × (fd.name ≡ codes "age")
find_field_lem_example =
    find_field_lem library outcome.0 outcome.1 0 0 0 reader
      (record {
        type = upd;
        name = codes "age";
        typelist = [];
        query = [];
        wordlist = codes "age" ∷ [];
      })
      (codes "age") library_valid refl refl refl refl
