-- ===== src/Tests/Tables.antt =====
-- aes_vfs/dll3.tcc and parser.yy, run on small tables and schemas.
use sqlite3gen.Base.{ℕ, ◌*◌, ◌≡◌, refl, true, false, ◌||◌, [], ◌∷◌, arith, ◌==◌}
use sqlite3gen.Base.Text.{codes, text_eq}
use sqlite3gen.Base.Result.{is_ok}
use sqlite3gen.Base.Numbers.{pos, minus_one}
use sqlite3gen.Dll.Sequence.{has, find_first}
use sqlite3gen.Dll.Hash.{new_hash, add, find}
use sqlite3gen.Dll.Hash.Contents.{Has, Has-congr, new_hash-Has, add-Has, find_lem}
use sqlite3gen.Schema.{
  is_field, is_table, type_int, TypeDefValue, upd, FieldAttrs, TableDef, SchemaDef,
}
use sqlite3gen.Template.Escape.{escape, in_literal, literals, literals-escape}
use sqlite3gen.Schema.Words.{split_dot}
use sqlite3gen.Schema.Validate.{validate_table, validate_schema}
use sqlite3gen.Schema.Tables.{table_valid, validate_table_lem}
use sqlite3gen.Schema.Links.{schema_valid, validate_schema_lem}

abbrev square : ℕ → ℕ
square p = p * p

empty-Has : Has square (λ q. false) (new_hash 1)
empty-Has = new_hash-Has 1 square

add-Has_example : Has square (λ q. false || (q == 5)) (add 1 square 5 (new_hash 1))
add-Has_example = add-Has 1 square (λ q. false) 5 (new_hash 1) (omega arith) refl empty-Has

one-Has : Has square (λ q. false || (q == 5)) (add 1 square 5 (new_hash 1))
one-Has = add-Has 1 square (λ q. false) 5 (new_hash 1) (omega arith) refl empty-Has

listed-Has : Has square (λ q. has q (5 ∷ [])) (add 1 square 5 (new_hash 1))
unfolding has
listed-Has = Has-congr square _ _ _ (λ q. ground arith) one-Has

only : (p q : ℕ) → has p (5 ∷ []) ≡ true → has q (5 ∷ []) ≡ true → square p ≡ square q → p ≡ q
unfolding has
only p q hp hq e = ground arith

find_lem_example :
    find (λ k. k) square 25 (add 1 square 5 (new_hash 1)) ≡ find_first square 25 (5 ∷ [])
find_lem_example =
    find_lem (λ k. k) square (5 ∷ []) 25 (add 1 square 5 (new_hash 1)) only listed-Has

abbrev pub plain : FieldAttrs
plain = record {
  index = false;
  query = false;
  likequery = false;
  auto_increment = false;
  init_string = [];
  init_int = pos 0;
  init_double = codes "0";
  protoid = minus_one;
  foreign = false;
  foreign_table = [];
  foreign_field = [];
  subtable = false;
  constraints = [];
}

abbrev pub int : TypeDefValue
int = record { type = type_int; enum_name = [] }

abbrev pub user : TableDef
user = record {
  name = codes "user";
  version = 3;
  fields =
      record { name = codes "userid"; type = int; attrs = record plain { auto_increment = true } }
      ∷ record { name = codes "age"; type = int; attrs = plain }
      ∷ [];
  constraints = [];
  customs =
      record {
        type = upd;
        name = codes "age";
        typelist = [];
        query = [];
        wordlist = codes "age" ∷ [];
      }
      ∷ [];
}

abbrev pub book : TableDef
book = record {
  name = codes "book";
  version = 1;
  fields =
      record {
        name = codes "owner";
        type = int;
        attrs = record plain {
          foreign = true;
          foreign_table = codes "user";
          foreign_field = codes "userid";
          query = true;
        };
      }
      ∷ [];
  constraints = [];
  customs = [];
}

abbrev pub shop : SchemaDef
shop = record {
  package_name = [];
  headertop = [];
  headerbottom = [];
  sourcetop = [];
  sourcebottom = [];
  prototop = [];
  protobottom = [];
  option_xml = false;
  option_protobuf = false;
  tables = user ∷ book ∷ [];
  custom_selects =
      record {
        name = codes "owners";
        field_names = codes "user.age" ∷ codes "book.rowid" ∷ [];
        table_names = codes "user" ∷ codes "book" ∷ [];
        types = int ∷ [];
        where_clause = codes "user.userid = book.owner and user.age > ?";
        full_statement = [];
      }
      ∷ [];
}

validate_table_lem_example : is_ok (validate_table user) ≡ table_valid user
validate_table_lem_example = validate_table_lem user

validate_schema_lem_example : is_ok (validate_schema shop) ≡ schema_valid shop
validate_schema_lem_example = validate_schema_lem shop

-- The schema is valid, so the two sides are `true`.
shop_valid : is_ok (validate_schema shop) ≡ true
unfolding validate_schema is_field text_eq is_table split_dot
shop_valid = refl

literals-escape_example : literals in_literal (escape (codes "a\\b\"")) ≡ codes "a\\b\""
literals-escape_example = literals-escape (codes "a\\b\"")
