-- ===== src/Tests/Generator.antt =====
-- main.cc, run on a small schema with templates that write nothing.
use sqlite3gen.Base.{◌≡◌, refl, true, Option, some, List, [], ◌∷◌, ◌++◌}
use sqlite3gen.Base.Text.{Text, codes, text_eq}
use sqlite3gen.Base.Result.{ok, err}
use sqlite3gen.Schema.{SchemaDef, is_table, is_field}
use sqlite3gen.Schema.Words.{split_dot}
use sqlite3gen.Schema.Validate.{validate_schema}
use sqlite3gen.Emit.Machine.{Piece, exec, exec_one}
use sqlite3gen.Emit.Source.{emit_source}
use sqlite3gen.Emit.Header.{emit_header}
use sqlite3gen.Emit.Proto.{emit_proto}
use sqlite3gen.Driver.{Output, proto_header, main}
use sqlite3gen.Driver.Names.{proto_header_only}
use sqlite3gen.Driver.Checks.{IsChecked, main-IsChecked}
use sqlite3gen.Tests.Tables.{shop}

abbrev blank : Text → List Piece
blank template = []

abbrev packaged : Text → Option SchemaDef
packaged file = some (record shop { package_name = codes "shop" })

abbrev files : List Text
files = codes "s.schema" ∷ codes "s.cc" ∷ codes "s.h" ∷ codes "s.proto" ∷ []

abbrev nothing : Output
nothing = record { source = []; header = []; proto = [] }

abbrev written : Output
written = elim (main blank (λ f. true) packaged files) [ ok o ↦ o | err e ↦ nothing ]

files_written : main blank (λ f. true) packaged files ≡ ok written
unfolding main validate_schema is_field text_eq is_table split_dot emit_source emit_header
    emit_proto exec exec_one
files_written = refl

main-IsChecked_example : IsChecked (packaged (codes "s.schema"))
main-IsChecked_example =
    main-IsChecked blank (λ f. true) packaged (codes "s.schema") (codes "s.cc") (codes "s.h")
      (codes "s.proto") written files_written

made : proto_header (codes "s.proto") ≡ ok (codes "s.pb.h")
unfolding proto_header text_eq
made = refl

proto_header_only_example :
    (base : Text) × (codes "s.proto" ≡ base ++ codes ".proto")
    × (codes "s.pb.h" ≡ base ++ codes ".pb.h")
proto_header_only_example = proto_header_only (codes "s.proto") (codes "s.pb.h") made
