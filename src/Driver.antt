-- ===== src/Driver.antt =====
-- main.cc: the generator from its arguments to its three files. The parser, which bison generates, is a
-- parameter that gives the schema of a file that opens; so are the templates, and whether a file opens. The
-- branch that DEBUG_TOKENIZER selects, which prints the tokens, and the other printing are left out.
pub mod Names
pub mod Checks
use sqlite3gen.Base.{
  ℕ, ◌+◌, ◌-◌, Bool, true, false, Option, none, some, List, [], ◌∷◌, ◌++◌, ltb, length, take, drop,
  if◌then◌else◌,
}
use sqlite3gen.Base.Text.{Text, codes, text_eq}
use sqlite3gen.Base.Result.{Result, ok, err, and_then}
use sqlite3gen.Schema.{SchemaDef}
use sqlite3gen.Schema.Validate.{SchemaError, Marks, SelectLinks, is_empty, validate_schema}
use sqlite3gen.Emit.Types.{EmitError}
use sqlite3gen.Emit.Machine.{Cmd, Piece, Emitter, exec}
use sqlite3gen.Emit.Source.{emit_source}
use sqlite3gen.Emit.Header.{emit_header}
use sqlite3gen.Emit.Proto.{emit_proto}

pub data DriverError : Type 0 where
  usage : DriverError
  null_schema : DriverError
  schema_error : SchemaError → DriverError
  no_package : DriverError
  invalid_name : DriverError
  no_proto_suffix : DriverError
  emit_error : EmitError → DriverError

-- The name of the header that protoc makes of the proto file.
unfoldable pub proto_header : (proto_file : Text) → Result DriverError Text
unfolding text_eq
proto_header proto_file =
    let filename_len = length proto_file in
    if ltb filename_len 7
    then err invalid_name
    else if text_eq (drop (filename_len - 6) proto_file) (codes ".proto")
    then ok (take (filename_len - 6) proto_file ++ codes ".pb.h")
    else err no_proto_suffix

-- The texts of the source, the header and the proto file.
pub record Output : Type 0 where
  pub source : Text
  pub header : Text
  pub proto : Text

module _ (templates : Text → List Piece) (opens : Text → Bool) where
  -- An emitter starts without patterns, and leaves the text of its file.
  unfoldable pub emitted : List Cmd → Result DriverError Text
  unfolding exec
  emitted cs = elim (exec templates cs (record { patterns = []; streams = λ s. [] })) [
    | ok e ↦ ok (e.streams (codes "out"))
    | err e ↦ err (emit_error e)
  ]

  unfoldable pub generate :
      (cc_file h_file proto_file : Text)
      → SchemaDef
      → Marks
      → List SelectLinks
      → Result DriverError Output
  unfolding proto_header emitted emit_source emit_header emit_proto
  generate cc_file h_file proto_file schema marks links =
      if is_empty schema.package_name
      then err no_package
      else and_then (proto_header proto_file) λ proto_h_file.
        and_then (emitted (emit_source (opens cc_file) cc_file h_file schema marks links)) λ source.
          and_then (emitted (emit_header (opens h_file) h_file proto_h_file schema marks links))
            λ header.
              and_then (emitted (emit_proto (opens proto_file) proto_file schema))
                λ proto. ok (record { source = source; header = header; proto = proto })

  -- What follows the validation.
  unfoldable pub validated :
      (cc_file h_file proto_file : Text)
      → SchemaDef
      → Result SchemaError (Marks × List SelectLinks)
      → Result DriverError Output
  unfolding generate
  validated cc_file h_file proto_file schema (err e) = err (schema_error e)
  validated cc_file h_file proto_file schema (ok stored) =
      generate cc_file h_file proto_file schema stored.0 stored.1

  -- What follows the parser; without a schema the source follows a null pointer.
  unfoldable pub parsed :
      (cc_file h_file proto_file : Text) → Option SchemaDef → Result DriverError Output
  unfolding validated validate_schema
  parsed cc_file h_file proto_file none = err null_schema
  parsed cc_file h_file proto_file (some schema) =
      validated cc_file h_file proto_file schema (validate_schema schema)

  unfoldable pub main :
      (parse : Text → Option SchemaDef) → (args : List Text) → Result DriverError Output
  unfolding parsed
  main parse [] = err usage
  main parse (a ∷ []) = err usage
  main parse (a ∷ b ∷ []) = err usage
  main parse (a ∷ b ∷ c ∷ []) = err usage
  main parse (schema_file ∷ cc_file ∷ h_file ∷ proto_file ∷ []) =
      parsed cc_file h_file proto_file (parse schema_file)
  main parse (a ∷ b ∷ c ∷ d ∷ e ∷ args) = err usage
