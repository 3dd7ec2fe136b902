-- ===== src/Driver/Checks.antt =====
-- main.cc: what has been checked where the generator writes its files.
use sqlite3gen.Base.{
  ◌≡◌, refl, sym, ◌∙◌, Bool, true, false, Option, none, some, List, [], ◌∷◌, Bool-cases, inl, inr,
}
use sqlite3gen.Base.Text.{Text, text_eq}
use sqlite3gen.Base.Result.{Result, ok, err, is_ok}
use sqlite3gen.Schema.{SchemaDef}
use sqlite3gen.Schema.Validate.{SchemaError, Marks, SelectLinks, is_empty, validate_schema}
use sqlite3gen.Schema.Links.{schema_valid, validate_schema_lem}
use sqlite3gen.Schema.Tables.{is_empty_lem}
use sqlite3gen.Emit.Machine.{Piece}
use sqlite3gen.Driver.{DriverError, no_package, Output, generate, validated, parsed, main}

-- The schema of a run that writes files.
abbrev pub IsChecked : Option SchemaDef → Type 0
IsChecked found =
    (schema : SchemaDef) × (found ≡ some schema)
    × (schema_valid schema ≡ true)
    × (text_eq schema.package_name [] ≡ false)

abbrev refusal : DriverError → Result DriverError Output
refusal e = err e

refused : (e : DriverError) (o : Output) (P : Type 0) → refusal e ≡ ok o → P
refused e o P h = cc

module _ (templates : Text → List Piece) (opens : Text → Bool) where
  generate-package :
      (c h p : Text) (schema : SchemaDef) (marks : Marks) (links : List SelectLinks) (o : Output)
      → generate templates opens c h p schema marks links ≡ ok o
      → is_empty schema.package_name ≡ false
  unfolding generate
  generate-package c h p schema marks links o run =
      elim (Bool-cases (is_empty schema.package_name)) [
        | inl e ↦ refused no_package o _ (rw e at run)
        | inr e ↦ e
      ]

  validated-package :
      (c h p : Text) (schema : SchemaDef) (r : Result SchemaError (Marks × List SelectLinks))
      (o : Output)
      → validated templates opens c h p schema r ≡ ok o
      → (is_ok r ≡ true) × (is_empty schema.package_name ≡ false)
  unfolding validated
  validated-package c h p schema (err e) o run = cc
  validated-package c h p schema (ok stored) o run =
      (refl, generate-package c h p schema stored.0 stored.1 o run)

  parsed-IsChecked :
      (c h p : Text) (found : Option SchemaDef) (o : Output)
      → parsed templates opens c h p found ≡ ok o
      → IsChecked found
  unfolding parsed
  parsed-IsChecked c h p none o run = cc
  parsed-IsChecked c h p (some schema) o run =
      let (valid, package_named) = validated-package c h p schema (validate_schema schema) o run in
      (
        schema,
        refl,
        sym (validate_schema_lem schema) ∙ valid,
        is_empty_lem schema.package_name ∙ package_named,
      )

  -- A run of the generator that writes its files had a schema that the validation takes and that
  -- names a package.
  pub main-IsChecked :
      (parse : Text → Option SchemaDef) (schema_file cc_file h_file proto_file : Text) (o : Output)
      → main templates opens parse (schema_file ∷ cc_file ∷ h_file ∷ proto_file ∷ []) ≡ ok o
      → IsChecked (parse schema_file)
  unfolding main
  main-IsChecked parse schema_file cc_file h_file proto_file o run =
      parsed-IsChecked cc_file h_file proto_file (parse schema_file) o run
