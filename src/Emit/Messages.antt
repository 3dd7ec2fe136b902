-- ===== src/Emit/Messages.antt =====
-- emit_proto.cc: the messages and the fields that go into the proto file.
use sqlite3gen.Base.{
  append_assoc, ◌≡◌, refl, sym, ◌∙◌, ap, Bool, List, [], ◌∷◌, ◌++◌, if◌then◌else◌, Bool-cases, inl,
  inr, map,
}
use sqlite3gen.Base.Text.{Text, codes, text_eq}
use sqlite3gen.Base.Result.{any}
use sqlite3gen.Schema.{FieldDef, TableDef}
use sqlite3gen.Emit.Machine.{Cmd, put, put_stream, fresh, text, copy, output, stop}
use sqlite3gen.Emit.Words.{template_of, templates_of}
use sqlite3gen.Emit.Common.{has_protoid}
use sqlite3gen.Emit.Proto.{proto_field, proto_fields}

abbrev pub keep {ℓ} : {A : Type ℓ} → (A → Bool) → List A → List A
keep test [] = []
keep test (x ∷ xs) = if test x then x ∷ keep test xs else keep test xs

templates_append :
    (s : Text) (cs ds : List Cmd)
    → templates_of s (cs ++ ds) ≡ templates_of s cs ++ templates_of s ds
templates_append s [] ds = refl
templates_append s (c ∷ cs) ds =
    ap (λ (ts : List Text). template_of s c ++ ts) (templates_append s cs ds)
    ∙ sym (append_assoc (template_of s c) (templates_of s cs) (templates_of s ds))

abbrev out_file : Text
out_file = codes "out"

abbrev field_stream : Text
field_stream = codes "protofields"

-- Each field with a protoid adds one field to its message.
proto_fields_lem :
    (fds : List FieldDef)
    → templates_of field_stream (proto_fields fds)
      ≡ map (λ fd. codes "PROTO_protofield") (keep has_protoid fds)
unfolding proto_fields proto_field text_eq
proto_fields_lem [] = refl
proto_fields_lem (fd ∷ fds) =
    templates_append field_stream (proto_field fd) (proto_fields fds)
    ∙ elim (Bool-cases (has_protoid fd)) [
      | inl e ↦ rw (e, proto_fields_lem fds) refl
      | inr e ↦ rw (e, proto_fields_lem fds) refl
    ]

abbrev pub has_message : TableDef → Bool
has_message td = any has_protoid td.fields

-- The messages that statements send to the file, each with the table that it names and the names of
-- the fields in its block: what the patterns and the block are at the statement that sends it.
abbrev pub messages : (table field : Text) (block : List Text) → List Cmd → List (Text × List Text)
messages table field block [] = []
messages table field block (put key value ∷ cs) =
    if text_eq key (codes "tablename")
    then messages value field block cs
    else if text_eq key (codes "fieldname")
    then messages table value block cs
    else messages table field block cs
messages table field block (put_stream key stream ∷ cs) = messages table field block cs
messages table field block (fresh stream ∷ cs) =
    if text_eq stream field_stream
    then messages table field [] cs
    else messages table field block cs
messages table field block (text stream words ∷ cs) = messages table field block cs
messages table field block (copy source stream ∷ cs) = messages table field block cs
messages table field block (output template stream ∷ cs) =
    if text_eq stream field_stream
    then messages table field (block ++ field ∷ []) cs
    else if text_eq template (codes "PROTO_message")
    then (table, block) ∷ messages table field block cs
    else messages table field block cs
messages table field block (stop e ∷ cs) = messages table field block cs

-- The names of the fields that a message has.
abbrev pub field_names : List FieldDef → List Text
field_names fds = map (λ fd. fd.name) (keep has_protoid fds)

-- The message of a table.
abbrev pub message : TableDef → Text × List Text
message td = (codes "TABLE_" ++ td.name, field_names td.fields)
