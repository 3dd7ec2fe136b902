-- ===== src/Emit/Machine.antt =====
-- emit_source.cc, emit_header.cc, emit_proto.cc: what their statements do. An emitter is a function
-- from a schema to the list of its statements: the tests of an emitter read the schema only, never a
-- pattern or a stream. The state is the map of patterns and the texts of the streams by name, the
-- file that is written being the stream `out`. The templates, which the build generates, are a
-- parameter: a body of literal text and patterns for each name.
use Prim.Native.String.{String}
use sqlite3gen.Base.{Bool, true, not, ◌&&◌, List, [], ◌∷◌, ◌++◌, if◌then◌else◌}
use sqlite3gen.Base.Text.{Text, codes, text_eq}
use sqlite3gen.Base.Result.{Result, ok, err, and_then}
use sqlite3gen.Template.Patterns.{find_pattern, set_pattern}
use sqlite3gen.Emit.Types.{EmitError, pattern_error}

-- `patterns[key] = value`, `patterns[key] = stream.str()`, a declaration of a stream or `stream.str("")`,
-- `stream << words`, `stream << source.str()`, a call `output_template(stream, patterns)`, and `exit(1)`.
pub data Cmd : Type 0 where
  put : (key value : Text) → Cmd
  put_stream : (key stream : Text) → Cmd
  fresh : (stream : Text) → Cmd
  text : (stream words : Text) → Cmd
  copy : (source stream : Text) → Cmd
  output : (template stream : Text) → Cmd
  stop : EmitError → Cmd

pub data Piece : Type 0 where
  literal : Text → Piece
  pattern_of : Text → Piece

pub record Emitter : Type 0 where
  pub patterns : List (Text × Text)
  pub streams : Text → Text

unfoldable pub append_to : Text → Text → Emitter → Emitter
append_to stream words e = record e {
  streams = λ name. if text_eq stream name then e.streams name ++ words else e.streams name;
}

-- What an `output_` function writes, until a pattern is not defined.
unfoldable pub render : (template : Text) → List Piece → List (Text × Text) → Result EmitError Text
unfolding find_pattern
render template [] patterns = ok []
render template (literal words ∷ pieces) patterns =
    and_then (render template pieces patterns) λ rest. ok (words ++ rest)
render template (pattern_of p ∷ pieces) patterns = elim (find_pattern patterns p template) [
  | err e ↦ err (pattern_error e)
  | ok value ↦ and_then (render template pieces patterns) λ rest. ok (value ++ rest)
]

module _ (templates : Text → List Piece) where
  unfoldable pub exec_one : Cmd → Emitter → Result EmitError Emitter
  unfolding set_pattern append_to render
  exec_one (put key value) e = ok (record e { patterns = set_pattern key value e.patterns })
  exec_one (put_stream key stream) e =
      ok (record e { patterns = set_pattern key (e.streams stream) e.patterns })
  exec_one (fresh stream) e =
      ok (record e { streams = λ name. if text_eq stream name then [] else e.streams name })
  exec_one (text stream words) e = ok (append_to stream words e)
  exec_one (copy source stream) e = ok (append_to stream (e.streams source) e)
  exec_one (output template stream) e =
      and_then (render template (templates template) e.patterns)
        λ words. ok (append_to stream words e)
  exec_one (stop e') e = err e'

  unfoldable pub exec : List Cmd → Emitter → Result EmitError Emitter
  unfolding exec_one
  exec [] e = ok e
  exec (c ∷ cs) e = and_then (exec_one c e) λ e'. exec cs e'

-- The words that the statements send to a stream by `<<`.
abbrev pub word_of : Text → Cmd → Text
word_of s (put key value) = []
word_of s (put_stream key stream) = []
word_of s (fresh stream) = []
word_of s (text stream words) = if text_eq stream s then words else []
word_of s (copy source stream) = []
word_of s (output template stream) = []
word_of s (stop e) = []

abbrev pub words_of : Text → List Cmd → Text
words_of s [] = []
words_of s (c ∷ cs) = word_of s c ++ words_of s cs

-- Whether a statement neither clears a stream nor sends a template or another stream to it.
abbrev pub leaves : Text → Cmd → Bool
leaves s (put key value) = true
leaves s (put_stream key stream) = true
leaves s (fresh stream) = not (text_eq stream s)
leaves s (text stream words) = true
leaves s (copy source stream) = not (text_eq stream s)
leaves s (output template stream) = not (text_eq stream s)
leaves s (stop e) = true

abbrev pub leaves_all : Text → List Cmd → Bool
leaves_all s [] = true
leaves_all s (c ∷ cs) = leaves s c && leaves_all s cs

-- The statements by the names of their keys, streams and templates.
abbrev pub puts : String → Text → Cmd
puts key value = put (codes key) value

-- SET_PATTERN.
abbrev pub pat : String → Cmd
pat key = put_stream (codes key) (codes key)

abbrev pub new : String → Cmd
new stream = fresh (codes stream)

abbrev pub say : String → Text → Cmd
say stream words = text (codes stream) words

abbrev pub out : String → String → Cmd
out template stream = output (codes template) (codes stream)

-- The streams that a block declares, and the patterns that it sets from streams.
abbrev pub news : List String → List Cmd
news [] = []
news (s ∷ ss) = new s ∷ news ss

abbrev pub pats : List String → List Cmd
pats [] = []
pats (s ∷ ss) = pat s ∷ pats ss

-- An assignment of a name that the type may not have.
abbrev pub puts_or : String → Result EmitError Text → List Cmd
puts_or key (ok value) = puts key value ∷ []
puts_or key (err e) = stop e ∷ []
