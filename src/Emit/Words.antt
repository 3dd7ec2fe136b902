-- ===== src/Emit/Words.antt =====
-- emit_source.cc, emit_header.cc, emit_proto.cc: what statements leave in a stream.
use sqlite3gen.Base.{
  append_nil, append_assoc, ◌≡◌, refl, sym, ◌∙◌, ap, Bool, true, false, not, ◌&&◌, List, [], ◌∷◌,
  ◌++◌, arith, if◌then◌else◌,
}
use sqlite3gen.Base.Text.{Text, text_eq}
use sqlite3gen.Base.Result.{Result, ok, err, and_then, and_then_ok}
use sqlite3gen.Emit.Types.{EmitError}
use sqlite3gen.Emit.Machine.{
  Cmd, put, put_stream, fresh, text, copy, output, stop, Piece, Emitter, exec_one, exec, append_to,
  render, word_of, words_of, leaves, leaves_all,
}

pub words_of-append :
    (s : Text) (cs ds : List Cmd) → words_of s (cs ++ ds) ≡ words_of s cs ++ words_of s ds
words_of-append s [] ds = refl
words_of-append s (c ∷ cs) ds =
    ap (λ (t : Text). word_of s c ++ t) (words_of-append s cs ds)
    ∙ sym (append_assoc (word_of s c) (words_of s cs) (words_of s ds))

pub leaves_all-append :
    (s : Text) (cs ds : List Cmd) → leaves_all s (cs ++ ds) ≡ (leaves_all s cs && leaves_all s ds)
leaves_all-append s [] ds = refl
leaves_all-append s (c ∷ cs) ds = ground (arith, leaves_all-append s cs ds)

-- The templates that go to a stream.
abbrev pub template_of : Text → Cmd → List Text
template_of s (put key value) = []
template_of s (put_stream key stream) = []
template_of s (fresh stream) = []
template_of s (text stream words) = []
template_of s (copy source stream) = []
template_of s (output template stream) = if text_eq stream s then template ∷ [] else []
template_of s (stop e) = []

abbrev pub templates_of : Text → List Cmd → List Text
templates_of s [] = []
templates_of s (c ∷ cs) = template_of s c ++ templates_of s cs

-- Whether a statement has nothing to do with a stream.
abbrev pub quiet : Text → Cmd → Bool
quiet s (put key value) = true
quiet s (put_stream key stream) = true
quiet s (fresh stream) = not (text_eq stream s)
quiet s (text stream words) = not (text_eq stream s)
quiet s (copy source stream) = not (text_eq stream s)
quiet s (output template stream) = not (text_eq stream s)
quiet s (stop e) = true

abbrev pub quiet_all : Text → List Cmd → Bool
quiet_all s [] = true
quiet_all s (c ∷ cs) = quiet s c && quiet_all s cs

pub quiet_all-append :
    (s : Text) (cs ds : List Cmd) → quiet_all s (cs ++ ds) ≡ (quiet_all s cs && quiet_all s ds)
quiet_all-append s [] ds = refl
quiet_all-append s (c ∷ cs) ds = ground (arith, quiet_all-append s cs ds)

word_of-quiet : (s : Text) (c : Cmd) → quiet s c ≡ true → word_of s c ≡ []
word_of-quiet s (put key value) h = refl
word_of-quiet s (put_stream key stream) h = refl
word_of-quiet s (fresh stream) h = refl
word_of-quiet s (text stream words) h = ground arith
word_of-quiet s (copy source stream) h = refl
word_of-quiet s (output template stream) h = refl
word_of-quiet s (stop e) h = refl

pub words_of-quiet : (s : Text) (cs : List Cmd) → quiet_all s cs ≡ true → words_of s cs ≡ []
words_of-quiet s [] h = refl
words_of-quiet s (c ∷ cs) h =
    rw (word_of-quiet s c (ground (arith, h))) (words_of-quiet s cs (ground (arith, h)))

leaves-quiet : (s : Text) (c : Cmd) → quiet s c ≡ true → leaves s c ≡ true
leaves-quiet s (put key value) h = refl
leaves-quiet s (put_stream key stream) h = refl
leaves-quiet s (fresh stream) h = h
leaves-quiet s (text stream words) h = refl
leaves-quiet s (copy source stream) h = h
leaves-quiet s (output template stream) h = h
leaves-quiet s (stop e) h = refl

pub leaves_all-quiet : (s : Text) (cs : List Cmd) → quiet_all s cs ≡ true → leaves_all s cs ≡ true
leaves_all-quiet s [] h = refl
leaves_all-quiet s (c ∷ cs) h =
    ground (arith, leaves-quiet s c (ground (arith, h)), leaves_all-quiet s cs (ground (arith, h)))

-- Statements send words to a stream, and nothing else happens to it.
abbrev pub Sends : Text → List Cmd → Text → Type 0
Sends s cs w = (words_of s cs ≡ w) × (leaves_all s cs ≡ true)

pub append-Sends :
    (s : Text) (cs ds : List Cmd) (v w : Text)
    → Sends s cs v
    → Sends s ds w
    → Sends s (cs ++ ds) (v ++ w)
append-Sends s cs ds v w (v_words, v_leaves) (w_words, w_leaves) =
    (words_of-append s cs ds ∙ cc, leaves_all-append s cs ds ∙ ground (arith, v_leaves, w_leaves))

-- Behind quiet statements, and before them.
pub quiet-Sends :
    (s : Text) (cs ds : List Cmd) (w : Text)
    → quiet_all s cs ≡ true
    → Sends s ds w
    → Sends s (cs ++ ds) w
quiet-Sends s cs ds w q h =
    append-Sends s cs ds [] w (words_of-quiet s cs q, leaves_all-quiet s cs q) h

pub Sends-quiet :
    (s : Text) (cs ds : List Cmd) (w : Text)
    → Sends s cs w
    → quiet_all s ds ≡ true
    → Sends s (cs ++ ds) w
Sends-quiet s cs ds w (words, leaves) q = (
  words_of-append s cs ds ∙ rw (words_of-quiet s ds q) (append_nil (words_of s cs) ∙ words),
  leaves_all-append s cs ds ∙ ground (arith, leaves, leaves_all-quiet s ds q),
)

pub nothing-Sends : (s : Text) (cs : List Cmd) → quiet_all s cs ≡ true → Sends s cs []
nothing-Sends s cs q = (words_of-quiet s cs q, leaves_all-quiet s cs q)

then_both :
    (r : Result EmitError Emitter) (f g h : Emitter → Result EmitError Emitter)
    → ((e : Emitter) → f e ≡ and_then (g e) h)
    → and_then r f ≡ and_then (and_then r g) h
then_both (ok e) f g h same = same e
then_both (err e) f g h same = refl

abbrev okay : Emitter → Result EmitError Emitter
okay e = ok e

pub ok_inj : {e e' : Emitter} → okay e ≡ ok e' → e ≡ e'
ok_inj {e} h = ap (λ (r : Result EmitError Emitter). elim r [ ok x ↦ x | err x ↦ e ]) h

same_stream : {e e' : Emitter} (s : Text) → okay e ≡ ok e' → e'.streams s ≡ e.streams s
same_stream s h = ap (λ (x : Emitter). x.streams s) (sym (ok_inj h))

kept : (same : Bool) (a b : Text) → not same ≡ true → (if same then a else b) ≡ b
kept true a b h = cc
kept false a b h = refl

added :
    (same : Bool) (a words : Text)
    → (if same then a ++ words else a) ≡ a ++ (if same then words else [])
added true a words = refl
added false a words = sym (append_nil a)

module _ (templates : Text → List Piece) where
  pub exec-append :
      (cs ds : List Cmd) (e : Emitter)
      → exec templates (cs ++ ds) e ≡ and_then (exec templates cs e) (exec templates ds)
  unfolding exec
  exec-append [] ds e = refl
  exec-append (c ∷ cs) ds e = then_both (exec_one templates c e) _ _ _ (λ e'. exec-append cs ds e')

  -- A run of a sequence that does not stop is a run of each half.
  pub exec-split :
      (cs ds : List Cmd) (e e' : Emitter)
      → exec templates (cs ++ ds) e ≡ ok e'
      → (e1 : Emitter) × (exec templates cs e ≡ ok e1) × (exec templates ds e1 ≡ ok e')
  exec-split cs ds e e' run =
      and_then_ok (exec templates cs e) (exec templates ds) e' (sym (exec-append cs ds e) ∙ run)

  exec_one-word_of :
      (c : Cmd) (e e' : Emitter) (s : Text)
      → exec_one templates c e ≡ ok e'
      → leaves s c ≡ true
      → e'.streams s ≡ e.streams s ++ word_of s c
  unfolding exec_one append_to
  exec_one-word_of (put key value) e e' s h l = same_stream s h ∙ sym (append_nil _)
  exec_one-word_of (put_stream key stream) e e' s h l = same_stream s h ∙ sym (append_nil _)
  exec_one-word_of (fresh stream) e e' s h l =
      same_stream s h ∙ kept (text_eq stream s) _ _ l ∙ sym (append_nil _)
  exec_one-word_of (text stream words) e e' s h l =
      same_stream s h ∙ added (text_eq stream s) _ words
  exec_one-word_of (copy source stream) e e' s h l =
      same_stream s h ∙ kept (text_eq stream s) _ _ l ∙ sym (append_nil _)
  exec_one-word_of (output template stream) e e' s h l =
      let (words, rendered, run) =
        and_then_ok (render template (templates template) e.patterns)
          (λ words. okay (append_to stream words e)) e' h in
      same_stream {e = append_to stream words e} s run
      ∙ kept (text_eq stream s) _ _ l
      ∙ sym (append_nil _)
  exec_one-word_of (stop err') e e' s h l = cc

  -- A run that does not stop with an error adds to a stream the words that its statements send
  -- there, where none of them clears it or sends a template or another stream to it.
  pub exec-words_of :
      (cs : List Cmd) (e e' : Emitter) (s : Text)
      → exec templates cs e ≡ ok e'
      → leaves_all s cs ≡ true
      → e'.streams s ≡ e.streams s ++ words_of s cs
  unfolding exec
  exec-words_of [] e e' s h l = same_stream s h ∙ sym (append_nil _)
  exec-words_of (c ∷ cs) e e' s h l =
      let (e1, one, rest) = and_then_ok _ _ e' h in
      exec-words_of cs e1 e' s rest (ground (arith, l))
      ∙ ap (λ (t : Text). t ++ words_of s cs) (exec_one-word_of c e e1 s one (ground (arith, l)))
      ∙ append_assoc (e.streams s) (word_of s c) (words_of s cs)

  -- A stream that is empty holds at the end of a run what was sent to it.
  pub sent :
      (cs : List Cmd) (e e' : Emitter) (s w : Text)
      → exec templates cs e ≡ ok e'
      → e.streams s ≡ []
      → Sends s cs w
      → e'.streams s ≡ w
  sent cs e e' s w run empty (words, leaves) = exec-words_of cs e e' s run leaves ∙ rw empty words
