-- ===== src/Template/Compile.antt =====
-- template_to_c.cc: `add_template`, which cuts the body of a template at the marks `@@`. What it writes
-- for a piece is C++ text whose run is that of a `Piece`; the comments of the header file, the line
-- numbers and the messages are left out.
pub mod RoundTrip
use sqlite3gen.Base.{
  ℕ, zero, suc, ◌+◌, ◌-◌, Bool, true, false, not, if◌then◌else◌, ◌&&◌, Option, none, some, List, [],
  ◌∷◌, ◌++◌, ◌==◌, take, drop,
}
use sqlite3gen.Base.Text.{Text, codes}
use sqlite3gen.Template.Escape.{escape}
use sqlite3gen.Emit.Machine.{Piece, literal, pattern_of}

abbrev pub at_sign : ℕ
at_sign = 64

-- A mark starts at `a`. The last two characters of the body are not looked at.
abbrev pub is_mark : (a : ℕ) → Text → Bool
is_mark a [] = false
is_mark a (b ∷ []) = false
is_mark a (b ∷ c ∷ cs) = (a == at_sign) && (b == at_sign)

-- The positions of the marks, from `ind` on. `skip` is the second `ind++` of the source: the
-- character at `ind` is the second one of a mark.
unfoldable pub find_ats : (skip : Bool) → (ind : ℕ) → Text → List ℕ
find_ats skip ind [] = []
find_ats skip ind (a ∷ rest) =
    let mark = not skip && is_mark a rest in
    let more = find_ats mark (suc ind) rest in if mark then ind ∷ more else more

unfoldable pub substr : Text → (position count : ℕ) → Text
substr body position count = take count (drop position body)

-- The pieces from `last_pos` on. With an odd count of marks the source reads behind the end of its
-- vector.
unfoldable pub pieces_of : (body : Text) → (last_pos : ℕ) → List ℕ → Option (List Piece)
unfolding substr
pieces_of body last_pos [] = some (literal (drop last_pos body) ∷ [])
pieces_of body last_pos (start ∷ []) = none
pieces_of body last_pos (start ∷ end ∷ ats) = elim (pieces_of body (end + 2) ats) [
  | none ↦ none
  | some rest ↦ some (
      literal (substr body last_pos (start - last_pos))
      ∷ pattern_of (substr body (start + 2) (end - start - 2))
      ∷ rest)
]

unfoldable pub add_template : (body : Text) → Option (List Piece)
unfolding find_ats pieces_of
add_template body = pieces_of body 0 (find_ats false 0 body)

-- The statement that is written for a piece.
unfoldable pub piece_code : (name : Text) → Piece → Text
unfolding escape
piece_code name (literal words) = codes "    out << \"" ++ escape words ++ codes "\";\n"
piece_code name (pattern_of p) =
    codes "    out << find_pattern(pattern_values, \""
    ++ p
    ++ codes "\", \""
    ++ name
    ++ codes "\");\n"

unfoldable pub pieces_code : (name : Text) → List Piece → Text
unfolding piece_code
pieces_code name [] = []
pieces_code name (p ∷ ps) = piece_code name p ++ pieces_code name ps

unfoldable pub template_code : (name : Text) → List Piece → Text
unfolding pieces_code
template_code name pieces =
    codes "\nvoid output_"
    ++ name
    ++ codes "(std::ostream &out, const pattern_value_map &pattern_values)\n{\n"
    ++ pieces_code name pieces
    ++ codes "}\n"
