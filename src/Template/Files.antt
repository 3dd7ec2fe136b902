-- ===== src/Template/Files.antt =====
-- template_to_c.cc: the loop of `main`, which reads the file of templates. A file is the text of its
-- bytes. `fuel` bounds the lines; `none` says that it ran out.
pub mod Blocks
use sqlite3gen.Base.{ℕ, zero, suc, Bool, Option, none, some, List, [], ◌∷◌, ◌==◌, if◌then◌else◌}
use sqlite3gen.Base.Text.{Text}
use sqlite3gen.Base.Result.{Result, ok, err}
use sqlite3gen.Template.Lines.{LineError, Reader, process_line}

abbrev pub newline : ℕ
newline = 10

-- `line.resize(300)`, of which `getline` fills all but the last.
abbrev pub line_room : ℕ
line_room = 299

abbrev pub prepend : ℕ → Option (Text × Text) → Option (Text × Text)
prepend c none = none
prepend c (some (line, rest)) = some (c ∷ line, rest)

-- `getline` with room for as many bytes: the line and what is left of the file, where the stream stays
-- good; it does not where the file ends before a newline, or the line is longer than the room.
unfoldable pub getline : ℕ → Text → Option (Text × Text)
getline room [] = none
getline zero (c ∷ cs) = if c == newline then some ([], cs) else none
getline (suc room) (c ∷ cs) =
    let rest = prepend c (getline room cs) in if c == newline then some ([], cs) else rest

-- What follows a line that `process_line` took, and a `getline`.
abbrev pub after_process :
    (Reader → Option (Result LineError Reader))
    → Result LineError Reader
    → Option (Result LineError Reader)
after_process k (err e) = some (err e)
after_process k (ok r) = k r

abbrev pub after_line :
    (Text → Reader → Option (Result LineError Reader))
    → Option (Text × Text)
    → Reader
    → Option (Result LineError Reader)
after_line k none r = some (ok r)
after_line k (some (line, rest)) r = after_process (k rest) (process_line line r)

unfoldable pub process_file : (fuel : ℕ) → Text → Reader → Option (Result LineError Reader)
unfolding getline
process_file zero file r = none
process_file (suc fuel) file r = after_line (process_file fuel) (getline line_room file) r
