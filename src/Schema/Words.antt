-- ===== src/Schema/Words.antt =====
-- parser.yy: `find_first_of('.')` with the two `substr` on each side of it.
use sqlite3gen.Base.{
  ℕ, ◌≡◌, refl, Bool, false, ◌||◌, Option, none, some, [], ◌∷◌, ◌++◌, arith, ◌==◌, if◌then◌else◌,
}
use sqlite3gen.Base.Text.{Text}

abbrev pub dot : ℕ
dot = 46

-- The texts before and behind the first dot.
unfoldable pub split_dot : Text → Option (Text × Text)
split_dot [] = none
split_dot (c ∷ cs) =
    if c == dot
    then some ([], cs)
    else elim (split_dot cs) [ none ↦ none | some (table, field) ↦ some (c ∷ table, field) ]

abbrev pub has_dot : Text → Bool
has_dot [] = false
has_dot (c ∷ cs) = (c == dot) || has_dot cs

-- A table name without a dot, a dot and a field name come apart at that dot.
pub split_dot-append :
    (table field : Text)
    → has_dot table ≡ false
    → split_dot (table ++ dot ∷ field) ≡ some (table, field)
unfolding split_dot
split_dot-append [] field h = refl
split_dot-append (c ∷ cs) field h = ground (arith, split_dot-append cs field)
