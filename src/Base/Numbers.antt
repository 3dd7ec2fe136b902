-- ===== src/Base/Numbers.antt =====
-- Integers of the source, and how `<<` writes a number.
use Prim.Native.Nat.{ℕ, zero, suc, ◌+◌, ◌-◌, ◌*◌, ◌/◌, ◌%◌, ◌≤◌}
use mathlib.Core.Path.{◌≡◌, ◌∙◌, ap}
use mathlib.Core.Bool.{Bool, true, false}
use mathlib.Core.Logic.{inl, inr}
use mathlib.Core.List.{[], ◌∷◌}
use native.Mathlib.Omega.{arith}
use sqlite3gen.Base.Tests.{ltb, ◌==◌, if◌then◌else◌, Bool-cases}
use sqlite3gen.Base.Text.{Text}

-- A signed integer: `negsuc n` is -(n + 1).
pub data ℤ : Type 0 where
  pos : ℕ → ℤ
  negsuc : ℕ → ℤ

abbrev pub minus_one : ℤ
minus_one = negsuc 0

abbrev pub is_minus_one : ℤ → Bool
is_minus_one (pos n) = false
is_minus_one (negsuc n) = n == 0

abbrev pub is_nonzero : ℤ → Bool
is_nonzero (pos n) = ltb 0 n
is_nonzero (negsuc n) = true

-- The digits of `n` before those of `out`. A round divides by ten, so `n` rounds are enough.
unfoldable pub digits : (fuel n : ℕ) → Text → Text
digits zero n out = (48 + n % 10) ∷ out
digits (suc fuel) n out =
    let rest = digits fuel (n / 10) ((48 + n % 10) ∷ out) in
    if ltb n 10 then (48 + n) ∷ out else rest

unfoldable pub decimal : ℕ → Text
unfolding digits
decimal n = digits n n []

unfoldable pub show_int : ℤ → Text
unfolding decimal
show_int (pos n) = decimal n
show_int (negsuc n) = 45 ∷ decimal (suc n)

-- The number that a text of digits stands for, behind the digits of `n`.
unfoldable pub value : Text → ℕ → ℕ
value [] n = n
value (c ∷ cs) n = value cs (n * 10 + (c - 48))

value-digits : (fuel n : ℕ) (out : Text) → n ≤ fuel → value (digits fuel n out) 0 ≡ value out n
unfolding digits value
value-digits zero n out h = ap (value out) (omega arith)
value-digits (suc fuel) n out h = elim (Bool-cases (ltb n 10)) [
  | inl e ↦ rw e (ap (value out) (omega arith))
  | inr e ↦ rw e (
      value-digits fuel (n / 10) ((48 + n % 10) ∷ out) (ground arith)
      ∙ ap (value out) (omega arith))
]

-- The decimal text of a number reads back as the number.
pub value-decimal : (n : ℕ) → value (decimal n) 0 ≡ n
unfolding decimal value
value-decimal n = value-digits n n [] (omega arith)
