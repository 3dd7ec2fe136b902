-- ===== src/Base/Result.antt =====
-- The outcome of code that may stop with an error, by `exit` or by a result code.
use mathlib.Core.Path.{◌≡◌, refl, ap, ◌∙◌}
use mathlib.Core.Logic.{◌⊎◌, inl, inr}
use mathlib.Core.Bool.{Bool, true, false, ◌&&◌, ◌||◌}
use sqlite3gen.Base.Tests.{is_some}
use mathlib.Core.Option.{Option, none, some}
use mathlib.Core.List.{List, [], ◌∷◌}

pub data Result {ℓ κ} (E : Type ℓ) (A : Type κ) : Type (ℓ ⊔ κ) where
  ok : A → Result E A
  err : E → Result E A

module _ {ℓ κ} {E : Type ℓ} {A : Type κ} where
  -- What follows runs where there was no error.
  abbrev pub and_then {μ} : {B : Type μ} → Result E A → (A → Result E B) → Result E B
  and_then (ok a) f = f a
  and_then (err e) f = err e

  abbrev pub ok_or : Option A → E → Result E A
  ok_or (some a) e = ok a
  ok_or none e = err e

  pub Result-cases : (r : Result E A) → ((a : A) × (r ≡ ok a)) ⊎ ((e : E) × (r ≡ err e))
  Result-cases (ok a) = inl (a, refl)
  Result-cases (err e) = inr (e, refl)

  -- Both halves of a sequence that ends well ended well.
  pub and_then_ok {μ} :
      {B : Type μ} (r : Result E A) (f : A → Result E B) (b : B)
      → and_then r f ≡ ok b
      → (a : A) × (r ≡ ok a) × (f a ≡ ok b)
  and_then_ok (ok a) f b h = (a, refl, h)
  and_then_ok (err e) f b h = cc

module _ {ℓ} {E : Type ℓ} where
  abbrev pub require : Bool → E → Result E (Unit {0})
  require true e = ok tt
  require false e = err e

  pub require_ok : (b : Bool) (e : E) → require b e ≡ ok tt → b ≡ true
  require_ok true e h = refl
  require_ok false e h = cc

-- A loop that stops at the first error.
abbrev pub each {ℓ κ} :
    {E : Type ℓ} {A : Type κ} → (A → Result E (Unit {0})) → List A → Result E (Unit {0})
each f [] = ok tt
each f (x ∷ xs) = and_then (f x) (λ _. each f xs)

abbrev pub is_ok {ℓ κ} : {E : Type ℓ} {A : Type κ} → Result E A → Bool
is_ok (ok a) = true
is_ok (err e) = false

module _ {ℓ κ} {E : Type ℓ} {A : Type κ} where
  pub is_ok-ok_or : (o : Option A) (e : E) → is_ok (ok_or o e) ≡ is_some o
  is_ok-ok_or none e = refl
  is_ok-ok_or (some a) e = refl

  -- The second half says nothing of the value of the first.
  pub is_ok-and_then {μ} :
      {B : Type μ} (r : Result E A) (s : Result E B)
      → is_ok (and_then r (λ _. s)) ≡ (is_ok r && is_ok s)
  is_ok-and_then (ok a) s = refl
  is_ok-and_then (err e) s = refl

module _ {ℓ} {E : Type ℓ} where
  pub is_ok-require : (b : Bool) (e : E) → is_ok (require b e) ≡ b
  is_ok-require true e = refl
  is_ok-require false e = refl

pub require_then {ℓ κ} :
    {E : Type ℓ} {A : Type κ} (b : Bool) (e : E) (s : Result E A)
    → is_ok (and_then (require b e) (λ _. s)) ≡ (b && is_ok s)
require_then true e s = refl
require_then false e s = refl

abbrev pub any {ℓ} : {A : Type ℓ} → (A → Bool) → List A → Bool
any test [] = false
any test (x ∷ xs) = test x || any test xs

abbrev pub all {ℓ} : {A : Type ℓ} → (A → Bool) → List A → Bool
all test [] = true
all test (x ∷ xs) = test x && all test xs

-- The loop ends well where its body does on every element.
pub each_lem {ℓ κ} :
    {E : Type ℓ} {A : Type κ} (f : A → Result E (Unit {0})) (test : A → Bool) (xs : List A)
    → ((x : A) → is_ok (f x) ≡ test x)
    → is_ok (each f xs) ≡ all test xs
each_lem f test [] h = refl
each_lem f test (x ∷ xs) h =
    is_ok-and_then (f x) (each f xs)
    ∙ ap (λ (b : Bool). b && is_ok (each f xs)) (h x)
    ∙ ap (λ (b : Bool). test x && b) (each_lem f test xs h)

-- A look-up, and what follows where it found something.
pub after_found {ℓ κ μ} :
    {E : Type ℓ} {A : Type κ} {B : Type μ} (o : Option A) (e : E) (f : A → Result E B)
    (test : A → Bool)
    → ((a : A) → is_ok (f a) ≡ test a)
    → is_ok (and_then (ok_or o e) f) ≡ elim o [ none ↦ false | some a ↦ test a ]
after_found none e f test h = refl
after_found (some a) e f test h = h a

pub require_last {ℓ κ} :
    {E : Type ℓ} {A : Type κ} (b : Bool) (e : E) (a : A)
    → is_ok (and_then (require b e) (λ _. ok a)) ≡ b
require_last true e a = refl
require_last false e a = refl

pub is_ok_after {ℓ κ μ} :
    {E : Type ℓ} {A : Type κ} {B : Type μ} (r : Result E A) (f : A → Result E B) (test : Bool)
    → ((a : A) → is_ok (f a) ≡ test)
    → is_ok (and_then r f) ≡ (is_ok r && test)
is_ok_after (ok a) f test h = h a
is_ok_after (err e) f test h = refl

pub found_some {ℓ} :
    {A : Type ℓ} (o : Option A) → elim o [ none ↦ false | some a ↦ true ] ≡ is_some o
found_some none = refl
found_some (some a) = refl

pub require_value {ℓ κ μ} :
    {E : Type ℓ} {A : Type κ} {B : Type μ} (b : Bool) (e : E) (a : A) (f : A → Result E B)
    → is_ok (and_then (and_then (require b e) (λ _. ok a)) f) ≡ (b && is_ok (f a))
require_value true e a f = refl
require_value false e a f = refl

pub map_value {ℓ κ ν μ} :
    {E : Type ℓ} {A : Type κ} {C : Type ν} {B : Type μ} (r : Result E A) (g : A → C)
    (f : C → Result E B) (test : Bool)
    → ((a : A) → is_ok (f (g a)) ≡ test)
    → is_ok (and_then (and_then r (λ a. ok (g a))) f) ≡ (is_ok r && test)
map_value (ok a) g f test h = h a
map_value (err e) g f test h = refl
