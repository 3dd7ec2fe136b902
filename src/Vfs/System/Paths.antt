-- ===== src/Vfs/System/Paths.antt =====
-- aes_vfs/aes_vfs.cc: the name that `my_xFullPathname` leaves in the buffer of sqlite3.
use sqlite3gen.Base.{
  ℕ, zero, suc, ◌+◌, ◌-◌, ◌≤◌, ◌<◌, ◌^◌, ◌≡◌, refl, ◌∙◌, ap, some, [], ◌∷◌, ◌++◌, arith, length,
  take, get_or, All, ltb, ◌==◌, if◌then◌else◌, Bool-cases, inl, inr,
}
use sqlite3gen.Base.Text.{Text}
use sqlite3gen.Vfs.Memory.{Buffer, memset}
use sqlite3gen.Vfs.System.{System, strncpy, snprintf, one_less, slash, is_absolute, x_full_pathname}

-- The string at `i` of a buffer, up to a NUL or the end after `n` bytes.
abbrev pub c_string : (n i : ℕ) → Buffer → Text
c_string zero i b = []
c_string (suc n) i b = let rest = c_string n (i + 1) b in if b i == 0 then [] else b i ∷ rest

-- No byte is a NUL.
abbrev pub NoNul : Text → Type 0
NoNul t = All (λ c. 0 < c) t

c_string-get_or :
    (n i : ℕ) (b : Buffer) (t : Text)
    → NoNul t
    → length t ≤ n
    → ((j : ℕ) → j < n → b (i + j) ≡ get_or t j 0)
    → c_string n i b ≡ t
c_string-get_or zero i b [] z l h = refl
c_string-get_or zero i b (c ∷ t) z l h = absurd (omega arith)
c_string-get_or (suc n) i b [] z l h = ground (arith, h 0)
c_string-get_or (suc n) i b (c ∷ t) z l h =
    let here : b i ≡ c = ap b (omega arith) ∙ h 0 (omega arith) in
    let there : c_string n (i + 1) b ≡ t =
      c_string-get_or n (i + 1) b t z.1 (omega arith)
        (λ j k. ap b (omega arith) ∙ h (suc j) (omega arith)) in
    ground (arith, here, there, z.0)

NoNul-take : (k : ℕ) (t : Text) → NoNul t → NoNul (take k t)
NoNul-take zero t z = tt
NoNul-take (suc k) [] z = tt
NoNul-take (suc k) (c ∷ t) z = (z.0, NoNul-take k t z.1)

NoNul-append : (s t : Text) → NoNul s → NoNul t → NoNul (s ++ t)
NoNul-append [] t z w = w
NoNul-append (c ∷ s) t z w = (z.0, NoNul-append s t z.1 w)

length-take : (k : ℕ) (t : Text) → length (take k t) ≤ k
length-take zero t = omega arith
length-take (suc k) [] = omega arith
length-take (suc k) (c ∷ t) = omega (arith, length-take k t)

get_or-take :
    (k : ℕ) (t : Text) (j : ℕ) → get_or (take k t) j 0 ≡ (if ltb j k then get_or t j 0 else 0)
get_or-take zero t j = ground arith
get_or-take (suc k) [] j = ground arith
get_or-take (suc k) (c ∷ t) zero = ground arith
get_or-take (suc k) (c ∷ t) (suc j) = get_or-take k t j ∙ ground arith

get_or_beyond : (t : Text) (j : ℕ) → length t ≤ j → get_or t j 0 ≡ 0
get_or_beyond [] j h = refl
get_or_beyond (c ∷ t) zero h = absurd (omega arith)
get_or_beyond (c ∷ t) (suc j) h = get_or_beyond t j (omega arith)

one_less_lem : (n : ℕ) → 1 ≤ n → n < 2 ^ 64 → one_less n ≡ n - 1
unfolding one_less
one_less_lem n h k = omega arith

strncpy-take :
    (z_out : Buffer) (t : Text) (n j : ℕ)
    → j < n
    → strncpy (memset z_out 0 0 n) t (n - 1) j ≡ get_or (take (n - 1) t) j 0
unfolding strncpy memset
strncpy-take z_out t n j h = ground (arith, get_or-take (n - 1) t j, h)

snprintf-take :
    (z_out : Buffer) (t : Text) (n j : ℕ)
    → j < n
    → snprintf (memset z_out 0 0 n) (n - 1) t j ≡ get_or (take (n - 2) t) j 0
unfolding snprintf memset
snprintf-take z_out t n j h = ground (arith, get_or-take (n - 2) t j, get_or_beyond t j, h)

-- The path of a name.
abbrev pub full_path : (cwd z_name : Text) → Text
full_path cwd z_name = if is_absolute z_name then z_name else cwd ++ slash ∷ z_name

-- How many of its bytes there is room for: a relative one gets a byte less.
abbrev pub room : (z_name : Text) (n_out : ℕ) → ℕ
room z_name n_out = if is_absolute z_name then n_out - 1 else n_out - 2

module _ (y : System) (garbage z_name cwd : Text) (n_out : ℕ) (z_out : Buffer) (s : y.State) where
  written_name :
      (known : y.getcwd 511 s ≡ some cwd)
      → 1 ≤ n_out
      → n_out < 2 ^ 64
      → (j : ℕ) → j < n_out
      → (x_full_pathname y garbage z_name n_out z_out s).1 j
        ≡ get_or (take (room z_name n_out) (full_path cwd z_name)) j 0
  unfolding x_full_pathname
  written_name known a b j h = elim (Bool-cases (is_absolute z_name)) [
    | inl e ↦ rw (e, one_less_lem n_out a b) (strncpy-take z_out z_name n_out j h)
    | inr e ↦
        rw (e, known, one_less_lem n_out a b)
          (snprintf-take z_out (cwd ++ slash ∷ z_name) n_out j h)
  ]

  NoNul-full_path : NoNul z_name → NoNul cwd → NoNul (full_path cwd z_name)
  NoNul-full_path a b = elim (Bool-cases (is_absolute z_name)) [
    | inl e ↦ rw e a
    | inr e ↦ rw e (NoNul-append cwd (slash ∷ z_name) b (omega arith, a))
  ]

  frame :
      (known : y.getcwd 511 s ≡ some cwd)
      → 1 ≤ n_out
      → n_out < 2 ^ 64
      → (i : ℕ) → n_out ≤ i
      → (x_full_pathname y garbage z_name n_out z_out s).1 i ≡ z_out i
  unfolding x_full_pathname strncpy snprintf memset
  frame known a b i h = elim (Bool-cases (is_absolute z_name)) [
    | inl e ↦ rw (e, one_less_lem n_out a b) (ground arith)
    | inr e ↦ rw (e, one_less_lem n_out a b) (ground arith)
  ]

  room_fits : 1 ≤ n_out → room z_name n_out ≤ n_out
  room_fits a = ground arith

  -- xFullPathname leaves in zOut the name, if it starts with a slash, or else the working
  -- directory, a slash and the name, cut to nOut - 1 bytes in the first case and to nOut - 2 in
  -- the second, then a NUL within the nOut bytes, and writes no byte beyond them, where getcwd
  -- does not fail, nOut is at least 1 and below 2 ^ 64, and neither string holds a NUL.
  pub x_full_pathname_lem :
      (known : y.getcwd 511 s ≡ some cwd)
      → 1 ≤ n_out
      → n_out < 2 ^ 64
      → NoNul z_name
      → NoNul cwd
      → (c_string n_out 0 (x_full_pathname y garbage z_name n_out z_out s).1
          ≡ take (room z_name n_out) (full_path cwd z_name))
        × ((i : ℕ) → n_out ≤ i → (x_full_pathname y garbage z_name n_out z_out s).1 i ≡ z_out i)
  x_full_pathname_lem known a b z w =
      let t = full_path cwd z_name in
      let k = room z_name n_out in
      (
        c_string-get_or n_out 0 (x_full_pathname y garbage z_name n_out z_out s).1 (take k t)
            (NoNul-take k t (NoNul-full_path z w)) (omega (arith, length-take k t, room_fits a))
            (λ j h.
              ap (x_full_pathname y garbage z_name n_out z_out s).1 (omega arith)
              ∙ written_name known a b j h),
        frame known a b,
      )
