-- ===== src/Driver/Names.antt =====
-- main.cc: the names of the proto file and of its header.
use sqlite3gen.Base.{
  ℕ, ◌+◌, ◌-◌, ◌≤◌, ◌≡◌, refl, sym, ◌∙◌, ap, false, ◌++◌, arith, ltb, length, length-append, take,
  drop, drop-append, take-append, take-drop, Bool-cases, inl, inr,
}
use sqlite3gen.Base.Text.{Text, codes, text_eq, text_eq_sound}
use sqlite3gen.Base.Result.{Result, ok, err}
use sqlite3gen.Driver.{DriverError, invalid_name, no_proto_suffix, proto_header}

abbrev suffix : Text
suffix = codes ".proto"

named :
    (base f : Text) (n : ℕ)
    → ltb (length f) 7 ≡ false
    → length f - 6 ≡ n
    → drop n f ≡ suffix
    → take n f ≡ base
    → proto_header f ≡ ok (base ++ codes ".pb.h")
unfolding proto_header text_eq
named base f n long at ends starts = rw (long, at, ends, starts) refl

-- A proto file whose name is at least one character and .proto gets the header of the same name
-- with .pb.h.
pub proto_header_lem :
    (base : Text)
    → 1 ≤ length base
    → proto_header (base ++ codes ".proto") ≡ ok (base ++ codes ".pb.h")
proto_header_lem base h =
    let len : length (base ++ suffix) ≡ length base + 6 = length-append base suffix in
    named base (base ++ suffix) (length base) (ground (arith, len, h)) (omega (arith, len))
      (drop-append base suffix) (take-append base suffix)

abbrev refusal : DriverError → Result DriverError Text
refusal e = err e

abbrev made_of : Text → Result DriverError Text
made_of t = ok t

refused : (e : DriverError) (header : Text) (P : Type 0) → refusal e ≡ ok header → P
refused e header P h = cc

made_name : (t header : Text) → made_of t ≡ ok header → t ≡ header
made_name t header h = ap (λ (r : Result DriverError Text). elim r [ ok x ↦ x | err e ↦ t ]) h

-- A proto file for which the generator gets the name of a header has a name that ends in .proto,
-- and the header has the same name with .pb.h in its place.
pub proto_header_only :
    (proto_file header : Text)
    → proto_header proto_file ≡ ok header
    → (base : Text) × (proto_file ≡ base ++ codes ".proto") × (header ≡ base ++ codes ".pb.h")
unfolding proto_header
proto_header_only proto_file header h =
    let n = length proto_file - 6 in
    elim (Bool-cases (ltb (length proto_file) 7)) [
      | inl short ↦ refused invalid_name header _ (rw short at h)
      | inr long ↦ elim (Bool-cases (text_eq (drop n proto_file) suffix)) [
        | inr other ↦ refused no_proto_suffix header _ (rw (long, other) at h)
        | inl same ↦
            let made = rw (long, same) at h in
            (
              take n proto_file,
              sym (take-drop n proto_file)
                  ∙ ap (λ (t : Text). take n proto_file ++ t) (text_eq_sound _ suffix same),
              sym (made_name _ header made),
            )
      ]
    ]
