-- ===== src/Prelude/Decimal.antt =====
-- strconv.FormatInt and strconv.ParseInt in base 10.
use Prim.Native.Nat.{ℕ, zero, suc, ◌+◌, ◌-◌, ◌*◌, ◌/◌, ◌%◌, ◌^◌, ◌<◌}
use mathlib.Core.Path.{◌≡◌, refl, ap, ◌∙◌}
use mathlib.Core.Logic.{◌≢◌, inl, inr}
use mathlib.Core.Bool.{Bool, true, ◌&&◌}
use mathlib.Core.Option.{Option, none, some}
use mathlib.Core.List.{[], ◌∷◌}
use native.Mathlib.Omega.{arith}
use brisk.Prelude.Tests.{ltb, leb, ◌==◌, if◌then◌else◌, Bool-cases}
use brisk.Prelude.Lists.{All}
use brisk.Prelude.Text.{Bytes}
use brisk.Prelude.Int.{ℤ, pos, negsuc}

-- the digits of `n` before `acc`; the fuel bounds the number of digits
unfoldable pub print_onto : ℕ → ℕ → Bytes → Bytes
print_onto zero n acc = acc
print_onto (suc f) n acc =
    let rest = print_onto f (n / 10) ((b'0' + n % 10) ∷ acc) in
    if ltb n 10 then (b'0' + n) ∷ acc else rest

unfoldable pub format_int : ℕ → Bytes
unfolding print_onto
format_int n = print_onto (suc n) n []

abbrev pub is_digit : ℕ → Bool
is_digit c = leb b'0' c && leb c b'9'

unfoldable pub parse_onto : ℕ → Bytes → Option ℕ
parse_onto n [] = some n
parse_onto n (c ∷ s) = if is_digit c then parse_onto (n * 10 + (c - b'0')) s else none

-- an unsigned digit string; an empty one is an error
unfoldable pub parse_int : Bytes → Option ℕ
unfolding parse_onto
parse_int [] = none
parse_int (c ∷ s) = parse_onto 0 (c ∷ s)

-- the range of int64
abbrev pub in_range : Option ℕ → Option ℤ
in_range none = none
in_range (some n) = if ltb n (2 ^ 63) then some (pos n) else none

abbrev pub negated : Option ℕ → Option ℤ
negated none = none
negated (some zero) = some (pos 0)
negated (some (suc n)) = if ltb n (2 ^ 63) then some (negsuc n) else none

-- strconv.ParseInt(s, 10, 64)
unfoldable pub parse_int64 : Bytes → Option ℤ
unfolding parse_int
parse_int64 [] = none
parse_int64 (c ∷ s) =
    if c == b'-'
    then negated (parse_int s)
    else if c == b'+'
    then in_range (parse_int s)
    else in_range (parse_int (c ∷ s))

abbrev pub IsDigits : Bytes → Type 0
IsDigits = All (λ c. is_digit c ≡ true)

-- `10 ^ k`, for the `k` digits of a text
scale : ℕ → Bytes → ℕ
scale n [] = n
scale n (c ∷ s) = scale (n * 10 + (c - b'0')) s

parse_onto-scale : (n : ℕ) (s : Bytes) → IsDigits s → parse_onto n s ≡ some (scale n s)
unfolding parse_onto scale
parse_onto-scale n [] h = refl
parse_onto-scale n (c ∷ s) h = rw h.0 (parse_onto-scale (n * 10 + (c - b'0')) s h.1)

scale-print_onto : (f n : ℕ) (acc : Bytes) → n < f → scale 0 (print_onto f n acc) ≡ scale n acc
unfolding print_onto scale
scale-print_onto zero n acc h = elim h [ ]
scale-print_onto (suc f) n acc h = elim (Bool-cases (ltb n 10)) [
  | inl small ↦ rw small (ap (λ (k : ℕ). scale k acc) (omega arith))
  | inr large ↦ rw large (
      scale-print_onto f (n / 10) ((b'0' + n % 10) ∷ acc) (ground arith)
      ∙ ap (λ (k : ℕ). scale k acc) (omega arith))
]

print_onto-IsDigits : (f n : ℕ) (acc : Bytes) → IsDigits acc → IsDigits (print_onto f n acc)
unfolding print_onto
print_onto-IsDigits zero n acc h = h
print_onto-IsDigits (suc f) n acc h = elim (Bool-cases (ltb n 10)) [
  | inl small ↦ rw small (ground arith, h)
  | inr large ↦ rw large (print_onto-IsDigits f (n / 10) ((b'0' + n % 10) ∷ acc) (ground arith, h))
]

pub format_int-IsDigits : (n : ℕ) → IsDigits (format_int n)
unfolding format_int
format_int-IsDigits n = print_onto-IsDigits (suc n) n [] tt

parse_int-nonempty : (s : Bytes) → s ≢ [] → parse_int s ≡ parse_onto 0 s
unfolding parse_int
parse_int-nonempty [] h = absurd (h refl)
parse_int-nonempty (c ∷ s) h = refl

print_onto-ne : (f n : ℕ) (acc : Bytes) → acc ≢ [] → print_onto f n acc ≢ []
unfolding print_onto
print_onto-ne zero n acc h = h
print_onto-ne (suc f) n acc h = elim (Bool-cases (ltb n 10)) [
  | inl small ↦ rw small (λ e. cc)
  | inr large ↦ rw large (print_onto-ne f (n / 10) ((b'0' + n % 10) ∷ acc) (λ e. cc))
]

format_int-ne : (n : ℕ) → format_int n ≢ []
unfolding format_int print_onto
format_int-ne n = elim (Bool-cases (ltb n 10)) [
  | inl small ↦ rw small (λ e. cc)
  | inr large ↦ rw large (print_onto-ne n (n / 10) ((b'0' + n % 10) ∷ []) (λ e. cc))
]

-- A printed number parses to itself.
pub parse_int-format_int : (n : ℕ) → parse_int (format_int n) ≡ some n
unfolding format_int scale
parse_int-format_int n =
    parse_int-nonempty _ (format_int-ne n)
    ∙ (parse_onto-scale 0 _ (format_int-IsDigits n)
        ∙ ap some (scale-print_onto (suc n) n [] (omega arith)))

pub parse_int64-digits : (d : Bytes) → IsDigits d → parse_int64 d ≡ in_range (parse_int d)
unfolding parse_int64 parse_int
parse_int64-digits [] h = refl
parse_int64-digits (c ∷ d) h = ground (arith, h.0)

pub parse_int64-format_int : (n : ℕ) → n < 2 ^ 63 → parse_int64 (format_int n) ≡ some (pos n)
parse_int64-format_int n h =
    rw (parse_int64-digits (format_int n) (format_int-IsDigits n), parse_int-format_int n)
      (ground arith)
