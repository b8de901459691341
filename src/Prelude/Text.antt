-- ===== src/Prelude/Text.antt =====
-- Go's strings as lists of bytes, with the parts of `strings` that the program uses. Case folding
-- is that of ASCII, which the names, tags and states compared here are.
use Prim.Native.Nat.{ℕ, ◌+◌}
use Prim.Native.Char.{code}
use Prim.Native.String.{String}
use mathlib.Core.Path.{◌≡◌, refl}
use mathlib.Core.Logic.{◌↔◌}
use mathlib.Core.Bool.{Bool, true, false, ◌&&◌}
use mathlib.Core.Option.{Option, none, some}
use mathlib.Core.List.{List, [], ◌∷◌, ◌++◌, map}
use native.Mathlib.Omega.{arith}
use brisk.Prelude.Tests.{leb, ◌==◌, if◌then◌else◌}

abbrev pub Bytes : Type 0
Bytes = List ℕ

-- The bytes of an ASCII literal. `String` has its own `[]` and `∷`.
abbrev pub codes : String → Bytes
codes String.[] = []
codes (String.◌∷◌ c s) = code c ∷ codes s

-- a == b
unfoldable pub str_eq : Bytes → Bytes → Bool
str_eq [] [] = true
str_eq [] (d ∷ t) = false
str_eq (c ∷ s) [] = false
str_eq (c ∷ s) (d ∷ t) = (c == d) && str_eq s t

pub str_eq_sound : (s t : Bytes) → str_eq s t ≡ true → s ≡ t
unfolding str_eq
str_eq_sound [] [] h = refl
str_eq_sound [] (d ∷ t) h = cc
str_eq_sound (c ∷ s) [] h = cc
str_eq_sound (c ∷ s) (d ∷ t) h = ground (arith, str_eq_sound s t)

pub str_eq_refl : (s : Bytes) → str_eq s s ≡ true
unfolding str_eq
str_eq_refl [] = refl
str_eq_refl (c ∷ s) = ground (arith, str_eq_refl s)

pub str_eq_iff : (s t : Bytes) → (str_eq s t ≡ true) ↔ (s ≡ t)
str_eq_iff s t = (str_eq_sound s t, λ e. rw e (str_eq_refl t))

-- strings.HasPrefix(s, p)
unfoldable pub has_prefix : Bytes → Bytes → Bool
has_prefix s [] = true
has_prefix [] (d ∷ p) = false
has_prefix (c ∷ s) (d ∷ p) = (c == d) && has_prefix s p

pub has_prefix-append : (p s : Bytes) → has_prefix (p ++ s) p ≡ true
unfolding has_prefix
has_prefix-append [] [] = refl
has_prefix-append [] (c ∷ s) = refl
has_prefix-append (d ∷ p) s = ground (arith, has_prefix-append p s)

-- strings.TrimPrefix(s, p), where p is a prefix; s itself where it is not
unfoldable pub strip : Bytes → Bytes → Option Bytes
strip s [] = some s
strip [] (d ∷ p) = none
strip (c ∷ s) (d ∷ p) = if c == d then strip s p else none

pub strip-append : (p s : Bytes) → strip (p ++ s) p ≡ some s
unfolding strip
strip-append [] [] = refl
strip-append [] (c ∷ s) = refl
strip-append (d ∷ p) s = ground (arith, strip-append p s)

pub strip-some : (s p r : Bytes) → strip s p ≡ some r → s ≡ p ++ r
unfolding strip
strip-some [] [] r h = ground arith
strip-some (c ∷ s) [] r h = ground arith
strip-some [] (d ∷ p) r h = cc
strip-some (c ∷ s) (d ∷ p) r h = ground (arith, strip-some s p r)

-- unicode.ToLower on ASCII
abbrev pub lower : ℕ → ℕ
lower c = if leb b'A' c && leb c b'Z' then c + 32 else c

unfoldable pub to_lower : Bytes → Bytes
to_lower = map lower

-- strings.EqualFold(s, t)
unfoldable pub equal_fold : Bytes → Bytes → Bool
unfolding to_lower
equal_fold s t = str_eq (to_lower s) (to_lower t)

pub equal_fold_refl : (s : Bytes) → equal_fold s s ≡ true
unfolding equal_fold
equal_fold_refl s = str_eq_refl (to_lower s)
