-- ===== src/Prelude/Split.antt =====
-- Cutting texts up: strings.TrimSpace, strings.Split at one byte, strings.Join, strings.IndexByte.
use Prim.Native.Nat.{ℕ, ◌-◌}
use mathlib.Core.Bool.{Bool, ◌||◌, ◌&&◌}
use mathlib.Core.Option.{Option, none, some}
use mathlib.Core.List.{List, [], ◌∷◌, ◌++◌, map, reverse}
use brisk.Prelude.Tests.{leb, ◌==◌, if◌then◌else◌}
use brisk.Prelude.Text.{Bytes}

-- unicode.IsSpace on ASCII
abbrev pub is_space : ℕ → Bool
is_space c = c == b' ' || leb 9 c && leb c 13

pub trim_left : Bytes → Bytes
trim_left [] = []
trim_left (c ∷ s) = if is_space c then trim_left s else c ∷ s

unfoldable pub trim_space : Bytes → Bytes
unfolding trim_left
trim_space s = reverse (trim_left (reverse (trim_left s)))

-- unicode.ToUpper on ASCII
abbrev pub upper : ℕ → ℕ
upper c = if leb b'a' c && leb c b'z' then c - 32 else c

unfoldable pub to_upper : Bytes → Bytes
to_upper = map upper

-- the text before the first `b`, and what follows that `b`
unfoldable pub cut : ℕ → Bytes → Bytes × Option Bytes
cut b [] = ([], none)
cut b (c ∷ s) = let (h, t) = cut b s in if c == b then ([], some s) else (c ∷ h, t)

abbrev pub onto_first : ℕ → List Bytes → List Bytes
onto_first c [] = (c ∷ []) ∷ []
onto_first c (p ∷ ps) = (c ∷ p) ∷ ps

-- strings.Split(s, sep) for a separator of one byte
unfoldable pub split_on : ℕ → Bytes → List Bytes
split_on b [] = [] ∷ []
split_on b (c ∷ s) = let rest = split_on b s in if c == b then [] ∷ rest else onto_first c rest

-- strings.Join(parts, sep)
unfoldable pub join : Bytes → List Bytes → Bytes
join sep [] = []
join sep (p ∷ []) = p
join sep (p ∷ (q ∷ ps)) = p ++ (sep ++ join sep (q ∷ ps))
