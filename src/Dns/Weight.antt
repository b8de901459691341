-- ===== src/Dns/Weight.antt =====
-- The record weights of brisk-control/internal/dns/regions.go: manual, by capacity, and scaled by
-- the live load factor. The factor is a number of millionths, so its product is exact where the
-- source rounds a float64.
use brisk.Prelude.{
  ℕ, ◌+◌, ◌*◌, ◌/◌, ◌≤◌, ◌<◌, ◌≡◌, true, ◌&&◌, List, [], ◌∷◌, arith, ltb, if◌then◌else◌, ℤ,
  pos_part, positive, In, first, later,
}
use native.Mathlib.Nat.{div-eq_of_lt-le}
use brisk.Dns.{Endpoint}

abbrev pub million : ℕ
million = 1_000_000

-- `w <= 0` is 100; `w > 100` is 100
unfoldable pub norm_weight : ℤ → ℕ
norm_weight w = if positive w then (if ltb 100 (pos_part w) then 100 else pos_part w) else 100

-- maxCapacity, from the running maximum `m`
abbrev pub raise : ℕ → Endpoint → ℕ
raise m ep =
    if ep.weight_by_capacity && ltb m (pos_part ep.capacity_mbps)
    then pos_part ep.capacity_mbps
    else m

unfoldable pub max_capacity_from : ℕ → List Endpoint → ℕ
max_capacity_from m [] = m
max_capacity_from m (ep ∷ eps) = max_capacity_from (raise m ep) eps

unfoldable pub max_capacity : List Endpoint → ℕ
unfolding max_capacity_from
max_capacity eps = max_capacity_from 0 eps

abbrev pub clamp_weight : ℕ → ℕ
clamp_weight w = if ltb w 1 then 1 else if ltb 100 w then 100 else w

unfoldable pub base_weight : Endpoint → ℕ → ℕ
unfolding norm_weight
base_weight ep max_cap =
    if ep.weight_by_capacity && positive ep.capacity_mbps && ltb 0 max_cap
    then clamp_weight ((pos_part ep.capacity_mbps * 100 + max_cap / 2) / max_cap)
    else norm_weight ep.weight

unfoldable pub apply_load_factor : ℕ → ℤ → ℕ
apply_load_factor base factor =
    if positive factor && ltb (pos_part factor) million
    then (let w = (base * pos_part factor + 500_000) / million in if ltb w 1 then 1 else w)
    else base

unfoldable pub effective_weight : Endpoint → ℕ → ℕ
unfolding base_weight apply_load_factor
effective_weight ep max_cap = apply_load_factor (base_weight ep max_cap) ep.load_factor

base_weight_bounds : (ep : Endpoint) (m : ℕ) → (1 ≤ base_weight ep m) × (base_weight ep m ≤ 100)
unfolding base_weight
base_weight_bounds ep m = ground arith

-- scaling by a factor below one does not enlarge a weight
scaled-le : (b f : ℕ) → 1 ≤ b → f < million → (b * f + 500_000) / million ≤ b
scaled-le b f h lt = let p : b * f ≤ b * 1_000_000 = grind arith in omega arith

apply_load_factor_bounds :
    (b : ℕ) (f : ℤ) → 1 ≤ b → (1 ≤ apply_load_factor b f) × (apply_load_factor b f ≤ b)
unfolding apply_load_factor
apply_load_factor_bounds b f h = ground (arith, scaled-le b (pos_part f) h)

-- Every weight written to a record is at least 1 and at most the base weight, which is at most 100.
pub effective_weight_bounds :
    (ep : Endpoint) (max_cap : ℕ)
    → (1 ≤ effective_weight ep max_cap)
      × (effective_weight ep max_cap ≤ base_weight ep max_cap)
      × (base_weight ep max_cap ≤ 100)
unfolding effective_weight
effective_weight_bounds ep m =
    let (lo, hi) = base_weight_bounds ep m in
    let (lo', hi') = apply_load_factor_bounds (base_weight ep m) ep.load_factor lo in (lo', hi', hi)

max_capacity_from-le : (m : ℕ) (eps : List Endpoint) → m ≤ max_capacity_from m eps
unfolding max_capacity_from
max_capacity_from-le m [] = omega arith
max_capacity_from-le m (ep ∷ eps) = ground (arith, max_capacity_from-le (raise m ep) eps)

max_capacity-In :
    (ep : Endpoint) (eps : List Endpoint) (m : ℕ)
    → In ep eps
    → ep.weight_by_capacity ≡ true
    → pos_part ep.capacity_mbps ≤ max_capacity_from m eps
unfolding max_capacity_from
max_capacity-In ep [] m i w = elim i [ ]
max_capacity-In ep (e ∷ eps) m (first p) w =
    rw p (ground (arith, max_capacity_from-le (raise m e) eps, p))
max_capacity-In ep (e ∷ eps) m (later i) w = max_capacity-In ep eps (raise m e) i w

-- `x / m` is monotone in `x`.
div_mono : (x y m : ℕ) → 0 < m → x ≤ y → x / m ≤ y / m
div_mono x y m p h = let q : x / m * m ≤ x = omega arith in grind arith

capacity_share-full : (c : ℕ) → 0 < c → (c * 100 + c / 2) / c ≡ 100
capacity_share-full c h = div-eq_of_lt-le {k = 100} c (omega arith) (omega arith)

module _ (a b : Endpoint) (m : ℕ) (a_weighted : a.weight_by_capacity ≡ true)
    (b_weighted : b.weight_by_capacity ≡ true) (a_sized : 0 < pos_part a.capacity_mbps)
    (larger : pos_part a.capacity_mbps ≤ pos_part b.capacity_mbps) where
  -- Of two edges weighted by capacity against one positive reference, the smaller of positive
  -- capacity, the one with the larger capacity has at least the weight of the other.
  base_weight_mono : 0 < m → base_weight a m ≤ base_weight b m
  unfolding base_weight
  base_weight_mono p =
      let d =
        div_mono (pos_part a.capacity_mbps * 100 + m / 2) (pos_part b.capacity_mbps * 100 + m / 2) m
          p (omega arith) in
      ground arith

-- An edge weighted by capacity whose positive capacity is the largest of the edges has weight 100.
base_weight-largest :
    (b : Endpoint) (eps : List Endpoint)
    → b.weight_by_capacity ≡ true
    → 0 < pos_part b.capacity_mbps
    → max_capacity eps ≡ pos_part b.capacity_mbps
    → base_weight b (max_capacity eps) ≡ 100
unfolding base_weight
base_weight-largest b eps w p e =
    rw e (ground (arith, capacity_share-full (pos_part b.capacity_mbps) p))
