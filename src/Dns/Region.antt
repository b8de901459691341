-- ===== src/Dns/Region.antt =====
-- Routing modes and the region catalogue of brisk-control/internal/dns/regions.go. The catalogue
-- itself, generated data, is a parameter.
use brisk.Prelude.{
  ℕ, zero, suc, Bytes, codes, str_eq, equal_fold, to_lower, to_upper, trim_space, split_on, join,
  Option, none, some, List, [], ◌∷◌, if◌then◌else◌, ℤ, pos, Assoc, lookup, length,
}
use brisk.Dns.{Endpoint}

-- "" is no mode
pub data Mode : Type 0 where
  geographic latency : Mode

unfoldable pub normalize_mode : Bytes → Mode
normalize_mode s = if equal_fold (trim_space s) (codes "latency") then latency else geographic

unfoldable pub normalize_override : Bytes → Option Mode
normalize_override s =
    let t = to_lower (trim_space s) in
    if str_eq t (codes "latency")
    then some latency
    else if str_eq t (codes "geographic")
    then some geographic
    else none

pub record RegionLoc : Type 0 where
  pub lat : ℤ
  pub long : ℤ
  pub latency_zone : Bytes
  pub label : Bytes

abbrev pub or_else : Option RegionLoc → Option RegionLoc → Option RegionLoc
or_else none b = b
or_else (some a) b = some a

abbrev pub first_of_parts : ℕ → List Bytes → List Bytes
first_of_parts zero ps = []
first_of_parts (suc n) [] = []
first_of_parts (suc n) (p ∷ ps) = p ∷ first_of_parts n ps

abbrev pub pred : ℕ → ℕ
pred zero = zero
pred (suc n) = n

-- resolveMode
abbrev pub mode_or : Option Mode → Option Mode → Mode
mode_or (some o) network = o
mode_or none none = geographic
mode_or none (some m) = m

unfoldable pub resolve_mode : Option Mode → Bytes → Mode
unfolding normalize_override
resolve_mode network override = mode_or (normalize_override override) network

pub record SmartFields : Type 0 where
  pub routing_type : ℤ
  pub lat : ℤ
  pub long : ℤ
  pub latency_zone : Bytes

abbrev pub smart_none : SmartFields
smart_none = record { routing_type = pos 0; lat = pos 0; long = pos 0; latency_zone = [] }

abbrev pub smart_for : Mode → RegionLoc → SmartFields
smart_for latency loc = record {
  routing_type = pos 1;
  lat = pos 0;
  long = pos 0;
  latency_zone = loc.latency_zone;
}
smart_for geographic loc = record {
  routing_type = pos 2;
  lat = loc.lat;
  long = loc.long;
  latency_zone = [];
}

module _ (region_map : Assoc RegionLoc) where
  -- the prefixes of `n` parts, `n - 1` parts, … down to one
  unfoldable pub lookup_prefix : ℕ → List Bytes → Option RegionLoc
  lookup_prefix zero parts = none
  lookup_prefix (suc n) parts =
      let rest = lookup_prefix n parts in
      or_else (lookup (join (codes "-") (first_of_parts (suc n) parts)) region_map) rest

  unfoldable pub lookup_region : Bytes → Option RegionLoc
  unfolding lookup_prefix
  lookup_region region =
      let key = to_upper (trim_space region) in
      if str_eq key []
      then none
      else (let parts = split_on b'-' key in
          or_else (lookup key region_map) (lookup_prefix (pred (length parts)) parts))

  unfoldable pub smart_fields_for : Endpoint → Option Mode → SmartFields
  unfolding lookup_region resolve_mode
  smart_fields_for ep network = elim (lookup_region ep.region) [
    | none ↦ smart_none
    | some loc ↦ smart_for (resolve_mode network ep.routing_override) loc
  ]
