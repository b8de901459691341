-- ===== src/Dns.antt =====
-- Bunny DNS records and the control plane's view of its edges (brisk-control/internal/dns).
-- Durations and times are numbers of nanoseconds.
pub mod Rotation
pub mod Weight
pub mod Region
pub mod Diff
pub mod Apply
pub mod Zone
mod Examples
use brisk.Prelude.{ℕ, ℤ, Bytes, codes, Option, Bool, List}

-- type Endpoint of reconcile.go. `load_factor`, a float64, is a number of millionths.
pub record Endpoint : Type 0 where
  pub edge_id : Bytes
  pub region : Bytes
  pub ip : Bytes
  pub status : Bytes
  pub last_seen : Option ℕ
  pub weight : ℤ
  pub routing_override : Bytes
  pub capacity_mbps : ℤ
  pub weight_by_capacity : Bool
  pub load_factor : ℤ
  pub health : Bytes
  pub drained : Bool

-- type Record of bunny.go. The coordinates, float64 degrees, are numbers of billionths of a degree.
pub record Record : Type 0 where
  pub id : ℕ
  pub type : ℤ
  pub ttl : ℤ
  pub value : Bytes
  pub name : Bytes
  pub weight : ℤ
  pub priority : ℤ
  pub disabled : Bool
  pub comment : Bytes
  pub smart_routing_type : ℤ
  pub latency_zone : Bytes
  pub monitor_type : ℤ
  pub monitor_status : ℤ
  pub geo_latitude : ℤ
  pub geo_longitude : ℤ
