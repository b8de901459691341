-- ===== src/Dns/Examples.antt =====
-- Three edges of one zone: one healthy, one overloaded, one dead.
use brisk.Prelude.{
  ℕ, Bytes, codes, ◌≡◌, refl, ◌≤◌, none, some, Bool, true, false, List, [], ◌∷◌, ◌⊎◌, inl, inr, In,
  first, later, All, ℤ, pos, str_eq, equal_fold,
}
use brisk.Dns.{Endpoint, Record}
use brisk.Dns.Rotation.{is_online}
use brisk.Dns.Rotation.Blackhole.{Distinct, Published, rotation-nonempty, rotation-empty}
use brisk.Dns.Weight.{base_weight, effective_weight, effective_weight_bounds}
use brisk.Dns.Diff.{DiffOpts, diff}
use brisk.Dns.Diff.Scope.{About, IsOurs, diff-About}

abbrev edge : Bytes → Bytes → Bool → ℤ → Endpoint
edge id health drained capacity = record {
  edge_id = id;
  region = codes "EU";
  ip = id;
  status = codes "online";
  last_seen = some 90;
  weight = pos 100;
  routing_override = [];
  capacity_mbps = capacity;
  weight_by_capacity = true;
  load_factor = pos 500_000;
  health = health;
  drained = drained;
}

abbrev good : Endpoint
good = edge (codes "de") (codes "healthy") false (pos 1_000)

abbrev slow : Endpoint
slow = edge (codes "ny") (codes "unhealthy") false (pos 400)

abbrev gone : Endpoint
gone = edge (codes "sg") (codes "healthy") true (pos 0)

abbrev fleet : List Endpoint
fleet = good ∷ slow ∷ gone ∷ []

fleet-Distinct : Distinct fleet
unfolding str_eq
fleet-Distinct = ((refl, (refl, tt)), ((refl, tt), (tt, tt)))

good_online : is_online 100 30 good ≡ true
unfolding is_online equal_fold str_eq
good_online = refl

rotation-nonempty_example :
    (x : Endpoint) × (x.drained ≡ false) × Published 100 30 fleet fleet-Distinct x true
rotation-nonempty_example =
    rotation-nonempty 100 30 fleet fleet-Distinct good (first refl) refl (inl good_online)

-- at time 1000 the heartbeat of `slow` is stale
abbrev dark : List Endpoint
dark = slow ∷ []

slow_dark :
    (slow.drained ≡ true)
    ⊎ ((is_online 1_000 30 slow ≡ false) × (equal_fold slow.health (codes "unhealthy") ≡ true))
unfolding is_online equal_fold str_eq
slow_dark = inr (refl, refl)

dark_all :
    (ep : Endpoint)
    → In ep dark
    → (ep.drained ≡ true)
      ⊎ ((is_online 1_000 30 ep ≡ false) × (equal_fold ep.health (codes "unhealthy") ≡ true))
dark_all ep (first p) = rw p slow_dark
dark_all ep (later i) = elim i [ ]

rotation-empty_example : Published 1_000 30 dark (tt, tt) slow false
rotation-empty_example = rotation-empty 1_000 30 dark (tt, tt) dark_all slow (first refl)

effective_weight_bounds_example :
    (1 ≤ effective_weight slow 1_000)
    × (effective_weight slow 1_000 ≤ base_weight slow 1_000)
    × (base_weight slow 1_000 ≤ 100)
effective_weight_bounds_example = effective_weight_bounds slow 1_000

abbrev opts : DiffOpts
opts = record {
  routing_name = codes "cdn";
  ttl = pos 30;
  stale_after = 30;
  mode = none;
  monitor_type = pos 0;
  now = 100;
}

abbrev record_of : ℕ → Bytes → Bytes → Record
record_of id value comment = record {
  id = id;
  type = pos 0;
  ttl = pos 30;
  value = value;
  name = codes "cdn";
  weight = pos 100;
  priority = pos 0;
  disabled = false;
  comment = comment;
  smart_routing_type = pos 0;
  latency_zone = [];
  monitor_type = pos 0;
  monitor_status = pos 0;
  geo_latitude = pos 0;
  geo_longitude = pos 0;
}

abbrev zone : List Record
zone =
    record_of 1 (codes "de") (codes "brisk:server:de") ∷ record_of 2 (codes "x") (codes "mine") ∷ []

diff-About_example :
    All (About (λ r. In r zone × IsOurs opts.routing_name r)) (diff [] opts fleet zone)
diff-About_example = diff-About [] opts fleet zone
