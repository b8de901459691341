-- ===== src/Dns/Zone/Examples.antt =====
-- A zone with id 1 beside one with id 11.
use brisk.Prelude.{
  ℕ, Bytes, codes, ◌≡◌, none, some, Bool, false, List, [], ◌∷◌, All, In, ℤ, pos, eq_ℤ, arith,
}
use brisk.Dns.{Endpoint, Record}
use brisk.Dns.Diff.{DiffOpts}
use brisk.Dns.Diff.Scope.{About}
use brisk.Dns.Zone.{
  ZoneRouting, diff_zone, orphan_zone_plan, edge_id_from_zone_comment, zone_edge_tag,
  zone_id_from_comment,
}
use brisk.Dns.Zone.Tags.{
  edge_id_from_zone_comment-zone_edge_tag, zone_id_from_comment-zone_edge_tag,
}
use brisk.Dns.Zone.Sweep.{IsOfZone, diff_zone-About, Sweeps, orphan_zone_plan-Sweeps}

edge_id_from_zone_comment-zone_edge_tag_example :
    edge_id_from_zone_comment (zone_edge_tag 11 (codes "de")) 1 ≡ none
edge_id_from_zone_comment-zone_edge_tag_example =
    edge_id_from_zone_comment-zone_edge_tag 11 1 (codes "de")

zone_id_from_comment-zone_edge_tag_example :
    zone_id_from_comment (zone_edge_tag 11 (codes "d:e")) ≡ some (pos 11)
zone_id_from_comment-zone_edge_tag_example =
    zone_id_from_comment-zone_edge_tag 11 (codes "d:e") (omega arith)

abbrev tenant : ZoneRouting
tenant = record { zone_id = 1; name = codes "t.cdn"; assigned_edge_ids = codes "de" ∷ [] }

abbrev opts : DiffOpts
opts = record {
  routing_name = codes "cdn";
  ttl = pos 30;
  stale_after = 30;
  mode = none;
  monitor_type = pos 0;
  now = 100;
}

abbrev de : Endpoint
de = record {
  edge_id = codes "de";
  region = codes "EU";
  ip = codes "192.0.2.1";
  status = codes "online";
  last_seen = some 90;
  weight = pos 100;
  routing_override = [];
  capacity_mbps = pos 0;
  weight_by_capacity = false;
  load_factor = pos 0;
  health = codes "healthy";
  drained = false;
}

abbrev record_of : ℕ → Bytes → Record
record_of id comment = record {
  id = id;
  type = pos 0;
  ttl = pos 30;
  value = codes "192.0.2.9";
  name = codes "t.cdn";
  weight = pos 100;
  priority = pos 0;
  disabled = false;
  comment = comment;
  smart_routing_type = pos 0;
  latency_zone = [];
  monitor_type = pos 0;
  monitor_status = pos 0;
  geo_latitude = pos 0;
  geo_longitude = pos 0;
}

abbrev records : List Record
records = record_of 1 (codes "brisk:zone:1:de") ∷ record_of 2 (codes "brisk:zone:11:de") ∷ []

abbrev only_one : ℤ → Bool
only_one z = eq_ℤ z (pos 1)

diff_zone-About_example :
    All (About (λ r. In r records × IsOfZone tenant r)) (diff_zone [] opts tenant (de ∷ []) records)
diff_zone-About_example = diff_zone-About [] opts tenant (de ∷ []) records

orphan_zone_plan-Sweeps_example : All (Sweeps only_one records) (orphan_zone_plan records only_one)
orphan_zone_plan-Sweeps_example = orphan_zone_plan-Sweeps records only_one
