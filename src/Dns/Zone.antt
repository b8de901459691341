-- ===== src/Dns/Zone.antt =====
-- The record sets of the tenants' zones, brisk-control/internal/dns/zonesync.go: tags, DiffZone and
-- OrphanZonePlan. Maps are ranged over in the order of insertion.
pub mod Tags
pub mod Sweep
mod Examples
use brisk.Prelude.{
  parse_int64, ℕ, zero, suc, ◌^◌, Bytes, codes, str_eq, equal_fold, strip, Option, none, some, Bool,
  true, false, ◌&&◌, ◌||◌, not, List, [], ◌∷◌, ◌++◌, leb, ltb, ◌==◌, if◌then◌else◌, ℤ, pos, negsuc,
  eq_ℤ, Assoc, lookup, insert, erase, format_int, parse_int, cut,
}
use brisk.Dns.{Endpoint, Record}
use brisk.Dns.Rotation.{rotation_state}
use brisk.Dns.Weight.{effective_weight, max_capacity}
use brisk.Dns.Region.{RegionLoc, smart_fields_for}
use brisk.Dns.Diff.{Action, remove, DiffOpts, is_in, add_action, write_actions, removals}

pub record ZoneRouting : Type 0 where
  pub zone_id : ℕ
  pub name : Bytes
  pub assigned_edge_ids : List Bytes

abbrev pub zone_prefix : Bytes
zone_prefix = codes "brisk:zone:"

unfoldable pub zone_tag : ℕ → Bytes
zone_tag zone_id = zone_prefix ++ format_int zone_id

unfoldable pub zone_edge_tag : ℕ → Bytes → Bytes
unfolding zone_tag
zone_edge_tag zone_id edge_id = zone_tag zone_id ++ (b':' ∷ edge_id)

-- none where the comment is not this zone's tag
unfoldable pub edge_id_from_zone_comment : Bytes → ℕ → Option Bytes
unfolding zone_tag
edge_id_from_zone_comment comment zone_id =
    if str_eq comment (zone_tag zone_id)
    then some []
    else strip comment (zone_tag zone_id ++ (b':' ∷ []))

abbrev pub zone_id_of : Option Bytes → Option ℤ
zone_id_of none = none
zone_id_of (some rest) = parse_int64 (cut b':' rest).0

unfoldable pub zone_id_from_comment : Bytes → Option ℤ
unfolding parse_int64
zone_id_from_comment comment = zone_id_of (strip comment zone_prefix)

unfoldable pub endpoints_by_id : List Endpoint → Assoc Endpoint → Assoc Endpoint
endpoints_by_id [] m = m
endpoints_by_id (ep ∷ eps) m =
    endpoints_by_id eps (if str_eq ep.edge_id [] then m else insert ep.edge_id ep m)

abbrev pub put : Option Bytes → Record → Assoc Record → Assoc Record
put none r m = m
put (some edge_id) r m = insert edge_id r m

unfoldable pub zone_record : ZoneRouting → Record → Assoc Record → Assoc Record
unfolding edge_id_from_zone_comment
zone_record zr r m =
    if eq_ℤ r.type (pos 0) && equal_fold r.name zr.name
    then put (edge_id_from_zone_comment r.comment zr.zone_id) r m
    else m

unfoldable pub zone_records : ZoneRouting → List Record → Assoc Record → Assoc Record
unfolding zone_record
zone_records zr [] m = m
zone_records zr (r ∷ rs) m = zone_records zr rs (zone_record zr r m)

unfoldable pub zone_write :
    Option Record → Bytes → Record → Assoc Record → List Action × Assoc Record
zone_write none edge_id desired m = (add_action edge_id desired ∷ [], m)
zone_write (some existing) edge_id desired m =
    (write_actions false edge_id existing desired, erase edge_id m)

module _ (region_map : Assoc RegionLoc) (o : DiffOpts) (zr : ZoneRouting) where
  unfoldable pub zone_desired : Assoc Bool → ℕ → Bytes → Endpoint → Record
  unfolding zone_edge_tag
  zone_desired in_rotation max_cap edge_id ep =
      let smart = smart_fields_for region_map ep o.mode in
      record {
        id = 0;
        type = pos 0;
        ttl = o.ttl;
        value = ep.ip;
        name = zr.name;
        weight = pos (effective_weight ep max_cap);
        priority = pos 0;
        disabled = not (is_in (lookup edge_id in_rotation));
        comment = zone_edge_tag zr.zone_id edge_id;
        smart_routing_type = smart.routing_type;
        latency_zone = smart.latency_zone;
        monitor_type = o.monitor_type;
        monitor_status = pos 0;
        geo_latitude = smart.lat;
        geo_longitude = smart.long;
      }

  -- one assigned edge: unknown, without an address, or with a record to write
  unfoldable pub zone_one :
      Assoc Bool → ℕ → Option Endpoint → Bytes → Assoc Record → List Action × Assoc Record
  unfolding zone_desired zone_write
  zone_one in_rotation max_cap none edge_id m = ([], m)
  zone_one in_rotation max_cap (some ep) edge_id m =
      if str_eq ep.ip []
      then ([], m)
      else zone_write (lookup edge_id m) edge_id (zone_desired in_rotation max_cap edge_id ep) m

  unfoldable pub zone_from :
      Assoc Bool → ℕ → Assoc Endpoint → List Bytes → Assoc Record → List Action
  unfolding zone_one
  zone_from in_rotation max_cap eps [] m = removals m
  zone_from in_rotation max_cap eps (edge_id ∷ ids) m =
      let step = zone_one in_rotation max_cap (lookup edge_id eps) edge_id m in
      step.0 ++ zone_from in_rotation max_cap eps ids step.1

  unfoldable pub diff_zone : List Endpoint → List Record → List Action
  unfolding zone_from zone_records endpoints_by_id
  diff_zone eps records =
      zone_from (rotation_state o.now o.stale_after eps) (max_capacity eps) (endpoints_by_id eps [])
        zr.assigned_edge_ids (zone_records zr records [])

abbrev pub is_orphan : (ℤ → Bool) → Option ℤ → Bool
is_orphan active none = false
is_orphan active (some zone_id) = not (active zone_id)

abbrev pub sweep_action : Record → Action
sweep_action r = record {
  kind = remove;
  edge_id = [];
  record_id = r.id;
  desired = none;
  name = r.name;
  value = r.value;
}

unfoldable pub orphan_zone_plan : List Record → (ℤ → Bool) → List Action
unfolding zone_id_from_comment
orphan_zone_plan [] active = []
orphan_zone_plan (r ∷ rs) active =
    let rest = orphan_zone_plan rs active in
    if is_orphan active (zone_id_from_comment r.comment) then sweep_action r ∷ rest else rest
