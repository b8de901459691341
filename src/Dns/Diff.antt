-- ===== src/Dns/Diff.antt =====
-- Diff of brisk-control/internal/dns/reconcile.go: the changes that take the routing record set to
-- the endpoints. Maps are ranged over in the order of insertion.
pub mod Scope
use brisk.Prelude.{
  ℕ, ◌+◌, ◌-◌, Bytes, codes, str_eq, equal_fold, strip, Option, none, some, Bool, true, false, ◌&&◌,
  ◌||◌, not, List, [], ◌∷◌, ◌++◌, leb, if◌then◌else◌, ℤ, pos, pos_part, neg_part, eq_ℤ, Assoc,
  lookup, insert, erase, opt_or, is_some,
}
use brisk.Dns.{Endpoint, Record}
use brisk.Dns.Rotation.{rotation_state}
use brisk.Dns.Weight.{effective_weight, max_capacity}
use brisk.Dns.Region.{Mode, RegionLoc, SmartFields, smart_fields_for}

abbrev pub server_tag_prefix : Bytes
server_tag_prefix = codes "brisk:server:"

unfoldable pub server_tag : Bytes → Bytes
server_tag edge_id = server_tag_prefix ++ edge_id

-- "" where the comment is no server tag
unfoldable pub edge_id_from_comment : Bytes → Bytes
edge_id_from_comment comment = opt_or (strip comment server_tag_prefix) []

pub data Kind : Type 0 where
  add enable disable update remove : Kind

pub record Action : Type 0 where
  pub kind : Kind
  pub edge_id : Bytes
  pub record_id : ℕ
  pub desired : Option Record
  pub name : Bytes
  pub value : Bytes

pub record DiffOpts : Type 0 where
  pub routing_name : Bytes
  pub ttl : ℤ
  pub stale_after : ℕ
  pub mode : Option Mode
  pub monitor_type : ℤ
  pub now : ℕ

-- coordEps, 1e-6 degrees, in billionths
abbrev pub coord_eps : ℕ
coord_eps = 1_000

-- floatEq: the distance of two numbers is at most coordEps
unfoldable pub float_eq : ℤ → ℤ → Bool
float_eq a b =
    let x = pos_part a + neg_part b in
    let y = pos_part b + neg_part a in leb (x - y) coord_eps && leb (y - x) coord_eps

-- The records that the first loop indexes: tagged ones by edge id, untagged A records of the set
-- by value.
pub record Index : Type 0 where
  pub managed : Assoc Record
  pub untagged : Assoc Record

abbrev pub is_relic : Bytes → Record → Bool
is_relic routing_name r =
    eq_ℤ r.type (pos 0) && equal_fold r.name routing_name && not (str_eq r.value [])

unfoldable pub index_record : Bytes → Record → Index → Index
unfolding edge_id_from_comment
index_record routing_name r ix =
    let id = edge_id_from_comment r.comment in
    if str_eq id []
    then (if is_relic routing_name r
        then record ix { untagged = insert r.value r ix.untagged }
        else ix)
    else record ix { managed = insert id r ix.managed }

unfoldable pub index_records : Bytes → List Record → Index → Index
unfolding index_record
index_records routing_name [] ix = ix
index_records routing_name (r ∷ rs) ix =
    index_records routing_name rs (index_record routing_name r ix)

abbrev pub is_in : Option Bool → Bool
is_in none = false
is_in (some b) = b

abbrev pub smart_changed : Record → Record → Bool
smart_changed existing desired =
    not (eq_ℤ existing.smart_routing_type desired.smart_routing_type)
    || not (str_eq existing.latency_zone desired.latency_zone)
    || not (eq_ℤ existing.weight desired.weight)
    || not (eq_ℤ existing.monitor_type desired.monitor_type)
    || not (float_eq existing.geo_latitude desired.geo_latitude)
    || not (float_eq existing.geo_longitude desired.geo_longitude)

unfoldable pub content_changed : Record → Record → Bool
content_changed existing desired =
    not (str_eq existing.value desired.value)
    || not (str_eq existing.name desired.name)
    || not (eq_ℤ existing.ttl desired.ttl)
    || not (str_eq existing.comment desired.comment)
    || smart_changed existing desired

abbrev pub same_bool : Bool → Bool → Bool
same_bool true b = b
same_bool false b = not b

unfoldable pub disabled_changed : Record → Record → Bool
disabled_changed existing desired = not (same_bool existing.disabled desired.disabled)

-- the kind of the write to a record that exists, or none where it has converged
unfoldable pub change_kind : Bool → Record → Record → Option Kind
unfolding content_changed disabled_changed
change_kind adopted existing desired =
    if adopted || content_changed existing desired
    then some update
    else if disabled_changed existing desired
    then some (if desired.disabled then disable else enable)
    else none

abbrev pub add_action : Bytes → Record → Action
add_action edge_id desired = record {
  kind = add;
  edge_id = edge_id;
  record_id = 0;
  desired = some desired;
  name = desired.name;
  value = desired.value;
}

abbrev pub write_action : Kind → Bytes → Record → Record → Action
write_action kind edge_id existing desired = record {
  kind = kind;
  edge_id = edge_id;
  record_id = existing.id;
  desired = some (record desired { id = existing.id });
  name = desired.name;
  value = desired.value;
}

abbrev pub remove_action : Bytes → Record → Action
remove_action edge_id r = record {
  kind = remove;
  edge_id = edge_id;
  record_id = r.id;
  desired = none;
  name = r.name;
  value = r.value;
}

abbrev pub write_kind : Option Kind → Bytes → Record → Record → List Action
write_kind none edge_id existing desired = []
write_kind (some kind) edge_id existing desired = write_action kind edge_id existing desired ∷ []

unfoldable pub write_actions : Bool → Bytes → Record → Record → List Action
unfolding change_kind
write_actions adopted edge_id existing desired =
    write_kind (change_kind adopted existing desired) edge_id existing desired

-- Anything left in `managed` belongs to no endpoint.
unfoldable pub removals : Assoc Record → List Action
removals [] = []
removals ((id, r) ∷ m) = remove_action id r ∷ removals m

-- lost-tag recovery: a record to adopt, or a new one
unfoldable pub adopt_or_add : Option Record → Bytes → Record → Index → List Action × Index
unfolding write_actions
adopt_or_add (some relic) edge_id desired ix = (
  write_actions true edge_id relic desired,
  record { managed = erase edge_id ix.managed; untagged = erase desired.value ix.untagged },
)
adopt_or_add none edge_id desired ix = (add_action edge_id desired ∷ [], ix)

-- the record that the endpoint has, if any
unfoldable pub write_or_adopt : Option Record → Bytes → Record → Index → List Action × Index
unfolding write_actions adopt_or_add
write_or_adopt (some existing) edge_id desired ix =
    (write_actions false edge_id existing desired, record ix { managed = erase edge_id ix.managed })
write_or_adopt none edge_id desired ix =
    adopt_or_add (lookup desired.value ix.untagged) edge_id desired ix

unfoldable pub reconcile_one : Bytes → Record → Index → List Action × Index
unfolding write_or_adopt
reconcile_one edge_id desired ix = write_or_adopt (lookup edge_id ix.managed) edge_id desired ix

module _ (region_map : Assoc RegionLoc) (o : DiffOpts) where
  unfoldable pub desired_record : Assoc Bool → ℕ → Endpoint → Record
  unfolding server_tag
  desired_record in_rotation max_cap ep =
      let smart = smart_fields_for region_map ep o.mode in
      record {
        id = 0;
        type = pos 0;
        ttl = o.ttl;
        value = ep.ip;
        name = o.routing_name;
        weight = pos (effective_weight ep max_cap);
        priority = pos 0;
        disabled = not (is_in (lookup ep.edge_id in_rotation));
        comment = server_tag ep.edge_id;
        smart_routing_type = smart.routing_type;
        latency_zone = smart.latency_zone;
        monitor_type = o.monitor_type;
        monitor_status = pos 0;
        geo_latitude = smart.lat;
        geo_longitude = smart.long;
      }

  unfoldable pub reconcile_from : Assoc Bool → ℕ → List Endpoint → Index → List Action
  unfolding desired_record reconcile_one removals
  reconcile_from in_rotation max_cap [] ix = removals ix.managed
  reconcile_from in_rotation max_cap (ep ∷ eps) ix =
      let step = reconcile_one ep.edge_id (desired_record in_rotation max_cap ep) ix in
      let skipped = reconcile_from in_rotation max_cap eps ix in
      let rest = step.0 ++ reconcile_from in_rotation max_cap eps step.1 in
      if str_eq ep.edge_id [] || str_eq ep.ip [] then skipped else rest

  unfoldable pub diff : List Endpoint → List Record → List Action
  unfolding reconcile_from index_records
  diff eps records =
      reconcile_from (rotation_state o.now o.stale_after eps) (max_capacity eps) eps
        (index_records o.routing_name records (record { managed = []; untagged = [] }))
