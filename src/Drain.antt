-- ===== src/Drain.antt =====
-- The drain API, brisk-control/internal/api/drain.go, with SetServerDrain and DrainRegion of
-- internal/store/servers.go. Each request is one step; it reads the clock once for each count.
pub mod Region
pub mod Guard
mod Examples
use brisk.Prelude.{
  ℕ, Bytes, codes, str_eq, equal_fold, to_upper, trim_space, Option, none, some, Bool, true, false,
  ◌&&◌, not, List, [], ◌∷◌, ◌++◌, ltb, ◌==◌, if◌then◌else◌, pos, count, map, any, length,
}
use brisk.Dns.{Endpoint}
use brisk.Dns.Rotation.{Decision, rotation_decision}

-- the columns of a server that the drain API reads or writes
pub record Server : Type 0 where
  pub id : ℕ
  pub edge_id : Bytes
  pub region : Bytes
  pub ip : Bytes
  pub status : Bytes
  pub last_seen : Option ℕ
  pub health_status : Bytes
  pub role : Bytes
  pub serve_public : Bool
  pub drained : Bool
  pub drained_at : Option ℕ
  pub drain_reason : Bytes

pub record DnsAudit : Type 0 where
  pub action : Bytes
  pub edge_id : Bytes
  pub value : Bytes
  pub reason : Bytes

-- the table, the audit trail, and the reconciliations asked for
pub record Fleet : Type 0 where
  pub servers : List Server
  pub audit : List DnsAudit
  pub reconciles : List Bytes

-- which of the handler's store calls fail
pub record Failures : Type 0 where
  pub get : Bool
  pub list : Bool
  pub set : Bool

pub data Response : Type 0 where
  bad_request not_found internal_error : Response
  would_empty : ℕ → Response
  drained_server : ℕ → Response
  resumed_server : Response
  drained_region : ℕ → Response
  resumed_region : ℕ → Response

-- the other fields are Go's zero values
unfoldable pub endpoint_for : (ℕ → Bool) → Server → Endpoint
endpoint_for override_drained s = record {
  edge_id = s.edge_id;
  region = s.region;
  ip = s.ip;
  status = s.status;
  last_seen = s.last_seen;
  weight = pos 0;
  routing_override = [];
  capacity_mbps = pos 0;
  weight_by_capacity = false;
  load_factor = pos 0;
  health = s.health_status;
  drained = if override_drained s.id then true else s.drained;
}

-- endpointsFor: the ids of the override are drained, the others are as they are
unfoldable pub endpoints_for : List Server → (ℕ → Bool) → List Endpoint
unfolding endpoint_for
endpoints_for [] override_drained = []
endpoints_for (s ∷ ss) override_drained =
    endpoint_for override_drained s ∷ endpoints_for ss override_drained

abbrev pub no_override : ℕ → Bool
no_override id = false

abbrev pub in_pool_entry : Bytes × Decision → Bool
in_pool_entry e = e.1.in_pool

unfoldable pub in_rotation_count : ℕ → ℕ → List Server → (ℕ → Bool) → ℕ
unfolding endpoints_for
in_rotation_count now stale servers override_drained =
    count in_pool_entry (rotation_decision now stale (endpoints_for servers override_drained))

-- in the DNS set, which cmd/brisk-control/main.go builds for the reconciler: no shield, unless it
-- serves the public too
abbrev pub is_public : Server → Bool
is_public s = not (equal_fold s.role (codes "shield") && not s.serve_public)

unfoldable pub dns_set : List Server → List Server
dns_set [] = []
dns_set (s ∷ ss) = let rest = dns_set ss in if is_public s then s ∷ rest else rest

unfoldable pub find_server_row : ℕ → List Server → Option Server
find_server_row id [] = none
find_server_row id (s ∷ ss) = if s.id == id then some s else find_server_row id ss

abbrev pub drain_row : ℕ → Bytes → Server → Server
drain_row now reason s = record s { drained = true; drained_at = some now; drain_reason = reason }

abbrev pub undrain_row : Server → Server
undrain_row s = record s { drained = false; drained_at = none; drain_reason = [] }

-- UPDATE servers SET … WHERE …
unfoldable pub update_where : (Server → Bool) → (Server → Server) → List Server → List Server
update_where p f [] = []
update_where p f (s ∷ ss) = (if p s then f s else s) ∷ update_where p f ss

-- … RETURNING
unfoldable pub returning : (Server → Bool) → List Server → List Server
returning p [] = []
returning p (s ∷ ss) = let rest = returning p ss in if p s then s ∷ rest else rest

abbrev pub audit_entry : Server → Bytes → Bytes → DnsAudit
audit_entry s action reason = record {
  action = action;
  edge_id = s.edge_id;
  value = s.ip;
  reason = if str_eq reason [] then action else reason;
}

-- auditDrain of each affected server; an error of the insertion is ignored
unfoldable pub audit_drain : List Server → Bytes → Bytes → List DnsAudit → List DnsAudit
audit_drain [] action reason trail = trail
audit_drain (s ∷ ss) action reason trail =
    audit_drain ss action reason (audit_entry s action reason ∷ trail)

-- the write, the audit and the reconciliation that end every handler
unfoldable pub write_rows :
    (Server → Bool) → (Server → Server) → Bytes → Bytes → Bytes → Fleet → Fleet
unfolding update_where audit_drain
write_rows p f action why reconcile fleet = record {
  servers = update_where p f fleet.servers;
  audit = audit_drain (returning p fleet.servers) action why fleet.audit;
  reconciles = reconcile ∷ fleet.reconciles;
}

abbrev pub has_id : ℕ → Server → Bool
has_id id s = s.id == id

-- upper(region) = upper($1)
abbrev pub in_region : Bytes → Server → Bool
in_region region s = str_eq (to_upper s.region) (to_upper region)

-- `before > 0 && after == 0 && !in.Force`
abbrev pub refuses : ℕ → ℕ → Bool → Bool
refuses before after force = ltb 0 before && (after == 0) && not force

module _ (stale now_before now_after now_db : ℕ) (fails : Failures) where
  -- with the counts before and after
  unfoldable pub drain_counted : ℕ → ℕ → ℕ → Bool → Bytes → Fleet → Response × Fleet
  unfolding write_rows
  drain_counted before after id force reason fleet =
      let trimmed = trim_space reason in
      if refuses before after force
      then (would_empty before, fleet)
      else if fails.set
      then (internal_error, fleet)
      else (
        drained_server after,
        write_rows (has_id id) (drain_row now_db trimmed) (codes "drain") trimmed (codes "drain")
            fleet,
      )

  unfoldable pub drain_checked : ℕ → Bool → Bytes → Fleet → Response × Fleet
  unfolding in_rotation_count drain_counted
  drain_checked id force reason fleet =
      drain_counted (in_rotation_count now_before stale fleet.servers no_override)
        (in_rotation_count now_after stale fleet.servers (λ i. i == id)) id force reason fleet

  abbrev pub drain_found : Option Server → ℕ → Bool → Bytes → Fleet → Response × Fleet
  drain_found none id force reason fleet = (not_found, fleet)
  drain_found (some s) id force reason fleet =
      if fails.list then (internal_error, fleet) else drain_checked id force reason fleet

  -- drainServer
  unfoldable pub drain_server : ℕ → Bool → Bytes → Fleet → Response × Fleet
  unfolding drain_checked find_server_row
  drain_server id force reason fleet =
      if fails.get
      then (internal_error, fleet)
      else drain_found (find_server_row id fleet.servers) id force reason fleet

  abbrev pub undrain_found : Option Server → ℕ → Fleet → Response × Fleet
  undrain_found none id fleet = (not_found, fleet)
  undrain_found (some s) id fleet = (
    resumed_server,
    write_rows (has_id id) undrain_row (codes "undrain") (codes "resume") (codes "undrain") fleet,
  )

  -- undrainServer
  unfoldable pub undrain_server : ℕ → Fleet → Response × Fleet
  unfolding find_server_row write_rows
  undrain_server id fleet =
      if fails.set
      then (internal_error, fleet)
      else undrain_found (find_server_row id fleet.servers) id fleet
