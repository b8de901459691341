-- ===== src/Dns/Rotation.antt =====
-- Endpoint.Online, Endpoint.Unhealthy, RotationDecision and RotationState of
-- brisk-control/internal/dns/reconcile.go.
pub mod Blackhole
use brisk.Prelude.{
  ℕ, zero, suc, ◌-◌, Bytes, codes, str_eq, equal_fold, Option, none, some, Bool, true, false, ◌&&◌,
  not, List, [], ◌∷◌, leb, ltb, ◌==◌, if◌then◌else◌, Assoc, insert, count, map,
}
use brisk.Dns.{Endpoint}

pub data Reason : Type 0 where
  in_rotation drained unhealthy offline : Reason

pub record Decision : Type 0 where
  pub in_pool : Bool
  pub reason : Reason

abbrev pub is_unhealthy : Endpoint → Bool
is_unhealthy ep = equal_fold ep.health (codes "unhealthy")

-- `now.Sub(seen) <= stale`; a heartbeat from the future is fresh, as `-` stops at 0
abbrev pub is_fresh : ℕ → ℕ → Option ℕ → Bool
is_fresh now stale none = false
is_fresh now stale (some seen) = leb (now - seen) stale

module _ (now stale : ℕ) where
  unfoldable pub is_online : Endpoint → Bool
  is_online ep =
      if equal_fold ep.status (codes "online") then is_fresh now stale ep.last_seen else false

  abbrev pub in_guard_pool : Endpoint → Bool
  in_guard_pool ep = not ep.drained

  abbrev pub counts_online : Endpoint → Bool
  counts_online ep = in_guard_pool ep && is_online ep

  abbrev pub counts_healthy : Endpoint → Bool
  counts_healthy ep = counts_online ep && not (is_unhealthy ep)

  -- the counters of the first loop
  abbrev pub all_down : List Endpoint → Bool
  all_down eps = ltb 0 (count counts_online eps) && (count counts_healthy eps == 0)

  abbrev pub all_offline : List Endpoint → Bool
  all_offline eps = ltb 0 (count in_guard_pool eps) && (count counts_online eps == 0)

  abbrev pub out_for : Reason → Decision
  out_for why = record { in_pool = false; reason = why }

  abbrev pub kept : Decision
  kept = record { in_pool = true; reason = in_rotation }

  -- the switch of the second loop, with the two guards
  unfoldable pub decide : Bool → Bool → Endpoint → Decision
  decide down off ep =
      if ep.drained
      then out_for drained
      else if is_unhealthy ep
      then (if is_online ep && down then kept else out_for unhealthy)
      else if is_online ep
      then kept
      else if off
      then kept
      else out_for offline

  unfoldable pub decide_from : Bool → Bool → Assoc Decision → List Endpoint → Assoc Decision
  decide_from down off out [] = out
  decide_from down off out (ep ∷ eps) =
      decide_from down off (insert ep.edge_id (decide down off ep) out) eps

  unfoldable pub rotation_decision : List Endpoint → Assoc Decision
  unfolding decide_from decide is_online
  rotation_decision eps = decide_from (all_down eps) (all_offline eps) [] eps

  abbrev pub membership : Assoc Decision → Assoc Bool
  membership [] = []
  membership ((id, d) ∷ m) = (id, d.in_pool) ∷ membership m

  unfoldable pub rotation_state : List Endpoint → Assoc Bool
  unfolding rotation_decision
  rotation_state eps = membership (rotation_decision eps)
