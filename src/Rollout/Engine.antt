-- ===== src/Rollout/Engine.antt =====
-- brisk-control/internal/rollout/engine.go: one tick of the rollout state machine. The engine's
-- clock and the database's are read once for a tick, as `now`.
use brisk.Prelude.{
  ℕ, ◌+◌, ◌*◌, Bytes, codes, str_eq, Option, none, some, Bool, true, false, ◌&&◌, List, [], ◌∷◌,
  leb, ltb, if◌then◌else◌,
}
use brisk.Rollout.{
  Status, scheduled, running, paused, TargetState, in_progress, Rollout, RolloutTarget, in_flight,
  is_queued,
}
use brisk.Rollout.Store.{
  M, ◌>>=◌, ◌>>◌, pure, active_rollout, list_targets, open_target, start_soak, finish_target,
  set_rollout_status,
}

pub record EdgeState : Type 0 where
  pub online : Bool
  pub version : Bytes
  pub healthy : Bool

abbrev pub second : ℕ
second = 1_000_000_000

-- NewEngine's grace
abbrev pub grace : ℕ
grace = 120 * second

abbrev pub stuck_reason : Bytes
stuck_reason = codes "edge did not report a healthy new version within the soak window"

abbrev pub offline_reason : Bytes
offline_reason = codes "edge offline at its turn"

-- the first target that a test accepts
unfoldable pub find_target : (TargetState → Bool) → List RolloutTarget → Option RolloutTarget
find_target p [] = none
find_target p (t ∷ ts) = if p t.state then some t else find_target p ts

abbrev pub soak : Rollout → ℕ
soak r = r.soak_seconds * second

abbrev pub starts_soak : TargetState → Option ℕ → Bool
starts_soak in_progress until = true
starts_soak _ none = true
starts_soak _ (some until) = false

unfoldable pub healthy_on_new : (Bytes → EdgeState) → RolloutTarget → Bool
healthy_on_new edge t =
    let es = edge t.edge_id in es.online && str_eq es.version t.to_version && es.healthy

module _ (edge : Bytes → EdgeState) (now : ℕ) where
  -- `!now.Before(*until)`
  abbrev pub elapsed : Option ℕ → Bool
  elapsed none = false
  elapsed (some until) = leb until now

  unfoldable pub advance : Rollout → RolloutTarget → M (Unit {0})
  unfolding healthy_on_new
  advance r t =
      if healthy_on_new edge t
      then (if starts_soak t.state t.soak_until
          then start_soak now r.id t.edge_id (now + soak r)
          else if elapsed t.soak_until
          then finish_target now r.id t.edge_id TargetState.done []
          else pure tt)
      else if ltb (t.updated_at + (soak r + grace)) now
      then (do
        finish_target now r.id t.edge_id TargetState.failed stuck_reason
        set_rollout_status now r.id Status.failed stuck_reason)
      else pure tt

  unfoldable pub open_next : Rollout → RolloutTarget → M (Unit {0})
  open_next r t =
      let es = edge t.edge_id in
      if es.online
      then open_target now r.id t.edge_id es.version
      else finish_target now r.id t.edge_id TargetState.skipped offline_reason

  unfoldable pub move_queued : Rollout → Option RolloutTarget → M (Unit {0})
  unfolding open_next
  move_queued r (some t) = open_next r t
  move_queued r none = set_rollout_status now r.id Status.done []

  -- the two loops over the targets, and the step after them
  unfoldable pub move : Rollout → Option RolloutTarget → List RolloutTarget → M (Unit {0})
  unfolding advance move_queued find_target
  move r (some t) targets = advance r t
  move r none targets = move_queued r (find_target is_queued targets)

  abbrev pub due : Option ℕ → Bool
  due none = false
  due (some at) = leb at now

  module _ (le : Bytes → Bytes → Bool) where
    unfoldable pub tick_status : Status → Rollout → M (Unit {0})
    unfolding move
    tick_status paused r = pure tt
    tick_status scheduled r =
        if due r.scheduled_at then set_rollout_status now r.id running [] else pure tt
    tick_status _ r = do
      targets ← list_targets le r.id
      move r (find_target in_flight targets) targets

    unfoldable pub tick_rollout : Option Rollout → M (Unit {0})
    unfolding tick_status
    tick_rollout none = pure tt
    tick_rollout (some r) = tick_status r.status r

    unfoldable pub tick : M (Unit {0})
    unfolding tick_rollout
    tick = do r ← active_rollout; tick_rollout r
