-- ===== src/Rollout/Examples.antt =====
-- A rollout to two edges, run.
use brisk.Prelude.{
  str_eq_iff, ℕ, Bytes, codes, ◌≡◌, refl, ap, ◌*◌, none, some, Bool, true, false, [], ◌∷◌, ◌&&◌,
  arith, ◌==◌, pos, str_eq, lookup, insert, format_int, if◌then◌else◌, ltb,
}
use brisk.Rollout.{Db, Status, TargetState, Rollout, RolloutTarget, ServerRow, ReleaseMeta}
use brisk.Rollout.Store.{
  World, Result, ok, active_rollout, list_targets, open_target, find_active, order_by_edge,
}
use brisk.Rollout.Engine.{EdgeState, healthy_on_new, find_target, tick, second}
use brisk.Rollout.Api.{AgentReleaseResp, release, agent_release, find_server}
use brisk.Rollout.Admin.{StartRolloutInput, start_rollout}
use brisk.Rollout.OneInFlight.{OneInFlight}
use brisk.Rollout.System.{Step, Reach, here, next, Reach-OneInFlight}
use brisk.Rollout.Offers.{IsUpdate, Offered, agent_release-Offered, one_update_at_a_time}
use brisk.Rollout.Halt.{
  world, halted_target, halted_rollout, next_target, tick-halts, tick-opens, halt-lost-opens,
}
use brisk.Rollout.RowWise.{RowWise, AtTarget, AtRollout}

-- byte order
abbrev bytes_le : Bytes → Bytes → Bool
bytes_le [] t = true
bytes_le (c ∷ s) [] = false
bytes_le (c ∷ s) (d ∷ t) = if ltb c d then true else (c == d) && bytes_le s t

abbrev meta : ReleaseMeta
meta = record { sha256 = codes "ab"; signature = codes "cd"; signed_by = codes "ci" }

abbrev fleet : Db
fleet = record {
  rollouts = [];
  targets = [];
  audit = [];
  releases = (codes "2", meta) ∷ [];
  servers =
      record { id = 1; edge_id = codes "de"; agent_version = codes "1" }
      ∷ record { id = 2; edge_id = codes "ny"; agent_version = codes "1" }
      ∷ [];
}

abbrev all_up : Bytes → EdgeState
all_up e = record { online = true; version = codes "1"; healthy = true }

abbrev to_both : StartRolloutInput
to_both = record {
  version = codes "2";
  pops = codes "ny" ∷ codes "de" ∷ [];
  soak_seconds = pos 90;
  scheduled_at = none;
}

abbrev started : World
started = (start_rollout 10 [] to_both (world fleet 7 [])).1

abbrev opened : World
opened = (tick all_up 20 bytes_le started).1

run : Reach bytes_le (world fleet 7 []) opened
run =
    next (next here (Step.started 10 [] to_both (world fleet 7 []))) (Step.ticked all_up 20 started)

Reach-OneInFlight_example : OneInFlight opened.db
Reach-OneInFlight_example = Reach-OneInFlight bytes_le refl run

abbrev offered : AgentReleaseResp
offered = record {
  target_version = codes "2";
  url = codes "/api/v1/releases/2/binary";
  sha256 = codes "ab";
  signature = codes "cd";
  signed_by = codes "ci";
}

-- The engine opens `de` first, although `ny` was asked for first.
offered_de : (agent_release bytes_le 1 opened).0 ≡ ok (release offered)
unfolding start_rollout tick agent_release str_eq lookup insert order_by_edge format_int
    active_rollout find_active list_targets open_target
offered_de = refl

offered-IsUpdate : IsUpdate offered
offered-IsUpdate = record { has_url = λ e. cc }

abbrev de_server : ServerRow
de_server = record { id = 1; edge_id = codes "de"; agent_version = codes "1" }

agent_release-Offered_example :
    (s : ServerRow) × (find_server 1 opened.db.servers ≡ some s)
    × Offered opened.db s.edge_id offered
agent_release-Offered_example =
    agent_release-Offered bytes_le offered offered-IsUpdate 1 opened offered_de

one_update_at_a_time_example : de_server.edge_id ≡ de_server.edge_id
unfolding find_server start_rollout tick agent_release str_eq lookup insert order_by_edge format_int
    active_rollout find_active list_targets open_target
one_update_at_a_time_example =
    one_update_at_a_time bytes_le {u = world fleet 7 []} {w = opened} refl run 1 1 [] [] offered
      offered de_server de_server offered_de offered_de offered-IsUpdate offered-IsUpdate refl refl

abbrev target : Bytes → TargetState → RolloutTarget
target edge state = record {
  rollout_id = 7;
  edge_id = edge;
  from_version = codes "1";
  to_version = codes "2";
  state = state;
  error_reason = [];
  soak_until = none;
  updated_at = 0;
}

abbrev rollout : Status → Rollout
rollout status = record {
  id = 7;
  release_version = codes "2";
  target_pops = codes "de" ∷ codes "ny" ∷ [];
  soak_seconds = 90;
  status = status;
  scheduled_at = none;
  error_reason = [];
  created_by = [];
  created_at = 0;
  started_at = some 0;
  finished_at = none;
}

abbrev tables : Status → TargetState → Db
tables status de = record fleet {
  rollouts = rollout status ∷ [];
  targets = target (codes "de") de ∷ target (codes "ny") TargetState.queued ∷ [];
}

-- soak and grace are 210 seconds
abbrev too_late : ℕ
too_late = 300 * second

still_old : ¬ (
    ((all_up (codes "de")).online ≡ true)
    × ((all_up (codes "de")).version ≡ codes "2")
    × ((all_up (codes "de")).healthy ≡ true))
unfolding str_eq
still_old h =
    let k : str_eq (all_up (codes "de")).version (codes "2") ≡ true =
      (str_eq_iff (all_up (codes "de")).version (codes "2")).1 h.1 in
    cc

tick-halts_example :
    let db = tables Status.running TargetState.in_progress in
    let (answer, w) = tick all_up too_late bytes_le (world db 8 (false ∷ false ∷ [])) in
    (answer ≡ ok tt)
    × RowWise (AtTarget 7 (codes "de") (halted_target too_late)) db.targets w.db.targets
    × RowWise (AtRollout 7 (halted_rollout too_late)) db.rollouts w.db.rollouts
    × (w ≡ world (record db { targets = w.db.targets; rollouts = w.db.rollouts }) 8 [])
unfolding find_active find_target order_by_edge
tick-halts_example =
    tick-halts all_up too_late bytes_le (tables Status.running TargetState.in_progress) 8
      {r = rollout Status.running} refl refl {t = target (codes "de") TargetState.in_progress} refl
      still_old (omega arith)

tick-opens_example :
    let db = tables Status.running TargetState.done in
    let (answer, w) = tick all_up 5 bytes_le (world db 8 []) in
    (answer ≡ ok tt)
    × RowWise
        (AtTarget 7 (codes "ny") (next_target 5 (all_up (codes "ny")).version))
        db.targets
        w.db.targets
    × (w ≡ world (record db { targets = w.db.targets }) 8 [])
unfolding find_active find_target order_by_edge
tick-opens_example =
    tick-opens all_up 5 bytes_le (tables Status.running TargetState.done) 8
      {r = rollout Status.running} refl refl refl {t = target (codes "ny") TargetState.queued} refl
      refl

halt-lost-opens_example :
    (tick all_up too_late bytes_le
      (tick all_up too_late bytes_le (
        world
          (tables Status.running TargetState.in_progress)
          8
          (false ∷ false ∷ false ∷ true ∷ []))).1).0
    ≡ ok tt
unfolding find_active find_target order_by_edge healthy_on_new str_eq
halt-lost-opens_example =
    ap (λ (x : Result (Unit {0}) × World). x.0)
      (halt-lost-opens all_up too_late bytes_le (tables Status.running TargetState.in_progress) 8
        {r = rollout Status.running} refl refl {t = target (codes "de") TargetState.in_progress}
        {u = target (codes "ny") TargetState.queued} refl refl (omega arith) refl refl refl)
