-- ===== src/Rollout/OneTick.antt =====
-- One tick of brisk-control/internal/rollout/engine.go and the targets in flight: proofs.
use brisk.Prelude.{
  ℕ, Bytes, ◌≡◌, refl, sym, subst, Option, none, some, Bool, true, false, ◌+◌, All, Bool-cases, inl,
  inr, ltb,
}
use brisk.Rollout.{Status, TargetState, Rollout, RolloutTarget, in_flight}
use brisk.Rollout.Store.{◌>>=◌, finish_target, list_targets, World, active_rollout}
use brisk.Rollout.Engine.{
  EdgeState, healthy_on_new, starts_soak, elapsed, soak, grace, stuck_reason, due, find_target,
  advance, open_next, move_queued, move, tick_status, tick_rollout, tick,
}
use brisk.Rollout.Frame.{if_lem, Keeps-read, Keeps, Keeps-pure, Keeps-if, Keeps-bind, Keeps-query}
use brisk.Rollout.Listed.{listed, find-listed, find-listed_none}
use brisk.Rollout.OneInFlight.{
  OnlyEdge, OneInFlight, OnlyEdge-idle, OneInFlight-finish_target, OneInFlight-open_target,
  OneInFlight-start_soak, OneInFlight-set_rollout_status,
}

module _ (now : ℕ) where
  module _ (edge : Bytes → EdgeState) (r : Rollout) where
    OneInFlight-advance :
        (t : RolloutTarget) (w : World)
        → OneInFlight w.db
        → OnlyEdge r.id t.edge_id w.db.targets
        → OneInFlight (advance edge now r t w).1.db
    unfolding advance
    OneInFlight-advance t w h own =
        if_lem OneInFlight (healthy_on_new edge t) _ _ w
          (if_lem OneInFlight (starts_soak t.state t.soak_until) _ _ w
            (OneInFlight-start_soak now r.id t.edge_id _ w h own)
            (if_lem OneInFlight (elapsed edge now t.soak_until) _ _ w
              ((OneInFlight-finish_target now r.id t.edge_id _ _ refl).at w h) h))
          (if_lem OneInFlight (ltb (t.updated_at + (soak r + grace)) now) _ _ w
            ((Keeps-bind (finish_target now r.id t.edge_id TargetState.failed stuck_reason) _
                (OneInFlight-finish_target now r.id t.edge_id _ _ refl)
                (λ u. OneInFlight-set_rollout_status now r.id _ _)).at
              w h)
            h)

    OneInFlight-open_next :
        (t : RolloutTarget) (w : World)
        → OneInFlight w.db
        → OnlyEdge r.id t.edge_id w.db.targets
        → OneInFlight (open_next edge now r t w).1.db
    unfolding open_next
    OneInFlight-open_next t w h own = elim (Bool-cases (edge t.edge_id).online) [
      | inl up ↦ rw up (OneInFlight-open_target now r.id t.edge_id (edge t.edge_id).version w h own)
      | inr down ↦ rw down ((OneInFlight-finish_target now r.id t.edge_id _ _ refl).at w h)
    ]

    OneInFlight-move_queued :
        (le : Bytes → Bytes → Bool) (w : World)
        → OneInFlight w.db
        → All (λ t. t.rollout_id ≡ r.id → in_flight t.state ≡ false) w.db.targets
        → (o : Option RolloutTarget) → OneInFlight (move_queued edge now r o w).1.db
    unfolding move_queued
    OneInFlight-move_queued le w h idle none = (OneInFlight-set_rollout_status now r.id _ _).at w h
    OneInFlight-move_queued le w h idle (some t) =
        OneInFlight-open_next t w h (OnlyEdge-idle r.id t.edge_id w.db.targets idle)

    -- the rows that the engine lists are the table's, so a found row is the one in flight
    OneInFlight-move :
        (le : Bytes → Bytes → Bool) (w : World) (o : Option RolloutTarget)
        → OneInFlight w.db
        → find_target in_flight (listed le r.id w.db.targets) ≡ o
        → OneInFlight (move edge now r o (listed le r.id w.db.targets) w).1.db
    unfolding move
    OneInFlight-move le w none h e =
        OneInFlight-move_queued le w h (find-listed_none in_flight le r.id w.db.targets e) _
    OneInFlight-move le w (some t) h e =
        let (up, own, flying) =
          find-listed
            (λ u. u.rollout_id ≡ r.id → in_flight u.state ≡ true → u.edge_id ≡ h.edge r.id) le r.id
            in_flight w.db.targets t (h.only r.id) e in
        OneInFlight-advance t w h
          (subst (λ a. OnlyEdge r.id a w.db.targets) (sym (up own flying)) (h.only r.id))

    OneInFlight-tick_listed :
        (le : Bytes → Bytes → Bool)
        → Keeps OneInFlight (do
          targets ← list_targets le r.id
          move edge now r (find_target in_flight targets) targets)
    unfolding list_targets
    OneInFlight-tick_listed le = Keeps-query _ _ (λ w h. OneInFlight-move le w _ h refl)

    OneInFlight-tick_status :
        (le : Bytes → Bytes → Bool) (s : Status) → Keeps OneInFlight (tick_status edge now le s r)
    unfolding tick_status
    OneInFlight-tick_status le Status.paused = Keeps-pure tt
    OneInFlight-tick_status le Status.scheduled =
        Keeps-if (due edge now r.scheduled_at) _ _ (OneInFlight-set_rollout_status now r.id _ _)
          (Keeps-pure tt)
    OneInFlight-tick_status le s = OneInFlight-tick_listed le

  -- A tick keeps every rollout's in-flight targets at one edge, whichever of its database calls
  -- fail and whatever the edges report.
  pub tick-OneInFlight :
      (edge : Bytes → EdgeState) (le : Bytes → Bytes → Bool) → Keeps OneInFlight (tick edge now le)
  unfolding tick tick_rollout active_rollout
  tick-OneInFlight edge le =
      Keeps-bind active_rollout _ (Keeps-read _)
        (elim [ none ↦ Keeps-pure tt | some r ↦ OneInFlight-tick_status edge r le r.status ])
