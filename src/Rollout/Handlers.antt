-- ===== src/Rollout/Handlers.antt =====
-- The admin handlers of brisk-control/internal/api/rollouts.go and the targets in flight: proofs.
use brisk.Prelude.{ℕ, Bytes, Option, none, some, Bool, List, [], ◌∷◌, any, is_some, lookup}
use brisk.Rollout.{Status, Rollout}
use brisk.Rollout.Store.{
  round_trip, find_active, get_rollout, active_rollout, list_targets, write_audit, from_option,
}
use brisk.Rollout.Create.{
  CreateRolloutParams, insert_rollout, insert_target, insert_targets, create_rollout,
}
use brisk.Rollout.Api.{Response, get_release_meta}
use brisk.Rollout.Admin.{
  StartRolloutInput, list_servers, create_and_audit, start_checked, start_rollout, set_status_of,
  change_status, stop_if_active, rollback_to, rollback_found, rollback_rollout,
}
use brisk.Rollout.Frame.{
  Keeps, Keeps-pure, Keeps-fail, Keeps-bind, Keeps-exec, Keeps-round_trip, pick_lem, keeps_rules,
}
use brisk.Rollout.OneInFlight.{OneInFlight, OneInFlight-set_rollout_status}

OneInFlight-from_option : {A : Type 0} (o : Option A) → Keeps OneInFlight (from_option o)
OneInFlight-from_option none = Keeps-fail _
OneInFlight-from_option (some a) = Keeps-pure a

module _ (now : ℕ) where
  insert_rollout-OneInFlight : (p : CreateRolloutParams) → Keeps OneInFlight (insert_rollout now p)
  unfolding insert_rollout
  insert_rollout-OneInFlight p = Keeps-bind round_trip _ Keeps-round_trip (λ u. record {
    at = λ w h.
        pick_lem OneInFlight (is_some (lookup p.release_version w.db.releases)) _ _
          (pick_lem OneInFlight (is_some (find_active w.db.rollouts)) _ _ h
            (record { edge = h.edge; only = h.only }))
          h;
  })

  insert_target-OneInFlight :
      (id : ℕ) (p : CreateRolloutParams) (edge : Bytes)
      → Keeps OneInFlight (insert_target now id p edge)
  unfolding insert_target
  insert_target-OneInFlight id p edge = Keeps-bind round_trip _ Keeps-round_trip (λ u. record {
    at = λ w h.
        pick_lem OneInFlight (any _ w.db.targets) _ _ h
          (record { edge = h.edge; only = λ i. (λ own up. cc up, h.only i) });
  })

  insert_targets-OneInFlight :
      (id : ℕ) (p : CreateRolloutParams) (edges : List Bytes)
      → Keeps OneInFlight (insert_targets now id p edges)
  unfolding insert_targets
  insert_targets-OneInFlight id p [] = Keeps-pure tt
  insert_targets-OneInFlight id p (e ∷ es) =
      Keeps-bind _ _ (insert_target-OneInFlight id p e) (λ u. insert_targets-OneInFlight id p es)

  create_rollout-OneInFlight : (p : CreateRolloutParams) → Keeps OneInFlight (create_rollout now p)
  unfolding create_rollout
  create_rollout-OneInFlight p =
      search (keeps_rules, insert_rollout-OneInFlight, insert_targets-OneInFlight) depth 8

  write_audit-OneInFlight : (a b c : Bytes) → Keeps OneInFlight (write_audit now a b c)
  unfolding write_audit
  write_audit-OneInFlight a b c = Keeps-exec _ (λ db h. record { edge = h.edge; only = h.only })

  ruleset handler_rules = (
    keeps_rules, create_rollout-OneInFlight, write_audit-OneInFlight,
    OneInFlight-set_rollout_status, OneInFlight-from_option,
  )

  module _ (actor : Bytes) where
    create_and_audit-OneInFlight :
        (p : CreateRolloutParams) (action : Bytes) (reply : ℕ → Response)
        → Keeps OneInFlight (create_and_audit now actor p action reply)
    unfolding create_and_audit
    create_and_audit-OneInFlight p action reply = search handler_rules depth 7

    start_checked-OneInFlight :
        (input : StartRolloutInput) → Keeps OneInFlight (start_checked now actor input)
    unfolding start_checked list_servers active_rollout
    start_checked-OneInFlight input = search (handler_rules, create_and_audit-OneInFlight) depth 8

    pub start_rollout-OneInFlight :
        (input : StartRolloutInput) → Keeps OneInFlight (start_rollout now actor input)
    unfolding start_rollout get_release_meta
    start_rollout-OneInFlight input = search (handler_rules, start_checked-OneInFlight) depth 8

    set_status_of-OneInFlight :
        (id : ℕ) (to : Status) → Keeps OneInFlight (set_status_of now actor id to)
    unfolding set_status_of
    set_status_of-OneInFlight id to = search handler_rules depth 8

    pub change_status-OneInFlight :
        (id : ℕ) (to : Status) (from : Option Status)
        → Keeps OneInFlight (change_status now actor id to from)
    unfolding change_status get_rollout
    change_status-OneInFlight id to from = search (handler_rules, set_status_of-OneInFlight) depth 8

    rollback_to-OneInFlight :
        (r : Rollout) (to : Bytes) → Keeps OneInFlight (rollback_to now actor r to)
    unfolding rollback_to get_release_meta stop_if_active list_servers
    rollback_to-OneInFlight r to = search (handler_rules, create_and_audit-OneInFlight) depth 12

    pub rollback_rollout-OneInFlight :
        (le : Bytes → Bytes → Bool) (id : ℕ) (version : Bytes)
        → Keeps OneInFlight (rollback_rollout now actor le id version)
    unfolding rollback_rollout rollback_found get_rollout list_targets
    rollback_rollout-OneInFlight le id version =
        search (handler_rules, rollback_to-OneInFlight) depth 8
