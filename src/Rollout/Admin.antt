-- ===== src/Rollout/Admin.antt =====
-- The admin handlers of brisk-control/internal/api/rollouts.go: start, pause, resume, cancel and
-- roll back. `actor` is the caller's account id, written to the audit trail.
use brisk.Prelude.{
  ℕ, Bytes, codes, str_eq, Option, none, some, Bool, true, false, ◌||◌, List, [], ◌∷◌,
  if◌then◌else◌, ◌++◌, ℤ, pos, Assoc, insert, format_int,
}
use brisk.Rollout.{Status, running, paused, cancelled, Rollout, RolloutTarget, ServerRow, is_active}
use brisk.Rollout.Store.{
  M, Result, ok, err, ◌>>=◌, ◌>>◌, pure, query, round_trip, get_rollout, active_rollout,
  list_targets, set_rollout_status, write_audit,
}
use brisk.Rollout.Create.{CreateRolloutParams, create_rollout}
use brisk.Rollout.Api.{
  Response, bad_request, not_found, conflict, internal_error, created, status_set, rolled_back,
  attempt, either, get_release_meta,
}

pub record StartRolloutInput : Type 0 where
  pub version : Bytes
  pub pops : List Bytes
  pub soak_seconds : ℤ
  pub scheduled_at : Option ℕ

abbrev pub is_empty {ℓ} : {A : Type ℓ} → List A → Bool
is_empty [] = true
is_empty (x ∷ xs) = false

-- the version that each edge runs now
abbrev pub versions_of : List ServerRow → Assoc Bytes → Assoc Bytes
versions_of [] from = from
versions_of (s ∷ ss) from = versions_of ss (insert s.edge_id s.agent_version from)

unfoldable pub list_servers : M (List ServerRow)
unfolding round_trip
list_servers = query (λ db. db.servers)

abbrev pub from_versions : Result (List ServerRow) → Assoc Bytes
from_versions (ok servers) = versions_of servers []
from_versions (err e) = []

-- an active rollout was read; an error of that read is ignored
abbrev pub is_busy : Result (Option Rollout) → Bool
is_busy (ok (some r)) = true
is_busy (ok none) = false
is_busy (err e) = false

abbrev pub status_name : Status → Bytes
status_name Status.scheduled = codes "scheduled"
status_name Status.running = codes "running"
status_name Status.paused = codes "paused"
status_name Status.done = codes "done"
status_name Status.failed = codes "failed"
status_name Status.cancelled = codes "cancelled"

abbrev pub is_status : Status → Status → Bool
is_status Status.scheduled Status.scheduled = true
is_status Status.running Status.running = true
is_status Status.paused Status.paused = true
is_status Status.done Status.done = true
is_status Status.failed Status.failed = true
is_status Status.cancelled Status.cancelled = true
is_status _ _ = false

-- requireFrom; none is the empty string, which requires nothing
abbrev pub allowed_from : Option Status → Status → Bool
allowed_from none s = true
allowed_from (some from) s = is_status s from

module _ (now : ℕ) (actor : Bytes) where
  -- the end of startRollout and rollbackRollout
  unfoldable pub create_and_audit : CreateRolloutParams → Bytes → (ℕ → Response) → M Response
  unfolding create_rollout write_audit
  create_and_audit params action reply = do
    made ← attempt (create_rollout now params)
    either made
        (λ id. do attempt (write_audit now actor action params.release_version); pure (reply id))
        (λ e. pure conflict)

  unfoldable pub start_params : StartRolloutInput → Result (List ServerRow) → CreateRolloutParams
  start_params input servers = record {
    release_version = input.version;
    target_pops = input.pops;
    soak_seconds = input.soak_seconds;
    scheduled_at = input.scheduled_at;
    created_by = [];
    from_versions = from_versions servers;
  }

  unfoldable pub start_checked : StartRolloutInput → M Response
  unfolding create_and_audit list_servers start_params
  start_checked input = do
    active ← attempt active_rollout
    if is_busy active then pure conflict else do
      servers ← attempt list_servers
      create_and_audit (start_params input servers) (codes "rollout.start") created

  -- startRollout, on a body that decodes
  unfoldable pub start_rollout : StartRolloutInput → M Response
  unfolding start_checked get_release_meta
  start_rollout input =
      if str_eq input.version [] || is_empty input.pops then pure bad_request else do
        meta ← attempt (get_release_meta input.version)
        either meta (λ m. start_checked input) (λ e. pure bad_request)

  unfoldable pub set_status_of : ℕ → Status → M Response
  unfolding set_rollout_status write_audit
  set_status_of id to = do
    done ← attempt (set_rollout_status now id to [])
    either done
        (λ u. do
          attempt (write_audit now actor (codes "rollout." ++ status_name to) (format_int id))
          pure (status_set id to))
        (λ e. pure internal_error)

  -- setRolloutStatus, the handler
  unfoldable pub change_status : ℕ → Status → Option Status → M Response
  unfolding get_rollout set_status_of
  change_status id to require_from = do
    found ← attempt (get_rollout id)
    either found
        (λ r. if allowed_from require_from r.status then set_status_of id to else pure conflict)
        (λ e. pure not_found)

  unfoldable pub pause_rollout : ℕ → M Response
  unfolding change_status
  pause_rollout id = change_status id paused (some running)

  unfoldable pub resume_rollout : ℕ → M Response
  unfolding change_status
  resume_rollout id = change_status id running (some paused)

  unfoldable pub cancel_rollout : ℕ → M Response
  unfolding change_status
  cancel_rollout id = change_status id cancelled none

  -- the first target's from_version that is not empty
  abbrev pub previous_version : List RolloutTarget → Bytes
  previous_version [] = []
  previous_version (t ∷ ts) =
      if str_eq t.from_version [] then previous_version ts else t.from_version

  unfoldable pub rollback_params : Rollout → Bytes → Result (List ServerRow) → CreateRolloutParams
  rollback_params r to servers = record {
    release_version = to;
    target_pops = r.target_pops;
    soak_seconds = pos r.soak_seconds;
    scheduled_at = none;
    created_by = [];
    from_versions = from_versions servers;
  }

  abbrev pub rolled_back_reason : Bytes
  rolled_back_reason = codes "rolled back"

  unfoldable pub stop_if_active : Rollout → M (Unit {0})
  unfolding set_rollout_status
  stop_if_active r =
      if is_active r.status
      then (do attempt (set_rollout_status now r.id cancelled rolled_back_reason); pure tt)
      else pure tt

  unfoldable pub rollback_to : Rollout → Bytes → M Response
  unfolding create_and_audit list_servers rollback_params get_release_meta stop_if_active
  rollback_to r to = if str_eq to [] then pure bad_request else do
    meta ← attempt (get_release_meta to)
    either meta
        (λ m. do
          stop_if_active r
          servers ← attempt list_servers
          create_and_audit (rollback_params r to servers) (codes "rollout.rollback")
              (λ id. rolled_back id to))
        (λ e. pure bad_request)

  module _ (le : Bytes → Bytes → Bool) where
    abbrev pub or_previous : Result (List RolloutTarget) → Bytes
    or_previous (ok targets) = previous_version targets
    or_previous (err e) = []

    unfoldable pub rollback_found : Rollout → Bytes → M Response
    unfolding rollback_to
    rollback_found r version =
        if str_eq version []
        then (do targets ← attempt (list_targets le r.id); rollback_to r (or_previous targets))
        else rollback_to r version

    -- rollbackRollout, with the body's version, empty if it has none
    unfoldable pub rollback_rollout : ℕ → Bytes → M Response
    unfolding rollback_found get_rollout
    rollback_rollout id version = do
      found ← attempt (get_rollout id)
      either found (λ r. rollback_found r version) (λ e. pure not_found)
