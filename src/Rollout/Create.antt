-- ===== src/Rollout/Create.antt =====
-- CreateRollout of brisk-control/internal/store/rollouts.go, with the constraints of the tables
-- (migration 00031): one active rollout, one row per rollout and edge, a known release.
use brisk.Prelude.{
  ℕ, suc, Bytes, str_eq, Option, none, some, ◌&&◌, List, [], ◌∷◌, ◌==◌, if◌then◌else◌, any, lookup,
  is_some, opt_or, ℤ, pos_part, positive, Assoc,
}
use brisk.Rollout.{Status, scheduled, running, queued, Rollout, RolloutTarget}
use brisk.Rollout.Store.{
  M, unique_violation, foreign_key, ok, err, ◌>>=◌, ◌>>◌, pure, round_trip, transaction,
  find_active,
}

pub record CreateRolloutParams : Type 0 where
  pub release_version : Bytes
  pub target_pops : List Bytes
  pub soak_seconds : ℤ
  pub scheduled_at : Option ℕ
  pub created_by : Bytes
  pub from_versions : Assoc Bytes

abbrev pub initial_status : Option ℕ → Status
initial_status none = running
initial_status (some at) = scheduled

abbrev pub soak_or_default : ℤ → ℕ
soak_or_default s = if positive s then pos_part s else 90

module _ (now : ℕ) where
  abbrev pub initial_start : Option ℕ → Option ℕ
  initial_start none = some now
  initial_start (some at) = none

  abbrev pub new_rollout : ℕ → CreateRolloutParams → Rollout
  new_rollout id p = record {
    id = id;
    release_version = p.release_version;
    target_pops = p.target_pops;
    soak_seconds = soak_or_default p.soak_seconds;
    status = initial_status p.scheduled_at;
    scheduled_at = p.scheduled_at;
    error_reason = [];
    created_by = p.created_by;
    created_at = now;
    started_at = initial_start p.scheduled_at;
    finished_at = none;
  }

  -- INSERT INTO rollouts … RETURNING id
  unfoldable pub insert_rollout : CreateRolloutParams → M ℕ
  unfolding round_trip
  insert_rollout p = do
    round_trip
    λ w.
        let id = w.next_id in
        let w' = record w { next_id = suc id } in
        if is_some (lookup p.release_version w.db.releases)
        then (if is_some (find_active w.db.rollouts) then (err unique_violation, w') else (
          ok id,
          record w' { db = record w.db { rollouts = new_rollout id p ∷ w.db.rollouts } },
        ))
        else (err foreign_key, w')

  abbrev pub new_target : ℕ → CreateRolloutParams → Bytes → RolloutTarget
  new_target id p edge = record {
    rollout_id = id;
    edge_id = edge;
    from_version = opt_or (lookup edge p.from_versions) [];
    to_version = p.release_version;
    state = queued;
    error_reason = [];
    soak_until = none;
    updated_at = now;
  }

  -- INSERT INTO rollout_targets …
  unfoldable pub insert_target : ℕ → CreateRolloutParams → Bytes → M (Unit {0})
  unfolding round_trip
  insert_target id p edge = do
    round_trip
    λ w.
        if any (λ (t : RolloutTarget). (t.rollout_id == id) && str_eq t.edge_id edge) w.db.targets
        then (err unique_violation, w)
        else (
          ok tt,
          record w { db = record w.db { targets = new_target id p edge ∷ w.db.targets } },
        )

  unfoldable pub insert_targets : ℕ → CreateRolloutParams → List Bytes → M (Unit {0})
  unfolding insert_target
  insert_targets id p [] = pure tt
  insert_targets id p (edge ∷ edges) = do insert_target id p edge; insert_targets id p edges

  unfoldable pub create_rollout : CreateRolloutParams → M ℕ
  unfolding transaction insert_rollout insert_targets
  create_rollout p = do
    round_trip
    transaction (do id ← insert_rollout p; insert_targets id p p.target_pops; round_trip; pure id)
