-- ===== src/Rollout/Halt.antt =====
-- Single ticks of brisk-control/internal/rollout/engine.go: of a paused rollout, with a stuck edge, and
-- with a queued edge to open; and a tick whose last write fails.
use brisk.Prelude.{
  ℕ, ◌+◌, ◌*◌, ◌<◌, arith, codes, str_eq, str_eq_iff, Option, Bool-cases, inl, inr, Bytes, ◌≡◌,
  refl, ap, ◌∙◌, none, some, Bool, true, false, List, [], ◌∷◌, lt→ltb,
}
use brisk.Rollout.{Db, Status, TargetState, Rollout, RolloutTarget, in_flight, is_queued}
use brisk.Rollout.Store.{
  ◌>>◌, World, Result, ok, err, db_error, active_rollout, list_targets, open_target, finish_target,
  set_rollout_status, find_active, update_target, update_rollout, set_status, coalesce,
}
use brisk.Rollout.Engine.{
  EdgeState, find_target, healthy_on_new, advance, open_next, move_queued, move, tick_status,
  tick_rollout, tick, soak, grace, stuck_reason, second,
}
use brisk.Rollout.Listed.{listed}
use brisk.Rollout.RowWise.{
  RowWise, AtTarget, AtRollout, update_target-RowWise, update_rollout-RowWise,
}

abbrev pub world : Db → ℕ → List Bool → World
world db id faults = record { db = db; next_id = id; faults = faults }

abbrev pub failed_row : ℕ → RolloutTarget → RolloutTarget
failed_row now t = record t {
  state = TargetState.failed;
  error_reason = stuck_reason;
  updated_at = now;
}

abbrev pub opened_row : ℕ → Bytes → RolloutTarget → RolloutTarget
opened_row now version t = record t {
  state = TargetState.in_progress;
  from_version = version;
  soak_until = none;
  updated_at = now;
}

module _ (edge : Bytes → EdgeState) (now : ℕ) (le : Bytes → Bytes → Bool) (db : Db) (id : ℕ) where
  module _ {r : Rollout} (active : find_active db.rollouts ≡ some r) where
    -- While the active rollout is paused a tick changes no table, whichever database calls fail.
    tick-paused :
        (faults : List Bool)
        → r.status ≡ Status.paused
        → (tick edge now le (world db id faults)).1.db ≡ db
    unfolding tick active_rollout
    tick-paused [] p = rw (active, tick_rollout, p)
    tick-paused (true ∷ fs) p = refl
    tick-paused (false ∷ fs) p = rw (active, tick_rollout, p)

    module _ (running : r.status ≡ Status.running) {t : RolloutTarget}
        (found : find_target in_flight (listed le r.id db.targets) ≡ some t)
        (sick : healthy_on_new edge t ≡ false) (late : t.updated_at + (soak r + grace) < now) where
      abbrev row_failed : Db
      row_failed = record db { targets = update_target r.id t.edge_id (failed_row now) db.targets }

      advance_sick :
          (faults : List Bool)
          → advance edge now r t (world db id faults)
            ≡ (do
              finish_target now r.id t.edge_id TargetState.failed stuck_reason
              set_rollout_status now r.id Status.failed stuck_reason)
                (world db id faults)
      unfolding advance
      advance_sick faults = rw (sick, lt→ltb _ _ late)

      -- The three calls before the write succeed.
      tick_sick :
          (faults : List Bool)
          → tick edge now le (world db id (false ∷ false ∷ faults))
            ≡ advance edge now r t (world db id faults)
      unfolding tick active_rollout
      tick_sick faults = rw active (
          ap (λ s. tick_status edge now le s r (world db id (false ∷ faults))) running
          ∙ (unfold tick_status list_targets move in rw found))

      halted : tick edge now le (world db id (false ∷ false ∷ [])) ≡ (
        ok tt,
        world
            (record row_failed {
              rollouts =
                  update_rollout r.id (set_status now Status.failed stuck_reason) db.rollouts;
            })
            id
            [],
      )
      unfolding finish_target set_rollout_status
      halted = tick_sick [] ∙ advance_sick []

      -- If the last of the tick's writes fails, the edge is marked failed and the rollout is not:
      -- it is still the active rollout, and still running.
      pub halt-lost :
          tick edge now le (world db id (false ∷ false ∷ false ∷ true ∷ []))
          ≡ (err db_error, world row_failed id [])
      unfolding finish_target set_rollout_status
      halt-lost = tick_sick (false ∷ true ∷ []) ∙ advance_sick (false ∷ true ∷ [])

    opened :
        r.status ≡ Status.running
        → find_target in_flight (listed le r.id db.targets) ≡ none
        → {t : RolloutTarget} → find_target is_queued (listed le r.id db.targets) ≡ some t
        → (edge t.edge_id).online ≡ true
        → tick edge now le (world db id []) ≡ (
          ok tt,
          world
              (record db {
                targets =
                    update_target r.id t.edge_id
                      (opened_row now (edge t.edge_id).version)
                      db.targets;
              })
              id
              [],
        )
    unfolding tick active_rollout
    opened running idle next up = rw active (
        ap (λ s. tick_status edge now le s r (world db id [])) running
        ∙ (unfold tick_status list_targets move move_queued open_next open_target in
            rw (idle, next, up)))

-- Where the last write of a tick that would halt the rollout fails, the next tick, if nothing else
-- is in flight and the edge of the next queued target is online, opens that target.
pub halt-lost-opens :
    (edge : Bytes → EdgeState) (now : ℕ) (le : Bytes → Bytes → Bool) (db : Db) (id : ℕ)
    {r : Rollout}
    → find_active db.rollouts ≡ some r
    → r.status ≡ Status.running
    → {t u : RolloutTarget} → find_target in_flight (listed le r.id db.targets) ≡ some t
    → healthy_on_new edge t ≡ false
    → t.updated_at + (soak r + grace) < now
    → let failed = update_target r.id t.edge_id (failed_row now) db.targets in
      find_target in_flight (listed le r.id failed) ≡ none
      → find_target is_queued (listed le r.id failed) ≡ some u
      → (edge u.edge_id).online ≡ true
      → tick edge now le (tick edge now le (world db id (false ∷ false ∷ false ∷ true ∷ []))).1 ≡ (
        ok tt,
        world
            (record db {
              targets =
                  update_target r.id u.edge_id (opened_row now (edge u.edge_id).version) failed;
            })
            id
            [],
      )
halt-lost-opens edge now le db id {r} active running {t} found sick late idle next up =
    ap (λ (x : Result (Unit {0}) × World). tick edge now le x.1)
      (halt-lost edge now le db id active running found sick late)
    ∙ opened edge now le
        (record db { targets = update_target r.id t.edge_id (failed_row now) db.targets }) id active
        running idle next up

not_healthy :
    (edge : Bytes → EdgeState) (t : RolloutTarget)
    → ¬ (
        ((edge t.edge_id).online ≡ true)
        × ((edge t.edge_id).version ≡ t.to_version)
        × ((edge t.edge_id).healthy ≡ true))
    → healthy_on_new edge t ≡ false
unfolding healthy_on_new
not_healthy edge t sick = elim (Bool-cases (healthy_on_new edge t)) [
  | inl well ↦ absurd (
      sick (
        ground (arith, well),
        (str_eq_iff _ t.to_version).0 (ground (arith, well)),
        ground (arith, well),
      ))
  | inr ill ↦ ill
]

-- the rows of the targets and of the rollouts, as SQL would have them
abbrev pub halted_target : ℕ → RolloutTarget → RolloutTarget
halted_target now t = record {
  rollout_id = t.rollout_id;
  edge_id = t.edge_id;
  from_version = t.from_version;
  to_version = t.to_version;
  state = TargetState.failed;
  error_reason = codes "edge did not report a healthy new version within the soak window";
  soak_until = t.soak_until;
  updated_at = now;
}

abbrev pub halted_rollout : ℕ → Rollout → Rollout
halted_rollout now r = record r {
  status = Status.failed;
  error_reason = codes "edge did not report a healthy new version within the soak window";
  finished_at = some now;
}

abbrev pub next_target : ℕ → Bytes → RolloutTarget → RolloutTarget
next_target now version t = record {
  rollout_id = t.rollout_id;
  edge_id = t.edge_id;
  from_version = version;
  to_version = t.to_version;
  state = TargetState.in_progress;
  error_reason = t.error_reason;
  soak_until = none;
  updated_at = now;
}

coalesce_nothing : (o : Option ℕ) → coalesce o none ≡ o
coalesce_nothing none = refl
coalesce_nothing (some a) = refl

set_status-halted :
    (now : ℕ) (r : Rollout) → set_status now Status.failed stuck_reason r ≡ halted_rollout now r
unfolding str_eq
set_status-halted now r =
    ap (λ (s : Option ℕ). record (halted_rollout now r) { started_at = s })
      (coalesce_nothing r.started_at)

module _ (edge : Bytes → EdgeState) (now : ℕ) (le : Bytes → Bytes → Bool) (db : Db) (id : ℕ)
    {r : Rollout} (active : find_active db.rollouts ≡ some r)
    (running : r.status ≡ Status.running) where
  -- Where a rollout is running, its first target in flight has an edge that is offline, on another
  -- version or not healthy, and the time of soak and 120 seconds has passed since its last change,
  -- a tick whose database calls succeed leaves every row of the targets as it is, but the row of
  -- this rollout and edge failed with the reason and the time; every row of the rollouts, but this
  -- rollout failed with the reason and finished; and everything else.
  pub tick-halts :
      {t : RolloutTarget}
      → find_target in_flight (listed le r.id db.targets) ≡ some t
      → ¬ (
          ((edge t.edge_id).online ≡ true)
          × ((edge t.edge_id).version ≡ t.to_version)
          × ((edge t.edge_id).healthy ≡ true))
      → t.updated_at + (r.soak_seconds * second + 120 * second) < now
      → let (answer, w) = tick edge now le (world db id (false ∷ false ∷ [])) in
        (answer ≡ ok tt)
        × RowWise (AtTarget r.id t.edge_id (halted_target now)) db.targets w.db.targets
        × RowWise (AtRollout r.id (halted_rollout now)) db.rollouts w.db.rollouts
        × (w ≡ world (record db { targets = w.db.targets; rollouts = w.db.rollouts }) id [])
  tick-halts {t} found sick late =
      let e = halted edge now le db id active running found (not_healthy edge t sick) late in
      rw e (
        refl,
        update_target-RowWise r.id t.edge_id (halted_target now) db.targets,
        update_rollout-RowWise r.id _ (halted_rollout now) db.rollouts (set_status-halted now),
        refl,
      )

  -- Where a rollout is running, none of its targets is in flight and the edge of its first queued
  -- target is online, a tick whose database calls succeed leaves every row of the targets as it is,
  -- but the row of this rollout and edge in progress, with the version that the edge runs, no end
  -- of a soak and the time; and everything else.
  pub tick-opens :
      find_target in_flight (listed le r.id db.targets) ≡ none
      → {t : RolloutTarget} → find_target is_queued (listed le r.id db.targets) ≡ some t
      → (edge t.edge_id).online ≡ true
      → let (answer, w) = tick edge now le (world db id []) in
        (answer ≡ ok tt)
        × RowWise
            (AtTarget r.id t.edge_id (next_target now (edge t.edge_id).version))
            db.targets
            w.db.targets
        × (w ≡ world (record db { targets = w.db.targets }) id [])
  tick-opens idle {t} next up = rw (opened edge now le db id active running idle next up) (
    refl,
    update_target-RowWise r.id t.edge_id (next_target now (edge t.edge_id).version) db.targets,
    refl,
  )
