-- ===== src/Rollout/System.antt =====
-- The rollout tables under any interleaving of engine ticks, admin requests, database failures and
-- changes of the fleet; and what the agents are told meanwhile. Each tick and each request is one
-- step.
use brisk.Prelude.{ℕ, Bytes, ◌≡◌, none, some, Bool, List, [], Assoc}
use brisk.Rollout.{Status, ServerRow, ReleaseMeta}
use brisk.Rollout.Store.{World}
use brisk.Rollout.Engine.{EdgeState, tick}
use brisk.Rollout.Admin.{
  StartRolloutInput, start_rollout, pause_rollout, resume_rollout, cancel_rollout, rollback_rollout,
}
use brisk.Rollout.OneInFlight.{OneInFlight}
use brisk.Rollout.OneTick.{tick-OneInFlight}
use brisk.Rollout.Handlers.{
  start_rollout-OneInFlight, change_status-OneInFlight, rollback_rollout-OneInFlight,
}

module _ (le : Bytes → Bytes → Bool) where
  pub data Step : World → World → Type 0 where
    ticked : (edge : Bytes → EdgeState) (now : ℕ) (w : World) → Step w (tick edge now le w).1
    started :
        (now : ℕ) (actor : Bytes) (input : StartRolloutInput) (w : World)
        → Step w (start_rollout now actor input w).1
    paused :
        (now : ℕ) (actor : Bytes) (id : ℕ) (w : World) → Step w (pause_rollout now actor id w).1
    resumed :
        (now : ℕ) (actor : Bytes) (id : ℕ) (w : World) → Step w (resume_rollout now actor id w).1
    cancelled :
        (now : ℕ) (actor : Bytes) (id : ℕ) (w : World) → Step w (cancel_rollout now actor id w).1
    rolled_back :
        (now : ℕ) (actor : Bytes) (id : ℕ) (version : Bytes) (w : World)
        → Step w (rollback_rollout now actor le id version w).1
    -- the fleet and the releases change, and other database calls will fail
    environment :
        (servers : List ServerRow) (releases : Assoc ReleaseMeta) (faults : List Bool) (w : World)
        → Step w (record w {
          db = record w.db { servers = servers; releases = releases };
          faults = faults;
        })

  pub data Reach (w : World) : World → Type 0 where
    here : Reach w w
    next : {u v : World} → Reach w u → Step u v → Reach w v

  Step-OneInFlight : {u v : World} → Step u v → OneInFlight u.db → OneInFlight v.db
  unfolding pause_rollout resume_rollout cancel_rollout
  Step-OneInFlight (ticked edge now w) h = (tick-OneInFlight now edge le).at w h
  Step-OneInFlight (started now actor input w) h =
      (start_rollout-OneInFlight now actor input).at w h
  Step-OneInFlight (paused now actor id w) h =
      (change_status-OneInFlight now actor id Status.paused (some Status.running)).at w h
  Step-OneInFlight (resumed now actor id w) h =
      (change_status-OneInFlight now actor id Status.running (some Status.paused)).at w h
  Step-OneInFlight (cancelled now actor id w) h =
      (change_status-OneInFlight now actor id Status.cancelled none).at w h
  Step-OneInFlight (rolled_back now actor id version w) h =
      (rollback_rollout-OneInFlight now actor le id version).at w h
  Step-OneInFlight (environment servers releases faults w) h = record {
    edge = h.edge;
    only = h.only;
  }

  -- From tables with no targets, after any sequence of engine ticks, admin requests, database
  -- failures and fleet changes, the targets of any one rollout that are in flight are all of one
  -- edge.
  pub Reach-OneInFlight : {u v : World} → u.db.targets ≡ [] → Reach u v → OneInFlight v.db
  Reach-OneInFlight {u} none_yet here = record { edge = λ id. []; only = λ id. rw none_yet tt }
  Reach-OneInFlight none_yet (next r st) = Step-OneInFlight st (Reach-OneInFlight none_yet r)
