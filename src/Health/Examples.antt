-- ===== src/Health/Examples.antt =====
-- An edge that fails and recovers.
use brisk.Prelude.{codes, ◌≡◌, some, none, if◌then◌else◌, true, false, [], ◌∷◌, ◌⊎◌, pos}
use brisk.Health.{Config, Target, EdgeState, healthy, unhealthy, apply_result, is_state}
use brisk.Health.Streaks.{
  apply_results, repeat, streak, fails-exact, counters-streak, transition-exact,
}

abbrev target : Target
target = record {
  server_id = 1;
  edge_id = codes "de";
  host = codes "de.example";
  persisted = codes "healthy";
  enabled = true;
  interval_seconds = pos 0;
  fail_threshold = pos 0;
  rise_threshold = pos 0;
}

abbrev up : EdgeState
up = record {
  target = target;
  current = healthy;
  consec_fails = 0;
  consec_ok = 5;
  last_probe = 0;
  last_latency = 0;
  last_err = [];
  inflight = false;
  next_due = 0;
}

abbrev down : EdgeState
down = record up { current = unhealthy; consec_ok = 0; consec_fails = 2 }

fails-exact_example : (apply_results (pos 2) (pos 3) (repeat 2 false) up).current ≡ unhealthy
fails-exact_example = fails-exact (pos 2) (pos 3) 1 up

counters-streak_example :
    ((apply_results (pos 2) (pos 3) (false ∷ true ∷ true ∷ []) up).consec_ok ≡ 2)
    × ((apply_results (pos 2) (pos 3) (false ∷ true ∷ true ∷ []) up).consec_fails ≡ 0)
unfolding streak
counters-streak_example = counters-streak (pos 2) (pos 3) (false ∷ true ∷ true ∷ []) up

transition-exact_example :
    let (es', transition) = apply_result (pos 1) (pos 3) false up in
    (transition ≡ (if is_state healthy es'.current then none else some false))
    × ((es'.current ≡ healthy) ⊎ (es'.current ≡ unhealthy))
transition-exact_example = transition-exact (pos 1) (pos 3) false up

abbrev config : Config
config = record {
  enabled = true;
  interval = 3;
  timeout = 9;
  fail_threshold = pos 0;
  rise_threshold = pos 4;
  path = [];
  scheme = [];
  port = pos 0;
}
