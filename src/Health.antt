-- ===== src/Health.antt =====
-- The edge health checker of brisk-control/internal/health/checker.go: the target table, the
-- scheduler and the probe results. The probe itself is an HTTP request: its results are inputs.
-- The checker's lock makes each function below one step.
pub mod Streaks
mod Examples
use brisk.Prelude.{
  ℕ, zero, suc, ◌+◌, ◌-◌, ◌*◌, ◌/◌, ◌%◌, ◌^◌, Bytes, codes, str_eq, to_lower, trim_space, Option,
  none, some, Bool, true, false, ◌&&◌, ◌||◌, not, List, [], ◌∷◌, leb, ltb, ◌==◌, if◌then◌else◌, any,
  ℤ, pos, pos_part, positive, Assoc, lookup, insert,
}

-- "healthy", "unhealthy" and "unknown"
pub data State : Type 0 where
  healthy unhealthy unknown : State

pub record Config : Type 0 where
  pub enabled : Bool
  pub interval : ℕ
  pub timeout : ℕ
  pub fail_threshold : ℤ
  pub rise_threshold : ℤ
  pub path : Bytes
  pub scheme : Bytes
  pub port : ℤ

abbrev pub second : ℕ
second = 1_000_000_000

abbrev pub text_or : Bytes → Bytes → Bytes
text_or [] d = d
text_or (c ∷ s) d = c ∷ s

abbrev pub threshold_or : ℤ → ℕ → ℤ
threshold_or t d = if positive t then t else pos d

abbrev pub interval_or_default : ℕ → ℕ
interval_or_default i = if i == 0 then 10 * second else i

abbrev pub third_or_default : ℕ → ℕ
third_or_default i = if i / 3 == 0 then 3 * second else i / 3

abbrev pub timeout_or_default : ℕ → ℕ → ℕ
timeout_or_default t i = if t == 0 || leb i t then third_or_default i else t

-- withDefaults; durations are not negative
unfoldable pub with_defaults : Config → Config
with_defaults c = record {
  enabled = c.enabled;
  interval = interval_or_default c.interval;
  timeout = timeout_or_default c.timeout (interval_or_default c.interval);
  fail_threshold = threshold_or c.fail_threshold 2;
  rise_threshold = threshold_or c.rise_threshold 3;
  path = text_or c.path (codes "/healthz");
  scheme = text_or c.scheme (codes "https");
  port = c.port;
}

pub record Target : Type 0 where
  pub server_id : ℕ
  pub edge_id : Bytes
  pub host : Bytes
  pub persisted : Bytes
  pub enabled : Bool
  pub interval_seconds : ℤ
  pub fail_threshold : ℤ
  pub rise_threshold : ℤ

pub record EdgeState : Type 0 where
  pub target : Target
  pub current : State
  pub consec_fails : ℕ
  pub consec_ok : ℕ
  pub last_probe : ℕ
  pub last_latency : ℕ
  pub last_err : Bytes
  pub inflight : Bool
  pub next_due : ℕ

pub record Checker : Type 0 where
  pub cfg : Config
  pub state : Assoc EdgeState
  pub last_reload : ℕ

unfoldable pub norm_state : Bytes → State
norm_state s =
    let t = to_lower (trim_space s) in
    if str_eq t (codes "healthy")
    then healthy
    else if str_eq t (codes "unhealthy")
    then unhealthy
    else unknown

module _ (cfg : Config) where
  -- interval, failThreshold and riseThreshold: the override, else the network default
  unfoldable pub interval : Target → ℕ
  interval t =
      if positive t.interval_seconds then pos_part t.interval_seconds * second else cfg.interval

  unfoldable pub fail_threshold : Target → ℤ
  fail_threshold t = if positive t.fail_threshold then t.fail_threshold else cfg.fail_threshold

  unfoldable pub rise_threshold : Target → ℤ
  rise_threshold t = if positive t.rise_threshold then t.rise_threshold else cfg.rise_threshold

  -- stagger, with the FNV-1a hash of the standard library as a parameter
  unfoldable pub stagger : (Bytes → ℕ) → Target → ℕ
  unfolding interval
  stagger fnv32a t = fnv32a t.edge_id % (interval t / second % 2 ^ 32 + 1) * second

-- a new edge is seeded from the database
unfoldable pub seed : Config → (Bytes → ℕ) → ℕ → Target → EdgeState
unfolding norm_state stagger
seed cfg fnv32a now t = record {
  target = t;
  current = norm_state t.persisted;
  consec_fails = 0;
  consec_ok = 0;
  last_probe = 0;
  last_latency = 0;
  last_err = [];
  inflight = false;
  next_due = now + stagger cfg fnv32a t;
}

abbrev pub refreshed : Config → (Bytes → ℕ) → ℕ → Target → Option EdgeState → EdgeState
refreshed cfg fnv32a now t none = seed cfg fnv32a now t
refreshed cfg fnv32a now t (some es) = record es { target = t }

unfoldable pub load_targets :
    Config → (Bytes → ℕ) → ℕ → List Target → Assoc EdgeState → Assoc EdgeState
unfolding seed
load_targets cfg fnv32a now [] m = m
load_targets cfg fnv32a now (t ∷ ts) m =
    load_targets cfg fnv32a now ts
      (insert t.edge_id (refreshed cfg fnv32a now t (lookup t.edge_id m)) m)

-- the edges of the state that the store no longer has are dropped
unfoldable pub drop_gone : List Target → Assoc EdgeState → Assoc EdgeState
drop_gone ts [] = []
drop_gone ts ((id, es) ∷ m) =
    let rest = drop_gone ts m in
    if any (λ (t : Target). str_eq t.edge_id id) ts then (id, es) ∷ rest else rest

-- reload, where the store answers; where it fails nothing changes
unfoldable pub reload : (Bytes → ℕ) → ℕ → Option (List Target) → Checker → Checker
unfolding load_targets drop_gone
reload fnv32a now none c = c
reload fnv32a now (some ts) c = record c {
  last_reload = now;
  state = drop_gone ts (load_targets c.cfg fnv32a now ts c.state);
}

abbrev pub is_due : ℕ → EdgeState → Bool
is_due now es = es.target.enabled && not es.inflight && leb es.next_due now

-- the edges to probe now, and the state with them marked
unfoldable pub mark_due : Config → ℕ → Assoc EdgeState → Assoc EdgeState
unfolding interval
mark_due cfg now [] = []
mark_due cfg now ((id, es) ∷ m) =
    (
      id,
      (if is_due now es
          then record es { inflight = true; next_due = now + interval cfg es.target }
          else es),
    )
    ∷ mark_due cfg now m

unfoldable pub due_targets : ℕ → Assoc EdgeState → List Target
due_targets now [] = []
due_targets now ((id, es) ∷ m) =
    let rest = due_targets now m in if is_due now es then es.target ∷ rest else rest

unfoldable pub schedule_due : ℕ → Checker → Checker × List Target
unfolding mark_due due_targets
schedule_due now c = (record c { state = mark_due c.cfg now c.state }, due_targets now c.state)

pub record ProbeResult : Type 0 where
  pub edge_id : Bytes
  pub ok : Bool
  pub latency : ℕ
  pub err_msg : Bytes
  pub at : ℕ

abbrev pub is_state : State → State → Bool
is_state healthy healthy = true
is_state unhealthy unhealthy = true
is_state unknown unknown = true
is_state _ _ = false

-- `n >= t`, for a counter and a threshold
abbrev pub reaches : ℕ → ℤ → Bool
reaches n t = leb (pos_part t) n

-- the counters and the verdict after one result; the transition is the new verdict, if it changed
unfoldable pub apply_result : ℤ → ℤ → Bool → EdgeState → EdgeState × Option Bool
apply_result fail_th rise_th true es =
    let up = record es { consec_ok = suc es.consec_ok; consec_fails = 0 } in
    if not (is_state es.current healthy) && reaches (suc es.consec_ok) rise_th
    then (record up { current = healthy }, some true)
    else (up, none)
apply_result fail_th rise_th false es =
    let down = record es { consec_fails = suc es.consec_fails; consec_ok = 0 } in
    if not (is_state es.current unhealthy) && reaches (suc es.consec_fails) fail_th
    then (record down { current = unhealthy }, some false)
    else (down, none)

abbrev pub note_probe : ProbeResult → EdgeState → EdgeState
note_probe res es = record es {
  inflight = false;
  last_probe = res.at;
  last_latency = res.latency;
  last_err = res.err_msg;
}

abbrev pub result_at : Checker → ProbeResult → Option EdgeState → Checker × Option (Target × Bool)
result_at c res none = (c, none)
result_at c res (some es) =
    let (es', transition) =
      apply_result (fail_threshold c.cfg es.target) (rise_threshold c.cfg es.target) res.ok
        (note_probe res es) in
    (
      record c { state = insert res.edge_id es' c.state },
      elim transition [ none ↦ none | some up ↦ some (es'.target, up) ],
    )

-- handleResult: the new checker, and the transition that is reported
unfoldable pub handle_result : ProbeResult → Checker → Checker × Option (Target × Bool)
unfolding apply_result fail_threshold rise_threshold
handle_result res c = result_at c res (lookup res.edge_id c.state)
