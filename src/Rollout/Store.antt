-- ===== src/Rollout/Store.antt =====
-- The rollout queries of brisk-control/internal/store/rollouts.go as actions that may fail: any
-- database call can return an error, and which ones do is a list that the actions consume.
use brisk.Prelude.{
  ℕ, Bytes, str_eq, Option, none, some, Bool, true, false, ◌&&◌, List, [], ◌∷◌, ◌==◌, if◌then◌else◌,
  keep,
}
use brisk.Rollout.{
  Status, running, TargetState, in_progress, soaking, Rollout, RolloutTarget, Db, is_active,
}

pub data Err : Type 0 where
  db_error no_rows unique_violation foreign_key : Err

pub data Result {ℓ} (A : Type ℓ) : Type ℓ where
  ok : A → Result A
  err : Err → Result A

-- The database, the id sequence (which no rollback rewinds) and the failures still to come.
pub record World : Type 0 where
  pub db : Db
  pub open db use *
  pub next_id : ℕ
  pub faults : List Bool

abbrev pub M : Type 0 → Type 0
M A = World → Result A × World

abbrev pub continue : {A B : Type 0} → Result A → (A → M B) → M B
continue (ok a) f w = f a w
continue (err e) f w = (err e, w)

infixl 10 ◌>>=◌ ◌>>◌
abbrev pub ◌>>=◌ : {A B : Type 0} → M A → (A → M B) → M B
◌>>=◌ m f w = let (r, w') = m w in continue r f w'

abbrev pub ◌>>◌ : {A B : Type 0} → M A → M B → M B
m >> n = m >>= λ _. n

abbrev pub pure : {A : Type 0} → A → M A
pure a w = (ok a, w)

abbrev pub fail : {A : Type 0} → Err → M A
fail e w = (err e, w)

abbrev pub from_option : {A : Type 0} → Option A → M A
from_option none = fail no_rows
from_option (some a) = pure a

-- One round trip to the database.
unfoldable pub round_trip : M (Unit {0})
round_trip w = elim w.faults [
  | [] ↦ (ok tt, w)
  | b ∷ bs ↦ (if b then err db_error else ok tt, record w { faults = bs })
]

abbrev pub query : {A : Type 0} → (Db → A) → M A
query f = do round_trip; λ w. (ok (f w.db), w)

abbrev pub exec : (Db → Db) → M (Unit {0})
exec f = do round_trip; λ w. (ok tt, record w { db = f w.db })

-- the end of a transaction: an error rolls the tables back
abbrev pub commit : {A : Type 0} → World → Result A → World → Result A × World
commit w (ok a) w' = (ok a, w')
commit w (err e) w' = (err e, record w' { db = w.db })

unfoldable pub transaction : {A : Type 0} → M A → M A
transaction m w = let (r, w') = m w in commit w r w'

unfoldable pub find_rollout : ℕ → List Rollout → Option Rollout
find_rollout id [] = none
find_rollout id (r ∷ rs) = if r.id == id then some r else find_rollout id rs

unfoldable pub find_active : List Rollout → Option Rollout
find_active [] = none
find_active (r ∷ rs) = if is_active r.status then some r else find_active rs

unfoldable pub get_rollout : ℕ → M Rollout
unfolding round_trip
get_rollout id = do r ← query (λ db. find_rollout id db.rollouts); from_option r

unfoldable pub active_rollout : M (Option Rollout)
unfolding round_trip
active_rollout = query (λ db. find_active db.rollouts)

-- ORDER BY edge_id, in the order that the database's collation gives
module _ (le : Bytes → Bytes → Bool) where
  unfoldable pub insert_sorted : RolloutTarget → List RolloutTarget → List RolloutTarget
  insert_sorted t [] = t ∷ []
  insert_sorted t (u ∷ us) = if le t.edge_id u.edge_id then t ∷ u ∷ us else u ∷ insert_sorted t us

  unfoldable pub order_by_edge : List RolloutTarget → List RolloutTarget
  unfolding insert_sorted
  order_by_edge [] = []
  order_by_edge (t ∷ ts) = insert_sorted t (order_by_edge ts)

  unfoldable pub list_targets : ℕ → M (List RolloutTarget)
  unfolding round_trip
  list_targets id =
      query (λ db. order_by_edge (keep (λ (t : RolloutTarget). t.rollout_id == id) db.targets))

-- UPDATE rollout_targets … WHERE rollout_id=$1 AND edge_id=$2
abbrev pub update_target :
    ℕ → Bytes → (RolloutTarget → RolloutTarget) → List RolloutTarget → List RolloutTarget
update_target id edge f [] = []
update_target id edge f (t ∷ ts) =
    (if t.rollout_id == id && str_eq t.edge_id edge then f t else t) ∷ update_target id edge f ts

abbrev pub exec_target : ℕ → Bytes → (RolloutTarget → RolloutTarget) → M (Unit {0})
exec_target id edge f = exec (λ db. record db { targets = update_target id edge f db.targets })

abbrev pub is_terminal : Status → Bool
is_terminal Status.done = true
is_terminal Status.failed = true
is_terminal Status.cancelled = true
is_terminal _ = false

abbrev pub is_running : Status → Bool
is_running running = true
is_running _ = false

abbrev pub coalesce : Option ℕ → Option ℕ → Option ℕ
coalesce none b = b
coalesce (some a) b = some a

abbrev pub update_rollout : ℕ → (Rollout → Rollout) → List Rollout → List Rollout
update_rollout id f [] = []
update_rollout id f (r ∷ rs) = (if r.id == id then f r else r) ∷ update_rollout id f rs

module _ (now : ℕ) where
  unfoldable pub open_target : ℕ → Bytes → Bytes → M (Unit {0})
  unfolding round_trip
  open_target id edge from_version = exec_target id edge λ t. record t {
    state = in_progress;
    from_version = from_version;
    soak_until = none;
    updated_at = now;
  }

  unfoldable pub start_soak : ℕ → Bytes → ℕ → M (Unit {0})
  unfolding round_trip
  start_soak id edge until =
      exec_target id edge
        λ t. record t { state = soaking; soak_until = some until; updated_at = now }

  unfoldable pub finish_target : ℕ → Bytes → TargetState → Bytes → M (Unit {0})
  unfolding round_trip
  finish_target id edge state reason =
      exec_target id edge λ t. record t { state = state; error_reason = reason; updated_at = now }

  abbrev pub set_status : Status → Bytes → Rollout → Rollout
  set_status status reason r = record r {
    status = status;
    error_reason = if str_eq reason [] then r.error_reason else reason;
    started_at = coalesce r.started_at (if is_running status then some now else none);
    finished_at = if is_terminal status then some now else r.finished_at;
  }

  unfoldable pub set_rollout_status : ℕ → Status → Bytes → M (Unit {0})
  unfolding round_trip
  set_rollout_status id status reason =
      exec λ db. record db { rollouts = update_rollout id (set_status status reason) db.rollouts }

  unfoldable pub write_audit : Bytes → Bytes → Bytes → M (Unit {0})
  unfolding round_trip
  write_audit actor action subject = exec λ db. record db {
    audit = record { actor = actor; action = action; subject = subject; at = now } ∷ db.audit;
  }
