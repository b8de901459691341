-- ===== src/Rollout/RowWise.antt =====
-- Two tables compared row by row, and the UPDATEs of brisk-control/internal/store/rollouts.go.
use brisk.Prelude.{
  ℕ, ◌≡◌, refl, ◌⊎◌, inl, inr, Bytes, str_eq, str_eq_iff, Bool-cases, ◌&&◌, ==_iff, List, [], ◌∷◌,
  ◌==◌, if◌then◌else◌,
}
use brisk.Rollout.{Rollout, RolloutTarget}
use brisk.Rollout.Store.{update_target, update_rollout}

-- two tables with the same number of rows, where each row is related to the one in its place
pub data RowWise {A : Type 0} (R : A → A → Type 0) : List A → List A → Type 0 where
  no_rows_left : RowWise R [] []
  next_row : {x y : A} {xs ys : List A} → R x y → RowWise R xs ys → RowWise R (x ∷ xs) (y ∷ ys)

-- the row of this rollout and edge is changed, every other is as before
abbrev pub AtTarget :
    ℕ → Bytes → (RolloutTarget → RolloutTarget) → RolloutTarget → RolloutTarget → Type 0
AtTarget id edge f x y =
    ((x.rollout_id ≡ id) × (x.edge_id ≡ edge) × (y ≡ f x))
    ⊎ (¬ ((x.rollout_id ≡ id) × (x.edge_id ≡ edge)) × (y ≡ x))

abbrev pub AtRollout : ℕ → (Rollout → Rollout) → Rollout → Rollout → Type 0
AtRollout id f x y = ((x.id ≡ id) × (y ≡ f x)) ⊎ (¬ (x.id ≡ id) × (y ≡ x))

target_row :
    (id : ℕ) (edge : Bytes) (f : RolloutTarget → RolloutTarget) (t : RolloutTarget)
    → AtTarget id edge f t (if t.rollout_id == id && str_eq t.edge_id edge then f t else t)
target_row id edge f t = elim (Bool-cases (t.rollout_id == id)) [
  | inl one ↦ elim (Bool-cases (str_eq t.edge_id edge)) [
    | inl two ↦
        inl ((==_iff t.rollout_id id).0 one, (str_eq_iff t.edge_id edge).0 two, rw (one, two) refl)
    | inr two ↦ inr (λ both. cc (two, (str_eq_iff t.edge_id edge).1 both.1), rw (one, two) refl)
  ]
  | inr one ↦ inr (λ both. cc (one, (==_iff t.rollout_id id).1 both.0), rw one refl)
]

pub update_target-RowWise :
    (id : ℕ) (edge : Bytes) (f : RolloutTarget → RolloutTarget) (ts : List RolloutTarget)
    → RowWise (AtTarget id edge f) ts (update_target id edge f ts)
update_target-RowWise id edge f [] = no_rows_left
update_target-RowWise id edge f (t ∷ ts) =
    next_row (target_row id edge f t) (update_target-RowWise id edge f ts)

rollout_row :
    (id : ℕ) (f g : Rollout → Rollout) (r : Rollout)
    → f r ≡ g r
    → AtRollout id g r (if r.id == id then f r else r)
rollout_row id f g r same = elim (Bool-cases (r.id == id)) [
  | inl hit ↦ inl ((==_iff r.id id).0 hit, rw hit same)
  | inr miss ↦ inr (λ e. cc (miss, (==_iff r.id id).1 e), rw miss refl)
]

pub update_rollout-RowWise :
    (id : ℕ) (f g : Rollout → Rollout) (rs : List Rollout)
    → ((r : Rollout) → f r ≡ g r)
    → RowWise (AtRollout id g) rs (update_rollout id f rs)
update_rollout-RowWise id f g [] same = no_rows_left
update_rollout-RowWise id f g (r ∷ rs) same =
    next_row (rollout_row id f g r (same r)) (update_rollout-RowWise id f g rs same)
