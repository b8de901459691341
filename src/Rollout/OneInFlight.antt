-- ===== src/Rollout/OneInFlight.antt =====
-- The targets of a rollout that are in flight, and the writes of
-- brisk-control/internal/store/rollouts.go.
use brisk.Prelude.{
  ℕ, Bytes, str_eq, str_eq_iff, ◌≡◌, ◌≢◌, refl, sym, subst, ◌∙◌, true, false, List, [], ◌∷◌, ◌==◌,
  ==_iff, if◌then◌else◌, arith, All, Bool-cases, inl, inr, ◌&&◌,
}
use brisk.Rollout.{Db, Status, TargetState, RolloutTarget, in_flight}
use brisk.Rollout.Store.{
  update_target, round_trip, open_target, start_soak, finish_target, set_rollout_status, World,
  exec_target,
}
use brisk.Rollout.Frame.{exec_lem, Keeps, Keeps-exec}

abbrev pub OnlyEdge : ℕ → Bytes → List RolloutTarget → Type 0
OnlyEdge id e = All (λ t. t.rollout_id ≡ id → in_flight t.state ≡ true → t.edge_id ≡ e)

pub record OneInFlight (db : Db) : Type 0 where
  pub edge : ℕ → Bytes
  pub only : (id : ℕ) → OnlyEdge id (edge id) db.targets

-- an update of one row that leaves its key alone
record KeepsKey (f : RolloutTarget → RolloutTarget) : Type 0 where
  same_rollout : (t : RolloutTarget) → (f t).rollout_id ≡ t.rollout_id
  same_edge : (t : RolloutTarget) → (f t).edge_id ≡ t.edge_id

module _ (f : RolloutTarget → RolloutTarget) (k : KeepsKey f) where
  -- A row that leaves flight, of any edge, keeps the others.
  OnlyEdge-land :
      ((t : RolloutTarget) → in_flight (f t).state ≡ false)
      → (id i : ℕ) (edge e : Bytes) (ts : List RolloutTarget) → OnlyEdge i e ts
      → OnlyEdge i e (update_target id edge f ts)
  OnlyEdge-land down id i edge e [] h = tt
  OnlyEdge-land down id i edge e (t ∷ ts) h =
      elim (Bool-cases ((t.rollout_id == id) && str_eq t.edge_id edge)) [
        | inl hit ↦ rw hit (λ _ up. cc (down t, up), OnlyEdge-land down id i edge e ts h.1)
        | inr miss ↦ rw miss (h.0, OnlyEdge-land down id i edge e ts h.1)
      ]

  -- A row that takes off is of the edge that may be in flight.
  OnlyEdge-launch :
      (id : ℕ) (e : Bytes) (ts : List RolloutTarget)
      → OnlyEdge id e ts
      → OnlyEdge id e (update_target id e f ts)
  OnlyEdge-launch id e [] h = tt
  OnlyEdge-launch id e (t ∷ ts) h = elim (Bool-cases ((t.rollout_id == id) && str_eq t.edge_id e)) [
    | inl hit ↦ rw hit (
      (λ _ _. k.same_edge t ∙ ground (arith, hit, str_eq_iff t.edge_id e)),
      OnlyEdge-launch id e ts h.1,
    )
    | inr miss ↦ rw miss (h.0, OnlyEdge-launch id e ts h.1)
  ]

  OnlyEdge-other :
      (id i : ℕ) (edge e : Bytes) (ts : List RolloutTarget)
      → i ≢ id
      → OnlyEdge i e ts
      → OnlyEdge i e (update_target id edge f ts)
  OnlyEdge-other id i edge e [] ne h = tt
  OnlyEdge-other id i edge e (t ∷ ts) ne h =
      elim (Bool-cases ((t.rollout_id == id) && str_eq t.edge_id edge)) [
        | inl hit ↦ rw hit (
          (λ own _. absurd (ne (sym own ∙ (k.same_rollout t ∙ ground (arith, hit))))),
          OnlyEdge-other id i edge e ts ne h.1,
        )
        | inr miss ↦ rw miss (h.0, OnlyEdge-other id i edge e ts ne h.1)
      ]

  -- The rows of `id` take off at the edge `e`.
  OneInFlight-launch :
      (id : ℕ) (e : Bytes) (db : Db)
      → OneInFlight db
      → OnlyEdge id e db.targets
      → OneInFlight (record db { targets = update_target id e f db.targets })
  OneInFlight-launch id e db h own = record {
    edge = λ i. if i == id then e else h.edge i;
    only = λ i. elim (Bool-cases (i == id)) [
      | inl same ↦ rw same (
          subst (λ (j : ℕ). OnlyEdge j e (update_target id e f db.targets))
            (sym ((==_iff i id).0 same)) (OnlyEdge-launch id e db.targets own))
      | inr other ↦ rw other (
          OnlyEdge-other id i e (h.edge i) db.targets (λ q. cc (other, (==_iff i id).1 q))
            (h.only i))
    ];
  }

-- An update that leaves the row out of flight keeps the invariant, whatever the row.
OneInFlight-land :
    (f : RolloutTarget → RolloutTarget)
    → KeepsKey f
    → ((t : RolloutTarget) → in_flight (f t).state ≡ false)
    → (id : ℕ) (edge : Bytes) → Keeps OneInFlight (exec_target id edge f)
unfolding round_trip
OneInFlight-land f k down id edge = Keeps-exec _ (λ db h. record {
  edge = h.edge;
  only = λ i. OnlyEdge-land f k down id i edge (h.edge i) db.targets (h.only i);
})

pub OnlyEdge-idle :
    (id : ℕ) (e : Bytes) (ts : List RolloutTarget)
    → All (λ t. t.rollout_id ≡ id → in_flight t.state ≡ false) ts
    → OnlyEdge id e ts
OnlyEdge-idle id e [] h = tt
OnlyEdge-idle id e (t ∷ ts) h = (λ own up. cc (h.0 own, up), OnlyEdge-idle id e ts h.1)

module _ (now : ℕ) where
  pub OneInFlight-finish_target :
      (id : ℕ) (edge : Bytes) (state : TargetState) (reason : Bytes)
      → in_flight state ≡ false
      → Keeps OneInFlight (finish_target now id edge state reason)
  unfolding finish_target
  OneInFlight-finish_target id edge state reason down =
      OneInFlight-land _ (record { same_rollout = λ t. refl; same_edge = λ t. refl }) (λ t. down) id
        edge

  pub OneInFlight-set_rollout_status :
      (id : ℕ) (status : Status) (reason : Bytes)
      → Keeps OneInFlight (set_rollout_status now id status reason)
  unfolding set_rollout_status
  OneInFlight-set_rollout_status id status reason =
      Keeps-exec _ (λ db h. record { edge = h.edge; only = h.only })

  -- an update that launches the rows of an edge which no other edge's row excludes
  OneInFlight-take_off :
      (f : RolloutTarget → RolloutTarget)
      → KeepsKey f
      → (id : ℕ) (e : Bytes) (w : World) → OneInFlight w.db
      → OnlyEdge id e w.db.targets
      → OneInFlight (exec_target id e f w).1.db
  OneInFlight-take_off f k id e w h own =
      exec_lem (λ db. OneInFlight db × OnlyEdge id e db.targets) OneInFlight _ (λ db p. p.0)
        (λ db p. OneInFlight-launch f k id e db p.0 p.1) w (h, own)

  pub OneInFlight-open_target :
      (id : ℕ) (e from : Bytes) (w : World)
      → OneInFlight w.db
      → OnlyEdge id e w.db.targets
      → OneInFlight (open_target now id e from w).1.db
  unfolding open_target
  OneInFlight-open_target id e from =
      OneInFlight-take_off _ (record { same_rollout = λ t. refl; same_edge = λ t. refl }) id e

  pub OneInFlight-start_soak :
      (id : ℕ) (e : Bytes) (until : ℕ) (w : World)
      → OneInFlight w.db
      → OnlyEdge id e w.db.targets
      → OneInFlight (start_soak now id e until w).1.db
  unfolding start_soak
  OneInFlight-start_soak id e until =
      OneInFlight-take_off _ (record { same_rollout = λ t. refl; same_edge = λ t. refl }) id e
