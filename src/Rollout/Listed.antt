-- ===== src/Rollout/Listed.antt =====
-- Proofs about the query of a rollout's targets and the update of one of them.
use brisk.Prelude.{
  ℕ, Bytes, ◌≡◌, subst, none, some, Bool, true, false, List, [], ◌∷◌, ◌==◌, ==_iff, All, keep,
  Bool-cases, inl, inr,
}
use brisk.Rollout.{TargetState, RolloutTarget}
use brisk.Rollout.Store.{insert_sorted, order_by_edge}
use brisk.Rollout.Engine.{find_target}

abbrev pub of_rollout : ℕ → RolloutTarget → Bool
of_rollout id t = t.rollout_id == id

-- the rows that ListTargets returns
abbrev pub listed : (Bytes → Bytes → Bool) → ℕ → List RolloutTarget → List RolloutTarget
listed le id ts = order_by_edge le (keep (of_rollout id) ts)

module _ (Q : RolloutTarget → Type 0) (le : Bytes → Bytes → Bool) where
  All-insert_sorted :
      (t : RolloutTarget) (ts : List RolloutTarget) → Q t → All Q ts → All Q (insert_sorted le t ts)
  unfolding insert_sorted
  All-insert_sorted t [] q h = (q, tt)
  All-insert_sorted t (u ∷ us) q h = elim (Bool-cases (le t.edge_id u.edge_id)) [
    | inl e ↦ rw e (q, h)
    | inr e ↦ rw e (h.0, All-insert_sorted t us q h.1)
  ]

  All-order_by_edge : (ts : List RolloutTarget) → All Q ts → All Q (order_by_edge le ts)
  unfolding order_by_edge
  All-order_by_edge [] h = tt
  All-order_by_edge (t ∷ ts) h = All-insert_sorted t _ h.0 (All-order_by_edge ts h.1)

module _ (Q : RolloutTarget → Type 0) where
  find_target-All :
      (p : TargetState → Bool) (ts : List RolloutTarget) (t : RolloutTarget)
      → All Q ts
      → find_target p ts ≡ some t
      → Q t × (p t.state ≡ true)
  unfolding find_target
  find_target-All p [] t h e = cc
  find_target-All p (u ∷ us) t h e = elim (Bool-cases (p u.state)) [
    | inl pu ↦
        let e' : some u ≡ some t = rw pu at e in
        let q : u ≡ t = cc in subst (λ v. Q v × (p v.state ≡ true)) q (h.0, pu)
    | inr pu ↦ find_target-All p us t h.1 (rw pu at e)
  ]

module _ (Q : RolloutTarget → Type 0) where
  All-of_rollout :
      (id : ℕ) (ts : List RolloutTarget)
      → All Q ts
      → All (λ t. Q t × (t.rollout_id ≡ id)) (keep (of_rollout id) ts)
  All-of_rollout id [] h = tt
  All-of_rollout id (t ∷ ts) h = elim (Bool-cases (of_rollout id t)) [
    | inl e ↦ rw e ((h.0, (==_iff _ id).0 e), All-of_rollout id ts h.1)
    | inr e ↦ rw e (All-of_rollout id ts h.1)
  ]

  -- What all rows of the table satisfy, the listed rows do, and they are the rollout's.
  pub All-listed :
      (le : Bytes → Bytes → Bool) (id : ℕ) (ts : List RolloutTarget)
      → All Q ts
      → All (λ t. Q t × (t.rollout_id ≡ id)) (listed le id ts)
  All-listed le id ts h =
      All-order_by_edge (λ u. Q u × (u.rollout_id ≡ id)) le _ (All-of_rollout id ts h)

  -- The row that the engine finds satisfies what all rows of the table do.
  pub find-listed :
      (le : Bytes → Bytes → Bool) (id : ℕ) (p : TargetState → Bool) (ts : List RolloutTarget)
      (t : RolloutTarget)
      → All Q ts
      → find_target p (listed le id ts) ≡ some t
      → Q t × (t.rollout_id ≡ id) × (p t.state ≡ true)
  find-listed le id p ts t h e =
      let ((q, i), s) =
        find_target-All (λ u. Q u × (u.rollout_id ≡ id)) p (listed le id ts) t
          (All-order_by_edge (λ u. Q u × (u.rollout_id ≡ id)) le _ (All-of_rollout id ts h)) e in
      (q, i, s)

module _ (p : TargetState → Bool) where
  abbrev Fails : RolloutTarget → Type 0
  Fails t = p t.state ≡ false

  find_target-none : (ts : List RolloutTarget) → find_target p ts ≡ none → All Fails ts
  unfolding find_target
  find_target-none [] e = tt
  find_target-none (u ∷ us) e = elim (Bool-cases (p u.state)) [
    | inl pu ↦ cc (rw pu at e)
    | inr pu ↦ (pu, find_target-none us (rw pu at e))
  ]

  Fails-insert_sorted :
      (le : Bytes → Bytes → Bool) (t : RolloutTarget) (ts : List RolloutTarget)
      → All Fails (insert_sorted le t ts)
      → Fails t × All Fails ts
  unfolding insert_sorted
  Fails-insert_sorted le t [] h = h
  Fails-insert_sorted le t (u ∷ us) h = elim (Bool-cases (le t.edge_id u.edge_id)) [
    | inl e ↦ rw e at h
    | inr e ↦
        let h' : Fails u × All Fails (insert_sorted le t us) = rw e at h in
        let (ht, hus) = Fails-insert_sorted le t us h'.1 in (ht, (h'.0, hus))
  ]

  Fails-order_by_edge :
      (le : Bytes → Bytes → Bool) (ts : List RolloutTarget)
      → All Fails (order_by_edge le ts)
      → All Fails ts
  unfolding order_by_edge
  Fails-order_by_edge le [] h = tt
  Fails-order_by_edge le (t ∷ ts) h =
      let (ht, hts) = Fails-insert_sorted le t _ h in (ht, Fails-order_by_edge le ts hts)

  Fails-of_rollout :
      (id : ℕ) (ts : List RolloutTarget)
      → All Fails (keep (of_rollout id) ts)
      → All (λ t. t.rollout_id ≡ id → Fails t) ts
  Fails-of_rollout id [] h = tt
  Fails-of_rollout id (t ∷ ts) h = elim (Bool-cases (of_rollout id t)) [
    | inl e ↦
        let h' : Fails t × All Fails (keep (of_rollout id) ts) = rw e at h in
        (λ _. h'.0, Fails-of_rollout id ts h'.1)
    | inr e ↦ (λ i. cc (e, (==_iff t.rollout_id id).1 i), Fails-of_rollout id ts (rw e at h))
  ]

  -- Where the engine finds no row, no row of the rollout passes the test.
  pub find-listed_none :
      (le : Bytes → Bytes → Bool) (id : ℕ) (ts : List RolloutTarget)
      → find_target p (listed le id ts) ≡ none
      → All (λ t. t.rollout_id ≡ id → Fails t) ts
  find-listed_none le id ts e =
      Fails-of_rollout id ts (Fails-order_by_edge le _ (find_target-none _ e))
