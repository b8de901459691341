-- ===== src/Dns/Rotation/Blackhole.antt =====
-- Proofs about RotationDecision of brisk-control/internal/dns/reconcile.go.
use brisk.Prelude.{
  ℕ, ◌<◌, ◌≡◌, refl, ◌∙◌, ap, Bytes, str_eq, str_eq_refl, some, Bool, true, false, List, [], ◌∷◌,
  arith, ltb, Assoc, lookup, lookup-insert, count, In, first, later, All, Bool-cases, ltb→lt, inl,
  inr, ◌⊎◌,
}
use brisk.Dns.{Endpoint}
use brisk.Dns.Rotation.{
  Decision, Reason, is_unhealthy, is_online, counts_online, counts_healthy, in_guard_pool, all_down,
  all_offline, decide, decide_from, rotation_decision,
}

-- No two endpoints of the list have one edge id (a unique column of the servers table).
abbrev pub Distinct : List Endpoint → Type 0
Distinct [] = Unit
Distinct (ep ∷ eps) = All (λ e. str_eq e.edge_id ep.edge_id ≡ false) eps × Distinct eps

module _ (now stale : ℕ) (down off : Bool) where
  lookup-decide_absent :
      (k : Bytes) (eps : List Endpoint) (out : Assoc Decision)
      → All (λ e. str_eq e.edge_id k ≡ false) eps
      → lookup k (decide_from now stale down off out eps) ≡ lookup k out
  unfolding decide_from
  lookup-decide_absent k [] out h = refl
  lookup-decide_absent k (ep ∷ eps) out h =
      lookup-decide_absent k eps _ h.1 ∙ (lookup-insert ep.edge_id k _ out ∙ rw h.0)

  lookup-decide_from :
      (ep : Endpoint) (eps : List Endpoint) (out : Assoc Decision)
      → In ep eps
      → Distinct eps
      → lookup ep.edge_id (decide_from now stale down off out eps)
        ≡ some (decide now stale down off ep)
  unfolding decide_from
  lookup-decide_from ep [] out i d = elim i [ ]
  lookup-decide_from ep (e ∷ eps) out (first p) d = rw p (
      lookup-decide_absent e.edge_id eps _ d.0
      ∙ (lookup-insert e.edge_id e.edge_id _ out ∙ rw (str_eq_refl e.edge_id)))
  lookup-decide_from ep (e ∷ eps) out (later i) d = lookup-decide_from ep eps _ i d.1

module _ {ℓ} {A : Type ℓ} (p : A → Bool) where
  count-pos : (x : A) (xs : List A) → In x xs → p x ≡ true → 0 < count p xs
  count-pos x [] i h = elim i [ ]
  count-pos x (y ∷ ys) (first e) h = rw (← e, h) (omega arith)
  count-pos x (y ∷ ys) (later i) h = ground (arith, count-pos x ys i h)

  count-zero : (xs : List A) → ((x : A) → In x xs → p x ≡ false) → count p xs ≡ 0
  count-zero [] h = refl
  count-zero (y ∷ ys) h = rw (h y (first refl)) (count-zero ys (λ x i. h x (later i)))

  -- A positive count has a witness.
  count-some : (xs : List A) → 0 < count p xs → (x : A) × In x xs × (p x ≡ true)
  count-some [] h = elim h [ ]
  count-some (y ∷ ys) h = elim (Bool-cases (p y)) [
    | inl e ↦ (y, first refl, e)
    | inr e ↦ let (x, i, q) = count-some ys (rw e at h) in (x, later i, q)
  ]

module _ (now stale : ℕ) (down off : Bool) (ep : Endpoint) where
  kept_online :
      ep.drained ≡ false
      → is_online now stale ep ≡ true
      → (is_unhealthy ep ≡ false) ⊎ (down ≡ true)
      → (decide now stale down off ep).in_pool ≡ true
  unfolding decide
  kept_online d up h = ground arith

  kept_offline :
      ep.drained ≡ false
      → is_unhealthy ep ≡ false
      → off ≡ true
      → (decide now stale down off ep).in_pool ≡ true
  unfolding decide
  kept_offline d well o = ground arith

  out_offline :
      (ep.drained ≡ true) ⊎ ((is_online now stale ep ≡ false) × (is_unhealthy ep ≡ true))
      → (decide now stale down off ep).in_pool ≡ false
  unfolding decide
  out_offline h = ground arith

module _ (now stale : ℕ) (eps : List Endpoint) (distinct : Distinct eps) where
  abbrev pub verdict : Endpoint → Decision
  verdict = decide now stale (all_down now stale eps) (all_offline now stale eps)

  lookup-rotation_decision :
      (ep : Endpoint)
      → In ep eps
      → lookup ep.edge_id (rotation_decision now stale eps) ≡ some (verdict ep)
  unfolding rotation_decision
  lookup-rotation_decision ep i = lookup-decide_from now stale _ _ ep eps [] i distinct

  -- the edge is published as in or out of rotation, for a reason
  pub record Published (ep : Endpoint) (pool : Bool) : Type 0 where
    pub listed : In ep eps
    pub reason : Reason
    pub decided :
        lookup ep.edge_id (rotation_decision now stale eps)
        ≡ some (record { in_pool = pool; reason = reason })

  publish :
      (ep : Endpoint) → In ep eps → (pool : Bool) → (verdict ep).in_pool ≡ pool → Published ep pool
  publish ep i pool h = record {
    listed = i;
    reason = (verdict ep).reason;
    decided = lookup-rotation_decision ep i ∙ ap some (cc h);
  }

  -- With distinct edge ids, a drained edge is out of rotation, whatever its health, its heartbeat
  -- and the other edges.
  drained-out : (ep : Endpoint) → In ep eps → ep.drained ≡ true → Published ep false
  drained-out ep i d = publish ep i false (unfold decide in rw d)

  -- With a healthy online edge, or with online edges and no healthy one, an online edge is kept.
  online-kept :
      (ep : Endpoint)
      → In ep eps
      → counts_online now stale ep ≡ true
      → (x : Endpoint) × (x.drained ≡ false) × Published x true
  online-kept ep i on = elim (Bool-cases (ltb 0 (count (counts_healthy now stale) eps))) [
    | inl some_well ↦
        let (x, ix, well) = count-some (counts_healthy now stale) eps (ltb→lt _ _ some_well) in
        (
          x,
          ground (arith, well),
          publish x ix true (
              kept_online now stale _ _ x (ground (arith, well)) (ground (arith, well))
                (inl (ground (arith, well)))),
        )
    | inr none_well ↦ (
      ep,
      ground (arith, on),
      publish ep i true (
          kept_online now stale _ _ ep (ground (arith, on)) (ground (arith, on))
            (inr (ground (arith, none_well, count-pos (counts_online now stale) ep eps i on)))),
    )
  ]

  -- With distinct edge ids, if some edge that is not drained is online or is not unhealthy, then
  -- some edge that is not drained is in rotation.
  pub rotation-nonempty :
      (ep : Endpoint)
      → In ep eps
      → ep.drained ≡ false
      → (is_online now stale ep ≡ true) ⊎ (is_unhealthy ep ≡ false)
      → (x : Endpoint) × (x.drained ≡ false) × Published x true
  rotation-nonempty ep i d h = elim (Bool-cases (ltb 0 (count (counts_online now stale) eps))) [
    | inl some_on ↦
        let (x, ix, on) = count-some (counts_online now stale) eps (ltb→lt _ _ some_on) in
        online-kept x ix on
    | inr none_on ↦
        let quiet : counts_online now stale ep ≡ false =
          elim (Bool-cases (counts_online now stale ep)) [
            | inl on ↦
                absurd (ground (arith, none_on, count-pos (counts_online now stale) ep eps i on))
            | inr off ↦ off
          ] in
        (
          ep,
          d,
          publish ep i true (
              kept_offline now stale _ _ ep d (ground (arith, quiet)) (
                ground (
                  arith,
                  none_on,
                  count-pos (in_guard_pool now stale) ep eps i (ground (arith, d)),
                ))),
        )
  ]

  -- With distinct edge ids, if every edge is drained, or offline and unhealthy at once, then no
  -- edge is in rotation.
  pub rotation-empty :
      ((ep : Endpoint)
        → In ep eps
        → (ep.drained ≡ true) ⊎ ((is_online now stale ep ≡ false) × (is_unhealthy ep ≡ true)))
      → (ep : Endpoint) → In ep eps
      → Published ep false
  rotation-empty h ep i = publish ep i false (out_offline now stale _ _ ep (h ep i))
