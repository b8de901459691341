-- ===== src/Dns/Apply/Run.antt =====
-- Applying the plan of Diff through all edges: proofs.
use brisk.Prelude.{
  ℕ, ◌≡◌, ◌≢◌, ◌⊎◌, refl, sym, ◌∙◌, ap, str_eq, str_eq_iff, Bool, true, false, ◌||◌, List, [], ◌∷◌,
  Assoc, In, In-All, first, later, Bool-cases, inl, inr, subst,
}
use brisk.Dns.{Endpoint}
use brisk.Dns.Region.{RegionLoc}
use brisk.Dns.Rotation.Blackhole.{Distinct}
use brisk.Dns.Diff.{DiffOpts, Index, reconcile_from}
use brisk.Dns.Apply.{Provider, Law, apply}
use brisk.Dns.Apply.Settled.{Eligible}
use brisk.Dns.Apply.Passes.{Ends, Final, Here, removals-Final}
use brisk.Dns.Apply.Edge.{one_edge}

pub id_not_blank : (ep : Endpoint) → Eligible ep → ep.edge_id ≢ []
id_not_blank ep ok e = elim (Bool-cases (str_eq ep.edge_id [])) [
  | inl same ↦ cc (ok, same)
  | inr differ ↦ cc (differ, (str_eq_iff ep.edge_id []).1 e)
]

module _ (P : Provider) (law : Law P) (region_map : Assoc RegionLoc) (o : DiffOpts)
    (rot : Assoc Bool) (cap : ℕ) where
  abbrev pub Fin : (Endpoint → Type 0) → P.State → Type 0
  Fin = Final P law region_map o rot cap

  Final-same :
      (D E : Endpoint → Type 0) (t : P.State)
      → ((x : Endpoint) → D x → E x)
      → ((x : Endpoint) → E x → D x)
      → Fin D t
      → Fin E t
  Final-same D E t to from f = record {
    covered = λ q i tag. let (ep, j, fits) = f.covered q i tag in (ep, to ep j, fits);
    held = λ ep i. f.held ep (from ep i);
  }

  -- the edges that are done, and those that Diff does not skip of the others
  abbrev pub Edges : List Endpoint → List Endpoint → Endpoint → Type 0
  Edges done eps x = In x done ⊎ (In x eps × Eligible x)

  pub reconcile_from-Final :
      (eps : List Endpoint) (ix : Index) (done : List Endpoint) (s : P.State)
      → Distinct eps
      → ((x y : Endpoint) → In x done → In y eps → x.edge_id ≢ y.edge_id)
      → Here P law region_map o rot cap s ix done
      → Ends P law (Fin (Edges done eps)) (apply P (reconcile_from region_map o rot cap eps ix) s)
  unfolding reconcile_from
  reconcile_from-Final [] ix done s d new inv = λ h.
      Final-same (λ x. In x done) (Edges done []) _ (λ x i. inl i)
        (λ x i. elim i [ inl j ↦ j | inr (j, ok) ↦ elim j [ ] ])
        (removals-Final P law region_map o rot cap s ix done inv h)
  reconcile_from-Final (ep ∷ eps) ix done s d new inv =
      elim (Bool-cases (str_eq ep.edge_id [] || str_eq ep.ip [])) [
        | inl skip ↦ rw skip (λ h.
            Final-same (Edges done eps) (Edges done (ep ∷ eps)) _ (λ x i. widen x i)
              (λ x i. narrow skip x i)
              (reconcile_from-Final eps ix done s d.1 (λ x y i j. new x y i (later j)) inv h))
        | inr ok ↦ rw ok (
            one_edge P law region_map o rot cap (Edges done (ep ∷ eps)) ep (id_not_blank ep ok) done
              (λ x i. new x ep i (first refl)) (λ jx. reconcile_from region_map o rot cap eps jx)
              (λ jx t jnv h.
                Final-same (Edges (ep ∷ done) eps) (Edges done (ep ∷ eps)) _ (λ x i. shift ok x i)
                  (λ x i. unshift x i)
                  (reconcile_from-Final eps jx (ep ∷ done) t d.1 (λ x y i j. apart x y i j) jnv h))
              ix s inv)
      ]
    where
      widen : (x : Endpoint) → Edges done eps x → Edges done (ep ∷ eps) x
      widen x (inl i) = inl i
      widen x (inr (i, ok)) = inr (later i, ok)

      narrow :
          (str_eq ep.edge_id [] || str_eq ep.ip []) ≡ true
          → (x : Endpoint) → Edges done (ep ∷ eps) x
          → Edges done eps x
      narrow skip x (inl i) = inl i
      narrow skip x (inr (first e, ok)) = absurd (
          let t : (str_eq x.edge_id [] || str_eq x.ip []) ≡ true =
            subst (λ (y : Endpoint). (str_eq y.edge_id [] || str_eq y.ip []) ≡ true) (sym e) skip in
          cc)
      narrow skip x (inr (later i, ok)) = inr (i, ok)

      shift : Eligible ep → (x : Endpoint) → Edges (ep ∷ done) eps x → Edges done (ep ∷ eps) x
      shift ok x (inl (first e)) = inr (first e, subst Eligible (sym e) ok)
      shift ok x (inl (later i)) = inl i
      shift ok x (inr (i, fine)) = inr (later i, fine)

      unshift : (x : Endpoint) → Edges done (ep ∷ eps) x → Edges (ep ∷ done) eps x
      unshift x (inl i) = inl (later i)
      unshift x (inr (first e, ok)) = inl (first e)
      unshift x (inr (later i, ok)) = inr (i, ok)

      apart : (x y : Endpoint) → In x (ep ∷ done) → In y eps → x.edge_id ≢ y.edge_id
      apart x y (first e) j same =
          let other : str_eq y.edge_id ep.edge_id ≡ false =
            In-All (λ (z : Endpoint). str_eq z.edge_id ep.edge_id ≡ false) eps j d.0 in
          cc (
            other,
            (str_eq_iff y.edge_id ep.edge_id).1 (sym same ∙ ap (λ (z : Endpoint). z.edge_id) e),
          )
      apart x y (later i) j same = new x y i (later j) same
