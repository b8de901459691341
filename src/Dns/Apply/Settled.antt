-- ===== src/Dns/Apply/Settled.antt =====
-- Records and an index where Diff has nothing to do: proofs.
use brisk.Prelude.{
  ℕ, ◌≡◌, ◌≢◌, refl, sym, ◌∙◌, ap, Bytes, str_eq, str_eq_iff, none, some, Bool, true, false, ◌||◌,
  List, [], ◌∷◌, Assoc, lookup, erase, lookup-erase, In, In-All, first, later, Bool-cases, inl, inr,
  subst,
}
use brisk.Dns.{Endpoint, Record}
use brisk.Dns.Region.{RegionLoc}
use brisk.Dns.Rotation.Blackhole.{Distinct}
use brisk.Dns.Diff.{
  DiffOpts, Index, change_kind, write_actions, write_or_adopt, reconcile_one, reconcile_from,
  removals, desired_record,
}
use brisk.Dns.Apply.Index.{In-erase, tag_of}

-- the endpoints that Diff does not skip
abbrev pub Eligible : Endpoint → Type 0
Eligible ep = (str_eq ep.edge_id [] || str_eq ep.ip []) ≡ false

no_entries :
    (m : Assoc Record) → ((k : Bytes) (r : Record) → In (k, r) m → In k []) → removals m ≡ []
unfolding removals
no_entries [] h = refl
no_entries ((k, r) ∷ m) h = elim (h k r (first refl)) [ ]

module _ (region_map : Assoc RegionLoc) (o : DiffOpts) (rot : Assoc Bool) (cap : ℕ) where
  abbrev pub want : Endpoint → Record
  want = desired_record region_map o rot cap

  -- the record is the edge's, and as Diff wants it
  abbrev pub Fits : Endpoint → Record → Type 0
  Fits ep q = (tag_of q ≡ ep.edge_id) × (change_kind false q (want ep) ≡ none)

  pub record Settled (eps : List Endpoint) (ix : Index) : Type 0 where
    pub has_fit :
        (ep : Endpoint)
        → In ep eps
        → Eligible ep
        → (r : Record) × (lookup ep.edge_id ix.managed ≡ some r)
          × (change_kind false r (want ep) ≡ none)
    pub no_orphan :
        (k : Bytes) (r : Record)
        → In (k, r) ix.managed
        → (ep : Endpoint) × In ep eps × (Eligible ep × (k ≡ ep.edge_id))

  -- an edge that has a fitting record gets no action, and its record is taken off the index
  reconcile_one_fits :
      (ep : Endpoint) (ix : Index) {r : Record}
      → lookup ep.edge_id ix.managed ≡ some r
      → change_kind false r (want ep) ≡ none
      → reconcile_one ep.edge_id (want ep) ix
        ≡ ([], record ix { managed = erase ep.edge_id ix.managed })
  unfolding reconcile_one write_or_adopt write_actions
  reconcile_one_fits ep ix found fits = rw (found, fits) refl

  Settled-skip :
      (ep : Endpoint) (eps : List Endpoint) (ix : Index)
      → (str_eq ep.edge_id [] || str_eq ep.ip []) ≡ true
      → Settled (ep ∷ eps) ix
      → Settled eps ix
  Settled-skip ep eps ix skip s = record {
    has_fit = λ e i. s.has_fit e (later i);
    no_orphan = λ k r i. rest k (s.no_orphan k r i);
  }
    where
      rest :
          (k : Bytes)
          → (e : Endpoint) × In e (ep ∷ eps) × (Eligible e × (k ≡ e.edge_id))
          → (e : Endpoint) × In e eps × (Eligible e × (k ≡ e.edge_id))
      rest k (e, first same, (ok, at)) = absurd (
          let t : (str_eq e.edge_id [] || str_eq e.ip []) ≡ true =
            subst (λ (x : Endpoint). (str_eq x.edge_id [] || str_eq x.ip []) ≡ true) (sym same)
              skip in
          cc)
      rest k (e, later i, more) = (e, i, more)

  Settled-erase :
      (ep : Endpoint) (eps : List Endpoint) (ix : Index)
      → Distinct (ep ∷ eps)
      → Settled (ep ∷ eps) ix
      → Settled eps (record ix { managed = erase ep.edge_id ix.managed })
  Settled-erase ep eps ix d s = record {
    has_fit = λ e i ok.
        let (r, found, fits) = s.has_fit e (later i) ok in
        let other : str_eq e.edge_id ep.edge_id ≡ false =
          In-All (λ (x : Endpoint). str_eq x.edge_id ep.edge_id ≡ false) eps i d.0 in
        (
          r,
          elim (Bool-cases (str_eq ep.edge_id e.edge_id)) [
            | inl same ↦ absurd (
                cc (
                  other,
                  (str_eq_iff e.edge_id ep.edge_id).1
                      (sym ((str_eq_iff ep.edge_id e.edge_id).0 same)),
                ))
            | inr differ ↦ rw (lookup-erase, differ) found
          ],
          fits,
        );
    no_orphan =
        λ k r i. let (j, ne) = In-erase ep.edge_id ix.managed i in rest k ne (s.no_orphan k r j);
  }
    where
      rest :
          (k : Bytes)
          → k ≢ ep.edge_id
          → (e : Endpoint) × In e (ep ∷ eps) × (Eligible e × (k ≡ e.edge_id))
          → (e : Endpoint) × In e eps × (Eligible e × (k ≡ e.edge_id))
      rest k ne (e, first same, (ok, at)) = absurd (ne (at ∙ ap (λ (x : Endpoint). x.edge_id) same))
      rest k ne (e, later i, more) = (e, i, more)

  pub Settled-reconcile_from :
      (eps : List Endpoint) (ix : Index)
      → Distinct eps
      → Settled eps ix
      → reconcile_from region_map o rot cap eps ix ≡ []
  unfolding reconcile_from
  Settled-reconcile_from [] ix d s =
      no_entries ix.managed (λ k r i. let (ep, j, more) = s.no_orphan k r i in elim j [ ])
  Settled-reconcile_from (ep ∷ eps) ix d s =
      elim (Bool-cases (str_eq ep.edge_id [] || str_eq ep.ip [])) [
        | inl skip ↦ rw skip (Settled-reconcile_from eps ix d.1 (Settled-skip ep eps ix skip s))
        | inr ok ↦
            let (r, found, fits) = s.has_fit ep (first refl) ok in
            rw (ok, reconcile_one_fits ep ix found fits)
              (Settled-reconcile_from eps _ d.1 (Settled-erase ep eps ix d s))
      ]
