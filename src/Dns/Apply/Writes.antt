-- ===== src/Dns/Apply/Writes.antt =====
-- The invariant where the record of an edge fits, or is written.
use brisk.Prelude.{
  ℕ, ◌≡◌, ◌≢◌, ◌↔◌, ◌⊎◌, refl, sym, ◌∙◌, ap, Bytes, str_eq, str_eq_iff, some, Bool, List, [], ◌∷◌,
  Assoc, lookup, erase, lookup-erase, In, first, later, Bool-cases, inl, inr, subst,
}
use brisk.Dns.{Endpoint, Record}
use brisk.Dns.Region.{RegionLoc}
use brisk.Dns.Diff.{DiffOpts, Index}
use brisk.Dns.Apply.Index.{In-erase, tag_of}
use brisk.Dns.Apply.Steps.{Inv, FitsHere, wanted, wanted-Fits}

lookup-erase_other : (k j : Bytes) (m : Assoc Record) → j ≢ k → lookup j (erase k m) ≡ lookup j m
lookup-erase_other k j m ne = elim (Bool-cases (str_eq k j)) [
  | inl e ↦ absurd (ne (sym ((str_eq_iff k j).0 e)))
  | inr e ↦ rw (lookup-erase, e) refl
]

module _ (region_map : Assoc RegionLoc) (o : DiffOpts) (rot : Assoc Bool) (cap : ℕ)
    {R : Record → Type 0} {ix : Index} {done : List Endpoint}
    (inv : Inv region_map o rot cap R ix done) (ep : Endpoint) (named : ep.edge_id ≢ [])
    (new : (x : Endpoint) → In x done → x.edge_id ≢ ep.edge_id) where
  abbrev FitsNow : Endpoint → Record → Type 0
  FitsNow = FitsHere region_map o rot cap

  abbrev without : Assoc Record → Index
  without u = record { managed = erase ep.edge_id ix.managed; untagged = u }

  -- the records after `e` was written
  abbrev pub after : Record → Record
  after e = wanted region_map o rot cap ep e.id e.priority e.monitor_status

  abbrev pub Rewritten : Record → Record → Type 0
  Rewritten e q = (R q × (q.id ≢ e.id)) ⊎ (q ≡ after e)

  nonempty : (x : Endpoint) → In x (ep ∷ done) → x.edge_id ≢ []
  nonempty x (first e) = subst (λ (y : Endpoint). y.edge_id ≢ []) (sym e) named
  nonempty x (later i) = inv.tags_nonempty x i

  apart :
      (x : Endpoint) (k : Bytes) (r : Record)
      → In x (ep ∷ done)
      → In (k, r) (erase ep.edge_id ix.managed)
      → k ≢ x.edge_id
  apart x k r (first e) j at =
      (In-erase ep.edge_id ix.managed j).1 (at ∙ ap (λ (y : Endpoint). y.edge_id) e)
  apart x k r (later i) j at = inv.separate x k r i (In-erase ep.edge_id ix.managed j).0 at

  pub keep_step :
      (e : Record)
      → lookup ep.edge_id ix.managed ≡ some e
      → R e
      → FitsNow ep e
      → Inv region_map o rot cap R (without ix.untagged) (ep ∷ done)
  keep_step e found here fits = record {
    ttl_set = inv.ttl_set;
    unique = inv.unique;
    entries = record {
      managed_entry = λ k r i. inv.entries.managed_entry k r (In-erase ep.edge_id ix.managed i).0;
      relic_entry = inv.entries.relic_entry;
    };
    tagged = λ q i t. elim (inv.tagged q i t) [
      | inl (x, j, f) ↦ inl (x, later j, f)
      | inr still ↦ elim (Bool-cases (str_eq (tag_of q) ep.edge_id)) [
        | inl same ↦
            let at : tag_of q ≡ ep.edge_id = (str_eq_iff (tag_of q) ep.edge_id).0 same in
            let both : some e ≡ some q =
              sym found ∙ (ap (λ k. lookup k ix.managed) (sym at) ∙ still) in
            let one : e ≡ q = cc in inl (ep, first refl, subst (FitsNow ep) one fits)
        | inr differ ↦ inr (
            lookup-erase_other ep.edge_id (tag_of q) ix.managed
              (λ at. cc (differ, (str_eq_iff (tag_of q) ep.edge_id).1 at))
            ∙ still)
      ]
    ];
    present = λ x i. there x i;
    separate = λ x k r i j. apart x k r i j;
    tags_nonempty = λ x i. nonempty x i;
  }
    where
      there : (x : Endpoint) → In x (ep ∷ done) → (q : Record) × R q × FitsNow x q
      there x (first p) = (e, here, subst (λ y. FitsNow y e) (sym p) fits)
      there x (later i) = inv.present x i

  -- `e` is the edge's record on the index, or a relic
  pub write_step :
      (S : Record → Type 0) (e : Record) (u : Assoc Record)
      → ((q : Record) → S q ↔ Rewritten e q)
      → R e
      → ((k : Bytes) → k ≢ ep.edge_id → k ≢ [] → tag_of e ≢ k)
      → ((q : Record) → lookup ep.edge_id ix.managed ≡ some q → q ≡ e)
      → ((v : Bytes) (r : Record) → In (v, r) u → In (v, r) ix.untagged × (r.id ≢ e.id))
      → Inv region_map o rot cap S (without u) (ep ∷ done)
  write_step S e u listed here loose lone relics = record {
    ttl_set = inv.ttl_set;
    unique = λ q p i j same. one q p ((listed q).0 i) ((listed p).0 j) same;
    entries = record {
      managed_entry = λ k r i.
          let (j, ne) = In-erase ep.edge_id ix.managed i in
          let (a, (at, k_named)) = inv.entries.managed_entry k r j in
          (
            (listed r).1 (
                inl (
                  a,
                  λ same. loose k ne k_named (ap tag_of (sym (inv.unique r e a here same)) ∙ at),
                )),
            (at, k_named),
          );
      relic_entry = λ v r i.
          let (j, ne) = relics v r i in
          let (a, b) = inv.entries.relic_entry v r j in ((listed r).1 (inl (a, ne)), b);
    };
    tagged = λ q i t. old_or_new q ((listed q).0 i) t;
    present = λ x i. there x i;
    separate = λ x k r i j. apart x k r i j;
    tags_nonempty = λ x i. nonempty x i;
  }
    where
      one : (q p : Record) → Rewritten e q → Rewritten e p → q.id ≡ p.id → q ≡ p
      one q p (inl (i, m)) (inl (j, n)) same = inv.unique q p i j same
      one q p (inl (i, m)) (inr f) same = absurd (m (same ∙ ap (λ (r : Record). r.id) f))
      one q p (inr f) (inl (j, n)) same = absurd (n (sym same ∙ ap (λ (r : Record). r.id) f))
      one q p (inr f) (inr g) same = f ∙ sym g

      old_or_new :
          (q : Record)
          → Rewritten e q
          → tag_of q ≢ []
          → ((x : Endpoint) × In x (ep ∷ done) × FitsNow x q)
            ⊎ (lookup (tag_of q) (erase ep.edge_id ix.managed) ≡ some q)
      old_or_new q (inr f) t = inl (
        ep,
        first refl,
        subst (FitsNow ep) (sym f)
            (wanted-Fits region_map o rot cap ep e.id e.priority e.monitor_status),
      )
      old_or_new q (inl (i, m)) t = elim (inv.tagged q i t) [
        | inl (x, j, f) ↦ inl (x, later j, f)
        | inr still ↦ elim (Bool-cases (str_eq (tag_of q) ep.edge_id)) [
          | inl same ↦
              let at : tag_of q ≡ ep.edge_id = (str_eq_iff (tag_of q) ep.edge_id).0 same in
              absurd (
                m (
                  ap (λ (r : Record). r.id)
                    (lone q (ap (λ k. lookup k ix.managed) (sym at) ∙ still))))
          | inr differ ↦ inr (
              lookup-erase_other ep.edge_id (tag_of q) ix.managed
                (λ at. cc (differ, (str_eq_iff (tag_of q) ep.edge_id).1 at))
              ∙ still)
        ]
      ]

      there : (x : Endpoint) → In x (ep ∷ done) → (q : Record) × S q × FitsNow x q
      there x (first p) = (
        after e,
        (listed _).1 (inr refl),
        subst (λ y. FitsNow y (after e)) (sym p)
            (wanted-Fits region_map o rot cap ep e.id e.priority e.monitor_status),
      )
      there x (later i) =
          let (q, a, f) = inv.present x i in
          (
            q,
            (listed q).1 (
                inl (
                  a,
                  λ same.
                      loose x.edge_id (new x i) (inv.tags_nonempty x i)
                        (ap tag_of (sym (inv.unique q e a here same)) ∙ f.0),
                )),
            f,
          )
