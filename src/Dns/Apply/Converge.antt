-- ===== src/Dns/Apply/Converge.antt =====
-- Proofs about Diff and Apply of brisk-control/internal/dns/reconcile.go run one after the other.
use brisk.Prelude.{
  pos, ℕ, ◌≡◌, ◌≢◌, sym, ◌∙◌, ap, Bytes, str_eq, str_eq_iff, none, some, Bool, true, false, List,
  [], ◌∷◌, Assoc, lookup, In, In-All, first, later, inl, inr, subst,
}
use brisk.Dns.{Endpoint, Record}
use brisk.Dns.Region.{RegionLoc}
use brisk.Dns.Rotation.{rotation_state}
use brisk.Dns.Rotation.Blackhole.{Distinct}
use brisk.Dns.Weight.{max_capacity}
use brisk.Dns.Diff.{DiffOpts, Index, index_records, diff, change_kind, edge_id_from_comment}
use brisk.Dns.Apply.{Provider, Law, Lists, apply}
use brisk.Dns.Apply.Index.{lookup-In, tag_of, Entries, index_records-Entries, index_records_tagged}
use brisk.Dns.Apply.Settled.{Eligible, want, Settled, Settled-reconcile_from}
use brisk.Dns.Apply.Passes.{Final, Here}
use brisk.Dns.Apply.Run.{id_not_blank, Edges, reconcile_from-Final}

Distinct_same :
    (eps : List Endpoint) (a b : Endpoint)
    → Distinct eps
    → In a eps
    → In b eps
    → a.edge_id ≡ b.edge_id
    → a ≡ b
Distinct_same [] a b d i j e = elim i [ ]
Distinct_same (ep ∷ eps) a b d (first p) (first q) e = p ∙ sym q
Distinct_same (ep ∷ eps) a b d (first p) (later j) e =
    let other : str_eq b.edge_id ep.edge_id ≡ false =
      In-All (λ (x : Endpoint). str_eq x.edge_id ep.edge_id ≡ false) eps j d.0 in
    absurd
      (cc (other, (str_eq_iff b.edge_id ep.edge_id).1 (sym e ∙ ap (λ (x : Endpoint). x.edge_id) p)))
Distinct_same (ep ∷ eps) a b d (later i) (first q) e =
    let other : str_eq a.edge_id ep.edge_id ≡ false =
      In-All (λ (x : Endpoint). str_eq x.edge_id ep.edge_id ≡ false) eps i d.0 in
    absurd
      (cc (other, (str_eq_iff a.edge_id ep.edge_id).1 (e ∙ ap (λ (x : Endpoint). x.edge_id) q)))
Distinct_same (ep ∷ eps) a b d (later i) (later j) e = Distinct_same eps a b d.1 i j e

abbrev empty_index : Index
empty_index = record { managed = []; untagged = [] }

empty-Entries : (R : Record → Type 0) → Entries R empty_index
empty-Entries R = record { managed_entry = λ k r i. elim i [ ]; relic_entry = λ v r i. elim i [ ] }

module _ (P : Provider) (law : Law P) (region_map : Assoc RegionLoc) (o : DiffOpts)
    (rot : Assoc Bool) (cap : ℕ) where
  abbrev FinNow : (Endpoint → Type 0) → P.State → Type 0
  FinNow = Final P law region_map o rot cap

  abbrev EdgesNow : List Endpoint → List Endpoint → Endpoint → Type 0
  EdgesNow = Edges P law region_map o rot cap

  Final-Settled :
      (eps : List Endpoint) (t : P.State)
      → Distinct eps
      → FinNow (EdgesNow [] eps) t
      → Settled region_map o rot cap eps
          (index_records o.routing_name (P.list_records t) empty_index)
  Final-Settled eps t d f =
      let ix = index_records o.routing_name (P.list_records t) empty_index in
      let entries =
        index_records-Entries o.routing_name (Lists P t) (P.list_records t) empty_index (λ q i. i)
          (empty-Entries (Lists P t)) in
      record {
        has_fit = λ ep i ok.
            let (q, listed, (tag, fits)) = f.held ep (inr (i, ok)) in
            let (v, found) =
              index_records_tagged o.routing_name (P.list_records t) empty_index q listed
                (λ none. id_not_blank ep ok (sym tag ∙ none)) in
            let (v_listed, (v_tag, v_named)) =
              entries.managed_entry (tag_of q) v (lookup-In ix.managed found) in
            let (x, at, (x_tag, x_fits)) =
              f.covered v v_listed (λ none. v_named (sym v_tag ∙ none)) in
            (
              v,
              ap (λ k. lookup k ix.managed) (sym tag) ∙ found,
              only ep x i at ok (sym tag ∙ (sym v_tag ∙ x_tag)) v x_fits,
            );
        no_orphan = λ k r i.
            let (listed, (tag, named)) = entries.managed_entry k r i in
            let (x, at, (x_tag, fits)) = f.covered r listed (λ none. named (sym tag ∙ none)) in
            here k x at (sym tag ∙ x_tag);
      }
    where
      only :
          (ep x : Endpoint)
          → In ep eps
          → EdgesNow [] eps x
          → Eligible ep
          → ep.edge_id ≡ x.edge_id
          → (v : Record) → change_kind false v (want region_map o rot cap x) ≡ none
          → change_kind false v (want region_map o rot cap ep) ≡ none
      only ep x i (inl j) ok e v fits = elim j [ ]
      only ep x i (inr (j, fine)) ok e v fits =
          subst (λ y. change_kind false v (want region_map o rot cap y) ≡ none)
            (Distinct_same eps x ep d j i (sym e)) fits

      here :
          (k : Bytes) (x : Endpoint)
          → EdgesNow [] eps x
          → k ≡ x.edge_id
          → (ep : Endpoint) × In ep eps × (Eligible ep × (k ≡ ep.edge_id))
      here k x (inl i) e = elim i [ ]
      here k x (inr (i, fine)) e = (x, i, (fine, e))

module _ (P : Provider) (law : Law P) (region_map : Assoc RegionLoc) (o : DiffOpts)
    (eps : List Endpoint) (distinct : Distinct eps) (set : o.ttl ≢ pos 0) (s : P.State)
    (ids : (q p : Record) → Lists P s q → Lists P s p → q.id ≡ p.id → q ≡ p)
    (tags : (q p : Record)
      → Lists P s q
      → Lists P s p
      → edge_id_from_comment q.comment ≢ []
      → edge_id_from_comment q.comment ≡ edge_id_from_comment p.comment
      → q ≡ p) where
  abbrev first_index : Index
  first_index = index_records o.routing_name (P.list_records s) empty_index

  start_Inv :
      Here P law region_map o
        (rotation_state o.now o.stale_after eps)
        (max_capacity eps)
        s
        first_index
        []
  start_Inv =
      let entries =
        index_records-Entries o.routing_name (Lists P s) (P.list_records s) empty_index (λ q i. i)
          (empty-Entries (Lists P s)) in
      record {
        ttl_set = set;
        unique = ids;
        entries = entries;
        tagged = λ q i tag.
            let (v, found) =
              index_records_tagged o.routing_name (P.list_records s) empty_index q i tag in
            let (v_listed, (v_tag, v_named)) =
              entries.managed_entry (tag_of q) v (lookup-In first_index.managed found) in
            inr (found ∙ ap (λ (x : Record). some x) (sym (tags q v i v_listed tag (sym v_tag))));
        present = λ ep i. elim i [ ];
        separate = λ ep k r i. elim i [ ];
        tags_nonempty = λ ep i. elim i [ ];
      }

  -- With distinct edge ids, a TTL that is not 0, and a zone where no two records have the same id
  -- or the same server tag: where Apply runs the plan of Diff without an error, on a provider whose
  -- calls do what they document, an update being a merge of the fields that are sent, Diff plans
  -- nothing more for the same edges at the same time.
  pub diff-apply :
      (apply P (diff region_map o eps (P.list_records s)) s).succeeded ≡ true
      → diff region_map o eps
          (P.list_records (apply P (diff region_map o eps (P.list_records s)) s).state)
        ≡ []
  unfolding diff
  diff-apply works = Settled-reconcile_from region_map o _ _ eps _ distinct (
      Final-Settled P law region_map o _ _ eps _ distinct (
        reconcile_from-Final P law region_map o _ _ eps first_index [] s distinct
          (λ x y i. elim i [ ]) start_Inv works))
