-- ===== src/Dns/Apply/Edge.antt =====
-- Applying the steps of a plan for one edge: proofs.
use brisk.Prelude.{
  ℕ, ◌≡◌, ◌≢◌, ◌↔◌, ◌⊎◌, inl, inr, pos, refl, sym, ◌∙◌, ap, Option, none, some, Bool, true, false,
  List, [], ◌∷◌, ◌++◌, Assoc, lookup, erase, In,
}
use brisk.Dns.{Endpoint, Record}
use brisk.Dns.Region.{RegionLoc}
use brisk.Dns.Diff.{
  DiffOpts, Index, Kind, Action, change_kind, write_kind, write_actions, add_action, write_or_adopt,
  adopt_or_add, reconcile_one, desired_record,
}
use brisk.Dns.Apply.{Provider, Law, Lists, apply, merged}
use brisk.Dns.Apply.Index.{In-erase, lookup-In, tag_of}
use brisk.Dns.Apply.Settled.{want}
use brisk.Dns.Apply.Steps.{add_step, wanted, merged-wanted}
use brisk.Dns.Apply.Writes.{keep_step, write_step}
use brisk.Dns.Apply.Passes.{
  change_kind-is_write, Ends, after_write-Ends, after_add-Ends, apply_one-Ends, Here, Final,
}

module _ (P : Provider) (law : Law P) (region_map : Assoc RegionLoc) (o : DiffOpts)
    (rot : Assoc Bool) (cap : ℕ) where
  abbrev HereNow : P.State → Index → List Endpoint → Type 0
  HereNow = Here P law region_map o rot cap

  abbrev FinalNow : (Endpoint → Type 0) → P.State → Type 0
  FinalNow = Final P law region_map o rot cap

  module _ (D : Endpoint → Type 0) (ep : Endpoint) (named : ep.edge_id ≢ []) (done : List Endpoint)
      (new : (x : Endpoint) → In x done → x.edge_id ≢ ep.edge_id) (rest : Index → List Action)
      (go : (ix : Index) (t : P.State)
        → HereNow t ix (ep ∷ done)
        → Ends P law (FinalNow D) (apply P (rest ix) t))
      (ix : Index) (s : P.State) (inv : HereNow s ix done) where
    abbrev pub d : Record
    d = want region_map o rot cap ep

    abbrev pub Planned : List Action × Index → Type 0
    Planned r = Ends P law (FinalNow D) (apply P (r.0 ++ rest r.1) s)

    ttl_sent : d.ttl ≢ pos 0
    unfolding desired_record
    ttl_sent = inv.ttl_set

    -- what an update leaves
    rewritten :
        (e : Record) (t : P.State)
        → P.update_record e.id (record d { id = e.id }) s ≡ (true, t)
        → Lists P s e
        → (q : Record)
        → Lists P t q ↔ (
            (Lists P s q × (q.id ≢ e.id))
            ⊎ (q ≡ wanted region_map o rot cap ep e.id e.priority e.monitor_status))
    unfolding merged
    rewritten e t works listed q =
        let both = law.updated e.id (record d { id = e.id }) s t works q in
        let same : merged e d ≡ wanted region_map o rot cap ep e.id e.priority e.monitor_status =
          merged-wanted region_map o rot cap ep e inv.ttl_set in
        (
          λ i. elim (both.0 i) [
            | inl still ↦ inl still
            | inr (old, there, at, f) ↦
                inr
                  (f ∙ (ap (λ (x : Record). merged x d) (inv.unique old e there listed at) ∙ same))
          ],
          λ i.
              both.1
                (elim i [ inl still ↦ inl still | inr f ↦ inr (e, listed, refl, f ∙ sym same) ]),
        )

    added : lookup ep.edge_id ix.managed ≡ none → Planned (add_action ep.edge_id d ∷ [], ix)
    unfolding apply
    added absent =
        after_add-Ends P law (FinalNow D) (add_action ep.edge_id d) (P.add_record d s) _
          (λ n t works.
            let (pr, st, listed) = law.added d s n t works ttl_sent in
            go ix t (
              add_step region_map o rot cap inv ep named new (Lists P t) n pr st listed
                (law.added_fresh d s n t works) absent))

    adopted :
        (e : Record)
        → lookup ep.edge_id ix.managed ≡ none
        → lookup d.value ix.untagged ≡ some e
        → Planned (
          write_actions true ep.edge_id e d,
          record { managed = erase ep.edge_id ix.managed; untagged = erase d.value ix.untagged },
        )
    unfolding apply write_actions change_kind
    adopted e absent found =
        let (listed, (bare, at)) =
          inv.entries.relic_entry d.value e (lookup-In ix.untagged found) in
        after_write-Ends P law (FinalNow D) _ (P.update_record e.id (record d { id = e.id }) s) _
          (λ t works. go _ t (
            write_step region_map o rot cap inv ep named new (Lists P t) e _
              (rewritten e t works listed) listed (λ k ne k_named same. k_named (sym same ∙ bare))
              (λ q there. cc)
              (λ v r i.
                let (j, ne) = In-erase d.value ix.untagged i in
                let (was, (b, at_v)) = inv.entries.relic_entry v r j in
                (
                  j,
                  λ same. ne (
                      sym at_v
                      ∙ (ap (λ (x : Record). x.value) (inv.unique r e was listed same) ∙ at)),
                ))))

    written :
        (e : Record) (k : Option Kind)
        → lookup ep.edge_id ix.managed ≡ some e
        → change_kind false e d ≡ k
        → Planned (write_kind k ep.edge_id e d, record ix { managed = erase ep.edge_id ix.managed })
    unfolding apply
    written e none found same =
        let (listed, (at, k_named)) =
          inv.entries.managed_entry ep.edge_id e (lookup-In ix.managed found) in
        go _ s (keep_step region_map o rot cap inv ep named new e found listed (at, same))
    written e (some kind) found changed =
        let (listed, (at, k_named)) =
          inv.entries.managed_entry ep.edge_id e (lookup-In ix.managed found) in
        apply_one-Ends P law (FinalNow D) kind (change_kind-is_write false e d changed) ep.edge_id e
          d s _
          (λ t works. go _ t (
            write_step region_map o rot cap inv ep named new (Lists P t) e ix.untagged
              (rewritten e t works listed) listed (λ k ne named_k same. ne (sym same ∙ at))
              (λ q there. cc)
              (λ v r i.
                let (was, (bare, at_v)) = inv.entries.relic_entry v r i in
                (
                  i,
                  λ same.
                      named (sym at ∙ (ap tag_of (sym (inv.unique r e was listed same)) ∙ bare)),
                ))))

    pub one_edge : Planned (reconcile_one ep.edge_id d ix)
    unfolding reconcile_one write_or_adopt adopt_or_add write_actions
    one_edge = known (lookup ep.edge_id ix.managed) refl
      where
        unknown :
            (r : Option Record)
            → lookup ep.edge_id ix.managed ≡ none
            → lookup d.value ix.untagged ≡ r
            → Planned (adopt_or_add r ep.edge_id d ix)
        unknown none absent found = added absent
        unknown (some e) absent found = adopted e absent found

        known :
            (r : Option Record)
            → lookup ep.edge_id ix.managed ≡ r
            → Planned (write_or_adopt r ep.edge_id d ix)
        known none absent = unknown (lookup d.value ix.untagged) absent refl
        known (some e) found = written e (change_kind false e d) found refl
