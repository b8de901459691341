-- ===== src/Dns/Diff/Scope.antt =====
-- Proofs about the records that Diff of brisk-control/internal/dns/reconcile.go acts on.
use brisk.Prelude.{
  ◌≡◌, ◌≢◌, refl, ap, ◌∙◌, Bytes, codes, pos, eq_ℤ_iff, equal_fold, strip, strip-some, opt_or,
  Option-cases, arith, str_eq, str_eq_iff, Option, none, some, Bool, true, false, ◌||◌, List, [],
  ◌∷◌, ◌++◌, ℕ, Assoc, lookup, insert, erase, In, All, All-of, Bool-cases, inl, inr, subst,
}
use brisk.Dns.{Endpoint, Record}
use brisk.Dns.Region.{RegionLoc}
use brisk.Dns.Diff.{
  Kind, add, Action, DiffOpts, Index, is_relic, edge_id_from_comment, index_record, index_records,
  write_kind, change_kind, adopt_or_add, write_or_adopt, removals, reconcile_one, reconcile_from,
  desired_record, diff,
}

abbrev pub AllValues : (Record → Type 0) → Assoc Record → Type 0
AllValues P = All (λ e. P e.1)

pub All-append :
    (Q : Action → Type 0) (xs ys : List Action) → All Q xs → All Q ys → All Q (xs ++ ys)
All-append Q [] ys hx hy = hy
All-append Q (x ∷ xs) ys hx hy = (hx.0, All-append Q xs ys hx.1 hy)

module _ (P : Record → Type 0) where
  pub AllValues-insert :
      (k : Bytes) (r : Record) (m : Assoc Record) → P r → AllValues P m → AllValues P (insert k r m)
  unfolding insert
  AllValues-insert k r [] p h = (p, tt)
  AllValues-insert k r ((j, v) ∷ m) p h = elim (Bool-cases (str_eq j k)) [
    | inl e ↦ rw e (p, h.1)
    | inr e ↦ rw e (h.0, AllValues-insert k r m p h.1)
  ]

  pub AllValues-erase : (k : Bytes) (m : Assoc Record) → AllValues P m → AllValues P (erase k m)
  unfolding erase
  AllValues-erase k [] h = tt
  AllValues-erase k ((j, v) ∷ m) h = elim (Bool-cases (str_eq j k)) [
    | inl e ↦ rw e (AllValues-erase k m h.1)
    | inr e ↦ rw e (h.0, AllValues-erase k m h.1)
  ]

  pub AllValues-lookup :
      (k : Bytes) (m : Assoc Record) (r : Record) → AllValues P m → lookup k m ≡ some r → P r
  unfolding lookup
  AllValues-lookup k [] r h e = cc
  AllValues-lookup k ((j, v) ∷ m) r h e = elim (Bool-cases (str_eq j k)) [
    | inl hit ↦ let same : some v ≡ some r = rw hit at e in let q : v ≡ r = cc in subst P q h.0
    | inr miss ↦ AllValues-lookup k m r h.1 (rw miss at e)
  ]

  -- an action that adds a record, or is about one that satisfies P
  pub data About (a : Action) : Type 0 where
    adds : a.kind ≡ add → About a
    about : (r : Record) → P r → r.id ≡ a.record_id → About a

  pub write_kind-About :
      (k : Option Kind) (id : Bytes) (existing desired : Record)
      → P existing
      → All About (write_kind k id existing desired)
  write_kind-About none id existing desired p = tt
  write_kind-About (some k) id existing desired p = (about existing p refl, tt)

  pub removals-About : (m : Assoc Record) → AllValues P m → All About (removals m)
  unfolding removals
  removals-About [] h = tt
  removals-About ((k, r) ∷ m) h = (about r h.0 refl, removals-About m h.1)

  abbrev Indexed : Index → Type 0
  Indexed ix = AllValues P ix.managed × AllValues P ix.untagged

  abbrev Stepped : List Action × Index → Type 0
  Stepped step = All About step.0 × Indexed step.1

  adopt_or_add-About :
      (o : Option Record) (id : Bytes) (desired : Record) (ix : Index)
      → Indexed ix
      → ((r : Record) → o ≡ some r → P r)
      → Stepped (adopt_or_add o id desired ix)
  unfolding adopt_or_add
  adopt_or_add-About none id desired ix h p = ((adds refl, tt), h)
  adopt_or_add-About (some r) id desired ix h p = (
    write_kind-About (change_kind true r desired) id r desired (p r refl),
    (AllValues-erase id ix.managed h.0, AllValues-erase desired.value ix.untagged h.1),
  )

  write_or_adopt-About :
      (o : Option Record) (id : Bytes) (desired : Record) (ix : Index)
      → Indexed ix
      → ((r : Record) → o ≡ some r → P r)
      → Stepped (write_or_adopt o id desired ix)
  unfolding write_or_adopt
  write_or_adopt-About none id desired ix h p =
      adopt_or_add-About (lookup desired.value ix.untagged) id desired ix h
        (λ r. AllValues-lookup desired.value ix.untagged r h.1)
  write_or_adopt-About (some r) id desired ix h p = (
    write_kind-About (change_kind false r desired) id r desired (p r refl),
    (AllValues-erase id ix.managed h.0, h.1),
  )

  reconcile_one-About :
      (id : Bytes) (desired : Record) (ix : Index)
      → Indexed ix
      → Stepped (reconcile_one id desired ix)
  unfolding reconcile_one
  reconcile_one-About id desired ix h =
      write_or_adopt-About (lookup id ix.managed) id desired ix h
        (λ r. AllValues-lookup id ix.managed r h.0)

  reconcile_from-About :
      (region_map : Assoc RegionLoc) (o : DiffOpts) (rot : Assoc Bool) (cap : ℕ)
      (eps : List Endpoint) (ix : Index)
      → Indexed ix
      → All About (reconcile_from region_map o rot cap eps ix)
  unfolding reconcile_from
  reconcile_from-About region_map o rot cap [] ix h = removals-About ix.managed h.0
  reconcile_from-About region_map o rot cap (ep ∷ eps) ix h =
      let d = desired_record region_map o rot cap ep in
      elim (Bool-cases (str_eq ep.edge_id [] || str_eq ep.ip [])) [
        | inl skip ↦ rw skip (reconcile_from-About region_map o rot cap eps ix h)
        | inr take ↦
            let (here, left) = reconcile_one-About ep.edge_id d ix h in
            rw take (
              All-append About _ _ here (
                reconcile_from-About region_map o rot cap eps (reconcile_one ep.edge_id d ix).1
                  left))
      ]

-- Ours: tagged brisk:server:<edge>, or an untagged A record of the routing set with a value.
pub data IsOurs (routing_name : Bytes) (r : Record) : Type 0 where
  tagged : (e : Bytes) → e ≢ [] → r.comment ≡ codes "brisk:server:" ++ e → IsOurs routing_name r
  relic :
      r.type ≡ pos 0 → equal_fold r.name routing_name ≡ true → r.value ≢ [] → IsOurs routing_name r

own_tag :
    (routing_name : Bytes) (r : Record)
    → edge_id_from_comment r.comment ≢ []
    → IsOurs routing_name r
unfolding edge_id_from_comment
own_tag name r named = elim (Option-cases (strip r.comment (codes "brisk:server:"))) [
  | inl other ↦ absurd (named (ap (λ (o : Option Bytes). opt_or o []) other))
  | inr (e, cut) ↦
      tagged e (λ blank. named (ap (λ (o : Option Bytes). opt_or o []) cut ∙ blank))
        (strip-some r.comment (codes "brisk:server:") e cut)
]

own_relic :
    (routing_name : Bytes) (r : Record) → is_relic routing_name r ≡ true → IsOurs routing_name r
own_relic name r h =
    relic ((eq_ℤ_iff r.type (pos 0)).0 (ground (arith, h))) (ground (arith, h))
      (λ blank. ground (arith, h, (str_eq_iff r.value []).1 blank))

index_records-Indexed :
    (P : Record → Type 0) (routing_name : Bytes) (rs : List Record) (ix : Index)
    → All (λ r. IsOurs routing_name r → P r) rs
    → Indexed P ix
    → Indexed P (index_records routing_name rs ix)
unfolding index_records
index_records-Indexed P name [] ix own h = h
index_records-Indexed P name (r ∷ rs) ix own h =
    index_records-Indexed P name rs _ own.1
      (elim (Bool-cases (str_eq (edge_id_from_comment r.comment) [])) [
        | inl untagged ↦ elim (Bool-cases (is_relic name r)) [
          | inl yes_relic ↦
              rw (index_record, untagged, yes_relic)
                (
                  h.0,
                  AllValues-insert P r.value r ix.untagged (own.0 (own_relic name r yes_relic)) h.1,
                )
          | inr other ↦ rw (untagged, other) h
        ]
        | inr has_tag ↦ rw has_tag (
          AllValues-insert P _ r ix.managed
              (own.0 (own_tag name r (λ e. cc (has_tag, (str_eq_iff _ []).1 e)))) h.0,
          h.1,
        )
      ])

-- Every action of a plan adds a record, or is about a record of the zone that has the comment
-- brisk:server: and a non-empty edge id, or has type A, the routing name in any case and a value.
pub diff-About :
    (region_map : Assoc RegionLoc) (o : DiffOpts) (eps : List Endpoint) (records : List Record)
    → All (About (λ r. In r records × IsOurs o.routing_name r)) (diff region_map o eps records)
unfolding diff
diff-About region_map o eps records =
    reconcile_from-About (λ r. In r records × IsOurs o.routing_name r) region_map o _ _ eps _
      (index_records-Indexed (λ r. In r records × IsOurs o.routing_name r) o.routing_name records _
        (All-of _ records (λ r i ours. (i, ours))) (tt, tt))
