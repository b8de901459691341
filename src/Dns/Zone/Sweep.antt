-- ===== src/Dns/Zone/Sweep.antt =====
-- Proofs about DiffZone and OrphanZonePlan of brisk-control/internal/dns/zonesync.go.
use brisk.Prelude.{
  parse_int64, ◌≡◌, refl, Bytes, str_eq, equal_fold, Option, none, some, Bool, true, false, ◌&&◌,
  List, [], ◌∷◌, ℕ, ℤ, pos, eq_ℤ, Assoc, lookup, In, first, later, All, All-of, Bool-cases, inl,
  inr, arith, codes, cut, strip, strip-some, Option-cases, ◌++◌,
}
use brisk.Dns.{Endpoint, Record}
use brisk.Dns.Region.{RegionLoc}
use brisk.Dns.Diff.{Action, DiffOpts, remove, change_kind, write_actions}
use brisk.Dns.Diff.Scope.{
  AllValues, AllValues-insert, AllValues-erase, AllValues-lookup, All-append, About, adds,
  write_kind-About, removals-About,
}
use brisk.Dns.Zone.{
  ZoneRouting, edge_id_from_zone_comment, zone_id_from_comment, put, zone_record, zone_records,
  zone_write, zone_one, zone_from, diff_zone, is_orphan, orphan_zone_plan,
}

-- an A record at the zone's name, with this zone's tag
pub record IsOfZone (zr : ZoneRouting) (r : Record) : Type 0 where
  pub address : eq_ℤ r.type (pos 0) ≡ true
  pub named : equal_fold r.name zr.name ≡ true
  pub edge_id : Bytes
  pub tagged : edge_id_from_zone_comment r.comment zr.zone_id ≡ some edge_id

module _ (P : Record → Type 0) where
  put-AllValues :
      (o : Option Bytes) (r : Record) (m : Assoc Record)
      → ((id : Bytes) → o ≡ some id → P r)
      → AllValues P m
      → AllValues P (put o r m)
  put-AllValues none r m p h = h
  put-AllValues (some id) r m p h = AllValues-insert P id r m (p id refl) h

  zone_records-AllValues :
      (zr : ZoneRouting) (rs : List Record) (m : Assoc Record)
      → All (λ r. IsOfZone zr r → P r) rs
      → AllValues P m
      → AllValues P (zone_records zr rs m)
  unfolding zone_records
  zone_records-AllValues zr [] m own h = h
  zone_records-AllValues zr (r ∷ rs) m own h =
      zone_records-AllValues zr rs _ own.1
        (elim (Bool-cases (eq_ℤ r.type (pos 0) && equal_fold r.name zr.name)) [
          | inl hit ↦
              unfold zone_record in
              rw hit (
                put-AllValues (edge_id_from_zone_comment r.comment zr.zone_id) r m
                  (λ id e. own.0 (record {
                    address = ground (arith, hit);
                    named = ground (arith, hit);
                    edge_id = id;
                    tagged = e;
                  }))
                  h)
          | inr other ↦ unfold zone_record in rw other h
        ])

  abbrev Stepped : List Action × Assoc Record → Type 0
  Stepped step = All (About P) step.0 × AllValues P step.1

  zone_write-About :
      (o : Option Record) (id : Bytes) (desired : Record) (m : Assoc Record)
      → AllValues P m
      → ((r : Record) → o ≡ some r → P r)
      → Stepped (zone_write o id desired m)
  unfolding zone_write write_actions
  zone_write-About none id desired m h p = ((adds refl, tt), h)
  zone_write-About (some r) id desired m h p = (
    write_kind-About P (change_kind false r desired) id r desired (p r refl),
    AllValues-erase P id m h,
  )

  module _ (region_map : Assoc RegionLoc) (o : DiffOpts) (zr : ZoneRouting) (rot : Assoc Bool)
      (cap : ℕ) where
    zone_one-About :
        (ep : Option Endpoint) (id : Bytes) (m : Assoc Record)
        → AllValues P m
        → Stepped (zone_one region_map o zr rot cap ep id m)
    unfolding zone_one
    zone_one-About none id m h = (tt, h)
    zone_one-About (some ep) id m h = elim (Bool-cases (str_eq ep.ip [])) [
      | inl no_ip ↦ rw no_ip (tt, h)
      | inr has_ip ↦
          rw has_ip (zone_write-About (lookup id m) id _ m h (λ r. AllValues-lookup P id m r h))
    ]

    zone_from-About :
        (eps : Assoc Endpoint) (ids : List Bytes) (m : Assoc Record)
        → AllValues P m
        → All (About P) (zone_from region_map o zr rot cap eps ids m)
    unfolding zone_from
    zone_from-About eps [] m h = removals-About P m h
    zone_from-About eps (id ∷ ids) m h =
        let (here, left) = zone_one-About (lookup id eps) id m h in
        All-append (About P) _ _ here (zone_from-About eps ids _ left)

-- Every action of a zone's plan adds a record, or is about an A record of the list at the zone's
-- name that bears this zone's tag.
pub diff_zone-About :
    (region_map : Assoc RegionLoc) (o : DiffOpts) (zr : ZoneRouting) (eps : List Endpoint)
    (records : List Record)
    → All (About (λ r. In r records × IsOfZone zr r)) (diff_zone region_map o zr eps records)
unfolding diff_zone
diff_zone-About region_map o zr eps records =
    zone_from-About (λ r. In r records × IsOfZone zr r) region_map o zr _ _ _ zr.assigned_edge_ids _
      (zone_records-AllValues (λ r. In r records × IsOfZone zr r) zr records []
        (All-of _ records (λ r i own. (i, own))) tt)

-- an action that removes a record whose comment is "brisk:zone:", the id of a zone that is not
-- active, and nothing more or a colon and any text
pub record Sweeps (active : ℤ → Bool) (records : List Record) (a : Action) : Type 0 where
  pub removes : a.kind ≡ remove
  pub swept : Record
  pub listed : In swept records
  pub same_id : swept.id ≡ a.record_id
  pub zone_id : ℤ
  pub rest : Bytes
  pub tagged : swept.comment ≡ codes "brisk:zone:" ++ rest
  pub numbered : parse_int64 (cut b':' rest).0 ≡ some zone_id
  pub inactive : active zone_id ≡ false

Sweeps-later :
    (active : ℤ → Bool) (r : Record) (rs : List Record) (plan : List Action)
    → All (Sweeps active rs) plan
    → All (Sweeps active (r ∷ rs)) plan
Sweeps-later active r rs [] h = tt
Sweeps-later active r rs (a ∷ plan) h = (
  record {
    removes = h.0.removes;
    swept = h.0.swept;
    listed = later h.0.listed;
    same_id = h.0.same_id;
    zone_id = h.0.zone_id;
    rest = h.0.rest;
    tagged = h.0.tagged;
    numbered = h.0.numbered;
    inactive = h.0.inactive;
  },
  Sweeps-later active r rs plan h.1,
)

zone_id_from_comment-tagged :
    (comment : Bytes) (z : ℤ)
    → zone_id_from_comment comment ≡ some z
    → (rest : Bytes) × (comment ≡ codes "brisk:zone:" ++ rest)
      × (parse_int64 (cut b':' rest).0 ≡ some z)
unfolding zone_id_from_comment
zone_id_from_comment-tagged comment z h =
    elim (Option-cases (strip comment (codes "brisk:zone:"))) [
      | inl other ↦ let k : none ≡ some z = rw other at h in cc
      | inr (rest, e) ↦ (rest, strip-some comment (codes "brisk:zone:") rest e, rw e at h)
    ]

is_orphan-id :
    (active : ℤ → Bool) (o : Option ℤ)
    → is_orphan active o ≡ true
    → (z : ℤ) × (o ≡ some z) × (active z ≡ false)
is_orphan-id active none h = cc
is_orphan-id active (some z) h = (z, refl, ground (arith, h))

-- Every action of the sweep removes a record of the list whose comment is brisk:zone: and then, up
-- to a colon or the end, the decimal id of a zone that is not active.
pub orphan_zone_plan-Sweeps :
    (records : List Record) (active : ℤ → Bool)
    → All (Sweeps active records) (orphan_zone_plan records active)
unfolding orphan_zone_plan
orphan_zone_plan-Sweeps [] active = tt
orphan_zone_plan-Sweeps (r ∷ rs) active =
    let rest = Sweeps-later active r rs _ (orphan_zone_plan-Sweeps rs active) in
    elim (Bool-cases (is_orphan active (zone_id_from_comment r.comment))) [
      | inl hit ↦
          let (z, e, off) = is_orphan-id active _ hit in
          let (rest_of, tag, number) = zone_id_from_comment-tagged r.comment z e in
          rw hit (
            record {
              removes = refl;
              swept = r;
              listed = first refl;
              same_id = refl;
              zone_id = z;
              rest = rest_of;
              tagged = tag;
              numbered = number;
              inactive = off;
            },
            rest,
          )
      | inr other ↦ rw other rest
    ]
