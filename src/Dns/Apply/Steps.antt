-- ===== src/Dns/Apply/Steps.antt =====
-- The invariant between the records and the index while a plan is applied, and the addition of a
-- record.
use brisk.Prelude.{
  ℕ, ◌≡◌, ◌≢◌, ◌↔◌, ◌⊎◌, refl, sym, ◌∙◌, ap, Bytes, str_eq_refl, strip-append, none, some, Bool,
  true, false, List, [], ◌∷◌, Assoc, lookup, In, first, later, inl, inr, subst, ℤ, pos, Bool-cases,
  str_eq, eq_ℤ, eq_ℤ_iff, arith,
}
use brisk.Dns.{Endpoint, Record}
use brisk.Dns.Region.{RegionLoc}
use brisk.Dns.Diff.{
  DiffOpts, Index, change_kind, content_changed, disabled_changed, float_eq, desired_record,
  server_tag, edge_id_from_comment,
}
use brisk.Dns.Apply.{merged}
use brisk.Dns.Apply.Index.{In-found, tag_of, Entries}
use brisk.Dns.Apply.Settled.{want, Fits}

float_eq_refl : (a : ℤ) → float_eq a a ≡ true
unfolding float_eq
float_eq_refl a = ground arith

eq_ℤ_refl : (a : ℤ) → eq_ℤ a a ≡ true
eq_ℤ_refl a = (eq_ℤ_iff a a).1 refl

change_kind_same :
    (n : ℕ) (p m : ℤ) (d : Record)
    → change_kind false (record d { id = n; priority = p; monitor_status = m }) d ≡ none
unfolding change_kind content_changed disabled_changed
change_kind_same n p m d =
    rw
      (
        str_eq_refl d.value,
        str_eq_refl d.name,
        eq_ℤ_refl d.ttl,
        str_eq_refl d.comment,
        eq_ℤ_refl d.smart_routing_type,
        str_eq_refl d.latency_zone,
        eq_ℤ_refl d.weight,
        eq_ℤ_refl d.monitor_type,
        float_eq_refl d.geo_latitude,
        float_eq_refl d.geo_longitude,
      )
      (ground arith)

module _ (region_map : Assoc RegionLoc) (o : DiffOpts) (rot : Assoc Bool) (cap : ℕ) where
  abbrev pub FitsHere : Endpoint → Record → Type 0
  FitsHere = Fits region_map o rot cap

  -- the record that an edge wants, with the fields that are not Diff's
  abbrev pub wanted : Endpoint → ℕ → ℤ → ℤ → Record
  wanted ep n p m = record (want region_map o rot cap ep) {
    id = n;
    priority = p;
    monitor_status = m;
  }

  pub wanted-Fits : (ep : Endpoint) (n : ℕ) (p m : ℤ) → FitsHere ep (wanted ep n p m)
  unfolding desired_record server_tag edge_id_from_comment
  wanted-Fits ep n p m =
      (rw (strip-append) refl, change_kind_same n p m (want region_map o rot cap ep))

  -- An update leaves the record that the edge wants, where its TTL is sent.
  pub merged-wanted :
      (ep : Endpoint) (e : Record)
      → o.ttl ≢ pos 0
      → merged e (want region_map o rot cap ep) ≡ wanted ep e.id e.priority e.monitor_status
  unfolding merged desired_record server_tag str_eq
  merged-wanted ep e set =
      let sent : eq_ℤ o.ttl (pos 0) ≡ false = elim (Bool-cases (eq_ℤ o.ttl (pos 0))) [
        | inl zero_ttl ↦ absurd (set ((eq_ℤ_iff o.ttl (pos 0)).0 zero_ttl))
        | inr sent ↦ sent
      ] in
      rw sent refl

  pub record Inv (R : Record → Type 0) (ix : Index) (done : List Endpoint) : Type 0 where
    -- the TTL is sent
    pub ttl_set : o.ttl ≢ pos 0
    -- ids are unique
    pub unique : (q p : Record) → R q → R p → q.id ≡ p.id → q ≡ p
    pub entries : Entries R ix
    -- a tagged record fits an edge that is done, or is still on the index
    pub tagged :
        (q : Record)
        → R q
        → tag_of q ≢ []
        → ((ep : Endpoint) × In ep done × FitsHere ep q) ⊎ (lookup (tag_of q) ix.managed ≡ some q)
    pub present : (ep : Endpoint) → In ep done → (q : Record) × R q × FitsHere ep q
    pub separate :
        (ep : Endpoint) (k : Bytes) (r : Record)
        → In ep done
        → In (k, r) ix.managed
        → k ≢ ep.edge_id
    pub tags_nonempty : (ep : Endpoint) → In ep done → ep.edge_id ≢ []

  module _ {R : Record → Type 0} {ix : Index} {done : List Endpoint} (inv : Inv R ix done)
      (ep : Endpoint) (named : ep.edge_id ≢ [])
      (new : (x : Endpoint) → In x done → x.edge_id ≢ ep.edge_id) where
    pub add_step :
        (S : Record → Type 0) (n : ℕ) (pr st : ℤ)
        → ((q : Record) → S q ↔ (R q ⊎ (q ≡ wanted ep n pr st)))
        → ((q : Record) → R q → q.id ≢ n)
        → lookup ep.edge_id ix.managed ≡ none
        → Inv S ix (ep ∷ done)
    add_step S n pr st listed fresh absent = record {
      ttl_set = inv.ttl_set;
      unique = λ q p i j same. one q p ((listed q).0 i) ((listed p).0 j) same;
      entries = record {
        managed_entry =
            λ k r i. let (a, b) = inv.entries.managed_entry k r i in ((listed r).1 (inl a), b);
        relic_entry =
            λ v r i. let (a, b) = inv.entries.relic_entry v r i in ((listed r).1 (inl a), b);
      };
      tagged = λ q i t. old_or_new q ((listed q).0 i) t;
      present = λ x i. there x i;
      separate = λ x k r i j. apart x k r i j;
      tags_nonempty = λ x i. nonempty x i;
    }
      where
        one :
            (q p : Record)
            → R q ⊎ (q ≡ wanted ep n pr st)
            → R p ⊎ (p ≡ wanted ep n pr st)
            → q.id ≡ p.id
            → q ≡ p
        one q p (inl i) (inl j) same = inv.unique q p i j same
        one q p (inl i) (inr e) same = absurd (fresh q i (same ∙ ap (λ (r : Record). r.id) e))
        one q p (inr e) (inl j) same = absurd (fresh p j (sym same ∙ ap (λ (r : Record). r.id) e))
        one q p (inr e) (inr f) same = e ∙ sym f

        old_or_new :
            (q : Record)
            → R q ⊎ (q ≡ wanted ep n pr st)
            → tag_of q ≢ []
            → ((x : Endpoint) × In x (ep ∷ done) × FitsHere x q)
              ⊎ (lookup (tag_of q) ix.managed ≡ some q)
        old_or_new q (inl i) t = elim (inv.tagged q i t) [
          | inl (x, j, f) ↦ inl (x, later j, f)
          | inr e ↦ inr e
        ]
        old_or_new q (inr e) t =
            inl (ep, first refl, subst (FitsHere ep) (sym e) (wanted-Fits ep n pr st))

        there : (x : Endpoint) → In x (ep ∷ done) → (q : Record) × S q × FitsHere x q
        there x (first e) = (
          wanted ep n pr st,
          (listed (wanted ep n pr st)).1 (inr refl),
          subst (λ y. FitsHere y (wanted ep n pr st)) (sym e) (wanted-Fits ep n pr st),
        )
        there x (later i) = let (q, a, f) = inv.present x i in (q, (listed q).1 (inl a), f)

        apart :
            (x : Endpoint) (k : Bytes) (r : Record)
            → In x (ep ∷ done)
            → In (k, r) ix.managed
            → k ≢ x.edge_id
        apart x k r (first e) j at =
            let (v, found) = In-found ix.managed j in
            let here : lookup ep.edge_id ix.managed ≡ some v =
              subst (λ l. lookup l ix.managed ≡ some v) (at ∙ ap (λ (y : Endpoint). y.edge_id) e)
                found in
            cc
        apart x k r (later i) j at = inv.separate x k r i j at

        nonempty : (x : Endpoint) → In x (ep ∷ done) → x.edge_id ≢ []
        nonempty x (first e) = subst (λ (y : Endpoint). y.edge_id ≢ []) (sym e) named
        nonempty x (later i) = inv.tags_nonempty x i
