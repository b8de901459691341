-- ===== src/Dns/Apply/Index.antt =====
-- The index of the records that Diff works on, by the entries of its two maps.
use brisk.Prelude.{
  ◌≡◌, ◌≢◌, refl, sym, ◌∙◌, ap, ◌⊎◌, Bytes, str_eq, str_eq_iff, str_eq_refl, some, true, false,
  List, [], ◌∷◌, Assoc, lookup, insert, erase, In, first, later, Bool-cases, inl, inr, subst,
  lookup-insert,
}
use brisk.Dns.{Record}
use brisk.Dns.Diff.{Index, is_relic, edge_id_from_comment, index_record, index_records}

pub lookup-In : {k : Bytes} {r : Record} (m : Assoc Record) → lookup k m ≡ some r → In (k, r) m
unfolding lookup
lookup-In [] h = cc
lookup-In {k} {r} ((j, v) ∷ m) h = elim (Bool-cases (str_eq j k)) [
  | inl e ↦
      let same : some v ≡ some r = rw e at h in
      let q : v ≡ r = cc in
      let p : j ≡ k = (str_eq_iff j k).0 e in
      first (sym (ap (λ (i : Bytes). (i, v)) p ∙ ap (λ (x : Record). (k, x)) q))
  | inr e ↦ later (lookup-In m (rw e at h))
]

pub In-found :
    {k : Bytes} {r : Record} (m : Assoc Record) → In (k, r) m → (v : Record) × (lookup k m ≡ some v)
unfolding lookup
In-found [] i = elim i [ ]
In-found {k} {r} ((j, v) ∷ m) i = elim (Bool-cases (str_eq j k)) [
  | inl e ↦ (v, rw e refl)
  | inr e ↦ let (x, h) = In-found m (past e i) in (x, rw e h)
]
  where
    past : str_eq j k ≡ false → In (k, r) ((j, v) ∷ m) → In (k, r) m
    past e (first p) =
        let same : j ≡ k = sym (ap (λ (x : Bytes × Record). x.0) p) in
        let t : str_eq j k ≡ true = (str_eq_iff j k).1 same in absurd cc
    past e (later i) = i

pub In-erase :
    (j : Bytes) {k : Bytes} {r : Record} (m : Assoc Record)
    → In (k, r) (erase j m)
    → In (k, r) m × (k ≢ j)
unfolding erase
In-erase j [] i = elim i [ ]
In-erase j {k} {r} ((i0, v) ∷ m) i = elim (Bool-cases (str_eq i0 j)) [
  | inl e ↦ let (x, ne) = In-erase j m (rw e at i) in (later x, ne)
  | inr e ↦ here (In-erase j m) e (rw e at i)
]
  where
    here :
        (In (k, r) (erase j m) → In (k, r) m × (k ≢ j))
        → str_eq i0 j ≡ false
        → In (k, r) ((i0, v) ∷ erase j m)
        → In (k, r) ((i0, v) ∷ m) × (k ≢ j)
    here rest e (first p) = (
      first p,
      λ q.
          let same : i0 ≡ j = sym (ap (λ (x : Bytes × Record). x.0) p) ∙ q in
          let t : str_eq i0 j ≡ true = (str_eq_iff i0 j).1 same in cc,
    )
    here rest e (later i) = let (x, ne) = rest i in (later x, ne)

pub In-insert :
    (j : Bytes) (v : Record) {k : Bytes} {r : Record} (m : Assoc Record)
    → In (k, r) (insert j v m)
    → ((k ≡ j) × (r ≡ v)) ⊎ In (k, r) m
unfolding insert
In-insert j v [] (first p) =
    inl (ap (λ (x : Bytes × Record). x.0) p, ap (λ (x : Bytes × Record). x.1) p)
In-insert j v [] (later i) = elim i [ ]
In-insert j v {k} {r} ((i0, w) ∷ m) i = elim (Bool-cases (str_eq i0 j)) [
  | inl e ↦ put (rw e at i)
  | inr e ↦ past (In-insert j v m) (rw e at i)
]
  where
    put : In (k, r) ((j, v) ∷ m) → ((k ≡ j) × (r ≡ v)) ⊎ In (k, r) ((i0, w) ∷ m)
    put (first p) = inl (ap (λ (x : Bytes × Record). x.0) p, ap (λ (x : Bytes × Record). x.1) p)
    put (later i) = inr (later i)

    past :
        (In (k, r) (insert j v m) → ((k ≡ j) × (r ≡ v)) ⊎ In (k, r) m)
        → In (k, r) ((i0, w) ∷ insert j v m)
        → ((k ≡ j) × (r ≡ v)) ⊎ In (k, r) ((i0, w) ∷ m)
    past rest (first p) = inr (first p)
    past rest (later i) = elim (rest i) [ inl e ↦ inl e | inr x ↦ inr (later x) ]

abbrev pub tag_of : Record → Bytes
tag_of r = edge_id_from_comment r.comment

-- the entries are records of a set, under their keys
pub record Entries (R : Record → Type 0) (ix : Index) : Type 0 where
  pub managed_entry :
      (k : Bytes) (r : Record) → In (k, r) ix.managed → R r × ((tag_of r ≡ k) × (k ≢ []))
  pub relic_entry :
      (v : Bytes) (r : Record) → In (v, r) ix.untagged → R r × ((tag_of r ≡ []) × (r.value ≡ v))

-- the edge has a record
abbrev pub Has : Bytes → Index → Type 0
Has k ix = (v : Record) × (lookup k ix.managed ≡ some v)

insert-Has :
    (k j : Bytes) (r : Record) (ix : Index)
    → Has k ix
    → Has k (record ix { managed = insert j r ix.managed })
insert-Has k j r ix (v, h) = elim (Bool-cases (str_eq j k)) [
  | inl e ↦ (r, rw (lookup-insert, e) refl)
  | inr e ↦ (v, rw (lookup-insert, e) h)
]

module _ (name : Bytes) where
  index_record-Has :
      (k : Bytes) (r : Record) (ix : Index) → Has k ix → Has k (index_record name r ix)
  unfolding index_record
  index_record-Has k r ix h = elim (Bool-cases (str_eq (edge_id_from_comment r.comment) [])) [
    | inl e ↦ elim (Bool-cases (is_relic name r)) [
      | inl relic ↦ rw (e, relic) h
      | inr other ↦ rw (e, other) h
    ]
    | inr e ↦ rw e (insert-Has k (edge_id_from_comment r.comment) r ix h)
  ]

  index_records-Has :
      (k : Bytes) (rs : List Record) (ix : Index) → Has k ix → Has k (index_records name rs ix)
  unfolding index_records
  index_records-Has k [] ix h = h
  index_records-Has k (r ∷ rs) ix h = index_records-Has k rs _ (index_record-Has k r ix h)

  tag_Has : (r : Record) (ix : Index) → tag_of r ≢ [] → Has (tag_of r) (index_record name r ix)
  unfolding index_record
  tag_Has r ix tagged = elim (Bool-cases (str_eq (edge_id_from_comment r.comment) [])) [
    | inl e ↦ absurd (tagged ((str_eq_iff (tag_of r) []).0 e))
    | inr e ↦ rw e (r, rw (lookup-insert, str_eq_refl) refl)
  ]

  pub index_records_tagged :
      (rs : List Record) (ix : Index) (q : Record)
      → In q rs
      → tag_of q ≢ []
      → Has (tag_of q) (index_records name rs ix)
  unfolding index_records
  index_records_tagged [] ix q i tagged = elim i [ ]
  index_records_tagged (r ∷ rs) ix q (first e) tagged = index_records-Has (tag_of q) rs _ (
      subst (λ x. Has (tag_of x) (index_record name r ix)) (sym e)
        (tag_Has r ix (subst (λ x. tag_of x ≢ []) e tagged)))
  index_records_tagged (r ∷ rs) ix q (later i) tagged = index_records_tagged rs _ q i tagged

  module _ (R : Record → Type 0) where
    index_record-Entries :
        (r : Record) (ix : Index) → R r → Entries R ix → Entries R (index_record name r ix)
    unfolding index_record
    index_record-Entries r ix here h =
        elim (Bool-cases (str_eq (edge_id_from_comment r.comment) [])) [
          | inl e ↦ elim (Bool-cases (is_relic name r)) [
            | inl relic ↦
                rw (e, relic)
                  (record {
                    managed_entry = h.managed_entry;
                    relic_entry = λ v q i. elim (In-insert r.value r ix.untagged i) [
                      | inl (k, same) ↦
                          subst (λ x. R x × ((tag_of x ≡ []) × (x.value ≡ v))) (sym same)
                            (here, ((str_eq_iff (tag_of r) []).0 e, sym k))
                      | inr old ↦ h.relic_entry v q old
                    ];
                  })
            | inr other ↦ rw (e, other) h
          ]
          | inr e ↦ rw e (record {
            managed_entry = λ k q i. elim (In-insert (tag_of r) r ix.managed i) [
              | inl (at, same) ↦
                  subst (λ x. R x × ((tag_of x ≡ k) × (k ≢ []))) (sym same)
                    (here, (sym at, λ none. cc (e, (str_eq_iff (tag_of r) []).1 (sym at ∙ none))))
              | inr old ↦ h.managed_entry k q old
            ];
            relic_entry = h.relic_entry;
          })
        ]

    pub index_records-Entries :
        (rs : List Record) (ix : Index)
        → ((q : Record) → In q rs → R q)
        → Entries R ix
        → Entries R (index_records name rs ix)
    unfolding index_records
    index_records-Entries [] ix own h = h
    index_records-Entries (r ∷ rs) ix own h =
        index_records-Entries rs _ (λ q i. own q (later i))
          (index_record-Entries r ix (own r (first refl)) h)
