-- ===== src/Dns/Apply/Examples.antt =====
-- A provider that keeps its records in a list, an edge whose record has an old address, and the
-- record of an edge that is gone.
use brisk.Prelude.{
  pos_part, Bool-cases, ==_iff, if◌then◌else◌, ℕ, suc, ◌≤◌, Bytes, codes, str_eq, strip, lookup,
  insert, erase, ◌≡◌, ◌≢◌, ◌↔◌, ◌⊎◌, refl, sym, ◌∙◌, ap, subst, inl, inr, none, some, true, false,
  not, List, [], ◌∷◌, ◌==◌, keep, In, In-keep, first, later, pos, max, arith,
}
use brisk.Dns.{Endpoint, Record}
use brisk.Dns.Rotation.Blackhole.{Distinct}
use brisk.Dns.Diff.{DiffOpts, diff, edge_id_from_comment}
use brisk.Dns.Apply.{Provider, Law, apply, merged}
use brisk.Dns.Apply.Converge.{diff-apply}

abbrev max_id : List Record → ℕ
max_id [] = 0
max_id (r ∷ rs) = max r.id (max_id rs)

abbrev without : ℕ → List Record → List Record
without id rs = keep (λ (q : Record). not (q.id == id)) rs

-- one partial merge
abbrev rewrite : ℕ → Record → List Record → List Record
rewrite id r [] = []
rewrite id r (p ∷ ps) = (if p.id == id then merged p r else p) ∷ rewrite id r ps

abbrev memory : Provider
memory = record {
  State = List Record;
  list_records = λ s. s;
  add_record = λ r s. (some (suc (max_id s)), record r { id = suc (max_id s) } ∷ s);
  update_record = λ id r s. (true, rewrite id r s);
  delete_record = λ id s. (true, without id s);
}

cons_iff : (q r : Record) (rs : List Record) → In q (r ∷ rs) ↔ (In q rs ⊎ (q ≡ r))
cons_iff q r rs = (λ i. to i, λ h. from h)
  where
    to : In q (r ∷ rs) → In q rs ⊎ (q ≡ r)
    to (first e) = inr e
    to (later i) = inl i

    from : In q rs ⊎ (q ≡ r) → In q (r ∷ rs)
    from (inl i) = later i
    from (inr e) = first e

without_iff :
    (id : ℕ) (q : Record) (rs : List Record) → In q (without id rs) ↔ (In q rs × (q.id ≢ id))
without_iff id q rs = (
  λ i.
      let (j, h) = (In-keep (λ (q : Record). not (q.id == id)) rs).0 i in
      (j, λ e. ground (arith, h, e)),
  λ h. (In-keep (λ (q : Record). not (q.id == id)) rs).1 (h.0, let ne = h.1 in ground (arith, ne)),
)

abbrev Rewritten : ℕ → Record → List Record → Record → Type 0
Rewritten id r rs q =
    (In q rs × (q.id ≢ id)) ⊎ ((old : Record) × In old rs × (old.id ≡ id) × (q ≡ merged old r))

rewrite_later :
    (id : ℕ) (r p q : Record) (ps : List Record) → Rewritten id r ps q → Rewritten id r (p ∷ ps) q
rewrite_later id r p q ps (inl (i, ne)) = inl (later i, ne)
rewrite_later id r p q ps (inr (old, i, e, f)) = inr (old, later i, e, f)

rewrite_first :
    (id : ℕ) (r p q : Record) (ps : List Record)
    → q ≡ (if p.id == id then merged p r else p)
    → Rewritten id r (p ∷ ps) q
rewrite_first id r p q ps e = elim (Bool-cases (p.id == id)) [
  | inl hit ↦ inr (p, first refl, (==_iff p.id id).0 hit, rw hit at e)
  | inr miss ↦
      let same : q ≡ p = rw miss at e in
      inl (
        first same,
        λ at. cc (miss, (==_iff p.id id).1 (sym (ap (λ (x : Record). x.id) same) ∙ at)),
      )
]

rewrite-In :
    (id : ℕ) (r q : Record) (rs : List Record) → In q (rewrite id r rs) → Rewritten id r rs q
rewrite-In id r q [] i = elim i [ ]
rewrite-In id r q (p ∷ ps) (first e) = rewrite_first id r p q ps e
rewrite-In id r q (p ∷ ps) (later i) = rewrite_later id r p q ps (rewrite-In id r q ps i)

In-rewrite :
    (id : ℕ) (r q : Record) (rs : List Record) → Rewritten id r rs q → In q (rewrite id r rs)
In-rewrite id r q [] (inl (i, ne)) = elim i [ ]
In-rewrite id r q [] (inr (old, i, e, f)) = elim i [ ]
In-rewrite id r q (p ∷ ps) (inl (later i, ne)) = later (In-rewrite id r q ps (inl (i, ne)))
In-rewrite id r q (p ∷ ps) (inr (old, later i, e, f)) =
    later (In-rewrite id r q ps (inr (old, i, e, f)))
In-rewrite id r q (p ∷ ps) (inl (first e, ne)) = first (elim (Bool-cases (p.id == id)) [
  | inl hit ↦ absurd (ne (ap (λ (x : Record). x.id) e ∙ (==_iff p.id id).0 hit))
  | inr miss ↦ rw miss e
])
In-rewrite id r q (p ∷ ps) (inr (old, first g, e, f)) =
    let at : (p.id == id) ≡ true = (==_iff p.id id).1 (sym (ap (λ (x : Record). x.id) g) ∙ e) in
    first (rw at (f ∙ ap (λ (x : Record). merged x r) g))

In-max_id : (q : Record) (rs : List Record) → In q rs → q.id ≤ max_id rs
In-max_id q [] i = elim i [ ]
In-max_id q (r ∷ rs) (first e) = omega (arith, ap (λ (x : Record). x.id) e)
In-max_id q (r ∷ rs) (later i) = omega (arith, In-max_id q rs i)

memory-Law : Law memory
memory-Law = record {
  added = λ r s id t h sent. (
    r.priority,
    r.monitor_status,
    λ q.
        let e : record r { id = suc (max_id s) } ∷ s ≡ t = ap (λ x. x.1) h in
        let p : some (suc (max_id s)) ≡ some id = ap (λ x. x.0) h in
        let n : suc (max_id s) ≡ id = cc in
        subst (λ (l : List Record). In q l ↔ (In q s ⊎ (q ≡ record r { id = id }))) e
          (subst
            (λ k.
              In q (record r { id = suc (max_id s) } ∷ s) ↔ (In q s ⊎ (q ≡ record r { id = k })))
            n (cons_iff q _ s)),
  );
  added_fresh = λ r s id t h q i same.
      let p : some (suc (max_id s)) ≡ some id = ap (λ x. x.0) h in
      let n : suc (max_id s) ≡ id = cc in omega (arith, In-max_id q s i, n, same);
  updated = λ id r s t h q.
      let e : rewrite id r s ≡ t = ap (λ x. x.1) h in
      subst (λ (l : List Record). In q l ↔ Rewritten id r s q) e
        (rewrite-In id r q s, In-rewrite id r q s);
  deleted = λ id s t h q.
      let e : without id s ≡ t = ap (λ x. x.1) h in
      subst (λ (l : List Record). In q l ↔ (In q s × (q.id ≢ id))) e (without_iff id q s);
}

abbrev edge : Bytes → Endpoint
edge id = record {
  edge_id = id;
  region = codes "EU";
  ip = id;
  status = codes "online";
  last_seen = some 90;
  weight = pos 100;
  routing_override = [];
  capacity_mbps = pos 1;
  weight_by_capacity = true;
  load_factor = pos 1_000_000;
  health = [];
  drained = false;
}

abbrev opts : DiffOpts
opts = record {
  routing_name = codes "cdn";
  ttl = pos 30;
  stale_after = 30;
  mode = none;
  monitor_type = pos 0;
  now = 100;
}

abbrev listed : ℕ → Bytes → Record
listed id comment = record {
  id = id;
  type = pos 0;
  ttl = pos 30;
  value = codes "old";
  name = codes "cdn";
  weight = pos 100;
  priority = pos 0;
  disabled = false;
  comment = comment;
  smart_routing_type = pos 0;
  latency_zone = [];
  monitor_type = pos 0;
  monitor_status = pos 0;
  geo_latitude = pos 0;
  geo_longitude = pos 0;
}

abbrev fleet : List Endpoint
fleet = edge (codes "de") ∷ edge (codes "at") ∷ []

abbrev zone : List Record
zone = listed 1 (codes "brisk:server:de") ∷ listed 2 (codes "brisk:server:gone") ∷ []

fleet_distinct : Distinct fleet
unfolding str_eq
fleet_distinct = ((refl, tt), (tt, tt))

two_records {ℓ} :
    {A : Type ℓ} (f : Record → A)
    → f (listed 1 (codes "brisk:server:de")) ≢ f (listed 2 (codes "brisk:server:gone"))
    → (q p : Record) → In q zone
    → In p zone
    → f q ≡ f p
    → q ≡ p
two_records f differ q p (first e) (first g) same = e ∙ sym g
two_records f differ q p (first e) (later (first g)) same =
    absurd (differ (sym (ap f e) ∙ (same ∙ ap f g)))
two_records f differ q p (later (first e)) (first g) same =
    absurd (differ (sym (ap f g) ∙ (sym same ∙ ap f e)))
two_records f differ q p (later (first e)) (later (first g)) same = e ∙ sym g
two_records f differ q p i (later (later j)) same = elim j [ ]
two_records f differ q p (later (later i)) j same = elim i [ ]

differ_tags :
    edge_id_from_comment (codes "brisk:server:de")
    ≢ edge_id_from_comment (codes "brisk:server:gone")
unfolding edge_id_from_comment strip
differ_tags e = cc

ids : (q p : Record) → In q zone → In p zone → q.id ≡ p.id → q ≡ p
ids = two_records (λ (r : Record). r.id) (λ e. omega (arith, e))

applies : (apply memory (diff [] opts fleet zone) zone).succeeded ≡ true
unfolding apply diff str_eq lookup strip insert erase merged
applies = refl

ttl_set : opts.ttl ≢ pos 0
ttl_set e = let k : 30 ≡ 0 = ap pos_part e in omega (arith, k)

diff-apply_example : diff [] opts fleet (apply memory (diff [] opts fleet zone) zone).state ≡ []
diff-apply_example =
    diff-apply memory memory-Law [] opts fleet fleet_distinct ttl_set zone ids
      (λ q p i j tagged same.
        two_records (λ (r : Record). edge_id_from_comment r.comment) differ_tags q p i j same)
      applies
