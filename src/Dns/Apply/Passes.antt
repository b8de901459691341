-- ===== src/Dns/Apply/Passes.antt =====
-- Runs of Apply that end without an error, and the removals at the end of a plan: proofs.
use brisk.Prelude.{
  ℕ, ◌≡◌, ◌≢◌, ◌↔◌, refl, sym, ◌∙◌, ap, Bytes, Option, none, some, Bool, true, false, ◌||◌, List,
  [], ◌∷◌, Assoc, In, first, later, Bool-cases, inl, inr,
}
use brisk.Dns.{Endpoint, Record}
use brisk.Dns.Region.{RegionLoc}
use brisk.Dns.Diff.{
  DiffOpts, Index, Kind, add, enable, disable, update, remove, Action, change_kind, content_changed,
  disabled_changed, write_action, removals,
}
use brisk.Dns.Apply.{Provider, Applied, Law, Lists, apply, apply_one, after_write, after_add}
use brisk.Dns.Apply.Index.{lookup-In, tag_of}
use brisk.Dns.Apply.Steps.{Inv, FitsHere}

-- update, enable or disable
abbrev is_write : Kind → Bool
is_write add = false
is_write enable = true
is_write disable = true
is_write update = true
is_write remove = false

pub change_kind-is_write :
    (b : Bool) (e d : Record) {k : Kind} → change_kind b e d ≡ some k → is_write k ≡ true
unfolding change_kind
change_kind-is_write b e d {k} h = elim (Bool-cases (b || content_changed e d)) [
  | inl changed ↦
      let p : some update ≡ some k = rw changed at h in
      let q : update ≡ k = cc in ap is_write (sym q)
  | inr same ↦ elim (Bool-cases (disabled_changed e d)) [
    | inl flips ↦ elim (Bool-cases d.disabled) [
      | inl off ↦
          let p : some disable ≡ some k = rw (same, flips, off) at h in
          let q : disable ≡ k = cc in ap is_write (sym q)
      | inr on ↦
          let p : some enable ≡ some k = rw (same, flips, on) at h in
          let q : enable ≡ k = cc in ap is_write (sym q)
    ]
    | inr stays ↦ let p : none ≡ some k = rw (same, stays) at h in cc
  ]
]

module _ (P : Provider) (law : Law P) where
  module _ (Goal : P.State → Type 0) where
    -- a run without an error ends in the goal
    abbrev pub Ends : Applied P → Type 0
    Ends r = r.succeeded ≡ true → Goal r.state

    pub after_write-Ends :
        (a : Action) (r : Bool × P.State) (rest : P.State → Applied P)
        → ((t : P.State) → r ≡ (true, t) → Ends (rest t))
        → Ends (after_write P a r rest)
    after_write-Ends a (false, t) rest k h = absurd cc
    after_write-Ends a (true, t) rest k h = k t refl h

    pub after_add-Ends :
        (a : Action) (r : Option ℕ × P.State) (rest : P.State → Applied P)
        → ((n : ℕ) (t : P.State) → r ≡ (some n, t) → Ends (rest t))
        → Ends (after_add P a r rest)
    after_add-Ends a (none, t) rest k h = absurd cc
    after_add-Ends a (some n, t) rest k h = k n t refl h

    pub apply_one-Ends :
        (kind : Kind)
        → is_write kind ≡ true
        → (id : Bytes) (e d : Record) (s : P.State) (rest : P.State → Applied P)
        → ((t : P.State)
            → P.update_record e.id (record d { id = e.id }) s ≡ (true, t)
            → Ends (rest t))
        → Ends (apply_one P kind (write_action kind id e d) s rest)
    apply_one-Ends add w id e d s rest k = cc
    apply_one-Ends enable w id e d s rest k = after_write-Ends _ _ rest k
    apply_one-Ends disable w id e d s rest k = after_write-Ends _ _ rest k
    apply_one-Ends update w id e d s rest k = after_write-Ends _ _ rest k
    apply_one-Ends remove w id e d s rest k = cc

  -- the removals take off the list exactly the records with the ids of the entries
  abbrev Removed : P.State → Assoc Record → P.State → Type 0
  Removed s m t =
      (q : Record)
      → Lists P t q ↔ (Lists P s q × ((k : Bytes) (r : Record) → In (k, r) m → q.id ≢ r.id))

  removals-Removed : (m : Assoc Record) (s : P.State) → Ends (Removed s m) (apply P (removals m) s)
  unfolding removals apply
  removals-Removed [] s = λ h q. (λ i. (i, λ k r j. elim j [ ]), λ i. i.0)
  removals-Removed ((k, r) ∷ m) s =
      after_write-Ends (Removed s ((k, r) ∷ m)) _ (P.delete_record r.id s) _ (λ t done h. λ q.
        let gone = law.deleted r.id s t done q in
        let rest = removals-Removed m t h q in
        (
          λ i.
              let (j, others) = rest.0 i in
              let (was, ne) = gone.0 j in (was, λ l p x. from q ne others l p x),
          λ i. rest.1 (gone.1 (i.0, i.1 k r (first refl)), λ l p x. i.1 l p (later x)),
        ))
    where
      from :
          (q : Record)
          → q.id ≢ r.id
          → ((l : Bytes) (p : Record) → In (l, p) m → q.id ≢ p.id)
          → (l : Bytes) (p : Record) → In (l, p) ((k, r) ∷ m)
          → q.id ≢ p.id
      from q ne others l p (first e) same = ne (same ∙ ap (λ (x : Bytes × Record). x.1.id) e)
      from q ne others l p (later x) same = others l p x same

  module _ (region_map : Assoc RegionLoc) (o : DiffOpts) (rot : Assoc Bool) (cap : ℕ) where
    abbrev pub Here : P.State → Index → List Endpoint → Type 0
    Here s = Inv region_map o rot cap (Lists P s)

    -- the tagged records are exactly those of the edges, and they fit
    pub record Final (D : Endpoint → Type 0) (t : P.State) : Type 0 where
      pub covered :
          (q : Record)
          → Lists P t q
          → tag_of q ≢ []
          → (ep : Endpoint) × D ep × FitsHere region_map o rot cap ep q
      pub held :
          (ep : Endpoint) → D ep → (q : Record) × Lists P t q × FitsHere region_map o rot cap ep q

    pub removals-Final :
        (s : P.State) (ix : Index) (done : List Endpoint)
        → Here s ix done
        → Ends (Final (λ ep. In ep done)) (apply P (removals ix.managed) s)
    removals-Final s ix done inv h =
        let gone = removals-Removed ix.managed s h in
        record {
          covered = λ q i t.
              let (was, others) = (gone q).0 i in
              elim (inv.tagged q was t) [
                | inl fits ↦ fits
                | inr still ↦ absurd (others (tag_of q) q (lookup-In ix.managed still) refl)
              ];
          held = λ ep i.
              let (q, was, fits) = inv.present ep i in
              (
                q,
                (gone q).1 (
                  was,
                  λ k r j same.
                      let (listed, (at, named)) = inv.entries.managed_entry k r j in
                      inv.separate ep k r i j
                        (sym at ∙ (ap tag_of (sym (inv.unique q r was listed same)) ∙ fits.0)),
                ),
                fits,
              );
        }
