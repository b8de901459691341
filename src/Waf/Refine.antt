-- ===== src/Waf/Refine.antt =====
-- The buffer of brisk-agent/waf/server.go and a queue without a bound: proofs.
use brisk.Prelude.{
  ℕ, zero, suc, min, ◌-◌, ◌<◌, ◌≡◌, refl, sym, ◌∙◌, ap, Option, none, some, Bool, true, false, List,
  [], ◌∷◌, ◌++◌, length, arith,
}
use brisk.Waf.Buffer.{drop, Event, EventBuffer, bounded, add_event, take_batch, end_flush}
use brisk.Waf.Bounds.{drop_at, drop_nil, bounded-eq-drop, length-bounded, bounded-append}

-- What the agent does with the buffer: it records an event, starts a flush, and ends it with the
-- batch shipped or put back. One flush runs at a time, and only of a buffer that is not empty.
pub data Op : Type 0 where
  record_event : Event → Op
  start_flush : Op
  finish_flush : Bool → Op

pub record Shipper : Type 0 where
  pub buffer : EventBuffer
  pub batch : Option (List Event)

abbrev pub started : EventBuffer → List Event → Shipper
started b [] = record { buffer = b; batch = none }
started b (ev ∷ evs) = record { buffer = (take_batch b).1; batch = some (take_batch b).0 }

unfoldable pub run_op : Op → EventBuffer → Option (List Event) → Shipper
unfolding add_event take_batch end_flush
run_op (record_event ev) b batch = record { buffer = add_event ev b; batch = batch }
run_op start_flush b none = started b b.buf
run_op start_flush b (some batch) = record { buffer = b; batch = some batch }
run_op (finish_flush shipped) b none = record { buffer = b; batch = none }
run_op (finish_flush shipped) b (some batch) = record {
  buffer = end_flush shipped batch b;
  batch = none;
}

unfoldable pub run_ops : List Op → Shipper → Shipper
unfolding run_op
run_ops [] s = s
run_ops (o ∷ os) s = run_ops os (run_op o s.buffer s.batch)

-- The specification: a queue without a bound, and what is on its way.
pub record Queue : Type 0 where
  pub waiting : List Event
  pub under_way : Option (List Event)

abbrev pub spec_start : List Event → Queue
spec_start [] = record { waiting = []; under_way = none }
spec_start (ev ∷ evs) = record { waiting = []; under_way = some (ev ∷ evs) }

unfoldable pub spec_op : Op → List Event → Option (List Event) → Queue
spec_op (record_event ev) q w = record { waiting = q ++ (ev ∷ []); under_way = w }
spec_op start_flush q none = spec_start q
spec_op start_flush q (some w) = record { waiting = q; under_way = some w }
spec_op (finish_flush shipped) q none = record { waiting = q; under_way = none }
spec_op (finish_flush true) q (some w) = record { waiting = q; under_way = none }
spec_op (finish_flush false) q (some w) = record { waiting = w ++ q; under_way = none }

unfoldable pub spec_ops : List Op → Queue → Queue
unfolding spec_op
spec_ops [] q = q
spec_ops (o ∷ os) q = spec_ops os (spec_op o q.waiting q.under_way)

abbrev bounded_batch : ℕ → Option (List Event) → Option (List Event)
bounded_batch m none = none
bounded_batch m (some w) = some (bounded m w)

-- the buffer that the queue is seen as
abbrev pub view : ℕ → Queue → Shipper
view m q = record {
  buffer = record { buf = bounded m q.waiting; max = m };
  batch = bounded_batch m q.under_way;
}

module _ (m : ℕ) (pos : 0 < m) where
  bounded_one : (ev : Event) → bounded m (ev ∷ []) ≡ ev ∷ []
  bounded_one ev = bounded-eq-drop m (ev ∷ []) ∙ drop_at (1 - m) 0 (ev ∷ []) (omega arith)

  view_add :
      (q : List Event) (ev : Event)
      → bounded m (bounded m q ++ (ev ∷ [])) ≡ bounded m (q ++ (ev ∷ []))
  view_add q ev =
      ap (λ (zs : List Event). bounded m (bounded m q ++ zs)) (sym (bounded_one ev))
      ∙ bounded-append m q (ev ∷ [])

  started_nonempty :
      (l : List Event)
      → 0 < length l
      → started (record { buf = l; max = m }) l
        ≡ record { buffer = record { buf = []; max = m }; batch = some l }
  unfolding take_batch
  started_nonempty [] h = elim h [ ]
  started_nonempty (ev ∷ l) h = refl

  bounded_nil : bounded m [] ≡ []
  bounded_nil = bounded-eq-drop m [] ∙ drop_nil (0 - m)

  view_start :
      (q : List Event)
      → started (record { buf = bounded m q; max = m }) (bounded m q) ≡ view m (spec_start q)
  view_start [] =
      ap (λ (l : List Event). started (record { buf = l; max = m }) l) bounded_nil
      ∙ ap (λ (l : List Event). record { buffer = record { buf = l; max = m }; batch = none })
          (sym bounded_nil)
  view_start (ev ∷ q) =
      started_nonempty (bounded m (ev ∷ q)) (omega (arith, pos, length-bounded m (ev ∷ q)))
      ∙ ap
          (λ (l : List Event). record {
            buffer = record { buf = l; max = m };
            batch = some (bounded m (ev ∷ q));
          })
          (sym bounded_nil)

  abbrev buffer_of : List Event → EventBuffer
  buffer_of buf = record { buf = buf; max = m }

  view_op :
      (o : Op) (q : List Event) (w : Option (List Event))
      → run_op o (buffer_of (bounded m q)) (bounded_batch m w) ≡ view m (spec_op o q w)
  unfolding run_op spec_op
  view_op (record_event ev) q w =
      ap (λ (l : List Event). record { buffer = buffer_of l; batch = bounded_batch m w })
        (view_add q ev)
  view_op start_flush q none = view_start q
  view_op start_flush q (some w) = refl
  view_op (finish_flush shipped) q none = refl
  view_op (finish_flush true) q (some w) = refl
  view_op (finish_flush false) q (some w) =
      ap (λ (l : List Event). record { buffer = buffer_of l; batch = none }) (bounded-append m w q)

  view_ops : (os : List Op) (q : Queue) → run_ops os (view m q) ≡ view m (spec_ops os q)
  unfolding run_ops spec_ops
  view_ops [] q = refl
  view_ops (o ∷ os) q =
      ap (run_ops os) (view_op o q.waiting q.under_way)
      ∙ view_ops os (spec_op o q.waiting q.under_way)

  abbrev pub idle : Shipper
  idle = record { buffer = buffer_of []; batch = none }

  split_at : (n : ℕ) (xs : List Event) → (old : List Event) × (xs ≡ old ++ drop n xs)
  split_at zero xs = ([], refl)
  split_at (suc n) [] = ([], refl)
  split_at (suc n) (x ∷ xs) =
      let (old, e) = split_at n xs in (x ∷ old, ap (λ (l : List Event). x ∷ l) e)

  -- For a positive bound and any sequence of recorded events, started flushes and flushes that end
  -- with success or failure, on a buffer that is empty at first: an unbounded queue that puts a
  -- failed batch back in front holds some older events followed by exactly what the buffer holds,
  -- which is as many events as the queue has, or the bound if that is less.
  pub run_ops-spec_ops :
      (os : List Op)
      → let kept = (run_ops os idle).buffer.buf in
        let queued = (spec_ops os (record { waiting = []; under_way = none })).waiting in
        ((old : List Event) × (queued ≡ old ++ kept)) × (length kept ≡ min (length queued) m)
  run_ops-spec_ops os =
      let q = spec_ops os (record { waiting = []; under_way = none }) in
      let e : run_ops os idle ≡ view m q =
        ap (λ (l : List Event). run_ops os (record { buffer = buffer_of l; batch = none }))
          (sym bounded_nil)
        ∙ view_ops os (record { waiting = []; under_way = none }) in
      let f = ap (λ (s : Shipper). s.buffer.buf) e in
      let (old, parts) = split_at (length q.waiting - m) q.waiting in
      (
        (old, parts ∙ ap (λ (l : List Event). old ++ l) (sym (f ∙ bounded-eq-drop m q.waiting))),
        ap length f ∙ length-bounded m q.waiting,
      )
