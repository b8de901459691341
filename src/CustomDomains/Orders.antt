-- ===== src/CustomDomains/Orders.antt =====
-- Proofs about the orders that a pass of brisk-control/internal/customdomains/manager.go makes.
use brisk.Prelude.{
  ℕ, Bytes, ◌≡◌, refl, sym, ◌∙◌, ap, subst, ◌⊎◌, Option, none, some, Bool, true, false, List, [],
  ◌∷◌, if◌then◌else◌, Bool-cases, inl, inr, arith,
}
use brisk.CustomDomains.{
  CustomDomain, TlsCert, ZoneRow, Leaf, Bundle, Answer, answer, failure, Net, World,
}
use brisk.CustomDomains.Store.{
  next_fault, called, exec, exec_domain, bump_zone, query, find_zone, get_zone, list_servers,
  get_tls_cert,
}
use brisk.CustomDomains.Store.Calls.{exec_domain_cases, upsert_cases}
use brisk.CustomDomains.Verify.{Result, verify}
use brisk.CustomDomains.Points.{PointsHere, verify-Resolves}
use brisk.CustomDomains.Manager.{
  known_ips, expectations, with_zone, issue, store_cert, stored, new_cert, after_issue, go_live,
  issue_verified, after_verify, verify_expecting, verify_then_issue, is_live, left_alone,
  after_renewal, renew_verified, after_reverify, renew_expecting, renew_with, maybe_renew, process,
}

exec_domain-orders :
    (id : ℕ) (f : CustomDomain → CustomDomain) (w : World) → (exec_domain id f w).orders ≡ w.orders
exec_domain-orders id f w = elim (exec_domain_cases id f w) [
  | inl e ↦ ap (λ (v : World). v.orders) e
  | inr e ↦ ap (λ (v : World). v.orders) e
]

bump_zone-orders : (id : ℕ) (w : World) → (bump_zone id w).orders ≡ w.orders
unfolding bump_zone exec
bump_zone-orders id w = ground arith

-- what expectations returns, read from the tables, and that it orders nothing
abbrev Expects : CustomDomain → World → Option (List Bytes × List Bytes) × World → Type 0
Expects d w (none, v) = v.orders ≡ w.orders
Expects d w (some (cnames, ips), v) =
    (v.orders ≡ w.orders)
    × ((z : ZoneRow) × (find_zone d.zone_id w.zones ≡ some z)
        × ((cnames ≡ z.cdn_hostname ∷ []) × (ips ≡ known_ips w.server_ips)))

with_zone-Expects :
    (d : CustomDomain) (w v : World) (o : Option ZoneRow)
    → (o ≡ none) ⊎ (o ≡ find_zone d.zone_id w.zones)
    → v.orders ≡ w.orders
    → v.server_ips ≡ w.server_ips
    → Expects d w (with_zone (o, v))
unfolding list_servers query
with_zone-Expects d w v none found same ips = same
with_zone-Expects d w v (some z) found same ips = elim (Bool-cases (next_fault v.faults)) [
  | inl fails ↦ rw fails same
  | inr works ↦ rw works (same, (z, found_some found, (refl, ap known_ips ips)))
]
  where
    found_some :
        (some z ≡ none) ⊎ (some z ≡ find_zone d.zone_id w.zones)
        → find_zone d.zone_id w.zones ≡ some z
    found_some (inl e) = cc
    found_some (inr e) = sym e

expectations-Expects : (d : CustomDomain) (w : World) → Expects d w (expectations d w)
unfolding expectations get_zone query
expectations-Expects d w =
    with_zone-Expects d w (called w) _ (chosen (next_fault w.faults)) refl refl
  where
    chosen :
        (b : Bool)
        → ((if b then none else find_zone d.zone_id w.zones) ≡ none)
          ⊎ ((if b then none else find_zone d.zone_id w.zones) ≡ find_zone d.zone_id w.zones)
    chosen true = inl refl
    chosen false = inr refl

module _ (net : Net) (staging : Bool) (now : ℕ) (d : CustomDomain) where
  store_cert-orders :
      (ans : Answer Bundle) (w : World)
      → (store_cert net staging now d.domain ans w).1.orders ≡ w.orders
  store_cert-orders (failure text) w = refl
  store_cert-orders (answer b) w = elim (upsert_cases (new_cert net staging now d.domain b) w) [
    | inl e ↦ ap (λ r. (stored net staging now r).1.orders) e
    | inr e ↦ ap (λ r. (stored net staging now r).1.orders) e
  ]

  issue-orders :
      (prev : Option Leaf) (w : World)
      → (issue net staging now d.domain prev w).1.orders ≡ d.domain ∷ w.orders
  unfolding issue
  issue-orders prev w =
      store_cert-orders (net.obtain_http01 d.domain prev)
        (record w { orders = d.domain ∷ w.orders })

  go_live-orders : (w : World) → (go_live net staging now d w).orders ≡ w.orders
  go_live-orders w = bump_zone-orders d.zone_id _ ∙ exec_domain-orders d.id _ w

  after_issue-orders :
      (e : Option Bytes) (w : World) → (after_issue net staging now d (e, w)).orders ≡ w.orders
  after_issue-orders none w = go_live-orders w
  after_issue-orders (some text) w = exec_domain-orders d.id _ w

  after_renewal-orders :
      (e : Option Bytes) (w : World) → (after_renewal net staging now d (e, w)).orders ≡ w.orders
  after_renewal-orders none w = go_live-orders w
  after_renewal-orders (some text) w = exec_domain-orders d.id _ w

  issue_verified-orders :
      (w : World) → (issue_verified net staging now d w).orders ≡ d.domain ∷ w.orders
  unfolding issue_verified
  issue_verified-orders w =
      after_issue-orders _ _
      ∙ (issue-orders none _
          ∙ ap (λ l. d.domain ∷ l) (exec_domain-orders d.id _ _ ∙ exec_domain-orders d.id _ w))

  renew_verified-orders :
      (cur : TlsCert) (w : World)
      → (renew_verified net staging now d cur w).orders ≡ d.domain ∷ w.orders
  unfolding renew_verified
  renew_verified-orders cur w =
      after_renewal-orders _ _
      ∙ (issue-orders _ _ ∙ ap (λ l. d.domain ∷ l) (exec_domain-orders d.id _ w))

  after_verify-orders :
      (res : Result) (w : World)
      → (after_verify net staging now d res w).orders
        ≡ (if res.passed then d.domain ∷ w.orders else w.orders)
  after_verify-orders res w = elim (Bool-cases res.passed) [
    | inl passed ↦ rw passed (issue_verified-orders w)
    | inr missed ↦ rw missed (exec_domain-orders d.id _ w)
  ]

  after_reverify-orders :
      (cur : TlsCert) (res : Result) (w : World)
      → (after_reverify net staging now d cur res w).orders
        ≡ (if res.passed then d.domain ∷ w.orders else w.orders)
  after_reverify-orders cur res w = elim (Bool-cases res.passed) [
    | inl passed ↦ rw passed (renew_verified-orders cur w)
    | inr missed ↦ rw missed (exec_domain-orders d.id _ w)
  ]

  -- nothing was ordered, or one certificate, for this domain and with its DNS pointed here
  abbrev pub OrdersOnce : World → World → Type 0
  OrdersOnce w v = (v.orders ≡ w.orders) ⊎ ((v.orders ≡ d.domain ∷ w.orders) × PointsHere net d w)

  checked_once :
      (w : World) (after : List Bytes) (cnames ips : List Bytes)
      → Expects d w (some (cnames, ips), w)
      → after ≡ (if (verify net d.domain cnames ips).passed then d.domain ∷ w.orders else w.orders)
      → (after ≡ w.orders) ⊎ ((after ≡ d.domain ∷ w.orders) × PointsHere net d w)
  checked_once w after cnames ips (same, (z, found, (c, i))) h =
      elim (Bool-cases (verify net d.domain cnames ips).passed) [
        | inl passed ↦ inr (
          rw passed at h,
          (
            z,
            found,
            verify-Resolves net d.domain z.cdn_hostname w.server_ips (
                subst (λ l. (verify net d.domain l (known_ips w.server_ips)).passed ≡ true) c
                  (subst (λ l. (verify net d.domain cnames l).passed ≡ true) i passed)),
          ),
        )
        | inr missed ↦ inl (rw missed at h)
      ]

  verify_expecting_once :
      (w : World) (r : Option (List Bytes × List Bytes) × World)
      → Expects d w r
      → OrdersOnce w (verify_expecting net staging now d r)
  verify_expecting_once w (none, v) e = inl e
  verify_expecting_once w (some (cnames, ips), v) (same, more) =
      checked_once w _ cnames ips (refl, more)
        (after_verify-orders (verify net d.domain cnames ips) _
          ∙ ap (λ l. if (verify net d.domain cnames ips).passed then d.domain ∷ l else l)
              (exec_domain-orders d.id _ v ∙ same))

  renew_expecting_once :
      (cur : TlsCert) (w : World) (r : Option (List Bytes × List Bytes) × World)
      → Expects d w r
      → OrdersOnce w (renew_expecting net staging now d cur r)
  renew_expecting_once cur w (none, v) e = inl e
  renew_expecting_once cur w (some (cnames, ips), v) (same, more) =
      checked_once w _ cnames ips (refl, more)
        (after_reverify-orders cur (verify net d.domain cnames ips) v
          ∙ ap (λ l. if (verify net d.domain cnames ips).passed then d.domain ∷ l else l) same)

  verify_then_issue_once : (w : World) → OrdersOnce w (verify_then_issue net staging now d w)
  unfolding verify_then_issue
  verify_then_issue_once w = verify_expecting_once w (expectations d w) (expectations-Expects d w)

  renew_with_once :
      (o : Option TlsCert) (w : World) → OrdersOnce w (renew_with net staging now d (o, w))
  renew_with_once none w = verify_then_issue_once w
  renew_with_once (some cur) w = elim (Bool-cases (left_alone net staging now cur)) [
    | inl alone ↦ rw alone (inl refl)
    | inr due ↦ rw due (renew_expecting_once cur w (expectations d w) (expectations-Expects d w))
  ]

  -- One pass over a domain, whichever database calls fail, orders no certificate, or exactly one,
  -- for that domain; and in that case its zone is in the table and its name resolves to the
  -- hostname of the zone or to the address of a server.
  pub process-OrdersOnce : (w : World) → OrdersOnce w (process net staging now d w)
  unfolding process maybe_renew get_tls_cert query
  process-OrdersOnce w = elim (Bool-cases (is_live d.status)) [
    | inl live ↦ rw live (renew_with_once _ (called w))
    | inr other ↦ rw other (verify_then_issue_once w)
  ]
