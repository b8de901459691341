-- ===== src/CustomDomains/Renewal.antt =====
-- The pass of brisk-control/internal/customdomains/manager.go over a domain that is being served.
use brisk.Prelude.{
  ℕ, Bytes, trim_space, ◌≡◌, refl, sym, ◌∙◌, ap, subst, Option, none, some, Bool, true, false, List,
  ◌∷◌, Bool-cases, inl, inr, lookup, insert, lookup-insert, str_eq_refl, arith,
}
use brisk.CustomDomains.{
  CustomDomain, TlsCert, ZoneRow, Leaf, Bundle, Answer, answer, failure, Net, World,
}
use brisk.CustomDomains.Store.{
  next_fault, called, exec_domain, find_domain, activated, set_active, bump_zone, exec, query,
  get_zone, list_servers, get_tls_cert,
}
use brisk.CustomDomains.Store.Calls.{find-update_domain, exec_domain_cases, upsert_cases}
use brisk.CustomDomains.Verify.{Result, nonempty}
use brisk.CustomDomains.Manager.{
  cert_name, expectations, issue, store_cert, stored, new_cert, is_live, left_alone, renew_with,
  with_zone, with_servers, renew_expecting, after_reverify, after_renewal, replaces, process,
  maybe_renew, renew_verified,
}

abbrev has_cert : Option TlsCert → Bool
has_cert none = false
has_cert (some c) = true

-- the row of the domain is live, and the certificate that it names is stored
abbrev pub Serves : ℕ → Bytes → World → Type 0
Serves id domain w =
    (r : CustomDomain) × (find_domain id w.domains ≡ some r)
    × ((is_live r.status ≡ true)
        × ((r.domain ≡ domain) × (has_cert (lookup (cert_name r) w.certs) ≡ true)))

insert_has :
    (k : Bytes) (c : TlsCert) (name : Bytes) (certs : _)
    → has_cert (lookup name certs) ≡ true
    → has_cert (lookup name (insert k c certs)) ≡ true
insert_has k c name certs h = rw lookup-insert (ground (arith, h))

insert_here : (k : Bytes) (c : TlsCert) (certs : _) → has_cert (lookup k (insert k c certs)) ≡ true
insert_here k c certs = rw (lookup-insert, str_eq_refl k) refl

module _ (id : ℕ) (domain : Bytes) where
  -- a write that keeps the id and the domain, leaves a live status and names a stored certificate
  exec_domain-Serves :
      (f : CustomDomain → CustomDomain) (w : World)
      → ((d : CustomDomain) → (f d).id ≡ d.id)
      → ((d : CustomDomain) → is_live (f d).status ≡ true)
      → ((d : CustomDomain) → (f d).domain ≡ d.domain)
      → ((d : CustomDomain)
          → d.domain ≡ domain
          → has_cert (lookup (cert_name d) w.certs) ≡ true
          → has_cert (lookup (cert_name (f d)) w.certs) ≡ true)
      → Serves id domain w
      → Serves id domain (exec_domain id f w)
  exec_domain-Serves f w same lives dom names (r, found, (live, (is_domain, has))) =
      elim (exec_domain_cases id f w) [
        | inl e ↦ subst (Serves id domain) (sym e) (r, found, (live, (is_domain, has)))
        | inr e ↦ subst (Serves id domain) (sym e) (
          f r,
          find-update_domain id f same w.domains found,
          (lives r, (dom r ∙ is_domain, names r is_domain has)),
        )
      ]

  set_active-Serves :
      (now : ℕ) (w : World)
      → has_cert (lookup domain w.certs) ≡ true
      → Serves id domain w
      → Serves id domain (set_active now id domain w)
  set_active-Serves now w here =
      exec_domain-Serves (activated now domain) w (λ d. refl) (λ d. refl) (λ d. refl)
        (λ d is_domain has. elim (Bool-cases (nonempty (trim_space domain))) [
          | inl named ↦ rw named here
          | inr blank ↦ rw (blank, is_domain) here
        ])

  kept :
      (w v : World)
      → v.domains ≡ w.domains
      → v.certs ≡ w.certs
      → Serves id domain w
      → Serves id domain v
  kept w v same_domains same_certs (r, found, (live, (is_domain, has))) = (
    r,
    ap (find_domain id) same_domains ∙ found,
    (live, (is_domain, ap (λ (m : _). has_cert (lookup (cert_name r) m)) same_certs ∙ has)),
  )

  bump_zone-Serves :
      (zone : ℕ) (w : World) → Serves id domain w → Serves id domain (bump_zone zone w)
  unfolding bump_zone exec
  bump_zone-Serves zone w = kept w (bump_zone zone w) (ground arith) (ground arith)

  with_servers-Serves :
      (z : ZoneRow) (o : Option (List Bytes)) (w : World)
      → Serves id domain w
      → Serves id domain (with_servers z (o, w)).1
  with_servers-Serves z none w s = s
  with_servers-Serves z (some ips) w s = s

  with_zone-Serves :
      (o : Option ZoneRow) (w : World) → Serves id domain w → Serves id domain (with_zone (o, w)).1
  unfolding list_servers query
  with_zone-Serves none w s = s
  with_zone-Serves (some z) w s = with_servers-Serves z _ (called w) (kept w (called w) refl refl s)

  expectations-Serves :
      (d : CustomDomain) (w : World) → Serves id domain w → Serves id domain (expectations d w).1
  unfolding expectations get_zone query
  expectations-Serves d w s = with_zone-Serves _ (called w) (kept w (called w) refl refl s)

module _ (net : Net) (staging : Bool) (now id : ℕ) (domain : Bytes) where
  -- a pass goes on from here with the result of issue: without an error the certificate is stored
  abbrev Issued : Option Bytes × World → Type 0
  Issued r = Serves id domain r.1 × (r.0 ≡ none → has_cert (lookup domain r.1.certs) ≡ true)

  inserted-Serves :
      (c : TlsCert) (w : World)
      → Serves id domain w
      → Serves id domain (record (called w) { certs = insert c.name c w.certs })
  inserted-Serves c w (r, found, (live, (is_domain, has))) =
      (r, found, (live, (is_domain, insert_has c.name c (cert_name r) w.certs has)))

  store_cert-Issued :
      (ans : Answer Bundle) (w : World)
      → Serves id domain w
      → Issued (store_cert net staging now domain ans w)
  store_cert-Issued (failure text) w s = (s, λ h. cc)
  store_cert-Issued (answer b) w s = elim (upsert_cases (new_cert net staging now domain b) w) [
    | inl e ↦
        subst (λ r. Issued (stored net staging now r)) (sym e)
          (kept id domain w (called w) refl refl s, λ h. cc)
    | inr e ↦
        subst (λ r. Issued (stored net staging now r)) (sym e)
          (
            inserted-Serves (new_cert net staging now domain b) w s,
            λ h. insert_here domain _ w.certs,
          )
  ]

  issue-Issued :
      (prev : Option Leaf) (w : World)
      → Serves id domain w
      → Issued (issue net staging now domain prev w)
  unfolding issue
  issue-Issued prev w s =
      store_cert-Issued (net.obtain_http01 domain prev) _
        (kept id domain w (record w { orders = domain ∷ w.orders }) refl refl s)

module _ (net : Net) (staging : Bool) (now : ℕ) (d : CustomDomain) where
  abbrev Serving : World → Type 0
  Serving = Serves d.id d.domain

  after_renewal-Serves :
      (e : Option Bytes) (w : World)
      → Issued net staging now d.id d.domain (e, w)
      → Serving (after_renewal net staging now d (e, w))
  after_renewal-Serves (some text) w (s, has) =
      exec_domain-Serves d.id d.domain _ w (λ d. refl) (λ d. refl) (λ d. refl) (λ d e h. h) s
  after_renewal-Serves none w (s, has) =
      bump_zone-Serves d.id d.domain d.zone_id _
        (set_active-Serves d.id d.domain now w (has refl) s)

  renew_verified-Serves :
      (cur : TlsCert) (w : World) → Serving w → Serving (renew_verified net staging now d cur w)
  unfolding renew_verified
  renew_verified-Serves cur w s = after_renewal-Serves _ _ (
      issue-Issued net staging now d.id d.domain (replaces net staging now cur) _
        (exec_domain-Serves d.id d.domain _ w (λ d. refl) (λ d. refl) (λ d. refl) (λ d e h. h) s))

  after_reverify-Serves :
      (cur : TlsCert) (res : Result) (w : World)
      → Serving w
      → Serving (after_reverify net staging now d cur res w)
  after_reverify-Serves cur res w s = elim (Bool-cases res.passed) [
    | inl passed ↦ rw passed (renew_verified-Serves cur w s)
    | inr failed ↦
        rw failed
          (exec_domain-Serves d.id d.domain _ w (λ d. refl) (λ d. refl) (λ d. refl) (λ d e h. h) s)
  ]

  renew_expecting-Serves :
      (cur : TlsCert) (o : Option (List Bytes × List Bytes)) (w : World)
      → Serving w
      → Serving (renew_expecting net staging now d cur (o, w))
  renew_expecting-Serves cur none w s = s
  renew_expecting-Serves cur (some (cnames, ips)) w s = after_reverify-Serves cur _ w s

  renew_with-Serves :
      (cur : TlsCert) (w : World) → Serving w → Serving (renew_with net staging now d (some cur, w))
  renew_with-Serves cur w s = elim (Bool-cases (left_alone net staging now cur)) [
    | inl alone ↦ rw alone s
    | inr due ↦ rw due (renew_expecting-Serves cur _ _ (expectations-Serves d.id d.domain d w s))
  ]

  -- For a domain that is active or renewing, whose row is current, whose certificate is stored, and
  -- where the read of the certificate works: whatever else fails, the pass leaves its row active or
  -- renewing, and the certificate that the row then names is stored.
  pub process-Serves :
      (w : World) {cur : TlsCert}
      → is_live d.status ≡ true
      → find_domain d.id w.domains ≡ some d
      → lookup (cert_name d) w.certs ≡ some cur
      → next_fault w.faults ≡ false
      → Serves d.id d.domain (process net staging now d w)
  unfolding process maybe_renew get_tls_cert query
  process-Serves w {cur} live found has works =
      rw (live, works, has)
        (renew_with-Serves cur (called w) (d, found, (live, (refl, ap has_cert has))))
