-- ===== src/CustomDomains/Store/Calls.antt =====
-- Case lemmas about the calls of the store.
use brisk.Prelude.{
  ℕ, ◌⊎◌, ◌≡◌, ◌∙◌, refl, ap, some, true, false, List, [], ◌∷◌, ◌==◌, Bool-cases, inl, inr, insert,
}
use brisk.CustomDomains.{CustomDomain, TlsCert, World}
use brisk.CustomDomains.Store.{
  next_fault, called, exec, exec_domain, update_domain, find_domain, upsert_tls_cert,
}

pub find-update_domain :
    (id : ℕ) (f : CustomDomain → CustomDomain)
    → ((d : CustomDomain) → (f d).id ≡ d.id)
    → {r : CustomDomain} (ds : List CustomDomain) → find_domain id ds ≡ some r
    → find_domain id (update_domain id f ds) ≡ some (f r)
unfolding update_domain find_domain
find-update_domain id f same [] h = cc
find-update_domain id f same {r} (d ∷ ds) h = elim (Bool-cases (d.id == id)) [
  | inl here ↦
      let e : d ≡ r = (let k : some d ≡ some r = rw here at h in cc) in
      let there : ((f d).id == id) ≡ true = ap (λ (k : ℕ). k == id) (same d) ∙ here in
      rw (here, there) (ap (λ (x : CustomDomain). some (f x)) e)
  | inr other ↦ rw (other, other) (find-update_domain id f same ds (rw other at h))
]

pub exec_cases :
    (f : World → World) (w : World)
    → (exec f w ≡ (false, called w)) ⊎ (exec f w ≡ (true, f (called w)))
unfolding exec
exec_cases f w = elim (Bool-cases (next_fault w.faults)) [
  | inl fails ↦ inl (rw fails refl)
  | inr works ↦ inr (rw works refl)
]

pub exec_domain_cases :
    (id : ℕ) (f : CustomDomain → CustomDomain) (w : World)
    → (exec_domain id f w ≡ called w)
      ⊎ (exec_domain id f w ≡ record (called w) { domains = update_domain id f w.domains })
unfolding exec_domain
exec_domain_cases id f w =
    elim (exec_cases (λ w. record w { domains = update_domain id f w.domains }) w) [
      | inl e ↦ inl (ap (λ r. r.1) e)
      | inr e ↦ inr (ap (λ r. r.1) e)
    ]

pub upsert_cases :
    (c : TlsCert) (w : World)
    → (upsert_tls_cert c w ≡ (false, called w))
      ⊎ (upsert_tls_cert c w ≡ (true, record (called w) { certs = insert c.name c w.certs }))
unfolding upsert_tls_cert
upsert_cases c = exec_cases (λ w. record w { certs = insert c.name c w.certs })
