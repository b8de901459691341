-- ===== src/CustomDomains/Retry.antt =====
-- Two failing orders by CheckNow of brisk-control/internal/customdomains/manager.go: proofs.
use brisk.Prelude.{arith}
use brisk.Prelude.{
  ℕ, ◌+◌, ◌*◌, Bytes, codes, ◌≡◌, refl, ◌∙◌, ap, none, some, Bool, true, false, [], ◌∷◌, ◌++◌,
}
use brisk.CustomDomains.{verifying, issuing, failed, CustomDomain, ZoneRow, failure, Net, World}
use brisk.CustomDomains.Store.{
  update_domain, find_domain, find_zone, exec, exec_domain, query, get_zone, list_servers,
  get_custom_domain, with_status, verified_at, failed_with,
}
use brisk.CustomDomains.Store.Calls.{find-update_domain}
use brisk.CustomDomains.Verify.{verify}
use brisk.CustomDomains.Backoff.{backoff_lem}
use brisk.CustomDomains.Manager.{
  minute, backoff, issue_backoff_base, issue_backoff_max, known_ips, expectations, issue,
  issue_verified, verify_then_issue, is_live, process, check_now,
}

-- the world with no failure to come
abbrev pub calm : World → World
calm w = record w { faults = [] }

-- a row after an order that failed at this time with this text
abbrev pub gave_up : ℕ → Bytes → CustomDomain → CustomDomain
gave_up now text d = record d {
  status = failed;
  last_error = codes "issuance failed: " ++ text;
  attempt_count = 1;
  last_verified_at = some now;
  next_attempt_at = some (now + backoff issue_backoff_base issue_backoff_max d.attempt_count);
  updated_at = now;
}

-- what such a pass leaves
abbrev pub after_failure : ℕ → Bytes → CustomDomain → World → World
after_failure now text d w = record w {
  domains =
      update_domain d.id
        (failed_with now failed (codes "issuance failed: " ++ text)
          (now + backoff issue_backoff_base issue_backoff_max d.attempt_count))
        (update_domain d.id (with_status now issuing []) (
          update_domain d.id (verified_at now)
            (update_domain d.id (with_status now verifying d.last_error) w.domains)));
  faults = [];
  orders = d.domain ∷ w.orders;
}

module _ (net : Net) (staging : Bool) (now : ℕ) (d : CustomDomain) (w : World) {z : ZoneRow}
    {text : Bytes} (found : find_domain d.id w.domains ≡ some d)
    (zone : find_zone d.zone_id w.zones ≡ some z)
    (passes : (verify net d.domain (z.cdn_hostname ∷ []) (known_ips w.server_ips)).passed ≡ true)
    (fails : net.obtain_http01 d.domain none ≡ failure text)
    (other : is_live d.status ≡ false) where
  process_fails : process net staging now d (calm w) ≡ after_failure now text d w
  unfolding process verify_then_issue expectations get_zone list_servers query issue_verified issue
      exec_domain exec
  process_fails = rw (other, zone, passes, fails) refl

  find-after_failure :
      find_domain d.id (after_failure now text d w).domains ≡ some (gave_up now text d)
  find-after_failure =
      find-update_domain d.id _ (λ d. refl) _
        (find-update_domain d.id _ (λ d. refl) _
          (find-update_domain d.id _ (λ d. refl) _
            (find-update_domain d.id _ (λ d. refl) w.domains found)))

  check_now_fails :
      check_now net staging now d.id (calm w)
      ≡ (some (gave_up now text d), after_failure now text d w)
  unfolding check_now get_custom_domain query
  check_now_fails =
      rw (found, process_fails) (ap (λ o. (o, after_failure now text d w)) find-after_failure)

module _ (staging : Bool) (net later_net : Net) (now later_now : ℕ) (d : CustomDomain) (w : World)
    {z : ZoneRow} {text later_text : Bytes} (found : find_domain d.id w.domains ≡ some d)
    (zone : find_zone d.zone_id w.zones ≡ some z)
    (passes : (verify net d.domain (z.cdn_hostname ∷ []) (known_ips w.server_ips)).passed ≡ true)
    (fails : net.obtain_http01 d.domain none ≡ failure text)
    (later_passes : (verify later_net d.domain
        (z.cdn_hostname ∷ [])
        (known_ips w.server_ips)).passed
      ≡ true)
    (later_fails : later_net.obtain_http01 d.domain none ≡ failure later_text)
    (other : is_live d.status ≡ false) where
  -- For a domain that is not live, has its zone and points to Brisk, and where no database call
  -- fails: after two orders of a certificate that fail, each by CheckNow, the row is failed with an
  -- attempt count of 1, and the next attempt is 40 minutes after the second, whatever the count was
  -- before.
  pub check_now-check_now :
      (r : CustomDomain) × ((check_now later_net staging later_now d.id
          (check_now net staging now d.id (calm w)).1).0
        ≡ some r)
      × ((r.status ≡ failed)
          × ((r.attempt_count ≡ 1) × (r.next_attempt_at ≡ some (later_now + 40 * minute))))
  check_now-check_now =
      let first_row = gave_up now text d in
      let first_world = after_failure now text d w in
      (
        gave_up later_now later_text first_row,
        ap (λ r. (check_now later_net staging later_now d.id r.1).0)
              (check_now_fails net staging now d w found zone passes fails other)
            ∙ ap (λ r. r.0)
                (check_now_fails later_net staging later_now first_row first_world
                  (find-after_failure net staging now d w found zone passes fails other) zone
                  later_passes later_fails refl),
        (
          refl,
          (
            refl,
            ap (λ k. some (later_now + k))
                (backoff_lem issue_backoff_max (omega arith) issue_backoff_base 1 (omega arith)),
          ),
        ),
      )
