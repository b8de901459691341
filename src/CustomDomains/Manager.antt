-- ===== src/CustomDomains/Manager.antt =====
-- The manager of internal/customdomains/manager.go: one pass over a domain, and the scan. A pass
-- happens at one instant. What the code does with an error that it ignores is nothing.
use brisk.Prelude.{
  ℕ, zero, suc, ◌+◌, ◌*◌, ◌%◌, ◌^◌, Bytes, codes, str_eq, trim_space, Option, none, some, Bool,
  true, false, not, ◌&&◌, List, [], ◌∷◌, ◌++◌, if◌then◌else◌, ltb, map, keep,
}
use brisk.CustomDomains.{
  Status, pending_dns, verifying, issuing, active, renewing, failed, CustomDomain, TlsCert, ZoneRow,
  Leaf, Bundle, Answer, answer, failure, Net, World,
}
use brisk.CustomDomains.Store.{
  set_status, mark_verified, set_active, mark_failure, bump_zone, get_custom_domain, list_all,
  get_zone, list_servers, get_tls_cert, upsert_tls_cert,
}
use brisk.CustomDomains.Verify.{Result, nonempty, verify}

abbrev pub minute : ℕ
minute = 60_000_000_000

abbrev pub renew_margin : ℕ
renew_margin = 43_200 * minute

abbrev pub pending_backoff_base : ℕ
pending_backoff_base = 2 * minute

abbrev pub pending_backoff_max : ℕ
pending_backoff_max = 15 * minute

abbrev pub issue_backoff_base : ℕ
issue_backoff_base = 20 * minute

abbrev pub issue_backoff_max : ℕ
issue_backoff_max = 720 * minute

-- a < b on words of 64 bits with a sign
abbrev pub less : ℕ → ℕ → Bool
less a b = ltb ((a + 2 ^ 63) % 2 ^ 64) ((b + 2 ^ 63) % 2 ^ 64)

-- the loop, with n rounds left; a duration is a word of 64 bits
unfoldable pub doubled : ℕ → ℕ → ℕ → ℕ
doubled max d zero = d
doubled max d (suc n) = let rest = doubled max (d * 2 % 2 ^ 64) n in if less d max then rest else d

unfoldable pub backoff : ℕ → ℕ → ℕ → ℕ
unfolding doubled
backoff base max n = let d = doubled max base n in if less max d then max else d

abbrev pub cert_name : CustomDomain → Bytes
cert_name d = if nonempty (trim_space d.cert_name) then d.cert_name else d.domain

abbrev pub known_ips : List Bytes → List Bytes
known_ips ips = keep nonempty (map trim_space ips)

abbrev pub with_servers :
    ZoneRow → Option (List Bytes) × World → Option (List Bytes × List Bytes) × World
with_servers z (none, w) = (none, w)
with_servers z (some ips, w) = (some (z.cdn_hostname ∷ [], known_ips ips), w)

abbrev pub with_zone : Option ZoneRow × World → Option (List Bytes × List Bytes) × World
with_zone (none, w) = (none, w)
with_zone (some z, w) = with_servers z (list_servers w)

unfoldable pub expectations : CustomDomain → World → Option (List Bytes × List Bytes) × World
unfolding get_zone list_servers trim_space str_eq
expectations d w = with_zone (get_zone d.zone_id w)

abbrev pub is_live : Status → Bool
is_live active = true
is_live renewing = true
is_live pending_dns = false
is_live verifying = false
is_live issuing = false
is_live failed = false

abbrev pub leaf_issuer : Option Leaf → Bytes
leaf_issuer none = []
leaf_issuer (some l) = l.common_name

abbrev pub leaf_serial : Option Leaf → Bytes
leaf_serial none = []
leaf_serial (some l) = l.serial_number

abbrev pub leaf_time : (Leaf → ℕ) → Option Leaf → Option ℕ
leaf_time f none = none
leaf_time f (some l) = some (f l)

module _ (net : Net) (staging : Bool) (now : ℕ) where
  abbrev pub new_cert : Bytes → Bundle → TlsCert
  new_cert domain b = record {
    name = domain;
    domains = domain;
    full_chain = b.full_chain;
    priv_key = b.priv_key;
    issuer = leaf_issuer b.leaf;
    serial = leaf_serial b.leaf;
    staging = staging;
    not_before = leaf_time (λ (l : Leaf). l.not_before) b.leaf;
    not_after = leaf_time (λ (l : Leaf). l.not_after) b.leaf;
  }

  abbrev pub stored : Bool × World → Option Bytes × World
  stored (true, w) = (none, w)
  stored (false, w) = (some (codes "store cert: " ++ net.db_error), w)

  abbrev pub store_cert : Bytes → Answer Bundle → World → Option Bytes × World
  store_cert domain (failure text) w = (some text, w)
  store_cert domain (answer b) w = stored (upsert_tls_cert (new_cert domain b) w)

  -- issue: the text of its error, or none
  unfoldable pub issue : Bytes → Option Leaf → World → Option Bytes × World
  unfolding upsert_tls_cert
  issue domain prev w =
      store_cert domain (net.obtain_http01 domain prev) (record w { orders = domain ∷ w.orders })

  abbrev pub issue_gate : CustomDomain → ℕ
  issue_gate d = now + backoff issue_backoff_base issue_backoff_max d.attempt_count

  abbrev pub go_live : CustomDomain → World → World
  go_live d w = bump_zone d.zone_id (set_active now d.id d.domain w)

  abbrev pub after_issue : CustomDomain → Option Bytes × World → World
  after_issue d (some text, w) =
      mark_failure now d.id failed (codes "issuance failed: " ++ text) (issue_gate d) w
  after_issue d (none, w) = go_live d w

  unfoldable pub issue_verified : CustomDomain → World → World
  unfolding issue backoff bump_zone
  issue_verified d w =
      after_issue d
        (issue d.domain none (set_status now d.id issuing [] (mark_verified now d.id w)))

  abbrev pub after_verify : CustomDomain → Result → World → World
  after_verify d res w =
      if res.passed
      then issue_verified d w
      else mark_failure now d.id pending_dns res.detail
          (now + backoff pending_backoff_base pending_backoff_max d.attempt_count) w

  abbrev pub verify_expecting : CustomDomain → Option (List Bytes × List Bytes) × World → World
  verify_expecting d (none, w) = w
  verify_expecting d (some (cnames, ips), w) =
      after_verify d (verify net d.domain cnames ips) (set_status now d.id verifying d.last_error w)

  unfoldable pub verify_then_issue : CustomDomain → World → World
  unfolding expectations verify issue_verified
  verify_then_issue d w = verify_expecting d (expectations d w)

  abbrev pub fresh : Option Leaf → Bool
  fresh none = false
  fresh (some leaf) = ltb (now + renew_margin) leaf.not_after

  abbrev pub same_bool : Bool → Bool → Bool
  same_bool true b = b
  same_bool false b = not b

  -- what ARI is told: only for a production certificate that replaces one
  abbrev pub replaces : TlsCert → Option Leaf
  replaces cur = if not cur.staging && not staging then net.parse_leaf cur.full_chain else none

  abbrev pub after_renewal : CustomDomain → Option Bytes × World → World
  after_renewal d (some text, w) =
      mark_failure now d.id active (codes "renewal failed (old cert still serving): " ++ text)
        (issue_gate d) w
  after_renewal d (none, w) = go_live d w

  unfoldable pub renew_verified : CustomDomain → TlsCert → World → World
  unfolding issue backoff bump_zone
  renew_verified d cur w =
      after_renewal d (issue d.domain (replaces cur) (set_status now d.id renewing [] w))

  abbrev pub after_reverify : CustomDomain → TlsCert → Result → World → World
  after_reverify d cur res w =
      if res.passed
      then renew_verified d cur w
      else mark_failure now d.id active
          (codes "renewal blocked — DNS no longer points at Brisk: " ++ res.detail) (issue_gate d) w

  abbrev pub renew_expecting :
      CustomDomain → TlsCert → Option (List Bytes × List Bytes) × World → World
  renew_expecting d cur (none, w) = w
  renew_expecting d cur (some (cnames, ips), w) =
      after_reverify d cur (verify net d.domain cnames ips) w

  abbrev pub left_alone : TlsCert → Bool
  left_alone cur = fresh (net.parse_leaf cur.full_chain) && same_bool cur.staging staging

  abbrev pub renew_with : CustomDomain → Option TlsCert × World → World
  renew_with d (none, w) = verify_then_issue d w
  renew_with d (some cur, w) =
      if left_alone cur then w else renew_expecting d cur (expectations d w)

  unfoldable pub maybe_renew : CustomDomain → World → World
  unfolding get_tls_cert expectations verify renew_verified verify_then_issue
  maybe_renew d w = renew_with d (get_tls_cert (cert_name d) w)

  unfoldable pub process : CustomDomain → World → World
  unfolding maybe_renew verify_then_issue
  process d w = if is_live d.status then maybe_renew d w else verify_then_issue d w

  abbrev pub waits : Option ℕ → Bool
  waits none = false
  waits (some t) = ltb now t

  unfoldable pub process_due : List CustomDomain → World → World
  unfolding process
  process_due [] w = w
  process_due (d ∷ ds) w = process_due ds (if waits d.next_attempt_at then w else process d w)

  abbrev pub scan_listed : Option (List CustomDomain) × World → World
  scan_listed (none, w) = w
  scan_listed (some ds, w) = process_due ds w

  unfoldable pub scan : World → World
  unfolding list_all process_due
  scan w = scan_listed (list_all w)

  abbrev pub check_found : ℕ → Option CustomDomain × World → Option CustomDomain × World
  check_found id (none, w) = (none, w)
  check_found id (some d, w) = get_custom_domain id (process d w)

  -- CheckNow
  unfoldable pub check_now : ℕ → World → Option CustomDomain × World
  unfolding get_custom_domain process
  check_now id w = check_found id (get_custom_domain id w)
