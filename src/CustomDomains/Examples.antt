-- ===== src/CustomDomains/Examples.antt =====
-- One domain on one zone: an order that fails twice, and a renewal that fails.
use brisk.Prelude.{arith}
use brisk.Prelude.{
  Bytes, codes, str_eq, to_lower, trim_space, ◌≡◌, refl, ◌*◌, ◌+◌, some, none, true, false, [], ◌∷◌,
  lookup,
}
use brisk.CustomDomains.{
  Status, pending_dns, active, failed, CustomDomain, TlsCert, ZoneRow, answer, failure, Net, World,
}
use brisk.CustomDomains.Store.{find_domain, find_zone}
use brisk.CustomDomains.Verify.{verify, normalize_host, normalize_set, to_set, trim_dot}
use brisk.CustomDomains.Manager.{minute, backoff, known_ips, cert_name, process, check_now}
use brisk.CustomDomains.Backoff.{backoff_lem}
use brisk.CustomDomains.Orders.{OrdersOnce, process-OrdersOnce}
use brisk.CustomDomains.Renewal.{Serves, process-Serves}
use brisk.CustomDomains.Retry.{calm, check_now-check_now}

abbrev domain : Status → CustomDomain
domain status = record {
  id = 1;
  zone_id = 2;
  account_id = 3;
  domain = codes "a.b";
  status = status;
  verify_method = [];
  cert_name = codes "a.b";
  last_error = [];
  attempt_count = 7;
  last_verified_at = none;
  next_attempt_at = none;
  created_at = 0;
  updated_at = 0;
}

abbrev zone : ZoneRow
zone = record { id = 2; cdn_hostname = codes "C"; config_version = 1 }

abbrev cert : TlsCert
cert = record {
  name = codes "a.b";
  domains = codes "a.b";
  full_chain = codes "chain";
  priv_key = codes "key";
  issuer = [];
  serial = [];
  staging = false;
  not_before = none;
  not_after = none;
}

-- the second database call fails
abbrev world : Status → World
world status = record {
  domains = domain status ∷ [];
  certs = (codes "a.b", cert) ∷ [];
  zones = zone ∷ [];
  server_ips = codes "192.0.2.1" ∷ [];
  faults = false ∷ true ∷ [];
  orders = [];
}

-- every name leads to c, and no order succeeds
abbrev net : Bytes → Net
net text = record {
  lookup_cname = λ name. answer (codes "c.");
  lookup_host = λ name. failure (codes "no such host");
  obtain_http01 = λ name prev. failure text;
  parse_leaf = λ pem. none;
  db_error = [];
}

backoff_lem_example : backoff 20 720 3 ≡ 160
backoff_lem_example = backoff_lem 720 (omega arith) 20 3 (omega arith)

process-OrdersOnce_example :
    OrdersOnce
      (net [])
      false
      5
      (domain pending_dns)
      (calm (world pending_dns))
      (process (net []) false 5 (domain pending_dns) (calm (world pending_dns)))
process-OrdersOnce_example =
    process-OrdersOnce (net []) false 5 (domain pending_dns) (calm (world pending_dns))

found : (status : Status) → find_domain 1 (world status).domains ≡ some (domain status)
unfolding find_domain
found status = refl

has_stored : lookup (cert_name (domain active)) (world active).certs ≡ some cert
unfolding lookup str_eq trim_space
has_stored = refl

process-Serves_example :
    Serves 1 (codes "a.b") (process (net []) false 5 (domain active) (world active))
process-Serves_example =
    process-Serves (net []) false 5 (domain active) (world active) {cur = cert} refl (found active)
      has_stored refl

in_zone : find_zone 2 (world pending_dns).zones ≡ some zone
unfolding find_zone
in_zone = refl

passes :
    (text : Bytes)
    → (verify
        (net text)
        (codes "a.b")
        (codes "C" ∷ [])
        (known_ips (world pending_dns).server_ips)).passed
      ≡ true
unfolding verify normalize_host normalize_set to_set to_lower trim_space str_eq trim_dot
passes text = refl

check_now-check_now_example :
    (r : CustomDomain) × ((check_now
        (net (codes "limit"))
        false
        9
        1
        (check_now (net (codes "down")) false 5 1 (calm (world pending_dns))).1).0
      ≡ some r)
    × ((r.status ≡ failed) × ((r.attempt_count ≡ 1) × (r.next_attempt_at ≡ some (9 + 40 * minute))))
check_now-check_now_example =
    check_now-check_now false (net (codes "down")) (net (codes "limit")) 5 9 (domain pending_dns)
      (world pending_dns) {z = zone} {text = codes "down"} {later_text = codes "limit"}
      (found pending_dns) in_zone (passes (codes "down")) refl (passes (codes "limit")) refl refl
