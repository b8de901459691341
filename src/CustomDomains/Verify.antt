-- ===== src/CustomDomains/Verify.antt =====
-- Verify of internal/customdomains/verify.go: does the DNS of a domain land on Brisk?
use brisk.Prelude.{
  Bytes, codes, str_eq, to_lower, trim_space, join, Option, none, some, Bool, true, false, not,
  ◌&&◌, List, [], ◌∷◌, ◌++◌, if◌then◌else◌, any, keep, map,
}
use brisk.CustomDomains.{Answer, answer, failure, Net}

pub record Result : Type 0 where
  pub passed : Bool
  pub detail : Bytes

-- strings.TrimSuffix(s, ".")
unfoldable pub trim_dot : Bytes → Bytes
trim_dot [] = []
trim_dot (c ∷ s) = if str_eq (c ∷ s) (codes ".") then [] else c ∷ trim_dot s

unfoldable pub normalize_host : Bytes → Bytes
unfolding trim_dot to_lower trim_space
normalize_host h = trim_dot (to_lower (trim_space h))

abbrev pub nonempty : Bytes → Bool
nonempty s = not (str_eq s [])

abbrev pub member : Bytes → List Bytes → Bool
member s = any (str_eq s)

unfoldable pub normalize_set : List Bytes → List Bytes
unfolding normalize_host str_eq
normalize_set names = keep nonempty (map normalize_host names)

unfoldable pub to_set : List Bytes → List Bytes
unfolding trim_space str_eq
to_set names = keep nonempty (map trim_space names)

-- the canonical name, if the chain ends at one of ours
abbrev pub matched_name : Bytes → List Bytes → Answer Bytes → Option Bytes
matched_name domain want (failure text) = none
matched_name domain want (answer cname) =
    let cn = normalize_host cname in
    if nonempty cn && not (str_eq cn domain) && member cn want then some cn else none

-- what LookupHost returns besides its error
abbrev pub addresses : Answer (List Bytes) → List Bytes
addresses (failure text) = []
addresses (answer ips) = ips

abbrev pub canonical : Answer Bytes → Bytes
canonical (failure text) = []
canonical (answer cname) = cname

abbrev pub seen : Bytes → Bytes → List Bytes → Bytes
seen domain cname ips =
    if nonempty cname && not (str_eq (normalize_host cname) domain)
    then codes "CNAME points to "
      ++ (normalize_host cname
          ++ codes ", not a Brisk hostname; create the CNAME to your Brisk CDN hostname")
    else elim ips [
      | [] ↦ codes "no DNS records found yet; create the CNAME and allow time to propagate"
      | ip ∷ more ↦
          codes "resolves to "
          ++ (join (codes ", ") (ip ∷ more)
              ++ codes ", not a Brisk edge; point the domain (CNAME) at your Brisk CDN hostname")
    ]

-- the detail of a domain that is not pointed at Brisk
abbrev pub miss : Bytes → Answer Bytes → Answer (List Bytes) → Bytes
miss domain (failure text) (failure host_text) =
    codes "domain does not resolve yet (" ++ (host_text ++ codes ")")
miss domain (failure text) (answer ips) = seen domain [] ips
miss domain (answer cname) hosts = seen domain cname (addresses hosts)

abbrev pub by_address :
    Bytes → List Bytes → Answer Bytes → Answer (List Bytes) → List Bytes → Result
by_address domain want cname hosts [] = record { passed = false; detail = miss domain cname hosts }
by_address domain want cname hosts (ip ∷ ips) = record {
  passed = true;
  detail = codes "resolves to Brisk edge(s) " ++ join (codes ", ") (ip ∷ ips);
}

abbrev pub by_name : Bytes → List Bytes → Answer Bytes → Answer (List Bytes) → Option Bytes → Result
by_name domain want cname hosts (some cn) = record {
  passed = true;
  detail = codes "CNAME -> " ++ (cn ++ codes " (Brisk)");
}
by_name domain want cname hosts none =
    by_address domain want cname hosts (keep (λ ip. member ip want) (addresses hosts))

-- Verify
unfoldable pub verify : Net → Bytes → List Bytes → List Bytes → Result
unfolding normalize_host normalize_set to_set join
verify net name expect_cnames expect_ips =
    let domain = normalize_host name in
    let cname = net.lookup_cname domain in
    by_name domain (to_set expect_ips) cname (net.lookup_host domain)
      (matched_name domain (normalize_set expect_cnames) cname)
