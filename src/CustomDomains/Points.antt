-- ===== src/CustomDomains/Points.antt =====
-- Proofs about Verify of brisk-control/internal/customdomains/verify.go.
use brisk.Prelude.{
  Bytes, str_eq, str_eq_iff, trim_space, ◌≡◌, refl, sym, ◌∙◌, ap, ◌⊎◌, Option, none, some, true,
  List, [], ◌∷◌, Bool-cases, inl, inr, map, keep, In, In-keep, first, later, arith,
}
use brisk.CustomDomains.{Answer, answer, failure, Net, World, CustomDomain, ZoneRow}
use brisk.CustomDomains.Store.{find_zone}
use brisk.CustomDomains.Verify.{
  normalize_host, nonempty, normalize_set, to_set, member, matched_name, addresses, by_address,
  by_name, verify,
}
use brisk.CustomDomains.Manager.{known_ips}

-- The name resolves to the host, or to an address that the list of servers has.
abbrev pub Resolves : Net → Bytes → Bytes → List Bytes → Type 0
Resolves net domain host servers =
    ((cname : Bytes) × (net.lookup_cname (normalize_host domain) ≡ answer cname)
      × (normalize_host cname ≡ normalize_host host))
    ⊎ ((ips : List Bytes) × (net.lookup_host (normalize_host domain) ≡ answer ips)
        × ((ip : Bytes) × In ip ips
            × ((s : Bytes) × In s servers × (trim_space (trim_space s) ≡ ip))))

-- it does so for the hostname of the domain's zone
abbrev pub PointsHere : Net → CustomDomain → World → Type 0
PointsHere net d w =
    (z : ZoneRow) × (find_zone d.zone_id w.zones ≡ some z)
    × Resolves net d.domain z.cdn_hostname w.server_ips

member-In : (s : Bytes) (xs : List Bytes) → member s xs ≡ true → In s xs
member-In s [] h = cc
member-In s (x ∷ xs) h = elim (Bool-cases (str_eq s x)) [
  | inl e ↦ first ((str_eq_iff s x).0 e)
  | inr e ↦ later (member-In s xs (rw e at h))
]

In-map :
    (f : Bytes → Bytes) {x : Bytes} (xs : List Bytes)
    → In x (map f xs)
    → (y : Bytes) × In y xs × (f y ≡ x)
In-map f [] i = elim i [ ]
In-map f (y ∷ ys) (first e) = (y, first refl, sym e)
In-map f (y ∷ ys) (later i) = let (z, j, e) = In-map f ys i in (z, later j, e)

normalize_set_one : (host cn : Bytes) → In cn (normalize_set (host ∷ [])) → cn ≡ normalize_host host
unfolding normalize_set
normalize_set_one host cn i =
    only (
      In-map normalize_host (host ∷ []) ((In-keep nonempty (map normalize_host (host ∷ []))).0 i).0)
  where
    only : (y : Bytes) × In y (host ∷ []) × (normalize_host y ≡ cn) → cn ≡ normalize_host host
    only (y, first e, eq) = sym eq ∙ ap normalize_host e
    only (y, later j, eq) = elim j [ ]

to_set-In :
    (servers : List Bytes) (ip : Bytes)
    → In ip (to_set (known_ips servers))
    → (s : Bytes) × In s servers × (trim_space (trim_space s) ≡ ip)
unfolding to_set
to_set-In servers ip i =
    let (t, j, e) = In-map trim_space (known_ips servers) ((In-keep nonempty _).0 i).0 in
    let (s, k, f) = In-map trim_space servers ((In-keep nonempty _).0 j).0 in
    (s, k, ap trim_space f ∙ e)

matched_name_sound :
    (domain : Bytes) (want : List Bytes) (ans : Answer Bytes) {cn : Bytes}
    → matched_name domain want ans ≡ some cn
    → (cname : Bytes) × (ans ≡ answer cname) × In (normalize_host cname) want
matched_name_sound domain want (failure text) h = cc
matched_name_sound domain want (answer cname) h =
    (cname, refl, member-In (normalize_host cname) want (ground (arith, h)))

kept_address :
    (want : List Bytes) (hosts : Answer (List Bytes)) {ip : Bytes}
    → In ip (keep (λ ip. member ip want) (addresses hosts))
    → (ips : List Bytes) × (hosts ≡ answer ips) × (In ip ips × In ip want)
kept_address want (failure text) i = elim i [ ]
kept_address want (answer ips) {ip} i =
    let (j, m) = (In-keep (λ ip. member ip want) ips).0 i in (ips, refl, (j, member-In ip want m))

by_address_sound :
    (domain : Bytes) (want : List Bytes) (ans : Answer Bytes) (hosts : Answer (List Bytes))
    (ips : List Bytes)
    → (by_address domain want ans hosts ips).passed ≡ true
    → (ip : Bytes) × In ip ips
by_address_sound domain want ans hosts [] h = cc
by_address_sound domain want ans hosts (ip ∷ ips) h = (ip, first refl)

pub verify-Resolves :
    (net : Net) (domain host : Bytes) (servers : List Bytes)
    → (verify net domain (host ∷ []) (known_ips servers)).passed ≡ true
    → Resolves net domain host servers
unfolding verify
verify-Resolves net domain host servers = split _ refl
  where
    split :
        (o : Option Bytes)
        → matched_name
            (normalize_host domain)
            (normalize_set (host ∷ []))
            (net.lookup_cname (normalize_host domain))
          ≡ o
        → (by_name
            (normalize_host domain)
            (to_set (known_ips servers))
            (net.lookup_cname (normalize_host domain))
            (net.lookup_host (normalize_host domain))
            o).passed
          ≡ true
        → Resolves net domain host servers
    split (some cn) e h =
        let (cname, found, i) =
          matched_name_sound (normalize_host domain) (normalize_set (host ∷ []))
            (net.lookup_cname (normalize_host domain)) e in
        inl (cname, found, normalize_set_one host (normalize_host cname) i)
    split none e h =
        let (ip, i) =
          by_address_sound (normalize_host domain) (to_set (known_ips servers))
            (net.lookup_cname (normalize_host domain)) (net.lookup_host (normalize_host domain))
            (keep (λ ip. member ip (to_set (known_ips servers)))
              (addresses (net.lookup_host (normalize_host domain))))
            h in
        let (ips, found, (j, k)) =
          kept_address (to_set (known_ips servers)) (net.lookup_host (normalize_host domain)) i in
        inr (ips, found, (ip, j, to_set-In servers ip k))
