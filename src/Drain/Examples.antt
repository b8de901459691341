-- ===== src/Drain/Examples.antt =====
-- Two public edges, and one beside a shield that serves no public traffic.
use brisk.Prelude.{
  true, All, ℕ, Bytes, codes, ◌≡◌, ◌≢◌, refl, ◌<◌, none, some, false, [], ◌∷◌, arith, first, later,
  str_eq, equal_fold, ◌==◌, insert,
}
use brisk.Dns.Rotation.{is_unhealthy, rotation_decision}
use brisk.Dns.Rotation.Blackhole.{Distinct}
use brisk.Drain.{
  Server, Fleet, Failures, drained_server, would_empty, drain_server, endpoint_for, endpoints_for,
  in_rotation_count, no_override, is_public, dns_set,
}
use brisk.Drain.Guard.{drain_server-guard, drain_server-passes}

abbrev server : ℕ → Bytes → Bytes → Server
server id edge_id role = record {
  id = id;
  edge_id = edge_id;
  region = codes "EU";
  ip = edge_id;
  status = codes "online";
  last_seen = some 90;
  health_status = codes "healthy";
  role = role;
  serve_public = false;
  drained = false;
  drained_at = none;
  drain_reason = [];
}

abbrev shield : Server
shield = server 2 (codes "sh") (codes "shield")

abbrev fleet : Fleet
fleet = record {
  servers = server 1 (codes "de") (codes "edge") ∷ shield ∷ [];
  audit = [];
  reconciles = [];
}

abbrev works : Failures
works = record { get = false; list = false; set = false }

abbrev two_edges : Fleet
two_edges = record fleet {
  servers = server 1 (codes "de") (codes "edge") ∷ server 3 (codes "ny") (codes "edge") ∷ [];
}

pool : 0 < in_rotation_count 100 30 (dns_set two_edges.servers) no_override
unfolding in_rotation_count rotation_decision str_eq equal_fold insert dns_set
pool = omega arith

done : (drain_server 30 100 101 102 works 1 false [] two_edges).0 ≡ drained_server 1
unfolding drain_server rotation_decision str_eq equal_fold insert
done = refl

both_public : All (λ s. is_public s ≡ true) two_edges.servers
unfolding equal_fold str_eq
both_public = (refl, (refl, tt))

drain_server-guard_example :
    (0 < 1)
    × (in_rotation_count 101 30
          (dns_set (drain_server 30 100 101 102 works 1 false [] two_edges).1.servers)
          no_override
        ≡ 1)
drain_server-guard_example =
    drain_server-guard 30 100 101 102 works 1 [] two_edges both_public 1 pool done

-- beside a shield the only public edge is drained: the guard counts the shield, the DNS set is empty
last_one :
    ((drain_server 30 100 101 102 works 1 false [] fleet).0 ≡ drained_server 1)
    × (in_rotation_count 101 30
          (dns_set (drain_server 30 100 101 102 works 1 false [] fleet).1.servers)
          no_override
        ≡ 0)
unfolding drain_server rotation_decision str_eq equal_fold insert dns_set in_rotation_count
last_one = (refl, refl)

apart : Distinct (endpoints_for fleet.servers (λ i. i == 1))
unfolding endpoints_for str_eq
apart = ((refl, tt), (tt, tt))

shield_well : is_unhealthy (endpoint_for (λ i. i == 1) shield) ≡ false
unfolding endpoint_for equal_fold str_eq
shield_well = refl

drain_server-passes_example : (drain_server 30 100 101 102 works 1 false [] fleet).0 ≢ would_empty 2
drain_server-passes_example =
    drain_server-passes 30 100 101 102 works 1 false [] fleet apart shield (later (first refl)) refl
      refl shield_well 2
