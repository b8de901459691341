-- ===== src/Drain/Guard.antt =====
-- Proofs about the guard of drainServer in brisk-control/internal/api/drain.go.
use brisk.Prelude.{
  All, Assoc, ℕ, ◌<◌, ◌≡◌, ◌≢◌, refl, sym, ◌∙◌, ap, Bytes, str_eq, Option, none, some, Bool, true,
  false, List, [], ◌∷◌, arith, ◌==◌, if◌then◌else◌, count, In, first, later, Bool-cases, inl, inr,
  lookup, trim_space,
}
use brisk.Dns.{Endpoint}
use brisk.Dns.Rotation.{Decision, Reason, is_unhealthy, rotation_decision}
use brisk.Dns.Rotation.Blackhole.{Distinct, rotation-nonempty}
use brisk.Drain.{
  Server, Fleet, Failures, Response, would_empty, internal_error, drained_server, endpoint_for,
  endpoints_for, no_override, in_rotation_count, in_pool_entry, drain_row, update_where, has_id,
  write_rows, drain_counted, drain_checked, drain_found, drain_server, refuses, find_server_row,
  is_public, dns_set,
}

endpoint_for-drain_row :
    (now id : ℕ) (reason : Bytes) (s : Server)
    → endpoint_for (λ i. i == id) s
      ≡ endpoint_for no_override (if has_id id s then drain_row now reason s else s)
unfolding endpoint_for
endpoint_for-drain_row now id reason s = elim (Bool-cases (s.id == id)) [
  | inl e ↦ rw e refl
  | inr e ↦ rw e refl
]

-- The simulation of the guard is the table after the write.
endpoints_for-update :
    (now id : ℕ) (reason : Bytes) (ss : List Server)
    → endpoints_for ss (λ i. i == id)
      ≡ endpoints_for (update_where (has_id id) (drain_row now reason) ss) no_override
unfolding endpoints_for update_where
endpoints_for-update now id reason [] = refl
endpoints_for-update now id reason (s ∷ ss) =
    rw (endpoint_for-drain_row now id reason s, endpoints_for-update now id reason ss) refl

-- the counts of the simulation and of the table after the write
in_rotation_count-update :
    (now stale at id : ℕ) (reason : Bytes) (ss : List Server)
    → in_rotation_count now stale (update_where (has_id id) (drain_row at reason) ss) no_override
      ≡ in_rotation_count now stale ss (λ i. i == id)
unfolding in_rotation_count
in_rotation_count-update now stale at id reason ss =
    ap (λ (eps : List Endpoint). count in_pool_entry (rotation_decision now stale eps))
      (sym (endpoints_for-update at id reason ss))

module _ (stale now_before now_after now_db : ℕ) (fails : Failures) (id : ℕ) (reason : Bytes)
    (fleet : Fleet) where
  drain_counted-guard :
      (before after n : ℕ)
      → (drain_counted stale now_before now_after now_db fails before after id false reason fleet).0
        ≡ drained_server n
      → 0 < before
      → (0 < n)
        × (after ≡ n)
        × ((drain_counted stale now_before now_after now_db fails before after id false reason
              fleet).1.servers
            ≡ update_where (has_id id) (drain_row now_db (trim_space reason)) fleet.servers)
  unfolding drain_counted write_rows
  drain_counted-guard before after n h some_in = elim (Bool-cases (refuses before after false)) [
    | inl refused ↦ let k : would_empty before ≡ drained_server n = rw refused at h in cc
    | inr passes ↦ elim (Bool-cases fails.set) [
      | inl broken ↦ let k : internal_error ≡ drained_server n = rw (passes, broken) at h in cc
      | inr works ↦
          let k : drained_server after ≡ drained_server n = rw (passes, works) at h in
          let e : after ≡ n = cc in (ground (arith, passes, e), e, rw (passes, works) refl)
    ]
  ]

  abbrev Guarded : Response × Fleet → ℕ → Type 0
  Guarded answer n =
      answer.0 ≡ drained_server n
      → (0 < n) × (in_rotation_count now_after stale answer.1.servers no_override ≡ n)

  drain_checked-guard :
      (n : ℕ)
      → 0 < in_rotation_count now_before stale fleet.servers no_override
      → Guarded (drain_checked stale now_before now_after now_db fails id false reason fleet) n
  unfolding drain_checked
  drain_checked-guard n some_in h =
      let (some_left, same, rows) = drain_counted-guard _ _ n h some_in in
      (
        some_left,
        ap (λ (ss : List Server). in_rotation_count now_after stale ss no_override) rows
            ∙ (in_rotation_count-update now_after stale now_db id (trim_space reason) fleet.servers
                ∙ same),
      )

  drain_found-guard :
      (o : Option Server) (n : ℕ)
      → 0 < in_rotation_count now_before stale fleet.servers no_override
      → Guarded (drain_found stale now_before now_after now_db fails o id false reason fleet) n
  unfolding drain_checked
  drain_found-guard none n some_in h = cc
  drain_found-guard (some s) n some_in h = elim (Bool-cases fails.list) [
    | inl broken ↦ let k : internal_error ≡ drained_server n = rw broken at h in cc
    | inr works ↦ rw works (drain_checked-guard n some_in (rw works at h))
  ]

  -- The guard on the table of all servers.
  counted_guard :
      (n : ℕ)
      → 0 < in_rotation_count now_before stale fleet.servers no_override
      → (drain_server stale now_before now_after now_db fails id false reason fleet).0
        ≡ drained_server n
      → (0 < n)
        × (in_rotation_count now_after stale
              (drain_server stale now_before now_after now_db fails id false reason fleet).1.servers
              no_override
            ≡ n)
  unfolding drain_server
  counted_guard n some_in h = elim (Bool-cases fails.get) [
    | inl broken ↦ let k : internal_error ≡ drained_server n = rw broken at h in cc
    | inr works ↦
        rw works (drain_found-guard (find_server_row id fleet.servers) n some_in (rw works at h))
  ]

drained_row :
    (id at : ℕ) (reason : Bytes) (s : Server)
    → is_public s ≡ true
    → is_public (if s.id == id then drain_row at reason s else s) ≡ true
drained_row id at reason s h = elim (Bool-cases (s.id == id)) [
  | inl hit ↦ rw hit h
  | inr miss ↦ rw miss h
]

AllPublic-update :
    (id at : ℕ) (reason : Bytes) (ss : List Server)
    → All (λ s. is_public s ≡ true) ss
    → All (λ s. is_public s ≡ true) (update_where (has_id id) (drain_row at reason) ss)
unfolding update_where
AllPublic-update id at reason [] h = tt
AllPublic-update id at reason (s ∷ ss) h =
    (drained_row id at reason s h.0, AllPublic-update id at reason ss h.1)

dns_set_of_public : (ss : List Server) → All (λ s. is_public s ≡ true) ss → dns_set ss ≡ ss
unfolding dns_set
dns_set_of_public [] h = refl
dns_set_of_public (s ∷ ss) h = rw (h.0, dns_set_of_public ss h.1) refl

abbrev AllPublic : List Server → Type 0
AllPublic = All (λ s. is_public s ≡ true)

module _ (stale now_before now_after now_db : ℕ) (fails : Failures) (id : ℕ) (reason : Bytes)
    (fleet : Fleet) (public : AllPublic fleet.servers) where
  drain_counted-AllPublic :
      (before after : ℕ)
      → AllPublic
          (drain_counted stale now_before now_after now_db fails before after id false reason
            fleet).1.servers
  unfolding drain_counted write_rows
  drain_counted-AllPublic before after = elim (Bool-cases (refuses before after false)) [
    | inl refused ↦ rw refused public
    | inr passes ↦ elim (Bool-cases fails.set) [
      | inl broken ↦ rw (passes, broken) public
      | inr works ↦
          rw (passes, works) (AllPublic-update id now_db (trim_space reason) fleet.servers public)
    ]
  ]

  drain_found-AllPublic :
      (o : Option Server)
      → AllPublic
          (drain_found stale now_before now_after now_db fails o id false reason fleet).1.servers
  unfolding drain_checked
  drain_found-AllPublic none = public
  drain_found-AllPublic (some s) = elim (Bool-cases fails.list) [
    | inl broken ↦ rw broken public
    | inr works ↦ rw works (
        drain_counted-AllPublic (in_rotation_count now_before stale fleet.servers no_override)
          (in_rotation_count now_after stale fleet.servers (λ i. i == id)))
  ]

  drain_server-AllPublic :
      AllPublic
        (drain_server stale now_before now_after now_db fails id false reason fleet).1.servers
  unfolding drain_server
  drain_server-AllPublic = elim (Bool-cases fails.get) [
    | inl broken ↦ rw broken public
    | inr works ↦ rw works (drain_found-AllPublic (find_server_row id fleet.servers))
  ]

  -- Where no server is a shield that serves no public traffic, some edge of the DNS set was in
  -- rotation and a drain that is not forced is answered as done, some edge of the DNS set is in
  -- rotation in the table after it, as many as the answer says.
  pub drain_server-guard :
      (n : ℕ)
      → 0 < in_rotation_count now_before stale (dns_set fleet.servers) no_override
      → (drain_server stale now_before now_after now_db fails id false reason fleet).0
        ≡ drained_server n
      → (0 < n)
        × (in_rotation_count now_after stale
              (dns_set
                (drain_server stale now_before now_after now_db fails id false reason
                  fleet).1.servers)
              no_override
            ≡ n)
  drain_server-guard n some_in h =
      let (left, same) =
        counted_guard stale now_before now_after now_db fails id reason fleet n
          (rw (dns_set_of_public fleet.servers public) at some_in) h in
      (
        left,
        ap (λ (ss : List Server). in_rotation_count now_after stale ss no_override)
              (dns_set_of_public _ drain_server-AllPublic)
            ∙ same,
      )

count-lookup :
    (k : Bytes) (m : Assoc Decision) (why : Reason)
    → lookup k m ≡ some (record { in_pool = true; reason = why })
    → 0 < count in_pool_entry m
unfolding lookup
count-lookup k [] why h = cc
count-lookup k ((j, d) ∷ m) why h = elim (Bool-cases (str_eq j k)) [
  | inl hit ↦
      let same : some d ≡ some (record { in_pool = true; reason = why }) = rw hit at h in
      let q : d ≡ record { in_pool = true; reason = why } = cc in
      ground (arith, ap (λ (x : Decision). x.in_pool) q)
  | inr miss ↦ ground (arith, count-lookup k m why (rw miss at h))
]

In-endpoints_for :
    (override : ℕ → Bool) (x : Server) (ss : List Server)
    → In x ss
    → In (endpoint_for override x) (endpoints_for ss override)
unfolding endpoints_for
In-endpoints_for override x [] i = elim i [ ]
In-endpoints_for override x (s ∷ ss) (first p) = first (ap (endpoint_for override) p)
In-endpoints_for override x (s ∷ ss) (later i) = later (In-endpoints_for override x ss i)

module _ (stale now_before now_after now_db : ℕ) (fails : Failures) (id : ℕ) (force : Bool)
    (reason : Bytes) (fleet : Fleet) where
  drain_counted-passes :
      (before after n : ℕ)
      → 0 < after
      → (drain_counted stale now_before now_after now_db fails before after id force reason fleet).0
        ≢ would_empty n
  unfolding drain_counted
  drain_counted-passes before after n some_in h =
      let passes : refuses before after force ≡ false = ground (arith, some_in) in
      elim (Bool-cases fails.set) [
        | inl broken ↦ let k : internal_error ≡ would_empty n = rw (passes, broken) at h in cc
        | inr works ↦ let k : drained_server after ≡ would_empty n = rw (passes, works) at h in cc
      ]

  module _ (distinct : Distinct (endpoints_for fleet.servers (λ i. i == id))) (x : Server)
      (listed : In x fleet.servers) (undrained : x.drained ≡ false) (other : (x.id == id) ≡ false)
      (well : is_unhealthy (endpoint_for (λ i. i == id) x) ≡ false) where
    some_left : 0 < in_rotation_count now_after stale fleet.servers (λ i. i == id)
    unfolding in_rotation_count
    some_left =
        let eps = endpoints_for fleet.servers (λ i. i == id) in
        let (y, d, out) =
          rotation-nonempty now_after stale eps distinct (endpoint_for (λ i. i == id) x)
            (In-endpoints_for (λ i. i == id) x fleet.servers listed)
            (unfold endpoint_for in ground (arith, other, undrained)) (inr well) in
        count-lookup y.edge_id (rotation_decision now_after stale eps) out.reason out.decided

    drain_found-passes :
        (o : Option Server) (n : ℕ)
        → (drain_found stale now_before now_after now_db fails o id force reason fleet).0
          ≢ would_empty n
    unfolding drain_checked
    drain_found-passes none n h = cc
    drain_found-passes (some s) n h = elim (Bool-cases fails.list) [
      | inl broken ↦ let k : internal_error ≡ would_empty n = rw broken at h in cc
      | inr works ↦ drain_counted-passes _ _ n some_left (rw works at h)
    ]

    -- With distinct edge ids, a drain is never refused while another server is neither drained nor
    -- unhealthy, whatever its role.
    pub drain_server-passes :
        (n : ℕ)
        → (drain_server stale now_before now_after now_db fails id force reason fleet).0
          ≢ would_empty n
    unfolding drain_server
    drain_server-passes n h = elim (Bool-cases fails.get) [
      | inl broken ↦ let k : internal_error ≡ would_empty n = rw broken at h in cc
      | inr works ↦ drain_found-passes (find_server_row id fleet.servers) n (rw works at h)
    ]
