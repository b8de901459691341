-- ===== src/CustomDomains/Store.antt =====
-- The queries of internal/store/custom_domains.go that the manager makes, and those of tls.go and
-- zones.go. Each is one call, which fails if the next fault says so; a write that fails does nothing.
pub mod Calls
use brisk.Prelude.{
  ℕ, ◌+◌, Bytes, Option, none, some, Bool, true, false, List, [], ◌∷◌, ◌==◌, if◌then◌else◌, lookup,
  insert,
}
use brisk.CustomDomains.{Status, active, CustomDomain, TlsCert, ZoneRow, World}

abbrev pub next_fault : List Bool → Bool
next_fault [] = false
next_fault (b ∷ bs) = b

abbrev pub later_faults : List Bool → List Bool
later_faults [] = []
later_faults (b ∷ bs) = bs

-- the world after a call has taken its fault
abbrev pub called : World → World
called w = record w { faults = later_faults w.faults }

-- a statement that writes: whether it worked, and the world
unfoldable pub exec : (World → World) → World → Bool × World
exec f w = if next_fault w.faults then (false, called w) else (true, f (called w))

unfoldable pub query : {A : Type 0} → (World → Option A) → World → Option A × World
query f w = (if next_fault w.faults then none else f w, called w)

unfoldable pub update_domain :
    ℕ → (CustomDomain → CustomDomain) → List CustomDomain → List CustomDomain
update_domain id f [] = []
update_domain id f (d ∷ ds) = (if d.id == id then f d else d) ∷ update_domain id f ds

unfoldable pub find_domain : ℕ → List CustomDomain → Option CustomDomain
find_domain id [] = none
find_domain id (d ∷ ds) = if d.id == id then some d else find_domain id ds

unfoldable pub find_zone : ℕ → List ZoneRow → Option ZoneRow
find_zone id [] = none
find_zone id (z ∷ zs) = if z.id == id then some z else find_zone id zs

unfoldable pub exec_domain : ℕ → (CustomDomain → CustomDomain) → World → World
unfolding exec update_domain
exec_domain id f w = (exec (λ w. record w { domains = update_domain id f w.domains }) w).1

abbrev pub with_status : ℕ → Status → Bytes → CustomDomain → CustomDomain
with_status now status last_error d = record d {
  status = status;
  last_error = last_error;
  updated_at = now;
}

-- SetCustomDomainStatus; the manager ignores the error of this and of the next three
abbrev pub set_status : ℕ → ℕ → Status → Bytes → World → World
set_status now id status last_error = exec_domain id (with_status now status last_error)

abbrev pub verified_at : ℕ → CustomDomain → CustomDomain
verified_at now d = record d {
  last_verified_at = some now;
  attempt_count = 0;
  last_error = [];
  next_attempt_at = none;
  updated_at = now;
}

-- MarkCustomDomainVerified
abbrev pub mark_verified : ℕ → ℕ → World → World
mark_verified now id = exec_domain id (verified_at now)

abbrev pub activated : ℕ → Bytes → CustomDomain → CustomDomain
activated now cert_name d = record d {
  status = active;
  cert_name = cert_name;
  last_error = [];
  attempt_count = 0;
  last_verified_at = some now;
  next_attempt_at = none;
  updated_at = now;
}

-- SetCustomDomainActive
abbrev pub set_active : ℕ → ℕ → Bytes → World → World
set_active now id cert_name = exec_domain id (activated now cert_name)

abbrev pub failed_with : ℕ → Status → Bytes → ℕ → CustomDomain → CustomDomain
failed_with now status last_error next_attempt_at d = record d {
  status = status;
  last_error = last_error;
  attempt_count = d.attempt_count + 1;
  next_attempt_at = some next_attempt_at;
  updated_at = now;
}

-- MarkCustomDomainFailure
abbrev pub mark_failure : ℕ → ℕ → Status → Bytes → ℕ → World → World
mark_failure now id status last_error next_attempt_at =
    exec_domain id (failed_with now status last_error next_attempt_at)

unfoldable pub bump : ℕ → List ZoneRow → List ZoneRow
bump id [] = []
bump id (z ∷ zs) =
    (if z.id == id then record z { config_version = z.config_version + 1 } else z) ∷ bump id zs

-- BumpZoneConfigVersion
unfoldable pub bump_zone : ℕ → World → World
unfolding exec bump
bump_zone id w = (exec (λ w. record w { zones = bump id w.zones }) w).1

unfoldable pub get_custom_domain : ℕ → World → Option CustomDomain × World
unfolding query find_domain
get_custom_domain id = query (λ w. find_domain id w.domains)

unfoldable pub list_all : World → Option (List CustomDomain) × World
unfolding query
list_all = query (λ w. some w.domains)

unfoldable pub get_zone : ℕ → World → Option ZoneRow × World
unfolding query find_zone
get_zone id = query (λ w. find_zone id w.zones)

-- ListServers, the addresses only
unfoldable pub list_servers : World → Option (List Bytes) × World
unfolding query
list_servers = query (λ w. some w.server_ips)

unfoldable pub get_tls_cert : Bytes → World → Option TlsCert × World
unfolding query lookup
get_tls_cert name = query (λ w. lookup name w.certs)

-- UpsertTLSCert
unfoldable pub upsert_tls_cert : TlsCert → World → Bool × World
unfolding exec insert
upsert_tls_cert c = exec (λ w. record w { certs = insert c.name c w.certs })
