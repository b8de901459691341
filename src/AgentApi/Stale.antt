-- ===== src/AgentApi/Stale.antt =====
-- Proofs about the ETag of agentConfig in brisk-control/internal/api/agent.go.
use brisk.Prelude.{
  ℕ, Bytes, codes, str_eq, str_eq_refl, ◌≡◌, refl, sym, ◌∙◌, ap, Option, none, some, Bool-cases,
  List, [], ◌∷◌, ◌++◌, map, opt_or, inl, inr,
}
use brisk.AgentApi.{Zone}
use brisk.AgentApi.Rows.{
  WafRule, RateLimit, HeaderTransform, AgentWaf, AgentHeaderTransform, AgentZone, CustomDomain,
  TlsCert, Reads,
}
use brisk.AgentApi.Answer.{
  agent_zone, custom_domain_agent_zone, find_zone, append_custom, custom_zones, first_cover,
  with_cert, served_host, attach_managed_cert, zone_lines, host_lines, not_modified, config,
  config_etag, quoted, answer_with, agent_zones, answer_zones, agent_config,
}

-- the zone with another firewall and other transforms
abbrev guarded : AgentZone → Option AgentWaf → List AgentHeaderTransform → AgentZone
guarded a w t = record a { waf = w; header_transforms = t }

host_lines-cons :
    (a : AgentZone) (xs ys : List AgentZone)
    → host_lines xs ≡ host_lines ys
    → host_lines (a ∷ xs) ≡ host_lines (a ∷ ys)
unfolding host_lines
host_lines-cons a xs ys e =
    ap
      (λ (l : Bytes).
        codes "h:"
        ++ (a.cdn_hostname
            ++ (codes ":"
                ++ (a.tls_cert_serial ++ (codes ":" ++ (a.shield_upstream ++ (codes ";" ++ l)))))))
      e

with_cert_same :
    (o : Option TlsCert) (a : AgentZone) (w : Option AgentWaf) (t : List AgentHeaderTransform)
    (xs : List AgentZone)
    → host_lines (with_cert o (guarded a w t) ∷ xs) ≡ host_lines (with_cert o a ∷ xs)
unfolding host_lines
with_cert_same none a w t xs = refl
with_cert_same (some c) a w t xs = refl

module _ (certs : List TlsCert) where
  attach_same :
      (a : AgentZone) (w : Option AgentWaf) (t : List AgentHeaderTransform) (xs : List AgentZone)
      → host_lines (attach_managed_cert certs (guarded a w t) ∷ xs)
        ≡ host_lines (attach_managed_cert certs a ∷ xs)
  unfolding host_lines
  attach_same a w t xs = elim (Bool-cases (str_eq a.tls_mode (codes "managed"))) [
    | inl managed ↦ rw managed (with_cert_same (first_cover (served_host a) certs) a w t xs)
    | inr own ↦ rw own refl
  ]

  module _ (server_id default_shield_id : ℕ) (r : Reads) (rules : ℕ → Option (List WafRule))
      (limits : ℕ → Option (List RateLimit)) (transforms : ℕ → Option (List HeaderTransform)) where
    -- the same reads but for these three
    abbrev pub other_reads : Reads
    other_reads = record r { waf_rules = rules; rate_limits = limits; transforms = transforms }

    append_custom_same :
        (cd : CustomDomain) (o : Option Zone) (xs ys : List AgentZone)
        → host_lines (map (attach_managed_cert certs) xs)
          ≡ host_lines (map (attach_managed_cert certs) ys)
        → host_lines (
            map
              (attach_managed_cert certs)
              (append_custom server_id default_shield_id other_reads cd o xs))
          ≡ host_lines (
              map (attach_managed_cert certs) (append_custom server_id default_shield_id r cd o ys))
    append_custom_same cd none xs ys e = e
    append_custom_same cd (some parent) xs ys e =
        attach_same (custom_domain_agent_zone server_id default_shield_id r cd parent) _ _ _
        ∙ host_lines-cons
            (attach_managed_cert certs
              (custom_domain_agent_zone server_id default_shield_id r cd parent))
            _ _ e

    custom_zones_same :
        (zones : List Zone) (cds : List CustomDomain)
        → host_lines (
            map
              (attach_managed_cert certs)
              (custom_zones server_id default_shield_id other_reads zones cds))
          ≡ host_lines (
              map
                (attach_managed_cert certs)
                (custom_zones server_id default_shield_id r zones cds))
    unfolding custom_zones
    custom_zones_same zones [] = refl
    custom_zones_same zones (cd ∷ cds) =
        append_custom_same cd (find_zone cd.zone_id zones) _ _ (custom_zones_same zones cds)

    zones_same :
        (zones : List Zone) (xs ys : List AgentZone)
        → host_lines (map (attach_managed_cert certs) xs)
          ≡ host_lines (map (attach_managed_cert certs) ys)
        → host_lines (
            map
              (attach_managed_cert certs)
              (map (agent_zone server_id default_shield_id other_reads) zones ++ xs))
          ≡ host_lines (
              map
                (attach_managed_cert certs)
                (map (agent_zone server_id default_shield_id r) zones ++ ys))
    zones_same [] xs ys e = e
    zones_same (z ∷ zs) xs ys e =
        attach_same (agent_zone server_id default_shield_id r z) _ _ _
        ∙ host_lines-cons (attach_managed_cert certs (agent_zone server_id default_shield_id r z)) _
            _ (zones_same zs xs ys e)

module _ (digest : Bytes → Bytes) where
  answered :
      (m etag tag : Bytes) (az bz : List AgentZone)
      → answer_with digest m etag az ≡ config tag bz
      → etag ≡ tag
  answered m etag tag az bz h = elim (Bool-cases (str_eq m (quoted digest etag))) [
    | inl same ↦ let k : not_modified etag ≡ config tag bz = rw same at h in cc
    | inr new ↦ let k : config etag az ≡ config tag bz = rw new at h in cc
  ]

  module _ (server_id default_shield_id : ℕ) (r : Reads) (rules : ℕ → Option (List WafRule))
      (limits : ℕ → Option (List RateLimit)) (transforms : ℕ → Option (List HeaderTransform)) where
    abbrev misread : Reads
    misread = record r { waf_rules = rules; rate_limits = limits; transforms = transforms }

    etag_same :
        (zones : List Zone)
        → config_etag digest zones (agent_zones digest server_id default_shield_id misread zones)
          ≡ config_etag digest zones (agent_zones digest server_id default_shield_id r zones)
    unfolding agent_zones
    etag_same zones =
        ap (λ (l : Bytes). digest (zone_lines zones ++ l))
          (zones_same (opt_or r.certs []) server_id default_shield_id r rules limits transforms
            zones _ _
            (custom_zones_same (opt_or r.certs []) server_id default_shield_id r rules limits
              transforms zones (opt_or r.custom_domains [])))

    then_unmodified :
        (m : Bytes) (o : Option (List Zone)) {etag : Bytes} {az : List AgentZone}
        → answer_zones digest server_id default_shield_id m misread o ≡ config etag az
        → answer_zones digest server_id default_shield_id (quoted digest etag) r o
          ≡ not_modified etag
    then_unmodified m none h = cc
    then_unmodified m (some zones) {etag} {az} h =
        let mine = agent_zones digest server_id default_shield_id r zones in
        let e : config_etag digest zones mine ≡ etag =
          sym (etag_same zones)
          ∙ answered m _ etag (agent_zones digest server_id default_shield_id misread zones) az h in
        ap (λ (x : Bytes). answer_with digest (quoted digest etag) x mine) e
        ∙ rw (str_eq_refl (quoted digest etag)) refl

    -- Where an agent is sent a configuration that was built while the reads of rules, rate limits
    -- and transforms failed or returned anything else, its ETag is that of the right configuration:
    -- with all other reads the same, a request with this ETag is answered not modified.
    pub agent_config_unmodified :
        (m : Bytes) {etag : Bytes} {az : List AgentZone}
        → agent_config digest server_id default_shield_id m misread ≡ config etag az
        → agent_config digest server_id default_shield_id (quoted digest etag) r ≡ not_modified etag
    unfolding agent_config
    agent_config_unmodified m h = then_unmodified m r.server_zones h
