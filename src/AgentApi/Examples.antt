-- ===== src/AgentApi/Examples.antt =====
-- An edge, a shield, and a certificate with a wildcard.
use brisk.Prelude.{
  pos, ℕ, Bytes, codes, str_eq, to_lower, trim_space, strip, ◌≡◌, ◌↔◌, refl, none, some, true,
  false, List, [], ◌∷◌, In,
}
use brisk.AgentApi.{Zone, Server, norm, cert_covers}
use brisk.AgentApi.Cover.{Covers, cert_covers-Covers}
use brisk.AgentApi.Rows.{WafRule, AgentZone, Reads}
use brisk.AgentApi.Answer.{agent_zones, agent_config, config, config_etag, quoted, not_modified}
use brisk.AgentApi.Stale.{agent_config_unmodified}

abbrev server : ℕ → Bytes → Server
server id role = record {
  id = id;
  role = role;
  hostname = some (codes " s.x ");
  ip = codes "192.0.2.1";
  status = codes "online";
  drained = false;
  health_status = [];
}

abbrev zone : Zone
zone = record {
  id = 3;
  config_version = 1;
  cdn_hostname = codes "z.cdn";
  custom_domain = none;
  tls_mode = codes "managed";
  delivery = record {
    origin_url = codes "https://o";
    host_header = [];
    video = false;
    profile = [];
    playlist_ttl = [];
    segment_ttl = [];
    cors_origin = [];
    brotli_level = pos 5;
    status = codes "active";
    origin_ssl_verify = false;
    origin_follow_redirects = false;
    forward_host_header = false;
    error_5xx_html = [];
    blocked_ips = [];
    block_root_path = false;
    block_post = false;
  };
  origin_shield_enabled = true;
  shield_server_id = none;
  waf_enabled = true;
  waf_mode = codes "block";
  waf_managed_ruleset = codes "off";
  waf_paranoia = pos 1;
  waf_fail_open = true;
  waf_wp_preset = false;
}

abbrev fleet : List Server
fleet = server 1 (codes "edge") ∷ server 2 (codes "shield") ∷ []

abbrev sans : List Bytes
sans = codes "*.X.com" ∷ codes "x.com" ∷ []

cert_covers-Covers_example :
    (cert_covers sans (codes "a.x.com") ≡ true)
    ↔ ((d : Bytes) × In d sans × Covers (norm d) (norm (codes "a.x.com")))
cert_covers-Covers_example = cert_covers-Covers sans (codes "a.x.com")

covered : cert_covers sans (codes "A.x.com") ≡ true
unfolding cert_covers str_eq to_lower trim_space strip
covered = refl

two_labels : cert_covers sans (codes "a.b.x.com") ≡ false
unfolding cert_covers str_eq to_lower trim_space strip
two_labels = refl

abbrev rule : WafRule
rule = record {
  id = 7;
  priority = pos 1;
  field = codes "path";
  op = codes "prefix";
  value = codes "/admin";
  header_name = none;
  action = codes "block";
  enabled = true;
}

abbrev reads : Reads
reads = record {
  server_zones = some (zone ∷ []);
  servers = some fleet;
  waf_rules = λ id. some (rule ∷ []);
  rate_limits = λ id. some [];
  transforms = λ id. some [];
  custom_domains = some (record { zone_id = 3; domain = codes "a.b" } ∷ []);
  certs = some [];
}

abbrev digest : Bytes → Bytes
digest text = text

abbrev failing : Reads
failing = record reads { waf_rules = λ id. none; rate_limits = λ id. none; transforms = λ id. none }

abbrev sent : List AgentZone
sent = agent_zones digest 1 2 failing (zone ∷ [])

answers : agent_config digest 1 2 [] failing ≡ config (config_etag digest (zone ∷ []) sent) sent
unfolding agent_config str_eq
answers = refl

agent_config_unmodified_example :
    agent_config digest 1 2 (quoted digest (config_etag digest (zone ∷ []) sent)) reads
    ≡ not_modified (config_etag digest (zone ∷ []) sent)
agent_config_unmodified_example =
    agent_config_unmodified digest 1 2 reads (λ id. none) (λ id. none) (λ id. none) []
      {etag = config_etag digest (zone ∷ []) sent} {az = sent} answers
