-- ===== src/AgentApi/Answer.antt =====
-- agentConfig of brisk-control/internal/api/agent.go: the answer to an agent that asks for its
-- configuration, from what the reads of the database return; `none` is an error of a read.
use brisk.Prelude.{
  ℕ, Bytes, codes, str_eq, split_on, format_int, Option, none, some, false, List, [], ◌∷◌, ◌++◌,
  ◌==◌, if◌then◌else◌, map, opt_or,
}
use brisk.AgentApi.{Zone, Server, find_server, shield_upstream_for, cert_covers}
use brisk.AgentApi.Rows.{
  AgentZone, CustomDomain, TlsCert, Reads, build_agent_waf, build_agent_transforms,
}

-- a server that is not in the map
abbrev pub no_server : Server
no_server = record {
  id = 0;
  role = [];
  hostname = none;
  ip = [];
  status = [];
  drained = false;
  health_status = [];
}

-- byZone
unfoldable pub find_zone : ℕ → List Zone → Option Zone
find_zone id [] = none
find_zone id (z ∷ zs) = if z.id == id then some z else find_zone id zs

module _ (server_id default_shield_id : ℕ) (r : Reads) where
  abbrev pub shield_for : Zone → Bytes
  shield_for z =
      let servers = opt_or r.servers [] in
      shield_upstream_for z (opt_or (find_server server_id servers) no_server) servers
        default_shield_id

  -- toAgentZones, with the shield, the firewall and the transforms
  abbrev pub agent_zone : Zone → AgentZone
  agent_zone z = record {
    cdn_hostname = z.cdn_hostname;
    custom_domain = opt_or z.custom_domain [];
    tls_mode = z.tls_mode;
    delivery = z.delivery;
    shield_upstream = shield_for z;
    tls_cert = [];
    tls_key = [];
    tls_cert_serial = [];
    waf = build_agent_waf r z;
    header_transforms = build_agent_transforms r z.id;
  }

  -- the zone of a custom domain, which has its parent's firewall and transforms
  abbrev pub custom_domain_agent_zone : CustomDomain → Zone → AgentZone
  custom_domain_agent_zone cd parent = record {
    cdn_hostname = cd.domain;
    custom_domain = [];
    tls_mode = codes "managed";
    delivery = parent.delivery;
    shield_upstream = [];
    tls_cert = [];
    tls_key = [];
    tls_cert_serial = [];
    waf = build_agent_waf r parent;
    header_transforms = build_agent_transforms r parent.id;
  }

  abbrev pub append_custom : CustomDomain → Option Zone → List AgentZone → List AgentZone
  append_custom cd none rest = rest
  append_custom cd (some parent) rest = custom_domain_agent_zone cd parent ∷ rest

  unfoldable pub custom_zones : List Zone → List CustomDomain → List AgentZone
  unfolding find_zone
  custom_zones zones [] = []
  custom_zones zones (cd ∷ cds) =
      append_custom cd (find_zone cd.zone_id zones) (custom_zones zones cds)

unfoldable pub first_cover : Bytes → List TlsCert → Option TlsCert
first_cover host [] = none
first_cover host (c ∷ cs) =
    if cert_covers (split_on b',' c.domains) host then some c else first_cover host cs

abbrev pub with_cert : Option TlsCert → AgentZone → AgentZone
with_cert none az = az
with_cert (some c) az = record az {
  tls_cert = c.full_chain;
  tls_key = c.priv_key;
  tls_cert_serial = c.serial;
}

abbrev pub served_host : AgentZone → Bytes
served_host az = if str_eq az.custom_domain [] then az.cdn_hostname else az.custom_domain

-- attachManagedCerts, for one zone
abbrev pub attach_managed_cert : List TlsCert → AgentZone → AgentZone
attach_managed_cert certs az =
    if str_eq az.tls_mode (codes "managed")
    then with_cert (first_cover (served_host az) certs) az
    else az

unfoldable pub zone_lines : List Zone → Bytes
zone_lines [] = []
zone_lines (z ∷ zs) =
    codes "z:"
    ++ (format_int z.id
        ++ (codes ":" ++ (format_int z.config_version ++ (codes ";" ++ zone_lines zs))))

unfoldable pub host_lines : List AgentZone → Bytes
host_lines [] = []
host_lines (a ∷ az) =
    codes "h:"
    ++ (a.cdn_hostname
        ++ (codes ":"
            ++ (a.tls_cert_serial
                ++ (codes ":" ++ (a.shield_upstream ++ (codes ";" ++ host_lines az))))))

pub data Answer : Type 0 where
  server_error : Answer
  not_modified : Bytes → Answer
  config : Bytes → List AgentZone → Answer

-- `digest` is the first 16 hexadecimal digits of SHA-256
module _ (digest : Bytes → Bytes) where
  abbrev pub config_etag : List Zone → List AgentZone → Bytes
  config_etag zones az = digest (zone_lines zones ++ host_lines az)

  abbrev pub quoted : Bytes → Bytes
  quoted etag = codes "\"" ++ (etag ++ codes "\"")

  abbrev pub answer_with : Bytes → Bytes → List AgentZone → Answer
  answer_with if_none_match etag az =
      if str_eq if_none_match (quoted etag) then not_modified etag else config etag az

  unfoldable pub agent_zones : ℕ → ℕ → Reads → List Zone → List AgentZone
  unfolding custom_zones first_cover
  agent_zones server_id default_shield_id r zones = map (attach_managed_cert (opt_or r.certs [])) (
      map (agent_zone server_id default_shield_id r) zones
      ++ custom_zones server_id default_shield_id r zones (opt_or r.custom_domains []))

  abbrev pub answer_zones : ℕ → ℕ → Bytes → Reads → Option (List Zone) → Answer
  answer_zones server_id default_shield_id if_none_match r none = server_error
  answer_zones server_id default_shield_id if_none_match r (some zones) =
      let az = agent_zones server_id default_shield_id r zones in
      answer_with if_none_match (config_etag zones az) az

  -- agentConfig, for the server that the token names
  unfoldable pub agent_config : ℕ → ℕ → Bytes → Reads → Answer
  unfolding agent_zones zone_lines host_lines
  agent_config server_id default_shield_id if_none_match r =
      answer_zones server_id default_shield_id if_none_match r r.server_zones
