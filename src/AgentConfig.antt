-- ===== src/AgentConfig.antt =====
-- The configuration of the agent, brisk-agent/config/config.go and source.go: defaults, validation,
-- and the zones that are pulled from the control plane. Zone and WireZone hold the fields that these
-- read or write; the others are copied along. Reading and decoding files is left out.
pub mod Defaults
pub mod Validate
pub mod Fetch
pub mod Quarantine
mod Examples
use brisk.Prelude.{Bytes, Bool, List, ℤ}

pub record Zone : Type 0 where
  pub domain : Bytes
  pub origin : Bytes
  pub tls : Bytes
  pub profile : Bytes
  pub playlist_ttl : Bytes
  pub segment_ttl : Bytes
  pub cors_origin : Bytes
  pub min_uses : ℤ

pub record Config : Type 0 where
  pub edge_id : Bytes
  pub mode : Bytes
  pub cache_dir : Bytes
  pub cache_max_size : Bytes
  pub tls_mode : Bytes
  pub letsencrypt_email : Bytes
  pub brotli_comp_level : ℤ
  pub resolver : Bytes
  pub waf_listen : Bytes
  pub edge_protect : Bool
  pub edge_max_conn_per_ip : ℤ
  pub edge_req_per_sec_per_ip : ℤ
  pub edge_req_burst : ℤ
  pub zones : List Zone

-- what url.Parse returns
pub record Url : Type 0 where
  pub scheme : Bytes
  pub host : Bytes
  pub port : Bytes

pub data ZoneError : Type 0 where
  domain_required origin_required scheme_not_http missing_host bad_profile bad_tls : ZoneError
  email_required : ZoneError
  bad_url : Bytes → ZoneError

pub data ConfigError : Type 0 where
  edge_id_required bad_mode no_zones bad_brotli_level bad_max_conn bad_req_rate : ConfigError
  bad_burst bad_tls_mode : ConfigError
  duplicate_domain : Bytes → ConfigError
  bad_zone : Bytes → ZoneError → ConfigError

-- a zone of the control plane's answer
pub record WireZone : Type 0 where
  pub cdn_hostname : Bytes
  pub custom_domain : Bytes
  pub origin_url : Bytes
  pub tls_mode : Bytes
  pub profile : Bytes
  pub playlist_ttl : Bytes
  pub segment_ttl : Bytes
  pub cors_origin : Bytes
  pub brotli_level : ℤ
