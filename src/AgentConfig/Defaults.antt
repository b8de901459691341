-- ===== src/AgentConfig/Defaults.antt =====
-- The two applyDefaults of config.go.
use brisk.Prelude.{
  Bytes, codes, str_eq, trim_space, Bool, ◌&&◌, not, [], map, if◌then◌else◌, ◌*◌, pos, pos_part,
  positive, eq_ℤ,
}
use brisk.AgentConfig.{Zone, Config}

abbrev pub or_default : Bytes → Bytes → Bytes
or_default s fallback = if str_eq s [] then fallback else s

abbrev pub blank : Bytes → Bool
blank s = str_eq (trim_space s) []

-- profileTTLDefaults
abbrev pub profile_ttl_defaults : Bytes → Bytes × Bytes
profile_ttl_defaults profile =
    if str_eq profile (codes "vod")
    then (codes "1h", codes "12h")
    else if str_eq profile (codes "live")
    then (codes "2s", codes "10s")
    else (codes "2s", codes "12h")

abbrev pub zone_defaults : Zone → Zone
zone_defaults z = record z {
  min_uses = if positive z.min_uses then z.min_uses else pos 1;
  cors_origin = or_default z.cors_origin (codes "*");
  playlist_ttl = or_default z.playlist_ttl (profile_ttl_defaults z.profile).0;
  segment_ttl = or_default z.segment_ttl (profile_ttl_defaults z.profile).1;
}

-- the product does not leave the machine's integers below 2^62
unfoldable pub apply_defaults : Config → Config
apply_defaults c = record c {
  mode = or_default c.mode (codes "local");
  cache_dir = or_default c.cache_dir (codes "/var/cache/brisk");
  cache_max_size = or_default c.cache_max_size (codes "200g");
  tls_mode = or_default c.tls_mode (codes "selfsigned");
  brotli_comp_level = if eq_ℤ c.brotli_comp_level (pos 0) then pos 5 else c.brotli_comp_level;
  resolver = if blank c.resolver then codes "1.1.1.1 8.8.8.8" else c.resolver;
  waf_listen = if blank c.waf_listen then codes "127.0.0.1:9555" else c.waf_listen;
  edge_max_conn_per_ip =
      if c.edge_protect && not (positive c.edge_max_conn_per_ip)
      then pos 200
      else c.edge_max_conn_per_ip;
  edge_req_burst =
      if c.edge_protect && (positive c.edge_req_per_sec_per_ip && not (positive c.edge_req_burst))
      then pos (pos_part c.edge_req_per_sec_per_ip * 2)
      else c.edge_req_burst;
  zones = map zone_defaults c.zones;
}
