-- ===== src/AgentConfig/Fetch.antt =====
-- Fetch of source.go: the agent's own settings with the zones of the cached answer of the control
-- plane. The cache is an argument, `none` where it cannot be read.
use brisk.Prelude.{
  Bytes, str_eq, ◌⊎◌, inl, inr, Option, none, some, List, [], ◌∷◌, map, if◌then◌else◌, pos,
  positive,
}
use brisk.AgentConfig.{Zone, Config, Url, ConfigError, WireZone}
use brisk.AgentConfig.Defaults.{apply_defaults}
use brisk.AgentConfig.Validate.{validate, drop_invalid_zones}

abbrev pub to_zone : WireZone → Zone
to_zone wz = record {
  domain = if str_eq wz.custom_domain [] then wz.cdn_hostname else wz.custom_domain;
  origin = wz.origin_url;
  tls = wz.tls_mode;
  profile = wz.profile;
  playlist_ttl = wz.playlist_ttl;
  segment_ttl = wz.segment_ttl;
  cors_origin = wz.cors_origin;
  min_uses = pos 1;
}

abbrev pub overlay : Config → Option (List WireZone) → Config
overlay base none = base
overlay base (some []) = base
overlay base (some (wz ∷ wzs)) = record base {
  zones = to_zone wz ∷ map to_zone wzs;
  brotli_comp_level = if positive wz.brotli_level then wz.brotli_level else base.brotli_comp_level;
}

-- the configuration before the zones are sorted out
abbrev pub pulled : Config → Option (List WireZone) → Config
pulled base cache = apply_defaults (overlay base cache)

abbrev pub accept : Config → Option ConfigError → ConfigError ⊎ Config
accept c (some e) = inl e
accept c none = inr c

unfoldable pub fetch :
    (Bytes → Bytes ⊎ Url) → Config → Option (List WireZone) → ConfigError ⊎ Config
unfolding apply_defaults validate drop_invalid_zones
fetch parse_url base cache =
    let c = (drop_invalid_zones parse_url (pulled base cache)).0 in accept c (validate parse_url c)
