-- ===== src/AgentConfig/Examples.antt =====
-- An agent whose control plane sends one zone that cannot be rendered and one that can.
use brisk.Prelude.{
  Bytes, codes, str_eq, trim_space, ◌≡◌, refl, ◌⊎◌, inr, Option, some, none, true, List, [], ◌∷◌,
  pos, In, first, later,
}
use brisk.AgentConfig.{Zone, Config, Url, origin_required, WireZone}
use brisk.AgentConfig.Defaults.{zone_defaults, apply_defaults}
use brisk.AgentConfig.Validate.{
  valid_tls_mode, settings_error, origin_parts, zone_error, drop_invalid_zones,
}
use brisk.AgentConfig.Fetch.{to_zone, pulled, fetch}
use brisk.AgentConfig.Quarantine.{Kept, fetch-Kept, drop_invalid_zones-append}

-- every text is an address of the host o
abbrev parse : Bytes → Bytes ⊎ Url
parse text = inr (record { scheme = codes "https"; host = codes "o"; port = [] })

abbrev base : Config
base = record {
  edge_id = codes "de1";
  mode = [];
  cache_dir = [];
  cache_max_size = [];
  tls_mode = [];
  letsencrypt_email = [];
  brotli_comp_level = pos 0;
  resolver = [];
  waf_listen = [];
  edge_protect = true;
  edge_max_conn_per_ip = pos 0;
  edge_req_per_sec_per_ip = pos 5;
  edge_req_burst = pos 0;
  zones = [];
}

abbrev wire : Bytes → Bytes → WireZone
wire name origin = record {
  cdn_hostname = name;
  custom_domain = [];
  origin_url = origin;
  tls_mode = [];
  profile = codes "live";
  playlist_ttl = [];
  segment_ttl = [];
  cors_origin = [];
  brotli_level = pos 4;
}

abbrev cache : Option (List WireZone)
cache = some (wire (codes "bad") [] ∷ wire (codes "good") (codes "https://o") ∷ [])

abbrev good : Zone
good = zone_defaults (to_zone (wire (codes "good") (codes "https://o")))

abbrev bad : Zone
bad = zone_defaults (to_zone (wire (codes "bad") []))

settings : settings_error (pulled base cache) ≡ none
unfolding settings_error apply_defaults valid_tls_mode str_eq trim_space
settings = refl

listed : In good (pulled base cache).zones
unfolding apply_defaults
listed = later (first refl)

good_zone : zone_error parse (pulled base cache) good ≡ none
unfolding zone_error apply_defaults valid_tls_mode str_eq trim_space origin_parts
good_zone = refl

bad_zone : zone_error parse base bad ≡ some origin_required
unfolding zone_error str_eq trim_space origin_parts
bad_zone = refl

fetch-Kept_example :
    (cfg : Config) × (fetch parse base cache ≡ inr cfg)
    × Kept parse (pulled base cache) good cfg.zones
fetch-Kept_example = fetch-Kept parse base cache {z = good} settings listed good_zone

drop_invalid_zones-append_example :
    (drop_invalid_zones parse (record base { zones = good ∷ bad ∷ good ∷ [] })).0
    ≡ (drop_invalid_zones parse (record base { zones = good ∷ good ∷ [] })).0
drop_invalid_zones-append_example =
    drop_invalid_zones-append parse base (good ∷ []) (good ∷ []) bad {e = origin_required} bad_zone
