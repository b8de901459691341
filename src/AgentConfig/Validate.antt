-- ===== src/AgentConfig/Validate.antt =====
-- Validate, zoneError, OriginParts and DropInvalidZones of config.go. url.Parse is a parameter.
use brisk.Prelude.{
  ℕ, suc, Bytes, codes, str_eq, trim_space, format_int, ◌⊎◌, inl, inr, Option, none, some, Bool,
  true, false, not, ◌&&◌, ◌||◌, List, [], ◌∷◌, ◌++◌, any, if◌then◌else◌, pos, pos_part, positive,
  leb, leb_ℤ,
}
use brisk.AgentConfig.{
  Zone, Config, Url, ZoneError, domain_required, origin_required, scheme_not_http, missing_host,
  bad_profile, bad_tls, email_required, bad_url, ConfigError, edge_id_required, bad_mode, no_zones,
  bad_brotli_level, bad_max_conn, bad_req_rate, bad_burst, bad_tls_mode, duplicate_domain, bad_zone,
}
use brisk.AgentConfig.Defaults.{blank}

unfoldable pub valid_tls_mode : Bytes → Bool
valid_tls_mode mode =
    str_eq mode (codes "selfsigned")
    || str_eq mode (codes "mkcert")
    || str_eq mode (codes "letsencrypt")
    || str_eq mode (codes "managed")

-- ZoneTLSMode
abbrev pub zone_tls_mode : Config → Zone → Bytes
zone_tls_mode c z =
    if str_eq z.tls []
    then (if str_eq c.tls_mode [] then codes "selfsigned" else c.tls_mode)
    else z.tls

abbrev pub is_empty : List Zone → Bool
is_empty [] = true
is_empty (z ∷ zs) = false

abbrev pub limits_error : Config → Option ConfigError
limits_error c =
    if not (positive c.edge_max_conn_per_ip)
    then some bad_max_conn
    else if not (leb_ℤ (pos 0) c.edge_req_per_sec_per_ip)
    then some bad_req_rate
    else if not (leb_ℤ (pos 0) c.edge_req_burst)
    then some bad_burst
    else none

abbrev pub or_else : Option ConfigError → Option ConfigError → Option ConfigError
or_else (some e) rest = some e
or_else none rest = rest

-- Validate before its loop over the zones
unfoldable pub settings_error : Config → Option ConfigError
unfolding valid_tls_mode
settings_error c =
    if blank c.edge_id
    then some edge_id_required
    else if not (str_eq c.mode (codes "local") || str_eq c.mode (codes "production"))
    then some bad_mode
    else if is_empty c.zones
    then some no_zones
    else if not (positive c.brotli_comp_level && leb (pos_part c.brotli_comp_level) 11)
    then some bad_brotli_level
    else or_else (if c.edge_protect then limits_error c else none)
        (if valid_tls_mode c.tls_mode then none else some bad_tls_mode)

-- the map `seen`
abbrev pub has_seen : Bytes → List Bytes → Bool
has_seen dom seen = not (str_eq dom []) && any (str_eq dom) seen

-- a zone that was dropped, and why
pub data Dropped : Type 0 where
  duplicate : Bytes → Dropped
  invalid : Bytes → ZoneError → Dropped

abbrev pub label : ℕ → Bytes → Bytes
label i domain = if blank domain then codes "zone[" ++ (format_int i ++ codes "]") else domain

module _ (parse_url : Bytes → Bytes ⊎ Url) where
  abbrev pub host_port : Url → Bytes
  host_port u =
      if str_eq u.port []
      then u.host ++ (if str_eq u.scheme (codes "https") then codes ":443" else codes ":80")
      else u.host

  abbrev pub url_parts : Bytes ⊎ Url → ZoneError ⊎ (Bytes × Bytes)
  url_parts (inl text) = inl (bad_url text)
  url_parts (inr u) =
      if not (str_eq u.scheme (codes "http")) && not (str_eq u.scheme (codes "https"))
      then inl scheme_not_http
      else if str_eq u.host []
      then inl missing_host
      else inr (u.scheme, host_port u)

  unfoldable pub origin_parts : Zone → ZoneError ⊎ (Bytes × Bytes)
  origin_parts z = if blank z.origin then inl origin_required else url_parts (parse_url z.origin)

  abbrev pub after_origin : Config → Zone → ZoneError ⊎ (Bytes × Bytes) → Option ZoneError
  after_origin c z (inl e) = some e
  after_origin c z (inr parts) =
      if not (str_eq z.profile [])
        && (not (str_eq z.profile (codes "vod")) && not (str_eq z.profile (codes "live")))
      then some bad_profile
      else if not (valid_tls_mode (zone_tls_mode c z))
      then some bad_tls
      else if str_eq (zone_tls_mode c z) (codes "letsencrypt") && blank c.letsencrypt_email
      then some email_required
      else none

  unfoldable pub zone_error : Config → Zone → Option ZoneError
  unfolding origin_parts valid_tls_mode
  zone_error c z =
      if blank z.domain then some domain_required else after_origin c z (origin_parts z)

  module _ (c : Config) where
    abbrev pub after_zone : Zone → Option ZoneError → Option ConfigError → Option ConfigError
    after_zone z (some e) rest = some (bad_zone z.domain e)
    after_zone z none rest = rest

    -- the loop of Validate
    unfoldable pub zones_error : List Bytes → List Zone → Option ConfigError
    unfolding zone_error
    zones_error seen [] = none
    zones_error seen (z ∷ zs) =
        let rest = zones_error (trim_space z.domain ∷ seen) zs in
        if has_seen (trim_space z.domain) seen
        then some (duplicate_domain z.domain)
        else after_zone z (zone_error c z) rest

    abbrev pub sort_out :
        Option ZoneError
        → ℕ
        → Zone
        → List Zone × List Dropped
        → List Zone × List Dropped
        → List Zone × List Dropped
    sort_out (some e) i z kept skipped = (skipped.0, invalid (label i z.domain) e ∷ skipped.1)
    sort_out none i z kept skipped = (z ∷ kept.0, kept.1)

    -- the loop of DropInvalidZones, from the zone with this index
    unfoldable pub drop_from : ℕ → List Bytes → List Zone → List Zone × List Dropped
    unfolding zone_error
    drop_from i seen [] = ([], [])
    drop_from i seen (z ∷ zs) =
        let kept = drop_from (suc i) (trim_space z.domain ∷ seen) zs in
        let skipped = drop_from (suc i) seen zs in
        if has_seen (trim_space z.domain) seen
        then (skipped.0, duplicate z.domain ∷ skipped.1)
        else sort_out (zone_error c z) i z kept skipped

  unfoldable pub validate : Config → Option ConfigError
  unfolding settings_error zones_error
  validate c = or_else (settings_error c) (zones_error c [] c.zones)

  unfoldable pub drop_invalid_zones : Config → Config × List Dropped
  unfolding drop_from
  drop_invalid_zones c =
      let (kept, dropped) = drop_from c 0 [] c.zones in (record c { zones = kept }, dropped)
