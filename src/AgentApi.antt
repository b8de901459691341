-- ===== src/AgentApi.antt =====
-- The configuration that the control plane gives an agent, brisk-control/internal/api/agent.go: the
-- rows it reads, the origin shield of a zone, and the certificates that cover a host.
pub mod Rows
pub mod Answer
pub mod Stale
pub mod Cover
pub mod Shield
mod Examples
use brisk.Prelude.{
  ℕ, Bytes, codes, str_eq, equal_fold, to_lower, trim_space, strip, Option, none, some, Bool, true,
  false, not, ◌&&◌, ◌||◌, List, [], ◌∷◌, ◌++◌, ◌==◌, if◌then◌else◌, any, opt_or, ℤ,
}

-- what an edge needs to deliver a zone; its cache rules, cache settings and hotlink protection are
-- copied in the same way and left out
pub record Delivery : Type 0 where
  pub origin_url : Bytes
  pub host_header : Bytes
  pub video : Bool
  pub profile : Bytes
  pub playlist_ttl : Bytes
  pub segment_ttl : Bytes
  pub cors_origin : Bytes
  pub brotli_level : ℤ
  pub status : Bytes
  pub origin_ssl_verify : Bool
  pub origin_follow_redirects : Bool
  pub forward_host_header : Bool
  pub error_5xx_html : Bytes
  pub blocked_ips : Bytes
  pub block_root_path : Bool
  pub block_post : Bool

-- the columns of a zone that are read here
pub record Zone : Type 0 where
  pub id : ℕ
  pub config_version : ℕ
  pub cdn_hostname : Bytes
  pub custom_domain : Option Bytes
  pub tls_mode : Bytes
  pub delivery : Delivery
  pub origin_shield_enabled : Bool
  pub shield_server_id : Option ℕ
  pub waf_enabled : Bool
  pub waf_mode : Bytes
  pub waf_managed_ruleset : Bytes
  pub waf_paranoia : ℤ
  pub waf_fail_open : Bool
  pub waf_wp_preset : Bool

pub record Server : Type 0 where
  pub id : ℕ
  pub role : Bytes
  pub hostname : Option Bytes
  pub ip : Bytes
  pub status : Bytes
  pub drained : Bool
  pub health_status : Bytes

-- the map byID, of servers with distinct ids
unfoldable pub find_server : ℕ → List Server → Option Server
find_server id [] = none
find_server id (s ∷ ss) = if s.id == id then some s else find_server id ss

unfoldable pub shield_serving : Server → Bool
shield_serving s =
    equal_fold s.status (codes "online")
    && (not s.drained && not (equal_fold s.health_status (codes "unhealthy")))

abbrev pub is_shield : Server → Bool
is_shield s = equal_fold s.role (codes "shield")

abbrev pub named_or : Bytes → Bytes → Bytes
named_or name ip = if str_eq name [] then ip else name

abbrev pub shield_host : Server → Bytes
shield_host s = named_or (trim_space (opt_or s.hostname [])) s.ip

abbrev pub with_port : Bytes → Bytes
with_port host = if str_eq host [] then [] else host ++ codes ":443"

-- from the look-up of the shield on
abbrev pub upstream_of : Option Server → Bytes
upstream_of none = []
upstream_of (some shield) =
    if not (is_shield shield)
    then []
    else if not (shield_serving shield)
    then []
    else with_port (shield_host shield)

-- shieldUpstreamFor; "" is the origin
unfoldable pub shield_upstream_for : Zone → Server → List Server → ℕ → Bytes
unfolding find_server shield_serving
shield_upstream_for z me by_id default_shield_id =
    let shield_id = opt_or z.shield_server_id default_shield_id in
    if not z.origin_shield_enabled
    then []
    else if is_shield me
    then []
    else if shield_id == 0 || shield_id == me.id
    then []
    else upstream_of (find_server shield_id by_id)

-- strings.CutSuffix
abbrev pub cons_onto : ℕ → Option Bytes → Option Bytes
cons_onto c none = none
cons_onto c (some p) = some (c ∷ p)

unfoldable pub cut_suffix : Bytes → Bytes → Option Bytes
cut_suffix [] suffix = if str_eq [] suffix then some [] else none
cut_suffix (c ∷ s) suffix =
    let rest = cut_suffix s suffix in if str_eq (c ∷ s) suffix then some [] else cons_onto c rest

abbrev pub has_dot : Bytes → Bool
has_dot = any (λ c. c == b'.')

-- one label: not empty, and without a dot
abbrev pub one_label : Option Bytes → Bool
one_label none = false
one_label (some sub) = not (str_eq sub []) && not (has_dot sub)

abbrev pub wildcard_covers : Option Bytes → Bytes → Bool
wildcard_covers none host = false
wildcard_covers (some base) host = one_label (cut_suffix host (codes "." ++ base))

unfoldable pub norm : Bytes → Bytes
norm s = to_lower (trim_space s)

unfoldable pub covers_one : Bytes → Bytes → Bool
unfolding cut_suffix
covers_one d host = if str_eq d host then true else wildcard_covers (strip d (codes "*.")) host

-- certCovers
unfoldable pub cert_covers : List Bytes → Bytes → Bool
unfolding norm covers_one
cert_covers domains host = any (λ d. covers_one (norm d) (norm host)) domains
