-- ===== src/AgentApi/Rows.antt =====
-- What agentConfig of brisk-control/internal/api/agent.go reads and answers for a zone: the rows of
-- the database, the answer's types, buildAgentWAF and buildAgentTransforms. `none` is an error of a
-- read.
use brisk.Prelude.{
  ℕ, Bytes, Option, none, some, Bool, true, not, List, [], if◌then◌else◌, map, keep, opt_or, ℤ,
}
use brisk.AgentApi.{Delivery, Zone, Server}

-- a row of waf_rules; of waf_rate_limits; of header_transforms
pub record WafRule : Type 0 where
  pub id : ℕ
  pub priority : ℤ
  pub field : Bytes
  pub op : Bytes
  pub value : Bytes
  pub header_name : Option Bytes
  pub action : Bytes
  pub enabled : Bool

pub record RateLimit : Type 0 where
  pub id : ℕ
  pub path_match : Bytes
  pub match_type : Bytes
  pub requests : ℤ
  pub period_seconds : ℤ
  pub burst : ℤ
  pub key : Bytes
  pub action : Bytes
  pub count_mode : Bytes
  pub enabled : Bool

pub record HeaderTransform : Type 0 where
  pub priority : ℤ
  pub phase : Bytes
  pub op : Bytes
  pub header : Bytes
  pub value : Option Bytes
  pub match_type : Bytes
  pub match_value : Option Bytes
  pub enabled : Bool

pub record AgentWafRule : Type 0 where
  pub id : ℕ
  pub priority : ℤ
  pub field : Bytes
  pub op : Bytes
  pub value : Bytes
  pub header_name : Bytes
  pub action : Bytes
  pub enabled : Bool

pub record AgentWaf : Type 0 where
  pub enabled : Bool
  pub mode : Bytes
  pub managed_ruleset : Bytes
  pub paranoia : ℤ
  pub fail_open : Bool
  pub wp_preset : Bool
  pub rules : List AgentWafRule
  pub rate_limits : List RateLimit

pub record AgentHeaderTransform : Type 0 where
  pub priority : ℤ
  pub phase : Bytes
  pub op : Bytes
  pub header : Bytes
  pub value : Bytes
  pub match_type : Bytes
  pub match_value : Bytes

pub record AgentZone : Type 0 where
  pub cdn_hostname : Bytes
  pub custom_domain : Bytes
  pub tls_mode : Bytes
  pub delivery : Delivery
  pub shield_upstream : Bytes
  pub tls_cert : Bytes
  pub tls_key : Bytes
  pub tls_cert_serial : Bytes
  pub waf : Option AgentWaf
  pub header_transforms : List AgentHeaderTransform

-- the columns of a custom domain and of a certificate that are read
pub record CustomDomain : Type 0 where
  pub zone_id : ℕ
  pub domain : Bytes

pub record TlsCert : Type 0 where
  pub domains : Bytes
  pub full_chain : Bytes
  pub priv_key : Bytes
  pub serial : Bytes

-- the reads of one request: the zones and the active custom domains of the server, the servers, and
-- the rows of a zone
pub record Reads : Type 0 where
  pub server_zones : Option (List Zone)
  pub servers : Option (List Server)
  pub waf_rules : ℕ → Option (List WafRule)
  pub rate_limits : ℕ → Option (List RateLimit)
  pub transforms : ℕ → Option (List HeaderTransform)
  pub custom_domains : Option (List CustomDomain)
  pub certs : Option (List TlsCert)

abbrev pub agent_rule : WafRule → AgentWafRule
agent_rule ru = record {
  id = ru.id;
  priority = ru.priority;
  field = ru.field;
  op = ru.op;
  value = ru.value;
  header_name = opt_or ru.header_name [];
  action = ru.action;
  enabled = true;
}

abbrev pub live_rules : Option (List WafRule) → List AgentWafRule
live_rules rules = map agent_rule (keep (λ (ru : WafRule). ru.enabled) (opt_or rules []))

abbrev pub live_limits : Option (List RateLimit) → List RateLimit
live_limits limits = keep (λ (rl : RateLimit). rl.enabled) (opt_or limits [])

-- buildAgentWAF
abbrev pub build_agent_waf : Reads → Zone → Option AgentWaf
build_agent_waf r z =
    if not z.waf_enabled
    then none
    else some (record {
      enabled = true;
      mode = z.waf_mode;
      managed_ruleset = z.waf_managed_ruleset;
      paranoia = z.waf_paranoia;
      fail_open = z.waf_fail_open;
      wp_preset = z.waf_wp_preset;
      rules = live_rules (r.waf_rules z.id);
      rate_limits = live_limits (r.rate_limits z.id);
    })

abbrev pub agent_transform : HeaderTransform → AgentHeaderTransform
agent_transform t = record {
  priority = t.priority;
  phase = t.phase;
  op = t.op;
  header = t.header;
  value = opt_or t.value [];
  match_type = t.match_type;
  match_value = opt_or t.match_value [];
}

-- buildAgentTransforms
abbrev pub build_agent_transforms : Reads → ℕ → List AgentHeaderTransform
build_agent_transforms r zone_id =
    map agent_transform
      (keep (λ (t : HeaderTransform). t.enabled) (opt_or (r.transforms zone_id) []))
