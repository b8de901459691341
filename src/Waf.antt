-- ===== src/Waf.antt =====
-- The web application firewall of the agent, brisk-agent/waf: what the engine keeps for each zone,
-- and the events that it records. The regular expressions, the address ranges, the OWASP engine and
-- the hash of the configuration are libraries that the agent only calls.
pub mod Buffer
pub mod Build
pub mod Inspect
pub mod Modes
pub mod Reuse
pub mod Bounds
pub mod Refine
mod Examples
use brisk.Prelude.{ℕ, Bytes, Option, Bool, List, ℤ}

-- type ZoneWAFRule of brisk-agent/config/config.go
pub record ZoneWafRule : Type 0 where
  pub id : ℕ
  pub priority : ℤ
  pub field : Bytes
  pub op : Bytes
  pub value : Bytes
  pub header_name : Bytes
  pub action : Bytes
  pub enabled : Bool

-- what `fingerprint` hashes: the configuration that the engine depends on
pub record EngineConfig : Type 0 where
  pub mode : Bytes
  pub managed_ruleset : Bytes
  pub paranoia : ℤ
  pub fail_open : Bool
  pub wp_preset : Bool
  pub rules : List ZoneWafRule

-- type ZoneWAF of config.go, without the rate limits, which nginx enforces
pub record ZoneWafConfig : Type 0 where
  pub enabled : Bool
  pub mode : Bytes
  pub managed_ruleset : Bytes
  pub paranoia : ℤ
  pub fail_open : Bool
  pub wp_preset : Bool
  pub rules : List ZoneWafRule

-- the fields of config.Zone that Reload reads
pub record Zone : Type 0 where
  pub domain : Bytes
  pub waf : Option ZoneWafConfig

-- `header` is Header.Get
pub record InspectReq : Type 0 where
  pub host : Bytes
  pub method : Bytes
  pub uri : Bytes
  pub client_ip : Bytes
  pub user_agent : Bytes
  pub country : Bytes
  pub header : Bytes → Bytes

-- an interruption has the id of its rule and its text
pub data Verdict : Type 0 where
  passes : Verdict
  interrupts : ℕ → Bytes → Verdict
  engine_error : Bytes → Verdict

pub record Libs : Type 1 where
  pub Regex : Type 0
  pub compile_regex : Bytes → Option Regex
  pub match_regex : Regex → Bytes → Bool
  pub Cidr : Type 0
  pub parse_cidr : Bytes → Option Cidr
  -- the address parses and lies in the range
  pub contains_ip : Cidr → Bytes → Bool
  pub Coraza : Type 0
  -- the engine with the core rule set at a paranoia level
  pub new_coraza : ℕ → Option Coraza
  pub inspect_coraza : Coraza → InspectReq → Verdict
  -- the digest of a configuration, and the comparison of two digests
  pub Digest : Type 0
  pub digest : EngineConfig → Digest
  pub same_digest : Digest → Digest → Bool
  -- the scanners' names of wpPresetRules
  pub bad_ua : Regex
