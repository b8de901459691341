-- ===== src/Waf/Build.antt =====
-- Reload and buildZoneWAF of brisk-agent/waf/waf.go: the configuration of the zones, compiled.
use brisk.Prelude.{
  ℕ, Bytes, codes, str_eq, equal_fold, to_lower, Option, none, some, Bool, true, false, List, [],
  ◌∷◌, ◌++◌, if◌then◌else◌, ℤ, leb_ℤ, positive, pos_part, leb, ◌&&◌, Assoc, lookup, insert,
  format_int,
}
use brisk.Waf.{ZoneWafRule, EngineConfig, ZoneWafConfig, Zone, Libs}

module _ (L : Libs) where
  pub record CompiledRule : Type 0 where
    pub rule_id : Bytes
    pub field : Bytes
    pub op : Bytes
    pub value : Bytes
    pub header_name : Bytes
    pub action : Bytes
    pub re : Option L.Regex
    pub cidr : Option L.Cidr

  pub record ZoneWaf : Type 0 where
    pub host : Bytes
    pub mode : Bytes
    pub fail_open : Bool
    pub managed : Bool
    pub waf : Option L.Coraza
    pub rules : List CompiledRule
    pub fingerprint : L.Digest

  abbrev pub mode_or : Bytes → Bytes
  mode_or m = if equal_fold m (codes "block") then codes "block" else codes "detect"

  abbrev pub engine_config : ZoneWafConfig → EngineConfig
  engine_config zw = record {
    mode = zw.mode;
    managed_ruleset = zw.managed_ruleset;
    paranoia = zw.paranoia;
    fail_open = zw.fail_open;
    wp_preset = zw.wp_preset;
    rules = zw.rules;
  }

  abbrev pub fingerprint_of : ZoneWafConfig → L.Digest
  fingerprint_of zw = L.digest (engine_config zw)

  abbrev pub plain_rule : ZoneWafRule → Option L.Regex → Option L.Cidr → CompiledRule
  plain_rule cr re cidr = record {
    rule_id = codes "custom:" ++ format_int cr.id;
    field = cr.field;
    op = cr.op;
    value = cr.value;
    header_name = cr.header_name;
    action = cr.action;
    re = re;
    cidr = cidr;
  }

  abbrev pub with_regex : ZoneWafRule → Option L.Regex → Option CompiledRule
  with_regex cr none = none
  with_regex cr (some re) = some (plain_rule cr (some re) none)

  abbrev pub with_cidr : ZoneWafRule → Option L.Cidr → Option CompiledRule
  with_cidr cr none = none
  with_cidr cr (some net) = some (plain_rule cr none (some net))

  -- none for a rule that does not compile
  unfoldable pub compile_rule : ZoneWafRule → Option CompiledRule
  compile_rule cr =
      if str_eq cr.op (codes "regex")
      then with_regex cr (L.compile_regex cr.value)
      else if str_eq cr.op (codes "cidr")
      then with_cidr cr (L.parse_cidr cr.value)
      else some (plain_rule cr none none)

  abbrev pub wp_preset_rules : List CompiledRule
  wp_preset_rules =
      record {
        rule_id = codes "wp:xmlrpc";
        field = codes "path";
        op = codes "eq";
        value = codes "/xmlrpc.php";
        header_name = [];
        action = codes "block";
        re = none;
        cidr = none;
      }
      ∷ record {
        rule_id = codes "wp:bad_ua";
        field = codes "user_agent";
        op = codes "regex";
        value =
            codes
              "(?i)(sqlmap|nikto|nmap|masscan|wpscan|nessus|fimap|acunetix|whatweb|libwww-perl)";
        header_name = [];
        action = codes "block";
        re = some L.bad_ua;
        cidr = none;
      }
      ∷ []

  -- sort.SliceStable by priority
  unfoldable pub insert_rule : ZoneWafRule → List ZoneWafRule → List ZoneWafRule
  insert_rule r [] = r ∷ []
  insert_rule r (s ∷ ss) = if leb_ℤ r.priority s.priority then r ∷ s ∷ ss else s ∷ insert_rule r ss

  unfoldable pub sort_rules : List ZoneWafRule → List ZoneWafRule
  unfolding insert_rule
  sort_rules [] = []
  sort_rules (r ∷ rs) = insert_rule r (sort_rules rs)

  abbrev pub cons_compiled : Option CompiledRule → List CompiledRule → List CompiledRule
  cons_compiled none rs = rs
  cons_compiled (some r) rs = r ∷ rs

  -- disabled rules and those that do not compile are left out
  unfoldable pub compile_rules : List ZoneWafRule → List CompiledRule
  unfolding compile_rule
  compile_rules [] = []
  compile_rules (cr ∷ crs) =
      let rest = compile_rules crs in
      if cr.enabled then cons_compiled (compile_rule cr) rest else rest

  abbrev pub zone_waf : Bytes → EngineConfig → Bool → Option L.Coraza → ZoneWaf
  zone_waf host c managed waf = record {
    host = host;
    mode = mode_or c.mode;
    fail_open = c.fail_open;
    managed = managed;
    waf = waf;
    rules = (if c.wp_preset then wp_preset_rules else []) ++ compile_rules (sort_rules c.rules);
    fingerprint = L.digest c;
  }

  -- a level outside 1 to 4 is 1
  abbrev pub paranoia_level : ℤ → ℕ
  paranoia_level p = if positive p && leb (pos_part p) 4 then pos_part p else 1

  unfoldable pub compile_coraza : ℤ → Option L.Coraza
  compile_coraza paranoia = L.new_coraza (paranoia_level paranoia)

  abbrev pub with_coraza : Bytes → EngineConfig → Option L.Coraza → Option ZoneWaf
  with_coraza host c none = none
  with_coraza host c (some w) = some (zone_waf host c true (some w))

  -- buildZoneWAF; it reads what `engine_config` keeps
  unfoldable pub build_zone_waf : Bytes → EngineConfig → Option ZoneWaf
  unfolding compile_rules sort_rules compile_coraza
  build_zone_waf host c =
      if equal_fold c.managed_ruleset (codes "owasp_crs")
      then with_coraza host c (compile_coraza c.paranoia)
      else some (zone_waf host c false none)

  abbrev pub put_zone : Bytes → Option ZoneWaf → Assoc ZoneWaf → Assoc ZoneWaf
  put_zone host none next = next
  put_zone host (some zw) next = insert host zw next

  -- the compiled zone of the last reload, if its configuration is the same; else a new one
  abbrev pub reuse_or_build : Option ZoneWaf → Bytes → ZoneWafConfig → Option ZoneWaf
  reuse_or_build none host zw = build_zone_waf host (engine_config zw)
  reuse_or_build (some prev) host zw =
      if L.same_digest prev.fingerprint (fingerprint_of zw)
      then some prev
      else build_zone_waf host (engine_config zw)

  abbrev pub reload_zone :
      Assoc ZoneWaf → Bytes → Option ZoneWafConfig → Assoc ZoneWaf → Assoc ZoneWaf
  reload_zone old host none next = next
  reload_zone old host (some zw) next =
      if zw.enabled then put_zone host (reuse_or_build (lookup host old) host zw) next else next

  unfoldable pub reload_from : Assoc ZoneWaf → List Zone → Assoc ZoneWaf → Assoc ZoneWaf
  unfolding build_zone_waf
  reload_from old [] next = next
  reload_from old (z ∷ zs) next =
      reload_from old zs (reload_zone old (to_lower z.domain) z.waf next)

  -- Reload
  unfoldable pub reload : List Zone → Assoc ZoneWaf → Assoc ZoneWaf
  unfolding reload_from
  reload zones old = reload_from old zones []
