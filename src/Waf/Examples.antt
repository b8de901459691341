-- ===== src/Waf/Examples.antt =====
-- A zone in detect mode, a buffer of two events, and a second reload.
use brisk.Prelude.{
  ℕ, Bytes, codes, ◌≡◌, refl, some, none, Bool, true, false, List, [], ◌∷◌, pos, length, arith,
  lookup, to_lower, str_eq,
}
use native.Mathlib.Decide.{ℕ_discrete}
use brisk.Waf.{ZoneWafRule, EngineConfig, Zone, InspectReq, engine_error, Libs}
use brisk.Waf.Buffer.{Event}
use brisk.Waf.Build.{ZoneWaf, reload}
use brisk.Waf.Inspect.{inspect}
use brisk.Waf.Modes.{decisive, inspect_blocks, inspect_detect}
use brisk.Waf.Reuse.{reload_all, reload-reload_all}
use brisk.Prelude.{◌++◌}
use brisk.Waf.Refine.{
  Op, record_event, start_flush, finish_flush, idle, run_ops, spec_op, spec_ops, run_ops-spec_ops,
}

ZoneWafRule-discrete : Discrete ZoneWafRule
ZoneWafRule-discrete = hlevel ℕ_discrete

EngineConfig-discrete : Discrete EngineConfig
EngineConfig-discrete = hlevel (ℕ_discrete, ZoneWafRule-discrete)

abbrev same_config : {c d : EngineConfig} → Dec (c ≡ d) → Bool
same_config (yes e) = true
same_config (no ne) = false

same_config_lem : {c d : EngineConfig} (e : Dec (c ≡ d)) → same_config e ≡ true → c ≡ d
same_config_lem (yes e) h = e
same_config_lem (no ne) h = cc

-- expressions and ranges are texts that match themselves, and the engine always fails
abbrev broken : Libs
broken = record {
  Regex = Bytes;
  compile_regex = λ s. some s;
  match_regex = str_eq;
  Cidr = Bytes;
  parse_cidr = λ s. some s;
  contains_ip = str_eq;
  Coraza = ℕ;
  new_coraza = λ level. some level;
  inspect_coraza = λ w req. engine_error (codes "panic");
  Digest = EngineConfig;
  digest = λ c. c;
  same_digest = λ c d. same_config (EngineConfig-discrete c d);
  bad_ua = codes "sqlmap";
}

abbrev detecting : ZoneWaf broken
detecting = record {
  host = codes "a";
  mode = codes "detect";
  fail_open = false;
  managed = true;
  waf = some 1;
  rules = [];
  fingerprint = record {
    mode = codes "detect";
    managed_ruleset = codes "owasp_crs";
    paranoia = pos 1;
    fail_open = false;
    wp_preset = false;
    rules = [];
  };
}

abbrev request : InspectReq
request = record {
  host = codes "A";
  method = codes "GET";
  uri = codes "/x?y";
  client_ip = codes "192.0.2.7";
  user_agent = [];
  country = [];
  header = λ name. [];
}

served : lookup (to_lower request.host) ((codes "a", detecting) ∷ []) ≡ some detecting
unfolding lookup to_lower str_eq
served = refl

inspect_blocks_example : (inspect broken 5 ((codes "a", detecting) ∷ []) request none).0 ≡ true
unfolding decisive str_eq
inspect_blocks_example =
    inspect_blocks broken 5 ((codes "a", detecting) ∷ []) request none {zw = detecting} served

blocked : (inspect broken 5 ((codes "a", detecting) ∷ []) request none).0 ≡ true
unfolding inspect lookup to_lower str_eq
blocked = refl

detects : str_eq detecting.mode (codes "block") ≡ false
unfolding str_eq
detects = refl

-- a request is blocked in detect mode
inspect_detect_example :
    (false ≡ false)
    × ((w : ℕ) × (some 1 ≡ some w)
        × ((text : Bytes) × (broken.inspect_coraza w request ≡ engine_error text)))
inspect_detect_example =
    inspect_detect broken 5 ((codes "a", detecting) ∷ []) request none {zw = detecting} served
      detects blocked

abbrev logged : ℕ → Event
logged t = record {
  ts = t;
  zone = [];
  client_ip = [];
  country = [];
  rule_id = [];
  rule_type = [];
  action = [];
  mode = [];
  path = [];
  method = [];
  ua = [];
  message = [];
}

-- the shipment of 1 and 2 fails after 3 was recorded
abbrev ops : List Op
ops =
    record_event (logged 1)
    ∷ record_event (logged 2)
    ∷ start_flush
    ∷ record_event (logged 3)
    ∷ finish_flush false
    ∷ []

run_ops-spec_ops_example :
    let kept = (run_ops ops (idle 2 (omega arith))).buffer.buf in
    ((old : List Event) × (logged 1 ∷ logged 2 ∷ logged 3 ∷ [] ≡ old ++ kept)) × (length kept ≡ 2)
unfolding spec_op spec_ops
run_ops-spec_ops_example = run_ops-spec_ops 2 (omega arith) ops

abbrev zone : Bytes → Zone
zone mode = record {
  domain = codes "a";
  waf = some (record {
    enabled = true;
    mode = mode;
    managed_ruleset = codes "owasp_crs";
    paranoia = pos 9;
    fail_open = false;
    wp_preset = true;
    rules = [];
  });
}

reload-reload_all_example :
    reload broken
      (zone (codes "block") ∷ [])
      (reload_all broken ((zone (codes "block") ∷ []) ∷ (zone (codes "detect") ∷ []) ∷ []) [])
    ≡ reload broken (zone (codes "block") ∷ []) []
reload-reload_all_example =
    reload-reload_all broken (λ c d h. same_config_lem (EngineConfig-discrete c d) h)
      ((zone (codes "block") ∷ []) ∷ (zone (codes "detect") ∷ []) ∷ []) (zone (codes "block") ∷ [])
