-- ===== src/Waf/Inspect.antt =====
-- Inspect of brisk-agent/waf/waf.go, and the handler of server.go that calls it. The answer is
-- whether the request is blocked, and the buffer with the events; `none` is an agent that ships none.
use brisk.Prelude.{
  ℕ, Bytes, codes, str_eq, equal_fold, has_prefix, to_lower, cut, Option, none, some, Bool, true,
  false, List, [], ◌∷◌, ◌++◌, if◌then◌else◌, Assoc, lookup, format_int,
}
use brisk.Waf.{InspectReq, Verdict, passes, interrupts, engine_error, Libs}
use brisk.Waf.Buffer.{Event, EventBuffer, add_event}
use brisk.Waf.Build.{CompiledRule, ZoneWaf}

abbrev pub path_only : Bytes → Bytes
path_only uri = (cut b'?' uri).0

-- crsMessage
abbrev pub crs_message : ℕ → Bytes → Bytes
crs_message rule_id text =
    codes "CRS rule " ++ (format_int rule_id ++ (if str_eq text [] then [] else codes ": " ++ text))

module _ (L : Libs) (now : ℕ) where
  abbrev pub match_re : Option L.Regex → Bytes → Bool
  match_re none s = false
  match_re (some re) s = L.match_regex re s

  abbrev pub in_cidr : Option L.Cidr → Bytes → Bool
  in_cidr none ip = false
  in_cidr (some net) ip = L.contains_ip net ip

  unfoldable pub match_str : CompiledRule L → Bytes → Bool
  match_str r s =
      if str_eq r.op (codes "eq")
      then equal_fold s r.value
      else if str_eq r.op (codes "prefix")
      then has_prefix s r.value
      else if str_eq r.op (codes "regex")
      then match_re r.re s
      else false

  unfoldable pub match_ip : CompiledRule L → Bytes → Bool
  match_ip r ip =
      if str_eq r.op (codes "cidr")
      then in_cidr r.cidr ip
      else if str_eq r.op (codes "eq")
      then str_eq ip r.value
      else if str_eq r.op (codes "prefix")
      then has_prefix ip r.value
      else if str_eq r.op (codes "regex")
      then match_re r.re ip
      else false

  unfoldable pub rule_matches : CompiledRule L → InspectReq → Bytes → Bool
  unfolding match_str match_ip
  rule_matches r req path =
      if str_eq r.field (codes "ip")
      then match_ip r req.client_ip
      else if str_eq r.field (codes "country")
      then (if str_eq req.country [] then false else match_str r req.country)
      else if str_eq r.field (codes "path")
      then match_str r path
      else if str_eq r.field (codes "method")
      then match_str r req.method
      else if str_eq r.field (codes "user_agent")
      then match_str r req.user_agent
      else if str_eq r.field (codes "header")
      then match_str r (req.header r.header_name)
      else false

  abbrev pub event : ZoneWaf L → InspectReq → Bytes → Bytes → Bytes → Bytes → Bytes → Event
  event zw req path rule_id rule_type action message = record {
    ts = now;
    zone = zw.host;
    client_ip = req.client_ip;
    country = req.country;
    rule_id = rule_id;
    rule_type = rule_type;
    action = action;
    mode = zw.mode;
    path = path;
    method = req.method;
    ua = req.user_agent;
    message = message;
  }

  abbrev pub emit : Event → Option EventBuffer → Option EventBuffer
  emit ev none = none
  emit ev (some b) = some (add_event ev b)

  -- the zone's mode, applied to a rule that ends the inspection
  unfoldable pub decide :
      ZoneWaf L
      → InspectReq
      → Bytes
      → Bytes
      → Bytes
      → Bytes
      → Bytes
      → Option EventBuffer
      → Bool × Option EventBuffer
  decide zw req path rule_type rule_id action message buf =
      if str_eq zw.mode (codes "block")
      then (true, emit (event zw req path rule_id rule_type action message) buf)
      else (false, emit (event zw req path rule_id rule_type (codes "detect") message) buf)

  -- an error of the OWASP engine: open or closed, by the zone's policy
  unfoldable pub fail_policy :
      ZoneWaf L → InspectReq → Bytes → Bytes → Option EventBuffer → Bool × Option EventBuffer
  fail_policy zw req path text buf =
      let message = codes "waf engine error: " ++ text in
      if zw.fail_open
      then (
        false,
        emit (event zw req path (codes "engine_error") (codes "managed") (codes "log") message) buf,
      )
      else (
        true,
        emit (event zw req path (codes "engine_error") (codes "managed") (codes "block") message)
            buf,
      )

  abbrev pub after_verdict :
      ZoneWaf L → InspectReq → Bytes → Verdict → Option EventBuffer → Bool × Option EventBuffer
  after_verdict zw req path passes buf = (false, buf)
  after_verdict zw req path (engine_error text) buf = fail_policy zw req path text buf
  after_verdict zw req path (interrupts rule_id text) buf =
      decide zw req path (codes "managed") (codes "crs:" ++ format_int rule_id) (codes "block")
        (crs_message rule_id text) buf

  abbrev pub managed_by :
      ZoneWaf L
      → InspectReq
      → Bytes
      → Option L.Coraza
      → Option EventBuffer
      → Bool × Option EventBuffer
  managed_by zw req path none buf = (false, buf)
  managed_by zw req path (some w) buf = after_verdict zw req path (L.inspect_coraza w req) buf

  -- the managed rules
  unfoldable pub inspect_managed :
      ZoneWaf L → InspectReq → Bytes → Option EventBuffer → Bool × Option EventBuffer
  unfolding fail_policy decide
  inspect_managed zw req path buf =
      if zw.managed then managed_by zw req path zw.waf buf else (false, buf)

  -- the custom rules in order; what ends the loop is `allow`, or any action but `log`
  unfoldable pub inspect_rules :
      ZoneWaf L
      → InspectReq
      → Bytes
      → List (CompiledRule L)
      → Option EventBuffer
      → Bool × Option EventBuffer
  unfolding rule_matches inspect_managed decide
  inspect_rules zw req path [] buf = inspect_managed zw req path buf
  inspect_rules zw req path (r ∷ rs) buf =
      let skipped = inspect_rules zw req path rs buf in
      let logged = inspect_rules zw req path rs (
        emit
          (event zw req path r.rule_id (codes "custom") (codes "log")
            (codes "custom rule matched (log)"))
          buf) in
      if rule_matches r req path
      then (if str_eq r.action (codes "allow")
          then (false, buf)
          else if str_eq r.action (codes "log")
          then logged
          else decide zw req path (codes "custom") r.rule_id r.action (codes "custom rule matched")
              buf)
      else skipped

  abbrev pub inspect_zone :
      Option (ZoneWaf L) → InspectReq → Option EventBuffer → Bool × Option EventBuffer
  inspect_zone none req buf = (false, buf)
  inspect_zone (some zw) req buf = inspect_rules zw req (path_only req.uri) zw.rules buf

  -- Inspect
  unfoldable pub inspect :
      Assoc (ZoneWaf L) → InspectReq → Option EventBuffer → Bool × Option EventBuffer
  unfolding inspect_rules
  inspect zones req buf = inspect_zone (lookup (to_lower req.host) zones) req buf

  -- the request that nginx describes in headers
  abbrev pub subrequest : (Bytes → Bytes) → InspectReq
  subrequest header = record {
    host = header (codes "X-Brisk-WAF-Zone");
    method = header (codes "X-Brisk-WAF-Method");
    uri = header (codes "X-Brisk-WAF-URI");
    client_ip = header (codes "X-Brisk-WAF-IP");
    user_agent = header (codes "User-Agent");
    country =
        (let country = header (codes "X-Brisk-WAF-Country") in
          if str_eq country (codes "-") then [] else country);
    header = header;
  }

  -- the handler of /inspect: the status
  unfoldable pub inspect_handler :
      Assoc (ZoneWaf L) → (Bytes → Bytes) → Option EventBuffer → ℕ × Option EventBuffer
  unfolding inspect
  inspect_handler zones header buf =
      let (blocked, buf') = inspect zones (subrequest header) buf in
      (if blocked then 403 else 200, buf')
