-- ===== src/Waf/Modes.antt =====
-- Proofs about the decision of brisk-agent/waf/waf.go.
use brisk.Prelude.{
  ℕ, Bytes, codes, str_eq, str_eq_iff, to_lower, ◌≡◌, refl, sym, ◌∙◌, ap, Option, none, some, Bool,
  true, false, not, ◌&&◌, List, [], ◌∷◌, if◌then◌else◌, Assoc, lookup, Bool-cases, inl, inr, arith,
}
use brisk.Waf.{InspectReq, Verdict, passes, interrupts, engine_error, Libs}
use brisk.Waf.Buffer.{EventBuffer}
use brisk.Waf.Build.{CompiledRule, ZoneWaf}
use brisk.Waf.Inspect.{
  path_only, rule_matches, decide, fail_policy, after_verdict, managed_by, inspect_managed,
  inspect_rules, inspect,
}

allow_ne_log : (a : Bytes) → str_eq a (codes "allow") ≡ true → str_eq a (codes "log") ≡ false
unfolding str_eq
allow_ne_log a h =
    let e : a ≡ codes "allow" = (str_eq_iff a (codes "allow")).0 h in
    ap (λ (s : Bytes). str_eq s (codes "log")) e

module _ (L : Libs) (now : ℕ) where
  -- the rule that ends the inspection: the first that matches and does not only log
  unfoldable pub decisive : List (CompiledRule L) → InspectReq → Bytes → Option (CompiledRule L)
  decisive [] req path = none
  decisive (r ∷ rs) req path =
      let rest = decisive rs req path in
      if rule_matches L now r req path && not (str_eq r.action (codes "log")) then some r else rest

  abbrev pub enforces : ZoneWaf L → Bool
  enforces zw = str_eq zw.mode (codes "block")

  abbrev pub verdict_blocks : ZoneWaf L → Verdict → Bool
  verdict_blocks zw passes = false
  verdict_blocks zw (engine_error text) = not zw.fail_open
  verdict_blocks zw (interrupts rule_id text) = enforces zw

  abbrev pub coraza_blocks : ZoneWaf L → InspectReq → Option L.Coraza → Bool
  coraza_blocks zw req none = false
  coraza_blocks zw req (some w) = verdict_blocks zw (L.inspect_coraza w req)

  abbrev pub should_block : ZoneWaf L → InspectReq → Option (CompiledRule L) → Bool
  should_block zw req none = zw.managed && coraza_blocks zw req zw.waf
  should_block zw req (some r) = not (str_eq r.action (codes "allow")) && enforces zw

  decide_blocks :
      (zw : ZoneWaf L) (req : InspectReq) (path a b c d : Bytes) (buf : Option EventBuffer)
      → (decide L now zw req path a b c d buf).0 ≡ enforces zw
  unfolding decide
  decide_blocks zw req path a b c d buf = ground arith

  after_verdict_blocks :
      (zw : ZoneWaf L) (req : InspectReq) (path : Bytes) (v : Verdict) (buf : Option EventBuffer)
      → (after_verdict L now zw req path v buf).0 ≡ verdict_blocks zw v
  unfolding fail_policy
  after_verdict_blocks zw req path passes buf = refl
  after_verdict_blocks zw req path (engine_error text) buf = ground arith
  after_verdict_blocks zw req path (interrupts rule_id text) buf =
      decide_blocks zw req path _ _ _ _ buf

  managed_by_blocks :
      (zw : ZoneWaf L) (req : InspectReq) (path : Bytes) (w : Option L.Coraza)
      (buf : Option EventBuffer)
      → (managed_by L now zw req path w buf).0 ≡ coraza_blocks zw req w
  managed_by_blocks zw req path none buf = refl
  managed_by_blocks zw req path (some w) buf =
      after_verdict_blocks zw req path (L.inspect_coraza w req) buf

  inspect_managed_blocks :
      (zw : ZoneWaf L) (req : InspectReq) (path : Bytes) (buf : Option EventBuffer)
      → (inspect_managed L now zw req path buf).0 ≡ (zw.managed && coraza_blocks zw req zw.waf)
  unfolding inspect_managed
  inspect_managed_blocks zw req path buf = elim (Bool-cases zw.managed) [
    | inl on ↦ rw on (managed_by_blocks zw req path zw.waf buf)
    | inr off ↦ rw off refl
  ]

  verdict_detects :
      (zw : ZoneWaf L) (v : Verdict)
      → enforces zw ≡ false
      → verdict_blocks zw v ≡ true
      → (zw.fail_open ≡ false) × ((text : Bytes) × (v ≡ engine_error text))
  verdict_detects zw passes detects h = cc
  verdict_detects zw (engine_error text) detects h = (ground (arith, h), (text, refl))
  verdict_detects zw (interrupts rule_id text) detects h = cc

  coraza_detects :
      (zw : ZoneWaf L) (req : InspectReq) (o : Option L.Coraza)
      → enforces zw ≡ false
      → coraza_blocks zw req o ≡ true
      → (zw.fail_open ≡ false)
        × ((w : L.Coraza) × (o ≡ some w)
            × ((text : Bytes) × (L.inspect_coraza w req ≡ engine_error text)))
  coraza_detects zw req none detects h = cc
  coraza_detects zw req (some w) detects h =
      let (closed, failed) = verdict_detects zw (L.inspect_coraza w req) detects h in
      (closed, (w, refl, failed))

  detect_blocks :
      (zw : ZoneWaf L) (req : InspectReq)
      → enforces zw ≡ false
      → (o : Option (CompiledRule L)) → should_block zw req o ≡ true
      → (zw.fail_open ≡ false)
        × ((w : L.Coraza) × (zw.waf ≡ some w)
            × ((text : Bytes) × (L.inspect_coraza w req ≡ engine_error text)))
  detect_blocks zw req detects none h = coraza_detects zw req zw.waf detects (ground (arith, h))
  detect_blocks zw req detects (some r) h = absurd (ground (arith, h, detects))

  inspect_rules_blocks :
      (zw : ZoneWaf L) (req : InspectReq) (path : Bytes) (rs : List (CompiledRule L))
      (buf : Option EventBuffer)
      → (inspect_rules L now zw req path rs buf).0 ≡ should_block zw req (decisive rs req path)
  unfolding inspect_rules decisive
  inspect_rules_blocks zw req path [] buf = inspect_managed_blocks zw req path buf
  inspect_rules_blocks zw req path (r ∷ rs) buf =
      elim (Bool-cases (rule_matches L now r req path)) [
        | inr no_match ↦ rw no_match (inspect_rules_blocks zw req path rs buf)
        | inl hit ↦ elim (Bool-cases (str_eq r.action (codes "allow"))) [
          | inl allows ↦ rw (hit, allows, allow_ne_log r.action allows, allows) refl
          | inr other ↦ elim (Bool-cases (str_eq r.action (codes "log"))) [
            | inl logs ↦ rw (hit, other, logs) (inspect_rules_blocks zw req path rs _)
            | inr ends ↦ rw (hit, other, ends, other) (decide_blocks zw req path _ _ _ _ buf)
          ]
        ]
      ]

  module _ (zones : Assoc (ZoneWaf L)) (req : InspectReq) (buf : Option EventBuffer)
      {zw : ZoneWaf L} (served : lookup (to_lower req.host) zones ≡ some zw) where
    -- For a host with a compiled zone, a request is blocked exactly if the first custom rule that
    -- matches and does not only log is not an allow rule and the zone enforces; or, without such a
    -- rule, if the managed engine is on and it interrupts while the zone enforces, or it fails
    -- while the zone fails closed.
    pub inspect_blocks :
        (inspect L now zones req buf).0
        ≡ should_block zw req (decisive zw.rules req (path_only req.uri))
    unfolding inspect
    inspect_blocks = rw served (inspect_rules_blocks zw req (path_only req.uri) zw.rules buf)

    -- In a compiled zone whose mode is not block, a blocked request means that the zone fails
    -- closed and has a managed engine, which returned an error for the request.
    pub inspect_detect :
        str_eq zw.mode (codes "block") ≡ false
        → (inspect L now zones req buf).0 ≡ true
        → (zw.fail_open ≡ false)
          × ((w : L.Coraza) × (zw.waf ≡ some w)
              × ((text : Bytes) × (L.inspect_coraza w req ≡ engine_error text)))
    inspect_detect detects blocked =
        detect_blocks zw req detects (decisive zw.rules req (path_only req.uri))
          (sym inspect_blocks ∙ blocked)
