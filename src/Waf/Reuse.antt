-- ===== src/Waf/Reuse.antt =====
-- Proofs about Reload of brisk-agent/waf/waf.go with and without compiled zones at hand.
use brisk.Prelude.{
  Bytes, codes, str_eq, str_eq_iff, equal_fold, to_lower, ◌≡◌, refl, sym, ◌∙◌, ap, subst, Option,
  none, some, Bool-cases, true, false, List, [], ◌∷◌, if◌then◌else◌, Assoc, lookup, lookup-insert,
  inl, inr,
}
use brisk.Waf.{EngineConfig, ZoneWafConfig, Zone, Libs}
use brisk.Waf.Build.{
  ZoneWaf, zone_waf, with_coraza, compile_coraza, build_zone_waf, engine_config, put_zone,
  reuse_or_build, reload_zone, reload_from, reload,
}

module _ (L : Libs) where
  -- every compiled zone was built under its host from some configuration
  abbrev Built : Assoc (ZoneWaf L) → Type 0
  Built zones =
      (host : Bytes) (zw : ZoneWaf L)
      → lookup host zones ≡ some zw
      → (c : EngineConfig) × (build_zone_waf L host c ≡ some zw)

  with_coraza-fingerprint :
      (host : Bytes) (c : EngineConfig) (w : Option L.Coraza) (zw : ZoneWaf L)
      → with_coraza L host c w ≡ some zw
      → zw.fingerprint ≡ L.digest c
  with_coraza-fingerprint host c none zw h = cc
  with_coraza-fingerprint host c (some w) zw h =
      let e : zone_waf L host c true (some w) ≡ zw = cc in
      sym (ap (λ (z : ZoneWaf L). z.fingerprint) e)

  build_zone_waf-fingerprint :
      (host : Bytes) (c : EngineConfig) (zw : ZoneWaf L)
      → build_zone_waf L host c ≡ some zw
      → zw.fingerprint ≡ L.digest c
  unfolding build_zone_waf
  build_zone_waf-fingerprint host c zw h =
      elim (Bool-cases (equal_fold c.managed_ruleset (codes "owasp_crs"))) [
        | inl on ↦ with_coraza-fingerprint host c (compile_coraza L c.paranoia) zw (rw on at h)
        | inr off ↦
            let k : some (zone_waf L host c false none) ≡ some zw = rw off at h in
            let e : zone_waf L host c false none ≡ zw = cc in
            sym (ap (λ (z : ZoneWaf L). z.fingerprint) e)
      ]

  put_zone-Built :
      (host : Bytes) (c : EngineConfig) (o : Option (ZoneWaf L)) (next : Assoc (ZoneWaf L))
      → build_zone_waf L host c ≡ o
      → Built next
      → Built (put_zone L host o next)
  put_zone-Built host c none next b h k y found = h k y found
  put_zone-Built host c (some zw) next b h k y found = elim (Bool-cases (str_eq host k)) [
    | inl same ↦
        let there : some zw ≡ some y = rw (lookup-insert, same) at found in
        let e : host ≡ k = (str_eq_iff host k).0 same in
        (c, subst (λ (j : Bytes). build_zone_waf L j c ≡ some y) e (b ∙ there))
    | inr other ↦ h k y (rw (lookup-insert, other) at found)
  ]

  reload_from-Built :
      (zs : List Zone) (next : Assoc (ZoneWaf L)) → Built next → Built (reload_from L [] zs next)
  unfolding reload_from lookup
  reload_from-Built [] next h = h
  reload_from-Built (z ∷ zs) next h =
      reload_from-Built zs _ (reload_zone-Built (to_lower z.domain) z.waf)
    where
      reload_zone-Built :
          (host : Bytes) (o : Option ZoneWafConfig) → Built (reload_zone L [] host o next)
      reload_zone-Built host none = h
      reload_zone-Built host (some zw) = elim (Bool-cases zw.enabled) [
        | inl on ↦ rw on (put_zone-Built host (engine_config L zw) _ next refl h)
        | inr off ↦ rw off h
      ]

  module _
      (injective : (c d : EngineConfig) → L.same_digest (L.digest c) (L.digest d) ≡ true → c ≡ d)
      (old : Assoc (ZoneWaf L)) (built : Built old) where
    reuse_or_build_lem :
        (o : Option (ZoneWaf L)) (host : Bytes) (zw : ZoneWafConfig)
        → lookup host old ≡ o
        → reuse_or_build L o host zw ≡ build_zone_waf L host (engine_config L zw)
    reuse_or_build_lem none host zw found = refl
    reuse_or_build_lem (some prev) host zw found =
        elim (Bool-cases (L.same_digest prev.fingerprint (L.digest (engine_config L zw)))) [
          | inl same ↦
              let (c, b) = built host prev found in
              let e : c ≡ engine_config L zw = injective c (engine_config L zw) (
                ap (λ (f : L.Digest). L.same_digest f (L.digest (engine_config L zw)))
                  (sym (build_zone_waf-fingerprint host c prev b))
                ∙ same) in
              rw same (sym (subst (λ (d : EngineConfig). build_zone_waf L host d ≡ some prev) e b))
          | inr other ↦ rw other refl
        ]

    reload_zone_lem :
        (host : Bytes) (o : Option ZoneWafConfig) (next : Assoc (ZoneWaf L))
        → reload_zone L old host o next ≡ reload_zone L [] host o next
    unfolding lookup
    reload_zone_lem host none next = refl
    reload_zone_lem host (some zw) next =
        ap (λ (o : Option (ZoneWaf L)). if zw.enabled then put_zone L host o next else next)
          (reuse_or_build_lem (lookup host old) host zw refl)

    reload_from_lem :
        (zs : List Zone) (next : Assoc (ZoneWaf L))
        → reload_from L old zs next ≡ reload_from L [] zs next
    unfolding reload_from
    reload_from_lem [] next = refl
    reload_from_lem (z ∷ zs) next =
        reload_from_lem zs _
        ∙ ap (reload_from L [] zs) (reload_zone_lem (to_lower z.domain) z.waf next)

  -- the compiled zones after a run of reloads
  unfoldable pub reload_all : List (List Zone) → Assoc (ZoneWaf L) → Assoc (ZoneWaf L)
  reload_all [] old = old
  reload_all (zs ∷ more) old = reload_all more (reload L zs old)

  module _
      (injective : (c d : EngineConfig)
        → L.same_digest (L.digest c) (L.digest d) ≡ true
        → c ≡ d) where
    reload-Built : (zs : List Zone) (old : Assoc (ZoneWaf L)) → Built old → Built (reload L zs old)
    unfolding reload lookup
    reload-Built zs old b =
        subst Built (sym (reload_from_lem injective old b zs []))
          (reload_from-Built zs [] (λ host zw h. cc))

    reload_all-Built :
        (history : List (List Zone)) (old : Assoc (ZoneWaf L))
        → Built old
        → Built (reload_all history old)
    unfolding reload_all
    reload_all-Built [] old b = b
    reload_all-Built (zs ∷ more) old b =
        reload_all-Built more (reload L zs old) (reload-Built zs old b)

    -- Where digests that compare equal have equal configurations, a reload after any sequence of
    -- reloads, which may reuse compiled zones, gives the zones that a reload of the same
    -- configuration gives on an engine that has none.
    pub reload-reload_all :
        (history : List (List Zone)) (zs : List Zone)
        → reload L zs (reload_all history []) ≡ reload L zs []
    unfolding reload lookup
    reload-reload_all history zs =
        reload_from_lem injective (reload_all history [])
          (reload_all-Built history [] (λ host zw h. cc)) zs []
