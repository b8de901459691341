-- ===== src/AgentConfig/Quarantine.antt =====
-- Proofs about DropInvalidZones and Fetch of brisk-agent/config.
use brisk.Prelude.{
  ℕ, suc, Bytes, str_eq, str_eq_iff, trim_space, ◌≡◌, ◌⊎◌, refl, sym, ◌∙◌, ap, Option, none, some,
  Bool-cases, true, false, List, [], ◌∷◌, ◌++◌, In, first, later, inl, inr, arith,
}
use brisk.AgentConfig.{Zone, Config, Url, ZoneError, WireZone}
use brisk.AgentConfig.Validate.{
  is_empty, settings_error, has_seen, Dropped, zone_error, zones_error, sort_out, drop_from,
  validate, drop_invalid_zones,
}
use brisk.AgentConfig.Fetch.{pulled, fetch}

module _ (parse_url : Bytes → Bytes ⊎ Url) (c : Config) where
  abbrev fault_of : Zone → Option ZoneError
  fault_of = zone_error parse_url c

  sort_out_passes :
      (i : ℕ) (seen : List Bytes) (z : Zone) (kept skipped : List Zone × List Dropped)
      → has_seen (trim_space z.domain) seen ≡ false
      → (o : Option ZoneError) → fault_of z ≡ o
      → zones_error parse_url c (trim_space z.domain ∷ seen) kept.0 ≡ none
      → zones_error parse_url c seen skipped.0 ≡ none
      → zones_error parse_url c seen (sort_out parse_url c o i z kept skipped).0 ≡ none
  unfolding zones_error
  sort_out_passes i seen z kept skipped new none ok left_kept left_skipped = rw (new, ok) left_kept
  sort_out_passes i seen z kept skipped new (some e) bad left_kept left_skipped = left_skipped

  -- what is kept passes the loop of Validate
  zones_error-drop_from :
      (i : ℕ) (seen : List Bytes) (zs : List Zone)
      → zones_error parse_url c seen (drop_from parse_url c i seen zs).0 ≡ none
  unfolding zones_error drop_from
  zones_error-drop_from i seen [] = refl
  zones_error-drop_from i seen (z ∷ zs) = elim (Bool-cases (has_seen (trim_space z.domain) seen)) [
    | inl dup ↦ rw dup (zones_error-drop_from (suc i) seen zs)
    | inr new ↦ rw new (
        sort_out_passes i seen z _ _ new (fault_of z) refl
          (zones_error-drop_from (suc i) (trim_space z.domain ∷ seen) zs)
          (zones_error-drop_from (suc i) seen zs))
  ]

  -- a zone of this domain that can be rendered
  abbrev pub Kept : Zone → List Zone → Type 0
  Kept z zs =
      (k : Zone) × In k zs × ((trim_space k.domain ≡ trim_space z.domain) × (fault_of k ≡ none))

  Kept-later : (z h : Zone) (zs : List Zone) → Kept z zs → Kept z (h ∷ zs)
  Kept-later z h zs (k, i, more) = (k, later i, more)

  has_seen-cons :
      (dom d : Bytes) (seen : List Bytes)
      → has_seen dom (d ∷ seen) ≡ true
      → (dom ≡ d) ⊎ (has_seen dom seen ≡ true)
  has_seen-cons dom d seen h = elim (Bool-cases (str_eq dom d)) [
    | inl same ↦ inl ((str_eq_iff dom d).0 same)
    | inr differ ↦ inr (rw differ at h)
  ]

  sort_out-Kept :
      (i : ℕ) (seen : List Bytes) (z h : Zone) (kept skipped : List Zone × List Dropped)
      (o : Option ZoneError)
      → fault_of h ≡ o
      → (has_seen (trim_space z.domain) (trim_space h.domain ∷ seen) ≡ true) ⊎ Kept z kept.0
      → (has_seen (trim_space z.domain) seen ≡ true) ⊎ Kept z skipped.0
      → (has_seen (trim_space z.domain) seen ≡ true)
        ⊎ Kept z (sort_out parse_url c o i h kept skipped).0
  sort_out-Kept i seen z h kept skipped (some e) bad in_kept in_skipped = in_skipped
  sort_out-Kept i seen z h kept skipped none ok (inr k) in_skipped = inr (Kept-later z h kept.0 k)
  sort_out-Kept i seen z h kept skipped none ok (inl was) in_skipped =
      elim (has_seen-cons (trim_space z.domain) (trim_space h.domain) seen was) [
        | inl same ↦ inr (h, first refl, (sym same, ok))
        | inr earlier ↦ inl earlier
      ]

  drop_from-Kept :
      (i : ℕ) (seen : List Bytes) (zs : List Zone) (z : Zone)
      → In z zs
      → fault_of z ≡ none
      → (has_seen (trim_space z.domain) seen ≡ true) ⊎ Kept z (drop_from parse_url c i seen zs).0
  unfolding drop_from
  drop_from-Kept i seen [] z at ok = elim at [ ]
  drop_from-Kept i seen (h ∷ zs) z (first e) ok =
      elim (Bool-cases (has_seen (trim_space h.domain) seen)) [
        | inl dup ↦ inl (ap (λ (x : Zone). has_seen (trim_space x.domain) seen) e ∙ dup)
        | inr new ↦
            let fine : fault_of h ≡ none = ap fault_of (sym e) ∙ ok in
            inr (
              rw (new, fine)
                (h, first refl, (ap (λ (x : Zone). trim_space x.domain) (sym e), fine)))
      ]
  drop_from-Kept i seen (h ∷ zs) z (later at) ok =
      elim (Bool-cases (has_seen (trim_space h.domain) seen)) [
        | inl dup ↦ rw dup (drop_from-Kept (suc i) seen zs z at ok)
        | inr new ↦ rw new (
            sort_out-Kept i seen z h _ _ (fault_of h) refl
              (drop_from-Kept (suc i) (trim_space h.domain ∷ seen) zs z at ok)
              (drop_from-Kept (suc i) seen zs z at ok))
      ]

  -- two runs that keep the same, with and without a zone in front
  sort_out_same :
      (i j : ℕ) (z : Zone) (o : Option ZoneError) (k l m n : List Zone × List Dropped)
      → k.0 ≡ m.0
      → l.0 ≡ n.0
      → (sort_out parse_url c o i z k l).0 ≡ (sort_out parse_url c o j z m n).0
  sort_out_same i j z none k l m n same_kept same_skipped =
      ap (λ (zs : List Zone). z ∷ zs) same_kept
  sort_out_same i j z (some e) k l m n same_kept same_skipped = same_skipped

  drop_from_index :
      (i j : ℕ) (seen : List Bytes) (zs : List Zone)
      → (drop_from parse_url c i seen zs).0 ≡ (drop_from parse_url c j seen zs).0
  unfolding drop_from
  drop_from_index i j seen [] = refl
  drop_from_index i j seen (z ∷ zs) = elim (Bool-cases (has_seen (trim_space z.domain) seen)) [
    | inl dup ↦ rw dup (drop_from_index (suc i) (suc j) seen zs)
    | inr new ↦ rw new (
        sort_out_same i j z (fault_of z) _ _ _ _ (drop_from_index (suc i) (suc j) _ zs)
          (drop_from_index (suc i) (suc j) seen zs))
  ]

  drop_from-append :
      (bad : Zone) (e : ZoneError)
      → fault_of bad ≡ some e
      → (i j : ℕ) (seen : List Bytes) (xs ys : List Zone)
      → (drop_from parse_url c i seen (xs ++ (bad ∷ ys))).0
        ≡ (drop_from parse_url c j seen (xs ++ ys)).0
  unfolding drop_from
  drop_from-append bad e fails i j seen [] ys =
      elim (Bool-cases (has_seen (trim_space bad.domain) seen)) [
        | inl dup ↦ rw dup (drop_from_index (suc i) j seen ys)
        | inr new ↦ rw (new, fails) (drop_from_index (suc i) j seen ys)
      ]
  drop_from-append bad e fails i j seen (x ∷ xs) ys =
      elim (Bool-cases (has_seen (trim_space x.domain) seen)) [
        | inl dup ↦ rw dup (drop_from-append bad e fails (suc i) (suc j) seen xs ys)
        | inr new ↦ rw new (
            sort_out_same i j x (fault_of x) _ _ _ _
              (drop_from-append bad e fails (suc i) (suc j) _ xs ys)
              (drop_from-append bad e fails (suc i) (suc j) seen xs ys))
      ]

settings_error_zones :
    (c : Config) (zs : List Zone)
    → is_empty zs ≡ is_empty c.zones
    → settings_error (record c { zones = zs }) ≡ settings_error c
unfolding settings_error
settings_error_zones c zs e = rw e refl

In_nonempty : {z : Zone} (zs : List Zone) → In z zs → is_empty zs ≡ false
In_nonempty [] i = elim i [ ]
In_nonempty (z ∷ zs) i = refl

module _ (parse_url : Bytes → Bytes ⊎ Url) where
  -- Where the settings of the agent pass, with the Brotli level of the first pulled zone, and some
  -- zone can be rendered, Fetch succeeds whatever the other zones are, and its configuration holds
  -- a zone of the same domain that can be rendered.
  pub fetch-Kept :
      (base : Config) (cache : Option (List WireZone)) {z : Zone}
      → settings_error (pulled base cache) ≡ none
      → In z (pulled base cache).zones
      → zone_error parse_url (pulled base cache) z ≡ none
      → (cfg : Config) × (fetch parse_url base cache ≡ inr cfg)
        × Kept parse_url (pulled base cache) z cfg.zones
  unfolding fetch validate drop_invalid_zones
  fetch-Kept base cache {z} settings at ok =
      let c = pulled base cache in
      let d = record c { zones = (drop_from parse_url c 0 [] c.zones).0 } in
      let kept : Kept parse_url c z d.zones =
        unseen (drop_from-Kept parse_url c 0 [] c.zones z at ok) in
      let same : settings_error d ≡ none =
        settings_error_zones c d.zones (In_nonempty d.zones kept.1 ∙ sym (In_nonempty c.zones at))
        ∙ settings in
      (d, rw (same, zones_error-drop_from parse_url c 0 [] c.zones) refl, kept)
    where
      unseen :
          {zs : List Zone}
          → (has_seen (trim_space z.domain) [] ≡ true) ⊎ Kept parse_url (pulled base cache) z zs
          → Kept parse_url (pulled base cache) z zs
      unseen (inl h) = absurd (ground (arith, h))
      unseen (inr k) = k

  -- A zone that cannot be rendered, wherever it stands, is as good as absent: DropInvalidZones
  -- leaves the configuration that it leaves without this zone.
  pub drop_invalid_zones-append :
      (c : Config) (xs ys : List Zone) (bad : Zone) {e : ZoneError}
      → zone_error parse_url c bad ≡ some e
      → (drop_invalid_zones parse_url (record c { zones = xs ++ (bad ∷ ys) })).0
        ≡ (drop_invalid_zones parse_url (record c { zones = xs ++ ys })).0
  unfolding drop_invalid_zones
  drop_invalid_zones-append c xs ys bad {e} fails =
      ap (λ (zs : List Zone). record c { zones = zs })
        (drop_from-append parse_url c bad e fails 0 0 [] xs ys)
