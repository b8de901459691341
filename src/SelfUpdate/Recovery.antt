-- ===== src/SelfUpdate/Recovery.antt =====
-- Proofs about Apply, SelfCheckOnStart and VerifyBinary of brisk-agent/selfupdate.
use brisk.Prelude.{
  ◌^◌, ℤ, sym, ◌==◌, ℕ, zero, suc, ◌+◌, ◌≤◌, ◌<◌, ◌≡◌, refl, ◌∙◌, ap, Bytes, Option, none, some,
  Bool, true, false, List, [], ◌∷◌, ◌++◌, length, arith, Bool-cases, inl, inr, ◌⊎◌, if◌then◌else◌,
  In, first, later, any, str_eq, str_eq_iff,
}
use brisk.SelfUpdate.Marker.{IsVersion, scan_marker-marker_text}
use brisk.SelfUpdate.{
  Files, Plan, Boot, works, marker_text, apply, self_check, retry_or_roll_back, check_marked,
  verify_binary, trusted_keys, key_of, hex_lower, signed_by_any,
}

-- Whichever file operations of Apply fail: either it tells its caller to exit, and the new binary
-- is installed, the old one kept and the trial marked with no restart; or it does not, and the live
-- binary is the old one.
pub apply-atomic :
    (plan : Plan) (new version : Bytes) (f : Files) (old : Bytes)
    → f.binary ≡ some old
    → let (g, should_exit) = apply plan new version f in
      ((should_exit ≡ true)
        × (g.binary ≡ some new)
        × (g.prev ≡ some old)
        × (g.marker ≡ some (marker_text version 0)))
      ⊎ ((should_exit ≡ false) × (g.binary ≡ some old))
unfolding apply
apply-atomic plan new version f old h = ground arith

apply-done :
    (plan : Plan) (new version : Bytes) (f : Files) (old : Bytes)
    → f.binary ≡ some old
    → (apply plan new version f).1 ≡ true
    → ((apply plan new version f).0.prev ≡ some old)
      × ((apply plan new version f).0.marker ≡ some (marker_text version 0))
unfolding apply
apply-done plan new version f old h done = ground arith

-- every file operation of the boot works
abbrev pub working : Boot
working = record {
  read_marker_works = true;
  read_prev_works = true;
  write = works;
  remove_works = true;
}

-- up to `k` boots of a binary that fails its check, until one rolls back
unfoldable pub failing_boots : ℕ → ℕ → Files → Files × Bool
failing_boots max_restarts zero f = (f, false)
failing_boots max_restarts (suc k) f =
    let (g, rolled_back) = self_check working max_restarts false f in
    let rest = failing_boots max_restarts k g in if rolled_back then (g, true) else rest

module _ (v old : Bytes) (is_version : IsVersion v) (max : ℕ) (small : max < 2 ^ 63) where
  check_counts :
      (n : ℕ) (f : Files)
      → f.marker ≡ some (marker_text v n)
      → n + 1 < max
      → self_check working max false f ≡ (record f { marker = some (marker_text v (n + 1)) }, false)
  unfolding self_check
  check_counts n f m h =
      ap (λ (o : Option Bytes). check_marked working max false o f) m
      ∙ (ap (λ (x : Bytes × ℤ). retry_or_roll_back working max x f)
            (scan_marker-marker_text v n is_version (omega arith))
          ∙ ground arith)

  check_restores :
      (n : ℕ) (f : Files)
      → f.marker ≡ some (marker_text v n)
      → f.prev ≡ some old
      → max ≡ n + 1
      → self_check working max false f ≡ (record f { binary = some old; marker = none }, true)
  unfolding self_check
  check_restores n f m p h =
      ap (λ (o : Option Bytes). check_marked working max false o f) m
      ∙ (ap (λ (x : Bytes × ℤ). retry_or_roll_back working max x f)
            (scan_marker-marker_text v n is_version (omega arith))
          ∙ (rw p (ground arith)))

  boots_restore :
      (k n : ℕ) (f : Files)
      → f.marker ≡ some (marker_text v n)
      → f.prev ≡ some old
      → n + suc k ≡ max
      → failing_boots max (suc k) f ≡ (record f { binary = some old; marker = none }, true)
  unfolding failing_boots
  boots_restore zero n f m p h = rw (check_restores n f m p (omega arith)) refl
  boots_restore (suc k) n f m p h = rw (check_counts n f m (omega arith)) (
      boots_restore k (n + 1) (record f { marker = some (marker_text v (n + 1)) }) refl p
        (omega arith))

  boots_count :
      (k n : ℕ) (f : Files)
      → f.marker ≡ some (marker_text v n)
      → n + k < max
      → failing_boots max k f ≡ (record f { marker = some (marker_text v (n + k)) }, false)
  unfolding failing_boots
  boots_count zero n f m h =
      ap (λ (o : Option Bytes). (record f { marker = o }, false))
        (m ∙ ap (λ (i : ℕ). some (marker_text v i)) (omega arith))
  boots_count (suc k) n f m h = rw (check_counts n f m (omega arith)) (
      boots_count k (n + 1) (record f { marker = some (marker_text v (n + 1)) }) refl (omega arith)
      ∙ ap (λ (i : ℕ). (record f { marker = some (marker_text v i) }, false)) (omega arith))

-- After an Apply that told its caller to exit, for a version of ASCII characters that is not empty
-- and has no white space, for max_restarts below 2^63, and with the file operations of the boots
-- working: any number of failing boots below max_restarts only counts, and the failing boot with
-- that number restores the old binary, removes the marker and tells its caller to exit.
pub apply-rolled_back :
    (plan : Plan) (new v : Bytes) (f : Files) (old : Bytes) (k : ℕ)
    → f.binary ≡ some old
    → IsVersion v
    → suc k < 2 ^ 63
    → (apply plan new v f).1 ≡ true
    → (j : ℕ) → j ≤ k
    → let g = (apply plan new v f).0 in
      (failing_boots (suc k) (suc k) g ≡ (record g { binary = some old; marker = none }, true))
      × (failing_boots (suc k) j g ≡ (record g { marker = some (marker_text v j) }, false))
apply-rolled_back plan new v f old k h is_version small done j le =
    let (prev, marker) = apply-done plan new v f old h done in
    (
      boots_restore v old is_version (suc k) small k 0 _ marker prev (omega arith),
      boots_count v old is_version (suc k) small j 0 _ marker (omega arith)
          ∙ ap
              (λ (i : ℕ).
                (record (apply plan new v f).0 { marker = some (marker_text v i) }, false))
              (omega arith),
    )

own_or_rest :
    {k raw : Bytes} {rest : List Bytes}
    → In k (raw ∷ rest)
    → length raw ≡ 32
    → ((some raw ≡ some k) × (length k ≡ 32)) ⊎ In k rest
own_or_rest (first p) h = inl (ap some (sym p), ap length p ∙ h)
own_or_rest (later i) h = inr i

module _ (sha256 : Bytes → Bytes) (decode : Bytes → Option Bytes)
    (verify : Bytes → Bytes → Bytes → Bool) where
  any-In :
      (p : Bytes → Bool) (keys : List Bytes)
      → any p keys ≡ true
      → (k : Bytes) × In k keys × (p k ≡ true)
  any-In p [] h = cc
  any-In p (k ∷ ks) h = elim (Bool-cases (p k)) [
    | inl e ↦ (k, first refl, e)
    | inr e ↦ let (j, i, q) = any-In p ks (rw e at h) in (j, later i, q)
  ]

  -- a key of the configuration: one of its texts decodes to it, and it has 32 bytes
  pub record IsConfigured (configured : List Bytes) (key : Bytes) : Type 0 where
    pub text : Bytes
    pub listed : In text configured
    pub decoded : decode text ≡ some key
    pub sized : length key ≡ 32

  key_of-In :
      (k : Bytes) (o : Option Bytes) (rest : List Bytes)
      → In k (key_of sha256 decode verify o ++ rest)
      → ((o ≡ some k) × (length k ≡ 32)) ⊎ In k rest
  key_of-In k none rest i = inr i
  key_of-In k (some raw) rest i = elim (Bool-cases (length raw == 32)) [
    | inl e ↦ own_or_rest (rw e at i) (ground (arith, e))
    | inr e ↦ inr (rw e at i)
  ]

  trusted_keys-In :
      (k : Bytes) (configured : List Bytes)
      → In k (trusted_keys sha256 decode verify configured)
      → IsConfigured configured k
  unfolding trusted_keys
  trusted_keys-In k [] i = elim i [ ]
  trusted_keys-In k (s ∷ ss) i = elim (key_of-In k (decode s) _ i) [
    | inl own ↦ record { text = s; listed = first refl; decoded = own.0; sized = own.1 }
    | inr rest ↦
        let c = trusted_keys-In k ss rest in
        record { text = c.text; listed = later c.listed; decoded = c.decoded; sized = c.sized }
  ]

  signed_by_any_sound :
      (o : Option Bytes) (keys : List Bytes) (sum : Bytes)
      → signed_by_any sha256 decode verify keys sum o ≡ true
      → (sig : Bytes) × (o ≡ some sig) × ((k : Bytes) × In k keys × (verify k sum sig ≡ true))
  signed_by_any_sound none keys sum h = cc
  signed_by_any_sound (some sig) keys sum h = (sig, refl, any-In (λ k. verify k sum sig) keys h)

  -- A binary is accepted only if its hash is the wanted one, the signature decodes, and a key
  -- verifies it over the hash that a configured text decodes to and that has 32 bytes.
  pub verify_binary_sound :
      (configured : List Bytes) (new want sig64 : Bytes)
      → verify_binary sha256 decode verify configured new want sig64 ≡ true
      → (hex_lower (sha256 new) ≡ want)
        × ((sig : Bytes) × (decode sig64 ≡ some sig)
            × ((k : Bytes) × IsConfigured configured k × (verify k (sha256 new) sig ≡ true)))
  unfolding verify_binary
  verify_binary_sound configured new want sig64 h =
      elim (Bool-cases (str_eq (hex_lower (sha256 new)) want)) [
        | inl e ↦
            let (sig, d, (k, i, v)) =
              signed_by_any_sound (decode sig64) _ (sha256 new) (rw e at h) in
            ((str_eq_iff _ want).0 e, (sig, d, (k, trusted_keys-In k configured i, v)))
        | inr e ↦ absurd (ground (arith, e))
      ]
