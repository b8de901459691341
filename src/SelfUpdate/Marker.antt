-- ===== src/SelfUpdate/Marker.antt =====
-- The marker of brisk-agent/selfupdate/update.go, read back.
use brisk.Prelude.{
  ℕ, ◌<◌, ◌^◌, ◌≡◌, ◌≢◌, refl, ◌∙◌, ap, Bytes, some, Bool, true, false, not, ◌&&◌, ◌||◌, [], ◌∷◌,
  ◌++◌, ◌==◌, ltb, arith, All, ℤ, pos, is_space, format_int, IsDigits, format_int-IsDigits,
  parse_int64-format_int,
}
use brisk.SelfUpdate.{
  marker_text, token, skip_blanks, match_newline, digits, number_token, scan_number, scan_version,
  scan_marker,
}

-- a version: ASCII text that is not empty and has no white space
abbrev is_version_char : ℕ → Bool
is_version_char c = not (is_space c) && ltb c 128

abbrev pub IsVersion : Bytes → Type 0
IsVersion v = (v ≢ []) × All (λ c. is_version_char c ≡ true) v

token-append :
    (v rest : Bytes)
    → All (λ c. is_version_char c ≡ true) v
    → token (v ++ (10 ∷ rest)) ≡ (v, 10 ∷ rest)
unfolding token
token-append [] rest h = refl
token-append (c ∷ v) rest h =
    let no_space : is_space c ≡ false = ground (arith, h.0) in
    rw (no_space, token-append v rest h.1) refl

digits_all : (s : Bytes) → IsDigits s → digits s ≡ s
unfolding digits
digits_all [] h = refl
digits_all (c ∷ s) h = rw (h.0, digits_all s h.1) refl

skip_blanks-digits : (s : Bytes) → IsDigits s → skip_blanks s ≡ some s
unfolding skip_blanks
skip_blanks-digits [] h = refl
skip_blanks-digits (c ∷ s) h = ground (arith, h.0)

number_token-digits : (s : Bytes) → IsDigits s → number_token s ≡ s
number_token-digits [] h = refl
number_token-digits (c ∷ s) h =
    let plain : (c == b'-' || c == b'+') ≡ false = ground (arith, h.0) in
    rw plain (digits_all (c ∷ s) h)

scan_number-format_int : (n : ℕ) → n < 2 ^ 63 → scan_number (some (format_int n)) ≡ pos n
scan_number-format_int n h =
    rw
      (
        skip_blanks-digits (format_int n) (format_int-IsDigits n),
        number_token-digits (format_int n) (format_int-IsDigits n),
        parse_int64-format_int n h,
      )
      refl

-- The boot reads back the version and the number of restarts that were written.
pub scan_marker-marker_text :
    (v : Bytes) (n : ℕ) → IsVersion v → n < 2 ^ 63 → scan_marker (marker_text v n) ≡ (v, pos n)
unfolding scan_marker
scan_marker-marker_text [] n h small = absurd (h.0 refl)
scan_marker-marker_text (c ∷ v) n h small =
    let first_char : skip_blanks (marker_text (c ∷ v) n) ≡ some (marker_text (c ∷ v) n) =
      unfold skip_blanks in ground (arith, h.1.0) in
    ap scan_version first_char
    ∙ (ap (λ (p : Bytes × Bytes). (p.0, scan_number (match_newline p.1)))
          (token-append (c ∷ v) (format_int n) h.1)
        ∙ ap (λ (z : ℤ). (c ∷ v, z)) (scan_number-format_int n small))
