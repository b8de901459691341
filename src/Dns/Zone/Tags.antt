-- ===== src/Dns/Zone/Tags.antt =====
-- Proofs about the tags of brisk-control/internal/dns/zonesync.go.
use brisk.Prelude.{
  parse_int64-digits, ℕ, ◌^◌, ◌<◌, ◌≡◌, ◌≢◌, refl, sym, ◌∙◌, ap, subst, Bytes, str_eq, str_eq_iff,
  strip, strip-append, strip-some, Option, none, some, Bool-cases, false, [], ◌∷◌, ◌++◌, ◌==◌,
  if◌then◌else◌, pos, format_int, parse_int, parse_int-format_int, cut, IsDigits,
  format_int-IsDigits, inl, inr, arith,
}
use brisk.Dns.Zone.{
  zone_prefix, zone_tag, zone_edge_tag, edge_id_from_zone_comment, zone_id_from_comment,
}

cut-digits : (d t : Bytes) → IsDigits d → cut b':' (d ++ (b':' ∷ t)) ≡ (d, some t)
unfolding cut
cut-digits [] t h = refl
cut-digits (c ∷ d) t h = rw (cut-digits d t h.1) (ground (arith, h.0))

cut-digits_end : (d : Bytes) → IsDigits d → cut b':' d ≡ (d, none)
unfolding cut
cut-digits_end [] h = refl
cut-digits_end (c ∷ d) h = rw (cut-digits_end d h.1) (ground (arith, h.0))

append_assoc : (a b c : Bytes) → (a ++ b) ++ c ≡ a ++ (b ++ c)
append_assoc [] b c = refl
append_assoc (x ∷ a) b c = ap (λ (s : Bytes). x ∷ s) (append_assoc a b c)

-- the tag without its prefix
rest_of_tag :
    (z : ℕ) (e : Bytes) → strip (zone_edge_tag z e) zone_prefix ≡ some (format_int z ++ (b':' ∷ e))
unfolding zone_edge_tag
rest_of_tag z e =
    ap (λ (s : Bytes). strip s zone_prefix) (append_assoc zone_prefix (format_int z) (b':' ∷ e))
    ∙ strip-append zone_prefix (format_int z ++ (b':' ∷ e))

format_int-injective : (a b : ℕ) → format_int a ≡ format_int b → a ≡ b
format_int-injective a b e =
    let p : some a ≡ some b =
      sym (parse_int-format_int a) ∙ (ap parse_int e ∙ parse_int-format_int b) in
    cc

zone_edge_tag-same : (z y : ℕ) (e r : Bytes) → zone_edge_tag z e ≡ zone_edge_tag y r → z ≡ y
zone_edge_tag-same z y e r h =
    let p : some (format_int z ++ (b':' ∷ e)) ≡ some (format_int y ++ (b':' ∷ r)) =
      sym (rest_of_tag z e) ∙ (ap (λ (s : Bytes). strip s zone_prefix) h ∙ rest_of_tag y r) in
    let q : format_int z ++ (b':' ∷ e) ≡ format_int y ++ (b':' ∷ r) = cc in
    format_int-injective z y (
      ap (λ (c : Bytes × Option Bytes). c.0)
        (sym (cut-digits (format_int z) e (format_int-IsDigits z))
          ∙ (ap (cut b':') q ∙ cut-digits (format_int y) r (format_int-IsDigits y))))

zone_tag-ne : (z y : ℕ) (e : Bytes) → zone_edge_tag z e ≢ zone_tag y
unfolding zone_tag
zone_tag-ne z y e h =
    let p : some (format_int z ++ (b':' ∷ e)) ≡ some (format_int y) =
      sym (rest_of_tag z e)
      ∙ (ap (λ (s : Bytes). strip s zone_prefix) h ∙ strip-append zone_prefix (format_int y)) in
    let q : format_int z ++ (b':' ∷ e) ≡ format_int y = cc in
    let r : some e ≡ none =
      ap (λ (c : Bytes × Option Bytes). c.1)
        (sym (cut-digits (format_int z) e (format_int-IsDigits z))
          ∙ (ap (cut b':') q ∙ cut-digits_end (format_int y) (format_int-IsDigits y))) in
    cc

strip-other :
    (o : Option Bytes) (z y : ℕ) (e : Bytes)
    → strip (zone_edge_tag z e) (zone_tag y ++ (b':' ∷ [])) ≡ o
    → z ≢ y
    → o ≡ none
unfolding zone_edge_tag
strip-other none z y e h ne = refl
strip-other (some r) z y e h ne =
    absurd (
      ne
        (zone_edge_tag-same z y e r (strip-some _ _ r h ∙ append_assoc (zone_tag y) (b':' ∷ []) r)))

strip-own : (z : ℕ) (e : Bytes) → strip (zone_edge_tag z e) (zone_tag z ++ (b':' ∷ [])) ≡ some e
unfolding zone_edge_tag
strip-own z e =
    ap (λ (s : Bytes). strip s (zone_tag z ++ (b':' ∷ [])))
      (sym (append_assoc (zone_tag z) (b':' ∷ []) e))
    ∙ strip-append (zone_tag z ++ (b':' ∷ [])) e

-- A zone reads the edge id back from the tags that it writes, and reads none from the tags of
-- another zone, whatever the edge ids hold.
pub edge_id_from_zone_comment-zone_edge_tag :
    (z y : ℕ) (edge_id : Bytes)
    → edge_id_from_zone_comment (zone_edge_tag z edge_id) y
      ≡ (if z == y then some edge_id else none)
unfolding edge_id_from_zone_comment
edge_id_from_zone_comment-zone_edge_tag z y e =
    let apart : str_eq (zone_edge_tag z e) (zone_tag y) ≡ false =
      ground (arith, str_eq_iff (zone_edge_tag z e) (zone_tag y), zone_tag-ne z y e) in
    rw apart (elim (Bool-cases (z == y)) [
      | inl same ↦
          let p : z ≡ y = ground (arith, same) in
          subst
            (λ (k : ℕ).
              strip (zone_edge_tag z e) (zone_tag k ++ (b':' ∷ []))
              ≡ (if z == k then some e else none))
            p (strip-own z e ∙ ground arith)
      | inr other ↦ rw other (strip-other _ z y e refl (ground (arith, other)))
    ])

-- For an id below 2^63 the sweep reads the zone's id back from every tag of an edge.
pub zone_id_from_comment-zone_edge_tag :
    (z : ℕ) (edge_id : Bytes)
    → z < 2 ^ 63
    → zone_id_from_comment (zone_edge_tag z edge_id) ≡ some (pos z)
unfolding zone_id_from_comment
zone_id_from_comment-zone_edge_tag z e h =
    rw
      (
        rest_of_tag z e,
        cut-digits (format_int z) e (format_int-IsDigits z),
        parse_int64-digits (format_int z) (format_int-IsDigits z),
        parse_int-format_int z,
      )
      (ground arith)
