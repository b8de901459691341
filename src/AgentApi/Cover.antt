-- ===== src/AgentApi/Cover.antt =====
-- Proofs about certCovers of brisk-control/internal/api/agent.go.
use brisk.Prelude.{
  ℕ, Bytes, codes, str_eq, str_eq_iff, str_eq_refl, strip, strip-some, strip-append, ◌≡◌, ◌≢◌, ◌↔◌,
  ◌⊎◌, refl, sym, ◌∙◌, ap, Option, none, some, Bool, Bool-cases, true, false, List, [], ◌∷◌, ◌++◌,
  any, length, length-append, In, first, later, inl, inr, arith,
}
use brisk.AgentApi.{
  cons_onto, cut_suffix, has_dot, one_label, wildcard_covers, norm, covers_one, cert_covers,
}

cut_suffix_sound : (s suffix : Bytes) {p : Bytes} → cut_suffix s suffix ≡ some p → s ≡ p ++ suffix
unfolding cut_suffix
cut_suffix_sound [] suffix {p} h = elim (Bool-cases (str_eq [] suffix)) [
  | inl e ↦
      let k : some [] ≡ some p = rw e at h in
      let q : [] ≡ p = cc in (str_eq_iff [] suffix).0 e ∙ ap (λ (x : Bytes). x ++ suffix) q
  | inr e ↦ let k : none ≡ some p = rw e at h in cc
]
cut_suffix_sound (c ∷ s) suffix {p} h = elim (Bool-cases (str_eq (c ∷ s) suffix)) [
  | inl e ↦
      let k : some [] ≡ some p = rw e at h in
      let q : [] ≡ p = cc in (str_eq_iff (c ∷ s) suffix).0 e ∙ ap (λ (x : Bytes). x ++ suffix) q
  | inr e ↦ below (cut_suffix s suffix) (λ q. cut_suffix_sound s suffix {p = q}) (rw e at h)
]
  where
    below :
        (o : Option Bytes)
        → ((q : Bytes) → o ≡ some q → s ≡ q ++ suffix)
        → cons_onto c o ≡ some p
        → c ∷ s ≡ p ++ suffix
    below none rest k = cc
    below (some q) rest k =
        let e : c ∷ q ≡ p = cc in
        ap (λ (x : Bytes). c ∷ x) (rest q refl) ∙ ap (λ (x : Bytes). x ++ suffix) e

cut_suffix_longer : (c : ℕ) (p suffix : Bytes) → str_eq (c ∷ (p ++ suffix)) suffix ≡ false
cut_suffix_longer c p suffix = elim (Bool-cases (str_eq (c ∷ (p ++ suffix)) suffix)) [
  | inl e ↦ absurd (
      omega
        (arith, ap length ((str_eq_iff (c ∷ (p ++ suffix)) suffix).0 e), length-append p suffix))
  | inr e ↦ e
]

cut_suffix-append : (p suffix : Bytes) → cut_suffix (p ++ suffix) suffix ≡ some p
unfolding cut_suffix
cut_suffix-append [] [] = rw (str_eq_refl []) refl
cut_suffix-append [] (c ∷ suffix) = rw (str_eq_refl (c ∷ suffix)) refl
cut_suffix-append (c ∷ p) suffix =
    rw (cut_suffix_longer c p suffix) (ap (cons_onto c) (cut_suffix-append p suffix))

-- The domain is the host, or a wildcard for one more label on the left.
abbrev pub Covers : Bytes → Bytes → Type 0
Covers d host =
    (d ≡ host)
    ⊎ ((base : Bytes) × (sub : Bytes) × (d ≡ codes "*." ++ base)
        × ((host ≡ sub ++ (codes "." ++ base)) × ((sub ≢ []) × (has_dot sub ≡ false))))

one_label_sound :
    (o : Option Bytes)
    → one_label o ≡ true
    → (sub : Bytes) × (o ≡ some sub) × ((sub ≢ []) × (has_dot sub ≡ false))
one_label_sound none h = cc
one_label_sound (some sub) h = (
  sub,
  refl,
  (
    λ e. let t : str_eq sub [] ≡ true = (str_eq_iff sub []).1 e in ground (arith, h, t),
    ground (arith, h),
  ),
)

covers_one-Covers : (d host : Bytes) → (covers_one d host ≡ true) ↔ Covers d host
unfolding covers_one
covers_one-Covers d host = (to, from)
  where
    star :
        (o : Option Bytes)
        → strip d (codes "*.") ≡ o
        → wildcard_covers o host ≡ true
        → Covers d host
    star none e h = cc
    star (some base) e h =
        let (sub, found, good) = one_label_sound (cut_suffix host (codes "." ++ base)) h in
        inr (
          base,
          sub,
          strip-some d (codes "*.") base e,
          (cut_suffix_sound host (codes "." ++ base) found, good),
        )

    to : covers_one d host ≡ true → Covers d host
    to h = elim (Bool-cases (str_eq d host)) [
      | inl same ↦ inl ((str_eq_iff d host).0 same)
      | inr differ ↦ star (strip d (codes "*.")) refl (rw differ at h)
    ]

    from : Covers d host → covers_one d host ≡ true
    from (inl e) = rw ((str_eq_iff d host).1 e) refl
    from (inr (base, sub, wild, (ends, (some_label, no_dot)))) =
        let stripped : strip d (codes "*.") ≡ some base =
          ap (λ x. strip x (codes "*.")) wild ∙ strip-append (codes "*.") base in
        let cut : cut_suffix host (codes "." ++ base) ≡ some sub =
          ap (λ x. cut_suffix x (codes "." ++ base)) ends
          ∙ cut_suffix-append sub (codes "." ++ base) in
        elim (Bool-cases (str_eq d host)) [
          | inl same ↦ rw same refl
          | inr differ ↦
              rw (differ, stripped, cut, no_dot)
                (elim (Bool-cases (str_eq sub [])) [
                  | inl blank ↦ absurd (some_label ((str_eq_iff sub []).0 blank))
                  | inr fine ↦ rw fine refl
                ])
        ]

any_sound :
    (p : Bytes → Bool) (xs : List Bytes) → any p xs ≡ true → (x : Bytes) × In x xs × (p x ≡ true)
any_sound p [] h = cc
any_sound p (y ∷ ys) h = elim (Bool-cases (p y)) [
  | inl here ↦ (y, first refl, here)
  | inr past ↦ let (x, i, q) = any_sound p ys (rw past at h) in (x, later i, q)
]

any_complete :
    (p : Bytes → Bool) {x : Bytes} (xs : List Bytes) → In x xs → p x ≡ true → any p xs ≡ true
any_complete p [] i q = elim i [ ]
any_complete p (y ∷ ys) (first e) q = let here : p y ≡ true = sym (ap p e) ∙ q in rw here refl
any_complete p (y ∷ ys) (later i) q = elim (Bool-cases (p y)) [
  | inl here ↦ rw here refl
  | inr past ↦ rw past (any_complete p ys i q)
]

-- A certificate covers a host exactly if one of its names, both without outer white space and in
-- lower case, is the host, or is a wildcard of a base where the host is one non-empty label without
-- a dot, a dot and the base.
pub cert_covers-Covers :
    (domains : List Bytes) (host : Bytes)
    → (cert_covers domains host ≡ true) ↔ ((d : Bytes) × In d domains × Covers (norm d) (norm host))
unfolding cert_covers
cert_covers-Covers domains host = (
  λ h.
      let (d, i, q) = any_sound (λ d. covers_one (norm d) (norm host)) domains h in
      (d, i, (covers_one-Covers (norm d) (norm host)).0 q),
  λ h.
      any_complete (λ d. covers_one (norm d) (norm host)) domains h.1
        ((covers_one-Covers (norm h.0) (norm host)).1 h.2),
)
