-- ===== src/Waf/Bounds.antt =====
-- Lemmas about dropping the oldest events of brisk-agent/waf/server.go.
use brisk.Prelude.{
  ℕ, zero, suc, ◌+◌, ◌-◌, ◌≤◌, ◌≡◌, refl, sym, ◌∙◌, ap, Bool-cases, List, [], ◌∷◌, ◌++◌, ltb,
  length, length-append, inl, inr, arith, min,
}
use brisk.Waf.Buffer.{Event, drop, bounded}

module _ {ℓ} {A : Type ℓ} where
  pub drop_at : (m n : ℕ) (xs : List A) → m ≡ n → drop m xs ≡ drop n xs
  drop_at m n xs e = ap (λ (k : ℕ). drop k xs) e

  pub drop_nil : (n : ℕ) → drop {A = A} n [] ≡ []
  drop_nil zero = refl
  drop_nil (suc n) = refl

  drop-append : (n : ℕ) (xs ys : List A) → drop n (xs ++ ys) ≡ drop n xs ++ drop (n - length xs) ys
  drop-append zero xs ys =
      ap (λ (zs : List A). xs ++ zs) (drop_at 0 (0 - length xs) ys (omega arith))
  drop-append (suc n) [] ys = drop_at (suc n) (suc n - 0) ys (omega arith)
  drop-append (suc n) (x ∷ xs) ys =
      drop-append n xs ys
      ∙ ap (λ (zs : List A). drop n xs ++ zs)
          (drop_at (n - length xs) (suc n - suc (length xs)) ys (omega arith))

  drop-drop : (a b c : ℕ) (xs : List A) → c ≡ b + a → drop a (drop b xs) ≡ drop c xs
  drop-drop a zero c xs e = drop_at a c xs (omega arith)
  drop-drop a (suc b) c [] e = drop_nil a ∙ sym (drop_nil c)
  drop-drop a (suc b) zero (x ∷ xs) e = absurd (omega arith)
  drop-drop a (suc b) (suc c) (x ∷ xs) e = drop-drop a b c xs (omega arith)

  pub drop_all : (n : ℕ) (xs : List A) → length xs ≤ n → drop n xs ≡ []
  drop_all zero [] h = refl
  drop_all (suc n) [] h = refl
  drop_all zero (x ∷ xs) h = absurd (omega arith)
  drop_all (suc n) (x ∷ xs) h = drop_all n xs (omega arith)

  length-drop : (n : ℕ) (xs : List A) → length (drop n xs) ≡ length xs - n
  length-drop zero xs = omega arith
  length-drop (suc n) [] = omega arith
  length-drop (suc n) (x ∷ xs) = omega (arith, length-drop n xs)

pub bounded-eq-drop : (m : ℕ) (xs : List Event) → bounded m xs ≡ drop (length xs - m) xs
unfolding bounded
bounded-eq-drop m xs = elim (Bool-cases (ltb m (length xs))) [
  | inl over ↦ rw over refl
  | inr fits ↦ rw fits (drop_at 0 (length xs - m) xs (ground (arith, fits)))
]

pub length-bounded : (m : ℕ) (xs : List Event) → length (bounded m xs) ≡ min (length xs) m
length-bounded m xs =
    ap length (bounded-eq-drop m xs) ∙ omega (arith, length-drop (length xs - m) xs)

module _ (m : ℕ) (xs ys : List Event) where
  size : length (bounded m xs ++ bounded m ys) ≡ min (length xs) m + min (length ys) m
  size =
      omega (
        arith,
        length-append (bounded m xs) (bounded m ys),
        length-bounded m xs,
        length-bounded m ys,
      )

  older_part :
      drop (length (bounded m xs ++ bounded m ys) - m) (bounded m xs)
      ≡ drop (length (xs ++ ys) - m) xs
  older_part = elim (Bool-cases (ltb (length ys) m)) [
    | inl few ↦
        ap (drop (length (bounded m xs ++ bounded m ys) - m)) (bounded-eq-drop m xs)
        ∙ drop-drop _ (length xs - m) _ xs (ground (arith, few, size, length-append xs ys))
    | inr many ↦
        drop_all _ (bounded m xs) (ground (arith, many, size, length-bounded m xs))
        ∙ sym (drop_all _ xs (ground (arith, many, length-append xs ys)))
  ]

  newer_part :
      drop (length (bounded m xs ++ bounded m ys) - m - length (bounded m xs)) (bounded m ys)
      ≡ drop (length (xs ++ ys) - m - length xs) ys
  newer_part =
      ap (drop (length (bounded m xs ++ bounded m ys) - m - length (bounded m xs)))
        (bounded-eq-drop m ys)
      ∙ drop-drop _ (length ys - m) _ ys
          (omega (arith, size, length-append xs ys, length-bounded m xs))

  -- Bounding the parts first loses nothing that the bound on the whole keeps.
  pub bounded-append : bounded m (bounded m xs ++ bounded m ys) ≡ bounded m (xs ++ ys)
  bounded-append =
      bounded-eq-drop m (bounded m xs ++ bounded m ys)
      ∙ (drop-append _ (bounded m xs) (bounded m ys)
          ∙ (ap
                (λ (zs : List Event).
                  zs
                  ++ drop (length (bounded m xs ++ bounded m ys) - m - length (bounded m xs))
                      (bounded m ys))
                older_part
              ∙ (ap (λ (zs : List Event). drop (length (xs ++ ys) - m) xs ++ zs) newer_part
                  ∙ (sym (drop-append (length (xs ++ ys) - m) xs ys)
                      ∙ sym (bounded-eq-drop m (xs ++ ys))))))
