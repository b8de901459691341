-- ===== src/Prelude/Lists.antt =====
-- Lists measured by native numbers, and predicates and tests over lists.
use Prim.Native.Nat.{ℕ, suc, ◌+◌}
use mathlib.Core.Path.{◌≡◌, refl, sym, subst, ap, ◌∙◌}
use mathlib.Core.Logic.{◌↔◌, inl, inr}
use mathlib.Core.Bool.{Bool, true, false, ◌&&◌, ◌||◌}
use mathlib.Core.List.{List, [], ◌∷◌, ◌++◌}
use native.Mathlib.Omega.{arith}
use brisk.Prelude.Tests.{if◌then◌else◌, Bool-cases}

module _ {ℓ} {A : Type ℓ} where
  abbrev pub length : List A → ℕ
  length [] = 0
  length (x ∷ xs) = suc (length xs)

  pub length-append : (xs ys : List A) → length (xs ++ ys) ≡ length xs + length ys
  length-append [] ys = omega arith
  length-append (x ∷ xs) ys = omega (arith, length-append xs ys)

  -- The number of elements that pass a test.
  abbrev pub count : (A → Bool) → List A → ℕ
  count p [] = 0
  count p (x ∷ xs) = if p x then suc (count p xs) else count p xs

  abbrev pub any : (A → Bool) → List A → Bool
  any p [] = false
  any p (x ∷ xs) = p x || any p xs

  abbrev pub all : (A → Bool) → List A → Bool
  all p [] = true
  all p (x ∷ xs) = p x && all p xs

  abbrev pub keep : (A → Bool) → List A → List A
  keep p [] = []
  keep p (x ∷ xs) = if p x then x ∷ keep p xs else keep p xs

module _ {ℓ κ} {A : Type ℓ} (P : A → Type κ) where
  abbrev pub All : List A → Type κ
  All [] = Unit
  All (x ∷ xs) = P x × All xs

-- `x` stands in the list.
pub data In {ℓ} {A : Type ℓ} (x : A) : List A → Type ℓ where
  first : {y : A} {ys : List A} → x ≡ y → In x (y ∷ ys)
  later : {y : A} {ys : List A} → In x ys → In x (y ∷ ys)

module _ {ℓ} {A : Type ℓ} where
  pub In-All {κ} : (Q : A → Type κ) {x : A} (xs : List A) → In x xs → All Q xs → Q x
  In-All Q [] i h = elim i [ ]
  In-All Q (y ∷ ys) (first e) h = subst Q (sym e) h.0
  In-All Q (y ∷ ys) (later i) h = In-All Q ys i h.1

  pub All-of {κ} : (Q : A → Type κ) (xs : List A) → ((x : A) → In x xs → Q x) → All Q xs
  All-of Q [] h = tt
  All-of Q (x ∷ xs) h = (h x (first refl), All-of Q xs (λ y i. h y (later i)))

  pub In-keep : (p : A → Bool) {x : A} (xs : List A) → In x (keep p xs) ↔ (In x xs × (p x ≡ true))
  In-keep p {x} xs = (out xs, λ h. back xs h.0 h.1)
    where
      drops :
          (y : A) (ys : List A)
          → (In x (keep p ys) → In x ys × (p x ≡ true))
          → In x (y ∷ keep p ys)
          → p y ≡ true
          → In x (y ∷ ys) × (p x ≡ true)
      drops y ys rest (first e) kept = (first e, ap p e ∙ kept)
      drops y ys rest (later j) kept = let (k, q) = rest j in (later k, q)

      out : (xs : List A) → In x (keep p xs) → In x xs × (p x ≡ true)
      out [] i = elim i [ ]
      out (y ∷ ys) i = elim (Bool-cases (p y)) [
        | inl kept ↦ drops y ys (out ys) (rw kept at i) kept
        | inr dropped ↦ let (k, q) = out ys (rw dropped at i) in (later k, q)
      ]

      holds : (y : A) (ys : List A) → x ≡ y → p x ≡ true → In x (keep p (y ∷ ys))
      holds y ys e h = let at : p y ≡ true = sym (ap p e) ∙ h in rw at (first e)

      past : (y : A) (ys : List A) → In x (keep p ys) → In x (keep p (y ∷ ys))
      past y ys i = elim (Bool-cases (p y)) [
        | inl kept ↦ rw kept (later i)
        | inr dropped ↦ rw dropped i
      ]

      back : (xs : List A) → In x xs → p x ≡ true → In x (keep p xs)
      back [] i h = elim i [ ]
      back (y ∷ ys) (first e) h = holds y ys e h
      back (y ∷ ys) (later i) h = past y ys (back ys i h)
