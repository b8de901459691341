-- ===== src/CustomDomains/Backoff.antt =====
-- Proofs about backoff of brisk-control/internal/customdomains/manager.go.
use brisk.Prelude.{
  ℕ, zero, suc, ◌*◌, ◌^◌, ◌%◌, ◌≡◌, ◌∙◌, min, ◌≤◌, ◌<◌, arith, Bool-cases, inl, inr, ltb, sym, ap,
}
use brisk.CustomDomains.Manager.{less, doubled, backoff}

power_suc : (d n : ℕ) → d * 2 ^ suc n ≡ d * 2 * 2 ^ n
power_suc d n = grind arith

power_le : (d n : ℕ) → d ≤ d * 2 ^ n
power_le d zero = omega arith
power_le d (suc n) = grind (arith, power_le d n, power_suc d n)

less-ltb : (a b : ℕ) → a < 2 ^ 63 → b < 2 ^ 63 → less a b ≡ ltb a b
less-ltb a b p q = ground arith

module _ (max : ℕ) (small : max ≤ 2 ^ 62) where
  doubled_lem :
      (n d : ℕ)
      → d < 2 ^ 63
      → (doubled max d n < 2 ^ 63) × (min (doubled max d n) max ≡ min (d * 2 ^ n) max)
  unfolding doubled
  doubled_lem zero d h = (h, omega arith)
  doubled_lem (suc n) d h = elim (Bool-cases (ltb d max)) [
    | inl more ↦
        let same : d * 2 % 2 ^ 64 ≡ d * 2 = ground (arith, more) in
        let ih = doubled_lem n (d * 2) (ground (arith, more)) in
        rw (less-ltb d max h (omega arith), more, same)
          (ih.0, ih.1 ∙ ap (λ (k : ℕ). min k max) (sym (power_suc d n)))
    | inr stop ↦
        rw (less-ltb d max h (omega arith), stop) (h, ground (arith, stop, power_le d (suc n)))
  ]

  -- For a base below 2^63 and a maximum of at most 2^62, no doubling overflows 64 bits: the wait
  -- after n attempts is the base times 2 to the n, or the maximum if that is less.
  pub backoff_lem : (base n : ℕ) → base < 2 ^ 63 → backoff base max n ≡ min (base * 2 ^ n) max
  unfolding backoff
  backoff_lem base n h =
      let (fits, same) = doubled_lem n base h in
      rw (less-ltb max (doubled max base n) (omega arith) fits) (ground (arith, same))
