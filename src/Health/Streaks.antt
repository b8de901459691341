-- ===== src/Health/Streaks.antt =====
-- Proofs about the counters and the verdict of brisk-control/internal/health/checker.go.
use brisk.Prelude.{
  ℕ, zero, suc, ◌+◌, ◌≤◌, ◌<◌, ◌≡◌, refl, ap, ◌∙◌, none, some, Bool, true, false, List, [], ◌∷◌,
  leb, arith, ℤ, pos_part, ◌⊎◌, if◌then◌else◌,
}
use brisk.Health.{Config, EdgeState, healthy, unhealthy, is_state, apply_result, with_defaults}

-- the state after a run of results
unfoldable pub apply_results : ℤ → ℤ → List Bool → EdgeState → EdgeState
apply_results fail_th rise_th [] es = es
apply_results fail_th rise_th (r ∷ rs) es =
    apply_results fail_th rise_th rs (apply_result fail_th rise_th r es).0

abbrev pub same : Bool → Bool → Bool
same true b = b
same false true = false
same false false = true

-- `n` results alike
abbrev pub repeat : ℕ → Bool → List Bool
repeat zero r = []
repeat (suc n) r = r ∷ repeat n r

-- A transition is reported exactly when the verdict changes, and it is the result of the probe; the
-- verdict is the old one, or healthy after a success and unhealthy after a failure.
pub transition-exact :
    (fail_th rise_th : ℤ) (r : Bool) (es : EdgeState)
    → let (es', transition) = apply_result fail_th rise_th r es in
      (transition ≡ (if is_state es.current es'.current then none else some r))
      × ((es'.current ≡ es.current) ⊎ (es'.current ≡ (if r then healthy else unhealthy)))
unfolding apply_result
transition-exact fail_th rise_th true es = ground arith
transition-exact fail_th rise_th false es = ground arith

-- For an interval of at least 3 ns, or none, the timeout of the defaulted configuration is positive
-- and below its interval, and both thresholds are positive.
with_defaults_valid :
    (c : Config)
    → (c.interval ≡ 0) ⊎ (3 ≤ c.interval)
    → (0 < (with_defaults c).timeout)
      × ((with_defaults c).timeout < (with_defaults c).interval)
      × (0 < pos_part (with_defaults c).fail_threshold)
      × (0 < pos_part (with_defaults c).rise_threshold)
unfolding with_defaults
with_defaults_valid c h = ground arith

-- the length of the run of `b` at the end of the results, `n` before the first
unfoldable pub streak : Bool → ℕ → List Bool → ℕ
streak b n [] = n
streak b n (r ∷ rs) = streak b (if same r b then suc n else 0) rs

counters-step :
    (fail_th rise_th : ℤ) (r : Bool) (es : EdgeState)
    → ((apply_result fail_th rise_th r es).0.consec_ok
        ≡ (if same r true then suc es.consec_ok else 0))
      × ((apply_result fail_th rise_th r es).0.consec_fails
          ≡ (if same r false then suc es.consec_fails else 0))
unfolding apply_result
counters-step fail_th rise_th true es = ground arith
counters-step fail_th rise_th false es = ground arith

-- After any results the two counters are the lengths of the last run of successes and of failures,
-- across every change of the verdict.
pub counters-streak :
    (fail_th rise_th : ℤ) (rs : List Bool) (es : EdgeState)
    → ((apply_results fail_th rise_th rs es).consec_ok ≡ streak true es.consec_ok rs)
      × ((apply_results fail_th rise_th rs es).consec_fails ≡ streak false es.consec_fails rs)
unfolding apply_results streak
counters-streak fail_th rise_th [] es = (refl, refl)
counters-streak fail_th rise_th (r ∷ rs) es =
    let (ok, bad) = counters-streak fail_th rise_th rs (apply_result fail_th rise_th r es).0 in
    let (ok', bad') = counters-step fail_th rise_th r es in
    (ok ∙ ap (λ (n : ℕ). streak true n rs) ok', bad ∙ ap (λ (n : ℕ). streak false n rs) bad')

fail-step :
    (fail_th rise_th : ℤ) (es : EdgeState)
    → let es' = (apply_result fail_th rise_th false es).0 in
      (es'.consec_fails ≡ suc es.consec_fails)
      × (es'.current
          ≡ (if leb (pos_part fail_th) (suc es.consec_fails) then unhealthy else es.current))
unfolding apply_result
fail-step fail_th rise_th es = ground arith

rise-step :
    (fail_th rise_th : ℤ) (es : EdgeState)
    → let es' = (apply_result fail_th rise_th true es).0 in
      (es'.consec_ok ≡ suc es.consec_ok)
      × (es'.current ≡ (if leb (pos_part rise_th) (suc es.consec_ok) then healthy else es.current))
unfolding apply_result
rise-step fail_th rise_th es = ground arith

-- From any state of an edge, a run of failed probes makes it unhealthy exactly if it brings the run
-- of failures to the threshold; otherwise the verdict is as it was.
pub fails-exact :
    (fail_th rise_th : ℤ) (n : ℕ) (es : EdgeState)
    → (apply_results fail_th rise_th (repeat (suc n) false) es).current
      ≡ (if leb (pos_part fail_th) (es.consec_fails + suc n) then unhealthy else es.current)
unfolding apply_results
fails-exact fail_th rise_th zero es = ground (arith, fail-step fail_th rise_th es)
fails-exact fail_th rise_th (suc n) es =
    let es' = (apply_result fail_th rise_th false es).0 in
    let (count, now) = fail-step fail_th rise_th es in
    fails-exact fail_th rise_th n es' ∙ ground (arith, count, now)

-- From any state of an edge, a run of successful probes makes it healthy exactly if it brings the
-- run of successes to the threshold; otherwise the verdict is as it was.
rises-exact :
    (fail_th rise_th : ℤ) (n : ℕ) (es : EdgeState)
    → (apply_results fail_th rise_th (repeat (suc n) true) es).current
      ≡ (if leb (pos_part rise_th) (es.consec_ok + suc n) then healthy else es.current)
unfolding apply_results
rises-exact fail_th rise_th zero es = ground (arith, rise-step fail_th rise_th es)
rises-exact fail_th rise_th (suc n) es =
    let es' = (apply_result fail_th rise_th true es).0 in
    let (count, now) = rise-step fail_th rise_th es in
    rises-exact fail_th rise_th n es' ∙ ground (arith, count, now)
