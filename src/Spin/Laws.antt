-- ===== src/Spin/Laws.antt =====
-- The spin loops end in time, and for the reason that they give.
use thread_pool_exec.Prelude.{
  ℕ, zero, suc, ◌+◌, ap, ◌≤◌, ◌<◌, ◌≡◌, ◌≢◌, inl, inr, min, Bool, true, false, some, leb, ◌==◌,
  refl, arith, Bool-cases,
}
use thread_pool_exec.Spin.{
  WaitOptions, SpinResult, success, timeout, advance, pause_loop, spin_pause_until,
  spin_yield_until,
}

early-later : (f : ℕ → ℕ) (bound k n : ℕ) → f k < bound → bound ≤ f n → k ≢ n
early-later f bound k n under over same = omega (arith, ap f same)

module _ (deadline : ℕ) (f : ℕ → Bool) (now : ℕ → ℕ) where
  -- Why a spin ends with its result, at the k-th call of the condition.
  pub data Reason (spin_max : ℕ) : SpinResult → Type 0 where
    met : (k : ℕ) → f k ≡ true → Reason spin_max success
    past_deadline : (k : ℕ) → f k ≡ false → deadline ≤ now k → Reason spin_max timeout
    no_time : f 0 ≡ false → deadline ≡ 0 → Reason spin_max timeout
    spun :
        (k : ℕ)
        → f k ≡ false
        → now k < deadline
        → now 0 + spin_max ≤ now k
        → Reason spin_max advance
    no_spin : spin_max ≡ 0 → Reason spin_max advance

  rises : ((k : ℕ) → now k ≤ now (k + 1)) → (k : ℕ) → now 0 ≤ now k
  rises passes zero = omega arith
  rises passes (suc k) = ground (arith, rises passes k, passes k)

  pause_loop-Reason :
      (spin_max fuel n k : ℕ)
      → ((j : ℕ) → now j ≤ now (j + 1))
      → now 0 + spin_max ≤ now n
      → k ≤ n
      → n < k + fuel
      → (r : SpinResult) × (pause_loop deadline f now spin_max fuel k (now 0) ≡ some r)
        × Reason spin_max r
  unfolding pause_loop
  pause_loop-Reason spin_max zero n k passes ends below enough = absurd (omega arith)
  pause_loop-Reason spin_max (suc fuel) n k passes long below enough =
      let first : min (now 0) (now k) ≡ now 0 = omega (arith, rises passes k) in
      elim (Bool-cases (f k)) [
        | inl done ↦ (success, rw done refl, met k done)
        | inr waiting ↦ elim (Bool-cases (leb deadline (now k))) [
          | inl late ↦ (timeout, rw (waiting, late) refl, past_deadline k waiting (ground arith))
          | inr early ↦ elim (Bool-cases (leb (now 0 + spin_max) (now k))) [
            | inl over ↦ (
              advance,
              rw (waiting, early, first, over) refl,
              spun k waiting (ground arith) (ground arith),
            )
            | inr under ↦
                let other : k ≢ n = early-later now (now 0 + spin_max) k n (ground arith) long in
                let (r, ends, why) =
                  pause_loop-Reason spin_max fuel n (k + 1) passes long (omega arith)
                    (omega arith) in
                (r, rw (waiting, early, first, under) ends, why)
          ]
        ]
      ]

  -- If the clock never goes back and its n-th reading is at least `spin_max` past its first, where
  -- 1 ≤ n, `spin_pause_until` ends within n rounds, and for the reason that its result gives: the
  -- condition held; or it did not and the deadline is the earliest time, or had passed; or it did not,
  -- `spin_max` had passed and the deadline was yet to come; or `spin_max` is 0.
  pub spin_pause_until-Reason :
      (opt : WaitOptions) (n : ℕ)
      → ((k : ℕ) → now k ≤ now (k + 1))
      → now 0 + opt.spin_max ≤ now n
      → 1 ≤ n
      → (r : SpinResult) × (spin_pause_until deadline f now opt n ≡ some r) × Reason opt.spin_max r
  unfolding spin_pause_until
  spin_pause_until-Reason opt n passes long first = elim (Bool-cases (opt.spin_max == 0)) [
    | inl off ↦ (advance, rw off refl, no_spin (ground arith))
    | inr on ↦ elim (Bool-cases (f 0)) [
      | inl done ↦ (success, rw (on, done) refl, met 0 done)
      | inr waiting ↦ elim (Bool-cases (deadline == 0)) [
        | inl at_once ↦ (timeout, rw (on, waiting, at_once) refl, no_time waiting (ground arith))
        | inr later ↦
            let (r, ends, why) =
              pause_loop-Reason opt.spin_max n n 1 passes long first (omega arith) in
            (r, rw (on, waiting, later) ends, why)
      ]
    ]
  ]

  -- `spin_yield_until` with a deadline ends by the first reading of the clock that is not before the
  -- deadline, the n-th, whatever the clock did before; with success only if the condition held, with
  -- timeout only if it did not and the deadline had passed.
  spin_yield_until-Reason :
      (latest fuel n k : ℕ)
      → deadline ≢ latest
      → deadline ≤ now n
      → k ≤ n
      → n < k + fuel
      → (r : SpinResult) × (spin_yield_until deadline f now latest fuel k ≡ some r) × Reason 0 r
  unfolding spin_yield_until
  spin_yield_until-Reason latest zero n k bounded late below enough = absurd (omega arith)
  spin_yield_until-Reason latest (suc fuel) n k bounded ends below enough =
      let has_deadline : (deadline == latest) ≡ false = ground arith in
      elim (Bool-cases (f k)) [
        | inl done ↦ (success, rw done refl, met k done)
        | inr waiting ↦ elim (Bool-cases (leb deadline (now k))) [
          | inl late ↦ (
            timeout,
            rw (waiting, has_deadline, late) refl,
            past_deadline k waiting (ground arith),
          )
          | inr early ↦
              let other : k ≢ n = early-later now deadline k n (ground arith) ends in
              let (r, found, why) =
                spin_yield_until-Reason latest fuel n (k + 1) bounded ends (omega arith)
                  (omega arith) in
              (r, rw (waiting, has_deadline, early) found, why)
        ]
      ]
