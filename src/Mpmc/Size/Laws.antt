-- ===== src/Mpmc/Size/Laws.antt =====
-- The size that a call returns was the size at one moment of the call.
use thread_pool_exec.Prelude.{
  ℕ, zero, suc, ◌+◌, ◌*◌, ◌^◌, ◌≤◌, ◌<◌, ◌≡◌, some, ◌==◌, ℤ, sub_ℕ, arith, refl, Bool-cases, inl,
  inr,
}
use thread_pool_exec.Mpmc.Size.{to_ssize, signed_difference, size_loop, size}

pub signed_difference_lem : (a b : ℕ) → a < 2 ^ 63 → b < 2 ^ 63 → signed_difference a b ≡ sub_ℕ a b
unfolding signed_difference to_ssize
signed_difference_lem a b x y = ground arith

-- Tickets only go up.
pub record Counts (push pop : ℕ → ℕ) : Type 0 where
  pub pushes_rise : (k : ℕ) → push k ≤ push (k + 1)
  pub pops_rise : (k : ℕ) → pop k ≤ pop (k + 1)
  pub pushes_small : (k : ℕ) → push k < 2 ^ 63
  pub pops_small : (k : ℕ) → pop k < 2 ^ 63

module _ (push pop : ℕ → ℕ) (c : Counts push pop) (top : ℕ) (few : (k : ℕ) → push k ≤ top) where
  -- Three moments of which the outer two show the same count show it in between too.
  between :
      (f : ℕ → ℕ) (k : ℕ)
      → f k ≤ f (k + 1)
      → f (k + 1) ≤ f (k + 1 + 1)
      → f k ≡ f (k + 1 + 1)
      → f (k + 1) ≡ f k
  between f k a b e = omega arith

  loop-some :
      (fuel k : ℕ)
      → top < push k + fuel
      → (n : ℤ) × (j : ℕ) × (size_loop push pop fuel (k + 1 + 1) (push k) (pop (k + 1)) ≡ some n)
        × (k < j)
        × (j ≤ k + 2 * fuel)
        × (n ≡ sub_ℕ (push j) (pop j))
  unfolding size_loop
  loop-some zero k less = absurd (omega (arith, few k))
  loop-some (suc fuel) k less = elim (Bool-cases (push k == push (k + 1 + 1))) [
    | inl same ↦
        let e = between push k (c.pushes_rise k) (c.pushes_rise (k + 1)) (ground arith) in
        (
          signed_difference (push k) (pop (k + 1)),
          k + 1,
          rw same refl,
          omega arith,
          omega arith,
          rw e (
              signed_difference_lem (push k) (pop (k + 1)) (c.pushes_small k)
                (c.pops_small (k + 1))),
        )
    | inr more ↦ elim (Bool-cases (pop (k + 1) == pop (k + 1 + 1 + 1))) [
      | inl same ↦
          let e =
            between pop (k + 1) (c.pops_rise (k + 1)) (c.pops_rise (k + 1 + 1)) (ground arith) in
          (
            signed_difference (push (k + 1 + 1)) (pop (k + 1)),
            k + 1 + 1,
            rw (more, same) refl,
            omega arith,
            omega arith,
            rw e (
                signed_difference_lem (push (k + 1 + 1)) (pop (k + 1)) (c.pushes_small (k + 1 + 1))
                  (c.pops_small (k + 1))),
          )
      | inr popped ↦
          let higher : push k < push (k + 1 + 1) =
            ground (arith, c.pushes_rise k, c.pushes_rise (k + 1)) in
          let (n, j, ends, later, soon, same) = loop-some fuel (k + 1 + 1) (omega arith) in
          (n, j, rw (more, popped) ends, omega arith, omega arith, same)
    ]
  ]

  -- Let the numbers of pushes and of pops only rise, stay below 2 ^ 63, and the pushes stay at most
  -- `top`. Then `size` ends within any number of rounds that is greater than the number of pushes
  -- from its first load to `top`, and what it returns was the number of pushes less the number of
  -- pops at one moment between its first load and its last.
  pub size-some :
      (fuel : ℕ)
      → top < push 0 + fuel
      → (n : ℤ) × (j : ℕ) × (size push pop fuel ≡ some n)
        × (0 < j)
        × (j ≤ 2 * fuel)
        × (n ≡ sub_ℕ (push j) (pop j))
  unfolding size
  size-some fuel less =
      let (n, j, ends, later, soon, same) = loop-some fuel 0 less in
      (n, j, ends, later, omega arith, same)
