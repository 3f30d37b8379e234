-- ===== src/Mpmc/Obtain/Linear.antt =====
-- The two loops that draw a ticket behave as if they had run at one moment.
use thread_pool_exec.Prelude.{
  ℕ, zero, suc, ◌+◌, ◌≤◌, ◌<◌, ◌≡◌, Bool, true, false, Option, none, some, ◌==◌, refl, arith,
  Bool-cases, inl, inr,
}
use thread_pool_exec.Mpmc.Obtain.{Draw, refused, drew, ready_loop, promised_loop}

-- What a call came to, as a call at the moment `j` that no other overlaps: after its first access
-- `from`, with the ticket taken by the access `c`, until when it was the next one.
pub data Linear {Q : Type 0} (tickets : ℕ → ℕ) (attempt : ℕ → Option (ℕ × Q)) (from : ℕ)
    : Draw → Type 0 where
  refused_at :
      (j ticket : ℕ) → from < j → attempt j ≡ none → Linear tickets attempt from (refused ticket)
  drew_at :
      (j c ticket : ℕ) (q : Q)
      → from < j
      → attempt j ≡ some (ticket, q)
      → j ≤ c
      → tickets c ≡ ticket
      → Linear tickets attempt from (drew ticket)

pub later :
    {Q : Type 0} {tickets : ℕ → ℕ} {attempt : ℕ → Option (ℕ × Q)} {k from : ℕ} (r : Draw)
    → k ≤ from
    → Linear tickets attempt from r
    → Linear tickets attempt k r
later r before (refused_at j ticket after e) = refused_at j ticket (omega arith) e
later r before (drew_at j c ticket q after e upto same) =
    drew_at j c ticket q (omega arith) e upto same

module _ {Q : Type 0} (tickets : ℕ → ℕ) (rise : (k : ℕ) → tickets k ≤ tickets (k + 1)) (top : ℕ)
    (few : (k : ℕ) → tickets k ≤ top) (attempt : ℕ → Option (ℕ × Q)) (test : ℕ → ℕ → Bool) where
  unmoved : (k : ℕ) → (tickets (k + 1 + 1) == tickets k) ≡ true → tickets (k + 1) ≡ tickets k
  unmoved k same = ground (arith, rise k, rise (k + 1))

  moved :
      (fuel k : ℕ)
      → (tickets (k + 1 + 1) == tickets k) ≡ false
      → top < tickets k + suc fuel
      → top < tickets (k + 1 + 1) + fuel
  moved fuel k more less = ground (arith, rise k, rise (k + 1))

  pub ready_loop-Linear :
      (after : ℕ → Q)
      → ((k : ℕ) → test k (tickets k) ≡ true → attempt k ≡ some (tickets k, after k))
      → ((k : ℕ) → test k (tickets k) ≡ false → attempt k ≡ none)
      → (fuel k : ℕ) → top < tickets k + fuel
      → (r : Draw) × (ready_loop tickets test fuel (k + 1) (tickets k) ≡ some r)
        × Linear tickets attempt k r
  unfolding ready_loop
  ready_loop-Linear after can cannot zero k less = absurd (omega (arith, few k))
  ready_loop-Linear after can cannot (suc fuel) k less =
      elim (Bool-cases (test (k + 1) (tickets k))) [
        | inl able ↦ elim (Bool-cases (tickets (k + 1 + 1) == tickets k)) [
          | inl same ↦
              let still = unmoved k same in
              (
                drew (tickets k),
                rw (able, same) refl,
                drew_at (k + 1) (k + 1 + 1) (tickets k) (after (k + 1)) (omega arith)
                    (rw (← still) (can (k + 1) (rw still able))) (omega arith) (ground arith),
              )
          | inr more ↦
              let (r, ends, linear) =
                ready_loop-Linear after can cannot fuel (k + 1 + 1) (moved fuel k more less) in
              (r, rw (able, more) ends, later r (omega arith) linear)
        ]
        | inr unable ↦ elim (Bool-cases (tickets k == tickets (k + 1 + 1))) [
          | inl same ↦
              let still = unmoved k (ground arith) in
              (
                refused (tickets k),
                rw (unable, same) refl,
                refused_at (k + 1) (tickets k) (omega arith) (cannot (k + 1) (rw still unable)),
              )
          | inr more ↦
              let (r, ends, linear) =
                ready_loop-Linear after can cannot fuel (k + 1 + 1)
                  (moved fuel k (ground arith) less) in
              (r, rw (unable, more) ends, later r (omega arith) linear)
        ]
      ]

  pub promised_loop-Linear :
      (after : ℕ → Q)
      → ((k ticket : ℕ) → ticket ≤ tickets k → test k ticket ≡ true → attempt k ≡ none)
      → ((k ticket : ℕ)
          → tickets (k + 1) ≡ ticket
          → test k ticket ≡ false
          → attempt (k + 1) ≡ some (ticket, after (k + 1)))
      → (fuel k : ℕ) → top < tickets k + fuel
      → (r : Draw) × (promised_loop tickets test fuel (k + 1) (tickets k) ≡ some r)
        × Linear tickets attempt k r
  unfolding promised_loop
  promised_loop-Linear after cannot can zero k less = absurd (omega (arith, few k))
  promised_loop-Linear after cannot can (suc fuel) k less =
      elim (Bool-cases (test (k + 1) (tickets k))) [
        | inl out ↦ (
          refused (tickets k),
          rw out refl,
          refused_at (k + 1) (tickets k) (omega arith) (cannot (k + 1) (tickets k) (rise k) out),
        )
        | inr room ↦ elim (Bool-cases (tickets (k + 1 + 1) == tickets k)) [
          | inl same ↦
              let still : tickets (k + 1 + 1) ≡ tickets k = ground arith in
              (
                drew (tickets k),
                rw (room, same) refl,
                drew_at (k + 1 + 1) (k + 1 + 1) (tickets k) (after (k + 1 + 1)) (omega arith)
                    (can (k + 1) (tickets k) still room) (omega arith) still,
              )
          | inr more ↦
              let (r, ends, linear) =
                promised_loop-Linear after cannot can fuel (k + 1 + 1) (moved fuel k more less) in
              (r, rw (room, more) ends, later r (omega arith) linear)
        ]
      ]
