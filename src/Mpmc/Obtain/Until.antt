-- ===== src/Mpmc/Obtain/Until.antt =====
-- `tryObtainPromised*TicketUntil`: they end by the wait that the deadline ends.
use thread_pool_exec.Prelude.{
  ℕ, zero, suc, ◌+◌, ◌≤◌, ◌<◌, ◌≡◌, ◌⊎◌, Bool, true, false, some, refl, arith, Bool-cases, inl, inr,
  dec_lt, ap,
}
use thread_pool_exec.Mpmc.Obtain.{Draw, refused, drew, obtain_until}

Draw-cases : (r : Draw) → ((t : ℕ) × (r ≡ drew t)) ⊎ ((t : ℕ) × (r ≡ refused t))
Draw-cases (refused t) = inr (t, refl)
Draw-cases (drew t) = inl (t, refl)

module _ (attempt : ℕ → Draw) (arrives : ℕ → Bool) where
  -- The round that the result is from: one that drew a ticket, or one whose wait timed out.
  data Ended (from to : ℕ) : Draw → Type 0 where
    by_ticket :
        (j ticket : ℕ) → from ≤ j → j ≤ to → attempt j ≡ drew ticket → Ended from to (drew ticket)
    by_deadline :
        (j ticket : ℕ)
        → from ≤ j
        → j ≤ to
        → attempt j ≡ refused ticket
        → arrives j ≡ false
        → Ended from to (refused ticket)

  earlier : {k from to : ℕ} (r : Draw) → k ≤ from → Ended from to r → Ended k to r
  earlier r before (by_ticket j ticket after upto e) = by_ticket j ticket (omega arith) upto e
  earlier r before (by_deadline j ticket after upto e late) =
      by_deadline j ticket (omega arith) upto e late

  before : (r n : ℕ) → arrives r ≡ true → arrives n ≡ false → r ≤ n → r < n
  before r n turn late below = elim (dec_lt r n) [
    | yes less ↦ less
    | no more ↦ let same : r ≡ n = omega arith in absurd (cc (turn, late, ap arrives same))
  ]

  -- If the wait of the round `n` would be ended by the deadline, the call ends by that round: with a
  -- ticket that a round drew, or without one after a round that drew none and whose wait the
  -- deadline ended.
  obtain_until-Ended :
      (n fuel r : ℕ)
      → arrives n ≡ false
      → r ≤ n
      → n < r + fuel
      → (o : Draw) × (obtain_until attempt arrives fuel r ≡ some o) × Ended r n o
  unfolding obtain_until
  obtain_until-Ended n zero r late below enough = absurd (omega arith)
  obtain_until-Ended n (suc fuel) r late below enough = elim (Draw-cases (attempt r)) [
    | inl (t, e) ↦ (drew t, rw (obtain_until, e) refl, by_ticket r t (omega arith) below e)
    | inr (t, e) ↦ elim (Bool-cases (arrives r)) [
      | inl turn ↦
          let other : r < n = before r n turn late below in
          let (o, ends, why) = obtain_until-Ended n fuel (r + 1) late (omega arith) (omega arith) in
          (o, rw (obtain_until, e, turn) ends, earlier o (omega arith) why)
      | inr over ↦
          (refused t, rw (obtain_until, e, over) refl, by_deadline r t (omega arith) below e over)
    ]
  ]
