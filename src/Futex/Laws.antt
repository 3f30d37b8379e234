-- ===== src/Futex/Laws.antt =====
-- What a wake of the emulated futex does to the waiters, and what a deadline is for the kernel.
use Prim.Native.Nat.{bit_and}
use thread_pool_exec.Prelude.{
  ℕ, zero, suc, ◌+◌, ◌-◌, ◌*◌, ◌<◌, ◌≡◌, inl, inr, min, Bool, true, false, Option, none, some, List,
  [], ◌∷◌, ◌==◌, ltb, if◌then◌else◌, refl, arith, Bool-cases, ℤ, pos_part, eq_ℤ,
}
use thread_pool_exec.Futex.{
  time_spec_from_time_point, Request, wait_op, clock_realtime, wait_request, time_point_conv,
  futex_wait_until, answer, retain_continue, remove_continue, remove_break, keep, ask, Wakes,
  ParkingLot, wake_one, emulated_futex_wake,
}

module _ (wait_mask : ℕ) where
  -- Whether a waiter's mask meets the one of the wake.
  unfoldable meets : ℕ → Bool
  meets mask = if bit_and mask wait_mask == 0 then false else true

  unfoldable pub matching : List ℕ → ℕ
  unfolding meets
  matching [] = 0
  matching (mask ∷ masks) = if meets mask then suc (matching masks) else matching masks

  -- The waiters without the first `count` that meet the mask, in their order.
  unfoldable pub without : ℕ → List ℕ → List ℕ
  unfolding meets
  without zero masks = masks
  without (suc count) [] = []
  without (suc count) (mask ∷ masks) =
      let less = without count masks in
      let rest = without (suc count) masks in if meets mask then less else mask ∷ rest

  -- A wake that goes through the waiters with `suc count` left to wake and `woken` woken so far.
  asked : ℕ → ℕ → Wakes
  asked count woken = record { count = suc count; woken = woken; failed = false }

  wake_one-other :
      (s : Wakes) (mask : ℕ)
      → (bit_and mask wait_mask == 0) ≡ true
      → wake_one wait_mask s mask ≡ (retain_continue, s)
  unfolding wake_one
  wake_one-other s mask other = rw other refl

  wake_one-more :
      (count woken mask : ℕ)
      → (bit_and mask wait_mask == 0) ≡ false
      → wake_one wait_mask (asked (suc count) woken) mask
        ≡ (remove_continue, asked count (suc woken))
  unfolding wake_one asked
  wake_one-more count woken mask met =
      let more : ltb 1 (suc (suc count)) ≡ true = ground arith in
      let one : suc (suc count) - 1 ≡ suc count = omega arith in rw (met, more, one) refl

  wake_one-last :
      (woken mask : ℕ)
      → (bit_and mask wait_mask == 0) ≡ false
      → wake_one wait_mask (asked 0 woken) mask
        ≡ (remove_break, record { count = 0; woken = suc woken; failed = false })
  unfolding wake_one asked
  wake_one-last woken mask met = rw met refl

  abbrev Goes : ℕ → ℕ → List ℕ → Type 0
  Goes count woken masks =
      ((ask (wake_one wait_mask) (asked count woken) masks).0.woken
        ≡ woken + min (suc count) (matching masks))
      × ((ask (wake_one wait_mask) (asked count woken) masks).0.failed ≡ false)
      × ((ask (wake_one wait_mask) (asked count woken) masks).1 ≡ without (suc count) masks)

  asks_lem : (count woken : ℕ) (masks : List ℕ) → Goes count woken masks
  unfolding asked ask keep matching without meets answer
  asks_lem count woken [] = (omega arith, refl, refl)
  asks_lem count woken (mask ∷ masks) = elim (Bool-cases (bit_and mask wait_mask == 0)) [
    | inl other ↦
        let (same, fine, left) = asks_lem count woken masks in
        let skip = wake_one-other (asked count woken) mask other in
        (rw (skip, other) same, rw skip fine, rw (skip, other, left) refl)
    | inr met ↦ elim count as (λ count. Goes count woken (mask ∷ masks)) [
      | zero ↦
          let last = wake_one-last woken mask met in
          (rw (last, met) (omega arith), rw last refl, rw (last, met) refl)
      | suc count ↦
          let (same, fine, left) = asks_lem count (suc woken) masks in
          let more = wake_one-more count woken mask met in
          (rw (more, met, same) (omega arith), rw more fine, rw (more, met, left) refl)
    ]
  ]

  -- For `count` of at least 1, `emulatedFutexWake` passes its assertion, wakes and returns `count` or,
  -- if they are fewer, the number of the waiters that meet the mask, and those that it wakes are the
  -- first of these: the others still wait, in their order.
  pub emulated_futex_wake_lem :
      (lot : ParkingLot) (count : ℕ) (waiters : List ℕ)
      → 0 < count
      → ((emulated_futex_wake lot count wait_mask waiters).0.woken ≡ min count (matching waiters))
        × ((emulated_futex_wake lot count wait_mask waiters).0.failed ≡ false)
        × ((emulated_futex_wake lot count wait_mask waiters).1 ≡ without count waiters)
  unfolding emulated_futex_wake asked
  emulated_futex_wake_lem lot zero waiters some_count = absurd (omega arith)
  emulated_futex_wake_lem lot (suc count) waiters some_count =
      let e = lot.unpark_lem (wake_one wait_mask) (asked count 0) waiters in
      let (woken, failed, left) = asks_lem count 0 waiters in
      (rw (e, woken) (omega arith), rw (e, failed) refl, rw (e, left) refl)

-- What the kernel is asked for a deadline that is `converted` on the clock that it waits on.
pub data Asks (latest converted : ℤ) (is_steady : Bool) : Request → Type 0 where
  forever :
      eq_ℤ converted latest ≡ true
      → Asks latest converted is_steady (record { op = wait_op; timeout = none })
  until :
      (secs nanos : ℕ)
      → eq_ℤ converted latest ≡ false
      → secs * 1000000000 + nanos ≡ pos_part converted
      → nanos < 1000000000
      → Asks latest converted is_steady (record {
        op = wait_op + (if is_steady then 0 else clock_realtime);
        timeout = some (secs, nanos);
      })

timed-Asks :
    (latest : ℤ) (is_steady : Bool) (converted : ℤ)
    → eq_ℤ converted latest ≡ false
    → let times : Option ℤ × Option ℤ =
        if is_steady then (none, some converted) else (some converted, none) in
      (r : Request) × (wait_request times.0 times.1 ≡ some r) × Asks latest converted is_steady r
unfolding wait_request time_spec_from_time_point
timed-Asks latest true converted timed = (_, refl, until _ _ timed (omega arith) (omega arith))
timed-Asks latest false converted timed = (_, refl, until _ _ timed (omega arith) (omega arith))

-- `futexWaitUntil` never gives two times, so that the assertion of `nativeFutexWaitImpl` holds, and
-- the kernel is asked to wait without a timeout if the converted deadline is the latest time, else
-- until that deadline, or the epoch if it is before, on the clock that the deadline's clock calls
-- for, with nanoseconds that the kernel accepts.
pub futex_wait_until-Asks :
    (latest : ℤ) (is_steady : Bool) (readings : Option (ℤ × ℤ)) (deadline : ℤ)
    → let times = futex_wait_until latest is_steady readings deadline in
      (r : Request) × (wait_request times.0 times.1 ≡ some r)
      × Asks latest (time_point_conv latest readings deadline) is_steady r
unfolding futex_wait_until wait_request
futex_wait_until-Asks latest is_steady readings deadline =
    let converted = time_point_conv latest readings deadline in
    elim (Bool-cases (eq_ℤ converted latest)) [
      | inl last ↦ (record { op = wait_op; timeout = none }, rw last refl, forever last)
      | inr timed ↦
          let (r, asked_for, why) = timed-Asks latest is_steady converted timed in
          (r, rw timed asked_for, why)
    ]
