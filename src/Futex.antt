-- ===== src/Futex.antt =====
-- ThreadPool/detail/Futex.h, Futex-inl.h and Futex.cpp: how deadlines reach the kernel, what its
-- answers mean, and the futex that is emulated by a parking lot of folly. A time point is its count
-- of nanoseconds since the epoch of its clock.
pub mod Laws
use Prim.Native.Nat.{bit_and}
use thread_pool_exec.Prelude.{
  ℕ, suc, ◌+◌, ◌-◌, ◌*◌, ◌/◌, ◌%◌, ◌≡◌, Bool, true, false, Option, none, some, List, [], ◌∷◌, ltb,
  ◌==◌, if◌then◌else◌, ℤ, pos, negsuc, ◌+ℤ◌, ◌-ℤ◌, eq_ℤ, pos_part,
}

pub data FutexResult : Type 0 where
  value_changed awoken interrupted timed_out : FutexResult

-- `timeSpecFromTimePoint`: seconds and nanoseconds. A time before the epoch counts as the epoch.
unfoldable pub time_spec_from_time_point : ℤ → ℕ × ℕ
time_spec_from_time_point abs_time =
    let epoch = pos_part abs_time in
    let secs = epoch / 1000000000 in (secs, epoch - secs * 1000000000)

-- What `nativeFutexWaitImpl` passes to the kernel: FUTEX_WAIT_BITSET | FUTEX_PRIVATE_FLAG, with
-- FUTEX_CLOCK_REALTIME or not (flags of different bits, so that they add up), and the timeout.
pub record Request : Type 0 where
  pub op : ℕ
  pub timeout : Option (ℕ × ℕ)

abbrev pub wait_op : ℕ
wait_op = 9 + 128

abbrev pub clock_realtime : ℕ
clock_realtime = 256

-- `none` is the failed assertion that both times are given.
unfoldable pub wait_request : Option ℤ → Option ℤ → Option Request
unfolding time_spec_from_time_point
wait_request none none = some (record { op = wait_op; timeout = none })
wait_request (some system) none =
    some
      (record { op = wait_op + clock_realtime; timeout = some (time_spec_from_time_point system) })
wait_request none (some steady) =
    some (record { op = wait_op; timeout = some (time_spec_from_time_point steady) })
wait_request (some system) (some steady) = none

pub data Errno : Type 0 where
  etimedout eintr ewouldblock unexpected : Errno

-- What it returns, from the kernel's answer: 0, or an error number. `none` is a failed assertion; with
-- assertions compiled out a timeout is told as such and an unexpected error as `value_changed`.
unfoldable pub wait_result : Option (ℕ × ℕ) → Option Errno → Option FutexResult
wait_result timeout none = some awoken
wait_result none (some etimedout) = none
wait_result (some ts) (some etimedout) = some timed_out
wait_result timeout (some eintr) = some interrupted
wait_result timeout (some ewouldblock) = some value_changed
wait_result timeout (some unexpected) = none

-- `nativeFutexWake`, from what the kernel returns.
unfoldable pub wake_result : ℤ → ℕ
wake_result rv = pos_part rv

-- `time_point_conv`: the clocks are the same, or their readings are given. `latest` is
-- `time_point::max()`, the same count for all clocks of nanoseconds in as many bits. The clocks count
-- nanoseconds, so that `duration_cast` changes nothing, and the sums are taken to fit their type.
unfoldable pub time_point_conv : ℤ → Option (ℤ × ℤ) → ℤ → ℤ
unfolding ◌+ℤ◌ ◌-ℤ◌
time_point_conv latest readings time =
    if eq_ℤ time latest
    then latest
    else elim readings [ none ↦ time | some (now, target_now) ↦ target_now +ℤ (time -ℤ now) ]

-- `futexWaitUntil`: the system time and the steady time that it passes on.
unfoldable pub futex_wait_until : ℤ → Bool → Option (ℤ × ℤ) → ℤ → Option ℤ × Option ℤ
unfolding time_point_conv
futex_wait_until latest is_steady readings deadline =
    let converted = time_point_conv latest readings deadline in
    if eq_ℤ converted latest
    then (none, none)
    else if is_steady
    then (none, some converted)
    else (some converted, none)

-- `folly::UnparkControl`, and what `ParkingLot::unpark` does with it: the waiters at one address are
-- asked in their order, each by its mask.
pub data UnparkControl : Type 0 where
  retain_continue remove_continue remove_break : UnparkControl

unfoldable pub keep : {S : Type 0} → ℕ → S × List ℕ → S × List ℕ
keep mask (s, left) = (s, mask ∷ left)

unfoldable pub answer : {S : Type 0} → UnparkControl → ℕ → List ℕ → S → S × List ℕ → S × List ℕ
unfolding keep
answer retain_continue mask masks s rest = keep mask rest
answer remove_continue mask masks s rest = rest
answer remove_break mask masks s rest = (s, masks)

unfoldable pub ask : {S : Type 0} → (S → ℕ → UnparkControl × S) → S → List ℕ → S × List ℕ
unfolding answer
ask f s [] = (s, [])
ask f s (mask ∷ masks) =
    let answered = f s mask in answer answered.0 mask masks answered.1 (ask f answered.1 masks)

pub record Wakes : Type 0 where
  pub count : ℕ
  pub woken : ℕ
  pub failed : Bool  -- its assertion

pub record ParkingLot : Type 1 where
  pub unpark : (Wakes → ℕ → UnparkControl × Wakes) → Wakes → List ℕ → Wakes × List ℕ
  pub unpark_lem :
      (f : Wakes → ℕ → UnparkControl × Wakes) (s : Wakes) (masks : List ℕ)
      → unpark f s masks ≡ ask f s masks

-- The function that `emulatedFutexWake` gives to `unpark`.
unfoldable pub wake_one : ℕ → Wakes → ℕ → UnparkControl × Wakes
wake_one wait_mask s mask =
    if bit_and mask wait_mask == 0
    then (retain_continue, s)
    else if ltb 1 s.count
    then (remove_continue, record s { count = s.count - 1; woken = suc s.woken })
    else (remove_break, record { count = s.count - 1; woken = suc s.woken; failed = s.count == 0 })

-- `emulatedFutexWake`: what it returns, whether its assertion failed, and who still waits.
unfoldable pub emulated_futex_wake : ParkingLot → ℕ → ℕ → List ℕ → Wakes × List ℕ
unfolding wake_one
emulated_futex_wake lot count wait_mask waiters =
    lot.unpark (wake_one wait_mask) (record { count = count; woken = 0; failed = false }) waiters

-- `folly::ParkResult`, and what `emulatedFutexWaitImpl` makes of it.
pub data ParkResult : Type 0 where
  skip unparked expired : ParkResult

unfoldable pub park_result : ParkResult → FutexResult
park_result skip = value_changed
park_result unparked = awoken
park_result expired = timed_out

-- `emulatedFutexWaitImpl`: `park` takes the waiter's mask, what its function says of the futex and the
-- deadline, the system time if both are given.
unfoldable pub emulated_futex_wait :
    (ℕ → Bool → Option ℤ → ParkResult) → ℕ → ℕ → Option ℤ → Option ℤ → ℕ → FutexResult
unfolding park_result
emulated_futex_wait park futex expected (some system) steady wait_mask =
    park_result (park wait_mask (futex == expected) (some system))
emulated_futex_wait park futex expected none (some steady) wait_mask =
    park_result (park wait_mask (futex == expected) (some steady))
emulated_futex_wait park futex expected none none wait_mask =
    park_result (park wait_mask (futex == expected) none)
