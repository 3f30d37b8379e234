-- ===== src/Spin.antt =====
-- ThreadPool/synchronization/WaitOptions.h and the spin loops of
-- ThreadPool/synchronization/detail/Spin.h. The k-th call of the condition gives `f k`, the k-th of
-- `Clock::now()` gives `now k`; time points count from `time_point::min()`.
pub mod Laws
use thread_pool_exec.Prelude.{
  ℕ, zero, suc, ◌+◌, min, Bool, true, Option, none, some, leb, ◌==◌, ◌&&◌, not, if◌then◌else◌,
}

-- The spin time is in nanoseconds; a negative one is taken for 0.
pub record WaitOptions : Type 0 where
  pub spin_max : ℕ
  pub logging_enabled : Bool

abbrev pub defaults : WaitOptions
defaults = record { spin_max = 2000; logging_enabled = true }

pub data SpinResult : Type 0 where
  success timeout advance : SpinResult

module _ (deadline : ℕ) (f : ℕ → Bool) (now : ℕ → ℕ) where
  -- The loop of `spin_pause_until`; `none` when the fuel is out, here and below.
  unfoldable pub pause_loop : ℕ → ℕ → ℕ → ℕ → Option SpinResult
  pause_loop spin_max zero k tbegin = none
  pause_loop spin_max (suc fuel) k tbegin =
      let tnow = now k in
      let tbegin' = min tbegin tnow in
      let rest = pause_loop spin_max fuel (k + 1) tbegin' in
      if f k
      then some success
      else if leb deadline tnow
      then some timeout
      else if leb (tbegin' + spin_max) tnow
      then some advance
      else rest

  unfoldable pub spin_pause_until : WaitOptions → ℕ → Option SpinResult
  unfolding pause_loop
  spin_pause_until opt fuel =
      if opt.spin_max == 0
      then some advance
      else if f 0
      then some success
      else if deadline == 0
      then some timeout
      else pause_loop opt.spin_max fuel 1 (now 0)

  -- `latest` is `time_point::max()`.
  unfoldable pub spin_yield_until : ℕ → ℕ → ℕ → Option SpinResult
  spin_yield_until latest zero k = none
  spin_yield_until latest (suc fuel) k =
      let rest = spin_yield_until latest fuel (k + 1) in
      if f k
      then some success
      else if not (deadline == latest) && leb deadline (now k)
      then some timeout
      else rest
