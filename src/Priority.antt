-- ===== src/Priority.antt =====
-- ThreadPool/executors/task_queue: how the priority queues choose the queue of a priority.
-- `int8_t` and `int` values are integers; the ranges that keep them from wrapping are hypotheses.
pub mod Order
use thread_pool_exec.Prelude.{
  ℕ, ◌+◌, ◌-◌, ◌/◌, ◌%◌, ◌≡◌, if◌then◌else◌, ltb, ltb_ℤ, ℤ, pos, negsuc, ◌+ℤ◌, ◌-ℤ◌, min_ℤ, max_ℤ,
}

-- Conversion to `int8_t`: the representative of a number modulo 256 in [-128, 127].
unfoldable pub to_int8 : ℤ → ℤ
to_int8 (pos n) = if ltb (n % 256) 128 then pos (n % 256) else negsuc (255 - n % 256)
to_int8 (negsuc n) = if ltb (n % 256) 128 then negsuc (n % 256) else pos (255 - n % 256)

-- Conversion of an integer to `size_t`.
unfoldable pub to_size : ℤ → ℕ
to_size (pos n) = n % 18446744073709551616
to_size (negsuc n) = 18446744073709551615 - n % 18446744073709551616

-- `addWithPriority` of PriorityLifoSemMPMCQueue: the index into `queues_`.
unfoldable pub queue_index : ℕ → ℤ → ℕ
unfolding ◌+ℤ◌ ◌-ℤ◌ min_ℤ max_ℤ to_size
queue_index num_priorities priority =
    let mid = pos (num_priorities / 2) in
    to_size (
      if ltb_ℤ priority (pos 0)
      then max_ℤ (pos 0) (mid +ℤ priority)
      else min_ℤ (pos num_priorities -ℤ pos 1) (mid +ℤ priority))

-- `folly::constexpr_clamp`, and what it returns.
pub record Clamp : Type 0 where
  pub constexpr_clamp : ℤ → ℤ → ℤ → ℤ
  pub constexpr_clamp_lem :
      (v lo hi : ℤ)
      → constexpr_clamp v lo hi ≡ (if ltb_ℤ v lo then lo else if ltb_ℤ hi v then hi else v)

-- `hi` and `lo` of `translatePriority`.
unfoldable pub highest : ℕ → ℤ
unfolding ◌-ℤ◌ to_int8
highest priorities = to_int8 (pos ((priorities + 1) / 2) -ℤ pos 1)

unfoldable pub lowest : ℕ → ℤ
unfolding ◌-ℤ◌ to_int8
lowest priorities = to_int8 (highest priorities -ℤ (pos priorities -ℤ pos 1))

-- `translatePriority` of PriorityUnboundedBlockingQueue: the index into the queue set, in which
-- a lower index is dequeued first.
unfoldable pub translate_priority : Clamp → ℕ → ℤ → ℕ
unfolding ◌-ℤ◌ to_size
translate_priority folly priorities priority =
    let hi = highest priorities in
    to_size (hi -ℤ folly.constexpr_clamp priority (lowest priorities) hi)
