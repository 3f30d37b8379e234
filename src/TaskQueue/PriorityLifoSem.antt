-- ===== src/TaskQueue/PriorityLifoSem.antt =====
-- PriorityLifoSemMPMCQueue of ThreadPool/executors/task_queue/PriorityLifoSemMPMCQueue.h, one
-- thread at a time and with QueueBehaviorIfFull::THROW, without the semaphore; Threads has it.
pub mod Laws
pub mod Make
pub mod Interface
pub mod Threads
use thread_pool_exec.Prelude.{
  ℕ, zero, suc, ◌+◌, ◌%◌, Bool, Option, none, some, List, [], ◌∷◌, ◌++◌, length, ltb, ◌==◌,
  get_elem?, set, if◌then◌else◌, ℤ, pos, ◌+ℤ◌, ltb_ℤ,
}
use thread_pool_exec.Priority.{to_int8, queue_index}
use thread_pool_exec.TaskQueue.Bounded.{BoundedQueue}

-- How a constructor ends: its CHECK fails or it throws, or it is still at its loop.
pub data Construction (A : Type 0) : Type 0 where
  built : A → Construction A
  refused : Construction A
  out_of_fuel : Construction A

module _ {T : Type 0} (mpmc : BoundedQueue T) where
  open mpmc use {Queue, make, write_if_not_full, read_if_not_empty, size}

  -- `emplace_back`, where `MPMCQueueBase` throws `std::invalid_argument` for a capacity of 0.
  unfoldable pub make_queue : ℕ → Option Queue
  make_queue capacity = if capacity == 0 then none else some (make capacity)

  -- The loop of the first constructor, whose counter is an `int8_t`.
  unfoldable pub make_queues_loop : ℕ → ℤ → ℕ → ℕ → List Queue → Construction (List Queue)
  unfolding to_int8 ◌+ℤ◌ make_queue
  make_queues_loop zero i num_priorities max_capacity queues = out_of_fuel
  make_queues_loop (suc fuel) i num_priorities max_capacity queues =
      if ltb_ℤ i (pos num_priorities)
      then elim (make_queue max_capacity) [
        | none ↦ refused
        | some q ↦
            make_queues_loop fuel (to_int8 (i +ℤ pos 1)) num_priorities max_capacity
              (queues ++ q ∷ [])
      ]
      else built queues

  -- The constructor, with its CHECK.
  unfoldable pub make_queues : ℕ → ℕ → ℕ → Construction (List Queue)
  unfolding make_queues_loop
  make_queues fuel num_priorities max_capacity =
      if ltb 0 num_priorities
      then make_queues_loop fuel (pos 0) num_priorities max_capacity []
      else refused

  unfoldable pub make_each : List ℕ → Option (List Queue)
  unfolding make_queue
  make_each [] = some []
  make_each (capacity ∷ capacities) = elim (make_queue capacity) [
    | none ↦ none
    | some q ↦ elim (make_each capacities) [ none ↦ none | some qs ↦ some (q ∷ qs) ]
  ]

  -- The constructor from one capacity for each queue; `none` is a failed CHECK, or the exception.
  unfoldable pub make_queues_with : List ℕ → Option (List Queue)
  unfolding make_each
  make_queues_with capacities =
      if ltb 0 (length capacities)
      then if ltb (length capacities) 256 then make_each capacities else none
      else none

  unfoldable pub num_priorities : List Queue → ℕ
  num_priorities queues = length queues % 256

  -- `addWithPriority`: `none` is QueueFullException, or a failed CHECK.
  unfoldable pub add_with_priority : List Queue → T → ℤ → Option (List Queue)
  unfolding num_priorities
  add_with_priority queues item priority =
      let queue = queue_index (num_priorities queues) priority in
      elim (get_elem? queues queue) [
        | none ↦ none
        | some q ↦ elim (write_if_not_full q item) [
          | none ↦ none
          | some q' ↦ some (set queues queue q')
        ]
      ]

  -- `nonBlockingTake`: from the last queue to the first.
  unfoldable pub non_blocking_take : List Queue → Option (T × List Queue)
  non_blocking_take [] = none
  non_blocking_take (q ∷ qs) = elim (non_blocking_take qs) [
    | some (item, qs') ↦ some (item, q ∷ qs')
    | none ↦ elim (read_if_not_empty q) [ some (item, q') ↦ some (item, q' ∷ qs) | none ↦ none ]
  ]

  unfoldable pub total_size : List Queue → ℕ
  total_size [] = 0
  total_size (q ∷ qs) = size q + total_size qs
