-- ===== src/Pool/Limits.antt =====
-- What `setNumThreads` promises of the numbers of threads.
use thread_pool_exec.Prelude.{ℕ, ◌+◌, ◌-◌, ◌≤◌, ◌<◌, ◌≡◌, inl, inr, false, arith, min}
use thread_pool_exec.TaskQueue.{BlockingQueue}
use thread_pool_exec.Pool.Task.{Task}
use thread_pool_exec.Pool.State.{Pool, returned, Stamp, add_threads}
use thread_pool_exec.Pool.Resize.{
  is_empty, num_to_add, new_min, resized, extra, grows, set_num_threads,
}
use thread_pool_exec.Pool.System.Invariant.{
  set_num_threads_cases, remove_threads-Stopping, Stopping,
}

module _ (bq : BlockingQueue Task) where
  open bq use {Queue, size}

  -- The limits of a pool after `setNumThreads`.
  pub record Limits (n k : ℕ) (p q : Pool Queue) : Type 0 where
    pub maximum : q.max_threads ≡ n
    pub minimum : q.min_threads ≡ min n p.min_threads
    pub at_most : q.active_threads ≤ n
    pub at_least : q.min_threads ≤ q.active_threads
    pub joins : k ≡ p.active_threads - n
    -- enough for what is pending, where `n` allows it
    pub serves : min n (p.active_threads + size p.task_queue) ≤ q.active_threads
    -- all of them, where they are observed
    pub all_observed : is_empty p.observers ≡ false → q.active_threads ≡ n
    -- `assert(numThreadsToJoin <= active - minthreads)`
    pub asserted : k ≤ p.active_threads - q.min_threads

  shrinks :
      (n : ℕ) (p r : Pool Queue)
      → n < p.active_threads
      → Stopping bq (p.active_threads - n) (resized n p) r
      → Limits n (p.active_threads - n) p (record r { active_threads = n })
  unfolding resized new_min
  shrinks n p r less st = ground arith

  -- A call of `setNumThreads` that returns, on whichever branch, leaves the pool within its limits:
  -- the new maximum, the minimum lowered to it where it was above, active threads between the two,
  -- as many as the pending tasks need or the maximum allows, and the maximum where observers watch;
  -- it joins those above the maximum, which its assertion allows.
  pub set_num_threads-Limits :
      (n : ℕ) (at : Stamp) (p : Pool Queue) {k : ℕ} {q : Pool Queue}
      → set_num_threads bq n at p ≡ returned k q
      → Limits n k p q
  unfolding add_threads resized extra grows num_to_add new_min
  set_num_threads-Limits n at p {k} {q} e = elim (set_num_threads_cases bq n at p e) [
    | inl (less, amount, r, returns, at_end) ↦
        rw (amount, at_end)
          (shrinks n p r less
            (remove_threads-Stopping bq (p.active_threads - n) false at (resized n p) returns))
    | inr (enough, amount, inl grew) ↦ ground arith
    | inr (enough, amount, inr (stays, same)) ↦ ground arith
  ]
