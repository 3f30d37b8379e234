-- ===== src/Pool/Stats/Laws.antt =====
-- The statistics of a pool count its threads, and where they do not.
use thread_pool_exec.Prelude.{
  ℕ, ◌+◌, ◌<◌, ◌≡◌, ◌^◌, refl, List, [], ◌∷◌, length, arith, if◌then◌else◌,
}
use thread_pool_exec.TaskQueue.{BlockingQueue}
use thread_pool_exec.Pool.Task.{Task, Thread}
use thread_pool_exec.Pool.ThreadList.Laws.{total}
use thread_pool_exec.Pool.State.{Pool}
use thread_pool_exec.Pool.System.{System}
use thread_pool_exec.Pool.System.Invariant.{Inv}
use thread_pool_exec.Pool.Stats.{Tally, tally, tally_one, get_pool_stats}

abbrev pub is_idle : Thread → ℕ
is_idle t = if t.idle then 1 else 0

abbrev pub is_busy : Thread → ℕ
is_busy t = if t.idle then 0 else 1

tally_counts :
    (now : ℕ) (acc : Tally) (ts : List Thread)
    → ((tally now acc ts).active_tasks ≡ acc.active_tasks + total is_busy ts)
      × ((tally now acc ts).idle_alive ≡ acc.idle_alive + total is_idle ts)
unfolding tally total
tally_counts now acc [] = (omega arith, omega arith)
tally_counts now acc (t ∷ ts) = ground (arith, tally_counts now (tally_one now acc t) ts)

total-idle_busy : (ts : List Thread) → total is_busy ts + total is_idle ts ≡ length ts
unfolding total
total-idle_busy [] = refl
total-idle_busy (t ∷ ts) = ground (arith, total-idle_busy ts)

module _ (bq : BlockingQueue Task) where
  open bq use {Queue, size}

  -- Once every thread that was to stop has left the list, the statistics count the threads: those
  -- active are the ones that run a task, the idle ones are the rest up to the maximum, and all
  -- tasks are those pending and those run.
  get_pool_stats-settled :
      (now : ℕ) (s : System Queue)
      → Inv bq s
      → s.pool.threads_to_stop ≡ 0
      → s.pool.max_threads < 2 ^ 64
      → let stats = get_pool_stats bq now s.pool in
        (stats.active_thread_count ≡ total is_busy s.pool.thread_list.vec)
        × (stats.idle_thread_count + stats.active_thread_count ≡ s.pool.max_threads)
        × (stats.total_task_count ≡ size s.pool.task_queue + total is_busy s.pool.thread_list.vec)
  unfolding get_pool_stats
  get_pool_stats-settled now s v none_leaving fits =
      let counts =
        tally_counts now (record { active_tasks = 0; idle_alive = 0; max_idle_time = 0 })
          s.pool.thread_list.vec in
      let split = total-idle_busy s.pool.thread_list.vec in
      (
        omega (arith, counts, split, v.listed, v.capped),
        omega (arith, counts, split, v.listed, v.capped),
        omega (arith, counts),
      )

  -- Where more workers are idle than the pool counts as active, as after `stop` has set the count
  -- to 0 and before the idle workers have left, the number of active threads wraps round.
  pub get_pool_stats-wraps :
      (now : ℕ) (p : Pool Queue)
      → p.active_threads < total is_idle p.thread_list.vec
      → length p.thread_list.vec < 2 ^ 64
      → (get_pool_stats bq now p).active_thread_count + total is_idle p.thread_list.vec
        ≡ 2 ^ 64 + p.active_threads
  unfolding get_pool_stats
  get_pool_stats-wraps now p more fits =
      let counts =
        tally_counts now (record { active_tasks = 0; idle_alive = 0; max_idle_time = 0 })
          p.thread_list.vec in
      omega (arith, counts, total-idle_busy p.thread_list.vec)
