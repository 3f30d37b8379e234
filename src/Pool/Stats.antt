-- ===== src/Pool/Stats.antt =====
-- `getPoolStats` of ThreadPool/executors/ThreadPoolExecutor.cpp.
pub mod Laws
use thread_pool_exec.Prelude.{ℕ, ◌+◌, ◌-◌, ◌%◌, ◌^◌, Bool, List, [], ◌∷◌, max, if◌then◌else◌}
use thread_pool_exec.TaskQueue.{BlockingQueue}
use thread_pool_exec.Pool.Task.{Task, Thread}
use thread_pool_exec.Pool.State.{Pool}

pub record PoolStats : Type 0 where
  pub thread_count : ℕ
  pub idle_thread_count : ℕ
  pub active_thread_count : ℕ
  pub pending_task_count : ℕ
  pub total_task_count : ℕ
  pub max_idle_time : ℕ

-- `size_t` subtraction.
unfoldable pub sub_size : ℕ → ℕ → ℕ
sub_size a b = (a + 2 ^ 64 - b) % 2 ^ 64

-- The variables of the loop.
pub record Tally : Type 0 where
  pub active_tasks : ℕ
  pub idle_alive : ℕ
  pub max_idle_time : ℕ

unfoldable pub tally_one : ℕ → Tally → Thread → Tally
tally_one now acc t =
    if t.idle
    then record acc {
      max_idle_time = max acc.max_idle_time (now - t.last_active_time);
      idle_alive = acc.idle_alive + 1;
    }
    else record acc { active_tasks = acc.active_tasks + 1 }

unfoldable pub tally : ℕ → Tally → List Thread → Tally
unfolding tally_one
tally now acc [] = acc
tally now acc (t ∷ ts) = tally now (tally_one now acc t) ts

module _ (bq : BlockingQueue Task) where
  open bq use {Queue, size}

  unfoldable pub get_pool_stats : ℕ → Pool Queue → PoolStats
  unfolding tally sub_size
  get_pool_stats now p =
      let counts =
        tally now (record { active_tasks = 0; idle_alive = 0; max_idle_time = 0 })
          p.thread_list.vec in
      let pending = size p.task_queue in
      let active = sub_size p.active_threads counts.idle_alive in
      record {
        thread_count = p.max_threads;
        idle_thread_count = sub_size p.max_threads active;
        active_thread_count = active;
        pending_task_count = pending;
        total_task_count = pending + counts.active_tasks;
        max_idle_time = counts.max_idle_time;
      }
