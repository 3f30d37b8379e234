-- ===== src/Pool/System/Invariant/Defs.antt =====
-- The invariant of a pool.
use thread_pool_exec.Prelude.{ℕ, ◌+◌, ◌≤◌, ◌<◌, ◌≡◌, some, List, [], ◌∷◌, length, if◌then◌else◌}
use thread_pool_exec.TaskQueue.{BlockingQueue, weigh}
use thread_pool_exec.Pool.Task.{Task, Thread, Place, took}
use thread_pool_exec.Pool.ThreadList.Laws.{IsRising, total}
use thread_pool_exec.Pool.System.Defs.{System}

abbrev pub is_poison : Task → ℕ
is_poison x = if x.poison then 1 else 0

abbrev pub place_weight : Place → ℕ
place_weight (took (some x)) = is_poison x
place_weight _ = 0

-- A worker between taking poison and the lock.
abbrev pub holds_poison : Thread → ℕ
holds_poison t = place_weight t.place

abbrev pub Below : ℕ → List Thread → Type 0
Below n [] = Unit
Below n (t ∷ ts) = (t.id < n) × Below n ts

module _ (bq : BlockingQueue Task) where
  open bq use {Queue, items}

  pub record Inv (s : System Queue) : Type 0 where
    -- A live thread is active, or is to stop.
    pub listed : length s.pool.thread_list.vec ≡ s.pool.active_threads + s.pool.threads_to_stop
    -- A thread that has stopped or is to stop will be joined, once.
    pub owed :
        length s.pool.stopped_threads + s.pool.threads_to_stop
        ≡ s.pool.threads_to_join + s.joins_due
    pub capped : s.pool.active_threads ≤ s.pool.max_threads
    pub rising : IsRising 0 s.pool.thread_list.vec
    pub fresh : Below s.pool.next_id s.pool.thread_list.vec
    -- There is poison for every thread that is to stop.
    pub poisoned :
        s.pool.threads_to_stop
        ≤ weigh is_poison (items s.pool.task_queue) + total holds_poison s.pool.thread_list.vec
