-- ===== src/Pool/Submit.antt =====
-- `add` and `addWithPriority` of ThreadPool/executors/CPUThreadPoolExecutor.cpp, and the constructor.
pub mod Laws
use thread_pool_exec.Prelude.{
  ℕ, zero, suc, ◌+◌, Bool, true, false, not, ◌&&◌, ◌||◌, Option, none, some, List, [], ltb, ◌==◌,
  if◌then◌else◌, ℤ, pos,
}
use thread_pool_exec.TaskQueue.{BlockingQueue}
use thread_pool_exec.Pool.Task.{Task, Func, make_task}
use thread_pool_exec.Pool.ThreadList.{ThreadList}
use thread_pool_exec.Pool.State.{Pool, Outcome, returned, threw, Stamp}
use thread_pool_exec.Pool.Resize.{ensure_joined, ensure_active_threads, set_num_threads}

-- `mayNeedToAddThreads`
unfoldable pub may_need_to_add_threads : {Queue : Type 0} → Pool Queue → Bool
may_need_to_add_threads p = p.min_threads == 0 || ltb p.active_threads p.max_threads

-- `ensureActiveThreads` whole, with no other section between its parts: the threads that
-- `ensureJoined` joins, and the pool.
unfoldable pub ensure_joined_and_active : {Queue : Type 0} → ℕ → Pool Queue → ℕ × Pool Queue
unfolding ensure_joined ensure_active_threads
ensure_joined_and_active now p =
    let (n, p') = ensure_joined p in
    if p.threads_to_join == 0
    then (0, ensure_active_threads now p)
    else (n, ensure_active_threads now p')

-- `ensureMaxActiveThreads`, likewise: the threads joined in all, and the pool; `none` when the fuel
-- is out.
unfoldable pub ensure_max_active_threads :
    {Queue : Type 0} → ℕ → ℕ → Pool Queue → Option (ℕ × Pool Queue)
unfolding ensure_joined_and_active
ensure_max_active_threads zero now p = none
ensure_max_active_threads (suc fuel) now p =
    let (n, p') = ensure_joined_and_active now p in
    let rest = ensure_max_active_threads fuel now p' in
    if ltb p.active_threads p.max_threads
    then elim rest [ none ↦ none | some (m, q) ↦ some (n + m, q) ]
    else some (0, p)

module _ (bq : BlockingQueue Task) where
  open bq use {Queue, add_with_priority}

  -- `addImpl`: `reused` is what the queue reports, that a waiting worker will take the task. Where
  -- the source calls `add` of the queue, the priority is MID_PRI. The queue observer and the
  -- KeepAlive token are left out, and so is the CHECK of `getNumPriorities`, which no queue of the
  -- executor's constructors fails.
  unfoldable pub add_impl : Func → ℤ → ℤ → Option Func → Bool → Stamp → Pool Queue → Outcome Queue ℕ
  unfolding make_task may_need_to_add_threads ensure_joined_and_active
  add_impl func priority expiration expire_callback reused at p =
      let task = make_task (some func) expiration expire_callback priority at.now at.context in
      let may_need = may_need_to_add_threads p in
      elim (add_with_priority p.task_queue task priority) [
        | none ↦ threw p
        | some q ↦
            let p' = record p { task_queue = q } in
            let (joins, p'') = ensure_joined_and_active at.now p' in
            if may_need && not reused then returned joins p'' else returned 0 p'
      ]

  -- The fields before the constructors' bodies.
  unfoldable pub blank : ℕ → ℕ → Queue → Pool Queue
  blank min_threads next_id q = record {
    max_threads = 0;
    min_threads = min_threads;
    active_threads = 0;
    threads_to_join = 0;
    threads_to_stop = 0;
    is_join = false;
    thread_list = record { vec = []; past_cpu_used = 0 };
    stopped_threads = [];
    observers = [];
    task_queue = q;
    next_id = next_id;
    events = [];
  }

  -- `CPUThreadPoolExecutor(numThreads, ...)` on a pair: its first is the maximum, its second the
  -- minimum.
  unfoldable pub construct : ℕ → ℕ → ℕ → Queue → Stamp → Outcome Queue ℕ
  unfolding set_num_threads blank
  construct first second next_id q at =
      elim (set_num_threads bq first at (blank second next_id q)) [
        | returned k p ↦ returned k (if second == 0 then record p { min_threads = 1 } else p)
        | threw p ↦ threw p
      ]

  -- The constructors that take one number; `dynamic` is the flag dynamic_cputhreadpoolexecutor.
  unfoldable pub construct_flagged : Bool → ℕ → ℕ → Queue → Stamp → Outcome Queue ℕ
  unfolding construct
  construct_flagged dynamic num_threads next_id q at =
      construct num_threads (if dynamic then 0 else num_threads) next_id q at
