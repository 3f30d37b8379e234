-- ===== src/Pool/Resize.antt =====
-- The calls that change the number of threads, in ThreadPool/executors/ThreadPoolExecutor.cpp:
-- each function is one section under `threadListLock_`. A number that is returned is the argument
-- of the `joinStoppedThreads` that follows the section.
use thread_pool_exec.Prelude.{
  ℕ, ◌+◌, ◌-◌, Bool, true, false, not, ◌||◌, List, [], ◌∷◌, ◌++◌, length, min, ltb, leb, ◌==◌,
  if◌then◌else◌,
}
use thread_pool_exec.TaskQueue.{BlockingQueue}
use thread_pool_exec.Pool.Task.{Task}
use thread_pool_exec.Pool.State.{
  Pool, Outcome, returned, threw, Stamp, thread_previously_started, thread_not_yet_stopped,
  add_threads, remove_threads, tell,
}

abbrev pub is_empty : List ℕ → Bool
is_empty [] = true
is_empty (_ ∷ _) = false

-- `minActive`
unfoldable pub min_active : {Queue : Type 0} → Pool Queue → Bool
min_active p = ltb p.min_threads p.active_threads

-- The section of `ensureJoined`.
unfoldable pub ensure_joined : {Queue : Type 0} → Pool Queue → ℕ × Pool Queue
ensure_joined p = (p.threads_to_join, record p { threads_to_join = 0 })

-- The section of `ensureActiveThreads`, with the test behind the lock.
unfoldable pub ensure_active_threads : {Queue : Type 0} → ℕ → Pool Queue → Pool Queue
unfolding add_threads
ensure_active_threads now p =
    if leb p.max_threads p.active_threads
    then p
    else record (add_threads 1 now p) { active_threads = p.active_threads + 1 }

-- `addObserver`, before its `ensureMaxActiveThreads`.
unfoldable pub add_observer : {Queue : Type 0} → ℕ → Pool Queue → Pool Queue
unfolding tell
add_observer o p = record p {
  observers = p.observers ++ o ∷ [];
  events = p.events ++ tell (thread_previously_started o) p.thread_list.vec;
}

unfoldable pub erase_first : ℕ → List ℕ → List ℕ
erase_first o [] = []
erase_first o (x ∷ xs) = if x == o then xs else x ∷ erase_first o xs

-- `removeObserver`; its DCHECK for an unknown observer does nothing in a release build.
unfoldable pub remove_observer : {Queue : Type 0} → ℕ → Pool Queue → Pool Queue
unfolding tell erase_first
remove_observer o p = record p {
  observers = erase_first o p.observers;
  events = p.events ++ tell (thread_not_yet_stopped o) p.thread_list.vec;
}

-- `numToAdd` of `setNumThreads`, from the new minimum.
unfoldable pub num_to_add : ℕ → ℕ → ℕ → Bool → ℕ → ℕ
num_to_add num_threads active pending observed minthreads =
    let wanted = if observed then num_threads - active else min pending (num_threads - active) in
    if ltb (active + wanted) minthreads then minthreads - active else wanted

-- `minthreads` of `setNumThreads`, and its stores to `maxThreads_` and `minThreads_`.
unfoldable pub new_min : {Queue : Type 0} → ℕ → Pool Queue → ℕ
new_min num_threads p = if ltb num_threads p.min_threads then num_threads else p.min_threads

unfoldable pub resized : {Queue : Type 0} → ℕ → Pool Queue → Pool Queue
unfolding new_min
resized num_threads p = record p { max_threads = num_threads; min_threads = new_min num_threads p }

module _ (bq : BlockingQueue Task) where
  open bq use {Queue, size}

  -- `numToAdd`, and the test of the branch that adds threads.
  unfoldable pub extra : ℕ → Pool Queue → ℕ
  unfolding num_to_add new_min
  extra num_threads p =
      num_to_add num_threads p.active_threads (size p.task_queue) (not (is_empty p.observers))
        (new_min num_threads p)

  unfoldable pub grows : ℕ → Pool Queue → Bool
  unfolding new_min
  grows num_threads p =
      ltb 0 (size p.task_queue)
      || (not (is_empty p.observers) || ltb p.active_threads (new_min num_threads p))

  -- The section of `setNumThreads`.
  unfoldable pub set_num_threads : ℕ → Stamp → Pool Queue → Outcome Queue ℕ
  unfolding remove_threads add_threads resized extra grows
  set_num_threads num_threads at p =
      let active = p.active_threads in
      let more = extra num_threads p in
      if ltb num_threads active
      then elim (remove_threads bq (active - num_threads) false at (resized num_threads p)) [
        | returned _ q ↦ returned (active - num_threads) (record q { active_threads = num_threads })
        | threw q ↦ threw q
      ]
      else if grows num_threads p
      then returned 0 (record (add_threads more at.now (resized num_threads p)) {
        active_threads = active + more;
      })
      else returned 0 (resized num_threads p)

  -- The section of `stop` and of `join`, which differ in `isJoin_` alone.
  unfoldable pub stop_or_join : Bool → Stamp → Pool Queue → Outcome Queue ℕ
  unfolding remove_threads
  stop_or_join is_join at p =
      let n = length p.thread_list.vec in
      elim (remove_threads bq n is_join at (record p { max_threads = 0; active_threads = 0 })) [
        | returned _ q ↦ returned (n + q.threads_to_join) (record q { threads_to_join = 0 })
        | threw q ↦ threw q
      ]

  -- `stop` and `join`
  unfoldable pub stop : Stamp → Pool Queue → Outcome Queue ℕ
  unfolding stop_or_join
  stop at p = stop_or_join false at p

  unfoldable pub join : Stamp → Pool Queue → Outcome Queue ℕ
  unfolding stop_or_join
  join at p = stop_or_join true at p

  -- `tryTimeoutThread`: the count of active threads is taken down before the queue is looked at.
  unfoldable pub try_timeout_thread : Pool Queue → Bool × Pool Queue
  unfolding min_active
  try_timeout_thread p =
      let lowered = record p { active_threads = p.active_threads - 1 } in
      if not (min_active p)
      then (false, p)
      else if ltb 0 (size lowered.task_queue)
      then (false, record lowered { active_threads = lowered.active_threads + 1 })
      else (true, record lowered { threads_to_join = lowered.threads_to_join + 1 })
