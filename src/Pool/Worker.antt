-- ===== src/Pool/Worker.antt =====
-- `threadRun` of ThreadPool/executors/CPUThreadPoolExecutor.cpp, a section at a time. A worker is a
-- thread of the list; its place in the loop is a field of it.
use thread_pool_exec.Prelude.{
  ℕ, ◌-◌, Bool, true, false, not, ◌&&◌, Option, none, some, List, [], ◌∷◌, ◌++◌, ltb, ◌==◌,
  if◌then◌else◌,
}
use thread_pool_exec.TaskQueue.{BlockingQueue}
use thread_pool_exec.Pool.Task.{
  Task, Thread, taking, took, running, ran, retiring, start_task, run_task,
}
use thread_pool_exec.Pool.ThreadList.{remove}
use thread_pool_exec.Pool.State.{Pool, tell_stopped}
use thread_pool_exec.Pool.Resize.{try_timeout_thread}

-- A store through the shared pointer to a thread.
unfoldable pub update_thread : Thread → List Thread → List Thread
update_thread t [] = []
update_thread t (x ∷ xs) = if x.id == t.id then t ∷ xs else x ∷ update_thread t xs

unfoldable pub put_thread : {Queue : Type 0} → Thread → Pool Queue → Pool Queue
unfolding update_thread
put_thread t p = record p {
  thread_list = record (p.thread_list) { vec = update_thread t p.thread_list.vec };
}

-- `tryDecrToStop`
unfoldable pub try_decr_to_stop : {Queue : Type 0} → Pool Queue → Bool × Pool Queue
try_decr_to_stop p =
    if not (ltb 0 p.threads_to_stop)
    then (false, p)
    else (true, record p { threads_to_stop = p.threads_to_stop - 1 })

-- `threadList_.remove(thread); stoppedThreads_.add(thread);` (`none` is a failed CHECK)
unfoldable pub leave : {Queue : Type 0} → Thread → ℕ → Pool Queue → Option (Pool Queue)
leave thread cpu p = elim (remove p.thread_list thread cpu) [
  | none ↦ none
  | some l ↦ some (record p { thread_list = l; stopped_threads = p.stopped_threads ++ thread ∷ [] })
]

-- The item that `try_take_for` has returned.
unfoldable pub after_take : Thread → Task → Thread
unfolding start_task
after_take thread task =
    if task.poison
    then record thread { place = took (some task) }
    else record (start_task thread) { place = running task }

-- The end of `runTask`.
unfoldable pub after_task : Thread → Task → ℕ → ℕ → ℕ → List ℕ → Thread
unfolding run_task
after_task thread task start_time end_time active_time callbacks =
    record ((run_task thread task start_time end_time active_time callbacks).0) { place = ran }

-- The test of `threadsToStop_` and `isJoin_` after a task.
unfoldable pub after_check : {Queue : Type 0} → Thread → Pool Queue → Thread
after_check thread p =
    if ltb 0 p.threads_to_stop && not p.is_join
    then record thread { place = retiring }
    else record thread { place = taking }

-- The section that follows it.
unfoldable pub retire : {Queue : Type 0} → Thread → ℕ → Pool Queue → Option (Pool Queue)
unfolding try_decr_to_stop leave put_thread
retire thread cpu p =
    let (decreased, p') = try_decr_to_stop p in
    if decreased
    then leave thread cpu p'
    else some (put_thread (record thread { place = taking }) p')

module _ (bq : BlockingQueue Task) where
  open bq use {Queue}

  -- `taskShouldStop`
  unfoldable pub task_should_stop : Option Task → Pool Queue → Bool × Pool Queue
  unfolding try_decr_to_stop try_timeout_thread
  task_should_stop task p =
      let (decreased, p') = try_decr_to_stop p in
      if decreased
      then (true, p')
      else elim task [ some _ ↦ (false, p') | none ↦ try_timeout_thread bq p' ]

  -- The section of a worker that took nothing, or poison.
  unfoldable pub decide : Thread → Option Task → ℕ → Pool Queue → Option (Pool Queue)
  unfolding task_should_stop leave put_thread tell_stopped
  decide thread task cpu p =
      let (stop, p') = task_should_stop task p in
      if stop
      then leave thread cpu (record p' { events = p'.events ++ tell_stopped p'.observers thread })
      else some (put_thread (record thread { place = taking }) p')
