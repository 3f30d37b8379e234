-- ===== src/Pool/System/Progress.antt =====
-- Workers get on: their sections never meet a failed CHECK, and stop them while a thread is to stop.
use thread_pool_exec.Prelude.{
  ℕ, suc, ◌-◌, ◌<◌, ◌≡◌, inl, inr, [], ◌∷◌, ◌++◌, length, arith, Bool-cases, Option, some,
}
use thread_pool_exec.TaskQueue.{BlockingQueue}
use thread_pool_exec.Pool.Task.{Task, Thread, taking}
use thread_pool_exec.Pool.ThreadList.Laws.{IsRising, Has, In, remove-Removed}
use thread_pool_exec.Pool.ThreadList.{ThreadList}
use thread_pool_exec.Pool.State.{Pool, tell_stopped}
use thread_pool_exec.Pool.Resize.{try_timeout_thread, min_active}
use thread_pool_exec.Pool.Worker.{
  put_thread, retire, decide, leave, try_decr_to_stop, task_should_stop,
}
use thread_pool_exec.Pool.System.Defs.{System}
use thread_pool_exec.Pool.System.Invariant.{Inv}

leave_total :
    {Queue : Type 0} (t : Thread) (cpu : ℕ) (p : Pool Queue)
    → IsRising 0 p.thread_list.vec
    → In t p.thread_list.vec
    → (q : Pool Queue) × (leave t cpu p ≡ some q)
unfolding leave
leave_total t cpu p r h =
    let (l, removed) = remove-Removed 0 p.thread_list t cpu r h in
    (
      record p { thread_list = l; stopped_threads = p.stopped_threads ++ t ∷ [] },
      ground (arith, removed.done),
    )

module _ (bq : BlockingQueue Task) where
  open bq use {Queue, items, size}

  try_decr_to_stop-thread_list :
      (p : Pool Queue) → (try_decr_to_stop p).1.thread_list ≡ p.thread_list
  unfolding try_decr_to_stop
  try_decr_to_stop-thread_list p = ground arith

  task_should_stop-thread_list :
      (task : Option Task) (p : Pool Queue)
      → (task_should_stop bq task p).1.thread_list ≡ p.thread_list
  unfolding task_should_stop try_decr_to_stop try_timeout_thread min_active
  task_should_stop-thread_list task p = ground arith

  -- The pool after `t` has gone from its list, of which `l` is left, to the stopped threads.
  abbrev pub stopped : Thread → ThreadList → Pool Queue → Pool Queue
  stopped t l p = record p {
    threads_to_stop = p.threads_to_stop - 1;
    thread_list = l;
    stopped_threads = p.stopped_threads ++ t ∷ [];
  }

  -- The section of a worker that took nothing or poison, and the section after a task, always
  -- end: the CHECKs of `ThreadList::remove` find the worker, once.
  pub sections_total :
      (s : System Queue) (t : Thread) (task : Option Task) (cpu : ℕ)
      → Inv bq s
      → In t s.pool.thread_list.vec
      → ((p : Pool Queue) × (decide bq t task cpu s.pool ≡ some p))
        × ((p : Pool Queue) × (retire t cpu s.pool ≡ some p))
  unfolding decide retire
  sections_total s t task cpu v h = (
    elim (Bool-cases (task_should_stop bq task s.pool).0) [
      | inl stops ↦
          let same = task_should_stop-thread_list task s.pool in
          let (q, done) =
            leave_total t cpu
              (record ((task_should_stop bq task s.pool).1) {
                events =
                    (task_should_stop bq task s.pool).1.events
                    ++ tell_stopped (task_should_stop bq task s.pool).1.observers t;
              })
              (rw same v.rising) (rw same h) in
          (q, rw stops done)
      | inr goes_on ↦
          (put_thread (record t { place = taking }) (task_should_stop bq task s.pool).1, rw goes_on)
    ],
    elim (Bool-cases (try_decr_to_stop s.pool).0) [
      | inl stops ↦
          let same = try_decr_to_stop-thread_list s.pool in
          let (q, done) =
            leave_total t cpu (try_decr_to_stop s.pool).1 (rw same v.rising) (rw same h) in
          (q, rw stops done)
      | inr goes_on ↦
          (put_thread (record t { place = taking }) (try_decr_to_stop s.pool).1, rw goes_on)
    ],
  )

  -- While some thread is to stop, a worker that took nothing or poison stops, and so does a worker
  -- that has seen the need after a task: one fewer is to stop, and the worker goes from the list to
  -- the end of the stopped threads. In the first case every observer is told, in the second none.
  pub stopping_sections :
      (s : System Queue) (t : Thread) (task : Option Task) (cpu : ℕ)
      → Inv bq s
      → In t s.pool.thread_list.vec
      → 0 < s.pool.threads_to_stop
      → (l : ThreadList) × (decide bq t task cpu s.pool
          ≡ some (
              stopped t l
                (record (s.pool) { events = s.pool.events ++ tell_stopped s.pool.observers t })))
        × (retire t cpu s.pool ≡ some (stopped t l s.pool))
        × (suc (length l.vec) ≡ length s.pool.thread_list.vec)
        × ¬ Has t.id l.vec
  unfolding decide retire task_should_stop try_decr_to_stop leave
  stopping_sections s t task cpu v h some_left =
      let (l, removed) = remove-Removed 0 s.pool.thread_list t cpu v.rising h in
      (l, ground (arith, removed.done), ground (arith, removed.done), removed.fewer, removed.gone)
