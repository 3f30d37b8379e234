-- ===== src/Pool/System/Serving.antt =====
-- A join that waits in `joinStoppedThreads` can be served, whatever the workers are at.
mod Places
use thread_pool_exec.Prelude.{
  ℕ, zero, suc, ◌+◌, ◌≤◌, ◌<◌, ◌≡◌, ◌⊎◌, inl, inr, List, [], ◌∷◌, ◌++◌, length, arith, Option, some,
  none, Option-cases, ap, refl,
}
use thread_pool_exec.TaskQueue.{BlockingQueue, weigh}
use thread_pool_exec.Pool.Task.{
  Task, Thread, Place, taking, took, running, ran, retiring, start_task, run_task,
}
use thread_pool_exec.Pool.ThreadList.Laws.{In, total}
use thread_pool_exec.Pool.State.{Pool}
use thread_pool_exec.Pool.Worker.{put_thread, update_thread, after_take, after_task, after_check}
use thread_pool_exec.Pool.System.Defs.{
  System, Step, IsOrderly, take, time_out, finish, check, withdraw, decide_stop, Reach, here, next,
}
use thread_pool_exec.Pool.System.Invariant.{Inv, Step-Inv, Reach-Inv, is_poison, holds_poison}
use thread_pool_exec.Pool.System.Progress.{stopping_sections}
use Places.{
  Served, Serves, before, head_put, ends_first, listed_first, Serves-ran, Serves-running,
  serves_empty, fewer_items, after_take_place,
}

module _ (bq : BlockingQueue Task) where
  open bq use {Queue, items, try_take, weigh-take, take_none}

  -- It takes a task: it stops where that is poison, and else runs it and goes on.
  Serves-task :
      (n : ℕ)
      → Serves bq n taking
      → (s : System Queue) (t : Thread) (ts : List Thread) {x : Task} {q : Queue} → Inv bq s
      → 0 < s.pool.threads_to_stop
      → s.pool.thread_list.vec ≡ t ∷ ts
      → t.place ≡ taking
      → try_take s.pool.task_queue ≡ some (x, q)
      → length (items q) ≤ n
      → Served bq s
  unfolding start_task put_thread
  Serves-task n onward s t ts {x} {q} v some_left at place taken few =
      let t' = after_take t x in
      let emptier : Pool Queue = record (s.pool) { task_queue = q } in
      let st : Step bq s (record s { pool = put_thread t' emptier }) =
        take t (listed_first bq t ts s.pool.thread_list.vec at) place taken in
      let v' = Step-Inv bq st tt v in
      elim (after_take_place bq t x) [
        | inl poison ↦
            let (u, r, more, same) =
              ends_first bq (record s { pool = put_thread t' emptier }) t' ts (some x) v' some_left
                (head_put bq t t' ts emptier at (ap (λ (y : Thread). y.id) poison))
                (inl (ap (λ (y : Thread). y.place) poison)) in
            (u, before bq st tt r, more, same)
        | inr runs ↦
            let (u, r, more, same) =
              Serves-running bq n x onward (record s { pool = put_thread t' emptier }) t' ts v'
                some_left (head_put bq t t' ts emptier at (ap (λ (y : Thread). y.id) runs))
                (ap (λ (y : Thread). y.place) runs) few in
            (u, before bq st tt r, more, same)
      ]

  Serves-taking : (n : ℕ) → Serves bq n taking
  Serves-taking zero s t ts v some_left at place few =
      elim (Option-cases (try_take s.pool.task_queue)) [
        | inl empty ↦ serves_empty bq s t ts v some_left at place
        | inr ((x, q), taken) ↦ absurd (omega (arith, fewer_items bq s.pool.task_queue taken))
      ]
  Serves-taking (suc n) s t ts v some_left at place few =
      elim (Option-cases (try_take s.pool.task_queue)) [
        | inl empty ↦ serves_empty bq s t ts v some_left at place
        | inr ((x, q), taken) ↦
            Serves-task n (Serves-taking n) s t ts v some_left at place taken
              (omega (arith, fewer_items bq s.pool.task_queue taken))
      ]

  Serves-place : (n : ℕ) (place : Place) → Serves bq n taking → Serves bq n place
  Serves-place n taking onward s t ts v some_left at place few =
      onward s t ts v some_left at place few
  Serves-place n (took task) onward s t ts v some_left at place few =
      ends_first bq s t ts task v some_left at (inl place)
  Serves-place n (running x) onward s t ts v some_left at place few =
      Serves-running bq n x onward s t ts v some_left at place few
  Serves-place n ran onward s t ts v some_left at place few =
      Serves-ran bq n onward s t ts v some_left at place few
  Serves-place n retiring onward s t ts v some_left at place few =
      ends_first bq s t ts none v some_left at (inr place)

  serves_first :
      (s : System Queue) (ts : List Thread)
      → Inv bq s
      → 0 < s.pool.threads_to_stop
      → s.pool.thread_list.vec ≡ ts
      → 0 < length ts
      → Served bq s
  serves_first s [] v some_left at nonempty = absurd (omega arith)
  serves_first s (t ∷ ts) v some_left at nonempty =
      let n = length (items s.pool.task_queue) in
      Serves-place n t.place (Serves-taking n) s t ts v some_left at refl (omega arith)

  -- Start from any system that satisfies the invariant and take any steps, without a `stop` or
  -- `join` that begins while a thread is still to stop and without a section that ends in an
  -- exception. If a caller of `joinStoppedThreads` then waits and no thread has stopped, some thread
  -- is to stop, there is poison for it in the queue or with a worker, and further such steps lead to
  -- a stopped thread that the caller can join, with as many joins due as before bq.
  pub waiting_join :
      {s s' : System Queue}
      → Inv bq s
      → Reach bq s s'
      → 0 < s'.joins_due
      → s'.pool.stopped_threads ≡ []
      → (0 < s'.pool.threads_to_stop)
        × (0
            < weigh is_poison (items s'.pool.task_queue)
              + total holds_poison s'.pool.thread_list.vec)
        × (u : System Queue) × Reach bq s' u
        × (0 < length u.pool.stopped_threads)
        × (u.joins_due ≡ s'.joins_due)
  waiting_join {s} {s'} start r waits none_stopped =
      let v = Reach-Inv bq r start in
      let some_left : 0 < s'.pool.threads_to_stop =
        omega (arith, v.owed, waits, ap length none_stopped) in
      let (u, path, more, same) =
        serves_first s' s'.pool.thread_list.vec v some_left refl
          (omega (arith, v.listed, some_left)) in
      (some_left, omega (arith, v.poisoned, some_left), u, path, more, same)
