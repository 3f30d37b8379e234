-- ===== src/Pool/System/Invariant/Working.antt =====
-- The steps of a worker that goes on keep the invariant.
use thread_pool_exec.Prelude.{ℕ, ◌+◌, ◌≤◌, ◌≡◌, ◌⊎◌, inl, refl, none, some, List, arith}
use thread_pool_exec.TaskQueue.{BlockingQueue, weigh}
use thread_pool_exec.Pool.Task.{Task, Thread, taking, took, running, ran}
use thread_pool_exec.Pool.ThreadList.Laws.{In}
use thread_pool_exec.Pool.Worker.{put_thread, after_take, after_task, after_check}
use thread_pool_exec.Pool.System.Defs.{System}
use thread_pool_exec.Pool.System.Invariant.Defs.{is_poison, holds_poison, Inv}
use thread_pool_exec.Pool.System.Invariant.Effects.{update_thread-Updated}

module _ (bq : BlockingQueue Task) where
  open bq use {Queue, items, size, try_take, weigh-take}

  pub put_thread-Inv :
      (s : System Queue) (t t' : Thread) (q : Queue)
      → Inv bq s
      → In t s.pool.thread_list.vec
      → t'.id ≡ t.id
      → ((weigh is_poison (items s.pool.task_queue) + holds_poison t
            ≤ weigh is_poison (items q) + holds_poison t')
          ⊎ ((s.pool.threads_to_stop ≡ 0)))
      → Inv bq (record s { pool = put_thread t' (record (s.pool) { task_queue = q }) })
  unfolding put_thread
  put_thread-Inv s t t' q v h same kept =
      let updated = update_thread-Updated t t' same s.pool.thread_list.vec v.rising h in
      record {
        listed = omega (arith, updated.same_length, v.listed);
        owed = v.owed;
        capped = v.capped;
        rising = updated.rising 0 v.rising;
        fresh = updated.fresh s.pool.next_id v.fresh;
        poisoned = omega (arith, updated.weighed holds_poison, v.poisoned);
      }

  pub take-Inv :
      (s : System Queue) (t : Thread) {x : Task} {q : Queue}
      → Inv bq s
      → In t s.pool.thread_list.vec
      → t.place ≡ taking
      → try_take s.pool.task_queue ≡ some (x, q)
      → Inv bq
          (record s { pool = put_thread (after_take t x) (record (s.pool) { task_queue = q }) })
  unfolding after_take
  take-Inv s t {x} {q} v h e taken =
      put_thread-Inv s t (after_take t x) q v h (ground arith)
        (inl (ground (arith, weigh-take is_poison s.pool.task_queue taken)))

  pub time_out-Inv :
      (s : System Queue) (t : Thread)
      → Inv bq s
      → In t s.pool.thread_list.vec
      → t.place ≡ taking
      → Inv bq (record s { pool = put_thread (record t { place = took none }) s.pool })
  time_out-Inv s t v h e =
      put_thread-Inv s t (record t { place = took none }) s.pool.task_queue v h refl
        (inl (ground arith))

  pub finish-Inv :
      (s : System Queue) (t : Thread) {x : Task} (start_time end_time active_time : ℕ)
      (callbacks : List ℕ)
      → Inv bq s
      → In t s.pool.thread_list.vec
      → t.place ≡ running x
      → Inv bq (record s {
        pool = put_thread (after_task t x start_time end_time active_time callbacks) s.pool;
      })
  unfolding after_task
  finish-Inv s t {x} start_time end_time active_time callbacks v h e =
      put_thread-Inv s t (after_task t x start_time end_time active_time callbacks)
        s.pool.task_queue v h refl (inl (ground arith))

  pub check-Inv :
      (s : System Queue) (t : Thread)
      → Inv bq s
      → In t s.pool.thread_list.vec
      → t.place ≡ ran
      → Inv bq (record s { pool = put_thread (after_check t s.pool) s.pool })
  unfolding after_check
  check-Inv s t v h e =
      put_thread-Inv s t (after_check t s.pool) s.pool.task_queue v h (ground arith)
        (inl (ground arith))
