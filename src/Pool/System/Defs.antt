-- ===== src/Pool/System/Defs.antt =====
-- The steps of an executor: each section under `threadListLock_`, each queue operation and each
-- stop of a worker between them is one step.
use thread_pool_exec.Prelude.{ℕ, suc, ◌+◌, ◌≡◌, Bool, false, Option, none, some, List, ◌∷◌, ℤ}
use thread_pool_exec.TaskQueue.{BlockingQueue}
use thread_pool_exec.Pool.Task.{Task, Thread, taking, took, running, ran, retiring}
use thread_pool_exec.Pool.ThreadList.Laws.{In}
use thread_pool_exec.Pool.State.{Pool, returned, threw, Stamp}
use thread_pool_exec.Pool.Resize.{
  ensure_joined, ensure_active_threads, add_observer, remove_observer, set_num_threads,
  stop_or_join,
}
use thread_pool_exec.Pool.Worker.{put_thread, after_take, after_task, after_check, retire, decide}

-- `joins_due` counts the threads that callers of `joinStoppedThreads` have yet to take.
pub record System (Queue : Type 0) : Type 0 where
  pub pool : Pool Queue
  pub joins_due : ℕ

abbrev pub due : {Queue : Type 0} → ℕ → ℕ → Pool Queue → System Queue
due owed more p = record { pool = p; joins_due = owed + more }

module _ (bq : BlockingQueue Task) where
  open bq use {Queue, add_with_priority, try_take}

  pub data Step (s : System Queue) : System Queue → Type 0 where
    resize :
        (n : ℕ) (at : Stamp) {k : ℕ} {p : Pool Queue}
        → set_num_threads bq n at s.pool ≡ returned k p
        → Step s (due s.joins_due k p)
    -- `stop` and `join`
    close :
        (is_join : Bool) (at : Stamp) {k : ℕ} {p : Pool Queue}
        → stop_or_join bq is_join at s.pool ≡ returned k p
        → Step s (due s.joins_due k p)
    -- Either may be left by the exception of a full queue, with nothing for its caller to join.
    resize_throws :
        (n : ℕ) (at : Stamp) {p : Pool Queue}
        → set_num_threads bq n at s.pool ≡ threw p
        → Step s (record s { pool = p })
    close_throws :
        (is_join : Bool) (at : Stamp) {p : Pool Queue}
        → stop_or_join bq is_join at s.pool ≡ threw p
        → Step s (record s { pool = p })
    -- a round of `joinStoppedThreads`
    join_one :
        {t : Thread} {ts : List Thread} {n : ℕ}
        → s.pool.stopped_threads ≡ t ∷ ts
        → s.joins_due ≡ suc n
        → Step s (record { pool = record (s.pool) { stopped_threads = ts }; joins_due = n })
    reap : Step s (due s.joins_due (ensure_joined s.pool).0 (ensure_joined s.pool).1)
    activate : (now : ℕ) → Step s (record s { pool = ensure_active_threads now s.pool })
    submit :
        (x : Task) (priority : ℤ) {q : Queue}
        → x.poison ≡ false
        → add_with_priority s.pool.task_queue x priority ≡ some q
        → Step s (record s { pool = record (s.pool) { task_queue = q } })
    observe : (o : ℕ) → Step s (record s { pool = add_observer o s.pool })
    forget : (o : ℕ) → Step s (record s { pool = remove_observer o s.pool })
    -- another pool draws ids from `Thread::nextId`
    elsewhere :
        (n : ℕ) → Step s (record s { pool = record (s.pool) { next_id = s.pool.next_id + n } })
    take :
        (t : Thread) {x : Task} {q : Queue}
        → In t s.pool.thread_list.vec
        → t.place ≡ taking
        → try_take s.pool.task_queue ≡ some (x, q)
        → Step s
            (record s { pool = put_thread (after_take t x) (record (s.pool) { task_queue = q }) })
    time_out :
        (t : Thread)
        → In t s.pool.thread_list.vec
        → t.place ≡ taking
        → Step s (record s { pool = put_thread (record t { place = took none }) s.pool })
    finish :
        (t : Thread) {x : Task} (start_time end_time active_time : ℕ) (callbacks : List ℕ)
        → In t s.pool.thread_list.vec
        → t.place ≡ running x
        → Step s (record s {
          pool = put_thread (after_task t x start_time end_time active_time callbacks) s.pool;
        })
    check :
        (t : Thread)
        → In t s.pool.thread_list.vec
        → t.place ≡ ran
        → Step s (record s { pool = put_thread (after_check t s.pool) s.pool })
    withdraw :
        (t : Thread) (cpu : ℕ) {p : Pool Queue}
        → In t s.pool.thread_list.vec
        → t.place ≡ retiring
        → retire t cpu s.pool ≡ some p
        → Step s (record s { pool = p })
    decide_stop :
        (t : Thread) {task : Option Task} (cpu : ℕ) {p : Pool Queue}
        → In t s.pool.thread_list.vec
        → t.place ≡ took task
        → decide bq t task cpu s.pool ≡ some p
        → Step s (record s { pool = p })

  -- No `stop` or `join` begins while a thread is still to stop, and no section is left by an
  -- exception. The code asks for neither.
  abbrev pub IsOrderly : {s u : System Queue} → Step s u → Type 0
  IsOrderly {s} (close _ _ _) = s.pool.threads_to_stop ≡ 0
  IsOrderly (resize_throws _ _ _) = ⊥
  IsOrderly (close_throws _ _ _) = ⊥
  IsOrderly _ = Unit

  pub data Reach (s : System Queue) : System Queue → Type 0 where
    here : Reach s s
    next : {t u : System Queue} → Reach s t → (st : Step t u) → IsOrderly st → Reach s u
