-- ===== src/TaskQueue/LifoSem.antt =====
-- LifoSemMPMCQueue of ThreadPool/executors/task_queue/LifoSemMPMCQueue.h, with
-- QueueBehaviorIfFull::THROW, under any number of threads that add and take. Threads at one place are
-- alike, so they are counted.
pub mod Laws
use thread_pool_exec.Prelude.{ℕ, suc, ◌+◌, ◌≡◌, Bool, Option, none, some}
use thread_pool_exec.TaskQueue.Bounded.{BoundedQueue}
use thread_pool_exec.TaskQueue.Semaphore.{Semaphore}

-- Threads in `add`, at the call of `post`; and in `take` or `try_take_for`, at the first call of
-- `readIfNotEmpty`, at `wait`, and at a later call of `readIfNotEmpty`.
pub record Threads (Queue Sem : Type 0) : Type 0 where
  pub queue : Queue
  pub sem : Sem
  pub posting : ℕ
  pub reading : ℕ
  pub waiting : ℕ
  pub woken : ℕ

module _ {T : Type 0} (mpmc : BoundedQueue T) (lifo : Semaphore) where
  open mpmc use {Queue, write_if_not_full, read_if_not_empty, make}
  open lifo use {Sem, initial, post, try_wait}

  -- The constructor.
  unfoldable pub make_lifo_sem : ℕ → Threads Queue Sem
  make_lifo_sem max_capacity = record {
    queue = make max_capacity;
    sem = initial;
    posting = 0;
    reading = 0;
    waiting = 0;
    woken = 0;
  }

  -- A call of `add`, which throws and changes nothing where the queue is full; `take`, and
  -- `try_take_for`, whose wait may end without a permit.
  pub data Step (w : Threads Queue Sem) : Threads Queue Sem → Type 0 where
    add :
        (item : T) {q : Queue}
        → write_if_not_full w.queue item ≡ some q
        → Step w (record w { queue = q; posting = w.posting + 1 })
    add_posts :
        {n : ℕ} → w.posting ≡ suc n → Step w (record w { sem = (post w.sem).1; posting = n })
    take : Step w (record w { reading = w.reading + 1 })
    take_reads :
        {n : ℕ} {item : T} {q : Queue}
        → w.reading ≡ suc n
        → read_if_not_empty w.queue ≡ some (item, q)
        → Step w (record w { queue = q; reading = n })
    take_finds_none :
        {n : ℕ}
        → w.reading ≡ suc n
        → read_if_not_empty w.queue ≡ none
        → Step w (record w { reading = n; waiting = w.waiting + 1 })
    take_wakes :
        {n : ℕ} {s : Sem}
        → w.waiting ≡ suc n
        → try_wait w.sem ≡ some s
        → Step w (record w { sem = s; waiting = n; woken = w.woken + 1 })
    take_reads_again :
        {n : ℕ} {item : T} {q : Queue}
        → w.woken ≡ suc n
        → read_if_not_empty w.queue ≡ some (item, q)
        → Step w (record w { queue = q; woken = n })
    take_finds_none_again :
        {n : ℕ}
        → w.woken ≡ suc n
        → read_if_not_empty w.queue ≡ none
        → Step w (record w { woken = n; waiting = w.waiting + 1 })
    try_take_times_out :
        {n : ℕ} → w.waiting ≡ suc n → try_wait w.sem ≡ none → Step w (record w { waiting = n })

  pub data Reach (w : Threads Queue Sem) : Threads Queue Sem → Type 0 where
    here : Reach w w
    next : {u v : Threads Queue Sem} → Reach w u → Step u v → Reach w v
