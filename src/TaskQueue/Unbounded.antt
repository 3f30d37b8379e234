-- ===== src/TaskQueue/Unbounded.antt =====
-- PriorityUnboundedBlockingQueue of
-- ThreadPool/executors/task_queue/PriorityUnboundedBlockingQueue.h under any number of threads that
-- add and take; UnboundedBlockingQueue does the same over one queue. Threads at one place are alike,
-- so they are counted.
pub mod Laws
use thread_pool_exec.Prelude.{ℕ, suc, ◌+◌, ◌<◌, ◌≡◌, Bool, Option, none, some, List, [], length, ℤ}
use thread_pool_exec.Priority.{Clamp, translate_priority}
use thread_pool_exec.Priority.Order.{IsInt8}
use thread_pool_exec.TaskQueue.Semaphore.{Semaphore}

-- `folly::PriorityUMPMCQueueSet`: `none` of `enqueue_at` is a priority that the set does not have,
-- and `none` of `try_dequeue` an empty set.
pub record QueueSet (T : Type 0) : Type 1 where
  pub Queue : Type 0
  pub make : ℕ → Queue
  pub items : Queue → List T
  pub priorities : Queue → ℕ
  pub enqueue_at : Queue → ℕ → T → Option Queue
  pub try_dequeue : Queue → Option (T × Queue)
  pub make-items : (n : ℕ) → items (make n) ≡ []
  pub priorities-make : (n : ℕ) → priorities (make n) ≡ n
  pub enqueue_total :
      (q : Queue) (i : ℕ) (x : T) → i < priorities q → (q' : Queue) × (enqueue_at q i x ≡ some q')
  pub length-enqueue_at :
      (q : Queue) (i : ℕ) (x : T) {q' : Queue}
      → enqueue_at q i x ≡ some q'
      → length (items q') ≡ suc (length (items q))
  pub priorities-enqueue_at :
      (q : Queue) (i : ℕ) (x : T) {q' : Queue}
      → enqueue_at q i x ≡ some q'
      → priorities q' ≡ priorities q
  pub length-try_dequeue :
      (q : Queue) {x : T} {q' : Queue}
      → try_dequeue q ≡ some (x, q')
      → length (items q) ≡ suc (length (items q'))
  pub priorities-try_dequeue :
      (q : Queue) {x : T} {q' : Queue} → try_dequeue q ≡ some (x, q') → priorities q' ≡ priorities q
  pub try_dequeue_none : (q : Queue) → try_dequeue q ≡ none → items q ≡ []

-- Threads at the call of `post`, at `wait`, and at `dequeue`.
pub record Threads (Queue Sem : Type 0) : Type 0 where
  pub queue : Queue
  pub sem : Sem
  pub posting : ℕ
  pub waiting : ℕ
  pub taking : ℕ

module _ {T : Type 0} (folly : Clamp) (set : QueueSet T) (lifo : Semaphore) where
  open set use {Queue, make, priorities, enqueue_at, try_dequeue}
  open lifo use {Sem, initial, post, try_wait}

  -- The constructor.
  unfoldable pub make_unbounded : ℕ → Threads Queue Sem
  make_unbounded num_priorities = record {
    queue = make num_priorities;
    sem = initial;
    posting = 0;
    waiting = 0;
    taking = 0;
  }

  -- `addWithPriority`, up to the call of `post`.
  unfoldable pub enqueue_with_priority : Queue → T → ℤ → Option Queue
  enqueue_with_priority q item priority =
      enqueue_at q (translate_priority folly (priorities q) priority) item

  -- `dequeue`; `none` is `terminate_with`.
  unfoldable pub dequeue : Queue → Option (T × Queue)
  dequeue q = try_dequeue q

  -- A call of `addWithPriority`; `take`, `try_take` and `try_take_for`, of which the last two may end
  -- without a permit.
  pub data Step (w : Threads Queue Sem) : Threads Queue Sem → Type 0 where
    add :
        (item : T) (priority : ℤ) {q : Queue}
        → IsInt8 priority
        → enqueue_with_priority w.queue item priority ≡ some q
        → Step w (record w { queue = q; posting = w.posting + 1 })
    add_posts :
        {n : ℕ} → w.posting ≡ suc n → Step w (record w { sem = (post w.sem).1; posting = n })
    take : Step w (record w { waiting = w.waiting + 1 })
    take_wakes :
        {n : ℕ} {s : Sem}
        → w.waiting ≡ suc n
        → try_wait w.sem ≡ some s
        → Step w (record w { sem = s; waiting = n; taking = w.taking + 1 })
    take_gives_up :
        {n : ℕ} → w.waiting ≡ suc n → try_wait w.sem ≡ none → Step w (record w { waiting = n })
    take_dequeues :
        {n : ℕ} {item : T} {q : Queue}
        → w.taking ≡ suc n
        → dequeue w.queue ≡ some (item, q)
        → Step w (record w { queue = q; taking = n })

  pub data Reach (w : Threads Queue Sem) : Threads Queue Sem → Type 0 where
    here : Reach w w
    next : {u v : Threads Queue Sem} → Reach w u → Step u v → Reach w v
