-- ===== src/TaskQueue.antt =====
-- ThreadPool/executors/task_queue: what an executor asks of a `BlockingQueue`.
pub mod Bounded
pub mod PriorityLifoSem
pub mod Semaphore
pub mod LifoSem
pub mod Unbounded
use thread_pool_exec.Prelude.{ℕ, ◌+◌, ◌≡◌, Bool, Option, none, some, List, [], ◌∷◌, length, ℤ}

-- The sum of a weight over the items of a queue: what a queue keeps, whatever its order.
unfoldable pub weigh {ℓ} : {T : Type ℓ} → (T → ℕ) → List T → ℕ
weigh w [] = 0
weigh w (x ∷ xs) = w x + weigh w xs

-- `BlockingQueue<T>` with its semaphore left out: `try_take` is `try_take_for` where an item is at
-- hand, and its `none` is the empty queue; `none` of `add_with_priority` is QueueFullException.
pub record BlockingQueue (T : Type 0) : Type 1 where
  pub Queue : Type 0
  pub items : Queue → List T
  pub add_with_priority : Queue → T → ℤ → Option Queue
  pub try_take : Queue → Option (T × Queue)
  pub size : Queue → ℕ
  pub size-items : (q : Queue) → size q ≡ length (items q)
  pub weigh-add :
      (w : T → ℕ) (q : Queue) (x : T) (priority : ℤ) {q' : Queue}
      → add_with_priority q x priority ≡ some q'
      → weigh w (items q') ≡ w x + weigh w (items q)
  pub weigh-take :
      (w : T → ℕ) (q : Queue) {x : T} {q' : Queue}
      → try_take q ≡ some (x, q')
      → weigh w (items q) ≡ w x + weigh w (items q')
  pub take_none : (q : Queue) → try_take q ≡ none → items q ≡ []
