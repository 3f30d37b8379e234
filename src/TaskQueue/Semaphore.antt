-- ===== src/TaskQueue/Semaphore.antt =====
-- `folly::LifoSem`, the semaphore of the task queues: `post` adds a permit and says whether it wakes a
-- waiter, and `try_wait`, which a waiter does until it succeeds, takes one if there is one.
use thread_pool_exec.Prelude.{ℕ, suc, ◌≡◌, Bool, Option, none, some}

pub record Semaphore : Type 1 where
  pub Sem : Type 0
  pub initial : Sem
  pub value : Sem → ℕ
  pub post : Sem → Bool × Sem
  pub try_wait : Sem → Option Sem
  pub value-initial : value initial ≡ 0
  pub value-post : (s : Sem) → value (post s).1 ≡ suc (value s)
  pub value-try_wait : (s : Sem) {s' : Sem} → try_wait s ≡ some s' → value s ≡ suc (value s')
  pub try_wait_none : (s : Sem) → try_wait s ≡ none → value s ≡ 0
