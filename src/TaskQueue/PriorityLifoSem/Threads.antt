-- ===== src/TaskQueue/PriorityLifoSem/Threads.antt =====
-- `add`, `addWithPriority`, `take` and `try_take_for` of PriorityLifoSemMPMCQueue
-- (ThreadPool/executors/task_queue/PriorityLifoSemMPMCQueue.h), with any number of threads, which
-- look at one queue at a time. Threads at one place are alike, so they are counted.
pub mod Sums
mod Moves
pub mod Laws
use thread_pool_exec.Prelude.{
  put, ℕ, zero, suc, ◌+◌, ◌≡◌, Option, none, some, List, length, get_elem?, set, ℤ,
}
use thread_pool_exec.TaskQueue.Bounded.{BoundedQueue}
use thread_pool_exec.TaskQueue.Semaphore.{Semaphore}
use thread_pool_exec.TaskQueue.PriorityLifoSem.{add_with_priority}

-- Threads in `addWithPriority`, at the call of `post`; in a first `nonBlockingTake` with `k` queues
-- yet to look at; at `wait`; and in a later `nonBlockingTake`, likewise.
pub record Threads (Queue Sem : Type 0) : Type 0 where
  pub queues : List Queue
  pub sem : Sem
  pub posting : ℕ
  pub looking : ℕ → ℕ
  pub waiting : ℕ
  pub woken : ℕ → ℕ

-- One thread leaves a place, or comes to it.
unfoldable pub less : (ℕ → ℕ) → ℕ → ℕ → ℕ → ℕ
unfolding put
less f k n = put f k n

unfoldable pub more : (ℕ → ℕ) → ℕ → ℕ → ℕ
unfolding put
more f k = put f k (f k + 1)

module _ {T : Type 0} (mpmc : BoundedQueue T) (lifo : Semaphore) where
  open mpmc use {Queue, read_if_not_empty}
  open lifo use {Sem, initial, post, try_wait}

  abbrev pub no_threads : List Queue → Threads Queue Sem
  no_threads queues = record {
    queues = queues;
    sem = initial;
    posting = 0;
    looking = λ _. 0;
    waiting = 0;
    woken = λ _. 0;
  }

  -- With THROW an `addWithPriority` that finds its queue full throws and changes nothing; with BLOCK
  -- it waits until `add` is possible. A wait in `try_take_for` may end without a permit.
  pub data Step (w : Threads Queue Sem) : Threads Queue Sem → Type 0 where
    add :
        (item : T) (priority : ℤ) {qs : List Queue}
        → add_with_priority mpmc w.queues item priority ≡ some qs
        → Step w (record w { queues = qs; posting = w.posting + 1 })
    add_posts :
        {n : ℕ} → w.posting ≡ suc n → Step w (record w { sem = (post w.sem).1; posting = n })
    take : Step w (record w { looking = more w.looking (length w.queues) })
    take_reads :
        (k : ℕ) {n : ℕ} {item : T} {q q' : Queue}
        → w.looking (suc k) ≡ suc n
        → get_elem? w.queues k ≡ some q
        → read_if_not_empty q ≡ some (item, q')
        → Step w (record w { queues = set w.queues k q'; looking = less w.looking (suc k) n })
    take_passes :
        (k : ℕ) {n : ℕ} {q : Queue}
        → w.looking (suc k) ≡ suc n
        → get_elem? w.queues k ≡ some q
        → read_if_not_empty q ≡ none
        → Step w (record w { looking = more (less w.looking (suc k) n) k })
    take_finds_none :
        {n : ℕ}
        → w.looking 0 ≡ suc n
        → Step w (record w { looking = less w.looking 0 n; waiting = w.waiting + 1 })
    take_wakes :
        {n : ℕ} {s : Sem}
        → w.waiting ≡ suc n
        → try_wait w.sem ≡ some s
        → Step w (record w { sem = s; waiting = n; woken = more w.woken (length w.queues) })
    take_reads_again :
        (k : ℕ) {n : ℕ} {item : T} {q q' : Queue}
        → w.woken (suc k) ≡ suc n
        → get_elem? w.queues k ≡ some q
        → read_if_not_empty q ≡ some (item, q')
        → Step w (record w { queues = set w.queues k q'; woken = less w.woken (suc k) n })
    take_passes_again :
        (k : ℕ) {n : ℕ} {q : Queue}
        → w.woken (suc k) ≡ suc n
        → get_elem? w.queues k ≡ some q
        → read_if_not_empty q ≡ none
        → Step w (record w { woken = more (less w.woken (suc k) n) k })
    take_finds_none_again :
        {n : ℕ}
        → w.woken 0 ≡ suc n
        → Step w (record w { woken = less w.woken 0 n; waiting = w.waiting + 1 })
    try_take_times_out :
        {n : ℕ} → w.waiting ≡ suc n → try_wait w.sem ≡ none → Step w (record w { waiting = n })

  pub data Reach (w : Threads Queue Sem) : Threads Queue Sem → Type 0 where
    here : Reach w w
    next : {u v : Threads Queue Sem} → Reach w u → Step u v → Reach w v
