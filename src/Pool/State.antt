-- ===== src/Pool/State.antt =====
-- The fields of ThreadPoolExecutor and CPUThreadPoolExecutor that `threadListLock_` protects or
-- that the workers share. Counts are of live threads, so they are kept as plain numbers.
use thread_pool_exec.Prelude.{
  ℕ, suc, zero, ◌+◌, Bool, true, false, Option, none, some, List, [], ◌∷◌, ◌++◌, if◌then◌else◌, ℤ,
  negsuc,
}
use thread_pool_exec.TaskQueue.{BlockingQueue}
use thread_pool_exec.Pool.Task.{Task, Thread, taking, poison_task}
use thread_pool_exec.Pool.ThreadList.{ThreadList, add}

-- A call of an `Observer`: the observer, and the id of the thread it is told of.
pub data Event : Type 0 where
  thread_started thread_stopped thread_previously_started thread_not_yet_stopped : ℕ → ℕ → Event

pub record Pool (Queue : Type 0) : Type 0 where
  pub max_threads : ℕ
  pub min_threads : ℕ
  pub active_threads : ℕ
  pub threads_to_join : ℕ
  pub threads_to_stop : ℕ  -- `ssize_t`, never below 0
  pub is_join : Bool
  pub thread_list : ThreadList
  pub stopped_threads : List Thread
  pub observers : List ℕ
  pub task_queue : Queue
  pub next_id : ℕ  -- `Thread::nextId`
  pub events : List Event  -- oldest first

-- A call returns, or is left by an exception; the state is kept either way.
pub data Outcome (Queue A : Type 0) : Type 0 where
  returned : A → Pool Queue → Outcome Queue A
  threw : Pool Queue → Outcome Queue A

-- What a task records of its making: the clock, and the request context.
pub record Stamp : Type 0 where
  pub now : ℕ
  pub context : Option ℕ

-- `makeThread`, `n` times, from the id `first` on.
unfoldable pub make_threads : ℕ → ℕ → ℕ → List Thread
make_threads zero first now = []
make_threads (suc n) first now =
    record { id = first; idle = true; last_active_time = now; place = taking }
    ∷ make_threads n (suc first) now

unfoldable pub add_all : ThreadList → List Thread → ThreadList
add_all l [] = l
add_all l (t ∷ ts) = add_all (add l t) ts

unfoldable pub tell : (ℕ → Event) → List Thread → List Event
tell told [] = []
tell told (t ∷ ts) = told t.id ∷ tell told ts

-- `for (auto &o: observers_) for (auto &thread: newThreads) o->threadStarted(thread.get())`
unfoldable pub tell_started : List ℕ → List Thread → List Event
unfolding tell
tell_started [] ts = []
tell_started (o ∷ os) ts = tell (thread_started o) ts ++ tell_started os ts

unfoldable pub tell_stopped : List ℕ → Thread → List Event
tell_stopped [] t = []
tell_stopped (o ∷ os) t = thread_stopped o t.id ∷ tell_stopped os t

-- `addThreads`: the new threads are in the list and past their start before the observers hear.
unfoldable pub add_threads : {Queue : Type 0} → ℕ → ℕ → Pool Queue → Pool Queue
unfolding make_threads add_all tell_started
add_threads n now p =
    let new_threads = make_threads n p.next_id now in
    record p {
      thread_list = add_all p.thread_list new_threads;
      next_id = p.next_id + n;
      events = p.events ++ tell_started p.observers new_threads;
    }

abbrev pub lo_pri : ℤ
lo_pri = negsuc 127

module _ (bq : BlockingQueue Task) where
  open bq use {Queue, add_with_priority}

  -- The loop of `stopThreads`; the flag says that no `addWithPriority` threw.
  unfoldable pub add_poison : ℕ → Stamp → Queue → Queue × Bool
  add_poison zero at q = (q, true)
  add_poison (suc n) at q = elim (add_with_priority q (poison_task at.now at.context) lo_pri) [
    | none ↦ (q, false)
    | some q' ↦ add_poison n at q'
  ]

  -- `stopThreads` of CPUThreadPoolExecutor
  unfoldable pub stop_threads : ℕ → Stamp → Pool Queue → Outcome Queue (Unit {0})
  unfolding add_poison
  stop_threads n at p =
      let (q, done) = add_poison n at p.task_queue in
      let p' = record p { threads_to_stop = p.threads_to_stop + n; task_queue = q } in
      if done then returned tt p' else threw p'

  unfoldable pub remove_threads : ℕ → Bool → Stamp → Pool Queue → Outcome Queue (Unit {0})
  unfolding stop_threads
  remove_threads n is_join at p = stop_threads n at (record p { is_join = is_join })
