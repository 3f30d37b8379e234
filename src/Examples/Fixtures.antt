-- ===== src/Examples/Fixtures.antt =====
-- Concrete parameters: a bounded queue kept as a list, a turn sequencer that counts, and a pool.
use thread_pool_exec.Prelude.{
  ltb_ℤ, ℕ, suc, ◌%◌, ◌^◌, ◌==◌, ◌≤◌, ◌≡◌, ◌↔◌, ltb, if◌then◌else◌, Bool, true, false, Option, none,
  some, List, [], ◌∷◌, ◌++◌, length, refl, arith,
}
use thread_pool_exec.Priority.{Clamp}
use thread_pool_exec.TaskQueue.{BlockingQueue}
use thread_pool_exec.TaskQueue.Bounded.{BoundedQueue}
use thread_pool_exec.TaskQueue.PriorityLifoSem.Interface.{priority_lifo_sem}
use thread_pool_exec.Mpmc.Slot.{TurnSequencer}
use thread_pool_exec.Pool.Task.{Task, Thread, Place, taking}
use thread_pool_exec.Pool.State.{Pool, Outcome, returned, threw, Stamp}
use thread_pool_exec.Pool.System.{System}

abbrev pub write_list : {T : Type 0} → ℕ × List T → T → Option (ℕ × List T)
write_list (cap, xs) x = if ltb (length xs) cap then some (cap, xs ++ x ∷ []) else none

abbrev pub read_list : {T : Type 0} → ℕ × List T → Option (T × (ℕ × List T))
read_list (cap, []) = none
read_list (cap, x ∷ xs) = some (x, (cap, xs))

pub write_list-items :
    {T : Type 0} (q : ℕ × List T) (x : T) {q' : ℕ × List T}
    → write_list q x ≡ some q'
    → q'.1 ≡ q.1 ++ x ∷ []
write_list-items (cap, xs) x e = ground arith

pub write_list-none :
    {T : Type 0} (q : ℕ × List T) (x : T) → write_list q x ≡ none → q.0 ≤ length (q.1)
write_list-none (cap, xs) x e = ground arith

pub read_list-items :
    {T : Type 0} (q : ℕ × List T) {x : T} {q' : ℕ × List T}
    → read_list q ≡ some (x, q')
    → q.1 ≡ x ∷ q'.1
read_list-items (cap, []) e = absurd (ground arith)
read_list-items (cap, x ∷ xs) e = ground arith

pub read_list-none : {T : Type 0} (q : ℕ × List T) → read_list q ≡ none → q.1 ≡ []
read_list-none (cap, []) e = refl
read_list-none (cap, x ∷ xs) e = absurd (ground arith)

abbrev pub bounded_list : (T : Type 0) → BoundedQueue T
bounded_list T = record {
  Queue = ℕ × List T;
  items = λ q. q.1;
  capacity = λ q. q.0;
  make = λ n. (n, []);
  write_if_not_full = write_list;
  read_if_not_empty = read_list;
  size = λ q. length (q.1);
  make-items = λ _. refl;
  size-items = λ _. refl;
  write-items = write_list-items;
  write_none = write_list-none;
  read-items = read_list-items;
  read_none = read_list-none;
}

-- The task queue of the examples.
abbrev pub bq : BlockingQueue Task
bq = priority_lifo_sem (bounded_list Task)

abbrev pub at : Stamp
at = record { now = 100; context = none }

abbrev pub worker : ℕ → Place → Thread
worker id place = record { id = id; idle = true; last_active_time = 0; place = place }

-- Two workers, both to be kept; one queue, for up to four tasks.
abbrev pub two : Pool bq.Queue
two = record {
  max_threads = 2;
  min_threads = 0;
  active_threads = 2;
  threads_to_join = 0;
  threads_to_stop = 0;
  is_join = false;
  thread_list = record { vec = worker 0 taking ∷ worker 1 taking ∷ []; past_cpu_used = 7 };
  stopped_threads = [];
  observers = 5 ∷ [];
  task_queue = (4, []) ∷ [];
  next_id = 2;
  events = [];
}

abbrev pub system : Pool bq.Queue → System bq.Queue
system p = record { pool = p; joins_due = 0 }

abbrev pub pool_of : {A : Type 0} → Outcome bq.Queue A → Pool bq.Queue
pool_of (returned _ p) = p
pool_of (threw p) = p

abbrev pub counted : ℕ → ℕ → Bool
counted s k = (s % 2 ^ 26) == (k % 2 ^ 26)

pub counted_iff : (s k : ℕ) → (counted s k ≡ true) ↔ (s % 2 ^ 26 ≡ k % 2 ^ 26)
counted_iff s k = ground arith

abbrev pub counter : TurnSequencer
counter = record {
  Sequencer = ℕ;
  initial = 0;
  is_turn = counted;
  complete_turn = λ s k. suc s;
  uncompleted_turn_lsb = λ s. s % 2 ^ 8;
  now = λ s. s;
  uncompleted_turn_lsb_lem = λ s. refl;
  now-initial = refl;
  is_turn_iff = counted_iff;
  now-complete_turn = λ s k e. refl;
}

abbrev pub folly : Clamp
folly = record {
  constexpr_clamp = λ v lo hi. if ltb_ℤ v lo then lo else if ltb_ℤ hi v then hi else v;
  constexpr_clamp_lem = λ v lo hi. refl;
}
