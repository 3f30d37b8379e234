-- ===== src/Examples/Takers.antt =====
-- A task queue from which a thread takes before another adds.
use thread_pool_exec.Prelude.{
  ℕ, zero, suc, ◌+◌, ◌<◌, ◌≡◌, ◌≢◌, ◌⊎◌, false, Option, none, some, List, [], ◌∷◌, length, refl,
  arith, pos, negsuc, ◌≤◌, ltb, if◌then◌else◌,
}
use thread_pool_exec.Priority.{translate_priority, highest, lowest, to_int8, to_size}
use thread_pool_exec.Priority.Order.{IsInt8}
use thread_pool_exec.TaskQueue.Semaphore.{Semaphore}
use thread_pool_exec.TaskQueue.LifoSem
use thread_pool_exec.TaskQueue.LifoSem.{make_lifo_sem}
use thread_pool_exec.TaskQueue.LifoSem.Laws.{task_wakes}
use thread_pool_exec.TaskQueue.Unbounded
use thread_pool_exec.TaskQueue.Unbounded.{QueueSet, make_unbounded, enqueue_with_priority, dequeue}
use thread_pool_exec.TaskQueue.Unbounded.Laws.{take_finds}
use thread_pool_exec.Priority.{queue_index}
use thread_pool_exec.TaskQueue.PriorityLifoSem.{add_with_priority, num_priorities, total_size}
use thread_pool_exec.TaskQueue.PriorityLifoSem.Threads as Scanning
use thread_pool_exec.TaskQueue.PriorityLifoSem.Threads.Sums.{up_to}
use thread_pool_exec.TaskQueue.PriorityLifoSem.Threads.Laws.{tasks_covered}
use thread_pool_exec.Examples.Fixtures.{bounded_list, folly}

abbrev wait_once : ℕ → Option ℕ
wait_once zero = none
wait_once (suc n) = some n

wait_once-some : (s : ℕ) {s' : ℕ} → wait_once s ≡ some s' → s ≡ suc s'
wait_once-some zero e = absurd (cc)
wait_once-some (suc n) e = cc

wait_once-none : (s : ℕ) → wait_once s ≡ none → s ≡ 0
wait_once-none zero e = refl
wait_once-none (suc n) e = absurd (cc)

abbrev permits : Semaphore
permits = record {
  Sem = ℕ;
  initial = 0;
  value = λ s. s;
  post = λ s. (false, suc s);
  try_wait = wait_once;
  value-initial = refl;
  value-post = λ s. refl;
  value-try_wait = λ s {s'} e. wait_once-some s e;
  try_wait_none = wait_once-none;
}

-- One list, whatever the priority.
abbrev enqueue_list : ℕ × List ℕ → ℕ → ℕ → Option (ℕ × List ℕ)
enqueue_list (n, xs) i x = if ltb i n then some (n, x ∷ xs) else none

abbrev dequeue_list : ℕ × List ℕ → Option (ℕ × (ℕ × List ℕ))
dequeue_list (n, []) = none
dequeue_list (n, x ∷ xs) = some (x, (n, xs))

enqueue_list_total :
    (q : ℕ × List ℕ) (i x : ℕ) → i < q.0 → (q' : ℕ × List ℕ) × (enqueue_list q i x ≡ some q')
enqueue_list_total (n, xs) i x h = ((n, x ∷ xs), ground arith)

length-enqueue_list :
    (q : ℕ × List ℕ) (i x : ℕ) {q' : ℕ × List ℕ}
    → enqueue_list q i x ≡ some q'
    → length (q'.1) ≡ suc (length (q.1))
length-enqueue_list (n, xs) i x e = ground arith

enqueue_list_same :
    (q : ℕ × List ℕ) (i x : ℕ) {q' : ℕ × List ℕ} → enqueue_list q i x ≡ some q' → q'.0 ≡ q.0
enqueue_list_same (n, xs) i x e = ground arith

length-dequeue_list :
    (q : ℕ × List ℕ) {x : ℕ} {q' : ℕ × List ℕ}
    → dequeue_list q ≡ some (x, q')
    → length (q.1) ≡ suc (length (q'.1))
length-dequeue_list (n, []) e = absurd (ground arith)
length-dequeue_list (n, x ∷ xs) e = ground arith

dequeue_list_same :
    (q : ℕ × List ℕ) {x : ℕ} {q' : ℕ × List ℕ} → dequeue_list q ≡ some (x, q') → q'.0 ≡ q.0
dequeue_list_same (n, []) e = absurd (ground arith)
dequeue_list_same (n, x ∷ xs) e = ground arith

dequeue_list-none : (q : ℕ × List ℕ) → dequeue_list q ≡ none → q.1 ≡ []
dequeue_list-none (n, []) e = refl
dequeue_list-none (n, x ∷ xs) e = absurd (ground arith)

abbrev lists : QueueSet ℕ
lists = record {
  Queue = ℕ × List ℕ;
  make = λ n. (n, []);
  items = λ q. q.1;
  priorities = λ q. q.0;
  enqueue_at = enqueue_list;
  try_dequeue = dequeue_list;
  make-items = λ n. refl;
  priorities-make = λ n. refl;
  enqueue_total = enqueue_list_total;
  length-enqueue_at = length-enqueue_list;
  priorities-enqueue_at = enqueue_list_same;
  length-try_dequeue = length-dequeue_list;
  priorities-try_dequeue = dequeue_list_same;
  try_dequeue_none = dequeue_list-none;
}

-- A thread finds nothing and waits; a task comes; its permit is posted.
waits :
    LifoSem.Reach {T = ℕ}
      (bounded_list ℕ)
      permits
      (make_lifo_sem {T = ℕ} (bounded_list ℕ) permits 2)
      (record { queue = (2, 7 ∷ []); sem = 1; posting = 0; reading = 0; waiting = 1; woken = 0 })
unfolding make_lifo_sem
waits =
    LifoSem.next
      (LifoSem.next
        (LifoSem.next (LifoSem.next LifoSem.here LifoSem.take) (LifoSem.take_finds_none refl refl))
        (LifoSem.add 7 refl))
      (LifoSem.add_posts refl)

task_wakes_example : (◌<◌ 0 0) ⊎ ((◌<◌ 0 0) ⊎ (wait_once 1 ≢ none))
task_wakes_example = task_wakes (bounded_list ℕ) permits 2 waits (λ e. ground arith)

zero_priority : IsInt8 (pos 0)
zero_priority = record { above = omega arith; below = omega arith }

-- A thread waits, a task comes, and the thread has got its permit.
finds :
    Unbounded.Reach folly lists permits
      (make_unbounded folly lists permits 3)
      (record { queue = (3, 7 ∷ []); sem = 0; posting = 0; waiting = 0; taking = 1 })
unfolding make_unbounded enqueue_with_priority translate_priority highest lowest to_int8 to_size
finds =
    Unbounded.next
      (Unbounded.next
        (Unbounded.next (Unbounded.next Unbounded.here Unbounded.take)
          (Unbounded.add 7 (pos 0) zero_priority refl))
        (Unbounded.add_posts refl))
      (Unbounded.take_wakes refl refl)

take_finds_example :
    ((◌≡◌ {A = ℕ} 1 0) ⊎ (dequeue folly lists permits (3, 7 ∷ []) ≢ none))
    × (enqueue_with_priority folly lists permits (3, 7 ∷ []) 8 (pos 0) ≢ none)
    × (◌≡◌ {A = ℕ} 1 (0 + 0 + 1))
take_finds_example =
    take_finds folly lists permits 3 8 (pos 0) (omega arith) (omega arith) zero_priority finds

-- Two empty queues for two tasks each; a thread waits, and a task comes to the lower queue.
abbrev two_queues : List (ℕ × List ℕ)
two_queues = (2, []) ∷ (2, []) ∷ []

abbrev one_task : Scanning.Threads (ℕ × List ℕ) ℕ
one_task = record {
  queues = (2, 7 ∷ []) ∷ (2, []) ∷ [];
  sem = 0;
  posting = 1;
  looking = λ _. 0;
  waiting = 0;
  woken = λ _. 0;
}

comes :
    Scanning.Reach
      (bounded_list ℕ)
      permits
      (Scanning.no_threads (bounded_list ℕ) permits two_queues)
      one_task
unfolding add_with_priority num_priorities queue_index to_size
comes = Scanning.next Scanning.here (Scanning.add 7 (negsuc 0) refl)

tasks_covered_example : total_size (bounded_list ℕ) one_task.queues ≤ 0 + 1 + up_to 2 one_task.woken
unfolding total_size
tasks_covered_example = tasks_covered (bounded_list ℕ) permits two_queues refl comes
