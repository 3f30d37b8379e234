-- ===== src/TaskQueue/LifoSem/Laws.antt =====
-- No task is left in the queue while all that take sleep.
use thread_pool_exec.Prelude.{
  ℕ, ◌+◌, ◌≤◌, ◌<◌, ◌≢◌, ◌⊎◌, inl, inr, none, List, [], ◌∷◌, length, length-append, arith, ap, refl,
  dec_lt,
}
use thread_pool_exec.TaskQueue.Bounded.{BoundedQueue}
use thread_pool_exec.TaskQueue.Semaphore.{Semaphore}
use thread_pool_exec.TaskQueue.LifoSem.{
  Threads, make_lifo_sem, Step, add, add_posts, take, take_reads, take_finds_none, take_wakes,
  take_reads_again, take_finds_none_again, try_take_times_out, Reach, here, next,
}

some_length : {T : Type 0} (xs : List T) → xs ≢ [] → 0 < length xs
some_length [] h = absurd (h refl)
some_length (x ∷ xs) h = omega arith

module _ {T : Type 0} (mpmc : BoundedQueue T) (lifo : Semaphore) where
  open mpmc use {Queue, items, read-items, read_none, write-items, make-items}
  open lifo use {Sem, value, value-initial, value-post, value-try_wait, try_wait_none}

  -- For each task there is a permit, or a thread that is about to post one or to look for a task.
  abbrev Inv : Threads Queue Sem → Type 0
  Inv w = length (items w.queue) ≤ value w.sem + w.posting + w.woken

  Step-Inv : {w w' : Threads Queue Sem} → Step mpmc lifo w w' → Inv w → Inv w'
  Step-Inv {w} (add item {q} e) v = omega (
    arith,
    ap (length {A = T}) (write-items w.queue item e),
    length-append (items w.queue) (item ∷ []),
  )
  Step-Inv {w} (add_posts e) v = omega (arith, value-post w.sem)
  Step-Inv take v = v
  Step-Inv {w} (take_reads e found) v =
      omega (arith, ap (length {A = T}) (read-items w.queue found))
  Step-Inv (take_finds_none e found) v = v
  Step-Inv {w} (take_wakes e permit) v = omega (arith, value-try_wait w.sem permit)
  Step-Inv {w} (take_reads_again e found) v =
      omega (arith, ap (length {A = T}) (read-items w.queue found))
  Step-Inv {w} (take_finds_none_again e found) v =
      omega (arith, ap (length {A = T}) (read_none w.queue found))
  Step-Inv (try_take_times_out e permit) v = v

  Reach-Inv :
      (max_capacity : ℕ) {w : Threads Queue Sem}
      → Reach mpmc lifo (make_lifo_sem mpmc lifo max_capacity) w
      → Inv w
  unfolding make_lifo_sem
  Reach-Inv max_capacity here = omega (arith, ap (length {A = T}) (make-items max_capacity))
  Reach-Inv max_capacity (next r st) = Step-Inv st (Reach-Inv max_capacity r)

  -- However adds and takes interleave, no task is lost to sleep: while there is one in the queue,
  -- some thread is about to post, or is awake and about to read, or the semaphore has a permit, so
  -- that a wait returns at once.
  pub task_wakes :
      (max_capacity : ℕ) {w : Threads Queue Sem}
      → Reach mpmc lifo (make_lifo_sem mpmc lifo max_capacity) w
      → items w.queue ≢ []
      → (0 < w.posting) ⊎ ((0 < w.woken) ⊎ (lifo.try_wait w.sem ≢ none))
  task_wakes max_capacity {w} r some_task =
      let v = Reach-Inv max_capacity r in
      let full = some_length (items w.queue) some_task in
      elim (dec_lt 0 w.posting) [
        | yes posts ↦ inl posts
        | no none_posts ↦ elim (dec_lt 0 w.woken) [
          | yes awake ↦ inr (inl awake)
          | no none_awake ↦ inr (inr (λ e. absurd (omega (arith, v, full, try_wait_none w.sem e))))
        ]
      ]
