-- ===== src/TaskQueue/Unbounded/Laws.antt =====
-- A thread that has got a permit finds a task.
use thread_pool_exec.Prelude.{
  ℕ, ◌+◌, ◌<◌, ◌≡◌, ◌≢◌, ◌⊎◌, inl, inr, none, length, arith, ap, ℤ, ◌∙◌, ℕ_discrete,
}
use thread_pool_exec.Priority.{Clamp, translate_priority}
use thread_pool_exec.Priority.Order.{IsInt8, queue_index-translate_priority}
use thread_pool_exec.TaskQueue.Semaphore.{Semaphore}
use thread_pool_exec.TaskQueue.Unbounded.{
  QueueSet, Threads, make_unbounded, enqueue_with_priority, dequeue, Step, add, add_posts, take,
  take_wakes, take_gives_up, take_dequeues, Reach, here, next,
}

module _ {T : Type 0} (folly : Clamp) (set : QueueSet T) (lifo : Semaphore) where
  open set use {Queue, items, priorities}
  open lifo use {Sem, value}

  -- The tasks are as many as the permits, those about to be posted, and those just taken; the
  -- priorities are those of the constructor.
  pub record Inv (num_priorities : ℕ) (w : Threads Queue Sem) : Type 0 where
    pub counted : length (items w.queue) ≡ value w.sem + w.posting + w.taking
    pub prioritised : priorities w.queue ≡ num_priorities

  Step-Inv : (n : ℕ) {w w' : Threads Queue Sem} → Step folly set lifo w w' → Inv n w → Inv n w'
  unfolding enqueue_with_priority dequeue
  Step-Inv n {w} (add item priority ok e) v = record {
    counted = omega (arith, v.counted, set.length-enqueue_at w.queue _ item e);
    prioritised = set.priorities-enqueue_at w.queue _ item e ∙ v.prioritised;
  }
  Step-Inv n {w} (add_posts e) v = record {
    counted = omega (arith, v.counted, lifo.value-post w.sem);
    prioritised = v.prioritised;
  }
  Step-Inv n take v = record { counted = v.counted; prioritised = v.prioritised }
  Step-Inv n {w} (take_wakes e permit) v = record {
    counted = omega (arith, v.counted, lifo.value-try_wait w.sem permit);
    prioritised = v.prioritised;
  }
  Step-Inv n (take_gives_up e permit) v = record {
    counted = v.counted;
    prioritised = v.prioritised;
  }
  Step-Inv n {w} (take_dequeues e found) v = record {
    counted = omega (arith, v.counted, set.length-try_dequeue w.queue found);
    prioritised = set.priorities-try_dequeue w.queue found ∙ v.prioritised;
  }

  Reach-Inv :
      (n : ℕ) {w : Threads Queue Sem}
      → Reach folly set lifo (make_unbounded folly set lifo n) w
      → Inv n w
  unfolding make_unbounded
  Reach-Inv n here = record {
    counted = omega (arith, lifo.value-initial, ap (length {A = T}) (set.make-items n));
    prioritised = set.priorities-make n;
  }
  Reach-Inv n (next r st) = Step-Inv n st (Reach-Inv n r)

  -- Of a queue made for 1 to 255 priorities, however adds and takes interleave: a thread whose wait
  -- has returned finds a task, so the "bug in task queue" is not met; a task of any `int8_t`
  -- priority can be added; and the tasks are as many as the permits of the semaphore, the adds that
  -- have yet to post and the takes that have yet to dequeue.
  pub take_finds :
      (n : ℕ) (item : T) (priority : ℤ) {w : Threads Queue Sem}
      → 0 < n
      → n < 256
      → IsInt8 priority
      → Reach folly set lifo (make_unbounded folly set lifo n) w
      → ((w.taking ≡ 0) ⊎ (dequeue folly set lifo w.queue ≢ none))
        × (enqueue_with_priority folly set lifo w.queue item priority ≢ none)
        × (length (items w.queue) ≡ value w.sem + w.posting + w.taking)
  unfolding enqueue_with_priority dequeue
  take_finds n item priority {w} pos fits ok r =
      let v = Reach-Inv n r in
      (
        elim (ℕ_discrete w.taking 0) [
          | yes nobody ↦ inl nobody
          | no somebody ↦ inr (λ e.
              absurd
                (omega (arith, v.counted, ap (length {A = T}) (set.try_dequeue_none w.queue e))))
        ],
        λ e.
            let inside : translate_priority folly (priorities w.queue) priority
                < priorities w.queue =
              rw (v.prioritised)
                (omega (arith, queue_index-translate_priority folly n priority pos fits ok)) in
            let (q, added) =
              set.enqueue_total w.queue (translate_priority folly (priorities w.queue) priority)
                item inside in
            cc (added, e),
        v.counted,
      )
