-- ===== src/TaskQueue/PriorityLifoSem/Threads/Laws.antt =====
-- No task is left in the queues while all that take sleep, although a take looks at one queue at a
-- time and may miss a task that comes after its look.
use thread_pool_exec.Prelude.{
  ℕ, ◌+◌, ◌≤◌, ◌≡◌, ◌∙◌, sym, refl, arith, ap, List, length, length-set, inl, inr,
}
use thread_pool_exec.TaskQueue.Bounded.{BoundedQueue}
use thread_pool_exec.TaskQueue.Semaphore.{Semaphore}
use thread_pool_exec.TaskQueue.PriorityLifoSem.{total_size}
use thread_pool_exec.TaskQueue.PriorityLifoSem.Threads.{
  Threads, no_threads, Step, add, add_posts, take, take_reads, take_passes, take_finds_none,
  take_wakes, take_reads_again, take_passes_again, take_finds_none_again, try_take_times_out, Reach,
  here, next,
}
use thread_pool_exec.TaskQueue.PriorityLifoSem.Threads.Sums.{
  up_to, items_below, items_below-set, items_below-all, up_to-none,
}
use thread_pool_exec.TaskQueue.PriorityLifoSem.Threads.Moves.{
  get_elem?-lt, below_after, Inv, add_with_priority-Added, add-Inv, reads-Inv, passes-Inv,
  wakes-Inv, ends-Inv,
}

module _ {T : Type 0} (mpmc : BoundedQueue T) (lifo : Semaphore) where
  open mpmc use {
    Queue, items, write_if_not_full, read_if_not_empty, read-items, read_none, write-items,
  }
  open lifo use {Sem, try_wait, value, value-initial, value-post, value-try_wait}

  Step-Inv :
      {n : ℕ} {w w' : Threads Queue Sem}
      → Step mpmc lifo w w'
      → Inv mpmc lifo n w
      → Inv mpmc lifo n w'
  Step-Inv {n} {w} (add item priority e) v =
      add-Inv mpmc lifo n w v (add_with_priority-Added mpmc lifo w.queues item priority e)
  Step-Inv {n} {w} (add_posts {n = m} e) v = record {
    sized = v.sized;
    spare = v.spare;
    counted = omega (arith, v.counted, value-post w.sem);
    covered = v.covered;
  }
  Step-Inv take v = record {
    sized = v.sized;
    spare = v.spare;
    counted = v.counted;
    covered = v.covered;
  }
  Step-Inv {n} {w} (take_reads k {n = m} {item} {q} {q'} there at found) v =
      let inside = get_elem?-lt w.queues k at in
      let shorter = ap (length {A = T}) (read-items q found) in
      record {
        sized = length-set w.queues k q' ∙ v.sized;
        spare = v.spare + 1;
        counted =
            omega
              (arith, v.counted, items_below-set mpmc n k w.queues q' (omega (arith, v.sized)) at);
        covered = λ j within. elim (below_after mpmc lifo j k w.queues q' 0 1 at (omega arith)) [
          | inl (above, same) ↦ omega (arith, v.covered j within)
          | inr (below, one) ↦ omega (arith, v.covered j within)
        ];
      }
  Step-Inv (take_passes k there at none_found) v = record {
    sized = v.sized;
    spare = v.spare;
    counted = v.counted;
    covered = v.covered;
  }
  Step-Inv (take_finds_none there) v = record {
    sized = v.sized;
    spare = v.spare;
    counted = v.counted;
    covered = v.covered;
  }
  Step-Inv {n} {w} (take_wakes {n = m} e permit) v = wakes-Inv mpmc lifo n m w v permit
  Step-Inv {n} {w} (take_reads_again k {n = m} {item} {q} {q'} there at found) v =
      reads-Inv mpmc lifo n k m w v there at (read-items q found)
  Step-Inv {n} {w} (take_passes_again k {n = m} {q} there at none_found) v =
      passes-Inv mpmc lifo n k m w v there at (read_none q none_found)
  Step-Inv {n} {w} (take_finds_none_again {n = m} there) v = ends-Inv mpmc lifo n m w v there
  Step-Inv (try_take_times_out e no_permit) v = record {
    sized = v.sized;
    spare = v.spare;
    counted = v.counted;
    covered = v.covered;
  }

  Reach-Inv :
      (qs : List Queue) {w : Threads Queue Sem}
      → total_size mpmc qs ≡ 0
      → Reach mpmc lifo (no_threads mpmc lifo qs) w
      → Inv mpmc lifo (length qs) w
  Reach-Inv qs empty here = record {
    sized = refl;
    spare = 0;
    counted = omega (arith, value-initial, empty, items_below-all mpmc qs, up_to-none (length qs));
    covered = λ k within. omega (arith, up_to-none k);
  }
  Reach-Inv qs empty (next r st) = Step-Inv st (Reach-Inv qs empty r)

  -- However adds and takes interleave on queues that were empty, and whatever tasks a take misses,
  -- there are at any moment no more tasks in the queues than the semaphore has permits and threads are
  -- about to post or awake and looking: no task is lost to sleep.
  pub tasks_covered :
      (qs : List Queue) {w : Threads Queue Sem}
      → total_size mpmc qs ≡ 0
      → Reach mpmc lifo (no_threads mpmc lifo qs) w
      → total_size mpmc w.queues ≤ value w.sem + w.posting + up_to (length qs) w.woken
  tasks_covered qs {w} empty r =
      let v = Reach-Inv qs empty r in
      let all : items_below mpmc (length qs) w.queues ≡ total_size mpmc w.queues =
        ap (λ (n : ℕ). items_below mpmc n w.queues) (sym v.sized) ∙ items_below-all mpmc w.queues in
      omega (arith, v.counted, all)
