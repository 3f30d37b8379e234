-- ===== src/Examples/Pools.antt =====
-- A pool of two workers is resized, joined and asked for its numbers.
use thread_pool_exec.Prelude.{
  ◌+◌, ◌<◌, ◌≡◌, refl, inl, arith, true, false, none, some, [], ◌∷◌, pos, length,
}
use thread_pool_exec.Pool.Task.Laws.{Ends, run_task-make_task}
use thread_pool_exec.Pool.Task.{make_task, poison_task, taking}
use thread_pool_exec.Pool.ThreadList.Laws.{total}
use thread_pool_exec.Pool.Resize.{
  set_num_threads, stop_or_join, extra, grows, num_to_add, new_min, resized, ensure_joined,
  ensure_active_threads,
}
use thread_pool_exec.Pool.State.{
  Pool, add_poison, stop_threads, remove_threads, add_threads, make_threads, add_all, tell,
  tell_started,
}
use thread_pool_exec.Pool.Worker.{decide, retire}
use thread_pool_exec.Pool.System.{System, due, resize, Reach, here, next}
use thread_pool_exec.Pool.System.Invariant.{Inv, Step-Inv, is_poison, holds_poison}
use thread_pool_exec.Pool.System.Shutdown.{stop_or_join_overcommits}
use thread_pool_exec.Pool.System.Progress.{sections_total}
use thread_pool_exec.Pool.System.Serving.{waiting_join}
use thread_pool_exec.Pool.Limits.{Limits, set_num_threads-Limits}
use thread_pool_exec.Pool.Submit.{add_impl, may_need_to_add_threads, ensure_joined_and_active}
use thread_pool_exec.Pool.Submit.Laws.{Submitted, add_impl-Submitted}
use thread_pool_exec.Pool.Stats.{get_pool_stats}
use thread_pool_exec.Pool.Stats.Laws.{get_pool_stats-wraps}
use thread_pool_exec.Priority.{queue_index, to_size}
use thread_pool_exec.TaskQueue.{weigh}
use thread_pool_exec.TaskQueue.PriorityLifoSem.{add_with_priority, num_priorities, total_size}
use thread_pool_exec.TaskQueue.PriorityLifoSem.Laws.{all_items}
use thread_pool_exec.Examples.Fixtures.{bq, at, two, worker, system, pool_of}

two-Inv : Inv bq (system two)
two-Inv = record {
  listed = refl;
  owed = refl;
  capped = omega arith;
  rising = (omega arith, (omega arith, tt));
  fresh = (omega arith, (omega arith, tt));
  poisoned = omega arith;
}

Step-Inv_example : Inv bq (due 0 1 (pool_of (set_num_threads bq 1 at two)))
unfolding set_num_threads remove_threads stop_threads add_poison resized new_min add_with_priority
    num_priorities queue_index to_size
Step-Inv_example = Step-Inv bq {s = system two} (resize 1 at refl) tt two-Inv

-- The pool after `setNumThreads(1)`, of which one thread is still to stop and to be joined.
abbrev shrinking : System bq.Queue
shrinking = record {
  pool = record two {
    max_threads = 1;
    active_threads = 1;
    threads_to_stop = 1;
    task_queue = (4, poison_task 100 none ∷ []) ∷ [];
  };
  joins_due = 1;
}

shrinks : due 0 1 (pool_of (set_num_threads bq 1 at two)) ≡ shrinking
unfolding set_num_threads remove_threads stop_threads add_poison resized new_min add_with_priority
    num_priorities queue_index to_size
shrinks = refl

shrinking-Inv : Inv bq shrinking
unfolding weigh poison_task all_items total make_task
shrinking-Inv = record {
  listed = refl;
  owed = refl;
  capped = omega arith;
  rising = (omega arith, (omega arith, tt));
  fresh = (omega arith, (omega arith, tt));
  poisoned = omega arith;
}

-- What `setNumThreads` leaves is reached in one step.
shrinks_from : Reach bq (system two) (due 0 1 (pool_of (set_num_threads bq 1 at two)))
unfolding set_num_threads remove_threads stop_threads add_poison resized new_min add_with_priority
    num_priorities queue_index to_size
shrinks_from = next here (resize 1 at refl) tt

waiting_join_example :
    (0 < 1)
    × (0
        < weigh is_poison (bq.items shrinking.pool.task_queue)
          + total holds_poison shrinking.pool.thread_list.vec)
    × (u : System bq.Queue) × Reach bq shrinking u
    × (0 < length u.pool.stopped_threads)
    × (u.joins_due ≡ 1)
unfolding set_num_threads remove_threads stop_threads add_poison resized new_min add_with_priority
    num_priorities queue_index to_size
waiting_join_example = waiting_join bq {s' = shrinking} two-Inv shrinks_from (omega arith) refl

sections_total_example :
    ((p : Pool bq.Queue) × (decide bq (worker 0 taking) none 3 two ≡ some p))
    × ((p : Pool bq.Queue) × (retire (worker 0 taking) 3 two ≡ some p))
sections_total_example = sections_total bq (system two) (worker 0 taking) none 3 two-Inv (inl refl)

stop_or_join_overcommits_example : 2 < 1 + 2
unfolding stop_or_join remove_threads stop_threads add_poison add_with_priority num_priorities
    queue_index to_size
stop_or_join_overcommits_example =
    stop_or_join_overcommits bq true at {s = shrinking} {k = 2} shrinking-Inv (omega arith) refl

set_num_threads-Limits_example : Limits bq 3 0 two (pool_of (set_num_threads bq 3 at two))
unfolding set_num_threads extra grows num_to_add resized new_min add_threads make_threads add_all
    tell_started tell total_size
set_num_threads-Limits_example = set_num_threads-Limits bq 3 at two refl

add_impl-Submitted_example :
    Submitted bq
      (make_task (some 8) (pos 0) none (pos 1) 100 none)
      (pos 1)
      false
      two
      (pool_of (add_impl bq 8 (pos 1) (pos 0) none false at two))
unfolding add_impl may_need_to_add_threads ensure_joined_and_active ensure_joined
    ensure_active_threads add_with_priority num_priorities queue_index to_size make_task
add_impl-Submitted_example = add_impl-Submitted bq 8 (pos 1) (pos 0) none false at two refl

-- After `stop`, while the workers are still in the list.
abbrev stopping : Pool bq.Queue
stopping = record two { max_threads = 0; active_threads = 0; threads_to_stop = 2 }

get_pool_stats-wraps_example :
    (get_pool_stats bq 100 stopping).active_thread_count + 2 ≡ 18446744073709551616
unfolding total
get_pool_stats-wraps_example = get_pool_stats-wraps bq 100 stopping (omega arith) (omega arith)

run_task-make_task_example :
    Ends (worker 0 taking) 8 (pos 5) (some 9) (pos 0) 100 none 6000000 6000100 6000200 (11 ∷ [])
run_task-make_task_example =
    run_task-make_task (worker 0 taking) 8 (pos 5) (some 9) (pos 0) 100 none 6000000 6000100 6000200
      (11 ∷ []) (omega arith)
