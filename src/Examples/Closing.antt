-- ===== src/Examples/Closing.antt =====
-- A pool of one worker is made, stopped and joined, to the last step.
use thread_pool_exec.Prelude.{ℕ, ◌≡◌, refl, inl, arith, true, none, some, [], ◌∷◌}
use thread_pool_exec.Pool.Task.{make_task, poison_task, taking, took, start_task}
use thread_pool_exec.Pool.ThreadList.{remove, lower_bound, upper_bound, erase_at}
use thread_pool_exec.Pool.Resize.{
  set_num_threads, stop_or_join, extra, grows, num_to_add, new_min, resized,
}
use thread_pool_exec.Pool.State.{
  Pool, add_poison, stop_threads, remove_threads, tell_stopped, thread_stopped,
}
use thread_pool_exec.Pool.Worker.{
  after_take, put_thread, update_thread, decide, leave, task_should_stop, try_decr_to_stop,
}
use thread_pool_exec.Pool.System.{due, take, decide_stop, join_one}
use thread_pool_exec.Pool.System.Invariant.{Inv}
use thread_pool_exec.Pool.System.Shutdown.{Drain, begin, drain, joins, stop_or_join-Drain}
use thread_pool_exec.Pool.Submit.{construct, blank}
use thread_pool_exec.Pool.Submit.Laws.{construct-Inv}
use thread_pool_exec.Priority.{queue_index, to_size}
use thread_pool_exec.TaskQueue.PriorityLifoSem.{
  add_with_priority, num_priorities, total_size, non_blocking_take,
}
use thread_pool_exec.Examples.Fixtures.{bq, at, two, worker, system, pool_of}

construct-Inv_example :
    Inv bq (due 0 0 (pool_of (construct bq 3 0 8 ((4, []) ∷ []) at)))
    × ((pool_of (construct bq 3 0 8 ((4, []) ∷ []) at)).max_threads ≡ 3)
    × ((pool_of (construct bq 3 0 8 ((4, []) ∷ []) at)).min_threads ≡ 1)
    × (◌≡◌ {A = ℕ} 0 0)
unfolding construct blank set_num_threads extra grows num_to_add resized new_min total_size
construct-Inv_example = construct-Inv bq 3 0 8 ((4, []) ∷ []) at {k = 0} refl

abbrev one : Pool bq.Queue
one = record two {
  max_threads = 1;
  active_threads = 1;
  thread_list = record { vec = worker 0 taking ∷ []; past_cpu_used = 7 };
}

one-Inv : Inv bq (system one)
one-Inv = record {
  listed = refl;
  owed = refl;
  capped = omega arith;
  rising = (omega arith, tt);
  fresh = (omega arith, tt);
  poisoned = omega arith;
}

abbrev closed : Pool bq.Queue
closed = pool_of (stop_or_join bq true at one)

-- The worker has taken poison.
abbrev poisoned : Pool bq.Queue
poisoned = record closed {
  thread_list = record {
    vec = worker 0 (took (some (poison_task 100 none))) ∷ [];
    past_cpu_used = 7;
  };
  task_queue = (4, []) ∷ [];
}

abbrev left : Pool bq.Queue
left = record closed {
  threads_to_stop = 0;
  thread_list = record { vec = []; past_cpu_used = 10 };
  stopped_threads = worker 0 (took (some (poison_task 100 none))) ∷ [];
  task_queue = (4, []) ∷ [];
  events = thread_stopped 5 0 ∷ [];
}

abbrev joined : Pool bq.Queue
joined = record left { stopped_threads = [] }

goes_down : Drain bq (due 0 1 closed) (record { pool = joined; joins_due = 0 })
unfolding stop_or_join remove_threads stop_threads add_poison add_with_priority num_priorities
    queue_index to_size non_blocking_take put_thread update_thread after_take start_task decide
    leave task_should_stop try_decr_to_stop remove lower_bound upper_bound erase_at tell_stopped
    poison_task make_task
goes_down =
    drain
      (drain (drain begin (take (worker 0 taking) (inl refl) refl refl) tt (λ h. h))
        (decide_stop (worker 0 (took (some (poison_task 100 none)))) 3 (inl refl) refl refl) tt
        (λ h. h))
      (join_one refl refl) tt (λ h. h)

stop_or_join-Drain_example :
    (joined.thread_list.vec ≡ []) × (joined.stopped_threads ≡ []) × (joined.threads_to_stop ≡ 0)
unfolding stop_or_join remove_threads stop_threads add_poison add_with_priority num_priorities
    queue_index to_size joins goes_down
stop_or_join-Drain_example =
    stop_or_join-Drain bq true at {s = system one} {k = 1} one-Inv refl refl refl goes_down refl
