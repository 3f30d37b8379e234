-- ===== src/TaskQueue/PriorityLifoSem/Interface.antt =====
-- The bounded priority queue as the task queue of an executor.
use thread_pool_exec.Prelude.{ℕ, ◌+◌, ◌≡◌, List, [], ◌∷◌, ◌++◌, some, ℤ, arith, ap}
use thread_pool_exec.Priority.{queue_index}
use thread_pool_exec.TaskQueue.{BlockingQueue, weigh}
use thread_pool_exec.TaskQueue.Bounded.{BoundedQueue}
use thread_pool_exec.TaskQueue.PriorityLifoSem.{
  num_priorities, add_with_priority, non_blocking_take, total_size,
}
use thread_pool_exec.TaskQueue.PriorityLifoSem.Laws.{
  all_items, items_from, items_before, items_split, add_with_priority-all_items,
  non_blocking_take-all_items, non_blocking_take-none, total_size-all_items,
}

pub weigh-append :
    {T : Type 0} (w : T → ℕ) (xs ys : List T) → weigh w (xs ++ ys) ≡ weigh w xs + weigh w ys
unfolding weigh
weigh-append w [] ys = omega arith
weigh-append w (x ∷ xs) ys = omega (arith, weigh-append w xs ys)

module _ {T : Type 0} (mpmc : BoundedQueue T) (w : T → ℕ) (qs : List (mpmc.Queue)) (x : T)
    {qs' : List (mpmc.Queue)} where
  pub weigh-add_with_priority :
      (priority : ℤ)
      → add_with_priority mpmc qs x priority ≡ some qs'
      → weigh w (all_items mpmc qs') ≡ w x + weigh w (all_items mpmc qs)
  unfolding weigh
  weigh-add_with_priority priority e =
      let i = queue_index (num_priorities mpmc qs) priority in
      let above = items_from mpmc i qs in
      let below = items_before mpmc i qs in
      let added = ap (weigh w) (add_with_priority-all_items mpmc qs x priority e) in
      let before = ap (weigh w) (items_split mpmc i qs) in
      omega (arith, added, before, weigh-append w above (x ∷ below), weigh-append w above below)

  pub weigh-non_blocking_take :
      non_blocking_take mpmc qs ≡ some (x, qs')
      → weigh w (all_items mpmc qs) ≡ w x + weigh w (all_items mpmc qs')
  unfolding weigh
  weigh-non_blocking_take e = ap (weigh w) (non_blocking_take-all_items mpmc qs e).0

abbrev pub priority_lifo_sem : {T : Type 0} → BoundedQueue T → BlockingQueue T
priority_lifo_sem mpmc = record {
  Queue = List (mpmc.Queue);
  items = all_items mpmc;
  add_with_priority = add_with_priority mpmc;
  try_take = non_blocking_take mpmc;
  size = total_size mpmc;
  size-items = total_size-all_items mpmc;
  weigh-add = λ w qs x priority e. weigh-add_with_priority mpmc w qs x priority e;
  weigh-take = λ w qs {x} e. weigh-non_blocking_take mpmc w qs x e;
  take_none = non_blocking_take-none mpmc;
}
