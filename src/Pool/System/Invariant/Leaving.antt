-- ===== src/Pool/System/Invariant/Leaving.antt =====
-- The sections in which a worker may leave keep the invariant.
use thread_pool_exec.Prelude.{
  ℕ, suc, ◌+◌, ◌-◌, ◌≤◌, ◌<◌, ◌≡◌, ◌⊎◌, inl, inr, refl, false, Option, none, some, List, [], ◌∷◌,
  ◌++◌, length, length-append, arith, Bool-cases, Option-cases, ltb, ap, subst, ◌∙◌, ltb→lt,
}
use thread_pool_exec.TaskQueue.{BlockingQueue}
use thread_pool_exec.Pool.Task.{Task, Thread, taking, took, retiring}
use thread_pool_exec.Pool.ThreadList.{ThreadList}
use thread_pool_exec.Pool.ThreadList.Laws.{IsRising, In, total, Removed, remove-Removed}
use thread_pool_exec.Pool.State.{Pool, Event, tell_stopped}
use thread_pool_exec.Pool.Resize.{try_timeout_thread, min_active}
use thread_pool_exec.Pool.Worker.{
  put_thread, try_decr_to_stop, leave, retire, task_should_stop, decide,
}
use thread_pool_exec.Pool.System.Defs.{System}
use thread_pool_exec.Pool.System.Invariant.Defs.{holds_poison, Inv}
use thread_pool_exec.Pool.System.Invariant.Effects.{Removed-Below}
use thread_pool_exec.Pool.System.Invariant.Working.{put_thread-Inv}

module _ (bq : BlockingQueue Task) where
  open bq use {Queue, items, size, try_take, weigh-take}

  after_leaving : Thread → ThreadList → Pool Queue → Pool Queue
  after_leaving t l r = record r { thread_list = l; stopped_threads = r.stopped_threads ++ t ∷ [] }

  leave_lem :
      (t : Thread) (cpu : ℕ) (r : Pool Queue) {p : Pool Queue}
      → IsRising 0 r.thread_list.vec
      → In t r.thread_list.vec
      → leave t cpu r ≡ some p
      → (l : ThreadList) × Removed r.thread_list t cpu l × (p ≡ after_leaving t l r)
  unfolding leave after_leaving
  leave_lem t cpu r rising h e =
      let (l, removed) = remove-Removed 0 r.thread_list t cpu rising h in
      (l, removed, ground (arith, removed.done))

  -- What a worker that leaves has done to the counts: one thread fewer is active or to stop, and
  -- one more is to be joined.
  record Leaving (s : System Queue) (t : Thread) (r : Pool Queue) : Type 0 where
    same_threads : r.thread_list ≡ s.pool.thread_list
    same_stopped : r.stopped_threads ≡ s.pool.stopped_threads
    same_ids : r.next_id ≡ s.pool.next_id
    same_max : r.max_threads ≡ s.pool.max_threads
    same_queue : r.task_queue ≡ s.pool.task_queue
    fewer :
        suc (r.active_threads + r.threads_to_stop) ≡ s.pool.active_threads + s.pool.threads_to_stop
    no_more : r.active_threads ≤ s.pool.active_threads
    owes :
        suc (s.pool.threads_to_join + r.threads_to_stop)
        ≡ r.threads_to_join + s.pool.threads_to_stop
    spends : r.threads_to_stop + holds_poison t ≤ s.pool.threads_to_stop

  leave-Inv :
      (s : System Queue) (t : Thread) (cpu : ℕ) (r : Pool Queue) {p : Pool Queue}
      → Inv bq s
      → In t s.pool.thread_list.vec
      → Leaving s t r
      → leave t cpu r ≡ some p
      → Inv bq (record s { pool = p })
  unfolding after_leaving
  leave-Inv s t cpu r {p} v h c e =
      let (l, removed, after) =
        leave_lem t cpu r (rw c.same_threads v.rising) (rw c.same_threads h) e in
      let threads : total holds_poison r.thread_list.vec
          ≡ total holds_poison s.pool.thread_list.vec =
        ap (λ (x : ThreadList). total holds_poison x.vec) c.same_threads in
      let count : length r.thread_list.vec ≡ length s.pool.thread_list.vec =
        ap (λ (x : ThreadList). length x.vec) c.same_threads in
      rw after (record {
        listed = omega (arith, removed.fewer, count, c.fewer, v.listed);
        owed = omega (
          arith,
          length-append r.stopped_threads (t ∷ []),
          ap length c.same_stopped,
          c.owes,
          v.owed,
        );
        capped = rw c.same_max (omega (arith, c.no_more, v.capped));
        rising = removed.rising 0 (rw c.same_threads v.rising);
        fresh = rw c.same_ids (
            Removed-Below s.pool.next_id r.thread_list t cpu l removed (rw c.same_threads v.fresh));
        poisoned =
            rw c.same_queue
              (omega (arith, removed.weighed holds_poison, threads, c.spends, v.poisoned));
      })

  holds_poison-le : (t : Thread) → holds_poison t ≤ 1
  holds_poison-le t = ground arith

  -- `tryDecrToStop` has succeeded; the events may have grown.
  told : Pool Queue → List Event → Pool Queue
  told p events = record p { threads_to_stop = p.threads_to_stop - 1; events = events }

  told-Leaving :
      (s : System Queue) (t : Thread) (events : List Event)
      → 0 < s.pool.threads_to_stop
      → Leaving s t (told s.pool events)
  unfolding told
  told-Leaving s t events h = record {
    same_threads = refl;
    same_stopped = refl;
    same_ids = refl;
    same_max = refl;
    same_queue = refl;
    fewer = omega arith;
    no_more = omega arith;
    owes = omega arith;
    spends = omega (arith, holds_poison-le t);
  }

  -- `tryTimeoutThread` has succeeded.
  timed_out : Pool Queue → List Event → Pool Queue
  timed_out p events = record p {
    active_threads = p.active_threads - 1;
    threads_to_join = p.threads_to_join + 1;
    events = events;
  }

  timed_out-Leaving :
      (s : System Queue) (t : Thread) (events : List Event)
      → 0 < s.pool.active_threads
      → holds_poison t ≡ 0
      → Leaving s t (timed_out s.pool events)
  unfolding timed_out
  timed_out-Leaving s t events h none_held = record {
    same_threads = refl;
    same_stopped = refl;
    same_ids = refl;
    same_max = refl;
    same_queue = refl;
    fewer = omega arith;
    no_more = omega arith;
    owes = omega arith;
    spends = omega arith;
  }

  stays-Inv :
      (s : System Queue) (t : Thread)
      → Inv bq s
      → In t s.pool.thread_list.vec
      → (holds_poison t ≡ 0) ⊎ (s.pool.threads_to_stop ≡ 0)
      → Inv bq (record s { pool = put_thread (record t { place = taking }) s.pool })
  stays-Inv s t v h spare =
      put_thread-Inv bq s t (record t { place = taking }) s.pool.task_queue v h refl (ground arith)

  pub withdraw-Inv :
      (s : System Queue) (t : Thread) (cpu : ℕ) {p : Pool Queue}
      → Inv bq s
      → In t s.pool.thread_list.vec
      → t.place ≡ retiring
      → retire t cpu s.pool ≡ some p
      → Inv bq (record s { pool = p })
  unfolding retire try_decr_to_stop told
  withdraw-Inv s t cpu {p} v h e done = elim (Bool-cases (ltb 0 s.pool.threads_to_stop)) [
    | inl left ↦
        leave-Inv s t cpu (told s.pool s.pool.events) v h
          (told-Leaving s t s.pool.events (ltb→lt _ _ left)) (ground arith)
    | inr none_left ↦
        subst (λ q. Inv bq (record s { pool = q })) (ground arith)
          (stays-Inv s t v h (ground arith))
  ]

  -- `tryTimeoutThread` has taken the count of active threads down and up again.
  reactivated : Pool Queue → Pool Queue
  reactivated p = record p { active_threads = p.active_threads - 1 + 1 }

  reactivated-Inv :
      (s : System Queue)
      → 0 < s.pool.active_threads
      → Inv bq s
      → Inv bq (record s { pool = reactivated s.pool })
  unfolding reactivated
  reactivated-Inv s h v = record {
    listed = omega (arith, v.listed);
    owed = v.owed;
    capped = omega (arith, v.capped);
    rising = v.rising;
    fresh = v.fresh;
    poisoned = v.poisoned;
  }

  decide-Inv_idle :
      (s : System Queue) (t : Thread) (cpu : ℕ) {p : Pool Queue}
      → Inv bq s
      → In t s.pool.thread_list.vec
      → t.place ≡ took none
      → ltb 0 s.pool.threads_to_stop ≡ false
      → decide bq t none cpu s.pool ≡ some p
      → Inv bq (record s { pool = p })
  unfolding decide task_should_stop try_decr_to_stop try_timeout_thread min_active timed_out
      reactivated
  decide-Inv_idle s t cpu {p} v h e none_left done =
      elim (Bool-cases (ltb s.pool.min_threads s.pool.active_threads)) [
        | inr few ↦
            subst (λ q. Inv bq (record s { pool = q })) (ground arith)
              (stays-Inv s t v h (ground arith))
        | inl enough ↦ elim (Bool-cases (ltb 0 (size s.pool.task_queue))) [
          | inl pending ↦
              subst (λ q. Inv bq (record s { pool = q })) (ground arith)
                (stays-Inv (record s { pool = reactivated s.pool }) t
                  (reactivated-Inv s (ground arith) v) h (ground arith))
          | inr empty ↦
              leave-Inv s t cpu
                (timed_out s.pool (s.pool.events ++ tell_stopped s.pool.observers t)) v h
                (timed_out-Leaving s t _ (ground arith) (ground arith)) (ground arith)
        ]
      ]

  pub decide-Inv :
      (s : System Queue) (t : Thread) {task : Option Task} (cpu : ℕ) {p : Pool Queue}
      → Inv bq s
      → In t s.pool.thread_list.vec
      → t.place ≡ took task
      → decide bq t task cpu s.pool ≡ some p
      → Inv bq (record s { pool = p })
  unfolding decide task_should_stop try_decr_to_stop told
  decide-Inv s t {task} cpu {p} v h e done = elim (Bool-cases (ltb 0 s.pool.threads_to_stop)) [
    | inl left ↦
        leave-Inv s t cpu (told s.pool (s.pool.events ++ tell_stopped s.pool.observers t)) v h
          (told-Leaving s t _ (ltb→lt _ _ left)) (ground arith)
    | inr none_left ↦ elim (Option-cases task) [
      | inl idle ↦ decide-Inv_idle s t cpu v h (e ∙ ap took idle) none_left (ground arith)
      | inr (x, given) ↦
          subst (λ q. Inv bq (record s { pool = q })) (ground arith)
            (stays-Inv s t v h (ground arith))
    ]
  ]
