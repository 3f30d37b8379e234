-- ===== src/Pool/System/Serving/Places.antt =====
-- Where a worker stands, the steps that lead it to its stop.
use thread_pool_exec.Prelude.{
  ℕ, suc, ◌≤◌, ◌<◌, ◌≡◌, ◌⊎◌, inl, inr, List, [], ◌∷◌, ◌++◌, length, arith, Option, some, none, ap,
  refl,
}
use thread_pool_exec.TaskQueue.{BlockingQueue, weigh}
use thread_pool_exec.Pool.Task.{
  Task, Thread, Place, taking, took, running, ran, retiring, start_task, run_task,
}
use thread_pool_exec.Pool.ThreadList.Laws.{In}
use thread_pool_exec.Pool.State.{Pool}
use thread_pool_exec.Pool.Worker.{put_thread, update_thread, after_take, after_task, after_check}
use thread_pool_exec.Pool.System.Defs.{
  System, Step, IsOrderly, time_out, finish, check, withdraw, decide_stop, Reach, here, next,
}
use thread_pool_exec.Pool.System.Invariant.{Inv, Step-Inv}
use thread_pool_exec.Pool.System.Progress.{stopping_sections}

weigh_ones : {T : Type 0} (xs : List T) → weigh (λ (x : T). 1) xs ≡ length xs
unfolding weigh
weigh_ones [] = refl
weigh_ones (x ∷ xs) = omega (arith, weigh_ones xs)

snoc_positive : (ts : List Thread) (t : Thread) → 0 < length (ts ++ t ∷ [])
snoc_positive [] t = omega arith
snoc_positive (x ∷ ts) t = omega arith

module _ (bq : BlockingQueue Task) where
  open bq use {Queue, items, try_take, weigh-take, take_none}

  -- Orderly steps that leave a stopped thread for a caller that waits.
  abbrev pub Served : System Queue → Type 0
  Served s =
      (u : System Queue) × Reach bq s u
      × (0 < length u.pool.stopped_threads)
      × (u.joins_due ≡ s.joins_due)

  pub before :
      {s t u : System Queue} (st : Step bq s t) → IsOrderly bq st → Reach bq t u → Reach bq s u
  before st o here = next here st o
  before st o (next r st' o') = next (before st o r) st' o'

  pub head_put :
      (t t' : Thread) (ts : List Thread) (p : Pool Queue)
      → p.thread_list.vec ≡ t ∷ ts
      → t'.id ≡ t.id
      → (put_thread t' p).thread_list.vec ≡ t' ∷ ts
  unfolding put_thread update_thread
  head_put t t' ts p at same = rw at (ground arith)

  -- A worker that took nothing or poison, or has seen the need after a task, stops at once.
  ends :
      (s : System Queue) (t : Thread) (task : Option Task)
      → Inv bq s
      → 0 < s.pool.threads_to_stop
      → In t s.pool.thread_list.vec
      → (t.place ≡ took task) ⊎ (t.place ≡ retiring)
      → Served s
  ends s t task v some_left h place =
      let (l, decides, retires, fewer, gone) = stopping_sections bq s t task 0 v h some_left in
      let more = snoc_positive s.pool.stopped_threads t in
      elim place [
        | inl e ↦ (_, next here (decide_stop t 0 h e decides) tt, more, refl)
        | inr e ↦ (_, next here (withdraw t 0 h e retires) tt, more, refl)
      ]

  -- The first worker of the list, at a place, with at most `n` tasks in the queue.
  abbrev pub Serves : ℕ → Place → Type 0
  Serves n place =
      (s : System Queue) (t : Thread) (ts : List Thread)
      → Inv bq s
      → 0 < s.pool.threads_to_stop
      → s.pool.thread_list.vec ≡ t ∷ ts
      → t.place ≡ place
      → length (items s.pool.task_queue) ≤ n
      → Served s

  pub listed_first : (t : Thread) (ts us : List Thread) → us ≡ t ∷ ts → In t us
  listed_first t ts us at = rw at (inl refl)

  pub ends_first :
      (s : System Queue) (t : Thread) (ts : List Thread) (task : Option Task)
      → Inv bq s
      → 0 < s.pool.threads_to_stop
      → s.pool.thread_list.vec ≡ t ∷ ts
      → (t.place ≡ took task) ⊎ (t.place ≡ retiring)
      → Served s
  ends_first s t ts task v some_left at place =
      ends s t task v some_left (listed_first t ts s.pool.thread_list.vec at) place

  after_check_place :
      (t : Thread) (p : Pool Queue)
      → (after_check t p ≡ record t { place = retiring })
        ⊎ (after_check t p ≡ record t { place = taking })
  unfolding after_check
  after_check_place t p = ground arith

  pub Serves-ran : (n : ℕ) → Serves n taking → Serves n ran
  unfolding put_thread
  Serves-ran n onward s t ts v some_left at place few =
      let st : Step bq s (record s { pool = put_thread (after_check t s.pool) s.pool }) =
        check t (listed_first t ts s.pool.thread_list.vec at) place in
      let v' = Step-Inv bq st tt v in
      elim (after_check_place t s.pool) [
        | inl retires ↦
            let t' : Thread = record t { place = retiring } in
            let (u, r, more, same) =
              ends_first (record s { pool = put_thread (after_check t s.pool) s.pool })
                (after_check t s.pool) ts none v' some_left
                (head_put t (after_check t s.pool) ts s.pool at (ap (λ (x : Thread). x.id) retires))
                (inr (ap (λ (x : Thread). x.place) retires)) in
            (u, before st tt r, more, same)
        | inr takes ↦
            let (u, r, more, same) =
              onward (record s { pool = put_thread (after_check t s.pool) s.pool })
                (after_check t s.pool) ts v' some_left
                (head_put t (after_check t s.pool) ts s.pool at (ap (λ (x : Thread). x.id) takes))
                (ap (λ (x : Thread). x.place) takes) few in
            (u, before st tt r, more, same)
      ]

  pub Serves-running : (n : ℕ) (x : Task) → Serves n taking → Serves n (running x)
  unfolding after_task run_task start_task put_thread
  Serves-running n x onward s t ts v some_left at place few =
      let t' = after_task t x 0 0 0 [] in
      let st : Step bq s (record s { pool = put_thread t' s.pool }) =
        finish t 0 0 0 [] (listed_first t ts s.pool.thread_list.vec at) place in
      let (u, r, more, same) =
        Serves-ran n onward (record s { pool = put_thread t' s.pool }) t' ts (Step-Inv bq st tt v)
          some_left (head_put t t' ts s.pool at refl) refl few in
      (u, before st tt r, more, same)

  -- A worker that takes from an empty queue times out.
  pub serves_empty :
      (s : System Queue) (t : Thread) (ts : List Thread)
      → Inv bq s
      → 0 < s.pool.threads_to_stop
      → s.pool.thread_list.vec ≡ t ∷ ts
      → t.place ≡ taking
      → Served s
  unfolding put_thread
  serves_empty s t ts v some_left at place =
      let t' : Thread = record t { place = took none } in
      let st : Step bq s (record s { pool = put_thread t' s.pool }) =
        time_out t (listed_first t ts s.pool.thread_list.vec at) place in
      let (u, r, more, same) =
        ends_first (record s { pool = put_thread t' s.pool }) t' ts none (Step-Inv bq st tt v)
          some_left (head_put t t' ts s.pool at refl) (inl refl) in
      (u, before st tt r, more, same)

  pub after_take_place :
      (t : Thread) (x : Task)
      → (after_take t x ≡ record t { place = took (some x) })
        ⊎ (after_take t x ≡ record (start_task t) { place = running x })
  unfolding after_take
  after_take_place t x = ground arith

  pub fewer_items :
      (q : Queue) {x : Task} {q' : Queue}
      → try_take q ≡ some (x, q')
      → length (items q) ≡ suc (length (items q'))
  fewer_items q {x} {q'} e =
      omega (arith, weigh_ones (items q), weigh_ones (items q'), weigh-take (λ (y : Task). 1) q e)
