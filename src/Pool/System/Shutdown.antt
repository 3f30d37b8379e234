-- ===== src/Pool/System/Shutdown.antt =====
-- `stop` and `join`: what holds once they have joined every thread that they wait for.
use thread_pool_exec.Prelude.{
  ℕ, ◌+◌, ◌<◌, ◌≡◌, refl, Bool, List, [], ◌∷◌, length, arith, Option, some, subst, sym, ap, ◌∙◌,
}
use thread_pool_exec.TaskQueue.{BlockingQueue}
use thread_pool_exec.Pool.Task.{Task, Thread}
use thread_pool_exec.Pool.ThreadList.{ThreadList}
use thread_pool_exec.Pool.State.{Pool, returned, Stamp}
use thread_pool_exec.Pool.Resize.{
  ensure_joined, ensure_active_threads, add_observer, remove_observer, stop_or_join,
  try_timeout_thread, min_active,
}
use thread_pool_exec.Pool.Worker.{
  put_thread, retire, decide, leave, try_decr_to_stop, task_should_stop,
}
use thread_pool_exec.Pool.System.Defs.{
  System, due, Step, IsOrderly, resize, close, resize_throws, close_throws, join_one, reap,
  activate, submit, observe, forget, elsewhere, take, time_out, finish, check, withdraw,
  decide_stop,
}
use thread_pool_exec.Pool.System.Invariant.{
  Inv, Step-Inv, stop_or_join_cases, remove_threads-Stopping,
}

-- No thread may run, and none has left of its own accord.
pub record IsClosed {Q : Type 0} (p : Pool Q) : Type 0 where
  pub no_threads : p.max_threads ≡ 0
  pub none_active : p.active_threads ≡ 0
  pub none_idled : p.threads_to_join ≡ 0

module _ (bq : BlockingQueue Task) where
  open bq use {Queue}

  abbrev pub IsResize : {s u : System Queue} → Step bq s u → Type 0
  IsResize (resize _ _ _) = Unit
  IsResize _ = ⊥

  -- Orderly steps after `stop` or `join`, with no `setNumThreads` among them.
  pub data Drain (s : System Queue) : System Queue → Type 0 where
    begin : Drain s s
    drain :
        {t u : System Queue}
        → Drain s t
        → (st : Step bq t u) → IsOrderly bq st
        → ¬ IsResize st
        → Drain s u

  abbrev joined : {s u : System Queue} → Step bq s u → ℕ
  joined (join_one _ _) = 1
  joined _ = 0

  -- The rounds of `joinStoppedThreads` among the steps.
  unfoldable pub joins : {s u : System Queue} → Drain s u → ℕ
  joins begin = 0
  joins (drain d st _ _) = joins d + joined st

  close-IsClosed :
      (j : Bool) (at : Stamp) (p : Pool Queue) {k : ℕ} {q : Pool Queue}
      → stop_or_join bq j at p ≡ returned k q
      → IsClosed q
  close-IsClosed j at p {k} {q} e =
      let (r, returns, amount, at_end) = stop_or_join_cases bq j at p e in
      let stopping =
        remove_threads-Stopping bq (length p.thread_list.vec) j at
          (record p { max_threads = 0; active_threads = 0 }) returns in
      subst IsClosed (sym at_end) (record {
        no_threads = stopping.same_max;
        none_active = stopping.same_active;
        none_idled = refl;
      })

  leave_keeps :
      (t : Thread) (cpu : ℕ) (p : Pool Queue) {q : Pool Queue}
      → leave t cpu p ≡ some q
      → IsClosed p
      → IsClosed q
  unfolding leave
  leave_keeps t cpu p {q} e c = ground arith

  retire_keeps :
      (t : Thread) (cpu : ℕ) (p : Pool Queue) {q : Pool Queue}
      → retire t cpu p ≡ some q
      → IsClosed p
      → IsClosed q
  unfolding retire try_decr_to_stop put_thread leave
  retire_keeps t cpu p {q} e c = ground arith

  decide_keeps :
      (t : Thread) (task : Option Task) (cpu : ℕ) (p : Pool Queue) {q : Pool Queue}
      → decide bq t task cpu p ≡ some q
      → IsClosed p
      → IsClosed q
  unfolding decide task_should_stop try_decr_to_stop try_timeout_thread min_active put_thread leave
  decide_keeps t task cpu p {q} e c = ground arith

  Step-IsClosed :
      {s u : System Queue} (st : Step bq s u)
      → IsOrderly bq st
      → ¬ IsResize st
      → IsClosed s.pool
      → IsClosed u.pool
  unfolding ensure_joined add_observer remove_observer ensure_active_threads put_thread
  Step-IsClosed (resize n at e) o not_resize c = absurd (not_resize tt)
  Step-IsClosed {s} (close j at e) o not_resize c = close-IsClosed j at s.pool e
  Step-IsClosed (resize_throws n at e) o not_resize c = absurd o
  Step-IsClosed (close_throws j at e) o not_resize c = absurd o
  Step-IsClosed (join_one stopped owed) o not_resize c = ground arith
  Step-IsClosed reap o not_resize c = ground arith
  Step-IsClosed (activate now) o not_resize c = ground arith
  Step-IsClosed (submit x priority plain e) o not_resize c = ground arith
  Step-IsClosed (observe w) o not_resize c = ground arith
  Step-IsClosed (forget w) o not_resize c = ground arith
  Step-IsClosed (elsewhere n) o not_resize c = ground arith
  Step-IsClosed (take t h e taken) o not_resize c = ground arith
  Step-IsClosed (time_out t h e) o not_resize c = ground arith
  Step-IsClosed (finish t a b d f h e) o not_resize c = ground arith
  Step-IsClosed (check t h e) o not_resize c = ground arith
  Step-IsClosed {s} (withdraw t cpu h e done) o not_resize c = retire_keeps t cpu s.pool done c
  Step-IsClosed {s} (decide_stop t {task} cpu h e done) o not_resize c =
      decide_keeps t task cpu s.pool done c

  length_zero : (ts : List Thread) → length ts ≡ 0 → ts ≡ []
  length_zero [] e = refl
  length_zero (t ∷ ts) e = absurd (omega arith)

  Drain-IsClosed : {s u : System Queue} → Drain s u → IsClosed s.pool → IsClosed u.pool
  Drain-IsClosed begin c = c
  Drain-IsClosed (drain d st o not_resize) c = Step-IsClosed st o not_resize (Drain-IsClosed d c)

  Drain-Inv : {s u : System Queue} → Drain s u → Inv bq s → Inv bq u
  Drain-Inv begin v = v
  Drain-Inv (drain d st o not_resize) v = Step-Inv bq st o (Drain-Inv d v)

  -- A second `stop` or `join` finds no thread of its own to join.
  close_again :
      (j : Bool) (at : Stamp) (s : System Queue) {k : ℕ} {p : Pool Queue}
      → Inv bq s
      → IsClosed s.pool
      → s.pool.threads_to_stop ≡ 0
      → stop_or_join bq j at s.pool ≡ returned k p
      → k ≡ 0
  close_again j at s v c none_leaving e =
      let (r, returns, amount, at_end) = stop_or_join_cases bq j at s.pool e in
      let stopping =
        remove_threads-Stopping bq (length s.pool.thread_list.vec) j at
          (record (s.pool) { max_threads = 0; active_threads = 0 }) returns in
      omega
        (arith, amount, stopping.same_joins, c.none_idled, c.none_active, v.listed, none_leaving)

  -- Only a round of a join changes how many are due.
  Step-joined :
      {s u : System Queue} (st : Step bq s u)
      → IsOrderly bq st
      → ¬ IsResize st
      → Inv bq s
      → IsClosed s.pool
      → u.joins_due + joined st ≡ s.joins_due
  unfolding ensure_joined
  Step-joined (resize n at e) o not_resize v c = absurd (not_resize tt)
  Step-joined {s} (close j at e) o not_resize v c = omega (arith, close_again j at s v c o e)
  Step-joined (resize_throws n at e) o not_resize v c = absurd o
  Step-joined (close_throws j at e) o not_resize v c = absurd o
  Step-joined (join_one stopped owed) o not_resize v c = omega (arith, owed)
  Step-joined reap o not_resize v c = omega (arith, c.none_idled)
  Step-joined (activate now) o not_resize v c = omega arith
  Step-joined (submit x priority plain e) o not_resize v c = omega arith
  Step-joined (observe w) o not_resize v c = omega arith
  Step-joined (forget w) o not_resize v c = omega arith
  Step-joined (elsewhere n) o not_resize v c = omega arith
  Step-joined (take t h e taken) o not_resize v c = omega arith
  Step-joined (time_out t h e) o not_resize v c = omega arith
  Step-joined (finish t a b d f h e) o not_resize v c = omega arith
  Step-joined (check t h e) o not_resize v c = omega arith
  Step-joined (withdraw t cpu h e done) o not_resize v c = omega arith
  Step-joined (decide_stop t cpu h e done) o not_resize v c = omega arith

  Drain-joins :
      {s u : System Queue} (d : Drain s u)
      → Inv bq s
      → IsClosed s.pool
      → u.joins_due + joins d ≡ s.joins_due
  unfolding joins
  Drain-joins begin v c = omega arith
  Drain-joins (drain d st o not_resize) v c =
      omega
        (arith, Drain-joins d v c, Step-joined st o not_resize (Drain-Inv d v) (Drain-IsClosed d c))

  -- In a system that satisfies the invariant, let `stop` or `join` return from its section when no
  -- thread is still to stop and no caller has a thread to join; and let its `k` rounds of `joinStoppedThreads` be done after any steps of
  -- workers and clients that have no `setNumThreads` among them, no section that ends in an
  -- exception, and no other `stop` or `join` that begins while a thread is still to stop. Then no
  -- thread is listed, stopped or to stop, so the CHECKs at the end of `stop` and `join` pass.
  pub stop_or_join-Drain :
      (j : Bool) (at : Stamp) {s u : System Queue} {k : ℕ} {p : Pool Queue}
      → Inv bq s
      → s.pool.threads_to_stop ≡ 0
      → s.joins_due ≡ 0
      → stop_or_join bq j at s.pool ≡ returned k p
      → (d : Drain (due s.joins_due k p) u) → joins d ≡ k
      → (u.pool.thread_list.vec ≡ []) × (u.pool.stopped_threads ≡ []) × (u.pool.threads_to_stop ≡ 0)
  stop_or_join-Drain j at {s} {u} {k} {p} v none_leaving none_due e d all_joined =
      let closed = close-IsClosed j at s.pool e in
      let c = Drain-IsClosed d closed in
      let v' = Step-Inv bq (close j at e) none_leaving v in
      let w = Drain-Inv d v' in
      let left : u.joins_due ≡ 0 = omega (arith, Drain-joins d v' closed, none_due, all_joined) in
      (
        length_zero u.pool.thread_list.vec
            (omega (arith, w.listed, w.owed, left, c.none_active, c.none_idled)),
        length_zero u.pool.stopped_threads (omega (arith, w.owed, left, c.none_idled)),
        omega (arith, w.owed, left, c.none_idled),
      )

  -- Where `stop` or `join` begins while a thread is still to stop, their section asks for more
  -- joins than there are threads: some caller of `joinStoppedThreads` waits for ever, unless more
  -- threads are started.
  pub stop_or_join_overcommits :
      (j : Bool) (at : Stamp) {s : System Queue} {k : ℕ} {p : Pool Queue}
      → Inv bq s
      → 0 < s.pool.threads_to_stop
      → stop_or_join bq j at s.pool ≡ returned k p
      → length p.thread_list.vec + length p.stopped_threads < s.joins_due + k
  stop_or_join_overcommits j at {s} {k} {p} v leaving e =
      let (r, returns, amount, at_end) = stop_or_join_cases bq j at s.pool e in
      let stopping =
        remove_threads-Stopping bq (length s.pool.thread_list.vec) j at
          (record (s.pool) { max_threads = 0; active_threads = 0 }) returns in
      let threads : length p.thread_list.vec ≡ length s.pool.thread_list.vec =
        ap (λ (x : Pool Queue). length x.thread_list.vec) at_end
        ∙ ap (λ (x : ThreadList). length x.vec) stopping.same_threads in
      let stopped : length p.stopped_threads ≡ length s.pool.stopped_threads =
        ap (λ (x : Pool Queue). length x.stopped_threads) at_end
        ∙ ap length stopping.same_stopped in
      omega (arith, threads, stopped, amount, stopping.same_joins, v.owed, v.listed)
