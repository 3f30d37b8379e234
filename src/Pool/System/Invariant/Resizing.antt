-- ===== src/Pool/System/Invariant/Resizing.antt =====
-- The sections that change the number of threads keep the invariant.
use thread_pool_exec.Prelude.{
  ℕ, ◌+◌, ◌-◌, ◌≤◌, ◌<◌, ◌≡◌, inl, inr, refl, Bool, true, false, not, length, arith, Bool-cases,
  ltb, leb, ◌⊎◌,
}
use thread_pool_exec.TaskQueue.{BlockingQueue, weigh}
use thread_pool_exec.Pool.Task.{Task}
use thread_pool_exec.Pool.State.{
  Pool, Outcome, returned, threw, Stamp, add_threads, add_poison, remove_threads,
}
use thread_pool_exec.Pool.Resize.{
  ensure_active_threads, num_to_add, new_min, resized, extra, grows, set_num_threads, stop_or_join,
  is_empty,
}
use thread_pool_exec.Pool.System.Defs.{System, due}
use thread_pool_exec.Pool.System.Invariant.Defs.{is_poison, Inv}
use thread_pool_exec.Pool.System.Invariant.Effects.{add_all-Grown, add_poison-weigh}

module _ (bq : BlockingQueue Task) where
  open bq use {Queue, items, size}

  -- `removeThreads` has returned.
  pub record Stopping (n : ℕ) (p q : Pool Queue) : Type 0 where
    pub stopping : q.threads_to_stop ≡ p.threads_to_stop + n
    pub poison : weigh is_poison (items q.task_queue) ≡ weigh is_poison (items p.task_queue) + n
    pub same_threads : q.thread_list ≡ p.thread_list
    pub same_stopped : q.stopped_threads ≡ p.stopped_threads
    pub same_joins : q.threads_to_join ≡ p.threads_to_join
    pub same_ids : q.next_id ≡ p.next_id
    pub same_max : q.max_threads ≡ p.max_threads
    pub same_min : q.min_threads ≡ p.min_threads
    pub same_active : q.active_threads ≡ p.active_threads

  pub remove_threads-Stopping :
      (n : ℕ) (j : Bool) (at : Stamp) (p : Pool Queue) {u : Unit {0}} {q : Pool Queue}
      → remove_threads bq n j at p ≡ returned u q
      → Stopping n p q
  unfolding remove_threads
  remove_threads-Stopping n j at p {q = q} e =
      elim (Bool-cases (add_poison bq n at p.task_queue).1) [
        | inl done ↦ ground (arith, add_poison-weigh bq n at p.task_queue done)
        | inr full ↦ absurd (ground arith)
      ]

  -- What `addThreads` and the store to `activeThreads_` after it give.
  grown-Inv :
      (n now : ℕ) (s : System Queue) (max' min' owed : ℕ)
      → Inv bq s
      → s.pool.active_threads + n ≤ max'
      → owed ≡ s.joins_due
      → Inv bq (record {
        pool =
            record (add_threads n now
              (record (s.pool) { max_threads = max'; min_threads = min' })) {
                active_threads = s.pool.active_threads + n;
              };
        joins_due = owed;
      })
  unfolding add_threads
  grown-Inv n now s max' min' owed v h same =
      let grown = add_all-Grown n s.pool.next_id now s.pool.thread_list v.rising v.fresh in
      record {
        listed = omega (arith, grown.more, v.listed);
        owed = omega (arith, v.owed);
        capped = h;
        rising = grown.rising;
        fresh = grown.fresh;
        poisoned = omega (arith, grown.weighed, v.poisoned);
      }

  num_to_add-le :
      (n active pending : ℕ) (observed : Bool) (minthreads : ℕ)
      → active ≤ n
      → minthreads ≤ n
      → active + num_to_add n active pending observed minthreads ≤ n
  unfolding num_to_add
  num_to_add-le n active pending true minthreads h k = ground arith
  num_to_add-le n active pending false minthreads h k = ground arith

  -- What `removeThreads` and the stores round it give, for any split of the threads to join.
  shrunk-Inv :
      (n max' min' active active' to_join owed : ℕ) (s : System Queue) (q : Pool Queue)
      → Inv bq s
      → Stopping n
          (record (s.pool) { max_threads = max'; min_threads = min'; active_threads = active })
          q
      → active' + n ≡ s.pool.active_threads
      → active' ≤ max'
      → to_join + owed ≡ s.pool.threads_to_join + s.joins_due + n
      → Inv bq (record {
        pool = record q { active_threads = active'; threads_to_join = to_join };
        joins_due = owed;
      })
  shrunk-Inv n max' min' active active' to_join owed s q v st split small total_owed = record {
    listed = rw st.same_threads (omega (arith, v.listed, st.stopping));
    owed = rw st.same_stopped (omega (arith, v.owed, st.stopping));
    capped = rw st.same_max small;
    rising = rw st.same_threads v.rising;
    fresh = rw (st.same_threads, st.same_ids) v.fresh;
    poisoned = rw st.same_threads (omega (arith, v.poisoned, st.poison, st.stopping));
  }

  -- How `setNumThreads` returns.
  abbrev pub Resized : ℕ → Stamp → Pool Queue → ℕ → Pool Queue → Type 0
  Resized n at p k q =
      ((n < p.active_threads)
        × (k ≡ p.active_threads - n)
        × (r : Pool Queue) × (remove_threads bq (p.active_threads - n) false at (resized n p)
            ≡ returned tt r)
        × (q ≡ record r { active_threads = n }))
      ⊎ ((p.active_threads ≤ n)
          × (k ≡ 0)
          × ((q ≡ record (add_threads (extra bq n p) at.now (resized n p)) {
            active_threads = p.active_threads + extra bq n p;
          })
              ⊎ ((grows bq n p ≡ false) × (q ≡ resized n p))))

  Outcome-cases :
      (o : Outcome Queue (Unit {0}))
      → ((q : Pool Queue) × (o ≡ returned tt q)) ⊎ ((q : Pool Queue) × (o ≡ threw q))
  Outcome-cases (returned tt q) = inl (q, refl)
  Outcome-cases (threw q) = inr (q, refl)

  pub set_num_threads_cases :
      (n : ℕ) (at : Stamp) (p : Pool Queue) {k : ℕ} {q : Pool Queue}
      → set_num_threads bq n at p ≡ returned k q
      → Resized n at p k q
  unfolding set_num_threads
  set_num_threads_cases n at p {k} {q} e = elim (Bool-cases (ltb n p.active_threads)) [
    | inl less ↦
        elim (Outcome-cases (remove_threads bq (p.active_threads - n) false at (resized n p))) [
          | inl (r, returns) ↦ inl (ground arith, ground arith, r, returns, ground arith)
          | inr (r, throws) ↦ absurd (ground arith)
        ]
    | inr enough ↦ elim (Bool-cases (grows bq n p)) [
      | inl more ↦ inr (ground arith, ground arith, inl (ground arith))
      | inr done ↦ inr (ground arith, ground arith, inr (done, ground arith))
    ]
  ]

  pub new_min-le : (n : ℕ) (p : Pool Queue) → new_min n p ≤ n
  unfolding new_min
  new_min-le n p = ground arith

  pub extra-le :
      (n : ℕ) (p : Pool Queue) → p.active_threads ≤ n → p.active_threads + extra bq n p ≤ n
  unfolding extra
  extra-le n p h =
      num_to_add-le n p.active_threads (size p.task_queue) (not (is_empty p.observers))
        (new_min n p) h (new_min-le n p)

  pub resize-Inv :
      (n : ℕ) (at : Stamp) (s : System Queue) {k : ℕ} {p : Pool Queue}
      → set_num_threads bq n at s.pool ≡ returned k p
      → Inv bq s
      → Inv bq (due s.joins_due k p)
  unfolding resized
  resize-Inv n at s {k} {p} e v = elim (set_num_threads_cases n at s.pool e) [
    | inl (less, amount, r, returns, at_end) ↦
        let stopping =
          remove_threads-Stopping (s.pool.active_threads - n) false at (resized n s.pool) returns in
        rw (amount, at_end)
          (shrunk-Inv (s.pool.active_threads - n) n (new_min n s.pool) s.pool.active_threads n
            r.threads_to_join (s.joins_due + (s.pool.active_threads - n)) s r v stopping
            (omega arith) (omega arith) (omega (arith, stopping.same_joins)))
    | inr (enough, amount, inl grew) ↦
        rw (amount, grew)
          (grown-Inv (extra bq n s.pool) at.now s n (new_min n s.pool) (s.joins_due + 0) v
            (extra-le n s.pool enough) (omega arith))
    | inr (enough, amount, inr (stays, same)) ↦
        rw (amount, same)
          (record {
            listed = v.listed;
            owed = omega (arith, v.owed);
            capped = enough;
            rising = v.rising;
            fresh = v.fresh;
            poisoned = v.poisoned;
          })
  ]

  -- How `stop` and `join` return.
  abbrev pub Closed : Bool → Stamp → Pool Queue → ℕ → Pool Queue → Type 0
  Closed j at p k q =
      (r : Pool Queue) × (remove_threads bq (length p.thread_list.vec) j at
          (record p { max_threads = 0; active_threads = 0 })
        ≡ returned tt r)
      × (k ≡ length p.thread_list.vec + r.threads_to_join)
      × (q ≡ record r { threads_to_join = 0 })

  pub stop_or_join_cases :
      (j : Bool) (at : Stamp) (p : Pool Queue) {k : ℕ} {q : Pool Queue}
      → stop_or_join bq j at p ≡ returned k q
      → Closed j at p k q
  unfolding stop_or_join
  stop_or_join_cases j at p {k} {q} e =
      elim (Outcome-cases (
        remove_threads bq (length p.thread_list.vec) j at
          (record p { max_threads = 0; active_threads = 0 }))) [
            | inl (r, returns) ↦ (r, returns, ground arith, ground arith)
            | inr (r, throws) ↦ absurd (ground arith)
          ]

  pub close-Inv :
      (j : Bool) (at : Stamp) (s : System Queue) {k : ℕ} {p : Pool Queue}
      → s.pool.threads_to_stop ≡ 0
      → stop_or_join bq j at s.pool ≡ returned k p
      → Inv bq s
      → Inv bq (due s.joins_due k p)
  close-Inv j at s {k} {p} none_leaving e v =
      let (r, returns, amount, at_end) = stop_or_join_cases j at s.pool e in
      let n = length s.pool.thread_list.vec in
      let stopping =
        remove_threads-Stopping n j at (record (s.pool) { max_threads = 0; active_threads = 0 })
          returns in
      rw (amount, at_end)
        (shrunk-Inv n 0 s.pool.min_threads 0 r.active_threads 0
          (s.joins_due + (n + r.threads_to_join)) s r v stopping
          (omega (arith, stopping.same_active, v.listed)) (omega (arith, stopping.same_active))
          (omega (arith, stopping.same_joins)))

  pub activate-Inv :
      (now : ℕ) (s : System Queue)
      → Inv bq s
      → Inv bq (record s { pool = ensure_active_threads now s.pool })
  unfolding ensure_active_threads
  activate-Inv now s v = elim (Bool-cases (leb s.pool.max_threads s.pool.active_threads)) [
    | inl full ↦ rw full v
    | inr room ↦
        rw room (
          grown-Inv 1 now s s.pool.max_threads s.pool.min_threads s.joins_due v (ground arith) refl)
  ]
