-- ===== src/Pool/Submit/Laws.antt =====
-- A task that is added is in the queue, and a thread is there to take it.
use thread_pool_exec.Prelude.{
  ℕ, zero, suc, ◌+◌, ltb, dec_lt, ◌≤◌, ◌<◌, ◌≡◌, refl, Bool, true, false, Option, some, arith,
  Option-cases, ℤ, inl, inr, Bool-cases, ◌⊎◌, min, ◌==◌, if◌then◌else◌,
}
use thread_pool_exec.TaskQueue.{BlockingQueue}
use thread_pool_exec.Pool.Task.{Task, Func, make_task}
use thread_pool_exec.Pool.State.{Pool, Outcome, returned, threw, Stamp, add_threads}
use thread_pool_exec.Pool.Resize.{ensure_joined, ensure_active_threads, set_num_threads}
use thread_pool_exec.Pool.Submit.{
  add_impl, blank, construct, ensure_joined_and_active, ensure_max_active_threads,
}
use thread_pool_exec.Pool.System.{due, resize}
use thread_pool_exec.Pool.System.Invariant.{Inv, Step-Inv}
use thread_pool_exec.Pool.Limits.{set_num_threads-Limits}

module _ {Queue : Type 0} where
  -- One round of the loop.
  record Round (now : ℕ) (p : Pool Queue) : Type 0 where
    activated : (ensure_joined_and_active now p).1.active_threads ≡ p.active_threads + 1
    same_max : (ensure_joined_and_active now p).1.max_threads ≡ p.max_threads
    none_to_join : (ensure_joined_and_active now p).1.threads_to_join ≡ 0
    joined : (ensure_joined_and_active now p).0 ≡ p.threads_to_join

  ensure_joined_and_active-Round :
      (now : ℕ) (p : Pool Queue) → p.active_threads < p.max_threads → Round now p
  unfolding ensure_joined_and_active ensure_joined ensure_active_threads add_threads
  ensure_joined_and_active-Round now p less = record {
    activated = ground arith;
    same_max = ground arith;
    none_to_join = ground arith;
    joined = ground arith;
  }

  -- The loop of `ensureMaxActiveThreads`, undisturbed, ends after as many rounds as active threads
  -- are missing; then as many are active as the maximum allows, and what was to be joined has been
  -- joined, once.
  pub ensure_max_active_threads_lem :
      (fuel now : ℕ) (p : Pool Queue)
      → p.active_threads ≤ p.max_threads
      → p.max_threads < p.active_threads + fuel
      → (k : ℕ) × (q : Pool Queue) × (ensure_max_active_threads fuel now p ≡ some (k, q))
        × (q.active_threads ≡ p.max_threads)
        × (q.max_threads ≡ p.max_threads)
        × (k + q.threads_to_join ≡ p.threads_to_join)
  unfolding ensure_max_active_threads
  ensure_max_active_threads_lem zero now p le enough = absurd (omega arith)
  ensure_max_active_threads_lem (suc fuel) now p le enough =
      elim (dec_lt p.active_threads p.max_threads) [
        | yes less ↦
            let r = ensure_joined_and_active-Round now p less in
            let (k, q, ends, active, same, joined) =
              ensure_max_active_threads_lem fuel now (ensure_joined_and_active now p).1
                (omega (arith, r.activated, r.same_max)) (omega (arith, r.activated, r.same_max)) in
            let goes_on : ltb p.active_threads p.max_threads ≡ true = ground arith in
            (
              (ensure_joined_and_active now p).0 + k,
              q,
              rw (goes_on, ends) refl,
              omega (arith, active, r.same_max),
              omega (arith, same, r.same_max),
              omega (arith, joined, r.none_to_join, r.joined),
            )
        | no full ↦ (0, p, ground arith, omega arith, refl, omega arith)
      ]

module _ (bq : BlockingQueue Task) where
  open bq use {Queue, items, add_with_priority, weigh-add}

  pub record Submitted (task : Task) (priority : ℤ) (reused : Bool) (p q : Pool Queue)
      : Type 0 where
    pub queued : add_with_priority p.task_queue task priority ≡ some q.task_queue
    pub served : reused ≡ false → 0 < p.max_threads → 0 < q.active_threads
    pub bounded : p.active_threads ≤ p.max_threads → q.active_threads ≤ p.max_threads
    pub grown : p.active_threads ≤ q.active_threads

  -- When `add` returns, the task is in the queue; unless a waiting worker was woken for it, a pool
  -- that may run threads has an active one; and the active threads stay within the maximum.
  pub add_impl-Submitted :
      (func : Func) (priority expiration : ℤ) (expire_callback : Option Func) (reused : Bool)
      (at : Stamp) (p : Pool Queue) {k : ℕ} {q : Pool Queue}
      → add_impl bq func priority expiration expire_callback reused at p ≡ returned k q
      → Submitted
          (make_task (some func) expiration expire_callback priority at.now at.context)
          priority
          reused
          p
          q
  unfolding add_impl ensure_joined ensure_active_threads add_threads
  add_impl-Submitted func priority expiration expire_callback reused at p {k} {q} e =
      elim (Option-cases (
        add_with_priority p.task_queue
          (make_task (some func) expiration expire_callback priority at.now at.context) priority)) [
            | inl full ↦ absurd (ground arith)
            | inr (x, added) ↦ ground arith
          ]

  blank-Inv :
      (min_threads next_id : ℕ) (q : Queue)
      → Inv bq (record { pool = blank bq min_threads next_id q; joins_due = 0 })
  unfolding blank
  blank-Inv min_threads next_id q = record {
    listed = refl;
    owed = refl;
    capped = omega arith;
    rising = tt;
    fresh = tt;
    poisoned = omega arith;
  }

  returned_cases :
      (o : Outcome Queue ℕ)
      → ((k : ℕ) × (q : Pool Queue) × (o ≡ returned k q)) ⊎ ((q : Pool Queue) × (o ≡ threw q))
  returned_cases (returned k q) = inl (k, q, refl)
  returned_cases (threw q) = inr (q, refl)

  resize_blank :
      (first second next_id : ℕ) (q : Queue) (at : Stamp) {k : ℕ} {p : Pool Queue}
      → set_num_threads bq first at (blank bq second next_id q) ≡ returned k p
      → Inv bq (due 0 k p)
  resize_blank first second next_id q at returns =
      Step-Inv bq {s = record { pool = blank bq second next_id q; joins_due = 0 }}
        (resize first at returns) tt (blank-Inv second next_id q)

  Inv-min_threads :
      (m k : ℕ) (p : Pool Queue)
      → Inv bq (due 0 k p)
      → Inv bq (due 0 k (record p { min_threads = m }))
  Inv-min_threads m k p v = record {
    listed = v.listed;
    owed = v.owed;
    capped = v.capped;
    rising = v.rising;
    fresh = v.fresh;
    poisoned = v.poisoned;
  }

  floor_of : ℕ → Pool Queue → Pool Queue
  floor_of second p = if second == 0 then record p { min_threads = 1 } else p

  floor_of-Inv :
      (second k : ℕ) (p : Pool Queue) → Inv bq (due 0 k p) → Inv bq (due 0 k (floor_of second p))
  unfolding floor_of
  floor_of-Inv second k p v = elim (Bool-cases (second == 0)) [
    | inl dynamic ↦ rw dynamic (Inv-min_threads 1 k p v)
    | inr fixed ↦ rw fixed v
  ]

  -- A constructor that returns leaves a pool with the invariant and the maximum asked for, with a
  -- minimum of 1 where 0 was asked for, and has no thread to join.
  pub construct-Inv :
      (first second next_id : ℕ) (q : Queue) (at : Stamp) {k : ℕ} {p : Pool Queue}
      → construct bq first second next_id q at ≡ returned k p
      → Inv bq (due 0 k p)
        × (p.max_threads ≡ first)
        × (p.min_threads ≡ (if second == 0 then 1 else min first second))
        × (k ≡ 0)
  unfolding construct floor_of blank
  construct-Inv first second next_id q at {k} {p} e =
      elim (returned_cases (set_num_threads bq first at (blank bq second next_id q))) [
        | inl (j, r, returns) ↦
            let limits = set_num_threads-Limits bq first at (blank bq second next_id q) returns in
            let same_joins : k ≡ j = ground arith in
            let same_pool : p ≡ floor_of second r = ground arith in
            (
              rw (same_joins, same_pool)
                  (floor_of-Inv second j r (resize_blank first second next_id q at returns)),
              ground (arith, limits),
              ground (arith, limits),
              ground (arith, limits),
            )
        | inr (r, throws) ↦ absurd (ground arith)
      ]
