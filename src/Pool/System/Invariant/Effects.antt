-- ===== src/Pool/System/Invariant/Effects.antt =====
-- What the parts of a step do to the thread list and to the queue.
use thread_pool_exec.Prelude.{
  ℕ, zero, suc, ◌+◌, ◌≤◌, ◌<◌, ◌≡◌, inl, inr, refl, true, List, [], ◌∷◌, length, arith,
  Option-cases, ℕ_discrete,
}
use thread_pool_exec.TaskQueue.{BlockingQueue, weigh}
use thread_pool_exec.Pool.Task.{Task, Thread, poison_task, taking}
use thread_pool_exec.Pool.ThreadList.{ThreadList, add, insert_at, lower_bound}
use thread_pool_exec.Pool.ThreadList.Laws.{
  IsRising, Has, In, In-Has, Removed, total, not-Has_of_rising,
}
use thread_pool_exec.Pool.ThreadList.Effects.{Added, add-Added}
use thread_pool_exec.Pool.State.{Stamp, make_threads, add_all, add_poison, lo_pri}
use thread_pool_exec.Pool.Worker.{update_thread}
use thread_pool_exec.Pool.System.Invariant.Defs.{is_poison, holds_poison, Below}

pub Below-mono : {m n : ℕ} (ts : List Thread) → m ≤ n → Below m ts → Below n ts
Below-mono [] h b = tt
Below-mono {m} {n} (t ∷ ts) h b = (omega arith, Below-mono {m = m} {n = n} ts h b.1)

not-Has_of_Below : (n k : ℕ) (ts : List Thread) → Below n ts → n ≤ k → ¬ Has k ts
not-Has_of_Below n k [] b h q = q
not-Has_of_Below n k (t ∷ ts) b h (inl e) = absurd (omega arith)
not-Has_of_Below n k (t ∷ ts) b h (inr q) = not-Has_of_Below n k ts b.1 h q

lt_of_In : (n : ℕ) (s : Thread) (ts : List Thread) → In s ts → Below n ts → s.id < n
lt_of_In n s [] h b = absurd h
lt_of_In n s (t ∷ ts) (inl e) b = ground arith
lt_of_In n s (t ∷ ts) (inr h) b = lt_of_In n s ts h b.1

Below-In :
    (n : ℕ) (ts us : List Thread) → Below n ts → ((s : Thread) → In s us → In s ts) → Below n us
Below-In n ts [] b sub = tt
Below-In n ts (u ∷ us) b sub =
    (lt_of_In n u ts (sub u (inl refl)) b, Below-In n ts us b (λ s h. sub s (inr h)))

pub Removed-Below :
    (n : ℕ) (l : ThreadList) (t : Thread) (cpu : ℕ) (l' : ThreadList)
    → Removed l t cpu l'
    → Below n l.vec
    → Below n l'.vec
Removed-Below n l t cpu l' removed b = Below-In n l.vec l'.vec b removed.kept

pub record Grown (l : ThreadList) (n first : ℕ) (l' : ThreadList) : Type 0 where
  pub more : length l'.vec ≡ length l.vec + n
  pub weighed : total holds_poison l'.vec ≡ total holds_poison l.vec
  pub rising : IsRising 0 l'.vec
  pub fresh : Below (first + n) l'.vec

Below-insert_at :
    (n : ℕ) (ts : List Thread) (i : ℕ) (t : Thread)
    → Below n ts
    → t.id < n
    → Below n (insert_at i t ts)
unfolding insert_at
Below-insert_at n ts zero t b h = (h, b)
Below-insert_at n [] (suc i) t b h = (h, tt)
Below-insert_at n (x ∷ ts) (suc i) t b h = (b.0, Below-insert_at n ts i t b.1 h)

Below-add : (n : ℕ) (l : ThreadList) (t : Thread) → Below n l.vec → t.id < n → Below n (add l t).vec
unfolding add
Below-add n l t b h = Below-insert_at n l.vec (lower_bound l.vec t.id) t b h

new_thread : ℕ → ℕ → Thread
new_thread first now = record { id = first; idle = true; last_active_time = now; place = taking }

new_thread-Added :
    (first now : ℕ) (l : ThreadList) → Below first l.vec → Added l (new_thread first now)
unfolding new_thread
new_thread-Added first now l b =
    add-Added l (new_thread first now) (not-Has_of_Below first first l.vec b (omega arith))

-- The new threads of `addThreads` join the list in order, at its end, and hold no poison.
pub add_all-Grown :
    (n first now : ℕ) (l : ThreadList)
    → IsRising 0 l.vec
    → Below first l.vec
    → Grown l n first (add_all l (make_threads n first now))
unfolding add_all make_threads new_thread
add_all-Grown zero first now l r b = record {
  more = omega arith;
  weighed = refl;
  rising = r;
  fresh = Below-mono {m = first} {n = first + 0} l.vec (omega arith) b;
}
add_all-Grown (suc n) first now l r b =
    let added = new_thread-Added first now l b in
    let rest =
      add_all-Grown n (suc first) now (add l (new_thread first now))
        (added.rising 0 (omega arith) r)
        (Below-add (suc first) l (new_thread first now)
          (Below-mono {m = first} {n = suc first} l.vec (omega arith) b) (omega arith)) in
    record {
      more = omega (arith, added.more, rest.more);
      weighed = omega (arith, added.weighed holds_poison, rest.weighed);
      rising = rest.rising;
      fresh = Below-mono {m = suc first + n} {n = first + suc n} _ (omega arith) rest.fresh;
    }

pub record Updated (t : Thread) (ts : List Thread) (t' : Thread) : Type 0 where
  pub same_length : length (update_thread t' ts) ≡ length ts
  pub weighed : (w : Thread → ℕ) → total w (update_thread t' ts) + w t ≡ total w ts + w t'
  pub rising : (n : ℕ) → IsRising n ts → IsRising n (update_thread t' ts)
  pub fresh : (n : ℕ) → Below n ts → Below n (update_thread t' ts)

module _ (t t' : Thread) (same : t'.id ≡ t.id) where
  length-update_thread : (ts : List Thread) → length (update_thread t' ts) ≡ length ts
  unfolding update_thread
  length-update_thread [] = refl
  length-update_thread (x ∷ ts) = ground (arith, length-update_thread ts)

  total-update_thread :
      (w : Thread → ℕ) (n : ℕ) (ts : List Thread)
      → IsRising n ts
      → In t ts
      → total w (update_thread t' ts) + w t ≡ total w ts + w t'
  unfolding update_thread total
  total-update_thread w n [] r h = absurd h
  total-update_thread w n (x ∷ ts) r (inl e) = ground arith
  total-update_thread w n (x ∷ ts) r (inr h) = elim (ℕ_discrete x.id t'.id) [
    | yes e ↦ absurd (not-Has_of_rising (suc x.id) t.id ts r.1 (omega arith) (In-Has t ts h))
    | no ne ↦ ground (arith, total-update_thread w (suc x.id) ts r.1 h)
  ]

  IsRising-update_thread :
      (n : ℕ) (ts : List Thread) → IsRising n ts → IsRising n (update_thread t' ts)
  unfolding update_thread
  IsRising-update_thread n [] r = r
  IsRising-update_thread n (x ∷ ts) r = ground (arith, IsRising-update_thread (suc x.id) ts r.1)

  Below-update_thread : (n : ℕ) (ts : List Thread) → Below n ts → Below n (update_thread t' ts)
  unfolding update_thread
  Below-update_thread n [] b = b
  Below-update_thread n (x ∷ ts) b = ground (arith, Below-update_thread n ts b.1)

  pub update_thread-Updated : (ts : List Thread) → IsRising 0 ts → In t ts → Updated t ts t'
  update_thread-Updated ts r h = record {
    same_length = length-update_thread ts;
    weighed = λ w. total-update_thread w 0 ts r h;
    rising = λ n. IsRising-update_thread n ts;
    fresh = λ n. Below-update_thread n ts;
  }

poison_task_weight : (at : Stamp) → is_poison (poison_task at.now at.context) ≡ 1
unfolding poison_task
poison_task_weight at = refl

module _ (bq : BlockingQueue Task) where
  open bq use {Queue, items, add_with_priority, weigh-add}

  -- When no `addWithPriority` throws, `stopThreads` adds its poison, whole.
  pub add_poison-weigh :
      (n : ℕ) (at : Stamp) (q : Queue)
      → (add_poison bq n at q).1 ≡ true
      → weigh is_poison (items (add_poison bq n at q).0) ≡ weigh is_poison (items q) + n
  unfolding add_poison
  add_poison-weigh zero at q e = omega arith
  add_poison-weigh (suc n) at q e =
      elim (Option-cases (add_with_priority q (poison_task at.now at.context) lo_pri)) [
        | inl full ↦ absurd (ground arith)
        | inr (q', added) ↦
            rw (added, add_poison)
              (omega (
                arith,
                add_poison-weigh n at q' (ground arith),
                weigh-add is_poison q _ lo_pri added,
                poison_task_weight at,
              ))
      ]
