-- ===== src/TaskQueue/PriorityLifoSem/Threads/Moves.antt =====
-- What holds of the queues and of the threads that add and take, and that each move keeps it.
use thread_pool_exec.Prelude.{
  ℕ, zero, suc, ◌+◌, ◌-◌, ◌≤◌, ◌<◌, ◌≡◌, ◌⊎◌, ◌∙◌, arith, ap, some, List, [], ◌∷◌, length,
  length-append, length-set, get_elem?, set, ℤ, Option-cases, inl, inr, dec_lt,
}
use thread_pool_exec.Priority.{queue_index}
use thread_pool_exec.TaskQueue.Bounded.{BoundedQueue}
use thread_pool_exec.TaskQueue.Semaphore.{Semaphore}
use thread_pool_exec.TaskQueue.PriorityLifoSem.{num_priorities, add_with_priority}
use thread_pool_exec.TaskQueue.PriorityLifoSem.Threads.{Threads, less, more}
use thread_pool_exec.TaskQueue.PriorityLifoSem.Threads.Sums.{
  up_to, items_below, items_below-suc, items_below-set_above, items_below-set, up_to-less,
  up_to-less_later, up_to-more, up_to-more_later, up_to-suc, up_to-zero, items_below-zero,
}

pub get_elem?-lt :
    {A : Type 0} (xs : List A) (i : ℕ) {a : A} → get_elem? xs i ≡ some a → i < length xs
get_elem?-lt [] i e = absurd (ground arith)
get_elem?-lt (x ∷ xs) zero e = omega arith
get_elem?-lt (x ∷ xs) (suc i) e = omega (arith, get_elem?-lt xs i e)

module _ {T : Type 0} (mpmc : BoundedQueue T) (lifo : Semaphore) where
  open mpmc use {
    Queue, items, write_if_not_full, read_if_not_empty, read-items, read_none, write-items,
  }
  open lifo use {Sem, try_wait, value, value-initial, value-post, value-try_wait}

  -- An add is a write to one of the queues.
  pub record Added (qs qs' : List Queue) : Type 0 where
    index : ℕ
    old : Queue
    new : Queue
    held : get_elem? qs index ≡ some old
    longer : length (items new) ≡ length (items old) + 1
    result : qs' ≡ set qs index new

  pub add_with_priority-Added :
      (qs : List Queue) (x : T) (priority : ℤ) {qs' : List Queue}
      → add_with_priority mpmc qs x priority ≡ some qs'
      → Added qs qs'
  unfolding add_with_priority
  add_with_priority-Added qs x priority {qs'} e =
      let i = queue_index (num_priorities mpmc qs) priority in
      elim (Option-cases (get_elem? qs i)) [
        | inl missing ↦ absurd (ground arith)
        | inr (q, at) ↦ elim (Option-cases (write_if_not_full q x)) [
          | inl full ↦ absurd (ground arith)
          | inr (q', written) ↦ record {
            index = i;
            old = q;
            new = q';
            held = at;
            longer = omega (
              arith,
              ap (length {A = T}) (write-items q x written),
              length-append (items q) (x ∷ []),
            );
            result = ground arith;
          }
        ]
      ]

  -- The permits that were taken by the takes that have found nothing are no more than the tasks that
  -- were taken without one, `spare` fewer; and each woken take that has passed the queues from `k`
  -- on has a task of its own in the queues below.
  pub record Inv (n : ℕ) (w : Threads Queue Sem) : Type 0 where
    pub sized : length w.queues ≡ n
    pub spare : ℕ
    pub counted : value w.sem + w.posting + up_to n w.woken ≡ items_below mpmc n w.queues + spare
    pub covered : (k : ℕ) → k ≤ n → up_to k w.woken ≤ items_below mpmc k w.queues + spare

  -- A write or a read at one queue.
  pub below_after :
      (k j : ℕ) (qs : List Queue) {q : Queue} (q' : Queue) (up down : ℕ)
      → get_elem? qs j ≡ some q
      → length (items q') + down ≡ length (items q) + up
      → ((k ≤ j) × (items_below mpmc k (set qs j q') ≡ items_below mpmc k qs))
        ⊎ ((j < k) × (items_below mpmc k (set qs j q') + down ≡ items_below mpmc k qs + up))
  below_after k j qs q' up down at change = elim (dec_lt j k) [
    | yes below ↦ inr (below, omega (arith, items_below-set mpmc k j qs q' below at))
    | no above ↦ inl (omega arith, items_below-set_above mpmc k j qs q' (omega arith))
  ]

  pub add-Inv :
      (n : ℕ) (w : Threads Queue Sem) {qs : List Queue}
      → Inv n w
      → Added w.queues qs
      → Inv n (record w { queues = qs; posting = w.posting + 1 })
  add-Inv n w v a =
      let j = a.index in
      let inside = get_elem?-lt w.queues j (a.held) in
      rw (a.result) (record {
        sized = length-set w.queues j (a.new) ∙ v.sized;
        spare = v.spare;
        counted = omega (
          arith,
          v.counted,
          v.sized,
          items_below-set mpmc n j w.queues (a.new) (omega (arith, v.sized)) (a.held),
          a.longer,
        );
        covered = λ k within.
            elim (below_after k j w.queues (a.new) 1 0 (a.held) (omega (arith, a.longer))) [
              | inl (above, same) ↦ omega (arith, v.covered k within)
              | inr (below, one) ↦ omega (arith, v.covered k within)
            ];
      })

  pub reads-Inv :
      (n j m : ℕ) (w : Threads Queue Sem) {x : T} {q q' : Queue}
      → Inv n w
      → w.woken (suc j) ≡ suc m
      → get_elem? w.queues j ≡ some q
      → items q ≡ x ∷ items q'
      → Inv n (record w { queues = set w.queues j q'; woken = less w.woken (suc j) m })
  reads-Inv n j m w {x} {q} {q'} v there at read =
      let inside = get_elem?-lt w.queues j at in
      let shorter = ap (length {A = T}) read in
      record {
        sized = length-set w.queues j q' ∙ v.sized;
        spare = v.spare;
        counted = omega (
          arith,
          v.counted,
          v.sized,
          items_below-set mpmc n j w.queues q' (omega (arith, v.sized)) at,
          up_to-less n (suc j) w.woken there (omega (arith, v.sized)),
        );
        covered = λ k within. elim (below_after k j w.queues q' 0 1 at (omega arith)) [
          | inl (above, same) ↦
              omega (arith, v.covered k within, up_to-less_later k (suc j) w.woken m (omega arith))
          | inr (below, one) ↦
              omega (arith, v.covered k within, up_to-less k (suc j) w.woken there (omega arith))
        ];
      }

  pub passes-Inv :
      (n j m : ℕ) (w : Threads Queue Sem) {q : Queue}
      → Inv n w
      → w.woken (suc j) ≡ suc m
      → get_elem? w.queues j ≡ some q
      → items q ≡ []
      → Inv n (record w { woken = more (less w.woken (suc j) m) j })
  passes-Inv n j m w {q} v there at empty =
      let inside = get_elem?-lt w.queues j at in
      let nothing = ap (length {A = T}) empty in
      let left = less w.woken (suc j) m in
      record {
        sized = v.sized;
        spare = v.spare;
        counted = omega (
          arith,
          v.counted,
          v.sized,
          up_to-less n (suc j) w.woken there (omega (arith, v.sized)),
          up_to-more n j left (omega (arith, v.sized)),
        );
        covered = λ k within. elim (dec_lt k j) [
          | yes above ↦ omega (
            arith,
            v.covered k within,
            up_to-less_later k (suc j) w.woken m (omega arith),
            up_to-more_later k j left above,
          )
          | no below ↦ elim (dec_lt j k) [
            | yes beyond ↦ omega (
              arith,
              v.covered k within,
              up_to-less k (suc j) w.woken there (omega arith),
              up_to-more k j left (omega arith),
            )
            | no neither ↦
                let same : k ≡ j = omega arith in
                rw same (
                  omega (
                    arith,
                    nothing,
                    there,
                    v.covered (suc j) (omega (arith, v.sized)),
                    up_to-suc j w.woken,
                    items_below-suc mpmc j w.queues at,
                    up_to-less_later j (suc j) w.woken m (omega arith),
                    up_to-more j j left (omega arith),
                  ))
          ]
        ];
      }

  pub wakes-Inv :
      (n m : ℕ) (w : Threads Queue Sem) {sem : Sem}
      → Inv n w
      → try_wait w.sem ≡ some sem
      → Inv n (record w { sem = sem; waiting = m; woken = more w.woken (length w.queues) })
  wakes-Inv n m w {sem} v permit = record {
    sized = v.sized;
    spare = v.spare;
    counted = omega (
      arith,
      v.counted,
      v.sized,
      value-try_wait w.sem permit,
      up_to-more n (length w.queues) w.woken (omega (arith, v.sized)),
    );
    covered = λ k within. elim (dec_lt k n) [
      | yes before ↦ omega (
        arith,
        v.covered k within,
        up_to-more_later k (length w.queues) w.woken (omega (arith, v.sized)),
      )
      | no last ↦
          let same : k ≡ n = omega arith in
          rw same (
            omega (
              arith,
              v.counted,
              value-try_wait w.sem permit,
              up_to-more n (length w.queues) w.woken (omega (arith, v.sized)),
            ))
    ];
  }

  pub ends-Inv :
      (n m : ℕ) (w : Threads Queue Sem)
      → Inv n w
      → w.woken 0 ≡ suc m
      → Inv n (record w { woken = less w.woken 0 m; waiting = w.waiting + 1 })
  ends-Inv n m w v there = record {
    sized = v.sized;
    spare = v.spare - 1;
    counted = omega (arith, v.counted, paid, up_to-less n 0 w.woken there (omega arith));
    covered = λ k within.
        omega (arith, v.covered k within, paid, up_to-less k 0 w.woken there (omega arith));
  }
    where
      paid : 1 ≤ v.spare
      paid = omega (
        arith,
        there,
        v.covered 0 (omega arith),
        up_to-zero w.woken,
        items_below-zero mpmc w.queues,
      )
