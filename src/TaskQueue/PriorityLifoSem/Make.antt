-- ===== src/TaskQueue/PriorityLifoSem/Make.antt =====
-- The constructor of a priority queue, whose counter is an `int8_t`, and when its CHECKs hold.
use thread_pool_exec.Prelude.{
  ℕ, ◌%◌, append_nil, append_assoc, zero, suc, ◌+◌, ◌≤◌, ◌<◌, ◌≡◌, ◌≢◌, refl, sym, ap, ◌∙◌, none,
  some, List, [], ◌∷◌, ◌++◌, length, ltb, ◌⊎◌, get_elem?, replicate, ℤ, pos, negsuc, ltb_ℤ, ◌+ℤ◌,
  arith, Option-cases, inl, inr, true, false,
}
use native.Mathlib.Nat.{mod-eq_of_lt}
use thread_pool_exec.Priority.{to_int8, queue_index}
use thread_pool_exec.Priority.Order.{IsInt8, queue_index_bound}
use thread_pool_exec.TaskQueue.Bounded.{BoundedQueue}
use thread_pool_exec.TaskQueue.PriorityLifoSem.{
  built, refused, out_of_fuel, make_queue, make_queues_loop, make_queues, make_each,
  make_queues_with, num_priorities, add_with_priority,
}

next_int8 : (i : ℕ) → i < 127 → to_int8 (pos i +ℤ pos 1) ≡ pos (suc i)
unfolding to_int8 ◌+ℤ◌
next_int8 i h = ground arith

to_int8-IsInt8 : (z : ℤ) → IsInt8 (to_int8 z)
unfolding to_int8
to_int8-IsInt8 (pos n) = record { above = ground arith; below = ground arith }
to_int8-IsInt8 (negsuc n) = record { above = ground arith; below = ground arith }

module _ {T : Type 0} (mpmc : BoundedQueue T) where
  open mpmc use {Queue, items, capacity, make, write_if_not_full, write_none}

  make_queue_lem : (n : ℕ) → 0 < n → make_queue mpmc n ≡ some (make n)
  unfolding make_queue
  make_queue_lem n positive = ground arith

  make_queues_loop-from :
      (k i n max_capacity fuel : ℕ) (queues : List Queue)
      → 0 < max_capacity
      → i + k ≡ n
      → n < 128
      → k < fuel
      → make_queues_loop mpmc fuel (pos i) n max_capacity queues
        ≡ built (queues ++ replicate k (make max_capacity))
  unfolding make_queues_loop
  make_queues_loop-from k i n max_capacity zero queues positive at small enough =
      absurd (omega arith)
  make_queues_loop-from zero i n max_capacity (suc fuel) queues positive at small enough =
      let over : ltb_ℤ (pos i) (pos n) ≡ false = ground arith in
      rw over (ap built (sym (append_nil queues)))
  make_queues_loop-from (suc k) i n max_capacity (suc fuel) queues positive at small enough =
      let goes_on : ltb_ℤ (pos i) (pos n) ≡ true = ground arith in
      rw (goes_on, make_queue_lem max_capacity positive, next_int8 i (omega arith))
        (make_queues_loop-from k (suc i) n max_capacity fuel (queues ++ make max_capacity ∷ [])
            positive (omega arith) small (omega arith)
          ∙ ap built
              (append_assoc queues (make max_capacity ∷ []) (replicate k (make max_capacity))))

  -- The constructor makes as many queues as it is asked for, from 1 to 127, of a capacity above 0.
  make_queues_lem :
      (n max_capacity fuel : ℕ)
      → 0 < n
      → n < 128
      → 0 < max_capacity
      → n < fuel
      → make_queues mpmc fuel n max_capacity ≡ built (replicate n (make max_capacity))
  unfolding make_queues
  make_queues_lem n max_capacity fuel some_queue small positive enough =
      let goes_on : ltb 0 n ≡ true = ground arith in
      rw goes_on
        (make_queues_loop-from n 0 n max_capacity fuel [] positive (omega arith) small enough)

  -- It is refused for no priority, and for a capacity of 0.
  make_queues_refused :
      (n max_capacity fuel : ℕ)
      → (n ≡ 0) ⊎ (max_capacity ≡ 0)
      → make_queues mpmc (suc fuel) n max_capacity ≡ refused
  unfolding make_queues make_queues_loop make_queue
  make_queues_refused n max_capacity fuel why = ground arith

  make_queues_loop-endless :
      (fuel n max_capacity : ℕ) (i : ℤ) (queues : List Queue)
      → 127 < n
      → 0 < max_capacity
      → IsInt8 i
      → make_queues_loop mpmc fuel i n max_capacity queues ≡ out_of_fuel
  unfolding make_queues_loop
  make_queues_loop-endless zero n max_capacity i queues many positive fits = refl
  make_queues_loop-endless (suc fuel) n max_capacity i queues many positive fits =
      let goes_on : ltb_ℤ i (pos n) ≡ true = ground arith in
      rw (goes_on, make_queue_lem max_capacity positive)
        (make_queues_loop-endless fuel n max_capacity (to_int8 (i +ℤ pos 1))
          (queues ++ make max_capacity ∷ []) many positive (to_int8-IsInt8 (i +ℤ pos 1)))

  -- For 128 priorities or more, and a capacity above 0, the constructor's loop never ends: its
  -- counter cannot pass 127, so no fuel is enough.
  pub make_queues_endless :
      (n max_capacity fuel : ℕ)
      → 127 < n
      → 0 < max_capacity
      → make_queues mpmc fuel n max_capacity ≡ out_of_fuel
  unfolding make_queues
  make_queues_endless n max_capacity fuel many positive =
      let goes_on : ltb 0 n ≡ true = ground arith in
      rw goes_on (
        make_queues_loop-endless fuel n max_capacity (pos 0) [] many positive
          (record { above = omega arith; below = omega arith }))

  get_elem?-inside : (qs : List Queue) (i : ℕ) → i < length qs → get_elem? qs i ≢ none
  get_elem?-inside [] i h = absurd (omega arith)
  get_elem?-inside (q ∷ qs) zero h = ground arith
  get_elem?-inside (q ∷ qs) (suc i) h = get_elem?-inside qs i (omega arith)

  -- With 1 to 255 queues the CHECK of `addWithPriority` passes for every priority: an item is
  -- refused only where the queue of its priority is full.
  pub add_with_priority_full :
      (qs : List Queue) (x : T) (priority : ℤ)
      → 0 < length qs
      → length qs < 256
      → IsInt8 priority
      → add_with_priority mpmc qs x priority ≡ none
      → (q : Queue) × (get_elem? qs (queue_index (length qs) priority) ≡ some q)
        × (capacity q ≤ length (items q))
  unfolding add_with_priority num_priorities
  add_with_priority_full qs x priority some_queue few fits e =
      let count : length qs % 256 ≡ length qs = mod-eq_of_lt few in
      let inside = queue_index_bound (length qs) priority some_queue few fits in
      elim (Option-cases (get_elem? qs (queue_index (length qs) priority))) [
        | inl missing ↦
            absurd (get_elem?-inside qs (queue_index (length qs) priority) inside missing)
        | inr (q, at) ↦ elim (Option-cases (write_if_not_full q x)) [
          | inl full ↦ (q, at, write_none q x full)
          | inr (q', written) ↦
              let here : get_elem? qs (queue_index (length qs % 256) priority) ≡ some q =
                rw count at in
              absurd (ground arith)
        ]
      ]

  length-make_each :
      (capacities : List ℕ) {qs : List Queue}
      → make_each mpmc capacities ≡ some qs
      → length qs ≡ length capacities
  unfolding make_each
  length-make_each [] e = ground arith
  length-make_each (n ∷ capacities) {qs} e = elim (Option-cases (make_queue mpmc n)) [
    | inl refuses ↦ absurd (ground arith)
    | inr (q, makes) ↦ elim (Option-cases (make_each mpmc capacities)) [
      | inl refuses ↦ absurd (ground arith)
      | inr (rest, makes_rest) ↦
          let same : qs ≡ q ∷ rest = ground arith in
          rw same (ap suc (length-make_each capacities makes_rest))
    ]
  ]

  -- The other constructor makes as many queues as it is given capacities, from 1 to 255, and their
  -- number fits `getNumPriorities`; else it is refused.
  make_queues_with_lem :
      (capacities : List ℕ) {qs : List Queue}
      → make_queues_with mpmc capacities ≡ some qs
      → (1 ≤ length capacities)
        × (length capacities ≤ 255)
        × (num_priorities mpmc qs ≡ length capacities)
  unfolding make_queues_with num_priorities
  make_queues_with_lem capacities {qs} makes =
      let few : (1 ≤ length capacities) × (length capacities ≤ 255) =
        (ground (arith, makes), ground (arith, makes)) in
      let each : make_each mpmc capacities ≡ some qs = ground (arith, makes) in
      (few.0, few.1, omega (arith, length-make_each capacities each, few.0, few.1))
