-- ===== src/TaskQueue/PriorityLifoSem/Laws.antt =====
-- A priority queue keeps every item, orders them by priority, and those of one priority by age.
use thread_pool_exec.Prelude.{
  ℕ, zero, suc, ◌≡◌, refl, ap, sym, ◌∙◌, none, some, List, [], ◌∷◌, ◌++◌, length, get_elem?, set, ℤ,
  arith, Option-cases, inl, inr, length-append, append_nil, append_assoc,
}
use thread_pool_exec.Priority.{queue_index}
use thread_pool_exec.TaskQueue.Bounded.{BoundedQueue}
use thread_pool_exec.TaskQueue.PriorityLifoSem.{
  num_priorities, add_with_priority, non_blocking_take, total_size,
}

module _ {T : Type 0} (mpmc : BoundedQueue T) where
  open mpmc use {
    Queue, items, make, write_if_not_full, read_if_not_empty, size, size-items, write-items,
    read-items, read_none,
  }

  -- The items in the order in which they will be taken.
  unfoldable pub all_items : List Queue → List T
  all_items [] = []
  all_items (q ∷ qs) = all_items qs ++ items q

  -- Those of the queues from the `i`-th on, and those of the queues before it.
  unfoldable pub items_from : ℕ → List Queue → List T
  unfolding all_items
  items_from zero qs = all_items qs
  items_from (suc i) [] = []
  items_from (suc i) (q ∷ qs) = items_from i qs

  unfoldable pub items_before : ℕ → List Queue → List T
  items_before zero qs = []
  items_before (suc i) [] = []
  items_before (suc i) (q ∷ qs) = items_before i qs ++ items q

  pub items_split : (i : ℕ) (qs : List Queue) → all_items qs ≡ items_from i qs ++ items_before i qs
  unfolding items_from items_before all_items
  items_split zero qs = sym (append_nil (all_items qs))
  items_split (suc i) [] = refl
  items_split (suc i) (q ∷ qs) =
      ap (λ (xs : List T). xs ++ items q) (items_split i qs)
      ∙ append_assoc (items_from i qs) (items_before i qs) (items q)

  items-set :
      (i : ℕ) (qs : List Queue) {q q' : Queue} (x : T)
      → get_elem? qs i ≡ some q
      → items q' ≡ items q ++ x ∷ []
      → all_items (set qs i q') ≡ items_from i qs ++ x ∷ items_before i qs
  unfolding items_from items_before all_items
  items-set i [] x at e = absurd (ground arith)
  items-set zero (p ∷ qs) {q} {q'} x at e =
      let same : p ≡ q = ground arith in
      ap (λ (xs : List T). all_items qs ++ xs)
        (e ∙ ap (λ (r : Queue). items r ++ x ∷ []) (sym same))
      ∙ sym (append_assoc (all_items qs) (items p) (x ∷ []))
  items-set (suc i) (p ∷ qs) {q} {q'} x at e =
      ap (λ (xs : List T). xs ++ items p) (items-set i qs x at e)
      ∙ append_assoc (items_from i qs) (x ∷ items_before i qs) (items p)

  -- An item that is added comes after every item of its own queue and of those above, and before
  -- every item of those below: nothing else moves.
  pub add_with_priority-all_items :
      (qs : List Queue) (x : T) (priority : ℤ) {qs' : List Queue}
      → add_with_priority mpmc qs x priority ≡ some qs'
      → let i = queue_index (num_priorities mpmc qs) priority in
        all_items qs' ≡ items_from i qs ++ x ∷ items_before i qs
  unfolding add_with_priority
  add_with_priority-all_items qs x priority {qs'} e =
      let i = queue_index (num_priorities mpmc qs) priority in
      elim (Option-cases (get_elem? qs i)) [
        | inl missing ↦ absurd (ground arith)
        | inr (q, at) ↦ elim (Option-cases (write_if_not_full q x)) [
          | inl full ↦ absurd (ground arith)
          | inr (q', written) ↦
              let result : qs' ≡ set qs i q' = ground arith in
              rw result (items-set i qs x at (write-items q x written))
        ]
      ]

  -- Only an empty queue gives nothing.
  pub non_blocking_take-none :
      (qs : List Queue) → non_blocking_take mpmc qs ≡ none → all_items qs ≡ []
  unfolding non_blocking_take all_items
  non_blocking_take-none [] e = refl
  non_blocking_take-none (q ∷ qs) e = elim (Option-cases (non_blocking_take mpmc qs)) [
    | inl nothing ↦ elim (Option-cases (read_if_not_empty q)) [
      | inl empty ↦ rw (non_blocking_take-none qs nothing) (read_none q empty)
      | inr ((y, q'), read) ↦ absurd (ground arith)
    ]
    | inr ((y, rest), taken) ↦ absurd (ground arith)
  ]

  -- Taking gives the first item in that order and leaves the others.
  pub non_blocking_take-all_items :
      (qs : List Queue) {x : T} {qs' : List Queue}
      → non_blocking_take mpmc qs ≡ some (x, qs')
      → (all_items qs ≡ x ∷ all_items qs') × (length qs' ≡ length qs)
  unfolding non_blocking_take all_items
  non_blocking_take-all_items [] e = absurd (ground arith)
  non_blocking_take-all_items (q ∷ qs) {x} {qs'} e =
      elim (Option-cases (non_blocking_take mpmc qs)) [
        | inl nothing ↦ elim (Option-cases (read_if_not_empty q)) [
          | inl empty ↦ absurd (ground arith)
          | inr ((y, q'), read) ↦
              let first : y ≡ x = ground arith in
              let left : qs' ≡ q' ∷ qs = ground arith in
              rw (left, non_blocking_take-none qs nothing, sym first) (read-items q read, refl)
        ]
        | inr ((y, rest), taken) ↦
            let first : y ≡ x = ground arith in
            let left : qs' ≡ q ∷ rest = ground arith in
            let (order, same) = non_blocking_take-all_items qs taken in
            rw (left, sym first) (ap (λ (xs : List T). xs ++ items q) order, ap suc same)
      ]

  pub total_size-all_items : (qs : List Queue) → total_size mpmc qs ≡ length (all_items qs)
  unfolding total_size all_items
  total_size-all_items [] = refl
  total_size-all_items (q ∷ qs) =
      omega (arith, total_size-all_items qs, size-items q, length-append (all_items qs) (items q))
