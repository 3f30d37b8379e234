-- ===== src/Examples/Queues.antt =====
-- A priority queue of two lists, and a ring of two slots between a writer and a reader.
use thread_pool_exec.Prelude.{
  put, ℕ, ◌≤◌, ◌<◌, ◌≡◌, ◌⊎◌, refl, arith, true, false, none, some, List, [], ◌∷◌, ◌++◌, length,
  get_elem?, pos, negsuc,
}
use thread_pool_exec.Priority.{queue_index, to_size}
use thread_pool_exec.Priority.Order.{IsInt8}
use thread_pool_exec.TaskQueue.PriorityLifoSem.{
  add_with_priority, num_priorities, non_blocking_take, make_queues, out_of_fuel,
}
use thread_pool_exec.TaskQueue.PriorityLifoSem.Laws.{
  all_items, items_from, items_before, add_with_priority-all_items, non_blocking_take-all_items,
}
use thread_pool_exec.TaskQueue.PriorityLifoSem.Make.{make_queues_endless, add_with_priority_full}
use thread_pool_exec.Mpmc.Stride.{compute_stride, idx, turn}
use thread_pool_exec.Mpmc.Stride.Injective.{Fits}
use thread_pool_exec.Mpmc.Lifetime.Slots.{destroy_slot-IsQuiet}
use thread_pool_exec.Mpmc.Slot.{
  Slot, destroy_slot, nothing, object, waits, got, enqueue, may_enqueue, dequeue, may_dequeue,
}
use thread_pool_exec.Mpmc.Queue.{
  Mpmc, make, slot_of, store_slot, enqueue_with_ticket, dequeue_with_ticket,
}
use thread_pool_exec.Mpmc.Tickets.{World, Reach, draw_push, draw_pop, use_push, use_pop, here, next}
use thread_pool_exec.Mpmc.Tickets.Fifo.{start, dequeue_with_ticket-written}
use thread_pool_exec.Mpmc.Tickets.Ready.{enqueue_with_ticket-ready}
use thread_pool_exec.Mpmc.Tickets.Progress.{Able, waiting_pop}
use thread_pool_exec.Mpmc.Tickets.Quiet.{IsQuiet, pushed}
use thread_pool_exec.Examples.Fixtures.{bounded_list, counter}

abbrev qs : List (ℕ × List ℕ)
qs = (2, 1 ∷ []) ∷ (2, 2 ∷ 3 ∷ []) ∷ []

plus_1 : IsInt8 (pos 1)
plus_1 = record { above = omega arith; below = omega arith }

add_with_priority-all_items_example :
    all_items (bounded_list ℕ) ((2, 1 ∷ 7 ∷ []) ∷ (2, 2 ∷ 3 ∷ []) ∷ [])
    ≡ items_from (bounded_list ℕ) (queue_index (num_priorities (bounded_list ℕ) qs) (negsuc 4)) qs
      ++ 7
        ∷ items_before
            (bounded_list ℕ)
            (queue_index (num_priorities (bounded_list ℕ) qs) (negsuc 4))
            qs
unfolding add_with_priority num_priorities queue_index to_size
add_with_priority-all_items_example =
    add_with_priority-all_items (bounded_list ℕ) qs 7 (negsuc 4) refl

non_blocking_take-all_items_example :
    (all_items (bounded_list ℕ) qs
      ≡ 2 ∷ all_items (bounded_list ℕ) ((2, 1 ∷ []) ∷ (2, 3 ∷ []) ∷ []))
    × (◌≡◌ {A = ℕ} 2 2)
unfolding non_blocking_take
non_blocking_take-all_items_example =
    non_blocking_take-all_items (bounded_list ℕ) qs {x = 2} {qs' = (2, 1 ∷ []) ∷ (2, 3 ∷ []) ∷ []}
      refl

add_with_priority_full_example :
    (q : ℕ × List ℕ) × (get_elem? qs (queue_index 2 (pos 1)) ≡ some q) × (q.0 ≤ length (q.1))
unfolding add_with_priority num_priorities queue_index to_size
add_with_priority_full_example =
    add_with_priority_full (bounded_list ℕ) qs 7 (pos 1) (omega arith) (omega arith) plus_1 refl

make_queues_endless_example : make_queues (bounded_list ℕ) 1000 200 16 ≡ out_of_fuel
make_queues_endless_example =
    make_queues_endless (bounded_list ℕ) 200 16 1000 (omega arith) (omega arith)

fits : (t : ℕ) → t < 4 → Fits 2 t
fits t h = record { product = omega arith; turns = omega arith }

-- Two pushes and two pops draw tickets, and the first push is done.
abbrev ring : Mpmc (Slot ℕ ℕ)
ring = record {
  capacity = 2;
  stride = compute_stride 2;
  slots = λ _. record { sequencer = 0; contents = none };
  push_ticket = 0;
  pop_ticket = 0;
}

made : make counter 4 2 ≡ some ring
unfolding make
made = refl

abbrev drawn : World (Slot ℕ ℕ) ℕ
drawn = record {
  queue = record ring { push_ticket = 2; pop_ticket = 2 };
  pushing = put (put (λ _. none) 0 (some 70)) 1 (some 71);
  popping = put (put (λ _. false) 0 true) 1 true;
  written = put (put (λ _. none) 0 (some 70)) 1 (some 71);
  read = λ _. none;
}

draws : Reach counter 4 (start counter 4 ring) drawn
unfolding start
draws = next (next (next (next here (draw_push 70)) (draw_push 71)) draw_pop) draw_pop

enqueue_with_ticket-ready_example :
    (q' : Mpmc (Slot ℕ ℕ)) × (enqueue_with_ticket counter 4 0 70 drawn.queue ≡ some q')
unfolding start slot_of may_enqueue turn put
enqueue_with_ticket-ready_example =
    enqueue_with_ticket-ready counter 4 2 0 made here draws (fits 0 (omega arith)) refl refl

waiting_pop_example : (u : ℕ) × (u ≤ 1) × Able counter 4 drawn u
unfolding put
waiting_pop_example = waiting_pop counter 4 2 1 made draws (fits 1 (omega arith)) refl (omega arith)

abbrev placed : World (Slot ℕ ℕ) ℕ
placed = record drawn {
  queue = store_slot counter 4 0 (record { sequencer = 1; contents = some 70 }) (drawn.queue);
  pushing = put drawn.pushing 0 none;
}

places : Reach counter 4 (start counter 4 ring) placed
unfolding put enqueue_with_ticket enqueue may_enqueue slot_of turn
places = next draws (use_push 0 (fits 0 (omega arith)) refl refl)

dequeue_with_ticket-written_example :
    (dequeue_with_ticket counter 4 0 placed.queue ≡ waits)
    ⊎ ((x : ℕ) × (q : Mpmc (Slot ℕ ℕ)) × (dequeue_with_ticket counter 4 0 placed.queue ≡ got x q)
        × (placed.written 0 ≡ some x))
unfolding put store_slot
dequeue_with_ticket-written_example =
    dequeue_with_ticket-written counter 4 2 0 made places (fits 0 (omega arith)) refl

abbrev taken : World (Slot ℕ ℕ) ℕ
taken = record placed {
  queue = store_slot counter 4 0 (record { sequencer = 2; contents = none }) (placed.queue);
  popping = put placed.popping 0 false;
  read = put placed.read 0 (some 70);
}

takes : Reach counter 4 (start counter 4 ring) taken
unfolding put dequeue_with_ticket dequeue may_dequeue slot_of turn store_slot idx compute_stride
takes = next places (use_pop 0 (fits 0 (omega arith)) refl refl)

abbrev single : World (Slot ℕ ℕ) ℕ
single =
    pushed counter 4 70
      (store_slot counter 4 0 (record { sequencer = 1; contents = some 70 })
        (record ring { push_ticket = 1 }))
      (start counter 4 ring)

single-IsQuiet : IsQuiet counter 4 single
unfolding start put
single-IsQuiet = record { no_push = λ t. ground arith; no_pop = λ _. refl }

pushes : Reach counter 4 (start counter 4 ring) single
unfolding start put enqueue_with_ticket enqueue may_enqueue slot_of turn
pushes = next (next here (draw_push 70)) (use_push 0 (fits 0 (omega arith)) refl refl)

destroy_slot-IsQuiet_example :
    ((destroy_slot counter (single.queue.slots 4) ≡ nothing)
      × ((single.queue.slots 4).contents ≡ none))
    ⊎ ((t : ℕ) × (x : ℕ) × (destroy_slot counter (single.queue.slots 4) ≡ object x)
        × (single.written t ≡ some x)
        × (idx 4 t single.queue.capacity single.queue.stride ≡ 4)
        × (single.queue.pop_ticket ≤ t)
        × (t < single.queue.push_ticket))
destroy_slot-IsQuiet_example = destroy_slot-IsQuiet counter 4 2 4 made pushes single-IsQuiet
