-- ===== src/Mpmc/Lifetime/Slots.antt =====
-- The destructor of the slots of a queue of ThreadPool/MPMCQueue.h destroys the values that were
-- pushed and not popped.
use thread_pool_exec.Prelude.{
  put-same, put-other, ℕ, ◌+◌, ◌*◌, ◌/◌, ◌%◌, ◌≤◌, ◌<◌, ◌≡◌, ◌⊎◌, none, some, refl, sym, ap, ◌∙◌,
  arith, inl, inr, ℕ_discrete,
}
use thread_pool_exec.Mpmc.Stride.{compute_stride, idx}
use thread_pool_exec.Mpmc.Stride.Injective.{Fits}
use thread_pool_exec.Mpmc.Slot.{TurnSequencer, Slot, nothing, object, destroy_slot}
use thread_pool_exec.Mpmc.Queue.{Mpmc, make, slot_of, store_slot}
use thread_pool_exec.Mpmc.Tickets.{
  World, Step, draw_push, draw_pop, use_push, use_pop, Reach, here, next,
}
use thread_pool_exec.Mpmc.Tickets.Using.{enqueue_with_ticket-Enqueued, dequeue_with_ticket-Received}
use thread_pool_exec.Mpmc.Tickets.Invariant.{Inv}
use thread_pool_exec.Mpmc.Tickets.Fifo.{start, Reach-Inv}
use thread_pool_exec.Mpmc.Tickets.Quiet.{IsQuiet}

module _ (seq : TurnSequencer) {T : Type 0} (padding : ℕ) where
  open seq use {Sequencer, now, now-initial, uncompleted_turn_lsb, uncompleted_turn_lsb_lem}

  -- A slot that no ticket has used, or the ticket that has used it last, for a push or for a pop.
  data Marked (q : Mpmc (Slot Sequencer T)) (j : ℕ) : Type 0 where
    unused : now (q.slots j).sequencer ≡ 0 → (q.slots j).contents ≡ none → Marked q j
    pushed :
        (t : ℕ) (x : T)
        → Fits q.capacity t
        → idx padding t q.capacity q.stride ≡ j
        → now (q.slots j).sequencer ≡ 2 * (t / q.capacity) + 1
        → (q.slots j).contents ≡ some x
        → Marked q j
    popped :
        (t : ℕ)
        → Fits q.capacity t
        → idx padding t q.capacity q.stride ≡ j
        → now (q.slots j).sequencer ≡ 2 * (t / q.capacity) + 2
        → (q.slots j).contents ≡ none
        → Marked q j

  stored-Marked :
      (q : Mpmc (Slot Sequencer T)) (t : ℕ) (s : Slot Sequencer T)
      → ((j : ℕ) → Marked q j)
      → Marked (store_slot seq padding t s q) (idx padding t q.capacity q.stride)
      → (j : ℕ) → Marked (store_slot seq padding t s q) j
  unfolding store_slot
  stored-Marked q t s v new j = elim (ℕ_discrete j (idx padding t q.capacity q.stride)) [
    | yes e ↦ rw e new
    | no e ↦
        let same = put-other q.slots (idx padding t q.capacity q.stride) j s e in
        elim (v j) [
          | unused at empty ↦ unused (rw same at) (rw same empty)
          | pushed u x fits is at full ↦ pushed u x fits is (rw same at) (rw same full)
          | popped u fits is at empty ↦ popped u fits is (rw same at) (rw same empty)
        ]
  ]

  Step-Marked :
      {w w' : World (Slot Sequencer T) T}
      → Step seq padding w w'
      → Inv seq padding w
      → ((j : ℕ) → Marked w.queue j)
      → (j : ℕ) → Marked w'.queue j
  unfolding store_slot
  Step-Marked {w} (draw_push x) inv v j = elim (v j) [
    | unused at empty ↦ unused at empty
    | pushed u y fits is at full ↦ pushed u y fits is at full
    | popped u fits is at empty ↦ popped u fits is at empty
  ]
  Step-Marked {w} draw_pop inv v j = elim (v j) [
    | unused at empty ↦ unused at empty
    | pushed u y fits is at full ↦ pushed u y fits is at full
    | popped u fits is at empty ↦ popped u fits is at empty
  ]
  Step-Marked {w} (use_push t {x} {q} ft holds done) inv v j =
      let e =
        enqueue_with_ticket-Enqueued seq padding t x w.queue ft (inv.tickets t ft).small done in
      let s : Slot Sequencer T = record { sequencer = e.seq'; contents = some x } in
      let i = idx padding t w.queue.capacity w.queue.stride in
      let here_ = put-same w.queue.slots i s in
      rw (e.result) (
        stored-Marked w.queue t s v
          (pushed t x ft refl (rw here_ (omega (arith, e.after, e.before))) (rw here_ refl)) j)
  Step-Marked {w} (use_pop t {x} {q} ft holds done) inv v j =
      let e = dequeue_with_ticket-Received seq padding t w.queue ft (inv.tickets t ft).small done in
      let s : Slot Sequencer T = record { sequencer = e.seq'; contents = none } in
      let i = idx padding t w.queue.capacity w.queue.stride in
      let here_ = put-same w.queue.slots i s in
      rw (e.result) (
        stored-Marked w.queue t s v
          (popped t ft refl (rw here_ (omega (arith, e.after, e.before))) (rw here_ refl)) j)

  make-Marked :
      (capacity : ℕ) {q : Mpmc (Slot Sequencer T)}
      → make seq padding capacity ≡ some q
      → (j : ℕ) → Marked q j
  unfolding make
  make-Marked capacity {q} e j =
      let fresh : q ≡ record {
        capacity = capacity;
        stride = compute_stride capacity;
        slots = λ _. record { sequencer = seq.initial; contents = none };
        push_ticket = 0;
        pop_ticket = 0;
      } =
        ground arith in
      rw fresh (unused now-initial refl)

  Reach-Marked :
      (capacity : ℕ) {q : Mpmc (Slot Sequencer T)} {w : World (Slot Sequencer T) T}
      → make seq padding capacity ≡ some q
      → Reach seq padding (start seq padding q) w
      → (j : ℕ) → Marked w.queue j
  unfolding start
  Reach-Marked capacity e here = make-Marked capacity e
  Reach-Marked capacity e (next r st) =
      Step-Marked st (Reach-Inv seq padding capacity e r) (Reach-Marked capacity e r)

  destroys_object :
      (s : Slot Sequencer T) (k : ℕ) {x : T}
      → now s.sequencer ≡ 2 * k + 1
      → s.contents ≡ some x
      → destroy_slot seq s ≡ object x
  unfolding destroy_slot
  destroys_object s k at full =
      let bit : uncompleted_turn_lsb s.sequencer % 2 ≡ 1 =
        omega (arith, uncompleted_turn_lsb_lem s.sequencer, at) in
      ground (arith, bit, full)

  destroys_nothing :
      (s : Slot Sequencer T) (k : ℕ) → now s.sequencer ≡ 2 * k → destroy_slot seq s ≡ nothing
  unfolding destroy_slot
  destroys_nothing s k at =
      let bit : uncompleted_turn_lsb s.sequencer % 2 ≡ 0 =
        omega (arith, uncompleted_turn_lsb_lem s.sequencer, at) in
      ground (arith, bit)

  -- Once no call is under way, the destructor of a slot does nothing where the slot is empty, and
  -- else destroys the value that was pushed with a ticket which belongs to the slot and has not been
  -- popped: no value is leaked, and no storage without an object is destroyed.
  pub destroy_slot-IsQuiet :
      (capacity j : ℕ) {q : Mpmc (Slot Sequencer T)} {w : World (Slot Sequencer T) T}
      → make seq padding capacity ≡ some q
      → Reach seq padding (start seq padding q) w
      → IsQuiet seq padding w
      → ((destroy_slot seq (w.queue.slots j) ≡ nothing) × ((w.queue.slots j).contents ≡ none))
        ⊎ ((t : ℕ) × (x : T) × (destroy_slot seq (w.queue.slots j) ≡ object x)
            × (w.written t ≡ some x)
            × (idx padding t w.queue.capacity w.queue.stride ≡ j)
            × (w.queue.pop_ticket ≤ t)
            × (t < w.queue.push_ticket))
  unfolding slot_of
  destroy_slot-IsQuiet capacity j {q} {w} e r quiet =
      let s = w.queue.slots j in
      elim (Reach-Marked capacity e r j) [
        | unused at empty ↦ inl (destroys_nothing s 0 (omega (arith, at)), empty)
        | popped t fits is at empty ↦
            inl (destroys_nothing s (t / w.queue.capacity + 1) (omega (arith, at)), empty)
        | pushed t x fits is at full ↦
            let v = (Reach-Inv seq padding capacity e r).tickets t fits in
            let its : slot_of seq padding t w.queue ≡ s = ap w.queue.slots is in
            let turns : now (slot_of seq padding t w.queue).sequencer
                ≡ 2 * (t / w.queue.capacity) + 1 =
              ap (λ (u : Slot Sequencer T). now u.sequencer) its ∙ at in
            inr (
              t,
              x,
              destroys_object s (t / w.queue.capacity) at full,
              sym (v.full turns) ∙ ap (λ (u : Slot Sequencer T). u.contents) its ∙ full,
              is,
              ground (arith, v.done, quiet.no_pop t, turns),
              ground (arith, v.unborn, turns),
            )
      ]
