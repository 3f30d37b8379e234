-- ===== src/Mpmc/Tickets/Quiet.antt =====
-- A call of the queue that no other call overlaps.
use thread_pool_exec.Prelude.{
  put, ℕ, ◌+◌, ◌≤◌, ◌<◌, ◌≡◌, ◌⊎◌, true, false, none, some, refl, subst, arith, Bool-cases, inl,
  inr, ℕ_discrete, leb,
}
use thread_pool_exec.Mpmc.Stride.Injective.{Fits}
use thread_pool_exec.Mpmc.Slot.{TurnSequencer, Slot, got}
use thread_pool_exec.Mpmc.Queue.{
  Mpmc, refused, done, make, enqueue_with_ticket, dequeue_with_ticket, write_if_not_full,
  read_if_not_empty, try_obtain_promised_push_ticket, try_obtain_promised_pop_ticket,
}
use thread_pool_exec.Mpmc.Tickets.{World, Reach, draw_push, draw_pop, use_push, use_pop, next}
use thread_pool_exec.Mpmc.Tickets.Fifo.{start, got_written}
use thread_pool_exec.Mpmc.Tickets.Progress.{Able, can_push, can_pop, waiting_pop, waiting_push}

module _ (seq : TurnSequencer) {T : Type 0} (padding : ℕ) where
  open seq use {Sequencer}

  write_goes :
      (x : T) (q : Mpmc (Slot Sequencer T)) {q' : Mpmc (Slot Sequencer T)}
      → leb (q.pop_ticket + q.capacity) q.push_ticket ≡ false
      → enqueue_with_ticket seq padding q.push_ticket x
          (record q { push_ticket = q.push_ticket + 1 })
        ≡ some q'
      → write_if_not_full seq padding x q ≡ done q'
  unfolding write_if_not_full try_obtain_promised_push_ticket
  write_goes x q room goes = ground arith

  read_goes :
      (q : Mpmc (Slot Sequencer T)) {x : T} {q' : Mpmc (Slot Sequencer T)}
      → leb q.push_ticket q.pop_ticket ≡ false
      → dequeue_with_ticket seq padding q.pop_ticket (record q { pop_ticket = q.pop_ticket + 1 })
        ≡ got x q'
      → read_if_not_empty seq padding q ≡ done (got x q')
  unfolding read_if_not_empty try_obtain_promised_pop_ticket
  read_goes q some_item goes = ground arith

  -- Every ticket that was drawn has been used.
  pub record IsQuiet (w : World (Slot Sequencer T) T) : Type 0 where
    pub no_push : (t : ℕ) → w.pushing t ≡ none
    pub no_pop : (t : ℕ) → w.popping t ≡ false

  abbrev drawn_push : T → World (Slot Sequencer T) T → World (Slot Sequencer T) T
  drawn_push x w = record w {
    queue = record (w.queue) { push_ticket = w.queue.push_ticket + 1 };
    pushing = put w.pushing w.queue.push_ticket (some x);
    written = put w.written w.queue.push_ticket (some x);
  }

  only_push :
      (x : T) (w : World (Slot Sequencer T) T) {u : ℕ}
      → IsQuiet w
      → Able seq padding (drawn_push x w) u
      → (q : Mpmc (Slot Sequencer T)) × (enqueue_with_ticket seq padding w.queue.push_ticket x
            (drawn_push x w).queue
          ≡ some q)
  unfolding put
  only_push x w {u} quiet (can_push y q holds goes) = elim (ℕ_discrete u w.queue.push_ticket) [
    | yes same ↦
        let value : y ≡ x = ground arith in
        (
          q,
          subst (λ (t : ℕ). enqueue_with_ticket seq padding t x (drawn_push x w).queue ≡ some q)
              same
              (subst
                (λ (v : T). enqueue_with_ticket seq padding u v (drawn_push x w).queue ≡ some q)
                value goes),
        )
    | no other ↦ absurd (ground (arith, quiet.no_push u))
  ]
  only_push x w {u} quiet (can_pop y q pops goes) = absurd (ground (arith, quiet.no_pop u))

  -- The world after a push from start to end.
  abbrev pub pushed :
      T → Mpmc (Slot Sequencer T) → World (Slot Sequencer T) T → World (Slot Sequencer T) T
  pushed x q w = record (drawn_push x w) {
    queue = q;
    pushing = put ((drawn_push x w).pushing) w.queue.push_ticket none;
  }

  pushed-IsQuiet :
      (x : T) (q : Mpmc (Slot Sequencer T)) (w : World (Slot Sequencer T) T)
      → IsQuiet w
      → IsQuiet (pushed x q w)
  unfolding put
  pushed-IsQuiet x q w quiet = record {
    no_push = λ t. ground (arith, quiet.no_push t);
    no_pop = quiet.no_pop;
  }

  -- While no other call is under way, `writeIfNotFull` never waits: it fails where as many items as
  -- the capacity are in the queue, and else places its value and leaves no ticket unused.
  pub write_if_not_full-IsQuiet :
      (capacity : ℕ) (x : T) {q : Mpmc (Slot Sequencer T)} {w : World (Slot Sequencer T) T}
      → make seq padding capacity ≡ some q
      → Reach seq padding (start seq padding q) w
      → IsQuiet w
      → Fits w.queue.capacity w.queue.push_ticket
      → ((w.queue.pop_ticket + w.queue.capacity ≤ w.queue.push_ticket)
          × (write_if_not_full seq padding x w.queue ≡ refused))
        ⊎ ((w.queue.push_ticket < w.queue.pop_ticket + w.queue.capacity)
            × (q' : Mpmc (Slot Sequencer T)) × (write_if_not_full seq padding x w.queue ≡ done q')
            × Reach seq padding (start seq padding q) (pushed x q' w)
            × IsQuiet (pushed x q' w))
  unfolding write_if_not_full try_obtain_promised_push_ticket put
  write_if_not_full-IsQuiet capacity x {q} {w} e r quiet ft =
      elim (Bool-cases (leb (w.queue.pop_ticket + w.queue.capacity) w.queue.push_ticket)) [
        | inl full ↦ inl (ground arith, rw full refl)
        | inr room ↦
            let drawn = next r (draw_push x) in
            let (u, le, able) =
              waiting_push seq padding capacity w.queue.push_ticket x e drawn ft (ground arith)
                (ground arith) in
            let (q', goes) = only_push x w quiet able in
            inr (
              ground arith,
              q',
              write_goes x w.queue room goes,
              next drawn (use_push w.queue.push_ticket ft (ground arith) goes),
              pushed-IsQuiet x q' w quiet,
            )
      ]

  abbrev drawn_pop : World (Slot Sequencer T) T → World (Slot Sequencer T) T
  drawn_pop w = record w {
    queue = record (w.queue) { pop_ticket = w.queue.pop_ticket + 1 };
    popping = put w.popping w.queue.pop_ticket true;
  }

  only_pop :
      (w : World (Slot Sequencer T) T) {u : ℕ}
      → IsQuiet w
      → Able seq padding (drawn_pop w) u
      → (x : T) × (q : Mpmc (Slot Sequencer T)) × (dequeue_with_ticket seq padding
            w.queue.pop_ticket
            (drawn_pop w).queue
          ≡ got x q)
  unfolding put
  only_pop w {u} quiet (can_push y q holds goes) = absurd (ground (arith, quiet.no_push u))
  only_pop w {u} quiet (can_pop y q pops goes) = elim (ℕ_discrete u w.queue.pop_ticket) [
    | yes same ↦ (
      y,
      q,
      subst (λ (t : ℕ). dequeue_with_ticket seq padding t (drawn_pop w).queue ≡ got y q) same goes,
    )
    | no other ↦ absurd (ground (arith, quiet.no_pop u))
  ]

  -- The world after a pop from start to end.
  abbrev pub popped :
      T → Mpmc (Slot Sequencer T) → World (Slot Sequencer T) T → World (Slot Sequencer T) T
  popped x q w = record (drawn_pop w) {
    queue = q;
    popping = put ((drawn_pop w).popping) w.queue.pop_ticket false;
    read = put w.read w.queue.pop_ticket (some x);
  }

  popped-IsQuiet :
      (x : T) (q : Mpmc (Slot Sequencer T)) (w : World (Slot Sequencer T) T)
      → IsQuiet w
      → IsQuiet (popped x q w)
  unfolding put
  popped-IsQuiet x q w quiet = record {
    no_push = quiet.no_push;
    no_pop = λ t. ground (arith, quiet.no_pop t);
  }

  -- While no other call is under way, `readIfNotEmpty` never waits: it fails where no item is in the
  -- queue, and else gives the value that was pushed earliest of those not yet popped.
  pub read_if_not_empty-IsQuiet :
      (capacity : ℕ) {q : Mpmc (Slot Sequencer T)} {w : World (Slot Sequencer T) T}
      → make seq padding capacity ≡ some q
      → Reach seq padding (start seq padding q) w
      → IsQuiet w
      → Fits w.queue.capacity w.queue.pop_ticket
      → ((w.queue.push_ticket ≤ w.queue.pop_ticket)
          × (read_if_not_empty seq padding w.queue ≡ refused))
        ⊎ ((w.queue.pop_ticket < w.queue.push_ticket)
            × (x : T) × (q' : Mpmc (Slot Sequencer T)) × (read_if_not_empty seq padding w.queue
                ≡ done (got x q'))
            × (w.written w.queue.pop_ticket ≡ some x)
            × Reach seq padding (start seq padding q) (popped x q' w)
            × IsQuiet (popped x q' w))
  unfolding read_if_not_empty try_obtain_promised_pop_ticket put
  read_if_not_empty-IsQuiet capacity {q} {w} e r quiet ft =
      elim (Bool-cases (leb w.queue.push_ticket w.queue.pop_ticket)) [
        | inl empty ↦ inl (ground arith, rw empty refl)
        | inr some_item ↦
            let drawn = next r draw_pop in
            let (u, le, able) =
              waiting_pop seq padding capacity w.queue.pop_ticket e drawn ft (ground arith)
                (ground arith) in
            let (x, q', goes) = only_pop w quiet able in
            inr (
              ground arith,
              x,
              q',
              read_goes w.queue some_item goes,
              got_written seq padding capacity w.queue.pop_ticket e drawn ft (ground arith) goes,
              next drawn (use_pop w.queue.pop_ticket ft (ground arith) goes),
              popped-IsQuiet x q' w quiet,
            )
      ]
