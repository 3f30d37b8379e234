-- ===== src/Mpmc/Tickets/Ready.antt =====
-- A ticket that was drawn while its slot was ready for it is used without a wait.
use thread_pool_exec.Prelude.{
  ℕ, suc, ◌+◌, ◌*◌, ◌/◌, ◌≤◌, ◌<◌, ◌≡◌, ◌∙◌, sym, ap, subst, refl, arith, true, some, none,
}
use thread_pool_exec.Mpmc.Stride.{turn}
use thread_pool_exec.Mpmc.Stride.Injective.{Fits}
use thread_pool_exec.Mpmc.Slot.{TurnSequencer, Slot, got, may_enqueue, may_dequeue}
use thread_pool_exec.Mpmc.Queue.{
  Mpmc, make, slot_of, store_slot, enqueue_with_ticket, dequeue_with_ticket,
}
use thread_pool_exec.Mpmc.Tickets.{
  World, Step, Reach, draw_push, draw_pop, use_push, use_pop, here, next,
}
use thread_pool_exec.Mpmc.Tickets.Using.{
  on_turn, enqueue_with_ticket-Enqueued, dequeue_with_ticket-Received, enqueue_on_turn,
  dequeue_on_turn,
}
use thread_pool_exec.Mpmc.Tickets.Invariant.{Inv, itself, apart, shares, stored, Step-Inv}
use thread_pool_exec.Mpmc.Tickets.Fifo.{start, Reach-Inv}

module _ (seq : TurnSequencer) {T : Type 0} (padding : ℕ) where
  open seq use {Sequencer, now}

  -- The turns that the slot of a ticket has completed.
  abbrev turns : ℕ → Mpmc (Slot Sequencer T) → ℕ
  turns t q = now (slot_of seq padding t q).sequencer

  store_slot-rises :
      (w : World (Slot Sequencer T) T) (t u : ℕ) (s : Slot Sequencer T)
      → Inv seq padding w
      → Fits w.queue.capacity t
      → Fits w.queue.capacity u
      → now s.sequencer ≡ suc (turns t w.queue)
      → turns u w.queue ≤ turns u (store_slot seq padding t s w.queue)
  store_slot-rises w t u s v ft fu up =
      elim (stored seq padding w.queue t u s (v.some_slot) (v.strided) ft fu) [
        | itself same changed ↦
            rw (turns, changed) (omega (arith, up, ap (λ (k : ℕ). turns k w.queue) same))
        | apart differ untouched ↦ rw (turns, untouched) (omega arith)
        | shares differ later shared changed ↦
            rw (turns, changed)
              (omega (arith, up, ap (λ (r : Slot Sequencer T). now r.sequencer) shared))
      ]

  record Rising (w w' : World (Slot Sequencer T) T) : Type 0 where
    same_capacity : w'.queue.capacity ≡ w.queue.capacity
    later : (u : ℕ) → Fits w.queue.capacity u → turns u w.queue ≤ turns u w'.queue

  Step-Rising :
      {w w' : World (Slot Sequencer T) T} → Inv seq padding w → Step seq padding w w' → Rising w w'
  unfolding slot_of store_slot
  Step-Rising {w} v (draw_push x) = record { same_capacity = refl; later = λ u fu. omega arith }
  Step-Rising {w} v draw_pop = record { same_capacity = refl; later = λ u fu. omega arith }
  Step-Rising {w} v (use_push t {x} {q} ft holds done) =
      let e = enqueue_with_ticket-Enqueued seq padding t x w.queue ft (v.tickets t ft).small done in
      record {
        same_capacity = ap (λ (r : Mpmc (Slot Sequencer T)). r.capacity) (e.result);
        later = λ u fu. rw (e.result) (
            store_slot-rises w t u (record { sequencer = e.seq'; contents = some x }) v ft fu
              e.after);
      }
  Step-Rising {w} v (use_pop t {x} {q} ft holds done) =
      let e = dequeue_with_ticket-Received seq padding t w.queue ft (v.tickets t ft).small done in
      record {
        same_capacity = ap (λ (r : Mpmc (Slot Sequencer T)). r.capacity) (e.result);
        later = λ u fu. rw (e.result) (
            store_slot-rises w t u (record { sequencer = e.seq'; contents = none }) v ft fu
              e.after);
      }

  record Rose (w w' : World (Slot Sequencer T) T) : Type 0 where
    rising : Rising w w'
    now_inv : Inv seq padding w'

  Reach-Rose :
      {w w' : World (Slot Sequencer T) T} → Inv seq padding w → Reach seq padding w w' → Rose w w'
  Reach-Rose {w} v here = record {
    rising = record { same_capacity = refl; later = λ u fu. omega arith };
    now_inv = v;
  }
  Reach-Rose {w} v (next r st) =
      let before = Reach-Rose v r in
      let step = Step-Rising before.now_inv st in
      record {
        rising = record {
          same_capacity = step.same_capacity ∙ before.rising.same_capacity;
          later = λ u fu. omega (
            arith,
            before.rising.later u fu,
            step.later u (subst (λ (c : ℕ). Fits c u) (sym before.rising.same_capacity) fu),
          );
        };
        now_inv = Step-Inv seq padding st before.now_inv;
      }

  -- If at some moment `mayEnqueue` holds at the slot of `t`, as it does when
  -- `tryObtainReadyPushTicket` draws `t`, then however the threads interleave from there, the push
  -- that has drawn `t` and not used it does not wait.
  pub enqueue_with_ticket-ready :
      (capacity t : ℕ) {q : Mpmc (Slot Sequencer T)} {w w' : World (Slot Sequencer T) T} {x : T}
      → make seq padding capacity ≡ some q
      → Reach seq padding (start seq padding q) w
      → Reach seq padding w w'
      → Fits w.queue.capacity t
      → may_enqueue seq (turn t w.queue.capacity) (slot_of seq padding t w.queue) ≡ true
      → w'.pushing t ≡ some x
      → (q' : Mpmc (Slot Sequencer T)) × (enqueue_with_ticket seq padding t x w'.queue ≡ some q')
  unfolding may_enqueue
  enqueue_with_ticket-ready capacity t {q} {w} {w'} {x} e r r' ft ready holds =
      let v = Reach-Inv seq padding capacity e r in
      let rose = Reach-Rose v r' in
      let ft' = subst (λ (c : ℕ). Fits c t) (sym rose.rising.same_capacity) ft in
      let at =
        on_turn seq (slot_of seq padding t w.queue).sequencer w.queue.capacity t 0
          (turn t w.queue.capacity * 2) ((v.tickets t ft).small) ft (omega arith) (omega arith)
          ready in
      let ticket = rose.now_inv.tickets t ft' in
      let k = ap (λ (c : ℕ). t / c) rose.rising.same_capacity in
      enqueue_on_turn seq padding t x w'.queue ft'
        (omega (arith, at, k, rose.rising.later t ft, (ticket.in_hand x holds).0))

  -- Likewise a pop, of a ticket that was drawn or would be when `mayDequeue` held at its slot: it
  -- takes an object at once.
  dequeue_with_ticket-ready :
      (capacity t : ℕ) {q : Mpmc (Slot Sequencer T)} {w w' : World (Slot Sequencer T) T}
      → make seq padding capacity ≡ some q
      → Reach seq padding (start seq padding q) w
      → Reach seq padding w w'
      → Fits w.queue.capacity t
      → may_dequeue seq (turn t w.queue.capacity) (slot_of seq padding t w.queue) ≡ true
      → t < w'.queue.push_ticket
      → w'.popping t ≡ true
      → (x : T) × (q' : Mpmc (Slot Sequencer T)) × (dequeue_with_ticket seq padding t w'.queue
          ≡ got x q')
  unfolding may_dequeue
  dequeue_with_ticket-ready capacity t {q} {w} {w'} e r r' ft ready pushed holds =
      let v = Reach-Inv seq padding capacity e r in
      let rose = Reach-Rose v r' in
      let ft' = subst (λ (c : ℕ). Fits c t) (sym rose.rising.same_capacity) ft in
      let at =
        on_turn seq (slot_of seq padding t w.queue).sequencer w.queue.capacity t 1
          (turn t w.queue.capacity * 2 + 1) ((v.tickets t ft).small) ft (omega arith) refl ready in
      let ticket = rose.now_inv.tickets t ft' in
      let k = ap (λ (c : ℕ). t / c) rose.rising.same_capacity in
      let its_turn : turns t w'.queue ≡ 2 * (t / w'.queue.capacity) + 1 =
        omega (arith, at, k, rose.rising.later t ft, ticket.waiting holds) in
      let (x, written) = ticket.known pushed in
      let (q', taken) =
        dequeue_on_turn seq padding t x w'.queue ft' its_turn (ticket.full its_turn ∙ written) in
      (x, q', taken)
