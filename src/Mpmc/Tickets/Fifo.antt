-- ===== src/Mpmc/Tickets/Fifo.antt =====
-- The queue hands the value of each push to the pop of the same ticket, from the constructor on.
use thread_pool_exec.Prelude.{
  ℕ, ◌+◌, ◌*◌, ◌/◌, ◌<◌, ◌≡◌, ◌⊎◌, ℕ_discrete, true, false, Option, none, some, refl, ◌∙◌, arith,
  inl, inr,
}
use thread_pool_exec.Mpmc.Stride.{compute_stride}
use thread_pool_exec.Mpmc.Stride.Injective.{Fits}
use thread_pool_exec.Mpmc.Slot.{TurnSequencer, Slot, waits, got}
use thread_pool_exec.Mpmc.Queue.{Mpmc, make, slot_of, dequeue_with_ticket}
use thread_pool_exec.Mpmc.Tickets.{World, Reach, here, next}
use thread_pool_exec.Mpmc.Tickets.Using.{dequeue_on_turn, dequeue_off_turn}
use thread_pool_exec.Mpmc.Tickets.Invariant.{Inv, Step-Inv}

not_in_hand : {T : Type 0} (o : Option T) → ((x : T) → ¬ (o ≡ some x)) → o ≡ none
not_in_hand none h = refl
not_in_hand (some x) h = absurd (h x refl)

module _ (seq : TurnSequencer) {T : Type 0} (padding : ℕ) where
  open seq use {Sequencer, now-initial}

  -- The world in which a queue has just been made.
  unfoldable pub start : Mpmc (Slot Sequencer T) → World (Slot Sequencer T) T
  start q = record {
    queue = q;
    pushing = λ _. none;
    popping = λ _. false;
    written = λ _. none;
    read = λ _. none;
  }

  make-Inv :
      (capacity : ℕ) {q : Mpmc (Slot Sequencer T)}
      → make seq padding capacity ≡ some q
      → Inv seq padding (start q)
  unfolding start make slot_of
  make-Inv capacity {q} e =
      let positive : 0 < capacity = ground arith in
      let fresh : q ≡ record {
        capacity = capacity;
        stride = compute_stride capacity;
        slots = λ _. record { sequencer = seq.initial; contents = none };
        push_ticket = 0;
        pop_ticket = 0;
      } =
        ground arith in
      rw fresh (record {
        some_slot = positive;
        strided = refl;
        tickets = λ t ft. record {
          small = omega (arith, now-initial);
          unborn = λ _. (refl, omega (arith, now-initial));
          in_hand = ground arith;
          placed = λ h. absurd (omega arith);
          known = λ h. absurd (omega arith);
          ungranted = λ _. (refl, omega (arith, now-initial));
          waiting = ground arith;
          done = λ h. absurd (omega arith);
          full = λ h. absurd (omega (arith, now-initial));
        };
      })

  -- The invariant holds whatever the threads have done since the queue was made.
  pub Reach-Inv :
      (capacity : ℕ) {q : Mpmc (Slot Sequencer T)} {w : World (Slot Sequencer T) T}
      → make seq padding capacity ≡ some q
      → Reach seq padding (start q) w
      → Inv seq padding w
  Reach-Inv capacity e here = make-Inv capacity e
  Reach-Inv capacity e (next r st) = Step-Inv seq padding st (Reach-Inv capacity e r)

  -- However the threads have interleaved since the queue was made, a pop with ticket `t` that has
  -- not yet read waits, or is given the value that the push of ticket `t` was called with: it never
  -- moves from a slot that holds nothing.
  pub dequeue_with_ticket-written :
      (capacity t : ℕ) {q : Mpmc (Slot Sequencer T)} {w : World (Slot Sequencer T) T}
      → make seq padding capacity ≡ some q
      → Reach seq padding (start q) w
      → Fits w.queue.capacity t
      → w.popping t ≡ true
      → (dequeue_with_ticket seq padding t w.queue ≡ waits)
        ⊎ ((x : T) × (q' : Mpmc (Slot Sequencer T)) × (dequeue_with_ticket seq padding t w.queue
              ≡ got x q')
            × (w.written t ≡ some x))
  dequeue_with_ticket-written capacity t {q} {w} e r ft pops =
      let v = (Reach-Inv capacity e r).tickets t ft in
      let n = seq.now (slot_of seq padding t w.queue).sequencer in
      elim (ℕ_discrete n (2 * (t / w.queue.capacity) + 1)) [
        | yes turn_is ↦
            let (x, wrote) = v.known (ground (arith, v.unborn)) in
            let (q', done) =
              dequeue_on_turn seq padding t x w.queue ft turn_is (v.full turn_is ∙ wrote) in
            inr (x, q', done, wrote)
        | no off ↦ inl (dequeue_off_turn seq padding t w.queue ft v.small off)
      ]

  pub got_written :
      (capacity t : ℕ) {q : Mpmc (Slot Sequencer T)} {w : World (Slot Sequencer T) T}
      → make seq padding capacity ≡ some q
      → Reach seq padding (start q) w
      → Fits w.queue.capacity t
      → w.popping t ≡ true
      → {x : T} {q' : Mpmc (Slot Sequencer T)}
      → dequeue_with_ticket seq padding t w.queue ≡ got x q'
      → w.written t ≡ some x
  got_written capacity t {q} {w} e r ft pops done =
      elim (dequeue_with_ticket-written capacity t e r ft pops) [
        | inl stays ↦ absurd (ground arith)
        | inr (y, q'', goes, wrote) ↦ ground arith
      ]

  -- Once a pop has used its ticket, what it read is what the push of that ticket wrote.
  pub read-written :
      (capacity t : ℕ) {q : Mpmc (Slot Sequencer T)} {w : World (Slot Sequencer T) T}
      → make seq padding capacity ≡ some q
      → Reach seq padding (start q) w
      → Fits w.queue.capacity t
      → t < w.queue.pop_ticket
      → w.popping t ≡ false
      → (t < w.queue.push_ticket) × (w.read t ≡ w.written t) × (w.pushing t ≡ none)
  read-written capacity t {q} {w} e r ft drawn used =
      let v = (Reach-Inv capacity e r).tickets t ft in
      let (past, same) = v.done drawn used in
      (
        ground (arith, v.unborn),
        same,
        not_in_hand (w.pushing t) (λ x h. omega (arith, past, (v.in_hand x h).0)),
      )
