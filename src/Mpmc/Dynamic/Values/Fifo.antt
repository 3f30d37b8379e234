-- ===== src/Mpmc/Dynamic/Values/Fifo.antt =====
-- A queue that grows hands the value of each push to the pop of the same ticket, from the
-- constructor on and across its expansions.
use thread_pool_exec.Prelude.{
  ℕ, ◌+◌, ◌-◌, ◌*◌, ◌/◌, ◌≤◌, ◌<◌, ◌≡◌, ◌^◌, ◌⊎◌, inl, inr, true, false, none, some, refl, arith,
  sym, ◌∙◌, ℕ_discrete,
}
use thread_pool_exec.Mpmc.Stride.{compute_stride}
use thread_pool_exec.Mpmc.Stride.Injective.{Fits}
use thread_pool_exec.Mpmc.Slot.{TurnSequencer, Slot, waits, got}
use thread_pool_exec.Mpmc.Queue.{Mpmc, slot_of, dequeue_with_ticket}
use thread_pool_exec.Mpmc.Tickets.Scalar.{Ticket}
use thread_pool_exec.Mpmc.Tickets.Using.{dequeue_on_turn, dequeue_off_turn}
use thread_pool_exec.Mpmc.Dynamic.{
  ClosedArray, Dynamic, array_of, get_offset, make_dynamic, init_queue,
}
use thread_pool_exec.Mpmc.Dynamic.Laws.{make_dynamic-Inv}
use thread_pool_exec.Mpmc.Dynamic.Threads.{Snapshot, using, untouched}
use thread_pool_exec.Mpmc.Dynamic.Threads.Invariant.{holding}
use thread_pool_exec.Mpmc.Dynamic.Threads.Seqlock.{untouched-Inv, made_even}
use thread_pool_exec.Mpmc.Dynamic.Values.{Values, pending, array, Reach, here, next, unread}
use thread_pool_exec.Mpmc.Dynamic.Values.Using.{Inv}
use thread_pool_exec.Mpmc.Dynamic.Values.Moving.{at_empty}
use thread_pool_exec.Mpmc.Dynamic.Values.Invariant.{Step-Inv}

-- All tickets of a queue just made go to its first array.
first_array :
    (t capacity min_capacity multiplier : ℕ) {d : Dynamic} (a : ClosedArray)
    → make_dynamic capacity min_capacity multiplier ≡ some d
    → array_of t d ≡ some a
    → a ≡ record {
      offset = 0;
      slots = 0;
      capacity = d.dcapacity;
      stride = compute_stride d.dcapacity;
    }
unfolding make_dynamic init_queue array_of get_offset
first_array t capacity min_capacity multiplier a e at = ground arith

module _ (seq : TurnSequencer) {T : Type 0} (padding : ℕ) where
  open seq use {Sequencer, now}

  unread-Inv :
      (capacity min_capacity multiplier : ℕ) {d : Dynamic}
      → capacity ≤ 2 ^ 31
      → multiplier ≤ 2 ^ 32
      → make_dynamic capacity min_capacity multiplier ≡ some d
      → Inv seq {T = T} padding (unread seq padding d)
  unfolding unread untouched pending
  unread-Inv capacity min_capacity multiplier {d} small bounded e =
      let shape = make_dynamic-Inv capacity min_capacity multiplier small bounded e in
      let start : (t : ℕ) → Ticket {T = T} t 0 0 0 0 none none none none false = λ t. record {
        small = omega arith;
        unborn = λ _. (refl, omega arith);
        in_hand = ground arith;
        placed = λ h. absurd (omega arith);
        known = λ h. absurd (omega arith);
        ungranted = λ _. (refl, omega arith);
        waiting = ground arith;
        done = λ h. absurd (omega arith);
        full = λ h. absurd (omega arith);
      } in
      record {
        memory =
            untouched-Inv d shape (omega (arith, made_even capacity min_capacity multiplier e));
        sound = λ t a at.
            rw (first_array t capacity min_capacity multiplier a e at)
              (record { starts = omega arith; some_slot = shape.some_slot; strided = refl });
        distinct = λ t u a b at at' one.
            first_array t capacity min_capacity multiplier a e at
            ∙ sym (first_array u capacity min_capacity multiplier b e at');
        allocated = λ name waits. absurd (cc waits);
        untouched = λ t late. start t;
        tickets = λ t a at ft. at_empty seq padding _ t a (λ i. refl) (start t);
      }

  Reach-Inv :
      (capacity min_capacity multiplier : ℕ) {d : Dynamic} {w : Values (Slot Sequencer T) T}
      → capacity ≤ 2 ^ 31
      → multiplier ≤ 2 ^ 32
      → make_dynamic capacity min_capacity multiplier ≡ some d
      → Reach seq padding (unread seq padding d) w
      → Inv seq padding w
  Reach-Inv capacity min_capacity multiplier small bounded e here =
      unread-Inv capacity min_capacity multiplier small bounded e
  Reach-Inv capacity min_capacity multiplier small bounded e (next r st) =
      Step-Inv seq padding st (Reach-Inv capacity min_capacity multiplier small bounded e r)

  -- Take a growing queue made with a capacity of at most 2 ^ 31 and a multiplier of at most 2 ^ 32.
  -- However threads push, pop and expand it since its constructor, a pop that has found an array for
  -- its ticket `t`, where that ticket fits, and has not yet read waits there, or is given the value that the push
  -- of ticket `t` was called with, in whichever array the push has put it: it never moves from a
  -- slot that holds nothing.
  pub handed_over :
      (capacity min_capacity multiplier i : ℕ) {t : ℕ} {s : Snapshot} {a : ClosedArray}
      {d : Dynamic} {w : Values (Slot Sequencer T) T}
      → capacity ≤ 2 ^ 31
      → multiplier ≤ 2 ^ 32
      → make_dynamic capacity min_capacity multiplier ≡ some d
      → Reach seq padding (unread seq padding d) w
      → w.threads.readers i ≡ using t s a
      → Fits a.capacity (t - a.offset)
      → w.popping t ≡ true
      → (dequeue_with_ticket seq padding (t - a.offset) (array a w.store) ≡ waits)
        ⊎ ((x : T) × (q : Mpmc (Slot Sequencer T)) × (dequeue_with_ticket seq padding
                (t - a.offset)
                (array a w.store)
              ≡ got x q)
            × (w.written t ≡ some x))
  unfolding array
  handed_over capacity min_capacity multiplier i {t} {s} {a} {d} {w} small bounded e r uses ft
        pops =
      let v = Reach-Inv capacity min_capacity multiplier small bounded e r in
      let ticket = v.tickets t a (holding w.threads i (v.memory) uses).3 ft in
      let q = array a w.store in
      let n = now (slot_of seq padding (t - a.offset) q).sequencer in
      elim (ℕ_discrete n (2 * ((t - a.offset) / a.capacity) + 1)) [
        | yes turn_is ↦
            let (x, wrote) = ticket.known (ground (arith, ticket.unborn)) in
            let (q', done) =
              dequeue_on_turn seq padding (t - a.offset) x q ft turn_is
                (ticket.full turn_is ∙ wrote) in
            inr (x, q', done, wrote)
        | no off ↦ inl (dequeue_off_turn seq padding (t - a.offset) q ft (ticket.small) off)
      ]

  -- Once a pop of a growing queue has used its ticket `t`, which goes to the array `a`, the push of
  -- ticket `t` has been drawn and what the pop has read is what the push was called with.
  read_written :
      (capacity min_capacity multiplier t : ℕ) {a : ClosedArray} {d : Dynamic}
      {w : Values (Slot Sequencer T) T}
      → capacity ≤ 2 ^ 31
      → multiplier ≤ 2 ^ 32
      → make_dynamic capacity min_capacity multiplier ≡ some d
      → Reach seq padding (unread seq padding d) w
      → array_of t w.threads.published ≡ some a
      → Fits a.capacity (t - a.offset)
      → t < w.threads.pop_ticket
      → w.popping t ≡ false
      → (t < w.threads.push_ticket) × (w.read t ≡ w.written t)
  read_written capacity min_capacity multiplier t {a} small bounded e r at ft drawn used =
      let v = (Reach-Inv capacity min_capacity multiplier small bounded e r).tickets t a at ft in
      let (past, equal) = v.done drawn used in (ground (arith, v.unborn), equal)
