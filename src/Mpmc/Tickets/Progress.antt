-- ===== src/Mpmc/Tickets/Progress.antt =====
-- No thread of the queue waits for ever with nobody able to go on.
use thread_pool_exec.Prelude.{
  ℕ, ◌+◌, ◌-◌, ◌*◌, ◌/◌, ◌%◌, ◌≤◌, ◌<◌, ◌≡◌, true, some, sym, ap, ◌∙◌, arith, Option-cases,
  Bool-cases, inl, inr, ℕ_discrete,
}
use native.Mathlib.Nat.{
  div-add-mod, mod-lt, mul-add-div, div-eq_of_lt, mul-add-mod_self_left, mul-add,
}
use thread_pool_exec.Mpmc.Stride.{compute_stride, idx}
use thread_pool_exec.Mpmc.Stride.Injective.{Fits, idx_lem}
use thread_pool_exec.Mpmc.Slot.{TurnSequencer, Slot, got}
use thread_pool_exec.Mpmc.Queue.{Mpmc, make, slot_of, enqueue_with_ticket, dequeue_with_ticket}
use thread_pool_exec.Mpmc.Tickets.{World, Reach}
use thread_pool_exec.Mpmc.Tickets.Using.{enqueue_on_turn, dequeue_on_turn}
use thread_pool_exec.Mpmc.Tickets.Invariant.{Inv}
use thread_pool_exec.Mpmc.Tickets.Fifo.{start, Reach-Inv}

residue : (cap s r k : ℕ) → (cap * k + r) * s % cap ≡ r * s % cap
residue cap s r k =
    let spread : (cap * k + r) * s ≡ cap * (k * s) + r * s = omega arith in
    ap (λ (n : ℕ). n % cap) spread ∙ mul-add-mod_self_left cap (k * s) (r * s)

-- The ticket of the same slot in an earlier turn.
record Earlier (padding cap t k : ℕ) : Type 0 where
  u : ℕ
  its_turn : u / cap ≡ k
  below : u + cap * (t / cap - k) ≡ t
  fits : Fits cap u
  shared : idx padding u cap (compute_stride cap) ≡ idx padding t cap (compute_stride cap)

at_least : (cap m : ℕ) → 0 < m → cap ≤ cap * m
at_least cap m h = grind arith

pad : (k m : ℕ) → k ≤ m → m ≡ k + (m - k)
pad k m le = omega arith

earlier : (padding cap t k : ℕ) → 0 < cap → Fits cap t → k ≤ t / cap → Earlier padding cap t k
earlier padding cap t k h ft le =
    let r = t % cap in
    let low = mod-lt t h in
    let whole = div-add-mod t cap in
    let split = ap (λ (n : ℕ). cap * n) (pad k (t / cap) le) ∙ mul-add cap k (t / cap - k) in
    let its_turn : (cap * k + r) / cap ≡ k = omega (arith, mul-add-div h k r, div-eq_of_lt low) in
    let fits : Fits cap (cap * k + r) = record {
      product = omega (arith, whole, split, ft.product);
      turns = omega (arith, its_turn, ft.turns);
    } in
    let same = residue cap (compute_stride cap) r k in
    let same' = residue cap (compute_stride cap) r (t / cap) in
    let at = ap (λ (n : ℕ). n * compute_stride cap % cap) whole in
    record {
      u = cap * k + r;
      its_turn = its_turn;
      below = omega (arith, whole, split);
      fits = fits;
      shared = omega (
        arith,
        idx_lem padding cap (cap * k + r) h fits,
        idx_lem padding cap t h ft,
        same,
        same',
        at,
      );
    }

module _ (seq : TurnSequencer) {T : Type 0} (padding : ℕ) where
  open seq use {Sequencer, now}

  -- A thread with ticket `u` that need not wait: it can enqueue, or dequeue.
  pub data Able (w : World (Slot Sequencer T) T) (u : ℕ) : Type 0 where
    can_push :
        (x : T) (q' : Mpmc (Slot Sequencer T))
        → w.pushing u ≡ some x
        → enqueue_with_ticket seq padding u x w.queue ≡ some q'
        → Able w u
    can_pop :
        (x : T) (q' : Mpmc (Slot Sequencer T))
        → w.popping u ≡ true
        → dequeue_with_ticket seq padding u w.queue ≡ got x q'
        → Able w u

  -- The ticket whose turn it is at a slot, if it was drawn for what comes next there.
  Able-at :
      (w : World (Slot Sequencer T) T) (u b : ℕ)
      → Inv seq padding w
      → Fits w.queue.capacity u
      → u < w.queue.push_ticket
      → b < 2
      → (0 < b → u < w.queue.pop_ticket)
      → now (slot_of seq padding u w.queue).sequencer ≡ 2 * (u / w.queue.capacity) + b
      → Able w u
  Able-at w u b v fu drawn bit popped at =
      let s = v.tickets u fu in
      elim (ℕ_discrete b 0) [
        | yes push_next ↦ elim (Option-cases (w.pushing u)) [
          | inl nothing ↦ absurd (omega (arith, s.placed drawn nothing, at))
          | inr (x, holds) ↦
              let (q', done) = enqueue_on_turn seq padding u x w.queue fu (omega arith) in
              can_push x q' holds done
        ]
        | no pop_next ↦ elim (Bool-cases (w.popping u)) [
          | inl pops ↦
              let (x, wrote) = s.known drawn in
              let (q', done) =
                dequeue_on_turn seq padding u x w.queue fu (omega arith)
                  (s.full (omega arith) ∙ wrote) in
              can_pop x q' pops done
          | inr used ↦ absurd (omega (arith, (s.done (popped (omega arith)) used).0, at))
        ]
      ]

  -- Whichever ticket has its turn at the slot of `t`, when all that came before `t` were drawn.
  Able-before :
      (w : World (Slot Sequencer T) T) (t k b : ℕ)
      → Inv seq padding w
      → Fits w.queue.capacity t
      → t < w.queue.push_ticket
      → b < 2
      → k ≤ t / w.queue.capacity
      → (0 < b → t < w.queue.pop_ticket + w.queue.capacity * (t / w.queue.capacity - k))
      → now (slot_of seq padding t w.queue).sequencer ≡ 2 * k + b
      → (u : ℕ) × (u ≤ t) × Able w u
  unfolding slot_of
  Able-before w t k b v ft drawn bit le popped at =
      let e = earlier padding w.queue.capacity t k v.some_slot ft le in
      let meet =
        ap (λ (s : ℕ). idx padding e.u w.queue.capacity s) v.strided
        ∙ e.shared
        ∙ ap (λ (s : ℕ). idx padding t w.queue.capacity s) (sym v.strided) in
      let same = ap (λ (i : ℕ). now (w.queue.slots i).sequencer) meet in
      (
        e.u,
        omega (arith, e.below),
        Able-at w e.u b v e.fits (omega (arith, e.below)) bit
            (λ some_bit. omega (arith, e.below, popped some_bit))
            (omega (arith, same, at, e.its_turn)),
      )

  -- While a pop waits whose ticket has been drawn for a push too, some thread with a ticket no later
  -- can enqueue or dequeue, so the queue cannot be stuck.
  pub waiting_pop :
      (capacity t : ℕ) {q : Mpmc (Slot Sequencer T)} {w : World (Slot Sequencer T) T}
      → make seq padding capacity ≡ some q
      → Reach seq padding (start seq padding q) w
      → Fits w.queue.capacity t
      → w.popping t ≡ true
      → t < w.queue.push_ticket
      → (u : ℕ) × (u ≤ t) × Able w u
  waiting_pop capacity t {q} {w} e r ft pops drawn =
      let v = Reach-Inv seq padding capacity e r in
      let s = v.tickets t ft in
      let n = now (slot_of seq padding t w.queue).sequencer in
      Able-before w t (n / 2) (n % 2) v ft drawn (omega arith) (omega (arith, s.waiting pops))
        (λ some_bit. ground (arith, s.ungranted)) (omega arith)

  -- While a push waits, where fewer tickets than the capacity lie between it and the next pop, some
  -- thread with a ticket no later can enqueue or dequeue.
  pub waiting_push :
      (capacity t : ℕ) (x : T) {q : Mpmc (Slot Sequencer T)} {w : World (Slot Sequencer T) T}
      → make seq padding capacity ≡ some q
      → Reach seq padding (start seq padding q) w
      → Fits w.queue.capacity t
      → w.pushing t ≡ some x
      → t < w.queue.pop_ticket + w.queue.capacity
      → (u : ℕ) × (u ≤ t) × Able w u
  waiting_push capacity t x {q} {w} e r ft holds room =
      let v = Reach-Inv seq padding capacity e r in
      let s = v.tickets t ft in
      let n = now (slot_of seq padding t w.queue).sequencer in
      let early = (s.in_hand x holds).0 in
      Able-before w t (n / 2) (n % 2) v ft (ground (arith, s.unborn)) (omega arith)
        (omega (arith, early))
        (λ some_bit. omega (
          arith,
          room,
          at_least (w.queue.capacity) (t / w.queue.capacity - n / 2) (omega (arith, early)),
        ))
        (omega arith)
