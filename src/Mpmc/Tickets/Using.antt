-- ===== src/Mpmc/Tickets/Using.antt =====
-- What a thread finds when it uses its ticket.
use thread_pool_exec.Prelude.{
  ℕ, suc, ◌+◌, ◌*◌, ◌/◌, ◌%◌, ◌^◌, ◌<◌, ◌≡◌, ◌≢◌, ◌⊎◌, true, none, some, refl, arith, Option-cases,
  Bool-cases, inl, inr,
}
use thread_pool_exec.Mpmc.Stride.{turn}
use thread_pool_exec.Mpmc.Stride.Injective.{Fits, turn_lem}
use thread_pool_exec.Mpmc.Slot.{
  TurnSequencer, Slot, Dequeued, waits, garbage, got, may_enqueue, may_dequeue, enqueue, dequeue,
}
use thread_pool_exec.Mpmc.Queue.{
  Mpmc, slot_of, store_slot, enqueue_with_ticket, dequeue_with_ticket,
}

Dequeued-cases :
    {S T : Type 0} (d : Dequeued S T)
    → (d ≡ waits) ⊎ ((d ≡ garbage) ⊎ ((x : T) × (s : S) × (d ≡ got x s)))
Dequeued-cases waits = inl refl
Dequeued-cases garbage = inr (inl refl)
Dequeued-cases (got x s) = inr (inr (x, s, refl))

-- A slot whose turn it is has completed as many turns as the ticket asks for.
pub on_turn :
    (seq : TurnSequencer) (s : seq.Sequencer) (cap t k n : ℕ)
    → seq.now s < 2 ^ 26
    → Fits cap t
    → k < 2
    → n ≡ turn t cap * 2 + k
    → seq.is_turn s (n % 2 ^ 32) ≡ true
    → seq.now s ≡ 2 * (t / cap) + k
on_turn seq s cap t k n small fits bit amount e =
    omega (arith, (seq.is_turn_iff s (n % 2 ^ 32)).0 e, turn_lem cap t fits, fits.turns)

-- And the other way round.
turn_comes :
    (seq : TurnSequencer) (s : seq.Sequencer) (cap t k n : ℕ)
    → Fits cap t
    → k < 2
    → n ≡ turn t cap * 2 + k
    → seq.now s ≡ 2 * (t / cap) + k
    → seq.is_turn s (n % 2 ^ 32) ≡ true
turn_comes seq s cap t k n fits bit amount e =
    (seq.is_turn_iff s (n % 2 ^ 32)).1 (omega (arith, turn_lem cap t fits, fits.turns))

module _ (seq : TurnSequencer) {T : Type 0} (padding : ℕ) where
  open seq use {Sequencer, now, complete_turn, is_turn, now-complete_turn}

  pub record Enqueued (t : ℕ) (x : T) (q q' : Mpmc (Slot Sequencer T)) : Type 0 where
    pub seq' : Sequencer
    pub result : q' ≡ store_slot seq padding t (record { sequencer = seq'; contents = some x }) q
    pub before : now (slot_of seq padding t q).sequencer ≡ 2 * (t / q.capacity)
    pub after : now seq' ≡ suc (now (slot_of seq padding t q).sequencer)

  pub enqueue_with_ticket-Enqueued :
      (t : ℕ) (x : T) (q : Mpmc (Slot Sequencer T)) {q' : Mpmc (Slot Sequencer T)}
      → Fits q.capacity t
      → now (slot_of seq padding t q).sequencer < 2 ^ 26
      → enqueue_with_ticket seq padding t x q ≡ some q'
      → Enqueued t x q q'
  unfolding enqueue_with_ticket enqueue may_enqueue
  enqueue_with_ticket-Enqueued t x q {q'} fits small e =
      let s = slot_of seq padding t q in
      elim (Bool-cases (is_turn s.sequencer (turn t q.capacity * 2 % 2 ^ 32))) [
        | inl mine ↦ record {
          seq' = complete_turn s.sequencer (turn t q.capacity * 2 % 2 ^ 32);
          result = ground arith;
          before = omega (
            arith,
            on_turn seq s.sequencer q.capacity t 0 (turn t q.capacity * 2) small fits (omega arith)
                (omega arith) mine,
          );
          after = now-complete_turn s.sequencer (turn t q.capacity * 2 % 2 ^ 32) mine;
        }
        | inr other ↦ absurd (ground arith)
      ]

  pub record Received (t : ℕ) (x : T) (q q' : Mpmc (Slot Sequencer T)) : Type 0 where
    pub seq' : Sequencer
    pub result : q' ≡ store_slot seq padding t (record { sequencer = seq'; contents = none }) q
    pub held : (slot_of seq padding t q).contents ≡ some x
    pub before : now (slot_of seq padding t q).sequencer ≡ 2 * (t / q.capacity) + 1
    pub after : now seq' ≡ suc (now (slot_of seq padding t q).sequencer)

  pub dequeue_with_ticket-Received :
      (t : ℕ) {x : T} (q : Mpmc (Slot Sequencer T)) {q' : Mpmc (Slot Sequencer T)}
      → Fits q.capacity t
      → now (slot_of seq padding t q).sequencer < 2 ^ 26
      → dequeue_with_ticket seq padding t q ≡ got x q'
      → Received t x q q'
  unfolding dequeue_with_ticket dequeue may_dequeue
  dequeue_with_ticket-Received t {x} q {q'} fits small e =
      let s = slot_of seq padding t q in
      elim (Bool-cases (is_turn s.sequencer ((turn t q.capacity * 2 + 1) % 2 ^ 32))) [
        | inl mine ↦ elim (Option-cases s.contents) [
          | inl empty ↦ absurd (ground arith)
          | inr (y, holds) ↦ record {
            seq' = complete_turn s.sequencer ((turn t q.capacity * 2 + 1) % 2 ^ 32);
            result = ground arith;
            held = ground arith;
            before =
                on_turn seq s.sequencer q.capacity t 1 (turn t q.capacity * 2 + 1) small fits
                  (omega arith) refl mine;
            after = now-complete_turn s.sequencer ((turn t q.capacity * 2 + 1) % 2 ^ 32) mine;
          }
        ]
        | inr other ↦ absurd (ground arith)
      ]

  -- A push whose turn it is does not wait.
  pub enqueue_on_turn :
      (t : ℕ) (x : T) (q : Mpmc (Slot Sequencer T))
      → Fits q.capacity t
      → now (slot_of seq padding t q).sequencer ≡ 2 * (t / q.capacity)
      → (q' : Mpmc (Slot Sequencer T)) × (enqueue_with_ticket seq padding t x q ≡ some q')
  unfolding enqueue_with_ticket enqueue may_enqueue
  enqueue_on_turn t x q fits at =
      let mine =
        turn_comes seq (slot_of seq padding t q).sequencer q.capacity t 0 (turn t q.capacity * 2)
          fits (omega arith) (omega arith) (omega (arith, at)) in
      elim (Option-cases (enqueue_with_ticket seq padding t x q)) [
        | inl stays ↦ absurd (ground arith)
        | inr done ↦ done
      ]

  -- A pop whose turn it is takes the object that its slot holds.
  pub dequeue_on_turn :
      (t : ℕ) (x : T) (q : Mpmc (Slot Sequencer T))
      → Fits q.capacity t
      → now (slot_of seq padding t q).sequencer ≡ 2 * (t / q.capacity) + 1
      → (slot_of seq padding t q).contents ≡ some x
      → (q' : Mpmc (Slot Sequencer T)) × (dequeue_with_ticket seq padding t q ≡ got x q')
  unfolding dequeue_with_ticket dequeue may_dequeue
  dequeue_on_turn t x q fits at holds =
      let mine =
        turn_comes seq (slot_of seq padding t q).sequencer q.capacity t 1
          (turn t q.capacity * 2 + 1) fits (omega arith) refl at in
      elim (Dequeued-cases (dequeue_with_ticket seq padding t q)) [
        | inl stays ↦ absurd (ground arith)
        | inr (inl nothing) ↦ absurd (ground arith)
        | inr (inr (y, q', done)) ↦ let same : x ≡ y = ground arith in (q', rw same done)
      ]

  pub dequeue_off_turn :
      (t : ℕ) (q : Mpmc (Slot Sequencer T))
      → Fits q.capacity t
      → now (slot_of seq padding t q).sequencer < 2 ^ 26
      → now (slot_of seq padding t q).sequencer ≢ 2 * (t / q.capacity) + 1
      → dequeue_with_ticket seq padding t q ≡ waits
  unfolding dequeue_with_ticket dequeue may_dequeue
  dequeue_off_turn t q fits small off =
      let s = (slot_of seq padding t q).sequencer in
      elim (Bool-cases (is_turn s ((turn t q.capacity * 2 + 1) % 2 ^ 32))) [
        | inl mine ↦ absurd (
            off (
              on_turn seq s q.capacity t 1 (turn t q.capacity * 2 + 1) small fits (omega arith) refl
                mine))
        | inr other ↦ elim (Dequeued-cases (dequeue_with_ticket seq padding t q)) [
          | inl stays ↦ stays
          | inr (inl nothing) ↦ absurd (ground arith)
          | inr (inr (y, q', done)) ↦ absurd (ground arith)
        ]
      ]
