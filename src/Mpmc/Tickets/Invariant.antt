-- ===== src/Mpmc/Tickets/Invariant.antt =====
-- What is so of every ticket at every moment, and that every step keeps it.
use thread_pool_exec.Prelude.{
  put, ℕ, ◌/◌, ◌<◌, ◌≡◌, ◌≢◌, true, false, sym, ap, subst, ◌∙◌, none, some, arith, ℕ_discrete,
}
use thread_pool_exec.Mpmc.Stride.{compute_stride, idx}
use thread_pool_exec.Mpmc.Stride.Injective.{Fits, one_ticket}
use thread_pool_exec.Mpmc.Slot.{TurnSequencer, Slot}
use thread_pool_exec.Mpmc.Queue.{Mpmc, slot_of, store_slot}
use thread_pool_exec.Mpmc.Tickets.{World, Step, draw_push, draw_pop, use_push, use_pop}
use thread_pool_exec.Mpmc.Tickets.Scalar.{
  Ticket, draw_push_self, draw_push_other, draw_pop_self, draw_pop_other, use_push_self,
  use_push_other, use_pop_self, use_pop_other,
}
use thread_pool_exec.Mpmc.Tickets.Using.{
  Enqueued, Received, enqueue_with_ticket-Enqueued, dequeue_with_ticket-Received,
}

pub put_self : {A : Type 0} (f : ℕ → A) (i : ℕ) (a : A) (j : ℕ) → j ≡ i → put f i a j ≡ a
unfolding put
put_self f i a j e = ground arith

pub put_other : {A : Type 0} (f : ℕ → A) (i : ℕ) (a : A) (j : ℕ) → j ≢ i → put f i a j ≡ f j
unfolding put
put_other f i a j e = ground arith

module _ (seq : TurnSequencer) {T : Type 0} (padding : ℕ) where
  open seq use {Sequencer, now}

  abbrev pub At : World (Slot Sequencer T) T → ℕ → Type 0
  At w t =
      let s = slot_of seq padding t w.queue in
      Ticket t w.queue.push_ticket w.queue.pop_ticket (t / w.queue.capacity) (now s.sequencer)
        s.contents (w.pushing t) (w.written t) (w.read t) (w.popping t)

  -- The invariant.
  pub record Inv (w : World (Slot Sequencer T) T) : Type 0 where
    pub some_slot : 0 < w.queue.capacity
    pub strided : w.queue.stride ≡ compute_stride w.queue.capacity
    pub tickets : (t : ℕ) → Fits w.queue.capacity t → At w t

  -- A ticket, once `t` has stored `s` to its slot: `t` itself, one with a slot of its own, or one
  -- with that slot and another turn.
  pub data Stored (q : Mpmc (Slot Sequencer T)) (t u : ℕ) (s : Slot Sequencer T) : Type 0 where
    itself : u ≡ t → slot_of seq padding u (store_slot seq padding t s q) ≡ s → Stored q t u s
    apart :
        u ≢ t
        → slot_of seq padding u (store_slot seq padding t s q) ≡ slot_of seq padding u q
        → Stored q t u s
    shares :
        u ≢ t
        → u / q.capacity ≢ t / q.capacity
        → slot_of seq padding u q ≡ slot_of seq padding t q
        → slot_of seq padding u (store_slot seq padding t s q) ≡ s
        → Stored q t u s

  pub stored :
      (q : Mpmc (Slot Sequencer T)) (t u : ℕ) (s : Slot Sequencer T)
      → 0 < q.capacity
      → q.stride ≡ compute_stride q.capacity
      → Fits q.capacity t
      → Fits q.capacity u
      → Stored q t u s
  unfolding slot_of store_slot
  stored q t u s some_slot strided ft fu =
      let i = idx padding t q.capacity q.stride in
      let j = idx padding u q.capacity q.stride in
      elim (ℕ_discrete u t) [
        | yes same ↦
            itself same
              (put_self q.slots i s j (ap (λ (k : ℕ). idx padding k q.capacity q.stride) same))
        | no differ ↦ elim (ℕ_discrete j i) [
          | yes shared ↦
              let meet =
                ap (λ (k : ℕ). idx padding u q.capacity k) (sym strided)
                ∙ shared
                ∙ ap (λ (k : ℕ). idx padding t q.capacity k) strided in
              shares differ (λ k. differ (one_ticket padding q.capacity u t some_slot fu ft meet k))
                (ap q.slots shared) (put_self q.slots i s j shared)
          | no elsewhere ↦ apart differ (put_other q.slots i s j elsewhere)
        ]
      ]

  use_push-At :
      (w : World (Slot Sequencer T) T) (t : ℕ) (x : T) {q' : Mpmc (Slot Sequencer T)}
      → Inv w
      → Fits w.queue.capacity t
      → w.pushing t ≡ some x
      → Enqueued seq padding t x w.queue q'
      → (u : ℕ) → Fits w.queue.capacity u
      → At (record w { queue = q'; pushing = put w.pushing t none }) u
  unfolding store_slot
  use_push-At w t x v ft holds e u fu =
      let s : Slot Sequencer T = record { sequencer = e.seq'; contents = some x } in
      rw (e.result) (elim (stored w.queue t u s (v.some_slot) (v.strided) ft fu) [
        | itself same changed ↦
            rw (changed, put_self w.pushing t none u same, same, e.after)
              (use_push_self (v.tickets t ft) x holds e.before ft.turns)
        | apart differ untouched ↦
            rw (untouched, put_other w.pushing t none u differ) (v.tickets u fu)
        | shares differ later shared changed ↦
            rw (changed, put_other w.pushing t none u differ, e.after, sym shared)
              (use_push_other (v.tickets u fu) (t / w.queue.capacity) (some x)
                (rw shared (e.before)) later ft.turns)
      ])

  use_pop-At :
      (w : World (Slot Sequencer T) T) (t : ℕ) (x : T) {q' : Mpmc (Slot Sequencer T)}
      → Inv w
      → Fits w.queue.capacity t
      → w.popping t ≡ true
      → Received seq padding t x w.queue q'
      → (u : ℕ) → Fits w.queue.capacity u
      → At
          (record w { queue = q'; popping = put w.popping t false; read = put w.read t (some x) })
          u
  unfolding store_slot
  use_pop-At w t x v ft holds e u fu =
      let s : Slot Sequencer T = record { sequencer = e.seq'; contents = none } in
      rw (e.result) (elim (stored w.queue t u s (v.some_slot) (v.strided) ft fu) [
        | itself same changed ↦
            rw
              (
                changed,
                put_self w.popping t false u same,
                put_self w.read t (some x) u same,
                same,
                e.after,
              )
              (use_pop_self (v.tickets t ft) x holds e.held e.before ft.turns)
        | apart differ untouched ↦
            rw
              (
                untouched,
                put_other w.popping t false u differ,
                put_other w.read t (some x) u differ,
              )
              (v.tickets u fu)
        | shares differ later shared changed ↦
            rw
              (
                changed,
                put_other w.popping t false u differ,
                put_other w.read t (some x) u differ,
                e.after,
                sym shared,
              )
              (use_pop_other (v.tickets u fu) (t / w.queue.capacity) none (rw shared (e.before))
                later ft.turns)
      ])

  -- Every step keeps the invariant.
  pub Step-Inv : {w w' : World (Slot Sequencer T) T} → Step seq padding w w' → Inv w → Inv w'
  unfolding store_slot slot_of
  Step-Inv {w} (draw_push x) v = record {
    some_slot = v.some_slot;
    strided = v.strided;
    tickets = λ u fu. elim (ℕ_discrete u w.queue.push_ticket) [
      | yes same ↦
          rw
            (
              put_self w.pushing w.queue.push_ticket (some x) u same,
              put_self w.written w.queue.push_ticket (some x) u same,
            )
            (draw_push_self (v.tickets u fu) x same)
      | no differ ↦
          rw
            (
              put_other w.pushing w.queue.push_ticket (some x) u differ,
              put_other w.written w.queue.push_ticket (some x) u differ,
            )
            (draw_push_other (v.tickets u fu) differ)
    ];
  }
  Step-Inv {w} draw_pop v = record {
    some_slot = v.some_slot;
    strided = v.strided;
    tickets = λ u fu. elim (ℕ_discrete u w.queue.pop_ticket) [
      | yes same ↦
          rw (put_self w.popping w.queue.pop_ticket true u same)
            (draw_pop_self (v.tickets u fu) same)
      | no differ ↦
          rw (put_other w.popping w.queue.pop_ticket true u differ)
            (draw_pop_other (v.tickets u fu) differ)
    ];
  }
  Step-Inv {w} (use_push t {x} {q} ft holds done) v =
      let e = enqueue_with_ticket-Enqueued seq padding t x w.queue ft (v.tickets t ft).small done in
      record {
        some_slot = rw (e.result) (v.some_slot);
        strided = rw (e.result) (v.strided);
        tickets = λ u fu.
            use_push-At w t x v ft holds e u
              (subst (λ (r : Mpmc (Slot Sequencer T)). Fits r.capacity u) (e.result) fu);
      }
  Step-Inv {w} (use_pop t {x} {q} ft holds done) v =
      let e = dequeue_with_ticket-Received seq padding t w.queue ft (v.tickets t ft).small done in
      record {
        some_slot = rw (e.result) (v.some_slot);
        strided = rw (e.result) (v.strided);
        tickets = λ u fu.
            use_pop-At w t x v ft holds e u
              (subst (λ (r : Mpmc (Slot Sequencer T)). Fits r.capacity u) (e.result) fu);
      }
