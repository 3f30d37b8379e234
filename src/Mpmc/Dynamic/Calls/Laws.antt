-- ===== src/Mpmc/Dynamic/Calls/Laws.antt =====
-- The calls on a queue that grows end, within two rounds if nothing disturbs them, and what they do.
use thread_pool_exec.Prelude.{
  ℕ, suc, ◌+◌, ◌^◌, ◌≤◌, ◌<◌, ◌≡◌, ◌≢◌, ◌⊎◌, inl, inr, max, refl, ◌∙◌, arith, Bool, true, false,
  Option, some, ltb, ◌==◌, Bool-cases,
}
use thread_pool_exec.Mpmc.Dynamic.Laws
use thread_pool_exec.Mpmc.Dynamic.Laws.{whole}
use thread_pool_exec.Mpmc.Dynamic.Expand.{array_of-total}
use thread_pool_exec.Mpmc.Dynamic.{ClosedArray, Dynamic, get_offset, try_expand, array_of}
use thread_pool_exec.Mpmc.Dynamic.Calls.{refused, obtained, or_again, ready_push, blocking_write}
use thread_pool_exec.Mpmc.Dynamic.Calls.Promised.{
  stays, grows, expansion, Refusal, as_before, has_grown,
}

module _ (news : ℕ → Option ℕ) (push pop : ℕ) (small : 1 + max push pop < 2 ^ 58) where
  module _ (ready : ℕ → ClosedArray → Bool) where
    ready_push_newest :
        (fuel : ℕ) (d : Dynamic) {a : ClosedArray}
        → array_of push d ≡ some a
        → ready push a ≡ false
        → a.offset ≡ get_offset d.dstate
        → ready_push news push pop ready (suc fuel) d
          ≡ or_again
              (try_expand (news fuel) push pop d)
              (ready_push news push pop ready fuel)
              refused
    unfolding ready_push
    ready_push_newest fuel d e busy same = ground arith

    ready_push_elsewhere :
        (fuel : ℕ) (d : Dynamic) {a : ClosedArray}
        → array_of push d ≡ some a
        → ready push a ≡ false
        → a.offset ≢ get_offset d.dstate
        → ready_push news push pop ready (suc fuel) d ≡ some (refused, d)
    unfolding ready_push
    ready_push_elsewhere fuel d e busy other = ground arith

    ready_push_refuses :
        (fuel : ℕ) (d : Dynamic) {a : ClosedArray}
        → Laws.Inv d
        → array_of push d ≡ some a
        → ready push a ≡ false
        → (d' : Dynamic) × (ready_push news push pop ready (suc (suc fuel)) d ≡ some (refused, d'))
          × Refusal (news (suc fuel)) push a (a.offset == get_offset d.dstate) d d'
    unfolding or_again
    ready_push_refuses fuel d {a} v e busy = elim (Bool-cases (a.offset == get_offset d.dstate)) [
      | inr other ↦ (
        d,
        ready_push_elsewhere (suc fuel) d e busy (λ s. ground arith),
        as_before (inl other) refl,
      )
      | inl newest ↦
          let same : a.offset ≡ get_offset d.dstate = ground arith in
          elim (expansion (news (suc fuel)) push pop d v small) [
            | stays why kept ↦ (
              d,
              ready_push_newest (suc fuel) d e busy same ∙ rw kept refl,
              as_before (inr why) refl,
            )
            | grows d' done v' more offset keeps ↦
                let here : array_of push d' ≡ some a = keeps push (omega arith) ∙ e in
                let (b, found, fits) = array_of-total push d v in
                let early : a.offset ≤ push = ground arith in
                (
                  d',
                  ready_push_newest (suc fuel) d e busy same
                      ∙ rw done (ready_push_elsewhere fuel d' here busy (λ s. omega arith)),
                  has_grown newest v' more here,
                )
          ]
    ]

    -- The same of an undisturbed `write`, which has the next ticket exactly if the slot of the ticket
    -- may take it at once, and otherwise expands if the array of the ticket is the newest.
    ready_push_lem :
        (fuel : ℕ) (d : Dynamic) {a : ClosedArray}
        → Laws.Inv d
        → array_of push d ≡ some a
        → ((ready push a ≡ true)
            × (ready_push news push pop ready (suc (suc fuel)) d ≡ some (obtained push a, d)))
          ⊎ ((ready push a ≡ false)
              × (d' : Dynamic) × (ready_push news push pop ready (suc (suc fuel)) d
                  ≡ some (refused, d'))
              × Refusal (news (suc fuel)) push a (a.offset == get_offset d.dstate) d d')
    unfolding ready_push
    ready_push_lem fuel d {a} v e = elim (Bool-cases (ready push a)) [
      | inl free ↦ inl (free, ground arith)
      | inr busy ↦
          let (d', answer, why) = ready_push_refuses fuel d v e busy in inr (busy, d', answer, why)
    ]

    blocking_write_goes :
        (ticket fuel : ℕ) (d : Dynamic) {a : ClosedArray}
        → array_of ticket d ≡ some a
        → (ticket < get_offset d.dstate) ⊎ (ready ticket a ≡ true)
        → blocking_write news push pop ready ticket (suc fuel) d ≡ some (obtained ticket a, d)
    unfolding blocking_write
    blocking_write_goes ticket fuel d e why = ground arith

    blocking_write_newest :
        (ticket fuel : ℕ) (d : Dynamic) {a : ClosedArray}
        → array_of ticket d ≡ some a
        → get_offset d.dstate ≤ ticket
        → ready ticket a ≡ false
        → pop + a.capacity ≤ ticket
        → blocking_write news push pop ready ticket (suc fuel) d
          ≡ or_again
              (try_expand (news fuel) push pop d)
              (blocking_write news push pop ready ticket fuel)
              (obtained ticket a)
    unfolding blocking_write
    blocking_write_newest ticket fuel d e later busy full = ground arith

    -- A `blockingWrite` leaves its loop in two rounds, with the array that its ticket has had since
    -- it was drawn, if that array is closed, or its slot may take the ticket, or it is full; only
    -- for a slot that a pop in progress is about to empty does it go round. If the array is full
    -- and the newest, the queue grows where it can.
    blocking_write_lem :
        (ticket fuel : ℕ) (d : Dynamic) {a : ClosedArray}
        → Laws.Inv d
        → ticket < push
        → array_of ticket d ≡ some a
        → (ticket < get_offset d.dstate) ⊎ ((ready ticket a ≡ true) ⊎ (pop + a.capacity ≤ ticket))
        → (d' : Dynamic) × (blocking_write news push pop ready ticket (suc (suc fuel)) d
            ≡ some (obtained ticket a, d'))
          × ((d' ≡ d)
              ⊎ (Laws.Inv d' × (d.dcapacity < d'.dcapacity) × (array_of ticket d' ≡ some a)))
    unfolding or_again
    blocking_write_lem ticket fuel d {a} v drawn e why =
        elim (Bool-cases (ltb ticket (get_offset d.dstate))) [
          | inl closed ↦
              (d, blocking_write_goes ticket (suc fuel) d e (inl (ground arith)), inl refl)
          | inr newest ↦ elim (Bool-cases (ready ticket a)) [
            | inl free ↦ (d, blocking_write_goes ticket (suc fuel) d e (inr free), inl refl)
            | inr busy ↦
                let stuck =
                  blocking_write_newest ticket (suc fuel) d e (ground arith) busy (ground arith) in
                elim (expansion (news (suc fuel)) push pop d v small) [
                  | stays reason kept ↦ (d, stuck ∙ rw kept refl, inl refl)
                  | grows d' done v' more offset keeps ↦
                      let here : array_of ticket d' ≡ some a = keeps ticket (omega arith) ∙ e in
                      (
                        d',
                        stuck
                            ∙ rw done (blocking_write_goes ticket fuel d' here (inl (omega arith))),
                        inr (v', more, here),
                      )
                ]
          ]
        ]
