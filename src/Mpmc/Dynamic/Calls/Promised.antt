-- ===== src/Mpmc/Dynamic/Calls/Promised.antt =====
-- A promised ticket of a growing queue: drawn where there is room, after an expansion if need be.
use thread_pool_exec.Prelude.{
  ℕ, suc, ◌+◌, ◌^◌, ◌≤◌, ◌<◌, ◌≡◌, ◌≢◌, ◌⊎◌, inl, inr, max, refl, ◌∙◌, arith, Bool, true, false,
  Option, none, some, leb, ◌==◌, Bool-cases,
}
use thread_pool_exec.Mpmc.Dynamic.Laws
use thread_pool_exec.Mpmc.Stride.Unit.{mul_mono}
use thread_pool_exec.Mpmc.Dynamic.Laws.{whole}
use thread_pool_exec.Mpmc.Dynamic.Expand.{
  expanded, expands, expanded-Inv, expanded-array_of, packed,
}
use thread_pool_exec.Mpmc.Dynamic.{ClosedArray, Dynamic, get_offset, try_expand, array_of}
use thread_pool_exec.Mpmc.Dynamic.Calls.{refused, obtained, or_again, promised_push}

-- What a call of `tryExpand` comes to.
pub data Expansion (new : Option ℕ) (push pop : ℕ) (d : Dynamic) : Type 0 where
  stays :
      (d.dcapacity ≡ d.capacity) ⊎ (new ≡ none)
      → try_expand new push pop d ≡ some (false, d)
      → Expansion new push pop d
  grows :
      (d' : Dynamic)
      → try_expand new push pop d ≡ some (true, d')
      → Laws.Inv d'
      → d.dcapacity < d'.dcapacity
      → get_offset d'.dstate ≡ 1 + max push pop
      → ((ticket : ℕ) → ticket < 1 + max push pop → array_of ticket d' ≡ array_of ticket d)
      → Expansion new push pop d

pub expansion :
    (new : Option ℕ) (push pop : ℕ) (d : Dynamic)
    → Laws.Inv d
    → 1 + max push pop < 2 ^ 58
    → Expansion new push pop d
unfolding try_expand
expansion none push pop d v small = stays (inr refl) (ground arith)
expansion (some name) push pop d v small = elim (Bool-cases (d.dcapacity == d.capacity)) [
  | inl full ↦ stays (inl (ground arith)) (ground arith)
  | inr less ↦
      let below : d.dcapacity < d.capacity = ground (arith, v.within) in
      grows (expanded name push pop d v small below) (expands name push pop d v small below)
        (expanded-Inv name push pop d v small below)
        (omega (
          arith,
          below,
          v.some_slot,
          whole d.dcapacity d.capacity d.multiplier below (v.small) (v.bounded),
          mul_mono d.dcapacity 2 d.multiplier (v.doubling),
        ))
        (packed name push pop d v small below).0
        (λ t drawn. expanded-array_of name push pop d v small below t drawn)
]

-- After a refusal: the queue is as it was, for one of these reasons, or it has grown, and the ticket
-- keeps its array.
pub data Refusal (new : Option ℕ) (ticket : ℕ) (a : ClosedArray) (newest : Bool) (d d' : Dynamic)
    : Type 0 where
  as_before :
      (newest ≡ false) ⊎ ((d.dcapacity ≡ d.capacity) ⊎ (new ≡ none))
      → d' ≡ d
      → Refusal new ticket a newest d d'
  has_grown :
      newest ≡ true
      → Laws.Inv d'
      → d.dcapacity < d'.dcapacity
      → array_of ticket d' ≡ some a
      → Refusal new ticket a newest d d'

module _ (news : ℕ → Option ℕ) (push pop : ℕ) (small : 1 + max push pop < 2 ^ 58) where
  promised_push_room :
      (fuel : ℕ) (d : Dynamic) {a : ClosedArray}
      → array_of push d ≡ some a
      → push < pop + a.capacity
      → promised_push news push pop (suc fuel) d ≡ some (obtained push a, d)
  unfolding promised_push
  promised_push_room fuel d e room = ground arith

  promised_push_elsewhere :
      (fuel : ℕ) (d : Dynamic) {a : ClosedArray}
      → array_of push d ≡ some a
      → pop + a.capacity ≤ push
      → a.capacity ≢ d.dcapacity
      → promised_push news push pop (suc fuel) d ≡ some (refused, d)
  unfolding promised_push
  promised_push_elsewhere fuel d e over other = ground arith

  promised_push_newest :
      (fuel : ℕ) (d : Dynamic) {a : ClosedArray}
      → array_of push d ≡ some a
      → pop + a.capacity ≤ push
      → a.capacity ≡ d.dcapacity
      → promised_push news push pop (suc fuel) d
        ≡ or_again (try_expand (news fuel) push pop d) (promised_push news push pop fuel) refused
  unfolding promised_push
  promised_push_newest fuel d e over same = ground arith

  promised_push_refuses :
      (fuel : ℕ) (d : Dynamic) {a : ClosedArray}
      → Laws.Inv d
      → array_of push d ≡ some a
      → pop + a.capacity ≤ push
      → (d' : Dynamic) × (promised_push news push pop (suc (suc fuel)) d ≡ some (refused, d'))
        × Refusal (news (suc fuel)) push a (a.capacity == d.dcapacity) d d'
  unfolding or_again
  promised_push_refuses fuel d {a} v e full = elim (Bool-cases (a.capacity == d.dcapacity)) [
    | inr other ↦ (
      d,
      promised_push_elsewhere (suc fuel) d e full (λ s. ground arith),
      as_before (inl other) refl,
    )
    | inl newest ↦
        let same : a.capacity ≡ d.dcapacity = ground arith in
        elim (expansion (news (suc fuel)) push pop d v small) [
          | stays why kept ↦ (
            d,
            promised_push_newest (suc fuel) d e full same ∙ rw kept refl,
            as_before (inr why) refl,
          )
          | grows d' done v' more offset keeps ↦
              let here : array_of push d' ≡ some a = keeps push (omega arith) ∙ e in
              (
                d',
                promised_push_newest (suc fuel) d e full same
                    ∙ rw done (promised_push_elsewhere fuel d' here full (λ s. omega arith)),
                has_grown newest v' more here,
              )
        ]
  ]

  -- Two rounds are enough for an undisturbed `writeIfNotFull` to know whether it has a ticket. It has
  -- one exactly if the array of the next ticket has room for it beside all pushes not yet popped;
  -- otherwise it refuses, having expanded the queue if that array is the newest, is not of the full
  -- capacity and there is memory, though it refuses then too, since the ticket keeps its array.
  promised_push_lem :
      (fuel : ℕ) (d : Dynamic) {a : ClosedArray}
      → Laws.Inv d
      → array_of push d ≡ some a
      → ((push < pop + a.capacity)
          × (promised_push news push pop (suc (suc fuel)) d ≡ some (obtained push a, d)))
        ⊎ ((pop + a.capacity ≤ push)
            × (d' : Dynamic) × (promised_push news push pop (suc (suc fuel)) d ≡ some (refused, d'))
            × Refusal (news (suc fuel)) push a (a.capacity == d.dcapacity) d d')
  promised_push_lem fuel d {a} v e = elim (Bool-cases (leb (pop + a.capacity) push)) [
    | inr room ↦ inl (ground arith, promised_push_room (suc fuel) d e (ground arith))
    | inl over ↦
        let full : pop + a.capacity ≤ push = ground arith in
        let (d', answer, why) = promised_push_refuses fuel d v e full in inr (full, d', answer, why)
  ]
