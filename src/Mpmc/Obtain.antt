-- ===== src/Mpmc/Obtain.antt =====
-- How MPMCQueueBase of ThreadPool/MPMCQueue.h draws tickets while other threads use the queue: the
-- loads and compare-and-swaps of `tryObtainReadyPushTicket` and its three companions. `queue k` is
-- the queue just before the k-th access of the call.
use thread_pool_exec.Prelude.{
  ℕ, zero, suc, ◌+◌, Bool, true, false, not, Option, none, some, leb, ◌==◌, if◌then◌else◌, pos,
  ltb_ℤ,
}
use thread_pool_exec.Mpmc.Stride.{turn}
use thread_pool_exec.Mpmc.Slot.{TurnSequencer, Slot, may_enqueue, may_dequeue}
use thread_pool_exec.Mpmc.Queue.{Mpmc, slot_of}
use thread_pool_exec.Mpmc.Size.{signed_difference}
mod Linear
pub mod Laws
mod Until

-- What a call returns, and the ticket that it leaves.
pub data Draw : Type 0 where
  refused drew : ℕ → Draw

-- The loop of `tryObtainReady*Ticket`; its access `k` is the check of the slot, the next one the load
-- or the compare-and-swap of the ticket. `none` when the fuel is out, here and below.
unfoldable pub ready_loop : (ℕ → ℕ) → (ℕ → ℕ → Bool) → ℕ → ℕ → ℕ → Option Draw
ready_loop tickets ready zero k ticket = none
ready_loop tickets ready (suc fuel) k ticket =
    let next = tickets (k + 1) in
    let rest = ready_loop tickets ready fuel (k + 1 + 1) next in
    if ready k ticket
    then if next == ticket then some (drew ticket) else rest
    else if ticket == next
    then some (refused ticket)
    else rest

-- The loop of `tryObtainPromised*Ticket`; its access `k` is the load of the other ticket.
unfoldable pub promised_loop : (ℕ → ℕ) → (ℕ → ℕ → Bool) → ℕ → ℕ → ℕ → Option Draw
promised_loop tickets out zero k ticket = none
promised_loop tickets out (suc fuel) k ticket =
    let next = tickets (k + 1) in
    let rest = promised_loop tickets out fuel (k + 1 + 1) next in
    if out k ticket
    then some (refused ticket)
    else if next == ticket
    then some (drew ticket)
    else rest

module _ (seq : TurnSequencer) {T : Type 0} (padding : ℕ) where
  open seq use {Sequencer}

  module _ (queue : ℕ → Mpmc (Slot Sequencer T)) where
    abbrev pub pushes : ℕ → ℕ
    pushes k = (queue k).push_ticket

    abbrev pub pops : ℕ → ℕ
    pops k = (queue k).pop_ticket

    unfoldable pub enqueues : ℕ → ℕ → Bool
    unfolding slot_of may_enqueue
    enqueues k ticket =
        may_enqueue seq (turn ticket (queue k).capacity) (slot_of seq padding ticket (queue k))

    unfoldable pub dequeues : ℕ → ℕ → Bool
    unfolding slot_of may_dequeue
    dequeues k ticket =
        may_dequeue seq (turn ticket (queue k).capacity) (slot_of seq padding ticket (queue k))

    -- The difference is an `int64_t`, negative if pops are pending.
    unfoldable pub is_out_of_room : ℕ → ℕ → Bool
    unfolding signed_difference
    is_out_of_room k num_pushes =
        not (ltb_ℤ (signed_difference num_pushes (pops k)) (pos (queue k).capacity))

    unfoldable pub is_out_of_items : ℕ → ℕ → Bool
    is_out_of_items k num_pops = leb (pushes k) num_pops

    unfoldable pub obtain_ready_push : ℕ → Option Draw
    unfolding ready_loop enqueues
    obtain_ready_push fuel = ready_loop pushes enqueues fuel 1 (pushes 0)

    unfoldable pub obtain_promised_push : ℕ → Option Draw
    unfolding promised_loop is_out_of_room
    obtain_promised_push fuel = promised_loop pushes is_out_of_room fuel 1 (pushes 0)

    unfoldable pub obtain_ready_pop : ℕ → Option Draw
    unfolding ready_loop dequeues
    obtain_ready_pop fuel = ready_loop pops dequeues fuel 1 (pops 0)

    unfoldable pub obtain_promised_pop : ℕ → Option Draw
    unfolding promised_loop is_out_of_items
    obtain_promised_pop fuel = promised_loop pops is_out_of_items fuel 1 (pops 0)

-- `tryObtainPromised*TicketUntil`: `attempt r` is what its r-th call of the former returns, `arrives r`
-- whether the turn of its ticket comes, in the wait after it, before the deadline.
unfoldable pub obtain_until : (ℕ → Draw) → (ℕ → Bool) → ℕ → ℕ → Option Draw
obtain_until attempt arrives zero r = none
obtain_until attempt arrives (suc fuel) r =
    let rest = obtain_until attempt arrives fuel (r + 1) in
    elim (attempt r) [
      | drew ticket ↦ some (drew ticket)
      | refused ticket ↦ if arrives r then rest else some (refused ticket)
    ]
