-- ===== src/Mpmc/Queue.antt =====
-- `MPMCQueueBase` of ThreadPool/MPMCQueue.h: the queue of a fixed capacity. The tickets are
-- `uint64_t` and are taken not to reach their end.
use thread_pool_exec.Prelude.{put, ℕ, ◌+◌, Option, none, some, if◌then◌else◌, leb, ◌==◌}
use thread_pool_exec.Mpmc.Stride.{compute_stride, idx, turn}
use thread_pool_exec.Mpmc.Slot.{
  TurnSequencer, Slot, Dequeued, waits, garbage, got, may_enqueue, may_dequeue, enqueue, dequeue,
}

pub record Mpmc (S : Type 0) : Type 0 where
  pub capacity : ℕ
  pub stride : ℕ
  pub slots : ℕ → S
  pub push_ticket : ℕ
  pub pop_ticket : ℕ

-- `false`, a call that waits, or one that has returned `true`.
pub data Attempt (A : Type 0) : Type 0 where
  refused blocked : Attempt A
  done : A → Attempt A

module _ (seq : TurnSequencer) {T : Type 0} (padding : ℕ) where
  open seq use {Sequencer, initial}

  -- The constructor; `none` is `std::invalid_argument`.
  unfoldable pub make : ℕ → Option (Mpmc (Slot Sequencer T))
  make capacity =
      if capacity == 0
      then none
      else some (record {
        capacity = capacity;
        stride = compute_stride capacity;
        slots = λ _. record { sequencer = initial; contents = none };
        push_ticket = 0;
        pop_ticket = 0;
      })

  -- `slots[idx(ticket, cap, stride)]`
  unfoldable pub slot_of : ℕ → Mpmc (Slot Sequencer T) → Slot Sequencer T
  slot_of ticket q = q.slots (idx padding ticket q.capacity q.stride)

  unfoldable pub store_slot :
      ℕ → Slot Sequencer T → Mpmc (Slot Sequencer T) → Mpmc (Slot Sequencer T)
  unfolding put
  store_slot ticket s q = record q {
    slots = put q.slots (idx padding ticket q.capacity q.stride) s;
  }

  -- `enqueueWithTicketBase`; `none` while it waits for its turn.
  unfoldable pub enqueue_with_ticket :
      ℕ → T → Mpmc (Slot Sequencer T) → Option (Mpmc (Slot Sequencer T))
  unfolding enqueue slot_of store_slot
  enqueue_with_ticket ticket x q =
      elim (enqueue seq (turn ticket q.capacity) x (slot_of ticket q)) [
        | none ↦ none
        | some s ↦ some (store_slot ticket s q)
      ]

  -- `dequeueWithTicketBase`
  unfoldable pub dequeue_with_ticket :
      ℕ → Mpmc (Slot Sequencer T) → Dequeued (Mpmc (Slot Sequencer T)) T
  unfolding dequeue slot_of store_slot
  dequeue_with_ticket ticket q = elim (dequeue seq (turn ticket q.capacity) (slot_of ticket q)) [
    | waits ↦ waits
    | garbage ↦ garbage
    | got x s ↦ got x (store_slot ticket s q)
  ]

  -- `tryObtainReadyPushTicket`, when no other thread moves the ticket meanwhile.
  unfoldable pub try_obtain_ready_push_ticket :
      Mpmc (Slot Sequencer T) → Option (ℕ × Mpmc (Slot Sequencer T))
  unfolding slot_of may_enqueue
  try_obtain_ready_push_ticket q =
      if may_enqueue seq (turn q.push_ticket q.capacity) (slot_of q.push_ticket q)
      then some (q.push_ticket, record q { push_ticket = q.push_ticket + 1 })
      else none

  -- `tryObtainPromisedPushTicket`, likewise.
  unfoldable pub try_obtain_promised_push_ticket :
      Mpmc (Slot Sequencer T) → Option (ℕ × Mpmc (Slot Sequencer T))
  try_obtain_promised_push_ticket q =
      if leb (q.pop_ticket + q.capacity) q.push_ticket
      then none
      else some (q.push_ticket, record q { push_ticket = q.push_ticket + 1 })

  -- `tryObtainReadyPopTicket` and `tryObtainPromisedPopTicket`
  unfoldable pub try_obtain_ready_pop_ticket :
      Mpmc (Slot Sequencer T) → Option (ℕ × Mpmc (Slot Sequencer T))
  unfolding slot_of may_dequeue
  try_obtain_ready_pop_ticket q =
      if may_dequeue seq (turn q.pop_ticket q.capacity) (slot_of q.pop_ticket q)
      then some (q.pop_ticket, record q { pop_ticket = q.pop_ticket + 1 })
      else none

  unfoldable pub try_obtain_promised_pop_ticket :
      Mpmc (Slot Sequencer T) → Option (ℕ × Mpmc (Slot Sequencer T))
  try_obtain_promised_pop_ticket q =
      if leb q.push_ticket q.pop_ticket
      then none
      else some (q.pop_ticket, record q { pop_ticket = q.pop_ticket + 1 })

  -- `writeIfNotFull`, and `write`: `false`, a wait for the turn of the ticket, or the queue after it.
  abbrev pub use_push_ticket :
      T → Option (ℕ × Mpmc (Slot Sequencer T)) → Attempt (Mpmc (Slot Sequencer T))
  use_push_ticket x none = refused
  use_push_ticket x (some (ticket, q)) = elim (enqueue_with_ticket ticket x q) [
    | none ↦ blocked
    | some q' ↦ done q'
  ]

  unfoldable pub write_if_not_full : T → Mpmc (Slot Sequencer T) → Attempt (Mpmc (Slot Sequencer T))
  unfolding try_obtain_promised_push_ticket enqueue_with_ticket
  write_if_not_full x q = use_push_ticket x (try_obtain_promised_push_ticket q)

  unfoldable pub write : T → Mpmc (Slot Sequencer T) → Attempt (Mpmc (Slot Sequencer T))
  unfolding try_obtain_ready_push_ticket enqueue_with_ticket
  write x q = use_push_ticket x (try_obtain_ready_push_ticket q)

  -- `readIfNotEmpty`, and `read`
  abbrev pub use_pop_ticket :
      Option (ℕ × Mpmc (Slot Sequencer T)) → Attempt (Dequeued (Mpmc (Slot Sequencer T)) T)
  use_pop_ticket none = refused
  use_pop_ticket (some (ticket, q)) = elim (dequeue_with_ticket ticket q) [
    | waits ↦ blocked
    | garbage ↦ done garbage
    | got x q' ↦ done (got x q')
  ]

  unfoldable pub read_if_not_empty :
      Mpmc (Slot Sequencer T) → Attempt (Dequeued (Mpmc (Slot Sequencer T)) T)
  unfolding try_obtain_promised_pop_ticket dequeue_with_ticket
  read_if_not_empty q = use_pop_ticket (try_obtain_promised_pop_ticket q)

  unfoldable pub read : Mpmc (Slot Sequencer T) → Attempt (Dequeued (Mpmc (Slot Sequencer T)) T)
  unfolding try_obtain_ready_pop_ticket dequeue_with_ticket
  read q = use_pop_ticket (try_obtain_ready_pop_ticket q)
