-- ===== src/Mpmc/Dynamic/Values.antt =====
-- What the threads that use a growing queue of ThreadPool/MPMCQueue.h hand over in the slots of its
-- arrays, old and new: `enqueueWithTicketBase` and `dequeueWithTicketBase` at the array that a
-- thread has found for its ticket.
mod Arrays
mod Using
mod Storing
mod Expanding
mod Moving
mod Invariant
pub mod Fifo
use thread_pool_exec.Prelude.{put, ℕ, ◌+◌, ◌-◌, ◌≡◌, ◌≢◌, Bool, true, false, Option, none, some}
use thread_pool_exec.Mpmc.Stride.Injective.{Fits}
use thread_pool_exec.Mpmc.Slot.{TurnSequencer, Slot, got}
use thread_pool_exec.Mpmc.Queue.{Mpmc, enqueue_with_ticket, dequeue_with_ticket}
use thread_pool_exec.Mpmc.Dynamic.{ClosedArray, Dynamic, array_of}
use thread_pool_exec.Mpmc.Dynamic.Threads as Growing
use thread_pool_exec.Mpmc.Dynamic.Threads.{
  Snapshot, Writer, unlocked, archived, slots_stored, capacity_stored, stride_stored, using,
  Threads, untouched,
}

-- The threads, the slots of each array by its name, and of each ticket: the value that its owner has
-- yet to enqueue, whether its owner has yet to dequeue, the value it was drawn for, and the value it
-- was given.
pub record Values (S T : Type 0) : Type 0 where
  pub threads : Threads
  pub store : ℕ → ℕ → S
  pub pushing : ℕ → Option T
  pub popping : ℕ → Bool
  pub written : ℕ → Option T
  pub read : ℕ → Option T

-- The array that `tryExpand` has allocated and not yet published.
unfoldable pub pending : Writer → Option ℕ
pending (archived s c p q name) = some name
pending (slots_stored s c p q name) = some name
pending (capacity_stored s c p q name) = some name
pending (stride_stored s c p q name) = some name
pending _ = none

-- An address that no array of the queue has.
abbrev pub Unused : ℕ → Dynamic → Type 0
Unused name d = (t : ℕ) (a : ClosedArray) → array_of t d ≡ some a → a.slots ≢ name

-- The slots, the capacity and the stride that a thread has found, as those calls get them.
unfoldable pub array : {S : Type 0} → ClosedArray → (ℕ → ℕ → S) → Mpmc S
array a store = record {
  capacity = a.capacity;
  stride = a.stride;
  slots = store a.slots;
  push_ticket = 0;
  pop_ticket = 0;
}

module _ (seq : TurnSequencer) {T : Type 0} (padding : ℕ) where
  open seq use {Sequencer, initial}

  abbrev pub empty_slot : Slot Sequencer T
  empty_slot = record { sequencer = initial; contents = none }

  -- `new Slot[...]`, when a thread allocates an array.
  unfoldable pub allocate :
      Option ℕ → Option ℕ → (ℕ → ℕ → Slot Sequencer T) → ℕ → ℕ → Slot Sequencer T
  unfolding put
  allocate none (some name) store = put store name (λ _. empty_slot)
  allocate _ _ store = store

  -- A step of the threads draws no ticket, or one for a push or for a pop. A ticket is used, by a
  -- thread that has found its array, while it `Fits`.
  pub data Step (w : Values (Slot Sequencer T) T) : Values (Slot Sequencer T) T → Type 0 where
    moves :
        {u : Threads}
        → Growing.Step w.threads u
        → u.push_ticket ≡ w.threads.push_ticket
        → u.pop_ticket ≡ w.threads.pop_ticket
        → ((name : ℕ)
            → pending w.threads.writer ≡ none
            → pending u.writer ≡ some name
            → Unused name w.threads.published)
        → Step w (record w {
          threads = u;
          store = allocate (pending w.threads.writer) (pending u.writer) w.store;
        })
    draws_push :
        (x : T) {u : Threads}
        → Growing.Step w.threads u
        → u.push_ticket ≡ w.threads.push_ticket + 1
        → Step w (record w {
          threads = u;
          pushing = put w.pushing w.threads.push_ticket (some x);
          written = put w.written w.threads.push_ticket (some x);
        })
    draws_pop :
        {u : Threads}
        → Growing.Step w.threads u
        → u.pop_ticket ≡ w.threads.pop_ticket + 1
        → Step w (record w { threads = u; popping = put w.popping w.threads.pop_ticket true })
    use_push :
        (i : ℕ) {t : ℕ} {v : Snapshot} {a : ClosedArray} {x : T} {q : Mpmc (Slot Sequencer T)}
        → w.threads.readers i ≡ using t v a
        → Fits a.capacity (t - a.offset)
        → w.pushing t ≡ some x
        → enqueue_with_ticket seq padding (t - a.offset) x (array a w.store) ≡ some q
        → Step w (record w { store = put w.store a.slots q.slots; pushing = put w.pushing t none })
    use_pop :
        (i : ℕ) {t : ℕ} {v : Snapshot} {a : ClosedArray} {x : T} {q : Mpmc (Slot Sequencer T)}
        → w.threads.readers i ≡ using t v a
        → Fits a.capacity (t - a.offset)
        → w.popping t ≡ true
        → dequeue_with_ticket seq padding (t - a.offset) (array a w.store) ≡ got x q
        → Step w (record w {
          store = put w.store a.slots q.slots;
          popping = put w.popping t false;
          read = put w.read t (some x);
        })

  pub data Reach (w : Values (Slot Sequencer T) T) : Values (Slot Sequencer T) T → Type 0 where
    here : Reach w w
    next : {u v : Values (Slot Sequencer T) T} → Reach w u → Step u v → Reach w v

  -- A queue just made: all slots of its first array are empty, and no thread uses it.
  unfoldable pub unread : Dynamic → Values (Slot Sequencer T) T
  unfolding untouched
  unread d = record {
    threads = untouched d;
    store = λ _ _. empty_slot;
    pushing = λ _. none;
    popping = λ _. false;
    written = λ _. none;
    read = λ _. none;
  }
