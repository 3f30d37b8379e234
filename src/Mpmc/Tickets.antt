-- ===== src/Mpmc/Tickets.antt =====
-- The queue of ThreadPool/MPMCQueue.h under many threads: a thread draws a ticket in one step and
-- uses it, when its turn has come, in a later one.
use thread_pool_exec.Prelude.{put, ℕ, suc, ◌+◌, ◌≡◌, Bool, true, false, Option, none, some}
use thread_pool_exec.Mpmc.Stride.Injective.{Fits}
use thread_pool_exec.Mpmc.Slot.{TurnSequencer, Slot, got}
use thread_pool_exec.Mpmc.Queue.{Mpmc, enqueue_with_ticket, dequeue_with_ticket}
pub mod Scalar
pub mod Using
pub mod Invariant
pub mod Fifo
pub mod Progress
pub mod Quiet
pub mod Ready

-- The queue, and of each ticket: the value that its owner has yet to enqueue, whether its owner has
-- yet to dequeue, the value it was drawn for, and the value it was given.
pub record World (S T : Type 0) : Type 0 where
  pub queue : Mpmc S
  pub pushing : ℕ → Option T
  pub popping : ℕ → Bool
  pub written : ℕ → Option T
  pub read : ℕ → Option T

module _ (seq : TurnSequencer) {T : Type 0} (padding : ℕ) where
  open seq use {Sequencer}

  -- However it was drawn: blocking calls draw unconditionally, the others under a condition. A
  -- ticket is used while it `Fits`.
  pub data Step (w : World (Slot Sequencer T) T) : World (Slot Sequencer T) T → Type 0 where
    draw_push :
        (x : T)
        → Step w (record w {
          queue = record (w.queue) { push_ticket = w.queue.push_ticket + 1 };
          pushing = put w.pushing w.queue.push_ticket (some x);
          written = put w.written w.queue.push_ticket (some x);
        })
    draw_pop : Step w (record w {
      queue = record (w.queue) { pop_ticket = w.queue.pop_ticket + 1 };
      popping = put w.popping w.queue.pop_ticket true;
    })
    use_push :
        (ticket : ℕ) {x : T} {q : Mpmc (Slot Sequencer T)}
        → Fits w.queue.capacity ticket
        → w.pushing ticket ≡ some x
        → enqueue_with_ticket seq padding ticket x w.queue ≡ some q
        → Step w (record w { queue = q; pushing = put w.pushing ticket none })
    use_pop :
        (ticket : ℕ) {x : T} {q : Mpmc (Slot Sequencer T)}
        → Fits w.queue.capacity ticket
        → w.popping ticket ≡ true
        → dequeue_with_ticket seq padding ticket w.queue ≡ got x q
        → Step w (record w {
          queue = q;
          popping = put w.popping ticket false;
          read = put w.read ticket (some x);
        })

  pub data Reach (w : World (Slot Sequencer T) T) : World (Slot Sequencer T) T → Type 0 where
    here : Reach w w
    next : {u v : World (Slot Sequencer T) T} → Reach w u → Step u v → Reach w v
