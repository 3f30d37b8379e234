-- ===== src/Mpmc/Obtain/Laws.antt =====
-- A call that draws a ticket behaves as if it had run at one moment.
use thread_pool_exec.Prelude.{ℕ, ◌+◌, ◌≡◌, Option, some}
use thread_pool_exec.Mpmc.Slot.{TurnSequencer, Slot}
use thread_pool_exec.Mpmc.Queue.{Mpmc}
use thread_pool_exec.Mpmc.Size.Laws.{Counts}
use thread_pool_exec.Mpmc.Obtain.{Draw, pushes, pops}
use thread_pool_exec.Mpmc.Obtain.Linear.{Linear}

module _ (seq : TurnSequencer) {T : Type 0} (padding : ℕ)
    (queue : ℕ → Mpmc (Slot (seq.Sequencer) T)) where
  -- Other threads only draw tickets, in fewer than 2^63, and use slots.
  pub record Shared : Type 0 where
    pub counts : Counts (pushes seq padding queue) (pops seq padding queue)
    pub same_capacity : (k : ℕ) → (queue (k + 1)).capacity ≡ (queue k).capacity

  abbrev pub AtOnce :
      (ℕ → ℕ)
      → (Mpmc (Slot (seq.Sequencer) T) → Option (ℕ × Mpmc (Slot (seq.Sequencer) T)))
      → Option Draw
      → Type 0
  AtOnce tickets attempt call =
      (r : Draw) × (call ≡ some r) × Linear tickets (λ k. attempt (queue k)) 0 r
