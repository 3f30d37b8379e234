-- ===== src/Mpmc/Slot.antt =====
-- `SingleElementQueue` of ThreadPool/MPMCQueue.h over a turn sequencer of folly.
use thread_pool_exec.Prelude.{
  ℕ, suc, ◌+◌, ◌*◌, ◌%◌, ◌^◌, ◌≡◌, ◌↔◌, Bool, true, Option, none, some, if◌then◌else◌, ◌==◌,
}

-- `folly::detail::TurnSequencer`: its turns are counted modulo 2^26, `now` counts them all.
pub record TurnSequencer : Type 1 where
  pub Sequencer : Type 0
  pub initial : Sequencer
  pub is_turn : Sequencer → ℕ → Bool
  pub complete_turn : Sequencer → ℕ → Sequencer
  pub uncompleted_turn_lsb : Sequencer → ℕ
  pub now : Sequencer → ℕ
  pub now-initial : now initial ≡ 0
  pub is_turn_iff : (s : Sequencer) (k : ℕ) → (is_turn s k ≡ true) ↔ (now s % 2 ^ 26 ≡ k % 2 ^ 26)
  pub uncompleted_turn_lsb_lem : (s : Sequencer) → uncompleted_turn_lsb s ≡ now s % 2 ^ 8
  pub now-complete_turn :
      (s : Sequencer) (k : ℕ) → is_turn s k ≡ true → now (complete_turn s k) ≡ suc (now s)

-- `contents` is `none` where the storage holds no object.
pub record Slot (Sequencer T : Type 0) : Type 0 where
  pub sequencer : Sequencer
  pub contents : Option T

-- `waits` stands for a call that has not got its turn, `garbage` for one that would move from
-- storage without an object.
pub data Dequeued (S T : Type 0) : Type 0 where
  waits garbage : Dequeued S T
  got : T → S → Dequeued S T

-- What the destructor of a slot does: `no_object` stands for the destruction of storage without an
-- object.
pub data Destroyed (T : Type 0) : Type 0 where
  nothing no_object : Destroyed T
  object : T → Destroyed T

module _ (seq : TurnSequencer) {T : Type 0} where
  open seq use {Sequencer, is_turn, complete_turn, uncompleted_turn_lsb}

  unfoldable pub may_enqueue : ℕ → Slot Sequencer T → Bool
  may_enqueue turn s = is_turn s.sequencer (turn * 2 % 2 ^ 32)

  unfoldable pub may_dequeue : ℕ → Slot Sequencer T → Bool
  may_dequeue turn s = is_turn s.sequencer ((turn * 2 + 1) % 2 ^ 32)

  -- `enqueue`, past `waitForTurn`; `none` while it waits there.
  unfoldable pub enqueue : ℕ → T → Slot Sequencer T → Option (Slot Sequencer T)
  unfolding may_enqueue
  enqueue turn x s =
      if may_enqueue turn s
      then some
          (record { sequencer = complete_turn s.sequencer (turn * 2 % 2 ^ 32); contents = some x })
      else none

  -- `dequeue`, past `waitForTurn`
  unfoldable pub dequeue : ℕ → Slot Sequencer T → Dequeued (Slot Sequencer T) T
  unfolding may_dequeue
  dequeue turn s =
      if may_dequeue turn s
      then elim s.contents [
        | none ↦ garbage
        | some x ↦ got x (record {
          sequencer = complete_turn s.sequencer ((turn * 2 + 1) % 2 ^ 32);
          contents = none;
        })
      ]
      else waits

  -- `~SingleElementQueue`
  unfoldable pub destroy_slot : Slot Sequencer T → Destroyed T
  destroy_slot s =
      if uncompleted_turn_lsb s.sequencer % 2 == 1
      then elim s.contents [ none ↦ no_object | some x ↦ object x ]
      else nothing
