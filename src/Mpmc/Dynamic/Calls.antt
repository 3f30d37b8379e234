-- ===== src/Mpmc/Dynamic/Calls.antt =====
-- The loops of ThreadPool/MPMCQueue.h that find the array of a ticket in a queue that grows, and
-- expand it, as one call runs them that no other thread disturbs. A call that gives up refuses; one
-- that goes on has its ticket and its array. Fuel counts the rounds, and `news` is what `new` gives
-- in each.
mod Promised
pub mod Laws
use thread_pool_exec.Prelude.{
  ℕ, zero, suc, ◌+◌, Bool, true, false, Option, none, some, ltb, leb, ◌==◌, if◌then◌else◌,
}
use thread_pool_exec.Mpmc.Dynamic.{ClosedArray, Dynamic, get_offset, try_expand, array_of}

pub data Obtained : Type 0 where
  refused : Obtained
  obtained : ℕ → ClosedArray → Obtained

-- What follows a call of `tryExpand`: another round if it returns true, else an answer.
unfoldable pub or_again :
    Option (Bool × Dynamic)
    → (Dynamic → Option (Obtained × Dynamic))
    → Obtained
    → Option (Obtained × Dynamic)
or_again none again answer = none
or_again (some (true, d)) again answer = again d
or_again (some (false, d)) again answer = some (answer, d)

module _ (news : ℕ → Option ℕ) (push pop : ℕ) where
  -- `tryObtainPromisedPushTicket`
  unfoldable pub promised_push : ℕ → Dynamic → Option (Obtained × Dynamic)
  unfolding or_again
  promised_push zero d = none
  promised_push (suc fuel) d = elim (array_of push d) [
    | none ↦ none
    | some a ↦
        let grown = or_again (try_expand (news fuel) push pop d) (promised_push fuel) refused in
        if leb (pop + a.capacity) push
        then if a.capacity == d.dcapacity then grown else some (refused, d)
        else some (obtained push a, d)
  ]

  -- `tryObtainReadyPushTicket`; `ready` is what `mayEnqueue` says of the slot of a ticket in an array,
  -- here and below.
  unfoldable pub ready_push : (ℕ → ClosedArray → Bool) → ℕ → Dynamic → Option (Obtained × Dynamic)
  unfolding or_again
  ready_push ready zero d = none
  ready_push ready (suc fuel) d = elim (array_of push d) [
    | none ↦ none
    | some a ↦
        let grown = or_again (try_expand (news fuel) push pop d) (ready_push ready fuel) refused in
        if ready push a
        then some (obtained push a, d)
        else if a.offset == get_offset d.dstate
        then grown
        else some (refused, d)
  ]

  -- The loop of `blockingWrite` for a ticket that it has drawn.
  unfoldable pub blocking_write :
      (ℕ → ClosedArray → Bool) → ℕ → ℕ → Dynamic → Option (Obtained × Dynamic)
  unfolding or_again
  blocking_write ready ticket zero d = none
  blocking_write ready ticket (suc fuel) d = elim (array_of ticket d) [
    | none ↦ none
    | some a ↦
        let grown =
          or_again (try_expand (news fuel) push pop d) (blocking_write ready ticket fuel)
            (obtained ticket a) in
        let again = blocking_write ready ticket fuel d in
        if ltb ticket (get_offset d.dstate)
        then some (obtained ticket a, d)
        else if ready ticket a
        then some (obtained ticket a, d)
        else if ltb ticket (pop + a.capacity)
        then again
        else grown
  ]

-- `tryObtainReadyPopTicket` and `tryObtainPromisedPopTicket`; `none` is a failed assertion.
unfoldable pub ready_pop : (ℕ → ClosedArray → Bool) → ℕ → Dynamic → Option Obtained
ready_pop ready pop d = elim (array_of pop d) [
  | none ↦ none
  | some a ↦ some (if ready pop a then obtained pop a else refused)
]

unfoldable pub promised_pop : ℕ → ℕ → Dynamic → Option Obtained
promised_pop push pop d = elim (array_of pop d) [
  | none ↦ none
  | some a ↦ some (if leb push pop then refused else obtained pop a)
]
