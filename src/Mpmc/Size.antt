-- ===== src/Mpmc/Size.antt =====
-- `size`, `isEmpty` and `isFull` of MPMCQueueBase in ThreadPool/MPMCQueue.h, while other threads draw
-- tickets: `push k` and `pop k` are the tickets at the k-th load of the call.
pub mod Laws
use thread_pool_exec.Prelude.{
  ℕ, zero, suc, ◌+◌, ◌-◌, ◌%◌, ◌^◌, Bool, not, Option, none, some, ltb, ◌==◌, if◌then◌else◌, ℤ, pos,
  negsuc, ltb_ℤ,
}

-- `ssize_t(pushes - pops)`
unfoldable pub to_ssize : ℕ → ℤ
to_ssize n = if ltb n (2 ^ 63) then pos n else negsuc (2 ^ 64 - 1 - n)

unfoldable pub signed_difference : ℕ → ℕ → ℤ
unfolding to_ssize
signed_difference pushes pops = to_ssize ((pushes + 2 ^ 64 - pops) % 2 ^ 64)

module _ (push pop : ℕ → ℕ) where
  -- The loop, from the load `k` on; `none` when the fuel is out.
  unfoldable pub size_loop : ℕ → ℕ → ℕ → ℕ → Option ℤ
  size_loop zero k pushes pops = none
  size_loop (suc fuel) k pushes pops =
      let next_pushes = push k in
      let next_pops = pop (k + 1) in
      let rest = size_loop fuel (k + 1 + 1) next_pushes next_pops in
      if pushes == next_pushes
      then some (signed_difference pushes pops)
      else if pops == next_pops
      then some (signed_difference next_pushes pops)
      else rest

  unfoldable pub size : ℕ → Option ℤ
  unfolding size_loop
  size fuel = size_loop fuel 2 (push 0) (pop 1)

-- `isEmpty` and `isFull`, of what `size` returns.
unfoldable pub is_empty : ℤ → Bool
is_empty n = not (ltb_ℤ (pos 0) n)

unfoldable pub is_full : ℕ → ℤ → Bool
is_full capacity n = not (ltb_ℤ n (pos capacity))
