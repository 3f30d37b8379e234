-- ===== src/Pool/ThreadList.antt =====
-- ThreadList of ThreadPool/executors/ThreadPoolExecutor.h: the live threads, sorted by id.
pub mod Laws
pub mod Effects
use thread_pool_exec.Pool.Task.{Thread}
use thread_pool_exec.Prelude.{
  ℕ, zero, suc, ◌+◌, Bool, true, false, not, Option, none, some, List, [], ◌∷◌, length, get_elem?,
  if◌then◌else◌, ltb, ◌==◌,
}

module _ {ℓ} {A : Type ℓ} where
  -- `vector::insert` before the position, and `vector::erase` at it.
  unfoldable pub insert_at : ℕ → A → List A → List A
  insert_at zero a xs = a ∷ xs
  insert_at (suc i) a [] = a ∷ []
  insert_at (suc i) a (x ∷ xs) = x ∷ insert_at i a xs

  unfoldable pub erase_at : ℕ → List A → List A
  erase_at i [] = []
  erase_at zero (x ∷ xs) = xs
  erase_at (suc i) (x ∷ xs) = x ∷ erase_at i xs

-- `std::lower_bound` and `std::upper_bound` with `Compare`, as offsets from `begin()`.
unfoldable pub lower_bound : List Thread → ℕ → ℕ
lower_bound [] k = 0
lower_bound (t ∷ ts) k = if ltb t.id k then suc (lower_bound ts k) else 0

unfoldable pub upper_bound : List Thread → ℕ → ℕ
upper_bound [] k = 0
upper_bound (t ∷ ts) k = if ltb k t.id then 0 else suc (upper_bound ts k)

pub record ThreadList : Type 0 where
  pub vec : List Thread
  pub past_cpu_used : ℕ

unfoldable pub add : ThreadList → Thread → ThreadList
unfolding lower_bound insert_at
add l state = record l { vec = insert_at (lower_bound l.vec state.id) state l.vec }

-- `none` is a failed CHECK; the last argument is what `state->usedCpuTime()` returns.
unfoldable pub remove : ThreadList → Thread → ℕ → Option ThreadList
unfolding lower_bound upper_bound erase_at
remove l state used_cpu_time =
    let first = lower_bound l.vec state.id in
    let second = upper_bound l.vec state.id in
    if first == length l.vec
    then none
    else if suc first == second
    then some
        (record { vec = erase_at first l.vec; past_cpu_used = l.past_cpu_used + used_cpu_time })
    else none

-- `std::binary_search`
unfoldable pub contains : ThreadList → Thread → Bool
unfolding lower_bound
contains l ts = elim (get_elem? l.vec (lower_bound l.vec ts.id)) [
  | none ↦ false
  | some found ↦ not (ltb ts.id found.id)
]

unfoldable pub add_cpu_times : (Thread → ℕ) → ℕ → List Thread → ℕ
add_cpu_times used_cpu_time acc [] = acc
add_cpu_times used_cpu_time acc (t ∷ ts) = add_cpu_times used_cpu_time (acc + used_cpu_time t) ts

unfoldable pub get_used_cpu_time : (Thread → ℕ) → ThreadList → ℕ
unfolding add_cpu_times
get_used_cpu_time used_cpu_time l = add_cpu_times used_cpu_time l.past_cpu_used l.vec
