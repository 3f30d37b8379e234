-- ===== src/Mpmc/Stride.antt =====
-- Where a ticket goes: `computeStride`, `idx` and `turn` of ThreadPool/MPMCQueue.h.
pub mod Unit
pub mod Injective
use thread_pool_exec.Prelude.{
  ℕ, ◌+◌, ◌-◌, ◌*◌, ◌/◌, ◌%◌, ◌^◌, ◌||◌, List, [], ◌∷◌, min, ltb, ◌==◌, if◌then◌else◌,
}

pub record Best : Type 0 where
  pub stride : ℕ
  pub sep : ℕ

abbrev pub small_primes : List ℕ
small_primes = 2 ∷ 3 ∷ 5 ∷ 7 ∷ 11 ∷ 13 ∷ 17 ∷ 19 ∷ 23 ∷ []

-- The body of the loop of `computeStride`; the capacity is not 0, or `%` faults.
unfoldable pub try_stride : ℕ → Best → ℕ → Best
try_stride capacity best stride =
    let sep = min (stride % capacity) (capacity - stride % capacity) in
    if (stride % capacity == 0) || (capacity % stride == 0)
    then best
    else if ltb best.sep sep
    then record { stride = stride; sep = sep }
    else best

unfoldable pub try_strides : ℕ → Best → List ℕ → Best
unfolding try_stride
try_strides capacity best [] = best
try_strides capacity best (p ∷ ps) = try_strides capacity (try_stride capacity best p) ps

unfoldable pub compute_stride : ℕ → ℕ
unfolding try_strides
compute_stride capacity =
    (try_strides capacity (record { stride = 1; sep = 1 }) small_primes).stride

-- `idx`: the product wraps in `uint64_t`; `padding` is `kSlotPadding`.
unfoldable pub idx : ℕ → ℕ → ℕ → ℕ → ℕ
idx padding ticket cap stride = ticket * stride % 2 ^ 64 % cap + padding

-- `turn` is cut to `uint32_t`.
unfoldable pub turn : ℕ → ℕ → ℕ
turn ticket cap = ticket / cap % 2 ^ 32
