-- ===== src/TaskQueue/PriorityLifoSem/Threads/Sums.antt =====
-- How many threads have at most `k` queues to look at, and how many items the first `k` queues hold.
use thread_pool_exec.Prelude.{
  put, ℕ, zero, suc, ◌+◌, ◌≤◌, ◌<◌, ◌≡◌, ap, refl, arith, some, List, [], ◌∷◌, length, get_elem?,
  set, ℕ_discrete,
}
use thread_pool_exec.TaskQueue.Bounded.{BoundedQueue}
use thread_pool_exec.TaskQueue.PriorityLifoSem.{total_size}
use thread_pool_exec.TaskQueue.PriorityLifoSem.Threads.{less, more}

unfoldable pub up_to : ℕ → (ℕ → ℕ) → ℕ
up_to zero f = f 0
up_to (suc k) f = up_to k f + f (suc k)

pub up_to-zero : (f : ℕ → ℕ) → up_to 0 f ≡ f 0
unfolding up_to
up_to-zero f = refl

pub up_to-suc : (k : ℕ) (f : ℕ → ℕ) → up_to (suc k) f ≡ up_to k f + f (suc k)
unfolding up_to
up_to-suc k f = refl

up_to-put_later : (k i a : ℕ) (f : ℕ → ℕ) → k < i → up_to k (put f i a) ≡ up_to k f
unfolding up_to put
up_to-put_later zero i a f later = ground arith
up_to-put_later (suc k) i a f later = ground (arith, up_to-put_later k i a f)

up_to-put : (k i a : ℕ) (f : ℕ → ℕ) → i ≤ k → up_to k (put f i a) + f i ≡ up_to k f + a
unfolding up_to put
up_to-put zero i a f within = ground arith
up_to-put (suc k) i a f within = elim (ℕ_discrete i (suc k)) [
  | yes last ↦ ground (arith, up_to-put_later k i a f)
  | no before ↦ ground (arith, up_to-put k i a f)
]

module _ {T : Type 0} (mpmc : BoundedQueue T) where
  open mpmc use {Queue, items, size-items}

  pub items_below : ℕ → List Queue → ℕ
  items_below zero qs = 0
  items_below (suc k) [] = 0
  items_below (suc k) (q ∷ qs) = length (items q) + items_below k qs

  pub items_below-zero : (qs : List Queue) → items_below 0 qs ≡ 0
  unfolding items_below
  items_below-zero qs = refl

  pub items_below-suc :
      (k : ℕ) (qs : List Queue) {q : Queue}
      → get_elem? qs k ≡ some q
      → items_below (suc k) qs ≡ items_below k qs + length (items q)
  unfolding items_below
  items_below-suc k [] at = absurd (ground arith)
  items_below-suc zero (p ∷ qs) {q} at =
      let same : p ≡ q = ground arith in omega (arith, ap (λ (r : Queue). length (items r)) same)
  items_below-suc (suc k) (p ∷ qs) at = omega (arith, items_below-suc k qs at)

  pub items_below-set_above :
      (k j : ℕ) (qs : List Queue) (q : Queue)
      → k ≤ j
      → items_below k (set qs j q) ≡ items_below k qs
  unfolding items_below
  items_below-set_above zero j qs q above = omega arith
  items_below-set_above (suc k) j [] q above = omega arith
  items_below-set_above (suc k) zero (p ∷ qs) q above = absurd (omega arith)
  items_below-set_above (suc k) (suc j) (p ∷ qs) q above =
      omega (arith, items_below-set_above k j qs q)

  pub items_below-set :
      (k j : ℕ) (qs : List Queue) {q : Queue} (q' : Queue)
      → j < k
      → get_elem? qs j ≡ some q
      → items_below k (set qs j q') + length (items q) ≡ items_below k qs + length (items q')
  unfolding items_below
  items_below-set zero j qs q' below at = absurd (omega arith)
  items_below-set (suc k) j [] q' below at = absurd (ground arith)
  items_below-set (suc k) zero (p ∷ qs) {q} q' below at =
      let same : p ≡ q = ground arith in omega (arith, ap (λ (r : Queue). length (items r)) same)
  items_below-set (suc k) (suc j) (p ∷ qs) q' below at =
      omega (arith, items_below-set k j qs q' (omega arith) at)

  pub items_below-all : (qs : List Queue) → items_below (length qs) qs ≡ total_size mpmc qs
  unfolding items_below total_size
  items_below-all [] = omega arith
  items_below-all (q ∷ qs) = omega (arith, size-items q, items_below-all qs)

-- A thread that leaves the place `i`, and one that comes to it.
pub up_to-less :
    (k i : ℕ) (f : ℕ → ℕ) {n : ℕ} → f i ≡ suc n → i ≤ k → up_to k (less f i n) + 1 ≡ up_to k f
unfolding less
up_to-less k i f {n} at within = omega (arith, up_to-put k i n f within)

pub up_to-less_later : (k i : ℕ) (f : ℕ → ℕ) (n : ℕ) → k < i → up_to k (less f i n) ≡ up_to k f
unfolding less
up_to-less_later k i f n later = up_to-put_later k i n f later

pub up_to-more : (k i : ℕ) (f : ℕ → ℕ) → i ≤ k → up_to k (more f i) ≡ up_to k f + 1
unfolding more
up_to-more k i f within = omega (arith, up_to-put k i (f i + 1) f within)

pub up_to-more_later : (k i : ℕ) (f : ℕ → ℕ) → k < i → up_to k (more f i) ≡ up_to k f
unfolding more
up_to-more_later k i f later = up_to-put_later k i (f i + 1) f later

pub up_to-none : (k : ℕ) → up_to k (λ _. 0) ≡ 0
unfolding up_to
up_to-none zero = omega arith
up_to-none (suc k) = omega (arith, up_to-none k)
