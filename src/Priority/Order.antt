-- ===== src/Priority/Order.antt =====
-- The two ways of choosing a queue rank priorities alike, within bounds.
use thread_pool_exec.Prelude.{
  ℕ, suc, min, ◌+◌, ◌-◌, ◌/◌, ◌≤◌, ◌<◌, ◌≡◌, ℤ, pos, negsuc, ◌≤ℤ◌, sub_ℕ, arith,
}
use thread_pool_exec.Priority.{Clamp, queue_index, highest, lowest, translate_priority}

-- The values of `int8_t`.
pub record IsInt8 (p : ℤ) : Type 0 where
  pub above : negsuc 127 ≤ℤ p
  pub below : p ≤ℤ pos 127

-- The CHECK of `addWithPriority`.
pub queue_index_bound : (n : ℕ) (p : ℤ) → 0 < n → n < 256 → IsInt8 p → queue_index n p < n
unfolding queue_index
queue_index_bound n (pos p) h k v = ground arith
queue_index_bound n (negsuc p) h k v = ground arith

-- Among 1 to 255 queues, a higher `int8_t` priority never goes to a lower queue.
pub queue_index_mono :
    (n : ℕ) (p q : ℤ)
    → 0 < n
    → n < 256
    → IsInt8 p
    → IsInt8 q
    → p ≤ℤ q
    → queue_index n p ≤ queue_index n q
unfolding queue_index
queue_index_mono n (pos p) (pos q) h k v w le = ground arith
queue_index_mono n (pos p) (negsuc q) h k v w le = ground arith
queue_index_mono n (negsuc p) (pos q) h k v w le = ground arith
queue_index_mono n (negsuc p) (negsuc q) h k v w le = ground arith

highest_lem : (n : ℕ) → 0 < n → n < 256 → highest n ≡ pos ((n + 1) / 2 - 1)
unfolding highest
highest_lem n h k = ground arith

lowest_lem : (n : ℕ) → 0 < n → n < 256 → lowest n ≡ sub_ℕ 0 (n / 2)
unfolding lowest
lowest_lem n h k = rw (highest_lem n h k) (ground arith)

module _ (n p : ℕ) (some_queue : 0 < n) (fits : n < 256) (in_range : p < 128) where
  queue_index-pos : queue_index n (pos p) ≡ min (n - 1) (n / 2 + p)
  unfolding queue_index
  queue_index-pos = ground arith

  queue_index-negsuc : queue_index n (negsuc p) ≡ n / 2 - suc p
  unfolding queue_index
  queue_index-negsuc = ground arith

  translate_priority-pos : (c : Clamp) → translate_priority c n (pos p) ≡ (n + 1) / 2 - 1 - p
  unfolding translate_priority
  translate_priority-pos c =
      rw
        (
          highest_lem n some_queue fits,
          lowest_lem n some_queue fits,
          c.constexpr_clamp_lem (pos p) (sub_ℕ 0 (n / 2)) (pos ((n + 1) / 2 - 1)),
        )
        (ground arith)

  translate_priority-negsuc :
      (c : Clamp) → translate_priority c n (negsuc p) ≡ (n + 1) / 2 - 1 + min (suc p) (n / 2)
  unfolding translate_priority
  translate_priority-negsuc c =
      rw
        (
          highest_lem n some_queue fits,
          lowest_lem n some_queue fits,
          c.constexpr_clamp_lem (negsuc p) (sub_ℕ 0 (n / 2)) (pos ((n + 1) / 2 - 1)),
        )
        (ground arith)

-- For 1 to 255 queues and any `int8_t` priority, the index that the bounded priority queue
-- writes to and the index that the unbounded one enqueues at are mirror images. One dequeues from
-- its last queue on, the other from its first, so both rank the priorities alike.
pub queue_index-translate_priority :
    (c : Clamp) (n : ℕ) (p : ℤ)
    → 0 < n
    → n < 256
    → IsInt8 p
    → queue_index n p + translate_priority c n p + 1 ≡ n
queue_index-translate_priority c n (pos p) h k v =
    omega
      (arith, queue_index-pos n p h k (omega arith), translate_priority-pos n p h k (omega arith) c)
queue_index-translate_priority c n (negsuc p) h k v = omega (
  arith,
  queue_index-negsuc n p h k (omega arith),
  translate_priority-negsuc n p h k (omega arith) c,
)

-- Every queue serves some priority.
pub queue_index_onto :
    (n i : ℕ) → i < n → n < 256 → IsInt8 (sub_ℕ i (n / 2)) × (queue_index n (sub_ℕ i (n / 2)) ≡ i)
unfolding queue_index
queue_index_onto n i h k = (ground arith, ground arith)
