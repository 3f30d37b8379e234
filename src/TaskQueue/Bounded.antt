-- ===== src/TaskQueue/Bounded.antt =====
-- What a priority queue asks of an `MPMCQueue` of ThreadPool/MPMCQueue.h, one call at a time.
use thread_pool_exec.Prelude.{ℕ, ◌≤◌, ◌≡◌, Option, none, some, List, [], ◌∷◌, ◌++◌, length}

-- `none` is `false` of `writeIfNotFull` and of `readIfNotEmpty`.
pub record BoundedQueue (T : Type 0) : Type 1 where
  pub Queue : Type 0
  pub items : Queue → List T
  pub capacity : Queue → ℕ
  pub make : ℕ → Queue
  pub write_if_not_full : Queue → T → Option Queue
  pub read_if_not_empty : Queue → Option (T × Queue)
  pub size : Queue → ℕ
  pub make-items : (n : ℕ) → items (make n) ≡ []
  pub size-items : (q : Queue) → size q ≡ length (items q)
  pub write-items :
      (q : Queue) (x : T) {q' : Queue}
      → write_if_not_full q x ≡ some q'
      → items q' ≡ items q ++ x ∷ []
  pub write_none :
      (q : Queue) (x : T) → write_if_not_full q x ≡ none → capacity q ≤ length (items q)
  pub read-items :
      (q : Queue) {x : T} {q' : Queue} → read_if_not_empty q ≡ some (x, q') → items q ≡ x ∷ items q'
  pub read_none : (q : Queue) → read_if_not_empty q ≡ none → items q ≡ []
