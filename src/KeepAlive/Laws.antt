-- ===== src/KeepAlive/Laws.antt =====
-- The count is right, the baton is posted once, and a join waits for the last KeepAlive.
use thread_pool_exec.Prelude.{
  ◌+◌, ◌<◌, ◌≡◌, ◌≢◌, ◌⊎◌, refl, arith, true, false, none, some, ◌==◌, if◌then◌else◌,
}
use thread_pool_exec.KeepAlive.{
  Control, made, keep_alive_acquire, keep_alive_release, lock, join_keep_alive,
  join_keep_alive_once, reset_keep_alive, Step, copy, take_own, drop, lock_weak, join_once,
  join_to_reset, reset, Reach, here, next,
}

-- The count is that of the KeepAlive objects, the executor's own included; the baton has been posted
-- once since its reset if there are none, and else not at all; and only a join gives up the
-- executor's own.
pub record Inv (c : Control) : Type 0 where
  pub counted : c.keep_alive_count ≡ c.tokens + (if c.keep_alive then 1 else 0)
  pub posted : c.posts ≡ (if c.keep_alive_count == 0 then 1 else 0)
  pub owned : (c.keep_alive_joined ≡ false) → (c.resetting ≡ false) → c.keep_alive ≡ true

Step-Inv : {c d : Control} → Step c d → Inv c → Inv d
unfolding keep_alive_acquire keep_alive_release lock join_keep_alive join_keep_alive_once
    reset_keep_alive
Step-Inv (copy held e) v = record {
  counted = ground (arith, v.counted);
  posted = ground (arith, v.posted);
  owned = ground (arith, v.owned);
}
Step-Inv (take_own held e) v = record {
  counted = ground (arith, v.counted);
  posted = ground (arith, v.posted);
  owned = ground (arith, v.owned);
}
Step-Inv (drop held e) v = record {
  counted = ground (arith, v.counted);
  posted = ground (arith, v.posted);
  owned = ground (arith, v.owned);
}
Step-Inv lock_weak v = record {
  counted = ground (arith, v.counted);
  posted = ground (arith, v.posted);
  owned = ground (arith, v.owned);
}
Step-Inv (join_once e) v = record {
  counted = ground (arith, v.counted);
  posted = ground (arith, v.posted);
  owned = ground (arith, v.owned);
}
Step-Inv (join_to_reset e) v = record {
  counted = ground (arith, v.counted);
  posted = ground (arith, v.posted);
  owned = λ j n. absurd (ground arith);
}
Step-Inv (reset resets woken e) v = record {
  counted = ground (arith, v.counted);
  posted = ground (arith, v.posted);
  owned = ground (arith, v.owned);
}

Reach-Inv : {c : Control} → Reach made c → Inv c
Reach-Inv here = record { counted = refl; posted = refl; owned = λ _ _. refl }
Reach-Inv (next r st) = Step-Inv st (Reach-Inv r)

-- From an executor's start on, whatever its holders, weak references and joins have done: whoever
-- holds a KeepAlive can copy and drop it with no failed DCHECK; the DCHECK of `joinKeepAliveOnce`
-- holds unless a `joinAndResetKeepAlive` is between its join and its reset; that of the
-- `joinKeepAlive` in `joinAndResetKeepAlive` holds unless another one is there, or the executor has
-- been joined by `joinKeepAliveOnce`; and the reset after the wait finds the count at 0.
pub Reach-checks :
    {c : Control}
    → Reach made c
    → ((c.tokens ≡ 0) ⊎ ((keep_alive_acquire c ≢ none) × (keep_alive_release c ≢ none)))
      × ((c.resetting ≡ true) ⊎ (join_keep_alive_once c ≢ none))
      × ((c.resetting ≡ true) ⊎ ((c.keep_alive_joined ≡ true) ⊎ (join_keep_alive c ≢ none)))
      × ((c.posts ≡ 0) ⊎ (reset_keep_alive c ≢ none))
unfolding keep_alive_acquire keep_alive_release join_keep_alive join_keep_alive_once
    reset_keep_alive
Reach-checks {c} r =
    let v = Reach-Inv r in
    (
      ground (arith, v.counted),
      ground (arith, v.counted, v.owned),
      ground (arith, v.counted, v.owned),
      ground (arith, v.posted),
    )

-- When the wait of a join returns, nobody holds a KeepAlive, the executor has given up its own, and
-- no weak reference can get one; the baton was posted once.
pub Reach-joined :
    {c : Control}
    → Reach made c
    → 0 < c.posts
    → (c.posts ≡ 1)
      × (c.tokens ≡ 0)
      × (c.keep_alive ≡ false)
      × (c.keep_alive_count ≡ 0)
      × (lock c ≡ (false, c))
unfolding lock
Reach-joined {c} r woken = let v = Reach-Inv r in ground (arith, v.counted, v.posted)

-- A join that waits does so for a KeepAlive that somebody holds; dropping the last of them posts.
pub Reach-waits :
    {c : Control}
    → Reach made c
    → c.keep_alive ≡ false
    → (c.posts ≡ 1)
      ⊎ ((0 < c.tokens)
          × ((c.tokens ≢ 1)
              ⊎ (keep_alive_release c ≡ some (record c { keep_alive_count = 0; posts = 1 }))))
unfolding keep_alive_release
Reach-waits {c} r given = let v = Reach-Inv r in ground (arith, v.counted, v.posted)
