-- ===== src/KeepAlive.antt =====
-- The keep-alive count of an executor: ThreadPool/DefaultKeepAliveExecutor.h, and joinKeepAliveOnce
-- of ThreadPool/executors/ThreadPoolExecutor.h.
pub mod Laws
use thread_pool_exec.Prelude.{
  ℕ, suc, zero, ◌+◌, ◌-◌, ◌≡◌, Bool, true, false, Option, none, some, ◌==◌, ltb, if◌then◌else◌,
}

-- `tokens` counts the KeepAlive objects that others hold.
pub record Control : Type 0 where
  pub keep_alive_count : ℕ  -- `ssize_t`, never below 0
  pub keep_alive : Bool  -- whether `keepAlive_` holds one of them
  pub posts : ℕ  -- of `keepAliveReleaseBaton_`, since its last reset
  pub keep_alive_joined : Bool
  pub tokens : ℕ
  pub resetting : Bool  -- whether a `joinAndResetKeepAlive` is past its `joinKeepAlive`

abbrev pub made : Control
made = record {
  keep_alive_count = 1;
  keep_alive = true;
  posts = 0;
  keep_alive_joined = false;
  tokens = 0;
  resetting = false;
}

-- `keepAliveAcquire`; `none` is a failed DCHECK, here and below.
unfoldable pub keep_alive_acquire : Control → Option Control
keep_alive_acquire c =
    if ltb 0 c.keep_alive_count
    then some (record c { keep_alive_count = c.keep_alive_count + 1 })
    else none

-- `keepAliveRelease`
unfoldable pub keep_alive_release : Control → Option Control
keep_alive_release c = elim c.keep_alive_count [
  | zero ↦ none
  | suc n ↦
      some (record c { keep_alive_count = n; posts = if n == 0 then c.posts + 1 else c.posts })
]

-- `WeakRef::lock`; the flag says whether it gives a KeepAlive.
unfoldable pub lock : Control → Bool × Control
lock c =
    if c.keep_alive_count == 0
    then (false, c)
    else (true, record c { keep_alive_count = c.keep_alive_count + 1; tokens = c.tokens + 1 })

-- `joinKeepAlive`, up to the wait.
unfoldable pub join_keep_alive : Control → Option Control
unfolding keep_alive_release
join_keep_alive c =
    if c.keep_alive then keep_alive_release (record c { keep_alive = false }) else none

-- `joinKeepAliveOnce`, up to the wait; the flag says whether it waits.
unfoldable pub join_keep_alive_once : Control → Option (Bool × Control)
unfolding join_keep_alive
join_keep_alive_once c =
    if c.keep_alive_joined
    then some (false, c)
    else elim (join_keep_alive (record c { keep_alive_joined = true })) [
      | none ↦ none
      | some c' ↦ some (true, c')
    ]

-- The rest of `joinAndResetKeepAlive`, after the wait.
unfoldable pub reset_keep_alive : Control → Option Control
reset_keep_alive c =
    if c.keep_alive_count == 0
    then some (record c { keep_alive_count = 1; keep_alive = true; posts = 0 })
    else none

-- A KeepAlive is copied by one who holds it, or dropped; a weak reference is locked at any time; and
-- the owner joins, for good by `joinKeepAliveOnce` or to start anew by `joinAndResetKeepAlive`.
pub data Step (c : Control) : Control → Type 0 where
  copy :
      {d : Control}
      → ltb 0 c.tokens ≡ true
      → keep_alive_acquire c ≡ some d
      → Step c (record d { tokens = d.tokens + 1 })
  take_own :
      {d : Control}
      → c.keep_alive ≡ true
      → keep_alive_acquire c ≡ some d
      → Step c (record d { tokens = d.tokens + 1 })
  drop :
      {d : Control} {n : ℕ}
      → c.tokens ≡ suc n
      → keep_alive_release (record c { tokens = n }) ≡ some d
      → Step c d
  lock_weak : Step c ((lock c).1)
  join_once : {waits : Bool} {d : Control} → join_keep_alive_once c ≡ some (waits, d) → Step c d
  -- `joinAndResetKeepAlive`: its `joinKeepAlive`, and the rest of it once the wait has returned.
  join_to_reset :
      {d : Control} → join_keep_alive c ≡ some d → Step c (record d { resetting = true })
  reset :
      {d : Control}
      → c.resetting ≡ true
      → ltb 0 c.posts ≡ true
      → reset_keep_alive c ≡ some d
      → Step c (record d { resetting = false })

pub data Reach (c : Control) : Control → Type 0 where
  here : Reach c c
  next : {d e : Control} → Reach c d → Step d e → Reach c e
