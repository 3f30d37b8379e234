-- ===== src/Pool/Task/Laws.antt =====
-- When a task runs and when it expires.
use thread_pool_exec.Prelude.{
  ℕ, ◌+◌, ◌-◌, ◌*◌, ◌%◌, ◌^◌, ◌≤◌, ◌<◌, ◌≡◌, ◌⊎◌, inl, inr, true, false, Option, none, some, List,
  [], ◌∷◌, ◌++◌, refl, arith, leb, ltb, Bool-cases, ℤ, pos,
}
use native.Mathlib.Nat.{mod-eq_of_lt}
use thread_pool_exec.Pool.Task.{
  Func, Thread, TaskStats, Call, make_task, run_task, start_task, stats_calls, expire_calls,
}

abbrev pub stats_of : Thread × TaskStats × List Call → TaskStats
stats_of (_, stats, _) = stats

abbrev pub calls_of : Thread × TaskStats × List Call → List Call
calls_of (_, _, calls) = calls

abbrev pub callback_call : Option Func → List Call
callback_call none = []
callback_call (some callback) = Call.expire_callback callback ∷ []

expire_calls_lem :
    (expiration : ℕ) (callback : Option Func)
    → expire_calls (some (record { expiration = expiration; expire_callback = callback }))
      ≡ callback_call callback
expire_calls_lem expiration none = refl
expire_calls_lem expiration (some callback) = refl

-- The milliseconds of a timeout, of which one below 0 is none.
abbrev pub milliseconds : ℤ → ℕ
milliseconds (pos n) = n
milliseconds (ℤ.negsuc _) = 0

-- A task runs, or expires.
abbrev pub Ends :
    Thread → Func → ℤ → Option Func → ℤ → ℕ → Option ℕ → ℕ → ℕ → ℕ → List Func → Type 0
Ends thread func expiration expire_callback priority now context start_time end_time active_time
      callbacks =
    let task = make_task (some func) expiration expire_callback priority now context in
    let result = run_task thread task start_time end_time active_time callbacks in
    let stats = stats_of result in
    let timeout = milliseconds expiration in
    (result.0 ≡ record thread { idle = true; last_active_time = active_time })
    × (((0 < timeout)
          × (now + timeout * 1000000 ≤ start_time)
          × (stats.expired ≡ true)
          × (stats.run_time ≡ 0)
          × (calls_of result ≡ callback_call expire_callback ++ stats_calls callbacks stats))
        ⊎ (((timeout ≡ 0) ⊎ (start_time < now + timeout * 1000000))
            × (stats.expired ≡ false)
            × (stats.run_time ≡ end_time - start_time)
            × (calls_of result ≡ Call.func (some func) ∷ stats_calls callbacks stats)))

-- Take a task whose timeout in nanoseconds is below 2 ^ 63, or is not positive. With a positive
-- timeout, where it starts that long after it was added, or later, it expires: its function is not
-- called, its expiration callback is, where it has one. Any other such task calls its function,
-- once. Subscribers hear of both, last; and the thread is idle again.
pub run_task-make_task :
    (thread : Thread) (func : Func) (expiration : ℤ) (expire_callback : Option Func) (priority : ℤ)
    (now : ℕ) (context : Option ℕ) (start_time end_time active_time : ℕ) (callbacks : List Func)
    → milliseconds expiration * 1000000 < 2 ^ 63
    → Ends thread func expiration expire_callback priority now context start_time end_time
        active_time callbacks
unfolding run_task make_task start_task
run_task-make_task thread func (ℤ.negsuc n) expire_callback priority now context start_time end_time
      active_time callbacks fits =
    (refl, inr (inl refl, refl, refl, refl))
run_task-make_task thread func (pos expiration) expire_callback priority now context start_time
      end_time active_time callbacks fits =
    let wraps : expiration * 1000000 % 2 ^ 64 ≡ expiration * 1000000 =
      mod-eq_of_lt (omega (arith, fits)) in
    let positive : ltb (expiration * 1000000) (2 ^ 63) ≡ true = ground (arith, fits) in
    elim (Bool-cases (ltb 0 expiration)) [
      | inl timed ↦
          rw (timed, wraps, positive)
            (elim (Bool-cases (leb (expiration * 1000000) (start_time - now))) [
              | inl late ↦
                  rw (late, expire_calls_lem expiration expire_callback)
                    (refl, inl (ground arith, ground arith, refl, refl, refl))
              | inr early ↦ rw early (refl, inr (inr (ground arith), refl, refl, refl))
            ])
      | inr untimed ↦ rw untimed (refl, inr (inl (ground arith), refl, refl, refl))
    ]
