-- ===== src/Baton/Laws.antt =====
-- The assertions of a baton hold, and no post is lost, however the two calls interleave.
use thread_pool_exec.Prelude.{Bool, true, false, ◌≡◌, ◌≢◌, ◌⊎◌, refl, arith}
use thread_pool_exec.Baton.{
  State, Waiter, Poster, Baton, init, early_delivery, waiting, late_delivery, timed_out, start,
  spinning, announcing, entering, asleep, awake, returned, ready, loaded, waking, posted, try_wait,
  spin, is_ready, announce, enter, time_out, wake_up, post_load, post_act, wake, Step,
  step_try_wait, step_spin, step_advance, step_give_up, step_announce, step_enter, step_end_sleep,
  step_time_out, step_wake_up, step_load, step_act, step_wake, Reach, here, next, fresh,
}

-- Before the post has stored anything.
abbrev unposted : Poster → Bool
unposted ready = true
unposted (loaded init) = true
unposted _ = false

-- The states that the three parts can be in together.
unfoldable pub agree : State → Waiter → Poster → Bool
agree init start p = unposted p
agree init spinning p = unposted p
agree init announcing p = unposted p
agree init (returned false) p = unposted p
agree early_delivery start posted = true
agree early_delivery spinning posted = true
agree early_delivery announcing posted = true
agree early_delivery (returned _) posted = true
agree waiting entering (loaded waiting) = true
agree waiting asleep (loaded waiting) = true
agree waiting awake (loaded waiting) = true
agree waiting entering p = unposted p
agree waiting asleep p = unposted p
agree waiting awake p = unposted p
agree timed_out (returned false) (loaded waiting) = true
agree timed_out (returned false) (loaded timed_out) = true
agree timed_out (returned false) posted = true
agree timed_out (returned false) waking = true
agree timed_out (returned false) p = unposted p
agree late_delivery entering waking = true
agree late_delivery asleep waking = true
agree late_delivery awake waking = true
agree late_delivery (returned _) waking = true
agree late_delivery entering posted = true
agree late_delivery awake posted = true
agree late_delivery (returned _) posted = true
agree _ _ _ = false

abbrev Inv : Baton → Type 0
Inv b = agree b.state b.waiter b.poster ≡ true

Step-Inv : {b c : Baton} → Step b c → Inv b → Inv c
unfolding agree try_wait spin is_ready announce enter time_out wake_up post_load post_act wake
Step-Inv (step_try_wait {s} {p} {f}) v = ground arith
Step-Inv (step_spin {s} {p} {f}) v = ground arith
Step-Inv (step_advance {s} {p} {f}) v = ground arith
Step-Inv (step_give_up {s} {p} {f}) v = ground arith
Step-Inv (step_announce {s} {p} {f}) v = ground arith
Step-Inv (step_enter {s} {p} {f}) v = ground arith
Step-Inv (step_end_sleep {s} {p} {f}) v = ground arith
Step-Inv (step_time_out {s} {p} {f} dated) v = ground arith
Step-Inv (step_wake_up {s} {p} {f}) v = ground arith
Step-Inv (step_load {s} {w} {f}) v = ground arith
Step-Inv (step_act {s} {before} {w} {f}) v = ground arith
Step-Inv (step_wake {s} {w} {f}) v = ground arith

Reach-Inv : {f : Bool} {b : Baton} → Reach (fresh f) b → Inv b
unfolding agree
Reach-Inv here = refl
Reach-Inv (next r st) = Step-Inv st (Reach-Inv r)

abbrev pub has_returned : Waiter → Bool
has_returned (returned _) = true
has_returned _ = false

returned_true :
    (b : Baton)
    → Inv b
    → (b.waiter ≢ returned true)
      ⊎ ((is_ready b.state ≡ true) × ((b.poster ≡ waking) ⊎ (b.poster ≡ posted)))
unfolding agree is_ready
returned_true b v = ground arith

-- From a fresh baton, with a deadline or without one, and whatever the order of the steps of one
-- wait and one post, where the futex reports TIMEDOUT to a wait with a deadline only: no assertion of
-- `try_wait`, `tryWaitSlow` or `post` fails; once the wait has returned, neither does that of
-- `reset` and of the destructor; and a wait has returned true only after the post has stored, with
-- the state then one that `ready` accepts.
pub Reach-asserts :
    {f : Bool} {b : Baton}
    → Reach (fresh f) b
    → (b.waiter ≢ Waiter.failed)
      × (b.poster ≢ Poster.failed)
      × ((has_returned b.waiter ≡ false) ⊎ (b.state ≢ waiting))
      × ((b.waiter ≢ returned true)
          ⊎ ((is_ready b.state ≡ true) × ((b.poster ≡ waking) ⊎ (b.poster ≡ posted))))
unfolding agree is_ready
Reach-asserts {b} r =
    let v = Reach-Inv r in (λ e. ground arith, λ e. ground arith, ground arith, returned_true b v)

-- The waiter's own next step, with no end of its time.
unfoldable pub wait_step : Baton → Baton
unfolding try_wait spin announce enter wake_up
wait_step b = elim b.waiter [
  | start ↦ record b { waiter = try_wait b.state }
  | spinning ↦ record b { waiter = spin b.state }
  | announcing ↦ record b { state = (announce b.state).0; waiter = (announce b.state).1 }
  | entering ↦ record b { waiter = enter b.state }
  | awake ↦ record b { waiter = wake_up b.state }
  | _ ↦ b
]

-- No wakeup is lost: once `post` has returned, the waiter is not asleep, and unless its time ran
-- out before, two steps of its own are enough for it to return true.
pub Reach-woken :
    {f : Bool} {b : Baton}
    → Reach (fresh f) b
    → b.poster ≡ posted
    → (b.waiter ≢ asleep)
      × ((b.waiter ≡ returned false) ⊎ ((wait_step (wait_step b)).waiter ≡ returned true))
unfolding agree wait_step try_wait spin is_ready announce enter wake_up
Reach-woken {b} r e = let v = Reach-Inv r in ground arith
