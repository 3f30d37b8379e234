-- ===== src/Examples/Batons.antt =====
-- A wait that falls asleep, and the post that wakes it.
use thread_pool_exec.Prelude.{true, false, ◌≡◌, ◌≢◌, ◌⊎◌, refl}
use thread_pool_exec.Baton.{
  Baton, Waiter, Poster, waiting, late_delivery, returned, asleep, awake, waking, posted, fresh,
  is_ready, Reach, here, next, step_try_wait, step_advance, step_announce, step_enter, step_load,
  step_act, step_wake, step_wake_up, try_wait, announce, enter, post_load, post_act, wake, wake_up,
}
use thread_pool_exec.Baton.Laws.{Reach-asserts, Reach-woken, wait_step, has_returned}

sleeps :
    Reach
      (fresh true)
      (record { state = waiting; waiter = asleep; poster = Poster.ready; forever = true })
unfolding try_wait announce enter
sleeps = next (next (next (next here step_try_wait) step_advance) step_announce) step_enter

abbrev woken : Baton
woken = record { state = late_delivery; waiter = awake; poster = posted; forever = true }

wakes : Reach (fresh true) woken
unfolding post_load post_act wake
wakes = next (next (next sleeps step_load) step_act) step_wake

returns :
    Reach
      (fresh true)
      (record { state = late_delivery; waiter = returned true; poster = posted; forever = true })
unfolding wake_up
returns = next wakes step_wake_up

Reach-asserts_example :
    (returned true ≢ Waiter.failed)
    × (posted ≢ Poster.failed)
    × ((has_returned (returned true) ≡ false) ⊎ (late_delivery ≢ waiting))
    × ((returned true ≢ returned true)
        ⊎ ((is_ready late_delivery ≡ true) × ((posted ≡ waking) ⊎ (posted ≡ posted))))
Reach-asserts_example = Reach-asserts returns

Reach-woken_example :
    (awake ≢ asleep)
    × ((awake ≡ returned false) ⊎ ((wait_step (wait_step woken)).waiter ≡ returned true))
Reach-woken_example = Reach-woken wakes refl
