-- ===== src/Baton.antt =====
-- `Baton` of ThreadPool/synchronization/Baton.h, of the kind that may block: one call of `wait` or
-- `try_wait_until` and one of `post`, each an atomic access at a time. The futex is the kernel's:
-- its wait begins only while the word holds the expected value, and may end at any time; but it ends
-- with TIMEDOUT only where it has a deadline, and `time_point::max()` asks for none.
pub mod Laws
use thread_pool_exec.Prelude.{Bool, true, false, ◌≡◌}

pub data State : Type 0 where
  init early_delivery waiting late_delivery timed_out : State

-- Where the waiter stands; `failed` is a failed assertion, here and below.
pub data Waiter : Type 0 where
  start : Waiter  -- before `try_wait`
  spinning : Waiter  -- in `spin_pause_until`
  announcing : Waiter  -- at the compare-and-swap of `tryWaitSlow`
  entering : Waiter  -- at `futexWaitUntil`
  asleep : Waiter
  awake : Waiter  -- at the load after `futexWaitUntil`
  returned : Bool → Waiter
  failed : Waiter

pub data Poster : Type 0 where
  ready : Poster  -- before `post`
  loaded : State → Poster  -- with `before`
  waking : Poster  -- at `futexWake`
  posted : Poster
  failed : Poster

pub record Baton : Type 0 where
  pub state : State
  pub waiter : Waiter
  pub poster : Poster
  pub forever : Bool  -- whether the deadline of the wait is `time_point::max()`

-- `ready`
unfoldable pub is_ready : State → Bool
is_ready early_delivery = true
is_ready late_delivery = true
is_ready _ = false

-- `try_wait`
unfoldable pub try_wait : State → Waiter
try_wait init = spinning
try_wait early_delivery = returned true
try_wait _ = failed

-- A test of `ready` in the spin loop, and its end without one.
unfoldable pub spin : State → Waiter
unfolding is_ready
spin s = elim (is_ready s) [ true ↦ returned true | false ↦ spinning ]

-- The compare-and-swap from INIT to WAITING.
unfoldable pub announce : State → State × Waiter
announce init = (waiting, entering)
announce early_delivery = (early_delivery, returned true)
announce s = (s, failed)

unfoldable pub enter : State → Waiter
enter waiting = asleep
enter _ = awake

-- The futex wait ends with TIMEDOUT, which the assertion wants of a wait with a deadline only.
unfoldable pub time_out : Bool → State → State × Waiter
time_out true s = (s, failed)
time_out false s = (timed_out, returned false)

-- It ends otherwise.
unfoldable pub wake_up : State → Waiter
wake_up late_delivery = returned true
wake_up waiting = entering
wake_up _ = failed

-- `post`: its first load, then what it does with the value.
unfoldable pub post_load : State → Poster
post_load init = loaded init
post_load waiting = loaded waiting
post_load timed_out = loaded timed_out
post_load _ = Poster.failed

unfoldable pub post_act : State → State → State × Poster
post_act init init = (early_delivery, posted)
post_act init waiting = (waiting, loaded waiting)
post_act init timed_out = (timed_out, loaded timed_out)
post_act init s = (s, Poster.failed)
post_act timed_out s = (s, posted)
post_act waiting s = (late_delivery, waking)
post_act _ s = (s, Poster.failed)

-- `futexWake`
unfoldable pub wake : Waiter → Waiter
wake asleep = awake
wake w = w

pub data Step : Baton → Baton → Type 0 where
  step_try_wait :
      {s : State} {p : Poster} {f : Bool}
      → Step
          (record { state = s; waiter = start; poster = p; forever = f })
          (record { state = s; waiter = try_wait s; poster = p; forever = f })
  step_spin :
      {s : State} {p : Poster} {f : Bool}
      → Step
          (record { state = s; waiter = spinning; poster = p; forever = f })
          (record { state = s; waiter = spin s; poster = p; forever = f })
  step_advance :
      {s : State} {p : Poster} {f : Bool}
      → Step
          (record { state = s; waiter = spinning; poster = p; forever = f })
          (record { state = s; waiter = announcing; poster = p; forever = f })
  step_give_up :
      {s : State} {p : Poster} {f : Bool}
      → Step
          (record { state = s; waiter = spinning; poster = p; forever = f })
          (record { state = s; waiter = returned false; poster = p; forever = f })
  step_announce :
      {s : State} {p : Poster} {f : Bool}
      → Step
          (record { state = s; waiter = announcing; poster = p; forever = f })
          (record { state = (announce s).0; waiter = (announce s).1; poster = p; forever = f })
  step_enter :
      {s : State} {p : Poster} {f : Bool}
      → Step
          (record { state = s; waiter = entering; poster = p; forever = f })
          (record { state = s; waiter = enter s; poster = p; forever = f })
  step_end_sleep :
      {s : State} {p : Poster} {f : Bool}
      → Step
          (record { state = s; waiter = asleep; poster = p; forever = f })
          (record { state = s; waiter = awake; poster = p; forever = f })
  step_time_out :
      {s : State} {p : Poster} {f : Bool}
      → f ≡ false
      → Step
          (record { state = s; waiter = asleep; poster = p; forever = f })
          (record { state = (time_out f s).0; waiter = (time_out f s).1; poster = p; forever = f })
  step_wake_up :
      {s : State} {p : Poster} {f : Bool}
      → Step
          (record { state = s; waiter = awake; poster = p; forever = f })
          (record { state = s; waiter = wake_up s; poster = p; forever = f })
  step_load :
      {s : State} {w : Waiter} {f : Bool}
      → Step
          (record { state = s; waiter = w; poster = ready; forever = f })
          (record { state = s; waiter = w; poster = post_load s; forever = f })
  step_act :
      {s before : State} {w : Waiter} {f : Bool}
      → Step
          (record { state = s; waiter = w; poster = loaded before; forever = f })
          (record {
            state = (post_act before s).0;
            waiter = w;
            poster = (post_act before s).1;
            forever = f;
          })
  step_wake :
      {s : State} {w : Waiter} {f : Bool}
      → Step
          (record { state = s; waiter = w; poster = waking; forever = f })
          (record { state = s; waiter = wake w; poster = posted; forever = f })

pub data Reach (b : Baton) : Baton → Type 0 where
  here : Reach b b
  next : {c d : Baton} → Reach b c → Step c d → Reach b d

-- The baton of a constructor or of `reset`, with both calls ahead.
abbrev pub fresh : Bool → Baton
fresh forever = record { state = init; waiter = start; poster = ready; forever = forever }
