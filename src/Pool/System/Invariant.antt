-- ===== src/Pool/System/Invariant.antt =====
-- The invariant of a pool, and that every step keeps it.
mod Defs
mod Effects
mod Resizing
mod Working
mod Leaving
pub use Defs.*
pub use Resizing.{
  set_num_threads_cases, stop_or_join_cases, remove_threads-Stopping, Stopping, new_min-le,
  extra-le,
}
pub use Effects.{add_all-Grown, Grown}
use Resizing.{resize-Inv, close-Inv, activate-Inv}
use Working.{take-Inv, time_out-Inv, finish-Inv, check-Inv}
use Leaving.{withdraw-Inv, decide-Inv}
use thread_pool_exec.Prelude.{ℕ, ◌+◌, ◌≤◌, ◌≡◌, refl, ap, arith, List, [], ◌∷◌, length}
use thread_pool_exec.TaskQueue.{BlockingQueue, weigh}
use thread_pool_exec.Pool.Task.{Task}
use thread_pool_exec.Pool.ThreadList.Laws.{total}
use thread_pool_exec.Pool.Resize.{ensure_joined, add_observer, remove_observer}
use thread_pool_exec.Pool.System.Defs.{
  System, due, Step, IsOrderly, resize, close, resize_throws, close_throws, join_one, reap,
  activate, submit, observe, forget, elsewhere, take, time_out, finish, check, withdraw,
  decide_stop, Reach, here, next,
}
use Effects.{Below-mono}

module _ (bq : BlockingQueue Task) where
  open bq use {Queue, items, weigh-add}

  -- Every step keeps the invariant, but for a `stop` or `join` that begins while a thread is still
  -- to stop, and a `setNumThreads`, `stop` or `join` that a full queue's exception ends: the live threads are those active and those to stop; each
  -- thread that has stopped or is to stop is owed to exactly one join; no more are active than
  -- `maxThreads_`; the list rises by id; and every thread to stop has poison, in the queue or
  -- taken by a worker.
  pub Step-Inv : {s u : System Queue} → (st : Step bq s u) → IsOrderly bq st → Inv bq s → Inv bq u
  unfolding ensure_joined add_observer remove_observer
  Step-Inv {s} (resize n at e) o v = resize-Inv bq n at s e v
  Step-Inv {s} (close j at e) o v = close-Inv bq j at s o e v
  Step-Inv (resize_throws n at e) o v = absurd o
  Step-Inv (close_throws j at e) o v = absurd o
  Step-Inv {s} (join_one {t} {ts} {n} stopped owed) o v = record {
    listed = v.listed;
    owed = omega (arith, v.owed, ap length stopped);
    capped = v.capped;
    rising = v.rising;
    fresh = v.fresh;
    poisoned = v.poisoned;
  }
  Step-Inv {s} reap o v = record {
    listed = v.listed;
    owed = omega (arith, v.owed);
    capped = v.capped;
    rising = v.rising;
    fresh = v.fresh;
    poisoned = v.poisoned;
  }
  Step-Inv {s} (activate now) o v = activate-Inv bq now s v
  Step-Inv {s} (submit x priority {q} plain e) o v = record {
    listed = v.listed;
    owed = v.owed;
    capped = v.capped;
    rising = v.rising;
    fresh = v.fresh;
    poisoned = omega (arith, v.poisoned, weigh-add is_poison s.pool.task_queue x priority e);
  }
  Step-Inv {s} (observe w) o v = record {
    listed = v.listed;
    owed = v.owed;
    capped = v.capped;
    rising = v.rising;
    fresh = v.fresh;
    poisoned = v.poisoned;
  }
  Step-Inv {s} (forget w) o v = record {
    listed = v.listed;
    owed = v.owed;
    capped = v.capped;
    rising = v.rising;
    fresh = v.fresh;
    poisoned = v.poisoned;
  }
  Step-Inv {s} (elsewhere n) o v = record {
    listed = v.listed;
    owed = v.owed;
    capped = v.capped;
    rising = v.rising;
    fresh =
        Below-mono {m = s.pool.next_id} {n = s.pool.next_id + n} s.pool.thread_list.vec
          (omega arith) v.fresh;
    poisoned = v.poisoned;
  }
  Step-Inv {s} (take t h e taken) o v = take-Inv bq s t v h e taken
  Step-Inv {s} (time_out t h e) o v = time_out-Inv bq s t v h e
  Step-Inv {s} (finish t a b c d h e) o v = finish-Inv bq s t a b c d v h e
  Step-Inv {s} (check t h e) o v = check-Inv bq s t v h e
  Step-Inv {s} (withdraw t cpu h e done) o v = withdraw-Inv bq s t cpu v h e done
  Step-Inv {s} (decide_stop t cpu h e done) o v = decide-Inv bq s t cpu v h e done

  pub Reach-Inv : {s u : System Queue} → Reach bq s u → Inv bq s → Inv bq u
  Reach-Inv here v = v
  Reach-Inv (next r st o) v = Step-Inv st o (Reach-Inv r v)
