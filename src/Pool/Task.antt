-- ===== src/Pool/Task.antt =====
-- Tasks and pool threads: `Task`, `Thread` and `runTask` of
-- ThreadPool/executors/ThreadPoolExecutor.{h,cpp}, `CPUTask` of CPUThreadPoolExecutor.h.
-- A function object is a name; clock readings are arguments.
pub mod Laws
use thread_pool_exec.Prelude.{
  ℕ, ◌-◌, ◌*◌, ◌%◌, ◌^◌, Bool, true, false, Option, none, some, List, [], ◌∷◌, ◌++◌, if◌then◌else◌,
  ltb, leb, ℤ, pos,
}

abbrev pub Func : Type 0
Func = ℕ

pub record Expiration : Type 0 where
  pub expiration : ℕ  -- milliseconds
  pub expire_callback : Option Func

pub record Task : Type 0 where
  pub func : Option Func
  pub enqueue_time : ℕ  -- nanoseconds
  pub context : Option ℕ  -- the root id of the saved request context
  pub expiration : Option Expiration
  pub poison : Bool
  pub priority : ℤ

-- `CPUTask(f, expiration, expireCallback, pri)` over `Task(...)`, at time `now`. A duration may be
-- negative.
unfoldable pub make_task : Option Func → ℤ → Option Func → ℤ → ℕ → Option ℕ → Task
make_task func (pos expiration) expire_callback pri now context = record {
  func = func;
  enqueue_time = now;
  context = context;
  expiration =
      if ltb 0 expiration
      then some (record { expiration = expiration; expire_callback = expire_callback })
      else none;
  poison = false;
  priority = pri;
}
make_task func (ℤ.negsuc _) expire_callback pri now context = record {
  func = func;
  enqueue_time = now;
  context = context;
  expiration = none;
  poison = false;
  priority = pri;
}

-- `CPUTask()`
unfoldable pub poison_task : ℕ → Option ℕ → Task
unfolding make_task
poison_task now context = record (make_task none (pos 0) none (pos 0) now context) { poison = true }

-- Where a worker stands in `threadRun` of CPUThreadPoolExecutor.cpp.
pub data Place : Type 0 where
  taking : Place  -- at `try_take_for`
  took : Option Task → Place  -- timed out or poisoned, before the lock
  running : Task → Place  -- in `runTask`
  ran : Place  -- after `runTask`
  retiring : Place  -- past the test of `threadsToStop_`, before the lock

pub record Thread : Type 0 where
  pub id : ℕ
  pub idle : Bool
  pub last_active_time : ℕ
  pub place : Place

pub record TaskStats : Type 0 where
  pub expired : Bool
  pub wait_time : ℕ
  pub run_time : ℕ
  pub enqueue_time : ℕ
  pub request_id : ℕ

-- What `invokeCatchingExns` is given; a null function throws, and is caught like any exception.
pub data Call : Type 0 where
  func : Option Func → Call
  expire_callback : Func → Call
  stats_callback : Func → TaskStats → Call

abbrev context_id : Option ℕ → ℕ
context_id none = 0
context_id (some root) = root

-- The milliseconds are converted to nanoseconds in `int64_t`; past 2 ^ 63 they wrap, and a negative
-- expiration is over at once.
abbrev is_overdue : Option Expiration → ℕ → Bool
is_overdue none wait_time = false
is_overdue (some e) wait_time =
    let nanoseconds = e.expiration * 1000000 % 2 ^ 64 in
    if ltb nanoseconds (2 ^ 63) then leb nanoseconds wait_time else true

abbrev pub expire_calls : Option Expiration → List Call
expire_calls none = []
expire_calls (some e) = elim e.expire_callback [
  | none ↦ []
  | some callback ↦ expire_callback callback ∷ []
]

unfoldable pub stats_calls : List Func → TaskStats → List Call
stats_calls [] stats = []
stats_calls (callback ∷ rest) stats = stats_callback callback stats ∷ stats_calls rest stats

-- The first store of `runTask`.
unfoldable pub start_task : Thread → Thread
start_task thread = record thread { idle = false }

-- `runTask`, with the clock at its start, at the end of the task and at the last store, and the
-- subscribed callbacks, which return; it gives the thread, the statistics and the calls made, in
-- order. The clock does not run backwards.
unfoldable pub run_task : Thread → Task → ℕ → ℕ → ℕ → List Func → Thread × TaskStats × List Call
unfolding stats_calls start_task
run_task thread task start_time end_time active_time callbacks =
    let wait_time = start_time - task.enqueue_time in
    let expired = is_overdue task.expiration wait_time in
    let stats : TaskStats = record {
      expired = expired;
      wait_time = wait_time;
      run_time = if expired then 0 else end_time - start_time;
      enqueue_time = task.enqueue_time;
      request_id = context_id task.context;
    } in
    (
      record (start_task thread) { idle = true; last_active_time = active_time },
      stats,
      (if expired then expire_calls task.expiration else Call.func task.func ∷ [])
          ++ stats_calls callbacks stats,
    )
