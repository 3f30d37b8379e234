-- ===== src/Mpmc/Dynamic/Threads.antt =====
-- The threads that use the queue of ThreadPool/MPMCQueue.h that grows, an atomic access at a time:
-- how each reads the arrays under the sequence lock, finds the array of its ticket and draws the
-- ticket, while one of them expands the queue.
use thread_pool_exec.Prelude.{
  put, ℕ, suc, ◌+◌, ◌*◌, ◌%◌, ◌^◌, ◌<◌, ◌≡◌, ◌≢◌, min, max, Option, none, some, set, ◌==◌,
  if◌then◌else◌,
}
use thread_pool_exec.Mpmc.Stride.{compute_stride}
use thread_pool_exec.Mpmc.Dynamic.{ClosedArray, Dynamic, get_offset, get_num_closed, pack, array_of}
pub mod Defs
pub mod Reading
pub mod Growing
pub mod Invariant
pub mod Seqlock

-- What a thread reads of the word and the newest array.
pub record Snapshot : Type 0 where
  pub state : ℕ
  pub slots : ℕ
  pub capacity : ℕ
  pub stride : ℕ

-- Where `tryExpand` stands in the thread that holds the lock. Each has the arguments `state` and
-- `cap`; then come the tickets that it has loaded, and the array that it has allocated.
pub data Writer : Type 0 where
  unlocked : Writer
  locked : ℕ → ℕ → Writer
  pushes_loaded : ℕ → ℕ → ℕ → Writer
  counted : ℕ → ℕ → ℕ → ℕ → Writer
  archived : ℕ → ℕ → ℕ → ℕ → ℕ → Writer
  slots_stored : ℕ → ℕ → ℕ → ℕ → ℕ → Writer
  capacity_stored : ℕ → ℕ → ℕ → ℕ → ℕ → Writer
  stride_stored : ℕ → ℕ → ℕ → ℕ → ℕ → Writer

-- The entry of `closed_` for the array that an expansion replaces.
abbrev pub closing : ℕ → ℕ → Dynamic → ClosedArray
closing state cap d = record {
  offset = get_offset state;
  slots = d.dslots;
  capacity = cap;
  stride = d.dstride;
}

abbrev pub new_capacity : ℕ → Dynamic → ℕ
new_capacity cap d = min (d.multiplier * cap % 2 ^ 64) d.capacity

-- The next access of `tryExpand`, once it has the lock: `new_slots` is what `new` gives, `push` and
-- `pop` are the tickets now. The four stores to the entry of `closed_` are one step.
unfoldable pub expand_step : Option ℕ → ℕ → ℕ → Writer → Dynamic → Writer × Dynamic
expand_step new_slots push pop unlocked d = (unlocked, d)
expand_step new_slots push pop (locked s c) d = (pushes_loaded s c push, d)
expand_step new_slots push pop (pushes_loaded s c p) d = (counted s c p pop, d)
expand_step none push pop (counted s c p q) d = (unlocked, record d { dstate = s })
expand_step (some name) push pop (counted s c p q) d =
    (archived s c p q name, record d { closed = set d.closed (get_num_closed s) (closing s c d) })
expand_step new_slots push pop (archived s c p q name) d =
    (slots_stored s c p q name, record d { dslots = name })
expand_step new_slots push pop (slots_stored s c p q name) d =
    (capacity_stored s c p q name, record d { dcapacity = new_capacity c d })
expand_step new_slots push pop (capacity_stored s c p q name) d =
    (stride_stored s c p q name, record d { dstride = compute_stride (new_capacity c d) })
expand_step new_slots push pop (stride_stored s c p q name) d =
    (unlocked, record d { dstate = pack (1 + max p q) (get_num_closed s + 1) })

-- Where a thread stands with its ticket: in `trySeqlockReadSection`, at `maybeUpdateFromClosed`, and
-- past it. `failed` is the assertion that ends `maybeUpdateFromClosed`.
pub data Reader : Type 0 where
  idle : Reader
  ticketed : ℕ → Reader
  state_loaded : ℕ → ℕ → Reader
  slots_loaded : ℕ → ℕ → ℕ → Reader
  capacity_loaded : ℕ → ℕ → ℕ → ℕ → Reader
  all_loaded : ℕ → Snapshot → Reader
  inside : ℕ → Snapshot → Reader
  using : ℕ → Snapshot → ClosedArray → Reader
  failed : Reader

-- The queue as a thread with this snapshot sees it: `closed_` is read from memory.
abbrev pub seen : Snapshot → Dynamic → Dynamic
seen v d = record d {
  dstate = v.state;
  dslots = v.slots;
  dcapacity = v.capacity;
  dstride = v.stride;
}

unfoldable pub with_array : ℕ → Snapshot → Option ClosedArray → Reader
with_array t v none = failed
with_array t v (some a) = using t v a

-- The next access of a thread that has a ticket.
unfoldable pub read_step : Dynamic → Reader → Reader
unfolding with_array
read_step d idle = idle
read_step d (ticketed t) = if d.dstate % 2 == 0 then state_loaded t d.dstate else ticketed t
read_step d (state_loaded t s) = slots_loaded t s d.dslots
read_step d (slots_loaded t s x) = capacity_loaded t s x d.dcapacity
read_step d (capacity_loaded t s x c) =
    all_loaded t (record { state = s; slots = x; capacity = c; stride = d.dstride })
read_step d (all_loaded t v) = if v.state == d.dstate then inside t v else ticketed t
read_step d (inside t v) = with_array t v (array_of t (seen v d))
read_step d (using t v a) = using t v a
read_step d failed = failed

-- `published` is the queue as the last store to `dstate_` that was no locking left it.
pub record Threads : Type 0 where
  pub queue : Dynamic
  pub push_ticket : ℕ
  pub pop_ticket : ℕ
  pub writer : Writer
  pub published : Dynamic
  pub readers : ℕ → Reader

unfoldable pub publish : Writer → Dynamic → Dynamic → Dynamic
publish unlocked d published = d
publish _ d published = published

-- Tickets are loaded (by the calls that give up when the queue is full or empty, which take them by
-- a compare-and-swap later) or drawn (by those that wait). A thread may start again from its ticket
-- at any time. Expansions are followed while tickets are below 2^58.
pub data Step (w : Threads) : Threads → Type 0 where
  load_push : (i : ℕ) → Step w (record w { readers = put w.readers i (ticketed w.push_ticket) })
  load_pop : (i : ℕ) → Step w (record w { readers = put w.readers i (ticketed w.pop_ticket) })
  draw_push :
      (i : ℕ)
      → Step w (record w {
        push_ticket = w.push_ticket + 1;
        readers = put w.readers i (ticketed w.push_ticket);
      })
  draw_pop :
      (i : ℕ)
      → Step w (record w {
        pop_ticket = w.pop_ticket + 1;
        readers = put w.readers i (ticketed w.pop_ticket);
      })
  take_push :
      (i : ℕ) {t : ℕ} {v : Snapshot} {a : ClosedArray}
      → w.readers i ≡ using t v a
      → w.push_ticket ≡ t
      → Step w (record w { push_ticket = w.push_ticket + 1 })
  take_pop :
      (i : ℕ) {t : ℕ} {v : Snapshot} {a : ClosedArray}
      → w.readers i ≡ using t v a
      → w.pop_ticket ≡ t
      → Step w (record w { pop_ticket = w.pop_ticket + 1 })
  start_again :
      (i : ℕ) {t : ℕ} {v : Snapshot} {a : ClosedArray}
      → w.readers i ≡ using t v a
      → Step w (record w { readers = put w.readers i (ticketed t) })
  reads :
      (i : ℕ) → Step w (record w { readers = put w.readers i (read_step w.queue (w.readers i)) })
  locks :
      (i : ℕ) {t : ℕ} {v : Snapshot} {a : ClosedArray}
      → w.readers i ≡ using t v a
      → v.capacity ≢ w.queue.capacity
      → w.queue.dstate ≡ v.state
      → Step w (record w {
        queue = record (w.queue) { dstate = v.state + 1 };
        writer = locked v.state v.capacity;
      })
  expands :
      (new_slots : Option ℕ)
      → 1 + max w.push_ticket w.pop_ticket < 2 ^ 58
      → Step w (record w {
        queue = (expand_step new_slots w.push_ticket w.pop_ticket w.writer w.queue).1;
        writer = (expand_step new_slots w.push_ticket w.pop_ticket w.writer w.queue).0;
        published =
            publish
              (expand_step new_slots w.push_ticket w.pop_ticket w.writer w.queue).0
              (expand_step new_slots w.push_ticket w.pop_ticket w.writer w.queue).1
              w.published;
      })

pub data Reach (w : Threads) : Threads → Type 0 where
  here : Reach w w
  next : {u v : Threads} → Reach w u → Step u v → Reach w v

-- A queue just made, which no thread uses.
unfoldable pub untouched : Dynamic → Threads
untouched d = record {
  queue = d;
  push_ticket = 0;
  pop_ticket = 0;
  writer = unlocked;
  published = d;
  readers = λ _. idle;
}
