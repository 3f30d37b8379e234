-- ===== src/Mpmc/Dynamic/Threads/Defs.antt =====
-- What is so of the memory and of each thread while a queue is used and expanded.
use thread_pool_exec.Prelude.{ℕ, ◌+◌, ◌%◌, ◌^◌, ◌≤◌, ◌<◌, ◌≡◌, max, Bool, true, false, some, set}
use thread_pool_exec.Mpmc.Stride.{compute_stride}
use thread_pool_exec.Mpmc.Dynamic.{Dynamic, get_num_closed, array_of}
use thread_pool_exec.Mpmc.Dynamic.Laws
use thread_pool_exec.Mpmc.Dynamic.Threads.{
  Snapshot, Writer, unlocked, locked, pushes_loaded, counted, archived, slots_stored,
  capacity_stored, stride_stored, closing, new_capacity, Reader, idle, ticketed, state_loaded,
  slots_loaded, capacity_loaded, all_loaded, inside, using, failed, seen, Threads,
}

-- The memory at each point of an expansion, from the queue that is published.
abbrev pub memory : Writer → Dynamic → Dynamic
memory unlocked d = d
memory (locked s c) d = record d { dstate = s + 1 }
memory (pushes_loaded s c p) d = record d { dstate = s + 1 }
memory (counted s c p q) d = record d { dstate = s + 1 }
memory (archived s c p q name) d = record d {
  dstate = s + 1;
  closed = set d.closed (get_num_closed s) (closing s c d);
}
memory (slots_stored s c p q name) d = record d {
  dstate = s + 1;
  closed = set d.closed (get_num_closed s) (closing s c d);
  dslots = name;
}
memory (capacity_stored s c p q name) d = record d {
  dstate = s + 1;
  closed = set d.closed (get_num_closed s) (closing s c d);
  dslots = name;
  dcapacity = new_capacity c d;
}
memory (stride_stored s c p q name) d = record d {
  dstate = s + 1;
  closed = set d.closed (get_num_closed s) (closing s c d);
  dslots = name;
  dcapacity = new_capacity c d;
  dstride = compute_stride (new_capacity c d);
}

-- Whether the fields of the newest array are still those published.
abbrev pub clean : Writer → Bool
clean (slots_stored s c p q name) = false
clean (capacity_stored s c p q name) = false
clean (stride_stored s c p q name) = false
clean _ = true

-- Every ticket of a thread in a read section is below this, and so is the new offset not.
abbrev pub limit : Writer → ℕ → ℕ → ℕ
limit unlocked push pop = 1 + max push pop
limit (locked s c) push pop = 1 + max push pop
limit (pushes_loaded s c p) push pop = 1 + max p pop
limit (counted s c p q) push pop = 1 + max p q
limit (archived s c p q name) push pop = 1 + max p q
limit (slots_stored s c p q name) push pop = 1 + max p q
limit (capacity_stored s c p q name) push pop = 1 + max p q
limit (stride_stored s c p q name) push pop = 1 + max p q

abbrev pub Current : ℕ → ℕ → Dynamic → Type 0
Current s c d = (s ≡ d.dstate) × (c ≡ d.dcapacity) × (c < d.capacity)

abbrev pub Drawn : ℕ → ℕ → ℕ → ℕ → Type 0
Drawn p q push pop = (p ≤ push) × (q ≤ pop) × (1 + max p q < 2 ^ 58)

-- The thread that expands has read the queue that is published, and tickets drawn since are later.
abbrev pub Agrees : Writer → Dynamic → ℕ → ℕ → Type 0
Agrees unlocked d push pop = Unit {0}
Agrees (locked s c) d push pop = Current s c d
Agrees (pushes_loaded s c p) d push pop = Current s c d × (p ≤ push)
Agrees (counted s c p q) d push pop = Current s c d × Drawn p q push pop
Agrees (archived s c p q name) d push pop = Current s c d × Drawn p q push pop
Agrees (slots_stored s c p q name) d push pop = Current s c d × Drawn p q push pop
Agrees (capacity_stored s c p q name) d push pop = Current s c d × Drawn p q push pop
Agrees (stride_stored s c p q name) d push pop = Current s c d × Drawn p q push pop

-- A word that was read is a published one, of the queue as it is or as it was.
abbrev pub Old : ℕ → Dynamic → Type 0
Old s d = (s % 2 ≡ 0) × (get_num_closed s ≤ get_num_closed d.dstate)

abbrev pub Same : Snapshot → Dynamic → Type 0
Same v d =
    v.state ≡ d.dstate → (v.slots ≡ d.dslots) × (v.capacity ≡ d.dcapacity) × (v.stride ≡ d.dstride)

-- `d` is published, `k` whether memory is clean, `b` the limit, `m` past every ticket.
abbrev pub Reads : Dynamic → Bool → ℕ → ℕ → Reader → Type 0
Reads d k b m idle = Unit {0}
Reads d k b m (ticketed t) = t < m
Reads d k b m (state_loaded t s) = (t < b) × Old s d
Reads d k b m (slots_loaded t s x) = (t < b) × Old s d × (k ≡ true → s ≡ d.dstate → x ≡ d.dslots)
Reads d k b m (capacity_loaded t s x c) =
    (t < b) × Old s d × (k ≡ true → s ≡ d.dstate → (x ≡ d.dslots) × (c ≡ d.dcapacity))
Reads d k b m (all_loaded t v) = (t < b) × Old v.state d × (k ≡ true → Same v d)
Reads d k b m (inside t v) =
    (t < b) × Old v.state d × Same v d × (array_of t (seen v d) ≡ array_of t d)
Reads d k b m (using t v a) = (t < b) × Old v.state d × Same v d × (array_of t d ≡ some a)
Reads d k b m failed = ⊥

abbrev pub Sections : Writer → Dynamic → ℕ → ℕ → (ℕ → Reader) → Type 0
Sections w d push pop readers =
    (i : ℕ) → Reads d (clean w) (limit w push pop) (1 + max push pop) (readers i)

-- The invariant, of its parts and of the whole.
pub record Kept (w : Writer) (queue d : Dynamic) (push pop : ℕ) (readers : ℕ → Reader)
    : Type 0 where
  pub shape : Laws.Inv d
  pub even : d.dstate % 2 ≡ 0
  pub stored : queue ≡ memory w d
  pub agrees : Agrees w d push pop
  pub bounded : limit w push pop ≤ 1 + max push pop
  pub sections : Sections w d push pop readers

abbrev pub Inv : Threads → Type 0
Inv w = Kept w.writer w.queue w.published w.push_ticket w.pop_ticket w.readers
