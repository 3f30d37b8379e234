-- ===== src/Mpmc/Lifetime.antt =====
-- How the queues of ThreadPool/MPMCQueue.h own their arrays of slots: the constructors, the move
-- constructor, the move assignment, the expansion and the destructor, of a queue that no other
-- thread uses meanwhile.
mod Owners
pub mod Freeing
mod Making
pub mod Holding
mod Invariant
pub mod Laws
pub mod Slots
use thread_pool_exec.Prelude.{
  put, ℕ, zero, suc, ◌+◌, ◌^◌, ◌<◌, ◌≡◌, ◌≢◌, max, Bool, true, false, Option, none, some, List, [],
  ◌∷◌, length, get_elem?, ◌==◌, if◌then◌else◌,
}
use thread_pool_exec.Mpmc.Stride.{compute_stride}
use thread_pool_exec.Mpmc.Dynamic.{ClosedArray, Dynamic, get_num_closed, make_dynamic, try_expand}

-- A queue of either kind; one of a fixed capacity has no `closed`. Addresses of arrays are numbers,
-- and `none` is `nullptr`. The array `closed_` itself is the list.
pub record Object : Type 0 where
  pub capacity : ℕ
  pub slots : Option ℕ  -- `slots_`, or `dslots_`
  pub stride : ℕ
  pub dstate : ℕ
  pub dcapacity : ℕ
  pub push_ticket : ℕ
  pub pop_ticket : ℕ
  pub push_spin_cutoff : ℕ
  pub pop_spin_cutoff : ℕ
  pub dmult : ℕ
  pub closed : Option (List ClosedArray)

-- The queues by their address, and the arrays that are allocated.
pub record Memory : Type 0 where
  pub objects : ℕ → Option Object
  pub arrays : ℕ → Bool

-- The default constructor; the move constructor leaves its argument so.
abbrev pub empty_queue : Object
empty_queue = record {
  capacity = 0;
  slots = none;
  stride = 0;
  dstate = 0;
  dcapacity = 0;
  push_ticket = 0;
  pop_ticket = 0;
  push_spin_cutoff = 0;
  pop_spin_cutoff = 0;
  dmult = 0;
  closed = none;
}

-- The constructor of a fixed capacity, where `new` gives `name`; `none` is `std::invalid_argument`.
unfoldable pub fixed_queue : ℕ → ℕ → Option Object
fixed_queue capacity name =
    if capacity == 0
    then none
    else some (record empty_queue {
      capacity = capacity;
      slots = some name;
      stride = compute_stride capacity;
    })

abbrev pub or_null : List ClosedArray → Option (List ClosedArray)
or_null [] = none
or_null (a ∷ closed) = some (a ∷ closed)

-- A queue with the fields of `d` and its newest array at `name`.
abbrev pub with_fields : Dynamic → ℕ → Object → Object
with_fields d name o = record o {
  capacity = d.capacity;
  slots = some name;
  stride = d.dstride;
  dstate = d.dstate;
  dcapacity = d.dcapacity;
  dmult = d.multiplier;
  closed = or_null d.closed;
}

-- The constructor of a queue that grows, likewise.
unfoldable pub dynamic_queue : ℕ → ℕ → ℕ → ℕ → Option Object
dynamic_queue capacity min_capacity multiplier name =
    elim (make_dynamic capacity min_capacity multiplier) [
      | none ↦ none
      | some d ↦ some (with_fields d name empty_queue)
    ]

-- `delete[]` of one array; `none` where it is not allocated.
unfoldable pub delete : ℕ → (ℕ → Bool) → Option (ℕ → Bool)
unfolding put
delete name arrays = if arrays name then some (put arrays name false) else none

abbrev pub delete_slots : Option ℕ → (ℕ → Bool) → Option (ℕ → Bool)
delete_slots none arrays = some arrays
delete_slots (some name) arrays = delete name arrays

-- The loop of the destructor of a queue that grows, from the last closed array on; `none` is also a
-- read outside `closed_`.
unfoldable pub delete_closed : ℕ → List ClosedArray → (ℕ → Bool) → Option (ℕ → Bool)
unfolding delete
delete_closed zero closed arrays = some arrays
delete_closed (suc i) closed arrays = elim (get_elem? closed i) [
  | none ↦ none
  | some a ↦ elim (delete a.slots arrays) [ none ↦ none | some left ↦ delete_closed i closed left ]
]

-- The destructor, and that of the base.
unfoldable pub free_arrays : Object → (ℕ → Bool) → Option (ℕ → Bool)
unfolding delete_closed delete
free_arrays o arrays = elim o.closed [
  | none ↦ delete_slots o.slots arrays
  | some closed ↦ elim (delete_closed (get_num_closed o.dstate) closed arrays) [
    | none ↦ none
    | some left ↦ delete_slots o.slots left
  ]
]

unfoldable pub destroy : ℕ → Object → Memory → Option Memory
unfolding free_arrays put
destroy address o m = elim (free_arrays o m.arrays) [
  | none ↦ none
  | some left ↦ some (record { objects = put m.objects address none; arrays = left })
]

-- The move constructor, at `address` from the queue `o` at `source`.
unfoldable pub move_construct : ℕ → ℕ → Object → Memory → Memory
unfolding put
move_construct address source o m = record m {
  objects = put (put m.objects address (some o)) source (some empty_queue);
}

-- The move assignment, of `o` at `source` to the queue `p` at `address`.
unfoldable pub move_assign : ℕ → ℕ → Object → Object → Memory → Option Memory
unfolding destroy move_construct
move_assign address source p o m =
    if address == source then some m else elim (destroy address p m) [
      | none ↦ none
      | some left ↦ some (move_construct address source o left)
    ]

abbrev pub create : ℕ → Object → ℕ → Memory → Memory
create address o name m = record {
  objects = put m.objects address (some o);
  arrays = put m.arrays name true;
}

-- The queue as `tryExpand` sees it.
abbrev pub fields : Object → ℕ → List ClosedArray → Dynamic
fields o name closed = record {
  capacity = o.capacity;
  multiplier = o.dmult;
  dstate = o.dstate;
  dslots = name;
  dcapacity = o.dcapacity;
  dstride = o.stride;
  closed = closed;
}

-- A queue is made at an address that has none, and `new` gives an array that is not allocated. The
-- destructors and the move assignment take effect where they delete only what is allocated.
pub data Step (m : Memory) : Memory → Type 0 where
  construct_empty :
      (address : ℕ)
      → m.objects address ≡ none
      → Step m (record m { objects = put m.objects address (some empty_queue) })
  construct_fixed :
      (address capacity name : ℕ) {o : Object}
      → m.objects address ≡ none
      → m.arrays name ≡ false
      → fixed_queue capacity name ≡ some o
      → Step m (create address o name m)
  construct_dynamic :
      (address capacity min_capacity multiplier name : ℕ) {o : Object}
      → capacity < 2 ^ 31
      → multiplier < 2 ^ 32
      → m.objects address ≡ none
      → m.arrays name ≡ false
      → dynamic_queue capacity min_capacity multiplier name ≡ some o
      → Step m (create address o name m)
  moves :
      (address source : ℕ) {o : Object}
      → m.objects address ≡ none
      → m.objects source ≡ some o
      → Step m (move_construct address source o m)
  assigns :
      (address source : ℕ) {p o : Object} {m' : Memory}
      → m.objects address ≡ some p
      → m.objects source ≡ some o
      → move_assign address source p o m ≡ some m'
      → Step m m'
  destroys :
      (address : ℕ) {o : Object} {m' : Memory}
      → m.objects address ≡ some o
      → destroy address o m ≡ some m'
      → Step m m'
  expands :
      (address new old : ℕ) {o : Object} {closed : List ClosedArray} {d : Dynamic}
      → m.objects address ≡ some o
      → o.slots ≡ some old
      → o.closed ≡ some closed
      → m.arrays new ≡ false
      → 1 + max o.push_ticket o.pop_ticket < 2 ^ 58
      → try_expand (some new) o.push_ticket o.pop_ticket (fields o old closed) ≡ some (true, d)
      → Step m (create address (with_fields d new o) new m)
  -- The tickets and the cutoffs change while the queue is used.
  used :
      (address push pop push_cutoff pop_cutoff : ℕ) {o : Object}
      → m.objects address ≡ some o
      → Step m (record m {
        objects = put m.objects address (
            some (record o {
              push_ticket = push;
              pop_ticket = pop;
              push_spin_cutoff = push_cutoff;
              pop_spin_cutoff = pop_cutoff;
            }));
      })

pub data Reach (m : Memory) : Memory → Type 0 where
  here : Reach m m
  next : {u v : Memory} → Reach m u → Step u v → Reach m v

abbrev pub no_queues : Memory
no_queues = record { objects = λ _. none; arrays = λ _. false }
