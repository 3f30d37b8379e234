-- ===== src/Mpmc/Dynamic.antt =====
-- The queue of ThreadPool/MPMCQueue.h that grows: its arrays, old and new, and the word that says
-- which of them a ticket goes to. Writers of the arrays exclude each other by a sequence lock.
pub mod Laws
pub mod Expand
pub mod Threads
pub mod Values
pub mod Calls
use thread_pool_exec.Prelude.{
  ℕ, zero, suc, ◌+◌, ◌*◌, ◌/◌, ◌%◌, ◌^◌, min, max, Bool, true, false, Option, none, some, List,
  length, get_elem?, set, replicate, ltb, leb, ◌==◌, if◌then◌else◌,
}
use thread_pool_exec.Mpmc.Stride.{compute_stride}

-- An array of slots, by name, and how tickets go to it.
pub record ClosedArray : Type 0 where
  pub offset : ℕ
  pub slots : ℕ
  pub capacity : ℕ
  pub stride : ℕ

pub record Dynamic : Type 0 where
  pub capacity : ℕ
  pub multiplier : ℕ  -- `dmult_`
  pub dstate : ℕ
  pub dslots : ℕ
  pub dcapacity : ℕ
  pub dstride : ℕ
  pub closed : List ClosedArray

-- `getOffset` and `getNumClosed`, and the word that `tryExpand` stores.
unfoldable pub get_offset : ℕ → ℕ
get_offset state = state / 2 ^ 6

unfoldable pub get_num_closed : ℕ → ℕ
get_num_closed state = state % 2 ^ 6 / 2

unfoldable pub pack : ℕ → ℕ → ℕ
pack ticket num_closed = (ticket * 2 ^ 6 + 2 * num_closed) % 2 ^ 64

-- The loop of `initQueue` that counts the expansions there can be; 0 when the fuel is out.
unfoldable pub count_closed : ℕ → ℕ → ℕ → ℕ → ℕ
count_closed zero expanded capacity mult = 0
count_closed (suc fuel) expanded capacity mult =
    let rest = count_closed fuel (expanded * mult % 2 ^ 64) capacity mult in
    if ltb expanded capacity then suc rest else 0

-- `initQueue`. The first array has the name 0.
unfoldable pub init_queue : ℕ → ℕ → ℕ → Dynamic
unfolding count_closed
init_queue capacity cap mult = record {
  capacity = capacity;
  multiplier = mult;
  dstate = 0;
  dslots = 0;
  dcapacity = cap;
  dstride = compute_stride cap;
  closed =
      replicate (count_closed capacity cap capacity mult)
        (record { offset = 0; slots = 0; capacity = 0; stride = 0 });
}

-- The constructor; `none` is `std::invalid_argument`.
unfoldable pub make_dynamic : ℕ → ℕ → ℕ → Option Dynamic
unfolding init_queue
make_dynamic capacity min_capacity multiplier =
    if capacity == 0
    then none
    else some (init_queue capacity (min (max 1 min_capacity) capacity) (max 2 multiplier))

-- `tryExpand`, by the thread that gets the lock: `new_slots` is what `new` gives, and the tickets are
-- those that it reads. `none` is a store outside `closed_`.
unfoldable pub try_expand : Option ℕ → ℕ → ℕ → Dynamic → Option (Bool × Dynamic)
unfolding get_offset get_num_closed pack
try_expand new_slots push_ticket pop_ticket d =
    let index = get_num_closed d.dstate in
    let ticket = 1 + max push_ticket pop_ticket in
    let new_capacity = min (d.multiplier * d.dcapacity % 2 ^ 64) d.capacity in
    if d.dcapacity == d.capacity then some (false, d) else elim new_slots [
      | none ↦ some (false, d)
      | some name ↦
          if leb (length d.closed) index
          then none
          else some (
            true,
            record d {
              closed = set d.closed index (record {
                offset = get_offset d.dstate;
                slots = d.dslots;
                capacity = d.dcapacity;
                stride = d.dstride;
              });
              dslots = name;
              dcapacity = new_capacity;
              dstride = compute_stride new_capacity;
              dstate = pack ticket (index + 1);
            },
          )
    ]

-- The loop of `maybeUpdateFromClosed`; `none` is its failed assertion.
unfoldable pub search_closed : ℕ → ℕ → List ClosedArray → Option ClosedArray
search_closed zero ticket closed = none
search_closed (suc i) ticket closed =
    let rest = search_closed i ticket closed in
    elim (get_elem? closed i) [
      | none ↦ none
      | some a ↦ if leb a.offset ticket then some a else rest
    ]

-- `maybeUpdateFromClosed`: the array that a ticket goes to.
unfoldable pub array_of : ℕ → Dynamic → Option ClosedArray
unfolding search_closed get_offset get_num_closed
array_of ticket d =
    if leb (get_offset d.dstate) ticket
    then some (record {
      offset = get_offset d.dstate;
      slots = d.dslots;
      capacity = d.dcapacity;
      stride = d.dstride;
    })
    else search_closed (get_num_closed d.dstate) ticket d.closed
