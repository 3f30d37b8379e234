-- ===== src/Observers.antt =====
-- `getQueueObserver` and the destructor of CPUThreadPoolExecutor
-- (ThreadPool/executors/CPUThreadPoolExecutor.cpp), with any number of threads that ask for an
-- observer. A pointer is a number, 0 the null pointer; a slot is one of `queueObservers_`.
use thread_pool_exec.Prelude.{
  put, ℕ, zero, suc, ◌+◌, ◌-◌, ◌≡◌, ◌≢◌, ℤ, pos, negsuc, Bool, true, false, not, ◌&&◌, Option, none,
  some, ◌==◌, if◌then◌else◌,
}
use thread_pool_exec.Priority.Order.{IsInt8}
pub mod Defs
mod Steps
mod Storing
pub mod Laws
pub mod Destructor

-- Who is to delete an observer: its `unique_ptr` in a call, or the destructor, through a slot.
pub data Owner : Type 0 where
  nobody : Owner
  caller : ℕ → Owner
  slot : ℕ → Owner

-- Where a call is, with its slot `i`. A call that asks for the observer of slot 0 on behalf of another
-- slot has that slot in `back`.
pub data Asking : Type 0 where
  idle no_factory : Asking
  looking : (i : ℕ) (back : Option ℕ) → Asking
  offering : (i p : ℕ) (back : Option ℕ) → Asking
  storing : (i p : ℕ) → Asking
  returned : (i p : ℕ) → Asking

pub record Observers : Type 0 where
  pub slots : ℕ → ℕ
  pub owner : ℕ → Owner
  pub threads : ℕ → Asking

-- `folly::to_unsigned` of an `int8_t`
unfoldable pub to_unsigned : ℤ → ℕ
to_unsigned (pos n) = n
to_unsigned (negsuc n) = 255 - n

unfoldable pub begin : Bool → ℤ → Asking
unfolding to_unsigned
begin has_factory pri = if has_factory then looking (to_unsigned pri) none else no_factory

unfoldable pub finish : ℕ → ℕ → Option ℕ → Asking
finish i p none = returned i p
finish i p (some k) = storing k p

-- The next access of the thread `t`, up to the one after it; `new` is what the factory makes of the
-- call, if it is asked. `single` is `getNumPriorities() == 1`.
module _ (single : Bool) (new t : ℕ) where
  unfoldable pub look : ℕ → Option ℕ → Observers → Observers
  unfolding put finish
  look i back w =
      if w.slots i == 0
      then if single && not (i == 0)
        then record w { threads = put w.threads t (looking 0 (some i)) }
        else record w {
          threads = put w.threads t (offering i new back);
          owner = put w.owner new (caller t);
        }
      else record w { threads = put w.threads t (finish i (w.slots i) back) }

  unfoldable pub offer : ℕ → ℕ → Option ℕ → Observers → Observers
  unfolding put finish
  offer i p back w =
      if w.slots i == 0
      then record {
        slots = put w.slots i p;
        owner = put w.owner p (slot i);
        threads = put w.threads t (finish i p back);
      }
      else record w {
        owner = put w.owner p nobody;
        threads = put w.threads t (finish i (w.slots i) back);
      }

  unfoldable pub store : ℕ → ℕ → Observers → Observers
  unfolding put
  store i p w = record w { slots = put w.slots i p; threads = put w.threads t (returned i p) }

  unfoldable pub next_access : Asking → Observers → Observers
  unfolding look offer store
  next_access idle w = w
  next_access no_factory w = w
  next_access (looking i back) w = look i back w
  next_access (offering i p back) w = offer i p back w
  next_access (storing i p) w = store i p w
  next_access (returned i p) w = w

-- The factory returns observers that are not alive.
pub data Step (single has_factory : Bool) (w : Observers) : Observers → Type 0 where
  call :
      (t : ℕ) (pri : ℤ)
      → IsInt8 pri
      → w.threads t ≡ idle
      → Step single has_factory w (record w { threads = put w.threads t (begin has_factory pri) })
  run :
      (t new : ℕ)
      → new ≢ 0
      → w.owner new ≡ nobody
      → Step single has_factory w (next_access single new t (w.threads t) w)
  leave :
      (t : ℕ) {i p : ℕ}
      → w.threads t ≡ returned i p
      → Step single has_factory w (record w { threads = put w.threads t idle })

pub data Reach (single has_factory : Bool) (w : Observers) : Observers → Type 0 where
  here : Reach single has_factory w w
  next :
      {u v : Observers}
      → Reach single has_factory w u
      → Step single has_factory u v
      → Reach single has_factory w v

abbrev pub none_made : Observers
none_made = record { slots = λ _. 0; owner = λ _. nobody; threads = λ _. idle }

-- `delete`; `none` if the observer was not alive.
unfoldable pub is_nobody : Owner → Bool
is_nobody nobody = true
is_nobody (caller t) = false
is_nobody (slot i) = false

unfoldable pub delete : ℕ → Option (ℕ → Owner) → Option (ℕ → Owner)
unfolding put is_nobody
delete p none = none
delete p (some owner) =
    if p == 0 then some owner else if is_nobody (owner p) then none else some (put owner p nobody)

-- The loop of the destructor, over the first slots, of which there are 256.
unfoldable pub delete_slots : (ℕ → ℕ) → ℕ → Option (ℕ → Owner) → Option (ℕ → Owner)
unfolding delete
delete_slots slots zero owner = owner
delete_slots slots (suc n) owner = delete (slots n) (delete_slots slots n owner)

unfoldable pub destroy : Bool → Observers → Option (ℕ → Owner)
unfolding delete_slots
destroy single w =
    if single then delete (w.slots 0) (some w.owner) else delete_slots w.slots 256 (some w.owner)
