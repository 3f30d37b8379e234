-- ===== src/Mpmc/Dynamic/Values/Using.antt =====
-- What is so of every ticket of a growing queue, of its array and of its slot there, and that the
-- use of a ticket keeps it.
use thread_pool_exec.Prelude.{
  put, ℕ, ◌-◌, ◌/◌, ◌≤◌, ◌<◌, ◌≡◌, ◌≢◌, Bool, Option, none, some, refl, arith, ap, ◌∙◌, ℕ_discrete,
}
use thread_pool_exec.Mpmc.Stride.{compute_stride}
use thread_pool_exec.Mpmc.Stride.Injective.{Fits}
use thread_pool_exec.Mpmc.Slot.{TurnSequencer, Slot}
use thread_pool_exec.Mpmc.Queue.{slot_of, store_slot}
use thread_pool_exec.Mpmc.Tickets.Scalar.{Ticket}
use thread_pool_exec.Mpmc.Tickets.Invariant.{put_self, put_other, stored, itself, apart, shares}
use thread_pool_exec.Mpmc.Dynamic.{ClosedArray, Dynamic, array_of}
use thread_pool_exec.Mpmc.Dynamic.Threads.{Threads}
use thread_pool_exec.Mpmc.Dynamic.Threads.Defs as Memory
use thread_pool_exec.Mpmc.Dynamic.Threads.Defs.{limit}
use thread_pool_exec.Mpmc.Dynamic.Values.{Values, pending, Unused, array, empty_slot}

-- An array that a ticket goes to.
pub record Sound (t : ℕ) (a : ClosedArray) : Type 0 where
  pub starts : a.offset ≤ t
  pub some_slot : 0 < a.capacity
  pub strided : a.stride ≡ compute_stride a.capacity

abbrev pub AllSound : Dynamic → Type 0
AllSound d = (t : ℕ) (a : ClosedArray) → array_of t d ≡ some a → Sound t a

-- Arrays of one name are one.
abbrev pub Distinct : Dynamic → Type 0
Distinct d =
    (t u : ℕ) (a b : ClosedArray)
    → array_of t d ≡ some a
    → array_of u d ≡ some b
    → a.slots ≡ b.slots
    → a ≡ b

-- The slots of each array, by its name.
abbrev pub Store : Type 0 → Type 0
Store S = ℕ → ℕ → S

module _ (seq : TurnSequencer) {T : Type 0} (padding : ℕ) where
  open seq use {Sequencer, now}

  -- A ticket, with the slot that it goes to.
  abbrev pub At :
      Threads
      → Store (Slot Sequencer T)
      → (ℕ → Option T)
      → (ℕ → Option T)
      → (ℕ → Option T)
      → (ℕ → Bool)
      → ℕ
      → ClosedArray
      → Type 0
  At w store pushing written read popping t a =
      let s = slot_of seq padding (t - a.offset) (array a store) in
      Ticket t w.push_ticket w.pop_ticket ((t - a.offset) / a.capacity) (now s.sequencer) s.contents
        (pushing t) (written t) (read t) (popping t)

  -- Every ticket, with the array and the slot that it goes to now.
  abbrev pub All :
      Threads
      → Store (Slot Sequencer T)
      → (ℕ → Option T)
      → (ℕ → Option T)
      → (ℕ → Option T)
      → (ℕ → Bool)
      → Type 0
  All w store pushing written read popping =
      (t : ℕ) (a : ClosedArray)
      → array_of t w.published ≡ some a
      → Fits a.capacity (t - a.offset)
      → At w store pushing written read popping t a

  -- A ticket that no thread can have used, since the queue may yet give it another array.
  abbrev pub Untouched :
      Threads → (ℕ → Option T) → (ℕ → Option T) → (ℕ → Option T) → (ℕ → Bool) → Type 0
  Untouched w pushing written read popping =
      (t : ℕ)
      → limit w.writer w.push_ticket w.pop_ticket ≤ t
      → Ticket t w.push_ticket w.pop_ticket 0 0 none (pushing t) (written t) (read t) (popping t)

  -- The array that is allocated and not published is empty, and no ticket goes to it.
  abbrev pub Allocated : Threads → Store (Slot Sequencer T) → Type 0
  Allocated w store =
      (name : ℕ)
      → pending w.writer ≡ some name
      → Unused name w.published × ((i : ℕ) → store name i ≡ empty_slot seq padding)

  -- The invariant.
  pub record Inv (w : Values (Slot Sequencer T) T) : Type 0 where
    pub memory : Memory.Inv w.threads
    pub sound : AllSound w.threads.published
    pub distinct : Distinct w.threads.published
    pub allocated : Allocated w.threads w.store
    pub untouched : Untouched w.threads w.pushing w.written w.read w.popping
    pub tickets : All w.threads w.store w.pushing w.written w.read w.popping

  -- The slots of an array, after a store to one of them, are those of the queue that the call was
  -- given; those of other arrays are as before.
  array-itself :
      (a : ClosedArray) (store : Store (Slot Sequencer T)) (t : ℕ) (s : Slot Sequencer T)
      → array a (put store a.slots (store_slot seq padding t s (array a store)).slots)
        ≡ store_slot seq padding t s (array a store)
  unfolding array store_slot
  array-itself a store t s =
      ap
        (λ (f : ℕ → Slot Sequencer T). record {
          capacity = a.capacity;
          stride = a.stride;
          slots = f;
          push_ticket = 0;
          pop_ticket = 0;
        })
        (put_self store a.slots (store_slot seq padding t s (array a store)).slots a.slots refl)

  array-other :
      (a b : ClosedArray) (store : Store (Slot Sequencer T)) (f : ℕ → Slot Sequencer T)
      → b.slots ≢ a.slots
      → array b (put store a.slots f) ≡ array b store
  unfolding array
  array-other a b store f differ = rw (put_other store a.slots f b.slots differ) refl

  -- The slot of ticket `u`, whose array is `b`, once `t` has stored `s` to its slot of `a`.
  pub data Changed (store : Store (Slot Sequencer T)) (t u : ℕ) (a b : ClosedArray)
      (s : Slot Sequencer T) : Type 0 where
    own :
        u ≡ t
        → b ≡ a
        → slot_of seq padding (u - b.offset) (
            array b
              (put store a.slots (store_slot seq padding (t - a.offset) s (array a store)).slots))
          ≡ s
        → Changed store t u a b s
    kept :
        u ≢ t
        → slot_of seq padding (u - b.offset) (
            array b
              (put store a.slots (store_slot seq padding (t - a.offset) s (array a store)).slots))
          ≡ slot_of seq padding (u - b.offset) (array b store)
        → Changed store t u a b s
    shared :
        u ≢ t
        → (u - b.offset) / b.capacity ≢ (t - a.offset) / a.capacity
        → slot_of seq padding (u - b.offset) (array b store)
          ≡ slot_of seq padding (t - a.offset) (array a store)
        → slot_of seq padding (u - b.offset) (
            array b
              (put store a.slots (store_slot seq padding (t - a.offset) s (array a store)).slots))
          ≡ s
        → Changed store t u a b s

  changed_in :
      (store : Store (Slot Sequencer T)) (t u : ℕ) (a : ClosedArray) (s : Slot Sequencer T)
      → Sound t a
      → Sound u a
      → Fits a.capacity (t - a.offset)
      → Fits a.capacity (u - a.offset)
      → Changed store t u a a s
  unfolding array
  changed_in store t u a s ok ok' ft fu =
      let result = array-itself a store (t - a.offset) s in
      elim (stored seq padding (array a store) (t - a.offset) (u - a.offset) s (ok.some_slot)
        (ok.strided) ft fu) [
          | itself eq here ↦ own (omega (arith, eq, ok.starts, ok'.starts)) refl (rw result here)
          | apart ne here ↦ kept (λ e. ne (rw e refl)) (rw result here)
          | shares ne later there here ↦ shared (λ e. ne (rw e refl)) later there (rw result here)
        ]

  pub changed :
      (d : Dynamic) (store : Store (Slot Sequencer T)) (t u : ℕ) (a b : ClosedArray)
      (s : Slot Sequencer T)
      → AllSound d
      → Distinct d
      → array_of t d ≡ some a
      → array_of u d ≡ some b
      → Fits a.capacity (t - a.offset)
      → Fits b.capacity (u - b.offset)
      → Changed store t u a b s
  changed d store t u a b s sound distinct at at' ft fu = elim (ℕ_discrete b.slots a.slots) [
    | yes one ↦
        let same : b ≡ a = distinct u t b a at' at one in
        rw same (
          changed_in store t u a s (sound t a at) (sound u a (at' ∙ ap some same)) ft
            (rw same at fu))
    | no other ↦
        kept (λ e. other (cc (at, at', e)))
          (rw
            (array-other a b store (store_slot seq padding (t - a.offset) s (array a store)).slots
              other)
            refl)
  ]
