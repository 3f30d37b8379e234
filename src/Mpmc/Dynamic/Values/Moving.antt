-- ===== src/Mpmc/Dynamic/Values/Moving.antt =====
-- A step of the threads of a growing queue that draws no ticket keeps what is so of the tickets.
use thread_pool_exec.Prelude.{
  ℕ, ◌-◌, ◌/◌, ◌≤◌, ◌≡◌, ◌≢◌, Bool, Option, none, some, refl, arith, sym, ap,
}
use thread_pool_exec.Mpmc.Stride.{idx}
use thread_pool_exec.Mpmc.Slot.{TurnSequencer, Slot}
use thread_pool_exec.Mpmc.Queue.{slot_of}
use thread_pool_exec.Mpmc.Tickets.Scalar.{Ticket}
use thread_pool_exec.Mpmc.Tickets.Invariant.{put_self, put_other}
use thread_pool_exec.Mpmc.Dynamic.{ClosedArray}
use thread_pool_exec.Mpmc.Dynamic.Threads as Growing
use thread_pool_exec.Mpmc.Dynamic.Threads.{Snapshot, Writer, using, Threads}
use thread_pool_exec.Mpmc.Dynamic.Threads.Defs.{limit}
use thread_pool_exec.Mpmc.Dynamic.Threads.Invariant.{limit_mono}
use thread_pool_exec.Mpmc.Dynamic.Threads.Invariant as Moving
use thread_pool_exec.Mpmc.Dynamic.Values.{Values, pending, Unused, array, empty_slot, allocate}
use thread_pool_exec.Mpmc.Dynamic.Values.Arrays.{same, allocates, publishes, Step-Moved}
use thread_pool_exec.Mpmc.Dynamic.Values.Using.{Store, Untouched, Inv}
use thread_pool_exec.Mpmc.Dynamic.Values.Expanding.{
  anywhere, earlier, later, origin, after-AllSound, after-Distinct,
}

module _ (seq : TurnSequencer) {T : Type 0} (padding : ℕ) where
  open seq use {Sequencer, now, now-initial}

  allocate_same :
      (o : Option ℕ) (store : Store (Slot Sequencer T)) → allocate seq padding o o store ≡ store
  unfolding allocate
  allocate_same none store = refl
  allocate_same (some name) store = refl

  allocate_self :
      (name i : ℕ) (store : Store (Slot Sequencer T))
      → allocate seq padding none (some name) store name i ≡ empty_slot seq padding
  unfolding allocate
  allocate_self name i store =
      ap (λ (f : ℕ → Slot Sequencer T). f i) (put_self store name _ name refl)

  allocate-array :
      (name : ℕ) (a : ClosedArray) (store : Store (Slot Sequencer T))
      → a.slots ≢ name
      → array a (allocate seq padding none (some name) store) ≡ array a store
  unfolding allocate array
  allocate-array name a store other = rw (put_other store name _ a.slots other) refl

  allocate_dropped :
      (name : ℕ) (store : Store (Slot Sequencer T))
      → allocate seq padding (some name) none store ≡ store
  unfolding allocate
  allocate_dropped name store = refl

  -- A ticket that is untouched, at an array whose slots are all empty.
  pub at_empty :
      {push pop : ℕ} (store : Store (Slot Sequencer T)) {pushing written read : Option T}
      {popping : Bool} (t : ℕ) (a : ClosedArray)
      → ((i : ℕ) → store a.slots i ≡ empty_slot seq padding)
      → Ticket t push pop 0 0 none pushing written read popping
      → let s = slot_of seq padding (t - a.offset) (array a store) in
        Ticket t push pop
          ((t - a.offset) / a.capacity)
          (now s.sequencer)
          s.contents
          pushing
          written
          read
          popping
  unfolding slot_of array
  at_empty store t a empty h =
      let slot = empty (idx padding (t - a.offset) a.capacity a.stride) in
      rw (slot, now-initial) (anywhere ((t - a.offset) / a.capacity) h)

  module _ (w : Values (Slot Sequencer T) T) (v : Inv seq padding w) {u : Threads}
      (st : Growing.Step w.threads u) where
    untouched_later :
        u.push_ticket ≡ w.threads.push_ticket
        → u.pop_ticket ≡ w.threads.pop_ticket
        → limit w.threads.writer w.threads.push_ticket w.threads.pop_ticket
          ≤ limit u.writer u.push_ticket u.pop_ticket
        → Untouched seq padding u w.pushing w.written w.read w.popping
    untouched_later pushes pops le t late =
        rw (pushes, pops) (v.untouched t (omega (arith, le, late)))

    pub moves-Inv :
        u.push_ticket ≡ w.threads.push_ticket
        → u.pop_ticket ≡ w.threads.pop_ticket
        → ((name : ℕ)
            → pending w.threads.writer ≡ none
            → pending u.writer ≡ some name
            → Unused name w.threads.published)
        → Inv seq padding (record w {
          threads = u;
          store = allocate seq padding (pending w.threads.writer) (pending u.writer) w.store;
        })
    moves-Inv pushes pops unused =
        let k = Moving.Step-Inv st (v.memory) in
        let (change, le) = Step-Moved st (v.memory) pushes pops in
        elim change [
          | same d p ↦
              rw (p, allocate_same (pending w.threads.writer) w.store)
                (record {
                  memory = k;
                  sound = rw d (v.sound);
                  distinct = rw d (v.distinct);
                  allocated = rw (d, p) (v.allocated);
                  untouched = untouched_later pushes pops le;
                  tickets = λ t a at ft. rw (pushes, pops) (v.tickets t a (rw d at at) ft);
                })
          | allocates name d p p' ↦
              let others = unused name p p' in
              rw (p, p')
                (record {
                  memory = k;
                  sound = rw d (v.sound);
                  distinct = rw d (v.distinct);
                  allocated = λ other waits.
                      let one : name ≡ other = cc (waits, p') in
                      rw (sym one, d) (others, λ i. allocate_self name i w.store);
                  untouched = untouched_later pushes pops le;
                  tickets = λ t a at ft.
                      rw (pushes, pops, allocate-array name a w.store (others t a (rw d at at)))
                        (v.tickets t a (rw d at at) ft);
                })
          | publishes name p q shape small less was is past d ↦
              let (others, empty) = v.allocated name was in
              rw (was, is, allocate_dropped name w.store)
                (record {
                  memory = k;
                  sound =
                      rw d (after-AllSound name p q w.threads.published shape small less (v.sound));
                  distinct = rw d (
                      after-Distinct name p q w.threads.published shape small less others
                        (v.distinct));
                  allocated = λ other waits. absurd (cc (waits, is));
                  untouched = untouched_later pushes pops le;
                  tickets = λ t a at ft.
                      rw (pushes, pops)
                        (elim (origin name p q w.threads.published shape small less t a
                          (rw d at at)) [
                            | earlier lt from ↦ v.tickets t a from ft
                            | later late eq ↦
                                at_empty w.store t a (rw eq empty)
                                  (v.untouched t (omega (arith, past, late)))
                          ]);
                })
        ]
