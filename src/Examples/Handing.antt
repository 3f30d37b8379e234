-- ===== src/Examples/Handing.antt =====
-- A push finds its array, the queue grows, and the pop of the same ticket finds it there.
use thread_pool_exec.Prelude.{put, ℕ, ◌≡◌, ◌⊎◌, none, some, refl, arith, true, sym}
use thread_pool_exec.Mpmc.Slot.{waits, got, enqueue, may_enqueue}
use thread_pool_exec.Mpmc.Stride.{compute_stride, idx, turn}
use thread_pool_exec.Mpmc.Queue.{
  enqueue_with_ticket, dequeue_with_ticket, slot_of, store_slot, Mpmc,
}
use thread_pool_exec.Mpmc.Slot.{Slot}
use thread_pool_exec.Mpmc.Dynamic.{
  ClosedArray, Dynamic, make_dynamic, init_queue, array_of, pack, get_num_closed, get_offset,
  count_closed, search_closed,
}
use thread_pool_exec.Mpmc.Dynamic.Threads.{
  Snapshot, Writer, unlocked, pushes_loaded, counted, archived, slots_stored, capacity_stored,
  stride_stored, Reader, untouched, locked, draw_push, draw_pop, reads, locks, expands, read_step,
  with_array, expand_step, publish,
}
use thread_pool_exec.Mpmc.Dynamic.Values.{
  Values, Unused, pending, array, allocate, moves, draws_push, draws_pop, use_push, Reach, here,
  next, unread,
}
use thread_pool_exec.Mpmc.Dynamic.Values.Fifo.{handed_over}
use thread_pool_exec.Examples.Fixtures.{counter}

abbrev two_slots : Dynamic
two_slots = init_queue 100 2 3

abbrev Numbers : Type 0
Numbers = Values (Slot ℕ ℕ) ℕ

abbrev Walk : Numbers → Type 0
Walk w = Reach counter 0 (unread counter 0 two_slots) w

abbrev look : ℕ → Numbers → Numbers
look i w = record w {
  threads = record (w.threads) {
    readers = put w.threads.readers i (read_step w.threads.queue (w.threads.readers i));
  };
  store = allocate counter 0 (pending w.threads.writer) (pending w.threads.writer) w.store;
}

looks : (i : ℕ) (w : Numbers) → Walk w → Walk (look i w)
looks i w r = next r (moves (reads i) refl refl (λ name e f. absurd (cc (e, f))))

-- The loads of a read section, and `maybeUpdateFromClosed`.
abbrev find : ℕ → Numbers → Numbers
find i w = look i (look i (look i (look i (look i (look i w)))))

finds : (i : ℕ) (w : Numbers) → Walk w → Walk (find i w)
finds i w r = looks i _ (looks i _ (looks i _ (looks i _ (looks i _ (looks i w r)))))

abbrev expand : Numbers → Numbers
expand w =
    let s =
      expand_step (some 1) w.threads.push_ticket w.threads.pop_ticket w.threads.writer
        w.threads.queue in
    record w {
      threads = record (w.threads) {
        queue = s.1;
        writer = s.0;
        published = publish (s.0) (s.1) w.threads.published;
      };
      store = allocate counter 0 (pending w.threads.writer) (pending (s.0)) w.store;
    }

-- The second array has the name 1, which is not that of the first.
unused : Unused 1 two_slots
unfolding init_queue array_of get_offset
unused t a at = ground arith

allocates_1 :
    (push pop : ℕ) (w : Writer) (d : Dynamic) {name : ℕ}
    → pending w ≡ none
    → pending (expand_step (some 1) push pop w d).0 ≡ some name
    → 1 ≡ name
unfolding expand_step pending
allocates_1 push pop unlocked d e f = absurd (cc f)
allocates_1 push pop (locked s c) d e f = absurd (cc f)
allocates_1 push pop (pushes_loaded s c p) d e f = absurd (cc f)
allocates_1 push pop (counted s c p q) d e f = cc f
allocates_1 push pop (archived s c p q name) d e f = absurd (cc e)
allocates_1 push pop (slots_stored s c p q name) d e f = absurd (cc e)
allocates_1 push pop (capacity_stored s c p q name) d e f = absurd (cc e)
allocates_1 push pop (stride_stored s c p q name) d e f = absurd (cc e)

expands_on :
    (w : Numbers)
    → w.threads.push_ticket ≡ 1
    → w.threads.pop_ticket ≡ 0
    → (pending w.threads.writer ≡ none → w.threads.published ≡ two_slots)
    → Walk w
    → Walk (expand w)
expands_on w one none_ first r = next r (
    moves (expands (some 1) (omega (arith, one, none_))) refl refl (λ name e f.
      rw
        (
          sym (
              allocates_1 w.threads.push_ticket w.threads.pop_ticket w.threads.writer
                w.threads.queue e f),
          first e,
        )
        unused))

-- Ticket 0 is drawn for a push, whose thread finds the first array; the queue is to be expanded.
abbrev drawn : Numbers
drawn = record (unread counter 0 two_slots) {
  threads = record (untouched two_slots) {
    push_ticket = 1;
    readers = put (untouched two_slots).readers 0 (Reader.ticketed 0);
  };
  pushing = put (unread counter 0 two_slots).pushing 0 (some 7);
  written = put (unread counter 0 two_slots).written 0 (some 7);
}

draws : Walk drawn
unfolding unread untouched
draws = next here (draws_push 7 (draw_push 0) refl)

abbrev loaded : Snapshot
loaded = record { state = 0; slots = 0; capacity = 2; stride = compute_stride 2 }

abbrev first_array : ClosedArray
first_array = record { offset = 0; slots = 0; capacity = 2; stride = compute_stride 2 }

abbrev pushing : Numbers
pushing = find 0 drawn

abbrev taken : Numbers
taken = record pushing {
  threads = record (pushing.threads) {
    queue = record (pushing.threads.queue) { dstate = 1 };
    writer = locked 0 2;
  };
  store = allocate counter 0 none none pushing.store;
}

takes : Walk taken
unfolding untouched unread put read_step init_queue with_array array_of get_offset pending
takes = next (finds 0 drawn draws) (
    moves (locks 0 {v = loaded} {a = first_array} refl (omega arith) refl) refl refl
      (λ name e f. absurd (cc f)))

abbrev counting : Numbers
counting = expand (expand taken)

counts : Walk counting
unfolding untouched unread put read_step init_queue with_array array_of get_offset expand_step
    publish
counts = expands_on _ refl refl (λ _. refl) (expands_on _ refl refl (λ _. refl) takes)

abbrev storing : Numbers
storing = expand (expand (expand (expand counting)))

stores : Walk storing
unfolding untouched unread put read_step init_queue with_array array_of get_offset expand_step
    publish
stores =
    expands_on _ refl refl (λ _. refl)
      (expands_on _ refl refl (λ _. refl)
        (expands_on _ refl refl (λ _. refl) (expands_on _ refl refl (λ _. refl) counts)))

abbrev grown : Numbers
grown = expand storing

grows : Walk grown
unfolding untouched unread put read_step init_queue with_array array_of get_offset expand_step
    publish pending
grows = expands_on storing refl refl (λ e. absurd (cc e)) stores

-- Ticket 0 is drawn for a pop, whose thread finds the first array among those closed.
abbrev popping : Numbers
popping = record grown {
  threads = record (grown.threads) {
    pop_ticket = 1;
    readers = put grown.threads.readers 1 (Reader.ticketed 0);
  };
  popping = put grown.popping 0 true;
}

pops : Walk popping
unfolding untouched unread put read_step init_queue with_array array_of get_offset expand_step
    publish
pops = next grows (draws_pop (draw_pop 1) refl)

abbrev ready : Numbers
ready = find 1 popping

-- The push is done.
abbrev pushed : Numbers
pushed = record ready {
  store =
      put ready.store 0
        (store_slot counter 0 0 (record { sequencer = 1; contents = some 7 })
          (array first_array ready.store)).slots;
  pushing = put ready.pushing 0 none;
}

abbrev larger : Snapshot
larger = record { state = pack 2 1; slots = 1; capacity = 6; stride = compute_stride 6 }

pushes : Walk pushed
unfolding untouched unread put read_step init_queue with_array array_of get_offset get_num_closed
    pack search_closed count_closed expand_step publish pending allocate array store_slot slot_of
    enqueue_with_ticket enqueue may_enqueue idx turn compute_stride
pushes = next (finds 1 popping pops) (
    use_push 0 {v = loaded} {a = first_array} refl
      (record { product = omega arith; turns = omega arith }) refl refl)

handed_over_example :
    (dequeue_with_ticket counter 0 0 (array first_array pushed.store) ≡ waits)
    ⊎ ((x : ℕ) × (q : Mpmc (Slot ℕ ℕ)) × (dequeue_with_ticket counter 0 0
            (array first_array pushed.store)
          ≡ got x q)
        × (pushed.written 0 ≡ some x))
unfolding untouched unread put read_step init_queue with_array array_of get_offset get_num_closed
    pack search_closed count_closed expand_step publish pending make_dynamic
handed_over_example =
    handed_over counter 0 100 2 3 1 {t = 0} {s = larger} {a = first_array} (omega arith)
      (omega arith) refl pushes refl (record { product = omega arith; turns = omega arith }) refl
