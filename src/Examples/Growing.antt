-- ===== src/Examples/Growing.antt =====
-- A push finds its array, and the queue grows before the pop of the same ticket looks for it.
use thread_pool_exec.Prelude.{put, ℕ, ◌≤◌, ◌≡◌, ◌≢◌, ◌⊎◌, true, some, refl, arith}
use thread_pool_exec.Mpmc.Stride.{compute_stride}
use thread_pool_exec.Mpmc.Dynamic.{
  Dynamic, ClosedArray, make_dynamic, init_queue, array_of, try_expand, get_offset,
}
use thread_pool_exec.Mpmc.Dynamic.Threads.{
  Snapshot, Reader, Threads, Reach, here, next, untouched, unlocked, locked, draw_push, reads,
  locks, expands, read_step, with_array, expand_step, publish,
}
use thread_pool_exec.Mpmc.Dynamic.Threads.Seqlock.{Made, section-consistent, expansion_atomic}

abbrev growing : Dynamic
growing = init_queue 100 2 3

abbrev Run : Threads → Type 0
Run w = Reach (untouched growing) w

abbrev reads_by : ℕ → Threads → Threads
reads_by i w = record w { readers = put w.readers i (read_step w.queue (w.readers i)) }

-- Four accesses, the loads of a read section.
abbrev section : ℕ → Threads → Threads
section i w = reads_by i (reads_by i (reads_by i (reads_by i w)))

read_section : (i : ℕ) (w : Threads) → Run w → Run (section i w)
read_section i w r = next (next (next (next r (reads i)) (reads i)) (reads i)) (reads i)

-- The last load, and `maybeUpdateFromClosed`.
abbrev found : ℕ → Threads → Threads
found i w = reads_by i (reads_by i (section i w))

read_found : (i : ℕ) (w : Threads) → Run w → Run (found i w)
read_found i w r = next (next (read_section i w r) (reads i)) (reads i)

abbrev expand_by : Threads → Threads
expand_by w =
    let s = expand_step (some 1) w.push_ticket w.pop_ticket w.writer w.queue in
    record w { queue = s.1; writer = s.0; published = publish (s.0) (s.1) w.published }

abbrev drawn : Threads
drawn = record (untouched growing) {
  push_ticket = 1;
  readers = put (untouched growing).readers 0 (Reader.ticketed 0);
}

draws : Run drawn
unfolding untouched
draws = next here (draw_push 0)

made : (w : Threads) → Run w → Made w
unfolding make_dynamic
made w r = record {
  capacity = 100;
  min_capacity = 2;
  multiplier = 3;
  first = growing;
  small = omega arith;
  bounded = omega arith;
  made = refl;
  reached = r;
}

abbrev loaded : Snapshot
loaded = record { state = 0; slots = 0; capacity = 2; stride = compute_stride 2 }

section-consistent_example :
    ((section 0 drawn).writer ≡ unlocked)
    × (loaded.slots ≡ (section 0 drawn).queue.dslots)
    × (loaded.capacity ≡ (section 0 drawn).queue.dcapacity)
    × (loaded.stride ≡ (section 0 drawn).queue.dstride)
unfolding untouched put read_step init_queue
section-consistent_example =
    section-consistent 0 (made (section 0 drawn) (read_section 0 drawn draws)) refl refl

-- The first push has its array; now the queue is expanded as far as the last store, and past it.
abbrev pushing : Threads
pushing = found 0 drawn

abbrev taken : Threads
taken = record pushing { queue = record (pushing.queue) { dstate = 1 }; writer = locked 0 2 }

abbrev first_array : ClosedArray
first_array = record { offset = 0; slots = 0; capacity = 2; stride = compute_stride 2 }

takes : Run taken
unfolding untouched put read_step init_queue with_array array_of get_offset
takes =
    next (read_found 0 drawn draws) (locks 0 {v = loaded} {a = first_array} refl (omega arith) refl)

expand_on : (w : Threads) → w.push_ticket ≡ 1 → w.pop_ticket ≡ 0 → Run w → Run (expand_by w)
expand_on w one none_ r = next r (expands (some 1) (omega arith))

-- The loads of the tickets.
abbrev counting : Threads
counting = expand_by (expand_by taken)

counts : Run counting
unfolding untouched put read_step init_queue with_array array_of get_offset expand_step
counts = expand_on _ refl refl (expand_on _ refl refl takes)

abbrev grown : Threads
grown = expand_by (expand_by (expand_by (expand_by (expand_by counting))))

abbrev storing : Threads
storing = expand_by (expand_by (expand_by (expand_by counting)))

stores : Run storing
unfolding untouched put read_step init_queue with_array array_of get_offset expand_step
stores =
    expand_on _ refl refl
      (expand_on _ refl refl (expand_on _ refl refl (expand_on _ refl refl counts)))

grows : Run grown
unfolding untouched put read_step init_queue with_array array_of get_offset expand_step
grows = expand_on storing refl refl stores

expansion_atomic_example :
    ((grown.published ≡ storing.published)
      ⊎ ((name p q : ℕ) × (try_expand (some name) p q storing.published
            ≡ some (true, grown.published))
          × (p ≤ storing.push_ticket)
          × (q ≤ storing.pop_ticket)))
    × ((grown.writer ≢ unlocked) ⊎ (grown.queue ≡ grown.published))
unfolding untouched put read_step init_queue with_array array_of get_offset expand_step publish
expansion_atomic_example = expansion_atomic (made storing stores) (expands (some 1) (omega arith))
