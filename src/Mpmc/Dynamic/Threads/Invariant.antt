-- ===== src/Mpmc/Dynamic/Threads/Invariant.antt =====
-- Every step of the threads that use a growing queue of ThreadPool/MPMCQueue.h keeps the invariant.
use thread_pool_exec.Prelude.{
  put, ℕ, ◌+◌, ◌%◌, ◌≤◌, ◌≡◌, max, arith, ◌∙◌, sym, ap, refl, Bool-cases, ◌==◌, inl, inr,
}
use thread_pool_exec.Mpmc.Dynamic.{ClosedArray, Dynamic}
use thread_pool_exec.Mpmc.Dynamic.Threads.{
  Snapshot, Writer, unlocked, locked, pushes_loaded, counted, archived, slots_stored,
  capacity_stored, stride_stored, Reader, ticketed, using, Threads, Step, load_push, load_pop,
  draw_push, draw_pop, take_push, take_pop, start_again, reads, locks, expands,
}
use thread_pool_exec.Mpmc.Dynamic.Threads.Defs.{memory, clean, limit, Agrees, Reads, Kept, Inv}
use thread_pool_exec.Mpmc.Dynamic.Threads.Reading.{Reads-later, read_step-Reads, locked_odd}
use thread_pool_exec.Mpmc.Dynamic.Threads.Growing.{expand_step-Kept}

put_all :
    (P : Reader → Type 0) (f : ℕ → Reader) (i : ℕ) (r : Reader)
    → ((j : ℕ) → P (f j))
    → P r
    → (j : ℕ) → P (put f i r j)
unfolding put
put_all P f i r old new j = elim (Bool-cases (j == i)) [
  | inl same ↦ rw same new
  | inr other ↦ rw other (old j)
]

pub limit_mono :
    (w : Writer) (push pop push' pop' : ℕ)
    → push ≤ push'
    → pop ≤ pop'
    → limit w push pop ≤ limit w push' pop'
limit_mono unlocked push pop push' pop' a b = omega arith
limit_mono (locked s c) push pop push' pop' a b = omega arith
limit_mono (pushes_loaded s c p) push pop push' pop' a b = omega arith
limit_mono (counted s c p q) push pop push' pop' a b = omega arith
limit_mono (archived s c p q name) push pop push' pop' a b = omega arith
limit_mono (slots_stored s c p q name) push pop push' pop' a b = omega arith
limit_mono (capacity_stored s c p q name) push pop push' pop' a b = omega arith
limit_mono (stride_stored s c p q name) push pop push' pop' a b = omega arith

-- Tickets that are drawn are drawn later.
Agrees-later :
    (w : Writer) (d : Dynamic) (push pop push' pop' : ℕ)
    → push ≤ push'
    → pop ≤ pop'
    → Agrees w d push pop
    → Agrees w d push' pop'
Agrees-later unlocked d push pop push' pop' a b g = tt
Agrees-later (locked s c) d push pop push' pop' a b g = g
Agrees-later (pushes_loaded s c p) d push pop push' pop' a b g = (g.0, omega (arith, g.1))
Agrees-later (counted s c p q) d push pop push' pop' a b g = (g.0, omega (arith, g.1))
Agrees-later (archived s c p q name) d push pop push' pop' a b g = (g.0, omega (arith, g.1))
Agrees-later (slots_stored s c p q name) d push pop push' pop' a b g = (g.0, omega (arith, g.1))
Agrees-later (capacity_stored s c p q name) d push pop push' pop' a b g = (g.0, omega (arith, g.1))
Agrees-later (stride_stored s c p q name) d push pop push' pop' a b g = (g.0, omega (arith, g.1))

limit-le :
    (w : Writer) (d : Dynamic) (push pop : ℕ)
    → Agrees w d push pop
    → limit w push pop ≤ 1 + max push pop
limit-le unlocked d push pop g = omega arith
limit-le (locked s c) d push pop g = omega arith
limit-le (pushes_loaded s c p) d push pop g = omega (arith, g.1)
limit-le (counted s c p q) d push pop g = omega (arith, g.1)
limit-le (archived s c p q name) d push pop g = omega (arith, g.1)
limit-le (slots_stored s c p q name) d push pop g = omega (arith, g.1)
limit-le (capacity_stored s c p q name) d push pop g = omega (arith, g.1)
limit-le (stride_stored s c p q name) d push pop g = omega (arith, g.1)

-- Tickets move on, and nothing else changes.
later_tickets :
    {w : Writer} {queue d : Dynamic} {push pop : ℕ} {readers : ℕ → Reader} (push' pop' : ℕ)
    → push ≤ push'
    → pop ≤ pop'
    → Kept w queue d push pop readers
    → Kept w queue d push' pop' readers
later_tickets {w} {queue} {d} {push} {pop} {readers} push' pop' a b v =
    let g = Agrees-later w d push pop push' pop' a b (v.agrees) in
    record {
      shape = v.shape;
      even = v.even;
      stored = v.stored;
      agrees = g;
      bounded = limit-le w d push' pop' g;
      sections = λ i.
          Reads-later d (clean w) (clean w) (limit w push pop) (limit w push' pop')
            (1 + max push pop) (1 + max push' pop') (readers i) (λ k. k)
            (limit_mono w push pop push' pop' a b) (omega arith) (v.sections i);
    }

-- One thread moves.
new_reader :
    {w : Writer} {queue d : Dynamic} {push pop : ℕ} {readers : ℕ → Reader} (i : ℕ) (r : Reader)
    → Reads d (clean w) (limit w push pop) (1 + max push pop) r
    → Kept w queue d push pop readers
    → Kept w queue d push pop (put readers i r)
new_reader {w} {queue} {d} {push} {pop} {readers} i r new v = record {
  shape = v.shape;
  even = v.even;
  stored = v.stored;
  agrees = v.agrees;
  bounded = v.bounded;
  sections =
      put_all (Reads d (clean w) (limit w push pop) (1 + max push pop)) readers i r (v.sections)
        new;
}

-- A thread past its section has read the word of a queue that is or was published.
pub holding :
    (w : Threads) (i : ℕ) {t : ℕ} {v : Snapshot} {a : ClosedArray}
    → Inv w
    → w.readers i ≡ using t v a
    → Reads w.published
        (clean w.writer)
        (limit w.writer w.push_ticket w.pop_ticket)
        (1 + max w.push_ticket w.pop_ticket)
        (using t v a)
holding w i v e = rw e at (v.sections i)

-- A compare-and-swap that succeeds finds the queue published, and read by this thread.
pub unlocked_now :
    (w : Threads) (i : ℕ) {t : ℕ} {v : Snapshot} {a : ClosedArray}
    → Inv w
    → w.readers i ≡ using t v a
    → w.queue.dstate ≡ v.state
    → (w.writer ≡ unlocked)
      × (w.queue ≡ w.published)
      × (v.state ≡ w.published.dstate)
      × (v.capacity ≡ w.published.dcapacity)
unlocked_now w i {t} {v} {a} k e found =
    let h = holding w i k e in
    let parity : (memory w.writer w.published).dstate % 2 ≡ 0 =
      omega (arith, h.1.0, ap (λ (d : Dynamic). d.dstate) (k.stored), found) in
    let is_open =
      locked_odd w.writer w.published w.push_ticket w.pop_ticket (k.agrees) (k.even) parity in
    let same : w.queue ≡ w.published = rw is_open at (k.stored) in
    let word : v.state ≡ w.published.dstate = sym found ∙ ap (λ (d : Dynamic). d.dstate) same in
    (is_open, same, word, (h.2 word).1)

pub Step-Inv : {w w' : Threads} → Step w w' → Inv w → Inv w'
Step-Inv (load_push i) v = new_reader i _ (omega arith) v
Step-Inv (load_pop i) v = new_reader i _ (omega arith) v
Step-Inv {w} (draw_push i) v =
    new_reader i _ (omega arith)
      (later_tickets (w.push_ticket + 1) w.pop_ticket (omega arith) (omega arith) v)
Step-Inv {w} (draw_pop i) v =
    new_reader i _ (omega arith)
      (later_tickets w.push_ticket (w.pop_ticket + 1) (omega arith) (omega arith) v)
Step-Inv {w} (take_push i e now) v =
    later_tickets (w.push_ticket + 1) w.pop_ticket (omega arith) (omega arith) v
Step-Inv {w} (take_pop i e now) v =
    later_tickets w.push_ticket (w.pop_ticket + 1) (omega arith) (omega arith) v
Step-Inv {w} (start_again i {t} e) v =
    new_reader i (ticketed t) (omega (arith, (holding w i v e).0, v.bounded)) v
Step-Inv {w} (reads i) v =
    new_reader i _
      (rw (v.stored) (
        read_step-Reads w.writer w.published w.push_ticket w.pop_ticket (v.agrees) (v.even)
          (v.shape) (w.readers i) (v.sections i) (v.bounded)))
      v
Step-Inv {w} (locks i e more found) v =
    let (is_open, same, word, cap) = unlocked_now w i v e found in
    record {
      shape = v.shape;
      even = v.even;
      stored = rw same refl;
      agrees = (
        word,
        cap,
        omega (arith, cap, v.shape.within, ap (λ (d : Dynamic). d.capacity) same, more),
      );
      bounded = omega arith;
      sections = rw is_open at (v.sections);
    }
Step-Inv {w} (expands new small) v = rw (v.stored) (
    expand_step-Kept w.push_ticket w.pop_ticket w.readers small new w.writer w.published (v.shape)
      (v.even) (v.agrees) (v.bounded) (v.sections))
