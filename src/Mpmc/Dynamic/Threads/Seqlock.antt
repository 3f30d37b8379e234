-- ===== src/Mpmc/Dynamic/Threads/Seqlock.antt =====
-- What the sequence lock of ThreadPool/MPMCQueue.h gives the threads that use a growing queue.
use thread_pool_exec.Prelude.{
  ℕ, ◌%◌, ◌^◌, ◌≤◌, ◌<◌, ◌≡◌, ◌≢◌, ◌⊎◌, true, none, some, arith, ◌∙◌, sym, ap, refl, Option, inl,
  inr, length,
}
use thread_pool_exec.Mpmc.Dynamic.{
  ClosedArray, Dynamic, get_num_closed, make_dynamic, try_expand, init_queue,
}
use thread_pool_exec.Mpmc.Dynamic.Laws
use thread_pool_exec.Mpmc.Dynamic.Laws.{make_dynamic-Inv}
use thread_pool_exec.Mpmc.Dynamic.Expand.{expands, inside}
use thread_pool_exec.Mpmc.Dynamic.Threads.{
  Snapshot, Writer, unlocked, locked, pushes_loaded, counted, archived, slots_stored,
  capacity_stored, stride_stored, Reader, all_loaded, using, failed, expand_step, publish, Threads,
  Step, load_push, load_pop, draw_push, draw_pop, take_push, take_pop, start_again, reads, locks,
  Reach, here, next, untouched,
}
use thread_pool_exec.Mpmc.Dynamic.Threads
use thread_pool_exec.Mpmc.Dynamic.Threads.Defs.{memory, Agrees, Inv}
use thread_pool_exec.Mpmc.Dynamic.Threads.Reading.{locked_odd}
use thread_pool_exec.Mpmc.Dynamic.Threads.Invariant.{Step-Inv, holding, unlocked_now}

pub untouched-Inv : (d : Dynamic) → Laws.Inv d → d.dstate % 2 ≡ 0 → Inv (untouched d)
unfolding untouched
untouched-Inv d shape even = record {
  shape = shape;
  even = even;
  stored = refl;
  agrees = tt;
  bounded = omega arith;
  sections = λ i. tt;
}

pub made_even :
    (capacity min_capacity multiplier : ℕ) {d : Dynamic}
    → make_dynamic capacity min_capacity multiplier ≡ some d
    → d.dstate ≡ 0
unfolding make_dynamic init_queue
made_even capacity min_capacity multiplier e = ground arith

-- The worlds that a queue can come to from its constructor.
pub record Made (w : Threads) : Type 0 where
  pub capacity : ℕ
  pub min_capacity : ℕ
  pub multiplier : ℕ
  pub first : Dynamic
  pub small : capacity ≤ 2 ^ 31
  pub bounded : multiplier ≤ 2 ^ 32
  pub made : make_dynamic capacity min_capacity multiplier ≡ some first
  pub reached : Reach (untouched first) w

Reach-Inv : {u w : Threads} → Inv u → Reach u w → Inv w
Reach-Inv v here = v
Reach-Inv v (next r st) = Step-Inv st (Reach-Inv v r)

Made-Inv : {w : Threads} → Made w → Inv w
Made-Inv {w} m =
    Reach-Inv
      (untouched-Inv m.first
        (make_dynamic-Inv m.capacity m.min_capacity m.multiplier (m.small) (m.bounded) (m.made))
        (omega (arith, made_even m.capacity m.min_capacity m.multiplier (m.made))))
      (m.reached)

-- However the threads and an expansion interleave, when the last load of a read section finds the
-- word that its first load found, no expansion is under way, and the slots, the capacity and the
-- stride that it has loaded are, all three, those of the queue at that moment.
pub section-consistent :
    {w : Threads} (i : ℕ) {t : ℕ} {v : Snapshot}
    → Made w
    → w.readers i ≡ all_loaded t v
    → v.state ≡ w.queue.dstate
    → (w.writer ≡ unlocked)
      × (v.slots ≡ w.queue.dslots)
      × (v.capacity ≡ w.queue.dcapacity)
      × (v.stride ≡ w.queue.dstride)
section-consistent {w} i {t} {v} m e found =
    let k = Made-Inv m in
    let h = rw e at (k.sections i) in
    let parity : (memory w.writer w.published).dstate % 2 ≡ 0 =
      omega (arith, h.1.0, ap (λ (d : Dynamic). d.dstate) (k.stored), found) in
    let is_open : w.writer ≡ unlocked =
      locked_odd w.writer w.published w.push_ticket w.pop_ticket (k.agrees) (k.even) parity in
    let same : w.queue ≡ w.published = rw is_open at (k.stored) in
    let fields = h.2 (rw is_open refl) (found ∙ ap (λ (d : Dynamic). d.dstate) same) in
    rw same (is_open, fields.0, fields.1, fields.2)

-- Two threads that have found the array of one ticket, a push and a pop say, have found the same
-- one, however many expansions lie between their read sections.
one_array :
    {w : Threads} (i j : ℕ) {t : ℕ} {u v : Snapshot} {a b : ClosedArray}
    → Made w
    → w.readers i ≡ using t u a
    → w.readers j ≡ using t v b
    → a ≡ b
one_array {w} i j m e f =
    let k = Made-Inv m in let g = sym ((holding w i k e).3) ∙ (holding w j k f).3 in cc g

-- When a thread calls `tryExpand` on a queue that is not of the full capacity and its
-- compare-and-swap gets the lock, the assertions hold: the word it had read is even, `cap` is the
-- capacity of the queue at that moment, and `closed_` has room for the array to be closed. And no
-- thread fails the assertion that ends `maybeUpdateFromClosed`.
asserts :
    {w : Threads} (i : ℕ) {t : ℕ} {v : Snapshot} {a : ClosedArray}
    → Made w
    → w.readers i ≡ using t v a
    → v.capacity ≢ w.queue.capacity
    → w.queue.dstate ≡ v.state
    → (v.state % 2 ≡ 0)
      × (v.capacity ≡ w.queue.dcapacity)
      × (get_num_closed v.state < length w.queue.closed)
      × ((j : ℕ) → w.readers j ≢ failed)
asserts {w} i {t} {v} {a} m e less found =
    let k = Made-Inv m in
    let (is_open, same, word, cap) = unlocked_now w i k e found in
    let below : w.published.dcapacity < w.published.capacity =
      omega (arith, cap, less, k.shape.within, ap (λ (d : Dynamic). d.capacity) same) in
    (
      (holding w i k e).1.0,
      cap ∙ ap (λ (d : Dynamic). d.dcapacity) (sym same),
      omega (
        arith,
        inside 0 0 0 w.published (k.shape) (omega arith) below,
        ap get_num_closed word,
        ap (λ (d : Dynamic). length d.closed) same,
      ),
      λ j f. rw f at (k.sections j),
    )

-- What a step of the expanding thread publishes: nothing, or the result of a whole `tryExpand`.
published_step :
    (new : Option ℕ) (w : Writer) (d : Dynamic) (push pop : ℕ)
    → Laws.Inv d
    → Agrees w d push pop
    → let s = expand_step new push pop w (memory w d) in
      (publish (s.0) (s.1) d ≡ d)
      ⊎ ((name p q : ℕ) × (try_expand (some name) p q d ≡ some (true, publish (s.0) (s.1) d))
          × (p ≤ push)
          × (q ≤ pop))
unfolding expand_step publish
published_step new unlocked d push pop shape g = inl refl
published_step new (locked s c) d push pop shape g = inl refl
published_step new (pushes_loaded s c p) d push pop shape g = inl refl
published_step none (counted s c p q) d push pop shape g = inl (rw (g.0.0) refl)
published_step (some name) (counted s c p q) d push pop shape g = inl refl
published_step new (archived s c p q name) d push pop shape g = inl refl
published_step new (slots_stored s c p q name) d push pop shape g = inl refl
published_step new (capacity_stored s c p q name) d push pop shape g = inl refl
published_step new (stride_stored s c p q name) d push pop shape g =
    let less : d.dcapacity < d.capacity = omega (arith, g.0.1, g.0.2) in
    inr (name, p, q, rw (g.0.0, g.0.1) (expands name p q d shape (g.1.2) less), g.1.0, g.1.1)

published_now :
    {w w' : Threads}
    → Step w w'
    → Inv w
    → (w'.published ≡ w.published)
      ⊎ ((name p q : ℕ) × (try_expand (some name) p q w.published ≡ some (true, w'.published))
          × (p ≤ w.push_ticket)
          × (q ≤ w.pop_ticket))
published_now (load_push i) k = inl refl
published_now (load_pop i) k = inl refl
published_now (draw_push i) k = inl refl
published_now (draw_pop i) k = inl refl
published_now (take_push i e now) k = inl refl
published_now (take_pop i e now) k = inl refl
published_now (start_again i e) k = inl refl
published_now (reads i) k = inl refl
published_now (locks i e more found) k = inl refl
published_now {w} (Threads.expands new small) k =
    rw (k.stored)
      (published_step new w.writer w.published w.push_ticket w.pop_ticket (k.shape) (k.agrees))

free_memory : (w : Writer) (queue d : Dynamic) → queue ≡ memory w d → (w ≢ unlocked) ⊎ (queue ≡ d)
free_memory unlocked queue d e = inr e
free_memory (locked s c) queue d e = inl (λ h. cc h)
free_memory (pushes_loaded s c p) queue d e = inl (λ h. cc h)
free_memory (counted s c p q) queue d e = inl (λ h. cc h)
free_memory (archived s c p q name) queue d e = inl (λ h. cc h)
free_memory (slots_stored s c p q name) queue d e = inl (λ h. cc h)
free_memory (capacity_stored s c p q name) queue d e = inl (λ h. cc h)
free_memory (stride_stored s c p q name) queue d e = inl (λ h. cc h)

-- Expansions appear at one moment: a step leaves the published queue as it is, or makes it what a
-- whole `tryExpand` makes of it, with tickets no later than those of the moment; and whenever the
-- lock is free the memory is the published queue.
pub expansion_atomic :
    {w w' : Threads}
    → Made w
    → Step w w'
    → ((w'.published ≡ w.published)
        ⊎ ((name p q : ℕ) × (try_expand (some name) p q w.published ≡ some (true, w'.published))
            × (p ≤ w.push_ticket)
            × (q ≤ w.pop_ticket)))
      × ((w'.writer ≢ unlocked) ⊎ (w'.queue ≡ w'.published))
expansion_atomic {w} {w'} m st =
    let k = Made-Inv m in
    (published_now st k, free_memory w'.writer w'.queue w'.published ((Step-Inv st k).stored))
