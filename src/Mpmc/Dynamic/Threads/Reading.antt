-- ===== src/Mpmc/Dynamic/Threads/Reading.antt =====
-- The steps of a thread that reads, and what others' steps leave of what it has read.
use thread_pool_exec.Prelude.{
  ℕ, ◌+◌, ◌%◌, ◌≤◌, ◌≡◌, max, Bool, true, set, arith, inl, inr, refl, Bool-cases, ◌==◌,
}
use thread_pool_exec.Mpmc.Dynamic.{ClosedArray, Dynamic, get_num_closed, array_of}
use thread_pool_exec.Mpmc.Dynamic.Laws
use thread_pool_exec.Mpmc.Dynamic.Expand.{search_closed-set, array_of-total}
use thread_pool_exec.Mpmc.Dynamic.Threads.{
  Snapshot, Writer, unlocked, locked, pushes_loaded, counted, archived, slots_stored,
  capacity_stored, stride_stored, closing, Reader, idle, ticketed, state_loaded, slots_loaded,
  capacity_loaded, all_loaded, inside, using, failed, seen, with_array, read_step,
}
use thread_pool_exec.Mpmc.Dynamic.Threads.Defs.{memory, clean, limit, Agrees, Reads, Same}

-- Later tickets and a later limit do no harm, nor does memory that is no longer clean.
pub Reads-later :
    (d : Dynamic) (k k' : Bool) (b b' m m' : ℕ) (r : Reader)
    → (k' ≡ true → k ≡ true)
    → b ≤ b'
    → m ≤ m'
    → Reads d k b m r
    → Reads d k' b' m' r
Reads-later d k k' b b' m m' idle kk bb mm h = tt
Reads-later d k k' b b' m m' (ticketed t) kk bb mm h = omega arith
Reads-later d k k' b b' m m' (state_loaded t s) kk bb mm h = (omega arith, h.1)
Reads-later d k k' b b' m m' (slots_loaded t s x) kk bb mm h = (omega arith, h.1, λ e. h.2 (kk e))
Reads-later d k k' b b' m m' (capacity_loaded t s x c) kk bb mm h =
    (omega arith, h.1, λ e. h.2 (kk e))
Reads-later d k k' b b' m m' (all_loaded t v) kk bb mm h = (omega arith, h.1, λ e. h.2 (kk e))
Reads-later d k k' b b' m m' (inside t v) kk bb mm h = (omega arith, h.1, h.2, h.3)
Reads-later d k k' b b' m m' (using t v a) kk bb mm h = (omega arith, h.1, h.2, h.3)
Reads-later d k k' b b' m m' failed kk bb mm h = h

-- An entry past those that a snapshot knows of is not looked at.
pub array_of-set :
    (t n : ℕ) (v : Snapshot) (d : Dynamic) (a : ClosedArray)
    → get_num_closed v.state ≤ n
    → array_of t (seen v (record d { closed = set d.closed n a })) ≡ array_of t (seen v d)
unfolding array_of
array_of-set t n v d a le = rw (search_closed-set (get_num_closed v.state) n t d.closed a le) refl

-- A thread in its section sees in memory what it would see in the queue published.
pub seen-memory :
    (t : ℕ) (v : Snapshot) (w : Writer) (d : Dynamic) (push pop : ℕ)
    → Agrees w d push pop
    → get_num_closed v.state ≤ get_num_closed d.dstate
    → array_of t (seen v (memory w d)) ≡ array_of t (seen v d)
seen-memory t v unlocked d push pop g le = refl
seen-memory t v (locked s c) d push pop g le = refl
seen-memory t v (pushes_loaded s c p) d push pop g le = refl
seen-memory t v (counted s c p q) d push pop g le = refl
seen-memory t v (archived s c p q name) d push pop g le =
    rw (g.0.0) (array_of-set t _ v d (closing d.dstate c d) le)
seen-memory t v (slots_stored s c p q name) d push pop g le =
    rw (g.0.0) (array_of-set t _ v d (closing d.dstate c d) le)
seen-memory t v (capacity_stored s c p q name) d push pop g le =
    rw (g.0.0) (array_of-set t _ v d (closing d.dstate c d) le)
seen-memory t v (stride_stored s c p q name) d push pop g le =
    rw (g.0.0) (array_of-set t _ v d (closing d.dstate c d) le)

-- The memory shows the word of the queue published while it is not locked, and an odd one else.
pub locked_odd :
    (w : Writer) (d : Dynamic) (push pop : ℕ)
    → Agrees w d push pop
    → d.dstate % 2 ≡ 0
    → (memory w d).dstate % 2 ≡ 0
    → w ≡ unlocked
locked_odd unlocked d push pop g even e = refl
locked_odd (locked s c) d push pop g even e = absurd (omega arith)
locked_odd (pushes_loaded s c p) d push pop g even e = absurd (omega arith)
locked_odd (counted s c p q) d push pop g even e = absurd (omega arith)
locked_odd (archived s c p q name) d push pop g even e = absurd (omega arith)
locked_odd (slots_stored s c p q name) d push pop g even e = absurd (omega arith)
locked_odd (capacity_stored s c p q name) d push pop g even e = absurd (omega arith)
locked_odd (stride_stored s c p q name) d push pop g even e = absurd (omega arith)

clean_fields :
    (w : Writer) (d : Dynamic)
    → clean w ≡ true
    → ((memory w d).dslots ≡ d.dslots)
      × ((memory w d).dcapacity ≡ d.dcapacity)
      × ((memory w d).dstride ≡ d.dstride)
clean_fields unlocked d e = (refl, refl, refl)
clean_fields (locked s c) d e = (refl, refl, refl)
clean_fields (pushes_loaded s c p) d e = (refl, refl, refl)
clean_fields (counted s c p q) d e = (refl, refl, refl)
clean_fields (archived s c p q name) d e = (refl, refl, refl)
clean_fields (slots_stored s c p q name) d e = absurd (cc)
clean_fields (capacity_stored s c p q name) d e = absurd (cc)
clean_fields (stride_stored s c p q name) d e = absurd (cc)

seen-Same :
    (t : ℕ) (v : Snapshot) (d : Dynamic)
    → v.state ≡ d.dstate
    → Same v d
    → array_of t (seen v d) ≡ array_of t d
seen-Same t v d e same = let (x, c, k) = same e in rw (e, x, c, k) refl

module _ (w : Writer) (d : Dynamic) (push pop : ℕ) (g : Agrees w d push pop)
    (even : d.dstate % 2 ≡ 0) (shape : Laws.Inv d) where
  -- Each access of a thread keeps what is so of it.
  pub read_step-Reads :
      (r : Reader)
      → Reads d (clean w) (limit w push pop) (1 + max push pop) r
      → limit w push pop ≤ 1 + max push pop
      → Reads d (clean w) (limit w push pop) (1 + max push pop) (read_step (memory w d) r)
  unfolding read_step
  read_step-Reads idle h le = tt
  read_step-Reads (ticketed t) h le = elim (Bool-cases ((memory w d).dstate % 2 == 0)) [
    | inl free ↦
        let is_open : w ≡ unlocked = locked_odd w d push pop g even (ground arith) in
        rw (free, is_open) (h, (even, omega arith))
    | inr busy ↦ rw busy h
  ]
  read_step-Reads (state_loaded t s) h le = (h.0, h.1, λ k e. (clean_fields w d k).0)
  read_step-Reads (slots_loaded t s x) h le = (h.0, h.1, λ k e. (h.2 k e, (clean_fields w d k).1))
  read_step-Reads (capacity_loaded t s x c) h le =
      (h.0, h.1, λ k e. ((h.2 k e).0, (h.2 k e).1, (clean_fields w d k).2))
  read_step-Reads (all_loaded t v) h le = elim (Bool-cases (v.state == (memory w d).dstate)) [
    | inl same ↦
        let word : v.state ≡ (memory w d).dstate = ground arith in
        let is_open : w ≡ unlocked = locked_odd w d push pop g even (omega (arith, h.1.0)) in
        let fields : Same v d = h.2 (rw is_open refl) in
        let current : v.state ≡ d.dstate = rw is_open at word in
        rw same (h.0, h.1, fields, seen-Same t v d current fields)
    | inr moved ↦ rw moved (omega arith)
  ]
  read_step-Reads (inside t v) h le =
      let (a, found, fits) = array_of-total t d shape in
      rw (seen-memory t v w d push pop g h.1.1, h.3, found, with_array) (h.0, h.1, h.2, found)
  read_step-Reads (using t v a) h le = h
  read_step-Reads failed h le = h
