-- ===== src/Mpmc/Dynamic/Threads/Growing.antt =====
-- The steps of the thread that expands, and what the other threads have read when it is done.
use thread_pool_exec.Prelude.{
  ℕ, ◌+◌, ◌%◌, ◌^◌, ◌≤◌, ◌<◌, ◌≡◌, ◌≢◌, max, Bool, true, false, none, some, arith, ◌∙◌, sym, ap,
  refl, Option,
}
use thread_pool_exec.Mpmc.Dynamic.{Dynamic, get_num_closed, array_of}
use thread_pool_exec.Mpmc.Dynamic.Laws
use thread_pool_exec.Mpmc.Dynamic.Expand.{expanded, expanded-array_of, packed, expanded-Inv}
use thread_pool_exec.Mpmc.Dynamic.Threads.{
  Snapshot, Writer, unlocked, locked, pushes_loaded, counted, archived, slots_stored,
  capacity_stored, stride_stored, closing, Reader, idle, ticketed, state_loaded, slots_loaded,
  capacity_loaded, all_loaded, inside, using, failed, seen, expand_step, publish,
}
use thread_pool_exec.Mpmc.Dynamic.Threads.Defs.{memory, clean, limit, Agrees, Reads, Sections, Kept}
use thread_pool_exec.Mpmc.Dynamic.Threads.Reading.{array_of-set, Reads-later}

module _ (name p q : ℕ) (d : Dynamic) (shape : Laws.Inv d) (small : 1 + max p q < 2 ^ 58)
    (less : d.dcapacity < d.capacity) where
  grown : get_num_closed (expanded name p q d shape small less).dstate ≡ get_num_closed d.dstate + 1
  grown = (packed name p q d shape small less).1

  -- A word that was read before is none of the new queue's.
  other_word :
      (s : ℕ)
      → get_num_closed s ≤ get_num_closed d.dstate
      → s ≢ (expanded name p q d shape small less).dstate
  other_word s le e = omega (arith, ap get_num_closed e, grown)

  sees :
      (t : ℕ) (v : Snapshot)
      → t < 1 + max p q
      → get_num_closed v.state ≤ get_num_closed d.dstate
      → array_of t (seen v d) ≡ array_of t d
      → array_of t (seen v (expanded name p q d shape small less))
        ≡ array_of t (expanded name p q d shape small less)
  sees t v drawn le e =
      array_of-set t (get_num_closed d.dstate) v d (closing d.dstate d.dcapacity d) le
      ∙ e
      ∙ sym (expanded-array_of name p q d shape small less t drawn)

  -- What threads have read stays true of the new queue.
  pub Reads-publish :
      (k : Bool) (b m m' : ℕ) (r : Reader)
      → Reads d k (1 + max p q) m r
      → 1 + max p q ≤ b
      → m ≤ m'
      → Reads (expanded name p q d shape small less) true b m' r
  Reads-publish k b m m' idle h bb mm = tt
  Reads-publish k b m m' (ticketed t) h bb mm = omega arith
  Reads-publish k b m m' (state_loaded t s) h bb mm =
      (omega arith, (h.1.0, omega (arith, h.1.1, grown)))
  Reads-publish k b m m' (slots_loaded t s x) h bb mm =
      (omega arith, (h.1.0, omega (arith, h.1.1, grown)), λ c e. absurd (other_word s (h.1.1) e))
  Reads-publish k b m m' (capacity_loaded t s x y) h bb mm =
      (omega arith, (h.1.0, omega (arith, h.1.1, grown)), λ c e. absurd (other_word s (h.1.1) e))
  Reads-publish k b m m' (all_loaded t v) h bb mm = (
    omega arith,
    (h.1.0, omega (arith, h.1.1, grown)),
    λ c e. absurd (other_word v.state (h.1.1) e),
  )
  Reads-publish k b m m' (inside t v) h bb mm = (
    omega arith,
    (h.1.0, omega (arith, h.1.1, grown)),
    λ e. absurd (other_word v.state (h.1.1) e),
    sees t v (h.0) (h.1.1) (h.3),
  )
  Reads-publish k b m m' (using t v a) h bb mm = (
    omega arith,
    (h.1.0, omega (arith, h.1.1, grown)),
    λ e. absurd (other_word v.state (h.1.1) e),
    expanded-array_of name p q d shape small less t (h.0) ∙ h.3,
  )
  Reads-publish k b m m' failed h bb mm = h

module _ (push pop : ℕ) (readers : ℕ → Reader) (small : 1 + max push pop < 2 ^ 58) where
  abbrev Moves : Option ℕ → Writer → Dynamic → Type 0
  Moves new w d =
      let s = expand_step new push pop w (memory w d) in
      Kept (s.0) (s.1) (publish (s.0) (s.1) d) push pop readers

  same_limit :
      (w w' : Writer) (d : Dynamic)
      → Sections w d push pop readers
      → (clean w' ≡ true → clean w ≡ true)
      → limit w push pop ≤ limit w' push pop
      → Sections w' d push pop readers
  same_limit w w' d h c le i =
      Reads-later d (clean w) (clean w') (limit w push pop) (limit w' push pop) (1 + max push pop)
        (1 + max push pop) (readers i) c le (omega arith) (h i)

  pub expand_step-Kept :
      (new : Option ℕ) (w : Writer) (d : Dynamic)
      → Laws.Inv d
      → d.dstate % 2 ≡ 0
      → Agrees w d push pop
      → limit w push pop ≤ 1 + max push pop
      → Sections w d push pop readers
      → Moves new w d
  unfolding expand_step publish
  expand_step-Kept new unlocked d shape even g le h = record {
    shape = shape;
    even = even;
    stored = refl;
    agrees = tt;
    bounded = le;
    sections = h;
  }
  expand_step-Kept new (locked s c) d shape even g le h = record {
    shape = shape;
    even = even;
    stored = refl;
    agrees = (g, omega arith);
    bounded = omega arith;
    sections = same_limit (locked s c) (pushes_loaded s c push) d h (λ k. refl) (omega arith);
  }
  expand_step-Kept new (pushes_loaded s c p) d shape even g le h = record {
    shape = shape;
    even = even;
    stored = refl;
    agrees = (g.0, (g.1, omega arith, omega (arith, g.1)));
    bounded = omega (arith, g.1);
    sections = same_limit (pushes_loaded s c p) (counted s c p pop) d h (λ k. refl) (omega arith);
  }
  expand_step-Kept none (counted s c p q) d shape even g le h = rw (g.0.0) (record {
    shape = shape;
    even = even;
    stored = refl;
    agrees = tt;
    bounded = omega arith;
    sections = same_limit (counted d.dstate c p q) unlocked d h (λ k. refl) (omega arith);
  })
  expand_step-Kept (some name) (counted s c p q) d shape even g le h = record {
    shape = shape;
    even = even;
    stored = refl;
    agrees = g;
    bounded = le;
    sections = h;
  }
  expand_step-Kept new (archived s c p q name) d shape even g le h = record {
    shape = shape;
    even = even;
    stored = refl;
    agrees = g;
    bounded = le;
    sections =
        same_limit (archived s c p q name) (slots_stored s c p q name) d h (λ k. refl)
          (omega arith);
  }
  expand_step-Kept new (slots_stored s c p q name) d shape even g le h = record {
    shape = shape;
    even = even;
    stored = refl;
    agrees = g;
    bounded = le;
    sections = h;
  }
  expand_step-Kept new (capacity_stored s c p q name) d shape even g le h = record {
    shape = shape;
    even = even;
    stored = refl;
    agrees = g;
    bounded = le;
    sections = h;
  }
  expand_step-Kept new (stride_stored s c p q name) d shape even g le h =
      let less : d.dcapacity < d.capacity = omega (arith, g.0.1, g.0.2) in
      rw (g.0.0, g.0.1)
        (record {
          shape = expanded-Inv name p q d shape (g.1.2) less;
          even = (packed name p q d shape (g.1.2) less).2;
          stored = refl;
          agrees = tt;
          bounded = omega arith;
          sections = λ i.
              Reads-publish name p q d shape (g.1.2) less false (1 + max push pop)
                (1 + max push pop) (1 + max push pop) (readers i) (h i) le (omega arith);
        })
