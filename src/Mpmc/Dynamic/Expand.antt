-- ===== src/Mpmc/Dynamic/Expand.antt =====
-- `tryExpand` of ThreadPool/MPMCQueue.h, in which every ticket has an array, and keeps it.
use thread_pool_exec.Prelude.{
  ℕ, zero, suc, ◌+◌, ◌*◌, ◌%◌, ◌^◌, ◌≤◌, ◌<◌, ◌≡◌, ◌⊎◌, inl, inr, min, max, refl, ◌∙◌, arith, Bool,
  true, false, Option, none, some, List, length, get_elem?, set, leb, Bool-cases, length-set,
  get_elem?-set_self, get_elem?-set_ne, dec_le, ℕ_discrete, [], ◌∷◌,
}
use thread_pool_exec.Mpmc.Stride.{compute_stride}
use thread_pool_exec.Mpmc.Stride.Unit.{mul_mono}
use thread_pool_exec.Mpmc.Dynamic.Laws.{pack-get, Inv, whole, count_closed-grow}
use thread_pool_exec.Mpmc.Dynamic.{
  ClosedArray, Dynamic, get_offset, get_num_closed, pack, try_expand, search_closed, array_of,
}

pub search_closed-set :
    (i n ticket : ℕ) (closed : List ClosedArray) (a : ClosedArray)
    → i ≤ n
    → search_closed i ticket (set closed n a) ≡ search_closed i ticket closed
unfolding search_closed
search_closed-set zero n ticket closed a le = refl
search_closed-set (suc i) n ticket closed a le =
    let kept = get_elem?-set_ne closed {i = n} {j = i} a (λ (e : n ≡ i). absurd (omega arith)) in
    let same = search_closed-set i n ticket closed a (omega arith) in ground (arith, kept, same)

pub get_elem?-inside :
    (closed : List ClosedArray) (i : ℕ)
    → i < length closed
    → (a : ClosedArray) × (get_elem? closed i ≡ some a)
get_elem?-inside [] i h = absurd (omega arith)
get_elem?-inside (a ∷ closed) zero h = (a, refl)
get_elem?-inside (a ∷ closed) (suc i) h = get_elem?-inside closed i (omega arith)

search_closed-total :
    (i ticket : ℕ) (closed : List ClosedArray) {first : ClosedArray}
    → 0 < i
    → i ≤ length closed
    → get_elem? closed 0 ≡ some first
    → first.offset ≡ 0
    → (a : ClosedArray) × (search_closed i ticket closed ≡ some a) × (a.offset ≤ ticket)
unfolding search_closed
search_closed-total zero ticket closed pos le at from_0 = absurd (omega arith)
search_closed-total (suc i) ticket closed {first} pos le at from_0 =
    let (a, here) = get_elem?-inside closed i (omega arith) in
    elim (Bool-cases (leb a.offset ticket)) [
      | inl fits ↦ (a, ground arith, ground arith)
      | inr later ↦ elim (ℕ_discrete i 0) [
        | yes last ↦ absurd (ground arith)
        | no more ↦
            let (b, found, fits) =
              search_closed-total i ticket closed (omega arith) (omega arith) at from_0 in
            (b, ground arith, fits)
      ]
    ]

module _ (name push pop : ℕ) (d : Dynamic) (v : Inv d) (small : 1 + max push pop < 2 ^ 58)
    (less : d.dcapacity < d.capacity) where
  -- The queue after an expansion.
  abbrev pub expanded : Dynamic
  expanded = record d {
    closed = set d.closed (get_num_closed d.dstate) (record {
      offset = get_offset d.dstate;
      slots = d.dslots;
      capacity = d.dcapacity;
      stride = d.dstride;
    });
    dslots = name;
    dcapacity = min (d.multiplier * d.dcapacity % 2 ^ 64) d.capacity;
    dstride = compute_stride (min (d.multiplier * d.dcapacity % 2 ^ 64) d.capacity);
    dstate = pack (1 + max push pop) (get_num_closed d.dstate + 1);
  }

  pub inside : get_num_closed d.dstate < length d.closed
  inside = omega (
    arith,
    v.room,
    count_closed-grow d.dcapacity d.capacity d.multiplier v.some_slot less v.doubling v.bounded
        v.small,
  )

  pub packed :
      (get_offset (pack (1 + max push pop) (get_num_closed d.dstate + 1)) ≡ 1 + max push pop)
      × (get_num_closed (pack (1 + max push pop) (get_num_closed d.dstate + 1))
          ≡ get_num_closed d.dstate + 1)
      × (pack (1 + max push pop) (get_num_closed d.dstate + 1) % 2 ≡ 0)
  packed =
      pack-get (1 + max push pop) (get_num_closed d.dstate + 1) small (omega (arith, inside, v.few))

  pub expands : try_expand (some name) push pop d ≡ some (true, expanded)
  unfolding try_expand
  expands = ground (arith, inside)

  sized : length expanded.closed ≡ length d.closed
  sized = length-set d.closed (get_num_closed d.dstate) (record {
    offset = get_offset d.dstate;
    slots = d.dslots;
    capacity = d.dcapacity;
    stride = d.dstride;
  })

  starts : (a : ClosedArray) × (get_elem? expanded.closed 0 ≡ some a) × (a.offset ≡ 0)
  starts = elim v.first [
    | inl (no_closed, from_0) ↦ (
      record {
        offset = get_offset d.dstate;
        slots = d.dslots;
        capacity = d.dcapacity;
        stride = d.dstride;
      },
      rw no_closed (get_elem?-set_self d.closed 0 _ (omega (arith, inside))),
      from_0,
    )
    | inr (some_closed, a, at, from_0) ↦ (
      a,
      get_elem?-set_ne d.closed _ (λ (e : get_num_closed d.dstate ≡ 0). absurd (omega arith)) ∙ at,
      from_0,
    )
  ]

  pub expanded-Inv : Inv expanded
  expanded-Inv = record {
    doubling = v.doubling;
    bounded = v.bounded;
    small = v.small;
    some_slot = omega (
      arith,
      v.some_slot,
      v.doubling,
      whole d.dcapacity d.capacity d.multiplier less v.small v.bounded,
      mul_mono d.dcapacity 1 d.multiplier (omega (arith, v.doubling)),
    );
    within = omega arith;
    room = omega (
      arith,
      packed,
      sized,
      v.room,
      count_closed-grow d.dcapacity d.capacity d.multiplier v.some_slot less v.doubling v.bounded
          v.small,
    );
    few = omega (arith, sized, v.few);
    first = inr (omega (arith, packed), starts.0, starts.1, starts.2);
  }

  -- A ticket that was drawn before the expansion goes to the array that it went to.
  pub expanded-array_of :
      (ticket : ℕ) → ticket < 1 + max push pop → array_of ticket expanded ≡ array_of ticket d
  unfolding array_of search_closed
  expanded-array_of ticket drawn =
      let entry : ClosedArray = record {
        offset = get_offset d.dstate;
        slots = d.dslots;
        capacity = d.dcapacity;
        stride = d.dstride;
      } in
      let count : get_num_closed expanded.dstate ≡ suc (get_num_closed d.dstate) =
        omega (arith, packed) in
      let later : leb (get_offset expanded.dstate) ticket ≡ false = ground (arith, packed) in
      rw
        (
          later,
          count,
          search_closed,
          get_elem?-set_self d.closed (get_num_closed d.dstate) entry inside,
          search_closed-set (get_num_closed d.dstate) (get_num_closed d.dstate) ticket d.closed
              entry (omega arith),
        )
        refl

-- While tickets are below 2^58, an expansion stores inside `closed_` and keeps the shape of the
-- queue; it takes place unless the capacity is the full one or there is no memory; and no ticket
-- drawn before it changes its array.
pub try_expand-Inv :
    (new_slots : Option ℕ) (push pop : ℕ) (d : Dynamic)
    → Inv d
    → 1 + max push pop < 2 ^ 58
    → (grown : Bool) × (d' : Dynamic) × (try_expand new_slots push pop d ≡ some (grown, d'))
      × Inv d'
      × ((grown ≡ true) ⊎ (((d.dcapacity ≡ d.capacity) ⊎ (new_slots ≡ none)) × (d' ≡ d)))
      × ((ticket : ℕ) → (1 + max push pop ≤ ticket) ⊎ (array_of ticket d' ≡ array_of ticket d))
unfolding try_expand
try_expand-Inv none push pop d v small = elim (ℕ_discrete d.dcapacity d.capacity) [
  | yes full ↦ (false, d, ground arith, v, inr (inl full, refl), λ ticket. inr refl)
  | no less ↦ (false, d, ground arith, v, inr (inr refl, refl), λ ticket. inr refl)
]
try_expand-Inv (some name) push pop d v small = elim (ℕ_discrete d.dcapacity d.capacity) [
  | yes full ↦ (false, d, ground arith, v, inr (inl full, refl), λ ticket. inr refl)
  | no less ↦
      let below : d.dcapacity < d.capacity = omega (arith, less, v.within) in
      (
        true,
        expanded name push pop d v small below,
        expands name push pop d v small below,
        expanded-Inv name push pop d v small below,
        inl refl,
        λ ticket. elim (dec_le (1 + max push pop) ticket) [
          | yes later ↦ inl later
          | no drawn ↦ inr (expanded-array_of name push pop d v small below ticket (omega arith))
        ],
      )
]

-- Every ticket has an array, one that starts no later than the ticket: the assertion that ends
-- `maybeUpdateFromClosed` is not reached.
pub array_of-total :
    (ticket : ℕ) (d : Dynamic)
    → Inv d
    → (a : ClosedArray) × (array_of ticket d ≡ some a) × (a.offset ≤ ticket)
unfolding array_of
array_of-total ticket d v = elim (Bool-cases (leb (get_offset d.dstate) ticket)) [
  | inl current ↦ (
    record {
      offset = get_offset d.dstate;
      slots = d.dslots;
      capacity = d.dcapacity;
      stride = d.dstride;
    },
    rw current refl,
    ground arith,
  )
  | inr earlier ↦ elim v.first [
    | inl (no_closed, from_0) ↦ absurd (ground arith)
    | inr (some_closed, a, at, from_0) ↦
        let (b, found, fits) =
          search_closed-total (get_num_closed d.dstate) ticket d.closed some_closed
            (omega (arith, v.room)) at from_0 in
        (b, rw earlier found, fits)
  ]
]
