-- ===== src/Mpmc/Lifetime/Making.antt =====
-- The arrays of a queue just made, and of one that has grown.
use thread_pool_exec.Prelude.{
  subst, ℕ, zero, suc, ◌+◌, ◌^◌, ◌≤◌, ◌<◌, ◌≡◌, true, refl, ap, ◌∙◌, arith, inl, inr, max,
  ℕ_discrete, some, List, [], ◌∷◌, length, get_elem?, set, Option-cases, get_elem?-set_self,
  get_elem?-set_ne,
}
use thread_pool_exec.Mpmc.Stride.{compute_stride}
use thread_pool_exec.Mpmc.Dynamic.{
  ClosedArray, Dynamic, get_num_closed, get_offset, make_dynamic, try_expand,
}
use thread_pool_exec.Mpmc.Dynamic.Laws
use thread_pool_exec.Mpmc.Dynamic.Laws.{make_dynamic-Inv}
use thread_pool_exec.Mpmc.Dynamic.Expand.{expanded, expanded-Inv, expands, inside, packed}
use thread_pool_exec.Mpmc.Dynamic.Threads.Seqlock.{made_even}
use thread_pool_exec.Mpmc.Lifetime.{
  Object, empty_queue, fixed_queue, dynamic_queue, fields, with_fields, or_null,
}
use thread_pool_exec.Mpmc.Lifetime.Owners.{is_at}
use thread_pool_exec.Mpmc.Lifetime.Freeing.{
  Shape, plain, growing, owned, in_closed, in_closed?, in_closed-suc,
}

-- The name of the newest array is not part of what keeps a queue in shape.
renamed : (d : Dynamic) (name : ℕ) → Laws.Inv d → Laws.Inv (record d { dslots = name })
renamed d name v = record {
  doubling = v.doubling;
  bounded = v.bounded;
  small = v.small;
  some_slot = v.some_slot;
  within = v.within;
  room = v.room;
  few = v.few;
  first = v.first;
}

-- A queue that has the fields of `d`, and its shape.
with_fields-Shape :
    (d : Dynamic) (name : ℕ) (o : Object)
    → Laws.Inv d
    → (closed : List ClosedArray) → d.closed ≡ closed
    → Shape (with_fields d name o)
with_fields-Shape d name o v [] e = plain (rw e refl)
with_fields-Shape d name o v (a ∷ closed) e =
    growing name (a ∷ closed) (rw e refl) refl (rw e at (renamed d name v))

in_closed-null :
    (n state : ℕ) (closed : List ClosedArray)
    → get_num_closed state ≤ length closed
    → in_closed? n state (or_null closed) ≡ in_closed n (get_num_closed state) closed
unfolding in_closed
in_closed-null n state [] le =
    let zero_closed : get_num_closed state ≡ 0 = omega (arith, le) in rw zero_closed refl
in_closed-null n state (a ∷ closed) le = refl

with_fields-owned :
    (d : Dynamic) (name : ℕ) (o : Object) (n : ℕ)
    → Laws.Inv d
    → owned (with_fields d name o) n ≡ in_closed n (get_num_closed d.dstate) d.closed + is_at n name
unfolding owned
with_fields-owned d name o n v =
    omega (arith, in_closed-null n d.dstate d.closed (omega (arith, v.room)))

pub fixed_queue-owned :
    (capacity name : ℕ) {o : Object}
    → fixed_queue capacity name ≡ some o
    → Shape o × ((n : ℕ) → owned o n ≡ is_at n name)
unfolding fixed_queue owned
fixed_queue-owned capacity name {o} e =
    let made : o ≡ record empty_queue {
      capacity = capacity;
      slots = some name;
      stride = compute_stride capacity;
    } =
      ground arith in
    rw made (plain refl, λ n. omega arith)

only_newest :
    (n : ℕ) (d : Dynamic) (name : ℕ)
    → d.dstate ≡ 0
    → in_closed n (get_num_closed d.dstate) d.closed + is_at n name ≡ is_at n name
unfolding in_closed get_num_closed
only_newest n d name e = rw e (omega arith)

pub dynamic_queue-owned :
    (capacity min_capacity multiplier name : ℕ) {o : Object}
    → capacity ≤ 2 ^ 31
    → multiplier ≤ 2 ^ 32
    → dynamic_queue capacity min_capacity multiplier name ≡ some o
    → Shape o × ((n : ℕ) → owned o n ≡ is_at n name)
unfolding dynamic_queue
dynamic_queue-owned capacity min_capacity multiplier name {o} small bounded e =
    elim (Option-cases (make_dynamic capacity min_capacity multiplier)) [
      | inl refused ↦ absurd (ground (arith, refused))
      | inr (d, made) ↦
          let v = make_dynamic-Inv capacity min_capacity multiplier small bounded made in
          let same : o ≡ with_fields d name empty_queue = ground (arith, made) in
          rw same (
            with_fields-Shape d name empty_queue v d.closed refl,
            λ n.
                with_fields-owned d name empty_queue n v
                ∙ only_newest n d name (made_even capacity min_capacity multiplier made),
          )
    ]

in_closed-set :
    (n i j : ℕ) (closed : List ClosedArray) (a : ClosedArray)
    → i ≤ j
    → in_closed n i (set closed j a) ≡ in_closed n i closed
unfolding in_closed
in_closed-set n zero j closed a le = refl
in_closed-set n (suc i) j closed a le =
    let kept = get_elem?-set_ne closed {i = j} {j = i} a (λ (e : j ≡ i). absurd (omega arith)) in
    let rest = in_closed-set n i j closed a (omega arith) in rw (kept, rest) refl

module _ (new push pop : ℕ) (f : Dynamic) (v : Laws.Inv f) (small : 1 + max push pop < 2 ^ 58)
    (less : f.dcapacity < f.capacity) where
  expanded-in_closed :
      (n : ℕ)
      → let d = expanded new push pop f v small less in
        in_closed n (get_num_closed d.dstate) d.closed
        ≡ is_at n f.dslots + in_closed n (get_num_closed f.dstate) f.closed
  expanded-in_closed n =
      let i = get_num_closed f.dstate in
      let entry : ClosedArray = record {
        offset = get_offset f.dstate;
        slots = f.dslots;
        capacity = f.dcapacity;
        stride = f.dstride;
      } in
      let count : get_num_closed (expanded new push pop f v small less).dstate ≡ suc i =
        omega (arith, packed new push pop f v small less) in
      let at : get_elem? (set f.closed i entry) i ≡ some entry =
        get_elem?-set_self f.closed i entry (inside new push pop f v small less) in
      rw count (
        in_closed-suc n i (set f.closed i entry) at
        ∙ ap (λ (k : ℕ). is_at n f.dslots + k) (in_closed-set n i i f.closed entry (omega arith)))

not_full :
    (new push pop : ℕ) (f : Dynamic) {d : Dynamic}
    → f.dcapacity ≡ f.capacity
    → ¬ (try_expand (some new) push pop f ≡ some (true, d))
unfolding try_expand
not_full new push pop f full e = ground (arith, full, e)

-- `tryExpand` says that it has expanded the queue.
expand-expanded :
    (new push pop : ℕ) (f : Dynamic) {d : Dynamic} (v : Laws.Inv f)
    (small : 1 + max push pop < 2 ^ 58)
    → try_expand (some new) push pop f ≡ some (true, d)
    → (less : f.dcapacity < f.capacity) × (d ≡ expanded new push pop f v small less)
expand-expanded new push pop f {d} v small e = elim (ℕ_discrete f.dcapacity f.capacity) [
  | yes full ↦ absurd (not_full new push pop f full e)
  | no other ↦
      let less : f.dcapacity < f.capacity = omega (arith, v.within, other) in
      (less, cc (e, expands new push pop f v small less))
]

shape_of :
    (o : Object) (old : ℕ) (closed : List ClosedArray)
    → Shape o
    → o.slots ≡ some old
    → o.closed ≡ some closed
    → Laws.Inv (fields o old closed)
shape_of o old closed (plain no_closed) at has = absurd (cc (no_closed, has))
shape_of o old closed (growing name closed' has' at' shape) at has =
    let one : name ≡ old = cc (at', at) in
    let same : closed' ≡ closed = cc (has', has) in
    subst (λ (l : List ClosedArray). Laws.Inv (fields o old l)) same
      (subst (λ (k : ℕ). Laws.Inv (fields o k closed')) one shape)

owned_of :
    (o : Object) (old : ℕ) (closed : List ClosedArray) (n : ℕ)
    → o.slots ≡ some old
    → o.closed ≡ some closed
    → owned o n ≡ in_closed n (get_num_closed o.dstate) closed + is_at n old
unfolding owned
owned_of o old closed n at has = rw (at, has) refl

-- An expansion keeps the arrays that the queue has, and adds one.
pub expand-owned :
    (new old : ℕ) (o : Object) {closed : List ClosedArray} {d : Dynamic}
    → Shape o
    → o.slots ≡ some old
    → o.closed ≡ some closed
    → 1 + max o.push_ticket o.pop_ticket < 2 ^ 58
    → try_expand (some new) o.push_ticket o.pop_ticket (fields o old closed) ≡ some (true, d)
    → Shape (with_fields d new o)
      × ((n : ℕ) → owned (with_fields d new o) n ≡ is_at n new + owned o n)
expand-owned new old o {closed} {d} shape at has small e =
    let f = fields o old closed in
    let v : Laws.Inv f = shape_of o old closed shape at has in
    let (less, grown) = expand-expanded new o.push_ticket o.pop_ticket f v small e in
    let v' = expanded-Inv new o.push_ticket o.pop_ticket f v small less in
    rw grown (
      with_fields-Shape (expanded new o.push_ticket o.pop_ticket f v small less) new o v' _ refl,
      λ n. omega (
        arith,
        with_fields-owned (expanded new o.push_ticket o.pop_ticket f v small less) new o n v',
        expanded-in_closed new o.push_ticket o.pop_ticket f v small less n,
        owned_of o old closed n at has,
      ),
    )
