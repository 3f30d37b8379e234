-- ===== src/Mpmc/Lifetime/Freeing.antt =====
-- The arrays of one queue, that its destructor frees and that its expansion adds to.
use thread_pool_exec.Prelude.{
  put, put-same, put-other, ℕ, zero, suc, ◌+◌, ◌≤◌, ◌<◌, ◌≡◌, Bool, true, false, refl, sym, ◌∙◌,
  arith, ℕ_discrete, Option, none, some, List, length, get_elem?,
}
use thread_pool_exec.Mpmc.Dynamic.{ClosedArray, get_num_closed}
use thread_pool_exec.Mpmc.Dynamic.Laws
use thread_pool_exec.Mpmc.Dynamic.Expand.{get_elem?-inside}
use thread_pool_exec.Mpmc.Lifetime.{
  Object, fields, delete, delete_slots, delete_closed, free_arrays,
}
use thread_pool_exec.Mpmc.Lifetime.Owners.{is_at, is_at_self}

abbrev pub in_slots : ℕ → Option ℕ → ℕ
in_slots n none = 0
in_slots n (some name) = is_at n name

abbrev pub in_entry : ℕ → Option ClosedArray → ℕ
in_entry n none = 0
in_entry n (some a) = is_at n a.slots

-- How often an array is among the first `i` that are closed.
unfoldable pub in_closed : ℕ → ℕ → List ClosedArray → ℕ
in_closed n zero closed = 0
in_closed n (suc i) closed = in_entry n (get_elem? closed i) + in_closed n i closed

abbrev pub in_closed? : ℕ → ℕ → Option (List ClosedArray) → ℕ
in_closed? n state none = 0
in_closed? n state (some closed) = in_closed n (get_num_closed state) closed

-- How often a queue has an array.
unfoldable pub owned : Object → ℕ → ℕ
unfolding in_closed
owned o n = in_closed? n o.dstate o.closed + in_slots n o.slots

-- A queue that has not grown, or one that can.
pub data Shape (o : Object) : Type 0 where
  plain : o.closed ≡ none → Shape o
  growing :
      (name : ℕ) (closed : List ClosedArray)
      → o.closed ≡ some closed
      → o.slots ≡ some name
      → Laws.Inv (fields o name closed)
      → Shape o

-- What is left when arrays are freed, as many of each as `k` says.
pub record Freed (k : ℕ → ℕ) (arrays left : ℕ → Bool) : Type 0 where
  pub stays : (n : ℕ) → k n ≡ 0 → left n ≡ arrays n
  pub goes : (n : ℕ) → 0 < k n → left n ≡ false

-- Arrays that can be freed: each at most once, and all of them allocated.
pub record CanFree (k : ℕ → ℕ) (arrays : ℕ → Bool) : Type 0 where
  pub once : (n : ℕ) → k n ≤ 1
  pub live : (n : ℕ) → 0 < k n → arrays n ≡ true

delete-Freed :
    (name : ℕ) (arrays : ℕ → Bool)
    → arrays name ≡ true
    → (left : ℕ → Bool) × (delete name arrays ≡ some left) × Freed (λ n. is_at n name) arrays left
unfolding delete is_at
delete-Freed name arrays is = (
  put arrays name false,
  rw is refl,
  record {
    stays = λ n e. put-other arrays name n false (λ f. ground (arith, e, f));
    goes = λ n e. elim (ℕ_discrete n name) [
      | yes f ↦ rw f (put-same arrays name false)
      | no f ↦ absurd (ground (arith, e, f))
    ];
  },
)

-- What is freed in two parts.
Freed-both :
    {k l : ℕ → ℕ} {arrays mid left : ℕ → Bool}
    → Freed k arrays mid
    → Freed l mid left
    → Freed (λ n. k n + l n) arrays left
Freed-both {k} {l} v w = record {
  stays = λ n e. w.stays n (omega (arith, e)) ∙ v.stays n (omega (arith, e));
  goes = λ n e. elim (ℕ_discrete (l n) 0) [
    | yes f ↦ w.stays n f ∙ v.goes n (omega (arith, e, f))
    | no f ↦ w.goes n (omega (arith, f))
  ];
}

-- The second part can be freed when the first is.
CanFree-rest :
    {k l : ℕ → ℕ} {arrays mid : ℕ → Bool}
    → CanFree (λ n. k n + l n) arrays
    → Freed k arrays mid
    → CanFree l mid
CanFree-rest {k} {l} c v = record {
  once = λ n. omega (arith, c.once n);
  live = λ n e. v.stays n (omega (arith, c.once n, e)) ∙ c.live n (omega (arith, e));
}

-- Counts that are equal.
Freed-same :
    {k l : ℕ → ℕ} {arrays left : ℕ → Bool}
    → ((n : ℕ) → l n ≡ k n)
    → Freed k arrays left
    → Freed l arrays left
Freed-same same v = record {
  stays = λ n e. v.stays n (omega (arith, same n, e));
  goes = λ n e. v.goes n (omega (arith, same n, e));
}

CanFree-same :
    {k l : ℕ → ℕ} {arrays : ℕ → Bool} → ((n : ℕ) → l n ≡ k n) → CanFree k arrays → CanFree l arrays
CanFree-same same c = record {
  once = λ n. omega (arith, same n, c.once n);
  live = λ n e. c.live n (omega (arith, same n, e));
}

pub in_closed-suc :
    (n i : ℕ) (closed : List ClosedArray) {a : ClosedArray}
    → get_elem? closed i ≡ some a
    → in_closed n (suc i) closed ≡ is_at n a.slots + in_closed n i closed
unfolding in_closed
in_closed-suc n i closed at = rw at refl

delete_closed-suc :
    (i : ℕ) (closed : List ClosedArray) (arrays : ℕ → Bool) {a : ClosedArray} {mid : ℕ → Bool}
    → get_elem? closed i ≡ some a
    → delete a.slots arrays ≡ some mid
    → delete_closed (suc i) closed arrays ≡ delete_closed i closed mid
unfolding delete_closed
delete_closed-suc i closed arrays at first = ground (arith, at, first)

delete_closed-Freed :
    (i : ℕ) (closed : List ClosedArray) (arrays : ℕ → Bool)
    → i ≤ length closed
    → CanFree (λ n. in_closed n i closed) arrays
    → (left : ℕ → Bool) × (delete_closed i closed arrays ≡ some left)
      × Freed (λ n. in_closed n i closed) arrays left
unfolding delete_closed in_closed
delete_closed-Freed zero closed arrays le c =
    (arrays, refl, record { stays = λ n e. refl; goes = λ n e. absurd (omega (arith, e)) })
delete_closed-Freed (suc i) closed arrays le c =
    let (a, at) = get_elem?-inside closed i le in
    let count = λ (n : ℕ). in_closed-suc n i closed at in
    let c' = CanFree-same (λ n. sym (count n)) c in
    let (mid, first, v) =
      delete-Freed a.slots arrays (c'.live a.slots (omega (arith, is_at_self a.slots))) in
    let (left, rest, v') =
      delete_closed-Freed i closed mid (omega (arith, le)) (CanFree-rest c' v) in
    (left, delete_closed-suc i closed arrays at first ∙ rest, Freed-same count (Freed-both v v'))

delete_slots-Freed :
    (slots : Option ℕ) (arrays : ℕ → Bool)
    → CanFree (λ n. in_slots n slots) arrays
    → (left : ℕ → Bool) × (delete_slots slots arrays ≡ some left)
      × Freed (λ n. in_slots n slots) arrays left
delete_slots-Freed none arrays c =
    (arrays, refl, record { stays = λ n e. refl; goes = λ n e. absurd (omega (arith, e)) })
delete_slots-Freed (some name) arrays c =
    delete-Freed name arrays (c.live name (omega (arith, is_at_self name)))

free_arrays-growing :
    (o : Object) (arrays : ℕ → Bool) {closed : List ClosedArray} {mid : ℕ → Bool}
    → o.closed ≡ some closed
    → delete_closed (get_num_closed o.dstate) closed arrays ≡ some mid
    → free_arrays o arrays ≡ delete_slots o.slots mid
unfolding free_arrays
free_arrays-growing o arrays has freed = ground (arith, has, freed)

-- The destructor frees what the queue has, once each and nothing else.
pub free_arrays-Freed :
    (o : Object) (arrays : ℕ → Bool)
    → Shape o
    → CanFree (owned o) arrays
    → (left : ℕ → Bool) × (free_arrays o arrays ≡ some left) × Freed (owned o) arrays left
unfolding free_arrays owned
free_arrays-Freed o arrays (plain no_closed) c =
    let c' : CanFree (λ n. 0 + in_slots n o.slots) arrays = rw no_closed at c in
    let (left, freed, v) = delete_slots-Freed o.slots arrays (CanFree-same (λ n. omega arith) c') in
    (left, rw no_closed freed, rw no_closed (Freed-same (λ n. omega arith) v))
free_arrays-Freed o arrays (growing name closed has at shape) c =
    let c' : CanFree (λ n. in_closed n (get_num_closed o.dstate) closed + in_slots n o.slots)
        arrays =
      rw has at c in
    let first : CanFree (λ n. in_closed n (get_num_closed o.dstate) closed) arrays = record {
      once = λ n. omega (arith, c'.once n);
      live = λ n e. c'.live n (omega (arith, e));
    } in
    let (mid, freed, v) =
      delete_closed-Freed (get_num_closed o.dstate) closed arrays (omega (arith, shape.room))
        first in
    let (left, rest, v') = delete_slots-Freed o.slots mid (CanFree-rest c' v) in
    (left, free_arrays-growing o arrays has freed ∙ rest, rw has (Freed-both v v'))
