-- ===== src/Mpmc/Dynamic/Laws.antt =====
-- Expansions stay inside `closed_`, every ticket has an array, and keeps it.
use thread_pool_exec.Prelude.{
  ℕ, zero, suc, ◌+◌, ◌*◌, ◌%◌, ◌^◌, ◌≤◌, ◌<◌, ◌≡◌, ◌⊎◌, inl, min, max, refl, sym, ap, ◌∙◌, arith,
  true, some, length, get_elem?, replicate, ltb, length-replicate, dec_lt,
}
use native.Mathlib.Nat.{pow-succ', mod-eq_of_lt}
use thread_pool_exec.Mpmc.Stride.Unit.{mul_mono}
use thread_pool_exec.Mpmc.Dynamic.{
  ClosedArray, Dynamic, get_offset, get_num_closed, pack, count_closed, init_queue, make_dynamic,
}

-- The word keeps a ticket below 2^58 and a number of arrays below 32 apart, and its lowest bit, the
-- lock, is free.
pub pack-get :
    (ticket n : ℕ)
    → ticket < 2 ^ 58
    → n < 32
    → (get_offset (pack ticket n) ≡ ticket)
      × (get_num_closed (pack ticket n) ≡ n)
      × (pack ticket n % 2 ≡ 0)
unfolding get_offset get_num_closed pack
pack-get ticket n small few = (ground arith, ground arith, ground arith)

grows : (e m : ℕ) → 0 < e → 2 ≤ m → e + 1 ≤ e * m
grows e m pos two = grind arith

-- Products of a capacity with a multiplier in these bounds do not wrap.
pub whole : (e cap m : ℕ) → e < cap → cap ≤ 2 ^ 31 → m ≤ 2 ^ 32 → e * m % 2 ^ 64 ≡ e * m
whole e cap m less small few = mod-eq_of_lt (omega (arith, mul_mono e m (2 ^ 32) few))

-- Fuel as large as the capacity is enough: more changes nothing.
count_closed-fuel :
    (f e cap m : ℕ)
    → 0 < e
    → 2 ≤ m
    → m ≤ 2 ^ 32
    → cap ≤ 2 ^ 31
    → cap ≤ e + f
    → count_closed (suc f) e cap m ≡ count_closed f e cap m
unfolding count_closed
count_closed-fuel zero e cap m pos two few small enough = ground arith
count_closed-fuel (suc f) e cap m pos two few small enough = elim (dec_lt e cap) [
  | yes less ↦
      let product = whole e cap m less small few in
      let again =
        count_closed-fuel f (e * m) cap m (omega (arith, grows e m pos two)) two few small
          (omega (arith, enough, grows e m pos two)) in
      rw product (ground (arith, again))
  | no over ↦ ground arith
]

-- Of a queue since its constructor: the word is in shape, the arrays closed and those still to come
-- are as many as `closed_` has room for, and the first array starts at ticket 0.
pub record Inv (d : Dynamic) : Type 0 where
  pub doubling : 2 ≤ d.multiplier
  pub bounded : d.multiplier ≤ 2 ^ 32
  pub small : d.capacity ≤ 2 ^ 31
  pub some_slot : 0 < d.dcapacity
  pub within : d.dcapacity ≤ d.capacity
  pub room :
      get_num_closed d.dstate + count_closed d.capacity d.dcapacity d.capacity d.multiplier
      ≡ length d.closed
  pub few : length d.closed < 32
  pub first :
      ((get_num_closed d.dstate ≡ 0) × (get_offset d.dstate ≡ 0))
      ⊎ ((0 < get_num_closed d.dstate)
          × (a : ClosedArray) × (get_elem? d.closed 0 ≡ some a)
          × (a.offset ≡ 0))

double_room : (e m p cap : ℕ) → 2 ≤ m → cap ≤ e * (2 * p) → cap ≤ e * m * p
double_room e m p cap two enough = omega (arith, enough, mul_mono (e * p) 2 m two)

-- A capacity of `2 ^ k` times the first array's leaves room for `k` expansions at most.
count_closed-le :
    (f e cap m k : ℕ)
    → 2 ≤ m
    → m ≤ 2 ^ 32
    → cap ≤ 2 ^ 31
    → cap ≤ e * 2 ^ k
    → count_closed f e cap m ≤ k
unfolding count_closed
count_closed-le zero e cap m k two few small enough = omega arith
count_closed-le (suc f) e cap m zero two few small enough = ground arith
count_closed-le (suc f) e cap m (suc k) two few small enough = elim (dec_lt e cap) [
  | yes less ↦
      let product = whole e cap m less small few in
      let room : cap ≤ e * (2 * 2 ^ k) =
        omega (arith, enough, ap (λ (p : ℕ). e * p) (pow-succ' 2 k)) in
      let again =
        count_closed-le f (e * m) cap m k two few small (double_room e m (2 ^ k) cap two room) in
      rw product (ground (arith, again))
  | no over ↦ ground arith
]

module _ (capacity cap mult : ℕ) (pos : 0 < cap) (fits : cap ≤ capacity) (two : 2 ≤ mult)
    (bounded : mult ≤ 2 ^ 32) (small : capacity ≤ 2 ^ 31) where
  sizes :
      length {A = ClosedArray} (
        replicate
          (count_closed capacity cap capacity mult)
          (record { offset = 0; slots = 0; capacity = 0; stride = 0 }))
      ≡ count_closed capacity cap capacity mult
  sizes =
      length-replicate (count_closed capacity cap capacity mult)
        (record { offset = 0; slots = 0; capacity = 0; stride = 0 })

  bound : count_closed capacity cap capacity mult ≤ 31
  bound = count_closed-le capacity cap capacity mult 31 two bounded small (omega arith)

  init_queue-Inv : Inv (init_queue capacity cap mult)
  unfolding init_queue get_num_closed get_offset
  init_queue-Inv = record {
    doubling = two;
    bounded = bounded;
    small = small;
    some_slot = pos;
    within = fits;
    room = omega (arith, sizes);
    few = omega (arith, sizes, bound);
    first = inl (refl, refl);
  }

-- With a capacity of at most 2^31 and a multiplier of at most 2^32, the constructor leaves a queue in
-- shape: a first array within the capacity, and room in `closed_`, for fewer than 32 arrays, for as
-- many as there can be expansions.
pub make_dynamic-Inv :
    (capacity min_capacity multiplier : ℕ) {d : Dynamic}
    → capacity ≤ 2 ^ 31
    → multiplier ≤ 2 ^ 32
    → make_dynamic capacity min_capacity multiplier ≡ some d
    → Inv d
unfolding make_dynamic
make_dynamic-Inv capacity min_capacity multiplier {d} small bounded e =
    let made : d ≡ init_queue capacity (min (max 1 min_capacity) capacity) (max 2 multiplier) =
      ground arith in
    rw made (
      init_queue-Inv capacity (min (max 1 min_capacity) capacity) (max 2 multiplier) (ground arith)
        (omega arith) (omega arith) (omega arith) small)

count_closed_none : (f e cap m : ℕ) → cap ≤ e → count_closed f e cap m ≡ 0
unfolding count_closed
count_closed_none zero e cap m over = refl
count_closed_none (suc f) e cap m over = ground arith

-- Growing by the multiplier, up to the capacity, uses up one expansion.
pub count_closed-grow :
    (cap capacity m : ℕ)
    → 0 < cap
    → cap < capacity
    → 2 ≤ m
    → m ≤ 2 ^ 32
    → capacity ≤ 2 ^ 31
    → count_closed capacity cap capacity m
      ≡ suc (count_closed capacity (min (m * cap % 2 ^ 64) capacity) capacity m)
unfolding count_closed
count_closed-grow cap zero m pos less two few small = absurd (omega arith)
count_closed-grow cap (suc f) m pos less two few small =
    let goes_on : ltb cap (suc f) ≡ true = ground arith in
    let product = whole cap (suc f) m less small few in
    let product' : m * cap % 2 ^ 64 ≡ cap * m = omega (arith, product) in
    rw (goes_on, product, product')
      (ap suc (elim (dec_lt (cap * m) (suc f)) [
        | yes below ↦
            let smaller : min (cap * m) (suc f) ≡ cap * m = omega arith in
            rw smaller (
              sym (
                count_closed-fuel f (cap * m) (suc f) m (omega (arith, grows cap m pos two)) two few
                  small (omega (arith, grows cap m pos two))))
        | no over ↦
            count_closed_none f (cap * m) (suc f) m (omega arith)
            ∙ sym (count_closed_none (suc f) (min (cap * m) (suc f)) (suc f) m (omega arith))
      ]))
