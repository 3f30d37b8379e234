-- ===== src/Mpmc/Lifetime/Holding.antt =====
-- The queues of ThreadPool/MPMCQueue.h and the arrays that each has: how one that is made, destroyed
-- or moved keeps every array with one owner.
use thread_pool_exec.Prelude.{
  put, put-same, put-other, ℕ, ◌+◌, ◌≡◌, ◌≢◌, Bool, false, refl, sym, ap, ◌∙◌, arith, ℕ_discrete,
  Option, none, some, subst,
}
use thread_pool_exec.Mpmc.Lifetime.{
  Object, Memory, empty_queue, free_arrays, destroy, move_construct, create,
}
use thread_pool_exec.Mpmc.Lifetime.Owners.{
  is_at, Held, Held-same, Held-create, Held-destroy, Held-move,
}
use thread_pool_exec.Mpmc.Lifetime.Freeing.{Shape, plain, owned, Freed, CanFree, free_arrays-Freed}

abbrev pub in_object : ℕ → Option Object → ℕ
in_object n none = 0
in_object n (some o) = owned o n

abbrev pub Shaped : Option Object → Type 0
Shaped none = Unit {0}
Shaped (some o) = Shape o

-- How often the object at an address has an array.
abbrev pub holding : (ℕ → Option Object) → ℕ → ℕ → ℕ
holding objects a n = in_object n (objects a)

pub record Owned (m : Memory) : Type 0 where
  pub shaped : (a : ℕ) → Shaped (m.objects a)
  pub arrays : Held (holding m.objects) m.arrays

Shaped-put :
    (objects : ℕ → Option Object) (a : ℕ) (o : Option Object)
    → Shaped o
    → ((b : ℕ) → Shaped (objects b))
    → (b : ℕ) → Shaped (put objects a o b)
Shaped-put objects a o new old b = elim (ℕ_discrete b a) [
  | yes e ↦ rw (e, put-same objects a o) new
  | no e ↦ rw (put-other objects a b o e) (old b)
]

holding-put :
    (objects : ℕ → Option Object) (a : ℕ) (o : Option Object) (n : ℕ)
    → holding (put objects a o) a n ≡ in_object n o
holding-put objects a o n = ap (in_object n) (put-same objects a o)

holding_other :
    (objects : ℕ → Option Object) (a : ℕ) (o : Option Object) (b n : ℕ)
    → b ≢ a
    → holding (put objects a o) b n ≡ holding objects b n
holding_other objects a o b n other = ap (in_object n) (put-other objects a b o other)

pub empty_owned : (n : ℕ) → owned empty_queue n ≡ 0
unfolding owned
empty_owned n = omega arith

-- The object at an address is replaced by one that has the same arrays.
pub replace-Owned :
    (m : Memory) (a : ℕ) (o : Object)
    → Shape o
    → ((n : ℕ) → owned o n ≡ holding m.objects a n)
    → Owned m
    → Owned (record m { objects = put m.objects a (some o) })
replace-Owned m a o shape same v = record {
  shaped = Shaped-put m.objects a (some o) shape v.shaped;
  arrays =
      Held-same
        (λ b n. elim (ℕ_discrete b a) [
          | yes e ↦ rw e (holding-put m.objects a (some o) n ∙ same n)
          | no e ↦ holding_other m.objects a (some o) b n e
        ])
        (v.arrays);
}

pub create-Owned :
    (m : Memory) (a name : ℕ) (o : Object)
    → Shape o
    → m.arrays name ≡ false
    → ((n : ℕ) → owned o n ≡ is_at n name + holding m.objects a n)
    → Owned m
    → Owned (create a o name m)
create-Owned m a name o shape new more v = record {
  shaped = Shaped-put m.objects a (some o) shape v.shaped;
  arrays =
      Held-create a name new (λ n. holding-put m.objects a (some o) n ∙ more n)
        (λ b n e. holding_other m.objects a (some o) b n e) (v.arrays);
}

destroy-some :
    (m : Memory) (a : ℕ) (o : Object) {left : ℕ → Bool}
    → free_arrays o m.arrays ≡ some left
    → destroy a o m ≡ some (record { objects = put m.objects a none; arrays = left })
unfolding destroy
destroy-some m a o freed = rw (destroy, freed) refl

-- A queue can be destroyed: nothing is freed that is not allocated.
pub destroy-Owned :
    (m : Memory) (a : ℕ) (o : Object)
    → m.objects a ≡ some o
    → Owned m
    → (m' : Memory) × (destroy a o m ≡ some m')
      × Owned m'
      × (m'.objects ≡ put m.objects a none)
      × Freed (owned o) m.arrays m'.arrays
destroy-Owned m a o at v =
    let here_ : (n : ℕ) → owned o n ≡ holding m.objects a n = λ n. sym (ap (in_object n) at) in
    let can : CanFree (owned o) m.arrays = record {
      once = λ n. omega (arith, here_ n, v.arrays.single a n);
      live = λ n e. v.arrays.live a n (omega (arith, here_ n, e));
    } in
    let shape : Shape o = subst Shaped at (v.shaped a) in
    let (left, freed, f) = free_arrays-Freed o m.arrays shape can in
    (
      record { objects = put m.objects a none; arrays = left },
      destroy-some m a o freed,
      record {
        shaped = Shaped-put m.objects a none tt v.shaped;
        arrays =
            Held-destroy a (λ n e. f.stays n (omega (arith, here_ n, e)))
              (λ n e. f.goes n (omega (arith, here_ n, e))) (holding-put m.objects a none)
              (λ b n e. holding_other m.objects a none b n e) (v.arrays);
      },
      refl,
      f,
    )

pub move_construct-Owned :
    (m : Memory) (a source : ℕ) (o : Object)
    → m.objects a ≡ none
    → m.objects source ≡ some o
    → Owned m
    → Owned (move_construct a source o m)
unfolding move_construct
move_construct-Owned m a source o free at v =
    let differ : a ≢ source = λ e. absurd (cc (free, at, e)) in
    let mid = put m.objects a (some o) in
    record {
      shaped =
          Shaped-put mid source (some empty_queue) (plain refl)
            (Shaped-put m.objects a (some o) (subst Shaped at (v.shaped source)) v.shaped);
      arrays =
          Held-move a source (λ n. ap (in_object n) free)
            (λ n.
              holding_other mid source (some empty_queue) a n differ
              ∙ holding-put m.objects a (some o) n
              ∙ sym (ap (in_object n) at))
            (λ n. holding-put mid source (some empty_queue) n ∙ empty_owned n)
            (λ b n e f.
              holding_other mid source (some empty_queue) b n f
              ∙ holding_other m.objects a (some o) b n e)
            (v.arrays);
    }
