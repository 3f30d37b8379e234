-- ===== src/Mpmc/Lifetime/Invariant.antt =====
-- Every step of the queues of ThreadPool/MPMCQueue.h keeps each array with one owner.
use thread_pool_exec.Prelude.{
  put-same, put-other, ℕ, ◌≡◌, ◌≢◌, refl, sym, ap, ◌∙◌, arith, ℕ_discrete, Option, none, some,
  subst,
}
use thread_pool_exec.Mpmc.Lifetime.{
  Object, Memory, empty_queue, with_fields, destroy, move_construct, move_assign, Step,
  construct_empty, construct_fixed, construct_dynamic, moves, assigns, destroys, expands, used,
}
use thread_pool_exec.Mpmc.Lifetime.Freeing.{Shape, plain, growing, owned}
use thread_pool_exec.Mpmc.Lifetime.Making.{fixed_queue-owned, dynamic_queue-owned, expand-owned}
use thread_pool_exec.Mpmc.Lifetime.Holding.{
  in_object, Shaped, Owned, replace-Owned, create-Owned, destroy-Owned, move_construct-Owned,
  empty_owned,
}

move_assign-other :
    (m : Memory) (a source : ℕ) (p o : Object) {mid : Memory}
    → a ≢ source
    → destroy a p m ≡ some mid
    → move_assign a source p o m ≡ some (move_construct a source o mid)
unfolding move_assign
move_assign-other m a source p o differ done = ground (arith, differ, done)

move_assign-itself :
    (m : Memory) (a source : ℕ) (p o : Object) → a ≡ source → move_assign a source p o m ≡ some m
unfolding move_assign
move_assign-itself m a source p o same = ground (arith, same)

pub assign-Owned :
    (m : Memory) (a source : ℕ) (p o : Object)
    → m.objects a ≡ some p
    → m.objects source ≡ some o
    → Owned m
    → (m' : Memory) × (move_assign a source p o m ≡ some m') × Owned m'
assign-Owned m a source p o at at' v = elim (ℕ_discrete a source) [
  | yes same ↦ (m, move_assign-itself m a source p o same, v)
  | no differ ↦
      let (mid, done, v', objects, f) = destroy-Owned m a p at v in
      let free : mid.objects a ≡ none =
        ap (λ (f : ℕ → Option Object). f a) objects ∙ put-same m.objects a none in
      let kept : mid.objects source ≡ some o =
        ap (λ (f : ℕ → Option Object). f source) objects
        ∙ put-other m.objects a source none (λ e. differ (sym e))
        ∙ at' in
      (
        move_construct a source o mid,
        move_assign-other m a source p o differ done,
        move_construct-Owned mid a source o free kept v',
      )
]

used_owned :
    (o : Object) (push pop push_cutoff pop_cutoff n : ℕ)
    → owned
        (record o {
          push_ticket = push;
          pop_ticket = pop;
          push_spin_cutoff = push_cutoff;
          pop_spin_cutoff = pop_cutoff;
        })
        n
      ≡ owned o n
unfolding owned
used_owned o push pop push_cutoff pop_cutoff n = refl

used_shape :
    (o : Object) (push pop push_cutoff pop_cutoff : ℕ)
    → Shape o
    → Shape (record o {
      push_ticket = push;
      pop_ticket = pop;
      push_spin_cutoff = push_cutoff;
      pop_spin_cutoff = pop_cutoff;
    })
used_shape o push pop push_cutoff pop_cutoff (plain no_closed) = plain no_closed
used_shape o push pop push_cutoff pop_cutoff (growing name closed has at v) =
    growing name closed has at v

pub Step-Owned : {m m' : Memory} → Step m m' → Owned m → Owned m'
Step-Owned {m} (construct_empty a free) v =
    replace-Owned m a empty_queue (plain refl) (λ n. empty_owned n ∙ sym (ap (in_object n) free)) v
Step-Owned {m} (construct_fixed a capacity name {o} free new made) v =
    let (shape, count) = fixed_queue-owned capacity name made in
    create-Owned m a name o shape new (λ n. omega (arith, count n, ap (in_object n) free)) v
Step-Owned {m}
      (construct_dynamic a capacity min_capacity multiplier name {o} small bounded free new made)
      v =
    let (shape, count) =
      dynamic_queue-owned capacity min_capacity multiplier name (omega (arith, small))
        (omega (arith, bounded)) made in
    create-Owned m a name o shape new (λ n. omega (arith, count n, ap (in_object n) free)) v
Step-Owned {m} (moves a source {o} free at) v = move_construct-Owned m a source o free at v
Step-Owned {m} (assigns a source {p} {o} {m'} at at' done) v =
    let (mid, goes, v') = assign-Owned m a source p o at at' v in
    let same : mid ≡ m' = cc (goes, done) in subst Owned same v'
Step-Owned {m} (destroys a {o} {m'} at done) v =
    let (mid, goes, v', objects, f) = destroy-Owned m a o at v in
    let same : mid ≡ m' = cc (goes, done) in subst Owned same v'
Step-Owned {m} (expands a new old {o} {closed} {d} at slot has unused small done) v =
    let (shape, count) =
      expand-owned new old o (subst Shaped at (v.shaped a)) slot has small done in
    create-Owned m a new (with_fields d new o) shape unused
      (λ n. omega (arith, count n, ap (in_object n) at)) v
Step-Owned {m} (used a push pop push_cutoff pop_cutoff {o} at) v =
    replace-Owned m a _
      (used_shape o push pop push_cutoff pop_cutoff (subst Shaped at (v.shaped a)))
      (λ n. used_owned o push pop push_cutoff pop_cutoff n ∙ sym (ap (in_object n) at)) v
