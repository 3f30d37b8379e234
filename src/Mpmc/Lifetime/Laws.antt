-- ===== src/Mpmc/Lifetime/Laws.antt =====
-- Every array of the queues of ThreadPool/MPMCQueue.h has one owner, which frees it once.
use thread_pool_exec.Prelude.{
  ℕ, ◌<◌, ◌≡◌, ◌≢◌, ◌⊎◌, true, false, sym, ap, arith, inl, inr, ℕ_discrete, none, some,
}
use thread_pool_exec.Mpmc.Lifetime.{
  Object, Memory, destroy, move_assign, Reach, here, next, no_queues,
}
use thread_pool_exec.Mpmc.Lifetime.Freeing.{owned}
use thread_pool_exec.Mpmc.Lifetime.Holding.{in_object, holding, Owned, destroy-Owned}
use thread_pool_exec.Mpmc.Lifetime.Invariant.{assign-Owned, Step-Owned}

Reach-Owned : {m : Memory} → Reach no_queues m → Owned m
Reach-Owned here = record {
  shaped = λ a. tt;
  arrays = record {
    single = λ a n. omega arith;
    live = λ a n e. absurd (omega (arith, e));
    apart = λ a b n e f. absurd (omega (arith, e));
    held = λ n e. absurd (cc e);
  };
}
Reach-Owned (next r st) = Step-Owned st (Reach-Owned r)

-- However queues are made, moved, assigned, grown and destroyed, every array that is allocated is
-- one that exactly one living queue has, and has once: none is leaked and none is shared.
pub one_owner :
    {m : Memory} (n : ℕ)
    → Reach no_queues m
    → m.arrays n ≡ true
    → (a : ℕ) × (holding m.objects a n ≡ 1) × ((b : ℕ) → (b ≡ a) ⊎ (holding m.objects b n ≡ 0))
one_owner {m} n r is =
    let v = (Reach-Owned r).arrays in
    let (a, has) = v.held n is in
    (
      a,
      omega (arith, v.single a n, has),
      λ b. elim (ℕ_discrete (holding m.objects b n) 0) [
        | yes e ↦ inr e
        | no e ↦ inl (v.apart b a n (omega (arith, e)) has)
      ],
    )

-- Likewise, the destructor of a living queue, and the move assignment to it from another, succeed:
-- they read no entry outside `closed_` and free no array that is not allocated. The destructor
-- frees the arrays that the queue has, and no other.
pub destroy_succeeds :
    {m : Memory} (a source : ℕ) {p o : Object}
    → Reach no_queues m
    → m.objects a ≡ some p
    → m.objects source ≡ some o
    → (move_assign a source p o m ≢ none)
      × (m' : Memory) × (destroy a p m ≡ some m')
      × ((n : ℕ)
          → ((owned p n ≡ 0) × (m'.arrays n ≡ m.arrays n))
            ⊎ ((owned p n ≡ 1) × (m.arrays n ≡ true) × (m'.arrays n ≡ false)))
destroy_succeeds {m} a source {p} {o} r at at' =
    let v = Reach-Owned r in
    let assigned = assign-Owned m a source p o at at' v in
    let (m', done, v', objects, f) = destroy-Owned m a p at v in
    (
      λ e. absurd (cc (e, assigned.1)),
      m',
      done,
      λ n. elim (ℕ_discrete (owned p n) 0) [
        | yes e ↦ inl (e, f.stays n e)
        | no e ↦
            let here_ : owned p n ≡ holding m.objects a n = sym (ap (in_object n) at) in
            let is : 0 < owned p n = omega (arith, e) in
            inr (
              omega (arith, is, here_, v.arrays.single a n),
              v.arrays.live a n (omega (arith, is, here_)),
              f.goes n is,
            )
      ],
    )
