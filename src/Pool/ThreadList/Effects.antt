-- ===== src/Pool/ThreadList/Effects.antt =====
-- What `add`, `remove`, `contains` and the cumulative CPU time do to a list of rising ids.
use thread_pool_exec.Prelude.{
  ℕ, zero, suc, ◌+◌, ◌≤◌, ◌≡◌, ◌↔◌, inl, inr, refl, true, some, List, [], ◌∷◌, length, get_elem?,
  arith, dec_lt, Option-cases,
}
use thread_pool_exec.Pool.Task.{Thread}
use thread_pool_exec.Pool.ThreadList.{
  insert_at, ThreadList, lower_bound, add, remove, contains, add_cpu_times, get_used_cpu_time,
}
use thread_pool_exec.Pool.ThreadList.Laws.{
  IsRising, Has, In, In-Has, total, remove-Removed, IsRising-insert_at, total-insert_at,
  lower_bound-le, Has-bounds, length-insert_at, erase_at-insert_at, not-Has_of_rising,
}

pub record Added (l : ThreadList) (t : Thread) : Type 0 where
  pub more : length (add l t).vec ≡ suc (length l.vec)
  pub weighed : (w : Thread → ℕ) → total w (add l t).vec ≡ w t + total w l.vec
  pub rising : (n : ℕ) → n ≤ t.id → IsRising n l.vec → IsRising n (add l t).vec

pub add-Added : (l : ThreadList) (t : Thread) → ¬ Has t.id l.vec → Added l t
unfolding add
add-Added l t fresh = record {
  more = length-insert_at l.vec (lower_bound l.vec t.id) t;
  weighed = λ w. total-insert_at w l.vec t (lower_bound l.vec t.id) (lower_bound-le l.vec t.id);
  rising = λ n h r. IsRising-insert_at n l.vec t r h fresh;
}

In-insert_at : (ts : List Thread) (i : ℕ) (s : Thread) → In s (insert_at i s ts)
unfolding insert_at
In-insert_at ts zero s = inl refl
In-insert_at [] (suc i) s = inl refl
In-insert_at (x ∷ ts) (suc i) s = inr (In-insert_at ts i s)

In-add : (l : ThreadList) (t : Thread) → In t (add l t).vec
unfolding add
In-add l t = In-insert_at l.vec (lower_bound l.vec t.id) t

lower_bound-insert_at :
    (ts : List Thread) (s : Thread)
    → lower_bound (insert_at (lower_bound ts s.id) s ts) s.id ≡ lower_bound ts s.id
unfolding lower_bound insert_at
lower_bound-insert_at [] s = ground arith
lower_bound-insert_at (t ∷ ts) s = ground (arith, lower_bound-insert_at ts s)

-- Adding a thread whose id is not in the list and removing it again gives the list back, with
-- the thread's CPU time added to that of the past.
pub remove-add :
    (n : ℕ) (l : ThreadList) (t : Thread) (used_cpu_time : ℕ)
    → IsRising n l.vec
    → n ≤ t.id
    → ¬ Has t.id l.vec
    → remove (add l t) t used_cpu_time
      ≡ some (record l { past_cpu_used = l.past_cpu_used + used_cpu_time })
unfolding remove add
remove-add n l t used_cpu_time r h fresh =
    let found =
      Has-bounds n t.id (add l t).vec ((add-Added l t fresh).rising n h r)
        (In-Has t (add l t).vec (In-add l t)) in
    ground (
      arith,
      found,
      lower_bound-insert_at l.vec t,
      erase_at-insert_at l.vec (lower_bound l.vec t.id) t (lower_bound-le l.vec t.id),
    )

get_elem?-Has :
    (ts : List Thread) (k : ℕ) {t : Thread}
    → get_elem? ts (lower_bound ts k) ≡ some t
    → (k ≤ t.id) × (t.id ≤ k → Has k ts)
unfolding lower_bound
get_elem?-Has [] k e = absurd (ground arith)
get_elem?-Has (x ∷ ts) k {t} e = elim (dec_lt x.id k) [
  | yes p ↦ let rest = get_elem?-Has ts k {t = t} (ground arith) in (rest.0, λ h. inr (rest.1 h))
  | no p ↦ (ground arith, λ h. inl (ground arith))
]

Has-get_elem? :
    (n : ℕ) (ts : List Thread) (k : ℕ)
    → IsRising n ts
    → Has k ts
    → (t : Thread) × (get_elem? ts (lower_bound ts k) ≡ some t) × (t.id ≡ k)
unfolding lower_bound
Has-get_elem? n [] k r h = absurd h
Has-get_elem? n (x ∷ ts) k r (inl e) = (x, ground arith, e)
Has-get_elem? n (x ∷ ts) k r (inr h) = elim (dec_lt x.id k) [
  | yes p ↦ let (t, at, e) = Has-get_elem? (suc x.id) ts k r.1 h in (t, ground arith, e)
  | no p ↦ absurd (not-Has_of_rising (suc x.id) k ts r.1 (omega arith) h)
]

-- `contains` finds a thread by its id, and only an id that is there.
pub contains_iff :
    (n : ℕ) (l : ThreadList) (t : Thread)
    → IsRising n l.vec
    → (contains l t ≡ true) ↔ Has t.id l.vec
unfolding contains
contains_iff n l t r = (
  λ e. elim (Option-cases (get_elem? l.vec (lower_bound l.vec t.id))) [
    | inl missing ↦ absurd (ground arith)
    | inr (found, at) ↦ (get_elem?-Has l.vec t.id at).1 (ground arith)
  ],
  λ h. let (found, at, e) = Has-get_elem? n l.vec t.id r h in ground arith,
)

add_cpu_times_lem :
    (cpu : Thread → ℕ) (acc : ℕ) (ts : List Thread) → add_cpu_times cpu acc ts ≡ acc + total cpu ts
unfolding add_cpu_times total
add_cpu_times_lem cpu acc [] = omega arith
add_cpu_times_lem cpu acc (t ∷ ts) = omega (arith, add_cpu_times_lem cpu (acc + cpu t) ts)

-- Removing a thread of the list leaves the cumulative CPU time of the pool as it was.
pub get_used_cpu_time-remove :
    (cpu : Thread → ℕ) (n : ℕ) (l : ThreadList) (t : Thread)
    → IsRising n l.vec
    → In t l.vec
    → (l' : ThreadList) × (remove l t (cpu t) ≡ some l')
      × (get_used_cpu_time cpu l' ≡ get_used_cpu_time cpu l)
unfolding get_used_cpu_time
get_used_cpu_time-remove cpu n l t r h =
    let (l', removed) = remove-Removed n l t (cpu t) r h in
    (
      l',
      removed.done,
      omega (
        arith,
        removed.accounted,
        removed.weighed cpu,
        add_cpu_times_lem cpu l.past_cpu_used l.vec,
        add_cpu_times_lem cpu l'.past_cpu_used l'.vec,
      ),
    )
