-- ===== src/Pool/ThreadList/Laws.antt =====
-- A list whose ids rise strictly stays so, and behaves as the set of its threads.
use thread_pool_exec.Prelude.{
  ℕ, zero, suc, ◌+◌, ◌≤◌, ◌<◌, ◌≡◌, ◌⊎◌, inl, inr, refl, ap, subst, sym, some, false, lt→ltb,
  if◌then◌else◌, List, [], ◌∷◌, length, get_elem?, arith, dec_lt,
}
use thread_pool_exec.Pool.Task.{Thread}
use thread_pool_exec.Pool.ThreadList.{
  insert_at, erase_at, ThreadList, lower_bound, upper_bound, remove,
}

-- The ids rise strictly, from `n` on.
abbrev pub IsRising : ℕ → List Thread → Type 0
IsRising n [] = Unit
IsRising n (t ∷ ts) = (n ≤ t.id) × IsRising (suc t.id) ts

-- A thread of this id is in the list.
abbrev pub Has : ℕ → List Thread → Type 0
Has k [] = ⊥
Has k (t ∷ ts) = (t.id ≡ k) ⊎ Has k ts

unfoldable pub total : (Thread → ℕ) → List Thread → ℕ
total w [] = 0
total w (t ∷ ts) = w t + total w ts

pub IsRising-insert_at :
    (n : ℕ) (ts : List Thread) (s : Thread)
    → IsRising n ts
    → n ≤ s.id
    → ¬ Has s.id ts
    → IsRising n (insert_at (lower_bound ts s.id) s ts)
unfolding insert_at lower_bound
IsRising-insert_at n [] s r h k = (h, tt)
IsRising-insert_at n (t ∷ ts) s r h k = ground (arith, IsRising-insert_at (suc t.id) ts s)

pub total-insert_at :
    (w : Thread → ℕ) (ts : List Thread) (s : Thread) (i : ℕ)
    → i ≤ length ts
    → total w (insert_at i s ts) ≡ w s + total w ts
unfolding insert_at total
total-insert_at w ts s zero h = refl
total-insert_at w [] s (suc i) h = absurd (omega arith)
total-insert_at w (t ∷ ts) s (suc i) h = omega (arith, total-insert_at w ts s i (omega arith))

pub lower_bound-le : (ts : List Thread) (k : ℕ) → lower_bound ts k ≤ length ts
unfolding lower_bound
lower_bound-le [] k = omega arith
lower_bound-le (t ∷ ts) k = ground (arith, lower_bound-le ts k)

-- Below every id of the list.
lower_bound_of_rising : (n k : ℕ) (ts : List Thread) → IsRising n ts → k ≤ n → lower_bound ts k ≡ 0
unfolding lower_bound
lower_bound_of_rising n k [] r h = refl
lower_bound_of_rising n k (t ∷ ts) r h = ground arith

upper_bound_of_rising : (n k : ℕ) (ts : List Thread) → IsRising n ts → k < n → upper_bound ts k ≡ 0
unfolding upper_bound
upper_bound_of_rising n k [] r h = refl
upper_bound_of_rising n k (t ∷ ts) r h = ground arith

pub not-Has_of_rising : (n k : ℕ) (ts : List Thread) → IsRising n ts → k < n → ¬ Has k ts
not-Has_of_rising n k [] r h q = q
not-Has_of_rising n k (t ∷ ts) r h (inl e) = absurd (omega arith)
not-Has_of_rising n k (t ∷ ts) r h (inr q) = not-Has_of_rising (suc t.id) k ts r.1 (omega arith) q

-- A thread of the list is found at one place, by both bounds.
pub Has-bounds :
    (n k : ℕ) (ts : List Thread)
    → IsRising n ts
    → Has k ts
    → (lower_bound ts k < length ts) × (upper_bound ts k ≡ suc (lower_bound ts k))
unfolding lower_bound upper_bound
Has-bounds n k [] r h = absurd h
Has-bounds n k (t ∷ ts) r (inl e) = ground (arith, upper_bound_of_rising (suc t.id) k ts)
Has-bounds n k (t ∷ ts) r (inr q) = elim (dec_lt t.id k) [
  | yes p ↦ ground (arith, Has-bounds (suc t.id) k ts r.1 q)
  | no p ↦ absurd (not-Has_of_rising (suc t.id) k ts r.1 (omega arith) q)
]

module _ (w : Thread → ℕ) where
  total-erase_at :
      (ts : List Thread) (i : ℕ) (t : Thread)
      → get_elem? ts i ≡ some t
      → w t + total w (erase_at i ts) ≡ total w ts
  unfolding erase_at total
  total-erase_at [] i t e = absurd (ground arith)
  total-erase_at (x ∷ ts) zero t e = ground arith
  total-erase_at (x ∷ ts) (suc i) t e = omega (arith, total-erase_at ts i t e)

length-erase_at :
    (ts : List Thread) (i : ℕ) → i < length ts → suc (length (erase_at i ts)) ≡ length ts
unfolding erase_at
length-erase_at [] i h = absurd (omega arith)
length-erase_at (x ∷ ts) zero h = refl
length-erase_at (x ∷ ts) (suc i) h = omega (arith, length-erase_at ts i (omega arith))

pub length-insert_at :
    (ts : List Thread) (i : ℕ) (s : Thread) → length (insert_at i s ts) ≡ suc (length ts)
unfolding insert_at
length-insert_at ts zero s = refl
length-insert_at [] (suc i) s = refl
length-insert_at (x ∷ ts) (suc i) s = ap suc (length-insert_at ts i s)

pub erase_at-insert_at :
    (ts : List Thread) (i : ℕ) (s : Thread) → i ≤ length ts → erase_at i (insert_at i s ts) ≡ ts
unfolding erase_at insert_at
erase_at-insert_at ts zero s h = refl
erase_at-insert_at [] (suc i) s h = absurd (omega arith)
erase_at-insert_at (x ∷ ts) (suc i) s h = ap (◌∷◌ x) (erase_at-insert_at ts i s (omega arith))

pub IsRising-mono : {m n : ℕ} (ts : List Thread) → n ≤ m → IsRising m ts → IsRising n ts
IsRising-mono [] h r = tt
IsRising-mono (t ∷ ts) h r = (omega arith, r.1)

IsRising-erase_at : (n : ℕ) (ts : List Thread) (i : ℕ) → IsRising n ts → IsRising n (erase_at i ts)
unfolding erase_at
IsRising-erase_at n [] i r = r
IsRising-erase_at n (t ∷ ts) zero r = IsRising-mono {m = suc t.id} {n = n} ts (omega arith) r.1
IsRising-erase_at n (t ∷ ts) (suc i) r = (r.0, IsRising-erase_at (suc t.id) ts i r.1)

-- `t` is in the list.
abbrev pub In : Thread → List Thread → Type 0
In t [] = ⊥
In t (x ∷ xs) = (x ≡ t) ⊎ In t xs

pub In-Has : (t : Thread) (ts : List Thread) → In t ts → Has t.id ts
In-Has t [] h = h
In-Has t (x ∷ ts) (inl e) = inl (ap (λ (s : Thread). s.id) e)
In-Has t (x ∷ ts) (inr h) = inr (In-Has t ts h)

pub get_elem?-lower_bound :
    (n : ℕ) (ts : List Thread) (t : Thread)
    → IsRising n ts
    → In t ts
    → get_elem? ts (lower_bound ts t.id) ≡ some t
unfolding lower_bound
get_elem?-lower_bound n [] t r h = absurd h
get_elem?-lower_bound n (x ∷ ts) t r (inl e) = ground arith
get_elem?-lower_bound n (x ∷ ts) t r (inr h) = elim (dec_lt x.id t.id) [
  | yes p ↦ ground (arith, get_elem?-lower_bound (suc x.id) ts t r.1 h)
  | no p ↦ absurd (not-Has_of_rising (suc x.id) t.id ts r.1 (omega arith) (In-Has t ts h))
]

-- Removing a thread of the list succeeds, and takes out that thread alone.
pub record Removed (l : ThreadList) (t : Thread) (used_cpu_time : ℕ) (l' : ThreadList)
    : Type 0 where
  pub done : remove l t used_cpu_time ≡ some l'
  pub accounted : l'.past_cpu_used ≡ l.past_cpu_used + used_cpu_time
  pub fewer : suc (length l'.vec) ≡ length l.vec
  pub weighed : (w : Thread → ℕ) → w t + total w l'.vec ≡ total w l.vec
  pub rising : (n : ℕ) → IsRising n l.vec → IsRising n l'.vec
  pub gone : ¬ Has t.id l'.vec
  pub kept : (s : Thread) → In s l'.vec → In s l.vec

In-erase_at : (s : Thread) (ts : List Thread) (i : ℕ) → In s (erase_at i ts) → In s ts
unfolding erase_at
In-erase_at s [] i h = h
In-erase_at s (t ∷ ts) zero h = inr h
In-erase_at s (t ∷ ts) (suc i) (inl e) = inl e
In-erase_at s (t ∷ ts) (suc i) (inr h) = inr (In-erase_at s ts i h)

not-Has-erase_at :
    (n : ℕ) (ts : List Thread) (k : ℕ)
    → IsRising n ts
    → Has k ts
    → ¬ Has k (erase_at (lower_bound ts k) ts)
unfolding erase_at lower_bound
not-Has-erase_at n [] k r h = absurd h
not-Has-erase_at n (x ∷ ts) k r (inl e) =
    let above = not-Has_of_rising (suc x.id) k ts r.1 (omega arith) in
    subst (λ b. ¬ Has k (erase_at (if b then suc (lower_bound ts k) else 0) (x ∷ ts))) {x = false}
      (ground arith) above
not-Has-erase_at n (x ∷ ts) k r (inr h) = elim (dec_lt x.id k) [
  | yes p ↦
      subst (λ b. ¬ Has k (erase_at (if b then suc (lower_bound ts k) else 0) (x ∷ ts)))
        (sym (lt→ltb _ _ p))
        (λ q. elim q [
          | inl e ↦ absurd (omega arith)
          | inr rest ↦ not-Has-erase_at (suc x.id) ts k r.1 h rest
        ])
  | no p ↦ absurd (not-Has_of_rising (suc x.id) k ts r.1 (omega arith) h)
]

pub remove-Removed :
    (n : ℕ) (l : ThreadList) (t : Thread) (used_cpu_time : ℕ)
    → IsRising n l.vec
    → In t l.vec
    → (l' : ThreadList) × Removed l t used_cpu_time l'
unfolding remove
remove-Removed n l t used_cpu_time r h =
    let found = Has-bounds n t.id l.vec r (In-Has t l.vec h) in
    let at = lower_bound l.vec t.id in
    (
      record { vec = erase_at at l.vec; past_cpu_used = l.past_cpu_used + used_cpu_time },
      record {
        done = ground arith;
        accounted = refl;
        fewer = length-erase_at l.vec at found.0;
        weighed = λ w. total-erase_at w l.vec at t (get_elem?-lower_bound n l.vec t r h);
        rising = λ m q. IsRising-erase_at m l.vec at q;
        gone = not-Has-erase_at n l.vec t.id r (In-Has t l.vec h);
        kept = λ s q. In-erase_at s l.vec at q;
      },
    )
