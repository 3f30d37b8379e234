-- ===== src/Mpmc/Stride/Unit.antt =====
-- The stride that `computeStride` of ThreadPool/MPMCQueue.h finds has no common factor with the
-- capacity.
use thread_pool_exec.Prelude.{
  ℕ, zero, suc, ◌+◌, ◌-◌, ◌*◌, ◌/◌, ◌%◌, ◌≤◌, ◌<◌, ◌≡◌, ◌≢◌, ◌⊎◌, inl, inr, refl, true, false, Bool,
  List, [], ◌∷◌, All, arith, ◌==◌, ◌&&◌, ◌||◌, Bool-cases, dec_le, ap, ℕ_discrete,
}
use native.Mathlib.Nat.{div-add-mod}
use thread_pool_exec.Mpmc.Stride.{Best, small_primes, try_stride, try_strides, compute_stride}

-- `stride` has an inverse modulo `cap`: `stride * k` is -1 there.
abbrev pub IsUnit : ℕ → ℕ → Type 0
IsUnit cap stride = (k : ℕ) × (v : ℕ) × (stride * k + 1 ≡ v * cap)

IsUnit-one : (cap : ℕ) → 0 < cap → IsUnit cap 1
IsUnit-one cap h = (cap - 1, 1, omega arith)

pub mul_mono : (c a b : ℕ) → a ≤ b → c * a ≤ c * b
mul_mono c a b h = grind arith

-- With an inverse, only 0 below the capacity is taken to a multiple of it.
pub multiple_zero :
    (cap stride d m : ℕ) → IsUnit cap stride → d < cap → stride * d ≡ cap * m → d ≡ 0
multiple_zero cap stride d m (k, v, e) h f = elim (dec_le (v * d) (k * m)) [
  | yes below ↦ omega (arith, split, mul_mono cap (v * d) (k * m) below)
  | no above ↦ absurd (omega (arith, split, mul_mono cap (suc (k * m)) (v * d) (omega arith)))
]
  where
    split : cap * (v * d) ≡ cap * (k * m) + d
    split = omega (arith, ap (λ (t : ℕ). t * d) e, ap (λ (t : ℕ). t * k) f)

-- An inverse modulo a prime, by search below it.
inverse_below : ℕ → ℕ → ℕ → Bool
inverse_below p r zero = false
inverse_below p r (suc v) = (v * r % p == 1) || inverse_below p r v

inverses_to : ℕ → ℕ → Bool
inverses_to p zero = true
inverses_to p (suc r) = ((r == 0) || inverse_below p r p) && inverses_to p r

inverse_below_sound : (p r n : ℕ) → inverse_below p r n ≡ true → (v : ℕ) × (v * r % p ≡ 1)
unfolding inverse_below
inverse_below_sound p r zero e = absurd (ground arith)
inverse_below_sound p r (suc n) e = elim (Bool-cases (n * r % p == 1)) [
  | inl hit ↦ (n, ground arith)
  | inr miss ↦ inverse_below_sound p r n (ground arith)
]

inverses_to_sound : (p n r : ℕ) → inverses_to p n ≡ true → 0 < r → r < n → (v : ℕ) × (v * r % p ≡ 1)
unfolding inverses_to
inverses_to_sound p zero r e pos h = absurd (omega arith)
inverses_to_sound p (suc n) r e pos h = elim (ℕ_discrete r n) [
  | yes at ↦ inverse_below_sound p r p (ground arith)
  | no before ↦ inverses_to_sound p n r (ground arith) pos (omega arith)
]

-- A number all of whose non-zero residues have inverses has one modulo every capacity that it does
-- not divide.
IsUnit-of_inverses : (cap p : ℕ) → 0 < p → inverses_to p p ≡ true → cap % p ≢ 0 → IsUnit cap p
IsUnit-of_inverses cap p pos e h =
    let (v, at) = inverses_to_sound p p (cap % p) e (omega arith) (omega arith) in
    let whole = div-add-mod cap p in
    let part = div-add-mod (v * (cap % p)) p in
    (v * (cap / p) + v * (cap % p) / p, v, omega (arith, at, part, ap (λ (t : ℕ). v * t) whole))

-- The strides that `computeStride` tries.
IsPrimeStride : ℕ → Type 0
IsPrimeStride p = (0 < p) × (p ≤ 23) × (inverses_to p p ≡ true)

prime_stride : (p : ℕ) → 0 < p → p ≤ 23 → inverses_to p p ≡ true → IsPrimeStride p
unfolding IsPrimeStride
prime_stride p pos small e = (pos, small, e)

small_primes-IsPrimeStride : All IsPrimeStride small_primes
unfolding inverses_to inverse_below
small_primes-IsPrimeStride = (
  prime_stride 2 (omega arith) (omega arith) refl,
  (
    prime_stride 3 (omega arith) (omega arith) refl,
    (
      prime_stride 5 (omega arith) (omega arith) refl,
      (
        prime_stride 7 (omega arith) (omega arith) refl,
        (
          prime_stride 11 (omega arith) (omega arith) refl,
          (
            prime_stride 13 (omega arith) (omega arith) refl,
            (
              prime_stride 17 (omega arith) (omega arith) refl,
              (
                prime_stride 19 (omega arith) (omega arith) refl,
                (prime_stride 23 (omega arith) (omega arith) refl, tt),
              ),
            ),
          ),
        ),
      ),
    ),
  ),
)

abbrev pub IsStride : ℕ → ℕ → Type 0
IsStride cap stride = IsUnit cap stride × (stride ≤ 23)

try_stride_cases :
    (cap : ℕ) (best : Best) (p : ℕ)
    → ((try_stride cap best p).stride ≡ best.stride)
      ⊎ (((try_stride cap best p).stride ≡ p) × (cap % p ≢ 0))
unfolding try_stride
try_stride_cases cap best p = ground arith

try_stride-IsStride :
    (cap : ℕ) (best : Best) (p : ℕ)
    → IsPrimeStride p
    → IsStride cap best.stride
    → IsStride cap (try_stride cap best p).stride
unfolding IsPrimeStride
try_stride-IsStride cap best p (pos, small, e) v = elim (try_stride_cases cap best p) [
  | inl stays ↦ rw stays v
  | inr (taken, prime) ↦ rw taken (IsUnit-of_inverses cap p pos e prime, small)
]

try_strides-IsStride :
    (cap : ℕ) (best : Best) (ps : List ℕ)
    → All IsPrimeStride ps
    → IsStride cap best.stride
    → IsStride cap (try_strides cap best ps).stride
unfolding try_strides
try_strides-IsStride cap best [] h v = v
try_strides-IsStride cap best (p ∷ ps) h v =
    try_strides-IsStride cap (try_stride cap best p) ps h.1 (try_stride-IsStride cap best p h.0 v)

pub compute_stride-IsStride : (cap : ℕ) → 0 < cap → IsStride cap (compute_stride cap)
unfolding compute_stride
compute_stride-IsStride cap h =
    try_strides-IsStride cap (record { stride = 1; sep = 1 }) small_primes
      small_primes-IsPrimeStride (IsUnit-one cap h, omega arith)
