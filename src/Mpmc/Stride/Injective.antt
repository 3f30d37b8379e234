-- ===== src/Mpmc/Stride/Injective.antt =====
-- The stride has no common factor with the capacity, so tickets in a window of the queue's
-- capacity go to slots of their own.
use thread_pool_exec.Prelude.{
  ℕ, suc, ◌+◌, ◌-◌, ◌*◌, ◌/◌, ◌%◌, ◌^◌, ◌≤◌, ◌<◌, ◌≡◌, ◌≢◌, refl, arith, dec_le, ap, sym, ◌∙◌,
}
use native.Mathlib.Nat.{mul-add, div-add-mod, mod-lt, mod-eq_of_lt}
use thread_pool_exec.Mpmc.Stride.{compute_stride, idx, turn}
use thread_pool_exec.Mpmc.Stride.Unit.{IsUnit, mul_mono, multiple_zero, compute_stride-IsStride}

-- Tickets this small do not wrap: neither their product with a stride nor their turn, twice over.
pub record Fits (cap ticket : ℕ) : Type 0 where
  pub product : ticket < 2 ^ 59
  pub turns : suc (ticket / cap) < 2 ^ 25

product_fits : (t s : ℕ) → t < 2 ^ 59 → s ≤ 23 → t * s < 2 ^ 64
product_fits t s h small = omega (arith, mul_mono t s 23 small)

pub idx_lem :
    (padding cap t : ℕ)
    → 0 < cap
    → Fits cap t
    → idx padding t cap (compute_stride cap) ≡ t * compute_stride cap % cap + padding
unfolding idx
idx_lem padding cap t h fits =
    let small =
      product_fits t (compute_stride cap) fits.product (compute_stride-IsStride cap h).1 in
    rw (mod-eq_of_lt small) refl

pub turn_lem : (cap t : ℕ) → Fits cap t → turn t cap ≡ t / cap
unfolding turn
turn_lem cap t fits = omega (arith, fits.turns)

-- A slot of the array, inside the padding on both sides.
pub idx_bounds :
    (padding cap t : ℕ)
    → 0 < cap
    → (padding ≤ idx padding t cap (compute_stride cap))
      × (idx padding t cap (compute_stride cap) < cap + padding)
unfolding idx
idx_bounds padding cap t h =
    let inside = mod-lt (t * compute_stride cap % 2 ^ 64) h in (omega arith, omega (arith, inside))

multiple_between : (cap a b x : ℕ) → 0 < cap → cap * b ≡ cap * a + x → (k : ℕ) × (x ≡ cap * k)
multiple_between cap a b x h e = elim (dec_le a b) [
  | yes le ↦
      let whole : b ≡ a + (b - a) = omega arith in
      let split = ap (λ (n : ℕ). cap * n) whole ∙ mul-add cap a (b - a) in
      (b - a, omega (arith, e, split))
  | no gt ↦ absurd (omega (arith, e, h, mul_mono cap (suc b) a (omega arith)))
]

same_residue :
    (cap s t d : ℕ) → 0 < cap → IsUnit cap s → d < cap → t * s % cap ≡ (t + d) * s % cap → d ≡ 0
same_residue cap s t d h unit near e =
    let whole = div-add-mod (t * s) cap in
    let whole' = div-add-mod ((t + d) * s) cap in
    let (k, f) =
      multiple_between cap (t * s / cap) ((t + d) * s / cap) (s * d) h
        (omega (arith, e, whole, whole')) in
    multiple_zero cap s d k unit near f

-- Two tickets less than the capacity apart that go to one slot are one ticket.
pub idx_injective :
    (padding cap t u : ℕ)
    → 0 < cap
    → Fits cap t
    → Fits cap u
    → t ≤ u
    → u < t + cap
    → idx padding t cap (compute_stride cap) ≡ idx padding u cap (compute_stride cap)
    → t ≡ u
idx_injective padding cap t u h ft fu le near e = omega (
  arith,
  same_residue cap (compute_stride cap) t (u - t) h (compute_stride-IsStride cap h).0 (omega arith)
      (same_slot (u - t) (omega arith)),
)
  where
    same_slot :
        (d : ℕ) → u ≡ t + d → t * compute_stride cap % cap ≡ (t + d) * compute_stride cap % cap
    same_slot d f =
        let left = idx_lem padding cap t h ft in
        let right = idx_lem padding cap u h fu in
        let same : t * compute_stride cap % cap ≡ u * compute_stride cap % cap =
          omega (arith, e, left, right) in
        same ∙ ap (λ (n : ℕ). n * compute_stride cap % cap) f

-- Two tickets that go to one slot in one turn are one ticket.
pub one_ticket :
    (padding cap t u : ℕ)
    → 0 < cap
    → Fits cap t
    → Fits cap u
    → idx padding t cap (compute_stride cap) ≡ idx padding u cap (compute_stride cap)
    → t / cap ≡ u / cap
    → t ≡ u
one_ticket padding cap t u h ft fu e k =
    let at = div-add-mod t cap in
    let at' = div-add-mod u cap in
    let same = ap (λ (n : ℕ). cap * n) k in
    let low = mod-lt t h in
    let low' = mod-lt u h in
    elim (dec_le t u) [
      | yes le ↦
          idx_injective padding cap t u h ft fu le (omega (arith, at, at', same, low, low')) e
      | no gt ↦ sym (
          idx_injective padding cap u t h fu ft (omega arith)
            (omega (arith, at, at', same, low, low')) (sym e))
    ]

-- Tickets less than the capacity apart go to different slots, and every slot lies between the
-- paddings of the array.
pub idx_apart :
    (padding cap t u : ℕ)
    → 0 < cap
    → Fits cap t
    → Fits cap u
    → t < u
    → u < t + cap
    → (idx padding t cap (compute_stride cap) ≢ idx padding u cap (compute_stride cap))
      × (padding ≤ idx padding t cap (compute_stride cap))
      × (idx padding t cap (compute_stride cap) < cap + padding)
idx_apart padding cap t u h ft fu lt near = (
  λ e. absurd (omega (arith, idx_injective padding cap t u h ft fu (omega arith) near e, lt)),
  (idx_bounds padding cap t h).0,
  (idx_bounds padding cap t h).1,
)
