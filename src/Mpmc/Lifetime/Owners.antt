-- ===== src/Mpmc/Lifetime/Owners.antt =====
-- How many times each object holds each array, and how construction, moves and destruction change
-- that.
use thread_pool_exec.Prelude.{
  put, put-same, put-other, ℕ, ◌+◌, ◌≤◌, ◌<◌, ◌≡◌, ◌≢◌, ◌⊎◌, ◌==◌, if◌then◌else◌, Bool, true, false,
  sym, ap, ◌∙◌, arith, inl, inr, ℕ_discrete,
}

-- 1 for the same number, and else 0.
unfoldable pub is_at : ℕ → ℕ → ℕ
is_at n x = if n == x then 1 else 0

pub is_at_self : (n : ℕ) → is_at n n ≡ 1
unfolding is_at
is_at_self n = ground arith

pub is_at_other : (n x : ℕ) → n ≢ x → is_at n x ≡ 0
unfolding is_at
is_at_other n x other = ground arith

-- Every array that is allocated is held by one object, once, and no other is held.
pub record Held (h : ℕ → ℕ → ℕ) (arrays : ℕ → Bool) : Type 0 where
  pub single : (a n : ℕ) → h a n ≤ 1
  pub live : (a n : ℕ) → 0 < h a n → arrays n ≡ true
  pub apart : (a b n : ℕ) → 0 < h a n → 0 < h b n → a ≡ b
  pub held : (n : ℕ) → arrays n ≡ true → (a : ℕ) × (0 < h a n)

pub Held-same :
    {h h' : ℕ → ℕ → ℕ} {arrays : ℕ → Bool}
    → ((a n : ℕ) → h' a n ≡ h a n)
    → Held h arrays
    → Held h' arrays
Held-same {h} {h'} same v = record {
  single = λ a n. omega (arith, same a n, v.single a n);
  live = λ a n some. v.live a n (omega (arith, same a n, some));
  apart = λ a b n first second.
      v.apart a b n (omega (arith, same a n, first)) (omega (arith, same b n, second));
  held = λ n is. let (a, some) = v.held n is in (a, omega (arith, same a n, some));
}

-- An array that was not allocated is given to an object.
module _ {h h' : ℕ → ℕ → ℕ} {arrays : ℕ → Bool} (a name : ℕ) (new : arrays name ≡ false)
    (gains : (n : ℕ) → h' a n ≡ is_at n name + h a n) (others : (b n : ℕ) → b ≢ a → h' b n ≡ h b n)
    (v : Held h arrays) where
  unheld : (b : ℕ) → h b name ≡ 0
  unheld b = elim (ℕ_discrete (h b name) 0) [
    | yes e ↦ e
    | no e ↦ absurd (cc (v.live b name (omega (arith, e)), new))
  ]

  own : (b : ℕ) → 0 < h' b name → b ≡ a
  own b has = elim (ℕ_discrete b a) [
    | yes e ↦ e
    | no e ↦ absurd (omega (arith, others b name e, unheld b, has))
  ]

  as_before : (b n : ℕ) → n ≢ name → h' b n ≡ h b n
  as_before b n other = elim (ℕ_discrete b a) [
    | yes e ↦ rw e (omega (arith, gains n, is_at_other n name other))
    | no e ↦ others b n e
  ]

  once : h' a name ≡ 1
  once = omega (arith, gains name, is_at_self name, unheld a)

  created_single : (b n : ℕ) → h' b n ≤ 1
  created_single b n = elim (ℕ_discrete n name) [
    | yes e ↦ elim (ℕ_discrete b a) [
      | yes f ↦ rw (e, f) (omega (arith, once))
      | no f ↦ omega (arith, others b n f, v.single b n)
    ]
    | no e ↦ omega (arith, as_before b n e, v.single b n)
  ]

  pub Held-create : Held h' (put arrays name true)
  Held-create = record {
    single = created_single;
    live = λ b n has. elim (ℕ_discrete n name) [
      | yes e ↦ rw e (put-same arrays name true)
      | no e ↦ put-other arrays name n true e ∙ v.live b n (omega (arith, as_before b n e, has))
    ];
    apart = λ b c n first second. elim (ℕ_discrete n name) [
      | yes e ↦ own b (rw (sym e) first) ∙ sym (own c (rw (sym e) second))
      | no e ↦
          v.apart b c n (omega (arith, as_before b n e, first))
            (omega (arith, as_before c n e, second))
    ];
    held = λ n is. elim (ℕ_discrete n name) [
      | yes e ↦ (a, rw e (omega (arith, once)))
      | no e ↦
          let (b, has) = v.held n (sym (put-other arrays name n true e) ∙ is) in
          (b, omega (arith, as_before b n e, has))
    ];
  }

-- An object is destroyed, with the arrays that it holds.
module _ {h h' : ℕ → ℕ → ℕ} {arrays arrays' : ℕ → Bool} (a : ℕ)
    (stays : (n : ℕ) → h a n ≡ 0 → arrays' n ≡ arrays n)
    (goes : (n : ℕ) → 0 < h a n → arrays' n ≡ false) (none_left : (n : ℕ) → h' a n ≡ 0)
    (others : (b n : ℕ) → b ≢ a → h' b n ≡ h b n) (v : Held h arrays) where
  other : (b n : ℕ) → 0 < h' b n → (b ≢ a) × (0 < h b n)
  other b n has = elim (ℕ_discrete b a) [
    | yes e ↦ absurd (omega (arith, has, none_left n, ap (λ (k : ℕ). h' k n) e))
    | no e ↦ (e, omega (arith, has, others b n e))
  ]

  kept : (b n : ℕ) → 0 < h' b n → h a n ≡ 0
  kept b n has = elim (ℕ_discrete (h a n) 0) [
    | yes e ↦ e
    | no e ↦ absurd ((other b n has).0 (v.apart b a n (other b n has).1 (omega (arith, e))))
  ]

  pub Held-destroy : Held h' arrays'
  Held-destroy = record {
    single = λ b n. elim (ℕ_discrete b a) [
      | yes e ↦ rw e (omega (arith, none_left n))
      | no e ↦ omega (arith, others b n e, v.single b n)
    ];
    live = λ b n has. stays n (kept b n has) ∙ v.live b n (other b n has).1;
    apart = λ b c n first second. v.apart b c n (other b n first).1 (other c n second).1;
    held = λ n is. elim (ℕ_discrete (h a n) 0) [
      | yes e ↦
          let (b, has) = v.held n (sym (stays n e) ∙ is) in
          let differ : b ≢ a = λ f. omega (arith, has, e, ap (λ (k : ℕ). h k n) f) in
          (b, omega (arith, others b n differ, has))
      | no e ↦ absurd (cc (goes n (omega (arith, e)), is))
    ];
  }

-- What one object holds goes to another, which holds nothing.
module _ {h h' : ℕ → ℕ → ℕ} {arrays : ℕ → Bool} (a s : ℕ) (empty : (n : ℕ) → h a n ≡ 0)
    (to : (n : ℕ) → h' a n ≡ h s n) (from : (n : ℕ) → h' s n ≡ 0)
    (others : (b n : ℕ) → b ≢ a → b ≢ s → h' b n ≡ h b n) (v : Held h arrays) where
  origin : (b n : ℕ) → 0 < h' b n → ((b ≡ a) × (0 < h s n)) ⊎ ((b ≢ s) × (0 < h b n))
  origin b n has = elim (ℕ_discrete b a) [
    | yes e ↦ inl (e, omega (arith, has, to n, ap (λ (k : ℕ). h' k n) e))
    | no e ↦ elim (ℕ_discrete b s) [
      | yes f ↦ absurd (omega (arith, has, from n, ap (λ (k : ℕ). h' k n) f))
      | no f ↦ inr (f, omega (arith, has, others b n e f))
    ]
  ]

  moved_single : (b n : ℕ) → h' b n ≤ 1
  moved_single b n = elim (ℕ_discrete b a) [
    | yes e ↦ rw e (omega (arith, to n, v.single s n))
    | no e ↦ elim (ℕ_discrete b s) [
      | yes f ↦ rw f (omega (arith, from n))
      | no f ↦ omega (arith, others b n e f, v.single b n)
    ]
  ]

  moved_apart : (b c n : ℕ) → 0 < h' b n → 0 < h' c n → b ≡ c
  moved_apart b c n first second = elim (origin b n first) [
    | inl (e, is) ↦ elim (origin c n second) [
      | inl (e', is') ↦ e ∙ sym e'
      | inr (f', is') ↦ absurd (f' (v.apart c s n is' is))
    ]
    | inr (f, is) ↦ elim (origin c n second) [
      | inl (e', is') ↦ absurd (f (v.apart b s n is is'))
      | inr (f', is') ↦ v.apart b c n is is'
    ]
  ]

  pub Held-move : Held h' arrays
  Held-move = record {
    single = moved_single;
    live = λ b n has. elim (origin b n has) [
      | inl (e, is) ↦ v.live s n is
      | inr (f, is) ↦ v.live b n is
    ];
    apart = moved_apart;
    held = λ n is.
        let (b, has) = v.held n is in
        elim (ℕ_discrete b s) [
          | yes e ↦ (a, omega (arith, to n, has, ap (λ (k : ℕ). h k n) e))
          | no e ↦
              let differs : b ≢ a = λ f. omega (arith, has, empty n, ap (λ (k : ℕ). h k n) f) in
              (b, omega (arith, others b n differs e, has))
        ];
  }
