-- ===== src/Executor/Token/Counted.antt =====
-- What each operation on a KeepAlive pointer does to the count of its executor.
use thread_pool_exec.Prelude.{
  put, ℕ, zero, suc, ◌+◌, ◌-◌, ◌%◌, ◌≡◌, ◌≢◌, ◌≤◌, Bool, some, List, [], ◌∷◌, ◌++◌, ◌==◌, get_elem?,
  set, if◌then◌else◌, arith, refl,
}
use thread_pool_exec.Executor.Token.{
  get, flags, is_keep_alive_dummy, Tokens, get_keep_alive_token, copy, reset, Use, make_from,
}

-- Whether an object with this storage holds `executor`: no flag is set then.
abbrev pub own : ℕ → ℕ → ℕ
own executor storage = if storage == executor then 1 else 0

unfoldable pub owners : ℕ → List ℕ → ℕ
owners executor [] = 0
owners executor (s ∷ ss) = own executor s + owners executor ss

pub owners-append : (e s : ℕ) (ss : List ℕ) → owners e (ss ++ s ∷ []) ≡ owners e ss + own e s
unfolding owners
owners-append e s [] = omega arith
owners-append e s (x ∷ ss) = omega (arith, owners-append e s ss)

pub owners-set :
    (e v : ℕ) (ss : List ℕ) (i : ℕ) {s : ℕ}
    → get_elem? ss i ≡ some s
    → owners e (set ss i v) + own e s ≡ owners e ss + own e v
unfolding owners
owners-set e v [] i h = absurd (cc)
owners-set e v (x ∷ ss) zero {s} h = let same : x ≡ s = cc in rw same (omega arith)
owners-set e v (x ∷ ss) (suc i) h = omega (arith, owners-set e v ss i h)

-- The counts belong to the objects.
abbrev pub Balanced : Tokens → Type 0
Balanced w = (e : ℕ) → e % 4 ≡ 0 → e ≢ 0 → w.acquired e ≡ owners e w.storages

-- Executors stand at multiples of 4.
abbrev pub Aligned : Use → Type 0
Aligned (make_from e) = e % 4 ≡ 0
Aligned _ = Unit

module _ (x : ℕ) (aligned : x % 4 ≡ 0) (real : x ≢ 0) where
  pub reset_counted :
      (s : ℕ) (acquired : ℕ → ℕ)
      → own x s ≤ acquired x
      → (reset s acquired).1 x + own x s ≡ acquired x + own x (reset s acquired).0
  unfolding reset get flags put
  reset_counted s acquired h = ground arith

  pub token_counted :
      (supports : ℕ → Bool) (e : ℕ) (acquired : ℕ → ℕ)
      → e % 4 ≡ 0
      → (get_keep_alive_token supports e acquired).1 x
        ≡ acquired x + own x (get_keep_alive_token supports e acquired).0
  unfolding get_keep_alive_token put
  token_counted supports e acquired at = ground arith

  pub copy_counted :
      (supports : ℕ → Bool) (s : ℕ) (acquired : ℕ → ℕ)
      → (copy supports s acquired).1 x ≡ acquired x + own x (copy supports s acquired).0
  unfolding copy get is_keep_alive_dummy
  copy_counted supports s acquired = ground (arith, token_counted supports (s - s % 4) acquired)

pub get_elem?-own :
    (e : ℕ) (ss : List ℕ) (i : ℕ) {s : ℕ} → get_elem? ss i ≡ some s → own e s ≤ owners e ss
unfolding owners
get_elem?-own e [] i h = absurd (cc)
get_elem?-own e (x ∷ ss) zero h = ground arith
get_elem?-own e (x ∷ ss) (suc i) h = omega (arith, get_elem?-own e ss i h)

pub get_elem?-set :
    (ss : List ℕ) (i v : ℕ) {s : ℕ} → get_elem? ss i ≡ some s → get_elem? (set ss i v) i ≡ some v
get_elem?-set [] i v h = absurd (cc)
get_elem?-set (x ∷ ss) zero v h = refl
get_elem?-set (x ∷ ss) (suc i) v h = get_elem?-set ss i v h
