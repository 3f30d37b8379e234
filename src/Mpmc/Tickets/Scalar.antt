-- ===== src/Mpmc/Tickets/Scalar.antt =====
-- How the numbers of one ticket change when it, or another, is drawn or used.
use thread_pool_exec.Prelude.{
  ℕ, suc, ◌+◌, ◌*◌, ◌^◌, ◌≤◌, ◌<◌, ◌≡◌, ◌≢◌, Bool, true, false, Option, none, some, refl, sym,
  arith,
}

-- Of a ticket whose turn is `k`, at a slot that has completed `n` turns and holds `contents`, where
-- `push` and `pop` are the next tickets to be drawn.
pub record Ticket {T : Type 0} (t push pop k n : ℕ) (contents pushing written read : Option T)
    (popping : Bool) : Type 0 where
  pub small : n < 2 ^ 26
  -- Not drawn for a push, and so not placed in the slot.
  pub unborn : push ≤ t → (pushing ≡ none) × (n ≤ 2 * k)
  pub in_hand : (x : T) → pushing ≡ some x → (n ≤ 2 * k) × (written ≡ some x)
  pub placed : t < push → pushing ≡ none → 2 * k < n
  pub known : t < push → (x : T) × (written ≡ some x)
  -- Not drawn for a pop, or drawn and waiting: the slot has not passed its turn.
  pub ungranted : pop ≤ t → (popping ≡ false) × (n ≤ 2 * k + 1)
  pub waiting : popping ≡ true → n ≤ 2 * k + 1
  pub done : t < pop → popping ≡ false → (2 * k + 1 < n) × (read ≡ written)
  pub full : n ≡ 2 * k + 1 → contents ≡ written

module _ {T : Type 0} {t push pop k n : ℕ} {contents pushing written read : Option T}
    {popping : Bool} (v : Ticket t push pop k n contents pushing written read popping) where
  pub draw_push_self :
      (x : T) → t ≡ push → Ticket t (push + 1) pop k n contents (some x) (some x) read popping
  draw_push_self x e = record {
    small = v.small;
    unborn = ground arith;
    in_hand = ground arith;
    placed = ground arith;
    known = λ _. (x, refl);
    ungranted = v.ungranted;
    waiting = v.waiting;
    done = ground arith;
    full = ground arith;
  }

  pub draw_push_other : t ≢ push → Ticket t (push + 1) pop k n contents pushing written read popping
  draw_push_other e = record {
    small = v.small;
    unborn = ground arith;
    in_hand = v.in_hand;
    placed = ground arith;
    known = λ h. v.known (omega arith);
    ungranted = v.ungranted;
    waiting = v.waiting;
    done = v.done;
    full = v.full;
  }

  pub draw_pop_self : t ≡ pop → Ticket t push (pop + 1) k n contents pushing written read true
  draw_pop_self e = record {
    small = v.small;
    unborn = v.unborn;
    in_hand = v.in_hand;
    placed = v.placed;
    known = v.known;
    ungranted = ground arith;
    waiting = ground arith;
    done = ground arith;
    full = v.full;
  }

  pub draw_pop_other : t ≢ pop → Ticket t push (pop + 1) k n contents pushing written read popping
  draw_pop_other e = record {
    small = v.small;
    unborn = v.unborn;
    in_hand = v.in_hand;
    placed = v.placed;
    known = v.known;
    ungranted = ground arith;
    waiting = v.waiting;
    done = ground arith;
    full = v.full;
  }

  pub use_push_self :
      (x : T)
      → pushing ≡ some x
      → n ≡ 2 * k
      → suc k < 2 ^ 25
      → Ticket t push pop k (suc n) (some x) none written read popping
  use_push_self x h at fits = record {
    small = omega arith;
    unborn = ground arith;
    in_hand = ground arith;
    placed = ground arith;
    known = v.known;
    ungranted = ground arith;
    waiting = ground arith;
    done = ground arith;
    full = λ _. sym (v.in_hand x h).1;
  }

  pub use_pop_self :
      (x : T)
      → popping ≡ true
      → contents ≡ some x
      → n ≡ 2 * k + 1
      → suc k < 2 ^ 25
      → Ticket t push pop k (suc n) none pushing written (some x) false
  use_pop_self x h c at fits = record {
    small = omega arith;
    unborn = ground arith;
    in_hand = ground arith;
    placed = ground arith;
    known = v.known;
    ungranted = ground arith;
    waiting = ground arith;
    done = ground arith;
    full = ground arith;
  }

  -- The slot completes a turn of another ticket.
  pub use_push_other :
      (k' : ℕ) (c : Option T)
      → n ≡ 2 * k'
      → k ≢ k'
      → suc k' < 2 ^ 25
      → Ticket t push pop k (suc n) c pushing written read popping
  use_push_other k' c at ne fits = record {
    small = omega arith;
    unborn = ground arith;
    in_hand = ground arith;
    placed = ground arith;
    known = v.known;
    ungranted = ground arith;
    waiting = ground arith;
    done = ground arith;
    full = ground arith;
  }

  pub use_pop_other :
      (k' : ℕ) (c : Option T)
      → n ≡ 2 * k' + 1
      → k ≢ k'
      → suc k' < 2 ^ 25
      → Ticket t push pop k (suc n) c pushing written read popping
  use_pop_other k' c at ne fits = record {
    small = omega arith;
    unborn = ground arith;
    in_hand = ground arith;
    placed = ground arith;
    known = v.known;
    ungranted = ground arith;
    waiting = ground arith;
    done = ground arith;
    full = ground arith;
  }
