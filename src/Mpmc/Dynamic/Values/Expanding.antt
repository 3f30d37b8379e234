-- ===== src/Mpmc/Dynamic/Values/Expanding.antt =====
-- The arrays of a growing queue of ThreadPool/MPMCQueue.h once an expansion is published.
use thread_pool_exec.Prelude.{
  ℕ, ◌+◌, ◌≤◌, ◌<◌, ◌≡◌, ◌^◌, Bool, true, Option, none, some, refl, arith, sym, ap, ◌∙◌, max,
  dec_le, leb,
}
use thread_pool_exec.Mpmc.Stride.{compute_stride}
use thread_pool_exec.Mpmc.Tickets.Scalar.{Ticket}
use thread_pool_exec.Mpmc.Dynamic.{ClosedArray, Dynamic, array_of, get_offset}
use thread_pool_exec.Mpmc.Dynamic.Laws
use thread_pool_exec.Mpmc.Dynamic.Expand.{expanded, expanded-array_of, expanded-Inv, packed}
use thread_pool_exec.Mpmc.Dynamic.Values.{Unused}
use thread_pool_exec.Mpmc.Dynamic.Values.Using.{AllSound, Distinct}

-- A ticket that is untouched has that standing in whatever empty slot it is to go to.
pub anywhere :
    {T : Type 0} {t push pop : ℕ} {pushing written read : Option T} {popping : Bool} (k : ℕ)
    → Ticket t push pop 0 0 none pushing written read popping
    → Ticket t push pop k 0 none pushing written read popping
anywhere k v = record {
  small = omega arith;
  unborn = λ h. ((v.unborn h).0, omega arith);
  in_hand = λ x h. (omega arith, (v.in_hand x h).1);
  placed = λ h e. absurd (omega (arith, v.placed h e));
  known = v.known;
  ungranted = λ h. ((v.ungranted h).0, omega arith);
  waiting = λ h. omega arith;
  done = λ h e. absurd (omega (arith, (v.done h e).0));
  full = λ h. absurd (omega arith);
}

-- The arrays of a queue that has been expanded: those that it had, for earlier tickets, and the new
-- one, for later tickets.
module _ (name p q : ℕ) (d : Dynamic) (shape : Laws.Inv d) (small : 1 + max p q < 2 ^ 58)
    (less : d.dcapacity < d.capacity) where
  abbrev pub after : Dynamic
  after = expanded name p q d shape small less

  abbrev pub newest : ClosedArray
  newest = record {
    offset = 1 + max p q;
    slots = name;
    capacity = after.dcapacity;
    stride = compute_stride after.dcapacity;
  }

  later_array : (t : ℕ) → 1 + max p q ≤ t → array_of t after ≡ some newest
  unfolding array_of
  later_array t le =
      let offset : get_offset after.dstate ≡ 1 + max p q = (packed name p q d shape small less).0 in
      let current : leb (1 + max p q) t ≡ true = ground arith in rw (offset, current) refl

  pub data Origin (t : ℕ) (a : ClosedArray) : Type 0 where
    earlier : t < 1 + max p q → array_of t d ≡ some a → Origin t a
    later : 1 + max p q ≤ t → a ≡ newest → Origin t a

  pub origin : (t : ℕ) (a : ClosedArray) → array_of t after ≡ some a → Origin t a
  origin t a at = elim (dec_le (1 + max p q) t) [
    | yes le ↦ later le (cc (later_array t le, at))
    | no lt ↦
        earlier (omega arith)
          (sym (expanded-array_of name p q d shape small less t (omega arith)) ∙ at)
  ]

  pub after-AllSound : AllSound d → AllSound after
  after-AllSound sound t a at = elim (origin t a at) [
    | earlier lt from ↦ sound t a from
    | later le eq ↦ rw eq (record {
      starts = le;
      some_slot = (expanded-Inv name p q d shape small less).some_slot;
      strided = refl;
    })
  ]

  pub after-Distinct : (Unused name d) → Distinct d → Distinct after
  after-Distinct unused distinct t u a b at at' one = elim (origin t a at) [
    | earlier lt from ↦ elim (origin u b at') [
      | earlier lt' from' ↦ distinct t u a b from from' one
      | later le' eq' ↦ absurd (unused t a from (one ∙ ap (λ (c : ClosedArray). c.slots) eq'))
    ]
    | later le eq ↦ elim (origin u b at') [
      | earlier lt' from' ↦
          absurd (unused u b from' (sym one ∙ ap (λ (c : ClosedArray). c.slots) eq))
      | later le' eq' ↦ eq ∙ sym eq'
    ]
  ]
