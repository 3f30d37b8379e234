-- ===== src/Observers/Storing.antt =====
-- With one priority, a call for another slot than the first stores the first slot's observer there.
use thread_pool_exec.Prelude.{
  put, put-same, put-other, put_every, put_cases, subst, ℕ, ◌<◌, ◌≡◌, ◌≢◌, ◌∙◌, sym, ap, refl, Bool,
  inl, inr,
}
use thread_pool_exec.Observers.{slot, storing, returned, Observers}
use thread_pool_exec.Observers.Defs.{home, Placed, Inv, Placed-later}

module _ (single : Bool) (t : ℕ) (w : Observers) (v : Inv single w) (k p : ℕ)
    (at : w.threads t ≡ storing k p) where
  stored : Placed single w.slots w.owner t (storing k p)
  stored = subst (Placed single w.slots w.owner t) at (v.placed t)

  first_home : (j : ℕ) → home single j ≡ 0
  first_home j = rw (stored.0) refl

  -- What a slot shows, if it shows anything.
  shown_everywhere : (j : ℕ) → w.slots j ≢ 0 → w.slots j ≡ p
  shown_everywhere j full = (v.slot_owned j full).0 ∙ ap w.slots (first_home j) ∙ stored.3

  put_stays : (j : ℕ) → w.slots j ≢ 0 → put w.slots k p j ≡ w.slots j
  put_stays j full = elim (put_cases w.slots k p j) [
    | inl (same, e) ↦ e ∙ sym (shown_everywhere j full)
    | inr (other, e) ↦ e
  ]

  put_first : put w.slots k p 0 ≡ p
  put_first = elim (put_cases w.slots k p 0) [ inl (same, e) ↦ e | inr (other, e) ↦ e ∙ stored.3 ]

  first_full : w.slots 0 ≢ 0
  first_full z = stored.2 (sym (stored.3) ∙ z)

  owned_first : w.owner p ≡ slot 0
  owned_first = ap w.owner (sym (stored.3)) ∙ (v.slot_owned 0 first_full).1 ∙ ap slot (first_home 0)

  shown_after : (j : ℕ) → put w.slots k p j ≢ 0 → (put w.slots k p j ≡ p) × (j < 256)
  shown_after j full = elim (put_cases w.slots k p j) [
    | inl (same, e) ↦ (e, rw same (stored.1))
    | inr (other, e) ↦
        let full' : w.slots j ≢ 0 = λ z. full (e ∙ z) in
        (e ∙ shown_everywhere j full', (v.slot_owned j full').2)
  ]

  pub stored-Inv :
      Inv single (record w { slots = put w.slots k p; threads = put w.threads t (returned k p) })
  stored-Inv = record {
    slot_owned = λ j full.
        let (shown, few) = shown_after j full in
        (
          shown ∙ sym (ap (put w.slots k p) (first_home j) ∙ put_first),
          ap w.owner shown ∙ owned_first ∙ ap slot (sym (first_home j)),
          few,
        );
    owned_slot = λ q j mine.
        let (shown, real) = v.owned_slot q j mine in
        (put_stays j (λ z. real (sym shown ∙ z)) ∙ shown, real);
    owned_call = λ q u theirs.
        let (j, there, at') = v.owned_call q u theirs in
        let apart : u ≢ t = λ same. absurd (cc (ap w.threads same, at, at')) in
        (j, there, put-other w.threads t u (returned k p) apart ∙ at');
    placed =
        put_every (Placed single (put w.slots k p) w.owner) w.threads t (returned k p)
          (stored.2, put-same w.slots k p)
          (λ u other.
            Placed-later single {slots = w.slots} {owner = w.owner} (w.threads u) put_stays
              (λ q theirs. theirs) (v.placed u));
  }
