-- ===== src/Observers/Destructor.antt =====
-- The destructor of CPUThreadPoolExecutor deletes every observer, and none twice.
use thread_pool_exec.Prelude.{
  put, put-same, put-other, put_cases, ℕ, zero, suc, ◌<◌, ◌≤◌, ◌≡◌, ◌≢◌, ◌⊎◌, ◌∙◌, sym, ap, refl,
  arith, Bool, true, false, some, ◌==◌, inl, inr, ℕ_discrete,
}
use thread_pool_exec.Observers.{
  Owner, nobody, caller, slot, idle, Observers, Reach, none_made, is_nobody, delete, delete_slots,
  destroy,
}
use thread_pool_exec.Observers.Defs.{Inv}
use thread_pool_exec.Observers.Laws.{Reach-Inv}

Owner-cases : (o : Owner) → (o ≡ nobody) ⊎ (((t : ℕ) × (o ≡ caller t)) ⊎ ((i : ℕ) × (o ≡ slot i)))
Owner-cases nobody = inl refl
Owner-cases (caller t) = inr (inl (t, refl))
Owner-cases (slot i) = inr (inr (i, refl))

delete-shown :
    (p i : ℕ) (owner : ℕ → Owner)
    → p ≢ 0
    → owner p ≡ slot i
    → delete p (some owner) ≡ some (put owner p nobody)
unfolding delete is_nobody
delete-shown p i owner real owned = let e : (p == 0) ≡ false = ground arith in rw (e, owned) refl

delete-null : (p : ℕ) (owner : ℕ → Owner) → p ≡ 0 → delete p (some owner) ≡ some owner
unfolding delete
delete-null p owner null = rw null refl

put-nobody : (owner : ℕ → Owner) (s p : ℕ) → owner p ≡ nobody → put owner s nobody p ≡ nobody
put-nobody owner s p free = elim (put_cases owner s nobody p) [
  | inl (same, e) ↦ e
  | inr (other, e) ↦ e ∙ free
]

module _ (w : Observers) where
  -- After the first `n` slots are deleted.
  record Deleted (n : ℕ) (o : ℕ → Owner) : Type 0 where
    gone : (p i : ℕ) → w.owner p ≡ slot i → i < n → o p ≡ nobody
    kept : (p i : ℕ) → w.owner p ≡ slot i → n ≤ i → o p ≡ slot i
    free : (p : ℕ) → w.owner p ≡ nobody → o p ≡ nobody

  delete_slots-Deleted :
      Inv false w
      → (n : ℕ) → (o : ℕ → Owner) × (delete_slots w.slots n (some w.owner) ≡ some o) × Deleted n o
  unfolding delete_slots
  delete_slots-Deleted v zero = (
    w.owner,
    refl,
    record {
      gone = λ p i owned less. absurd (omega arith);
      kept = λ p i owned at. owned;
      free = λ p e. e;
    },
  )
  delete_slots-Deleted v (suc n) =
      let (o, e, d) = delete_slots-Deleted v n in
      elim (ℕ_discrete (w.slots n) 0) [
        | yes null ↦ (
          o,
          rw e (delete-null (w.slots n) o null),
          record {
            gone = λ p i owned less. elim (ℕ_discrete i n) [
              | yes same ↦
                  let (shown, real) = v.owned_slot p i owned in
                  absurd (real (sym shown ∙ ap w.slots same ∙ null))
              | no other ↦ d.gone p i owned (omega arith)
            ];
            kept = λ p i owned at. d.kept p i owned (omega arith);
            free = d.free;
          },
        )
        | no full ↦
            let owned_here : w.owner (w.slots n) ≡ slot n = (v.slot_owned n full).1 in
            (
              put o (w.slots n) nobody,
              rw e (
                  delete-shown (w.slots n) n o full
                    (d.kept (w.slots n) n owned_here (omega arith))),
              record {
                gone = λ p i owned less. elim (ℕ_discrete i n) [
                  | yes same ↦
                      let shown : w.slots n ≡ p =
                        ap w.slots (sym same) ∙ (v.owned_slot p i owned).0 in
                      ap (put o (w.slots n) nobody) (sym shown) ∙ put-same o (w.slots n) nobody
                  | no other ↦ put-nobody o (w.slots n) p (d.gone p i owned (omega arith))
                ];
                kept = λ p i owned at.
                    let apart : p ≢ w.slots n = λ same.
                      let clash : slot i ≡ slot n = sym owned ∙ ap w.owner same ∙ owned_here in
                      let one : i ≡ n = cc clash in omega arith in
                    put-other o (w.slots n) p nobody apart ∙ d.kept p i owned (omega arith);
                free = λ p e'. put-nobody o (w.slots n) p (d.free p e');
              },
            )
      ]

  -- No call is under way.
  no_caller :
      {single : Bool}
      → Inv single w
      → ((t : ℕ) → w.threads t ≡ idle)
      → (p t : ℕ) → w.owner p ≢ caller t
  no_caller v rest p t theirs =
      let (i, back, at) = v.owned_call p t theirs in absurd (cc (rest t, at))

  destroy_single :
      Inv true w
      → ((t : ℕ) → w.threads t ≡ idle)
      → (o : ℕ → Owner) × (destroy true w ≡ some o) × ((p : ℕ) → o p ≡ nobody)
  unfolding destroy
  destroy_single v rest = elim (ℕ_discrete (w.slots 0) 0) [
    | yes null ↦ (
      w.owner,
      delete-null (w.slots 0) w.owner null,
      λ p. elim (Owner-cases (w.owner p)) [
        | inl e ↦ e
        | inr (inl (t, e)) ↦ absurd (no_caller v rest p t e)
        | inr (inr (i, e)) ↦
            let (shown, real) = v.owned_slot p i e in
            let (same, owned, few) = v.slot_owned i (λ z. real (sym shown ∙ z)) in
            absurd (real (sym shown ∙ same ∙ null))
      ],
    )
    | no full ↦ (
      put w.owner (w.slots 0) nobody,
      delete-shown (w.slots 0) 0 w.owner full ((v.slot_owned 0 full).1),
      λ p. elim (Owner-cases (w.owner p)) [
        | inl e ↦ put-nobody w.owner (w.slots 0) p e
        | inr (inl (t, e)) ↦ absurd (no_caller v rest p t e)
        | inr (inr (i, e)) ↦
            let (shown, real) = v.owned_slot p i e in
            let (same, owned, few) = v.slot_owned i (λ z. real (sym shown ∙ z)) in
            ap (put w.owner (w.slots 0) nobody) (sym shown ∙ same)
            ∙ put-same w.owner (w.slots 0) nobody
      ],
    )
  ]

  destroy_several :
      Inv false w
      → ((t : ℕ) → w.threads t ≡ idle)
      → (o : ℕ → Owner) × (destroy false w ≡ some o) × ((p : ℕ) → o p ≡ nobody)
  unfolding destroy
  destroy_several v rest =
      let (o, e, d) = delete_slots-Deleted v 256 in
      (
        o,
        e,
        λ p. elim (Owner-cases (w.owner p)) [
          | inl e' ↦ d.free p e'
          | inr (inl (t, e')) ↦ absurd (no_caller v rest p t e')
          | inr (inr (i, e')) ↦
              let (shown, real) = v.owned_slot p i e' in
              d.gone p i e' ((v.slot_owned i (λ z. real (sym shown ∙ z))).2)
        ],
      )

-- However calls interleaved, once they have all ended the destructor deletes every observer that the
-- factory made and no call has deleted, and no observer that is not alive.
pub destroy-nobody :
    (single has_factory : Bool) {w : Observers}
    → Reach single has_factory none_made w
    → ((t : ℕ) → w.threads t ≡ idle)
    → (o : ℕ → Owner) × (destroy single w ≡ some o) × ((p : ℕ) → o p ≡ nobody)
destroy-nobody true has_factory {w} r rest = destroy_single w (Reach-Inv true has_factory r) rest
destroy-nobody false has_factory {w} r rest = destroy_several w (Reach-Inv false has_factory r) rest
