-- ===== src/Observers/Laws.antt =====
-- All calls for one priority are given the same observer, and the destructor deletes every observer
-- once.
use thread_pool_exec.Prelude.{
  subst, ℕ, ◌<◌, ◌≡◌, ◌≢◌, ◌∙◌, sym, ap, refl, arith, Bool, true, false, Option, some, ◌==◌,
  Bool-cases, inl, inr, ◌⊎◌, ℕ_discrete, not, ◌&&◌, ℤ, pos, negsuc,
}
use thread_pool_exec.Priority.Order.{IsInt8}
use thread_pool_exec.Observers.{
  Owner, nobody, slot, Asking, idle, no_factory, looking, offering, storing, returned, Observers,
  to_unsigned, begin, finish, look, offer, store, next_access, Step, call, run, leave, Reach, here,
  next, none_made,
}
use thread_pool_exec.Observers.Defs.{home, Back, Placed, Inv}
use thread_pool_exec.Observers.Steps.{
  Back-small, finish-Placed, moved-Inv, created-Inv, published-Inv, refused-Inv,
}
use thread_pool_exec.Observers.Storing.{stored-Inv}

to_unsigned_bound : (pri : ℤ) → IsInt8 pri → to_unsigned pri < 256
unfolding to_unsigned
to_unsigned_bound (pos n) v = ground (arith, v.below)
to_unsigned_bound (negsuc n) v = omega arith

module _ (single : Bool) where
  look-Inv :
      (new t i : ℕ) (back : Option ℕ) (w : Observers)
      → Inv single w
      → new ≢ 0
      → w.owner new ≡ nobody
      → w.threads t ≡ looking i back
      → Inv single (look single new t i back w)
  unfolding look
  look-Inv new t i back w v real fresh at =
      let good : Back single i back = subst (Placed single w.slots w.owner t) at (v.placed t) in
      let free : (j p : ℕ) (b : Option ℕ) → w.threads t ≢ offering j p b =
        λ j p b at'. absurd (cc (at, at')) in
      elim (Bool-cases (w.slots i == 0)) [
        | inl empty ↦ elim (Bool-cases (single && not (i == 0))) [
          | inl shared ↦
              rw (empty, shared)
                (moved-Inv single t w v (looking 0 (some i))
                  (ground arith, refl, Back-small single i back good) free)
          | inr own ↦
              rw (empty, own) (created-Inv single t w v new i back real fresh (ground arith) at)
        ]
        | inr full ↦ rw full (
            moved-Inv single t w v (finish i (w.slots i) back)
              (finish-Placed single w.slots w.owner t i (w.slots i) back good (ground arith) refl)
              free)
      ]

  next_access-Inv :
      (new t : ℕ) (q : Asking) (w : Observers)
      → Inv single w
      → new ≢ 0
      → w.owner new ≡ nobody
      → w.threads t ≡ q
      → Inv single (next_access single new t q w)
  unfolding next_access offer store
  next_access-Inv new t idle w v real fresh at = v
  next_access-Inv new t no_factory w v real fresh at = v
  next_access-Inv new t (looking i back) w v real fresh at = look-Inv new t i back w v real fresh at
  next_access-Inv new t (offering i p back) w v real fresh at = elim (Bool-cases (w.slots i == 0)) [
    | inl empty ↦ rw empty (published-Inv single t w v i p back at (ground arith))
    | inr taken ↦ rw taken (refused-Inv single t w v i p back at (ground arith))
  ]
  next_access-Inv new t (storing i p) w v real fresh at = stored-Inv single t w v i p at
  next_access-Inv new t (returned i p) w v real fresh at = v

  begin-Placed :
      (has_factory : Bool) (pri : ℤ) (slots : ℕ → ℕ) (owner : ℕ → Owner) (t : ℕ)
      → IsInt8 pri
      → Placed single slots owner t (begin has_factory pri)
  unfolding begin
  begin-Placed true pri slots owner t small = to_unsigned_bound pri small
  begin-Placed false pri slots owner t small = tt

  Step-Inv :
      (has_factory : Bool) {w w' : Observers}
      → Inv single w
      → Step single has_factory w w'
      → Inv single w'
  Step-Inv has_factory {w} v (call t pri small at) =
      moved-Inv single t w v (begin has_factory pri)
        (begin-Placed has_factory pri w.slots w.owner t small) (λ i p b at'. absurd (cc (at, at')))
  Step-Inv has_factory {w} v (run t new real fresh) =
      next_access-Inv new t (w.threads t) w v real fresh refl
  Step-Inv has_factory {w} v (leave t at) =
      moved-Inv single t w v idle tt (λ i p b at'. absurd (cc (at, at')))

  pub Reach-Inv :
      (has_factory : Bool) {w : Observers} → Reach single has_factory none_made w → Inv single w
  Reach-Inv has_factory here = record {
    slot_owned = λ i full. absurd (full refl);
    owned_slot = λ p i e. absurd (cc e);
    owned_call = λ p t e. absurd (cc e);
    placed = λ t. tt;
  }
  Reach-Inv has_factory (next r s) = Step-Inv has_factory (Reach-Inv has_factory r) s

  -- However calls interleave, two calls that have returned observers were given the same one just if
  -- they asked for the same slot or there is one priority; it is alive, and the destructor is to
  -- delete it.
  pub Reach-same :
      (has_factory : Bool) {w : Observers} (t u : ℕ) {i j p q : ℕ}
      → Reach single has_factory none_made w
      → w.threads t ≡ returned i p
      → w.threads u ≡ returned j q
      → (w.owner p ≡ slot (home single i))
        × (((p ≡ q) × (home single i ≡ home single j))
            ⊎ ((p ≢ q) × (home single i ≢ home single j)))
  Reach-same has_factory {w} t u {i} {j} {p} {q} r at at' =
      let v = Reach-Inv has_factory r in
      let (real, shown) : Placed single w.slots w.owner t (returned i p) =
        subst (Placed single w.slots w.owner t) at (v.placed t) in
      let (real', shown') : Placed single w.slots w.owner u (returned j q) =
        subst (Placed single w.slots w.owner u) at' (v.placed u) in
      let (same, owned, few) = v.slot_owned i (λ z. real (sym shown ∙ z)) in
      let (same', owned', few') = v.slot_owned j (λ z. real' (sym shown' ∙ z)) in
      (
        ap w.owner (sym shown) ∙ owned,
        elim (ℕ_discrete (home single i) (home single j)) [
          | yes one ↦ inl (sym shown ∙ same ∙ ap w.slots one ∙ sym same' ∙ shown', one)
          | no two ↦ inr ((λ e. two (cc (owned, owned', ap w.owner (shown ∙ e ∙ sym shown')))), two)
        ],
      )
