-- ===== src/Observers/Steps.antt =====
-- Every access of `getQueueObserver` keeps what holds of the observers.
use thread_pool_exec.Prelude.{
  put, put-same, put-other, put_every, put_cases, subst, ℕ, ◌<◌, ◌≡◌, ◌≢◌, ◌∙◌, sym, ap, refl,
  arith, Bool, Option, none, some, inl, inr,
}
use thread_pool_exec.Observers.{
  Owner, nobody, caller, slot, Asking, looking, offering, Observers, finish,
}
use thread_pool_exec.Observers.Defs.{home, Back, Placed, Inv, Placed-later}

pub Back-small : (single : Bool) (i : ℕ) (back : Option ℕ) → Back single i back → i < 256
Back-small single i none few = few
Back-small single i (some k) (one, first, few) = omega arith

pub finish-Placed :
    (single : Bool) (slots : ℕ → ℕ) (owner : ℕ → Owner) (t i q : ℕ) (back : Option ℕ)
    → Back single i back
    → q ≢ 0
    → slots i ≡ q
    → Placed single slots owner t (finish i q back)
unfolding finish
finish-Placed single slots owner t i q none few real shown = (real, shown)
finish-Placed single slots owner t i q (some k) (one, first, few) real shown =
    (one, few, real, ap slots (sym first) ∙ shown)

module _ (single : Bool) (t : ℕ) (w : Observers) (v : Inv single w) where
  -- A call that moves on without a store.
  pub moved-Inv :
      (q : Asking)
      → Placed single w.slots w.owner t q
      → ((i p : ℕ) (back : Option ℕ) → w.threads t ≢ offering i p back)
      → Inv single (record w { threads = put w.threads t q })
  moved-Inv q good free = record {
    slot_owned = v.slot_owned;
    owned_slot = v.owned_slot;
    owned_call = λ p u mine.
        let (i, back, at) = v.owned_call p u mine in
        let other : u ≢ t = λ same. free i p back (ap w.threads (sym same) ∙ at) in
        (i, back, put-other w.threads t u q other ∙ at);
    placed = put_every (Placed single w.slots w.owner) w.threads t q good (λ u other. v.placed u);
  }

  -- A call that has the factory make an observer.
  pub created-Inv :
      (new i : ℕ) (back : Option ℕ)
      → new ≢ 0
      → w.owner new ≡ nobody
      → home single i ≡ i
      → w.threads t ≡ looking i back
      → Inv single (record w {
        threads = put w.threads t (offering i new back);
        owner = put w.owner new (caller t);
      })
  created-Inv new i back real fresh own at =
      let good : Back single i back = subst (Placed single w.slots w.owner t) at (v.placed t) in
      record {
        slot_owned = λ j full.
            let (same, owned, few) = v.slot_owned j full in
            let other : w.slots j ≢ new = λ e. absurd (cc (ap w.owner e, owned, fresh)) in
            (same, put-other w.owner new (w.slots j) (caller t) other ∙ owned, few);
        owned_slot = λ q j e. elim (put_cases w.owner new (caller t) q) [
          | inl (same, e') ↦ absurd (cc (e, e'))
          | inr (other, e') ↦ v.owned_slot q j (sym e' ∙ e)
        ];
        owned_call = λ q u mine. elim (put_cases w.owner new (caller t) q) [
          | inl (same, e') ↦
              let one : u ≡ t = cc (mine, e') in
              (
                i,
                back,
                ap (put w.threads t (offering i new back)) one
                    ∙ put-same w.threads t (offering i new back)
                    ∙ ap (λ p. offering i p back) (sym same),
              )
          | inr (other, e') ↦
              let (j, there, at') = v.owned_call q u (sym e' ∙ mine) in
              let apart : u ≢ t = λ same. absurd (cc (ap w.threads same, at, at')) in
              (j, there, put-other w.threads t u (offering i new back) apart ∙ at')
        ];
        placed =
            put_every (Placed single w.slots (put w.owner new (caller t))) w.threads t
              (offering i new back) (good, own, real, put-same w.owner new (caller t))
              (λ u other.
                Placed-later single {slots = w.slots} {owner = w.owner} (w.threads u)
                  (λ j full. refl)
                  (λ p mine.
                    let apart : p ≢ new = λ same. absurd (cc (ap w.owner same, mine, fresh)) in
                    put-other w.owner new p (caller t) apart ∙ mine)
                  (v.placed u));
      }

  module _ (i p : ℕ) (back : Option ℕ) (at : w.threads t ≡ offering i p back) where
    offered : Placed single w.slots w.owner t (offering i p back)
    offered = subst (Placed single w.slots w.owner t) at (v.placed t)

    -- Another call owns another observer.
    not_ours : (q u : ℕ) → u ≢ t → w.owner q ≡ caller u → q ≢ p
    not_ours q u other mine same = other (cc (ap w.owner same, mine, offered.3))

    not_shown : (j : ℕ) {k : ℕ} → w.owner (w.slots j) ≡ slot k → w.slots j ≢ p
    not_shown j owned same = absurd (cc (ap w.owner same, owned, offered.3))

    -- A call whose observer goes into the slot.
    pub published-Inv :
        w.slots i ≡ 0
        → Inv single (record {
          slots = put w.slots i p;
          owner = put w.owner p (slot i);
          threads = put w.threads t (finish i p back);
        })
    published-Inv empty =
        let (good, own, real, mine) = offered in
        record {
          slot_owned = λ j full. elim (put_cases w.slots i p j) [
            | inl (same, shown) ↦
                let at_home : home single j ≡ i = ap (home single) same ∙ own in
                (
                  shown ∙ sym (ap (put w.slots i p) at_home ∙ put-same w.slots i p),
                  ap (put w.owner p (slot i)) shown
                      ∙ put-same w.owner p (slot i)
                      ∙ ap slot (sym at_home),
                  rw same (Back-small single i back good),
                )
            | inr (other, e') ↦
                let full' : w.slots j ≢ 0 = λ z. full (e' ∙ z) in
                let (same, owned, few) = v.slot_owned j full' in
                let away : home single j ≢ i = λ h. full' (same ∙ ap w.slots h ∙ empty) in
                (
                  e' ∙ same ∙ sym (put-other w.slots i (home single j) p away),
                  ap (put w.owner p (slot i)) e'
                      ∙ put-other w.owner p (w.slots j) (slot i) (not_shown j owned)
                      ∙ owned,
                  few,
                )
          ];
          owned_slot = λ q j e. elim (put_cases w.owner p (slot i) q) [
            | inl (same, e') ↦
                let one : j ≡ i = cc (e, e') in
                (
                  ap (put w.slots i p) one ∙ put-same w.slots i p ∙ sym same,
                  λ z. real (cc (same, z)),
                )
            | inr (other, e') ↦
                let (shown, full) = v.owned_slot q j (sym e' ∙ e) in
                let apart : j ≢ i = λ same. absurd (full (cc (shown, ap w.slots same, empty))) in
                (put-other w.slots i j p apart ∙ shown, full)
          ];
          owned_call = λ q u theirs. elim (put_cases w.owner p (slot i) q) [
            | inl (same, e') ↦ absurd (cc (theirs, e'))
            | inr (other, e') ↦
                let (j, there, at') = v.owned_call q u (sym e' ∙ theirs) in
                let apart : u ≢ t = λ same. other (cc (ap w.threads same, at, at')) in
                (j, there, put-other w.threads t u (finish i p back) apart ∙ at')
          ];
          placed =
              put_every (Placed single (put w.slots i p) (put w.owner p (slot i))) w.threads t
                (finish i p back)
                (finish-Placed single (put w.slots i p) (put w.owner p (slot i)) t i p back good
                  real (put-same w.slots i p))
                (λ u other.
                  Placed-later single {slots = w.slots} {owner = w.owner} (w.threads u)
                    (λ j full. put-other w.slots i j p (λ same. full (ap w.slots same ∙ empty)))
                    (λ q theirs.
                      put-other w.owner p q (slot i) (not_ours q u other theirs) ∙ theirs)
                    (v.placed u));
        }

    -- A call that comes too late deletes its observer and returns the one in the slot.
    pub refused-Inv :
        w.slots i ≢ 0
        → Inv single (record w {
          owner = put w.owner p nobody;
          threads = put w.threads t (finish i (w.slots i) back);
        })
    refused-Inv taken =
        let (good, own, real, mine) = offered in
        record {
          slot_owned = λ j full.
              let (same, owned, few) = v.slot_owned j full in
              (same, put-other w.owner p (w.slots j) nobody (not_shown j owned) ∙ owned, few);
          owned_slot = λ q j e. elim (put_cases w.owner p nobody q) [
            | inl (same, e') ↦ absurd (cc (e, e'))
            | inr (other, e') ↦ v.owned_slot q j (sym e' ∙ e)
          ];
          owned_call = λ q u theirs. elim (put_cases w.owner p nobody q) [
            | inl (same, e') ↦ absurd (cc (theirs, e'))
            | inr (other, e') ↦
                let (j, there, at') = v.owned_call q u (sym e' ∙ theirs) in
                let apart : u ≢ t = λ same. other (cc (ap w.threads same, at, at')) in
                (j, there, put-other w.threads t u (finish i (w.slots i) back) apart ∙ at')
          ];
          placed =
              put_every (Placed single w.slots (put w.owner p nobody)) w.threads t
                (finish i (w.slots i) back)
                (finish-Placed single w.slots (put w.owner p nobody) t i (w.slots i) back good taken
                  refl)
                (λ u other.
                  Placed-later single {slots = w.slots} {owner = w.owner} (w.threads u)
                    (λ j full. refl)
                    (λ q theirs. put-other w.owner p q nobody (not_ours q u other theirs) ∙ theirs)
                    (v.placed u));
        }
