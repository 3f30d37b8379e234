-- ===== src/Observers/Defs.antt =====
-- What holds of the observers of CPUThreadPoolExecutor between the accesses of the threads.
use thread_pool_exec.Prelude.{ℕ, ◌<◌, ◌≡◌, ◌≢◌, ◌∙◌, Bool, true, Option, none, some, if◌then◌else◌}
use thread_pool_exec.Observers.{
  Owner, caller, slot, Asking, idle, no_factory, looking, offering, storing, returned, Observers,
}

module _ (single : Bool) where
  -- The slot whose observer a slot shows.
  abbrev pub home : ℕ → ℕ
  home i = if single then 0 else i

  abbrev pub Back : ℕ → Option ℕ → Type 0
  Back i none = i < 256
  Back i (some k) = (single ≡ true) × (i ≡ 0) × (k < 256)

  abbrev pub Placed : (ℕ → ℕ) → (ℕ → Owner) → ℕ → Asking → Type 0
  Placed slots owner t idle = Unit {0}
  Placed slots owner t no_factory = Unit {0}
  Placed slots owner t (looking i back) = Back i back
  Placed slots owner t (offering i p back) =
      Back i back × (home i ≡ i) × (p ≢ 0) × (owner p ≡ caller t)
  Placed slots owner t (storing i p) = (single ≡ true) × (i < 256) × (p ≢ 0) × (slots 0 ≡ p)
  Placed slots owner t (returned i p) = (p ≢ 0) × (slots i ≡ p)

  pub record Inv (w : Observers) : Type 0 where
    pub slot_owned :
        (i : ℕ)
        → w.slots i ≢ 0
        → (w.slots i ≡ w.slots (home i)) × (w.owner (w.slots i) ≡ slot (home i)) × (i < 256)
    pub owned_slot : (p i : ℕ) → w.owner p ≡ slot i → (w.slots i ≡ p) × (p ≢ 0)
    pub owned_call :
        (p t : ℕ)
        → w.owner p ≡ caller t
        → (i : ℕ) × (back : Option ℕ) × (w.threads t ≡ offering i p back)
    pub placed : (t : ℕ) → Placed w.slots w.owner t (w.threads t)

  pub Placed-later :
      {slots slots' : ℕ → ℕ} {owner owner' : ℕ → Owner} {t : ℕ} (q : Asking)
      → ((i : ℕ) → slots i ≢ 0 → slots' i ≡ slots i)
      → ((p : ℕ) → owner p ≡ caller t → owner' p ≡ caller t)
      → Placed slots owner t q
      → Placed slots' owner' t q
  Placed-later idle stays keeps v = v
  Placed-later no_factory stays keeps v = v
  Placed-later (looking i back) stays keeps v = v
  Placed-later (offering i p back) stays keeps (b, h, real, mine) = (b, h, real, keeps p mine)
  Placed-later (storing i p) stays keeps (one, few, real, e) =
      (one, few, real, stays 0 (λ z. real (cc (e, z))) ∙ e)
  Placed-later (returned i p) stays keeps (real, e) = (real, stays i (λ z. real (cc (e, z))) ∙ e)
