-- ===== src/WorkerIds/Laws.antt =====
-- While a KeepAlive lives, the threads that it lists have not exited.
use thread_pool_exec.Prelude.{
  put, put-other, put_every, put_cases, subst, ℕ, ◌≡◌, ◌≢◌, ◌⊎◌, ◌∙◌, sym, ap, refl, Bool, true,
  false, inl, inr,
}
use thread_pool_exec.WorkerIds.{
  Worker, added, erased, gone, Collector, idle, locked, collected, Provider, add_tid, erase_tid,
  Step, add, erase, exit, lock, collect, release, Reach, here, next, nobody_yet,
}

-- A thread that has been added and is not past its removal.
abbrev pub Present : Worker → Type 0
Present w = (w ≡ added) ⊎ (w ≡ erased)

abbrev pub Lists : (ℕ → Worker) → Collector → Type 0
Lists workers idle = Unit {0}
Lists workers locked = Unit {0}
Lists workers (collected ids) = (tid : ℕ) → ids tid ≡ true → Present (workers tid)

record Inv (p : Provider) : Type 0 where
  known : (tid : ℕ) → p.os_thread_ids tid ≡ true → p.workers tid ≡ added
  listed : (g : ℕ) → Lists p.workers (p.collectors g)

Lists-later :
    {workers workers' : ℕ → Worker} (c : Collector)
    → ((tid : ℕ) → Present (workers tid) → Present (workers' tid))
    → Lists workers c
    → Lists workers' c
Lists-later idle stays l = l
Lists-later locked stays l = l
Lists-later (collected ids) stays l = λ tid e. stays tid (l tid e)

put-Present :
    (workers : ℕ → Worker) (tid : ℕ) (w : Worker)
    → Present w
    → (t : ℕ) → Present (workers t)
    → Present (put workers tid w t)
put-Present workers tid w now t before = elim (put_cases workers tid w t) [
  | inl (same, e) ↦ subst Present (sym e) now
  | inr (other, e) ↦ subst Present (sym e) before
]

Step-Inv : {p q : Provider} → Inv p → Step p q → Inv q
unfolding add_tid erase_tid
Step-Inv {p} v (add tid new) = record {
  known = λ t e. elim (put_cases p.workers tid added t) [
    | inl (same, e') ↦ e'
    | inr (other, e') ↦ e' ∙ v.known t (sym (put-other p.os_thread_ids tid t true other) ∙ e)
  ];
  listed = λ g.
      Lists-later {workers = p.workers} (p.collectors g)
        (put-Present p.workers tid added (inl refl)) (v.listed g);
}
Step-Inv {p} v (erase tid at) = record {
  known = λ t e. elim (put_cases p.os_thread_ids tid false t) [
    | inl (same, e') ↦ absurd (cc (e, e'))
    | inr (other, e') ↦ put-other p.workers tid t erased other ∙ v.known t (sym e' ∙ e)
  ];
  listed = λ g.
      Lists-later {workers = p.workers} (p.collectors g)
        (put-Present p.workers tid erased (inr refl)) (v.listed g);
}
Step-Inv {p} v (exit tid at none_holds) = record {
  known = λ t e.
      let apart : t ≢ tid = λ same. absurd (cc (v.known t e, ap p.workers same, at)) in
      put-other p.workers tid t gone apart ∙ v.known t e;
  listed = λ g. subst (Lists (put p.workers tid gone)) (sym (none_holds g)) tt;
}
Step-Inv {p} v (lock g at) = record {
  known = v.known;
  listed = put_every (λ _. Lists p.workers) p.collectors g locked tt (λ h other. v.listed h);
}
Step-Inv {p} v (collect g at) = record {
  known = v.known;
  listed =
      put_every (λ _. Lists p.workers) p.collectors g (collected p.os_thread_ids)
        (λ tid e. inl (v.known tid e)) (λ h other. v.listed h);
}
Step-Inv {p} v (release g at) = record {
  known = v.known;
  listed = put_every (λ _. Lists p.workers) p.collectors g idle tt (λ h other. v.listed h);
}

Reach-Inv : {p : Provider} → Reach nobody_yet p → Inv p
Reach-Inv here = record { known = λ tid e. absurd (cc e); listed = λ g. tt }
Reach-Inv (next r s) = Step-Inv (Reach-Inv r) s

-- However threads come, go and collect ids: as long as the KeepAlive that `collectThreadIds` returned
-- is not destroyed, each thread whose id came with it has been added and has not returned from
-- `removeTid`.
pub Reach-Present :
    {p : Provider} (g tid : ℕ) {ids : ℕ → Bool}
    → Reach nobody_yet p
    → p.collectors g ≡ collected ids
    → ids tid ≡ true
    → Present (p.workers tid)
Reach-Present {p} g tid r at e = subst (Lists p.workers) at ((Reach-Inv r).listed g) tid e
