-- ===== src/Executor/Token/Laws.antt =====
-- Every call of `keepAliveAcquire` that returned true belongs to one KeepAlive object, and every
-- such object to one call.
use thread_pool_exec.Prelude.{
  ℕ, ◌+◌, ◌%◌, ◌≡◌, ◌≢◌, Bool, some, List, get_elem?, set, arith, sym, ◌∙◌, ℕ_discrete,
  get_elem?-set_ne, Option-cases, inl, inr,
}
use thread_pool_exec.Executor.Token.{
  get, flags, is_keep_alive_dummy, get_alias, Tokens, get_keep_alive_token, copy, reset, Use,
  make_empty, make_from, copy_construct, move_construct, copy_member, alias, move_assign,
  copy_assign, reset_at, append, assign_moved, perform,
}
use thread_pool_exec.Executor.Token.Counted.{
  own, owners, owners-append, owners-set, Balanced, Aligned, reset_counted, token_counted,
  copy_counted, get_elem?-own, get_elem?-set,
}

-- What an operation does to the count of one executor.
module _ (supports : ℕ → Bool) (x : ℕ) (aligned : x % 4 ≡ 0) (real : x ≢ 0) where
  abbrev Even : Tokens → Type 0
  Even w = w.acquired x ≡ owners x w.storages

  appended :
      (p : ℕ × (ℕ → ℕ)) (ss : List ℕ) → p.1 x ≡ owners x ss + own x (p.0) → Even (append p ss)
  unfolding append
  appended (s, acquired) ss h = omega (arith, h, owners-append x s ss)

  left_unowned : (s : ℕ) (acquired : ℕ → ℕ) → own x (reset s acquired).0 ≡ 0
  unfolding reset get flags
  left_unowned s acquired = ground arith

  -- An object is reset, and holds nothing then.
  dropped :
      (i : ℕ) (acquired : ℕ → ℕ) (ss : List ℕ) {s : ℕ}
      → get_elem? ss i ≡ some s
      → acquired x ≡ owners x ss
      → (reset s acquired).1 x ≡ owners x (set ss i (reset s acquired).0)
  dropped i acquired ss {s} at h = omega (
    arith,
    h,
    reset_counted x aligned real s acquired (omega (arith, h, get_elem?-own x ss i at)),
    owners-set x (reset s acquired).0 ss i at,
  )

  -- A value is moved to a place that holds nothing.
  moved :
      (i j left : ℕ) (ss : List ℕ) {theirs : ℕ}
      → get_elem? ss i ≡ some left
      → own x left ≡ 0
      → get_elem? ss j ≡ some theirs
      → owners x (set (set ss j 0) i theirs) ≡ owners x ss
  moved i j left ss {theirs} mine free at =
      let emptied = owners-set x 0 ss j at in
      elim (ℕ_discrete j i) [
        | yes same ↦
            let here : get_elem? (set ss j 0) i ≡ some 0 =
              rw (sym same) (get_elem?-set ss j 0 at) in
            ground (arith, emptied, owners-set x theirs (set ss j 0) i here)
        | no differ ↦
            let here : get_elem? (set ss j 0) i ≡ some left = get_elem?-set_ne ss 0 differ ∙ mine in
            ground (arith, emptied, owners-set x theirs (set ss j 0) i here)
      ]

  assigned : (i j : ℕ) (w : Tokens) {w' : Tokens} → Even w → assign_moved i j w ≡ some w' → Even w'
  unfolding assign_moved
  assigned i j w {w'} h e = elim (Option-cases (get_elem? w.storages i)) [
    | inl nothing ↦ absurd (ground arith)
    | inr (s, mine) ↦
        let left = (reset s w.acquired).0 in
        elim (Option-cases (get_elem? (set w.storages i left) j)) [
          | inl nothing ↦ absurd (ground arith)
          | inr (theirs, at) ↦
              let result : w' ≡ record {
                acquired = (reset s w.acquired).1;
                storages = set (set (set w.storages i left) j 0) i theirs;
              } =
                ground arith in
              rw result (
                dropped i w.acquired w.storages mine h
                ∙ sym (
                    moved i j left (set w.storages i left) (get_elem?-set w.storages i left mine)
                      (left_unowned s w.acquired) at))
        ]
  ]

  performed :
      (u : Use) (w : Tokens) {w' : Tokens}
      → Aligned u
      → Even w
      → perform supports u w ≡ some w'
      → Even w'
  unfolding perform get get_alias
  performed make_empty w {w'} a h e =
      let result : w' ≡ append (0, w.acquired) w.storages = ground arith in
      rw result (appended (0, w.acquired) w.storages (ground arith))
  performed (make_from n) w {w'} a h e =
      let p = get_keep_alive_token supports n w.acquired in
      let result : w' ≡ append p w.storages = ground arith in
      rw result (
        appended p w.storages
          (omega (arith, h, token_counted x aligned real supports n w.acquired a)))
  performed (copy_construct j) w {w'} a h e = elim (Option-cases (get_elem? w.storages j)) [
    | inl nothing ↦ absurd (ground arith)
    | inr (s, at) ↦
        let p = get_keep_alive_token supports (get s) w.acquired in
        let result : w' ≡ append p w.storages = ground arith in
        rw result (
          appended p w.storages (
            omega
              (arith, h, token_counted x aligned real supports (get s) w.acquired (omega arith))))
  ]
  performed (move_construct j) w {w'} a h e = elim (Option-cases (get_elem? w.storages j)) [
    | inl nothing ↦ absurd (ground arith)
    | inr (s, at) ↦
        let result : w' ≡ append (s, w.acquired) (set w.storages j 0) = ground arith in
        rw result (
          appended (s, w.acquired) (set w.storages j 0)
            (ground (arith, h, owners-set x 0 w.storages j at)))
  ]
  performed (copy_member j) w {w'} a h e = elim (Option-cases (get_elem? w.storages j)) [
    | inl nothing ↦ absurd (ground arith)
    | inr (s, at) ↦
        let p = copy supports s w.acquired in
        let result : w' ≡ append p w.storages = ground arith in
        rw result (
          appended p w.storages
            (omega (arith, h, copy_counted x aligned real supports s w.acquired)))
  ]
  performed (alias j) w {w'} a h e = elim (Option-cases (get_elem? w.storages j)) [
    | inl nothing ↦ absurd (ground arith)
    | inr (s, at) ↦
        let result : w' ≡ append (get_alias s, w.acquired) w.storages = ground arith in
        rw result (appended (get_alias s, w.acquired) w.storages (ground arith))
  ]
  performed (move_assign i j) w a h e = assigned i j w h e
  performed (copy_assign i j) w {w'} a h e = elim (Option-cases (get_elem? w.storages j)) [
    | inl nothing ↦ absurd (ground arith)
    | inr (s, at) ↦
        let p = get_keep_alive_token supports (get s) w.acquired in
        let token = token_counted x aligned real supports (get s) w.acquired (omega arith) in
        elim (Option-cases (get_elem? w.storages i)) [
          | inl nothing ↦ absurd (ground arith)
          | inr (mine, here) ↦
              let left = (reset mine (p.1)).0 in
              let result : w' ≡ record {
                acquired = (reset mine (p.1)).1;
                storages = set (set w.storages i left) i (p.0);
              } =
                ground arith in
              rw result (
                omega (
                  arith,
                  h,
                  token,
                  reset_counted x aligned real mine (p.1)
                      (omega (arith, h, token, get_elem?-own x w.storages i here)),
                  owners-set x left w.storages i here,
                  owners-set x (p.0) (set w.storages i left) i
                      (get_elem?-set w.storages i left here),
                  left_unowned mine (p.1),
                ))
        ]
  ]
  performed (reset_at i) w {w'} a h e = elim (Option-cases (get_elem? w.storages i)) [
    | inl nothing ↦ absurd (ground arith)
    | inr (s, at) ↦
        let result : w' ≡ record {
          acquired = (reset s w.acquired).1;
          storages = set w.storages i (reset s w.acquired).0;
        } =
          ground arith in
        rw result (dropped i w.acquired w.storages at h)
  ]

-- Whatever a program does with its KeepAlive objects (making, copying, moving, also onto themselves,
-- aliasing, resetting and destroying them), each executor has been acquired, and not released again,
-- once for each object that holds it without a flag; so once they are gone, as often as not at all.
pub perform-Balanced :
    (supports : ℕ → Bool) (u : Use) (w : Tokens) {w' : Tokens}
    → Aligned u
    → Balanced w
    → perform supports u w ≡ some w'
    → Balanced w'
perform-Balanced supports u w a h e x aligned real =
    performed supports x aligned real u w a (h x aligned real) e

-- A copy, an alias and a new token are all of the executor of the object they are made from; an
-- alias is a dummy exactly if that object is; and an alias may be reset with no effect on any count.
pub same_executor :
    (supports : ℕ → Bool) (s : ℕ) (acquired : ℕ → ℕ)
    → (get (copy supports s acquired).0 ≡ get s)
      × (get (get_keep_alive_token supports (get s) acquired).0 ≡ get s)
      × (get (get_alias s) ≡ get s)
      × (is_keep_alive_dummy (get_alias s) ≡ is_keep_alive_dummy s)
      × ((reset (get_alias s) acquired).1 ≡ acquired)
unfolding get get_alias copy get_keep_alive_token is_keep_alive_dummy reset flags
same_executor supports s acquired =
    (ground arith, ground arith, ground arith, ground arith, ground arith)
