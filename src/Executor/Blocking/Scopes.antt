-- ===== src/Executor/Blocking/Scopes.antt =====
-- Programs of nested blocks with guards of Executor.h: how they run, and what their blocks should see.
use thread_pool_exec.Prelude.{
  ℕ, ◌+◌, ◌≡◌, Bool, true, false, not, ◌||◌, Option, none, some, List, [], ◌∷◌, ◌++◌, if◌then◌else◌,
  refl,
}
use thread_pool_exec.Executor.Blocking.{
  Context, Blocking, Tag, permit, track, prohibit, or_parent, inherit,
  get_executor_blocking_context, enter, leave,
}

-- Blocks of a program, each with a guard: what is nested in the first, and what follows it.
pub data Scopes : Type 0 where
  end : Scopes
  scope : Tag → Scopes → Scopes → Scopes

module _ (is_mobile : Bool) where
  -- A run with the guards of nested blocks at rising addresses, and the contexts that the blocks see.
  unfoldable pub run : Scopes → ℕ → Blocking → Option (List (Option Context) × Blocking)
  run end address b = some ([], b)
  run (scope tag nested rest) address b =
      let entered = enter is_mobile tag address b in
      elim (run nested (address + 1) entered) [
        | none ↦ none
        | some (inner, b') ↦ elim (leave is_mobile address b') [
          | none ↦ none
          | some b'' ↦ elim (run rest address b'') [
            | none ↦ none
            | some (later, b''') ↦
                some (get_executor_blocking_context is_mobile entered ∷ (inner ++ later), b''')
          ]
        ]
      ]

-- The guards round a place are given innermost first, and `c` is the context outside them all.
-- The first tag that is not empty.
unfoldable pub nearest_tag : Context → List Tag → List ℕ
nearest_tag c [] = c.tag
nearest_tag c (permit ∷ outer) = nearest_tag c outer
nearest_tag c (track _ [] ∷ outer) = nearest_tag c outer
nearest_tag c (track _ (x ∷ xs) ∷ _) = x ∷ xs
nearest_tag c (prohibit _ [] ∷ outer) = nearest_tag c outer
nearest_tag c (prohibit _ (x ∷ xs) ∷ _) = x ∷ xs

-- Whether any of them prohibits.
unfoldable pub terminates : Context → List Tag → Bool
terminates c [] = c.allow_termination_on_blocking
terminates c (prohibit _ _ ∷ _) = true
terminates c (permit ∷ outer) = terminates c outer
terminates c (track _ _ ∷ outer) = terminates c outer

-- What a block sees: nothing on a mobile platform, or where its own guard permits; else its own
-- guard's executor, with the nearest tag.
unfoldable pub seen : Bool → Context → Tag → List Tag → Option Context
unfolding nearest_tag terminates
seen true c tag outer = none
seen false c permit outer = none
seen false c (track ex tag) outer = some (record {
  forbid = true;
  allow_termination_on_blocking = terminates c outer;
  ex = ex;
  tag = nearest_tag c (track ex tag ∷ outer);
})
seen false c (prohibit ex tag) outer = some (record {
  forbid = true;
  allow_termination_on_blocking = true;
  ex = ex;
  tag = nearest_tag c (prohibit ex tag ∷ outer);
})

module _ (is_mobile : Bool) where
  unfoldable pub expected : Scopes → List Tag → Context → List (Option Context)
  unfolding seen
  expected end outer c = []
  expected (scope tag nested rest) outer c =
      seen is_mobile c tag outer ∷ (expected nested (tag ∷ outer) c ++ expected rest outer c)

  abbrev pub shown : Context → Option Context
  shown c = if is_mobile || not c.forbid then none else some c

  -- The same, by the contexts that the constructors make.
  unfoldable pub inherited : Scopes → Context → List (Option Context)
  inherited end c = []
  inherited (scope tag nested rest) c =
      shown (inherit tag c) ∷ (inherited nested (inherit tag c) ++ inherited rest c)

-- The context that the guards make of the one outside.
unfoldable pub within : Context → List Tag → Context
within c [] = c
within c (tag ∷ outer) = inherit tag (within c outer)

within-tag : (c : Context) (outer : List Tag) → (within c outer).tag ≡ nearest_tag c outer
unfolding within inherit or_parent nearest_tag
within-tag c [] = refl
within-tag c (permit ∷ outer) = within-tag c outer
within-tag c (track _ [] ∷ outer) = within-tag c outer
within-tag c (track _ (x ∷ xs) ∷ outer) = refl
within-tag c (prohibit _ [] ∷ outer) = within-tag c outer
within-tag c (prohibit _ (x ∷ xs) ∷ outer) = refl

within-allow :
    (c : Context) (outer : List Tag)
    → (within c outer).allow_termination_on_blocking ≡ terminates c outer
unfolding within inherit terminates
within-allow c [] = refl
within-allow c (permit ∷ outer) = within-allow c outer
within-allow c (track _ _ ∷ outer) = within-allow c outer
within-allow c (prohibit _ _ ∷ outer) = refl

shown-seen :
    (is_mobile : Bool) (c : Context) (tag : Tag) (outer : List Tag)
    → shown is_mobile (inherit tag (within c outer)) ≡ seen is_mobile c tag outer
unfolding seen inherit or_parent nearest_tag
shown-seen true c tag outer = refl
shown-seen false c permit outer = refl
shown-seen false c (track ex []) outer = rw (within-allow c outer, within-tag c outer) refl
shown-seen false c (track ex (x ∷ xs)) outer = rw (within-allow c outer) refl
shown-seen false c (prohibit ex []) outer = rw (within-tag c outer) refl
shown-seen false c (prohibit ex (x ∷ xs)) outer = refl

pub inherited-expected :
    (is_mobile : Bool) (p : Scopes) (outer : List Tag) (c : Context)
    → inherited is_mobile p (within c outer) ≡ expected is_mobile p outer c
unfolding inherited expected within
inherited-expected is_mobile end outer c = refl
inherited-expected is_mobile (scope tag nested rest) outer c =
    rw
      (
        shown-seen is_mobile c tag outer,
        inherited-expected is_mobile nested (tag ∷ outer) c,
        inherited-expected is_mobile rest outer c,
      )
      refl
