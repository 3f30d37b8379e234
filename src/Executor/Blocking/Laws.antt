-- ===== src/Executor/Blocking/Laws.antt =====
-- Guards that are scoped put back the context that they found, and each scope has its own.
use thread_pool_exec.Prelude.{
  ℕ, ◌+◌, ◌<◌, ◌≡◌, Bool, true, false, Option, some, List, [], ◌∷◌, ◌++◌, put, ◌==◌, refl, arith,
  ◌∙◌,
}
use thread_pool_exec.Executor.Blocking.{
  Context, Node, Blocking, Tag, inherit, get_executor_blocking_context, enter, leave,
}
use thread_pool_exec.Executor.Blocking.Scopes.{
  Scopes, end, scope, run, shown, expected, inherited, within, inherited-expected,
}

put_here : (f : ℕ → Node) (i : ℕ) (a : Node) → put f i a i ≡ a
unfolding put
put_here f i a = ground arith

put_below : (f : ℕ → Node) (i : ℕ) (a : Node) (j : ℕ) → j < i → put f i a j ≡ f j
unfolding put
put_below f i a j h = ground arith

-- A run ends, shows what is expected, and leaves the list and the guards below as they were.
pub record Ran (is_mobile : Bool) (p : Scopes) (address : ℕ) (b : Blocking) : Type 0 where
  pub after : Blocking
  pub ends :
      run is_mobile p address b
      ≡ some (expected is_mobile p [] (b.nodes b.executor_blocking_list).curr, after)
  pub same_list : after.executor_blocking_list ≡ b.executor_blocking_list
  pub same_nodes : (i : ℕ) → i < address → after.nodes i ≡ b.nodes i

-- The same of the contexts that the constructors make.
record Inherits (is_mobile : Bool) (p : Scopes) (address : ℕ) (b : Blocking) : Type 0 where
  after : Blocking
  ends :
      run is_mobile p address b
      ≡ some (inherited is_mobile p (b.nodes b.executor_blocking_list).curr, after)
  same_list : after.executor_blocking_list ≡ b.executor_blocking_list
  same_nodes : (i : ℕ) → i < address → after.nodes i ≡ b.nodes i

mobile-run :
    (p : Scopes) (address : ℕ) (b : Blocking) (c : Context)
    → run true p address b ≡ some (inherited true p c, b)
unfolding run inherited enter leave get_executor_blocking_context
mobile-run end address b c = refl
mobile-run (scope tag nested rest) address b c =
    rw (mobile-run nested (address + 1) b (inherit tag c), mobile-run rest address b c) refl

chain :
    (tag : Tag) (nested rest : Scopes) (address : ℕ) (b after left last : Blocking)
    {inner later : List (Option Context)}
    → run false nested (address + 1) (enter false tag address b) ≡ some (inner, after)
    → leave false address after ≡ some left
    → run false rest address left ≡ some (later, last)
    → run false (scope tag nested rest) address b
      ≡ some
          (get_executor_blocking_context false (enter false tag address b) ∷ (inner ++ later), last)
unfolding run
chain tag nested rest address b after left last e f g = ground arith

shows :
    (tag : Tag) (address : ℕ) (b : Blocking)
    → get_executor_blocking_context false (enter false tag address b)
      ≡ shown false (inherit tag (b.nodes b.executor_blocking_list).curr)
unfolding get_executor_blocking_context enter
shows tag address b =
    rw
      (put_here b.nodes address (record {
        prev = b.executor_blocking_list;
        curr = inherit tag (b.nodes b.executor_blocking_list).curr;
      }))
      refl

leaves :
    (address : ℕ) (b : Blocking) (node : Node)
    → b.executor_blocking_list ≡ address
    → b.nodes address ≡ node
    → leave false address b ≡ some (record b { executor_blocking_list = node.prev })
unfolding leave
leaves address b node here e =
    let found : (b.executor_blocking_list == address) ≡ true = ground arith in rw (found, e) refl

scoped-Inherits :
    (p : Scopes) (address : ℕ) (b : Blocking)
    → b.executor_blocking_list < address
    → Inherits false p address b
unfolding run inherited enter
scoped-Inherits end address b h = record {
  after = b;
  ends = refl;
  same_list = refl;
  same_nodes = λ i less. refl;
}
scoped-Inherits (scope tag nested rest) address b h =
    let node : Node = record {
      prev = b.executor_blocking_list;
      curr = inherit tag (b.nodes b.executor_blocking_list).curr;
    } in
    let entered : Blocking = record {
      nodes = put b.nodes address node;
      executor_blocking_list = address;
    } in
    let inner = scoped-Inherits nested (address + 1) entered (omega arith) in
    let kept : inner.after.nodes address ≡ node =
      inner.same_nodes address (omega arith) ∙ put_here b.nodes address node in
    let left : Blocking = record (inner.after) {
      executor_blocking_list = b.executor_blocking_list;
    } in
    let below : (i : ℕ) → i < address → left.nodes i ≡ b.nodes i =
      λ i less. inner.same_nodes i (omega arith) ∙ put_below b.nodes address node i less in
    let later = scoped-Inherits rest address left h in
    record {
      after = later.after;
      ends =
          chain tag nested rest address b inner.after left later.after
            (rw (put_here b.nodes address node) at (inner.ends))
            (leaves address inner.after node (inner.same_list) kept)
            (rw (below b.executor_blocking_list h) at (later.ends))
          ∙ rw (shows tag address b) refl;
      same_list = later.same_list;
      same_nodes = λ i less. later.same_nodes i less ∙ below i less;
    }

-- Nested blocks with guards at rising addresses, run from any list whose head lies below them: no
-- destructor finds another guard at the head. On a mobile platform, and where a block's own guard
-- permits, the block sees no context; where its guard tracks or prohibits, it sees that guard's
-- executor, forbidden, with the first tag that is not empty from its own guard outwards, or else the
-- tag of the context at the start, and with termination on blocking where it or a guard round it
-- prohibits, or the context at the start allows it. The list at the end is the one at the start, as
-- are the guards that were there.
pub scopes-Ran :
    (is_mobile : Bool) (p : Scopes) (address : ℕ) (b : Blocking)
    → b.executor_blocking_list < address
    → Ran is_mobile p address b
unfolding within
scopes-Ran true p address b h =
    let c = (b.nodes b.executor_blocking_list).curr in
    record {
      after = b;
      ends = mobile-run p address b c ∙ rw (inherited-expected true p [] c) refl;
      same_list = refl;
      same_nodes = λ i less. refl;
    }
scopes-Ran false p address b h =
    let c = (b.nodes b.executor_blocking_list).curr in
    let v = scoped-Inherits p address b h in
    record {
      after = v.after;
      ends = v.ends ∙ rw (inherited-expected false p [] c) refl;
      same_list = v.same_list;
      same_nodes = v.same_nodes;
    }
