-- ===== src/Executor/Blocking.antt =====
-- `ExecutorBlockingGuard` of ThreadPool/Executor.h and ThreadPool/Executor.cpp, in one thread: a list
-- of contexts whose nodes lie in the guards, at their addresses, with `emptyList` at 0.
pub mod Scopes
pub mod Laws
use thread_pool_exec.Prelude.{
  ℕ, ◌+◌, Bool, true, false, not, ◌||◌, Option, none, some, List, [], ◌∷◌, put, ◌==◌, if◌then◌else◌,
}

-- `ex` is 0 for a null pointer; a tag is its characters.
pub record Context : Type 0 where
  pub forbid : Bool
  pub allow_termination_on_blocking : Bool
  pub ex : ℕ
  pub tag : List ℕ

pub record Node : Type 0 where
  pub prev : ℕ
  pub curr : Context

pub record Blocking : Type 0 where
  pub nodes : ℕ → Node
  pub executor_blocking_list : ℕ

abbrev pub empty_list : Node
empty_list = record {
  prev = 0;
  curr = record { forbid = false; allow_termination_on_blocking = false; ex = 0; tag = [] };
}

pub data Tag : Type 0 where
  permit : Tag
  track : ℕ → List ℕ → Tag
  prohibit : ℕ → List ℕ → Tag

-- The context of a constructor, from the one it finds.
unfoldable pub or_parent : List ℕ → List ℕ → List ℕ
or_parent [] parent = parent
or_parent (c ∷ cs) parent = c ∷ cs

unfoldable pub inherit : Tag → Context → Context
unfolding or_parent
inherit permit c = record c { forbid = false }
inherit (track ex tag) c = record c { forbid = true; ex = ex; tag = or_parent tag c.tag }
inherit (prohibit ex tag) c = record c {
  forbid = true;
  ex = ex;
  allow_termination_on_blocking = true;
  tag = or_parent tag c.tag;
}

-- `is_mobile` is folly's kIsMobile.
module _ (is_mobile : Bool) where
  -- `getExecutorBlockingContext`
  unfoldable pub get_executor_blocking_context : Blocking → Option Context
  get_executor_blocking_context b =
      let c = (b.nodes b.executor_blocking_list).curr in
      if is_mobile || not c.forbid then none else some c

  -- The three constructors, of a guard at an address.
  unfoldable pub enter : Tag → ℕ → Blocking → Blocking
  unfolding inherit put
  enter tag address b = if is_mobile then b else record {
    nodes = put b.nodes address (record {
      prev = b.executor_blocking_list;
      curr = inherit tag (b.nodes b.executor_blocking_list).curr;
    });
    executor_blocking_list = address;
  }

  -- The destructor; `none` is `terminate_with`.
  unfoldable pub leave : ℕ → Blocking → Option Blocking
  leave address b =
      if is_mobile
      then some b
      else if b.executor_blocking_list == address
      then some (record b { executor_blocking_list = (b.nodes address).prev })
      else none
