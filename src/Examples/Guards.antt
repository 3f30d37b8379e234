-- ===== src/Examples/Guards.antt =====
-- KeepAlive objects of one executor, and two nested guards.
use thread_pool_exec.Prelude.{true, false, [], ◌∷◌, refl, arith, put}
use thread_pool_exec.Executor.Token.{
  get, Tokens, get_keep_alive_token, copy_construct, append, perform,
}
use thread_pool_exec.Executor.Token.Counted.{Balanced, owners}
use thread_pool_exec.Executor.Token.Laws.{perform-Balanced}
use thread_pool_exec.Executor.Blocking.{Blocking, empty_list, track, permit}
use thread_pool_exec.Executor.Blocking.Scopes.{scope, end}
use thread_pool_exec.Executor.Blocking.Laws.{Ran, scopes-Ran}

-- An object that holds the executor at 8, and an alias of it.
abbrev held : Tokens
held = record { acquired = put (λ _. 0) 8 1; storages = 8 ∷ 10 ∷ [] }

held-Balanced : Balanced held
unfolding owners put
held-Balanced e aligned real = ground arith

abbrev copied : Tokens
copied = record { acquired = put (put (λ _. 0) 8 1) 8 2; storages = 8 ∷ 10 ∷ 8 ∷ [] }

-- A copy of the alias holds the executor too.
perform-Balanced_example : Balanced copied
unfolding perform append get_keep_alive_token get put
perform-Balanced_example =
    perform-Balanced (λ _. true) (copy_construct 1) held {w' = copied} tt held-Balanced refl

abbrev outside : Blocking
outside = record { nodes = λ _. empty_list; executor_blocking_list = 0 }

scopes-Ran_example : Ran false (scope (track 8 (b'p' ∷ [])) (scope permit end end) end) 1 outside
scopes-Ran_example =
    scopes-Ran false (scope (track 8 (b'p' ∷ [])) (scope permit end end) end) 1 outside
      (omega arith)
