-- ===== src/Executor/Token.antt =====
-- `Executor::KeepAlive` of ThreadPool/Executor.h: an executor's address with two flags in its low
-- bits, which are free, since executors stand at multiples of 4. So `x & kFlagMask` is `x % 4`.
pub mod Counted
pub mod Laws
use thread_pool_exec.Prelude.{
  put, ℕ, ◌+◌, ◌-◌, ◌/◌, ◌%◌, Bool, true, false, Option, none, some, List, [], ◌∷◌, ◌++◌, ◌==◌,
  get_elem?, set, if◌then◌else◌,
}

abbrev pub dummy_flag : ℕ
dummy_flag = 1

abbrev pub alias_flag : ℕ
alias_flag = 2

-- `get`, and the flags.
unfoldable pub get : ℕ → ℕ
get storage = storage - storage % 4

unfoldable pub flags : ℕ → ℕ
flags storage = storage % 4

-- `isKeepAliveDummy`
unfoldable pub is_keep_alive_dummy : ℕ → Bool
is_keep_alive_dummy storage = storage % 2 == 1

-- `get_alias`
unfoldable pub get_alias : ℕ → ℕ
get_alias storage = if storage / 2 % 2 == 1 then storage else storage + alias_flag

-- The KeepAlive objects of a program, by their `storage_`, and of each executor the calls of
-- `keepAliveAcquire` that returned true less the calls of `keepAliveRelease`.
pub record Tokens : Type 0 where
  pub acquired : ℕ → ℕ
  pub storages : List ℕ

-- `reset`
unfoldable pub reset : ℕ → (ℕ → ℕ) → ℕ × (ℕ → ℕ)
unfolding put get flags
reset storage acquired =
    if get storage == 0
    then (storage, acquired)
    else if flags storage == 0
    then (0, put acquired (get storage) (acquired (get storage) - 1))
    else (0, acquired)

-- What a program does with the objects that it has, by their places in the list.
pub data Use : Type 0 where
  make_empty : Use  -- `KeepAlive()`
  make_from : ℕ → Use  -- `KeepAlive(ExecutorT *)`
  copy_construct : ℕ → Use
  move_construct : ℕ → Use
  copy_member : ℕ → Use
  alias : ℕ → Use
  move_assign : ℕ → ℕ → Use
  copy_assign : ℕ → ℕ → Use
  reset_at : ℕ → Use  -- `reset` and the destructor

unfoldable pub append : ℕ × (ℕ → ℕ) → List ℕ → Tokens
append (storage, acquired) storages = record {
  acquired = acquired;
  storages = storages ++ storage ∷ [];
}

-- `operator=(KeepAlive &&)`: `this` is reset, `other` emptied, and `this` set, in this order.
unfoldable pub assign_moved : ℕ → ℕ → Tokens → Option Tokens
unfolding reset
assign_moved i j w = elim (get_elem? w.storages i) [
  | none ↦ none
  | some mine ↦
      let (left, acquired) = reset mine w.acquired in
      let storages = set w.storages i left in
      elim (get_elem? storages j) [
        | none ↦ none
        | some theirs ↦
            some (record { acquired = acquired; storages = set (set storages j 0) i theirs })
      ]
]

-- `supports` says which executors return true from `keepAliveAcquire`; the base class returns false.
module _ (supports : ℕ → Bool) where
  -- `getKeepAliveToken`: the storage of the new object, and the counts.
  unfoldable pub get_keep_alive_token : ℕ → (ℕ → ℕ) → ℕ × (ℕ → ℕ)
  unfolding put
  get_keep_alive_token executor acquired =
      if executor == 0
      then (0, acquired)
      else if supports executor
      then (executor, put acquired executor (acquired executor + 1))
      else (executor + dummy_flag, acquired)

  -- `copy`
  unfoldable pub copy : ℕ → (ℕ → ℕ) → ℕ × (ℕ → ℕ)
  unfolding get_keep_alive_token is_keep_alive_dummy get
  copy storage acquired =
      if is_keep_alive_dummy storage
      then (get storage + dummy_flag, acquired)
      else get_keep_alive_token (get storage) acquired

  -- `none` where there is no such object.
  unfoldable pub perform : Use → Tokens → Option Tokens
  unfolding get_keep_alive_token copy reset get_alias append assign_moved
  perform make_empty w = some (append (0, w.acquired) w.storages)
  perform (make_from e) w = some (append (get_keep_alive_token e w.acquired) w.storages)
  perform (copy_construct j) w = elim (get_elem? w.storages j) [
    | none ↦ none
    | some s ↦ some (append (get_keep_alive_token (get s) w.acquired) w.storages)
  ]
  perform (move_construct j) w = elim (get_elem? w.storages j) [
    | none ↦ none
    | some s ↦ some (append (s, w.acquired) (set w.storages j 0))
  ]
  perform (copy_member j) w = elim (get_elem? w.storages j) [
    | none ↦ none
    | some s ↦ some (append (copy s w.acquired) w.storages)
  ]
  perform (alias j) w = elim (get_elem? w.storages j) [
    | none ↦ none
    | some s ↦ some (append (get_alias s, w.acquired) w.storages)
  ]
  perform (move_assign i j) w = assign_moved i j w
  -- The copy is an object that is moved from, and then destroyed while empty.
  perform (copy_assign i j) w = elim (get_elem? w.storages j) [
    | none ↦ none
    | some s ↦
        let (fresh, acquired) = get_keep_alive_token (get s) w.acquired in
        elim (get_elem? w.storages i) [
          | none ↦ none
          | some mine ↦
              let (left, acquired') = reset mine acquired in
              some (record { acquired = acquired'; storages = set (set w.storages i left) i fresh })
        ]
  ]
  perform (reset_at i) w = elim (get_elem? w.storages i) [
    | none ↦ none
    | some s ↦
        let (left, acquired) = reset s w.acquired in
        some (record { acquired = acquired; storages = set w.storages i left })
  ]
