-- ===== src/Examples/Owners.antt =====
-- A holder takes a KeepAlive, the executor joins, and the holder drops it.
use thread_pool_exec.Prelude.{ℕ, ◌≡◌, ◌≢◌, ◌⊎◌, true, false, none, refl, arith}
use thread_pool_exec.KeepAlive.{
  Control, made, keep_alive_acquire, keep_alive_release, lock, join_keep_alive,
  join_keep_alive_once, reset_keep_alive, take_own, drop, join_once, Reach, here, next,
}
use thread_pool_exec.KeepAlive.Laws.{Reach-checks, Reach-joined}

abbrev joining : Control
joining = record {
  keep_alive_count = 1;
  keep_alive = false;
  posts = 0;
  keep_alive_joined = true;
  tokens = 1;
  resetting = false;
}

joins : Reach made joining
unfolding keep_alive_acquire join_keep_alive_once join_keep_alive keep_alive_release
joins = next (next here (take_own refl refl)) (join_once refl)

abbrev joined : Control
joined = record joining { keep_alive_count = 0; posts = 1; tokens = 0 }

drops : Reach made joined
unfolding keep_alive_release
drops = next joins (drop refl refl)

Reach-checks_example :
    ((◌≡◌ {A = ℕ} 1 0)
      ⊎ ((keep_alive_acquire joining ≢ none) × (keep_alive_release joining ≢ none)))
    × ((false ≡ true) ⊎ (join_keep_alive_once joining ≢ none))
    × ((false ≡ true) ⊎ ((true ≡ true) ⊎ (join_keep_alive joining ≢ none)))
    × ((◌≡◌ {A = ℕ} 0 0) ⊎ (reset_keep_alive joining ≢ none))
Reach-checks_example = Reach-checks joins

Reach-joined_example :
    (◌≡◌ {A = ℕ} 1 1)
    × (◌≡◌ {A = ℕ} 0 0)
    × (false ≡ false)
    × (◌≡◌ {A = ℕ} 0 0)
    × (lock joined ≡ (false, joined))
Reach-joined_example = Reach-joined drops (omega arith)
