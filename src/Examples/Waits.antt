-- ===== src/Examples/Waits.antt =====
-- Spins, wakes and deadlines, and a size that is read while another thread four_pushes.
use Prim.Native.Nat.{ℕ, min}
use thread_pool_exec.Prelude.{
  ◌≡◌, ◌*◌, ◌≤◌, ◌<◌, ◌-◌, ◌^◌, true, false, some, none, [], ◌∷◌, refl, arith, ℤ, pos, sub_ℕ,
}
use thread_pool_exec.Spin.{defaults, SpinResult, spin_pause_until}
use thread_pool_exec.Spin.Laws.{Reason, spin_pause_until-Reason}
use thread_pool_exec.Mpmc.Size.{size}
use thread_pool_exec.Mpmc.Size.Laws.{Counts, size-some}
use thread_pool_exec.Mpmc.Slot.{Slot}
use thread_pool_exec.Mpmc.Queue.{Mpmc}
use thread_pool_exec.Futex.{
  ParkingLot, ask, emulated_futex_wake, Request, wait_request, time_point_conv, futex_wait_until,
}
use thread_pool_exec.Futex.Laws.{
  matching, without, Asks, emulated_futex_wake_lem, futex_wait_until-Asks,
}

-- A clock of microseconds.
abbrev clock : ℕ → ℕ
clock k = k * 1000

spin_pause_until-Reason_example :
    (r : SpinResult) × (spin_pause_until 5000 (λ _. false) clock defaults 2 ≡ some r)
    × Reason 5000 (λ _. false) clock 2000 r
spin_pause_until-Reason_example =
    spin_pause_until-Reason 5000 (λ _. false) clock defaults 2 (λ k. omega arith) (omega arith)
      (omega arith)

-- Four four_pushes come in at the first loads.
abbrev four_pushes : ℕ → ℕ
four_pushes k = min k 4

abbrev no_pops : ℕ → ℕ
no_pops k = 0

four_pushes-Counts : Counts four_pushes no_pops
four_pushes-Counts = record {
  pushes_rise = λ k. omega arith;
  pops_rise = λ k. omega arith;
  pushes_small = λ k. omega arith;
  pops_small = λ k. omega arith;
}

size-some_example :
    (n : ℤ) × (j : ℕ) × (size four_pushes no_pops 5 ≡ some n)
    × (0 < j)
    × (j ≤ 10)
    × (n ≡ sub_ℕ (four_pushes j) (no_pops j))
size-some_example =
    size-some four_pushes no_pops four_pushes-Counts 4 (λ k. omega arith) 5 (omega arith)

abbrev lot : ParkingLot
lot = record { unpark = ask; unpark_lem = λ f s masks. refl }

-- Two of three waiters meet the mask, and one of them is woken.
emulated_futex_wake_lem_example :
    ((emulated_futex_wake lot 1 2 (1 ∷ 3 ∷ 2 ∷ [])).0.woken ≡ min 1 (matching 2 (1 ∷ 3 ∷ 2 ∷ [])))
    × ((emulated_futex_wake lot 1 2 (1 ∷ 3 ∷ 2 ∷ [])).0.failed ≡ false)
    × ((emulated_futex_wake lot 1 2 (1 ∷ 3 ∷ 2 ∷ [])).1 ≡ without 2 1 (1 ∷ 3 ∷ 2 ∷ []))
emulated_futex_wake_lem_example = emulated_futex_wake_lem 2 lot 1 (1 ∷ 3 ∷ 2 ∷ []) (omega arith)

abbrev latest : ℤ
latest = pos (2 ^ 63 - 1)

futex_wait_until-Asks_example :
    let times = futex_wait_until latest true none (pos 2500000000) in
    (r : Request) × (wait_request times.0 times.1 ≡ some r)
    × Asks latest (time_point_conv latest none (pos 2500000000)) true r
futex_wait_until-Asks_example = futex_wait_until-Asks latest true none (pos 2500000000)

-- Two other threads push while a call draws a ticket of a queue of two.
abbrev moments : ℕ → Mpmc (Slot ℕ ℕ)
moments k = record {
  capacity = 2;
  stride = 1;
  slots = λ _. record { sequencer = 0; contents = none };
  push_ticket = min k 2;
  pop_ticket = 0;
}
