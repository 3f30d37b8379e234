-- ===== src/Examples/Lifetimes.antt =====
-- A queue is made, grows, and is moved to another address.
use thread_pool_exec.Prelude.{put, ℕ, ◌≡◌, ◌≢◌, ◌⊎◌, set, true, false, none, some, refl, arith}
use thread_pool_exec.Mpmc.Stride.{compute_stride}
use thread_pool_exec.Mpmc.Dynamic.{
  Dynamic, make_dynamic, init_queue, try_expand, pack, get_num_closed, get_offset, count_closed,
}
use thread_pool_exec.Mpmc.Lifetime.{
  Object, Memory, dynamic_queue, with_fields, empty_queue, create, destroy, move_construct,
  move_assign, construct_dynamic, expands, moves, Reach, here, next, no_queues,
}
use thread_pool_exec.Mpmc.Lifetime.Freeing.{owned}
use thread_pool_exec.Mpmc.Lifetime.Holding.{holding}
use thread_pool_exec.Mpmc.Lifetime.Laws.{one_owner, destroy_succeeds}

abbrev small : Object
small = with_fields (init_queue 100 2 3) 5 empty_queue

abbrev made : Memory
made = create 0 small 5 no_queues

makes : Reach no_queues made
unfolding dynamic_queue make_dynamic
makes = next here (construct_dynamic 0 100 2 3 5 (omega arith) (omega arith) refl refl refl)

abbrev larger : Dynamic
larger = record (init_queue 100 2 3) {
  dslots = 6;
  dcapacity = 6;
  dstride = compute_stride 6;
  dstate = pack 1 1;
  closed =
      set (init_queue 100 2 3).closed 0
        (record { offset = 0; slots = 5; capacity = 2; stride = compute_stride 2 });
}

abbrev grown : Memory
grown = create 0 (with_fields larger 6 small) 6 made

grows : Reach no_queues grown
unfolding init_queue count_closed put try_expand get_num_closed get_offset pack
grows = next makes (expands 0 6 5 refl refl refl refl (omega arith) refl)

abbrev moved : Memory
moved = move_construct 1 0 (with_fields larger 6 small) grown

goes : Reach no_queues moved
unfolding put move_construct init_queue count_closed
goes = next grows (moves 1 0 refl refl)

one_owner_example :
    (a : ℕ) × (holding moved.objects a 5 ≡ 1)
    × ((b : ℕ) → (b ≡ a) ⊎ (holding moved.objects b 5 ≡ 0))
unfolding put move_construct
one_owner_example = one_owner 5 goes refl

destroy_succeeds_example :
    (move_assign 1 0 (with_fields larger 6 small) empty_queue moved ≢ none)
    × (m' : Memory) × (destroy 1 (with_fields larger 6 small) moved ≡ some m')
    × ((n : ℕ)
        → ((owned (with_fields larger 6 small) n ≡ 0) × (m'.arrays n ≡ moved.arrays n))
          ⊎ ((owned (with_fields larger 6 small) n ≡ 1)
              × (moved.arrays n ≡ true)
              × (m'.arrays n ≡ false)))
unfolding put move_construct
destroy_succeeds_example = destroy_succeeds 1 0 goes refl refl
