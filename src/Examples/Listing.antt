-- ===== src/Examples/Listing.antt =====
-- A thread begins its removal while a KeepAlive lists it.
use thread_pool_exec.Prelude.{put, inl, refl, true, false}
use thread_pool_exec.WorkerIds.{
  added, erased, idle, locked, collected, Provider, add_tid, erase_tid, add, erase, lock, collect,
  Reach, here, next, nobody_yet,
}
use thread_pool_exec.WorkerIds.Laws.{Present, Reach-Present}

abbrev listing : Provider
listing = record {
  os_thread_ids = put (put (λ _. false) 7 true) 7 false;
  workers = put (put nobody_yet.workers 7 added) 7 erased;
  collectors = put (put (λ _. idle) 0 locked) 0 (collected (put (λ _. false) 7 true));
}

lists : Reach nobody_yet listing
unfolding add_tid erase_tid put
lists =
    next (next (next (next here (add 7 (inl refl))) (lock 0 refl)) (collect 0 refl)) (erase 7 refl)

Reach-Present_example : Present (listing.workers 7)
unfolding put
Reach-Present_example = Reach-Present 0 7 lists refl refl
