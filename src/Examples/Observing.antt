-- ===== src/Examples/Observing.antt =====
-- Two calls of `getQueueObserver` for one priority, both of which make an observer.
use thread_pool_exec.Prelude.{put, ℕ, ◌≡◌, ◌≢◌, ◌⊎◌, refl, arith, true, false, none, some, pos}
use thread_pool_exec.Priority.Order.{IsInt8}
use thread_pool_exec.Observers.{
  Owner, nobody, slot, idle, looking, offering, Observers, to_unsigned, begin, finish, look, offer,
  next_access, call, run, leave, Reach, here, next, none_made, destroy,
}
use thread_pool_exec.Observers.Defs.{home}
use thread_pool_exec.Observers.Laws.{Reach-same}
use thread_pool_exec.Observers.Destructor.{destroy-nobody}

lowest : IsInt8 (pos 0)
lowest = record { above = omega arith; below = omega arith }

-- Both calls have looked, and the first offers 8, the second 9.
abbrev both_called : Observers
both_called = record none_made {
  threads = put (put none_made.threads 0 (looking 0 none)) 1 (looking 0 none);
}

abbrev both_returned : Observers
both_returned =
    let looked =
      next_access false 9 1 (looking 0 none) (next_access false 8 0 (looking 0 none) both_called) in
    next_access false 7 1 (offering 0 9 none) (next_access false 7 0 (offering 0 8 none) looked)

race : Reach false true none_made both_returned
unfolding next_access look offer finish put begin to_unsigned
race =
    next
      (next
        (next
          (next (next (next here (call 0 (pos 0) lowest refl)) (call 1 (pos 0) lowest refl))
            (run 0 8 (omega arith) refl))
          (run 1 9 (omega arith) refl))
        (run 0 7 (omega arith) refl))
      (run 1 7 (omega arith) refl)

abbrev observer : ℕ
observer = 8

Reach-same_example :
    (both_returned.owner observer ≡ slot (home false 0))
    × (((observer ≡ observer) × (home false 0 ≡ home false 0))
        ⊎ ((observer ≢ observer) × (home false 0 ≢ home false 0)))
unfolding next_access look offer finish put
Reach-same_example = Reach-same false true 0 1 race refl refl

abbrev both_left : Observers
both_left = record both_returned { threads = put (put both_returned.threads 0 idle) 1 idle }

left : Reach false true none_made both_left
unfolding next_access look offer finish put
left = next (next race (leave 0 refl)) (leave 1 refl)

at_rest : (t : ℕ) → both_left.threads t ≡ idle
unfolding next_access look offer finish put
at_rest t = ground arith

destroy-nobody_example :
    (o : ℕ → Owner) × (destroy false both_left ≡ some o) × ((p : ℕ) → o p ≡ nobody)
destroy-nobody_example = destroy-nobody false true left at_rest
