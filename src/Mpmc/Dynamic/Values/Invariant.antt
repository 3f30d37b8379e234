-- ===== src/Mpmc/Dynamic/Values/Invariant.antt =====
-- Every step of the threads that use a growing queue keeps what is so of its tickets.
use thread_pool_exec.Prelude.{put, ℕ, ◌+◌, ◌≤◌, ◌≡◌, true, Option, none, some, arith, ℕ_discrete}
use thread_pool_exec.Mpmc.Slot.{TurnSequencer, Slot}
use thread_pool_exec.Mpmc.Tickets.Scalar.{
  Ticket, draw_push_self, draw_push_other, draw_pop_self, draw_pop_other,
}
use thread_pool_exec.Mpmc.Tickets.Invariant.{put_self, put_other}
use thread_pool_exec.Mpmc.Dynamic.Threads as Growing
use thread_pool_exec.Mpmc.Dynamic.Threads.{Snapshot, Writer, using, Threads}
use thread_pool_exec.Mpmc.Dynamic.Threads.Defs.{limit}
use thread_pool_exec.Mpmc.Dynamic.Threads.Invariant.{limit_mono}
use thread_pool_exec.Mpmc.Dynamic.Threads.Invariant as Reads
use thread_pool_exec.Mpmc.Dynamic.Values.{
  Values, Step, moves, draws_push, draws_pop, use_push, use_pop,
}
use thread_pool_exec.Mpmc.Dynamic.Values.Arrays.{draw_push-same, draw_pop-same}
use thread_pool_exec.Mpmc.Dynamic.Values.Using.{Inv}
use thread_pool_exec.Mpmc.Dynamic.Values.Storing.{use_push-Inv, use_pop-Inv}
use thread_pool_exec.Mpmc.Dynamic.Values.Moving.{moves-Inv}

module _ (seq : TurnSequencer) {T : Type 0} (padding : ℕ) where
  open seq use {Sequencer}

  draws_push-Inv :
      (w : Values (Slot Sequencer T) T) (v : Inv seq padding w) {u : Threads}
      → Growing.Step w.threads u
      → u.push_ticket ≡ w.threads.push_ticket + 1
      → (x : T)
      → Inv seq padding (record w {
        threads = u;
        pushing = put w.pushing w.threads.push_ticket (some x);
        written = put w.written w.threads.push_ticket (some x);
      })
  draws_push-Inv w v {u} st pushes x =
      let (d, writes, pops) = draw_push-same st pushes in
      let p = w.threads.push_ticket in
      let drawn : (t k n : ℕ) (c : Option T)
          → Ticket t p w.threads.pop_ticket k n c (w.pushing t) (w.written t) (w.read t)
              (w.popping t)
          → Ticket t u.push_ticket u.pop_ticket k n c (put w.pushing p (some x) t)
              (put w.written p (some x) t) (w.read t) (w.popping t) =
        λ t k n c h.
          rw (pushes, pops)
            (elim (ℕ_discrete t p) [
              | yes eq ↦
                  rw (put_self w.pushing p (some x) t eq, put_self w.written p (some x) t eq)
                    (draw_push_self h x eq)
              | no ne ↦
                  rw (put_other w.pushing p (some x) t ne, put_other w.written p (some x) t ne)
                    (draw_push_other h ne)
            ]) in
      let le : limit w.threads.writer p w.threads.pop_ticket
          ≤ limit u.writer u.push_ticket u.pop_ticket =
        rw writes (
          limit_mono w.threads.writer p w.threads.pop_ticket u.push_ticket u.pop_ticket
            (omega (arith, pushes)) (omega (arith, pops))) in
      record {
        memory = Reads.Step-Inv st (v.memory);
        sound = rw d (v.sound);
        distinct = rw d (v.distinct);
        allocated = rw (d, writes) (v.allocated);
        untouched = λ t late. drawn t 0 0 none (v.untouched t (omega (arith, le, late)));
        tickets = λ t a at ft. drawn t _ _ _ (v.tickets t a (rw d at at) ft);
      }

  draws_pop-Inv :
      (w : Values (Slot Sequencer T) T) (v : Inv seq padding w) {u : Threads}
      → Growing.Step w.threads u
      → u.pop_ticket ≡ w.threads.pop_ticket + 1
      → Inv seq padding
          (record w { threads = u; popping = put w.popping w.threads.pop_ticket true })
  draws_pop-Inv w v {u} st pops =
      let (d, writes, pushes) = draw_pop-same st pops in
      let p = w.threads.pop_ticket in
      let drawn : (t k n : ℕ) (c : Option T)
          → Ticket t w.threads.push_ticket p k n c (w.pushing t) (w.written t) (w.read t)
              (w.popping t)
          → Ticket t u.push_ticket u.pop_ticket k n c (w.pushing t) (w.written t) (w.read t)
              (put w.popping p true t) =
        λ t k n c h.
          rw (pushes, pops)
            (elim (ℕ_discrete t p) [
              | yes eq ↦ rw (put_self w.popping p true t eq) (draw_pop_self h eq)
              | no ne ↦ rw (put_other w.popping p true t ne) (draw_pop_other h ne)
            ]) in
      let le : limit w.threads.writer w.threads.push_ticket p
          ≤ limit u.writer u.push_ticket u.pop_ticket =
        rw writes (
          limit_mono w.threads.writer w.threads.push_ticket p u.push_ticket u.pop_ticket
            (omega (arith, pushes)) (omega (arith, pops))) in
      record {
        memory = Reads.Step-Inv st (v.memory);
        sound = rw d (v.sound);
        distinct = rw d (v.distinct);
        allocated = rw (d, writes) (v.allocated);
        untouched = λ t late. drawn t 0 0 none (v.untouched t (omega (arith, le, late)));
        tickets = λ t a at ft. drawn t _ _ _ (v.tickets t a (rw d at at) ft);
      }

  -- Every step keeps the invariant.
  pub Step-Inv :
      {w w' : Values (Slot Sequencer T) T}
      → Step seq padding w w'
      → Inv seq padding w
      → Inv seq padding w'
  Step-Inv {w} (moves st pushes pops unused) v = moves-Inv seq padding w v st pushes pops unused
  Step-Inv {w} (draws_push x st pushes) v = draws_push-Inv w v st pushes x
  Step-Inv {w} (draws_pop st pops) v = draws_pop-Inv w v st pops
  Step-Inv {w} (use_push i {x = x} uses ft holds done) v =
      use_push-Inv seq padding w v i uses ft x holds done
  Step-Inv {w} (use_pop i {x = x} uses ft holds done) v =
      use_pop-Inv seq padding w v i uses ft x holds done
