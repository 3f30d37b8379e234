-- ===== src/Mpmc/Dynamic/Values/Storing.antt =====
-- The use of a ticket of a growing queue keeps what is so of the tickets.
use thread_pool_exec.Prelude.{
  put, ℕ, ◌-◌, ◌/◌, ◌<◌, ◌≡◌, true, false, none, some, arith, sym, ap, ◌∙◌,
}
use thread_pool_exec.Mpmc.Stride.Injective.{Fits}
use thread_pool_exec.Mpmc.Slot.{TurnSequencer, Slot, got}
use thread_pool_exec.Mpmc.Queue.{Mpmc, enqueue_with_ticket, dequeue_with_ticket}
use thread_pool_exec.Mpmc.Tickets.Scalar.{
  use_push_self, use_push_other, use_pop_self, use_pop_other,
}
use thread_pool_exec.Mpmc.Tickets.Using.{enqueue_with_ticket-Enqueued, dequeue_with_ticket-Received}
use thread_pool_exec.Mpmc.Tickets.Invariant.{put_self, put_other}
use thread_pool_exec.Mpmc.Dynamic.{ClosedArray, array_of}
use thread_pool_exec.Mpmc.Dynamic.Threads.{Snapshot, using}
use thread_pool_exec.Mpmc.Dynamic.Threads.Defs.{limit}
use thread_pool_exec.Mpmc.Dynamic.Threads.Invariant.{holding}
use thread_pool_exec.Mpmc.Dynamic.Values.{Values, array}
use thread_pool_exec.Mpmc.Dynamic.Values.Using.{Allocated, Inv, own, kept, shared, changed}

module _ (seq : TurnSequencer) {T : Type 0} (padding : ℕ) where
  open seq use {Sequencer, now}

  module _ (w : Values (Slot Sequencer T) T) (v : Inv seq padding w) (i : ℕ) {t : ℕ} {s : Snapshot}
      {a : ClosedArray} (uses : w.threads.readers i ≡ using t s a)
      (ft : Fits a.capacity (t - a.offset)) where
    found : array_of t w.threads.published ≡ some a
    found = (holding w.threads i (v.memory) uses).3

    early : t < limit w.threads.writer w.threads.push_ticket w.threads.pop_ticket
    early = (holding w.threads i (v.memory) uses).0

    stored_elsewhere :
        (f : ℕ → Slot Sequencer T) → Allocated seq padding w.threads (put w.store a.slots f)
    stored_elsewhere f name waits =
        let (unused, empty) = v.allocated name waits in
        (
          unused,
          λ j.
              ap (λ (g : ℕ → Slot Sequencer T). g j)
                (put_other w.store a.slots f name (λ e. unused t a found (sym e)))
              ∙ empty j,
        )

    pub use_push-Inv :
        (x : T) {q : Mpmc (Slot Sequencer T)}
        → w.pushing t ≡ some x
        → enqueue_with_ticket seq padding (t - a.offset) x (array a w.store) ≡ some q
        → Inv seq padding
            (record w { store = put w.store a.slots q.slots; pushing = put w.pushing t none })
    unfolding array
    use_push-Inv x {q} holds done =
        let here = v.tickets t a found ft in
        let e =
          enqueue_with_ticket-Enqueued seq padding (t - a.offset) x (array a w.store) ft here.small
            done in
        record {
          memory = v.memory;
          sound = v.sound;
          distinct = v.distinct;
          allocated = stored_elsewhere q.slots;
          untouched = λ u later.
              rw (put_other w.pushing t none u (omega (arith, early, later))) (v.untouched u later);
          tickets = λ u b at fu.
              rw (e.result)
                (elim (changed seq padding w.threads.published w.store t u a b
                  (record { sequencer = e.seq'; contents = some x }) (v.sound) (v.distinct) found at
                  ft fu) [
                    | own eq one result ↦
                        rw (result, put_self w.pushing t none u eq, eq, one, e.after)
                          (use_push_self here x holds e.before ft.turns)
                    | kept ne result ↦
                        rw (result, put_other w.pushing t none u ne) (v.tickets u b at fu)
                    | shared ne later one result ↦
                        rw (result, put_other w.pushing t none u ne, e.after, sym one)
                          (use_push_other (v.tickets u b at fu) ((t - a.offset) / a.capacity)
                            (some x) (rw one (e.before)) later ft.turns)
                  ]);
        }

    pub use_pop-Inv :
        (x : T) {q : Mpmc (Slot Sequencer T)}
        → w.popping t ≡ true
        → dequeue_with_ticket seq padding (t - a.offset) (array a w.store) ≡ got x q
        → Inv seq padding (record w {
          store = put w.store a.slots q.slots;
          popping = put w.popping t false;
          read = put w.read t (some x);
        })
    unfolding array
    use_pop-Inv x {q} holds done =
        let here = v.tickets t a found ft in
        let e =
          dequeue_with_ticket-Received seq padding (t - a.offset) (array a w.store) ft here.small
            done in
        record {
          memory = v.memory;
          sound = v.sound;
          distinct = v.distinct;
          allocated = stored_elsewhere q.slots;
          untouched = λ u later.
              rw
                (
                  put_other w.popping t false u (omega (arith, early, later)),
                  put_other w.read t (some x) u (omega (arith, early, later)),
                )
                (v.untouched u later);
          tickets = λ u b at fu.
              rw (e.result)
                (elim (changed seq padding w.threads.published w.store t u a b
                  (record { sequencer = e.seq'; contents = none }) (v.sound) (v.distinct) found at
                  ft fu) [
                    | own eq one result ↦
                        rw
                          (
                            result,
                            put_self w.popping t false u eq,
                            put_self w.read t (some x) u eq,
                            eq,
                            one,
                            e.after,
                          )
                          (use_pop_self here x holds e.held e.before ft.turns)
                    | kept ne result ↦
                        rw
                          (
                            result,
                            put_other w.popping t false u ne,
                            put_other w.read t (some x) u ne,
                          )
                          (v.tickets u b at fu)
                    | shared ne later one result ↦
                        rw
                          (
                            result,
                            put_other w.popping t false u ne,
                            put_other w.read t (some x) u ne,
                            e.after,
                            sym one,
                          )
                          (use_pop_other (v.tickets u b at fu) ((t - a.offset) / a.capacity) none
                            (rw one (e.before)) later ft.turns)
                  ]);
        }
