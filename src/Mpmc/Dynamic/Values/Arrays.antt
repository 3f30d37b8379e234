-- ===== src/Mpmc/Dynamic/Values/Arrays.antt =====
-- How the arrays that tickets go to change when threads move: not at all, by an allocation, or when
-- an expansion is published.
use thread_pool_exec.Prelude.{ℕ, ◌+◌, ◌≤◌, ◌<◌, ◌≡◌, ◌^◌, max, Option, none, some, refl, arith}
use thread_pool_exec.Mpmc.Dynamic.{Dynamic}
use thread_pool_exec.Mpmc.Dynamic.Laws
use thread_pool_exec.Mpmc.Dynamic.Expand.{expanded}
use thread_pool_exec.Mpmc.Dynamic.Threads as Growing
use thread_pool_exec.Mpmc.Dynamic.Threads.{
  Writer, unlocked, locked, pushes_loaded, counted, archived, slots_stored, capacity_stored,
  stride_stored, expand_step, publish, Threads, load_push, load_pop, draw_push, draw_pop, take_push,
  take_pop, start_again, reads, locks,
}
use thread_pool_exec.Mpmc.Dynamic.Threads.Defs.{memory, limit, Agrees, Inv}
use thread_pool_exec.Mpmc.Dynamic.Threads.Invariant.{unlocked_now}
use thread_pool_exec.Mpmc.Dynamic.Values.{pending}

-- From the thread that expands, `w` and the published queue `d` before, `w'` and `d'` after.
pub data Change (push pop : ℕ) (w w' : Writer) (d d' : Dynamic) : Type 0 where
  same : d' ≡ d → pending w' ≡ pending w → Change push pop w w' d d'
  allocates :
      (name : ℕ) → d' ≡ d → pending w ≡ none → pending w' ≡ some name → Change push pop w w' d d'
  publishes :
      (name p q : ℕ) (shape : Laws.Inv d) (small : 1 + max p q < 2 ^ 58)
      (less : d.dcapacity < d.capacity)
      → pending w ≡ some name
      → pending w' ≡ none
      → limit w push pop ≡ 1 + max p q
      → d' ≡ expanded name p q d shape small less
      → Change push pop w w' d d'

expand_step-Change :
    (new : Option ℕ) (w : Writer) (d : Dynamic) (push pop : ℕ)
    → Laws.Inv d
    → Agrees w d push pop
    → let s = expand_step new push pop w (memory w d) in
      Change push pop w (s.0) d (publish (s.0) (s.1) d) × (limit w push pop ≤ limit (s.0) push pop)
unfolding expand_step publish pending
expand_step-Change new unlocked d push pop shape g = (same refl refl, omega arith)
expand_step-Change new (locked s c) d push pop shape g = (same refl refl, omega arith)
expand_step-Change new (pushes_loaded s c p) d push pop shape g = (same refl refl, omega arith)
expand_step-Change none (counted s c p q) d push pop shape g =
    (same (rw (g.0.0) refl) refl, omega (arith, g.1.0, g.1.1))
expand_step-Change (some name) (counted s c p q) d push pop shape g =
    (allocates name refl refl refl, omega arith)
expand_step-Change new (archived s c p q name) d push pop shape g = (same refl refl, omega arith)
expand_step-Change new (slots_stored s c p q name) d push pop shape g =
    (same refl refl, omega arith)
expand_step-Change new (capacity_stored s c p q name) d push pop shape g =
    (same refl refl, omega arith)
expand_step-Change new (stride_stored s c p q name) d push pop shape g =
    let less : d.dcapacity < d.capacity = omega (arith, g.0.1, g.0.2) in
    (
      publishes name p q shape (g.1.2) less refl refl refl (rw (g.0.0, g.0.1) refl),
      omega (arith, g.1.0, g.1.1),
    )

-- A step of the threads that draws no ticket.
abbrev pub Moved : Threads → Threads → Type 0
Moved w u =
    Change w.push_ticket w.pop_ticket w.writer u.writer w.published u.published
    × (limit w.writer w.push_ticket w.pop_ticket ≤ limit u.writer u.push_ticket u.pop_ticket)

pub Step-Moved :
    {w u : Threads}
    → Growing.Step w u
    → Inv w
    → u.push_ticket ≡ w.push_ticket
    → u.pop_ticket ≡ w.pop_ticket
    → Moved w u
unfolding pending
Step-Moved (load_push i) k a b = (same refl refl, omega arith)
Step-Moved (load_pop i) k a b = (same refl refl, omega arith)
Step-Moved (draw_push i) k a b = absurd (omega arith)
Step-Moved (draw_pop i) k a b = absurd (omega arith)
Step-Moved (take_push i e now) k a b = absurd (omega arith)
Step-Moved (take_pop i e now) k a b = absurd (omega arith)
Step-Moved (start_again i e) k a b = (same refl refl, omega arith)
Step-Moved (reads i) k a b = (same refl refl, omega arith)
Step-Moved {w} (locks i e more found) k a b =
    let is_open = (unlocked_now w i k e found).0 in
    (same refl (rw is_open refl), rw is_open (omega arith))
Step-Moved {w} (Growing.expands new small) k a b =
    rw (k.stored)
      (expand_step-Change new w.writer w.published w.push_ticket w.pop_ticket (k.shape) (k.agrees))

-- A step that draws a ticket leaves the queue and the expansion as they are.
pub draw_push-same :
    {w u : Threads}
    → Growing.Step w u
    → u.push_ticket ≡ w.push_ticket + 1
    → (u.published ≡ w.published) × (u.writer ≡ w.writer) × (u.pop_ticket ≡ w.pop_ticket)
draw_push-same (load_push i) a = absurd (omega arith)
draw_push-same (load_pop i) a = absurd (omega arith)
draw_push-same (draw_push i) a = (refl, refl, refl)
draw_push-same (draw_pop i) a = absurd (omega arith)
draw_push-same (take_push i e now) a = (refl, refl, refl)
draw_push-same (take_pop i e now) a = absurd (omega arith)
draw_push-same (start_again i e) a = absurd (omega arith)
draw_push-same (reads i) a = absurd (omega arith)
draw_push-same (locks i e more found) a = absurd (omega arith)
draw_push-same (Growing.expands new small) a = absurd (omega arith)

pub draw_pop-same :
    {w u : Threads}
    → Growing.Step w u
    → u.pop_ticket ≡ w.pop_ticket + 1
    → (u.published ≡ w.published) × (u.writer ≡ w.writer) × (u.push_ticket ≡ w.push_ticket)
draw_pop-same (load_push i) a = absurd (omega arith)
draw_pop-same (load_pop i) a = absurd (omega arith)
draw_pop-same (draw_push i) a = absurd (omega arith)
draw_pop-same (draw_pop i) a = (refl, refl, refl)
draw_pop-same (take_push i e now) a = absurd (omega arith)
draw_pop-same (take_pop i e now) a = (refl, refl, refl)
draw_pop-same (start_again i e) a = absurd (omega arith)
draw_pop-same (reads i) a = absurd (omega arith)
draw_pop-same (locks i e more found) a = absurd (omega arith)
draw_pop-same (Growing.expands new small) a = absurd (omega arith)
