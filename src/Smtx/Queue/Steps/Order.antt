-- ===== src/Smtx/Queue/Steps/Order.antt =====
-- What every interleaving of a producer with a consumer delivers.
use cos516_project.Prelude.{
  ℕ, ◌∷◌, ◌++◌, List, Option, ◌≡◌, some, subst, [], none, length, refl, ◌≤◌,
}
use cos516_project.Smtx.Queue.Steps.{
  State, Turn, produces, consumes, turn, interleave, at, ready, waiting, ◌>>=◌,
}
use cos516_project.Smtx.Queue.Steps.Invariant.{Inv, lost, next_head, next_tail, Sending, Taking}
use cos516_project.Smtx.Queue.Steps.Produce.{Holds, produce_step-Inv}
use cos516_project.Smtx.Queue.{Queue}
use cos516_project.Smtx.Queue.Refine.{Represents}
use cos516_project.Smtx.Queue.Steps.Consume.{consume_step-Inv}

turn-Inv : (c : ℕ) (t : Turn) (s : State) → Inv c s → Holds (Inv c) (turn c t s)
unfolding turn Holds
turn-Inv c (produces v) s inv =
    produce_step-Inv c v s.producer s.consumer s.queue s.sent s.received inv
turn-Inv c consumes s inv = consume_step-Inv c s.producer s.consumer s.queue s.sent s.received inv

bind-Inv :
    (c : ℕ) (o : Option State) (ts : List Turn) (s' : State)
    → Holds (Inv c) o
    → ((s : State) → Inv c s → interleave c ts s ≡ some s' → Inv c s')
    → (o >>= interleave c ts) ≡ some s'
    → Inv c s'
unfolding Holds
bind-Inv c none ts s' h rec e = cc
bind-Inv c (some s) ts s' h rec e = rec s h e

pub interleave-Inv :
    (c : ℕ) (ts : List Turn) (s s' : State) → Inv c s → interleave c ts s ≡ some s' → Inv c s'
unfolding interleave
interleave-Inv c [] s s' inv e = let same : s ≡ s' = cc in subst (Inv c) same inv
interleave-Inv c (t ∷ ts) s s' inv e =
    bind-Inv c (turn c t s) ts s' (turn-Inv c t s inv) (λ s1 i1 e1. interleave-Inv c ts s1 s' i1 e1)
      e

-- A queue at rest.
pub rest-Inv :
    (c : ℕ) (q : Queue) (xs : List ℕ) → Represents c q xs → Inv c (at q ready waiting xs [])
unfolding lost next_head next_tail Sending Taking
rest-Inv c q xs r = record {
  pending = xs;
  start = r.start;
  logs = refl;
  ring = record {
    start_in = r.start_in;
    size = r.size;
    fits = r.fits;
    used = λ i h. (r.used i h).0;
    kept = λ i h _. (r.used i h).1;
    free = r.free;
  };
  head_at = r.head_at;
  tail_at = r.tail_at;
  sending = tt;
  taking = tt;
}

-- From a queue that represents a list, after any interleaving of the loads and stores of one
-- producer with those of one consumer that calls __sw_queue_empty before each __sw_queue_consume,
-- as busy_wait does and __specpriv_begin_iter does not, in which no call of produce starts while
-- as many values as there are pairs are outstanding, the values sent are those received followed
-- by at most that many pending ones, in order.
pub interleave-order :
    (c : ℕ) (ts : List Turn) (q : Queue) (xs : List ℕ) (s : State)
    → Represents c q xs
    → interleave c ts (at q ready waiting xs []) ≡ some s
    → (pending : List ℕ) × (s.sent ≡ s.received ++ pending) × (length pending ≤ c)
interleave-order c ts q xs s r e =
    let inv = interleave-Inv c ts (at q ready waiting xs []) s (rest-Inv c q xs r) e in
    (inv.pending, inv.logs, inv.ring.fits)
