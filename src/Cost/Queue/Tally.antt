-- ===== src/Cost/Queue/Tally.antt =====
-- The two operations on a tally, as equations on the whole state.
use cos516_project.Prelude.{ℕ, ◌+◌, ◌-◌, ◌%◌, ◌≡◌, ◌≢◌, refl, arith, ℤ, pos, suc_ℤ, some, ◌<◌}
use cos516_project.Cost.Machine.{Machine, ok, QueueRef, tally, set_tally, store, queue_at}
use cos516_project.Cost.Queue.{normal, super, done, alloc, classify, queue_consume, queue_produce}
use cos516_project.Cost.Valid.{IsValid, IsInRange, IsTally, tally-IsTally, set_tally-AreValid}
use cos516_project.Cost.Bounds.{Spends, Costs}
use cos516_project.Cost.Machine.Rules.{Returns, returns}

pub store_lem :
    (ref : QueueRef) (x q : ℤ) (s : Machine)
    → tally ref s.tallies ≡ some q
    → store ref x s ≡ ok tt (record s { tallies = set_tally ref x s.tallies })
store_lem ref x q s e = rw e

-- The state after a queue operation that writes the tally `x`.
abbrev pub after : QueueRef → ℤ → ℕ → Machine → Machine
after ref x c s = record s { cost = s.cost + c; tallies = set_tally ref x s.tallies }

pub queue_consume_lem :
    (ref : QueueRef) (q : ℤ) (s : Machine)
    → tally ref s.tallies ≡ some q
    → queue_consume ref s ≡ ok (classify q).0 (after ref (classify q).1 6 s)
unfolding queue_consume
queue_consume_lem ref q s e = rw (e, e)

queue_produce_lem :
    (ref : QueueRef) (q : ℤ) (s : Machine)
    → tally ref s.tallies ≡ some q
    → queue_produce ref s ≡ ok tt (after ref (suc_ℤ q) 6 s)
unfolding queue_produce
queue_produce_lem ref q s e = rw (e, e)

pub classify-done : classify (pos 0) ≡ (done, pos 0)
unfolding classify
classify-done = refl

pub classify-super : (n : ℕ) → n ≢ 0 → n % 4 ≡ 0 → classify (pos n) ≡ (super, pos (n - 1))
unfolding classify
classify-super n h e = ground arith

pub classify-normal : (n : ℕ) → n % 4 ≡ 2 → classify (pos n) ≡ (normal, pos (n - 1))
unfolding classify
classify-normal n e = ground arith

pub classify-alloc : (n : ℕ) → n % 2 ≡ 1 → classify (pos n) ≡ (alloc, pos (n - 1))
unfolding classify
classify-alloc n e = ground arith

-- Producing into a queue with room, or into one whose tally the invariant leaves open.
pub queue_produce-Costs :
    (ref : QueueRef) (q : ℤ) (s : Machine)
    → IsValid s
    → IsInRange ref
    → tally ref s.tallies ≡ some q
    → IsTally ref (suc_ℤ q)
    → Returns (λ _ t. Costs 6 6 s t) (queue_produce ref s)
queue_produce-Costs ref q s v r e b = rw (queue_produce_lem ref q s e) (
    returns tt (after ref (suc_ℤ q) 6 s) (record {
      valid = record {
        tallies = set_tally-AreValid ref (suc_ℤ q) v.tallies r b;
        buffers = v.buffers;
        memory = v.memory;
      };
      least = omega arith;
      most = omega arith;
    }))

pub queue_produce_at-Spends :
    (wid i : ℕ) → wid < 10 → i < 2 → Spends 6 6 (queue_produce (queue_at wid i))
queue_produce_at-Spends wid i h k s v =
    let (q, e, b) = tally-IsTally (queue_at wid i) v.tallies (h, k) in
    queue_produce-Costs (queue_at wid i) q s v (h, k) e tt
