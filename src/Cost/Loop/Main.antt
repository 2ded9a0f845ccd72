-- ===== src/Cost/Loop/Main.antt =====
-- `main` as a whole: what its start sets up, and where it ends.
use cos516_project.Prelude.{
  ℕ, ◌<◌, arith, ◌≡◌, ◌%◌, refl, true, false, if◌then◌else◌, not, ◌==◌, ◌&&◌, ◌+◌, ◌∙◌, ap, some,
  ◌^◌, ◌≤◌, ◌*◌, dec_lt,
}
use cos516_project.Cost.Loop.{begin_invocation, one_iteration, run_worker, main, Locals, busy_wait}
use cos516_project.Cost.Packet.{init_packets}
use cos516_project.Cost.Bounds.{
  widen-Spends, then-Spends, ticks-Spends, tick-Spends, Safe, Keeps, if-Safe, Spends-Safe,
  pure-Spends, Costs,
}
use cos516_project.Cost.Queue.Setup.{init_queues-Spends}
use cos516_project.Cost.Invariant.Range.{init_buffers-Spends}
use cos516_project.Cost.Heap.Setup.{init_heaps-Spends}
use cos516_project.Cost.Valid.{IsValid, tally-IsTally}
use cos516_project.Cost.Machine.{for_fold, Machine, start, for_range, fault, pure, reverse_at}
use cos516_project.Cost.Machine.Rules.{Returns, bind-Returns, returns, Returns-eq, weaken-Returns}
use cos516_project.Cost.Loop.Begin.{
  begin_iter-fault, begin_iter-Safe, busy_wait-Returns, begin_iter-Safe,
}
use cos516_project.Cost.Packet.Choice.{number_of}
use cos516_project.Cost.Loop.Forward.{packets, end_iter-Spends}
use cos516_project.Cost.Loop.Own.{end_iter-fault}

-- From a valid state the setup of an invocation returns, keeps the invariant, and costs exactly
-- 16483184.
pub begin_invocation-Spends :
    (s : Machine) → IsValid s → Returns (λ _ t. Costs 16483184 16483184 s t) (begin_invocation s)
unfolding begin_invocation init_packets
begin_invocation-Spends =
    widen-Spends begin_invocation
      (then-Spends _ _ (init_queues-Spends 10 2 (omega arith) (omega arith) 16384) (
        then-Spends _ _ (init_buffers-Spends 12 12 (omega arith) (omega arith)) (
          then-Spends _ _ (then-Spends _ _ (ticks-Spends 200 12 0) (ticks-Spends 200 12 0))
            (then-Spends _ _ (init_heaps-Spends 0x1000 0x1000 0x1000) (tick-Spends 200)))))
      (omega arith) (omega arith)

pub start-IsValid : IsValid start
start-IsValid = record {
  tallies = record {
    ucvf = record { height = refl; width = omega arith };
    queues = record { height = refl; width = omega arith };
    commit = omega arith;
    reverse = omega arith;
  };
  buffers = record {
    invariants = record { height = refl; width = omega arith };
    predictors = record { height = refl; width = omega arith };
    some_loads = omega arith;
    max_loads = omega arith;
    some_contexts = omega arith;
    max_contexts = omega arith;
  };
  memory = omega arith;
}

module _ (row_address : ℕ → ℕ) (fuel : ℕ) (enough : 16 < fuel) where
  waits : (w : ℕ) → w < 10 → Safe (busy_wait fuel w)
  waits w hw s v =
      let (q, e, b) = tally-IsTally (reverse_at w) v.tallies hw in
      let (n, e', b') = number_of q b in
      weaken-Returns (busy_wait-Returns w fuel n s hw v (e ∙ ap some e') (omega arith))
        (λ _ t r. r.0)

  -- A worker at stage 0 stays there, and forwards to every stage above its iteration's number.
  one_iteration-Returns :
      (w k : ℕ) (l : Locals) (s : Machine)
      → w < 10
      → k < 2
      → l.my_stage ≡ 0
      → IsValid s
      → Returns
          (λ m t. (m.my_stage ≡ 0) × Keeps s t × (s.cost + 61560 * (packets k * 1206) ≤ t.cost))
          (one_iteration row_address fuel w k l s)
  unfolding one_iteration
  one_iteration-Returns w k l s hw hk e v =
      let stage = if not (k == 0) && k % 2 == 0 then l.my_stage + 1 else l.my_stage in
      let flag = if w % 2 == k % 2 then true else l.is_my_iter in
      let stays : stage ≡ 0 = ground arith in
      let begins = begin_iter-Safe fuel w k 0 flag enough hw (λ i h. absurd (omega arith)) in
      let may_wait =
        if-Safe (k == 0) (busy_wait fuel w) (pure tt) (waits w hw)
          (Spends-Safe (pure tt) (pure-Spends tt)) in
      rw stays (
        bind-Returns _ (begins s v) λ _ t p. bind-Returns _ (may_wait t p.valid) λ _ u q.
          bind-Returns _ (end_iter-Spends row_address w hw k u q.valid) λ _ x c.
            returns _ x (refl, record { valid = c.valid; grows = omega arith }, omega arith))

  two_rounds :
      (w : ℕ) (l : Locals) (s : Machine)
      → w < 10
      → l.my_stage ≡ 0
      → IsValid s
      → Returns
          (λ _ t. IsValid t × (s.cost + 2 ^ 31 ≤ t.cost))
          (for_fold 2 0 (one_iteration row_address fuel w) l s)
  unfolding for_fold
  two_rounds w l s hw e v =
      bind-Returns _ (one_iteration-Returns w 0 l s hw (omega arith) e v) λ m t p.
        bind-Returns _ (one_iteration-Returns w 1 m t hw (omega arith) p.0 p.1.valid)
          λ n u q. returns n u (q.1.valid, omega (arith, p.2, q.2))

  -- With more fuel than 16, in a valid state, a worker below 10 with an even number runs all its
  -- iterations, keeps the invariant, and adds at least 2^31 to the cost.
  pub run_worker-Returns :
      (w : ℕ) (s : Machine)
      → w < 10
      → w % 2 ≡ 0
      → IsValid s
      → Returns (λ _ t. IsValid t × (s.cost + 2 ^ 31 ≤ t.cost)) (run_worker row_address fuel w s)
  unfolding run_worker
  run_worker-Returns w s hw even v =
      bind-Returns (λ _. pure tt)
        (two_rounds w (record { my_stage = w % 2; is_my_iter = false }) s hw even v)
        (λ _ t p. returns tt t p)

  -- With more fuel than 16, in a valid state, a worker below 10 with an odd number runs out of
  -- bounds.
  pub run_worker-fault_odd :
      (w : ℕ) (s : Machine)
      → w < 10
      → w % 2 ≡ 1
      → IsValid s
      → run_worker row_address fuel w s ≡ fault
  unfolding run_worker for_fold one_iteration
  run_worker-fault_odd w s hw odd v =
      let own : (w % 2 == 0) ≡ false = ground arith in
      elim (dec_lt w 2) [
        | yes small ↦ rw (odd, begin_iter-fault fuel w 0 1 false s (omega arith) (omega arith))
        | no large ↦
            let (_, t, begins, p) =
              Returns-eq (begin_iter-Safe fuel w 0 1 false enough hw (λ i h. omega arith) s v) in
            let (_, u, waited, q) = Returns-eq (waits w hw t p.valid) in
            rw (odd, begins, waited, end_iter-fault row_address w 0 (omega arith) u q.valid)
      ]

  -- With more fuel than 16 for its `while` loops and wherever the arrays lie, `main` of the cost
  -- model runs out of the bounds of an array.
  pub main-fault : main row_address fuel start ≡ fault
  unfolding main for_range
  main-fault =
      let (_, t, begins, c) = Returns-eq (begin_invocation-Spends start start-IsValid) in
      let (_, u, first, vu) = Returns-eq (run_worker-Returns 0 t (omega arith) refl c.valid) in
      rw (begins, first, run_worker-fault_odd 1 u (omega arith) refl vu.0)
