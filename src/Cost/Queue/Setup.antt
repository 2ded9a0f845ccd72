-- ===== src/Cost/Queue/Setup.antt =====
-- Setting up the queues and taking them down: the costs, for any number of workers that the arrays
-- hold, and the invariant.
use cos516_project.Prelude.{zero, ℕ, ◌*◌, ◌≤◌, suc, ◌+◌, ◌≡◌, arith, pos, ◌-◌, refl, ap}
use cos516_project.Cost.Queue.{init_queue, init_queues, uninit_queues}
use cos516_project.Cost.Machine.{
  QueueRef, store, set_tally, ucvf_at, queue_at, commit_at, reverse_at, Machine,
}
use cos516_project.Cost.Valid.{IsInRange, IsTally, tally-IsTally, set_tally-AreValid, IsValid}
use cos516_project.Cost.Machine.Rules.{sum_range, returns, Returns}
use cos516_project.Cost.Bounds.{
  Spends, widen-Spends, then-Spends, tick-Spends, for_range-Spends_sum, for_range-Spends,
  ticks-Spends, Costs,
}
use cos516_project.Cost.Queue.Tally.{store_lem}

-- The number of pairs i < j below n.
abbrev pub pairs : ℕ → ℕ
pairs zero = 0
pairs (suc n) = n + pairs n

pairs-closed : (n : ℕ) → 2 * pairs n + n ≡ n * n
pairs-closed zero = refl
pairs-closed (suc n) = omega (arith, pairs-closed n)

-- One queue for each pair of workers, each worker and auxiliary worker, each auxiliary worker, and
-- each worker.
abbrev queue_count : ℕ → ℕ → ℕ
queue_count num_workers num_aux_workers =
    pairs num_workers + num_workers * num_aux_workers + num_aux_workers + num_workers

abbrev setup_cost : ℕ → ℕ → ℕ → ℕ
setup_cost num_workers num_aux_workers queue_size =
    200 * (4 + 2 * num_workers) + queue_count num_workers num_aux_workers * (200 + queue_size * 13)

abbrev teardown_cost : ℕ → ℕ → ℕ
teardown_cost num_workers num_aux_workers =
    500 * (4 + 2 * num_workers + queue_count num_workers num_aux_workers)

sum_pairs :
    (a b n i j : ℕ) → i + n ≡ j → sum_range (λ k. a + (j - (k + 1)) * b) n i ≡ n * a + pairs n * b
sum_pairs a b zero i j e = omega arith
sum_pairs a b (suc n) i j e =
    let first : j - (i + 1) ≡ n = omega arith in
    omega (arith, ap (λ (t : ℕ). t * b) first, sum_pairs a b n (suc i) j (omega arith))

init_queue-Spends :
    (ref : QueueRef) (queue_size : ℕ)
    → IsInRange ref
    → IsTally ref (pos 0)
    → Spends (200 + queue_size * 13) (200 + queue_size * 13) (init_queue ref queue_size)
unfolding init_queue
init_queue-Spends ref queue_size r b =
    widen-Spends (init_queue ref queue_size)
      (then-Spends _ _ (tick-Spends 200)
        (then-Spends (store ref (pos 0)) _ zeroed (ticks-Spends 13 queue_size 0)))
      (omega arith) (omega arith)
  where
    zeroed : Spends 0 0 (store ref (pos 0))
    zeroed s v =
        let (q, e, _) = tally-IsTally ref v.tallies r in
        rw (store_lem ref (pos 0) q s e) (
          returns tt (record s { tallies = set_tally ref (pos 0) s.tallies })
            (record {
              valid = record {
                tallies = set_tally-AreValid ref (pos 0) v.tallies r b;
                buffers = v.buffers;
                memory = v.memory;
              };
              least = omega arith;
              most = omega arith;
            }))

module _ (num_workers num_aux_workers : ℕ) (hw : num_workers ≤ 10) (ha : num_aux_workers ≤ 2) where
  -- For at most 10 workers and 2 auxiliary workers, in a valid state, init_queues returns, keeps
  -- the invariant, and costs the closed formula in the numbers of arrays, queues and entries.
  pub init_queues-Spends :
      (queue_size : ℕ)
      → (s : Machine) → IsValid s
      → Returns
          (λ _ t.
            Costs
              (setup_cost num_workers num_aux_workers queue_size)
              (setup_cost num_workers num_aux_workers queue_size)
              s
              t)
          (init_queues num_workers num_aux_workers queue_size s)
  unfolding init_queues
  init_queues-Spends queue_size =
      let q = 200 + queue_size * 13 in
      let sum = sum_pairs 200 q num_workers 0 num_workers (omega arith) in
      widen-Spends (init_queues num_workers num_aux_workers queue_size)
        (then-Spends _ _ (tick-Spends 200) (
          then-Spends _ _
            (for_range-Spends_sum (λ i. 200 + (num_workers - (i + 1)) * q) _ num_workers 0
              λ i _ hi. then-Spends _ _ (tick-Spends 200) (
                for_range-Spends _ (num_workers - (i + 1)) (i + 1) λ j lo hj.
                  init_queue-Spends (ucvf_at i j) queue_size (omega arith, omega arith)
                    (omega arith)))
            (then-Spends _ _ (tick-Spends 200) (
              then-Spends _ _
                (for_range-Spends _ num_workers 0 λ i _ hi. then-Spends _ _ (tick-Spends 200) (
                  for_range-Spends _ num_aux_workers 0 λ j _ hj.
                    init_queue-Spends (queue_at i j) queue_size (omega arith, omega arith) tt))
                (then-Spends _ _ (tick-Spends 200) (
                  then-Spends _ _
                    (for_range-Spends _ num_aux_workers 0 λ j _ hj.
                      init_queue-Spends (commit_at j) queue_size (omega arith) (omega arith))
                    (then-Spends _ _ (tick-Spends 200) (
                      for_range-Spends _ num_workers 0 λ j _ hj.
                        init_queue-Spends (reverse_at j) queue_size (omega arith)
                          (omega arith)))))))))
        (omega (arith, sum)) (omega (arith, sum))

-- In a valid state uninit_queues returns, keeps the invariant, and costs 500 for each of the
-- arrays and queues that init_queues sets up.
uninit_queues-Spends :
    (num_workers num_aux_workers : ℕ)
    → (s : Machine) → IsValid s
    → Returns
        (λ _ t.
          Costs
            (teardown_cost num_workers num_aux_workers)
            (teardown_cost num_workers num_aux_workers)
            s
            t)
        (uninit_queues num_workers num_aux_workers s)
unfolding uninit_queues
uninit_queues-Spends num_workers num_aux_workers =
    let sum = sum_pairs 500 500 num_workers 0 num_workers (omega arith) in
    widen-Spends (uninit_queues num_workers num_aux_workers)
      (then-Spends _ _ (tick-Spends 500) (
        then-Spends _ _
          (for_range-Spends_sum (λ i. 500 + (num_workers - (i + 1)) * 500) _ num_workers 0
            λ i _ hi.
              then-Spends _ _ (tick-Spends 500) (ticks-Spends 500 (num_workers - (i + 1)) (i + 1)))
          (then-Spends _ _ (tick-Spends 500) (
            then-Spends _ _
              (for_range-Spends _ num_workers 0
                λ i _ hi. then-Spends _ _ (tick-Spends 500) (ticks-Spends 500 num_aux_workers 0))
              (then-Spends _ _ (tick-Spends 500) (
                then-Spends _ _ (ticks-Spends 500 num_aux_workers 0)
                  (then-Spends _ _ (tick-Spends 500) (ticks-Spends 500 num_workers 0))))))))
      (omega (arith, sum)) (omega (arith, sum))
