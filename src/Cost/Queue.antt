-- ===== src/Cost/Queue.antt =====
-- simplified_translation/queue.c: setting up and taking down the queues, and the two operations on
-- a tally.
pub mod Tally
pub mod Setup
use cos516_project.Prelude.{ℕ, ◌+◌, ◌-◌, ℤ, pos, pred_ℤ, suc_ℤ, is_zero, divides, if◌then◌else◌}
use cos516_project.Cost.Machine.{
  M, pure, ◌>>=◌, ◌>>◌, tick, QueueRef, ucvf_at, queue_at, commit_at, reverse_at, load, store,
  for_range,
}

-- The anonymous enum of packet types.
pub data PacketType : Type 0 where
  normal super done alloc : PacketType

-- One queue: `mmap` it, write its tally, and clear its `queue_size` entries.
pub init_queue : QueueRef → ℕ → M (Unit {0})
init_queue ref queue_size = do tick 200; store ref (pos 0); for_range queue_size 0 (λ _. tick 13)

pub init_queues : ℕ → ℕ → ℕ → M (Unit {0})
init_queues num_workers num_aux_workers queue_size = do
  tick 200
  for_range num_workers 0 λ i. do
    tick 200
    for_range (num_workers - (i + 1)) (i + 1) (λ j. init_queue (ucvf_at i j) queue_size)
  tick 200
  for_range num_workers 0
      λ i. do tick 200; for_range num_aux_workers 0 (λ j. init_queue (queue_at i j) queue_size)
  tick 200
  for_range num_aux_workers 0 (λ j. init_queue (commit_at j) queue_size)
  tick 200
  for_range num_workers 0 (λ j. init_queue (reverse_at j) queue_size)

-- The parameter `queue_size` of the code is not read.
pub uninit_queues : ℕ → ℕ → M (Unit {0})
uninit_queues num_workers num_aux_workers = do
  tick 500
  for_range num_workers 0
      λ i. do tick 500; for_range (num_workers - (i + 1)) (i + 1) (λ _. tick 500)
  tick 500
  for_range num_workers 0 λ i. do tick 500; for_range num_aux_workers 0 (λ _. tick 500)
  tick 500
  for_range num_aux_workers 0 (λ _. tick 500)
  tick 500
  for_range num_workers 0 (λ _. tick 500)

-- The type that the tally stands for, and the tally afterwards.
pub classify : ℤ → PacketType × ℤ
classify q =
    if is_zero q
    then (done, q)
    else if divides 4 q
    then (super, pred_ℤ q)
    else if divides 2 q
    then (normal, pred_ℤ q)
    else (alloc, pred_ℤ q)

pub queue_consume : QueueRef → M PacketType
unfolding classify
queue_consume ref = do tick 6; q ← load ref; store ref (classify q).1; pure (classify q).0

pub queue_produce : QueueRef → M (Unit {0})
queue_produce ref = do tick 6; q ← load ref; store ref (suc_ℤ q)
