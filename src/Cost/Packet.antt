-- ===== src/Cost/Packet.antt =====
-- simplified_translation/packet.c: the packet pools, and the choice of the queue that takes the
-- next packet.
pub mod Scan
pub mod Choice
pub mod Own
use cos516_project.Prelude.{ℕ, zero, suc, ◌+◌, ℤ, pred_ℤ, geb, leb, Bool, ◌==◌, if◌then◌else◌}
use cos516_project.Cost.Constants.{full_tally}
use cos516_project.Cost.Machine.{
  M, pure, ◌>>=◌, ◌>>◌, tick, index, QueueRef, ucvf_at, queue_at, commit_at, load, store, for_range,
}

unfoldable pub init_packets : ℕ → M (Unit {0})
init_packets n_all_workers = do
  for_range n_all_workers 0 (λ _. tick 200)
  for_range n_all_workers 0 (λ _. tick 200)

pub uninit_packets : ℕ → M (Unit {0})
uninit_packets n_all_workers = do
  for_range n_all_workers 0 (λ _. tick 500)
  for_range n_all_workers 0 (λ _. tick 500)

-- while (idx < size && full(idx)) { idx++; cost += 3; }, with `left` = size - idx rounds to go
unfoldable pub first_free : (ℕ → M Bool) → ℕ → ℕ → M ℕ
first_free full zero idx = pure idx
first_free full (suc left) idx = do
  b ← full idx
  if b then (do tick 3; first_free full left (idx + 1)) else pure idx

-- `queue >= QUEUE_SIZE/(PAGE_SIZE/4)`
pub is_full : QueueRef → M Bool
is_full ref = do q ← load ref; pure (geb q full_tally)

-- `queue -= 2`
pub drop_two : QueueRef → M (Unit {0})
drop_two ref = do q ← load ref; store ref (pred_ℤ (pred_ℤ q))

-- The common shape of the three functions: cost of the packet, scan, and the reset of queue 0.
available : (ℕ → M Bool) → QueueRef → ℕ → M ℕ
available full first size = do
  tick 1200
  idx ← first_free full size 0
  if idx == size then (do drop_two first; pure 0) else pure idx

pub get_available_commit_process_packet : ℕ → M ℕ
unfolding available
get_available_commit_process_packet num_aux_workers =
    available (λ i. is_full (commit_at i)) (commit_at 0) num_aux_workers

unfoldable pub get_available_ucvf_packet : ℤ → ℕ → M ℕ
unfolding available
get_available_ucvf_packet id size = do
  row ← index id
  available (λ i. is_full (ucvf_at row i)) (ucvf_at row 0) size

-- The test reads `queues[idx] >= 16`, with one index: it compares the address of a row of the
-- array, `row_address idx`, with the number.
pub get_available_packet : (ℕ → ℕ) → ℕ → ℕ → M ℕ
unfolding available
get_available_packet row_address id size =
    available (λ i. pure (leb full_tally (row_address i))) (queue_at id 0) size
