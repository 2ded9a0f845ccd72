-- ===== src/Cost/Packet/Own.antt =====
-- What packet.c chooses among a worker's own queues.
use cos516_project.Prelude.{
  ℕ, ◌+◌, ◌*◌, ◌<◌, ◌≡◌, arith, some, Bool, ◌-◌, Bool-cases, inl, inr, ℤ, pred_ℤ, refl,
  if◌then◌else◌, ◌==◌, leb,
}
use cos516_project.Cost.Machine.{◌>>◌, pure, Machine, ok, QueueRef, tally, set_tally, queue_at}
use cos516_project.Cost.Machine.Rules.{Returns, returns, bind-Returns}
use cos516_project.Cost.Bounds.{Costs}
use cos516_project.Cost.Packet.{drop_two, get_available_packet}
use cos516_project.Cost.Valid.{IsValid, tally-IsTally, set_tally-AreValid}
use cos516_project.Cost.Packet.Scan.{Found, first_free-Found}

drop_two-any :
    (ref : QueueRef) (q : ℤ) (s : Machine)
    → tally ref s.tallies ≡ some q
    → drop_two ref s ≡ ok tt (record s { tallies = set_tally ref (pred_ℤ (pred_ℤ q)) s.tallies })
unfolding drop_two
drop_two-any ref q s e = rw (e, e)

-- `get_available_packet` reads no tally: whether it calls a queue full depends on where the rows of
-- the array lie in memory.
module _ (row_address : ℕ → ℕ) (id : ℕ) (s : Machine) (h : id < 10) (v : IsValid s) where
  abbrev row_full : ℕ → Bool
  row_full i = leb 16 (row_address i)

  picked :
      (out : ℕ) (t : Machine)
      → Found 2 0 row_full (record s { cost = s.cost + 1200 }) out t
      → Returns
          (λ idx u. (idx < 2) × Costs 1200 1206 s u)
          ((if out == 2 then (do drop_two (queue_at id 0); pure 0) else pure out) t)
  picked out t f =
      let u = record s { cost = s.cost + 1200 + 3 * (out - 0) } in
      let (q, e, b) = tally-IsTally (queue_at id 0) v.tallies (h, omega arith) in
      let x = pred_ℤ (pred_ℤ q) in
      elim (Bool-cases (out == 2)) [
        | inl last ↦
            rw (last, f.state, drop_two-any (queue_at id 0) q u e)
              (returns 0 (record u { tallies = set_tally (queue_at id 0) x s.tallies })
                (
                  omega arith,
                  record {
                    valid = record {
                      tallies = set_tally-AreValid (queue_at id 0) x v.tallies (h, omega arith) tt;
                      buffers = v.buffers;
                      memory = v.memory;
                    };
                    least = omega arith;
                    most = omega (arith, f.in_range);
                  },
                ))
        | inr early ↦
            let ne : out < 2 = ground (arith, f.in_range) in
            rw (early, f.state)
              (returns out u (
                ne,
                record {
                  valid = record { tallies = v.tallies; buffers = v.buffers; memory = v.memory };
                  least = omega arith;
                  most = omega arith;
                },
              ))
      ]

  -- In a valid state, for a worker below 10, get_available_packet returns an index below 2 and
  -- keeps the invariant, wherever the rows of the array lie, at a cost from 1200 to 1206.
  pub worker-choice :
      Returns (λ out t. (out < 2) × Costs 1200 1206 s t) (get_available_packet row_address id 2 s)
  unfolding get_available_packet
  worker-choice =
      bind-Returns (λ idx. if idx == 2 then (do drop_two (queue_at id 0); pure 0) else pure idx)
        (first_free-Found (λ i. pure (row_full i)) 2 row_full 2 0
          (record s { cost = s.cost + 1200 }) (omega arith) (λ i c k. refl))
        picked
