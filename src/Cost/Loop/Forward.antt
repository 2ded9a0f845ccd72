-- ===== src/Cost/Loop/Forward.antt =====
-- Forwarding packets: which calls return, what they cost, and which run out of bounds.
use cos516_project.Prelude.{
  ℕ, ◌≤◌, ◌+◌, false, ◌%◌, true, ◌<◌, ◌≡◌, pos, arith, ◌-◌, ◌*◌, negsuc, List, length,
  get_elem?-eq-get_or, get_or,
}
use cos516_project.Cost.Loop.{
  forward_to_stage, forward_packet, forward_pair, end_iter, forward_area,
}
use cos516_project.Cost.Packet.{get_available_ucvf_packet, get_available_packet}
use cos516_project.Cost.Bounds.{
  Spends, Costs-trans, tick-Spends, widen-Spends, then-Spends, pure-Spends, for_range-Spends, Costs,
}
use cos516_project.Cost.Machine.{
  Machine, commit_at, fault, ucvf_at, tick, queue_at, Heaps, for_range, Shadow, blank_shadow,
}
use cos516_project.Cost.Machine.Rules.{bind-Returns, weaken-Returns, Returns}
use cos516_project.Cost.Queue.{queue_produce}
use cos516_project.Cost.Packet.Choice.{commit-IsChoice, ucvf-IsChoice}
use cos516_project.Cost.Packet.Own.{worker-choice}
use cos516_project.Cost.Queue.Tally.{queue_produce-Costs, queue_produce_at-Spends}
use cos516_project.Cost.Machine.{◌>>◌, ◌>>=◌}
use cos516_project.Cost.Constants.{mod_workers}
use cos516_project.Cost.Valid.{IsValid}

module _ (wid i : ℕ) where
  -- Outside its own iterations a worker produces into a commit queue.
  forward_to_stage-Spends : Spends 1206 1212 (forward_to_stage wid false i)
  unfolding forward_to_stage
  forward_to_stage-Spends s v =
      bind-Returns (λ idx. queue_produce (commit_at idx)) (commit-IsChoice s v)
        λ idx t c.
          let (n, e, room) = c.room in
          weaken-Returns
            (queue_produce-Costs (commit_at idx) (pos n) t c.costs.valid c.in_range e (omega arith))
            (λ _ u d. Costs-trans c.costs d)

  -- In its own iterations it produces into a queue of its source, if the source is in range,
  pub forward_own-Spends : 2 ≤ (wid + i) % 12 → Spends 1506 1536 (forward_to_stage wid true i)
  unfolding forward_to_stage
  forward_own-Spends h s v =
      let row = (wid + i) % 12 - 2 in
      let inside : mod_workers (wid + i) ≡ pos row = ground arith in
      rw inside (
        bind-Returns (λ idx. do queue_produce (ucvf_at row idx); tick 300)
          (ucvf-IsChoice row s (omega arith) v)
          λ idx t c.
            let (n, e, room) = c.room in
            bind-Returns (λ _. tick 300)
              (queue_produce-Costs (ucvf_at row idx) (pos n) t c.costs.valid
                (omega arith, c.in_range) e (omega arith))
              λ _ u d.
                weaken-Returns (tick-Spends 300 u d.valid)
                  (λ _ w f. Costs-trans (Costs-trans c.costs d) f))

  -- and otherwise writes out of bounds.
  pub forward_own-fault : (s : Machine) → (wid + i) % 12 < 2 → forward_to_stage wid true i s ≡ fault
  unfolding forward_to_stage get_available_ucvf_packet
  forward_own-fault s h =
      let outside : mod_workers (wid + i) ≡ negsuc (1 - (wid + i) % 12) = ground arith in rw outside

-- The packets of one call, outside the worker's own iterations: one for each later stage, and one
-- for the worker itself.
abbrev pub packets : ℕ → ℕ
packets my_stage = 20 - (my_stage + 1) + 1

module _ (row_address : ℕ → ℕ) (wid : ℕ) (in_range : wid < 10) (my_stage : ℕ) where
  own_packet-Spends :
      Spends 1206 1212
        (get_available_packet row_address wid 2 >>= λ idx. queue_produce (queue_at wid idx))
  own_packet-Spends s v =
      bind-Returns (λ idx. queue_produce (queue_at wid idx))
        (worker-choice row_address wid s in_range v)
        λ idx t c.
          weaken-Returns (queue_produce_at-Spends wid idx in_range c.0 t c.1.valid)
            (λ _ u d. Costs-trans c.1 d)

  forward_packet-Spends :
      (size : ℕ)
      → Spends
          (packets my_stage * 1206)
          (packets my_stage * 1212)
          (forward_packet row_address wid size my_stage false)
  unfolding forward_packet
  forward_packet-Spends size =
      let n = 20 - (my_stage + 1) in
      widen-Spends (forward_packet row_address wid size my_stage false)
        (then-Spends (for_range n (my_stage + 1) (forward_to_stage wid false)) _
          (for_range-Spends (forward_to_stage wid false) n (my_stage + 1)
            (λ k _ _. forward_to_stage-Spends wid k))
          own_packet-Spends)
        (omega arith) (omega arith)

  forward_pair-Spends :
      (size : ℕ)
      → Spends
          (1026 * (packets my_stage * 1206))
          (1026 * (packets my_stage * 1212))
          (forward_pair row_address wid size my_stage false)
  unfolding forward_pair
  forward_pair-Spends size =
      let one = forward_packet-Spends size in
      let small = forward_packet-Spends 8 in
      widen-Spends (forward_pair row_address wid size my_stage false)
        (then-Spends _ _ one
          (then-Spends _ _ one (for_range-Spends _ 512 0 λ k _ _. then-Spends _ _ small small)))
        (omega arith) (omega arith)

  forward_area-Spends :
      (area : Heaps → List Shadow)
      → ((s : Machine) → IsValid s → length (area s.memory) ≡ 20)
      → Spends
          (20 * (1026 * (packets my_stage * 1206)))
          (20 * (1026 * (packets my_stage * 1212)))
          (forward_area row_address area 20 wid my_stage false)
  unfolding forward_area
  forward_area-Spends area full = for_range-Spends _ 20 0 λ k _ below s v.
      let inside : k < length (area s.memory) = rw (full s v) (omega arith) in
      let e = get_elem?-eq-get_or (area s.memory) k blank_shadow inside in
      rw e (forward_pair-Spends (get_or (area s.memory) k blank_shadow).size s v)

  -- Outside its own iterations, a worker below 10 in a valid state returns from
  -- __specpriv_end_iter with the invariant and a cost between 61560 times the packets of a call
  -- times 1206 and 1212.
  pub end_iter-Spends :
      (s : Machine)
      → IsValid s
      → Returns
          (λ _ t. Costs (61560 * (packets my_stage * 1206)) (61560 * (packets my_stage * 1212)) s t)
          (end_iter row_address wid my_stage false s)
  unfolding end_iter
  end_iter-Spends =
      widen-Spends (end_iter row_address wid my_stage false)
        (then-Spends _ _ (pure-Spends tt) (
          then-Spends _ _
            (forward_area-Spends (λ m. m.shadow_globals) λ s v. v.memory.shadow_globals)
            (then-Spends _ _
              (forward_area-Spends (λ m. m.shadow_heaps) λ s v. v.memory.shadow_heaps)
              (forward_area-Spends (λ m. m.shadow_stacks) λ s v. v.memory.shadow_stacks))))
        (omega arith) (omega arith)
