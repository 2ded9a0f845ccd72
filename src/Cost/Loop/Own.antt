-- ===== src/Cost/Loop/Own.antt =====
-- A worker's own iterations: the sources that `forward_packet` computes.
use cos516_project.Prelude.{
  zero, ℕ, ◌≤◌, true, ◌<◌, ◌≡◌, ◌+◌, List, ◌%◌, ◌-◌, length, arith, suc, get_elem?-eq-get_or,
  dec_lt, get_or, ◌≢◌,
}
use cos516_project.Cost.Machine.{for_range, Machine, Heaps, fault, Shadow, blank_shadow}
use cos516_project.Cost.Valid.{IsValid}
use cos516_project.Cost.Loop.{
  forward_area, end_iter, forward_packet, forward_pair, forward_to_stage,
}
use cos516_project.Cost.Loop.Counts.{update_counts_lem}
use cos516_project.Cost.Loop.Forward.{forward_own-fault, forward_own-Spends}
use cos516_project.Cost.Machine.Rules.{Returns-eq}

-- A later stage whose source is out of range stops the loop over the stages.
stages-fault :
    (wid n i j : ℕ) (s : Machine)
    → IsValid s
    → i ≤ j
    → j < i + n
    → (wid + j) % 12 < 2
    → for_range n i (forward_to_stage wid true) s ≡ fault
unfolding for_range
stages-fault wid zero i j s v lo hi low = absurd (omega arith)
stages-fault wid (suc n) i j s v lo hi low = elim (dec_lt ((wid + i) % 12) 2) [
  | yes here ↦ rw (forward_own-fault wid i s here)
  | no inside ↦
      let (_, t, e, c) = Returns-eq (forward_own-Spends wid i (omega arith) s v) in
      let later : i ≢ j = λ same. inside (rw same low) in
      rw (e, stages-fault wid n (suc i) j t c.valid (omega arith) (omega arith) low)
]

module _ (row_address : ℕ → ℕ) (wid my_stage : ℕ) (early : my_stage ≤ 7) where
  forward_packet-fault :
      (size : ℕ) (s : Machine)
      → IsValid s
      → forward_packet row_address wid size my_stage true s ≡ fault
  unfolding forward_packet
  forward_packet-fault size s v =
      let first = my_stage + 1 in
      let j = first + (24 - (wid + first) % 12) % 12 in
      rw (stages-fault wid (20 - first) first j s v (omega arith) (omega arith) (omega arith))

  forward_area-fault :
      (area : Heaps → List Shadow) (s : Machine)
      → length (area s.memory) ≡ 20
      → IsValid s
      → forward_area row_address area 20 wid my_stage true s ≡ fault
  unfolding forward_area forward_pair for_range
  forward_area-fault area s full v = rw (
    get_elem?-eq-get_or (area s.memory) 0 blank_shadow (rw full (omega arith)),
    forward_packet-fault (get_or (area s.memory) 0 blank_shadow).size s v,
  )

  -- In its own iterations, up to stage 7, a worker in a valid state runs out of bounds in
  -- __specpriv_end_iter.
  pub end_iter-fault : (s : Machine) → IsValid s → end_iter row_address wid my_stage true s ≡ fault
  unfolding end_iter
  end_iter-fault s v =
      let (e, vt) = update_counts_lem s v in
      rw (e, forward_area-fault (λ m. m.shadow_globals) _ vt.memory.shadow_globals vt)
