-- ===== src/Smtx/Loop/Forward.antt =====
-- translation/loopevent_trans.c: the end of an iteration.
pub mod Narrow
pub mod Returns
use cos516_project.Prelude.{
  zero, suc, ℕ, ◌+◌, ◌∷◌, ◌++◌, ◌/◌, if◌then◌else◌, ◌-◌, Option, List, ◌==◌, get_elem?, some, none,
}
use cos516_project.Smtx.Packet.{get_available_packet, get_available_commit_process_packet, Pools}
use cos516_project.Smtx.Loop.{
  Memory, Packet, M, Outcome, ok, fault, out_of_fuel, ◌>>=◌, ◌>>◌, pure, nothing, found, for_range,
  uncommitted, aux, queue_produce,
}
use cos516_project.Smtx.Loop.Receive.{create_packet, page_size}

-- NUM_HEAPS, NUM_GLOBALS, NUM_STACKS and NUM_STAGES
abbrev pub num_heaps : ℕ
num_heaps = 20

abbrev pub num_globals : ℕ
num_globals = 20

abbrev pub num_stacks : ℕ
num_stacks = 20

abbrev pub num_stages : ℕ
num_stages = num_heaps

-- The search for an available packet: its result is not used, but it may not end.
abbrev pub take_packet : Option (ℕ × Pools) → M (Unit {0})
take_packet none s = out_of_fuel
take_packet (some (p, pools)) s = ok tt (record s { pools = pools })

module _ (malloc : Memory → ℕ × Packet) (assigned_heap : ℕ → ℕ → ℕ) (first_wid : ℕ → ℕ)
    (fuel : ℕ) where
  -- A worker without a pool is an access out of bounds.
  unfoldable pub get_available : ℕ → ℕ → M (Unit {0})
  get_available wid my_stage =
      if wid == first_wid my_stage
      then (λ s. take_packet (get_available_commit_process_packet fuel s.pools) s)
      else (do
        pool ← λ s. found (get_elem? s.pools.workers wid) s
        λ s. take_packet (get_available_packet fuel wid s.pools) s)

  -- One stage of the loop.
  unfoldable pub forward_to : ℕ → ℕ → ℕ → M (Unit {0})
  forward_to wid my_stage i = do
    get_available wid my_stage
    p ← create_packet malloc assigned_heap
    queue_produce (uncommitted wid i) p

  unfoldable pub forward_packet : ℕ → ℕ → ℕ → M (Unit {0})
  forward_packet wid shadow_size my_stage = do
    for_range (num_stages - (my_stage + 1)) (my_stage + 1) (forward_to wid my_stage)
    p ← create_packet malloc assigned_heap
    queue_produce (aux wid wid) p

  unfoldable pub forward_pair : ℕ → ℕ → ℕ → M (Unit {0})
  forward_pair wid shadow_size my_stage = do
    forward_packet wid shadow_size my_stage
    forward_packet wid shadow_size my_stage
    for_range (page_size / 8) 0
        (λ _. do forward_packet wid 8 my_stage; forward_packet wid 8 my_stage)

  -- A loop over the heaps of one sort, given the sizes of their shadows.
  unfoldable pub forward_heaps : ℕ → ℕ → ℕ → (Memory → List ℕ) → M (Unit {0})
  forward_heaps n wid my_stage sizes =
      for_range n 0
        (λ i. do size ← λ s. found (get_elem? (sizes s) i) s; forward_pair wid size my_stage)

  -- The updates of the shadow for predicted values stand elsewhere.
  unfoldable pub end_iter : M (Unit {0}) → ℕ → ℕ → ℕ → M (Unit {0})
  end_iter update_shadow wid iter my_stage =
      if wid == my_stage
      then (do
        update_shadow
        forward_heaps num_globals wid my_stage (λ s. s.shadow_globals)
        forward_heaps num_heaps wid my_stage (λ s. s.shadow_heaps)
        forward_heaps num_stacks wid my_stage (λ s. s.shadow_stacks))
      else nothing
