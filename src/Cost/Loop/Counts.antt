-- ===== src/Cost/Loop/Counts.antt =====
-- The first part of `__specpriv_end_iter`: the two counts that bound the loops over the buffers.
use cos516_project.Prelude.{◌+◌, ◌≡◌, arith}
use cos516_project.Cost.Loop.{update_counts}
use cos516_project.Cost.Machine.{Machine, ok}
use cos516_project.Cost.Valid.{IsValid, AreBuffers}
use cos516_project.Cost.Invariant.Count.{
  next_count, walk_cost, clip_bounds, set_entries, update_shadow_loop_invariants_lem,
  update_shadow_linear_predicted_values_lem,
}

-- In a valid state the two counts become the clipped numbers of nonzero entries, the second below
-- the new first, at the cost of walking the entries; the state stays valid.
pub update_counts_lem :
    (s : Machine)
    → IsValid s
    → let b = s.buffers in
      let loads = next_count b.invariants b.loads b.contexts in
      let contexts = next_count b.predictors loads b.contexts in
      let t = record s {
        cost =
            s.cost
            + walk_cost b.invariants b.loads b.contexts
            + walk_cost b.predictors loads b.contexts;
        buffers = record b { loads = loads; contexts = contexts };
      } in
      (update_counts s ≡ ok tt t) × IsValid t
unfolding update_counts
update_counts_lem s v =
    let b = s.buffers in
    let loads = next_count b.invariants b.loads b.contexts in
    let l = clip_bounds 12 (set_entries b.invariants b.loads b.contexts) (omega arith) in
    let c = clip_bounds 12 (set_entries b.predictors loads b.contexts) (omega arith) in
    let t = record s {
      cost = s.cost + walk_cost b.invariants b.loads b.contexts;
      buffers = record b { loads = loads };
    } in
    let between : AreBuffers t.buffers = record {
      invariants = v.buffers.invariants;
      predictors = v.buffers.predictors;
      some_loads = l.0;
      max_loads = l.1;
      some_contexts = v.buffers.some_contexts;
      max_contexts = v.buffers.max_contexts;
    } in
    (
      rw (
        update_shadow_loop_invariants_lem b.loads b.contexts s v.buffers.max_loads
            v.buffers.max_contexts v.buffers,
        update_shadow_linear_predicted_values_lem loads b.contexts t l.1 v.buffers.max_contexts
            between,
      ),
      record {
        tallies = v.tallies;
        buffers = record {
          invariants = v.buffers.invariants;
          predictors = v.buffers.predictors;
          some_loads = l.0;
          max_loads = l.1;
          some_contexts = c.0;
          max_contexts = c.1;
        };
        memory = v.memory;
      },
    )
