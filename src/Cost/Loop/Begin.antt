-- ===== src/Cost/Loop/Begin.antt =====
-- `__specpriv_begin_iter` and `busy_wait`: when they return, and when they run out of bounds.
use cos516_project.Prelude.{
  zero, ℕ, Bool, ◌<◌, ◌≤◌, ◌%◌, ◌+◌, ◌≡◌, some, pos, ◌-◌, arith, get_or, get_elem?-eq-get_or, ◌∙◌,
  ap, suc, not, true, negsuc, ◌==◌, ◌&&◌, ◌*◌, ◌≢◌, ℕ_discrete, refl, is_pos, subst, AtMost,
}
use cos516_project.Cost.Machine.{Machine, for_range, tally, ucvf_at, fault, reverse_at, ok, pure}
use cos516_project.Cost.Loop.{
  begin_iter, drain, receive, send_predictions, busy_wait, reverse_alloc,
}
use cos516_project.Cost.Valid.{IsValid, tally-IsTally, set_tally-AreValid, tally-set_tally_self}
use cos516_project.Cost.Machine.Rules.{Returns, weaken-Returns, returns}
use cos516_project.Cost.Constants.{mod_workers}
use cos516_project.Cost.Packet.Choice.{number_of}
use cos516_project.Cost.Loop.Drain.{drain_lem}
use cos516_project.Cost.Heap.{set_shadow_heaps, update_ver_malloc, update_ver_separation_malloc}
use cos516_project.Cost.Bounds.{
  for_range-Spends, then-Spends, Safe, Keeps, Costs-Keeps, Keeps-refl, then-Safe, for_range-Safe,
  if-Safe, Spends-Safe, pure-Spends, ticks-Spends,
}
use cos516_project.Cost.Invariant.Range.{
  update_loop_invariants-Spends, update_linear_predicted_values-Spends,
}
use cos516_project.Cost.Queue.{PacketType, classify, alloc, normal, done, super}
use cos516_project.Cost.Queue.Tally.{
  after, queue_produce_at-Spends, queue_consume_lem, classify-alloc, classify-normal,
  classify-super,
}

-- After the loop over a queue of uncommitted values the invariant holds and that queue is empty.
drain-Returns :
    (fuel wid source : ℕ) (s : Machine)
    → 16 < fuel
    → wid < 10
    → source < 10
    → IsValid s
    → Returns
        (λ _ t. Keeps s t × (tally (ucvf_at source wid) t.tallies ≡ some (pos 0)))
        (drain fuel wid (ucvf_at source wid) s)
drain-Returns fuel wid source s enough hw hs v =
    let ref = ucvf_at source wid in
    let (q, e, b) = tally-IsTally ref v.tallies (hs, hw) in
    let (n, e', b') = number_of q b in
    let h = get_or s.memory.heaps wid (record { kind = 0; is_ver = 0 }) in
    let eh =
      get_elem?-eq-get_or s.memory.heaps wid (record { kind = 0; is_ver = 0 })
        (rw v.memory.heaps (omega arith)) in
    rw (drain_lem wid ref h fuel n s (hs, hw) (e ∙ ap some e', b', v.tallies, eh) (omega arith)) (
      returns tt _ (
        record {
          valid = record {
            tallies = set_tally-AreValid ref (pos 0) v.tallies (hs, hw) (omega arith);
            buffers = v.buffers;
            memory = v.memory;
          };
          grows = omega arith;
        },
        tally-set_tally_self ref (pos 0) v.tallies (hs, hw),
      ))

send_predictions-Safe : (wid : ℕ) → wid < 10 → Safe (send_predictions wid)
unfolding send_predictions
send_predictions-Safe wid hw s v =
    let b = v.buffers in
    let loads = s.buffers.loads in
    let contexts = s.buffers.contexts in
    weaken-Returns
      (then-Spends _ _ (update_loop_invariants-Spends loads contexts b.max_loads b.max_contexts)
        (then-Spends _ _
          (update_linear_predicted_values-Spends loads contexts b.max_loads b.max_contexts)
          (for_range-Spends _ 2 0 λ k _ below. queue_produce_at-Spends wid k hw (omega arith)))
        s v)
      (λ _ t c. Costs-Keeps c)

receive-Safe :
    (fuel wid k : ℕ) → 16 < fuel → wid < 10 → 2 ≤ (wid + k) % 12 → Safe (receive fuel wid k)
unfolding receive
receive-Safe fuel wid k enough hw ok_source t vt =
    let row = (wid + k) % 12 - 2 in
    let inside : mod_workers (wid + k) ≡ pos row = ground arith in
    rw inside
      (weaken-Returns (drain-Returns fuel wid row t enough hw (omega arith) vt) (λ _ u p. p.0))

module _ (fuel wid iter my_stage : ℕ) (is_my_iter : Bool) where
  -- With more fuel than 16, a worker below 10 whose sources are all in range returns from
  -- __specpriv_begin_iter in a valid state and keeps the invariant.
  pub begin_iter-Safe :
      16 < fuel
      → wid < 10
      → ((i : ℕ) → i < my_stage → 2 ≤ (wid + i) % 12)
      → (s : Machine) → IsValid s
      → Returns (λ _ t. Keeps s t) (begin_iter fuel wid iter my_stage is_my_iter s)
  unfolding begin_iter set_shadow_heaps
  begin_iter-Safe enough hw sources =
      then-Safe _ _
        (for_range-Safe (receive fuel wid) my_stage
          (λ k below. receive-Safe fuel wid k enough hw (sources k below)))
        (then-Safe _ _
          (if-Safe (not (iter == 0) && my_stage == 0) _ _ (send_predictions-Safe wid hw)
            (Spends-Safe (pure tt) (pure-Spends tt)))
          (if-Safe is_my_iter _ _ (Spends-Safe _ (ticks-Spends 1 20 0))
            (Spends-Safe (pure tt) (pure-Spends tt))))

  -- The first source of worker 0 or 1 is -2 or -1.
  pub begin_iter-fault :
      (s : Machine)
      → 0 < my_stage
      → wid % 12 < 2
      → begin_iter fuel wid iter my_stage is_my_iter s ≡ fault
  unfolding begin_iter receive for_range
  begin_iter-fault s later low =
      let more : my_stage ≡ suc (my_stage - 1) = omega arith in
      let outside : mod_workers (wid + 0) ≡ negsuc (1 - wid % 12) = ground arith in
      rw (more, outside)

classify-pred : (n : ℕ) → n ≢ 0 → (type : PacketType) × (classify (pos n) ≡ (type, pos (n - 1)))
classify-pred n nz = elim (ℕ_discrete (n % 2) 1) [
  | yes odd ↦ (alloc, classify-alloc n odd)
  | no even ↦ elim (ℕ_discrete (n % 4) 2) [
    | yes twice_odd ↦ (normal, classify-normal n twice_odd)
    | no by_four ↦ (super, classify-super n nz (omega arith))
  ]
]

reverse_alloc_lem :
    (type : PacketType) (s : Machine)
    → (c : ℕ) × (reverse_alloc type s ≡ ok tt (record s { cost = s.cost + c })) × (c ≤ 400)
unfolding reverse_alloc update_ver_malloc update_ver_separation_malloc
reverse_alloc_lem normal s = (200, refl, omega arith)
reverse_alloc_lem done s = (200, refl, omega arith)
reverse_alloc_lem super s = (400, refl, omega arith)
reverse_alloc_lem alloc s = (400, refl, omega arith)

-- For a worker below 10 in a valid state with n packets from the commit process and more fuel
-- than n, busy_wait ends, empties the queue, keeps the invariant, and costs at most 406 for each
-- packet.
pub busy_wait-Returns :
    (wid fuel n : ℕ) (s : Machine)
    → wid < 10
    → IsValid s
    → tally (reverse_at wid) s.tallies ≡ some (pos n)
    → n < fuel
    → Returns
        (λ _ t.
          Keeps s t
          × (tally (reverse_at wid) t.tallies ≡ some (pos 0))
          × (t.cost ≤ s.cost + n * 406))
        (busy_wait fuel wid s)
unfolding busy_wait
busy_wait-Returns wid zero n s hw v e lt = absurd (omega arith)
busy_wait-Returns wid (suc fuel) n s hw v e lt = elim (ℕ_discrete n 0) [
  | yes z ↦ rw (e, z) (returns tt s (Keeps-refl v, rw (← z) e, omega arith))
  | no nz ↦
      let ref = reverse_at wid in
      let (type, c) = classify-pred n nz in
      let s' = after ref (pos (n - 1)) 6 s in
      let (k, f, most) = reverse_alloc_lem type s' in
      let t = record s' { cost = s'.cost + k } in
      let some_left : is_pos (pos n) ≡ true = ground arith in
      let (q, e', b) = tally-IsTally ref v.tallies hw in
      let same : q ≡ pos n = cc in
      let n_small : n ≤ 16 = subst (AtMost 16) same b in
      rw (e, some_left, queue_consume_lem ref (pos n) s e, c, f)
        (weaken-Returns
          (busy_wait-Returns wid fuel (n - 1) t hw
            (record {
              tallies = set_tally-AreValid ref (pos (n - 1)) v.tallies hw (omega arith);
              buffers = v.buffers;
              memory = v.memory;
            })
            (tally-set_tally_self ref (pos (n - 1)) v.tallies hw) (omega arith))
          (λ _ u r. (
            record { valid = r.0.valid; grows = omega (arith, r.0.grows) },
            r.1,
            omega (arith, r.2),
          )))
]
