-- ===== src/Smtx/Loop/Forward/Returns.antt =====
-- Where forward_packet returns.
use cos516_project.Prelude.{
  zero, suc, ℕ, ◌≡◌, List, refl, length, get_elem?, ◌≤◌, none, some, arith, [], ◌==◌, ◌<◌, ◌+◌,
  dec_lt, ◌-◌, if◌then◌else◌, ◌↔◌, get_or, get_elem?-eq-get_or,
}
use cos516_project.Smtx.Loop.{
  Memory, ok, get_queue, queue_produce, Packet, for_range, update_entry, put_queue, queue_size,
  entry, Outcome,
}
use cos516_project.Smtx.Queue.{Queue, produce}
use cos516_project.Smtx.Loop.Forward.{forward_to, forward_packet, num_stages}
use cos516_project.Smtx.Loop.Receive.{create_packet}
use cos516_project.Smtx.Loop.After.{After, Fails, After-bind, Fails-bind}
use cos516_project.Smtx.Loop.Forward.Narrow.{
  Narrow, get_elem?-none, forward_to-beyond, forward_to-Narrow,
}

-- A value for `get_or`.
own_default : Queue
own_default = record {
  head = 0;
  prealloc = 0;
  tail = 0;
  prealloc_tail = 0;
  finished = 0;
  slots = [];
}

module _ (malloc : Memory → ℕ × Packet) (assigned_heap : ℕ → ℕ → ℕ) (first_wid : ℕ → ℕ)
    (fuel : ℕ) where
  -- A loop that reaches a stage beyond the row does not return.
  forward_loop-Fails :
      (n wid my_stage count i : ℕ) (s : Memory)
      → Narrow n s wid
      → 0 < count
      → n < i + count
      → Fails (for_range count i (forward_to malloc assigned_heap first_wid fuel wid my_stage) s)
  unfolding for_range
  forward_loop-Fails n wid my_stage zero i s narrow some_left h = absurd (omega arith)
  forward_loop-Fails n wid my_stage (suc count) i s narrow some_left h = elim (dec_lt i n) [
    | yes inside ↦
        After-bind (λ _ s'. Narrow n s' wid × (s'.queues ≡ s.queues)) (λ _ _. ⊥)
          (forward_to malloc assigned_heap first_wid fuel wid my_stage i s) _
          (forward_to-Narrow malloc assigned_heap first_wid fuel n wid my_stage i s narrow)
          (λ _ s' k.
            forward_loop-Fails n wid my_stage count (suc i) s' k.0 (omega arith) (omega arith))
    | no outside ↦ Fails-bind (forward_to malloc assigned_heap first_wid fuel wid my_stage i s) _ (
        forward_to-beyond malloc assigned_heap first_wid fuel n wid my_stage i s narrow
          (omega arith))
  ]

  pub forward_packet-Fails :
      (n wid shadow_size my_stage : ℕ) (s : Memory)
      → Narrow n s wid
      → n < num_stages
      → my_stage + 1 < num_stages
      → Fails (forward_packet malloc assigned_heap first_wid fuel wid shadow_size my_stage s)
  unfolding forward_packet
  forward_packet-Fails n wid shadow_size my_stage s narrow h early =
      Fails-bind
        (for_range (num_stages - (my_stage + 1)) (my_stage + 1)
          (forward_to malloc assigned_heap first_wid fuel wid my_stage) s)
        _
        (forward_loop-Fails n wid my_stage (num_stages - (my_stage + 1)) (my_stage + 1) s narrow
          (omega arith) (omega arith))

  -- At the last stage, one packet is produced, into the worker's own entry of `queues`.
  last_stage-some :
      (wid shadow_size my_stage : ℕ) (s : Memory) (row : List Queue) (q : Queue)
      → num_stages ≤ my_stage + 1
      → get_elem? s.queues wid ≡ some row
      → get_elem? row wid ≡ some q
      → (s' : Memory) × (forward_packet malloc assigned_heap first_wid fuel wid shadow_size my_stage
            s
          ≡ ok tt s')
  unfolding forward_packet for_range create_packet queue_produce get_queue put_queue
  last_stage-some wid shadow_size my_stage s row q late there own =
      let over : num_stages - (my_stage + 1) ≡ 0 = omega arith in
      (
        record s {
          packets = λ a. if a == (malloc s).0 then some (malloc s).1 else s.packets a;
          queues = update_entry s.queues wid wid (produce queue_size q (malloc s).0);
        },
        rw (over, entry, there, own) refl,
      )

  last_stage-none :
      (wid shadow_size my_stage : ℕ) (s : Memory) (row : List Queue)
      → num_stages ≤ my_stage + 1
      → get_elem? s.queues wid ≡ some row
      → get_elem? row wid ≡ none
      → Fails (forward_packet malloc assigned_heap first_wid fuel wid shadow_size my_stage s)
  unfolding forward_packet for_range create_packet queue_produce get_queue After
  last_stage-none wid shadow_size my_stage s row late there own =
      let over : num_stages - (my_stage + 1) ≡ 0 = omega arith in rw (over, entry, there, own) tt

  not_both : (o : Outcome (Unit {0})) → Fails o → ((s' : Memory) × (o ≡ ok tt s')) → ⊥
  unfolding After
  not_both o fails (s', e) = rw e at fails

  -- Where the worker's row of ucvf_queues has fewer entries than there are stages, forward_packet
  -- returns exactly from the last stage on and for a worker whose number is an index of its own
  -- row of queues.
  pub forward_packet-returns :
      (n wid shadow_size my_stage : ℕ) (s : Memory) (row : List Queue)
      → Narrow n s wid
      → n < num_stages
      → get_elem? s.queues wid ≡ some row
      → ((s' : Memory) × (forward_packet malloc assigned_heap first_wid fuel wid shadow_size
              my_stage s
            ≡ ok tt s'))
        ↔ ((num_stages ≤ my_stage + 1) × (wid < length row))
  forward_packet-returns n wid shadow_size my_stage s row narrow h there =
      let result = forward_packet malloc assigned_heap first_wid fuel wid shadow_size my_stage s in
      (
        λ returns. elim (dec_lt (my_stage + 1) num_stages) [
          | yes early ↦ absurd (
              not_both result (forward_packet-Fails n wid shadow_size my_stage s narrow h early)
                returns)
          | no late ↦ elim (dec_lt wid (length row)) [
            | yes inside ↦ (omega arith, inside)
            | no outside ↦ absurd (
                not_both result
                  (last_stage-none wid shadow_size my_stage s row (omega arith) there
                    (get_elem?-none row wid (omega arith)))
                  returns)
          ]
        ],
        λ both.
            last_stage-some wid shadow_size my_stage s row (get_or row wid own_default) both.0 there
              (get_elem?-eq-get_or row wid own_default both.1),
      )
