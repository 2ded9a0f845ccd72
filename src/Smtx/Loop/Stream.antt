-- ===== src/Smtx/Loop/Stream.antt =====
-- What `__specpriv_begin_iter` makes of a queue of messages.
use cos516_project.Prelude.{
  zero, suc, ℕ, ◌∷◌, ◌++◌, All, List, [], length, ◌<◌, get_elem?, ◌≡◌, some, arith, refl, false,
  ◌==◌, not, ◌&&◌, Bool, true,
}
use cos516_project.Smtx.Loop.{Memory, Packet, ok, Work, uncommitted, for_range}
use cos516_project.Smtx.Loop.Access.{Queued, Continues, Continues-trans, same-Continues}
use cos516_project.Smtx.Loop.Receive.{receive, begin_iter}
use cos516_project.Smtx.Loop.Messages.{
  Message, header, Stands, Stands-Continues, Released, Released-Continues, stream, work_on, headers,
  IsDone, IsDone-Continues, work_of,
}
use cos516_project.Smtx.Loop.Handle.{malloc_work, receive_packet-Step, receive_packet-done}

Stands-All :
    (s s' : Memory) (w : List Work) (ms : List Message)
    → Continues s s' w
    → All (Stands s) ms
    → All (Stands s') ms
Stands-All s s' w [] k h = tt
Stands-All s s' w (m ∷ ms) k (h, hs) = (Stands-Continues s s' w m k h, Stands-All s s' w ms k hs)

and_false : (b : Bool) → (b && false) ≡ false
and_false true = refl
and_false false = refl

-- A batch: the messages and the DONE packet of one round of the loop over the stages.
abbrev pub Batch : Type 0
Batch = List Message × ℕ

-- What stands in the queue for all the rounds, before `rest`.
unfoldable pub batches : List Batch → List ℕ → List ℕ
batches [] rest = rest
batches ((ms, d) ∷ bs) rest = stream ms d (batches bs rest)

unfoldable pub batches_work : Work → List Batch → List Work
batches_work w [] = []
batches_work w ((ms, d) ∷ bs) = work_on w ms ++ batches_work w bs

-- Every batch is in memory, and is shorter than the fuel.
unfoldable pub InMemory : ℕ → Memory → Batch → Type 0
InMemory fuel s (ms, d) = (length ms < fuel) × All (Stands s) ms × IsDone s d

pub InMemory-Continues :
    (fuel : ℕ) (s s' : Memory) (w : List Work) (b : Batch)
    → Continues s s' w
    → InMemory fuel s b
    → InMemory fuel s' b
unfolding InMemory
InMemory-Continues fuel s s' w (ms, d) k h =
    (h.0, Stands-All s s' w ms k h.1, IsDone-Continues s s' w d k h.2)

InMemory-All :
    (fuel : ℕ) (s s' : Memory) (w : List Work) (bs : List Batch)
    → Continues s s' w
    → All (InMemory fuel s) bs
    → All (InMemory fuel s') bs
InMemory-All fuel s s' w [] k h = tt
InMemory-All fuel s s' w (b ∷ bs) k (h, hs) =
    (InMemory-Continues fuel s s' w b k h, InMemory-All fuel s s' w bs k hs)

module _ (malloc : Memory → ℕ × Packet) (assigned_heap : ℕ → ℕ → ℕ) (wid my_stage v : ℕ) where
  -- A run of messages and the DONE packet behind it are received in order.
  pub receive-stream :
      (fuel : ℕ) (ms : List Message) (d : ℕ) (rest : List ℕ) (s : Memory)
      → length ms < fuel
      → All (Stands s) ms
      → IsDone s d
      → Queued (uncommitted 0 wid) s (stream ms d rest)
      → get_elem? s.is_ver (assigned_heap wid my_stage) ≡ some v
      → (s' : Memory) × (receive malloc assigned_heap fuel wid my_stage s ≡ ok tt s')
        × Queued (uncommitted 0 wid) s' rest
        × Continues s s' (work_on (malloc_work malloc assigned_heap wid my_stage v) ms)
        × All (Released s') (headers ms d)
  unfolding receive stream work_on headers
  receive-stream zero ms d rest s h stand done queued e = absurd (omega arith)
  receive-stream (suc fuel) [] d rest s h stand done queued e =
      let (s', ran, left, k, freed) =
        receive_packet-done malloc assigned_heap wid my_stage v d rest s done queued in
      (s', rw ran refl, left, k, (freed, tt))
  receive-stream (suc fuel) (m ∷ ms) d rest s h (stands, stand) done queued e =
      let (s1, ran, left, k, freed) =
        receive_packet-Step malloc assigned_heap wid my_stage v m (stream ms d rest) s stands queued
          e in
      let w = work_of (malloc_work malloc assigned_heap wid my_stage v) m in
      let (s2, rest_ran, left2, k2, freed2) =
        receive-stream fuel ms d rest s1 (omega arith) (Stands-All s s1 w ms k stand)
          (IsDone-Continues s s1 w d k done) left (rw k.is_ver e) in
      (
        s2,
        rw ran rest_ran,
        left2,
        Continues-trans s s1 s2 w (work_on (malloc_work malloc assigned_heap wid my_stage v) ms) k
            k2,
        (Released-Continues s1 s2 _ (header m) k2 freed, freed2),
      )

  receive-batches :
      (fuel i : ℕ) (bs : List Batch) (rest : List ℕ) (s : Memory)
      → All (InMemory fuel s) bs
      → Queued (uncommitted 0 wid) s (batches bs rest)
      → get_elem? s.is_ver (assigned_heap wid my_stage) ≡ some v
      → (s' : Memory) × (for_range
            (length bs)
            i
            (λ _. receive malloc assigned_heap fuel wid my_stage)
            s
          ≡ ok tt s')
        × Queued (uncommitted 0 wid) s' rest
        × Continues s s' (batches_work (malloc_work malloc assigned_heap wid my_stage v) bs)
  unfolding for_range batches batches_work InMemory
  receive-batches fuel i [] rest s h queued e = (s, refl, queued, same-Continues s s refl refl refl)
  receive-batches fuel i ((ms, d) ∷ bs) rest s (h, hs) queued e =
      let mw = malloc_work malloc assigned_heap wid my_stage v in
      let (s1, ran, left, k, _) =
        receive-stream fuel ms d (batches bs rest) s h.0 h.1 h.2 queued e in
      let (s2, rest_ran, left2, k2) =
        receive-batches fuel (suc i) bs rest s1 (InMemory-All fuel s s1 (work_on mw ms) bs k hs)
          left (rw k.is_ver e) in
      (
        s2,
        rw ran rest_ran,
        left2,
        Continues-trans s s1 s2 (work_on mw ms) (batches_work mw bs) k k2,
      )

  -- From stage 1 on, in an iteration of another worker, where the queue from worker 0 starts with
  -- one batch of messages for each stage and the fuel exceeds each batch, begin_iter returns,
  -- leaves what stands behind the batches, and adds their work in order.
  pub begin_iter-batches :
      (fuel iter : ℕ) (bs : List Batch) (rest : List ℕ) (s : Memory)
      → 0 < my_stage
      → length bs ≡ my_stage
      → All (InMemory fuel s) bs
      → Queued (uncommitted 0 wid) s (batches bs rest)
      → get_elem? s.is_ver (assigned_heap wid my_stage) ≡ some v
      → (s' : Memory) × (begin_iter malloc assigned_heap fuel wid iter my_stage false s ≡ ok tt s')
        × Queued (uncommitted 0 wid) s' rest
        × (s'.work ≡ s.work ++ batches_work (malloc_work malloc assigned_heap wid my_stage v) bs)
  unfolding begin_iter
  begin_iter-batches fuel iter bs rest s later count h queued e =
      let (s', ran, left, k) = receive-batches fuel 0 bs rest s h queued e in
      let other : (my_stage == 0) ≡ false = ground (arith, later) in
      let skip : (not (iter == 0) && (my_stage == 0)) ≡ false =
        rw other (and_false (not (iter == 0))) in
      (s', rw (rw count at ran, skip) refl, left, k.work)
