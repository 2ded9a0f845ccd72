-- ===== src/Smtx/Loop/RoundTrip.antt =====
-- Messages that one worker produces are those another one receives.
use cos516_project.Prelude.{
  ℕ, ◌+◌, ◌∷◌, ◌++◌, All, List, [], length, ◌≤◌, get_elem?, ◌≡◌, append-nil, some, arith,
  length-append, subst, append_assoc, ◌∙◌, refl, ap,
}
use cos516_project.Smtx.Loop.{
  Memory, Packet, M, ok, QueueRef, uncommitted, queue_produce, nothing, bind, ◌>>◌,
}
use cos516_project.Smtx.Loop.Access.{
  Queued, Continues, Continues-trans, same-Continues, queue_produce-Queued,
}
use cos516_project.Smtx.Loop.Receive.{receive}
use cos516_project.Smtx.Loop.Messages.{Message, stream, work_on, headers, Released}
use cos516_project.Smtx.Loop.Stream.{InMemory, receive-stream, InMemory-Continues}
use cos516_project.Smtx.Loop.Handle.{malloc_work}

-- Calls of `__sw_queue_produce` in a row.
unfoldable pub send : QueueRef → List ℕ → M (Unit {0})
send ref [] = nothing
send ref (x ∷ xs) = do queue_produce ref x; send ref xs

send-Queued :
    (ref : QueueRef) (ys xs : List ℕ) (s : Memory)
    → length xs + length ys ≤ 8192
    → Queued ref s xs
    → (s' : Memory) × (send ref ys s ≡ ok tt s') × Queued ref s' (xs ++ ys) × Continues s s' []
unfolding send
send-Queued ref [] xs s h queued =
    (s, refl, rw (append-nil xs) queued, same-Continues s s refl refl refl)
send-Queued ref (y ∷ ys) xs s h queued =
    let (s1, sent, held, k) = queue_produce-Queued ref s y xs (omega arith) queued in
    let grown : length (xs ++ y ∷ []) ≡ length xs + 1 = length-append xs (y ∷ []) in
    let (s2, rest, held2, k2) = send-Queued ref ys (xs ++ y ∷ []) s1 (omega (arith, grown)) held in
    (
      s2,
      rw sent rest,
      subst (Queued ref s2) (append_assoc xs (y ∷ []) ys) held2,
      Continues-trans s s1 s2 [] [] k k2,
    )

module _ (malloc : Memory → ℕ × Packet) (assigned_heap : ℕ → ℕ → ℕ) (wid my_stage v : ℕ) where
  -- Producing a run of messages and a DONE packet that fit into an empty queue from worker 0, and
  -- then receiving on the other side with more fuel than messages, returns, leaves the queue
  -- empty, does the work of each message in order, and marks the first packet of each as
  -- consumed.
  pub send-receive :
      (fuel : ℕ) (ms : List Message) (d : ℕ) (s : Memory)
      → InMemory fuel s (ms, d)
      → Queued (uncommitted 0 wid) s []
      → length (stream ms d []) ≤ 8192
      → get_elem? s.is_ver (assigned_heap wid my_stage) ≡ some v
      → (s' : Memory) × (bind
            (send (uncommitted 0 wid) (stream ms d []) s)
            (λ _. receive malloc assigned_heap fuel wid my_stage)
          ≡ ok tt s')
        × Queued (uncommitted 0 wid) s' []
        × (s'.work ≡ s.work ++ work_on (malloc_work malloc assigned_heap wid my_stage v) ms)
        × All (Released s') (headers ms d)
  unfolding InMemory
  send-receive fuel ms d s h queued room e =
      let (s1, sent, held, k) =
        send-Queued (uncommitted 0 wid) (stream ms d []) [] s (omega arith) queued in
      let (shorter, stand, done) = InMemory-Continues fuel s s1 [] (ms, d) k h in
      let (s2, ran, left, k2, freed) =
        receive-stream malloc assigned_heap wid my_stage v fuel ms d [] s1 shorter stand done held
          (rw k.is_ver e) in
      (
        s2,
        rw sent ran,
        left,
        k2.work
            ∙ ap (λ w. w ++ work_on (malloc_work malloc assigned_heap wid my_stage v) ms)
                (k.work ∙ append-nil s.work),
        freed,
      )
