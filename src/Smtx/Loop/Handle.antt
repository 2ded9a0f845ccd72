-- ===== src/Smtx/Loop/Handle.antt =====
-- What `__specpriv_begin_iter` does on the packets of one message, and on a run of messages.
use cos516_project.Prelude.{
  zero, suc, ℕ, ◌∷◌, ◌++◌, if◌then◌else◌, List, get_elem?, Bool, false, ◌≡◌, ◌==◌, some, ◌∙◌, inl,
  replicate, arith, refl, [], append-nil, Bool-cases, inr, ap, append_assoc, true,
}
use cos516_project.Smtx.Loop.{
  Memory, Packet, Outcome, ok, Work, update_page, update_ver_malloc, update_ver_separation_malloc,
  QueueRef, uncommitted, for_range, release, load,
}
use cos516_project.Smtx.Loop.Access.{
  Queued, Continues, Lasts, same-Continues, Continues-trans, queue_consume-Queued, get_queue-record,
  release-Queued, release-Continues, Continues-last,
}
use cos516_project.Smtx.Loop.Receive.{alloc_instance, handle, receive_packet}
use cos516_project.Smtx.Loop.Messages.{
  Message, words, ro_page, page, instances, chunk, unknown, header, shadows, Is, Stands,
  Stands-Continues, work_of, IsDone, Released, IsDone-Continues, release-Released,
}

-- One action of a step from a memory whose queue holds `xs`.
unfoldable Step : QueueRef → List ℕ → List Work → Memory → Outcome Bool → Type 0
Step ref xs w s result =
    (s' : Memory) × (result ≡ ok false s') × Queued ref s' xs × Continues s s' w

log-Step :
    (ref : QueueRef) (s : Memory) (xs : List ℕ) (w : List Work)
    → Queued ref s xs
    → Step ref xs w s (ok false (record s { work = s.work ++ w }))
unfolding Step Queued Lasts
log-Step ref s xs w (q, there, r) = (
  record s { work = s.work ++ w },
  refl,
  (q, get_queue-record ref s (s.work ++ w) s.packets ∙ there, r),
  record { work = refl; lasts = λ a. inl refl; is_ver = refl },
)

module _ (malloc : Memory → ℕ × Packet) (assigned_heap : ℕ → ℕ → ℕ) (wid my_stage v : ℕ) where
  abbrev pub malloc_work : Work
  malloc_work = if v == 0 then update_ver_separation_malloc else update_ver_malloc

  alloc_instances :
      (n i : ℕ) (s : Memory)
      → get_elem? s.is_ver (assigned_heap wid my_stage) ≡ some v
      → for_range n i (λ _. alloc_instance malloc assigned_heap wid my_stage) s
        ≡ ok tt (record s { work = s.work ++ replicate n malloc_work })
  unfolding for_range alloc_instance
  alloc_instances zero i s e = rw (append-nil s.work) refl
  alloc_instances (suc n) i s e =
      let s1 = record s { work = s.work ++ malloc_work ∷ [] } in
      let one : alloc_instance malloc assigned_heap wid my_stage s ≡ ok tt s1 =
        elim (Bool-cases (v == 0)) [ inl b ↦ rw (e, b) refl | inr b ↦ rw (e, b) refl ] in
      rw one (
        alloc_instances n (suc i) s1 e
        ∙ ap (λ w. ok tt (record s { work = w }))
            (append_assoc s.work (malloc_work ∷ []) (replicate n malloc_work)))

  handle-Step :
      (ref : QueueRef) (m : Message) (rest : List ℕ) (packet : Packet) (s : Memory)
      → Is m packet
      → Queued ref s (shadows m ++ rest)
      → get_elem? s.is_ver (assigned_heap wid my_stage) ≡ some v
      → Step ref rest
          (work_of malloc_work m)
          s
          (handle malloc assigned_heap wid my_stage ref packet s)
  unfolding Is shadows work_of handle Step
  handle-Step ref (words p q) rest packet s is queued e =
      let (s', consumed, left, k) = queue_consume-Queued ref s q rest queued in
      (s', rw (is, consumed) refl, left, k)
  handle-Step ref (ro_page p) rest packet s is queued e =
      (s, rw (is.0, is.1) refl, queued, same-Continues s s refl refl refl)
  handle-Step ref (page p q) rest packet s is queued e =
      let (s', consumed, left, k) = queue_consume-Queued ref s q rest queued in
      let writes : (packet.is_write == 2) ≡ false = ground (arith, is.1) in
      let (s'', logged, left', k') = log-Step ref s' rest (update_page ∷ []) left in
      (
        s'',
        rw (is.0, writes, consumed) logged,
        left',
        Continues-trans s s' s'' [] (update_page ∷ []) k k',
      )
  handle-Step ref (instances p) rest packet s is queued e =
      let (s', logged, left, k) = log-Step ref s rest (replicate 256 malloc_work) queued in
      (s', rw (is.0, is.1, alloc_instances 256 0 s e) logged, left, k)
  handle-Step ref (chunk p) rest packet s is queued e =
      let other : (packet.size == 0) ≡ false = ground (arith, is.1) in
      (s, rw (is.0, other) refl, queued, same-Continues s s refl refl refl)
  handle-Step ref (unknown p) rest packet s is queued e =
      let n0 : (packet.type == 0) ≡ false = ground (arith, is) in
      let n1 : (packet.type == 1) ≡ false = ground (arith, is) in
      let n2 : (packet.type == 2) ≡ false = ground (arith, is) in
      let n3 : (packet.type == 3) ≡ false = ground (arith, is) in
      (s, rw (n0, n1, n2, n3) refl, queued, same-Continues s s refl refl refl)

  pub receive_packet-Step :
      (m : Message) (rest : List ℕ) (s : Memory)
      → Stands s m
      → Queued (uncommitted 0 wid) s (header m ∷ shadows m ++ rest)
      → get_elem? s.is_ver (assigned_heap wid my_stage) ≡ some v
      → (s' : Memory) × (receive_packet malloc assigned_heap wid my_stage s ≡ ok false s')
        × Queued (uncommitted 0 wid) s' rest
        × Continues s s' (work_of malloc_work m)
        × Released s' (header m)
  unfolding Stands Step receive_packet load Lasts
  receive_packet-Step m rest s stands queued e =
      let ref = uncommitted 0 wid in
      let p = header m in
      let (s1, consumed, left, k) = queue_consume-Queued ref s p (shadows m ++ rest) queued in
      let (packet, there, is) = Stands-Continues s s1 [] m k stands in
      let (s2, handled, left2, k2) = handle-Step ref m rest packet s1 is left (rw k.is_ver e) in
      let (packet2, there2, _) =
        Stands-Continues s1 s2 (work_of malloc_work m) m k2 (packet, there, is) in
      (
        release p s2,
        rw (consumed, there, handled) refl,
        release-Queued ref s2 p rest left2,
        Continues-last s s2 (release p s2) (work_of malloc_work m)
            (Continues-trans s s1 s2 [] (work_of malloc_work m) k k2) (release-Continues s2 p),
        release-Released s2 p packet2 there2,
      )

  -- The DONE packet ends the loop.
  pub receive_packet-done :
      (d : ℕ) (rest : List ℕ) (s : Memory)
      → IsDone s d
      → Queued (uncommitted 0 wid) s (d ∷ rest)
      → (s' : Memory) × (receive_packet malloc assigned_heap wid my_stage s ≡ ok true s')
        × Queued (uncommitted 0 wid) s' rest
        × Continues s s' []
        × Released s' d
  unfolding IsDone handle receive_packet load Lasts
  receive_packet-done d rest s done queued =
      let ref = uncommitted 0 wid in
      let (s1, consumed, left, k) = queue_consume-Queued ref s d rest queued in
      let (packet, there, is) = IsDone-Continues s s1 [] d k done in
      (
        release d s1,
        rw (consumed, there, is) refl,
        release-Queued ref s1 d rest left,
        Continues-last s s1 (release d s1) [] k (release-Continues s1 d),
        release-Released s1 d packet there,
      )
