-- ===== src/Smtx/Loop/Drain.antt =====
-- What the waiting loop makes of the reverse commit queue.
use cos516_project.Prelude.{
  zero, suc, ℕ, ◌∷◌, ◌++◌, Bool, if◌then◌else◌, List, leb, ◌==◌, ◌≡◌, ◌%◌, [], ◌<◌, some, ap, ◌^◌,
  ◌/◌, ◌∙◌, ℕ_discrete, true, Bool-cases, length, false, arith, inl, append-nil, refl, inr, sym,
  append_assoc,
}
use cos516_project.Smtx.Queue.Refine.{empty-cons, empty-nil}
use cos516_project.Smtx.Loop.{
  Memory, Packet, ok, Work, update_ver_malloc, update_ver_separation_malloc, reverse, queue_empty,
  load, QueueRef, get_queue,
}
use cos516_project.Smtx.Loop.Access.{
  Queued, queue_consume-Queued, get_queue-record, queue_consume-packets,
}
use cos516_project.Smtx.Loop.Receive.{busy_wait, reverse_commit, source_of}

-- The work that an allocation asks for.
abbrev malloc_of : Packet → Work
malloc_of packet = if packet.is_write == 0 then update_ver_malloc else update_ver_separation_malloc

-- The work on the packets from other workers.
unfoldable pub reverse_work : ℕ → List Packet → List Work
reverse_work wid [] = []
reverse_work wid (packet ∷ ps) =
    let rest = reverse_work wid ps in
    if source_of packet == wid then rest else malloc_of packet ∷ rest

-- The packets at the addresses, each of the two kinds that the assertion allows.
unfoldable pub Loaded : Memory → List ℕ → List Packet → Type 0
Loaded s [] [] = Unit
Loaded s [] (p ∷ ps) = ⊥
Loaded s (x ∷ xs) [] = ⊥
Loaded s (x ∷ xs) (p ∷ ps) = (s.packets x ≡ some p) × (p.is_write < 2) × Loaded s xs ps

Loaded-same :
    (s s' : Memory) (xs : List ℕ) (ps : List Packet)
    → s'.packets ≡ s.packets
    → Loaded s xs ps
    → Loaded s' xs ps
unfolding Loaded
Loaded-same s s' [] [] e h = tt
Loaded-same s s' [] (p ∷ ps) e h = h
Loaded-same s s' (x ∷ xs) [] e h = h
Loaded-same s s' (x ∷ xs) (p ∷ ps) e (h, kind, hs) =
    (ap (λ f. f x) e ∙ h, kind, Loaded-same s s' xs ps e hs)

-- The answer of `__sw_queue_empty`.
queue_empty-nil : (ref : QueueRef) (s : Memory) → Queued ref s [] → queue_empty ref s ≡ ok true s
unfolding Queued queue_empty
queue_empty-nil ref s (q, there, r) = rw (there, empty-nil 8192 q r) refl

queue_empty-cons :
    (ref : QueueRef) (s : Memory) (x : ℕ) (xs : List ℕ)
    → Queued ref s (x ∷ xs)
    → queue_empty ref s ≡ ok false s
unfolding Queued queue_empty
queue_empty-cons ref s x xs (q, there, r) = rw (there, empty-cons 8192 x xs q r) refl

Queued-work :
    (ref : QueueRef) (s : Memory) (w : List Work) (xs : List ℕ)
    → Queued ref s xs
    → Queued ref (record s { work = w }) xs
unfolding Queued
Queued-work ref s w xs (q, there, r) = (q, get_queue-record ref s w s.packets ∙ there, r)

module _ (indeterminate : Memory → ℕ) (wid my_stage : ℕ) (applies : Bool)
    (read : (s : Memory) → leb (indeterminate s) my_stage ≡ applies) where
  abbrev pub reverse_commit_work : List Packet → List Work
  reverse_commit_work ps = if applies then reverse_work wid ps else []

  -- What one packet adds to the work.
  one_packet :
      (s : Memory) (p : Packet)
      → p.is_write < 2
      → reverse_commit indeterminate wid my_stage p s
        ≡ ok tt (record s { work = s.work ++ reverse_commit_work (p ∷ []) })
  unfolding reverse_commit reverse_work
  one_packet s p h = elim (ℕ_discrete p.is_write 0) [
    | yes w ↦ elim (Bool-cases applies) [
      | inl a ↦ elim (Bool-cases (p.value % 2 ^ 32 == wid)) [
        | inl b ↦ rw (w, read s, a, b, append-nil s.work) refl
        | inr b ↦ rw (w, read s, a, b) refl
      ]
      | inr a ↦ rw (w, read s, a, append-nil s.work) refl
    ]
    | no other ↦
        let w : p.is_write ≡ 1 = omega arith in
        elim (Bool-cases applies) [
          | inl a ↦ elim (Bool-cases (p.value / 2 ^ 32 == wid)) [
            | inl b ↦ rw (w, read s, a, b, append-nil s.work) refl
            | inr b ↦ rw (w, read s, a, b) refl
          ]
          | inr a ↦ rw (w, read s, a, append-nil s.work) refl
        ]
  ]

  reverse_commit_work-cons :
      (p : Packet) (ps : List Packet)
      → reverse_commit_work (p ∷ []) ++ reverse_commit_work ps ≡ reverse_commit_work (p ∷ ps)
  unfolding reverse_work
  reverse_commit_work-cons p ps = elim (Bool-cases applies) [
    | inl a ↦ elim (Bool-cases (source_of p == wid)) [
      | inl b ↦ rw (a, b) refl
      | inr b ↦ rw (a, b) refl
    ]
    | inr a ↦ rw a refl
  ]

  reverse_commit_work-nil : reverse_commit_work [] ≡ []
  unfolding reverse_work
  reverse_commit_work-nil = elim (Bool-cases applies) [ inl a ↦ rw a refl | inr a ↦ rw a refl ]

  -- Where the reverse commit queue of the worker holds packets of the two kinds that the
  -- assertion allows, with more fuel than packets busy_wait returns with the queue empty; the
  -- packets of other workers are applied where the uninitialised variable always lets the
  -- comparison hold, and none where it never does.
  pub busy_wait-drains :
      (fuel : ℕ) (xs : List ℕ) (ps : List Packet) (s : Memory)
      → length xs < fuel
      → Queued (reverse wid) s xs
      → Loaded s xs ps
      → (s' : Memory) × (busy_wait indeterminate fuel wid my_stage s ≡ ok tt s')
        × Queued (reverse wid) s' []
        × (s'.work ≡ s.work ++ reverse_commit_work ps)
  unfolding busy_wait Loaded load
  busy_wait-drains zero xs ps s h queued loaded = absurd (omega arith)
  busy_wait-drains (suc fuel) [] (p ∷ ps) s h queued loaded = elim loaded [ ]
  busy_wait-drains (suc fuel) (x ∷ xs) [] s h queued loaded = elim loaded [ ]
  busy_wait-drains (suc fuel) [] [] s h queued loaded = (
    s,
    rw (queue_empty-nil (reverse wid) s queued) refl,
    queued,
    rw (reverse_commit_work-nil) (sym (append-nil s.work)),
  )
  busy_wait-drains (suc fuel) (x ∷ xs) (p ∷ ps) s h queued (there, kind, loaded) =
      let ref = reverse wid in
      let (s1, consumed, left, k) = queue_consume-Queued ref s x xs queued in
      let same = queue_consume-packets ref s s1 x (get_queue ref s) refl consumed in
      let there1 : s1.packets x ≡ some p = rw same there in
      let s2 = record s1 { work = s1.work ++ reverse_commit_work (p ∷ []) } in
      let (s3, rest, left3, work3) =
        busy_wait-drains fuel xs ps s2 (omega arith) (Queued-work ref s1 s2.work xs left)
          (Loaded-same s s2 xs ps same loaded) in
      (
        s3,
        rw (queue_empty-cons ref s x xs queued, consumed, there1, one_packet s1 p kind) rest,
        left3,
        work3
            ∙ append_assoc s1.work (reverse_commit_work (p ∷ [])) (reverse_commit_work ps)
            ∙ ap (λ w. s1.work ++ w) (reverse_commit_work-cons p ps)
            ∙ ap (λ w. w ++ reverse_commit_work (p ∷ ps)) (k.work ∙ append-nil s.work),
      )
