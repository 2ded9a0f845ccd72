-- ===== src/Cost/Loop/Rounds.antt =====
-- One round of the loop of `__specpriv_begin_iter` over a queue of uncommitted values, for each kind
-- of packet.
use cos516_project.Prelude.{
  ℕ, zero, suc, ◌+◌, ◌-◌, ◌*◌, ◌%◌, ◌≤◌, ◌≡◌, ◌≢◌, inl, inr, refl, ap, ◌∙◌, arith, Bool-cases, true,
  false, pos, ◌==◌, if◌then◌else◌, some, get_elem?, leb,
}
use cos516_project.Cost.Machine.{Heap, Machine, ok, QueueRef, tally, set_tally, for_range}
use cos516_project.Cost.Machine.Rules.{for_range-tick}
use cos516_project.Cost.Valid.{AreValid, IsInRange, tally-set_tally_self, set_tally-set_tally}
use cos516_project.Cost.Queue.{PacketType, alloc, queue_consume}
use cos516_project.Cost.Queue.Tally.{
  after, queue_consume_lem, classify-done, classify-super, classify-normal, classify-alloc,
}
use cos516_project.Cost.Heap.{update_page, update_ver_malloc, update_ver_separation_malloc}
use cos516_project.Cost.Loop.{alloc_chunk, handle, drain}

-- What one instance of an ALLOC packet costs a worker whose heap is `h`.
abbrev pub chunk_cost : Heap → ℕ
chunk_cost h = if h.is_ver == 0 then 400 else 200

-- The state after the loop has taken `x` packets' worth of cost and read-only pages.
abbrev pub drained : QueueRef → ℕ → ℕ → ℕ → Machine → Machine
drained ref left c pages s = record s {
  cost = s.cost + c;
  ro_pages = s.ro_pages - pages;
  tallies = set_tally ref (pos left) s.tallies;
}

alloc_loop :
    (wid : ℕ) (h : Heap) (n i : ℕ) (s : Machine)
    → get_elem? s.memory.heaps wid ≡ some h
    → for_range n i (λ _. alloc_chunk wid) s ≡ ok tt (record s { cost = s.cost + n * chunk_cost h })
unfolding for_range alloc_chunk update_ver_malloc update_ver_separation_malloc
alloc_loop wid h zero i s e = ap (λ (k : ℕ). ok tt (record s { cost = k })) (omega arith)
alloc_loop wid h (suc n) i s e = rw e (elim (Bool-cases (h.is_ver == 0)) [
  | inl z ↦ rw z (
      alloc_loop wid h n (suc i) (record s { cost = s.cost + 400 }) e
      ∙ rw z (ap (λ (k : ℕ). ok tt (record s { cost = k })) (omega arith)))
  | inr z ↦ rw z (
      alloc_loop wid h n (suc i) (record s { cost = s.cost + 200 }) e
      ∙ rw z (ap (λ (k : ℕ). ok tt (record s { cost = k })) (omega arith)))
])

-- States that differ in the way their numbers are written.
abbrev state_with : QueueRef → Machine → ℕ → ℕ → ℕ → Machine
state_with ref s c pages left = record s {
  cost = c;
  ro_pages = pages;
  tallies = set_tally ref (pos left) s.tallies;
}

pub same_state :
    {c d p q m n : ℕ} (ref : QueueRef) (s : Machine)
    → c ≡ d
    → p ≡ q
    → m ≡ n
    → state_with ref s c p m ≡ state_with ref s d q n
same_state ref s e f g = λ i. state_with ref s (e i) (f i) (g i)

module _ (wid : ℕ) (ref : QueueRef) (n fuel : ℕ) (s : Machine)
    (e : tally ref s.tallies ≡ some (pos n)) (v : AreValid s.tallies) (r : IsInRange ref) where
  pub step-done : n ≡ 0 → drain (suc fuel) wid ref s ≡ ok tt (drained ref 0 6 0 s)
  unfolding drain handle
  step-done z =
      rw (queue_consume_lem ref (pos n) s e, z, classify-done)
        (ap (ok tt) (same_state ref s refl (omega arith) refl))

  pub step-alloc :
      (h : Heap)
      → get_elem? s.memory.heaps wid ≡ some h
      → n % 2 ≡ 1
      → drain (suc fuel) wid ref s
        ≡ drain fuel wid ref (drained ref (n - 1) (6 + 256 * chunk_cost h) 0 s)
  unfolding drain handle
  step-alloc h eh odd =
      rw
        (
          queue_consume_lem ref (pos n) s e,
          classify-alloc n odd,
          alloc_loop wid h 256 0 (after ref (pos (n - 1)) 6 s) eh,
        )
        (ap (drain fuel wid ref) (same_state ref s (omega arith) (omega arith) refl))

  -- The second packet of a pair: whatever its type, the tally goes down by one more.
  second :
      n % 2 ≡ 0
      → n ≢ 0
      → (type : PacketType) × (queue_consume ref (after ref (pos (n - 1)) 6 s)
          ≡ ok type (after ref (pos (n - 2)) 12 s))
  second even nz = (
    alloc,
    rw
        (
          queue_consume_lem ref (pos (n - 1)) (after ref (pos (n - 1)) 6 s)
              (tally-set_tally_self ref (pos (n - 1)) v r),
          classify-alloc (n - 1) (omega arith),
          set_tally-set_tally ref (pos (n - 1)) (pos (n - 1 - 1)) v r,
        )
        (ap (ok alloc) (same_state ref s (omega arith) refl (omega arith))),
  )

  pub step-normal :
      n % 4 ≡ 2 → drain (suc fuel) wid ref s ≡ drain fuel wid ref (drained ref (n - 2) 14 0 s)
  unfolding drain handle
  step-normal h =
      rw
        (
          queue_consume_lem ref (pos n) s e,
          classify-normal n h,
          (second (omega arith) (omega arith)).1,
        )
        (ap (drain fuel wid ref) (same_state ref s (omega arith) (omega arith) refl))

  -- A SUPER packet for a page that is only read.
  pub step-super_ro :
      n ≢ 0
      → n % 4 ≡ 0
      → 1 ≤ s.ro_pages
      → drain (suc fuel) wid ref s ≡ drain fuel wid ref (drained ref (n - 1) 7 1 s)
  unfolding drain handle
  step-super_ro nz h some_left =
      let test : leb 1 s.ro_pages ≡ true = ground arith in
      rw (queue_consume_lem ref (pos n) s e, classify-super n nz h, test)
        (ap (drain fuel wid ref) (same_state ref s (omega arith) refl refl))

  -- A SUPER packet with its pair, and a page to update.
  pub step-super_page :
      n ≢ 0
      → n % 4 ≡ 0
      → s.ro_pages ≡ 0
      → drain (suc fuel) wid ref s ≡ drain fuel wid ref (drained ref (n - 2) 14348 0 s)
  unfolding drain handle update_page
  step-super_page nz h none_left =
      let test : leb 1 s.ro_pages ≡ false = ground arith in
      rw
        (
          queue_consume_lem ref (pos n) s e,
          classify-super n nz h,
          test,
          (second (omega arith) nz).1,
          for_range-tick 56 256 0 (after ref (pos (n - 2)) 12 s),
        )
        (ap (drain fuel wid ref) (same_state ref s (omega arith) (omega arith) refl))
