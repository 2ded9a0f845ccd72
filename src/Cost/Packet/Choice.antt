-- ===== src/Cost/Packet/Choice.antt =====
-- What packet.c chooses for the commit process and for a source.
use cos516_project.Prelude.{
  none, Option, ℕ, ◌+◌, ◌*◌, ◌≤◌, ◌<◌, ◌≡◌, arith, pos, some, Bool, true, false, ◌-◌, ap,
  Bool-cases, inl, ◌∙◌, inr, ℤ, AtMost, pred_ℤ, negsuc, refl, if◌then◌else◌, ◌==◌, geb, subst,
}
use cos516_project.Cost.Machine.{
  ◌>>◌, pure, Machine, ok, QueueRef, tally, set_tally, commit_at, ucvf_at,
}
use cos516_project.Cost.Machine.Rules.{Returns, returns, bind-Returns}
use cos516_project.Cost.Bounds.{Costs}
use cos516_project.Cost.Packet.{
  drop_two, is_full, available, get_available_ucvf_packet, get_available_commit_process_packet,
}
use cos516_project.Cost.Valid.{
  IsInRange, IsTally, IsValid, tally-IsTally, tally-set_tally_self, set_tally-AreValid,
}
use cos516_project.Cost.Packet.Scan.{Reads, Found, first_free-Found}

-- The outcome of a choice of queue: it costs 1200 and 3 for each full queue that is passed, the
-- index is in range, and the queue at it takes one more packet without passing 16.
pub record IsChoice (at : ℕ → QueueRef) (size : ℕ) (s : Machine) (out : ℕ) (t : Machine)
    : Type 0 where
  pub in_range : out < size
  pub room : (n : ℕ) × (tally (at out) t.tallies ≡ some (pos n)) × (n < 16)
  pub costs : Costs 1200 (1200 + 3 * size) s t

drop_two_lem :
    (ref : QueueRef) (n : ℕ) (s : Machine)
    → tally ref s.tallies ≡ some (pos n)
    → 2 ≤ n
    → drop_two ref s ≡ ok tt (record s { tallies = set_tally ref (pos (n - 2)) s.tallies })
unfolding drop_two
drop_two_lem ref n s e h =
    let two_less : pred_ℤ (pred_ℤ (pos n)) ≡ pos (n - 2) = ground arith in rw (e, e, two_less)

-- A counter that is not negative, as the number that it holds.
pub number_of : {b : ℕ} (q : ℤ) → AtMost b q → (n : ℕ) × (q ≡ pos n) × (n ≤ b)
number_of (pos n) h = (n, refl, h)
number_of (negsuc n) h = absurd h

-- What the code's test says of a tally.
abbrev tests_full : Option ℤ → Bool
tests_full none = true
tests_full (some q) = geb q 16

-- A family of queues whose tallies stay at 16 or below.
module _ (at : ℕ → QueueRef) (size : ℕ) (in_range : (i : ℕ) → i < size → IsInRange (at i))
    (bound : (i : ℕ) (q : ℤ) → IsTally (at i) q → AtMost 16 q)
    (fits : (i : ℕ) (q : ℤ) → AtMost 16 q → IsTally (at i) q) (s : Machine) (v : IsValid s) where
  held : (i : ℕ) → i < size → (n : ℕ) × (tally (at i) s.tallies ≡ some (pos n)) × (n ≤ 16)
  held i h =
      let (q, e, b) = tally-IsTally (at i) v.tallies (in_range i h) in
      let (n, e', b') = number_of q (bound i q b) in (n, e ∙ ap some e', b')

  abbrev answer : ℕ → Bool
  answer i = tests_full (tally (at i) s.tallies)

  is_full-Reads : Reads (λ i. is_full (at i)) size s answer
  unfolding is_full
  is_full-Reads i c h = let (n, e, b) = held i h in rw e

  answer-false :
      (i : ℕ)
      → i < size
      → answer i ≡ false
      → (n : ℕ) × (tally (at i) s.tallies ≡ some (pos n)) × (n < 16)
  answer-false i h free =
      let (n, e, b) = held i h in let free' = (rw e at free) in (n, e, ground arith)

  answer-true : (i : ℕ) → i < size → answer i ≡ true → tally (at i) s.tallies ≡ some (pos 16)
  answer-true i h full =
      let (n, e, b) = held i h in
      let full' = (rw e at full) in e ∙ ap (λ (k : ℕ). some (pos k)) (ground arith)

  Costs-state :
      (c : ℕ) (t : Machine)
      → t ≡ record s { cost = c }
      → s.cost + 1200 ≤ c
      → c ≤ s.cost + (1200 + 3 * size)
      → Costs 1200 (1200 + 3 * size) s t
  Costs-state c t e lo hi = rw e (record {
    valid = record { tallies = v.tallies; buffers = v.buffers; memory = v.memory };
    least = lo;
    most = hi;
  })

  -- No queue has room: the first one drops two packets.
  chosen_end :
      (t : Machine)
      → 0 < size
      → Found size 0 answer (record s { cost = s.cost + 1200 }) size t
      → Returns (IsChoice at size s) ((do drop_two (at 0); pure 0) t)
  chosen_end t pos_size f =
      let full = answer-true 0 pos_size (f.full_before 0 (omega arith) pos_size) in
      let u = record s { cost = s.cost + 1200 + 3 * (size - 0) } in
      let b = fits 0 (pos 14) (omega arith) in
      rw (f.state, drop_two_lem (at 0) 16 u full (omega arith))
        (returns 0 (record u { tallies = set_tally (at 0) (pos 14) s.tallies })
          (record {
            in_range = pos_size;
            room = (
              14,
              tally-set_tally_self (at 0) (pos 14) v.tallies (in_range 0 pos_size),
              omega arith,
            );
            costs = record {
              valid = record {
                tallies = set_tally-AreValid (at 0) (pos 14) v.tallies (in_range 0 pos_size) b;
                buffers = v.buffers;
                memory = v.memory;
              };
              least = omega arith;
              most = omega arith;
            };
          }))

  -- The scan stops at a queue with room.
  chosen_free :
      (out : ℕ) (t : Machine)
      → out < size
      → Found size 0 answer (record s { cost = s.cost + 1200 }) out t
      → Returns (IsChoice at size s) (pure out t)
  chosen_free out t h f = rw (f.state) (
      returns out (record s { cost = s.cost + 1200 + 3 * (out - 0) })
        (record {
          in_range = h;
          room = answer-false out h (f.free h);
          costs = Costs-state (s.cost + 1200 + 3 * (out - 0)) _ refl (omega arith) (omega arith);
        }))

  chosen :
      (out : ℕ) (t : Machine)
      → 0 < size
      → Found size 0 answer (record s { cost = s.cost + 1200 }) out t
      → Returns
          (IsChoice at size s)
          ((if out == size then (do drop_two (at 0); pure 0) else pure out) t)
  chosen out t pos_size f = elim (Bool-cases (out == size)) [
    | inl e ↦
        let end : out ≡ size = ground arith in
        rw e (
          chosen_end t pos_size
            (subst (λ n. Found size 0 answer (record s { cost = s.cost + 1200 }) n t) end f))
    | inr e ↦ rw e (chosen_free out t (ground (arith, f.in_range)) f)
  ]

  available-IsChoice :
      0 < size → Returns (IsChoice at size s) (available (λ i. is_full (at i)) (at 0) size s)
  unfolding available
  available-IsChoice pos_size =
      let u = record s { cost = s.cost + 1200 } in
      bind-Returns (λ idx. if idx == size then (do drop_two (at 0); pure 0) else pure idx)
        (first_free-Found (λ i. is_full (at i)) size answer size 0 u (omega arith) is_full-Reads)
        (λ out t f. chosen out t pos_size f)

-- In a valid state get_available_commit_process_packet returns a commit queue with room for one
-- more packet, at a cost from 1200 to 1206.
pub commit-IsChoice :
    (s : Machine)
    → IsValid s
    → Returns (IsChoice commit_at 2 s) (get_available_commit_process_packet 2 s)
unfolding get_available_commit_process_packet
commit-IsChoice s v =
    available-IsChoice commit_at 2 (λ i h. h) (λ i q h. h) (λ i q h. h) s v (omega arith)

-- In a valid state, for a source below 10, get_available_ucvf_packet returns a queue of that
-- source with room for one more packet, at a cost from 1200 to 1230.
pub ucvf-IsChoice :
    (row : ℕ) (s : Machine)
    → row < 10
    → IsValid s
    → Returns (IsChoice (ucvf_at row) 10 s) (get_available_ucvf_packet (pos row) 10 s)
unfolding get_available_ucvf_packet
ucvf-IsChoice row s h v =
    available-IsChoice (ucvf_at row) 10 (λ i k. (h, k)) (λ i q k. k) (λ i q k. k) s v (omega arith)
