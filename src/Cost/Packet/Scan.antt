-- ===== src/Cost/Packet/Scan.antt =====
-- The scan of packet.c over the queues: the first one that is not full, or the end.
use cos516_project.Prelude.{
  ℕ, zero, suc, ◌+◌, ◌*◌, ◌≤◌, ◌<◌, ◌≡◌, arith, Bool, true, false, ◌-◌, ap, ℕ_discrete, Bool-cases,
  inl, ◌∙◌, inr,
}
use cos516_project.Cost.Machine.{Machine, M, ok}
use cos516_project.Cost.Machine.Rules.{Returns, returns, weaken-Returns}
use cos516_project.Cost.Packet.{first_free}

-- A test that does not change the state, on the queues below `size`.
abbrev pub Reads : (ℕ → M Bool) → ℕ → Machine → (ℕ → Bool) → Type 0
Reads full size s answer =
    (i : ℕ) (c : ℕ)
    → i < size
    → full i (record s { cost = c }) ≡ ok (answer i) (record s { cost = c })

-- What a scan from `idx` finds: a queue whose test fails, or the end.
pub record Found (size idx : ℕ) (answer : ℕ → Bool) (s : Machine) (out : ℕ) (t : Machine)
    : Type 0 where
  pub in_range : out ≤ size
  pub past : idx ≤ out
  pub free : out < size → answer out ≡ false
  pub full_before : (i : ℕ) → idx ≤ i → i < out → answer i ≡ true
  pub state : t ≡ record s { cost = s.cost + 3 * (out - idx) }

pub first_free-Found :
    (full : ℕ → M Bool) (size : ℕ) (answer : ℕ → Bool) (left idx : ℕ) (s : Machine)
    → idx + left ≡ size
    → Reads full size s answer
    → Returns (Found size idx answer s) (first_free full left idx s)
unfolding first_free
first_free-Found full size answer zero idx s e reads = returns idx s (record {
  in_range = omega arith;
  past = omega arith;
  free = λ lt. absurd (omega arith);
  full_before = λ i p q. absurd (omega arith);
  state = ap (λ (k : ℕ). record s { cost = k }) (omega arith);
})
first_free-Found full size answer (suc left) idx s e reads =
    rw (reads idx s.cost (omega arith)) (elim (Bool-cases (answer idx)) [
      | inl taken ↦ rw taken (
          weaken-Returns
            (first_free-Found full size answer left (idx + 1) (record s { cost = s.cost + 3 })
              (omega arith) reads)
            λ out t f. record {
              in_range = f.in_range;
              past = omega (arith, f.past);
              free = f.free;
              full_before = λ i p q. full_from f i p q taken;
              state = f.state ∙ ap (λ (k : ℕ). record s { cost = k }) (omega (arith, f.past));
            })
      | inr free ↦ rw free (
          returns idx s (record {
            in_range = omega arith;
            past = omega arith;
            free = λ lt. free;
            full_before = λ i p q. absurd (omega arith);
            state = ap (λ (k : ℕ). record s { cost = k }) (omega arith);
          }))
    ])
  where
    full_from :
        {out : ℕ} {t : Machine}
        → Found size (idx + 1) answer (record s { cost = s.cost + 3 }) out t
        → (i : ℕ) → idx ≤ i
        → i < out
        → answer idx ≡ true
        → answer i ≡ true
    full_from f i p q taken = elim (ℕ_discrete i idx) [
      | yes same ↦ rw same taken
      | no other ↦ f.full_before i (omega arith) q
    ]
