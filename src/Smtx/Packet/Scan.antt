-- ===== src/Smtx/Packet/Scan.antt =====
-- The loop of packet.c against the cyclic order of the packets.
use cos516_project.Prelude.{
  zero, ℕ, List, ◌<◌, ◌≡◌, length, arith, some, ◌+◌, ◌%◌, true, false, if-elim, suc, none, ◌∙◌, ap,
  leb, refl, Bool-cases, inl, sym, inr, subst,
}
use native.Mathlib.Nat.{mod_self, mod-eq_of_lt, mod-add-mod}
use cos516_project.Smtx.Packet.{scan, next_packet, is_packet_available}

-- `k` is the first available packet in the cyclic order from `next`, `steps` steps away.
pub record IsFirst (ptrs : List ℕ) (next steps k : ℕ) : Type 0 where
  pub place : k ≡ (next + steps) % length ptrs
  pub available : is_packet_available ptrs k ≡ true
  pub earlier : (i : ℕ) → i < steps → is_packet_available ptrs ((next + i) % length ptrs) ≡ false

pub next_packet-mod : (n next : ℕ) → next < n → next_packet n next ≡ (next + 1) % n
next_packet-mod n next h =
    if-elim (λ (t : ℕ). t ≡ (next + 1) % n) (leb n (next + 1))
      (λ e. let end_ : next + 1 ≡ n = ground (arith, e) in rw end_ (sym (mod_self n)))
      (λ e. sym (mod-eq_of_lt (ground (arith, e))))

next_packet-lt : (n next : ℕ) → next < n → next_packet n next < n
next_packet-lt n next h = ground arith

shift : (n next i : ℕ) → next < n → (next_packet n next + i) % n ≡ (next + suc i) % n
shift n next i h =
    ap (λ (t : ℕ). (t + i) % n) (next_packet-mod n next h)
    ∙ mod-add-mod (next + 1) n i
    ∙ ap (λ (t : ℕ). t % n) (omega arith)

no_steps : (n next : ℕ) → next < n → (next + 0) % n ≡ next
no_steps n next h = ap (λ (t : ℕ). t % n) (omega arith) ∙ mod-eq_of_lt h

still_earlier :
    (ptrs : List ℕ) (next steps : ℕ)
    → next < length ptrs
    → is_packet_available ptrs next ≡ false
    → ((i : ℕ)
        → i < steps
        → is_packet_available ptrs ((next_packet (length ptrs) next + i) % length ptrs) ≡ false)
    → (i : ℕ) → i < suc steps
    → is_packet_available ptrs ((next + i) % length ptrs) ≡ false
still_earlier ptrs next steps h busy rest zero lt =
    subst (λ p. is_packet_available ptrs p ≡ false) (sym (no_steps (length ptrs) next h)) busy
still_earlier ptrs next steps h busy rest (suc i) lt =
    subst (λ p. is_packet_available ptrs p ≡ false) (shift (length ptrs) next i h)
      (rest i (omega arith))

-- What the scan finds within a number of steps.
abbrev Finds : ℕ → List ℕ → ℕ → Type 0
Finds fuel ptrs next =
    (k : ℕ) × (steps : ℕ) × (scan fuel ptrs next ≡ some k) × IsFirst ptrs next steps k

scan-here :
    (fuel : ℕ) (ptrs : List ℕ) (next : ℕ)
    → next < length ptrs
    → is_packet_available ptrs next ≡ true
    → Finds (suc fuel) ptrs next
unfolding scan
scan-here fuel ptrs next h av = (
  next,
  0,
  rw av refl,
  record {
    place = sym (no_steps (length ptrs) next h);
    available = av;
    earlier = λ i lt. absurd (omega arith);
  },
)

scan-later :
    (fuel : ℕ) (ptrs : List ℕ) (next : ℕ)
    → next < length ptrs
    → is_packet_available ptrs next ≡ false
    → Finds fuel ptrs (next_packet (length ptrs) next)
    → Finds (suc fuel) ptrs next
unfolding scan
scan-later fuel ptrs next h busy (k, steps, found, first) = (
  k,
  suc steps,
  rw busy found,
  record {
    place = first.place ∙ shift (length ptrs) next steps h;
    available = first.available;
    earlier = still_earlier ptrs next steps h busy first.earlier;
  },
)

pub scan_lem :
    (distance fuel : ℕ) (ptrs : List ℕ) (next : ℕ)
    → next < length ptrs
    → is_packet_available ptrs ((next + distance) % length ptrs) ≡ true
    → distance < fuel
    → Finds fuel ptrs next
scan_lem distance zero ptrs next h av lt = absurd (omega arith)
scan_lem zero (suc fuel) ptrs next h av lt =
    scan-here fuel ptrs next h
      (subst (λ i. is_packet_available ptrs i ≡ true) (no_steps (length ptrs) next h) av)
scan_lem (suc distance) (suc fuel) ptrs next h av lt =
    elim (Bool-cases (is_packet_available ptrs next)) [
      | inl here ↦ scan-here fuel ptrs next h here
      | inr busy ↦ scan-later fuel ptrs next h busy (
          scan_lem distance fuel ptrs (next_packet (length ptrs) next)
            (next_packet-lt (length ptrs) next h)
            (subst (λ i. is_packet_available ptrs i ≡ true)
              (sym (shift (length ptrs) next distance h)) av)
            (omega arith))
    ]

-- The loop of an empty pool never ends: no bound on its rounds is enough.
pub scan-none :
    (fuel : ℕ) (ptrs : List ℕ) (next : ℕ)
    → ((p : ℕ) → p < length ptrs → is_packet_available ptrs p ≡ false)
    → next < length ptrs
    → scan fuel ptrs next ≡ none
unfolding scan
scan-none zero ptrs next busy h = refl
scan-none (suc fuel) ptrs next busy h = rw (busy next h) (
    scan-none fuel ptrs (next_packet (length ptrs) next) busy (next_packet-lt (length ptrs) next h))
