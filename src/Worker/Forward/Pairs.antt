-- ===== src/Worker/Forward/Pairs.antt =====
-- The packets of a page, read two by two: a packet of memory, then one of its shadow, as
-- `__specpriv_begin_iter` of translation/loopevent_trans.c takes them from the queue.
use cos516_project.Prelude.{
  zero, suc, ℕ, ◌∷◌, ◌++◌, List, [], Option, some, none, if◌then◌else◌, ◌==◌, ◌≡◌, ◌<◌, ◌≤◌, ◌+◌,
  ◌*◌, get_or, length, refl, arith, if-elim, ltb, false, true, Bool-cases, inl, inr,
}
use mathlib.Core.Option
use cos516_project.Worker.Shadow.Scan.{nonzero_words}
use cos516_project.Worker.Forward.{
  forward_words, forward_packet, forward_pair, Call, Check, Platform, Page, Sender,
}

-- Two packets: where the word stands, its value, and that of its shadow.
pub record Pair : Type 0 where
  pub address : ℕ
  pub value : ℕ
  pub shadow : ℕ
  pub check : Check
  pub shadow_check : Check

abbrev pub pair : ℕ → ℕ → ℕ → Check → Pair
pair address value shadow check = record {
  address = address;
  value = value;
  shadow = shadow;
  check = check;
  shadow_check = check;
}

-- The address of the second packet is NULL. `none` is a sequence that cannot be read so.
unfoldable pub pairs : List Call → Option (List Pair)
pairs [] = some []
pairs (forward_packet a v c ∷ forward_packet zero s d ∷ cs) =
    Option.map
      (λ ps. record { address = a; value = v; shadow = s; check = c; shadow_check = d } ∷ ps)
      (pairs cs)
pairs (c ∷ cs) = none

-- The first pair for an address.
abbrev pub pair_at : ℕ → List Pair → Option Pair
pair_at x [] = none
pair_at x (p ∷ ps) = if p.address == x then some p else pair_at x ps

-- The pairs of the words whose shadow is not zero.
unfoldable touched : ℕ → List ℕ → List ℕ → Check → List Pair
touched address (m ∷ mem) (s ∷ shadow) check =
    let rest = touched (address + 8) mem shadow check in
    if s == 0 then rest else pair address m s check ∷ rest
touched address mem shadow check = []

forward_words-pairs :
    (address : ℕ) (mem shadow : List ℕ) (check : Check)
    → pairs (forward_words address mem shadow check) ≡ some (touched address mem shadow check)
unfolding forward_words pairs touched
forward_words-pairs address [] shadow check = refl
forward_words-pairs address (m ∷ mem) [] check = refl
forward_words-pairs address (m ∷ mem) (s ∷ shadow) check =
    let rest = forward_words-pairs (address + 8) mem shadow check in
    elim (Bool-cases (s == 0)) [ inl clear ↦ rw clear rest | inr set_ ↦ rw (set_, rest) refl ]

touched-below :
    (address : ℕ) (mem shadow : List ℕ) (check : Check) (x : ℕ)
    → x < address
    → pair_at x (touched address mem shadow check) ≡ none
unfolding touched
touched-below address [] shadow check x lt = refl
touched-below address (m ∷ mem) [] check x lt = refl
touched-below address (m ∷ mem) (s ∷ shadow) check x lt =
    let other : (address == x) ≡ false = ground (arith, lt) in
    let rest = touched-below (address + 8) mem shadow check x (omega arith) in
    if-elim (λ (ps : List Pair). pair_at x ps ≡ none) (s == 0) (λ _. rest) (λ _. rw other rest)

touched-word :
    (address : ℕ) (mem shadow : List ℕ) (check : Check) (i : ℕ)
    → i < length mem
    → i < length shadow
    → pair_at (address + 8 * i) (touched address mem shadow check) ≡ (
        if get_or shadow i 0 == 0
        then none
        else some (pair (address + 8 * i) (get_or mem i 0) (get_or shadow i 0) check))
unfolding touched
touched-word address [] shadow check i lt lt' = absurd (omega arith)
touched-word address (m ∷ mem) [] check i lt lt' = absurd (omega arith)
touched-word address (m ∷ mem) (s ∷ shadow) check zero lt lt' =
    let here : address + 8 * 0 ≡ address = omega arith in
    let same : (address == address) ≡ true = ground arith in
    elim (Bool-cases (s == 0)) [
      | inl clear ↦
          rw (here, clear) (touched-below (address + 8) mem shadow check address (omega arith))
      | inr set_ ↦ rw (here, set_, same) refl
    ]
touched-word address (m ∷ mem) (s ∷ shadow) check (suc i) lt lt' =
    let there : address + 8 * suc i ≡ (address + 8) + 8 * i = omega arith in
    let other : (address == (address + 8) + 8 * i) ≡ false = ground arith in
    let rest = touched-word (address + 8) mem shadow check i (omega arith) (omega arith) in
    elim (Bool-cases (s == 0)) [
      | inl clear ↦ rw (there, clear) rest
      | inr set_ ↦ rw (there, set_, other) rest
    ]

length-touched :
    (address : ℕ) (mem shadow : List ℕ) (check : Check)
    → length mem ≡ length shadow
    → length (touched address mem shadow check) ≡ nonzero_words shadow
unfolding touched
length-touched address [] [] check e = refl
length-touched address [] (s ∷ shadow) check e = absurd (omega (arith, e))
length-touched address (m ∷ mem) [] check e = absurd (omega (arith, e))
length-touched address (m ∷ mem) (s ∷ shadow) check e =
    let rest = length-touched (address + 8) mem shadow check (omega (arith, e)) in
    elim (Bool-cases (s == 0)) [
      | inl clear ↦ rw clear (omega (arith, rest))
      | inr set_ ↦ rw set_ (omega (arith, rest))
    ]

-- With 1 to 8 counted words, where memory and shadow have the same size, the packets that
-- forward_pair adds can be read two by two, memory and then shadow with a NULL address, one pair
-- for each nonzero word of the shadow: at each word of the page there is a pair, with both values
-- and the kind of check, exactly where its shadow is not zero.
pub forward_pair-pairs :
    (u : Platform) (nonzero : ℕ) (p : Page) (check : Check) (s : Sender)
    → 0 < nonzero
    → nonzero ≤ 8
    → length p.mem ≡ length p.shadow
    → (cs : List Call) × (ps : List Pair) × ((forward_pair u nonzero p check s).0.calls
        ≡ s.calls ++ cs)
      × (pairs cs ≡ some ps)
      × (length ps ≡ nonzero_words p.shadow)
      × ((i : ℕ)
          → i < length p.mem
          → pair_at (p.address + 8 * i) ps ≡ (
              if get_or p.shadow i 0 == 0
              then none
              else some (pair (p.address + 8 * i) (get_or p.mem i 0) (get_or p.shadow i 0) check)))
unfolding forward_pair
forward_pair-pairs u nonzero p check s lo hi same_size =
    let few : ltb 8 nonzero ≡ false = ground (arith, hi) in
    let some_words : (nonzero == 0) ≡ false = ground (arith, lo) in
    (
      forward_words p.address p.mem p.shadow check,
      touched p.address p.mem p.shadow check,
      rw (few, some_words) refl,
      forward_words-pairs p.address p.mem p.shadow check,
      length-touched p.address p.mem p.shadow check same_size,
      λ i h. touched-word p.address p.mem p.shadow check i h (omega (arith, same_size)),
    )
