-- ===== src/Smtx/Queue/Traces.antt =====
-- Whole uses of a queue: clearing it, and any sequence of calls against the list.
use cos516_project.Prelude.{
  zero, ℕ, List, Option, some, ◌≡◌, length, [], if◌then◌else◌, ◌<◌, ◌*◌, arith, ltb, suc, ◌++◌,
  none, ◌∷◌, ap, subst, Bool-cases, ◌∙◌, true, refl, inl, inr, ◌+◌, ◌≢◌, get_or-set_self,
}
use cos516_project.Smtx.Queue.{clear, Queue, produce, consume, empty, advance}
use cos516_project.Smtx.Queue.Refine.{
  Represents, front_free, front_used, clear_round, produce-Represents, consume-Represents,
}
use cos516_project.Smtx.Queue.Pairs.{slot, write_pair, flag, flag-write_pair_ne}

-- On a queue that represents a list, with more fuel than its length, __sw_queue_clear ends and
-- leaves the queue empty.
pub clear-Represents :
    (c fuel : ℕ) (q : Queue) (xs : List ℕ)
    → Represents c q xs
    → length xs < fuel
    → (q' : Queue) × (clear (2 * c) fuel q ≡ some q') × Represents c q' []
unfolding clear
clear-Represents c zero q xs r h = absurd (omega arith)
clear-Represents c (suc fuel) q [] r h = (q, rw (front_free c q r), r)
clear-Represents c (suc fuel) q (x ∷ xs) r h =
    rw (front_used c x xs q r) (clear-Represents c fuel _ xs (clear_round c x xs q r) (omega arith))

-- A call on a queue.
pub data Op : Type 0 where
  put : ℕ → Op
  get : Op

-- The values that the calls consume, and the queue they leave.
unfoldable pub run : ℕ → Queue → List Op → List ℕ × Queue
run size q [] = ([], q)
run size q (put v ∷ ops) = run size (produce size q v) ops
run size q (get ∷ ops) =
    let (x, q') = consume size q in let (out, last) = run size q' ops in (x ∷ out, last)

-- One more value ahead of what the later calls consume.
abbrev pub deliver : ℕ → Option (List ℕ × List ℕ) → Option (List ℕ × List ℕ)
deliver x none = none
deliver x (some (out, ys)) = some (x ∷ out, ys)

-- The same calls on a list of at most `c` values; `none` when one would overflow or underflow it.
unfoldable pub run_list : ℕ → List ℕ → List Op → Option (List ℕ × List ℕ)
run_list c xs [] = some ([], xs)
run_list c xs (put v ∷ ops) = if ltb (length xs) c then run_list c (xs ++ v ∷ []) ops else none
run_list c [] (get ∷ ops) = none
run_list c (x ∷ xs) (get ∷ ops) = deliver x (run_list c xs ops)

-- What a run on the queue has to do with one on the list.
abbrev pub Agrees : ℕ → List ℕ × Queue → List ℕ → List ℕ → Type 0
Agrees c result out ys = (result.0 ≡ out) × Represents c result.1 ys

Agrees-deliver :
    (c x : ℕ) (o : Option (List ℕ × List ℕ)) (result : List ℕ × Queue) (out ys : List ℕ)
    → ((out' ys' : List ℕ) → o ≡ some (out', ys') → Agrees c result out' ys')
    → deliver x o ≡ some (out, ys)
    → Agrees c (x ∷ result.0, result.1) out ys
Agrees-deliver c x none result out ys rec e = cc
Agrees-deliver c x (some (out', ys')) result out ys rec e =
    let (same, rest) = rec out' ys' refl in
    let e0 : x ∷ out' ≡ out = cc in
    let e1 : ys' ≡ ys = cc in (ap (◌∷◌ x) same ∙ e0, subst (λ l. Represents c result.1 l) e1 rest)

-- On a queue that represents a list, any sequence of produce and consume calls that keeps within
-- the capacity consumes what the same calls on a bounded list consume, and leaves the queue
-- representing that list.
pub run_refines :
    (c : ℕ) (ops : List Op) (q : Queue) (xs out ys : List ℕ)
    → Represents c q xs
    → run_list c xs ops ≡ some (out, ys)
    → Agrees c (run (2 * c) q ops) out ys
unfolding run run_list
run_refines c [] q xs out ys r e =
    let e0 : [] ≡ out = cc in let e1 : xs ≡ ys = cc in (e0, subst (λ l. Represents c q l) e1 r)
run_refines c (put v ∷ ops) q xs out ys r e = elim (Bool-cases (ltb (length xs) c)) [
  | inl room ↦
      run_refines c ops (produce (2 * c) q v) (xs ++ v ∷ []) out ys
        (produce-Represents c v q xs r (ground arith)) (rw room at e)
  | inr full ↦ absurd (ground arith)
]
run_refines c (get ∷ ops) q [] out ys r e = cc
run_refines c (get ∷ ops) q (x ∷ xs) out ys r e =
    let (first, rest) = consume-Represents c x xs q r in
    rw first (
      Agrees-deliver c x (run_list c xs ops) (run (2 * c) (consume (2 * c) q).1 ops) out ys
        (λ out' ys' e'. run_refines c ops (consume (2 * c) q).1 xs out' ys' rest e') e)

-- Consuming from an empty queue of more than one pair makes the next value that is produced go
-- unseen.
pub consume-empty :
    (c v : ℕ) (q : Queue)
    → 1 < c
    → Represents c q []
    → empty (produce (2 * c) (consume (2 * c) q).1 v) ≡ true
unfolding produce consume empty
consume-empty c v q h r =
    let t = r.start in
    let n = slot c t 1 in
    let once = write_pair q.slots t 0 0 in
    let inside : 2 * t + 1 < length q.slots = omega (arith, r.size, r.start_in) in
    let head_at_start : q.head ≡ 2 * t = r.head_at ∙ ground (arith, r.start_in) in
    let moved : advance (2 * c) (2 * t) ≡ 2 * n = ground (arith, r.start_in) in
    let apart : t ≢ n = ground (arith, r.start_in) in
    let still_free : flag (write_pair once t 1 v) n ≡ 0 =
      flag-write_pair_ne once t 1 v n apart
      ∙ flag-write_pair_ne q.slots t 0 0 n apart
      ∙ r.free 1 (omega arith) h in
    rw (r.tail_at, head_at_start, get_or-set_self q.slots (2 * t + 1) 0 0 inside, moved, still_free)
