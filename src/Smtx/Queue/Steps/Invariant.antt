-- ===== src/Smtx/Queue/Steps/Invariant.antt =====
-- What holds between two turns of a producer and a consumer.
use cos516_project.Prelude.{ℕ, ◌++◌, List, length, ◌≡◌, ◌*◌, ◌<◌, get_or, ◌∙◌}
use cos516_project.Smtx.Queue.Steps.{
  State, Producer, Consumer, ready, wrote, flagged, waiting, seen, took, erased, freed,
}
use cos516_project.Smtx.Queue.{advance}
use cos516_project.Smtx.Queue.Pairs.{value, slot}
use cos516_project.Smtx.Queue.Ring.{Ring}

-- How many of the oldest values the consumer has erased and not freed yet.
unfoldable pub lost : Consumer → ℕ
lost waiting = 0
lost seen = 0
lost (took x) = 0
lost (erased x) = 1
lost freed = 0

-- The index that a pointer has once the call it belongs to is over.
unfoldable pub next_head : ℕ → Producer → ℕ → ℕ
next_head c ready p = p
next_head c (wrote v) p = p
next_head c flagged p = advance (2 * c) p

unfoldable pub next_tail : ℕ → Consumer → ℕ → ℕ
next_tail c waiting p = p
next_tail c seen p = p
next_tail c (took x) p = p
next_tail c (erased x) p = p
next_tail c freed p = advance (2 * c) p

-- What the producer has put into the first free pair.
unfoldable pub Sending : ℕ → List ℕ → ℕ → List ℕ → Producer → Type 0
Sending c slots start xs ready = Unit
Sending c slots start xs (wrote v) = (length xs < c) × (value slots (slot c start (length xs)) ≡ v)
Sending c slots start xs flagged = Unit

-- What the consumer knows of the oldest pair.
unfoldable pub Taking : List ℕ → ℕ → List ℕ → Consumer → Type 0
Taking slots start xs waiting = Unit
Taking slots start xs seen = 0 < length xs
Taking slots start xs (took x) = (0 < length xs) × (get_or xs 0 0 ≡ x)
Taking slots start xs (erased x) = (0 < length xs) × (get_or xs 0 0 ≡ x) × (value slots start ≡ 0)
Taking slots start xs freed = Unit

pub record Inv (c : ℕ) (s : State) : Type 0 where
  pub pending : List ℕ
  pub start : ℕ
  pub logs : s.sent ≡ s.received ++ pending
  pub ring : Ring c s.queue.slots start pending (lost s.consumer)
  pub head_at : next_head c s.producer s.queue.head ≡ 2 * slot c start (length pending)
  pub tail_at : next_tail c s.consumer s.queue.tail ≡ 2 * start
  pub sending : Sending c s.queue.slots start pending s.producer
  pub taking : Taking s.queue.slots start pending s.consumer

-- The consumer's knowledge survives a change of the array that leaves the oldest value alone, and
-- more values behind it.
pub Taking-carry :
    (slots slots' xs xs' : List ℕ) (start : ℕ) (k : Consumer)
    → (0 < length xs
        → (0 < length xs')
          × (get_or xs' 0 0 ≡ get_or xs 0 0)
          × (value slots' start ≡ value slots start))
    → Taking slots start xs k
    → Taking slots' start xs' k
unfolding Taking
Taking-carry slots slots' xs xs' start waiting same t = t
Taking-carry slots slots' xs xs' start seen same h = (same h).0
Taking-carry slots slots' xs xs' start (took x) same (h, e) = ((same h).0, (same h).1 ∙ e)
Taking-carry slots slots' xs xs' start (erased x) same (h, e, z) =
    ((same h).0, (same h).1 ∙ e, (same h).2 ∙ z)
Taking-carry slots slots' xs xs' start freed same t = t

-- What the producer has written survives a change that leaves the first free pair alone.
pub Sending-carry :
    (c : ℕ) (slots slots' : List ℕ) (t t' : ℕ) (xs xs' : List ℕ) (p : Producer)
    → (length xs < c
        → (length xs' < c)
          × (value slots' (slot c t' (length xs')) ≡ value slots (slot c t (length xs))))
    → Sending c slots t xs p
    → Sending c slots' t' xs' p
unfolding Sending
Sending-carry c slots slots' t t' xs xs' ready same h = h
Sending-carry c slots slots' t t' xs xs' (wrote v) same (room, e) =
    ((same room).0, (same room).1 ∙ e)
Sending-carry c slots slots' t t' xs xs' flagged same h = h
