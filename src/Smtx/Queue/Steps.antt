-- ===== src/Smtx/Queue/Steps.antt =====
-- translation/queue.c: a producer and a consumer that run at the same time. A turn is one load or
-- store of `__sw_queue_produce`, or of `__sw_queue_empty` and `__sw_queue_consume`, in program order.
-- The consumer asks `__sw_queue_empty` before each call of `__sw_queue_consume`, as busy_wait of
-- loopevent_trans.c does; `__sw_queue_consume` itself has no such test, and `__specpriv_begin_iter`
-- calls it without one.
pub mod Alone
pub mod Consume
pub mod Delivery
pub mod Drain
pub mod Invariant
pub mod Order
pub mod Produce
mod Tests
use cos516_project.Prelude.{
  zero, ℕ, ◌+◌, ◌*◌, List, Option, none, some, [], ◌∷◌, ◌++◌, length, get_or, set, ltb, true,
  if◌then◌else◌,
}
use cos516_project.Smtx.Queue.{Queue, advance, empty}

infixl 20 ◌>>=◌
abbrev pub ◌>>=◌ {ℓ κ} : {A : Type ℓ} {B : Type κ} → Option A → (A → Option B) → Option B
none >>= f = none
some a >>= f = f a

-- Where the producer stands: before `__sw_queue_produce`, after its value is written, and after the
-- flag is set.
pub data Producer : Type 0 where
  ready : Producer
  wrote : ℕ → Producer
  flagged : Producer

-- Where the consumer stands: before a call of `__sw_queue_empty`, after it has answered no, and
-- after each of the loads and stores of `__sw_queue_consume`.
pub data Consumer : Type 0 where
  waiting : Consumer
  seen : Consumer
  took : ℕ → Consumer
  erased : ℕ → Consumer
  freed : Consumer

-- The queue, the two positions, the values whose flag has been set, and those whose flag has been
-- cleared again.
pub record State : Type 0 where
  pub queue : Queue
  pub producer : Producer
  pub consumer : Consumer
  pub sent : List ℕ
  pub received : List ℕ

-- Whose turn it is; the value is the argument of a call of `__sw_queue_produce` that starts.
pub data Turn : Type 0 where
  produces : ℕ → Turn
  consumes : Turn

-- `while (!__sw_queue_empty(queue))`: a call of `__sw_queue_consume` starts only after
-- `__sw_queue_empty` has answered no.
abbrev pub poll_step : State → State
poll_step s = if empty s.queue then s else record s { consumer = seen }

module _ (c : ℕ) where
  -- A call of `__sw_queue_produce` starts when fewer than `c` values are outstanding: the code
  -- leaves that to its callers, and `none` is a call that breaks it.
  unfoldable pub produce_step : ℕ → Producer → State → Option State
  produce_step v ready s =
      let q = s.queue in
      if ltb (length s.sent) (length s.received + c)
      then some
          (record s { queue = record q { slots = set q.slots (q.head + 1) v }; producer = wrote v })
      else none
  produce_step _ (wrote v) s =
      let q = s.queue in
      some (record s {
        queue = record q { slots = set q.slots q.head 1 };
        producer = flagged;
        sent = s.sent ++ v ∷ [];
      })
  produce_step _ flagged s =
      let q = s.queue in
      some (record s { queue = record q { head = advance (2 * c) q.head }; producer = ready })

  unfoldable pub consume_step : Consumer → State → State
  consume_step waiting s = poll_step s
  consume_step seen s = record s { consumer = took (get_or s.queue.slots (s.queue.tail + 1) 0) }
  consume_step (took x) s =
      let q = s.queue in
      record s { queue = record q { slots = set q.slots (q.tail + 1) 0 }; consumer = erased x }
  consume_step (erased x) s =
      let q = s.queue in
      record s {
        queue = record q { slots = set q.slots q.tail (get_or q.slots (q.tail + 1) 0) };
        consumer = freed;
        received = s.received ++ x ∷ [];
      }
  consume_step freed s =
      let q = s.queue in
      record s { queue = record q { tail = advance (2 * c) q.tail }; consumer = waiting }

  unfoldable pub turn : Turn → State → Option State
  turn (produces v) s = produce_step v s.producer s
  turn consumes s = some (consume_step s.consumer s)

  unfoldable pub interleave : List Turn → State → Option State
  interleave [] s = some s
  interleave (t ∷ ts) s = do s' ← turn t s; interleave ts s'

-- A state by its fields.
abbrev pub at : Queue → Producer → Consumer → List ℕ → List ℕ → State
at q p k sent received = record {
  queue = q;
  producer = p;
  consumer = k;
  sent = sent;
  received = received;
}
