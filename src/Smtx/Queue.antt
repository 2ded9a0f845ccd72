-- ===== src/Smtx/Queue.antt =====
-- translation/queue.c: a single-producer, single-consumer queue. Each entry is a pair of words, a
-- flag and a value; pointers into `data` are indices.
pub mod Pairs
pub mod Refine
pub mod Ring
pub mod Steps
pub mod Traces
use cos516_project.Prelude.{
  ℕ, zero, suc, ◌+◌, List, Option, none, some, Bool, true, false, get_or, set, replicate, leb, ◌==◌,
  if◌then◌else◌,
}

-- `queue_t`
pub record Queue : Type 0 where
  pub head : ℕ
  pub prealloc : ℕ
  pub tail : ℕ
  pub prealloc_tail : ℕ
  pub finished : ℕ
  pub slots : List ℕ

abbrev sw_queue_occupied : ℕ
sw_queue_occupied = 1

abbrev sw_queue_null : ℕ
sw_queue_null = 0

abbrev sync_not_finished : ℕ
sync_not_finished = 0

module _ (queue_size : ℕ) where
  -- `p += 2; if (p >= &data[QUEUE_SIZE]) p = &data[0];`
  abbrev pub advance : ℕ → ℕ
  advance p = if leb queue_size (p + 2) then 0 else p + 2

  unfoldable pub produce : Queue → ℕ → Queue
  produce q value = record q {
    head = advance q.head;
    slots = set (set q.slots (q.head + 1) value) q.head sw_queue_occupied;
  }

  -- The flag is cleared by copying the value that has just been cleared.
  unfoldable pub consume : Queue → ℕ × Queue
  consume q =
      let value = get_or q.slots (q.tail + 1) 0 in
      let cleared = set q.slots (q.tail + 1) sw_queue_null in
      let freed = set cleared q.tail (get_or cleared (q.tail + 1) 0) in
      (value, record q { tail = advance q.tail; slots = freed })

  -- while (*tail != NULL) { ... }; `none` means that the fuel ran out.
  pub clear : ℕ → Queue → Option Queue
  clear zero q = none
  clear (suc fuel) q =
      let rest =
        clear fuel (record q { tail = advance q.tail; slots = set q.slots q.tail sw_queue_null }) in
      if get_or q.slots q.tail 0 == sw_queue_null then some q else rest

  unfoldable pub reset : Queue → Queue
  reset q = record q {
    head = 0;
    tail = 0;
    finished = sync_not_finished;
    slots = replicate queue_size sw_queue_null;
  }

unfoldable pub empty : Queue → Bool
empty q = if get_or q.slots q.tail 0 == sw_queue_null then true else false
