-- ===== src/Smtx/Loop/Receive.antt =====
-- translation/loopevent_trans.c: the start of an iteration, and the loop that waits.
use cos516_project.Prelude.{
  zero, suc, ℕ, ◌+◌, if◌then◌else◌, ◌*◌, Bool, get_elem?, not, ◌==◌, ◌%◌, some, false, ◌&&◌, ◌^◌,
  ◌/◌, true, leb,
}
use cos516_project.Smtx.Loop.{
  update_page, update_ver_malloc, update_ver_separation_malloc, set_shadow_heaps, Memory, Packet, M,
  ok, aborted, out_of_fuel, ◌>>=◌, ◌>>◌, pure, nothing, found, log, for_range, QueueRef,
  uncommitted, aux, reverse, queue_produce, queue_consume, queue_empty, load, release,
}

-- enum {NORMAL, SUPER, DONE, ALLOC}
abbrev pub normal : ℕ
normal = 0

abbrev pub super : ℕ
super = 1

abbrev pub done : ℕ
done = 2

abbrev pub alloc : ℕ
alloc = 3

abbrev pub check_ro_page : ℕ
check_ro_page = 2

abbrev regular : ℕ
regular = 0

abbrev separation : ℕ
separation = 1

abbrev pub page_size : ℕ
page_size = 4 * 1024

-- Eight bytes, and twice four.
abbrev sizeof_ver_malloc_instance : ℕ
sizeof_ver_malloc_instance = 8 + 4 + 4

abbrev pub num_aux_workers : ℕ
num_aux_workers = 2

-- `malloc` gives an address and what the memory there holds; the macro GET_ASSIGNED_HEAP is not
-- defined in the repository.
module _ (malloc : Memory → ℕ × Packet) (assigned_heap : ℕ → ℕ → ℕ) where
  unfoldable pub create_packet : M ℕ
  create_packet s =
      let (p, packet) = malloc s in
      ok p (record s { packets = λ a. if a == p then some packet else s.packets a })

  -- One round of the loop over the instances of an ALLOC packet.
  unfoldable pub alloc_instance : ℕ → ℕ → M (Unit {0})
  alloc_instance wid my_stage = do
    is_ver ← λ s. found (get_elem? s.is_ver (assigned_heap wid my_stage)) s
    if is_ver == 0 then log update_ver_separation_malloc else log update_ver_malloc

  -- The `switch` on the type; the result is `done`.
  unfoldable pub handle : ℕ → ℕ → QueueRef → Packet → M Bool
  handle wid my_stage ref packet =
      if packet.type == normal
      then (do queue_consume ref; pure false)
      else if packet.type == super
      then (if packet.is_write == check_ro_page
          then pure false
          else (do queue_consume ref; log update_page; pure false))
      else if packet.type == done
      then pure true
      else if packet.type == alloc
      then (if packet.size == 0
          then (do
            for_range (page_size / sizeof_ver_malloc_instance) 0 (λ _. alloc_instance wid my_stage)
            pure false)
          else pure false)
      else pure false

  -- One round of `while (!done)`.
  unfoldable pub receive_packet : ℕ → ℕ → M Bool
  receive_packet wid my_stage = do
    p ← queue_consume (uncommitted 0 wid)
    packet ← load p
    finished ← handle wid my_stage (uncommitted 0 wid) packet
    λ s. ok finished (release p s)

  unfoldable pub receive : ℕ → ℕ → ℕ → M (Unit {0})
  receive zero wid my_stage s = out_of_fuel
  receive (suc fuel) wid my_stage s =
      (do
        finished ← receive_packet wid my_stage
        elim finished [ true ↦ nothing | false ↦ receive fuel wid my_stage ])
        s

  -- The loops over the predicted values have no effect.
  unfoldable pub begin_iter : ℕ → ℕ → ℕ → ℕ → Bool → M (Unit {0})
  begin_iter fuel wid iter my_stage is_my_iter = do
    for_range my_stage 0 (λ _. receive fuel wid my_stage)
    if not (iter == 0) && (my_stage == 0)
        then for_range num_aux_workers 0 (λ i. do p ← create_packet; queue_produce (aux wid i) p)
        else nothing
    if is_my_iter then log set_shadow_heaps else nothing

-- The source of an allocation: the value, or its upper half.
abbrev pub source_of : Packet → ℕ
source_of packet =
    if packet.is_write == regular then packet.value % 2 ^ 32 else packet.value / 2 ^ 32

-- `src_wid_stage >= my_stage` compares the parameter with an inner variable of the same name whose
-- initial value is itself, and so is whatever was there.
module _ (indeterminate : Memory → ℕ) where
  abbrev pub is_applied : ℕ → ℕ → Packet → Memory → Bool
  is_applied wid my_stage packet s = leb (indeterminate s) my_stage && not (source_of packet == wid)

  -- One packet of the reverse commit queue.
  unfoldable pub reverse_commit : ℕ → ℕ → Packet → M (Unit {0})
  reverse_commit wid my_stage packet s =
      if packet.is_write == regular
      then (if is_applied wid my_stage packet s then log update_ver_malloc s else ok tt s)
      else if packet.is_write == separation
      then (if is_applied wid my_stage packet s
          then log update_ver_separation_malloc s
          else ok tt s)
      else aborted

  unfoldable pub busy_wait : ℕ → ℕ → ℕ → M (Unit {0})
  busy_wait zero wid my_stage s = out_of_fuel
  busy_wait (suc fuel) wid my_stage s =
      (do
        is_empty ← queue_empty (reverse wid)
        elim is_empty [
          | true ↦ nothing
          | false ↦ (do
            p ← queue_consume (reverse wid)
            packet ← load p
            reverse_commit wid my_stage packet
            busy_wait fuel wid my_stage)
        ])
        s
