-- ===== src/Worker/Forward.antt =====
-- loopevent_orig.cpp: how a worker sends the pages it touched. What the calls of forward_page,
-- forward_packet and broadcast_event send is appended to a list, in the order of the calls.
use cos516_project.Prelude.{
  zero, List, ◌++◌, if◌then◌else◌, ℕ, ◌==◌, not, ◌∷◌, ltb, Bool, bit_and, [], replicate, false, ◌+◌,
  set,
}
use cos516_project.Worker.Shadow.{clear_read}
pub mod Buffer
pub mod Pairs
pub mod Pages
pub mod ReadOnly

pub data Check : Type 0 where
  check_free : Check
  check_required : Check
  check_ro_page : Check

-- A call: the address and the bytes there (as words) for a page, the address and the value for a
-- packet of 8 bytes.
pub data Call : Type 0 where
  forward_page : ℕ → List ℕ → Check → Call
  forward_packet : ℕ → ℕ → Check → Call
  broadcast_eoi : Call
  broadcast_malloc_chunk : List ℕ → ℕ → Call
  misspec : Call

-- `PAGE_SIZE / 8`.
abbrev pub ro_entry_buffer_size : ℕ
ro_entry_buffer_size = 512

-- ReadOnlyPageBuffer, and the calls so far.
pub record Sender : Type 0 where
  pub data_ : List ℕ
  pub index : ℕ
  pub calls : List Call

abbrev pub send : Call → Sender → Sender
send c s = record s { calls = s.calls ++ c ∷ [] }

pub blank_buffer : List ℕ
blank_buffer = replicate ro_entry_buffer_size 0

-- forward_page, then the memset. The index is left as it is.
unfoldable pub flush : ℕ → Sender → Sender
flush buffer_address s = record (send (forward_page buffer_address s.data_ check_ro_page) s) {
  data_ = blank_buffer;
}

-- `buffer_address` is that of `ro_page_buffer.data`.
unfoldable pub forward_ro_page : ℕ → Sender → Sender
forward_ro_page buffer_address s = if s.index == 0 then s else flush buffer_address s

-- The guard of `buffer_ro_page`.
unfoldable pub make_room : ℕ → Sender → Sender
make_room buffer_address s =
    if s.index == ro_entry_buffer_size
    then record (forward_ro_page buffer_address s) { index = 0 }
    else s

abbrev pub put_entry : ℕ → Sender → Sender
put_entry page s = record s { data_ = set s.data_ s.index page; index = s.index + 1 }

unfoldable pub buffer_ro_page : ℕ → ℕ → Sender → Sender
buffer_ro_page buffer_address page s = put_entry page (make_room buffer_address s)

-- The loop over the words of a page: two packets where the word of the shadow is not zero.
unfoldable pub forward_words : ℕ → List ℕ → List ℕ → Check → List Call
forward_words address (m ∷ mem) (s ∷ shadow) check =
    let rest = forward_words (address + 8) mem shadow check in
    if s == 0 then rest else forward_packet address m check ∷ forward_packet 0 s check ∷ rest
forward_words address mem shadow check = []

-- A page of the original memory and its shadow.
pub record Page : Type 0 where
  pub address : ℕ
  pub shadow_address : ℕ
  pub mem : List ℕ
  pub shadow : List ℕ

-- Code that stands elsewhere: the functions of utils.h, on the words of a page, and the place where
-- the linker puts `ro_page_buffer.data`.
pub record Platform : Type 0 where
  pub buffer_address : ℕ
  pub set_zero_page : List ℕ → List ℕ
  pub is_zero_page : List ℕ → Bool

-- The calls, and the page afterwards.
unfoldable pub forward_pair : Platform → ℕ → Page → Check → Sender → Sender × Page
forward_pair u nonzero p check s =
    if ltb 8 nonzero
    then (
      send (forward_page p.shadow_address p.shadow check)
          (send (forward_page p.address p.mem check) s),
      record p { shadow = u.set_zero_page p.shadow },
    )
    else if not (nonzero == 0)
    then (
      record s { calls = s.calls ++ forward_words p.address p.mem p.shadow check },
      record p { shadow = u.set_zero_page p.shadow },
    )
    else (
      buffer_ro_page u.buffer_address p.address s,
      record p { shadow = u.set_zero_page p.shadow },
    )

-- `*shadow & 0x80`: the first byte is the lowest of the first word.
abbrev pub is_touched : List ℕ → Bool
is_touched [] = false
is_touched (s ∷ shadow) = not (bit_and s 0x80 == 0)

-- `*shadow = *shadow & 0x7f`.
abbrev pub clear_touched : List ℕ → List ℕ
clear_touched [] = []
clear_touched (s ∷ shadow) = bit_and s 0xffffffffffffff7f ∷ shadow

-- A round of the three loops of `end_iter`.
unfoldable pub end_page : Platform → Page → Sender → Sender × Page
end_page u p s =
    if not (is_touched p.shadow)
    then (s, p)
    else let cleared = clear_touched p.shadow in
      if u.is_zero_page cleared
      then (s, record p { shadow = cleared })
      else let r = clear_read cleared in
        forward_pair u r.0 (record p { shadow = r.1 }) check_required s

-- One of the loops: over shadow_globals, shadow_stacks or shadow_heaps.
unfoldable pub end_pages : Platform → List Page → Sender → Sender × List Page
end_pages u [] s = (s, [])
end_pages u (p ∷ ps) s =
    let r = end_page u p s in let rest = end_pages u ps r.0 in (rest.0, r.1 ∷ rest.1)
